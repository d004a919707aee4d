-- ===== src/Pathfinder/Cleanup.antt =====
-- crates/ironwood/src/pathfinder.rs: what `do_maintenance` drops and what it looks up again.
use yggdrasil_ng.Prelude.{ℕ, List, [], ◌∷◌, none, some, Bool, true, if◌then◌else◌, nat_eq}
use mathlib.Core.Option
use yggdrasil_ng.Prelude.Bytes.{bytes_eq}
use yggdrasil_ng.Prelude.Map.{Map, get, retain}
use yggdrasil_ng.Wire.Message.{PublicKey}
use yggdrasil_ng.Pathfinder.{PathInfo, PathRumor, Pathfinder, elapsed_less}

-- `rumor.send_time.unwrap_or(rumor.created)`
unfoldable pub expiry_base : PathRumor → ℕ
expiry_base rumor = Option.get_or rumor.send_time rumor.created

unfoldable pub keep_path : ℕ → ℕ → PublicKey → PathInfo → Bool
keep_path path_timeout now key info = elapsed_less now info.last_refresh path_timeout

unfoldable pub keep_rumor : ℕ → ℕ → PublicKey → PathRumor → Bool
keep_rumor path_timeout now key rumor = elapsed_less now (expiry_base rumor) path_timeout

unfoldable pub cleanup_expired : Pathfinder → ℕ → ℕ → Pathfinder
cleanup_expired p path_timeout now = record p {
  paths = retain (keep_path path_timeout now) p.paths;
  rumors = retain (keep_rumor path_timeout now) p.rumors;
}

-- `self.paths.get(dest).map_or(true, |info| info.broken)`
unfoldable pub has_no_path : Pathfinder → PublicKey → Bool
has_no_path p dest = elim (get p.paths dest) [ none ↦ true | some info ↦ info.broken ]

unfoldable pub retry_loop : Pathfinder → Map PublicKey PathRumor → List PublicKey
retry_loop p [] = []
retry_loop p ((k, rumor) ∷ m) = elim rumor.traffic [
  | none ↦ retry_loop p m
  | some t ↦ if has_no_path p t.dest then t.dest ∷ retry_loop p m else retry_loop p m
]

unfoldable pub rumors_needing_retry : Pathfinder → List PublicKey
rumors_needing_retry p = retry_loop p p.rumors

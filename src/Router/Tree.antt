-- ===== src/Router/Tree.antt =====
-- crates/ironwood/src/router.rs: the walks from a node up to its root.
pub mod Climb
pub mod Ends
pub mod Coords
pub mod Dists
pub mod Avoid
use yggdrasil_ng.Prelude.{
  ℕ, zero, suc, ◌+◌, List, [], ◌∷◌, ◌++◌, Option, none, some, Bool, true, false, ◌=?◌, length,
  replicate,
}
use yggdrasil_ng.Prelude.Bytes.{bytes_eq}
use yggdrasil_ng.Prelude.Map.{Map, get, insert, contains_key}
use mathlib.Core.List.{reverse}
use mathlib.Core.Option
use yggdrasil_ng.Wire.Path.{PeerPort}
use yggdrasil_ng.Wire.Message.{PublicKey}
use yggdrasil_ng.Router.{RouterInfo}

abbrev pub Infos : Type 0
Infos = Map PublicKey RouterInfo

-- One round for each node of the walk; `none` if there are more than `fuel`.
unfoldable pub coords_loop :
    ℕ
    → Infos
    → PublicKey
    → Map PublicKey (Unit {0})
    → PublicKey
    → List PeerPort
    → Option (PublicKey × List PeerPort)
coords_loop zero infos dest visited next ports = none
coords_loop (suc fuel) infos dest visited next ports = elim (contains_key visited next) [
  | true ↦ some (dest, [])
  | false ↦ elim (get infos next) [
    | none ↦ some (dest, [])
    | some info ↦ elim (next =? info.parent) [
      | true ↦ some (next, reverse ports)
      | false ↦
          coords_loop fuel infos dest (insert visited next tt) info.parent
            (ports ++ (info.port ∷ []))
    ]
  ]
]

-- No node is visited twice, so one round more than there are entries is enough.
unfoldable pub get_root_and_path : Infos → PublicKey → PublicKey × List PeerPort
get_root_and_path infos dest =
    Option.get_or (coords_loop (length infos + 1) infos dest [] dest []) (dest, [])

abbrev pub zero_key : PublicKey
zero_key = replicate 32 0

unfoldable pub dists_loop :
    ℕ → Infos → Map PublicKey ℕ → PublicKey → ℕ → Option (PublicKey × Map PublicKey ℕ × Bool)
dists_loop zero infos dists next dist = none
dists_loop (suc fuel) infos dists next dist = elim (contains_key dists next) [
  | true ↦ some (zero_key, dists, false)
  | false ↦ elim (get infos next) [
    | none ↦ some (zero_key, dists, false)
    | some info ↦ elim (info.parent =? next) [
      | true ↦ some (next, insert dists next dist, true)
      | false ↦ dists_loop fuel infos (insert dists next dist) info.parent (dist + 1)
    ]
  ]
]

unfoldable pub get_root_and_dists : Infos → PublicKey → PublicKey × Map PublicKey ℕ × Bool
get_root_and_dists infos dest =
    Option.get_or (dists_loop (length infos + 1) infos [] dest 0) (zero_key, [], false)

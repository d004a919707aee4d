-- ===== src/Pathfinder/Rumors.antt =====
-- crates/ironwood/src/pathfinder.rs: the lookups that wait for an answer.
use yggdrasil_ng.Prelude.{ℕ, Option, none, some, Bool, true, false, ◌||◌, if◌then◌else◌, nat_eq}
use yggdrasil_ng.Prelude.Bytes.{bytes_eq}
use yggdrasil_ng.Prelude.Map.{get, insert, modify, contains_key}
use yggdrasil_ng.Wire.Message.{PublicKey}
use yggdrasil_ng.Traffic.{TrafficPacket}
use yggdrasil_ng.Pathfinder.{PathRumor, Pathfinder, elapsed_less}

-- `t.map_or(false, |t| t.elapsed() < throttle)`
unfoldable pub recent : Option ℕ → ℕ → ℕ → Bool
recent none throttle now = false
recent (some t) throttle now = elapsed_less now t throttle

unfoldable pub should_throttle_rumor : Pathfinder → PublicKey → ℕ → ℕ → Bool
should_throttle_rumor p xformed_dest throttle now = elim (get p.rumors xformed_dest) [
  | some rumor ↦ recent rumor.send_time throttle now
  | none ↦ false
]

unfoldable pub ensure_rumor : Pathfinder → PublicKey → ℕ → Pathfinder × Bool
ensure_rumor p xformed_dest now = if contains_key p.rumors xformed_dest then (p, false) else (
  record p {
    rumors =
        insert p.rumors xformed_dest
          (record { traffic = none; send_time = none; retry_time = none; created = now });
  },
  true,
)

unfoldable pub mark_rumor_sent : Pathfinder → PublicKey → ℕ → Pathfinder
mark_rumor_sent p xformed_dest now = record p {
  rumors = modify p.rumors xformed_dest (λ rumor. record rumor { send_time = some now });
}

unfoldable pub should_throttle_rumor_retry : Pathfinder → PublicKey → ℕ → ℕ → Bool
should_throttle_rumor_retry p xformed_dest throttle now = elim (get p.rumors xformed_dest) [
  | some rumor ↦ recent rumor.send_time throttle now || recent rumor.retry_time throttle now
  | none ↦ false
]

unfoldable pub mark_rumor_retry : Pathfinder → PublicKey → ℕ → Pathfinder
mark_rumor_retry p xformed_dest now = record p {
  rumors = modify p.rumors xformed_dest (λ rumor. record rumor { retry_time = some now });
}

unfoldable pub cache_rumor_traffic : Pathfinder → PublicKey → TrafficPacket → Pathfinder
cache_rumor_traffic p xformed_dest traffic = record p {
  rumors = modify p.rumors xformed_dest (λ rumor. record rumor { traffic = some traffic });
}

-- `cache_rumor_traffic_if_absent`, on an entry.
unfoldable pub fill_traffic : TrafficPacket → PathRumor → PathRumor
fill_traffic traffic rumor = elim rumor.traffic [
  | none ↦ record rumor { traffic = some traffic }
  | some t ↦ rumor
]

unfoldable pub cache_rumor_traffic_if_absent : Pathfinder → PublicKey → TrafficPacket → Pathfinder
cache_rumor_traffic_if_absent p xformed_dest traffic = record p {
  rumors = modify p.rumors xformed_dest (fill_traffic traffic);
}

-- ===== src/Tests/Pathfinder.antt =====
-- crates/ironwood/src/pathfinder.rs: the theorems at concrete states.
use yggdrasil_ng.Prelude.{
  ◌+◌, ◌<◌, ◌≤◌, ◌≡◌, ◌≢◌, ◌↔◌, refl, List, [], ◌∷◌, none, some, true, false, arith,
}
use yggdrasil_ng.Prelude.Bytes.{bytes_eq, bytes_beq}
use yggdrasil_ng.Prelude.Map.{get, contains_key, Distinct}
use yggdrasil_ng.Wire.Path.{PeerPort}
use yggdrasil_ng.Traffic.{TrafficPacket}
use yggdrasil_ng.Pathfinder.{PathInfo, PathRumor, Pathfinder}
use yggdrasil_ng.Pathfinder.Paths.{learn_path_from_traffic}
use yggdrasil_ng.Pathfinder.Notify.{accept_notify}
use yggdrasil_ng.Pathfinder.Cleanup.{cleanup_expired, expiry_base}
use yggdrasil_ng.Pathfinder.Sequence.{path_broken, received, run, Later, run-Later}
use yggdrasil_ng.Pathfinder.Learning.{
  Acceptable, accept_notify_iff, accept_notify-learn_path_from_traffic_iff,
}
use yggdrasil_ng.Pathfinder.Lifetime.{retried, cached, rumor_run, rumor_run_expires}
use yggdrasil_ng.Tests.{key_a, key_b, some_sig}

abbrev pkt : TrafficPacket
pkt = record {
  path = [];
  from = [];
  source = key_b;
  dest = key_a;
  watermark = 9;
  payload = 1 ∷ [];
  keepalive = false;
}

abbrev path_a : PathInfo
path_a = record {
  path = 3 ∷ [];
  seq = 5;
  req_time = 100;
  last_refresh = 100;
  cached_traffic = some pkt;
  broken = false;
}

abbrev rumor_b : PathRumor
rumor_b = record { traffic = some pkt; send_time = some 90; retry_time = none; created = 80 }

abbrev finder : Pathfinder
finder = record {
  info = record { seq = 0; path = []; sig = some_sig };
  paths = (key_a, path_a) ∷ [];
  rumors = (key_b, rumor_b) ∷ [];
}

found_a : get finder.paths key_a ≡ some path_a
unfolding get bytes_beq
found_a = refl

found_b : get finder.rumors key_b ≡ some rumor_b
unfolding get bytes_beq
found_b = refl

one_rumor : Distinct finder.rumors
unfolding get
one_rumor = (refl, tt)

run-Later_example :
    (j : PathInfo) × (get
        (run finder (path_broken key_a ∷ received key_a (7 ∷ []) 200 ∷ [])).paths
        key_a
      ≡ some j)
    × Later path_a j
run-Later_example =
    run-Later (path_broken key_a ∷ received key_a (7 ∷ []) 200 ∷ []) finder key_a path_a found_a

accept_notify_iff_example :
    ((accept_notify finder key_a key_b 6 (7 ∷ []) 200).1 ≡ true)
    ↔ Acceptable (get finder.paths key_a) (contains_key finder.rumors key_b) 6 (7 ∷ [])
accept_notify_iff_example = accept_notify_iff finder key_a key_b 6 (7 ∷ []) 200

unknown_b : contains_key finder.paths key_b ≡ false
unfolding contains_key get bytes_beq
unknown_b = refl

abbrev learned : List PeerPort
learned = 4 ∷ []

accept_notify-learn_path_from_traffic_iff_example :
    ((accept_notify (learn_path_from_traffic finder key_b learned 200) key_b key_b 1 learned 300).1
      ≡ true)
    ↔ ((0 < 1) × (learned ≢ learned))
accept_notify-learn_path_from_traffic_iff_example =
    accept_notify-learn_path_from_traffic_iff finder key_b learned 200 unknown_b key_b 1 learned 300

base_b : expiry_base rumor_b + 60 ≤ 150
unfolding expiry_base
base_b = omega arith

rumor_run_expires_example :
    get
      (cleanup_expired (rumor_run finder (retried key_b 140 ∷ cached key_b pkt ∷ [])) 60 150).rumors
      key_b
    ≡ none
rumor_run_expires_example =
    rumor_run_expires (retried key_b 140 ∷ cached key_b pkt ∷ []) finder key_b rumor_b 60 150
      one_rumor found_b base_b

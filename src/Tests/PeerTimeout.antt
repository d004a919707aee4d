-- ===== src/Tests/PeerTimeout.antt =====
-- crates/ironwood/src/peer_timeout.rs: the theorems at the default configuration.
use yggdrasil_ng.Prelude.{ℕ, ◌*◌, ◌≡◌, ◌≤◌, refl, [], ◌∷◌, ◌++◌, some, true, arith}
use yggdrasil_ng.Prelude.Bytes.{bytes_eq}
use yggdrasil_ng.PeerTimeout.{
  AdaptiveTimeoutConfig, DurableLiveness, default_config, validate, millis, compute, current,
  new_durable,
}
use yggdrasil_ng.PeerTimeout.Bounds.{IsValid, compute-bounds}
use yggdrasil_ng.PeerTimeout.Sticky.{
  replied, timed_out, run, IsBounded, current-timed_out, run_new-IsBounded,
}

-- The default with adaptive timeouts.
abbrev adaptive_config : AdaptiveTimeoutConfig
adaptive_config = record default_config { adaptive = true }

adaptive_config-IsValid : IsValid adaptive_config
adaptive_config-IsValid = record { accepted = unfold validate in refl; fits = omega arith }

compute-bounds_example :
    (t : ℕ) × (compute adaptive_config 30 0 0 ≡ some (t * 1000000))
    × (millis adaptive_config.min_interval ≤ t)
    × (t ≤ millis adaptive_config.max_interval)
compute-bounds_example = compute-bounds adaptive_config adaptive_config-IsValid refl 30 0 0

abbrev fresh_state : DurableLiveness
fresh_state = new_durable 3000

current-timed_out_example :
    (t : ℕ) × (current adaptive_config (
        run adaptive_config fresh_state
          ((replied 40000000 ∷ []) ++ (timed_out ∷ (replied 30000000 ∷ []))))
      ≡ some (t * 1000000))
    × (millis adaptive_config.problem_min ≤ t)
    × (t ≤ millis adaptive_config.max_interval)
current-timed_out_example =
    current-timed_out adaptive_config adaptive_config-IsValid (replied 40000000 ∷ [])
      (replied 30000000 ∷ []) fresh_state refl

run_new-IsBounded_example : IsBounded adaptive_config (
    run adaptive_config
      (new_durable (millis adaptive_config.min_interval))
      (timed_out ∷ replied 70000000 ∷ []))
run_new-IsBounded_example =
    run_new-IsBounded adaptive_config adaptive_config-IsValid (timed_out ∷ replied 70000000 ∷ [])

-- ===== src/PeerTimeout/Bounds.antt =====
-- The interval lies within its configured bounds.
use yggdrasil_ng.Prelude.{
  ℕ, ◌*◌, ◌^◌, ◌<◌, ◌≤◌, ◌≡◌, ◌≢◌, refl, ap, ◌∙◌, none, some, true, false, not, ltb, if◌then◌else◌,
  min, max, arith,
}
use native.Mathlib.Nat.{mul-le-mul_left}
use yggdrasil_ng.PeerTimeout.{
  AdaptiveTimeoutConfig, validate, millis, saturating_add, clamp, from_rtt, applied_floor,
  from_millis, compute,
}

-- The configuration is accepted, and its durations fit in 64 bits of milliseconds.
pub record IsValid (cfg : AdaptiveTimeoutConfig) : Type 0 where
  pub accepted : validate cfg ≡ none
  pub fits : cfg.max_interval < 2 ^ 64 * 1000000

module _ (cfg : AdaptiveTimeoutConfig) (valid : IsValid cfg) where
  pub min-le-max : cfg.min_interval ≤ cfg.max_interval
  min-le-max = let h = valid.accepted in unfold validate in ground arith

  pub problem-le-max : cfg.adaptive ≡ true → cfg.problem_min ≤ cfg.max_interval
  problem-le-max a = let h = valid.accepted in unfold validate in ground arith

  applied_floor-le : (floor_ms : ℕ) → applied_floor cfg floor_ms ≤ millis cfg.max_interval
  unfolding applied_floor
  applied_floor-le floor_ms = omega arith

  low-le-applied_floor : (floor_ms : ℕ) → millis cfg.min_interval ≤ applied_floor cfg floor_ms
  unfolding applied_floor
  low-le-applied_floor floor_ms = let h = min-le-max in let fits = valid.fits in omega arith

clamp-some :
    (x low high : ℕ) → low ≤ high → (t : ℕ) × (clamp x low high ≡ some t) × (low ≤ t) × (t ≤ high)
unfolding clamp
clamp-some x low high h =
    let ordered : ltb high low ≡ false = ground arith in
    (min (max x low) high, rw (clamp, ordered) refl, omega arith, omega arith)

module _ (cfg : AdaptiveTimeoutConfig) (valid : IsValid cfg) (adaptive : cfg.adaptive ≡ true)
    (ewma_ms penalty_ms floor_ms : ℕ) where
  compute-adaptive :
      compute cfg ewma_ms penalty_ms floor_ms
      ≡ from_millis (
          clamp
            (saturating_add (from_rtt cfg ewma_ms (applied_floor cfg floor_ms)) penalty_ms)
            (applied_floor cfg floor_ms)
            (millis cfg.max_interval))
  unfolding compute
  compute-adaptive =
      ap
        (λ b.
          if not b
          then some cfg.fixed_or_initial
          else from_millis (
              clamp (saturating_add (from_rtt cfg ewma_ms (applied_floor cfg floor_ms)) penalty_ms)
                (applied_floor cfg floor_ms) (millis cfg.max_interval)))
        adaptive

  pub compute-applied_floor :
      (t : ℕ) × (compute cfg ewma_ms penalty_ms floor_ms ≡ some (t * 1000000))
      × (applied_floor cfg floor_ms ≤ t)
      × (t ≤ millis cfg.max_interval)
  compute-applied_floor =
      let low = applied_floor cfg floor_ms in
      let total = saturating_add (from_rtt cfg ewma_ms low) penalty_ms in
      let (t, e, above, below) =
        clamp-some total low (millis cfg.max_interval) (applied_floor-le cfg valid floor_ms) in
      (t, compute-adaptive ∙ ap from_millis e, above, below)

  -- Under an accepted configuration with adaptive timeouts whose maximum fits in 64 bits of
  -- milliseconds, the interval never panics and lies between the minimum and the maximum.
  pub compute-bounds :
      (t : ℕ) × (compute cfg ewma_ms penalty_ms floor_ms ≡ some (t * 1000000))
      × (millis cfg.min_interval ≤ t)
      × (t ≤ millis cfg.max_interval)
  compute-bounds =
      let (t, e, above, below) = compute-applied_floor in
      (t, e, omega (arith, low-le-applied_floor cfg valid floor_ms), below)

-- Monotone: slower replies, a greater penalty or a greater floor never shorten the interval.
pub compute-le :
    (cfg : AdaptiveTimeoutConfig)
    (ewma_ms penalty_ms floor_ms ewma_ms' penalty_ms' floor_ms' t t' : ℕ)
    → ewma_ms ≢ 0
    → ewma_ms ≤ ewma_ms'
    → penalty_ms ≤ penalty_ms'
    → floor_ms ≤ floor_ms'
    → compute cfg ewma_ms penalty_ms floor_ms ≡ some t
    → compute cfg ewma_ms' penalty_ms' floor_ms' ≡ some t'
    → t ≤ t'
unfolding compute from_rtt applied_floor clamp
compute-le cfg e p f e' p' f' t t' nz he hp hf h h' =
    let more = mul-le-mul_left cfg.rtt_mult he in ground arith

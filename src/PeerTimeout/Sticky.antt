-- ===== src/PeerTimeout/Sticky.antt =====
-- The floor of the interval rises with a timeout and never falls, and what is stored stays in bounds.
use yggdrasil_ng.Prelude.{
  ℕ, ◌*◌, ◌^◌, ◌<◌, ◌≤◌, ◌≡◌, refl, ap, ◌∙◌, List, [], ◌∷◌, ◌++◌, some, true, arith,
}
use yggdrasil_ng.PeerTimeout.{
  AdaptiveTimeoutConfig, DurableLiveness, millis, current, applied_floor, new_durable,
}
use yggdrasil_ng.PeerTimeout.Control.{
  Connection, arm, arm_now, observe_sample, sample_millis, new_ewma, raise_floor,
}
use yggdrasil_ng.PeerTimeout.Bounds.{IsValid, min-le-max, problem-le-max, compute-applied_floor}

-- What happens to a peer's durable state: a reply after so long, or a missed deadline.
pub data Event : Type 0 where
  replied : ℕ → Event
  timed_out : Event

module _ (cfg : AdaptiveTimeoutConfig) where
  pub step : DurableLiveness → Event → DurableLiveness
  step d (replied sample) = observe_sample cfg d sample
  step d timed_out = raise_floor cfg d

  pub run : DurableLiveness → List Event → DurableLiveness
  run d [] = d
  run d (e ∷ es) = run (step d e) es

  -- The bounds of what is stored, in milliseconds.
  pub record IsBounded (d : DurableLiveness) : Type 0 where
    pub floor_above : millis cfg.min_interval ≤ d.floor_ms
    pub floor_below : d.floor_ms ≤ millis cfg.max_interval
    pub penalty_below : d.penalty_ms ≤ millis cfg.max_interval
    pub ewma_below : d.ewma_ms ≤ millis cfg.max_interval

  floor-step : (d : DurableLiveness) (e : Event) → d.floor_ms ≤ (step d e).floor_ms
  unfolding step observe_sample raise_floor
  floor-step d (replied sample) = ground arith
  floor-step d timed_out = ground arith

  pub floor-run : (es : List Event) (d : DurableLiveness) → d.floor_ms ≤ (run d es).floor_ms
  unfolding run
  floor-run [] d = omega arith
  floor-run (e ∷ es) d = omega (arith, floor-step d e, floor-run es (step d e))

module _ (cfg : AdaptiveTimeoutConfig) (valid : IsValid cfg) where
  new_ewma-le :
      (prev sample bound : ℕ)
      → prev ≤ bound
      → sample ≤ bound
      → bound < 2 ^ 64
      → new_ewma prev sample ≤ bound
  unfolding new_ewma
  new_ewma-le prev sample bound h l fits = ground arith

  sample_millis-le : (sample : ℕ) → sample_millis cfg sample ≤ millis cfg.max_interval
  unfolding sample_millis
  sample_millis-le sample = let fits = valid.fits in omega arith

  observe_sample-IsBounded :
      (d : DurableLiveness) (sample : ℕ)
      → IsBounded cfg d
      → IsBounded cfg (observe_sample cfg d sample)
  unfolding observe_sample
  observe_sample-IsBounded d sample h =
      let below = sample_millis-le sample in
      let small : millis cfg.max_interval < 2 ^ 64 = omega arith in
      let ewma =
        new_ewma-le d.ewma_ms (sample_millis cfg sample) (millis cfg.max_interval) h.ewma_below
          below in
      ground arith

  raise_floor-IsBounded :
      (d : DurableLiveness) → IsBounded cfg d → IsBounded cfg (raise_floor cfg d)
  unfolding raise_floor
  raise_floor-IsBounded d h = let fits = valid.fits in ground (arith, problem-le-max cfg valid)

  pub run-IsBounded :
      (es : List Event) (d : DurableLiveness) → IsBounded cfg d → IsBounded cfg (run cfg d es)
  unfolding run step
  run-IsBounded [] d h = h
  run-IsBounded (replied sample ∷ es) d h =
      run-IsBounded es (observe_sample cfg d sample) (observe_sample-IsBounded d sample h)
  run-IsBounded (timed_out ∷ es) d h =
      run-IsBounded es (raise_floor cfg d) (raise_floor-IsBounded d h)

  new_durable-IsBounded : IsBounded cfg (new_durable (millis cfg.min_interval))
  unfolding new_durable
  new_durable-IsBounded =
      let ordered = min-le-max cfg valid in
      let fits = valid.fits in
      record {
        floor_above = omega arith;
        floor_below = omega arith;
        penalty_below = omega arith;
        ewma_below = omega arith;
      }

  -- Under an accepted configuration whose maximum fits in 64 bits of milliseconds, after any
  -- replies and timeouts from the start, the floor lies between the minimum and the maximum, the
  -- penalty and the average are at most the maximum.
  pub run_new-IsBounded :
      (es : List Event) → IsBounded cfg (run cfg (new_durable (millis cfg.min_interval)) es)
  run_new-IsBounded es =
      run-IsBounded es (new_durable (millis cfg.min_interval)) new_durable-IsBounded

  raised-floor :
      (d : DurableLiveness)
      → cfg.adaptive ≡ true
      → millis cfg.problem_min ≤ (raise_floor cfg d).floor_ms
  unfolding raise_floor
  raised-floor d a = ground arith

  run-append :
      (es fs : List Event) (d : DurableLiveness) → run cfg d (es ++ fs) ≡ run cfg (run cfg d es) fs
  unfolding run
  run-append [] fs d = refl
  run-append (e ∷ es) fs d = run-append es fs (step cfg d e)

  problem-le-applied_floor :
      (floor_ms : ℕ)
      → cfg.adaptive ≡ true
      → millis cfg.problem_min ≤ floor_ms
      → millis cfg.problem_min ≤ applied_floor cfg floor_ms
  unfolding applied_floor
  problem-le-applied_floor floor_ms a h =
      let fits = valid.fits in ground (arith, problem-le-max cfg valid)

  -- Under an accepted configuration with adaptive timeouts whose maximum fits in 64 bits of
  -- milliseconds, after a timeout and any replies and timeouts around it the interval is never
  -- below the problem minimum nor above the maximum.
  pub current-timed_out :
      (before after : List Event) (d : DurableLiveness)
      → cfg.adaptive ≡ true
      → (t : ℕ) × (current cfg (run cfg d (before ++ (timed_out ∷ after))) ≡ some (t * 1000000))
        × (millis cfg.problem_min ≤ t)
        × (t ≤ millis cfg.max_interval)
  unfolding current run step
  current-timed_out before after d a =
      let missed = raise_floor cfg (run cfg d before) in
      let last = run cfg missed after in
      let high : millis cfg.problem_min ≤ last.floor_ms =
        omega (arith, raised-floor (run cfg d before) a, floor-run cfg after missed) in
      let (t, e, above, below) =
        compute-applied_floor cfg valid a last.ewma_ms last.penalty_ms last.floor_ms in
      (
        t,
        ap (current cfg) (run-append before (timed_out ∷ after) d) ∙ e,
        omega (arith, problem-le-applied_floor last.floor_ms a high),
        below,
      )

arm-armed :
    (cfg : AdaptiveTimeoutConfig) (d : DurableLiveness) (c : Connection) (now expires : ℕ)
    → c.deadline_slot ≡ some expires
    → arm cfg d c now ≡ some (c, expires)
unfolding arm
arm-armed cfg d c now expires h = simp (arm, h)

arm-slot :
    (cfg : AdaptiveTimeoutConfig) (d : DurableLiveness) (c c' : Connection) (now expires : ℕ)
    → arm cfg d c now ≡ some (c', expires)
    → c'.deadline_slot ≡ some expires
unfolding arm arm_now
arm-slot cfg d c c' now expires h = ground arith

-- An armed deadline stays: arming again returns it and changes nothing.
pub arm_again :
    (cfg : AdaptiveTimeoutConfig) (d d' : DurableLiveness) (c c' : Connection)
    (now later expires : ℕ)
    → arm cfg d c now ≡ some (c', expires)
    → arm cfg d' c' later ≡ some (c', expires)
arm_again cfg d d' c c' now later expires h =
    arm-armed cfg d' c' later expires (arm-slot cfg d c c' now expires h)

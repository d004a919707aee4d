-- ===== src/PeerTimeout.antt =====
-- crates/ironwood/src/peer_timeout.rs: how long a silent peer is waited for. A `Duration` is a number
-- of nanoseconds, an `Instant` one that the caller passes in for the clock.
pub mod Control
pub mod Registry
pub mod Bounds
pub mod Sticky
pub mod Sharing
use yggdrasil_ng.Prelude.{
  ℕ, ◌+◌, ◌*◌, ◌/◌, ◌%◌, ◌^◌, ◌-◌, Option, none, some, Bool, true, false, ◌&&◌, not, ltb, ◌==◌,
  if◌then◌else◌, min, max,
}

pub record AdaptiveTimeoutConfig : Type 0 where
  pub fixed_or_initial : ℕ
  pub adaptive : Bool
  pub min_interval : ℕ
  pub problem_min : ℕ
  pub max_interval : ℕ
  pub base : ℕ
  pub rtt_mult : ℕ
  pub penalty_step : ℕ
  pub penalty_decay : ℕ

abbrev pub seconds : ℕ
seconds = 1000000000

-- `AdaptiveTimeoutConfig::default`
abbrev pub default_config : AdaptiveTimeoutConfig
default_config = record {
  fixed_or_initial = 15 * seconds;
  adaptive = false;
  min_interval = 5 * seconds;
  problem_min = 15 * seconds;
  max_interval = 30 * seconds;
  base = 2 * seconds;
  rtt_mult = 8;
  penalty_step = 5 * seconds;
  penalty_decay = 500000000;
}

-- The messages of `validate`, by the check that fails.
pub data ConfigError : Type 0 where
  zero_mult max_below_min max_below_problem problem_below_min zero_fixed zero_min : ConfigError

-- `Err`, or none where the configuration is accepted.
unfoldable pub validate : AdaptiveTimeoutConfig → Option ConfigError
validate cfg =
    if cfg.rtt_mult == 0
    then some zero_mult
    else if ltb cfg.max_interval cfg.min_interval
    then some max_below_min
    else if cfg.adaptive && ltb cfg.max_interval cfg.problem_min
    then some max_below_problem
    else if cfg.adaptive && ltb cfg.problem_min cfg.min_interval
    then some problem_below_min
    else if not cfg.adaptive && cfg.fixed_or_initial == 0
    then some zero_fixed
    else if cfg.min_interval == 0
    then some zero_min
    else none

-- `as_millis() as u64`
abbrev pub millis : ℕ → ℕ
millis d = d / 1000000 % 2 ^ 64

abbrev pub u64_max : ℕ
u64_max = 18446744073709551615

abbrev pub saturating_add : ℕ → ℕ → ℕ
saturating_add a b = min (a + b) u64_max

-- `Ord::clamp`, which panics where the bounds are crossed.
unfoldable pub clamp : ℕ → ℕ → ℕ → Option ℕ
clamp x low high = if ltb high low then none else some (min (max x low) high)

unfoldable pub from_rtt : AdaptiveTimeoutConfig → ℕ → ℕ → ℕ
from_rtt cfg ewma_ms floor_ms =
    if ewma_ms == 0
    then floor_ms
    else saturating_add (millis cfg.base) (min (cfg.rtt_mult * ewma_ms) u64_max)

unfoldable pub applied_floor : AdaptiveTimeoutConfig → ℕ → ℕ
applied_floor cfg floor_ms = min (max floor_ms (millis cfg.min_interval)) (millis cfg.max_interval)

-- `Duration::from_millis`
abbrev pub from_millis : Option ℕ → Option ℕ
from_millis none = none
from_millis (some ms) = some (ms * 1000000)

-- The interval; none is a panic.
unfoldable pub compute : AdaptiveTimeoutConfig → ℕ → ℕ → ℕ → Option ℕ
compute cfg ewma_ms penalty_ms floor_ms =
    if not cfg.adaptive
    then some cfg.fixed_or_initial
    else let low = applied_floor cfg floor_ms in
      let total = saturating_add (from_rtt cfg ewma_ms low) penalty_ms in
      from_millis (clamp total low (millis cfg.max_interval))

abbrev max_duration : ℕ
max_duration = 18446744073709551615 * 1000000000 + 999999999

-- `Duration::saturating_mul` stops at the greatest duration.
unfoldable pub total_silence_budget : AdaptiveTimeoutConfig → ℕ → ℕ → ℕ → ℕ → Option ℕ
unfolding compute
total_silence_budget cfg ewma_ms penalty_ms floor_ms probe_count =
    elim (compute cfg ewma_ms penalty_ms floor_ms) [
      | none ↦ none
      | some interval ↦ some (min (interval * max probe_count 1) max_duration)
    ]

pub record DurableLiveness : Type 0 where
  pub ewma_ms : ℕ
  pub penalty_ms : ℕ
  pub floor_ms : ℕ

-- `DurableLiveness::new`
unfoldable pub new_durable : ℕ → DurableLiveness
new_durable initial_floor_ms = record { ewma_ms = 0; penalty_ms = 0; floor_ms = initial_floor_ms }

pub record LivenessSnapshot : Type 0 where
  pub timeout_ms : ℕ
  pub ewma_ms : ℕ
  pub penalty_ms : ℕ
  pub floor_ms : ℕ
  pub degraded : Bool

-- `PeerTimeoutCtrl::current`, on the durable state.
unfoldable pub current : AdaptiveTimeoutConfig → DurableLiveness → Option ℕ
current cfg d = compute cfg d.ewma_ms d.penalty_ms d.floor_ms

unfoldable pub is_degraded : AdaptiveTimeoutConfig → DurableLiveness → Bool
is_degraded cfg d = cfg.adaptive && not (ltb d.floor_ms (millis cfg.problem_min))

unfoldable pub snapshot_of : AdaptiveTimeoutConfig → DurableLiveness → Option LivenessSnapshot
snapshot_of cfg d = elim (current cfg d) [
  | none ↦ none
  | some timeout ↦ some (record {
    timeout_ms = millis timeout;
    ewma_ms = d.ewma_ms;
    penalty_ms = d.penalty_ms;
    floor_ms = d.floor_ms;
    degraded = is_degraded cfg d;
  })
]

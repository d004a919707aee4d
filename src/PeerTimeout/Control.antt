-- ===== src/PeerTimeout/Control.antt =====
-- crates/ironwood/src/peer_timeout.rs: `PeerTimeoutCtrl`, the deadline of one connection.
use yggdrasil_ng.Prelude.{
  ℕ, ◌+◌, ◌*◌, ◌/◌, ◌%◌, ◌^◌, ◌-◌, Option, none, some, not, ◌==◌, if◌then◌else◌, min, max,
}
use yggdrasil_ng.PeerTimeout.{
  AdaptiveTimeoutConfig, DurableLiveness, millis, saturating_add, current,
}

pub record ArmEpoch : Type 0 where
  pub at : ℕ
  pub timeout : ℕ

-- The deadline slot, which the caller owns, and the epoch of the connection.
pub record Connection : Type 0 where
  pub deadline_slot : Option ℕ
  pub epoch : Option ArmEpoch

-- `last_armed_timeout`
unfoldable pub last_armed_timeout : Connection → Option ℕ
last_armed_timeout c = elim c.epoch [ none ↦ none | some e ↦ some e.timeout ]

unfoldable pub arm_now : Connection → Option ℕ → ℕ → Option (Connection × ℕ)
arm_now c none now = none
arm_now c (some t) now = some (
  record { deadline_slot = some (now + t); epoch = some (record { at = now; timeout = t }) },
  now + t,
)

-- The deadline; none is a panic.
unfoldable pub arm :
    AdaptiveTimeoutConfig → DurableLiveness → Connection → ℕ → Option (Connection × ℕ)
arm cfg d c now = elim c.deadline_slot [
  | some existing ↦ some (c, existing)
  | none ↦ arm_now c (current cfg d) now
]

unfoldable pub new_ewma : ℕ → ℕ → ℕ
new_ewma prev sample_ms = if prev == 0 then sample_ms else (prev * 7 + sample_ms) % 2 ^ 64 / 8

-- The sample in milliseconds, at most `max`.
unfoldable pub sample_millis : AdaptiveTimeoutConfig → ℕ → ℕ
sample_millis cfg sample = min (sample / 1000000) (cfg.max_interval / 1000000) % 2 ^ 64

unfoldable pub observe_sample : AdaptiveTimeoutConfig → DurableLiveness → ℕ → DurableLiveness
observe_sample cfg d sample =
    if not cfg.adaptive then d else if sample_millis cfg sample == 0 then d else record {
      ewma_ms = new_ewma d.ewma_ms (sample_millis cfg sample);
      penalty_ms = d.penalty_ms - millis cfg.penalty_decay;
      floor_ms = d.floor_ms;
    }

unfoldable pub observe_epoch :
    AdaptiveTimeoutConfig → DurableLiveness → Option ArmEpoch → ℕ → DurableLiveness
observe_epoch cfg d none now = d
observe_epoch cfg d (some e) now = observe_sample cfg d (now - e.at)

unfoldable pub clear_on_reply :
    AdaptiveTimeoutConfig → DurableLiveness → Connection → ℕ → DurableLiveness × Connection
clear_on_reply cfg d c now =
    (observe_epoch cfg d c.epoch now, record { deadline_slot = none; epoch = none })

-- The durable part of `on_timeout`.
unfoldable pub raise_floor : AdaptiveTimeoutConfig → DurableLiveness → DurableLiveness
raise_floor cfg d =
    if cfg.adaptive
    then record {
      ewma_ms = d.ewma_ms;
      penalty_ms =
          min (saturating_add d.penalty_ms (millis cfg.penalty_step)) (millis cfg.max_interval);
      floor_ms = max d.floor_ms (millis cfg.problem_min);
    }
    else d

unfoldable pub on_timeout :
    AdaptiveTimeoutConfig → DurableLiveness → Connection → DurableLiveness × Connection
on_timeout cfg d c = (raise_floor cfg d, record { deadline_slot = c.deadline_slot; epoch = none })

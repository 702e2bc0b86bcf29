-- ===== src/Notify/Timers.antt =====
-- The timers of a subscriber and their delays.
use libapostol.Prelude.{ℕ, ◌*◌, ◌/◌, max, ltb, ◌||◌, none, some, if◌then◌else◌}
use libapostol.Notify.{NotifySubscriber}

abbrev pub heartbeat_every : NotifySubscriber → ℕ
heartbeat_every s =
    if ltb 0 s.options.heartbeat
    then s.options.heartbeat
    else if ltb 0 s.alive
    then max 1 (s.alive / 3)
    else 5

abbrev pub sweep_every : NotifySubscriber → ℕ
sweep_every s =
    if ltb 0 s.options.sweep
    then s.options.sweep
    else if ltb 0 s.policy_sweep
    then s.policy_sweep
    else 2

abbrev pub alive_seconds : NotifySubscriber → ℕ
alive_seconds s = if ltb 0 s.alive then s.alive else 15

abbrev pub cancel_timers : NotifySubscriber → NotifySubscriber
cancel_timers s = record s {
  heartbeat_timer = none;
  sweep_timer = none;
  policy_timer = none;
  retry_timer = none;
}

abbrev pub arm_heartbeat : NotifySubscriber → NotifySubscriber
arm_heartbeat s = record s {
  heartbeat_timer = (if s.stopped then none else some (heartbeat_every s));
}

-- `drawn` is the number that the generator draws for the base of the delay.
abbrev pub arm_sweep : (ℕ → ℕ) → NotifySubscriber → NotifySubscriber
arm_sweep drawn s = record s {
  sweep_timer =
      (if s.draining || s.stopped then none else some (max 1 (drawn (sweep_every s * 1000))));
}

abbrev pub arm_policy : NotifySubscriber → NotifySubscriber
arm_policy s = record s {
  policy_timer =
      (if s.stopped || ltb s.options.policy_every 1 then none else some s.options.policy_every);
}

abbrev pub arm_retry : NotifySubscriber → NotifySubscriber
arm_retry s = record s {
  retry_timer = (if s.draining || s.stopped then none else some (max 1 s.options.retry));
}

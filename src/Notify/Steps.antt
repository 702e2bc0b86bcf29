-- ===== src/Notify/Steps.antt =====
-- The timers of a subscriber run out, and all that happens to one.
use libapostol.Prelude.{ℕ, Option, none, List, [], ◌∷◌, Bytes, if◌then◌else◌}
use libapostol.Notify.{NotifyRow, NotifySubscriber}
use libapostol.Notify.Timers.{arm_heartbeat, arm_sweep, arm_policy}
use libapostol.Notify.Rows.{Call, perform}
use libapostol.Notify.Events.{
  subscribe, heartbeat_now, sweep_now, read_policy, start, Chance, Subscribed, answer_subscribe,
  confirm_listen, on_wake, answer_take, Beat, answer_heartbeat, answer_sweep, Policy, is_armed,
  answer_policy,
}

-- A timer that is armed runs out.
abbrev pub if_armed :
    Option ℕ → (NotifySubscriber → NotifySubscriber) → NotifySubscriber → NotifySubscriber
if_armed timer f s = if is_armed timer then f s else s

unfoldable pub heartbeat_tick : NotifySubscriber → NotifySubscriber
heartbeat_tick s = arm_heartbeat (heartbeat_now (record s { heartbeat_timer = none }))

unfoldable pub sweep_tick : (ℕ → ℕ) → NotifySubscriber → NotifySubscriber
sweep_tick drawn s = arm_sweep drawn (sweep_now (record s { sweep_timer = none }))

unfoldable pub policy_tick : NotifySubscriber → NotifySubscriber
policy_tick s = arm_policy (read_policy (record s { policy_timer = none }))

unfoldable pub retry_tick : NotifySubscriber → NotifySubscriber
retry_tick s = subscribe (record s { retry_timer = none })

pub data Event : Type 0 where
  starts : Event
  calls : Call → Event
  wakes : Bytes → Event
  confirms_listen : Event
  answers_subscribe : Chance → Subscribed → Event
  answers_take : List Call → Option Bytes → NotifyRow → Event
  answers_heartbeat : List Call → Beat → Event
  answers_sweep : Event
  answers_policy : (ℕ → ℕ) → Option Policy → Event
  ticks_heartbeat : Event
  ticks_sweep : (ℕ → ℕ) → Event
  ticks_policy ticks_retry : Event

abbrev pub step : Event → NotifySubscriber → NotifySubscriber
step starts s = start s
step (calls c) s = perform c s
step (wakes payload) s = on_wake payload s
step confirms_listen s = confirm_listen s
step (answers_subscribe c answer) s = answer_subscribe c answer s
step (answers_take cs error row) s = answer_take cs error row s
step (answers_heartbeat cs beat) s = answer_heartbeat cs beat s
step answers_sweep s = answer_sweep s
step (answers_policy drawn answer) s = answer_policy drawn answer s
step ticks_heartbeat s = if_armed s.heartbeat_timer heartbeat_tick s
step (ticks_sweep drawn) s = if_armed s.sweep_timer (sweep_tick drawn) s
step ticks_policy s = if_armed s.policy_timer policy_tick s
step ticks_retry s = if_armed s.retry_timer retry_tick s

unfoldable pub run : List Event → NotifySubscriber → NotifySubscriber
run [] s = s
run (e ∷ es) s = run es (step e s)

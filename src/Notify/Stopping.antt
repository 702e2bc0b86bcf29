-- ===== src/Notify/Stopping.antt =====
-- A subscriber either is not stopped or was stopped whole, whatever happens before.
pub mod Runs
use libapostol.Prelude.{
  ℕ, ◌+◌, ◌-◌, ◌*◌, ◌≡◌, refl, ◌==◌, ltb, true, false, not, ◌&&◌, ◌||◌, Option, none, some, List,
  [], ◌∷◌, Bytes, by_test, by_option, inl, inr, arith, is_empty, ◌⊎◌,
}
use libapostol.Notify.{
  NotifyRow, NotifyOptions, on_row, registered, NotifySubscriber, new_subscriber, emit,
}
use libapostol.Notify.Timers.{alive_seconds}
use libapostol.Notify.Rows.{
  has_row, is_with_module, complete, refuse, drain, stop, Call, completes, refuses, drains, stops,
  perform, perform_all,
}
use libapostol.Notify.Events.{
  subscribe, heartbeat_now, sweep_now, read_policy, start, Chance, begins, on_subscribed,
  Subscribed, not_subscribed, subscribed, answer_subscribe, confirm_listen, take, on_wake, with_row,
  answer_take, Beat, not_beaten, unknown, beaten, resubscribe, lapse, answer_heartbeat,
  answer_sweep, Policy, answer_policy, is_armed,
}
use libapostol.Notify.Steps.{
  heartbeat_tick, sweep_tick, policy_tick, retry_tick, Event, starts, calls, wakes, confirms_listen,
  answers_subscribe, answers_take, answers_heartbeat, answers_sweep, answers_policy,
  ticks_heartbeat, ticks_sweep, ticks_policy, ticks_retry, step, run,
}
use libapostol.Notify.Stopped.{IsStopped, Still, perform-Still}
use libapostol.Notify.Stopped.Runs.{step-Still, run-Still}

abbrev pub Settled : NotifySubscriber → Type 0
Settled s = (s.stopped ≡ false) ⊎ IsStopped s

-- An operation that leaves a stopped subscriber stopped, and stops none.
abbrev pub Keeps : (NotifySubscriber → NotifySubscriber) → Type 0
Keeps f = (s : NotifySubscriber) → s.stopped ≡ false → (f s).stopped ≡ false

complete-Keeps : (row : NotifyRow) (sql : Bytes) → Keeps (complete row sql)
unfolding complete
complete-Keeps row sql s e =
    by_test (λ (t : NotifySubscriber). t.stopped ≡ false) (is_with_module row s) _ _ (λ _. e)
      (λ _. e)

refuse-Keeps : (row : NotifyRow) (reason : Bytes) → Keeps (refuse row reason)
unfolding refuse
refuse-Keeps row reason s e =
    by_test (λ (t : NotifySubscriber). t.stopped ≡ false) (is_with_module row s) _ _ (λ _. e)
      (λ _. e)

drain-Keeps : Keeps drain
unfolding drain
drain-Keeps s e = ground (arith, e)

pub subscribe-Keeps : Keeps subscribe
unfolding subscribe
subscribe-Keeps s e = ground (arith, e)

pub heartbeat_now-Keeps : Keeps heartbeat_now
unfolding heartbeat_now
heartbeat_now-Keeps s e = ground (arith, e)

pub sweep_now-Keeps : Keeps sweep_now
unfolding sweep_now
sweep_now-Keeps s e = ground (arith, e)

pub read_policy-Keeps : Keeps read_policy
unfolding read_policy
read_policy-Keeps s e = ground (arith, e)

pub on_wake-Keeps : (payload : Bytes) → Keeps (on_wake payload)
unfolding on_wake take
on_wake-Keeps payload s e = ground (arith, e)

pub answer_policy-Keeps : (drawn : ℕ → ℕ) (a : Option Policy) → Keeps (answer_policy drawn a)
unfolding answer_policy
answer_policy-Keeps drawn none s e = e
answer_policy-Keeps drawn (some p) s e = ground (arith, e)

pub start-Keeps : Keeps start
unfolding start read_policy subscribe
start-Keeps s e = ground (arith, e)

-- A stop stops whole.
stop-Settled :
    (reason : Bytes) (s : NotifySubscriber) → s.stopped ≡ false → IsStopped (stop reason s)
unfolding stop
stop-Settled reason s e =
    by_test IsStopped (s.stopped && s.number == 0 || s.number == 0 && is_empty s.taken) _ _
      (λ nothing. record {
        stopped = refl;
        draining = refl;
        number = ground (arith, nothing);
        taken = ground (arith, nothing, e);
        heartbeat_timer = refl;
        sweep_timer = refl;
        policy_timer = refl;
        retry_timer = refl;
      })
      (λ _. ground arith)

pub perform-Settled : (c : Call) (s : NotifySubscriber) → Settled s → Settled (perform c s)
perform-Settled c s (inr k) = inr (perform-Still s k c).is_stopped
perform-Settled (completes row sql) s (inl e) = inl (complete-Keeps row sql s e)
perform-Settled (refuses row reason) s (inl e) = inl (refuse-Keeps row reason s e)
perform-Settled drains s (inl e) = inl (drain-Keeps s e)
perform-Settled (stops reason) s (inl e) = inr (stop-Settled reason s e)

pub perform_all-Settled :
    (cs : List Call) (s : NotifySubscriber) → Settled s → Settled (perform_all cs s)
unfolding perform_all
perform_all-Settled [] s h = h
perform_all-Settled (c ∷ cs) s h = perform_all-Settled cs (perform c s) (perform-Settled c s h)

pub subscribe-Settled : (s : NotifySubscriber) → Settled s → Settled (subscribe s)
unfolding subscribe
subscribe-Settled s (inl e) = inl (ground (arith, e))
subscribe-Settled s (inr k) =
    by_test Settled (s.subscribing || s.draining || s.stopped) _ _ (λ _. inr k)
      (λ e. absurd (ground (arith, e, k.stopped)))

pub refuse-Settled :
    (row : NotifyRow) (reason : Bytes) (s : NotifySubscriber)
    → Settled s
    → Settled (refuse row reason s)
refuse-Settled row reason s h = perform-Settled (refuses row reason) s h

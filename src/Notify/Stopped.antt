-- ===== src/Notify/Stopped.antt =====
-- After the stop: the subscriber asks nothing more, and what comes late is given back.
pub mod Runs
use mathlib.Core.Path.{subst}
use libapostol.Prelude.{
  ℕ, ◌≡◌, ◌∙◌, refl, sym, ap, ◌==◌, true, false, not, ◌&&◌, ◌||◌, Option, none, some, List, [], ◌∷◌,
  ◌++◌, Bytes, codes, by_test, Bool-cases, inl, inr, arith, is_empty, append_assoc, append-nil, All,
  All-append, None,
}
use libapostol.Notify.{
  NotifyRow, Effect, nack, stop_batch, listen_legacy, registered, not_with_module, NotifySubscriber,
  emit,
}
use libapostol.Notify.Rows.{
  find_row, insert_row, erase_row, is_with_module, complete, refuse, drain, stop, default_reason,
  Call, completes, refuses, drains, stops, perform,
}
use libapostol.Notify.Events.{
  subscribe, heartbeat_now, sweep_now, read_policy, start, Chance, on_subscribed, Subscribed,
  not_subscribed, subscribed, answer_subscribe, confirm_listen, on_wake, with_row, answer_take,
  Beat, answer_heartbeat, answer_sweep, Policy, answer_policy,
}
use libapostol.Notify.Steps.{
  heartbeat_tick, sweep_tick, policy_tick, retry_tick, if_armed, Event, starts, calls, wakes,
  confirms_listen, answers_subscribe, answers_take, answers_heartbeat, answers_sweep,
  answers_policy, ticks_heartbeat, ticks_sweep, ticks_policy, ticks_retry, step, run,
}

-- No timer is armed, no number is held and no row is with the module.
pub record IsStopped (s : NotifySubscriber) : Type 0 where
  pub stopped : s.stopped ≡ true
  pub draining : s.draining ≡ true
  pub number : s.number ≡ 0
  pub taken : s.taken ≡ []
  pub heartbeat_timer : s.heartbeat_timer ≡ none
  pub sweep_timer : s.sweep_timer ≡ none
  pub policy_timer : s.policy_timer ≡ none
  pub retry_timer : s.retry_timer ≡ none

-- What a subscriber may do after the stop: give back what comes late, a row or a number.
abbrev pub IsLast : Effect → Type 0
IsLast e = elim e [
  | not_with_module r ↦ Unit
  | nack r reason ↦ Unit
  | registered n ↦ Unit
  | stop_batch n rs reason ↦ Unit
  | listen_legacy ↦ Unit
  | _ ↦ None
]

-- Stopped still, with some last effects more.
pub record Still (s t : NotifySubscriber) : Type 0 where
  pub is_stopped : IsStopped t
  pub more : List Effect
  pub effects : t.effects ≡ s.effects ++ more
  pub last : All IsLast more

pub Still-refl : (s : NotifySubscriber) → IsStopped s → Still s s
Still-refl s k = record {
  is_stopped = k;
  more = [];
  effects = sym (append-nil s.effects);
  last = tt;
}

pub Still-trans : (s t u : NotifySubscriber) → Still s t → Still t u → Still s u
Still-trans s t u h k = record {
  is_stopped = k.is_stopped;
  more = h.more ++ k.more;
  effects =
      k.effects
      ∙ (ap (λ (es : List Effect). es ++ k.more) h.effects ∙ append_assoc s.effects h.more k.more);
  last = All-append IsLast h.more k.more h.last k.last;
}

-- One last effect more.
Still-emit :
    (e : Effect) (s t : NotifySubscriber)
    → IsStopped t
    → t.effects ≡ s.effects ++ (e ∷ [])
    → IsLast e
    → Still s t
Still-emit e s t k same last = record {
  is_stopped = k;
  more = e ∷ [];
  effects = same;
  last = (last, tt);
}

not_held : (row : NotifyRow) (s : NotifySubscriber) → s.taken ≡ [] → is_with_module row s ≡ false
unfolding find_row
not_held row s e = rw e refl

module _ (s : NotifySubscriber) (k : IsStopped s) where
  complete-Still : (row : NotifyRow) (sql : Bytes) → Still s (complete row sql s)
  unfolding complete
  complete-Still row sql =
      by_test (Still s) (is_with_module row s) _ _
        (λ held. absurd (cc (held, not_held row s k.taken)))
        (λ _.
          Still-emit (not_with_module row) s (emit (not_with_module row) s) (ground arith) refl tt)

  refuse-Still : (row : NotifyRow) (reason : Bytes) → Still s (refuse row reason s)
  unfolding refuse
  refuse-Still row reason =
      by_test (Still s) (is_with_module row s) _ _
        (λ held. absurd (cc (held, not_held row s k.taken))) (λ _. Still-refl s k)

  drain-Still : Still s (drain s)
  unfolding drain
  drain-Still =
      by_test (Still s) (s.draining || s.stopped) _ _ (λ _. Still-refl s k)
        (λ e. absurd (ground (arith, k.draining, e)))

  stop-Still : (reason : Bytes) → Still s (stop reason s)
  unfolding stop
  stop-Still reason =
      by_test (Still s) (s.stopped && s.number == 0 || s.number == 0 && is_empty s.taken) _ _
        (λ _. record {
          is_stopped = ground arith;
          more = [];
          effects = sym (append-nil s.effects);
          last = tt;
        })
        (λ e. absurd (ground (arith, k.stopped, k.number, e)))

  pub perform-Still : (c : Call) → Still s (perform c s)
  perform-Still (completes row sql) = complete-Still row sql
  perform-Still (refuses row reason) = refuse-Still row reason
  perform-Still drains = drain-Still
  perform-Still (stops reason) = stop-Still reason

  pub heartbeat_now-same : heartbeat_now s ≡ s
  unfolding heartbeat_now
  heartbeat_now-same = ground (arith, k.stopped)

  pub sweep_now-same : sweep_now s ≡ s
  unfolding sweep_now
  sweep_now-same = ground (arith, k.stopped)

  pub on_wake-same : (payload : Bytes) → on_wake payload s ≡ s
  unfolding on_wake
  on_wake-same payload = ground (arith, k.stopped)

  pub on_subscribed-Still : (c : Chance) (n : ℕ) → Still s (on_subscribed c n s)
  unfolding on_subscribed stop
  on_subscribed-Still c n =
      by_test (Still s) (n == 0) _ _
        (λ _. record {
          is_stopped = ground arith;
          more = [];
          effects = sym (append-nil s.effects);
          last = tt;
        })
        (λ some_number.
          by_test (Still s) s.stopped _ _
            (λ _.
              by_test (Still s) (s.stopped && n == 0 || n == 0 && is_empty s.taken) _ _
                (λ e. absurd (ground (arith, e, some_number)))
                (λ _. record {
                  is_stopped = ground arith;
                  more = registered n ∷ stop_batch n s.taken default_reason ∷ [];
                  effects =
                      append_assoc s.effects (registered n ∷ [])
                        (stop_batch n s.taken default_reason ∷ []);
                  last = (tt, (tt, tt));
                }))
            (λ e. absurd (cc (e, k.stopped))))

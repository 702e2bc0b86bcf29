-- ===== src/Notify/Stopped/Runs.antt =====
-- After the stop, whatever comes.
use mathlib.Core.Path.{subst}
use libapostol.Prelude.{
  ℕ, ◌≡◌, ◌∙◌, sym, ap, ◌==◌, false, not, ◌&&◌, Option, none, some, List, [], ◌∷◌, ◌++◌, Bytes,
  codes, by_test, Bool-cases, inl, inr, arith, append-nil,
}
use libapostol.Notify.{NotifyRow, nack, listen_legacy, NotifySubscriber}
use libapostol.Notify.Rows.{find_row, insert_row, erase_row, refuse, Call}
use libapostol.Notify.Events.{
  subscribe, heartbeat_now, sweep_now, read_policy, start, Chance, on_subscribed, Subscribed,
  not_subscribed, subscribed, answer_subscribe, confirm_listen, on_wake, with_row, answer_take,
  Beat, answer_heartbeat, answer_sweep, Policy, answer_policy,
}
use libapostol.Notify.Steps.{
  heartbeat_tick, sweep_tick, policy_tick, retry_tick, if_armed, Event, starts, calls, wakes,
  confirms_listen, answers_subscribe, answers_take, answers_heartbeat, answers_sweep,
  answers_policy, ticks_heartbeat, ticks_sweep, ticks_policy, ticks_retry, step, run,
}
use libapostol.Notify.Stopped.{
  IsStopped, Still, Still-refl, Still-trans, perform-Still, heartbeat_now-same, sweep_now-same,
  on_wake-same, on_subscribed-Still,
}

late_row :
    (row : NotifyRow) (reason : Bytes) (s : NotifySubscriber)
    → s.taken ≡ []
    → refuse row reason (with_row row s)
      ≡ record s { taken = []; effects = s.effects ++ (nack row reason ∷ []) }
unfolding refuse find_row insert_row erase_row
late_row row reason s e = ground (arith, e)

module _ (s : NotifySubscriber) (k : IsStopped s) where
  answer_take-Still :
      (cs : List Call) (error : Option Bytes) (row : NotifyRow)
      → Still s (answer_take cs error row s)
  unfolding answer_take
  answer_take-Still cs error row =
      by_test (Still s) s.stopped _ _
        (λ _.
          subst (Still s) (sym (late_row row (codes "stopping: taken after the stop") s k.taken))
            (record {
              is_stopped = ground arith;
              more = nack row (codes "stopping: taken after the stop") ∷ [];
              effects = λ i. s.effects ++ (nack row (codes "stopping: taken after the stop") ∷ []);
              last = (tt, tt);
            }))
        (λ e. absurd (cc (e, k.stopped)))

  answer_heartbeat-Still : (cs : List Call) (b : Beat) → Still s (answer_heartbeat cs b s)
  unfolding answer_heartbeat
  answer_heartbeat-Still cs b =
      let idle : NotifySubscriber = record s { heartbeat_in_flight = false } in
      by_test (Still s) (not s.heartbeat_in_flight) _ _ (λ _. Still-refl s k)
        (λ _.
          by_test (Still s) (not (s.heartbeat_of == s.number && not s.stopped)) _ _
            (λ _. record {
              is_stopped = ground arith;
              more = [];
              effects = sym (append-nil s.effects);
              last = tt;
            })
            (λ e. absurd (ground (arith, e, k.stopped))))

  answer_policy-Still : (drawn : ℕ → ℕ) (a : Option Policy) → Still s (answer_policy drawn a s)
  unfolding answer_policy
  answer_policy-Still drawn none = record {
    is_stopped = ground arith;
    more = [];
    effects = sym (append-nil s.effects);
    last = tt;
  }
  answer_policy-Still drawn (some p) = record {
    is_stopped = ground (arith, k);
    more = [];
    effects = ground (arith, append-nil s.effects);
    last = tt;
  }

  start-Still : Still s (start s)
  unfolding start read_policy subscribe
  start-Still =
      by_test (Still s) s.started _ _ (λ _. Still-refl s k)
        (λ _. elim (Bool-cases s.options.has_legacy) [
          | inl legacy ↦ record {
            is_stopped = ground arith;
            more = listen_legacy ∷ [];
            effects = ground arith;
            last = (tt, tt);
          }
          | inr plain ↦ record {
            is_stopped = ground arith;
            more = [];
            effects = ground (arith, append-nil s.effects);
            last = tt;
          }
        ])

  subscribed-Still :
      (c : Chance) (n at : ℕ)
      → Still s (on_subscribed c n (record s { subscribing = false; seen_at = at }))
  subscribed-Still c n at =
      let t : NotifySubscriber = record s { subscribing = false; seen_at = at } in
      let done = on_subscribed-Still t (ground (arith, k)) c n in
      record {
        is_stopped = done.is_stopped;
        more = done.more;
        effects = done.effects;
        last = done.last;
      }

  answer_subscribe-Still : (c : Chance) (a : Subscribed) → Still s (answer_subscribe c a s)
  unfolding answer_subscribe
  answer_subscribe-Still c not_subscribed =
      by_test (Still s) s.subscribing _ _
        (λ _. record {
          is_stopped = ground (arith, k);
          more = [];
          effects = sym (append-nil s.effects);
          last = tt;
        })
        (λ _. Still-refl s k)
  answer_subscribe-Still c (subscribed n at) =
      by_test (Still s) s.subscribing _ _ (λ _. subscribed-Still c n at) (λ _. Still-refl s k)

  same-Still : (t : NotifySubscriber) → t ≡ s → Still s t
  same-Still t e = subst (Still s) (sym e) (Still-refl s k)

  unarmed-Still :
      (timer : Option ℕ) (f : NotifySubscriber → NotifySubscriber)
      → timer ≡ none
      → Still s (if_armed timer f s)
  unarmed-Still timer f e = same-Still (if_armed timer f s) (ground (arith, e))

  pub step-Still : (e : Event) → Still s (step e s)
  unfolding confirm_listen answer_sweep
  step-Still starts = start-Still
  step-Still (calls c) = perform-Still s k c
  step-Still (wakes payload) = same-Still (on_wake payload s) (on_wake-same s k payload)
  step-Still confirms_listen =
      same-Still (heartbeat_now (sweep_now s))
        (ap heartbeat_now (sweep_now-same s k) ∙ heartbeat_now-same s k)
  step-Still (answers_subscribe c a) = answer_subscribe-Still c a
  step-Still (answers_take cs error row) = answer_take-Still cs error row
  step-Still (answers_heartbeat cs b) = answer_heartbeat-Still cs b
  step-Still answers_sweep = record {
    is_stopped = ground (arith, k);
    more = [];
    effects = sym (append-nil s.effects);
    last = tt;
  }
  step-Still (answers_policy drawn a) = answer_policy-Still drawn a
  step-Still ticks_heartbeat = unarmed-Still s.heartbeat_timer heartbeat_tick k.heartbeat_timer
  step-Still (ticks_sweep drawn) = unarmed-Still s.sweep_timer (sweep_tick drawn) k.sweep_timer
  step-Still ticks_policy = unarmed-Still s.policy_timer policy_tick k.policy_timer
  step-Still ticks_retry = unarmed-Still s.retry_timer retry_tick k.retry_timer

pub run-Still : (es : List Event) (s : NotifySubscriber) → IsStopped s → Still s (run es s)
unfolding run
run-Still [] s k = Still-refl s k
run-Still (e ∷ es) s k =
    let first = step-Still s k e in
    Still-trans s (step e s) (run es (step e s)) first (run-Still es (step e s) first.is_stopped)

-- ===== src/Notify/Stopping/Runs.antt =====
-- A subscriber that was stopped, whatever comes before and after.
use libapostol.Prelude.{
  ℕ, ◌+◌, ◌-◌, ◌*◌, ◌≡◌, refl, ◌==◌, ltb, true, false, not, ◌&&◌, ◌||◌, Option, none, List, [], ◌∷◌,
  Bytes, by_test, by_option, inl, inr, arith,
}
use libapostol.Notify.{
  NotifyRow, NotifyOptions, on_row, registered, NotifySubscriber, new_subscriber, emit,
}
use libapostol.Notify.Timers.{alive_seconds}
use libapostol.Notify.Rows.{has_row, Call, perform_all}
use libapostol.Notify.Events.{
  sweep_now, Chance, begins, on_subscribed, Subscribed, not_subscribed, subscribed,
  answer_subscribe, confirm_listen, with_row, answer_take, Beat, not_beaten, unknown, beaten,
  resubscribe, lapse, answer_heartbeat, answer_sweep, is_armed,
}
use libapostol.Notify.Steps.{
  heartbeat_tick, sweep_tick, policy_tick, retry_tick, Event, starts, calls, wakes, confirms_listen,
  answers_subscribe, answers_take, answers_heartbeat, answers_sweep, answers_policy,
  ticks_heartbeat, ticks_sweep, ticks_policy, ticks_retry, step, run,
}
use libapostol.Notify.Stopped.{Still}
use libapostol.Notify.Stopped.Runs.{step-Still, run-Still}
use libapostol.Notify.Stopping.{
  Settled, subscribe-Keeps, heartbeat_now-Keeps, sweep_now-Keeps, read_policy-Keeps, on_wake-Keeps,
  answer_policy-Keeps, start-Keeps, perform-Settled, perform_all-Settled, subscribe-Settled,
  refuse-Settled,
}

begins-Settled :
    (c : Chance) (n : ℕ) (s : NotifySubscriber) → s.stopped ≡ false → Settled (begins c n s)
unfolding begins
begins-Settled c n s e = perform_all-Settled c.calls _ (inl (ground (arith, e)))

answer_subscribe-Settled :
    (c : Chance) (a : Subscribed) (s : NotifySubscriber)
    → s.stopped ≡ false
    → Settled (answer_subscribe c a s)
unfolding answer_subscribe on_subscribed
answer_subscribe-Settled c not_subscribed s e =
    by_test Settled s.subscribing _ _ (λ _. inl e) (λ _. inl e)
answer_subscribe-Settled c (subscribed n at) s e =
    by_test Settled s.subscribing _ _
      (λ _.
        by_test Settled (n == 0) _ _ (λ _. inl e)
          (λ _.
            by_test Settled s.stopped _ _ (λ f. absurd (cc (e, f)))
              (λ _.
                begins-Settled c n
                  (emit (registered n) (record s { subscribing = false; seen_at = at })) e)))
      (λ _. inl e)

answer_take-Settled :
    (cs : List Call) (error : Option Bytes) (row : NotifyRow) (s : NotifySubscriber)
    → s.stopped ≡ false
    → Settled (answer_take cs error row s)
unfolding answer_take
answer_take-Settled cs error row s e =
    let given : (with_row row s).stopped ≡ false =
      by_test (λ (t : NotifySubscriber). t.stopped ≡ false) (has_row row.id s.taken) _ _ (λ _. e)
        (λ _. e) in
    let called = perform_all-Settled cs (emit (on_row row) (with_row row s)) (inl given) in
    by_test Settled s.stopped _ _ (λ f. absurd (cc (e, f)))
      (λ _.
        by_option Settled error _ _ (λ _. called)
          (λ text _.
            by_test Settled
              (has_row row.id (perform_all cs (emit (on_row row) (with_row row s))).taken) _ _
              (λ _.
                refuse-Settled row _ (perform_all cs (emit (on_row row) (with_row row s))) called)
              (λ _. called)))

answer_heartbeat-Settled :
    (cs : List Call) (b : Beat) (s : NotifySubscriber)
    → s.stopped ≡ false
    → Settled (answer_heartbeat cs b s)
unfolding answer_heartbeat
answer_heartbeat-Settled cs b s e =
    by_test Settled (not s.heartbeat_in_flight) _ _ (λ _. inl e)
      (λ _.
        by_test Settled (not (s.heartbeat_of == s.number && not s.stopped)) _ _ (λ _. inl e)
          (λ _. answered b))
  where
    answered :
        (b : Beat)
        → Settled (elim b [
          | not_beaten ↦ record s { heartbeat_in_flight = false }
          | unknown ↦ resubscribe cs (record s { heartbeat_in_flight = false })
          | beaten at ↦
              lapse cs s.seen_at at (record s { heartbeat_in_flight = false; seen_at = at })
        ])
    answered not_beaten = inl e
    answered unknown = subscribe-Settled _ (perform_all-Settled cs _ (inl e))
    answered (beaten at) =
        by_test Settled
          (s.seen_at == 0
            || at == 0
            || s.draining
            || ltb (at - s.seen_at + 100) (alive_seconds s * 1000))
          _ _ (λ _. inl e) (λ _. perform_all-Settled cs _ (inl e))

step-Settled : (e : Event) (s : NotifySubscriber) → Settled s → Settled (step e s)
unfolding confirm_listen answer_sweep heartbeat_tick sweep_tick policy_tick retry_tick
step-Settled ev s (inr k) = inr (step-Still s k ev).is_stopped
step-Settled starts s (inl e) = inl (start-Keeps s e)
step-Settled (calls c) s (inl e) = perform-Settled c s (inl e)
step-Settled (wakes payload) s (inl e) = inl (on_wake-Keeps payload s e)
step-Settled confirms_listen s (inl e) =
    inl (heartbeat_now-Keeps (sweep_now s) (sweep_now-Keeps s e))
step-Settled (answers_subscribe c a) s (inl e) = answer_subscribe-Settled c a s e
step-Settled (answers_take cs error row) s (inl e) = answer_take-Settled cs error row s e
step-Settled (answers_heartbeat cs b) s (inl e) = answer_heartbeat-Settled cs b s e
step-Settled answers_sweep s (inl e) = inl e
step-Settled (answers_policy drawn a) s (inl e) = inl (answer_policy-Keeps drawn a s e)
step-Settled ticks_heartbeat s (inl e) =
    by_test Settled (is_armed s.heartbeat_timer) _ _
      (λ _. inl (heartbeat_now-Keeps (record s { heartbeat_timer = none }) e)) (λ _. inl e)
step-Settled (ticks_sweep drawn) s (inl e) =
    by_test Settled (is_armed s.sweep_timer) _ _
      (λ _. inl (sweep_now-Keeps (record s { sweep_timer = none }) e)) (λ _. inl e)
step-Settled ticks_policy s (inl e) =
    by_test Settled (is_armed s.policy_timer) _ _
      (λ _. inl (read_policy-Keeps (record s { policy_timer = none }) e)) (λ _. inl e)
step-Settled ticks_retry s (inl e) =
    by_test Settled (is_armed s.retry_timer) _ _
      (λ _. inl (subscribe-Keeps (record s { retry_timer = none }) e)) (λ _. inl e)

run-Settled : (es : List Event) (s : NotifySubscriber) → Settled s → Settled (run es s)
unfolding run
run-Settled [] s h = h
run-Settled (e ∷ es) s h = run-Settled es (step e s) (step-Settled e s h)

-- However the events of a new subscriber come: once it was stopped, by the module or by a handler, it
-- stays stopped, with no timer, number or row; and all that it still does is to give back a row or a
-- number that the database answers late, to tell a completion that its row is not with the module, or
-- to listen to the common channel.
pub run-Still_stopped :
    (options : NotifyOptions) (before after : List Event)
    → (run before (new_subscriber options)).stopped ≡ true
    → Still (run before (new_subscriber options)) (run after (run before (new_subscriber options)))
run-Still_stopped options before after stopped =
    let s = run before (new_subscriber options) in
    still s (run-Settled before (new_subscriber options) (inl refl)) stopped
  where
    still : (s : NotifySubscriber) → Settled s → s.stopped ≡ true → Still s (run after s)
    still s (inl e) h = absurd (cc (e, h))
    still s (inr k) h = run-Still after s k

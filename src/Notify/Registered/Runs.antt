-- ===== src/Notify/Registered/Runs.antt =====
-- Numbers, whatever comes.
use libapostol.Prelude.{
  ℕ, ◌+◌, ◌≡◌, ◌≤◌, ◌⊎◌, refl, false, none, List, [], ◌∷◌, total, by_test, inl, inr, arith,
}
use libapostol.Notify.{NotifyOptions, NotifySubscriber, new_subscriber}
use libapostol.Notify.Timers.{arm_heartbeat, arm_policy, arm_sweep}
use libapostol.Notify.Events.{
  heartbeat_now, sweep_now, read_policy, confirm_listen, answer_sweep, is_armed,
}
use libapostol.Notify.Steps.{
  heartbeat_tick, sweep_tick, policy_tick, retry_tick, Event, starts, calls, wakes, confirms_listen,
  answers_subscribe, answers_take, answers_heartbeat, answers_sweep, answers_policy,
  ticks_heartbeat, ticks_sweep, ticks_policy, ticks_retry, step, run,
}
use libapostol.Notify.Registered.{
  is_one, times_given, times_ended, Booked, Alike-Booked, perform-Booked,
}
use libapostol.Notify.Registered.Asking.{
  subscribe-Booked, heartbeat_now-Booked, sweep_now-Booked, read_policy-Booked, start-Booked,
}
use libapostol.Notify.Registered.Answers.{answer_subscribe-Booked, on_wake-Booked}
use libapostol.Notify.Registered.Handling.{
  answer_take-Booked, answer_heartbeat-Booked, answer_policy-Booked,
}

module _ (n : ℕ) (positive : 1 ≤ n) where
  step-Booked : (e : Event) (s : NotifySubscriber) → Booked n s → Booked n (step e s)
  unfolding confirm_listen answer_sweep heartbeat_tick sweep_tick policy_tick retry_tick
  step-Booked starts s h = start-Booked n positive s h
  step-Booked (calls c) s h = perform-Booked n positive c s h
  step-Booked (wakes payload) s h = on_wake-Booked n positive payload s h
  step-Booked confirms_listen s h =
      heartbeat_now-Booked n positive (sweep_now s) (sweep_now-Booked n positive s h)
  step-Booked (answers_subscribe c a) s h = answer_subscribe-Booked n positive c a s h
  step-Booked (answers_take cs error row) s h = answer_take-Booked n positive cs error row s h
  step-Booked (answers_heartbeat cs b) s h = answer_heartbeat-Booked n positive cs b s h
  step-Booked answers_sweep s h =
      Alike-Booked n positive s (record s { sweep_in_flight = false }) (ground arith) refl h
  step-Booked (answers_policy drawn a) s h = answer_policy-Booked n positive drawn a s h
  step-Booked ticks_heartbeat s h =
      let due : NotifySubscriber = record s { heartbeat_timer = none } in
      let beat =
        heartbeat_now-Booked n positive due (Alike-Booked n positive s due (ground arith) refl h) in
      by_test (Booked n) (is_armed s.heartbeat_timer) _ _
        (λ _.
          Alike-Booked n positive (heartbeat_now due) (arm_heartbeat (heartbeat_now due))
            (ground arith) refl beat)
        (λ _. h)
  step-Booked (ticks_sweep drawn) s h =
      let due : NotifySubscriber = record s { sweep_timer = none } in
      let swept =
        sweep_now-Booked n positive due (Alike-Booked n positive s due (ground arith) refl h) in
      by_test (Booked n) (is_armed s.sweep_timer) _ _
        (λ _.
          Alike-Booked n positive (sweep_now due) (arm_sweep drawn (sweep_now due)) (ground arith)
            refl swept)
        (λ _. h)
  step-Booked ticks_policy s h =
      let due : NotifySubscriber = record s { policy_timer = none } in
      let read =
        read_policy-Booked n positive due (Alike-Booked n positive s due (ground arith) refl h) in
      by_test (Booked n) (is_armed s.policy_timer) _ _
        (λ _.
          Alike-Booked n positive (read_policy due) (arm_policy (read_policy due)) (ground arith)
            refl read)
        (λ _. h)
  step-Booked ticks_retry s h =
      by_test (Booked n) (is_armed s.retry_timer) _ _
        (λ due.
          subscribe-Booked n positive (record s { retry_timer = none })
            (ground (arith, h.retries, due), refl) (ground (arith, h.begun, due))
            (Alike-Booked n positive s (record s { retry_timer = none }) (ground arith) refl h))
        (λ _. h)

  run-Booked : (es : List Event) (s : NotifySubscriber) → Booked n s → Booked n (run es s)
  unfolding run
  run-Booked [] s h = h
  run-Booked (e ∷ es) s h = run-Booked es (step e s) (step-Booked e s h)

  new_subscriber-Booked : (options : NotifyOptions) → Booked n (new_subscriber options)
  unfolding total
  new_subscriber-Booked options = record {
    counts = ground arith;
    alone = inl refl;
    retries = inl refl;
    waits = inl refl;
    begun = inr (refl, refl, refl);
    beats = inl refl;
  }

-- However the events of a new subscriber come: the database forgot a number, or a stop gave it back,
-- as often as the database gave it, less once if the subscriber holds it; and none is held while a
-- subscription is under way or due again.
pub run-registered :
    (options : NotifyOptions) (es : List Event) (n : ℕ)
    → 1 ≤ n
    → (times_given n (run es (new_subscriber options)).effects
        ≡ is_one (run es (new_subscriber options)).number n
          + times_ended n (run es (new_subscriber options)).effects)
      × (((run es (new_subscriber options)).subscribing ≡ false)
          ⊎ ((run es (new_subscriber options)).number ≡ 0))
      × (((run es (new_subscriber options)).retry_timer ≡ none)
          ⊎ ((run es (new_subscriber options)).number ≡ 0))
run-registered options es n positive =
    let booked =
      run-Booked n positive es (new_subscriber options)
        (new_subscriber-Booked n positive options) in
    (booked.counts, booked.alone, booked.retries)

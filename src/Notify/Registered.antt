-- ===== src/Notify/Registered.antt =====
-- Numbers: each that the database gave is held, or was forgotten by it or given back by a stop.
pub mod Asking
pub mod Answers
pub mod Handling
pub mod Runs
use libapostol.Prelude.{
  ltb, ◌-◌, ◌*◌, ℕ, ◌+◌, ◌≡◌, ◌≤◌, ◌⊎◌, ◌∙◌, refl, ◌==◌, true, false, not, ◌&&◌, ◌||◌, Option, none,
  some, List, [], ◌∷◌, ◌++◌, Bytes, codes, total, total-snoc, if◌then◌else◌, by_test, by_option,
  inl, inr, arith, is_empty,
}
use libapostol.Notify.{
  NotifyRow, NotifyOptions, Effect, ack, nack, stop_batch, on_row, listen_legacy, listen,
  drain_query, registered, subscribe_query, heartbeat_query, sweep_query, policy_query, take_query,
  unlisten, not_with_module, on_number, forgot, on_lapse, NotifySubscriber, new_subscriber, emit,
  parse_id,
}
use libapostol.Notify.Timers.{arm_retry, arm_heartbeat, arm_policy, arm_sweep, alive_seconds}
use libapostol.Notify.Rows.{
  insert_row, erase_row, has_row, is_with_module, complete, refuse, drain, stop, default_reason,
  Call, completes, refuses, drains, stops, perform, perform_all,
}
use libapostol.Notify.Events.{
  subscribe, heartbeat_now, sweep_now, read_policy, start, Chance, stop_listening, begins,
  on_subscribed, Subscribed, not_subscribed, subscribed, answer_subscribe, confirm_listen, take,
  on_wake, with_row, answer_take, Beat, not_beaten, unknown, beaten, resubscribe, lapse,
  answer_heartbeat, answer_sweep, Policy, answer_policy, is_armed, says_number,
}
use libapostol.Notify.Steps.{
  heartbeat_tick, sweep_tick, policy_tick, retry_tick, Event, starts, calls, wakes, confirms_listen,
  answers_subscribe, answers_take, answers_heartbeat, answers_sweep, answers_policy,
  ticks_heartbeat, ticks_sweep, ticks_policy, ticks_retry, step, run,
}

abbrev pub is_one : ℕ → ℕ → ℕ
is_one m n = if m == n then 1 else 0

abbrev pub gives_number : ℕ → Effect → ℕ
gives_number n e = elim e [ registered m ↦ is_one m n | _ ↦ 0 ]

abbrev pub ends_number : ℕ → Effect → ℕ
ends_number n e = elim e [ forgot m ↦ is_one m n | stop_batch m rs reason ↦ is_one m n | _ ↦ 0 ]

-- How often the database gave a number, and how often it forgot it or a stop gave it back.
abbrev pub times_given : ℕ → List Effect → ℕ
times_given n es = total (gives_number n) es

abbrev pub times_ended : ℕ → List Effect → ℕ
times_ended n es = total (ends_number n) es

-- While a subscription is under way or due again, no number is held.
pub record Booked (n : ℕ) (s : NotifySubscriber) : Type 0 where
  pub counts : times_given n s.effects ≡ is_one s.number n + times_ended n s.effects
  pub alone : (s.subscribing ≡ false) ⊎ (s.number ≡ 0)
  pub retries : (s.retry_timer ≡ none) ⊎ (s.number ≡ 0)
  pub waits : (s.retry_timer ≡ none) ⊎ (s.subscribing ≡ false)
  pub begun :
      (s.started ≡ true) ⊎ ((s.number ≡ 0) × (s.retry_timer ≡ none) × (s.subscribing ≡ false))
  pub beats : (s.heartbeat_in_flight ≡ false) ⊎ (1 ≤ s.heartbeat_of)

-- What an operation on rows and timers leaves.
pub record Alike (s t : NotifySubscriber) : Type 0 where
  pub number : t.number ≡ s.number
  pub subscribing : t.subscribing ≡ s.subscribing
  pub started : t.started ≡ s.started
  pub retry : (t.retry_timer ≡ s.retry_timer) ⊎ (t.retry_timer ≡ none)
  pub flight : t.heartbeat_in_flight ≡ s.heartbeat_in_flight
  pub of : t.heartbeat_of ≡ s.heartbeat_of

perform-started : (c : Call) (s : NotifySubscriber) → (perform c s).started ≡ s.started
unfolding complete refuse drain stop
perform-started (completes row sql) s = ground arith
perform-started (refuses row reason) s = ground arith
perform-started drains s = ground arith
perform-started (stops reason) s = ground arith

module _ (n : ℕ) (positive : 1 ≤ n) where
  -- An effect on no number.
  pub emit-counts :
      (e : Effect) (s : NotifySubscriber)
      → gives_number n e ≡ 0
      → ends_number n e ≡ 0
      → Booked n s
      → times_given n (emit e s).effects ≡ is_one s.number n + times_ended n (emit e s).effects
  emit-counts e s t u h = omega (
    arith,
    h.counts,
    t,
    u,
    total-snoc (gives_number n) s.effects e,
    total-snoc (ends_number n) s.effects e,
  )

  pub emit-Booked :
      (e : Effect) (s t : NotifySubscriber)
      → gives_number n e ≡ 0
      → ends_number n e ≡ 0
      → Alike s t
      → t.effects ≡ s.effects
      → Booked n s
      → Booked n (emit e t)
  emit-Booked e s t gives ends like same h =
      let counts = emit-counts e s gives ends h in
      record {
        counts = ground (arith, counts, like, same);
        alone = ground (arith, h.alone, like);
        retries = ground (arith, h.retries, like);
        waits = ground (arith, h.waits, like);
        begun = ground (arith, h.begun, like);
        beats = ground (arith, h.beats, like);
      }

  pub Alike-Booked :
      (s t : NotifySubscriber) → Alike s t → t.effects ≡ s.effects → Booked n s → Booked n t
  Alike-Booked s t like same h = record {
    counts = ground (arith, h.counts, like, same);
    alone = ground (arith, h.alone, like);
    retries = ground (arith, h.retries, like);
    waits = ground (arith, h.waits, like);
    begun = ground (arith, h.begun, like);
    beats = ground (arith, h.beats, like);
  }

  stop-counts :
      (reason : Bytes) (s : NotifySubscriber)
      → Booked n s
      → times_given n (s.effects ++ (stop_batch s.number s.taken reason ∷ []))
        ≡ is_one 0 n + times_ended n (s.effects ++ (stop_batch s.number s.taken reason ∷ []))
  stop-counts reason s h =
      let e = stop_batch s.number s.taken reason in
      let none_held : is_one 0 n ≡ 0 = ground arith in
      omega (
        arith,
        h.counts,
        none_held,
        total-snoc (gives_number n) s.effects e,
        total-snoc (ends_number n) s.effects e,
      )

  pub perform-Booked : (c : Call) (s : NotifySubscriber) → Booked n s → Booked n (perform c s)
  unfolding complete refuse drain stop
  perform-Booked (completes row sql) s h =
      by_test (Booked n) (is_with_module row s) _ _
        (λ _.
          emit-Booked (ack row sql) s (record s { taken = erase_row row.id s.taken }) refl refl
            (ground arith) refl h)
        (λ _. emit-Booked (not_with_module row) s s refl refl (ground arith) refl h)
  perform-Booked (refuses row reason) s h =
      by_test (Booked n) (is_with_module row s) _ _
        (λ _.
          emit-Booked (nack row reason) s (record s { taken = erase_row row.id s.taken }) refl refl
            (ground arith) refl h)
        (λ _. h)
  perform-Booked drains s h =
      let draining : NotifySubscriber = record s {
        draining = true;
        sweep_timer = none;
        retry_timer = none;
      } in
      by_test (Booked n) (s.draining || s.stopped) _ _ (λ _. h)
        (λ _.
          by_test (Booked n) (s.number == 0) _ _
            (λ _. Alike-Booked s draining (ground arith) refl h)
            (λ _. emit-Booked (drain_query s.number) s draining refl refl (ground arith) refl h))
  perform-Booked (stops reason) s h =
      let counts = stop-counts reason s h in
      by_test (Booked n) (s.stopped && s.number == 0 || s.number == 0 && is_empty s.taken) _ _
        (λ _. Alike-Booked s _ (ground arith) refl h)
        (λ _. record {
          counts = counts;
          alone = inr refl;
          retries = inr refl;
          waits = inl refl;
          begun = ground (arith, h.begun);
          beats = h.beats;
        })

  pub perform_all-Booked :
      (cs : List Call) (s : NotifySubscriber) → Booked n s → Booked n (perform_all cs s)
  unfolding perform_all
  perform_all-Booked [] s h = h
  perform_all-Booked (c ∷ cs) s h = perform_all-Booked cs (perform c s) (perform-Booked c s h)

  -- No number is held, and no subscription is due.
  abbrev pub Free : NotifySubscriber → Type 0
  Free s = (s.number ≡ 0) × (s.retry_timer ≡ none)

  perform-Free : (c : Call) (s : NotifySubscriber) → Free s → Free (perform c s)
  unfolding complete refuse drain stop
  perform-Free (completes row sql) s h = by_test Free (is_with_module row s) _ _ (λ _. h) (λ _. h)
  perform-Free (refuses row reason) s h = by_test Free (is_with_module row s) _ _ (λ _. h) (λ _. h)
  perform-Free drains s h =
      by_test Free (s.draining || s.stopped) _ _ (λ _. h)
        (λ _. by_test Free (s.number == 0) _ _ (λ _. (h.0, refl)) (λ _. (h.0, refl)))
  perform-Free (stops reason) s h =
      by_test Free (s.stopped && s.number == 0 || s.number == 0 && is_empty s.taken) _ _
        (λ _. (h.0, refl)) (λ _. (refl, refl))

  pub perform_all-Free : (cs : List Call) (s : NotifySubscriber) → Free s → Free (perform_all cs s)
  unfolding perform_all
  perform_all-Free [] s h = h
  perform_all-Free (c ∷ cs) s h = perform_all-Free cs (perform c s) (perform-Free c s h)

  pub perform_all-started :
      (cs : List Call) (s : NotifySubscriber) → s.started ≡ true → (perform_all cs s).started ≡ true
  unfolding perform_all
  perform_all-started [] s h = h
  perform_all-started (c ∷ cs) s h = perform_all-started cs (perform c s) (perform-started c s ∙ h)

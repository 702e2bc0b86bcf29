-- ===== src/Notify/Registered/Answers.antt =====
-- Numbers: the answers of the database.
use libapostol.Prelude.{
  ℕ, ◌≡◌, ◌≤◌, refl, ◌==◌, true, false, ◌||◌, Option, some, Bytes, total-snoc, by_test, by_option,
  inl, inr, arith,
}
use libapostol.Notify.{
  listen, drain_query, registered, take_query, unlisten, on_number, NotifySubscriber, emit,
  parse_id,
}
use libapostol.Notify.Timers.{arm_retry, arm_heartbeat, arm_sweep}
use libapostol.Notify.Rows.{has_row, default_reason, stops}
use libapostol.Notify.Events.{
  Chance, stop_listening, begins, on_subscribed, Subscribed, not_subscribed, subscribed,
  answer_subscribe, take, on_wake, says_number,
}
use libapostol.Notify.Registered.{
  is_one, gives_number, ends_number, Booked, emit-Booked, Alike-Booked, perform-Booked,
  perform_all-Booked,
}

module _ (n : ℕ) (positive : 1 ≤ n) where
  begins-Booked :
      (c : Chance) (m : ℕ) (s : NotifySubscriber)
      → Booked n (record s { number = m; listening = some m })
      → Booked n (begins c m s)
  unfolding begins
  begins-Booked c m s h =
      let base : NotifySubscriber = record s { number = m; listening = some m } in
      let listens : NotifySubscriber = record (stop_listening s) {
        number = m;
        listening = some m;
      } in
      let left : Booked n listens =
        by_option (λ (t : NotifySubscriber). Booked n (record t { number = m; listening = some m }))
          s.listening _ _ (λ _. h)
          (λ k _. emit-Booked n positive (unlisten k) base base refl refl (ground arith) refl h) in
      let listened =
        emit-Booked n positive (listen m) listens listens refl refl (ground arith) refl left in
      let heard = emit (listen m) listens in
      let said : Booked n (says_number c.drawn m heard) =
        by_test (Booked n) heard.draining _ _
          (λ _.
            emit-Booked n positive (drain_query m) heard heard refl refl (ground arith) refl
              listened)
          (λ _.
            Alike-Booked n positive heard (arm_sweep c.drawn heard) (ground arith) refl listened) in
      let armed = arm_heartbeat (says_number c.drawn m heard) in
      let armed_booked =
        Alike-Booked n positive (says_number c.drawn m heard) armed (ground arith) refl said in
      perform_all-Booked n positive c.calls (emit (on_number m) armed) (
        emit-Booked n positive (on_number m) armed armed refl refl (ground arith) refl armed_booked)

  -- The subscription that was under way has its number.
  registered-Booked :
      (m at : ℕ) (listening : Option ℕ) (s : NotifySubscriber)
      → s.subscribing ≡ true
      → Booked n s
      → Booked n (record (emit (registered m) s) {
        subscribing = false;
        seen_at = at;
        number = m;
        listening = listening;
      })
  registered-Booked m at listening s asked h =
      let none_held : is_one s.number n ≡ 0 = ground (arith, h.alone, asked) in
      record {
        counts = omega (
          arith,
          h.counts,
          none_held,
          total-snoc (gives_number n) s.effects (registered m),
          total-snoc (ends_number n) s.effects (registered m),
        );
        alone = inl refl;
        retries = ground (arith, h.waits, asked);
        waits = inr refl;
        begun = ground (arith, h.begun, asked);
        beats = h.beats;
      }

  retry_later-Booked :
      (at : ℕ) (s : NotifySubscriber)
      → s.subscribing ≡ true
      → Booked n s
      → Booked n (arm_retry (record s { subscribing = false; seen_at = at }))
  retry_later-Booked at s asked h = record {
    counts = h.counts;
    alone = inl refl;
    retries = ground (arith, h.alone, asked);
    waits = inr refl;
    begun = ground (arith, h.begun, asked);
    beats = h.beats;
  }

  pub answer_subscribe-Booked :
      (c : Chance) (a : Subscribed) (s : NotifySubscriber)
      → Booked n s
      → Booked n (answer_subscribe c a s)
  unfolding answer_subscribe on_subscribed
  answer_subscribe-Booked c not_subscribed s h =
      by_test (Booked n) s.subscribing _ _ (λ asked. retry_later-Booked s.seen_at s asked h)
        (λ _. h)
  answer_subscribe-Booked c (subscribed m at) s h =
      let given : NotifySubscriber =
        emit (registered m) (record s { subscribing = false; seen_at = at }) in
      by_test (Booked n) s.subscribing _ _
        (λ asked.
          by_test (Booked n) (m == 0) _ _ (λ _. retry_later-Booked at s asked h)
            (λ _.
              by_test (Booked n) s.stopped _ _
                (λ _.
                  perform-Booked n positive (stops default_reason) (record given { number = m })
                    (registered-Booked m at s.listening s asked h))
                (λ _. begins-Booked c m given (registered-Booked m at (some m) s asked h))))
        (λ _. h)

  pub on_wake-Booked :
      (payload : Bytes) (s : NotifySubscriber) → Booked n s → Booked n (on_wake payload s)
  unfolding on_wake take
  on_wake-Booked payload s h =
      by_test (Booked n) (s.draining || s.stopped || s.number == 0) _ _ (λ _. h)
        (λ _.
          by_option (Booked n) (parse_id payload) _ _ (λ _. h)
            (λ id _.
              by_test (Booked n) (has_row id s.taken) _ _ (λ _. h)
                (λ _.
                  emit-Booked n positive (take_query id s.number) s s refl refl (ground arith) refl
                    h)))

-- ===== src/Notify/Registered/Asking.antt =====
-- Numbers: what the subscriber asks of itself.
use libapostol.Prelude.{
  ℕ, ◌≡◌, ◌≤◌, ◌∙◌, refl, ◌==◌, true, ◌||◌, if◌then◌else◌, by_test, inl, inr, arith,
}
use libapostol.Notify.{
  listen_legacy, subscribe_query, heartbeat_query, sweep_query, policy_query, NotifySubscriber,
  emit,
}
use libapostol.Notify.Timers.{arm_policy}
use libapostol.Notify.Events.{subscribe, heartbeat_now, sweep_now, read_policy, start}
use libapostol.Notify.Registered.{Booked, emit-counts, emit-Booked, Alike-Booked, Free}

module _ (n : ℕ) (positive : 1 ≤ n) where
  pub subscribe-Booked :
      (s : NotifySubscriber)
      → Free n positive s
      → s.started ≡ true
      → Booked n s
      → Booked n (subscribe s)
  unfolding subscribe
  subscribe-Booked s free begun h =
      let counts = emit-counts n positive subscribe_query s refl refl h in
      by_test (Booked n) (s.subscribing || s.draining || s.stopped) _ _ (λ _. h)
        (λ _. record {
          counts = counts;
          alone = inr free.0;
          retries = inl free.1;
          waits = inl free.1;
          begun = inl begun;
          beats = h.beats;
        })

  pub heartbeat_now-Booked : (s : NotifySubscriber) → Booked n s → Booked n (heartbeat_now s)
  unfolding heartbeat_now
  heartbeat_now-Booked s h =
      let counts = emit-counts n positive (heartbeat_query s.number) s refl refl h in
      by_test (Booked n) (s.number == 0 || s.stopped || s.heartbeat_in_flight) _ _ (λ _. h)
        (λ e. record {
          counts = counts;
          alone = h.alone;
          retries = h.retries;
          waits = h.waits;
          begun = h.begun;
          beats = inr (ground (arith, e));
        })

  pub sweep_now-Booked : (s : NotifySubscriber) → Booked n s → Booked n (sweep_now s)
  unfolding sweep_now
  sweep_now-Booked s h =
      by_test (Booked n) (s.number == 0 || s.draining || s.stopped || s.sweep_in_flight) _ _
        (λ _. h)
        (λ _.
          emit-Booked n positive (sweep_query s.number) s (record s { sweep_in_flight = true }) refl
            refl (ground arith) refl h)

  pub read_policy-Booked : (s : NotifySubscriber) → Booked n s → Booked n (read_policy s)
  unfolding read_policy
  read_policy-Booked s h =
      by_test (Booked n) (s.policy_in_flight || s.stopped) _ _ (λ _. h)
        (λ _.
          emit-Booked n positive policy_query s (record s { policy_in_flight = true }) refl refl
            (ground arith) refl h)

  read_policy-same :
      (s : NotifySubscriber)
      → ((read_policy s).number ≡ s.number)
        × ((read_policy s).retry_timer ≡ s.retry_timer)
        × ((read_policy s).started ≡ s.started)
  unfolding read_policy
  read_policy-same s = ground arith

  pub start-Booked : (s : NotifySubscriber) → Booked n s → Booked n (start s)
  unfolding start
  start-Booked s h =
      by_test (Booked n) s.started _ _ (λ _. h)
        (λ fresh.
          let begun : NotifySubscriber = record s { started = true } in
          let listens = if s.options.has_legacy then emit listen_legacy begun else begun in
          let free : Free n positive s = ground (arith, h.begun, fresh) in
          let begun_booked : Booked n begun = record {
            counts = h.counts;
            alone = h.alone;
            retries = h.retries;
            waits = h.waits;
            begun = inl refl;
            beats = h.beats;
          } in
          let listens_booked : Booked n listens =
            by_test (Booked n) s.options.has_legacy _ _
              (λ _.
                emit-Booked n positive listen_legacy begun begun refl refl (ground arith) refl
                  begun_booked)
              (λ _. begun_booked) in
          let listens_free : Free n positive listens =
            by_test (Free n positive) s.options.has_legacy _ _ (λ _. free) (λ _. free) in
          let listens_begun : listens.started ≡ true =
            by_test (λ (t : NotifySubscriber). t.started ≡ true) s.options.has_legacy _ _
              (λ _. refl) (λ _. refl) in
          let (number, retry, started) = read_policy-same listens in
          let policy = read_policy-Booked listens listens_booked in
          subscribe-Booked (arm_policy (read_policy listens))
            (number ∙ listens_free.0, retry ∙ listens_free.1) (started ∙ listens_begun)
            (Alike-Booked n positive (read_policy listens) (arm_policy (read_policy listens))
              (ground arith) refl policy))

-- ===== src/Notify/Registered/Handling.antt =====
-- Numbers: what a row, a heartbeat and the policy leave.
use libapostol.Prelude.{
  ltb, ◌-◌, ◌*◌, ℕ, ◌+◌, ◌≡◌, ◌≤◌, refl, ◌==◌, true, false, not, ◌&&◌, ◌||◌, Option, none, some,
  List, ◌++◌, Bytes, codes, total-snoc, by_test, by_option, inl, inr, arith,
}
use libapostol.Notify.{NotifyRow, on_row, on_number, forgot, on_lapse, NotifySubscriber, emit}
use libapostol.Notify.Timers.{alive_seconds}
use libapostol.Notify.Rows.{insert_row, has_row, Call, refuses, perform_all}
use libapostol.Notify.Events.{
  with_row, answer_take, Beat, not_beaten, unknown, beaten, resubscribe, lapse, answer_heartbeat,
  Policy, answer_policy,
}
use libapostol.Notify.Registered.{
  is_one, gives_number, ends_number, Booked, emit-Booked, Alike-Booked, perform-Booked,
  perform_all-Booked, perform_all-Free, perform_all-started,
}
use libapostol.Notify.Registered.Asking.{subscribe-Booked}

module _ (n : ℕ) (positive : 1 ≤ n) where
  pub answer_take-Booked :
      (cs : List Call) (error : Option Bytes) (row : NotifyRow) (s : NotifySubscriber)
      → Booked n s
      → Booked n (answer_take cs error row s)
  unfolding answer_take
  answer_take-Booked cs error row s h =
      let given : Booked n (with_row row s) =
        by_test (Booked n) (has_row row.id s.taken) _ _ (λ _. h)
          (λ _.
            Alike-Booked n positive s (record s { taken = insert_row row s.taken }) (ground arith)
              refl h) in
      let offered = emit (on_row row) (with_row row s) in
      let called = perform_all-Booked n positive cs offered (
        emit-Booked n positive (on_row row) (with_row row s) (with_row row s) refl refl
          (ground arith) refl given) in
      by_test (Booked n) s.stopped _ _
        (λ _.
          perform-Booked n positive (refuses row (codes "stopping: taken after the stop"))
            (with_row row s) given)
        (λ _.
          by_option (Booked n) error _ _ (λ _. called)
            (λ text _.
              by_test (Booked n) (has_row row.id (perform_all cs offered).taken) _ _
                (λ _.
                  perform-Booked n positive (refuses row (codes "error: " ++ text))
                    (perform_all cs offered) called)
                (λ _. called)))

  forgotten-Booked :
      (s : NotifySubscriber)
      → s.heartbeat_in_flight ≡ true
      → s.heartbeat_of ≡ s.number
      → Booked n s
      → Booked n (
          emit
            (forgot s.number)
            (record s { heartbeat_in_flight = false; number = 0; seen_at = 0 }))
        × (s.retry_timer ≡ none)
        × (s.started ≡ true)
  forgotten-Booked s asked same h =
      let held : 1 ≤ s.number = ground (arith, h.beats, asked, same) in
      let no_retry : s.retry_timer ≡ none = ground (arith, h.retries, held) in
      let none_now : is_one 0 n ≡ 0 = ground arith in
      (
        record {
          counts = omega (
            arith,
            h.counts,
            none_now,
            total-snoc (gives_number n) s.effects (forgot s.number),
            total-snoc (ends_number n) s.effects (forgot s.number),
          );
          alone = inr refl;
          retries = inl no_retry;
          waits = inl no_retry;
          begun = ground (arith, h.begun, held);
          beats = inl refl;
        },
        no_retry,
        ground (arith, h.begun, held),
      )

  idle-Booked :
      (at : ℕ) (s : NotifySubscriber)
      → Booked n s
      → Booked n (record s { heartbeat_in_flight = false; seen_at = at })
  idle-Booked at s h = record {
    counts = h.counts;
    alone = h.alone;
    retries = h.retries;
    waits = h.waits;
    begun = h.begun;
    beats = inl refl;
  }

  pub answer_heartbeat-Booked :
      (cs : List Call) (b : Beat) (s : NotifySubscriber)
      → Booked n s
      → Booked n (answer_heartbeat cs b s)
  unfolding answer_heartbeat
  answer_heartbeat-Booked cs b s h =
      by_test (Booked n) (not s.heartbeat_in_flight) _ _ (λ _. h)
        (λ asked.
          by_test (Booked n) (not (s.heartbeat_of == s.number && not s.stopped)) _ _
            (λ _. idle-Booked s.seen_at s h)
            (λ still. answered (ground (arith, asked)) (ground (arith, still)) b))
    where
      answered :
          s.heartbeat_in_flight ≡ true
          → s.heartbeat_of ≡ s.number
          → (b : Beat)
          → Booked n (elim b [
            | not_beaten ↦ record s { heartbeat_in_flight = false }
            | unknown ↦ resubscribe cs (record s { heartbeat_in_flight = false })
            | beaten at ↦
                lapse cs s.seen_at at (record s { heartbeat_in_flight = false; seen_at = at })
          ])
      answered asked same not_beaten = idle-Booked s.seen_at s h
      answered asked same unknown =
          let (lost, no_retry, begun) = forgotten-Booked s asked same h in
          let gone =
            emit (forgot s.number)
              (record s { heartbeat_in_flight = false; number = 0; seen_at = 0 }) in
          let told = emit (on_number 0) gone in
          subscribe-Booked n positive (perform_all cs told)
            (perform_all-Free n positive cs told (refl, no_retry))
            (perform_all-started n positive cs told begun)
            (perform_all-Booked n positive cs told
              (emit-Booked n positive (on_number 0) gone gone refl refl (ground arith) refl lost))
      answered asked same (beaten at) =
          let now : NotifySubscriber = record s { heartbeat_in_flight = false; seen_at = at } in
          by_test (Booked n)
            (s.seen_at == 0
              || at == 0
              || s.draining
              || ltb (at - s.seen_at + 100) (alive_seconds s * 1000))
            _ _ (λ _. idle-Booked at s h)
            (λ _. perform_all-Booked n positive cs (emit (on_lapse (at - s.seen_at)) now) (
              emit-Booked n positive (on_lapse (at - s.seen_at)) now now refl refl (ground arith)
                refl (idle-Booked at s h)))

  pub answer_policy-Booked :
      (drawn : ℕ → ℕ) (a : Option Policy) (s : NotifySubscriber)
      → Booked n s
      → Booked n (answer_policy drawn a s)
  unfolding answer_policy
  answer_policy-Booked drawn none s h = Alike-Booked n positive s _ (ground arith) refl h
  answer_policy-Booked drawn (some p) s h =
      Alike-Booked n positive s (answer_policy drawn (some p) s) (ground arith) (ground arith) h

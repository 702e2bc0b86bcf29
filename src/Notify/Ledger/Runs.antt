-- ===== src/Notify/Ledger/Runs.antt =====
-- The rows, whatever comes.
use libapostol.Prelude.{
  Bool-cases, inl, inr, ◌==◌, ◌&&◌, ltb, ◌-◌, ◌*◌, ℕ, ◌+◌, ◌≡◌, refl, ◌==◌, true, false, not, ◌&&◌,
  ◌||◌, Option, none, some, List, [], ◌∷◌, Bytes, total, if◌then◌else◌, by_test, by_option, arith,
}
use libapostol.Notify.{
  NotifyRow, NotifyOptions, on_row, listen_legacy, listen, drain_query, registered, on_number,
  forgot, on_lapse, NotifySubscriber, new_subscriber, emit, parse_id,
}
use libapostol.Notify.Timers.{arm_heartbeat, arm_sweep, heartbeat_every, sweep_every, alive_seconds}
use libapostol.Notify.Rows.{insert_row, has_row, default_reason, Call, perform_all}
use libapostol.Notify.Events.{
  sweep_now, start, Chance, stop_listening, begins, on_subscribed, Subscribed, not_subscribed,
  subscribed, answer_subscribe, confirm_listen, take, on_wake, with_row, answer_take, Beat,
  not_beaten, unknown, beaten, resubscribe, lapse, answer_heartbeat, answer_sweep, Policy,
  answer_policy, is_armed, says_number,
}
use libapostol.Notify.Steps.{
  heartbeat_tick, sweep_tick, policy_tick, retry_tick, Event, starts, calls, wakes, confirms_listen,
  answers_subscribe, answers_take, answers_heartbeat, answers_sweep, answers_policy,
  ticks_heartbeat, ticks_sweep, ticks_policy, ticks_retry, step, run,
}
use libapostol.Notify.Ledger.{
  is_row, rows, times_settled, Kept, emit-Kept, refuse-Kept, stop-Kept, perform-Kept,
  perform_all-Kept, subscribe-Kept, heartbeat_now-Kept, sweep_now-Kept, read_policy-Kept,
}

-- One for an answer that brings the row while none of its id is with the module.
abbrev pub comes : ℕ → ℕ → NotifyRow → NotifySubscriber → ℕ
comes id token row s = if has_row row.id s.taken then 0 else is_row id token row

abbrev pub arrives : ℕ → ℕ → Event → NotifySubscriber → ℕ
arrives id token e s = elim e [ answers_take cs error row ↦ comes id token row s | _ ↦ 0 ]

-- How often the answers of the database bring a row, through events in their order.
abbrev pub arrivals : ℕ → ℕ → List Event → NotifySubscriber → ℕ
arrivals id token [] s = 0
arrivals id token (e ∷ es) s = arrives id token e s + arrivals id token es (step e s)

module _ (id token n : ℕ) where
  start-Kept : (s : NotifySubscriber) → Kept id token n s → Kept id token n (start s)
  unfolding start
  start-Kept s h =
      let begun : NotifySubscriber = record s { started = true } in
      let listens : Kept id token n
          (if s.options.has_legacy then emit listen_legacy begun else begun) =
        by_test (Kept id token n) s.options.has_legacy _ _
          (λ _. emit-Kept id token n listen_legacy begun refl h) (λ _. h) in
      by_test (Kept id token n) s.started _ _ (λ _. h)
        (λ _. subscribe-Kept id token n _ (read_policy-Kept id token n _ listens))

  stop_listening-Kept :
      (s : NotifySubscriber) → Kept id token n s → Kept id token n (stop_listening s)
  stop_listening-Kept s h =
      by_option (Kept id token n) s.listening _ _ (λ _. h) (λ m _. emit-Kept id token n _ s refl h)

  begins-Kept :
      (c : Chance) (m : ℕ) (s : NotifySubscriber)
      → Kept id token n s
      → Kept id token n (begins c m s)
  unfolding begins
  begins-Kept c m s h =
      let listens : NotifySubscriber = record (stop_listening s) {
        number = m;
        listening = some m;
      } in
      let listened = emit-Kept id token n (listen m) listens refl (stop_listening-Kept s h) in
      let said : Kept id token n (says_number c.drawn m (emit (listen m) listens)) =
        by_test (Kept id token n) (stop_listening s).draining _ _
          (λ _. emit-Kept id token n (drain_query m) (emit (listen m) listens) refl listened)
          (λ _. listened) in
      perform_all-Kept id token n c.calls _ (
        emit-Kept id token n (on_number m)
          (arm_heartbeat (says_number c.drawn m (emit (listen m) listens))) refl said)

  on_subscribed-Kept :
      (c : Chance) (m : ℕ) (s : NotifySubscriber)
      → Kept id token n s
      → Kept id token n (on_subscribed c m s)
  unfolding on_subscribed
  on_subscribed-Kept c m s h =
      let given = emit-Kept id token n (registered m) s refl h in
      by_test (Kept id token n) (m == 0) _ _ (λ _. h)
        (λ _.
          by_test (Kept id token n) s.stopped _ _
            (λ _.
              stop-Kept id token n default_reason (record (emit (registered m) s) { number = m })
                given)
            (λ _. begins-Kept c m (emit (registered m) s) given))

  answer_subscribe-Kept :
      (c : Chance) (a : Subscribed) (s : NotifySubscriber)
      → Kept id token n s
      → Kept id token n (answer_subscribe c a s)
  unfolding answer_subscribe
  answer_subscribe-Kept c not_subscribed s h =
      by_test (Kept id token n) s.subscribing _ _ (λ _. h) (λ _. h)
  answer_subscribe-Kept c (subscribed m at) s h =
      by_test (Kept id token n) s.subscribing _ _
        (λ _. on_subscribed-Kept c m (record s { subscribing = false; seen_at = at }) h) (λ _. h)

  on_wake-Kept :
      (payload : Bytes) (s : NotifySubscriber)
      → Kept id token n s
      → Kept id token n (on_wake payload s)
  unfolding on_wake take
  on_wake-Kept payload s h =
      by_test (Kept id token n) (s.draining || s.stopped || s.number == 0) _ _ (λ _. h)
        (λ _.
          by_option (Kept id token n) (parse_id payload) _ _ (λ _. h)
            (λ row_id _.
              by_test (Kept id token n) (has_row row_id s.taken) _ _ (λ _. h)
                (λ _. emit-Kept id token n _ s refl h)))

  insert_row-rows :
      (row : NotifyRow) (rs : List NotifyRow)
      → rows id token (insert_row row rs) ≡ is_row id token row + rows id token rs
  unfolding total insert_row
  insert_row-rows row [] = refl
  insert_row-rows row (r ∷ rs) = ground (arith, insert_row-rows row rs)

  none_more : (s : NotifySubscriber) → Kept id token n s → Kept id token (0 + n) s
  none_more s h = omega (arith, h)

  -- A row more, where none of its id is with the module.
  with_row-Kept :
      (row : NotifyRow) (s : NotifySubscriber)
      → Kept id token n s
      → Kept id token (comes id token row s + n) (with_row row s)
  with_row-Kept row s h = elim (Bool-cases (has_row row.id s.taken)) [
    | inl there ↦ rw there (none_more s h)
    | inr free ↦ rw free (omega (arith, h, insert_row-rows row s.taken))
  ]

  answer_take-Kept :
      (cs : List Call) (error : Option Bytes) (row : NotifyRow) (s : NotifySubscriber)
      → Kept id token n s
      → Kept id token (comes id token row s + n) (answer_take cs error row s)
  unfolding answer_take
  answer_take-Kept cs error row s h =
      let more = comes id token row s + n in
      let given = with_row-Kept row s h in
      let offered = emit (on_row row) (with_row row s) in
      let called =
        perform_all-Kept id token more cs offered
          (emit-Kept id token more (on_row row) (with_row row s) refl given) in
      by_test (Kept id token more) s.stopped _ _
        (λ _. refuse-Kept id token more row _ (with_row row s) given)
        (λ _.
          by_option (Kept id token more) error _ _ (λ _. called)
            (λ text _.
              by_test (Kept id token more) (has_row row.id (perform_all cs offered).taken) _ _
                (λ _. refuse-Kept id token more row _ (perform_all cs offered) called)
                (λ _. called)))

  answer_heartbeat-Kept :
      (cs : List Call) (b : Beat) (s : NotifySubscriber)
      → Kept id token n s
      → Kept id token n (answer_heartbeat cs b s)
  unfolding answer_heartbeat
  answer_heartbeat-Kept cs b s h =
      by_test (Kept id token n) (not s.heartbeat_in_flight) _ _ (λ _. h)
        (λ _.
          by_test (Kept id token n) (not (s.heartbeat_of == s.number && not s.stopped)) _ _ (λ _. h)
            (λ _. answered b))
    where
      answered :
          (b : Beat)
          → Kept id token n (elim b [
            | not_beaten ↦ record s { heartbeat_in_flight = false }
            | unknown ↦ resubscribe cs (record s { heartbeat_in_flight = false })
            | beaten at ↦
                lapse cs s.seen_at at (record s { heartbeat_in_flight = false; seen_at = at })
          ])
      answered not_beaten = h
      answered unknown =
          let lost : NotifySubscriber = record s {
            heartbeat_in_flight = false;
            number = 0;
            seen_at = 0;
          } in
          subscribe-Kept id token n _ (
            perform_all-Kept id token n cs _ (
              emit-Kept id token n (on_number 0) (emit (forgot s.number) lost) refl
                (emit-Kept id token n (forgot s.number) lost refl h)))
      answered (beaten at) =
          let now : NotifySubscriber = record s { heartbeat_in_flight = false; seen_at = at } in
          by_test (Kept id token n)
            (s.seen_at == 0
              || at == 0
              || s.draining
              || ltb (at - s.seen_at + 100) (alive_seconds s * 1000))
            _ _ (λ _. h)
            (λ _.
              perform_all-Kept id token n cs _
                (emit-Kept id token n (on_lapse (at - s.seen_at)) now refl h))

  answer_policy-Kept :
      (drawn : ℕ → ℕ) (a : Option Policy) (s : NotifySubscriber)
      → Kept id token n s
      → Kept id token n (answer_policy drawn a s)
  unfolding answer_policy
  answer_policy-Kept drawn none s h = h
  answer_policy-Kept drawn (some p) s h =
      let idle : NotifySubscriber = record s { policy_in_flight = false } in
      let read : NotifySubscriber = record idle { alive = p.alive; policy_sweep = p.sweep } in
      let beats : NotifySubscriber =
        if not (heartbeat_every read == heartbeat_every idle) && is_armed s.heartbeat_timer
        then arm_heartbeat read
        else read in
      let beats_kept : Kept id token n beats =
        by_test (Kept id token n)
          (not (heartbeat_every read == heartbeat_every idle) && is_armed s.heartbeat_timer) _ _
          (λ _. h) (λ _. h) in
      by_test (Kept id token n)
        (not (sweep_every read == sweep_every idle) && is_armed idle.sweep_timer)
        (arm_sweep drawn beats) beats (λ _. beats_kept) (λ _. beats_kept)

  step-Kept :
      (e : Event) (s : NotifySubscriber)
      → Kept id token n s
      → Kept id token (arrives id token e s + n) (step e s)
  unfolding confirm_listen answer_sweep heartbeat_tick sweep_tick policy_tick retry_tick
  step-Kept starts s h = none_more (step starts s) (start-Kept s h)
  step-Kept (calls c) s h = none_more (step (calls c) s) (perform-Kept id token n c s h)
  step-Kept (wakes payload) s h = none_more (step (wakes payload) s) (on_wake-Kept payload s h)
  step-Kept confirms_listen s h =
      none_more (step confirms_listen s)
        (heartbeat_now-Kept id token n (sweep_now s) (sweep_now-Kept id token n s h))
  step-Kept (answers_subscribe c a) s h =
      none_more (step (answers_subscribe c a) s) (answer_subscribe-Kept c a s h)
  step-Kept (answers_take cs error row) s h = answer_take-Kept cs error row s h
  step-Kept (answers_heartbeat cs b) s h =
      none_more (step (answers_heartbeat cs b) s) (answer_heartbeat-Kept cs b s h)
  step-Kept answers_sweep s h = none_more (step answers_sweep s) (h)
  step-Kept (answers_policy drawn a) s h =
      none_more (step (answers_policy drawn a) s) (answer_policy-Kept drawn a s h)
  step-Kept ticks_heartbeat s h = none_more (step ticks_heartbeat s) (
      by_test (Kept id token n) (is_armed s.heartbeat_timer) _ _
        (λ _. heartbeat_now-Kept id token n (record s { heartbeat_timer = none }) h) (λ _. h))
  step-Kept (ticks_sweep drawn) s h = none_more (step (ticks_sweep drawn) s) (
      by_test (Kept id token n) (is_armed s.sweep_timer) _ _
        (λ _. sweep_now-Kept id token n (record s { sweep_timer = none }) h) (λ _. h))
  step-Kept ticks_policy s h = none_more (step ticks_policy s) (
      by_test (Kept id token n) (is_armed s.policy_timer) _ _
        (λ _. read_policy-Kept id token n (record s { policy_timer = none }) h) (λ _. h))
  step-Kept ticks_retry s h = none_more (step ticks_retry s) (
      by_test (Kept id token n) (is_armed s.retry_timer) _ _
        (λ _. subscribe-Kept id token n (record s { retry_timer = none }) h) (λ _. h))

module _ (id token : ℕ) where
  run-Kept :
      (es : List Event) (s : NotifySubscriber) (n : ℕ)
      → Kept id token n s
      → Kept id token (n + arrivals id token es s) (run es s)
  unfolding run
  run-Kept [] s n h = omega (arith, h)
  run-Kept (e ∷ es) s n h =
      let rest = run-Kept es (step e s) (arrives id token e s + n) (step-Kept id token n e s h) in
      omega (arith, rest)

-- However the events of a new subscriber come, and whatever the module calls: as often as an answer of
-- the database brought a row, under one token, while no row of its id was with the module, the row was
-- confirmed or given back (by refuse() or in the batch of a stop), less once if it is with the module
-- still.
pub run-settled :
    (options : NotifyOptions) (es : List Event) (id token : ℕ)
    → arrivals id token es (new_subscriber options)
      ≡ rows id token (run es (new_subscriber options)).taken
        + times_settled id token (run es (new_subscriber options)).effects
run-settled options es id token =
    omega (arith, run-Kept id token es (new_subscriber options) 0 (unfold total in refl))

-- ===== src/Notify/Ledger.antt =====
-- Rows: each that came to the module is with it, or was confirmed or given back once.
pub mod Runs
use libapostol.Prelude.{
  ltb, ◌-◌, ◌*◌, ℕ, ◌+◌, ◌≡◌, refl, ◌==◌, true, false, not, ◌&&◌, ◌||◌, Option, none, some, List,
  [], ◌∷◌, Bytes, total, total-snoc, if◌then◌else◌, by_test, by_option, Bool-cases, inl, inr, arith,
  is_empty,
}
use libapostol.Notify.{
  NotifyRow, NotifyOptions, Effect, ack, nack, stop_batch, on_row, listen_legacy, listen,
  drain_query, registered, on_number, forgot, on_lapse, NotifySubscriber, new_subscriber, emit,
  parse_id,
}
use libapostol.Notify.Timers.{
  arm_retry, arm_heartbeat, arm_sweep, heartbeat_every, sweep_every, alive_seconds,
}
use libapostol.Notify.Rows.{
  find_row, insert_row, erase_row, has_row, is_with_module, complete, refuse, drain, stop,
  default_reason, Call, completes, refuses, drains, stops, perform, perform_all,
}
use libapostol.Notify.Events.{
  subscribe, heartbeat_now, sweep_now, read_policy, start, Chance, stop_listening, begins,
  on_subscribed, Subscribed, not_subscribed, subscribed, answer_subscribe, confirm_listen, take,
  on_wake, with_row, answer_take, Beat, not_beaten, unknown, beaten, resubscribe, lapse,
  answer_heartbeat, answer_sweep, Policy, answer_policy, is_armed, says_number,
}
use libapostol.Notify.Steps.{
  heartbeat_tick, sweep_tick, policy_tick, retry_tick, Event, starts, calls, wakes, confirms_listen,
  answers_subscribe, answers_take, answers_heartbeat, answers_sweep, answers_policy,
  ticks_heartbeat, ticks_sweep, ticks_policy, ticks_retry, step, run,
}

-- One for a row of this id and token.
abbrev pub is_row : ℕ → ℕ → NotifyRow → ℕ
is_row id token r = if r.id == id && r.token == token then 1 else 0

abbrev pub rows : ℕ → ℕ → List NotifyRow → ℕ
rows id token rs = total (is_row id token) rs

abbrev pub settles_row : ℕ → ℕ → Effect → ℕ
settles_row id token e = elim e [
  | ack r sql ↦ is_row id token r
  | nack r reason ↦ is_row id token r
  | stop_batch n rs reason ↦ rows id token rs
  | _ ↦ 0
]

-- How often a row was confirmed or given back.
abbrev pub times_settled : ℕ → ℕ → List Effect → ℕ
times_settled id token es = total (settles_row id token) es

module _ (id token n : ℕ) where
  -- Of the rows that came, `n` of them, each is with the module or settled.
  abbrev pub Kept : NotifySubscriber → Type 0
  Kept s = n ≡ rows id token s.taken + times_settled id token s.effects

  -- An effect on no row.
  pub emit-Kept :
      (e : Effect) (s : NotifySubscriber) → settles_row id token e ≡ 0 → Kept s → Kept (emit e s)
  emit-Kept e s u h = omega (arith, h, u, total-snoc (settles_row id token) s.effects e)

  erase_row-rows :
      (row r : NotifyRow) (rs : List NotifyRow)
      → find_row row.id rs ≡ some r
      → r.token ≡ row.token
      → rows id token (erase_row row.id rs) + is_row id token row ≡ rows id token rs
  unfolding total find_row erase_row
  erase_row-rows row r [] h e = cc h
  erase_row-rows row r (x ∷ rs) h e = elim (Bool-cases (x.id == row.id)) [
    | inl found ↦ ground (arith, h, found, e)
    | inr other ↦ ground (arith, other, erase_row-rows row r rs (ground (arith, h, other)) e)
  ]

  settle-Kept :
      (row : NotifyRow) (e : Effect) (s : NotifySubscriber)
      → settles_row id token e ≡ is_row id token row
      → is_with_module row s ≡ true
      → Kept s
      → Kept (emit e (record s { taken = erase_row row.id s.taken }))
  settle-Kept row e s u held h = go (find_row row.id s.taken) refl held
    where
      go :
          (o : Option NotifyRow)
          → find_row row.id s.taken ≡ o
          → (elim o [ none ↦ false | some r ↦ r.token == row.token ]) ≡ true
          → Kept (emit e (record s { taken = erase_row row.id s.taken }))
      go none found same = cc same
      go (some r) found same = omega (
        arith,
        h,
        u,
        erase_row-rows row r s.taken found (ground (arith, same)),
        total-snoc (settles_row id token) s.effects e,
      )

  complete-Kept :
      (row : NotifyRow) (sql : Bytes) (s : NotifySubscriber) → Kept s → Kept (complete row sql s)
  unfolding complete
  complete-Kept row sql s h =
      by_test Kept (is_with_module row s) _ _ (λ held. settle-Kept row (ack row sql) s refl held h)
        (λ _. emit-Kept _ s refl h)

  pub refuse-Kept :
      (row : NotifyRow) (reason : Bytes) (s : NotifySubscriber)
      → Kept s
      → Kept (refuse row reason s)
  unfolding refuse
  refuse-Kept row reason s h =
      by_test Kept (is_with_module row s) _ _
        (λ held. settle-Kept row (nack row reason) s refl held h) (λ _. h)

  drain-Kept : (s : NotifySubscriber) → Kept s → Kept (drain s)
  unfolding drain
  drain-Kept s h =
      by_test Kept (s.draining || s.stopped) _ _ (λ _. h)
        (λ _. by_test Kept (s.number == 0) _ _ (λ _. h) (λ _. emit-Kept _ s refl h))

  pub stop-Kept : (reason : Bytes) (s : NotifySubscriber) → Kept s → Kept (stop reason s)
  unfolding stop
  stop-Kept reason s h =
      let e = stop_batch s.number s.taken reason in
      let nothing : rows id token [] ≡ 0 = (unfold total in refl) in
      by_test Kept (s.stopped && s.number == 0 || s.number == 0 && is_empty s.taken) _ _ (λ _. h)
        (λ _. omega (arith, h, nothing, total-snoc (settles_row id token) s.effects e))

  pub perform-Kept : (c : Call) (s : NotifySubscriber) → Kept s → Kept (perform c s)
  perform-Kept (completes row sql) s h = complete-Kept row sql s h
  perform-Kept (refuses row reason) s h = refuse-Kept row reason s h
  perform-Kept drains s h = drain-Kept s h
  perform-Kept (stops reason) s h = stop-Kept reason s h

  pub perform_all-Kept : (cs : List Call) (s : NotifySubscriber) → Kept s → Kept (perform_all cs s)
  unfolding perform_all
  perform_all-Kept [] s h = h
  perform_all-Kept (c ∷ cs) s h = perform_all-Kept cs (perform c s) (perform-Kept c s h)

  arm_retry-Kept : (s : NotifySubscriber) → Kept s → Kept (arm_retry s)
  arm_retry-Kept s h = h

  pub subscribe-Kept : (s : NotifySubscriber) → Kept s → Kept (subscribe s)
  unfolding subscribe
  subscribe-Kept s h =
      by_test Kept (s.subscribing || s.draining || s.stopped) _ _ (λ _. h)
        (λ _. emit-Kept _ s refl h)

  pub heartbeat_now-Kept : (s : NotifySubscriber) → Kept s → Kept (heartbeat_now s)
  unfolding heartbeat_now
  heartbeat_now-Kept s h =
      by_test Kept (s.number == 0 || s.stopped || s.heartbeat_in_flight) _ _ (λ _. h)
        (λ _. emit-Kept _ s refl h)

  pub sweep_now-Kept : (s : NotifySubscriber) → Kept s → Kept (sweep_now s)
  unfolding sweep_now
  sweep_now-Kept s h =
      by_test Kept (s.number == 0 || s.draining || s.stopped || s.sweep_in_flight) _ _ (λ _. h)
        (λ _. emit-Kept _ s refl h)

  pub read_policy-Kept : (s : NotifySubscriber) → Kept s → Kept (read_policy s)
  unfolding read_policy
  read_policy-Kept s h =
      by_test Kept (s.policy_in_flight || s.stopped) _ _ (λ _. h) (λ _. emit-Kept _ s refl h)

-- ===== src/PgLeader/Role/Runs.antt =====
-- Every event keeps the role in order, and so does every run of events.
use libapostol.Prelude.{
  ℕ, ◌-◌, ◌≡◌, ◌⊎◌, refl, ap, ◌∙◌, true, false, ◌&&◌, none, some, List, [], ◌∷◌, codes, arith,
  if◌then◌else◌, Bool-cases, Option-cases, inl, inr, ltb,
}
use libapostol.Pg.{busy, PgConnection, consume_notify}
use libapostol.PgLeader.{
  PgLeaderLock, Answers, try_lock, probe, answer_timeout, new_lock, unwatch, has_fd, drop_session,
}
use libapostol.PgLeader.Events.{
  Events, connect, read_answer, on_busy, on_conn, on_io, give_up, readable, tick_conn, tick,
  find_closed, fresh, start, Event, ticks, asks_fresh, on_socket, step, run, seconds,
}
use libapostol.PgLeader.Role.{phase_from, settled, is_asking, view, Inv, Active, unwatch-view}
use libapostol.PgLeader.Fresh.{fresh-free, fresh-none, fresh-stands, fresh-closed}
use libapostol.PgLeader.Role.Operations.{drop-Inv, send-Inv}
use libapostol.PgLeader.Role.Handshake.{connect-Inv, Active-conn}
use libapostol.PgLeader.Role.Sockets.{state-cases, on_io-Inv, on_io-some}
use libapostol.PgLeader.Role.Quiet.{Quiet, read_answer-Quiet}

on_conn-busy :
    (ev : Events) (a : Answers) (c : PgConnection) (l : PgLeaderLock)
    → c.state ≡ busy
    → on_conn ev a c l ≡ on_busy ev a c l
unfolding on_conn
on_conn-busy ev a c l s = ground arith

on_busy-readable :
    (a : Answers) (c : PgConnection) (l : PgLeaderLock) → on_busy readable a c l ≡ read_answer a c l
unfolding on_busy
on_busy-readable a c l = refl

-- The answer of a query that is overdue is looked for once more.
pub overdue_read :
    (a : Answers) (c : PgConnection) (l : PgLeaderLock)
    → l.inert ≡ false
    → l.conn ≡ some c
    → c.state ≡ busy
    → on_io readable a l ≡ read_answer a c l
overdue_read a c l i e s =
    on_io-some readable a c l i e ∙ on_conn-busy readable a c l s ∙ on_busy-readable a c l

give_up-none : (l : PgLeaderLock) → l.conn ≡ none → give_up l ≡ l
unfolding give_up
give_up-none l e = ground arith

give_up-rests :
    (c : PgConnection) (l : PgLeaderLock)
    → l.conn ≡ some c
    → is_asking (some c) ≡ false
    → give_up l ≡ l
unfolding give_up
give_up-rests c l e q = ground arith

pub give_up-asking :
    (c : PgConnection) (l : PgLeaderLock)
    → l.conn ≡ some c
    → is_asking (some c) ≡ true
    → give_up l
      ≡ drop_session (seconds (codes "no answer from the server in ") (answer_timeout l)) l
unfolding give_up
give_up-asking c l e q = ground arith

give_up-Inv :
    (l : PgLeaderLock) → Inv (view l) → Quiet l ⊎ (l.inert ≡ false) → Inv (view (give_up l))
give_up-Inv l h q = elim (Option-cases l.conn) [
  | inl no_conn ↦ rw (give_up-none l no_conn) h
  | inr (c, there) ↦ elim (Bool-cases (is_asking (some c))) [
    | inr rests ↦ rw (give_up-rests c l there rests) h
    | inl asks ↦ elim q [
      | inl rests ↦ absurd (ground (arith, asks, ap is_asking there, rests))
      | inr active ↦
          rw (give_up-asking c l there asks)
            (drop-Inv _ l (record { orderly = h.orderly; active = active }))
    ]
  ]
]

tick_conn-Inv :
    (a : Answers) (c : PgConnection) (l : PgLeaderLock)
    → Inv (view l)
    → l.inert ≡ false
    → l.conn ≡ some c
    → Inv (view (tick_conn a c l))
unfolding tick_conn
tick_conn-Inv a c l h i e =
    let active : Active (view l) = record { orderly = h.orderly; active = i } in
    elim (state-cases c.state) [
      | inl s ↦ elim (Bool-cases (ltb (answer_timeout l) (a.now - l.since))) [
        | inl late ↦ rw (s, late, tick_conn) (drop-Inv _ l active)
        | inr early ↦ rw (s, early, tick_conn) h
      ]
      | inr (inl s) ↦
          rw (s, tick_conn) (send-Inv (if l.held then probe else try_lock) a c l active refl)
      | inr (inr (inl s)) ↦ elim (Bool-cases (ltb (answer_timeout l) (a.now - l.since))) [
        | inr early ↦ rw (s, early, tick_conn) h
        | inl late ↦
            rw (s, late, tick_conn)
              (give_up-Inv (on_io readable a l) (on_io-Inv readable a l h) (
                rw (overdue_read a c l i e s)
                  (elim (read_answer-Quiet a c l s) [ inl q ↦ inl q | inr same ↦ inr (same ∙ i) ])))
      ]
      | inr (inr (inr s)) ↦ rw (s, tick_conn) (drop-Inv a.error_message l active)
    ]

pub tick-inert : (a : Answers) (l : PgLeaderLock) → l.inert ≡ true → tick a l ≡ l
unfolding tick
tick-inert a l i = ground arith

tick-none :
    (a : Answers) (l : PgLeaderLock) → l.inert ≡ false → l.conn ≡ none → tick a l ≡ connect a l
unfolding tick
tick-none a l i e = ground arith

pub tick-some :
    (a : Answers) (c : PgConnection) (l : PgLeaderLock)
    → l.inert ≡ false
    → l.conn ≡ some c
    → tick a l ≡ tick_conn a c l
unfolding tick
tick-some a c l i e = ground arith

-- A lock without a session is no leader.
no_session : (l : PgLeaderLock) → Inv (view l) → l.conn ≡ none → l.held ≡ false
no_session l h e = elim (Bool-cases l.held) [
  | inr free ↦ free
  | inl held ↦ absurd (ground (arith, h.session held, ap settled e))
]

tick-Inv : (a : Answers) (l : PgLeaderLock) → Inv (view l) → Inv (view (tick a l))
tick-Inv a l h = elim (Bool-cases l.inert) [
  | inl inert ↦ rw (tick-inert a l inert) h
  | inr active ↦ elim (Option-cases l.conn) [
    | inl no_conn ↦
        rw (tick-none a l active no_conn) (
          connect-Inv a l (record { orderly = h.orderly; active = active })
            (no_session l h no_conn))
    | inr (c, there) ↦ rw (tick-some a c l active there) (tick_conn-Inv a c l h active there)
  ]
]

seen_closed-Inv :
    (a : Answers) (c : PgConnection) (l : PgLeaderLock)
    → Active (view l)
    → Inv (view (find_closed a c l))
seen_closed-Inv a c l h =
    let c' = (consume_notify a.alive c).0 in
    let seen : PgLeaderLock = record l { conn = some c' } in
    let active = Active-conn (some c') (view l) h in
    elim (Bool-cases (has_fd c')) [
      | inl watched ↦ rw watched (drop-Inv _ seen active)
      | inr closed ↦ rw closed (drop-Inv _ (unwatch c.fd seen) (rw (unwatch-view c.fd seen) active))
    ]

fresh-Inv : (a : Answers) (l : PgLeaderLock) → Inv (view l) → Inv (view (fresh a l).0)
fresh-Inv a l h = elim (Bool-cases l.held) [
  | inr free ↦ rw (fresh-free a l free) h
  | inl held ↦ elim (Option-cases l.conn) [
    | inl no_conn ↦ rw (fresh-none a l held no_conn) h
    | inr (c, there) ↦ elim (Bool-cases (has_fd c && a.closed_by_server)) [
      | inr stands ↦ rw (fresh-stands a c l held there stands) h
      | inl closed ↦
          rw (fresh-closed a c l held there closed) (
            seen_closed-Inv a c l
              (record { orderly = h.orderly; active = ground (arith, h.apart) }))
    ]
  ]
]

step-Inv : (e : Event × Answers) (l : PgLeaderLock) → Inv (view l) → Inv (view (step e l))
step-Inv (ticks, a) l h = tick-Inv a l h
step-Inv (asks_fresh, a) l h = fresh-Inv a l h
step-Inv (on_socket ev, a) l h = on_io-Inv ev a l h

run-Inv : (es : List (Event × Answers)) (l : PgLeaderLock) → Inv (view l) → Inv (view (run es l))
run-Inv [] l h = h
run-Inv (e ∷ es) l h = run-Inv es (step e l) (step-Inv e l h)

start-Inv : (interval : ℕ) (a : Answers) → Inv (view (start a (new_lock interval)))
unfolding start phase_from
start-Inv interval a =
    connect-Inv a (record (new_lock interval) { timer = true })
      (record { orderly = refl; active = refl }) refl

-- However the events of a lock come, and whatever the clock, libpq and the kernel answer: its flags
-- agree with the life of the role that its effects show, in which the role is told once to be acquired
-- and once to be lost, a session ends only while the role is neither held nor lost, and no query is sent
-- once it is lost; a leader has a session past its handshake; and the query under way fits the role.
pub run-start-Inv :
    (interval : ℕ) (a : Answers) (es : List (Event × Answers))
    → Inv (view (run es (start a (new_lock interval))))
run-start-Inv interval a es = run-Inv es (start a (new_lock interval)) (start-Inv interval a)

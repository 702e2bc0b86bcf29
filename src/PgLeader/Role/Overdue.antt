-- ===== src/PgLeader/Role/Overdue.antt =====
-- A leader that gets no answer in time, and a lock that has lost the role.
use libapostol.Prelude.{
  ℕ, sym, any, ◌++◌, ◌&&◌, Bool-cases, inl, inr, ◌-◌, ◌≡◌, refl, ap, ◌∙◌, Bool, true, false, some,
  List, [], ◌∷◌, Bytes, codes, arith, ltb,
}
use libapostol.Pg.{PgResult, busy, PgConnection, results, collect_results}
use libapostol.PgLeader.{
  Effect, on_acquired, finish, on_lost, query, new_lock, PgLeaderLock, Answers, answer_timeout,
  drop_session, lose, one_line,
}
use libapostol.PgLeader.Events.{
  on_io, read_answer, give_up, readable, tick_conn, tick, Event, ticks, asks_fresh, on_socket, step,
  run, seconds, start,
}
use libapostol.PgLeader.Fresh.{fresh-free}
use libapostol.PgLeader.Role.{
  is_asking, Phase, standby, leader, retired, broken, next, phase_from, phase_for, View, view,
  lose-view,
}
use libapostol.PgLeader.Role.Sockets.{on_io-inert}
use libapostol.PgLeader.Role.Runs.{
  run-start-Inv, overdue_read, give_up-asking, tick-some, tick-inert,
}

-- The part of a step that an event of a lock without its role takes.
step-retired :
    (e : Event × Answers) (l : PgLeaderLock) → l.inert ≡ true → l.held ≡ false → step e l ≡ l
step-retired (ticks, a) l i h = tick-inert a l i
step-retired (asks_fresh, a) l i h = ap (λ (p : PgLeaderLock × Bool). p.0) (fresh-free a l h)
step-retired (on_socket ev, a) l i h = on_io-inert ev a l i

run-same :
    (es : List (Event × Answers)) (l : PgLeaderLock)
    → l.inert ≡ true
    → l.held ≡ false
    → run es l ≡ l
run-same [] l i h = refl
run-same (e ∷ es) l i h = ap (run es) (step-retired e l i h) ∙ run-same es l i h

-- The handlers were told that the role is lost.
abbrev pub is_loss : Effect → Bool
is_loss (on_lost _) = true
is_loss _ = false

abbrev is_over : Phase → Bool
is_over standby = false
is_over leader = false
is_over retired = true
is_over broken = true

next-over : (p : Phase) (e : Effect) → is_over p ≡ true → is_over (next p e) ≡ true
next-over standby e h = cc h
next-over leader e h = cc h
next-over retired e h = refl
next-over broken e h = refl

phase_from-over :
    (p : Phase) (es : List Effect) → is_over p ≡ true → is_over (phase_from p es) ≡ true
unfolding phase_from
phase_from-over p [] h = h
phase_from-over p (e ∷ es) h = phase_from-over (next p e) es (next-over p e h)

loss-over : (p : Phase) (e : Effect) → is_loss e ≡ true → is_over (next p e) ≡ true
loss-over p on_acquired h = cc h
loss-over p finish h = cc h
loss-over p (query _ _) h = cc h
loss-over standby (on_lost _) h = refl
loss-over leader (on_lost _) h = refl
loss-over retired (on_lost _) h = refl
loss-over broken (on_lost _) h = refl

phase_from-loss :
    (p : Phase) (es : List Effect) → any is_loss es ≡ true → is_over (phase_from p es) ≡ true
unfolding phase_from
phase_from-loss p [] h = cc h
phase_from-loss p (e ∷ es) h = elim (Bool-cases (is_loss e)) [
  | inl lost ↦ phase_from-over (next p e) es (loss-over p e lost)
  | inr other ↦ phase_from-loss (next p e) es (ground (arith, h, other))
]

over_for :
    (held inert : Bool)
    → is_over (phase_for held inert) ≡ true
    → (held && inert) ≡ false
    → (inert ≡ true) × (held ≡ false)
over_for false false o h = cc o
over_for true false o h = cc o
over_for false true o h = (refl, refl)
over_for true true o h = cc h

-- However the events of a new lock come: once its handlers were told that the role is lost, no later
-- event changes the lock: it asks nothing, tells its handlers nothing and keeps its session as it is.
pub run-retired :
    (interval : ℕ) (a : Answers) (before after : List (Event × Answers))
    → any is_loss (run before (start a (new_lock interval))).effects ≡ true
    → run after (run before (start a (new_lock interval)))
      ≡ run before (start a (new_lock interval))
run-retired interval a before after told =
    let l = run before (start a (new_lock interval)) in
    let inv = run-start-Inv interval a before in
    let over : is_over (phase_for l.held l.inert) ≡ true =
      sym (ap is_over inv.orderly) ∙ phase_from-loss standby l.effects told in
    let (inert, free) = over_for l.held l.inert over inv.apart in run-same after l inert free

-- A read that brings no complete answer changes the connection only.
pub waiting : List PgResult → PgConnection → PgConnection
waiting rs c = (collect_results (results rs false) c).0

read_answer-waiting :
    (rs : List PgResult) (a : Answers) (c : PgConnection) (l : PgLeaderLock)
    → a.reading ≡ results rs false
    → c.state ≡ busy
    → (read_answer a c l ≡ record l { conn = some (waiting rs c) })
      × (is_asking (some (waiting rs c)) ≡ true)
unfolding read_answer collect_results waiting
read_answer-waiting rs a c l e s = (ground (arith, e, s), ground (arith, s))

tick_conn-overdue :
    (a : Answers) (c : PgConnection) (l : PgLeaderLock)
    → c.state ≡ busy
    → ltb (answer_timeout l) (a.now - l.since) ≡ true
    → tick_conn a c l ≡ give_up (on_io readable a l)
unfolding tick_conn
tick_conn-overdue a c l s late = ground (arith, s, late)

drop_session-held :
    (why : Bytes) (l : PgLeaderLock) → l.held ≡ true → drop_session why l ≡ lose (one_line why) l
unfolding drop_session
drop_session-held why l h = ground (arith, h)

overdue_lost :
    (rs : List PgResult) (a : Answers) (c : PgConnection) (l : PgLeaderLock)
    → l.held ≡ true
    → l.inert ≡ false
    → l.conn ≡ some c
    → c.state ≡ busy
    → a.reading ≡ results rs false
    → ltb (answer_timeout l) (a.now - l.since) ≡ true
    → tick a l
      ≡ lose
          (one_line (seconds (codes "no answer from the server in ") (answer_timeout l)))
          (record l { conn = some (waiting rs c) })
overdue_lost rs a c l h i there w e late =
    let why = seconds (codes "no answer from the server in ") (answer_timeout l) in
    let next : PgLeaderLock = record l { conn = some (waiting rs c) } in
    let (same, asks) = read_answer-waiting rs a c l e w in
    tick-some a c l i there
    ∙ tick_conn-overdue a c l w late
    ∙ ap give_up (overdue_read a c l i there w ∙ same)
    ∙ give_up-asking (waiting rs c) next refl asks
    ∙ drop_session-held why next h

-- A leader whose query has been under way for longer than a server has to answer, and for which the
-- last look brings no complete answer, loses the role at its next tick: its handler is told so once,
-- with the time it waited, and nothing else is done; it holds the role no more and is inert; and it has
-- the session still, which was not ended.
pub tick-overdue :
    (rs : List PgResult) (a : Answers) (c : PgConnection) (l : PgLeaderLock)
    → l.held ≡ true
    → l.inert ≡ false
    → l.conn ≡ some c
    → c.state ≡ busy
    → a.reading ≡ results rs false
    → ltb (answer_timeout l) (a.now - l.since) ≡ true
    → ((tick a l).effects
        ≡ l.effects
          ++ (on_lost
                (one_line (seconds (codes "no answer from the server in ") (answer_timeout l)))
              ∷ []))
      × ((tick a l).held ≡ false)
      × ((tick a l).inert ≡ true)
      × ((tick a l).conn ≡ some (waiting rs c))
tick-overdue rs a c l h i there w e late =
    let seen =
      ap view (overdue_lost rs a c l h i there w e late)
      ∙ lose-view (one_line (seconds (codes "no answer from the server in ") (answer_timeout l)))
          (record l { conn = some (waiting rs c) }) in
    (
      ap (λ (v : View). v.effects) seen,
      ap (λ (v : View). v.held) seen,
      ap (λ (v : View). v.inert) seen,
      ap (λ (v : View). v.conn) seen,
    )

-- ===== src/PgLeader/Role/Sockets.antt =====
-- A socket event keeps the role in order.
use libapostol.Prelude.{
  ◌≡◌, ◌⊎◌, refl, ap, ◌∙◌, Bool, true, false, not, ◌&&◌, none, some, List, [], ◌∷◌, arith,
  if◌then◌else◌, Bool-cases, Option-cases, inl, inr,
}
use libapostol.Pg.{
  PgConnState, connecting, ready, busy, failed, PgConnection, Read, broken, results,
  collect_results, flush, consume_notify,
}
use libapostol.PgLeader.{PgLeaderLock, Answers, try_lock, probe}
use libapostol.PgLeader.Events.{
  Events, read_answer, on_busy, on_ready, on_conn, on_io, is_connecting, hang_up,
}
use libapostol.PgLeader.Role.{settled, is_asking, view, Inv, Active}
use libapostol.PgLeader.Role.Operations.{drop-Inv, Idle, Idle-Inv, handle-Inv}
use libapostol.PgLeader.Role.Handshake.{quiet-Inv, poll_handshake-Inv, Active-conn}

pub state-cases : (s : PgConnState) → (s ≡ connecting) ⊎ ((s ≡ ready) ⊎ ((s ≡ busy) ⊎ (s ≡ failed)))
state-cases connecting = inl refl
state-cases ready = inr (inl refl)
state-cases busy = inr (inr (inl refl))
state-cases failed = inr (inr (inr refl))

pub List-cases : {A : Type 0} (xs : List A) → (xs ≡ []) ⊎ ((x : A) × (ys : List A) × (xs ≡ x ∷ ys))
List-cases [] = inl refl
List-cases (x ∷ ys) = inr (x, ys, refl)

-- What a read leaves of a connection with a query under way: it broke, the answer is complete, or it is
-- not complete and nothing is given out.
pub read-cases :
    (g : Read) (c : PgConnection)
    → c.state ≡ busy
    → (((collect_results g c).0.state ≡ failed) × ((collect_results g c).1 ≡ []))
      ⊎ (((collect_results g c).0.state ≡ ready)
          ⊎ (((collect_results g c).0.state ≡ busy) × ((collect_results g c).1 ≡ [])))
unfolding collect_results
read-cases broken c b = inl (refl, refl)
read-cases (results rs true) c b = inr (inl refl)
read-cases (results rs false) c b = inr (inr (ground arith))

-- The query that is under way fits the role.
AsksRightly : PgLeaderLock → Type 0
AsksRightly l = l.asked ≡ (if l.held then probe else try_lock)

read_answer-Inv :
    (a : Answers) (c : PgConnection) (l : PgLeaderLock)
    → Active (view l)
    → AsksRightly l
    → c.state ≡ busy
    → Inv (view (read_answer a c l))
unfolding read_answer AsksRightly
read_answer-Inv a c l h q b =
    let read = (collect_results a.reading c).0 in
    let next : PgLeaderLock = record l { conn = some read } in
    let active = Active-conn (some read) (view l) h in
    elim (read-cases a.reading c b) [
      | inl (fails, empty) ↦ rw (empty, fails, read_answer) (drop-Inv a.error_message next active)
      | inr (inl done) ↦
          let idle : Idle (view next) = record {
            active = active;
            settled_conn = rw (done, settled) refl;
            no_query = rw (done, is_asking) refl;
          } in
          elim (List-cases (collect_results a.reading c).1) [
            | inl empty ↦ rw (empty, done, read_answer) (Idle-Inv (view next) idle)
            | inr (r, rs, given) ↦ rw (given, read_answer) (handle-Inv r rs a next idle q)
          ]
      | inr (inr (waits, empty)) ↦
          rw (empty, waits, read_answer)
            (record {
              orderly = h.orderly;
              apart = ground (arith, h.active);
              session = λ t. rw (waits, settled) refl;
              asks = λ t u. q;
            })
    ]

flush-state : (b : Bool) (c : PgConnection) → (flush b c).0.state ≡ c.state
unfolding flush
flush-state true c = refl
flush-state false c = refl

on_busy-Inv :
    (ev : Events) (a : Answers) (c : PgConnection) (l : PgLeaderLock)
    → Active (view l)
    → AsksRightly l
    → c.state ≡ busy
    → Inv (view (on_busy ev a c l))
unfolding on_busy AsksRightly
on_busy-Inv ev a c l h q b =
    let out = flush a.flushed c in
    let next : PgLeaderLock = record l { conn = some out.0 } in
    let active = Active-conn (some out.0) (view l) h in
    elim (Bool-cases (ev.writable && c.needs_flush)) [
      | inr reads ↦ rw (reads, on_busy) (read_answer-Inv a c l h q b)
      | inl writes ↦ elim (Bool-cases (out.1 && not a.modified)) [
        | inl unwatched ↦ rw (writes, unwatched, on_busy) (drop-Inv _ next active)
        | inr watched ↦
            rw (writes, watched, on_busy)
              (read_answer-Inv a out.0 next active q (flush-state a.flushed c ∙ b))
      ]
    ]

on_ready-Inv :
    (a : Answers) (c : PgConnection) (l : PgLeaderLock)
    → Active (view l)
    → c.state ≡ ready
    → Inv (view (on_ready a c l))
unfolding on_ready consume_notify
on_ready-Inv a c l h r = elim (Bool-cases a.alive) [
  | inl alive ↦
      rw (alive, on_ready)
        (quiet-Inv (record (view l) { conn = some c }) (Active-conn (some c) (view l) h)
          (λ t. rw (r, settled) refl) (rw (r, is_asking) refl))
  | inr dead ↦
      rw (dead, on_ready)
        (drop-Inv a.error_message (record l { conn = some (consume_notify false c).0 })
          (Active-conn (some (consume_notify false c).0) (view l) h))
]

-- An event finds a lock that holds the role past its handshake.
not_held :
    (c : PgConnection) (l : PgLeaderLock)
    → Inv (view l)
    → l.conn ≡ some c
    → c.state ≡ connecting
    → l.held ≡ false
not_held c l h e s = elim (Bool-cases l.held) [
  | inr free ↦ free
  | inl held ↦
      let dialling : settled (some c) ≡ false = rw (s, settled) refl in
      cc (h.session held, e, dialling)
]

on_conn-Inv :
    (ev : Events) (a : Answers) (c : PgConnection) (l : PgLeaderLock)
    → Inv (view l)
    → l.inert ≡ false
    → l.conn ≡ some c
    → Inv (view (on_conn ev a c l))
unfolding on_conn AsksRightly
on_conn-Inv ev a c l h i e =
    let active : Active (view l) = record { orderly = h.orderly; active = i } in
    elim (state-cases c.state) [
      | inl s ↦ rw (s, on_conn) (poll_handshake-Inv a c l active (not_held c l h e s) s)
      | inr (inl s) ↦ rw (s, on_conn) (on_ready-Inv a c l active s)
      | inr (inr (inl s)) ↦
          rw (s, on_conn)
            (on_busy-Inv ev a c l active (h.asks (ap is_asking e ∙ rw (s, is_asking) refl) i) s)
      | inr (inr (inr s)) ↦ rw (s, on_conn) (drop-Inv a.error_message l active)
    ]

pub on_io-none : (ev : Events) (a : Answers) (l : PgLeaderLock) → l.conn ≡ none → on_io ev a l ≡ l
unfolding on_io
on_io-none ev a l e = ground arith

pub on_io-inert : (ev : Events) (a : Answers) (l : PgLeaderLock) → l.inert ≡ true → on_io ev a l ≡ l
unfolding on_io
on_io-inert ev a l e = ground arith

pub on_io-some :
    (ev : Events) (a : Answers) (c : PgConnection) (l : PgLeaderLock)
    → l.inert ≡ false
    → l.conn ≡ some c
    → on_io ev a l
      ≡ (if ev.hung_up && not (is_connecting c.state) then hang_up a c l else on_conn ev a c l)
unfolding on_io
on_io-some ev a c l i e = ground arith

pub on_io-Inv :
    (ev : Events) (a : Answers) (l : PgLeaderLock) → Inv (view l) → Inv (view (on_io ev a l))
on_io-Inv ev a l h = elim (Option-cases l.conn) [
  | inl none_there ↦ rw (on_io-none ev a l none_there) h
  | inr (c, there) ↦ elim (Bool-cases l.inert) [
    | inl inert ↦ rw (on_io-inert ev a l inert) h
    | inr active ↦
        rw (on_io-some ev a c l active there)
          (elim (Bool-cases (ev.hung_up && not (is_connecting c.state))) [
            | inl hangs ↦ rw hangs (
                drop-Inv _ (record l { conn = some (collect_results a.reading c).0 })
                  (record { orderly = h.orderly; active = active }))
            | inr event ↦ rw event (on_conn-Inv ev a c l h active there)
          ])
  ]
]

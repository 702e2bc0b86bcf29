-- ===== src/PgLeader/Role/Operations.antt =====
-- The operations keep the role in order.
use libapostol.Prelude.{
  ◌≡◌, refl, ap, ◌∙◌, Bool, true, false, not, ◌&&◌, ◌||◌, Option, none, some, List, [], ◌∷◌, ◌++◌,
  Bytes, arith, if◌then◌else◌, Bool-cases, Option-cases, inl, inr, is_empty, bytes_eq,
}
use libapostol.Pg.{
  PgResult, busy, PgConnection, Sent, send_query, not_connected, lost_connection, not_sent,
  not_flushed, sent,
}
use libapostol.PgLeader.{
  PgLeaderLock, Answers, Effect, on_acquired, finish, on_lost, query, Ask, nothing, try_lock, probe,
  one_line, drop_session, emit, has_fd, after_send, send, acquired, cell, refused, last_result,
  answer_pid, decide, judge, handle, note_holder,
}
use libapostol.PgLeader.Role.{
  Phase, standby, leader, next, phase_of, phase_for, settled, is_asking, View, view, Inv, Active,
  phase_from-append, with_effect, ended, lose-view, close-view,
}

-- One effect more.
pub phase-with :
    (es : List Effect) (e : Effect) (p : Phase)
    → phase_of es ≡ p
    → phase_of (es ++ (e ∷ [])) ≡ next p e
phase-with es e p h = phase_from-append standby es e ∙ ap (λ (q : Phase). next q e) h

lost-Inv :
    (reason : Bytes) (v : View)
    → Active v
    → v.held ≡ true
    → Inv (with_effect (on_lost reason) (record v { held = false; inert = true }))
lost-Inv reason v h e = record {
  orderly = phase-with v.effects (on_lost reason) leader (ground (arith, h.orderly, h.active));
  apart = refl;
  session = λ t. cc t;
  asks = λ a t. cc t;
}

closed-Inv :
    (c : Option PgConnection) (v : View)
    → Active v
    → v.held ≡ false
    → v.conn ≡ c
    → Inv (record (ended c v) { asked = nothing })
closed-Inv none v h e same = record {
  orderly = h.orderly;
  apart = ground arith;
  session = λ t. cc (t, e);
  asks = λ t. absurd (ground (arith, ap is_asking same));
}
closed-Inv (some c) v h e same = record {
  orderly =
      phase-with v.effects finish standby (ground (arith, h.orderly, h.active))
      ∙ ground (arith, h.active);
  apart = ground arith;
  session = λ t. cc (t, e);
  asks = λ t. cc t;
}

pub drop-Inv : (why : Bytes) (l : PgLeaderLock) → Active (view l) → Inv (view (drop_session why l))
unfolding drop_session
drop-Inv why l h = elim (Bool-cases l.held) [
  | inl held ↦ simp held (rw (lose-view (one_line why) l) (lost-Inv (one_line why) (view l) h held))
  | inr free ↦ simp free (rw (close-view l) (closed-Inv l.conn (view l) h free refl))
]

query-Active :
    (v : View) (first : Bool) (what : Ask) (c : Option PgConnection)
    → Active v
    → Active (with_effect (query first what) (record v { conn = c }))
query-Active v first what c h = record { orderly = of_held v.held refl; active = h.active }
  where
    of_held :
        (b : Bool)
        → v.held ≡ b
        → phase_of (v.effects ++ (query first what ∷ [])) ≡ phase_for v.held v.inert
    of_held true e =
        phase-with v.effects (query first what) leader (ground (arith, h.orderly, h.active))
        ∙ ground (arith, h.active)
    of_held false e =
        phase-with v.effects (query first what) standby (ground (arith, h.orderly, h.active))
        ∙ ground (arith, h.active)

send_query-busy :
    (s : Sent) (c : PgConnection) → (send_query s c).1 ≡ true → (send_query s c).0.state ≡ busy
unfolding send_query
send_query-busy not_connected c e = cc e
send_query-busy lost_connection c e = cc e
send_query-busy not_sent c e = cc e
send_query-busy not_flushed c e = cc e
send_query-busy (sent more) c e = refl

-- A query is under way, the one that fits the role.
sent-Inv :
    (what : Ask) (c : PgConnection) (v : View)
    → Active v
    → c.state ≡ busy
    → what ≡ (if v.held then probe else try_lock)
    → Inv (record v { conn = some c; asked = what })
sent-Inv what c v h b e = record {
  orderly = h.orderly;
  apart = ground (arith, h.active);
  session = λ t. rw b refl;
  asks = λ t u. e;
}

after_send-Inv :
    (what : Ask) (a : Answers) (c : PgConnection) (l : PgLeaderLock)
    → Active (view l)
    → c.state ≡ busy
    → what ≡ (if l.held then probe else try_lock)
    → Inv (view (after_send what a c l))
after_send-Inv what a c l h b e = elim (Bool-cases (c.needs_flush && has_fd c && not a.modified)) [
  | inl unwatched ↦ simp unwatched (
      drop-Inv _ (record l { conn = some c; asked = what; since = a.now })
        (record { orderly = h.orderly; active = h.active }))
  | inr watched ↦ simp watched (sent-Inv what c (view l) h b e)
]

pub send-Inv :
    (what : Ask) (a : Answers) (c : PgConnection) (l : PgLeaderLock)
    → Active (view l)
    → what ≡ (if l.held then probe else try_lock)
    → Inv (view (send what a c l))
unfolding send
send-Inv what a c l h e =
    let out = send_query a.sending c in
    let begun : PgLeaderLock =
      emit (query (not l.set_up) what) (record l { conn = some out.0; set_up = true }) in
    let active = query-Active (view l) (not l.set_up) what (some out.0) h in
    elim (Bool-cases out.1) [
      | inl done ↦
          simp done (after_send-Inv what a out.0 begun active (send_query-busy a.sending c done) e)
      | inr not_done ↦ simp not_done (drop-Inv _ begun active)
    ]

-- A lock whose session is past its handshake and has no query under way.
pub record Idle (v : View) : Type 0 where
  pub active : Active v
  pub settled_conn : settled v.conn ≡ true
  pub no_query : is_asking v.conn ≡ false

pub Idle-Inv : (v : View) → Idle v → Inv v
Idle-Inv v h = record {
  orderly = h.active.orderly;
  apart = ground (arith, h.active.active);
  session = λ t. h.settled_conn;
  asks = λ t u. cc (t, h.no_query);
}

acquired-Inv :
    (v : View) → Idle v → v.held ≡ false → Inv (with_effect on_acquired (record v { held = true }))
acquired-Inv v h e = record {
  orderly =
      phase-with v.effects on_acquired standby (ground (arith, h.active.orderly, h.active.active))
      ∙ ground (arith, h.active.active);
  apart = ground (arith, h.active.active);
  session = λ t. h.settled_conn;
  asks = λ t u. cc (t, h.no_query);
}

pub note_holder-view : (holder : Bytes) (l : PgLeaderLock) → view (note_holder holder l) ≡ view l
note_holder-view holder l =
    elim (Bool-cases (not l.waiting_logged || not (bytes_eq holder l.last_holder))) [
      | inl news ↦ simp news refl
      | inr known ↦ simp known refl
    ]

decide-Inv :
    (what : Ask) (agreed : Bool) (r : PgResult) (a : Answers) (l : PgLeaderLock)
    → Idle (view l)
    → what ≡ (if l.held then probe else try_lock)
    → Inv (view (decide what agreed r a l))
unfolding decide acquired
decide-Inv nothing agreed r a l h e = absurd (ground arith)
decide-Inv try_lock true r a l h e = acquired-Inv (view l) h (ground arith)
decide-Inv try_lock false r a l h e = rw (note_holder-view _ l) (Idle-Inv (view l) h)
decide-Inv probe true r a l h e = Idle-Inv (view l) h
decide-Inv probe false r a l h e = rw (lose-view _ l) (lost-Inv _ (view l) h.active (ground arith))

judge-Inv :
    (what : Ask) (answer : Bytes) (r : PgResult) (a : Answers) (l : PgLeaderLock)
    → Idle (view l)
    → what ≡ (if l.held then probe else try_lock)
    → Inv (view (judge what answer r a l))
unfolding judge
judge-Inv what answer r a l h e = elim (Option-cases (answer_pid r)) [
  | inl no_pid ↦ rw (no_pid, judge) (decide-Inv what _ r a l h e)
  | inr (pid, given) ↦
      rw (given, judge)
        (elim (Bool-cases (is_empty l.session_pid)) [
          | inl first ↦ simp first (decide-Inv what _ r a (record l { session_pid = pid }) h e)
          | inr later ↦ simp later (elim (Bool-cases (bytes_eq pid l.session_pid)) [
            | inl same ↦ simp same (decide-Inv what _ r a l h e)
            | inr other ↦ simp other (drop-Inv _ l h.active)
          ])
        ])
]

pub handle-Inv :
    (r : PgResult) (rs : List PgResult) (a : Answers) (l : PgLeaderLock)
    → Idle (view l)
    → l.asked ≡ (if l.held then probe else try_lock)
    → Inv (view (handle r rs a l))
unfolding handle
handle-Inv r rs a l h e =
    let heard : PgLeaderLock = record l { asked = nothing } in
    let active : Active (view heard) = record {
      orderly = h.active.orderly;
      active = h.active.active;
    } in
    let idle : Idle (view heard) = record {
      active = active;
      settled_conn = h.settled_conn;
      no_query = h.no_query;
    } in
    elim (Option-cases (refused (r ∷ rs))) [
      | inr (why, refusal) ↦ rw (refusal, handle) (drop-Inv _ heard active)
      | inl no_refusal ↦
          rw (no_refusal, handle)
            (elim (Option-cases (cell (last_result r rs) 0)) [
              | inl no_cell ↦ rw no_cell (drop-Inv _ heard active)
              | inr (answer, there) ↦
                  rw there (judge-Inv l.asked answer (last_result r rs) a heard idle e)
            ])
    ]

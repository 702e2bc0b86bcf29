-- ===== src/PgLeader/Role/Quiet.antt =====
-- Once an answer has come in, no query is under way.
use libapostol.Prelude.{
  ◌≡◌, ◌⊎◌, refl, ap, ◌∙◌, Bool, true, false, Option, none, some, List, ◌∷◌, Bytes, Bool-cases,
  Option-cases, inl, inr, is_empty, bytes_eq,
}
use libapostol.Pg.{PgResult, busy, PgConnection, collect_results}
use libapostol.PgLeader.{
  PgLeaderLock, Answers, Ask, nothing, try_lock, probe, one_line, lose, drop_session, acquired,
  cell, refused, last_result, answer_pid, decide, judge, handle,
}
use libapostol.PgLeader.Events.{read_answer}
use libapostol.PgLeader.Role.{is_asking, View, view, lose-view, close-view, ended}
use libapostol.PgLeader.Role.Operations.{note_holder-view}
use libapostol.PgLeader.Role.Sockets.{List-cases, read-cases}

abbrev pub Quiet : PgLeaderLock → Type 0
Quiet l = is_asking l.conn ≡ false

lose-Quiet : (reason : Bytes) (l : PgLeaderLock) → Quiet l → Quiet (lose reason l)
lose-Quiet reason l h = ap (λ (w : View). is_asking w.conn) (lose-view reason l) ∙ h

ended-Quiet : (c : Option PgConnection) (v : View) → v.conn ≡ c → is_asking (ended c v).conn ≡ false
ended-Quiet none v e = ap is_asking e
ended-Quiet (some c) v e = refl

pub drop-Quiet : (why : Bytes) (l : PgLeaderLock) → Quiet l → Quiet (drop_session why l)
unfolding drop_session
drop-Quiet why l h = elim (Bool-cases l.held) [
  | inl held ↦ simp held (lose-Quiet (one_line why) l h)
  | inr free ↦
      simp free
        (ap (λ (w : View). is_asking w.conn) (close-view l) ∙ ended-Quiet l.conn (view l) refl)
]

decide-Quiet :
    (what : Ask) (agreed : Bool) (r : PgResult) (a : Answers) (l : PgLeaderLock)
    → Quiet l
    → Quiet (decide what agreed r a l)
unfolding decide acquired
decide-Quiet nothing true r a l h = h
decide-Quiet nothing false r a l h = ap (λ (w : View). is_asking w.conn) (note_holder-view _ l) ∙ h
decide-Quiet try_lock true r a l h = h
decide-Quiet try_lock false r a l h = ap (λ (w : View). is_asking w.conn) (note_holder-view _ l) ∙ h
decide-Quiet probe true r a l h = h
decide-Quiet probe false r a l h = lose-Quiet _ l h

judge-Quiet :
    (what : Ask) (answer : Bytes) (r : PgResult) (a : Answers) (l : PgLeaderLock)
    → Quiet l
    → Quiet (judge what answer r a l)
unfolding judge
judge-Quiet what answer r a l h = elim (Option-cases (answer_pid r)) [
  | inl no_pid ↦ rw (no_pid, judge) (decide-Quiet what _ r a l h)
  | inr (pid, given) ↦
      rw (given, judge)
        (elim (Bool-cases (is_empty l.session_pid)) [
          | inl first ↦ simp first (decide-Quiet what _ r a (record l { session_pid = pid }) h)
          | inr later ↦ simp later (elim (Bool-cases (bytes_eq pid l.session_pid)) [
            | inl same ↦ simp same (decide-Quiet what _ r a l h)
            | inr other ↦ simp other (drop-Quiet _ l h)
          ])
        ])
]

handle-Quiet :
    (r : PgResult) (rs : List PgResult) (a : Answers) (l : PgLeaderLock)
    → Quiet l
    → Quiet (handle r rs a l)
unfolding handle
handle-Quiet r rs a l h =
    let heard : PgLeaderLock = record l { asked = nothing } in
    elim (Option-cases (refused (r ∷ rs))) [
      | inr (why, refusal) ↦ rw (refusal, handle) (drop-Quiet _ heard h)
      | inl no_refusal ↦
          rw (no_refusal, handle)
            (elim (Option-cases (cell (last_result r rs) 0)) [
              | inl no_cell ↦ rw no_cell (drop-Quiet _ heard h)
              | inr (answer, there) ↦
                  rw there (judge-Quiet l.asked answer (last_result r rs) a heard h)
            ])
    ]

-- After a read, either no query is under way any more, or the lock is what it was but for the
-- connection.
pub read_answer-Quiet :
    (a : Answers) (c : PgConnection) (l : PgLeaderLock)
    → c.state ≡ busy
    → Quiet (read_answer a c l) ⊎ ((read_answer a c l).inert ≡ l.inert)
unfolding read_answer
read_answer-Quiet a c l b =
    let read = (collect_results a.reading c).0 in
    let next : PgLeaderLock = record l { conn = some read } in
    elim (read-cases a.reading c b) [
      | inl (fails, empty) ↦ inl (
          rw (empty, fails, read_answer)
            (drop-Quiet a.error_message next (rw (fails, is_asking) refl)))
      | inr (inl done) ↦ elim (List-cases (collect_results a.reading c).1) [
        | inl empty ↦ inr (rw (empty, done, read_answer) refl)
        | inr (r, rs, given) ↦
            inl (rw (given, read_answer) (handle-Quiet r rs a next (rw (done, is_asking) refl)))
      ]
      | inr (inr (waits, empty)) ↦ inr (rw (empty, waits, read_answer) refl)
    ]

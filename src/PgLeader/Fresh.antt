-- ===== src/PgLeader/Fresh.antt =====
-- What the question whether a leader is fresh answers.
use libapostol.Prelude.{
  ◌-◌, ◌≤◌, ◌≡◌, Bool, true, false, ◌&&◌, Option, none, some, arith, Bool-cases, Option-cases, inl,
  inr, leb→le, ap, sym, ◌∙◌,
}
use libapostol.Pg.{PgConnection}
use libapostol.PgLeader.{PgLeaderLock, Answers, answer_timeout, has_fd}
use libapostol.PgLeader.Events.{find_closed, recent, fresh}

pub fresh-free : (a : Answers) (l : PgLeaderLock) → l.held ≡ false → fresh a l ≡ (l, false)
unfolding fresh
fresh-free a l h = ground arith

pub fresh-none :
    (a : Answers) (l : PgLeaderLock) → l.held ≡ true → l.conn ≡ none → fresh a l ≡ (l, recent a l)
unfolding fresh
fresh-none a l h e = ground arith

pub fresh-stands :
    (a : Answers) (c : PgConnection) (l : PgLeaderLock)
    → l.held ≡ true
    → l.conn ≡ some c
    → (has_fd c && a.closed_by_server) ≡ false
    → fresh a l ≡ (l, recent a l)
unfolding fresh
fresh-stands a c l h e s = ground arith

pub fresh-closed :
    (a : Answers) (c : PgConnection) (l : PgLeaderLock)
    → l.held ≡ true
    → l.conn ≡ some c
    → (has_fd c && a.closed_by_server) ≡ true
    → fresh a l ≡ (find_closed a c l, false)
unfolding fresh
fresh-closed a c l h e s = ground arith

-- Whether a lock has a session whose socket the server has closed.
abbrev pub is_closed : Answers → Option PgConnection → Bool
is_closed a none = false
is_closed a (some c) = has_fd c && a.closed_by_server

recent_sound :
    (a : Answers) (l : PgLeaderLock)
    → fresh a l ≡ (l, recent a l)
    → (fresh a l).1 ≡ true
    → (a.now - l.confirmed ≤ answer_timeout l) × ((fresh a l).0 ≡ l)
recent_sound a l e t = (
  leb→le _ _ (sym (ap (λ (p : PgLeaderLock × Bool). p.1) e) ∙ t),
  ap (λ (p : PgLeaderLock × Bool). p.0) e,
)

-- When `fresh` answers yes, the lock holds the role, its socket is not closed by the server, the role
-- was confirmed no longer ago than the time a server has to answer, and the question changed nothing.
pub fresh_sound :
    (a : Answers) (l : PgLeaderLock)
    → (fresh a l).1 ≡ true
    → (l.held ≡ true)
      × (is_closed a l.conn ≡ false)
      × ((a.now - l.confirmed ≤ answer_timeout l) × ((fresh a l).0 ≡ l))
fresh_sound a l e = elim (Bool-cases l.held) [
  | inr free ↦ absurd (ground (arith, fresh-free a l free))
  | inl held ↦ elim (Option-cases l.conn) [
    | inl no_conn ↦
        (held, ap (is_closed a) no_conn, recent_sound a l (fresh-none a l held no_conn) e)
    | inr (c, there) ↦ elim (Bool-cases (has_fd c && a.closed_by_server)) [
      | inl closed ↦ absurd (ground (arith, fresh-closed a c l held there closed))
      | inr stands ↦ (
        held,
        ap (is_closed a) there ∙ stands,
        recent_sound a l (fresh-stands a c l held there stands) e,
      )
    ]
  ]
]

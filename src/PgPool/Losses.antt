-- ===== src/PgPool/Losses.antt =====
-- What becomes of the query of a lost connection, and the marks of cancel() and detach().
use libapostol.Prelude.{
  ℕ, ◌==◌, Bool, true, false, ◌||◌, none, some, List, [], ◌∷◌, ◌++◌, any, map, if◌then◌else◌,
}
use libapostol.PgPool.{
  PgRetry, never, if_lost, PgQuery, Member, discarded, PgPool, set_member, take_query, ends,
  enqueue,
}

-- The connection, without its query.
abbrev pub freed : Member → PgPool → PgPool
freed c p = set_member (record c { current = none }) p

abbrev pub is_repeatable : PgRetry → Bool
is_repeatable never = false
is_repeatable if_lost = true

unfoldable pub fail_query : Member → PgQuery → PgPool → PgPool
fail_query c q p =
    if q.canceled
    then ends q.id discarded p
    else if c.link.needs_flush || is_repeatable q.retry
    then enqueue q p
    else record p { lost = p.lost ++ (q ∷ []) }

unfoldable pub fail_inflight_query : Member → PgPool → PgPool
fail_inflight_query c p = elim c.current [
  | none ↦ freed c p
  | some id ↦
      let (found, rest) = take_query id p.inflight in
      elim found [
        | none ↦ freed c p
        | some q ↦ fail_query c q (record (freed c p) { inflight = rest })
      ]
]

unfoldable pub mark_canceled : ℕ → List PgQuery → List PgQuery
mark_canceled id [] = []
mark_canceled id (q ∷ qs) =
    let rest = mark_canceled id qs in
    (if q.id == id then record q { canceled = true } else q) ∷ rest

abbrev pub has_query : ℕ → List PgQuery → Bool
has_query id qs = any (λ (q : PgQuery). q.id == id) qs

abbrev pub runs : ℕ → Member → Bool
runs id c = elim c.current [ none ↦ false | some x ↦ x == id ]

abbrev pub asks_cancel : ℕ → Member → Member
asks_cancel id c = if runs id c then record c { cancel_pending = some id } else c

-- `started` tells whether a cancel request for a query that runs is on its way; one that is already is
-- not sent again.
unfoldable pub cancel : Bool → ℕ → PgPool → PgPool
cancel started id p =
    if id == 0
    then p
    else if any (runs id) p.conns
    then record p {
      inflight = mark_canceled id p.inflight;
      conns = (if started then map (asks_cancel id) p.conns else p.conns);
    }
    else if has_query id p.lost
    then record p { lost = mark_canceled id p.lost }
    else record p { canceled_ids = id ∷ p.canceled_ids }

unfoldable pub detach_all : List PgQuery → List PgQuery
detach_all [] = []
detach_all (q ∷ qs) = record q { detached = true } ∷ detach_all qs

unfoldable pub detach : PgPool → PgPool
detach p = record p {
  queue = detach_all p.queue;
  inflight = detach_all p.inflight;
  lost = detach_all p.lost;
  detached = true;
}

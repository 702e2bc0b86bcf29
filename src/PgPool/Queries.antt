-- ===== src/PgPool/Queries.antt =====
-- Queries: sending them, the queue, and what is left of one when its connection is lost.
use libapostol.Prelude.{
  ◌+◌, length, ℕ, suc, ltb, ◌==◌, Bool, true, false, not, ◌&&◌, ◌||◌, none, some, List, [], ◌∷◌,
  ◌++◌, Bytes, all, map, if◌then◌else◌,
}
use libapostol.Pg.{ready, failed, Sent, send_query}
use libapostol.PgPool.{
  PgRetry, PgQuery, Member, Fate, discarded, thrown, PgPool, member, set_member, ends, note_whole,
  enqueue,
}
use libapostol.PgPool.Opening.{Reset, Opens, ensure_min_connections, grow_for_queue, keys_of}
use libapostol.PgPool.Restoring.{reset_threw, try_reconnect}

-- EPOLL_CTL_MOD for a query that is not out whole: done, the socket is gone, or it throws.
pub data Watching : Type 0 where
  watched unwatched refused : Watching

-- What a connection answers to an attempt to send on it.
pub record Try : Type 0 where
  pub connected : Bool
  pub sending : Sent
  pub watching : Watching
  pub reset : Reset

abbrev pub is_blank_char : ℕ → Bool
is_blank_char c = c == b' ' || c == b'\t' || c == b'\r' || c == b'\n' || c == b';'

-- PgPool::send_query, on the connection: an empty statement goes without the reset ahead of it.
unfoldable pub send_on : Sent → ℕ → PgQuery → Member → Member × Bool
send_on sending reset_count q c =
    let (link, sent) = send_query sending c.link in
    let with_reset = ltb 0 reset_count && not (all is_blank_char q.sql) in
    (
      record c { link = link; reset_results = (if sent && with_reset then reset_count else 0) },
      sent,
    )

abbrev pub is_watched : Watching → Bool
is_watched watched = true
is_watched _ = false

abbrev pub is_refused : Watching → Bool
is_refused refused = true
is_refused _ = false

abbrev pub goes_out : Try → Member × Bool → Bool
goes_out t out = out.1 && (not out.0.link.needs_flush || is_watched t.watching)

-- The query is in flight on the connection.
abbrev pub in_flight : PgQuery → Member → PgPool → PgPool
in_flight q c p = record (set_member (record c { current = some q.id }) p) {
  inflight = p.inflight ++ (q ∷ []);
}

unfoldable pub contains : ℕ → List ℕ → Bool
contains id [] = false
contains id (x ∷ xs) = x == id || contains id xs

unfoldable pub without_id : ℕ → List ℕ → List ℕ
without_id id [] = []
without_id id (x ∷ xs) = let rest = without_id id xs in if x == id then rest else x ∷ rest

-- Canceled queries at the front of a queue, and the rest of it.
unfoldable pub split_canceled : List ℕ → List PgQuery → List PgQuery × List PgQuery
split_canceled ids [] = ([], [])
split_canceled ids (q ∷ qs) =
    let rest = split_canceled (without_id q.id ids) qs in
    if contains q.id ids then (q ∷ rest.0, rest.1) else ([], q ∷ qs)

unfoldable pub without_ids : List PgQuery → List ℕ → List ℕ
without_ids [] ids = ids
without_ids (q ∷ qs) ids = without_ids qs (without_id q.id ids)

abbrev pub discards : List PgQuery → List (ℕ × Fate)
discards qs = map (λ (q : PgQuery). (q.id, discarded)) qs

unfoldable pub skip_canceled : PgPool → PgPool
skip_canceled p =
    let (dropped, rest) = split_canceled p.canceled_ids p.queue in
    record p {
      queue = rest;
      canceled_ids = without_ids dropped p.canceled_ids;
      fates = p.fates ++ discards dropped;
    }

-- A query that could not be sent waits in the queue, while the connection is reset.
abbrev pub put_back : Try → PgQuery → Member → PgPool → PgPool
put_back t q c p =
    let broken : Member = record c { current = none; link = record (c.link) { state = failed } } in
    (try_reconnect t.reset broken (enqueue q p)).0

-- The front of the queue goes out on a connection that takes it.
unfoldable pub send_front : Try → Member → PgQuery → List PgQuery → PgPool → PgPool
send_front t c q qs p =
    let popped : PgPool = record p { queue = qs } in
    let out = send_on t.sending p.reset_count q c in
    if goes_out t out
    then note_whole (not out.0.link.needs_flush) q (in_flight q out.0 popped)
    else put_back t q out.0 popped

abbrev pub takes_queries : Member → Bool
takes_queries c = elim c.link.state [
  | ready ↦ elim c.cancel_pending [ none ↦ true | some id ↦ false ]
  | _ ↦ false
]

unfoldable pub dispatch_front : Try → Member → PgPool → PgPool
dispatch_front t c p = elim p.queue [
  | [] ↦ p
  | q ∷ qs ↦
      if not (takes_queries c)
      then p
      else if not t.connected
      then (try_reconnect t.reset (record c { link = record (c.link) { state = failed } }) p).0
      else send_front t c q qs p
]

-- On the connection of a key, if the pool still has it.
unfoldable pub dispatch_queue : Try → ℕ → PgPool → PgPool
dispatch_queue t key p =
    let skipped = skip_canceled p in
    elim (member key skipped.conns) [ none ↦ skipped | some c ↦ dispatch_front t c skipped ]

-- A query of execute(), on its way to a connection or to the queue.
pub data Attempt : Type 0 where
  gone failed_there try_next : Attempt

-- One connection of the loop of execute().
unfoldable pub attempt : Try → PgQuery → Member → PgPool → PgPool × Attempt
attempt t q c p =
    let out = send_on t.sending p.reset_count q c in
    let broken : Member = record (out.0) {
      current = none;
      link = record (out.0.link) { state = failed };
    } in
    let again = try_reconnect t.reset broken p in
    let lost_there =
      try_reconnect t.reset (record c { link = record (c.link) { state = failed } }) p in
    if not (takes_queries c)
    then (p, try_next)
    else if not t.connected
    then elim lost_there.1 [
      | reset_threw ↦ (lost_there.0, failed_there)
      | _ ↦ (lost_there.0, try_next)
    ]
    else if goes_out t out
    then (note_whole (not out.0.link.needs_flush) q (in_flight q out.0 p), gone)
    else elim again.1 [
      | reset_threw ↦ (again.0, failed_there)
      | _ ↦ (again.0, (if out.1 && is_refused t.watching then failed_there else try_next))
    ]

-- The loop, over the keys of the connections, which it does not change.
unfoldable pub attempts : (ℕ → Try) → PgQuery → List ℕ → PgPool → PgPool × Attempt
attempts tries q [] p = (p, try_next)
attempts tries q (key ∷ keys) p = elim (member key p.conns) [
  | none ↦ attempts tries q keys p
  | some c ↦
      let done = attempt (tries key) q c p in
      let rest = attempts tries q keys done.0 in elim done.1 [ try_next ↦ rest | _ ↦ done ]
]

-- What a caller gives.
pub record Request : Type 0 where
  pub sql : Bytes
  pub retry : PgRetry
  pub has_exception_handler : Bool

abbrev pub query_of : ℕ → Request → PgQuery
query_of id r = record {
  id = id;
  sql = r.sql;
  retry = r.retry;
  has_exception_handler = r.has_exception_handler;
  canceled = false;
  detached = false;
}

-- No connection took it: connections are opened before it is queued, which may throw; those above
-- min_conns are opened where that succeeds.
abbrev pub queue_up : Opens → Opens → PgQuery → PgPool → PgPool
queue_up a growth q p =
    let opened = ensure_min_connections a p in
    let grown = grow_for_queue growth (length opened.0.queue + 1) opened.0 in
    if opened.1 then enqueue q grown.0 else ends q.id thrown opened.0

unfoldable pub execute : (ℕ → Try) → Opens → Opens → Request → PgPool → PgPool
execute tries a growth r p =
    let q = query_of p.next_id r in
    let used : PgPool = record p { used = true; next_id = suc p.next_id } in
    let (tried, outcome) = attempts tries q (keys_of p) used in
    elim outcome [
      | gone ↦ tried
      | failed_there ↦ ends q.id thrown tried
      | try_next ↦ queue_up a growth q tried
    ]

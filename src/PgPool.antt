-- ===== src/PgPool.antt =====
-- src/pg/pg.cpp, include/apostol/pg.hpp: the queries of the class PgPool and its connections, for a
-- pool as it is by default: no lifetime of connections (so none is retired) and no stall timeout. Every
-- query has a handler of results. The answers of libpq, of the loop and the clock come with each call.
-- A pointer to a query is its number, a connection has a key. Queries of other pools take no numbers;
-- the listener, the watch over handshakes, the texts of errors and the log are left out.
pub mod Opening
pub mod Restoring
pub mod Queries
pub mod Losses
pub mod Calls
pub mod Sockets
pub mod Events
pub mod Counts
mod Tests
use libapostol.Prelude.{
  ℕ, suc, ◌+◌, ◌-◌, ltb, leb, ◌==◌, Bool, true, false, not, ◌&&◌, ◌||◌, Option, none, some, List,
  [], ◌∷◌, ◌++◌, Bytes, length, any, all, drop, is_empty, if◌then◌else◌,
}
use libapostol.Pg.{
  PgResult, PgConnState, connecting, ready, busy, failed, PgConnection, new_connection, Started,
  connect_start,
}

pub data PgRetry : Type 0 where
  never if_lost : PgRetry

-- `id` is the number that the constructor takes, from 1 on.
pub record PgQuery : Type 0 where
  pub id : ℕ
  pub sql : Bytes
  pub retry : PgRetry
  pub has_exception_handler : Bool
  pub canceled : Bool
  pub detached : Bool

-- A connection of the pool: what the pool keeps in it beside its part in Pg. `current` is the number of
-- its query, `cancel_pending` that of the query that a cancel request is on its way for.
pub record Member : Type 0 where
  pub key : ℕ
  pub link : PgConnection
  pub current : Option ℕ
  pub cancel_pending : Option ℕ
  pub reset_results : ℕ
  pub resetting : Bool
  pub round : ℕ

-- What becomes of a query in the end: its handler of results is called, or that of errors, or none: it
-- was canceled, nobody waits for it any more, or execute() threw.
pub data Fate : Type 0 where
  delivered : List PgResult → Fate
  errored discarded unheard thrown : Fate

-- `reset_count` is the number of the statements that set_reset() puts ahead of a query. Beside the
-- code's fields, `fates` has what became of queries, and `gone_out` the numbers of those with
-- PgRetry::never, each time one was handed to the server whole.
pub record PgPool : Type 0 where
  pub min_conns : ℕ
  pub max_conns : ℕ
  pub lazy : Bool
  pub used : Bool
  pub conns : List Member
  pub queue : List PgQuery
  pub inflight : List PgQuery
  pub lost : List PgQuery
  pub canceled_ids : List ℕ
  pub detached : Bool
  pub reset_count : ℕ
  pub next_connect_attempt : ℕ
  pub consecutive_connect_fails : ℕ
  pub connect_round : ℕ
  pub growth_paused_until : ℕ
  pub reconnect_timer : Bool
  pub next_id : ℕ
  pub next_key : ℕ
  pub fates : List (ℕ × Fate)
  pub gone_out : List ℕ

abbrev pub new_pool : ℕ → ℕ → Bool → ℕ → PgPool
new_pool min_conns max_conns lazy reset_count = record {
  min_conns = min_conns;
  max_conns = max_conns;
  lazy = lazy;
  used = false;
  conns = [];
  queue = [];
  inflight = [];
  lost = [];
  canceled_ids = [];
  detached = false;
  reset_count = reset_count;
  next_connect_attempt = 0;
  consecutive_connect_fails = 0;
  connect_round = 0;
  growth_paused_until = 0;
  reconnect_timer = false;
  next_id = 1;
  next_key = 0;
  fates = [];
  gone_out = [];
}

unfoldable pub member : ℕ → List Member → Option Member
member key [] = none
member key (c ∷ cs) = let rest = member key cs in if c.key == key then some c else rest

-- The first connection of a key, replaced.
unfoldable pub put_member : ℕ → Member → List Member → List Member
put_member key d [] = []
put_member key d (c ∷ cs) =
    let rest = put_member key d cs in if c.key == key then d ∷ cs else c ∷ rest

unfoldable pub drop_member : ℕ → List Member → List Member
drop_member key [] = []
drop_member key (c ∷ cs) = let rest = drop_member key cs in if c.key == key then cs else c ∷ rest

abbrev pub set_member : Member → PgPool → PgPool
set_member c p = record p { conns = put_member c.key c p.conns }

-- The first query of a number, and the others.
unfoldable pub take_query : ℕ → List PgQuery → Option PgQuery × List PgQuery
take_query id [] = (none, [])
take_query id (q ∷ qs) =
    let rest = take_query id qs in if q.id == id then (some q, qs) else (rest.0, q ∷ rest.1)

abbrev pub ends : ℕ → Fate → PgPool → PgPool
ends id fate p = record p { fates = p.fates ++ ((id, fate) ∷ []) }

-- A number of one query, or of no query.
abbrev pub note_whole : Bool → PgQuery → PgPool → PgPool
note_whole whole q p = elim q.retry [
  | never ↦ if whole then record p { gone_out = q.id ∷ p.gone_out } else p
  | if_lost ↦ p
]

-- Before the first query that is detached, once the pool is.
unfoldable pub before_detached : PgQuery → List PgQuery → List PgQuery
before_detached q [] = q ∷ []
before_detached q (x ∷ xs) =
    let rest = before_detached q xs in if x.detached then q ∷ x ∷ xs else x ∷ rest

unfoldable pub enqueue : PgQuery → PgPool → PgPool
enqueue q p =
    if p.detached && not q.detached
    then record p { queue = before_detached q p.queue }
    else record p { queue = p.queue ++ (q ∷ []) }

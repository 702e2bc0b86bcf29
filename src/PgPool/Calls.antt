-- ===== src/PgPool/Calls.antt =====
-- The calls of the users of a pool, which its handlers make too, and the handlers of a query.
use libapostol.Prelude.{
  ℕ, zero, suc, Bool, true, not, none, some, List, [], ◌∷◌, all, if◌then◌else◌,
}
use libapostol.Pg.{PgResult}
use libapostol.PgPool.{
  PgQuery, Member, Fate, delivered, errored, discarded, unheard, PgPool, take_query, ends,
}
use libapostol.PgPool.Opening.{Opens}
use libapostol.PgPool.Queries.{Try, Request, execute}
use libapostol.PgPool.Losses.{freed, cancel, detach}

-- What users and handlers call; `executes` comes with the answers of the connections and the loop.
pub data Call : Type 0 where
  executes : (ℕ → Try) → Opens → Opens → Request → Call
  cancels : Bool → ℕ → Call
  detaches : Call

abbrev pub perform : Call → PgPool → PgPool
perform (executes tries a growth r) p = execute tries a growth r p
perform (cancels started id) p = cancel started id p
perform detaches p = detach p

unfoldable pub perform_all : List Call → PgPool → PgPool
perform_all [] p = p
perform_all (c ∷ cs) p = perform_all cs (perform c p)

-- What a handler of a query does: its calls, and whether it throws then.
pub record Deed : Type 0 where
  pub calls : List Call
  pub throws : Bool

-- strip_reset_results
unfoldable pub strip_results : ℕ → List PgResult → List PgResult
strip_results zero rs = rs
strip_results (suc n) [] = []
strip_results (suc n) (r ∷ rs) = let rest = strip_results n rs in if r.ok then rest else r ∷ rs

-- The answer of a query that is not canceled; one with a failed statement goes to the handler of
-- errors, if there is one.
abbrev pub answer : List PgResult → PgQuery → Fate
answer rs q =
    if all (λ (r : PgResult). r.ok) rs
    then delivered rs
    else if q.has_exception_handler
    then errored
    else delivered rs

-- A handler runs, unless nobody waits for the query; with `false` where it throws.
abbrev pub run_handler : PgQuery → Fate → Deed → PgPool → PgPool × Bool
run_handler q fate deed p =
    if q.detached
    then (ends q.id unheard p, true)
    else (perform_all deed.calls (ends q.id fate p), not deed.throws)

-- The query of a connection has its results.
unfoldable pub finish_query : List PgResult → Deed → Member → PgPool → PgPool × Bool
finish_query rs deed c p = elim c.current [
  | none ↦ (freed c p, true)
  | some id ↦
      let (found, rest) = take_query id p.inflight in
      let next : PgPool = record (freed c p) { inflight = rest } in
      elim found [
        | none ↦ (freed c p, true)
        | some q ↦
            if q.canceled
            then (ends q.id discarded next, true)
            else run_handler q (answer rs q) deed next
      ]
]

-- ===== src/PgPool/Counts/Executing.antt =====
-- The calls of users: execute(), cancel() and detach() leave every query in one place.
use libapostol.Prelude.{
  length, ℕ, suc, ◌+◌, ◌≤◌, ◌≡◌, ◌≢◌, refl, true, not, ◌&&◌, none, some, List, [], ◌∷◌, arith,
  if◌then◌else◌, by_test, by_option,
}
use libapostol.Pg.{failed}
use libapostol.PgPool.{PgQuery, Member, thrown, PgPool, member, ends}
use libapostol.PgPool.Opening.{keys_of, grow_for_queue, Opens, ensure_min_connections}
use libapostol.PgPool.Restoring.{Reconnected, reconnecting, not_reconnecting, reset_threw}
use libapostol.PgPool.Queries.{
  Try, send_on, goes_out, is_refused, takes_queries, Attempt, gone, failed_there, try_next, attempt,
  attempts, Request, query_of, queue_up, execute,
}
use libapostol.PgPool.Counts.{
  is_repeatable_query, issued, is_one, repeatable-le-queries, unsent-le-held,
}
use libapostol.Prelude.{total}
use libapostol.PgPool.Counts.Invariant.{Inv, enqueue-Inv, ends-Inv}
use libapostol.PgPool.Counts.Opened.{ensure_min_connections-Inv, grow_for_queue-Inv}
use libapostol.PgPool.Counts.Sending.{send_on-key, reconnect-Inv, reconnect_same-Inv}
use libapostol.PgPool.Counts.Dispatch.{sends-Inv, found_there}

-- A query that did not go out is still in the hands of execute().
abbrev Attempted : ℕ → PgQuery → PgPool × Attempt → Type 0
Attempted x q r = Inv x (elim r.1 [ gone ↦ [] | _ ↦ q ∷ [] ]) r.0

module _ (x : ℕ) where
  still-Attempted :
      (q : PgQuery) (p : PgPool) (next : Attempt)
      → next ≢ gone
      → Inv x (q ∷ []) p
      → Attempted x q (p, next)
  still-Attempted q p gone other h = absurd (other refl)
  still-Attempted q p failed_there other h = h
  still-Attempted q p try_next other h = h

  after_reset-Attempted :
      (q : PgQuery) (p : PgPool) (r : Reconnected) (next : Attempt)
      → next ≢ gone
      → Inv x (q ∷ []) p
      → Attempted x q (elim r [ reset_threw ↦ (p, failed_there) | _ ↦ (p, next) ])
  after_reset-Attempted q p reset_threw next other h = h
  after_reset-Attempted q p reconnecting next other h = still-Attempted q p next other h
  after_reset-Attempted q p not_reconnecting next other h = still-Attempted q p next other h

  attempt-Attempted :
      (t : Try) (q : PgQuery) (c : Member) (p : PgPool)
      → member c.key p.conns ≡ some c
      → Inv x (q ∷ []) p
      → Attempted x q (attempt t q c p)
  unfolding attempt
  attempt-Attempted t q c p there h =
      let out = send_on t.sending p.reset_count q c in
      by_test (Attempted x q) (not (takes_queries c)) _ _ (λ _. h)
        (λ takes.
          by_test (Attempted x q) (not t.connected) _ _
            (λ _.
              after_reset-Attempted q _ _ try_next (λ e. cc e)
                (reconnect_same-Inv x (q ∷ []) c p there (ground (arith, takes)) h t.reset
                  (record (c.link) { state = failed })))
            (λ _.
              by_test (Attempted x q) (goes_out t out) _ _
                (sends-Inv x t q c p there (ground (arith, takes)) h)
                (λ _.
                  after_reset-Attempted q _ _
                    (if out.1 && is_refused t.watching then failed_there else try_next)
                    (ground arith)
                    (reconnect-Inv x (q ∷ []) c p there (ground (arith, takes)) h t.reset
                      (record (out.0) {
                        current = none;
                        link = record (out.0.link) { state = failed };
                      })
                      (send_on-key t.sending p.reset_count q c) refl))))

  attempts-Attempted :
      (tries : ℕ → Try) (q : PgQuery) (keys : List ℕ) (p : PgPool)
      → Inv x (q ∷ []) p
      → Attempted x q (attempts tries q keys p)
  unfolding attempts
  attempts-Attempted tries q [] p h = h
  attempts-Attempted tries q (key ∷ keys) p h =
      by_option (Attempted x q) (member key p.conns) _ _ (λ _. attempts-Attempted tries q keys p h)
        (λ c e.
          go (attempt (tries key) q c p)
            (attempt-Attempted (tries key) q c p (found_there x key c p e) h)
            (attempts-Attempted tries q keys (attempt (tries key) q c p).0))
    where
      go :
          (done : PgPool × Attempt)
          → Attempted x q done
          → (Inv x (q ∷ []) done.0 → Attempted x q (attempts tries q keys done.0))
          → Attempted x q (elim done.1 [ try_next ↦ attempts tries q keys done.0 | _ ↦ done ])
      go (p', gone) k rest = k
      go (p', failed_there) k rest = k
      go (p', try_next) k rest = rest k

  -- A new query takes the next number.
  issued-suc : (id : ℕ) → 1 ≤ id → issued x (suc id) ≡ issued x id + is_one id x
  issued-suc id h = ground arith

  unissued : (id : ℕ) → issued x id + is_one id x ≤ 1
  unissued id = ground arith

  issued-Inv :
      (r : Request) (p : PgPool)
      → Inv x [] p
      → Inv x (query_of p.next_id r ∷ []) (record p { used = true; next_id = suc p.next_id })
  unfolding total
  issued-Inv r p h =
      let more = issued-suc p.next_id h.started in
      let least : is_repeatable_query x (query_of p.next_id r) ≤ is_one p.next_id x =
        ground arith in
      record {
        placed = omega (arith, h.placed, more);
        owned = h.owned;
        idle = h.idle;
        once = omega (
          arith,
          h.once,
          h.placed,
          h.fresh,
          h.owned,
          unissued p.next_id,
          unsent-le-held x p.conns,
        );
        again = omega (
          arith,
          h.again,
          h.placed,
          h.fresh,
          least,
          unissued p.next_id,
          repeatable-le-queries x p.queue,
          repeatable-le-queries x p.inflight,
        );
        fresh = omega (arith, h.fresh, more);
        started = omega arith;
      }

  queue_up-Inv :
      (a growth : Opens) (q : PgQuery) (p : PgPool)
      → Inv x (q ∷ []) p
      → Inv x [] (queue_up a growth q p)
  queue_up-Inv a growth q p h =
      let opened = ensure_min_connections-Inv x (q ∷ []) a p h in
      let min_pool = (ensure_min_connections a p).0 in
      let demand = length min_pool.queue + 1 in
      by_test (Inv x []) (ensure_min_connections a p).1 _ _
        (λ _.
          enqueue-Inv x q (grow_for_queue growth demand min_pool).0
            (grow_for_queue-Inv x (q ∷ []) growth demand min_pool opened))
        (λ _. ends-Inv x q thrown (ensure_min_connections a p).0 opened)

  pub execute-Inv :
      (tries : ℕ → Try) (a growth : Opens) (r : Request) (p : PgPool)
      → Inv x [] p
      → Inv x [] (execute tries a growth r p)
  unfolding execute
  execute-Inv tries a growth r p h =
      go
        (attempts tries (query_of p.next_id r) (keys_of p)
          (record p { used = true; next_id = suc p.next_id }))
        (attempts-Attempted tries (query_of p.next_id r) (keys_of p) _ (issued-Inv r p h))
    where
      go :
          (tried : PgPool × Attempt)
          → Attempted x (query_of p.next_id r) tried
          → Inv x [] (elim tried.1 [
            | gone ↦ tried.0
            | failed_there ↦ ends (query_of p.next_id r).id thrown tried.0
            | try_next ↦ queue_up a growth (query_of p.next_id r) tried.0
          ])
      go (p', gone) k = k
      go (p', failed_there) k = ends-Inv x (query_of p.next_id r) thrown p' k
      go (p', try_next) k = queue_up-Inv a growth (query_of p.next_id r) p' k

-- ===== src/PgPool/Counts/Runs.antt =====
-- Whatever happens to a pool: each query is in one place, ends once at most, and one that must not be
-- repeated goes out whole once at most.
use libapostol.Prelude.{
  is_empty, length, by_test, ℕ, ◌+◌, ◌≤◌, ◌<◌, ◌≡◌, refl, Bool, false, List, [], ◌∷◌, arith,
}
use libapostol.PgPool.{PgPool, new_pool}
use libapostol.PgPool.Events.{
  grows, closes_idle, reconnect, grow_for_waiting, Event, starts, opens_missing, reconnects, calls,
  on_socket, delivers_lost, checks, dispatches, ends_cancel, step, run,
}
use libapostol.PgPool.Counts.{queries, ended, times, issued}
use libapostol.Prelude.{total}
use libapostol.PgPool.Counts.Invariant.{Inv}
use libapostol.PgPool.Counts.Opened.{
  start-Inv, ensure_min_connections-Inv, grow_for_queue-Inv, close_idle-Inv,
}
use libapostol.PgPool.Opening.{Opens, ensure_min_connections}
use libapostol.PgPool.Counts.Dispatch.{dispatch_queue-Inv}
use libapostol.PgPool.Counts.Happening.{
  perform-Inv, deliver_lost-Inv, check_member-Inv, end_cancel-Inv,
}
use libapostol.PgPool.Counts.Flushing.{on_io-Inv}

module _ (x : ℕ) where
  grow_for_waiting-Inv : (a : Opens) (p : PgPool) → Inv x [] p → Inv x [] (grow_for_waiting a p)
  unfolding grow_for_waiting
  grow_for_waiting-Inv a p h =
      by_test (Inv x []) (is_empty p.queue) _ _ (λ _. h)
        (λ _. grow_for_queue-Inv x [] a (length p.queue) p h)

  reconnect-Inv : (a growth : Opens) (p : PgPool) → Inv x [] p → Inv x [] (reconnect a growth p)
  unfolding reconnect
  reconnect-Inv a growth p h =
      let opened = ensure_min_connections-Inv x [] a (record p { reconnect_timer = false }) h in
      by_test (Inv x []) (ensure_min_connections a (record p { reconnect_timer = false })).1 _ _
        (λ _.
          grow_for_waiting-Inv growth
            (ensure_min_connections a (record p { reconnect_timer = false })).0 opened)
        (λ _. opened)

  step-Inv : (e : Event) (p : PgPool) → Inv x [] p → Inv x [] (step e p)
  step-Inv (starts a) p h = start-Inv x [] a p h
  step-Inv (opens_missing a) p h = ensure_min_connections-Inv x [] a p h
  step-Inv (reconnects a growth) p h = reconnect-Inv a growth p h
  step-Inv (grows a) p h = grow_for_waiting-Inv a p h
  step-Inv (closes_idle idle_long) p h = close_idle-Inv x [] idle_long p h
  step-Inv (calls c) p h = perform-Inv x c p h
  step-Inv (on_socket io key) p h = on_io-Inv x io key p h
  step-Inv (delivers_lost deeds) p h = deliver_lost-Inv x deeds p h
  step-Inv (checks io key) p h = check_member-Inv x io key p h
  step-Inv (dispatches t key) p h = dispatch_queue-Inv x t key p h
  step-Inv (ends_cancel may_arrive io id key) p h = end_cancel-Inv x may_arrive io id key p h

  run-Inv : (es : List Event) (p : PgPool) → Inv x [] p → Inv x [] (run es p)
  unfolding run
  run-Inv [] p h = h
  run-Inv (e ∷ es) p h = run-Inv es (step e p) (step-Inv e p h)

  new_pool-Inv :
      (min_conns max_conns : ℕ) (lazy : Bool) (reset_count : ℕ)
      → Inv x [] (new_pool min_conns max_conns lazy reset_count)
  unfolding total
  new_pool-Inv min_conns max_conns lazy reset_count = record {
    placed = ground arith;
    owned = refl;
    idle = refl;
    once = omega arith;
    again = omega arith;
    fresh = ground arith;
    started = omega arith;
  }

-- How often a number is in the queue, in flight, lost or ended.
abbrev pub places : ℕ → PgPool → ℕ
places x p = queries x p.queue + queries x p.inflight + queries x p.lost + ended x p.fates

-- Whatever happens to a new pool: a query that execute() was given is in exactly one place, once: in
-- the queue, in flight on a connection, lost and about to be told, or ended.
pub run-placed :
    (min_conns max_conns : ℕ) (lazy : Bool) (reset_count : ℕ) (es : List Event) (x : ℕ)
    → 1 ≤ x
    → x < (run es (new_pool min_conns max_conns lazy reset_count)).next_id
    → places x (run es (new_pool min_conns max_conns lazy reset_count)) ≡ 1
unfolding total
run-placed min_conns max_conns lazy reset_count es x h k =
    let p = run es (new_pool min_conns max_conns lazy reset_count) in
    let inv =
      run-Inv x es (new_pool min_conns max_conns lazy reset_count)
        (new_pool-Inv x min_conns max_conns lazy reset_count) in
    let taken : issued x p.next_id ≡ 1 = ground arith in omega (arith, inv.placed, taken)

-- Whatever happens to a new pool: a query of PgRetry::never is handed to the server whole at most once,
-- and once it was, it does not wait in the queue.
pub run-sent_once :
    (min_conns max_conns : ℕ) (lazy : Bool) (reset_count : ℕ) (es : List Event) (x : ℕ)
    → times x (run es (new_pool min_conns max_conns lazy reset_count)).gone_out
        + queries x (run es (new_pool min_conns max_conns lazy reset_count)).queue
      ≤ 1
unfolding total
run-sent_once min_conns max_conns lazy reset_count es x = omega (
  arith,
  (run-Inv x es (new_pool min_conns max_conns lazy reset_count)
      (new_pool-Inv x min_conns max_conns lazy reset_count)).once,
)

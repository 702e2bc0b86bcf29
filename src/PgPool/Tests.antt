-- ===== src/PgPool/Tests.antt =====
-- A pool that loses a connection with a query on it, and the theorems at it.
use libapostol.Prelude.{◌+◌, ◌≤◌, ◌≡◌, refl, Bool, true, false, some, List, [], ◌∷◌, arith}
use libapostol.Pg.{
  connect_start, collect_results, connect_poll, consume_notify, flush, send_query, PgResult,
  started, polling_ok, sent, results,
}
use libapostol.PgPool.{
  member, before_detached, drop_member, put_member, take_query, enqueue, PgRetry, never, if_lost,
  errored, delivered, PgPool, new_pool,
}
use libapostol.PgPool.Opening.{
  grow_for_queue, open_growth, connecting_in, start, open_each, open_member, ensure_min_connections,
  open_missing, healthy_in, record_connect_failure, remove_connection, Opens, reset,
}
use libapostol.PgPool.Restoring.{replace_connection, reset_member, restore, try_reconnect}
use libapostol.PgPool.Queries.{
  execute, attempts, attempt, contains, dispatch_front, dispatch_queue, send_front, send_on,
  skip_canceled, split_canceled, without_id, without_ids, watched, Try,
}
use libapostol.PgPool.Losses.{
  cancel, detach, detach_all, fail_inflight_query, fail_query, mark_canceled,
}
use libapostol.PgPool.Calls.{finish_query, perform_all, strip_results, executes, Deed}
use libapostol.PgPool.Sockets.{on_io, on_member, on_connecting, on_busy, on_ready, read_results, Io}
use libapostol.PgPool.Events.{
  deliver_lost, check_member, end_cancel, Event, starts, calls, on_socket, delivers_lost, checks,
  run,
}
use libapostol.PgPool.Counts.{times, queries}
use libapostol.PgPool.Counts.Runs.{places, run-placed, run-sent_once}

abbrev answers : Opens
answers = record {
  now = 10;
  timer_added = true;
  starts = λ k. started (k + 5);
  watched = λ _. true;
}

abbrev sends_whole : Try
sends_whole = record { connected = true; sending = sent false; watching = watched; reset = reset 7 }

abbrev told : Deed
told = record { calls = []; throws = false }

abbrev ok_result : PgResult
ok_result = record { ok = true; error_message = []; columns = 0; rows = [] }

abbrev quiet : Bool → Io
quiet alive = record {
  readable = true;
  writable = true;
  polling = polling_ok;
  polled_fd = some 5;
  watched_again = true;
  alive = alive;
  flushed = true;
  rewatching = watched;
  reading = results (ok_result ∷ []) true;
  handler = told;
  next = sends_whole;
  reset = reset 7;
  opens = answers;
}

abbrev request : PgRetry → Event
request retry = calls (
    executes (λ _. sends_whole) answers answers
      (record { sql = b'x' ∷ []; retry = retry; has_exception_handler = true }))

-- Two queries wait for a connection; the first is lost on it and told so, the second sent and answered.
abbrev events : List Event
events =
    starts answers
    ∷ request never
    ∷ request if_lost
    ∷ on_socket (quiet true) 0
    ∷ checks (quiet false) 0
    ∷ on_socket (quiet true) 0
    ∷ on_socket (quiet true) 0
    ∷ delivers_lost (told ∷ [])
    ∷ []

abbrev pool : PgPool
pool = new_pool 1 2 false 0

-- The line opens the pool for the tests below.
outcome : PgPool
unfolding run grow_for_queue open_growth connecting_in connect_start collect_results connect_poll
    consume_notify flush send_query member before_detached drop_member put_member take_query enqueue
    deliver_lost on_io check_member on_member on_connecting end_cancel finish_query on_busy on_ready
    perform_all read_results strip_results execute attempts attempt cancel contains detach
    detach_all dispatch_front dispatch_queue fail_inflight_query fail_query mark_canceled send_front
    send_on skip_canceled split_canceled without_id without_ids start open_each open_member
    ensure_min_connections open_missing healthy_in record_connect_failure remove_connection
    replace_connection reset_member restore try_reconnect
outcome = run events pool

run_example :
    ((run events pool).fates ≡ (2, delivered (ok_result ∷ [])) ∷ (1, errored) ∷ [])
    × ((run events pool).next_id ≡ 3)
    × ((run events pool).gone_out ≡ 1 ∷ [])
unfolding outcome
run_example = (refl, refl, refl)

run-placed_example : places 1 (run events pool) ≡ 1
run-placed_example = run-placed 1 2 false 0 events 1 (omega arith) (omega (arith, run_example.1))

run-sent_once_example : times 1 (run events pool).gone_out + queries 1 (run events pool).queue ≤ 1
run-sent_once_example = run-sent_once 1 2 false 0 events 1

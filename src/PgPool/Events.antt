-- ===== src/PgPool/Events.antt =====
-- The delivery of losses, the heartbeat, the ends of cancel requests, and all events of a pool.
use libapostol.Prelude.{
  length, ℕ, ◌==◌, Bool, false, not, none, some, List, [], ◌∷◌, is_empty, if◌then◌else◌,
}
use libapostol.Pg.{PgResult, connecting, failed}
use libapostol.PgPool.{delivered, errored, discarded, PgPool, member, set_member, ends}
use libapostol.PgPool.Opening.{Opens, ensure_min_connections, grow_for_queue, close_idle, start}
use libapostol.PgPool.Restoring.{replace_connection}
use libapostol.PgPool.Queries.{Try, dispatch_queue}
use libapostol.PgPool.Losses.{fail_inflight_query}
use libapostol.PgPool.Calls.{Call, perform, Deed, run_handler}
use libapostol.PgPool.Sockets.{Io, lose, is_in, on_io}

-- PgResult::lost
abbrev pub lost_result : PgResult
lost_result = record { ok = false; error_message = []; columns = 0; rows = [] }

-- The loop of deliver_lost(), on the deeds of the handlers, one for each loss.
unfoldable pub deliver_lost : List Deed → PgPool → PgPool
deliver_lost [] p = p
deliver_lost (deed ∷ deeds) p = elim p.lost [
  | [] ↦ p
  | q ∷ qs ↦
      let next : PgPool = record p { lost = qs } in
      let told =
        run_handler q (if q.has_exception_handler then errored else delivered (lost_result ∷ []))
          deed next in
      let skipped = deliver_lost deeds (ends q.id discarded next) in
      let rest = deliver_lost deeds told.0 in
      if q.canceled then skipped else if told.1 then rest else told.0
]

-- The heartbeat finds a connection whose session is gone, or one left in failure.
unfoldable pub check_member : Io → ℕ → PgPool → PgPool
check_member io key p = elim (member key p.conns) [
  | none ↦ p
  | some c ↦
      if is_in c.link.state failed
      then (replace_connection io.opens c (fail_inflight_query c p)).0
      else elim c.link.state [ connecting ↦ p | _ ↦ if io.alive then p else lose io c p ]
]

-- A cancel request has ended: the connection takes queries again; or its packet may still arrive, and
-- the session is given up.
unfoldable pub end_cancel : Bool → Io → ℕ → ℕ → PgPool → PgPool
end_cancel may_arrive io id key p = elim (member key p.conns) [
  | none ↦ p
  | some c ↦ elim c.cancel_pending [
    | none ↦ p
    | some x ↦
        if not (x == id)
        then p
        else if may_arrive
        then lose io c p
        else dispatch_queue io.next key (set_member (record c { cancel_pending = none }) p)
  ]
]

-- `reconnects` is the timer of the backoff.
pub data Event : Type 0 where
  starts opens_missing : Opens → Event
  reconnects : Opens → Opens → Event
  calls : Call → Event
  on_socket : Io → ℕ → Event
  delivers_lost : List Deed → Event
  checks : Io → ℕ → Event
  dispatches : Try → ℕ → Event
  grows : Opens → Event
  closes_idle : (ℕ → Bool) → Event
  ends_cancel : Bool → Io → ℕ → ℕ → Event

-- Connections above min_conns for the queries that wait.
unfoldable pub grow_for_waiting : Opens → PgPool → PgPool
grow_for_waiting a p = if is_empty p.queue then p else (grow_for_queue a (length p.queue) p).0

-- The timer of the backoff: connections, and where that did not throw, those for the queue.
unfoldable pub reconnect : Opens → Opens → PgPool → PgPool
reconnect a growth p =
    let opened = ensure_min_connections a (record p { reconnect_timer = false }) in
    if opened.1 then grow_for_waiting growth opened.0 else opened.0

abbrev pub step : Event → PgPool → PgPool
step (starts a) p = (start a p).0
step (opens_missing a) p = (ensure_min_connections a p).0
step (reconnects a growth) p = reconnect a growth p
step (calls c) p = perform c p
step (on_socket io key) p = on_io io key p
step (delivers_lost deeds) p = deliver_lost deeds p
step (checks io key) p = check_member io key p
step (dispatches t key) p = dispatch_queue t key p
step (grows a) p = grow_for_waiting a p
step (closes_idle idle_long) p = close_idle idle_long p
step (ends_cancel may_arrive io id key) p = end_cancel may_arrive io id key p

unfoldable pub run : List Event → PgPool → PgPool
run [] p = p
run (e ∷ es) p = run es (step e p)

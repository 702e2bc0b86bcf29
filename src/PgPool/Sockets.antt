-- ===== src/PgPool/Sockets.antt =====
-- The events of a socket of a pool, by the state of the connection.
use libapostol.Prelude.{
  ℕ, Bool, true, false, not, ◌&&◌, ◌||◌, Option, none, some, [], is_empty, if◌then◌else◌,
}
use libapostol.Pg.{
  PgConnState, connecting, ready, busy, failed, Polling, polling_failed, polling_ok, connect_poll,
  Read, collect_results, flush, consume_notify,
}
use libapostol.PgPool.{Member, PgPool, member, set_member, take_query, note_whole}
use libapostol.PgPool.Opening.{
  Reset, Opens, record_connect_success, record_connect_failure, has_socket,
}
use libapostol.PgPool.Restoring.{replace_connection, restore}
use libapostol.PgPool.Queries.{Watching, watched, unwatched, refused, Try, dispatch_queue}
use libapostol.PgPool.Losses.{fail_inflight_query}
use libapostol.PgPool.Calls.{Deed, strip_results, finish_query}

-- The events of a socket, and what is answered during them.
pub record Io : Type 0 where
  pub readable : Bool
  pub writable : Bool
  pub polling : Polling
  pub polled_fd : Option ℕ
  pub watched_again : Bool
  pub alive : Bool
  pub flushed : Bool
  pub rewatching : Watching
  pub reading : Read
  pub handler : Deed
  pub next : Try
  pub reset : Reset
  pub opens : Opens

abbrev pub lose : Io → Member → PgPool → PgPool
lose io c p =
    let failed_query = fail_inflight_query c p in
    (restore io.reset io.opens (record c { current = none }) failed_query).0

abbrev pub is_ok : Polling → Bool
is_ok polling_ok = true
is_ok _ = false

abbrev pub is_failed : Polling → Bool
is_failed polling_failed = true
is_failed _ = false

abbrev pub give_up : Io → Member → PgPool → PgPool
give_up io c p =
    (replace_connection io.opens c (record_connect_failure io.opens.now c.round (set_member c p))).0

unfoldable pub on_connecting : Io → Member → PgPool → PgPool
on_connecting io c p =
    let polled : Member = record c { link = connect_poll io.polling io.polled_fd c.link } in
    let broken : Member = record polled { link = record (polled.link) { state = failed } } in
    if is_failed io.polling || not (has_socket polled.link)
    then give_up io polled p
    else if not io.watched_again
    then give_up io broken p
    else if is_ok io.polling
    then dispatch_queue io.next c.key (record_connect_success (set_member polled p))
    else set_member polled p

unfoldable pub on_ready : Io → Member → PgPool → PgPool
on_ready io c p =
    let (link, alive) = consume_notify io.alive c.link in
    if alive then set_member (record c { link = link }) p else lose io (record c { link = link }) p

-- After its results the connection takes the next query, unless the handler has thrown.
abbrev pub goes_on : Io → ℕ → PgPool × Bool → PgPool
goes_on io key out = if out.1 then dispatch_queue io.next key out.0 else out.0

abbrev pub is_in : PgConnState → PgConnState → Bool
is_in ready ready = true
is_in failed failed = true
is_in _ _ = false

unfoldable pub read_results : Io → Member → PgPool → PgPool
read_results io c p =
    let (link, results) = collect_results io.reading c.link in
    let read : Member = record c { link = link } in
    let stripped = strip_results c.reset_results results in
    let done : Member = record read { reset_results = 0 } in
    if is_in link.state failed
    then lose io read p
    else if is_empty results
    then if is_in link.state ready
      then goes_on io c.key (finish_query [] io.handler read p)
      else set_member read p
    else if is_empty stripped && not (is_in link.state ready)
    then set_member done p
    else goes_on io c.key (finish_query stripped io.handler done p)

abbrev pub goes_whole : Member → PgPool → PgPool
goes_whole c p = elim c.current [
  | none ↦ p
  | some id ↦ elim (take_query id p.inflight).0 [ none ↦ p | some q ↦ note_whole true q p ]
]

unfoldable pub on_busy : Io → Member → PgPool → PgPool
on_busy io c p =
    let flushes = io.writable && c.link.needs_flush in
    let (link, all_out) = flush io.flushed c.link in
    let sent : Member = record c { link = link } in
    let whole = goes_whole c (set_member sent p) in
    let reads = if io.readable then read_results io sent whole else whole in
    let reads_still = if io.readable then read_results io c p else p in
    if not flushes
    then read_results io c p
    else if not all_out
    then reads_still
    else elim io.rewatching [ watched ↦ reads | unwatched ↦ lose io sent whole | refused ↦ whole ]

unfoldable pub on_member : Io → Member → PgPool → PgPool
on_member io c p = elim c.link.state [
  | connecting ↦ on_connecting io c p
  | ready ↦ on_ready io c p
  | busy ↦ on_busy io c p
  | failed ↦ lose io c p
]

unfoldable pub on_io : Io → ℕ → PgPool → PgPool
on_io io key p = elim (member key p.conns) [ none ↦ p | some c ↦ on_member io c p ]

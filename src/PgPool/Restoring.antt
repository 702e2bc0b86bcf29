-- ===== src/PgPool/Restoring.antt =====
-- A lost connection: its reset, or another one in its place.
use libapostol.Prelude.{ℕ, Bool, true, false, none, some, []}
use libapostol.Pg.{connecting, failed}
use libapostol.PgPool.{Member, PgPool, set_member}
use libapostol.PgPool.Opening.{
  Reset, not_reset, no_socket, reset, refused_reset, Opens, ensure_min_connections,
  remove_connection,
}

unfoldable pub replace_connection : Opens → Member → PgPool → PgPool × Bool
replace_connection a c p = ensure_min_connections a (remove_connection c p)

pub data Reconnected : Type 0 where
  reconnecting not_reconnecting reset_threw : Reconnected

-- PgConnection::reset_start, and what try_reconnect() leaves of the connection.
unfoldable pub reset_member : Reset → ℕ → Member → Member × Reconnected
reset_member not_reset round c = (
  record c {
    link = record (c.link) { state = failed; fd = none; pending_results = [] };
    cancel_pending = none;
  },
  not_reconnecting,
)
reset_member no_socket round c = (
  record c {
    link = record (c.link) { state = failed; fd = none; pending_results = [] };
    cancel_pending = none;
    resetting = true;
    round = round;
  },
  not_reconnecting,
)
reset_member (reset fd) round c = (
  record c {
    link = record (c.link) { state = connecting; fd = some fd; pending_results = [] };
    cancel_pending = none;
    resetting = true;
    round = round;
  },
  reconnecting,
)
reset_member (refused_reset fd) round c = (
  record c {
    link = record (c.link) { state = failed; fd = some fd; pending_results = [] };
    cancel_pending = none;
    resetting = true;
    round = round;
  },
  reset_threw,
)

unfoldable pub try_reconnect : Reset → Member → PgPool → PgPool × Reconnected
try_reconnect r c p = let out = reset_member r p.connect_round c in (set_member out.0 p, out.1)

-- The connection was reset, or its reset threw, or the pool has another one in its place.
abbrev pub or_replaced : Reconnected → PgPool → PgPool × Bool → PgPool × Bool
or_replaced reconnecting p q = (p, true)
or_replaced reset_threw p q = (p, false)
or_replaced not_reconnecting p q = q

-- A lost connection is reset, or replaced; a throw passes.
unfoldable pub restore : Reset → Opens → Member → PgPool → PgPool × Bool
restore r a c p =
    let (reset_pool, outcome) = try_reconnect r c p in
    or_replaced outcome reset_pool (replace_connection a c reset_pool)

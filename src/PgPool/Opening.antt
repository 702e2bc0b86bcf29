-- ===== src/PgPool/Opening.antt =====
-- Opening, resetting and replacing connections.
use libapostol.Prelude.{
  ℕ, zero, suc, ◌+◌, ◌-◌, ◌^◌, min, ltb, ◌==◌, Bool, true, false, not, ◌&&◌, ◌||◌, leb, map,
  is_empty, none, some, List, [], ◌∷◌, ◌++◌, length, if◌then◌else◌,
}
use libapostol.Pg.{connecting, ready, failed, PgConnection, new_connection, Started, connect_start}
use libapostol.PgPool.{Member, PgPool, member, drop_member}

-- PQresetStart fails, leaves no socket, or leaves one, which the loop then watches or refuses.
pub data Reset : Type 0 where
  not_reset no_socket : Reset
  reset refused_reset : ℕ → Reset

-- What the loop and libpq answer while connections are opened: the time, whether a timer is added, and
-- for each new connection PQconnectStart and whether the loop watches its socket.
pub record Opens : Type 0 where
  pub now : ℕ
  pub timer_added : Bool
  pub starts : ℕ → Started
  pub watched : ℕ → Bool

-- Why a connection is opened, and its round: that of a connection above min_conns is never the
-- current one.
pub data OpeningReason : Type 0 where
  for_min for_growth : OpeningReason

abbrev pub growth_round : ℕ
growth_round = 2 ^ 64 - 1

abbrev pub round_for : OpeningReason → PgPool → ℕ
round_for for_min p = p.connect_round
round_for for_growth p = growth_round

-- Seconds.
abbrev pub delay_for : ℕ → ℕ
delay_for fails = 2 ^ (min fails 3 - 1)

abbrev pub record_connect_success : PgPool → PgPool
record_connect_success p = record p { consecutive_connect_fails = 0; next_connect_attempt = 0 }

unfoldable pub record_connect_failure : ℕ → ℕ → PgPool → PgPool
record_connect_failure now round p =
    let fails =
      if ltb p.consecutive_connect_fails (2 ^ 31 - 1)
      then suc p.consecutive_connect_fails
      else p.consecutive_connect_fails in
    if round == growth_round
    then record p { growth_paused_until = now + 4 }
    else if not (round == p.connect_round)
    then p
    else record p {
      connect_round = suc p.connect_round;
      consecutive_connect_fails = fails;
      next_connect_attempt = now + delay_for fails;
    }

-- With `false` where the loop throws.
abbrev pub schedule_reconnect_timer : Opens → PgPool → PgPool × Bool
schedule_reconnect_timer a p =
    if p.reconnect_timer
    then (p, true)
    else if a.timer_added
    then (record p { reconnect_timer = true }, true)
    else (p, false)

abbrev pub fresh_member : ℕ → PgConnection → ℕ → Member
fresh_member key link round = record {
  key = key;
  link = link;
  current = none;
  cancel_pending = none;
  reset_results = 0;
  resetting = false;
  round = round;
}

abbrev pub deferred : OpeningReason → Opens → PgPool → PgPool × Bool
deferred for_min a p = schedule_reconnect_timer a p
deferred for_growth a p = (p, true)

-- PgPool::new_connection, with `false` where the loop throws.
unfoldable pub open_member : OpeningReason → Opens → PgPool → PgPool × Bool
open_member why a p =
    let (link, begun) = connect_start (a.starts p.next_key) new_connection in
    let next = record p { next_key = suc p.next_key } in
    if ltb a.now p.next_connect_attempt
    then deferred why a p
    else if not begun
    then (record_connect_failure a.now (round_for why p) next, true)
    else if a.watched p.next_key
    then (
      record next { conns = p.conns ++ (fresh_member p.next_key link (round_for why p) ∷ []) },
      true,
    )
    else (next, false)

abbrev pub has_socket : PgConnection → Bool
has_socket c = elim c.fd [ none ↦ false | some fd ↦ true ]

abbrev pub is_healthy : PgConnection → Bool
is_healthy c = elim c.state [ failed ↦ false | _ ↦ has_socket c ]

unfoldable pub healthy_in : List Member → ℕ
healthy_in [] = 0
healthy_in (c ∷ cs) = let rest = healthy_in cs in if is_healthy c.link then suc rest else rest

abbrev pub healthy_count : PgPool → ℕ
healthy_count p = healthy_in p.conns

-- The loop, on the number of connections that are missing.
unfoldable pub open_missing : ℕ → Opens → PgPool → PgPool × Bool
open_missing zero a p = (p, true)
open_missing (suc n) a p =
    let opened = open_member for_min a p in
    let rest = open_missing n a opened.0 in
    if ltb (length p.conns) (p.max_conns + p.min_conns)
    then if opened.1 then rest else opened
    else (p, true)

unfoldable pub ensure_min_connections : Opens → PgPool → PgPool × Bool
ensure_min_connections a p =
    if p.lazy && not p.used then (p, true) else open_missing (p.min_conns - healthy_count p) a p

unfoldable pub open_each : ℕ → Opens → PgPool → PgPool × Bool
open_each zero a p = (p, true)
open_each (suc n) a p =
    let opened = open_member for_min a p in
    let rest = open_each n a opened.0 in if opened.1 then rest else opened

unfoldable pub start : Opens → PgPool → PgPool × Bool
start a p = if p.lazy && not p.used then (p, true) else open_each p.min_conns a p

unfoldable pub remove_connection : Member → PgPool → PgPool
remove_connection c p = record p { conns = drop_member c.key p.conns }

abbrev pub is_connecting : PgConnection → Bool
is_connecting c = elim c.state [ connecting ↦ has_socket c | _ ↦ false ]

unfoldable pub connecting_in : List Member → ℕ
connecting_in [] = 0
connecting_in (c ∷ cs) =
    let rest = connecting_in cs in if is_connecting c.link then suc rest else rest

-- The loop of grow_for_queue(): `free` is the number of the free slots, each of which is taken by one
-- round at most.
unfoldable pub open_growth : ℕ → ℕ → Opens → PgPool → PgPool × Bool
open_growth zero demand a p = (p, true)
open_growth (suc free) demand a p =
    let opened = open_member for_growth a p in
    let rest = open_growth free demand a opened.0 in
    if ltb (healthy_count p) p.max_conns && ltb (connecting_in p.conns) demand
    then if not opened.1 || length opened.0.conns == length p.conns then opened else rest
    else (p, true)

unfoldable pub grow_for_queue : Opens → ℕ → PgPool → PgPool × Bool
grow_for_queue a demand p =
    if leb p.max_conns p.min_conns
      || p.detached
      || ltb (healthy_count p) p.min_conns
      || ltb a.now p.growth_paused_until
    then (p, true)
    else open_growth (p.max_conns + p.min_conns - length p.conns) demand a p

-- A connection that close_idle() may close, by what the clock and libpq say of its idle time.
abbrev pub is_idle : Bool → Member → Bool
is_idle idle_long c = elim c.link.state [
  | ready ↦ elim c.current [
    | some id ↦ false
    | none ↦ elim c.cancel_pending [ some id ↦ false | none ↦ idle_long ]
  ]
  | _ ↦ false
]

-- The loop of close_idle(), over the keys of the connections.
unfoldable pub close_each : (ℕ → Bool) → List ℕ → ℕ → PgPool → PgPool
close_each idle_long [] healthy p = p
close_each idle_long (key ∷ keys) healthy p = elim (member key p.conns) [
  | none ↦ close_each idle_long keys healthy p
  | some c ↦
      let closed = close_each idle_long keys (healthy - 1) (remove_connection c p) in
      let kept = close_each idle_long keys healthy p in
      if is_idle (idle_long key) c && ltb p.min_conns healthy then closed else kept
]

abbrev pub keys_of : PgPool → List ℕ
keys_of p = map (λ (c : Member). c.key) p.conns

unfoldable pub close_idle : (ℕ → Bool) → PgPool → PgPool
close_idle idle_long p =
    if not (is_empty p.queue) then p else close_each idle_long (keys_of p) (healthy_count p) p

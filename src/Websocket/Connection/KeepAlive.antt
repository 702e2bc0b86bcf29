-- ===== src/Websocket/Connection/KeepAlive.antt =====
-- `WsKeepAlive`: pings to a silent peer, and when a session is given up.
pub mod Silence
use libapostol.Prelude.{
  ℕ, zero, suc, ◌+◌, ◌≤◌, ◌<◌, ◌≡◌, ◌≢◌, refl, ap, ◌∙◌, Bool, true, false, not, ◌&&◌, ◌||◌, Option,
  none, some, List, [], ◌∷◌, ◌++◌, Bytes, codes, max, ltb, leb, if◌then◌else◌, Bool-cases,
  Option-cases, inl, inr, arith,
}
use libapostol.Websocket.Connection.{Outcome, WsConnection, send_ping, send_close}

-- The clock is in the unit of the two intervals, seconds in the source.
pub record WsKeepAlive : Type 0 where
  pub ping_after : ℕ
  pub close_after : ℕ

pub data Step : Type 0 where
  idle pinged gone : Step

abbrev pub enabled : WsKeepAlive → Bool
enabled k = ltb 0 k.ping_after

abbrev pub grace : WsKeepAlive → ℕ
grace k = if ltb 0 k.close_after then k.close_after else k.ping_after

-- The branch with a ping unanswered since `at`. `now - at < grace` is on signed durations.
unfoldable pub await :
    WsKeepAlive → List Outcome → Bool → ℕ → ℕ → WsConnection → WsConnection × Step
await k os modified now at ws =
    let since = if ltb at ws.drained_at then ws.drained_at else at in
    if ltb now (since + grace k) then (record ws { keepalive_ping_at = some since }, idle) else (
      record (send_close os modified 1001 (codes "no answer to ping")
          (record ws { keepalive_ping_at = none })) { closed = true },
      gone,
    )

-- The branch with no ping under way.
unfoldable pub probe : WsKeepAlive → List Outcome → Bool → ℕ → WsConnection → WsConnection × Step
probe k os modified now ws =
    if ltb now (max ws.last_read ws.drained_at + k.ping_after)
    then (ws, idle)
    else let sent = send_ping os modified [] ws in
      if sent.closed then (sent, gone) else (record sent { keepalive_ping_at = some now }, pinged)

unfoldable pub step : WsKeepAlive → List Outcome → Bool → ℕ → WsConnection → WsConnection × Step
step k os modified now ws =
    if not (enabled k) || ws.closed then (ws, idle) else elim ws.keepalive_ping_at [
      | none ↦ probe k os modified now ws
      | some at ↦ await k os modified now at ws
    ]

-- `if (got_any)` of `on_readable`
unfoldable pub note_read : ℕ → WsConnection → WsConnection
note_read now ws = record ws { last_read = now; keepalive_ping_at = none }

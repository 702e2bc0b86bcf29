-- ===== src/Websocket/Connection.antt =====
-- `WsConnection`: the frames that it sends and the backpressure buffer behind them. The socket is
-- the environment's: an operation takes the outcomes of its calls of `conn_.write`, in order, and
-- the answer of its one call of `EventLoop::modify_io`. Past the outcomes given, the send buffer is
-- full.
pub mod Order
pub mod Backpressure
pub mod KeepAlive
mod Tests
use libapostol.Prelude.{
  ℕ, zero, suc, ◌+◌, ◌-◌, ◌/◌, ◌^◌, bit_and, Bool, true, false, not, ◌&&◌, Option, none, some, List,
  [], ◌∷◌, ◌++◌, Bytes, length, take, drop, ltb, if◌then◌else◌,
}
use libapostol.Websocket.Frame.{ws_op_text, ws_op_binary, ws_op_close, ws_op_ping, ws_build_frame}

-- What `TcpConnection::write` returns: `wrote n` for the count n + 1, or all if it asked for fewer;
-- `would_block` for -1, `fatal` for -2, and `nothing` for 0.
pub data Outcome : Type 0 where
  wrote : ℕ → Outcome
  would_block fatal nothing : Outcome

-- The events that the loop watches the socket for.
pub data Interest : Type 0 where
  unwatched read read_write : Interest

pub record WsConnection : Type 0 where
  pub closed : Bool
  pub pending : Bytes
  pub pending_pos : ℕ
  pub max_pending : ℕ
  -- `loop_` is set, and `conn_.fd() >= 0`
  pub bound : Bool
  pub fd_open : Bool
  pub interest : Interest
  -- every byte that the socket has taken, in order
  pub written : Bytes
  pub last_read : ℕ
  pub keepalive_ping_at : Option ℕ
  pub drained_at : ℕ

abbrev pub has_pending_writes : WsConnection → Bool
has_pending_writes c = ltb c.pending_pos (length c.pending)

abbrev pub pending_bytes : WsConnection → ℕ
pending_bytes c = length c.pending - c.pending_pos

-- `pending_.clear(); pending_pos_ = 0;`
abbrev pub clear_pending : WsConnection → WsConnection
clear_pending c = record c { pending = []; pending_pos = 0 }

unfoldable pub lost_watch : WsConnection → WsConnection
lost_watch c = clear_pending (record c { closed = true; interest = unwatched })

unfoldable pub arm_write_interest : Bool → WsConnection → WsConnection
arm_write_interest modified c =
    if c.bound && not c.closed && c.fd_open
    then (if modified then record c { interest = read_write } else lost_watch c)
    else c

-- `if (loop_ && conn_.fd() >= 0) loop_->remove_io(conn_.fd());`
abbrev pub remove_io : WsConnection → WsConnection
remove_io c = if c.bound && c.fd_open then record c { interest = unwatched } else c

-- EAGAIN in the middle of a frame: the rest is kept, or the session is closed if it is too long.
unfoldable pub block : Bool → Bytes → WsConnection → WsConnection
block modified rest c =
    if ltb 0 c.max_pending && ltb c.max_pending (length rest)
    then remove_io (record c { closed = true })
    else arm_write_interest modified (record c { pending = rest; pending_pos = 0 })

-- The write loop of `send_raw`, over what is left of the frame.
unfoldable pub write_frame : List Outcome → Bool → Bytes → WsConnection → WsConnection
write_frame os modified [] c = c
write_frame [] modified (x ∷ rest) c = block modified (x ∷ rest) c
write_frame (wrote n ∷ os) modified (x ∷ rest) c =
    write_frame os modified (drop n rest) (record c { written = c.written ++ x ∷ take n rest })
write_frame (would_block ∷ os) modified (x ∷ rest) c = block modified (x ∷ rest) c
write_frame (fatal ∷ os) modified (x ∷ rest) c = record c { closed = true }
write_frame (nothing ∷ os) modified (x ∷ rest) c = c

-- A frame behind bytes that wait: appended, or the session is closed at the cap.
unfoldable pub queue_frame : Bytes → WsConnection → WsConnection
queue_frame frame c =
    if ltb 0 c.max_pending && ltb c.max_pending (pending_bytes c + length frame)
    then remove_io (clear_pending (record c { closed = true }))
    else record c { pending = c.pending ++ frame }

unfoldable pub send_frame : List Outcome → Bool → Bytes → WsConnection → WsConnection
send_frame os modified frame c =
    if c.closed
    then c
    else if has_pending_writes c
    then queue_frame frame c
    else write_frame os modified frame c

unfoldable pub send_raw : List Outcome → Bool → ℕ → Bytes → Bool → WsConnection → WsConnection
send_raw os modified opcode payload fin c =
    send_frame os modified (ws_build_frame opcode payload fin) c

unfoldable pub send_text : List Outcome → Bool → Bytes → WsConnection → WsConnection
send_text os modified text = send_raw os modified ws_op_text text true

unfoldable pub send_binary : List Outcome → Bool → Bytes → WsConnection → WsConnection
send_binary os modified bytes = send_raw os modified ws_op_binary bytes true

unfoldable pub send_ping : List Outcome → Bool → Bytes → WsConnection → WsConnection
send_ping os modified bytes = send_raw os modified ws_op_ping bytes true

-- The status code in two bytes, then the reason.
abbrev pub close_payload : ℕ → Bytes → Bytes
close_payload status reason = status / 2 ^ 8 ∷ bit_and status 0xff ∷ reason

unfoldable pub send_close : List Outcome → Bool → ℕ → Bytes → WsConnection → WsConnection
send_close os modified status reason =
    send_raw os modified ws_op_close (close_payload status reason) true

-- The end of `on_writable` once the buffer is empty: interest in EPOLLOUT is dropped.
unfoldable pub drained : Bool → WsConnection → WsConnection
drained modified c =
    let d = clear_pending c in
    if d.bound && not d.closed && d.fd_open
    then (if modified then record d { interest = read } else lost_watch d)
    else d

-- The loop of `on_writable`, over the bytes that wait; `now` is the clock during the call.
unfoldable pub write_pending : List Outcome → Bool → ℕ → Bytes → WsConnection → WsConnection × Bool
write_pending os modified now [] c = (drained modified c, true)
write_pending [] modified now (x ∷ rest) c = (c, false)
write_pending (wrote n ∷ os) modified now (x ∷ rest) c =
    write_pending os modified now (drop n rest) (record c {
      written = c.written ++ x ∷ take n rest;
      pending_pos = c.pending_pos + suc (length (take n rest));
      drained_at = now;
    })
write_pending (would_block ∷ os) modified now (x ∷ rest) c = (c, false)
write_pending (fatal ∷ os) modified now (x ∷ rest) c =
    (clear_pending (record c { closed = true }), true)
write_pending (nothing ∷ os) modified now (x ∷ rest) c = (record c { closed = true }, true)

unfoldable pub on_writable : List Outcome → Bool → ℕ → WsConnection → WsConnection × Bool
on_writable os modified now c =
    if c.closed then (c, true) else write_pending os modified now (drop c.pending_pos c.pending) c

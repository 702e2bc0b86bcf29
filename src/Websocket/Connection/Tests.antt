-- ===== src/Websocket/Connection/Tests.antt =====
-- A connection whose socket fills up and drains, and a peer that falls silent.
use libapostol.Prelude.{◌+◌, ◌≤◌, ◌≡◌, refl, true, false, some, none, List, [], ◌∷◌, codes, arith}
use libapostol.Websocket.Frame.{ws_build_frame, length_field, first_byte}
use libapostol.Websocket.Connection.{
  wrote, would_block, read, WsConnection, send_frame, send_raw, send_ping, queue_frame, write_frame,
  block, arm_write_interest, on_writable, write_pending, drained, lost_watch,
}
use libapostol.Websocket.Connection.Order.{
  Operation, send, writable, perform_all, frames, IsOrdered, perform_all-IsOrdered,
}
use libapostol.Websocket.Connection.Backpressure.{IsBounded, perform_all-IsBounded}
use libapostol.Websocket.Connection.KeepAlive.{WsKeepAlive, gone, step, await, probe, note_read}
use libapostol.Websocket.Connection.KeepAlive.Silence.{
  Event, beat, received, last_received, happen_all, step-gone,
}

abbrev fresh : WsConnection
fresh = record {
  closed = false;
  pending = [];
  pending_pos = 0;
  max_pending = 1024;
  bound = true;
  fd_open = true;
  interest = read;
  written = [];
  last_read = 0;
  keepalive_ping_at = none;
  drained_at = 0;
}

abbrev script : List Operation
script =
    send (codes "hello") (wrote 1 ∷ would_block ∷ []) true
    ∷ send (codes " world") [] true
    ∷ writable (wrote 3 ∷ wrote 100 ∷ []) true 7
    ∷ []

script_runs : (perform_all script fresh).written ≡ codes "hello world"
unfolding send_frame queue_frame write_frame block arm_write_interest on_writable write_pending
    drained lost_watch
script_runs = refl

perform_all-IsOrdered_example : IsOrdered (perform_all script fresh) (frames script)
perform_all-IsOrdered_example =
    perform_all-IsOrdered script fresh []
      ((λ e. cc, (λ e. cc, tt)), (tt, ((λ e. cc, (λ e. cc, tt)), tt)))
      (record { rest = []; prefix = refl; whole = λ up. refl })

perform_all-IsBounded_example : IsBounded 1024 (perform_all script fresh)
perform_all-IsBounded_example =
    perform_all-IsBounded 1024 script fresh
      (record { cap_kept = refl; bound = λ some_cap. omega arith })

abbrev patience : WsKeepAlive
patience = record { ping_after = 30; close_after = 10 }

abbrev silent : List Event
silent = received 5 ∷ beat 20 [] true ∷ beat 35 (wrote 9 ∷ []) true ∷ []

silent_ping : (happen_all patience silent fresh).keepalive_ping_at ≡ some 35
unfolding step await probe note_read send_ping send_raw send_frame write_frame ws_build_frame
    length_field first_byte
silent_ping = refl

silent_gone : (step patience [] true 45 (happen_all patience silent fresh)).1 ≡ gone
unfolding step await probe note_read send_ping send_raw send_frame write_frame ws_build_frame
    length_field first_byte
silent_gone = refl

step-gone_example :
    (last_received silent fresh.last_read + 30 + 10 ≤ 45)
    × ((happen_all patience silent fresh).drained_at + 10 ≤ 45)
step-gone_example = step-gone patience silent fresh [] true 45 35 refl silent_ping silent_gone

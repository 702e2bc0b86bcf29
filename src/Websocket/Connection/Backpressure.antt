-- ===== src/Websocket/Connection/Backpressure.antt =====
-- The cap on the bytes that wait for the socket: a peer that stops reading leaves at most
-- `max_pending` bytes unsent. The cap is no bound of the buffer's size: what is sent of it stands
-- before `pending_pos` until the buffer is drained whole.
use libapostol.Prelude.{
  ℕ, ◌≤◌, ◌<◌, ◌≡◌, Bool, true, List, [], ◌∷◌, Bytes, drop, length-append, Bool-cases, inl, inr,
  arith,
}
use libapostol.Websocket.Connection.{
  Outcome, wrote, would_block, fatal, nothing, WsConnection, has_pending_writes, pending_bytes,
  lost_watch, arm_write_interest, block, write_frame, queue_frame, send_frame, drained,
  write_pending, on_writable,
}
use libapostol.Websocket.Connection.Order.{
  Operation, send, writable, perform_all, send_frame-closed, send_frame-queue, send_frame-write,
}

-- With a cap, no more than it waits unsent; the cap is `cap` throughout.
pub record IsBounded (cap : ℕ) (c : WsConnection) : Type 0 where
  pub cap_kept : c.max_pending ≡ cap
  pub bound : 0 < cap → pending_bytes c ≤ cap

module _ (cap : ℕ) where
  block-IsBounded :
      (modified : Bool) (rest : Bytes) (c : WsConnection)
      → IsBounded cap c
      → IsBounded cap (block modified rest c)
  unfolding block arm_write_interest lost_watch
  block-IsBounded modified rest c b = record {
    cap_kept = ground arith;
    bound = λ some_cap. ground arith;
  }

  write_frame-IsBounded :
      (os : List Outcome) (modified : Bool) (rest : Bytes) (c : WsConnection)
      → IsBounded cap c
      → IsBounded cap (write_frame os modified rest c)
  unfolding write_frame
  write_frame-IsBounded os modified [] c b = b
  write_frame-IsBounded [] modified (x ∷ rest) c b = block-IsBounded modified (x ∷ rest) c b
  write_frame-IsBounded (wrote n ∷ os) modified (x ∷ rest) c b =
      write_frame-IsBounded os modified (drop n rest) _
        (record { cap_kept = b.cap_kept; bound = b.bound })
  write_frame-IsBounded (would_block ∷ os) modified (x ∷ rest) c b =
      block-IsBounded modified (x ∷ rest) c b
  write_frame-IsBounded (fatal ∷ os) modified (x ∷ rest) c b = record {
    cap_kept = b.cap_kept;
    bound = b.bound;
  }
  write_frame-IsBounded (nothing ∷ os) modified (x ∷ rest) c b = b

  queue_frame-IsBounded :
      (frame : Bytes) (c : WsConnection)
      → has_pending_writes c ≡ true
      → IsBounded cap c
      → IsBounded cap (queue_frame frame c)
  unfolding queue_frame
  queue_frame-IsBounded frame c busy b = record {
    cap_kept = ground arith;
    bound = λ some_cap. ground (arith, length-append c.pending frame);
  }

  send_frame-IsBounded :
      (os : List Outcome) (modified : Bool) (frame : Bytes) (c : WsConnection)
      → IsBounded cap c
      → IsBounded cap (send_frame os modified frame c)
  send_frame-IsBounded os modified frame c b = elim (Bool-cases c.closed) [
    | inl shut ↦ rw (send_frame-closed os modified frame c shut) b
    | inr up ↦ elim (Bool-cases (has_pending_writes c)) [
      | inl busy ↦
          rw (send_frame-queue os modified frame c up busy) (queue_frame-IsBounded frame c busy b)
      | inr idle ↦
          rw (send_frame-write os modified frame c up idle)
            (write_frame-IsBounded os modified frame c b)
    ]
  ]

  drained-IsBounded :
      (modified : Bool) (c : WsConnection) → IsBounded cap c → IsBounded cap (drained modified c)
  unfolding drained lost_watch
  drained-IsBounded modified c b = record {
    cap_kept = ground arith;
    bound = λ some_cap. ground arith;
  }

  write_pending-IsBounded :
      (os : List Outcome) (modified : Bool) (now : ℕ) (rest : Bytes) (c : WsConnection)
      → IsBounded cap c
      → IsBounded cap (write_pending os modified now rest c).0
  unfolding write_pending
  write_pending-IsBounded os modified now [] c b = drained-IsBounded modified c b
  write_pending-IsBounded [] modified now (x ∷ rest) c b = b
  write_pending-IsBounded (wrote n ∷ os) modified now (x ∷ rest) c b =
      write_pending-IsBounded os modified now (drop n rest) _
        (record { cap_kept = b.cap_kept; bound = λ some_cap. omega (arith, b.bound some_cap) })
  write_pending-IsBounded (would_block ∷ os) modified now (x ∷ rest) c b = b
  write_pending-IsBounded (fatal ∷ os) modified now (x ∷ rest) c b = record {
    cap_kept = b.cap_kept;
    bound = λ some_cap. omega arith;
  }
  write_pending-IsBounded (nothing ∷ os) modified now (x ∷ rest) c b = record {
    cap_kept = b.cap_kept;
    bound = b.bound;
  }

  on_writable-IsBounded :
      (os : List Outcome) (modified : Bool) (now : ℕ) (c : WsConnection)
      → IsBounded cap c
      → IsBounded cap (on_writable os modified now c).0
  unfolding on_writable
  on_writable-IsBounded os modified now c b = elim (Bool-cases c.closed) [
    | inl shut ↦ simp shut b
    | inr up ↦ simp up (write_pending-IsBounded os modified now (drop c.pending_pos c.pending) c b)
  ]

  -- If no more bytes than a cap that is set wait unsent, no sequence of sends and EPOLLOUT events
  -- makes more wait, whatever the socket answers. The part of the buffer that is sent and not yet
  -- dropped is not counted.
  pub perform_all-IsBounded :
      (ops : List Operation) (c : WsConnection)
      → IsBounded cap c
      → IsBounded cap (perform_all ops c)
  perform_all-IsBounded [] c b = b
  perform_all-IsBounded (send frame os modified ∷ ops) c b =
      perform_all-IsBounded ops (send_frame os modified frame c)
        (send_frame-IsBounded os modified frame c b)
  perform_all-IsBounded (writable os modified now ∷ ops) c b =
      perform_all-IsBounded ops _ (on_writable-IsBounded os modified now c b)

-- ===== src/Websocket/Connection/Order.antt =====
-- The order of the bytes on the wire: whatever the socket takes and whenever, nothing is lost,
-- repeated or reordered while the connection is open.
use libapostol.Prelude.{
  ℕ, suc, ◌≤◌, drop_past, drop-drop, drop-length-take, ◌≡◌, ◌≢◌, refl, ap, sym, ◌∙◌, Bool, true,
  false, List, [], ◌∷◌, ◌++◌, append-nil, append_assoc, Bytes, length, take, drop, All,
  take-append-drop, drop-append, Bool-cases, inl, inr, arith,
}
use libapostol.Websocket.Connection.{
  Outcome, wrote, would_block, fatal, nothing, WsConnection, has_pending_writes, lost_watch,
  arm_write_interest, block, write_frame, queue_frame, send_frame, drained, write_pending,
  on_writable,
}

-- What waits in the backpressure buffer.
abbrev pub unsent : WsConnection → Bytes
unsent c = drop c.pending_pos c.pending

-- The bytes written begin the stream `s`, and while the connection is open the bytes that wait are
-- the rest of it.
pub record IsOrdered (c : WsConnection) (s : Bytes) : Type 0 where
  pub rest : Bytes
  pub prefix : c.written ++ rest ≡ s
  pub whole : c.closed ≡ false → c.written ++ unsent c ≡ s

-- send(2) with bytes to send never returns 0.
abbrev pub IsSocket : List Outcome → Type 0
IsSocket os = All (λ (o : Outcome). o ≢ nothing) os

closed-IsOrdered :
    (c : WsConnection) (rest s : Bytes) → c.closed ≡ true → c.written ++ rest ≡ s → IsOrdered c s
closed-IsOrdered c rest s shut e = record { rest = rest; prefix = e; whole = λ up. cc }

block-IsOrdered :
    (modified : Bool) (rest : Bytes) (c : WsConnection) (s : Bytes)
    → c.written ++ rest ≡ s
    → IsOrdered (block modified rest c) s
unfolding block arm_write_interest lost_watch
block-IsOrdered modified rest c s e = record {
  rest = rest;
  prefix = ground arith;
  whole = λ up. ground arith;
}

wrote-IsOrdered :
    (n : ℕ) (w rest s : Bytes) (x : ℕ)
    → w ++ x ∷ rest ≡ s
    → (w ++ x ∷ take n rest) ++ drop n rest ≡ s
wrote-IsOrdered n w rest s x e =
    append_assoc w (x ∷ take n rest) (drop n rest)
    ∙ ap (λ (t : Bytes). w ++ x ∷ t) (take-append-drop n rest)
    ∙ e

write_frame-IsOrdered :
    (os : List Outcome) (modified : Bool) (rest : Bytes) (c : WsConnection) (s : Bytes)
    → IsSocket os
    → unsent c ≡ []
    → c.written ++ rest ≡ s
    → IsOrdered (write_frame os modified rest c) s
unfolding write_frame
write_frame-IsOrdered os modified [] c s real idle e = record {
  rest = [];
  prefix = e;
  whole = λ up. rw idle e;
}
write_frame-IsOrdered [] modified (x ∷ rest) c s real idle e =
    block-IsOrdered modified (x ∷ rest) c s e
write_frame-IsOrdered (wrote n ∷ os) modified (x ∷ rest) c s real idle e =
    write_frame-IsOrdered os modified (drop n rest)
      (record c { written = c.written ++ x ∷ take n rest }) s real.1 idle
      (wrote-IsOrdered n c.written rest s x e)
write_frame-IsOrdered (would_block ∷ os) modified (x ∷ rest) c s real idle e =
    block-IsOrdered modified (x ∷ rest) c s e
write_frame-IsOrdered (fatal ∷ os) modified (x ∷ rest) c s real idle e =
    closed-IsOrdered _ (x ∷ rest) s refl e
write_frame-IsOrdered (nothing ∷ os) modified (x ∷ rest) c s real idle e = absurd (real.0 refl)

queue_frame-IsOrdered :
    (frame : Bytes) (c : WsConnection) (s : Bytes)
    → IsOrdered c s
    → c.closed ≡ false
    → c.pending_pos ≤ length c.pending
    → IsOrdered (queue_frame frame c) (s ++ frame)
unfolding queue_frame
queue_frame-IsOrdered frame c s o up fits =
    let longer : c.written ++ drop c.pending_pos (c.pending ++ frame) ≡ s ++ frame =
      ap (λ (t : Bytes). c.written ++ t) (drop-append c.pending_pos c.pending frame fits)
      ∙ sym (append_assoc c.written (unsent c) frame)
      ∙ ap (λ (t : Bytes). t ++ frame) (o.whole up) in
    let begins : c.written ++ (o.rest ++ frame) ≡ s ++ frame =
      sym (append_assoc c.written o.rest frame) ∙ ap (λ (t : Bytes). t ++ frame) o.prefix in
    record { rest = o.rest ++ frame; prefix = ground arith; whole = λ open'. ground arith }

unsent-idle : (c : WsConnection) → has_pending_writes c ≡ false → unsent c ≡ []
unsent-idle c idle = drop_past c.pending_pos c.pending (ground arith)

-- The three ways of a send.
pub send_frame-closed :
    (os : List Outcome) (modified : Bool) (frame : Bytes) (c : WsConnection)
    → c.closed ≡ true
    → send_frame os modified frame c ≡ c
unfolding send_frame
send_frame-closed os modified frame c shut = ground arith

pub send_frame-queue :
    (os : List Outcome) (modified : Bool) (frame : Bytes) (c : WsConnection)
    → c.closed ≡ false
    → has_pending_writes c ≡ true
    → send_frame os modified frame c ≡ queue_frame frame c
unfolding send_frame
send_frame-queue os modified frame c up busy = ground arith

pub send_frame-write :
    (os : List Outcome) (modified : Bool) (frame : Bytes) (c : WsConnection)
    → c.closed ≡ false
    → has_pending_writes c ≡ false
    → send_frame os modified frame c ≡ write_frame os modified frame c
unfolding send_frame
send_frame-write os modified frame c up idle = ground arith

send_frame-IsOrdered :
    (os : List Outcome) (modified : Bool) (frame : Bytes) (c : WsConnection) (s : Bytes)
    → IsSocket os
    → IsOrdered c s
    → IsOrdered (send_frame os modified frame c) (s ++ frame)
send_frame-IsOrdered os modified frame c s real o = elim (Bool-cases c.closed) [
  | inl shut ↦ rw (send_frame-closed os modified frame c shut) (
      closed-IsOrdered c (o.rest ++ frame) (s ++ frame) shut
        (sym (append_assoc c.written o.rest frame) ∙ ap (λ (t : Bytes). t ++ frame) o.prefix))
  | inr up ↦ elim (Bool-cases (has_pending_writes c)) [
    | inl busy ↦
        rw (send_frame-queue os modified frame c up busy)
          (queue_frame-IsOrdered frame c s o up (ground arith))
    | inr idle ↦
        let all_written : c.written ≡ s =
          sym (append-nil c.written)
          ∙ ap (λ (t : Bytes). c.written ++ t) (sym (unsent-idle c idle))
          ∙ o.whole up in
        rw (send_frame-write os modified frame c up idle) (
          write_frame-IsOrdered os modified frame c (s ++ frame) real (unsent-idle c idle)
            (ap (λ (t : Bytes). t ++ frame) all_written))
  ]
]

drained-IsOrdered :
    (modified : Bool) (c : WsConnection) (s : Bytes)
    → c.written ≡ s
    → IsOrdered (drained modified c) s
unfolding drained lost_watch
drained-IsOrdered modified c s e = record {
  rest = [];
  prefix = ground (arith, append-nil c.written);
  whole = λ up. ground (arith, append-nil c.written);
}

write_pending-IsOrdered :
    (os : List Outcome) (modified : Bool) (now : ℕ) (rest : Bytes) (c : WsConnection) (s : Bytes)
    → IsSocket os
    → unsent c ≡ rest
    → c.written ++ rest ≡ s
    → IsOrdered (write_pending os modified now rest c).0 s
unfolding write_pending
write_pending-IsOrdered os modified now [] c s real tail e =
    drained-IsOrdered modified c s (sym (append-nil c.written) ∙ e)
write_pending-IsOrdered [] modified now (x ∷ rest) c s real tail e = record {
  rest = x ∷ rest;
  prefix = e;
  whole = λ up. ap (λ (t : Bytes). c.written ++ t) tail ∙ e;
}
write_pending-IsOrdered (wrote n ∷ os) modified now (x ∷ rest) c s real tail e =
    write_pending-IsOrdered os modified now (drop n rest) _ s real.1
      (sym (drop-drop c.pending_pos (suc (length (take n rest))) c.pending)
        ∙ ap (λ (t : Bytes). drop (suc (length (take n rest))) t) tail
        ∙ drop-length-take n rest)
      (wrote-IsOrdered n c.written rest s x e)
write_pending-IsOrdered (would_block ∷ os) modified now (x ∷ rest) c s real tail e = record {
  rest = x ∷ rest;
  prefix = e;
  whole = λ up. ap (λ (t : Bytes). c.written ++ t) tail ∙ e;
}
write_pending-IsOrdered (fatal ∷ os) modified now (x ∷ rest) c s real tail e =
    closed-IsOrdered _ (x ∷ rest) s refl e
write_pending-IsOrdered (nothing ∷ os) modified now (x ∷ rest) c s real tail e =
    absurd (real.0 refl)

pub on_writable-closed :
    (os : List Outcome) (modified : Bool) (now : ℕ) (c : WsConnection)
    → c.closed ≡ true
    → on_writable os modified now c ≡ (c, true)
unfolding on_writable
on_writable-closed os modified now c shut = simp shut

pub on_writable-up :
    (os : List Outcome) (modified : Bool) (now : ℕ) (c : WsConnection)
    → c.closed ≡ false
    → on_writable os modified now c ≡ write_pending os modified now (unsent c) c
unfolding on_writable
on_writable-up os modified now c up = simp up

on_writable-IsOrdered :
    (os : List Outcome) (modified : Bool) (now : ℕ) (c : WsConnection) (s : Bytes)
    → IsSocket os
    → IsOrdered c s
    → IsOrdered (on_writable os modified now c).0 s
on_writable-IsOrdered os modified now c s real o = elim (Bool-cases c.closed) [
  | inl shut ↦ rw (on_writable-closed os modified now c shut) o
  | inr up ↦
      rw (on_writable-up os modified now c up)
        (write_pending-IsOrdered os modified now (unsent c) c s real refl (o.whole up))
]

-- A call of `send_…` with its frame, or of `on_writable`.
pub data Operation : Type 0 where
  send : Bytes → List Outcome → Bool → Operation
  writable : List Outcome → Bool → ℕ → Operation

abbrev pub perform : Operation → WsConnection → WsConnection
perform (send frame os modified) c = send_frame os modified frame c
perform (writable os modified now) c = (on_writable os modified now c).0

abbrev pub perform_all : List Operation → WsConnection → WsConnection
perform_all [] c = c
perform_all (o ∷ ops) c = perform_all ops (perform o c)

-- The frames of the sends, in order.
abbrev pub frames : List Operation → Bytes
frames [] = []
frames (send frame os modified ∷ ops) = frame ++ frames ops
frames (writable os modified now ∷ ops) = frames ops

abbrev outcomes : Operation → List Outcome
outcomes (send frame os modified) = os
outcomes (writable os modified now) = os

abbrev pub AllSocket : List Operation → Type 0
AllSocket = All (λ (o : Operation). IsSocket (outcomes o))

-- From any point at which the bytes are in order, through any sequence of sends and EPOLLOUT
-- events, what the socket has taken is a prefix of the frames in the order of the calls; and while
-- the connection is open, that and the backpressure buffer make up exactly those frames.
pub perform_all-IsOrdered :
    (ops : List Operation) (c : WsConnection) (s : Bytes)
    → AllSocket ops
    → IsOrdered c s
    → IsOrdered (perform_all ops c) (s ++ frames ops)
perform_all-IsOrdered [] c s real o = rw (append-nil s) o
perform_all-IsOrdered (send frame os modified ∷ ops) c s real o =
    rw (← append_assoc s frame (frames ops)) (
      perform_all-IsOrdered ops (send_frame os modified frame c) (s ++ frame) real.1
        (send_frame-IsOrdered os modified frame c s real.0 o))
perform_all-IsOrdered (writable os modified now ∷ ops) c s real o =
    perform_all-IsOrdered ops _ s real.1 (on_writable-IsOrdered os modified now c s real.0 o)

-- ===== src/Websocket/Connection/KeepAlive/Silence.antt =====
-- A session is given up only after a silence as long as both intervals together.
use libapostol.Prelude.{
  ap, ℕ, ◌+◌, ◌≤◌, ◌≡◌, refl, sym, ◌∙◌, Bool, not, ◌||◌, none, some, List, [], ◌∷◌, ◌++◌, Bytes,
  codes, take, drop, Bool-cases, Option-cases, inl, inr, arith,
}
use libapostol.Websocket.Connection.{
  Outcome, wrote, would_block, fatal, nothing, WsConnection, lost_watch, arm_write_interest, block,
  write_frame, queue_frame, send_frame, send_raw, send_ping, send_close, drained, write_pending,
  has_pending_writes,
}
use libapostol.Websocket.Connection.Order.{
  Operation, send, writable, perform, send_frame-closed, send_frame-queue, send_frame-write,
  on_writable-closed, on_writable-up, unsent,
}
use libapostol.Websocket.Connection.KeepAlive.{
  WsKeepAlive, gone, enabled, grace, await, probe, step, note_read,
}

-- Two connections that agree on what was read and on the ping under way.
abbrev SameClock : WsConnection → WsConnection → Type 0
SameClock a b = (a.last_read ≡ b.last_read) × (a.keepalive_ping_at ≡ b.keepalive_ping_at)

block-SameClock :
    (modified : Bool) (rest : Bytes) (c : WsConnection) → SameClock (block modified rest c) c
unfolding block arm_write_interest lost_watch
block-SameClock modified rest c = ground arith

write_frame-SameClock :
    (os : List Outcome) (modified : Bool) (rest : Bytes) (c : WsConnection)
    → SameClock (write_frame os modified rest c) c
unfolding write_frame
write_frame-SameClock os modified [] c = (refl, refl)
write_frame-SameClock [] modified (x ∷ rest) c = block-SameClock modified (x ∷ rest) c
write_frame-SameClock (wrote n ∷ os) modified (x ∷ rest) c =
    write_frame-SameClock os modified (drop n rest)
      (record c { written = c.written ++ x ∷ take n rest })
write_frame-SameClock (would_block ∷ os) modified (x ∷ rest) c =
    block-SameClock modified (x ∷ rest) c
write_frame-SameClock (fatal ∷ os) modified (x ∷ rest) c = (refl, refl)
write_frame-SameClock (nothing ∷ os) modified (x ∷ rest) c = (refl, refl)

queue_frame-SameClock : (frame : Bytes) (c : WsConnection) → SameClock (queue_frame frame c) c
unfolding queue_frame
queue_frame-SameClock frame c = ground arith

send_frame-SameClock :
    (os : List Outcome) (modified : Bool) (frame : Bytes) (c : WsConnection)
    → SameClock (send_frame os modified frame c) c
send_frame-SameClock os modified frame c = elim (Bool-cases c.closed) [
  | inl shut ↦ rw (send_frame-closed os modified frame c shut) (refl, refl)
  | inr up ↦ elim (Bool-cases (has_pending_writes c)) [
    | inl busy ↦ rw (send_frame-queue os modified frame c up busy) (queue_frame-SameClock frame c)
    | inr free ↦
        rw (send_frame-write os modified frame c up free)
          (write_frame-SameClock os modified frame c)
  ]
]

write_pending-SameClock :
    (os : List Outcome) (modified : Bool) (now : ℕ) (rest : Bytes) (c : WsConnection)
    → SameClock (write_pending os modified now rest c).0 c
unfolding write_pending drained lost_watch
write_pending-SameClock os modified now [] c = ground arith
write_pending-SameClock [] modified now (x ∷ rest) c = (refl, refl)
write_pending-SameClock (wrote n ∷ os) modified now (x ∷ rest) c =
    write_pending-SameClock os modified now (drop n rest) _
write_pending-SameClock (would_block ∷ os) modified now (x ∷ rest) c = (refl, refl)
write_pending-SameClock (fatal ∷ os) modified now (x ∷ rest) c = (refl, refl)
write_pending-SameClock (nothing ∷ os) modified now (x ∷ rest) c = (refl, refl)

perform-SameClock : (o : Operation) (c : WsConnection) → SameClock (perform o c) c
perform-SameClock (send frame os modified) c = send_frame-SameClock os modified frame c
perform-SameClock (writable os modified now) c = elim (Bool-cases c.closed) [
  | inl shut ↦ rw (on_writable-closed os modified now c shut, perform) (refl, refl)
  | inr up ↦
      rw (on_writable-up os modified now c up, perform)
        (write_pending-SameClock os modified now (unsent c) c)
]

send_ping-SameClock :
    (os : List Outcome) (modified : Bool) (bytes : Bytes) (c : WsConnection)
    → SameClock (send_ping os modified bytes c) c
unfolding send_ping send_raw
send_ping-SameClock os modified bytes c = send_frame-SameClock os modified _ c

send_close-SameClock :
    (os : List Outcome) (modified : Bool) (status : ℕ) (reason : Bytes) (c : WsConnection)
    → SameClock (send_close os modified status reason c) c
unfolding send_close send_raw
send_close-SameClock os modified status reason c = send_frame-SameClock os modified _ c

-- What happens to a session: a heartbeat with the socket's answers, bytes from the peer, or a send
-- or an EPOLLOUT event. Each at a time of the clock.
pub data Event : Type 0 where
  beat : ℕ → List Outcome → Bool → Event
  received : ℕ → Event
  operation : Operation → Event

-- The time of the last event that brought bytes from the peer.
abbrev pub last_received : List Event → ℕ → ℕ
last_received [] at = at
last_received (beat now os modified ∷ es) at = last_received es at
last_received (received now ∷ es) at = last_received es now
last_received (operation o ∷ es) at = last_received es at

module _ (k : WsKeepAlive) where
  abbrev pub happen : Event → WsConnection → WsConnection
  happen (beat now os modified) ws = (step k os modified now ws).0
  happen (received now) ws = note_read now ws
  happen (operation o) ws = perform o ws

  abbrev pub happen_all : List Event → WsConnection → WsConnection
  happen_all [] ws = ws
  happen_all (e ∷ es) ws = happen_all es (happen e ws)

  -- A ping under way was sent after `ping_after` of silence.
  abbrev pub IsTimely : WsConnection → Type 0
  IsTimely ws = (at : ℕ) → ws.keepalive_ping_at ≡ some at → ws.last_read + k.ping_after ≤ at

  SameClock-IsTimely : (a b : WsConnection) → SameClock a b → IsTimely b → IsTimely a
  SameClock-IsTimely a b (r, p) t at e = omega (arith, r, t at (sym p ∙ e))

  await-IsTimely :
      (os : List Outcome) (modified : Bool) (now at : ℕ) (ws : WsConnection)
      → ws.last_read + k.ping_after ≤ at
      → IsTimely (await k os modified now at ws).0
  unfolding await
  await-IsTimely os modified now at ws t at' e =
      let asked : WsConnection = record ws { keepalive_ping_at = none } in
      ground (arith, send_close-SameClock os modified 1001 (codes "no answer to ping") asked)

  probe-IsTimely :
      (os : List Outcome) (modified : Bool) (now : ℕ) (ws : WsConnection)
      → ws.keepalive_ping_at ≡ none
      → IsTimely (probe k os modified now ws).0
  unfolding probe
  probe-IsTimely os modified now ws no_ping at e =
      ground (arith, send_ping-SameClock os modified [] ws)

  step-IsTimely :
      (os : List Outcome) (modified : Bool) (now : ℕ) (ws : WsConnection)
      → IsTimely ws
      → IsTimely (step k os modified now ws).0
  unfolding step
  step-IsTimely os modified now ws t = elim (Bool-cases (not (enabled k) || ws.closed)) [
    | inl off ↦ rw off t
    | inr on ↦ elim (Option-cases ws.keepalive_ping_at) [
      | inl no_ping ↦ simp (on, no_ping) (probe-IsTimely os modified now ws no_ping)
      | inr (at, sent) ↦ simp (on, sent) (await-IsTimely os modified now at ws (t at sent))
    ]
  ]

  happen_all-IsTimely :
      (es : List Event) (ws : WsConnection) → IsTimely ws → IsTimely (happen_all es ws)
  unfolding note_read
  happen_all-IsTimely [] ws t = t
  happen_all-IsTimely (beat now os modified ∷ es) ws t =
      happen_all-IsTimely es _ (step-IsTimely os modified now ws t)
  happen_all-IsTimely (received now ∷ es) ws t = happen_all-IsTimely es _ (λ at e. cc)
  happen_all-IsTimely (operation o ∷ es) ws t =
      happen_all-IsTimely es _ (SameClock-IsTimely (perform o ws) ws (perform-SameClock o ws) t)

  await-gone :
      (os : List Outcome) (modified : Bool) (now at : ℕ) (ws : WsConnection)
      → (await k os modified now at ws).1 ≡ gone
      → (at + grace k ≤ now) × (ws.drained_at + grace k ≤ now)
  unfolding await
  await-gone os modified now at ws e = ground arith

  step-await :
      (os : List Outcome) (modified : Bool) (now at : ℕ) (ws : WsConnection)
      → ws.keepalive_ping_at ≡ some at
      → (step k os modified now ws).1 ≡ gone
      → (await k os modified now at ws).1 ≡ gone
  unfolding step
  step-await os modified now at ws sent e = ground arith

  step-last_read :
      (os : List Outcome) (modified : Bool) (now : ℕ) (ws : WsConnection)
      → (step k os modified now ws).0.last_read ≡ ws.last_read
  unfolding step probe await
  step-last_read os modified now ws = ground (
    arith,
    send_ping-SameClock os modified [] ws,
    send_close-SameClock os modified 1001 (codes "no answer to ping")
        (record ws { keepalive_ping_at = none }),
  )

  happen_all-last_read :
      (es : List Event) (ws : WsConnection)
      → (happen_all es ws).last_read ≡ last_received es ws.last_read
  unfolding note_read
  happen_all-last_read [] ws = refl
  happen_all-last_read (beat now os modified ∷ es) ws =
      happen_all-last_read es _ ∙ ap (last_received es) (step-last_read os modified now ws)
  happen_all-last_read (received now ∷ es) ws = happen_all-last_read es _
  happen_all-last_read (operation o ∷ es) ws =
      happen_all-last_read es (perform o ws) ∙ ap (last_received es) (perform-SameClock o ws).0

  -- A session that starts with no ping under way and is then given up by a heartbeat while a ping is
  -- unanswered has been silent, whatever happened before: the last event that brought bytes from the
  -- peer (or, without one, the read before the first event) lies back the silence and the grace
  -- together, and the last progress of its backpressure tail that was noted lies back the grace.
  pub step-gone :
      (es : List Event) (ws : WsConnection) (os : List Outcome) (modified : Bool) (now at : ℕ)
      → ws.keepalive_ping_at ≡ none
      → (happen_all es ws).keepalive_ping_at ≡ some at
      → (step k os modified now (happen_all es ws)).1 ≡ gone
      → (last_received es ws.last_read + k.ping_after + grace k ≤ now)
        × ((happen_all es ws).drained_at + grace k ≤ now)
  step-gone es ws os modified now at fresh sent e =
      let t = happen_all-IsTimely es ws (λ at' f. cc) at sent in
      let later =
        await-gone os modified now at (happen_all es ws)
          (step-await os modified now at (happen_all es ws) sent e) in
      (omega (arith, t, later.0, happen_all-last_read es ws), later.1)

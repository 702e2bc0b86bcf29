-- ===== src/PgLeader/Role/Handshake.antt =====
-- Opening a session keeps the role in order.
use libapostol.Prelude.{
  ℕ, ◌≡◌, refl, ap, ◌∙◌, true, false, Option, none, some, arith, Bool-cases, Option-cases, inl, inr,
}
use libapostol.Pg.{
  connecting, PgConnection, new_connection, Started, not_started, started, connect_start, Polling,
  polling_failed, polling_reading, polling_writing, polling_ok, polling_active, connect_poll,
}
use libapostol.PgLeader.{PgLeaderLock, Answers, finish, nothing, try_lock, emit, unwatch, watch}
use libapostol.PgLeader.Events.{is_failed, is_ok, connect, poll_handshake}
use libapostol.PgLeader.Role.{
  standby, settled, is_asking, View, view, Inv, Active, with_effect, unwatch-view,
}
use libapostol.PgLeader.Role.Operations.{phase-with, drop-Inv, send-Inv}

-- A lock whose connection is in its handshake, or has no query under way.
pub quiet-Inv :
    (v : View)
    → Active v
    → (v.held ≡ true → settled v.conn ≡ true)
    → is_asking v.conn ≡ false
    → Inv v
quiet-Inv v h s q = record {
  orderly = h.orderly;
  apart = ground (arith, h.active);
  session = s;
  asks = λ t u. cc (t, q);
}

finish-Active :
    (v : View) → Active v → v.held ≡ false → Active (with_effect finish (record v { conn = none }))
finish-Active v h e = record {
  orderly =
      phase-with v.effects finish standby (ground (arith, h.orderly, h.active))
      ∙ ground (arith, h.active);
  active = h.active;
}

connect_start-state :
    (s : Started)
    → (connect_start s new_connection).1 ≡ true
    → (connect_start s new_connection).0.state ≡ connecting
unfolding connect_start
connect_start-state not_started e = cc e
connect_start-state (started fd) e = refl

-- A connection that is in its handshake, of a standby.
dialling-Inv :
    (c : PgConnection) (v : View)
    → Active v
    → v.held ≡ false
    → c.state ≡ connecting
    → Inv (record v { conn = some c })
dialling-Inv c v h e s =
    quiet-Inv (record v { conn = some c }) (record { orderly = h.orderly; active = h.active })
      (λ t. cc (t, e)) (rw s refl)

pub connect-Inv :
    (a : Answers) (l : PgLeaderLock) → Active (view l) → l.held ≡ false → Inv (view (connect a l))
unfolding connect
connect-Inv a l h e =
    let out = connect_start a.start new_connection in
    let begun : PgLeaderLock = record l {
      conn = some out.0;
      since = a.now;
      set_up = false;
      asked = nothing;
    } in
    elim (Bool-cases out.1) [
      | inr not_begun ↦
          rw (not_begun, connect)
            (drop-Inv _ (emit finish (record begun { conn = none }))
              (finish-Active (view begun) (record { orderly = h.orderly; active = h.active }) e))
      | inl ok ↦
          let inv =
            dialling-Inv out.0 (view begun) (record { orderly = h.orderly; active = h.active }) e
              (connect_start-state a.start ok) in
          elim (Option-cases out.0.fd) [
            | inl no_fd ↦ rw (ok, no_fd, connect) inv
            | inr (fd, there) ↦ rw (ok, there, connect) inv
          ]
    ]

polling-state :
    (p : Polling) (c : PgConnection) (fd : Option ℕ)
    → is_failed p ≡ false
    → is_ok p ≡ false
    → (connect_poll p fd c).state ≡ c.state
unfolding connect_poll
polling-state polling_failed c fd e f = cc e
polling-state polling_ok c fd e f = cc f
polling-state polling_reading c fd e f = refl
polling-state polling_writing c fd e f = refl
polling-state polling_active c fd e f = refl

-- The lock without the socket of a connection, and with another connection.
moved : PgConnection → Option ℕ → PgLeaderLock → PgLeaderLock
moved c fd l = record (unwatch fd l) { conn = some c }

moved-view :
    (c : PgConnection) (fd : Option ℕ) (l : PgLeaderLock)
    → view (moved c fd l) ≡ record (view l) { conn = some c }
unfolding moved
moved-view c fd l = ap (λ (v : View). record v { conn = some c }) (unwatch-view fd l)

pub Active-conn : (c : Option PgConnection) (v : View) → Active v → Active (record v { conn = c })
Active-conn c v h = record { orderly = h.orderly; active = h.active }

pub poll_handshake-Inv :
    (a : Answers) (c : PgConnection) (l : PgLeaderLock)
    → Active (view l)
    → l.held ≡ false
    → c.state ≡ connecting
    → Inv (view (poll_handshake a c l))
unfolding poll_handshake moved
poll_handshake-Inv a c l h e s =
    let polled = connect_poll a.polling a.polled_fd c in
    let next = moved polled c.fd l in
    let same = moved-view polled c.fd l in
    let active : Active (view next) = rw same (Active-conn (some polled) (view l) h) in
    let free : next.held ≡ false = ap (λ (v : View). v.held) same ∙ e in
    elim (Bool-cases (is_failed a.polling)) [
      | inl fails ↦ rw (fails, poll_handshake) (drop-Inv a.error_message next active)
      | inr works ↦ elim (Option-cases polled.fd) [
        | inl no_fd ↦ rw (works, no_fd, poll_handshake) (drop-Inv a.error_message next active)
        | inr (fd, there) ↦ elim (Bool-cases (is_ok a.polling)) [
          | inl done ↦
              rw (works, there, done, poll_handshake)
                (send-Inv try_lock a polled (watch fd next) active (rw free refl))
          | inr goes_on ↦
              rw (works, there, goes_on, poll_handshake)
                (rw same (
                  dialling-Inv polled (view l) h e
                    (polling-state a.polling c a.polled_fd works goes_on ∙ s)))
        ]
      ]
    ]

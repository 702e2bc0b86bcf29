-- ===== src/PgLeader/Role.antt =====
-- The role of a lock through its life: what its handlers are told, and when its session ends.
pub mod Operations
pub mod Handshake
pub mod Sockets
pub mod Quiet
pub mod Runs
pub mod Overdue
use libapostol.Prelude.{
  ◌≡◌, refl, ap, sym, ◌∙◌, Bool, true, false, not, ◌&&◌, Option, none, some, List, [], ◌∷◌, ◌++◌,
  Bytes, arith, if◌then◌else◌,
}
use libapostol.Pg.{PgConnState, connecting, ready, busy, failed, PgConnection}
use libapostol.PgLeader.{
  PgLeaderLock, Effect, on_acquired, finish, on_lost, query, Ask, nothing, try_lock, probe, unwatch,
  unwatch_conn, finish_conn, close, lose,
}

-- The life of the role: a standby may end sessions and open others; a leader keeps its session; one
-- that has lost the role does nothing more.
pub data Phase : Type 0 where
  standby leader retired broken : Phase

abbrev pub next : Phase → Effect → Phase
next standby finish = standby
next standby (query _ _) = standby
next standby on_acquired = leader
next leader (query _ _) = leader
next leader (on_lost _) = retired
next _ _ = broken

unfoldable pub phase_from : Phase → List Effect → Phase
phase_from p [] = p
phase_from p (e ∷ es) = phase_from (next p e) es

abbrev pub phase_of : List Effect → Phase
phase_of es = phase_from standby es

abbrev pub phase_for : Bool → Bool → Phase
phase_for false false = standby
phase_for true false = leader
phase_for false true = retired
phase_for true true = broken

abbrev pub settled : Option PgConnection → Bool
settled none = false
settled (some c) = elim c.state [ connecting ↦ false | _ ↦ true ]

abbrev pub is_asking : Option PgConnection → Bool
is_asking none = false
is_asking (some c) = elim c.state [ busy ↦ true | _ ↦ false ]

-- The part of a lock that its role depends on.
pub record View : Type 0 where
  pub effects : List Effect
  pub held : Bool
  pub inert : Bool
  pub conn : Option PgConnection
  pub asked : Ask

abbrev pub view : PgLeaderLock → View
view l = record {
  effects = l.effects;
  held = l.held;
  inert = l.inert;
  conn = l.conn;
  asked = l.asked;
}

-- The flags say in which phase the lock is; a leader has a session past its handshake; and the query
-- that is under way asks for the lock, or whether a leader still has it.
pub record Inv (v : View) : Type 0 where
  pub orderly : phase_of v.effects ≡ phase_for v.held v.inert
  pub apart : (v.held && v.inert) ≡ false
  pub session : v.held ≡ true → settled v.conn ≡ true
  pub asks :
      is_asking v.conn ≡ true → v.inert ≡ false → v.asked ≡ (if v.held then probe else try_lock)

-- A lock that is not inert, whatever its session.
pub record Active (v : View) : Type 0 where
  pub orderly : phase_of v.effects ≡ phase_for v.held v.inert
  pub active : v.inert ≡ false

pub phase_from-append :
    (p : Phase) (es : List Effect) (e : Effect)
    → phase_from p (es ++ (e ∷ [])) ≡ next (phase_from p es) e
unfolding phase_from
phase_from-append p [] e = refl
phase_from-append p (x ∷ es) e = phase_from-append (next p x) es e

unwatch-view : (fd : Option _) (l : PgLeaderLock) → view (unwatch fd l) ≡ view l
unwatch-view none l = refl
unwatch-view (some fd) l = refl

unwatch_conn-view : (c : Option PgConnection) (l : PgLeaderLock) → view (unwatch_conn c l) ≡ view l
unwatch_conn-view none l = refl
unwatch_conn-view (some c) l = unwatch-view c.fd l

abbrev pub with_effect : Effect → View → View
with_effect e v = record v { effects = v.effects ++ (e ∷ []) }

pub lose-view :
    (reason : Bytes) (l : PgLeaderLock)
    → view (lose reason l)
      ≡ with_effect (on_lost reason) (record (view l) { held = false; inert = true })
unfolding lose
lose-view reason l =
    ap (with_effect (on_lost reason))
      (unwatch_conn-view l.conn (record l { held = false; inert = true; timer = false }))

-- The end of a session, if there is one.
abbrev pub ended : Option PgConnection → View → View
ended none v = v
ended (some c) v = with_effect finish (record v { conn = none })

finish_conn-view :
    (c : Option PgConnection) (l : PgLeaderLock) → view (finish_conn c l) ≡ ended c (view l)
finish_conn-view none l = refl
finish_conn-view (some c) l =
    ap (λ (v : View). with_effect finish (record v { conn = none })) (unwatch-view c.fd l)

pub close-view :
    (l : PgLeaderLock) → view (close l) ≡ record (ended l.conn (view l)) { asked = nothing }
unfolding close
close-view l = ap (λ (v : View). record v { asked = nothing }) (finish_conn-view l.conn l)

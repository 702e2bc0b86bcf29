-- ===== src/PgPool/Counts/Dispatch.antt =====
-- The queue is dispatched, and execute() sends or queues: every query stays in one place.
use mathlib.Core.Path.{subst}
use libapostol.Prelude.{
  ℕ, ◌+◌, ◌≡◌, refl, sym, true, not, none, some, List, [], ◌∷◌, arith, if◌then◌else◌, by_test,
  by_option,
}
use libapostol.Pg.{failed}
use libapostol.PgPool.{PgQuery, Member, PgPool, member, note_whole, enqueue}
use libapostol.PgPool.Restoring.{try_reconnect}
use libapostol.PgPool.Queries.{
  Try, send_on, goes_out, in_flight, takes_queries, skip_canceled, send_front, put_back,
  dispatch_front, dispatch_queue,
}
use libapostol.PgPool.Counts.{member-key, is_query, is_repeatable_query}
use libapostol.Prelude.{total}
use libapostol.PgPool.Counts.Invariant.{Inv, enqueue-Inv}
use libapostol.PgPool.Counts.Sending.{
  sent-Inv, send_on-key, send_on-busy, idle-holds, takes-ready, reconnect-Inv, reconnect_same-Inv,
  skip_canceled-Inv,
}

pub enqueue-conns : (q : PgQuery) (p : PgPool) → (enqueue q p).conns ≡ p.conns
unfolding enqueue
enqueue-conns q p = ground arith

module _ (x : ℕ) where
  module _ (t : Try) (q : PgQuery) (c : Member) (p : PgPool) (there : member c.key p.conns ≡ some c)
      (takes : takes_queries c ≡ true) (h : Inv x (q ∷ []) p) where
    pub sends-Inv :
        goes_out t (send_on t.sending p.reset_count q c) ≡ true
        → Inv x [] (
            note_whole
              (not (send_on t.sending p.reset_count q c).0.link.needs_flush)
              q
              (in_flight q (send_on t.sending p.reset_count q c).0 p))
    sends-Inv goes =
        let out = send_on t.sending p.reset_count q c in
        sent-Inv x q c out.0 p
          (subst (λ (k : ℕ). member k p.conns ≡ some c)
            (sym (send_on-key t.sending p.reset_count q c)) there)
          (idle-holds x (q ∷ []) c p there (takes-ready x c takes) h)
          (send_on-busy t.sending p.reset_count q c (ground (arith, goes))) h

    pub put_back-Inv : Inv x [] (put_back t q (send_on t.sending p.reset_count q c).0 p)
    put_back-Inv =
        let out = send_on t.sending p.reset_count q c in
        reconnect-Inv x [] c (enqueue q p)
          (subst (λ (cs : List Member). member c.key cs ≡ some c) (sym (enqueue-conns q p)) there)
          takes (enqueue-Inv x q p h) t.reset
          (record (out.0) { current = none; link = record (out.0.link) { state = failed } })
          (send_on-key t.sending p.reset_count q c) refl

  send_front-Inv :
      (t : Try) (c : Member) (q : PgQuery) (qs : List PgQuery) (p : PgPool)
      → member c.key p.conns ≡ some c
      → takes_queries c ≡ true
      → Inv x (q ∷ []) (record p { queue = qs })
      → Inv x [] (send_front t c q qs p)
  unfolding send_front
  send_front-Inv t c q qs p there takes h =
      by_test (Inv x []) (goes_out t (send_on t.sending p.reset_count q c)) _ _
        (sends-Inv t q c (record p { queue = qs }) there takes h)
        (λ _. put_back-Inv t q c (record p { queue = qs }) there takes h)

  popped-Inv :
      (q : PgQuery) (qs : List PgQuery) (p : PgPool)
      → p.queue ≡ q ∷ qs
      → Inv x [] p
      → Inv x (q ∷ []) (record p { queue = qs })
  unfolding total
  popped-Inv q qs p e h =
      let counts : total (is_query x) p.queue ≡ is_query x q + total (is_query x) qs = rw e in
      let repeats : total (is_repeatable_query x) p.queue
          ≡ is_repeatable_query x q + total (is_repeatable_query x) qs =
        rw e in
      record {
        placed = omega (arith, h.placed, counts);
        owned = h.owned;
        idle = h.idle;
        once = omega (arith, h.once, counts);
        again = omega (arith, h.again, repeats);
        fresh = h.fresh;
        started = h.started;
      }

  dispatch_front-Inv :
      (t : Try) (c : Member) (p : PgPool)
      → member c.key p.conns ≡ some c
      → Inv x [] p
      → Inv x [] (dispatch_front t c p)
  unfolding dispatch_front
  dispatch_front-Inv t c p there h = go p.queue refl
    where
      go :
          (qs : List PgQuery)
          → p.queue ≡ qs
          → Inv x [] (elim qs [
            | [] ↦ p
            | q ∷ qs ↦
                if not (takes_queries c)
                then p
                else if not t.connected
                then (try_reconnect t.reset
                    (record c { link = record (c.link) { state = failed } })
                    p).0
                else send_front t c q qs p
          ])
      go [] e = h
      go (q ∷ qs) e =
          by_test (Inv x []) (not (takes_queries c)) _ _ (λ _. h)
            (λ takes.
              by_test (Inv x []) (not t.connected) _ _
                (λ _.
                  reconnect_same-Inv x [] c p there (ground (arith, takes)) h t.reset
                    (record (c.link) { state = failed }))
                (λ _.
                  send_front-Inv t c q qs p there (ground (arith, takes)) (popped-Inv q qs p e h)))

  pub found_there :
      (key : ℕ) (c : Member) (p : PgPool)
      → member key p.conns ≡ some c
      → member c.key p.conns ≡ some c
  found_there key c p e =
      subst (λ (k : ℕ). member k p.conns ≡ some c) (sym (member-key key c p.conns e)) e

  pub dispatch_queue-Inv :
      (t : Try) (key : ℕ) (p : PgPool) → Inv x [] p → Inv x [] (dispatch_queue t key p)
  unfolding dispatch_queue
  dispatch_queue-Inv t key p h =
      let skipped = skip_canceled-Inv x p h in
      by_option (Inv x []) (member key (skip_canceled p).conns) _ _ (λ _. skipped)
        (λ c e.
          dispatch_front-Inv t c (skip_canceled p) (found_there key c (skip_canceled p) e) skipped)

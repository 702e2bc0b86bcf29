-- ===== src/PgPool/Counts/Happening.antt =====
-- The events of a pool leave every query in one place.
use mathlib.Core.Path.{subst}
use libapostol.Prelude.{
  ℕ, ◌+◌, ◌≡◌, refl, sym, ◌==◌, Bool, not, ◌||◌, none, some, List, [], ◌∷◌, arith, if◌then◌else◌,
  by_test, by_option,
}
use libapostol.Pg.{PgResult, PgConnState, connecting, failed}
use libapostol.PgPool.{
  PgQuery, Member, Fate, delivered, errored, discarded, unheard, PgPool, member, set_member,
  take_query, ends,
}
use libapostol.PgPool.Losses.{freed, is_repeatable, fail_query, fail_inflight_query}
use libapostol.PgPool.Calls.{
  Call, executes, cancels, detaches, perform, perform_all, Deed, answer, run_handler, finish_query,
}
use libapostol.PgPool.Sockets.{Io, lose, is_in}
use libapostol.PgPool.Events.{lost_result, deliver_lost, check_member, end_cancel}
use libapostol.PgPool.Counts.{is_query, queries, holds_idle, is_one}
use libapostol.Prelude.{total, total-snoc}
use libapostol.PgPool.Counts.Invariant.{Inv, Free, put-Inv}
use libapostol.PgPool.Counts.Opened.{replace_connection-Inv, restore-Inv}
use libapostol.PgPool.Counts.Released.{
  holds-le, Loose-ends, Of, released-Loose, freed_alone, freed-Inv, freed-Free, Of-Free,
  fail_inflight_query-Inv,
}
use libapostol.PgPool.Counts.Dispatch.{enqueue-conns, dispatch_queue-Inv, found_there}
use libapostol.PgPool.Counts.Executing.{execute-Inv}
use libapostol.PgPool.Counts.Marks.{cancel-Inv, detach-Inv}

module _ (x : ℕ) where
  pub perform-Inv : (c : Call) (p : PgPool) → Inv x [] p → Inv x [] (perform c p)
  perform-Inv (executes tries a growth r) p h = execute-Inv x tries a growth r p h
  perform-Inv (cancels begun id) p h = cancel-Inv x begun id p h
  perform-Inv detaches p h = detach-Inv x p h

  perform_all-Inv : (cs : List Call) (p : PgPool) → Inv x [] p → Inv x [] (perform_all cs p)
  unfolding perform_all
  perform_all-Inv [] p h = h
  perform_all-Inv (c ∷ cs) p h = perform_all-Inv cs (perform c p) (perform-Inv c p h)

  run_handler-Inv :
      (q : PgQuery) (fate : Fate) (deed : Deed) (p : PgPool)
      → ((fate : Fate) → Inv x [] (ends q.id fate p))
      → Inv x [] (run_handler q fate deed p).0
  run_handler-Inv q fate deed p h =
      by_test (λ (out : PgPool × Bool). Inv x [] out.0) q.detached _ _ (λ _. h unheard)
        (λ _. perform_all-Inv deed.calls (ends q.id fate p) (h fate))

  pub finish_query-Inv :
      (rs : List PgResult) (deed : Deed) (b c : Member) (p : PgPool)
      → Of b c p
      → Inv x [] p
      → Inv x [] (finish_query rs deed c p).0
  unfolding finish_query
  finish_query-Inv rs deed b c p of h =
      let P : PgPool × Bool → Type 0 = λ out. Inv x [] out.0 in
      by_option P c.current _ _
        (λ e. freed-Inv x c p (Of-Free x b c p of (ground (arith, e, of.same))) h)
        (λ id e.
          by_option P (take_query id p.inflight).0 _ _
            (λ alone. freed-Inv x c p (Of-Free x b c p of (freed_alone x b c p of h id e alone)) h)
            (λ q found.
              let loose = released-Loose x b c p of h id q e found in
              by_test P q.canceled _ _ (λ _. Loose-ends x q _ loose discarded)
                (λ _. run_handler-Inv q (answer rs q) deed _ (Loose-ends x q _ loose))))

  fail_query-conns : (c : Member) (q : PgQuery) (p : PgPool) → (fail_query c q p).conns ≡ p.conns
  unfolding fail_query
  fail_query-conns c q p =
      let P : PgPool → Type 0 = λ r. r.conns ≡ p.conns in
      by_test P q.canceled _ _ (λ _. refl)
        (λ _.
          by_test P (c.link.needs_flush || is_repeatable q.retry) _ _ (λ _. enqueue-conns q p)
            (λ _. refl))

  fail_inflight_query-conns :
      (c : Member) (p : PgPool) → (fail_inflight_query c p).conns ≡ (freed c p).conns
  unfolding fail_inflight_query
  fail_inflight_query-conns c p =
      let P : PgPool → Type 0 = λ r. r.conns ≡ (freed c p).conns in
      by_option P c.current _ _ (λ _. refl)
        (λ id _.
          by_option P (take_query id p.inflight).0 _ _ (λ _. refl)
            (λ q _.
              fail_query-conns c q
                (record (freed c p) { inflight = (take_query id p.inflight).1 })))

  failed-Free : (c : Member) (p : PgPool) → Free x c.key (fail_inflight_query c p)
  failed-Free c p d there =
      freed-Free x c p d (
        subst (λ (cs : List Member). member c.key cs ≡ some d) (fail_inflight_query-conns c p)
          there)

  pub lose-Inv :
      (io : Io) (b c : Member) (p : PgPool)
      → Of b c p
      → c.link.needs_flush ≡ b.link.needs_flush
      → Inv x [] p
      → Inv x [] (lose io c p)
  lose-Inv io b c p of flushes h =
      restore-Inv x [] io.reset io.opens (record c { current = none }) (fail_inflight_query c p)
        (failed-Free c p) refl (fail_inflight_query-Inv x b c p of flushes h)

  lost-ends :
      (q : PgQuery) (qs : List PgQuery) (p : PgPool)
      → p.lost ≡ q ∷ qs
      → Inv x [] p
      → (fate : Fate) → Inv x [] (ends q.id fate (record p { lost = qs }))
  unfolding total
  lost-ends q qs p e h fate =
      let counts : queries x p.lost ≡ is_query x q + queries x qs = rw e in
      let told = total-snoc (λ (e : ℕ × Fate). is_one e.0 x) p.fates (q.id, fate) in
      record {
        placed = omega (arith, h.placed, counts, told);
        owned = h.owned;
        idle = h.idle;
        once = h.once;
        again = h.again;
        fresh = h.fresh;
        started = h.started;
      }

  pub deliver_lost-Inv :
      (deeds : List Deed) (p : PgPool) → Inv x [] p → Inv x [] (deliver_lost deeds p)
  unfolding deliver_lost
  deliver_lost-Inv [] p h = h
  deliver_lost-Inv (deed ∷ deeds) p h = go (deliver_lost-Inv deeds) p.lost refl
    where
      go :
          ((p : PgPool) → Inv x [] p → Inv x [] (deliver_lost deeds p))
          → (qs : List PgQuery) → p.lost ≡ qs
          → Inv x [] (elim qs [
            | [] ↦ p
            | q ∷ qs ↦
                let next : PgPool = record p { lost = qs } in
                let told =
                  run_handler q
                    (if q.has_exception_handler then errored else delivered (lost_result ∷ []))
                    deed
                    next in
                let skipped = deliver_lost deeds (ends q.id discarded next) in
                let rest = deliver_lost deeds told.0 in
                if q.canceled then skipped else if told.1 then rest else told.0
          ])
      go rest [] e = h
      go rest (q ∷ qs) e =
          let end = lost-ends q qs p e h in
          let next : PgPool = record p { lost = qs } in
          let fate = if q.has_exception_handler then errored else delivered (lost_result ∷ []) in
          let told = run_handler-Inv q fate deed next end in
          by_test (Inv x []) q.canceled _ _ (λ _. rest _ (end discarded))
            (λ _.
              by_test (Inv x []) (run_handler q fate deed next).1 _ _ (λ _. rest _ told)
                (λ _. told))

  -- A connection whose link is as busy and as full as before.
  pub same-Inv :
      (c d : Member) (p : PgPool)
      → member c.key p.conns ≡ some c
      → d.key ≡ c.key
      → d.current ≡ c.current
      → d.link.state ≡ c.link.state
      → d.link.needs_flush ≡ c.link.needs_flush
      → Inv x [] p
      → Inv x [] (set_member d p)
  same-Inv c d p there key current state flushes h =
      let idle : holds_idle x d ≡ holds_idle x c = ground (arith, current, state) in
      put-Inv x [] c d p (subst (λ (k : ℕ). member k p.conns ≡ some c) (sym key) there)
        (ground (arith, current)) (ground (arith, current, flushes))
        (omega (arith, idle, h.idle, holds-le x c.key c p.conns there (holds_idle x))) h

  pub has-Of : (key : ℕ) (c : Member) (p : PgPool) → member key p.conns ≡ some c → Of c c p
  has-Of key c p e = record { there = found_there x key c p e; same = refl }

  alive-Inv :
      (io : Io) (c : Member) (p : PgPool) (s : PgConnState)
      → Inv x [] p
      → Inv x [] (lose io c p)
      → Inv x [] (elim s [ connecting ↦ p | _ ↦ if io.alive then p else lose io c p ])
  alive-Inv io c p connecting h k = h
  alive-Inv io c p _ h k = by_test (Inv x []) io.alive _ _ (λ _. h) (λ _. k)

  pub check_member-Inv :
      (io : Io) (key : ℕ) (p : PgPool) → Inv x [] p → Inv x [] (check_member io key p)
  unfolding check_member
  check_member-Inv io key p h =
      by_option (Inv x []) (member key p.conns) _ _ (λ _. h)
        (λ c e.
          by_test (Inv x []) (is_in c.link.state failed) _ _
            (λ _.
              replace_connection-Inv x [] io.opens c (fail_inflight_query c p) (failed-Free c p)
                (fail_inflight_query-Inv x c c p (has-Of key c p e) refl h))
            (λ _. alive-Inv io c p c.link.state h (lose-Inv io c c p (has-Of key c p e) refl h)))

  pub end_cancel-Inv :
      (may_arrive : Bool) (io : Io) (id key : ℕ) (p : PgPool)
      → Inv x [] p
      → Inv x [] (end_cancel may_arrive io id key p)
  unfolding end_cancel
  end_cancel-Inv may_arrive io id key p h =
      by_option (Inv x []) (member key p.conns) _ _ (λ _. h)
        (λ c e.
          by_option (Inv x []) c.cancel_pending _ _ (λ _. h)
            (λ k _.
              by_test (Inv x []) (not (k == id)) _ _ (λ _. h)
                (λ _.
                  by_test (Inv x []) may_arrive _ _
                    (λ _. lose-Inv io c c p (has-Of key c p e) refl h)
                    (λ _. dispatch_queue-Inv x io.next key _ (
                      same-Inv c (record c { cancel_pending = none }) p (found_there x key c p e)
                        refl refl refl refl h)))))

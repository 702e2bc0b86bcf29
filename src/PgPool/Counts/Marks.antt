-- ===== src/PgPool/Counts/Marks.antt =====
-- cancel() and detach() leave every query in one place.
use libapostol.Prelude.{ℕ, ◌≡◌, refl, ◌==◌, Bool, List, [], ◌∷◌, arith, map, any, by_test}
use libapostol.PgPool.{PgQuery, Member, PgPool}
use libapostol.PgPool.Losses.{
  mark_canceled, runs, asks_cancel, has_query, cancel, detach_all, detach,
}
use libapostol.PgPool.Counts.{queries, repeatable, holds, holds_unsent, holds_idle}
use libapostol.Prelude.{total}
use libapostol.PgPool.Counts.Invariant.{Inv}

module _ (x : ℕ) where
  -- Marks on queries and connections move nothing.
  mark_canceled-total :
      (id : ℕ) (qs : List PgQuery)
      → (queries x (mark_canceled id qs) ≡ queries x qs)
        × (repeatable x (mark_canceled id qs) ≡ repeatable x qs)
  unfolding total mark_canceled
  mark_canceled-total id [] = (refl, refl)
  mark_canceled-total id (q ∷ qs) =
      let (same, repeats) = mark_canceled-total id qs in
      (ground (arith, same), ground (arith, repeats))

  detach_all-total :
      (qs : List PgQuery)
      → (queries x (detach_all qs) ≡ queries x qs)
        × (repeatable x (detach_all qs) ≡ repeatable x qs)
  unfolding total detach_all
  detach_all-total [] = (refl, refl)
  detach_all-total (q ∷ qs) =
      let (same, repeats) = detach_all-total qs in (omega (arith, same), omega (arith, repeats))

  pub detach-Inv : (p : PgPool) → Inv x [] p → Inv x [] (detach p)
  unfolding detach
  detach-Inv p h =
      let (queued, queued_again) = detach_all-total p.queue in
      let (flying, flying_again) = detach_all-total p.inflight in
      record {
        placed = omega (arith, h.placed, queued, flying, (detach_all-total p.lost).0);
        owned = omega (arith, h.owned, flying);
        idle = h.idle;
        once = omega (arith, h.once, queued);
        again = omega (arith, h.again, queued_again, flying_again);
        fresh = h.fresh;
        started = h.started;
      }

  asks_cancel-total :
      (id : ℕ) (f : Member → ℕ)
      → ((c : Member) → f (asks_cancel id c) ≡ f c)
      → (cs : List Member) → total f (map (asks_cancel id) cs) ≡ total f cs
  unfolding total
  asks_cancel-total id f same [] = refl
  asks_cancel-total id f same (c ∷ cs) = omega (arith, same c, asks_cancel-total id f same cs)

  asked-Inv :
      (id : ℕ) (p : PgPool)
      → Inv x [] p
      → Inv x [] (record p { conns = map (asks_cancel id) p.conns })
  asked-Inv id p h =
      let held = asks_cancel-total id (holds x) (λ c. ground arith) p.conns in
      let unsents = asks_cancel-total id (holds_unsent x) (λ c. ground arith) p.conns in
      let idles = asks_cancel-total id (holds_idle x) (λ c. ground arith) p.conns in
      record {
        placed = h.placed;
        owned = omega (arith, h.owned, held);
        idle = omega (arith, h.idle, idles);
        once = omega (arith, h.once, unsents);
        again = h.again;
        fresh = h.fresh;
        started = h.started;
      }

  marked-Inv :
      (id : ℕ) (p : PgPool)
      → Inv x [] p
      → Inv x [] (record p { inflight = mark_canceled id p.inflight })
  marked-Inv id p h =
      let (same, repeats) = mark_canceled-total id p.inflight in
      record {
        placed = omega (arith, h.placed, same);
        owned = omega (arith, h.owned, same);
        idle = h.idle;
        once = h.once;
        again = omega (arith, h.again, repeats);
        fresh = h.fresh;
        started = h.started;
      }

  marked_lost-Inv :
      (id : ℕ) (p : PgPool) → Inv x [] p → Inv x [] (record p { lost = mark_canceled id p.lost })
  marked_lost-Inv id p h = record {
    placed = omega (arith, h.placed, (mark_canceled-total id p.lost).0);
    owned = h.owned;
    idle = h.idle;
    once = h.once;
    again = h.again;
    fresh = h.fresh;
    started = h.started;
  }

  pub cancel-Inv : (begun : Bool) (id : ℕ) (p : PgPool) → Inv x [] p → Inv x [] (cancel begun id p)
  unfolding cancel
  cancel-Inv begun id p h =
      let marked = marked-Inv id p h in
      by_test (Inv x []) (id == 0) _ _ (λ _. h)
        (λ _.
          by_test (Inv x []) (any (runs id) p.conns) _ _
            (λ _.
              by_test
                (λ (cs : List Member).
                  Inv x [] (record p { inflight = mark_canceled id p.inflight; conns = cs }))
                begun _ _
                (λ _. asked-Inv id (record p { inflight = mark_canceled id p.inflight }) marked)
                (λ _. marked))
            (λ _.
              by_test (Inv x []) (has_query id p.lost) _ _ (λ _. marked_lost-Inv id p h) (λ _. h)))

-- ===== src/PgPool/Counts/Invariant.antt =====
-- Every number that a query has taken is in one place, and the moves of queries between the places.
use mathlib.Core.Path.{subst}
use libapostol.Prelude.{
  ℕ, ◌+◌, ◌≤◌, ◌≡◌, sym, ◌∙◌, not, ◌&&◌, some, List, [], ◌∷◌, ◌++◌, arith, Bool-cases, Option-cases,
  inl, inr,
}
use libapostol.PgPool.{
  PgQuery, Member, Fate, PgPool, member, drop_member, set_member, ends, enqueue,
}
use libapostol.PgPool.Counts.{
  total-put_member, total-drop_member, put_member-none, drop_member-none, before_detached-total,
  is_one, is_query, queries, is_repeatable_query, repeatable, holds, holds_unsent, holds_idle,
  ended, times, issued,
}
use libapostol.Prelude.{total, total-snoc}

-- `moving` are queries that an operation has in its hands. A query is in the queue, in flight, lost or
-- ended; those in flight are on connections, which are busy; and one that must not be repeated has not
-- gone out whole while it waits, and not twice.
pub record Placed (x : ℕ) (moving queue inflight lost : List PgQuery) (fates : List (ℕ × Fate))
    (next_id : ℕ) (conns : List Member) (gone_out : List ℕ) : Type 0 where
  pub placed :
      queries x moving + queries x queue + queries x inflight + queries x lost + ended x fates
      ≡ issued x next_id
  pub owned : queries x inflight ≡ total (holds x) conns
  pub idle : total (holds_idle x) conns ≡ 0
  pub once :
      times x gone_out + queries x moving + queries x queue + total (holds_unsent x) conns ≤ 1
  pub again :
      times x gone_out + repeatable x moving + repeatable x queue + repeatable x inflight ≤ 1
  pub fresh : times x gone_out ≤ issued x next_id
  pub started : 1 ≤ next_id

abbrev pub Inv : ℕ → List PgQuery → PgPool → Type 0
Inv x moving p = Placed x moving p.queue p.inflight p.lost p.fates p.next_id p.conns p.gone_out

module _ (x : ℕ) where
  pub enqueue-Inv : (q : PgQuery) (p : PgPool) → Inv x (q ∷ []) p → Inv x [] (enqueue q p)
  unfolding total enqueue
  enqueue-Inv q p h = elim (Bool-cases (p.detached && not q.detached)) [
    | inl first ↦ simp first (record {
      placed = ground (arith, h.placed, before_detached-total (is_query x) q p.queue);
      owned = h.owned;
      idle = h.idle;
      once = ground (arith, h.once, before_detached-total (is_query x) q p.queue);
      again = ground (arith, h.again, before_detached-total (is_repeatable_query x) q p.queue);
      fresh = h.fresh;
      started = h.started;
    })
    | inr last ↦ simp last (record {
      placed = ground (arith, h.placed, total-snoc (is_query x) p.queue q);
      owned = h.owned;
      idle = h.idle;
      once = ground (arith, h.once, total-snoc (is_query x) p.queue q);
      again = ground (arith, h.again, total-snoc (is_repeatable_query x) p.queue q);
      fresh = h.fresh;
      started = h.started;
    })
  ]

  pub ends-Inv :
      (q : PgQuery) (fate : Fate) (p : PgPool) → Inv x (q ∷ []) p → Inv x [] (ends q.id fate p)
  unfolding total
  ends-Inv q fate p h = record {
    placed =
        ground (arith, h.placed, total-snoc (λ (e : ℕ × Fate). is_one e.0 x) p.fates (q.id, fate));
    owned = h.owned;
    idle = h.idle;
    once = ground (arith, h.once);
    again = ground (arith, h.again);
    fresh = h.fresh;
    started = h.started;
  }

  pub loses-Inv :
      (q : PgQuery) (p : PgPool)
      → Inv x (q ∷ []) p
      → Inv x [] (record p { lost = p.lost ++ (q ∷ []) })
  unfolding total
  loses-Inv q p h = record {
    placed = ground (arith, h.placed, total-snoc (is_query x) p.lost q);
    owned = h.owned;
    idle = h.idle;
    once = ground (arith, h.once);
    again = ground (arith, h.again);
    fresh = h.fresh;
    started = h.started;
  }

  -- Another connection under the key of one.
  pub put-Inv :
      (moving : List PgQuery) (c d : Member) (p : PgPool)
      → member d.key p.conns ≡ some c
      → holds x d ≡ holds x c
      → holds_unsent x d ≤ holds_unsent x c
      → holds_idle x d ≡ 0
      → Inv x moving p
      → Inv x moving (set_member d p)
  put-Inv moving c d p there same unsent idle h =
      let held = total-put_member (holds x) d.key c d p.conns there in
      let unsents = total-put_member (holds_unsent x) d.key c d p.conns there in
      let idles = total-put_member (holds_idle x) d.key c d p.conns there in
      record {
        placed = h.placed;
        owned = omega (arith, h.owned, held, same);
        idle = omega (arith, h.idle, idles, idle);
        once = omega (arith, h.once, unsents, unsent);
        again = h.again;
        fresh = h.fresh;
        started = h.started;
      }

  -- No connection of a key has a query.
  abbrev pub Free : ℕ → PgPool → Type 0
  Free key p = (c : Member) → member key p.conns ≡ some c → holds x c ≡ 0

  holds-none :
      (d : Member) → holds x d ≡ 0 → (holds x d ≡ 0) × (holds_unsent x d ≡ 0) × (holds_idle x d ≡ 0)
  holds-none d e = (e, ground (arith, e), ground (arith, e))

  pub put-Free-Inv :
      (moving : List PgQuery) (d : Member) (p : PgPool)
      → Free d.key p
      → holds x d ≡ 0
      → Inv x moving p
      → Inv x moving (set_member d p)
  put-Free-Inv moving d p free e h =
      let (no_hold, no_unsent, no_idle) = holds-none d e in
      elim (Option-cases (member d.key p.conns)) [
        | inl no_one ↦
            subst (λ (cs : List Member). Inv x moving (record p { conns = cs }))
              (sym (put_member-none d.key d p.conns no_one)) h
        | inr (c, there) ↦
            put-Inv moving c d p there (no_hold ∙ sym (free c there)) (omega (arith, no_unsent))
              no_idle h
      ]

  pub drop-Free-Inv :
      (moving : List PgQuery) (key : ℕ) (p : PgPool)
      → Free key p
      → Inv x moving p
      → Inv x moving (record p { conns = drop_member key p.conns })
  drop-Free-Inv moving key p free h = elim (Option-cases (member key p.conns)) [
    | inl no_one ↦
        subst (λ (cs : List Member). Inv x moving (record p { conns = cs }))
          (sym (drop_member-none key p.conns no_one)) h
    | inr (c, there) ↦
        let held = total-drop_member (holds x) key c p.conns there in
        let unsents = total-drop_member (holds_unsent x) key c p.conns there in
        let idles = total-drop_member (holds_idle x) key c p.conns there in
        record {
          placed = h.placed;
          owned = omega (arith, h.owned, held, free c there);
          idle = omega (arith, h.idle, idles);
          once = omega (arith, h.once, unsents);
          again = h.again;
          fresh = h.fresh;
          started = h.started;
        }
  ]

  pub append_free-Inv :
      (moving : List PgQuery) (d : Member) (p : PgPool)
      → holds x d ≡ 0
      → Inv x moving p
      → Inv x moving (record p { conns = p.conns ++ (d ∷ []) })
  append_free-Inv moving d p e h =
      let (no_hold, no_unsent, no_idle) = holds-none d e in
      record {
        placed = h.placed;
        owned = omega (arith, h.owned, total-snoc (holds x) p.conns d, no_hold);
        idle = omega (arith, h.idle, total-snoc (holds_idle x) p.conns d, no_idle);
        once = omega (arith, h.once, total-snoc (holds_unsent x) p.conns d, no_unsent);
        again = h.again;
        fresh = h.fresh;
        started = h.started;
      }

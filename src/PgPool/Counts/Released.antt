-- ===== src/PgPool/Counts/Released.antt =====
-- A query that is taken off its connection, and where it goes then.
use mathlib.Core.Path.{subst}
use libapostol.Prelude.{
  ℕ, ◌+◌, ◌≤◌, ◌≡◌, refl, sym, ◌∙◌, ◌==◌, true, ◌||◌, none, some, List, [], ◌∷◌, ◌++◌, arith,
  by_test, by_option, Bool-cases, Option-cases, inl, inr,
}
use libapostol.PgPool.{PgQuery, Member, Fate, discarded, PgPool, member, take_query, ends}
use libapostol.PgPool.Losses.{freed, is_repeatable, fail_query, fail_inflight_query}
use libapostol.PgPool.Counts.{
  total-put_member, put_member-none, member-put_member, take_query-some, is_one, is_query, queries,
  is_repeatable_query, repeatable, holds, holds_unsent, holds_idle, ended, times, issued,
  unsent-le-held,
}
use libapostol.Prelude.{total, total-snoc}
use libapostol.PgPool.Counts.Invariant.{Inv, Free, enqueue-Inv, put-Free-Inv}

-- The query is in nobody's hands but the operation's, and may have gone out whole.
pub record Loose (x : ℕ) (q : PgQuery) (p : PgPool) : Type 0 where
  pub placed :
      is_query x q + queries x p.queue + queries x p.inflight + queries x p.lost + ended x p.fates
      ≡ issued x p.next_id
  pub owned : queries x p.inflight ≡ total (holds x) p.conns
  pub idle : total (holds_idle x) p.conns ≡ 0
  pub once : times x p.gone_out + queries x p.queue + total (holds_unsent x) p.conns ≤ 1
  pub again :
      times x p.gone_out + is_repeatable_query x q + repeatable x p.queue + repeatable x p.inflight
      ≤ 1
  pub fresh : times x p.gone_out ≤ issued x p.next_id
  pub started : 1 ≤ p.next_id

module _ (x : ℕ) (q : PgQuery) (p : PgPool) (h : Loose x q p) where
  pub Loose-ends : (fate : Fate) → Inv x [] (ends q.id fate p)
  unfolding total
  Loose-ends fate = record {
    placed =
        ground (arith, h.placed, total-snoc (λ (e : ℕ × Fate). is_one e.0 x) p.fates (q.id, fate));
    owned = h.owned;
    idle = h.idle;
    once = omega (arith, h.once);
    again = omega (arith, h.again);
    fresh = h.fresh;
    started = h.started;
  }

  pub Loose-lost : Inv x [] (record p { lost = p.lost ++ (q ∷ []) })
  unfolding total
  Loose-lost = record {
    placed = omega (arith, h.placed, total-snoc (is_query x) p.lost q);
    owned = h.owned;
    idle = h.idle;
    once = omega (arith, h.once);
    again = omega (arith, h.again);
    fresh = h.fresh;
    started = h.started;
  }

  -- It has not gone out whole.
  pub Loose-unsent :
      times x p.gone_out + is_query x q + queries x p.queue + total (holds_unsent x) p.conns ≤ 1
      → Inv x (q ∷ []) p
  unfolding total
  Loose-unsent once = record {
    placed = omega (arith, h.placed);
    owned = h.owned;
    idle = h.idle;
    once = omega arith;
    again = omega (arith, h.again);
    fresh = h.fresh;
    started = h.started;
  }

  Loose-repeated : is_repeatable q.retry ≡ true → is_query x q ≡ is_repeatable_query x q
  Loose-repeated e = ground (arith, e)

  issued_le : issued x p.next_id ≤ 1
  issued_le = ground arith

  pub Loose-again : is_repeatable q.retry ≡ true → Inv x (q ∷ []) p
  Loose-again e = Loose-unsent (
      omega (
        arith,
        h.placed,
        h.owned,
        h.once,
        h.again,
        Loose-repeated e,
        issued_le,
        unsent-le-held x p.conns,
      ))

take_query-none : (id : ℕ) (qs : List PgQuery) → (take_query id qs).0 ≡ none → queries id qs ≡ 0
unfolding total take_query
take_query-none id [] h = refl
take_query-none id (x ∷ qs) h = elim (Bool-cases (x.id == id)) [
  | inl found ↦ absurd (ground (arith, h, found))
  | inr other ↦ ground (arith, other, take_query-none id qs (ground (arith, h, other)))
]

pub holds-le :
    (x : ℕ) (key : ℕ) (c : Member) (cs : List Member)
    → member key cs ≡ some c
    → (f : Member → ℕ) → f c ≤ total f cs
unfolding total member
holds-le x key c [] h f = cc h
holds-le x key c (b ∷ cs) h f = elim (Bool-cases (b.key == key)) [
  | inl found ↦ ground (arith, h, found)
  | inr other ↦ omega (arith, holds-le x key c cs (ground (arith, h, other)) f)
]

-- The connection `c` is the one of its key, changed in its link alone.
pub record Of (b c : Member) (p : PgPool) : Type 0 where
  pub there : member c.key p.conns ≡ some b
  pub same : c.current ≡ b.current

module _ (x : ℕ) (b c : Member) (p : PgPool) (of : Of b c p) (h : Inv x [] p) where
  held_by : (id : ℕ) → c.current ≡ some id → holds x b ≡ is_one id x
  held_by id e = ground (arith, e, of.same)

  module _ (id : ℕ) (q : PgQuery) (e : c.current ≡ some id)
      (found : (take_query id p.inflight).0 ≡ some q) where
    taken : is_query x q ≡ holds x b
    taken = ground (arith, (take_query-some (is_query x) id q p.inflight found).0, held_by id e)

    pub released-Loose : Loose x q (record (freed c p) { inflight = (take_query id p.inflight).1 })
    unfolding total
    released-Loose =
        let freed_c : Member = record c { current = none } in
        let (_, counts) = take_query-some (is_query x) id q p.inflight found in
        let (_, repeats) = take_query-some (is_repeatable_query x) id q p.inflight found in
        let held = total-put_member (holds x) c.key b freed_c p.conns of.there in
        let unsents = total-put_member (holds_unsent x) c.key b freed_c p.conns of.there in
        let idles = total-put_member (holds_idle x) c.key b freed_c p.conns of.there in
        let no_hold : holds x freed_c ≡ 0 = refl in
        let no_unsent : holds_unsent x freed_c ≡ 0 = ground arith in
        let no_idle : holds_idle x freed_c ≡ 0 = ground arith in
        record {
          placed = omega (arith, h.placed, counts);
          owned = omega (arith, h.owned, counts, held, taken, no_hold);
          idle = omega (arith, h.idle, idles, no_idle);
          once = omega (arith, h.once, unsents, no_unsent);
          again = omega (arith, h.again, repeats);
          fresh = h.fresh;
          started = h.started;
        }

    -- While a part of it has not gone out, it counts as not sent.
    pub released-unsent :
        c.link.needs_flush ≡ true
        → b.link.needs_flush ≡ true
        → Inv x (q ∷ []) (record (freed c p) { inflight = (take_query id p.inflight).1 })
    unfolding total
    released-unsent flushes unsent =
        let freed_c : Member = record c { current = none } in
        let unsents = total-put_member (holds_unsent x) c.key b freed_c p.conns of.there in
        let no_unsent : holds_unsent x freed_c ≡ 0 = ground arith in
        let was : holds_unsent x b ≡ holds x b = ground (arith, unsent) in
        Loose-unsent x q _ released-Loose (omega (arith, h.once, unsents, no_unsent, was, taken))

  -- There is none that it could hold.
  pub freed_alone :
      (id : ℕ) → c.current ≡ some id → (take_query id p.inflight).0 ≡ none → holds x b ≡ 0
  freed_alone id e none_found = elim (Bool-cases (id == x)) [
    | inr other ↦ ground (arith, held_by id e, other)
    | inl found ↦
        let empty = take_query-none id p.inflight none_found in
        let same : queries x p.inflight ≡ 0 =
          subst (λ (k : ℕ). queries k p.inflight ≡ 0) (ground (arith, found)) empty in
        omega (arith, h.owned, same, holds-le x c.key b p.conns of.there (holds x))
  ]

pub freed-Free : (x : ℕ) (c : Member) (p : PgPool) → Free x c.key (freed c p)
freed-Free x c p d there = elim (Option-cases (member c.key p.conns)) [
  | inl no_one ↦ absurd (
      ground
        (arith, put_member-none c.key (record c { current = none }) p.conns no_one, no_one, there))
  | inr (b, was) ↦
      ground
        (arith, member-put_member c.key b (record c { current = none }) p.conns was refl, there)
]

module _ (x : ℕ) where
  pub freed-Inv : (c : Member) (p : PgPool) → Free x c.key p → Inv x [] p → Inv x [] (freed c p)
  freed-Inv c p free h = put-Free-Inv x [] (record c { current = none }) p free refl h

  pub Of-Free : (b c : Member) (p : PgPool) → Of b c p → holds x b ≡ 0 → Free x c.key p
  Of-Free b c p of e d there = ground (arith, of.there, there, e)

  fail_query-Inv :
      (b c : Member) (p : PgPool) (of : Of b c p)
      → c.link.needs_flush ≡ b.link.needs_flush
      → Inv x [] p
      → (id : ℕ) (q : PgQuery) → c.current ≡ some id
      → (take_query id p.inflight).0 ≡ some q
      → Inv x [] (fail_query c q (record (freed c p) { inflight = (take_query id p.inflight).1 }))
  unfolding fail_query
  fail_query-Inv b c p of flushes h id q e found =
      let loose = released-Loose x b c p of h id q e found in
      by_test (Inv x []) q.canceled _ _ (λ _. Loose-ends x q _ loose discarded)
        (λ _.
          by_test (Inv x []) (c.link.needs_flush || is_repeatable q.retry) _ _
            (λ again. enqueue-Inv x q _ (elim (Bool-cases c.link.needs_flush) [
              | inl unsent ↦ released-unsent x b c p of h id q e found unsent (sym flushes ∙ unsent)
              | inr whole ↦ Loose-again x q _ loose (ground (arith, again, whole))
            ]))
            (λ _. Loose-lost x q _ loose))

  pub fail_inflight_query-Inv :
      (b c : Member) (p : PgPool) (of : Of b c p)
      → c.link.needs_flush ≡ b.link.needs_flush
      → Inv x [] p
      → Inv x [] (fail_inflight_query c p)
  unfolding fail_inflight_query
  fail_inflight_query-Inv b c p of flushes h =
      by_option (Inv x []) c.current _ _
        (λ e. freed-Inv c p (Of-Free b c p of (ground (arith, e, of.same))) h)
        (λ id e.
          by_option (Inv x []) (take_query id p.inflight).0 _ _
            (λ alone. freed-Inv c p (Of-Free b c p of (freed_alone x b c p of h id e alone)) h)
            (λ q found. fail_query-Inv b c p of flushes h id q e found))

-- ===== src/PgPool/Counts.antt =====
-- Where the queries of a number are, and what they take with them.
pub mod Invariant
pub mod Opened
pub mod Released
pub mod Sending
pub mod Dispatch
pub mod Executing
pub mod Marks
pub mod Happening
pub mod Io
pub mod Flushing
pub mod Runs
use libapostol.Prelude.{
  total, ℕ, suc, ◌+◌, ◌≤◌, ◌≡◌, refl, ap, sym, ◌∙◌, leb, ltb, ◌==◌, Bool, true, false, ◌&&◌, Option,
  none, some, List, [], ◌∷◌, ◌++◌, arith, if◌then◌else◌, Bool-cases, inl, inr,
}
use libapostol.Pg.{PgConnState, busy}
use libapostol.PgPool.{
  PgRetry, never, if_lost, PgQuery, Member, Fate, PgPool, member, put_member, drop_member,
  take_query, before_detached,
}

module _ (f : Member → ℕ) where
  pub total-put_member :
      (key : ℕ) (c d : Member) (cs : List Member)
      → member key cs ≡ some c
      → total f (put_member key d cs) + f c ≡ total f cs + f d
  unfolding total member put_member
  total-put_member key c d [] h = cc h
  total-put_member key c d (x ∷ cs) h = elim (Bool-cases (x.key == key)) [
    | inl found ↦ ground (arith, h, found)
    | inr other ↦ ground (arith, other, total-put_member key c d cs (ground (arith, h, other)))
  ]

  pub total-drop_member :
      (key : ℕ) (c : Member) (cs : List Member)
      → member key cs ≡ some c
      → total f (drop_member key cs) + f c ≡ total f cs
  unfolding total member drop_member
  total-drop_member key c [] h = cc h
  total-drop_member key c (x ∷ cs) h = elim (Bool-cases (x.key == key)) [
    | inl found ↦ ground (arith, h, found)
    | inr other ↦ ground (arith, other, total-drop_member key c cs (ground (arith, h, other)))
  ]

pub put_member-none :
    (key : ℕ) (d : Member) (cs : List Member) → member key cs ≡ none → put_member key d cs ≡ cs
unfolding member put_member
put_member-none key d [] h = refl
put_member-none key d (x ∷ cs) h = elim (Bool-cases (x.key == key)) [
  | inl found ↦ absurd (ground (arith, h, found))
  | inr other ↦
      rw other
        (ap (λ (xs : List Member). x ∷ xs) (put_member-none key d cs (ground (arith, h, other))))
]

pub drop_member-none : (key : ℕ) (cs : List Member) → member key cs ≡ none → drop_member key cs ≡ cs
unfolding member drop_member
drop_member-none key [] h = refl
drop_member-none key (x ∷ cs) h = elim (Bool-cases (x.key == key)) [
  | inl found ↦ absurd (ground (arith, h, found))
  | inr other ↦
      rw other
        (ap (λ (xs : List Member). x ∷ xs) (drop_member-none key cs (ground (arith, h, other))))
]

pub member-key : (key : ℕ) (c : Member) (cs : List Member) → member key cs ≡ some c → c.key ≡ key
unfolding member
member-key key c [] h = cc h
member-key key c (x ∷ cs) h = elim (Bool-cases (x.key == key)) [
  | inl found ↦ ground (arith, h, found)
  | inr other ↦ member-key key c cs (ground (arith, h, other))
]

pub member-put_member :
    (key : ℕ) (c d : Member) (cs : List Member)
    → member key cs ≡ some c
    → d.key ≡ key
    → member key (put_member key d cs) ≡ some d
unfolding member put_member
member-put_member key c d [] h e = cc h
member-put_member key c d (x ∷ cs) h e = elim (Bool-cases (x.key == key)) [
  | inl found ↦ ground (arith, found, e)
  | inr other ↦ ground (arith, other, member-put_member key c d cs (ground (arith, h, other)) e)
]

pub take_query-some :
    (f : PgQuery → ℕ) (id : ℕ) (q : PgQuery) (qs : List PgQuery)
    → (take_query id qs).0 ≡ some q
    → (q.id ≡ id) × (f q + total f (take_query id qs).1 ≡ total f qs)
unfolding total take_query
take_query-some f id q [] h = cc h
take_query-some f id q (x ∷ qs) h = elim (Bool-cases (x.id == id)) [
  | inl found ↦ (ground (arith, h, found), ground (arith, h, found))
  | inr other ↦
      (let (same, counts) = take_query-some f id q qs (ground (arith, h, other)) in
        (same, ground (arith, other, counts)))
]

pub before_detached-total :
    (f : PgQuery → ℕ) (q : PgQuery) (qs : List PgQuery)
    → total f (before_detached q qs) ≡ f q + total f qs
unfolding total before_detached
before_detached-total f q [] = refl
before_detached-total f q (x ∷ qs) = elim (Bool-cases x.detached) [
  | inl found ↦ rw found (omega arith)
  | inr other ↦ rw other (omega (arith, before_detached-total f q qs))
]

-- One if two numbers are the same.
abbrev pub is_one : ℕ → ℕ → ℕ
is_one a x = if a == x then 1 else 0

abbrev pub is_query : ℕ → PgQuery → ℕ
is_query x q = is_one q.id x

abbrev pub queries : ℕ → List PgQuery → ℕ
queries x qs = total (is_query x) qs

-- A query that may be sent again when it was lost.
abbrev pub is_repeatable_query : ℕ → PgQuery → ℕ
is_repeatable_query x q = elim q.retry [ never ↦ 0 | if_lost ↦ is_one q.id x ]

abbrev pub repeatable : ℕ → List PgQuery → ℕ
repeatable x qs = total (is_repeatable_query x) qs

abbrev pub holds : ℕ → Member → ℕ
holds x c = elim c.current [ none ↦ 0 | some id ↦ is_one id x ]

-- A query that is not out whole.
abbrev pub holds_unsent : ℕ → Member → ℕ
holds_unsent x c = if c.link.needs_flush then holds x c else 0

-- A query on a connection that is not busy.
abbrev pub holds_idle : ℕ → Member → ℕ
holds_idle x c = elim c.link.state [ busy ↦ 0 | _ ↦ holds x c ]

abbrev pub ended : ℕ → List (ℕ × Fate) → ℕ
ended x fates = total (λ (e : ℕ × Fate). is_one e.0 x) fates

abbrev pub times : ℕ → List ℕ → ℕ
times x ids = total (λ (id : ℕ). is_one id x) ids

-- A number that a query has taken.
abbrev pub issued : ℕ → ℕ → ℕ
issued x next_id = if leb 1 x && ltb x next_id then 1 else 0

pub repeatable-le-queries : (x : ℕ) (qs : List PgQuery) → repeatable x qs ≤ queries x qs
unfolding total
repeatable-le-queries x [] = omega arith
repeatable-le-queries x (q ∷ qs) = ground (arith, repeatable-le-queries x qs)

pub unsent-le-held : (x : ℕ) (cs : List Member) → total (holds_unsent x) cs ≤ total (holds x) cs
unfolding total
unsent-le-held x [] = omega arith
unsent-le-held x (c ∷ cs) = ground (arith, unsent-le-held x cs)

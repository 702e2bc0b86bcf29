-- ===== src/PgUtils/Errors.antt =====
-- The status for an error code of the database.
use libapostol.Prelude.{
  ◌+◌, ◌*◌, ◌<◌, ◌⊎◌, ℕ, ◌/◌, ◌≤◌, ◌≡◌, ◌≢◌, ◌↔◌, ap, sym, ◌∙◌, true, false, leb, some, inl, inr,
  Bool-cases, Option-cases, arith, if◌then◌else◌, leb→le,
}
use libapostol.Http.Status.{
  HttpStatus, bad_request, code_of, status_from_code, status_from_code_iff,
}
use libapostol.PgUtils.{ℤ, pos, negsuc, or_bad_request, error_code_to_status}

-- The number that a code stands for: of a longer one its first digits.
abbrev pub group : ℕ → ℕ
group n = if leb 10000 n then n / 100 else n

group_low : (n : ℕ) → leb 400 (group n) ≡ false → error_code_to_status (pos n) ≡ bad_request
unfolding error_code_to_status
group_low n e = rw e

group_high :
    (n : ℕ)
    → leb 400 (group n) ≡ true
    → error_code_to_status (pos n) ≡ or_bad_request (status_from_code (group n))
unfolding error_code_to_status
group_high n e = rw e

-- Whatever code the database gives, the status is one of a refusal: 400 at least.
pub error_code_to_status-refusal : (c : ℤ) → 400 ≤ code_of (error_code_to_status c)
unfolding error_code_to_status
error_code_to_status-refusal (negsuc n) = ground arith
error_code_to_status-refusal (pos n) = elim (Bool-cases (leb 400 (group n))) [
  | inr low ↦ rw (group_low n low) (ground arith)
  | inl high ↦ elim (Option-cases (status_from_code (group n))) [
    | inl unknown ↦ rw (group_high n high, unknown) (ground arith)
    | inr (s, known) ↦
        rw (group_high n high, known)
          (rw ((status_from_code_iff (group n) s).0 known) (leb→le 400 _ high))
  ]
]

relayed :
    (n : ℕ) (s : HttpStatus)
    → s ≢ bad_request
    → error_code_to_status (pos n) ≡ s
    → (code_of s ≡ group n) × (400 ≤ group n)
relayed n s other e = elim (Bool-cases (leb 400 (group n))) [
  | inr low ↦ absurd (other (sym e ∙ group_low n low))
  | inl high ↦ elim (Option-cases (status_from_code (group n))) [
    | inl unknown ↦ absurd (other (sym e ∙ group_high n high ∙ ap or_bad_request unknown))
    | inr (t, known) ↦
        let same : t ≡ s = ap or_bad_request (sym known) ∙ sym (group_high n high) ∙ e in
        ((status_from_code_iff (group n) s).0 (known ∙ ap some same), leb→le 400 _ high)
  ]
]

-- A code names a status: it is its number, or it has five digits at least and is its number before two
-- more digits. A negative code names none.
abbrev pub Names : ℤ → HttpStatus → Type 0
Names (negsuc n) s = ⊥
Names (pos n) s =
    ((n ≡ code_of s) × (n < 10000))
    ⊎ ((10000 ≤ n) × (100 * code_of s ≤ n) × (n < 100 * code_of s + 100))

Names-group : (n : ℕ) (s : HttpStatus) → (code_of s ≡ group n) ↔ Names (pos n) s
Names-group n s = elim (Bool-cases (leb 10000 n)) [
  | inl long ↦ (
    λ e. inr (ground (arith, long, e), ground (arith, long, e), ground (arith, long, e)),
    λ h. elim h [ inl k ↦ absurd (ground (arith, long, k)) | inr k ↦ ground (arith, long, k) ],
  )
  | inr short ↦ (
    λ e. inl (ground (arith, short, e), ground (arith, short, e)),
    λ h. elim h [ inl k ↦ ground (arith, short, k) | inr k ↦ absurd (ground (arith, short, k)) ],
  )
]

-- Whatever code the database gives, negative ones too: a status other than 400 is relayed exactly for
-- the codes that name it, by its number or by its number before two more digits, and only when it is
-- 400 at least.
pub error_code_to_status_iff :
    (c : ℤ) (s : HttpStatus)
    → s ≢ bad_request
    → (error_code_to_status c ≡ s) ↔ (Names c s × (400 ≤ code_of s))
unfolding error_code_to_status
error_code_to_status_iff (negsuc n) s other = ((λ e. absurd (other (sym e))), (λ r. absurd r.0))
error_code_to_status_iff (pos n) s other = (
  λ e.
      let (same, high) = relayed n s other e in
      ((Names-group n s).0 same, omega (arith, same, high)),
  λ r.
      let same = (Names-group n s).1 r.0 in
      group_high n (ground (arith, same, r.1))
      ∙ ap or_bad_request ((status_from_code_iff (group n) s).1 same),
)

-- ===== src/Prelude/Decimal.antt =====
-- Decimal numbers as text.
use Prim.Native.Nat.{ℕ, zero, suc, ◌+◌, ◌-◌, ◌*◌, ◌/◌, ◌%◌, ◌≤◌, ◌<◌}
use mathlib.Core.Path.{◌≡◌, refl, ap, ◌∙◌}
use mathlib.Core.Logic.{inl, inr}
use mathlib.Core.List.{[], ◌∷◌, ◌++◌}
use native.Mathlib.Omega.{arith}
use libapostol.Prelude.Tests.{ltb, if◌then◌else◌, Bool-cases}
use libapostol.Prelude.Lists.{All, All-append}
use libapostol.Prelude.Text.{Bytes}

-- A number is below 10, or loses a digit.
unfoldable pub decimal_from : ℕ → ℕ → Bytes
decimal_from zero n = []
decimal_from (suc fuel) n =
    let more = decimal_from fuel (n / 10) in
    if ltb n 10 then (b'0' + n) ∷ [] else more ++ ((b'0' + n % 10) ∷ [])

-- `{}` of a number.
abbrev pub decimal : ℕ → Bytes
decimal n = decimal_from (suc n) n

abbrev pub IsDigit : ℕ → Type 0
IsDigit c = (b'0' ≤ c) × (c ≤ b'9')

pub decimal_from-IsDigit : (fuel n : ℕ) → All IsDigit (decimal_from fuel n)
unfolding decimal_from
decimal_from-IsDigit zero n = tt
decimal_from-IsDigit (suc fuel) n = elim (Bool-cases (ltb n 10)) [
  | inl small ↦ simp small ((omega arith, ground arith), tt)
  | inr large ↦ simp large (
      All-append IsDigit (decimal_from fuel (n / 10)) ((b'0' + n % 10) ∷ [])
        (decimal_from-IsDigit fuel (n / 10)) ((omega arith, omega arith), tt))
]

-- The number that digits make, behind those of `acc`.
unfoldable pub digits_value : ℕ → Bytes → ℕ
digits_value acc [] = acc
digits_value acc (c ∷ cs) = digits_value (acc * 10 + (c - b'0')) cs

digits_value-append :
    (acc : ℕ) (xs ys : Bytes) → digits_value acc (xs ++ ys) ≡ digits_value (digits_value acc xs) ys
unfolding digits_value
digits_value-append acc [] ys = refl
digits_value-append acc (x ∷ xs) ys = digits_value-append (acc * 10 + (x - b'0')) xs ys

digits_value-digit : (acc d : ℕ) → digits_value acc ((b'0' + d) ∷ []) ≡ acc * 10 + d
unfolding digits_value
digits_value-digit acc d = omega arith

digits_value-decimal_from : (fuel n : ℕ) → n < fuel → digits_value 0 (decimal_from fuel n) ≡ n
unfolding decimal_from
digits_value-decimal_from zero n h = absurd (omega arith)
digits_value-decimal_from (suc fuel) n h = elim (Bool-cases (ltb n 10)) [
  | inl small ↦ simp small (digits_value-digit 0 n ∙ omega arith)
  | inr large ↦
      let ten : 10 ≤ n = ground arith in
      simp large (
        digits_value-append 0 (decimal_from fuel (n / 10)) ((b'0' + n % 10) ∷ [])
        ∙ (ap (λ (t : ℕ). digits_value t ((b'0' + n % 10) ∷ []))
              (digits_value-decimal_from fuel (n / 10) (omega arith))
            ∙ (digits_value-digit (n / 10) (n % 10) ∙ omega arith)))
]

pub digits_value-decimal : (n : ℕ) → digits_value 0 (decimal n) ≡ n
digits_value-decimal n = digits_value-decimal_from (suc n) n (omega arith)

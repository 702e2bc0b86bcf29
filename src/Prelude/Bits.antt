-- ===== src/Prelude/Bits.antt =====
-- The bit operations of the native numbers as arithmetic: a mask of low bits is a remainder, an or
-- of disjoint fields is a sum, and an xor undoes itself.
use Prim.Native.Nat.{
  ℕ, zero, suc, ◌+◌, ◌-◌, ◌*◌, ◌/◌, ◌%◌, ◌^◌, ◌≤◌, ◌<◌, min, max, digits, differ, bit_and, bit_or,
  bit_xor, bit_and-bitwise, bit_or-bitwise, bit_xor-bitwise,
}
use mathlib.Core.Path.{◌≡◌, refl, ap}
use mathlib.Core.Bool.{Bool, true, ◌&&◌}
use native.Mathlib.Nat.{pow-suc, one-le-pow}
use native.Mathlib.Omega.{arith}

-- A table: every value below `n` passes the test.
abbrev pub all_below : ℕ → (ℕ → Bool) → Bool
all_below zero p = true
all_below (suc n) p = p n && all_below n p

pub all_below_sound : (n : ℕ) (p : ℕ → Bool) (x : ℕ) → all_below n p ≡ true → x < n → p x ≡ true
all_below_sound zero p x h lt = absurd (omega arith)
all_below_sound (suc n) p x h lt = ground (arith, all_below_sound n p x)

digits_out : (z : ℕ → ℕ) (f : ℕ → ℕ → ℕ) (n b : ℕ) → digits z f n 0 b ≡ z b
digits_out z f zero b = refl
digits_out z f (suc n) b = refl

-- Any two counts that suffice for `a` give the same digits.
digits_count :
    (z : ℕ → ℕ) (f : ℕ → ℕ → ℕ) (n m a b : ℕ) → a ≤ n → a ≤ m → digits z f n a b ≡ digits z f m a b
digits_count z f n m zero b p q = cc (digits_out z f n b, digits_out z f m b)
digits_count z f zero m (suc a) b p q = absurd (omega arith)
digits_count z f (suc n) zero (suc a) b p q = absurd (omega arith)
digits_count z f (suc n) (suc m) (suc a) b p q =
    ap (λ (d : ℕ). d * 2 + f (suc a % 2) (b % 2))
      (digits_count z f n m (suc a / 2) (b / 2) (omega arith) (omega arith))

-- The lowest digit, and the rest.
bit_and_low : (a b : ℕ) → bit_and a b ≡ bit_and (a / 2) (b / 2) * 2 + min (a % 2) (b % 2)
bit_and_low zero b = omega (arith, bit_and-bitwise 0 b, bit_and-bitwise 0 (b / 2))
bit_and_low (suc a) b = omega (
  arith,
  bit_and-bitwise (suc a) b,
  bit_and-bitwise (suc a / 2) (b / 2),
  digits_count (λ c. 0) min a (suc a / 2) (suc a / 2) (b / 2) (omega arith) (omega arith),
)

bit_or_low : (a b : ℕ) → bit_or a b ≡ bit_or (a / 2) (b / 2) * 2 + max (a % 2) (b % 2)
bit_or_low zero b = omega (arith, bit_or-bitwise 0 b, bit_or-bitwise 0 (b / 2))
bit_or_low (suc a) b = omega (
  arith,
  bit_or-bitwise (suc a) b,
  bit_or-bitwise (suc a / 2) (b / 2),
  digits_count (λ c. c) max a (suc a / 2) (suc a / 2) (b / 2) (omega arith) (omega arith),
)

bit_xor_low : (a b : ℕ) → bit_xor a b ≡ bit_xor (a / 2) (b / 2) * 2 + differ (a % 2) (b % 2)
bit_xor_low zero b = omega (arith, bit_xor-bitwise 0 b, bit_xor-bitwise 0 (b / 2))
bit_xor_low (suc a) b = omega (
  arith,
  bit_xor-bitwise (suc a) b,
  bit_xor-bitwise (suc a / 2) (b / 2),
  digits_count (λ c. c) differ a (suc a / 2) (suc a / 2) (b / 2) (omega arith) (omega arith),
)

bit_and_none : (n a : ℕ) → a ≤ n → bit_and a 0 ≡ 0
bit_and_none zero a h = let e : a ≡ 0 = omega arith in rw e (bit_and-bitwise 0 0)
bit_and_none (suc n) a h = omega (arith, bit_and_low a 0, bit_and_none n (a / 2) (omega arith))

bit_or_none : (n a : ℕ) → a ≤ n → bit_or a 0 ≡ a
bit_or_none zero a h = let e : a ≡ 0 = omega arith in rw e (bit_or-bitwise 0 0)
bit_or_none (suc n) a h = omega (arith, bit_or_low a 0, bit_or_none n (a / 2) (omega arith))

ones_parts : (k : ℕ) → ((2 ^ suc k - 1) / 2 ≡ 2 ^ k - 1) × ((2 ^ suc k - 1) % 2 ≡ 1)
ones_parts k =
    (omega (arith, pow-suc 2 k, one-le-pow k 2), omega (arith, pow-suc 2 k, one-le-pow k 2))

field_parts : (k q : ℕ) → (q * 2 ^ suc k / 2 ≡ q * 2 ^ k) × (q * 2 ^ suc k % 2 ≡ 0)
field_parts k q = (
  omega (arith, ap (λ (t : ℕ). q * t) (pow-suc 2 k)),
  omega (arith, ap (λ (t : ℕ). q * t) (pow-suc 2 k)),
)

sum_parts :
    (k q r : ℕ) → ((q * 2 ^ suc k + r) / 2 ≡ q * 2 ^ k + r / 2) × ((q * 2 ^ suc k + r) % 2 ≡ r % 2)
sum_parts k q r = (
  omega (arith, ap (λ (t : ℕ). q * t) (pow-suc 2 k)),
  omega (arith, ap (λ (t : ℕ). q * t) (pow-suc 2 k)),
)

bit_and_fields : (k q r : ℕ) → r < 2 ^ k → bit_and (q * 2 ^ k + r) (2 ^ k - 1) ≡ r
bit_and_fields zero q r h = omega (arith, bit_and_none (q * 1 + r) (q * 1 + r) (omega arith))
bit_and_fields (suc k) q r h =
    let (half, odd) = ones_parts k in
    let (high, low) = sum_parts k q r in
    rw
      (
        bit_and_low (q * 2 ^ suc k + r) (2 ^ suc k - 1),
        half,
        odd,
        high,
        low,
        bit_and_fields k q (r / 2) (omega (arith, pow-suc 2 k)),
      )
      (omega arith)

-- `a & (2^k - 1)`
pub bit_and_ones : (k a : ℕ) → bit_and a (2 ^ k - 1) ≡ a % 2 ^ k
bit_and_ones k a = ground (arith, one-le-pow k 2, bit_and_fields k (a / 2 ^ k) (a % 2 ^ k))

-- `(q << k) | r`
pub bit_or_fields : (k q r : ℕ) → r < 2 ^ k → bit_or (q * 2 ^ k) r ≡ q * 2 ^ k + r
bit_or_fields zero q r h = ground (arith, bit_or_none q q)
bit_or_fields (suc k) q r h =
    let (half, even) = field_parts k q in
    rw
      (
        bit_or_low (q * 2 ^ suc k) r,
        half,
        even,
        bit_or_fields k q (r / 2) (omega (arith, pow-suc 2 k)),
      )
      (omega (arith, ap (λ (t : ℕ). q * t) (pow-suc 2 k)))

differ_twice : (x y : ℕ) → x < 2 → y < 2 → (differ (differ x y) y ≡ x) × (differ x y < 2)
differ_twice zero zero p q = (refl, omega arith)
differ_twice zero (suc zero) p q = (refl, omega arith)
differ_twice (suc zero) zero p q = (refl, omega arith)
differ_twice (suc zero) (suc zero) p q = (refl, omega arith)
differ_twice (suc (suc x)) y p q = absurd (omega arith)
differ_twice x (suc (suc y)) p q = absurd (omega arith)

bit_xor_zero : bit_xor 0 0 ≡ 0
bit_xor_zero = bit_xor-bitwise 0 0

bit_xor_parts :
    (a b : ℕ)
    → (bit_xor a b / 2 ≡ bit_xor (a / 2) (b / 2)) × (bit_xor a b % 2 ≡ differ (a % 2) (b % 2))
bit_xor_parts a b =
    let (_, bit) = differ_twice (a % 2) (b % 2) (omega arith) (omega arith) in
    (omega (arith, bit_xor_low a b), omega (arith, bit_xor_low a b))

bit_xor_undo : (n a b : ℕ) → a ≤ n → b ≤ n → bit_xor (bit_xor a b) b ≡ a
bit_xor_undo zero a b p q =
    let ea : a ≡ 0 = omega arith in
    let eb : b ≡ 0 = omega arith in rw (ea, eb, bit_xor_zero, bit_xor_zero)
bit_xor_undo (suc n) a b p q =
    let (half, low) = bit_xor_parts a b in
    let (bit, _) = differ_twice (a % 2) (b % 2) (omega arith) (omega arith) in
    rw
      (
        bit_xor_low (bit_xor a b) b,
        half,
        low,
        bit,
        bit_xor_undo n (a / 2) (b / 2) (omega arith) (omega arith),
      )
      (omega arith)

-- `(a ^ b) ^ b` is `a`.
pub bit_xor_twice : (a b : ℕ) → bit_xor (bit_xor a b) b ≡ a
bit_xor_twice a b = bit_xor_undo (a + b) a b (omega arith) (omega arith)

-- An xor of numbers of `k` bits has `k` bits.
pub bit_xor_bound : (k a b : ℕ) → a < 2 ^ k → b < 2 ^ k → bit_xor a b < 2 ^ k
bit_xor_bound zero a b p q =
    let ea : a ≡ 0 = omega arith in
    let eb : b ≡ 0 = omega arith in
    omega (arith, ap (λ (t : ℕ). bit_xor t b) ea, ap (λ (t : ℕ). bit_xor 0 t) eb, bit_xor_zero)
bit_xor_bound (suc k) a b p q =
    let (half, low) = bit_xor_parts a b in
    let (_, bit) = differ_twice (a % 2) (b % 2) (omega arith) (omega arith) in
    omega (
      arith,
      pow-suc 2 k,
      half,
      low,
      bit,
      bit_xor_bound k (a / 2) (b / 2) (omega (arith, pow-suc 2 k)) (omega (arith, pow-suc 2 k)),
    )

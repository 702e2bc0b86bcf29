-- ===== src/FetchPolicy/Prefix.antt =====
-- A network of `n` bits covers an address exactly when their first `n` bits agree.
use libapostol.Prelude.{
  ℕ, zero, suc, ◌+◌, ◌-◌, ◌*◌, ◌/◌, ◌%◌, ◌^◌, ◌≤◌, ◌<◌, bit_and, ◌≡◌, refl, ap, ◌∙◌, ◌↔◌, Bool,
  true, false, ◌&&◌, List, [], ◌∷◌, ◌++◌, Bytes, length, take-append, take, drop, ◌==◌, ==_iff,
  IsByte, All, arith, all_below, all_below_sound,
}
use libapostol.FetchPolicy.{prefix_mask, prefix_match}

-- The bits of a byte and of an address, the highest first.
abbrev pub byte_bits : ℕ → List ℕ
byte_bits x =
    x / 128 % 2
    ∷ x / 64 % 2
    ∷ x / 32 % 2
    ∷ x / 16 % 2
    ∷ x / 8 % 2
    ∷ x / 4 % 2
    ∷ x / 2 % 2
    ∷ x % 2
    ∷ []

abbrev pub bits : Bytes → List ℕ
bits [] = []
bits (x ∷ xs) = byte_bits x ++ bits xs

abbrev mask_keeps : ℕ → ℕ → Bool
mask_keeps r x = bit_and x (prefix_mask r) == x / 2 ^ (8 - r) * 2 ^ (8 - r)

mask_table :
    (all_below 256 (mask_keeps 1) ≡ true)
    × (all_below 256 (mask_keeps 2) ≡ true)
    × (all_below 256 (mask_keeps 3) ≡ true)
    × (all_below 256 (mask_keeps 4) ≡ true)
    × (all_below 256 (mask_keeps 5) ≡ true)
    × (all_below 256 (mask_keeps 6) ≡ true)
    × (all_below 256 (mask_keeps 7) ≡ true)
mask_table = (refl, refl, refl, refl, refl, refl, refl)

module _ (x y : ℕ) (hx : IsByte x) (hy : IsByte y) where
  masked :
      (r : ℕ)
      → all_below 256 (mask_keeps r) ≡ true
      → (bit_and x (prefix_mask r) ≡ x / 2 ^ (8 - r) * 2 ^ (8 - r))
        × (bit_and y (prefix_mask r) ≡ y / 2 ^ (8 - r) * 2 ^ (8 - r))
  masked r table = (
    (==_iff _ _).0 (all_below_sound 256 (mask_keeps r) x table hx),
    (==_iff _ _).0 (all_below_sound 256 (mask_keeps r) y table hy),
  )

  abbrev AgreeOn : ℕ → Type 0
  AgreeOn r =
      ((bit_and x (prefix_mask r) == bit_and y (prefix_mask r)) ≡ true)
      ↔ (take r (byte_bits x) ≡ take r (byte_bits y))

  agree_one : AgreeOn 1
  agree_one = let (ex, ey) = masked 1 mask_table.0 in ground arith

  agree_two : AgreeOn 2
  agree_two = let (ex, ey) = masked 2 mask_table.1 in ground arith

  agree_three : AgreeOn 3
  agree_three = let (ex, ey) = masked 3 mask_table.2 in ground arith

  agree_four : AgreeOn 4
  agree_four = let (ex, ey) = masked 4 mask_table.3 in ground arith

  agree_five : AgreeOn 5
  agree_five = let (ex, ey) = masked 5 mask_table.4 in ground arith

  agree_six : AgreeOn 6
  agree_six = let (ex, ey) = masked 6 mask_table.5 in ground arith

  agree_seven : AgreeOn 7
  agree_seven = let (ex, ey) = masked 7 mask_table.6 in ground arith

  agree : (r : ℕ) → 0 < r → r < 8 → AgreeOn r
  agree zero lo hi = absurd (omega arith)
  agree (suc zero) lo hi = agree_one
  agree (suc (suc zero)) lo hi = agree_two
  agree (suc (suc (suc zero))) lo hi = agree_three
  agree (suc (suc (suc (suc zero)))) lo hi = agree_four
  agree (suc (suc (suc (suc (suc zero))))) lo hi = agree_five
  agree (suc (suc (suc (suc (suc (suc zero)))))) lo hi = agree_six
  agree (suc (suc (suc (suc (suc (suc (suc zero))))))) lo hi = agree_seven
  agree (suc (suc (suc (suc (suc (suc (suc (suc r)))))))) lo hi = absurd (omega arith)

-- `memcmp` over no byte, and over one more.
prefix_match-short :
    (r : ℕ) (x y : ℕ) (a net : Bytes)
    → 0 < r
    → r < 8
    → prefix_match (x ∷ a) (y ∷ net) r ≡ (bit_and x (prefix_mask r) == bit_and y (prefix_mask r))
unfolding prefix_match
prefix_match-short r x y a net lo hi =
    let no_byte : r / 8 ≡ 0 = omega arith in
    let all_bits : r % 8 ≡ r = omega arith in
    let some_bits : (r == 0) ≡ false = ground arith in rw (no_byte, all_bits, some_bits)

prefix_match-byte :
    (p x y : ℕ) (a net : Bytes)
    → prefix_match (x ∷ a) (y ∷ net) (8 + p) ≡ (x == y && prefix_match a net p)
unfolding prefix_match
prefix_match-byte p x y a net =
    let one_byte : (8 + p) / 8 ≡ suc (p / 8) = omega arith in
    let same_rest : (8 + p) % 8 ≡ p % 8 = omega arith in rw (one_byte, same_rest) (ground arith)

prefix_match-none : (a net : Bytes) → prefix_match a net 0 ≡ true
unfolding prefix_match
prefix_match-none a net = refl

short_iff :
    (r x y : ℕ) (a net : Bytes)
    → r < 8
    → IsByte x
    → IsByte y
    → (prefix_match (x ∷ a) (y ∷ net) r ≡ true)
      ↔ (take r (byte_bits x ++ bits a) ≡ take r (byte_bits y ++ bits net))
short_iff zero x y a net hi hx hy = (λ e. refl, λ e. prefix_match-none (x ∷ a) (y ∷ net))
short_iff (suc r) x y a net hi hx hy =
    rw
      (
        prefix_match-short (suc r) x y a net (omega arith) hi,
        take-append (suc r) (byte_bits x) (bits a) (omega arith),
        take-append (suc r) (byte_bits y) (bits net) (omega arith),
      )
      (agree x y hx hy (suc r) (omega arith) hi)

byte_bits_injective : (x y : ℕ) → IsByte x → IsByte y → byte_bits x ≡ byte_bits y → x ≡ y
byte_bits_injective x y hx hy e = ground arith

byte_iff :
    (p x y : ℕ) (a net : Bytes)
    → IsByte x
    → IsByte y
    → (prefix_match a net p ≡ true) ↔ (take p (bits a) ≡ take p (bits net))
    → (prefix_match (x ∷ a) (y ∷ net) (8 + p) ≡ true)
      ↔ (byte_bits x ++ take p (bits a) ≡ byte_bits y ++ take p (bits net))
byte_iff p x y a net hx hy (to, from) = (
  λ e. ground (arith, prefix_match-byte p x y a net),
  λ e.
      let same : x ≡ y = byte_bits_injective x y hx hy (ap (take 8) e) in
      let rest : prefix_match a net p ≡ true = from (ap (drop 8) e) in
      let here : (x == y) ≡ true = (==_iff x y).1 same in
      prefix_match-byte p x y a net ∙ rw (here, rest),
)

-- `prefix_match` of an address and a network of as many bytes, for a prefix that fits them, is true
-- exactly when their first `p` bits agree.
pub prefix_match_iff :
    (a net : Bytes) (p : ℕ)
    → All IsByte a
    → All IsByte net
    → length a ≡ length net
    → p ≤ 8 * length a
    → (prefix_match a net p ≡ true) ↔ (take p (bits a) ≡ take p (bits net))
prefix_match_iff [] [] zero ha hn l h = (λ e. refl, λ e. prefix_match-none [] [])
prefix_match_iff [] [] (suc p) ha hn l h = absurd (omega arith)
prefix_match_iff [] (y ∷ net) p ha hn l h = absurd (omega arith)
prefix_match_iff (x ∷ a) [] p ha hn l h = absurd (omega arith)
prefix_match_iff (x ∷ a) (y ∷ net) (suc (suc (suc (suc (suc (suc (suc (suc p)))))))) ha hn l h =
    let eight : suc (suc (suc (suc (suc (suc (suc (suc p))))))) ≡ 8 + p = omega arith in
    let (to, from) =
      byte_iff p x y a net ha.0 hn.0
        (prefix_match_iff a net p ha.1 hn.1 (omega arith) (omega arith)) in
    (λ e. to (rw (← eight) e), λ e. rw eight (from e))
prefix_match_iff (x ∷ a) (y ∷ net) p ha hn l h = short_iff p x y a net (omega arith) ha.0 hn.0

-- ===== src/Prelude/Search.antt =====
-- Searching a byte string for a character.
use Prim.Native.Nat.{ℕ, suc}
use mathlib.Core.Path.{◌≡◌, refl, ap}
use mathlib.Core.Logic.{◌≢◌}
use mathlib.Core.Option.{Option, none, some}
use mathlib.Core.List.{[], ◌∷◌, ◌++◌}
use native.Mathlib.Omega.{arith}
use libapostol.Prelude.Tests.{◌==◌, if◌then◌else◌}
use libapostol.Prelude.Lists.{length, take, drop, All}
use libapostol.Prelude.Text.{Bytes}

-- `find`: the position of the first occurrence
unfoldable pub find : ℕ → Bytes → Option ℕ
find c [] = none
find c (x ∷ xs) =
    let rest = find c xs in
    if x == c then some 0 else elim rest [ none ↦ none | some pos ↦ some (suc pos) ]

-- `c_str()` as a C function reads it: up to the first NUL.
abbrev pub c_str : Bytes → Bytes
c_str value = elim (find 0 value) [ none ↦ value | some nul ↦ take nul value ]

abbrev pub Avoids : ℕ → Bytes → Type 0
Avoids c xs = All (λ (x : ℕ). x ≢ c) xs

pub find-none : (c : ℕ) (xs : Bytes) → Avoids c xs → find c xs ≡ none
unfolding find
find-none c [] h = refl
find-none c (x ∷ xs) h = ground (arith, find-none c xs h.1)

pub find-first :
    (c : ℕ) (xs rest : Bytes) → Avoids c xs → find c (xs ++ (c ∷ rest)) ≡ some (length xs)
unfolding find
find-first c [] rest h = ground arith
find-first c (x ∷ xs) rest h = ground (arith, find-first c xs rest h.1)

pub drop-past-char : (c : ℕ) (xs ys : Bytes) → drop (suc (length xs)) (xs ++ (c ∷ ys)) ≡ ys
drop-past-char c [] ys = refl
drop-past-char c (x ∷ xs) ys = drop-past-char c xs ys

pub take-whole : (xs ys : Bytes) → take (length xs) (xs ++ ys) ≡ xs
take-whole [] ys = refl
take-whole (x ∷ xs) ys = ap (λ t. x ∷ t) (take-whole xs ys)

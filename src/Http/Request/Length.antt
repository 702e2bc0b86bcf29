-- ===== src/Http/Request/Length.antt =====
-- The length that a peer declares, and the one that a response writes.
use libapostol.Prelude.{
  ℕ, ◌+◌, ◌-◌, ◌*◌, ◌%◌, ◌^◌, ◌≡◌, refl, leb, true, false, ◌&&◌, [], ◌∷◌, Bytes, codes,
  digits_value, IsDigit, All, all, arith, Bool-cases, is_empty, if◌then◌else◌, inl, inr,
}
use libapostol.Http.Request.{HttpRequest, header, length_from, content_length}

step_mod : (a d : ℕ) → (a % 2 ^ 64 * 10 + d) % 2 ^ 64 ≡ (a * 10 + d) % 2 ^ 64
step_mod a d = omega arith

-- The loop on digits is their number modulo 2 ^ 64.
length_from-digits :
    (acc val : ℕ) (text : Bytes)
    → All IsDigit text
    → val ≡ acc % 2 ^ 64
    → length_from val text ≡ digits_value acc text % 2 ^ 64
unfolding length_from digits_value
length_from-digits acc val [] h e = e
length_from-digits acc val (c ∷ cs) h e =
    let digit : (leb b'0' c && leb c b'9') ≡ true = ground arith in
    rw digit (
      length_from-digits (acc * 10 + (c - b'0')) ((val * 10 + (c - b'0')) % 2 ^ 64) cs h.1
        (omega (arith, e)))

-- Any other character makes the length 0.
length_from-other :
    (val : ℕ) (text : Bytes)
    → all (λ (c : ℕ). leb b'0' c && leb c b'9') text ≡ false
    → length_from val text ≡ 0
unfolding length_from
length_from-other val [] h = cc h
length_from-other val (c ∷ cs) h = elim (Bool-cases (leb b'0' c && leb c b'9')) [
  | inr other ↦ simp other refl
  | inl digit ↦ simp digit (length_from-other ((val * 10 + (c - b'0')) % 2 ^ 64) cs (rw digit at h))
]

digits_given :
    (text : Bytes) → all (λ (c : ℕ). leb b'0' c && leb c b'9') text ≡ true → All IsDigit text
digits_given [] h = tt
digits_given (c ∷ cs) h = (ground arith, digits_given cs (ground arith))

of_text :
    (text : Bytes)
    → (if is_empty text then 0 else length_from 0 text)
      ≡ (if all (λ (c : ℕ). leb b'0' c && leb c b'9') text then digits_value 0 text % 2 ^ 64 else 0)
unfolding digits_value
of_text [] = refl
of_text (c ∷ cs) = elim (Bool-cases (all (λ (d : ℕ). leb b'0' d && leb d b'9') (c ∷ cs))) [
  | inl digits ↦ rw digits (length_from-digits 0 0 (c ∷ cs) (digits_given (c ∷ cs) digits) refl)
  | inr other ↦ rw other (length_from-other 0 (c ∷ cs) other)
]

-- A Content-Length of digits is read as their number modulo 2 ^ 64, anything else as 0.
pub content_length-cases :
    (req : HttpRequest)
    → content_length req ≡ (
        if all (λ (c : ℕ). leb b'0' c && leb c b'9') (header req (codes "Content-Length"))
        then digits_value 0 (header req (codes "Content-Length")) % 2 ^ 64
        else 0)
unfolding content_length
content_length-cases req = of_text (header req (codes "Content-Length"))

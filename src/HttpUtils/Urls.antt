-- ===== src/HttpUtils/Urls.antt =====
-- Decoding an encoded text.
use libapostol.Prelude.{
  ℕ, ◌*◌, ◌/◌, ◌%◌, ◌^◌, ◌<◌, ◌≡◌, inl, inr, refl, ap, ◌∙◌, true, false, some, [], ◌∷◌, Bytes,
  IsByte, All, arith, Bool-cases, bit_or, bit_or_fields, ◌==◌,
}
use libapostol.HttpUtils.{
  is_unreserved, hex_digit, url_encode, hex_val, hex_pair, plain, url_decode,
}

hex_val-hex_digit : (v : ℕ) → v < 16 → hex_val (hex_digit v) ≡ some v
unfolding hex_val
hex_val-hex_digit v h = ground arith

hex_pair-some :
    (h l hi lo : ℕ)
    → hex_val h ≡ some hi
    → hex_val l ≡ some lo
    → hex_pair h l ≡ some (bit_or (hi * 2 ^ 4) lo)
unfolding hex_pair
hex_pair-some h l hi lo e f = rw (e, f, hex_pair)

hex_pair-byte : (c : ℕ) → IsByte c → hex_pair (hex_digit (c / 16)) (hex_digit (c % 16)) ≡ some c
hex_pair-byte c h =
    hex_pair-some (hex_digit (c / 16)) (hex_digit (c % 16)) (c / 16) (c % 16)
      (hex_val-hex_digit (c / 16) (omega arith)) (hex_val-hex_digit (c % 16) (omega arith))
    ∙ ap some (omega (arith, bit_or_fields 4 (c / 16) (c % 16) (omega arith)))

url_decode-empty : url_decode [] ≡ []
unfolding url_decode
url_decode-empty = refl

url_decode-escape :
    (h l value : ℕ) (rest : Bytes)
    → hex_pair h l ≡ some value
    → url_decode (b'%' ∷ h ∷ l ∷ rest) ≡ value ∷ url_decode rest
unfolding url_decode
url_decode-escape h l value rest e = rw e

url_decode-plain :
    (c : ℕ) (rest : Bytes)
    → (c == b'%') ≡ false
    → plain c ≡ c
    → url_decode (c ∷ rest) ≡ c ∷ url_decode rest
unfolding url_decode
url_decode-plain c [] h p = ap (λ (x : ℕ). x ∷ []) p
url_decode-plain c (x ∷ []) h p = ap (λ (y : ℕ). y ∷ url_decode (x ∷ [])) p
url_decode-plain c (x ∷ y ∷ rest) h p = rw h (ap (λ (z : ℕ). z ∷ url_decode (x ∷ y ∷ rest)) p)

unreserved-plain : (c : ℕ) → is_unreserved c ≡ true → ((c == b'%') ≡ false) × (plain c ≡ c)
unreserved-plain c h = ground arith

-- Decoding what `url_encode` wrote for a string of bytes gives the string back.
pub url_decode-url_encode : (s : Bytes) → All IsByte s → url_decode (url_encode s) ≡ s
unfolding url_encode
url_decode-url_encode [] h = url_decode-empty
url_decode-url_encode (c ∷ cs) h = elim (Bool-cases (is_unreserved c)) [
  | inl safe ↦
      let (no_escape, itself) = unreserved-plain c safe in
      simp safe (
        url_decode-plain c (url_encode cs) no_escape itself
        ∙ ap (λ t. c ∷ t) (url_decode-url_encode cs h.1))
  | inr unsafe ↦ simp unsafe (
      url_decode-escape (hex_digit (c / 16)) (hex_digit (c % 16)) c (url_encode cs)
        (hex_pair-byte c h.0)
      ∙ ap (λ t. c ∷ t) (url_decode-url_encode cs h.1))
]

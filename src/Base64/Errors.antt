-- ===== src/Base64/Errors.antt =====
-- Which inputs the decoder refuses, and how many bytes it writes.
use libapostol.Prelude.{
  ℕ, suc, ◌+◌, ◌*◌, ◌/◌, ◌<◌, ◌≡◌, refl, ap, ◌∙◌, ◌↔◌, Bool, true, false, ◌&&◌, not, Option, none,
  some, [], ◌∷◌, Bytes, length, length-append, All, any, all, IsByte, leb, ◌==◌, if◌then◌else◌,
  arith, all_below, all_below_sound, Bool-cases, Option-cases, inl, inr, ◌⊎◌,
}
use libapostol.Base64.{
  encode_table, decode_value, is_space, Decoder, push_value, decode_from, base64_decode,
}

-- The characters before the first padding that are no space.
abbrev pub significant : Bytes → Bytes
significant [] = []
significant (c ∷ cs) =
    if is_space c then significant cs else if c == b'=' then [] else c ∷ significant cs

-- Membership in the alphabet of RFC 4648, by the encoder's table.
unfoldable pub in_alphabet : ℕ → Bool
in_alphabet c = any (λ e. e == c) encode_table

abbrev has_some : Option ℕ → Bool
has_some none = false
has_some (some v) = true

abbrev same_bool : Bool → Bool → Bool
same_bool true b = b
same_bool false b = not b

alphabet_table : all_below 256 (λ c. same_bool (in_alphabet c) (has_some (decode_value c))) ≡ true
unfolding in_alphabet decode_value
alphabet_table = refl

in_alphabet-decode_value : (c : ℕ) → IsByte c → in_alphabet c ≡ has_some (decode_value c)
in_alphabet-decode_value c h = agree _ _ (
    all_below_sound 256 (λ c. same_bool (in_alphabet c) (has_some (decode_value c))) c
      alphabet_table h)
  where
    agree : (a b : Bool) → same_bool a b ≡ true → a ≡ b
    agree true true e = refl
    agree true false e = cc
    agree false true e = cc
    agree false false e = refl

decode_from-significant :
    (d : Decoder) (xs : Bytes) → decode_from d xs ≡ decode_from d (significant xs)
unfolding decode_from is_space
decode_from-significant d [] = refl
decode_from-significant d (c ∷ cs) = elim (Bool-cases (is_space c)) [
  | inl space ↦ rw space (decode_from-significant d cs)
  | inr solid ↦ elim (Bool-cases (c == b'=')) [
    | inl pad ↦ rw (solid, pad)
    | inr more ↦
        rw (solid, more, solid, more)
          (elim (Option-cases (decode_value c)) [
            | inl bad ↦ rw bad
            | inr (v, good) ↦ rw good (decode_from-significant (push_value d v) cs)
          ])
  ]
]

length-push_value :
    (d : Decoder) (v : ℕ)
    → d.bits < 8
    → ((push_value d v).bits < 8)
      × (8 * length (push_value d v).out + (push_value d v).bits ≡ 8 * length d.out + d.bits + 6)
unfolding push_value
length-push_value d v h = elim (Bool-cases (leb 8 (d.bits + 6))) [
  | inl whole ↦ rw whole (ground arith, rw (length-append d.out) (ground arith))
  | inr part ↦ rw part (ground arith, omega arith)
]

and_true : (a b : Bool) → (a && b) ≡ true → (a ≡ true) × (b ≡ true)
and_true a b h = ground arith

-- What the decoder returns where every character that counts is in the alphabet.
abbrev Written : Decoder → ℕ → Option Bytes → Type 0
Written d n r =
    (out : Bytes) × (r ≡ some out) × (length out ≡ (8 * length d.out + d.bits + 6 * n) / 8)

decode_from-some_char :
    (d : Decoder) (c : ℕ) (cs : Bytes)
    → d.bits < 8
    → IsByte c
    → (in_alphabet c && all in_alphabet (significant cs)) ≡ true
    → ((v : ℕ)
        → all in_alphabet (significant cs) ≡ true
        → Written
            (push_value d v)
            (length (significant cs))
            (decode_from (push_value d v) (significant cs)))
    → Written d (suc (length (significant cs))) (elim (decode_value c) [
      | none ↦ none
      | some val ↦ decode_from (push_value d val) (significant cs)
    ])
decode_from-some_char d c cs b h good ih = elim (Option-cases (decode_value c)) [
  | inl bad ↦
      let (here, later) = and_true (in_alphabet c) (all in_alphabet (significant cs)) good in
      cc (in_alphabet-decode_value c h, here, ap has_some bad)
  | inr (v, value) ↦
      let (here, later) = and_true (in_alphabet c) (all in_alphabet (significant cs)) good in
      let (out, written, size) = ih v later in
      (out, rw value written, omega (arith, size, (length-push_value d v b).1))
]

-- On characters of the alphabet alone the decoder writes six bits each.
decode_from-some :
    (d : Decoder) (xs : Bytes)
    → d.bits < 8
    → All IsByte xs
    → all in_alphabet (significant xs) ≡ true
    → (out : Bytes) × (decode_from d (significant xs) ≡ some out)
      × (length out ≡ (8 * length d.out + d.bits + 6 * length (significant xs)) / 8)
unfolding decode_from is_space
decode_from-some d [] b h good = (d.out, refl, omega arith)
decode_from-some d (c ∷ cs) b h good = elim (Bool-cases (is_space c)) [
  | inl space ↦ rw space (decode_from-some d cs b h.1 (rw space at good))
  | inr solid ↦ elim (Bool-cases (c == b'=')) [
    | inl pad ↦ rw (solid, pad) (d.out, refl, omega arith)
    | inr more ↦
        rw (solid, more, solid, more)
          (decode_from-some_char d c cs b h.0 (rw (solid, more) at good)
            (λ v. decode_from-some (push_value d v) cs (length-push_value d v b).0 h.1))
  ]
]

and_false : (a b : Bool) → (a && b) ≡ false → (a ≡ false) ⊎ (b ≡ false)
and_false a b h = ground arith

-- One character outside the alphabet, and the decoder throws.
decode_from-none :
    (d : Decoder) (xs : Bytes)
    → All IsByte xs
    → all in_alphabet (significant xs) ≡ false
    → decode_from d xs ≡ none
unfolding decode_from is_space
decode_from-none d [] h bad = cc
decode_from-none d (c ∷ cs) h bad = elim (Bool-cases (is_space c)) [
  | inl space ↦ rw space (decode_from-none d cs h.1 (rw space at bad))
  | inr solid ↦ elim (Bool-cases (c == b'=')) [
    | inl pad ↦ cc (let e : true ≡ false = rw (solid, pad) at bad in e)
    | inr more ↦
        rw (solid, more)
          (elim (Option-cases (decode_value c)) [
            | inl out ↦ rw out
            | inr (v, value) ↦
                rw value
                  (elim (and_false (in_alphabet c) (all in_alphabet (significant cs))
                    (rw (solid, more) at bad)) [
                      | inl here ↦ cc (in_alphabet-decode_value c h.0, here, ap has_some value)
                      | inr later ↦ decode_from-none (push_value d v) cs h.1 later
                    ])
          ])
  ]
]

-- The decoder throws exactly when a character before the first `=`, white space aside, is not one
-- of the 64 of the encoder's table.
pub decode-none_iff :
    (xs : Bytes)
    → All IsByte xs
    → (base64_decode xs ≡ none) ↔ (all in_alphabet (significant xs) ≡ false)
unfolding base64_decode
decode-none_iff xs h = (
  λ failed. elim (Bool-cases (all in_alphabet (significant xs))) [
    | inl good ↦
        let start : Decoder = record { out = []; accum = 0; bits = 0 } in
        let (out, written, _) = decode_from-some start xs (omega arith) h good in
        cc (decode_from-significant start xs)
    | inr bad ↦ bad
  ],
  decode_from-none _ xs h,
)

-- Otherwise it returns one byte for every eight bits of the six that each such character carries.
pub length-decode :
    (xs : Bytes)
    → All IsByte xs
    → all in_alphabet (significant xs) ≡ true
    → (out : Bytes) × (base64_decode xs ≡ some out) × (length out ≡ 6 * length (significant xs) / 8)
unfolding base64_decode
length-decode xs h good =
    let start : Decoder = record { out = []; accum = 0; bits = 0 } in
    let (out, written, size) = decode_from-some start xs (omega arith) h good in
    (out, decode_from-significant start xs ∙ written, omega (arith, size))

-- ===== src/Base64/RoundTrip.antt =====
-- Decoding what the encoder wrote.
use libapostol.Prelude.{
  ℕ, ◌+◌, ◌-◌, ◌*◌, ◌/◌, ◌%◌, ◌^◌, ◌<◌, bit_or, ◌≡◌, refl, ap, ◌∙◌, Bool, true, false, ◌&&◌, not,
  Option, none, some, [], ◌∷◌, ◌++◌, append-nil, append_assoc, Bytes, get_or, All, IsByte, leb,
  ◌==◌, if◌then◌else◌, arith, all_below, all_below_sound, bit_and_ones, bit_or_fields,
}
use libapostol.Base64.{
  encode_table, encode_at, base64_encode, decode_value, is_space, Decoder, push_value, decode_from,
  base64_decode,
}

abbrev has_value : Option ℕ → ℕ → Bool
has_value none v = false
has_value (some w) v = w == v

-- The character of a value is no space and no padding, and has that value.
abbrev decodes_back : ℕ → Bool
decodes_back v =
    let c = get_or encode_table v 0 in
    not (is_space c) && not (c == b'=') && has_value (decode_value c) v

table_decodes_back : all_below 64 decodes_back ≡ true
unfolding is_space decode_value
table_decodes_back = refl

decode_from-char :
    (v : ℕ) (d : Decoder) (cs : Bytes)
    → v < 64
    → decode_from d (get_or encode_table v 0 ∷ cs) ≡ decode_from (push_value d v) cs
unfolding decode_from
decode_from-char v d cs h = ground (arith, all_below_sound 64 decodes_back v table_decodes_back h)

pub decode_from-encode_at :
    (n s : ℕ) (d : Decoder) (cs : Bytes)
    → decode_from d (encode_at n s ∷ cs) ≡ decode_from (push_value d (n / 2 ^ s % 64)) cs
unfolding encode_at
decode_from-encode_at n s d cs =
    rw (bit_and_ones 6 (n / 2 ^ s)) (decode_from-char (n / 2 ^ s % 64) d cs (omega arith))

-- Six more bits below what the 32-bit accumulator keeps.
abbrev shift_in : ℕ → ℕ → ℕ
shift_in a v = a % 2 ^ 26 * 2 ^ 6 + v

push_value_lem :
    (o : Bytes) (a b v : ℕ)
    → v < 64
    → push_value (record { out = o; accum = a; bits = b }) v ≡ (
        if leb 8 (b + 6)
        then record {
          out = o ++ shift_in a v / 2 ^ (b + 6 - 8) % 2 ^ 8 ∷ [];
          accum = shift_in a v;
          bits = b + 6 - 8;
        }
        else record { out = o; accum = shift_in a v; bits = b + 6 })
unfolding push_value
push_value_lem o a b v h =
    let kept : a * 2 ^ 6 % 2 ^ 32 ≡ a % 2 ^ 26 * 2 ^ 6 = omega arith in
    rw (kept, bit_or_fields 6 (a % 2 ^ 26) v h, bit_and_ones 8 (shift_in a v / 2 ^ (b + 6 - 8)))

-- Two, three and four values pushed into a decoder that owes no bits. The accumulator keeps old bits
-- above the ones that it owes.
module _ (o : Bytes) (a v1 v2 v3 v4 : ℕ) (h1 : v1 < 64) (h2 : v2 < 64) where
  abbrev after_two : Decoder
  after_two = push_value (push_value (record { out = o; accum = a; bits = 0 }) v1) v2

  push_two :
      after_two
      ≡ record { out = o ++ (v1 * 4 + v2 / 16) ∷ []; accum = shift_in (shift_in a v1) v2; bits = 4 }
  push_two =
      let byte : shift_in (shift_in a v1) v2 / 2 ^ 4 % 2 ^ 8 ≡ v1 * 4 + v2 / 16 = omega arith in
      rw (push_value_lem o a 0 v1 h1, push_value_lem o (shift_in a v1) 6 v2 h2, byte)

  push_three :
      v3 < 64
      → push_value after_two v3 ≡ record {
        out = (o ++ (v1 * 4 + v2 / 16) ∷ []) ++ (v2 % 16 * 16 + v3 / 4) ∷ [];
        accum = shift_in (shift_in (shift_in a v1) v2) v3;
        bits = 2;
      }
  push_three h3 =
      let byte : shift_in (shift_in (shift_in a v1) v2) v3 / 2 ^ 2 % 2 ^ 8 ≡ v2 % 16 * 16 + v3 / 4 =
        omega arith in
      rw (
        push_two,
        push_value_lem (o ++ (v1 * 4 + v2 / 16) ∷ []) (shift_in (shift_in a v1) v2) 4 v3 h3,
        byte,
      )

  push_four :
      v3 < 64
      → v4 < 64
      → push_value (push_value after_two v3) v4 ≡ record {
        out =
            ((o ++ (v1 * 4 + v2 / 16) ∷ []) ++ (v2 % 16 * 16 + v3 / 4) ∷ [])
            ++ (v3 % 4 * 64 + v4) ∷ [];
        accum = shift_in (shift_in (shift_in (shift_in a v1) v2) v3) v4;
        bits = 0;
      }
  push_four h3 h4 =
      let byte : shift_in (shift_in (shift_in (shift_in a v1) v2) v3) v4 / 2 ^ 0 % 2 ^ 8
          ≡ v3 % 4 * 64 + v4 =
        omega arith in
      rw (
        push_three h3,
        push_value_lem ((o ++ (v1 * 4 + v2 / 16) ∷ []) ++ (v2 % 16 * 16 + v3 / 4) ∷ [])
            (shift_in (shift_in (shift_in a v1) v2) v3) 2 v4 h4,
        byte,
      )

or_two : (p q : ℕ) → q < 256 → bit_or (p * 2 ^ 16) (q * 2 ^ 8) ≡ (p * 256 + q) * 2 ^ 8
or_two p q h = omega (arith, bit_or_fields 16 p (q * 2 ^ 8) (omega arith))

or_three :
    (p q r : ℕ)
    → q < 256
    → r < 256
    → bit_or (bit_or (p * 2 ^ 16) (q * 2 ^ 8)) r ≡ (p * 256 + q) * 2 ^ 8 + r
or_three p q r hq hr = rw (or_two p q hq) (bit_or_fields 8 (p * 256 + q) r hr)

decode_from-encode :
    (o : Bytes) (a : ℕ) (xs : Bytes)
    → All IsByte xs
    → decode_from (record { out = o; accum = a; bits = 0 }) (base64_encode xs) ≡ some (o ++ xs)
unfolding base64_encode
decode_from-encode o a [] h = unfold decode_from in simp append-nil
decode_from-encode o a (p ∷ []) (hp, _) =
    let n = p * 2 ^ 16 in
    let byte : n / 2 ^ 18 % 64 * 4 + n / 2 ^ 12 % 64 / 16 ≡ p = omega arith in
    rw
      (
        decode_from-encode_at n 18 (record { out = o; accum = a; bits = 0 }) _,
        decode_from-encode_at n 12 _ _,
        push_two o a (n / 2 ^ 18 % 64) (n / 2 ^ 12 % 64) 0 0 (omega arith) (omega arith),
        byte,
      )
      (unfold decode_from is_space in refl)
decode_from-encode o a (p ∷ q ∷ []) (hp, (hq, _)) =
    let n = (p * 256 + q) * 2 ^ 8 in
    let first : n / 2 ^ 18 % 64 * 4 + n / 2 ^ 12 % 64 / 16 ≡ p = omega arith in
    let second : n / 2 ^ 12 % 64 % 16 * 16 + n / 2 ^ 6 % 64 / 4 ≡ q = omega arith in
    rw
      (
        or_two p q hq,
        decode_from-encode_at n 18 (record { out = o; accum = a; bits = 0 }) _,
        decode_from-encode_at n 12 _ _,
        decode_from-encode_at n 6 _ _,
        push_three o a (n / 2 ^ 18 % 64) (n / 2 ^ 12 % 64) (n / 2 ^ 6 % 64) 0 (omega arith)
            (omega arith) (omega arith),
        first,
        second,
        append_assoc,
      )
      (unfold decode_from is_space in refl)
decode_from-encode o a (p ∷ q ∷ r ∷ rest) (hp, (hq, (hr, h))) =
    let n = (p * 256 + q) * 2 ^ 8 + r in
    let first : n / 2 ^ 18 % 64 * 4 + n / 2 ^ 12 % 64 / 16 ≡ p = omega arith in
    let second : n / 2 ^ 12 % 64 % 16 * 16 + n / 2 ^ 6 % 64 / 4 ≡ q = omega arith in
    let third : n / 2 ^ 6 % 64 % 4 * 64 + n / 2 ^ 0 % 64 ≡ r = omega arith in
    rw
      (
        or_three p q r hq hr,
        decode_from-encode_at n 18 (record { out = o; accum = a; bits = 0 }) _,
        decode_from-encode_at n 12 _ _,
        decode_from-encode_at n 6 _ _,
        decode_from-encode_at n 0 _ _,
        push_four o a (n / 2 ^ 18 % 64) (n / 2 ^ 12 % 64) (n / 2 ^ 6 % 64) (n / 2 ^ 0 % 64)
            (omega arith) (omega arith) (omega arith) (omega arith),
        first,
        second,
        third,
      )
      (decode_from-encode (((o ++ p ∷ []) ++ q ∷ []) ++ r ∷ []) _ rest h
        ∙ ap some (simp append_assoc))

-- Decoding what the encoder writes for a string of bytes gives the string back.
pub decode-encode : (xs : Bytes) → All IsByte xs → base64_decode (base64_encode xs) ≡ some xs
unfolding base64_decode
decode-encode xs h = decode_from-encode [] 0 xs h

-- ===== src/Base64.antt =====
-- src/core/base64.cpp: `base64_encode` and `base64_decode` over lists of bytes. A thrown
-- `std::invalid_argument` is `none`.
pub mod RoundTrip
pub mod Errors
mod Tests
use libapostol.Prelude.{
  ℕ, zero, suc, ◌+◌, ◌-◌, ◌*◌, ◌/◌, ◌%◌, ◌^◌, bit_and, bit_or, Bool, true, false, ◌&&◌, ◌||◌,
  Option, none, some, List, [], ◌∷◌, ◌++◌, Bytes, codes, get_or, ltb, leb, ◌==◌, if◌then◌else◌,
}

-- kEncodeTable
abbrev pub encode_table : Bytes
encode_table = codes "ABCDEFGHIJKLMNOPQRSTUVWXYZabcdefghijklmnopqrstuvwxyz0123456789+/"

-- kEncodeTable[(n >> shift) & 0x3F]
unfoldable pub encode_at : ℕ → ℕ → ℕ
encode_at n shift = get_or encode_table (bit_and (n / 2 ^ shift) 0x3f) 0

-- The loop over whole triples, and the padded tail of one or two bytes behind it.
unfoldable pub base64_encode : Bytes → Bytes
base64_encode [] = []
base64_encode (p ∷ []) = let n = p * 2 ^ 16 in encode_at n 18 ∷ encode_at n 12 ∷ b'=' ∷ b'=' ∷ []
base64_encode (p ∷ q ∷ []) =
    let n = bit_or (p * 2 ^ 16) (q * 2 ^ 8) in
    encode_at n 18 ∷ encode_at n 12 ∷ encode_at n 6 ∷ b'=' ∷ []
base64_encode (p ∷ q ∷ r ∷ rest) =
    let n = bit_or (bit_or (p * 2 ^ 16) (q * 2 ^ 8)) r in
    encode_at n 18 ∷ encode_at n 12 ∷ encode_at n 6 ∷ encode_at n 0 ∷ base64_encode rest

-- kDecodeTable[c], with `none` for -1
unfoldable pub decode_value : ℕ → Option ℕ
decode_value c =
    if leb b'A' c && ltb c (b'A' + 26)
    then some (c - b'A')
    else if leb b'a' c && ltb c (b'a' + 26)
    then some (c - b'a' + 26)
    else if leb b'0' c && ltb c (b'0' + 10)
    then some (c - b'0' + 52)
    else if c == b'+'
    then some 62
    else if c == b'/'
    then some 63
    else none

unfoldable pub is_space : ℕ → Bool
is_space c = c == b' ' || c == b'\n' || c == b'\r' || c == b'\t'

-- The loop's variables: the bytes written, the 32-bit accumulator, and how many of its low bits
-- are not written yet.
pub record Decoder : Type 0 where
  pub out : Bytes
  pub accum : ℕ
  pub bits : ℕ

-- The body of the loop for the value of one character.
unfoldable pub push_value : Decoder → ℕ → Decoder
push_value d val =
    let accum = bit_or (d.accum * 2 ^ 6 % 2 ^ 32) val in
    let bits = d.bits + 6 in
    if leb 8 bits
    then record {
      out = d.out ++ bit_and (accum / 2 ^ (bits - 8)) 0xff ∷ [];
      accum = accum;
      bits = bits - 8;
    }
    else record { out = d.out; accum = accum; bits = bits }

unfoldable pub decode_from : Decoder → Bytes → Option Bytes
decode_from d [] = some d.out
decode_from d (c ∷ cs) =
    if is_space c
    then decode_from d cs
    else if c == b'='
    then some d.out
    else elim (decode_value c) [ none ↦ none | some val ↦ decode_from (push_value d val) cs ]

unfoldable pub base64_decode : Bytes → Option Bytes
unfolding decode_from push_value decode_value is_space
base64_decode input = decode_from (record { out = []; accum = 0; bits = 0 }) input

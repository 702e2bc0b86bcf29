-- ===== src/Websocket/Frame/Header.antt =====
-- What the header bytes of a frame say, read back by the masks of the parser.
use libapostol.Prelude.{
  ℕ, zero, suc, ◌+◌, ◌*◌, ◌/◌, ◌%◌, ◌^◌, ◌<◌, bit_and, bit_or, ◌≡◌, refl, ap, Bool, true, false,
  ◌&&◌, not, [], ◌∷◌, ◌++◌, Bytes, length, get_or, ltb, ◌==◌, ==_iff, if◌then◌else◌, arith,
  all_below, all_below_sound, bit_and_ones, bit_or_fields, bit_xor_twice, length-append,
}
use libapostol.Websocket.Frame.{
  first_byte, len_bytes, xor_mask, mask_of, length_field, ws_build_frame, ws_build_client_frame,
}

abbrev same : Bool → Bool → Bool
same true b = b
same false b = not b

eq_of_same : (a b : Bool) → same a b ≡ true → a ≡ b
eq_of_same true true h = refl
eq_of_same true false h = cc
eq_of_same false true h = cc
eq_of_same false false h = refl

-- A byte whose top bit is set or not, over seven other bits.
abbrev flag : Bool → ℕ
flag m = if m then 0x80 else 0

abbrev fields_back : Bool → ℕ → Bool
fields_back m x =
    same (not (bit_and (bit_or (flag m) x) 0x80 == 0)) m && (bit_and (bit_or (flag m) x) 0x7f == x)

flag_table : (m : Bool) → all_below 128 (fields_back m) ≡ true
flag_table true = refl
flag_table false = refl

pub flag_fields :
    (m : Bool) (x : ℕ)
    → x < 128
    → (not (bit_and (bit_or (flag m) x) 0x80 == 0) ≡ m) × (bit_and (bit_or (flag m) x) 0x7f ≡ x)
flag_fields m x h =
    let (top, low) = halves _ _ (all_below_sound 128 (fields_back m) x (flag_table m) h) in
    (eq_of_same _ m top, (==_iff _ x).0 low)
  where
    halves : (a b : Bool) → (a && b) ≡ true → (a ≡ true) × (b ≡ true)
    halves a b e = ground arith

abbrev opcode_back : Bool → ℕ → Bool
opcode_back m x = bit_and (bit_or (flag m) x) 0x0f == x

opcode_table : (m : Bool) → all_below 16 (opcode_back m) ≡ true
opcode_table true = refl
opcode_table false = refl

-- Byte 0 holds the FIN flag and the opcode.
pub first_byte-fields :
    (op : ℕ) (fin : Bool)
    → op < 16
    → (not (bit_and (first_byte op fin) 0x80 == 0) ≡ fin) × (bit_and (first_byte op fin) 0x0f ≡ op)
unfolding first_byte
first_byte-fields op fin h = (
  (flag_fields fin op (omega arith)).0,
  (==_iff _ op).0 (all_below_sound 16 (opcode_back fin) op (opcode_table fin) h),
)

-- The two bytes of a 16-bit length, as the parser puts them together.
pub len16_back :
    (n : ℕ) → n < 65536 → bit_or (bit_and (n / 2 ^ 8) 0xff * 2 ^ 8) (bit_and n 0xff) ≡ n
len16_back n h =
    rw
      (
        bit_and_ones 8 (n / 2 ^ 8),
        bit_and_ones 8 n,
        bit_or_fields 8 (n / 2 ^ 8 % 2 ^ 8) (n % 2 ^ 8) (omega arith),
      )
      (omega arith)

-- One byte more of a 64-bit length.
pub len64_byte :
    (n i : ℕ) → n < 2 ^ 56 → bit_or (n * 2 ^ 8 % 2 ^ 64) (bit_and i 0xff) ≡ n * 256 + i % 256
len64_byte n i h =
    let fits : n * 2 ^ 8 % 2 ^ 64 ≡ n * 2 ^ 8 = omega arith in
    rw (fits, bit_and_ones 8 i) (bit_or_fields 8 n (i % 2 ^ 8) (omega arith))

length-len_bytes : (i n : ℕ) → length (len_bytes i n) ≡ i
unfolding len_bytes
length-len_bytes zero n = refl
length-len_bytes (suc i) n = omega (arith, length-len_bytes i n)

pub length-xor_mask : (mask : Bytes) (i : ℕ) (xs : Bytes) → length (xor_mask mask i xs) ≡ length xs
unfolding xor_mask
length-xor_mask mask i [] = refl
length-xor_mask mask i (x ∷ xs) = ap suc (length-xor_mask mask (i + 1) xs)

-- Masking twice with one mask gives the payload back.
pub xor_mask-xor_mask :
    (mask : Bytes) (i : ℕ) (xs : Bytes) → xor_mask mask i (xor_mask mask i xs) ≡ xs
unfolding xor_mask
xor_mask-xor_mask mask i [] = refl
xor_mask-xor_mask mask i (x ∷ xs) =
    rw (bit_xor_twice x (get_or mask (i % 4) 0), xor_mask-xor_mask mask (i + 1) xs)

-- A frame is its payload and 2, 4 or 10 bytes more: the shortest of the three forms that fits.
abbrev header_size : ℕ → ℕ
header_size n = if ltb n 126 then 2 else if ltb n 65536 then 4 else 10

length-length_field : (mask_bit n : ℕ) → length (length_field mask_bit n) + 1 ≡ header_size n
unfolding length_field len_bytes
length-length_field mask_bit n = ground arith

pub length-ws_build_frame :
    (opcode : ℕ) (payload : Bytes) (fin : Bool)
    → length (ws_build_frame opcode payload fin) ≡ header_size (length payload) + length payload
unfolding ws_build_frame
length-ws_build_frame opcode payload fin = omega (
  arith,
  length-append (length_field 0 (length payload)) payload,
  length-length_field 0 (length payload),
)

pub length-ws_build_client_frame :
    (r opcode : ℕ) (payload : Bytes) (fin : Bool)
    → length (ws_build_client_frame r opcode payload fin)
      ≡ header_size (length payload) + 4 + length payload
unfolding ws_build_client_frame mask_of
length-ws_build_client_frame r opcode payload fin =
    let mask = mask_of r in
    omega (
      arith,
      length-append (length_field 0x80 (length payload)) (mask ++ xor_mask mask 0 payload),
      length-length_field 0x80 (length payload),
      length-xor_mask mask 0 payload,
    )

-- ===== src/Websocket/Frame.antt =====
-- The opcodes and the frames that `ws_build_frame` and `ws_build_client_frame` write.
pub mod Header
use libapostol.Prelude.{
  ℕ, zero, suc, ◌+◌, ◌*◌, ◌/◌, ◌%◌, ◌^◌, bit_and, bit_or, bit_xor, Bool, List, [], ◌∷◌, ◌++◌, Bytes,
  length, get_or, ltb, if◌then◌else◌,
}

abbrev pub ws_op_continuation : ℕ
ws_op_continuation = 0x0

abbrev pub ws_op_text : ℕ
ws_op_text = 0x1

abbrev pub ws_op_binary : ℕ
ws_op_binary = 0x2

abbrev pub ws_op_close : ℕ
ws_op_close = 0x8

abbrev pub ws_op_ping : ℕ
ws_op_ping = 0x9

abbrev pub ws_op_pong : ℕ
ws_op_pong = 0xa

-- The bytes `(len >> (8 * i)) & 0xFF` for i from n - 1 down to 0.
unfoldable pub len_bytes : ℕ → ℕ → Bytes
len_bytes zero len = []
len_bytes (suc i) len = bit_and (len / 2 ^ (8 * i)) 0xff ∷ len_bytes i len

-- Byte 1 and the extended length; `mask_bit` is 0x80 in a client's frame and 0 in a server's.
unfoldable pub length_field : ℕ → ℕ → Bytes
length_field mask_bit len =
    if ltb len 126
    then bit_or mask_bit len ∷ []
    else if ltb len 65536
    then bit_or mask_bit 126 ∷ bit_and (len / 2 ^ 8) 0xff ∷ bit_and len 0xff ∷ []
    else bit_or mask_bit 127 ∷ len_bytes 8 len

unfoldable pub first_byte : ℕ → Bool → ℕ
first_byte opcode fin = bit_or (if fin then 0x80 else 0x00) opcode

unfoldable pub ws_build_frame : ℕ → Bytes → Bool → Bytes
ws_build_frame opcode payload fin =
    first_byte opcode fin ∷ length_field 0 (length payload) ++ payload

-- The four bytes of the random word `r`, which the program draws from mt19937.
unfoldable pub mask_of : ℕ → Bytes
mask_of r =
    bit_and (r / 2 ^ 24) 0xff
    ∷ bit_and (r / 2 ^ 16) 0xff
    ∷ bit_and (r / 2 ^ 8) 0xff
    ∷ bit_and r 0xff
    ∷ []

-- `payload[i] ^ mask[i % 4]`, from index i on.
unfoldable pub xor_mask : Bytes → ℕ → Bytes → Bytes
xor_mask mask i [] = []
xor_mask mask i (x ∷ xs) = bit_xor x (get_or mask (i % 4) 0) ∷ xor_mask mask (i + 1) xs

unfoldable pub ws_build_client_frame : ℕ → ℕ → Bytes → Bool → Bytes
ws_build_client_frame r opcode payload fin =
    first_byte opcode fin ∷ length_field 0x80 (length payload)
    ++ (mask_of r ++ xor_mask (mask_of r) 0 payload)

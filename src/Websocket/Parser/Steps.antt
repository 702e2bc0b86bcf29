-- ===== src/Websocket/Parser/Steps.antt =====
-- The parser's rounds over one frame: the header in each of its three forms, the mask, the payload.
use libapostol.Prelude.{
  ℕ, suc, ◌/◌, ◌^◌, ◌<◌, bit_and, bit_or, ◌≡◌, refl, ap, ◌∙◌, Bool, true, false, some, [], ◌∷◌,
  ◌++◌, Bytes, length, ltb, if◌then◌else◌, Bool-cases, inl, inr, arith, take_all, drop_all, lt→ltb,
}
use libapostol.Websocket.Frame.{first_byte, length_field, len_bytes, mask_of}
use libapostol.Websocket.Frame.Header.{flag_fields, first_byte-fields, len16_back, len64_byte}
use libapostol.Websocket.Parser.{
  State, header, ext_len16, ext_len64, payload, WsParser, process_header, process_ext_len16,
  process_ext_len64, process_mask_key, process_payload, read_len64, deliver_frame, after_length,
  round, process,
}
use libapostol.Websocket.Parser.Rounds.{process-round}

read_len64-byte :
    (hi v : ℕ) (bs : Bytes)
    → hi ≡ v / 256
    → v < 2 ^ 64
    → read_len64 hi (bit_and v 0xff ∷ bs) ≡ read_len64 v bs
unfolding read_len64
read_len64-byte hi v bs e h =
    ap (λ (t : ℕ). read_len64 t bs) (omega (arith, len64_byte hi v (omega arith)))

-- The eight bytes of a 64-bit length.
read_len64-len_bytes : (n : ℕ) → n < 2 ^ 64 → read_len64 0 (len_bytes 8 n) ≡ n / 2 ^ 0
unfolding len_bytes
read_len64-len_bytes n h =
    rw
      (
        read_len64-byte 0 (n / 2 ^ 56) _ (omega arith) (omega arith),
        read_len64-byte (n / 2 ^ 56) (n / 2 ^ 48) _ (omega arith) (omega arith),
        read_len64-byte (n / 2 ^ 48) (n / 2 ^ 40) _ (omega arith) (omega arith),
        read_len64-byte (n / 2 ^ 40) (n / 2 ^ 32) _ (omega arith) (omega arith),
        read_len64-byte (n / 2 ^ 32) (n / 2 ^ 24) _ (omega arith) (omega arith),
        read_len64-byte (n / 2 ^ 24) (n / 2 ^ 16) _ (omega arith) (omega arith),
        read_len64-byte (n / 2 ^ 16) (n / 2 ^ 8) _ (omega arith) (omega arith),
        read_len64-byte (n / 2 ^ 8) (n / 2 ^ 0) _ (omega arith) (omega arith),
      )
      (unfold read_len64 in refl)

module _ (p : WsParser) (clean : p.error ≡ []) (op : ℕ) (op_fits : op < 16) (fin m : Bool) where
  -- The parser behind the header of a frame of `n` bytes.
  abbrev pub headed : ℕ → Bytes → WsParser
  headed n t = record p {
    state = after_length m;
    buf = t;
    fin = fin;
    opcode = op;
    masked = m;
    payload_len = n;
    payload = [];
  }

  abbrev pub mask_bit : ℕ
  mask_bit = if m then 0x80 else 0

  header-short :
      (n : ℕ) (t : Bytes)
      → n < 126
      → process_header
          (record p { state = header; buf = first_byte op fin ∷ bit_or mask_bit n ∷ t })
        ≡ some (headed n t)
  unfolding process_header
  header-short n t h =
      let (is_fin, is_op) = first_byte-fields op fin op_fits in
      let (is_masked, is_len) = flag_fields m n (omega arith) in
      let two : ltb (suc (suc (length t))) 2 ≡ false = ground arith in
      let short : ltb n 126 ≡ true = lt→ltb n 126 h in
      rw (two, is_fin, is_op, is_masked, is_len, short)

  -- The parser that waits for an extended length.
  abbrev waiting : State → Bytes → WsParser
  waiting st t = record p { state = st; buf = t; fin = fin; opcode = op; masked = m; payload = [] }

  header-126 :
      (t : Bytes)
      → process_header
          (record p { state = header; buf = first_byte op fin ∷ bit_or mask_bit 126 ∷ t })
        ≡ some (waiting ext_len16 t)
  unfolding process_header
  header-126 t =
      let (is_fin, is_op) = first_byte-fields op fin op_fits in
      let (is_masked, is_len) = flag_fields m 126 (omega arith) in
      let two : ltb (suc (suc (length t))) 2 ≡ false = ground arith in
      rw (two, is_fin, is_op, is_masked, is_len)

  header-127 :
      (t : Bytes)
      → process_header
          (record p { state = header; buf = first_byte op fin ∷ bit_or mask_bit 127 ∷ t })
        ≡ some (waiting ext_len64 t)
  unfolding process_header
  header-127 t =
      let (is_fin, is_op) = first_byte-fields op fin op_fits in
      let (is_masked, is_len) = flag_fields m 127 (omega arith) in
      let two : ltb (suc (suc (length t))) 2 ≡ false = ground arith in
      rw (two, is_fin, is_op, is_masked, is_len)

  ext_len16-headed :
      (n : ℕ) (t : Bytes)
      → n < 65536
      → process_ext_len16 (waiting ext_len16 (bit_and (n / 2 ^ 8) 0xff ∷ bit_and n 0xff ∷ t))
        ≡ some (headed n t)
  unfolding process_ext_len16
  ext_len16-headed n t h =
      let two : ltb (suc (suc (length t))) 2 ≡ false = ground arith in rw (two, len16_back n h)

  ext_len64-headed :
      (n : ℕ) (t : Bytes)
      → n < 2 ^ 64
      → process_ext_len64 (waiting ext_len64 (len_bytes 8 n ++ t)) ≡ some (headed n t)
  unfolding process_ext_len64 len_bytes
  ext_len64-headed n t h =
      let eight : ltb (suc (suc (suc (suc (suc (suc (suc (suc (length t))))))))) 8 ≡ false =
        ground arith in
      let whole : n / 2 ^ 0 ≡ n = omega arith in rw (eight, read_len64-len_bytes n h, whole)

  -- The header and the length, in whichever of the three forms.
  pub process-length_field :
      (n : ℕ) (t : Bytes)
      → n < 2 ^ 64
      → process
          (record p { state = header; buf = first_byte op fin ∷ (length_field mask_bit n ++ t) })
        ≡ process (headed n t)
  unfolding length_field round
  process-length_field n t h = elim (Bool-cases (ltb n 126)) [
    | inl short ↦ rw short (process-round _ _ clean (header-short n t (ground arith)))
    | inr long ↦ elim (Bool-cases (ltb n 65536)) [
      | inl medium ↦
          rw (long, medium)
            (process-round _ _ clean (header-126 _)
              ∙ process-round _ _ clean (ext_len16-headed n t (ground arith)))
      | inr big ↦
          rw (long, big)
            (process-round _ _ clean (header-127 _)
              ∙ process-round _ _ clean (ext_len64-headed n t h))
    ]
  ]

pub process_mask_key-mask_of :
    (r : ℕ) (p : WsParser) (t : Bytes)
    → process_mask_key (record p { buf = mask_of r ++ t })
      ≡ some (record p { mask_key = mask_of r; buf = t; state = payload })
unfolding process_mask_key mask_of
process_mask_key-mask_of r p t =
    let four : ltb (suc (suc (suc (suc (length t))))) 4 ≡ false = ground arith in rw four

pub process_payload-whole :
    (p : WsParser) (n : ℕ) (xs : Bytes)
    → n ≡ length xs
    → process_payload (record p { payload_len = n; buf = xs })
      ≡ some (deliver_frame (record p { payload_len = n; payload = xs; buf = []; state = header }))
unfolding process_payload
process_payload-whole p n xs e =
    let enough : ltb (length xs) n ≡ false = ground arith in
    rw (enough, take_all xs n e, drop_all xs n e)

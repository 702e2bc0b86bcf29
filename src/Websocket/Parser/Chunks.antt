-- ===== src/Websocket/Parser/Chunks.antt =====
-- How the bytes are cut into calls of `feed` makes no difference.
use libapostol.Prelude.{
  ℕ, zero, suc, ◌≤◌, ◌<◌, ◌≡◌, refl, ap, sym, ◌∙◌, Option, none, some, [], ◌∷◌, ◌++◌, append_assoc,
  Bytes, length, get_or, take, drop, is_empty, leb, length-append, take-append, drop-append,
  Bool-cases, Option-cases, inl, inr, arith,
}
use libapostol.Websocket.Parser.Rounds.{round-Progress, process-stop, process-round}
use libapostol.Websocket.Parser.{
  State, header, ext_len16, ext_len64, mask_key, payload, WsParser, process_header,
  process_ext_len16, process_ext_len64, process_mask_key, process_payload, deliver_frame,
  deliver_data, unmask, round, rounds, process, feed,
}

-- More bytes behind those that the parser holds.
abbrev pub append : Bytes → WsParser → WsParser
append b p = record p { buf = p.buf ++ b }

abbrev append_to : Bytes → Option WsParser → Option WsParser
append_to b none = none
append_to b (some p) = some (append b p)

get_or-append : (i : ℕ) (xs ys : Bytes) → i < length xs → get_or (xs ++ ys) i 0 ≡ get_or xs i 0
get_or-append i [] ys h = absurd (omega arith)
get_or-append zero (x ∷ xs) ys h = refl
get_or-append (suc i) (x ∷ xs) ys h = get_or-append i xs ys (omega arith)

deliver_data-append :
    (b : Bytes) (p : WsParser) → deliver_data (append b p) ≡ append b (deliver_data p)
unfolding deliver_data
deliver_data-append b p = elim (Bool-cases p.fin) [ inl last ↦ rw last | inr more ↦ rw more ]

deliver_frame-append :
    (b : Bytes) (p : WsParser) → deliver_frame (append b p) ≡ append b (deliver_frame p)
unfolding deliver_frame unmask
deliver_frame-append b p = elim (Bool-cases (leb 8 p.opcode)) [
  | inl control ↦ rw control
  | inr more ↦ rw more (deliver_data-append b (unmask p))
]

process_header-append :
    (b : Bytes) (p q : WsParser)
    → process_header p ≡ some q
    → process_header (append b p) ≡ some (append b q)
unfolding process_header
process_header-append b p q e = ground (
  arith,
  length-append p.buf b,
  get_or-append 0 p.buf b,
  get_or-append 1 p.buf b,
  drop-append 2 p.buf b,
)

process_ext_len16-append :
    (b : Bytes) (p q : WsParser)
    → process_ext_len16 p ≡ some q
    → process_ext_len16 (append b p) ≡ some (append b q)
unfolding process_ext_len16
process_ext_len16-append b p q e = ground (
  arith,
  length-append p.buf b,
  get_or-append 0 p.buf b,
  get_or-append 1 p.buf b,
  drop-append 2 p.buf b,
)

process_ext_len64-append :
    (b : Bytes) (p q : WsParser)
    → process_ext_len64 p ≡ some q
    → process_ext_len64 (append b p) ≡ some (append b q)
unfolding process_ext_len64
process_ext_len64-append b p q e =
    ground (arith, length-append p.buf b, take-append 8 p.buf b, drop-append 8 p.buf b)

process_mask_key-append :
    (b : Bytes) (p q : WsParser)
    → process_mask_key p ≡ some q
    → process_mask_key (append b p) ≡ some (append b q)
unfolding process_mask_key
process_mask_key-append b p q e =
    ground (arith, length-append p.buf b, take-append 4 p.buf b, drop-append 4 p.buf b)

-- The frame that a complete payload leaves behind, before it is delivered.
abbrev pub framed : WsParser → WsParser
framed p = record p {
  payload = take p.payload_len p.buf;
  buf = drop p.payload_len p.buf;
  state = header;
}

framed-append :
    (b : Bytes) (p : WsParser)
    → p.payload_len ≤ length p.buf
    → framed (append b p) ≡ append b (framed p)
framed-append b p h = rw (take-append p.payload_len p.buf b h, drop-append p.payload_len p.buf b h)

process_payload-append :
    (b : Bytes) (p q : WsParser)
    → process_payload p ≡ some q
    → process_payload (append b p) ≡ some (append b q)
unfolding process_payload
process_payload-append b p q e =
    ground (arith, length-append p.buf b, framed-append b p, deliver_frame-append b (framed p))

-- A round that makes progress makes the same progress with more bytes at hand.
round-append :
    (b : Bytes) (st : State) (p q : WsParser)
    → round st p ≡ some q
    → round st (append b p) ≡ some (append b q)
unfolding round
round-append b header = process_header-append b
round-append b ext_len16 = process_ext_len16-append b
round-append b ext_len64 = process_ext_len64-append b
round-append b mask_key = process_mask_key-append b
round-append b payload = process_payload-append b

-- Processing what there is before the rest arrives changes nothing.
process-append :
    (n : ℕ) (b : Bytes) (p : WsParser)
    → rounds p < n
    → p.error ≡ []
    → (process (append b (process p)) ≡ process (append b p)) × ((process p).error ≡ [])
process-append zero b p h clean = absurd (omega arith)
process-append (suc n) b p h clean = elim (Option-cases (round p.state p)) [
  | inl stop ↦ rw (process-stop p stop) (refl, clean)
  | inr (q, go) ↦
      let (less, same) = round-Progress p.state p q refl go in
      let (later, still) = process-append n b q (omega arith) (same ∙ clean) in
      rw (process-round p q clean go) (
        later ∙ sym (process-round (append b p) (append b q) clean (round-append b p.state p q go)),
        still,
      )
]

-- Feeding two pieces one after the other leaves the parser, the messages delivered included, as
-- feeding them at once does.
pub feed-append :
    (p : WsParser) (a b : Bytes) → p.error ≡ [] → feed (feed p a).0 b ≡ feed p (a ++ b)
unfolding feed
feed-append p a b clean =
    let (twice, _) =
      process-append (suc (rounds (append a p))) b (append a p) (omega arith) clean in
    let once = ap (λ (t : Bytes). process (record p { buf = t })) (append_assoc p.buf a b) in
    ap (λ (q : WsParser). (q, is_empty q.error)) (twice ∙ once)

-- ===== src/Websocket/Parser/Rounds.antt =====
-- The loop of `process` ends by its own test: every round that makes progress lowers `rounds`, so
-- the count that `process` starts with is never used up.
use libapostol.Prelude.{
  ℕ, zero, suc, ◌≤◌, ◌<◌, ◌≡◌, refl, ap, ◌∙◌, Bool, true, false, none, some, [], ◌++◌, Bytes, drop,
  take, is_empty, leb, if◌then◌else◌, length-drop, Bool-cases, Option-cases, inl, inr, arith,
}
use libapostol.Websocket.Parser.{
  State, header, ext_len16, ext_len64, mask_key, payload, WsParser, process_header,
  process_ext_len16, process_ext_len64, process_mask_key, process_payload, deliver_frame,
  deliver_data, unmask, round, process_loop, rounds, process, feed, in_payload,
}

abbrev pub Progress : WsParser → WsParser → Type 0
Progress p q = (rounds q < rounds p) × (q.error ≡ p.error)

after_length-in_payload : (masked : Bool) → in_payload (if masked then mask_key else payload) ≤ 1
after_length-in_payload true = omega arith
after_length-in_payload false = omega arith

deliver_data-keeps :
    (p : WsParser)
    → ((deliver_data p).buf ≡ p.buf)
      × ((deliver_data p).state ≡ p.state)
      × ((deliver_data p).error ≡ p.error)
      × ((deliver_data p).handler ≡ p.handler)
unfolding deliver_data
deliver_data-keeps p = elim (Bool-cases p.fin) [
  | inl last ↦ rw last (refl, refl, refl, refl)
  | inr more ↦ rw more (refl, refl, refl, refl)
]

pub deliver_frame-keeps :
    (p : WsParser)
    → ((deliver_frame p).buf ≡ p.buf)
      × ((deliver_frame p).state ≡ p.state)
      × ((deliver_frame p).error ≡ p.error)
      × ((deliver_frame p).handler ≡ p.handler)
unfolding deliver_frame unmask
deliver_frame-keeps p = elim (Bool-cases (leb 8 p.opcode)) [
  | inl control ↦ rw control (refl, refl, refl, refl)
  | inr more ↦ rw more (deliver_data-keeps (unmask p))
]

process_header-Progress :
    (p q : WsParser) → p.state ≡ header → process_header p ≡ some q → Progress p q
unfolding process_header
process_header-Progress p q s e = ground (arith, length-drop 2 p.buf)

process_ext_len16-Progress :
    (p q : WsParser) → p.state ≡ ext_len16 → process_ext_len16 p ≡ some q → Progress p q
unfolding process_ext_len16
process_ext_len16-Progress p q s e = ground (arith, length-drop 2 p.buf)

process_ext_len64-Progress :
    (p q : WsParser) → p.state ≡ ext_len64 → process_ext_len64 p ≡ some q → Progress p q
unfolding process_ext_len64
process_ext_len64-Progress p q s e = ground (arith, length-drop 8 p.buf)

process_mask_key-Progress :
    (p q : WsParser) → p.state ≡ mask_key → process_mask_key p ≡ some q → Progress p q
unfolding process_mask_key
process_mask_key-Progress p q s e = ground (arith, length-drop 4 p.buf)

process_payload-Progress :
    (p q : WsParser) → p.state ≡ payload → process_payload p ≡ some q → Progress p q
unfolding process_payload
process_payload-Progress p q s e =
    let framed : WsParser = record p {
      payload = take p.payload_len p.buf;
      buf = drop p.payload_len p.buf;
      state = header;
    } in
    ground (arith, length-drop p.payload_len p.buf, deliver_frame-keeps framed)

pub round-Progress :
    (st : State) (p q : WsParser) → p.state ≡ st → round st p ≡ some q → Progress p q
unfolding round
round-Progress header = process_header-Progress
round-Progress ext_len16 = process_ext_len16-Progress
round-Progress ext_len64 = process_ext_len64-Progress
round-Progress mask_key = process_mask_key-Progress
round-Progress payload = process_payload-Progress

-- Any two counts above the measure give the same end of the loop.
process_loop-count :
    (f g : ℕ) (p : WsParser) → rounds p < f → rounds p < g → process_loop f p ≡ process_loop g p
unfolding process_loop
process_loop-count zero g p hf hg = absurd (omega arith)
process_loop-count (suc f) zero p hf hg = absurd (omega arith)
process_loop-count (suc f) (suc g) p hf hg = elim (Option-cases (round p.state p)) [
  | inl stop ↦ rw (stop, process_loop)
  | inr (q, go) ↦
      let (less, _) = round-Progress p.state p q refl go in
      rw (go, process_loop)
        (ap (λ t. if is_empty q.error then t else q)
          (process_loop-count f g q (omega arith) (omega arith)))
]

-- `process` is its rounds: it stops where one makes no progress, and goes on after one that does.
pub process-stop : (p : WsParser) → round p.state p ≡ none → process p ≡ p
unfolding process process_loop
process-stop p stop = rw (stop, process_loop)

pub process-round :
    (p q : WsParser) → p.error ≡ [] → round p.state p ≡ some q → process p ≡ process q
unfolding process process_loop
process-round p q clean go =
    let (less, same) = round-Progress p.state p q refl go in
    let empty : is_empty q.error ≡ true = ap is_empty (same ∙ clean) in
    rw (go, process_loop, empty)
      (process_loop-count (rounds p) (suc (rounds q)) q less (omega arith))

process-quiescent :
    (n : ℕ) (p : WsParser)
    → rounds p < n
    → p.error ≡ []
    → (round (process p).state (process p) ≡ none) × ((process p).error ≡ [])
process-quiescent zero p h clean = absurd (omega arith)
process-quiescent (suc n) p h clean = elim (Option-cases (round p.state p)) [
  | inl stop ↦ rw (process-stop p stop) (stop, clean)
  | inr (q, go) ↦
      let (less, same) = round-Progress p.state p q refl go in
      rw (process-round p q clean go) (process-quiescent n q (omega arith) (same ∙ clean))
]

-- Every call of `feed` ends, returns true and leaves a parser that needs more bytes to go on: no
-- input makes it report a protocol error.
pub feed-quiescent :
    (p : WsParser) (b : Bytes)
    → p.error ≡ []
    → ((feed p b).1 ≡ true)
      × (round (feed p b).0.state (feed p b).0 ≡ none)
      × ((feed p b).0.error ≡ [])
unfolding feed
feed-quiescent p b clean =
    let start : WsParser = record p { buf = p.buf ++ b } in
    let (still, same) = process-quiescent (suc (rounds start)) start (omega arith) clean in
    (ap is_empty same, still, same)

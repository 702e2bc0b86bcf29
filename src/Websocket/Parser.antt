-- ===== src/Websocket/Parser.antt =====
-- `WsParser`: the push parser for frames, with fragment reassembly. `delivered` is what the calls
-- of the message handler have received, oldest first.
pub mod Rounds
pub mod Chunks
mod Steps
pub mod Delivery
pub mod Conversation
mod Tests
use libapostol.Prelude.{
  ℕ, zero, suc, ◌+◌, ◌-◌, ◌*◌, ◌/◌, ◌%◌, ◌^◌, bit_and, bit_or, Bool, true, false, not, Option, none,
  some, List, [], ◌∷◌, ◌++◌, Bytes, length, get_or, take, drop, is_empty, ltb, leb, ◌==◌,
  if◌then◌else◌,
}
use libapostol.Websocket.Frame.{ws_op_continuation, xor_mask}

pub data State : Type 0 where
  header ext_len16 ext_len64 mask_key payload : State

pub record Message : Type 0 where
  pub opcode : ℕ
  pub payload : Bytes

pub record WsParser : Type 0 where
  pub state : State
  pub buf : Bytes
  pub fin : Bool
  pub opcode : ℕ
  pub masked : Bool
  pub payload_len : ℕ
  pub mask_key : Bytes
  pub payload : Bytes
  pub frag_opcode : ℕ
  pub frag_payload : Bytes
  pub error : Bytes
  pub handler : Bool
  pub delivered : List Message

-- The state of a parser that is just constructed.
abbrev pub new_parser : WsParser
new_parser = record {
  state = header;
  buf = [];
  fin = false;
  opcode = 0;
  masked = false;
  payload_len = 0;
  mask_key = 0 ∷ 0 ∷ 0 ∷ 0 ∷ [];
  payload = [];
  frag_opcode = 0;
  frag_payload = [];
  error = [];
  handler = false;
  delivered = [];
}

unfoldable pub set_handler : WsParser → WsParser
set_handler p = record p { handler = true }

-- `if (handler_) handler_(opcode, payload)`
abbrev pub call_handler : WsParser → ℕ → Bytes → List Message
call_handler p op text =
    if p.handler then p.delivered ++ record { opcode = op; payload = text } ∷ [] else p.delivered

-- `masked_ ? State::MaskKey : State::Payload`
abbrev pub after_length : Bool → State
after_length masked = if masked then mask_key else payload

-- Each `process_…` is `none` where the source returns false, which leaves the parser as it is.
unfoldable pub process_header : WsParser → Option WsParser
process_header p =
    if ltb (length p.buf) 2
    then none
    else let b0 = get_or p.buf 0 0 in
      let b1 = get_or p.buf 1 0 in
      let masked = not (bit_and b1 0x80 == 0) in
      let len7 = bit_and b1 0x7f in
      let q = record p {
        fin = not (bit_and b0 0x80 == 0);
        opcode = bit_and b0 0x0f;
        masked = masked;
        buf = drop 2 p.buf;
        payload = [];
      } in
      some (
        if ltb len7 126
        then record q { payload_len = len7; state = after_length masked }
        else if len7 == 126
        then record q { state = ext_len16 }
        else record q { state = ext_len64 })

unfoldable pub process_ext_len16 : WsParser → Option WsParser
process_ext_len16 p =
    if ltb (length p.buf) 2
    then none
    else some (record p {
      payload_len = bit_or (get_or p.buf 0 0 * 2 ^ 8) (get_or p.buf 1 0);
      buf = drop 2 p.buf;
      state = after_length p.masked;
    })

-- `for (i < 8) payload_len_ = (payload_len_ << 8) | buf_[i]`
unfoldable pub read_len64 : ℕ → Bytes → ℕ
read_len64 acc [] = acc
read_len64 acc (b ∷ bs) = read_len64 (bit_or (acc * 2 ^ 8 % 2 ^ 64) b) bs

unfoldable pub process_ext_len64 : WsParser → Option WsParser
process_ext_len64 p =
    if ltb (length p.buf) 8
    then none
    else some (record p {
      payload_len = read_len64 0 (take 8 p.buf);
      buf = drop 8 p.buf;
      state = after_length p.masked;
    })

unfoldable pub process_mask_key : WsParser → Option WsParser
process_mask_key p =
    if ltb (length p.buf) 4
    then none
    else some (record p { mask_key = take 4 p.buf; buf = drop 4 p.buf; state = payload })

-- The unmasking in front of `deliver_frame`.
unfoldable pub unmask : WsParser → WsParser
unmask p = record p { payload = if p.masked then xor_mask p.mask_key 0 p.payload else p.payload }

-- A data frame: the first fragment replaces the message under way, a continuation extends it, and
-- the last one delivers it.
unfoldable pub deliver_data : WsParser → WsParser
deliver_data p =
    let frag_opcode = if p.opcode == ws_op_continuation then p.frag_opcode else p.opcode in
    let frag_payload =
      if p.opcode == ws_op_continuation then p.frag_payload ++ p.payload else p.payload in
    if p.fin
    then record p {
      frag_opcode = frag_opcode;
      frag_payload = [];
      delivered = call_handler p frag_opcode frag_payload;
      payload = [];
    }
    else record p { frag_opcode = frag_opcode; frag_payload = frag_payload; payload = [] }

unfoldable pub deliver_frame : WsParser → WsParser
deliver_frame p =
    let q = unmask p in
    if leb 0x8 q.opcode
    then record q { delivered = call_handler q q.opcode q.payload; payload = [] }
    else deliver_data q

unfoldable pub process_payload : WsParser → Option WsParser
process_payload p =
    if ltb (length p.buf) p.payload_len
    then none
    else some (
        deliver_frame (record p {
          payload = take p.payload_len p.buf;
          buf = drop p.payload_len p.buf;
          state = header;
        }))

-- One round of the loop of `process`.
unfoldable pub round : State → WsParser → Option WsParser
round header p = process_header p
round ext_len16 p = process_ext_len16 p
round ext_len64 p = process_ext_len64 p
round mask_key p = process_mask_key p
round payload p = process_payload p

-- What a test of the parser has to see through.
unfoldable pub run_round : Unit {0}
unfolding round process_header process_ext_len16 process_ext_len64 process_mask_key process_payload
    read_len64 deliver_frame deliver_data unmask xor_mask
run_round = tt

-- The loop: it ends where a round makes no progress, or an error is set.
unfoldable pub process_loop : ℕ → WsParser → WsParser
process_loop zero p = p
process_loop (suc fuel) p = elim (round p.state p) [
  | none ↦ p
  | some q ↦ if is_empty q.error then process_loop fuel q else q
]

-- A round takes bytes off the buffer, or leaves the state `Payload`: so many rounds at most.
abbrev pub in_payload : State → ℕ
in_payload payload = 1
in_payload _ = 0

abbrev pub rounds : WsParser → ℕ
rounds p = 2 * length p.buf + in_payload p.state

unfoldable pub process : WsParser → WsParser
process p = process_loop (suc (rounds p)) p

-- `feed`, with the `error_.empty()` that it returns.
unfoldable pub feed : WsParser → Bytes → WsParser × Bool
unfolding process process_loop run_round
feed p bytes = let q = process (record p { buf = p.buf ++ bytes }) in (q, is_empty q.error)

-- ===== src/Websocket/Parser/Delivery.antt =====
-- Frames that are written by `ws_build_frame` or `ws_build_client_frame` and fed to the parser.
use libapostol.Prelude.{
  ℕ, ◌^◌, ◌<◌, ◌≡◌, ◌≢◌, refl, ap, sym, ◌∙◌, Bool, true, false, Option, none, some, List, [], ◌∷◌,
  ◌++◌, append_assoc, append-nil, Bytes, All, length, leb, is_empty, ◌==◌, if◌then◌else◌,
  Bool-cases, inl, inr, arith,
}
use libapostol.Websocket.Frame.{
  ws_op_continuation, mask_of, xor_mask, ws_build_frame, ws_build_client_frame,
}
use libapostol.Websocket.Frame.Header.{length-xor_mask, xor_mask-xor_mask}
use libapostol.Websocket.Parser.{
  header, payload, Message, WsParser, deliver_frame, deliver_data, unmask, process_header, round,
  process, feed,
}
use libapostol.Websocket.Parser.Rounds.{process-stop, process-round, deliver_frame-keeps}
use libapostol.Websocket.Parser.Steps.{
  headed, process-length_field, process_mask_key-mask_of, process_payload-whole,
}
use libapostol.Websocket.Parser.Chunks.{feed-append}

-- One frame to be sent: `mask` is the random word of a client's frame, and none in a server's.
pub record Frame : Type 0 where
  pub opcode : ℕ
  pub text : Bytes
  pub fin : Bool
  pub mask : Option ℕ

abbrev wire_of : Option ℕ → ℕ → Bytes → Bool → Bytes
wire_of none op text fin = ws_build_frame op text fin
wire_of (some r) op text fin = ws_build_client_frame r op text fin

abbrev pub wire : Frame → Bytes
wire f = wire_of f.mask f.opcode f.text f.fin

abbrev pub wire_all : List Frame → Bytes
wire_all [] = []
wire_all (f ∷ fs) = wire f ++ wire_all fs

-- The opcode fits its four bits and the length its 64.
pub record IsSendable (f : Frame) : Type 0 where
  pub opcode : f.opcode < 16
  pub size : length f.text < 2 ^ 64

-- The parser between two frames, with a handler to call.
pub record IsIdle (p : WsParser) : Type 0 where
  pub state : p.state ≡ header
  pub buf : p.buf ≡ []
  pub error : p.error ≡ []
  pub handler : p.handler ≡ true

-- What is reassembled so far: the message under way, and those that are complete.
pub record Assembly : Type 0 where
  pub opcode : ℕ
  pub text : Bytes
  pub messages : List Message

abbrev pub view : WsParser → Assembly
view p = record { opcode = p.frag_opcode; text = p.frag_payload; messages = p.delivered }

-- What the parser makes of a frame: control frames stand alone, also between fragments; a frame that
-- is no continuation begins a message, a continuation goes on with it, and FIN completes it. It is
-- no account of RFC 6455: the parser has no error for a continuation of nothing, for a data frame
-- amid a fragmented message, or for a control frame without FIN.
abbrev pub complete : ℕ → Bytes → Assembly → Assembly
complete op text a = record a {
  messages = a.messages ++ record { opcode = op; payload = text } ∷ [];
}

abbrev pub fragment : Bool → Assembly → Assembly
fragment true a = record (complete a.opcode a.text a) { text = [] }
fragment false a = a

abbrev pub accept : Frame → Assembly → Assembly
accept f a =
    if leb 8 f.opcode
    then complete f.opcode f.text a
    else fragment f.fin (
        if f.opcode == ws_op_continuation
        then record a { text = a.text ++ f.text }
        else record a { opcode = f.opcode; text = f.text })

abbrev pub accept_all : List Frame → Assembly → Assembly
accept_all [] a = a
accept_all (f ∷ fs) a = accept_all fs (accept f a)

deliver_data-view :
    (f : Frame) (p : WsParser)
    → p.handler ≡ true
    → p.opcode ≡ f.opcode
    → p.payload ≡ f.text
    → p.fin ≡ f.fin
    → leb 8 f.opcode ≡ false
    → view (deliver_data p) ≡ accept f (view p)
unfolding deliver_data
deliver_data-view f p h o t l d = ground arith

deliver_frame-view :
    (f : Frame) (p : WsParser)
    → p.handler ≡ true
    → p.opcode ≡ f.opcode
    → (unmask p).payload ≡ f.text
    → p.fin ≡ f.fin
    → view (deliver_frame p) ≡ accept f (view p)
unfolding deliver_frame unmask
deliver_frame-view f p h o t l = elim (Bool-cases (leb 8 f.opcode)) [
  | inl control ↦ ground arith
  | inr more ↦
      let data_frame : leb 8 p.opcode ≡ false = rw o more in
      rw data_frame (deliver_data-view f (unmask p) h o t l more)
]

-- The payload as it stands on the wire, and the parser that has read all of the frame.
abbrev on_wire : Option ℕ → Bytes → Bytes
on_wire none text = text
on_wire (some r) text = xor_mask (mask_of r) 0 text

abbrev key_of : Option ℕ → Bytes → Bytes
key_of none key = key
key_of (some r) key = mask_of r

abbrev is_masked : Option ℕ → Bool
is_masked none = false
is_masked (some r) = true

abbrev received : Frame → WsParser → WsParser
received f p = record p {
  state = header;
  buf = [];
  fin = f.fin;
  opcode = f.opcode;
  masked = is_masked f.mask;
  payload_len = length f.text;
  mask_key = key_of f.mask p.mask_key;
  payload = on_wire f.mask f.text;
}

module _ (p : WsParser) (clean : p.error ≡ []) (op : ℕ) (text : Bytes) (fin : Bool) where
  abbrev sent : Option ℕ → Frame
  sent mask = record { opcode = op; text = text; fin = fin; mask = mask }

  process-wire_of :
      (mask : Option ℕ)
      → op < 16
      → length text < 2 ^ 64
      → process (record p { state = header; buf = wire_of mask op text fin })
        ≡ process (deliver_frame (received (sent mask) p))
  unfolding ws_build_frame ws_build_client_frame round
  process-wire_of none o l =
      let q = headed p clean op o fin false (length text) text in
      process-length_field p clean op o fin false (length text) text l
      ∙ process-round _ _ clean (process_payload-whole q (length text) text refl)
  process-wire_of (some r) o l =
      let masked = xor_mask (mask_of r) 0 text in
      let q = headed p clean op o fin true (length text) (mask_of r ++ masked) in
      let keyed : WsParser = record q { mask_key = mask_of r; state = payload } in
      process-length_field p clean op o fin true (length text) (mask_of r ++ masked) l
      ∙ process-round _ _ clean (process_mask_key-mask_of r q masked)
      ∙ process-round _ _ clean (
          process_payload-whole keyed (length text) masked
            (sym (length-xor_mask (mask_of r) 0 text)))

unmask-received : (f : Frame) (p : WsParser) → (unmask (received f p)).payload ≡ f.text
unfolding unmask
unmask-received f p = unmasked f.mask
  where
    unmasked : (mask : Option ℕ) → (unmask (received (record f { mask = mask }) p)).payload ≡ f.text
    unmasked none = refl
    unmasked (some r) = xor_mask-xor_mask (mask_of r) 0 f.text

-- An idle parser whose bytes are those of a frame.
IsIdle-buf :
    (p : WsParser) (b : Bytes)
    → IsIdle p
    → record p { buf = p.buf ++ b } ≡ record p { state = header; buf = b }
IsIdle-buf p b i = ground arith

deliver_frame-stop : (p : WsParser) → p.state ≡ header → p.buf ≡ [] → process p ≡ p
unfolding round process_header
deliver_frame-stop p s b = process-stop p (rw (s, b) refl)

-- One frame, fed to an idle parser, is taken as `accept` has it, and leaves the parser idle.
pub feed-wire :
    (p : WsParser) (f : Frame)
    → IsIdle p
    → IsSendable f
    → IsIdle (feed p (wire f)).0 × (view (feed p (wire f)).0 ≡ accept f (view p))
unfolding feed
feed-wire p f i ok =
    let (b, s, e, h) = deliver_frame-keeps (received f p) in
    let end : (feed p (wire f)).0 ≡ deliver_frame (received f p) =
      ap process (IsIdle-buf p (wire f) i)
      ∙ process-wire_of p i.error f.opcode f.text f.fin f.mask ok.opcode ok.size
      ∙ deliver_frame-stop (deliver_frame (received f p)) s b in
    rw end (
      record { state = s; buf = b; error = e ∙ i.error; handler = h ∙ i.handler },
      deliver_frame-view f (received f p) i.handler refl (unmask-received f p) refl,
    )

feed-nil : (p : WsParser) → IsIdle p → (feed p []).0 ≡ p
unfolding feed
feed-nil p i =
    let same : record p { buf = p.buf ++ [] } ≡ p = ground (arith, append-nil p.buf) in
    ap process same ∙ deliver_frame-stop p i.state i.buf

-- So are all the frames of a list, in however many pieces their bytes arrive (`feed-append`).
pub feed-wire_all :
    (fs : List Frame) (p : WsParser)
    → IsIdle p
    → All IsSendable fs
    → IsIdle (feed p (wire_all fs)).0 × (view (feed p (wire_all fs)).0 ≡ accept_all fs (view p))
feed-wire_all [] p i ok = rw (feed-nil p i) (i, refl)
feed-wire_all (f ∷ fs) p i ok =
    let (idle, seen) = feed-wire p f i ok.0 in
    rw (← feed-append p (wire f) (wire_all fs) i.error, ← seen)
      (feed-wire_all fs (feed p (wire f)).0 idle ok.1)

-- A message of a data opcode, cut into fragments that are masked each with its own word or not.
abbrev pub split : ℕ → List (Option ℕ × Bytes) → List Frame
split op [] = []
split op ((mask, text) ∷ rest) =
    record { opcode = op; text = text; fin = is_empty rest; mask = mask }
    ∷ split ws_op_continuation rest

abbrev pub whole : List (Option ℕ × Bytes) → Bytes
whole [] = []
whole ((mask, text) ∷ rest) = text ++ whole rest

accept_all-continuations :
    (op : ℕ) (text : Bytes) (ms : List Message) (rest : List (Option ℕ × Bytes))
    → rest ≢ []
    → accept_all
        (split ws_op_continuation rest)
        (record { opcode = op; text = text; messages = ms })
      ≡ record {
        opcode = op;
        text = [];
        messages = ms ++ record { opcode = op; payload = text ++ whole rest } ∷ [];
      }
accept_all-continuations op text ms [] ne = absurd (ne refl)
accept_all-continuations op text ms ((mask, t) ∷ []) ne = rw append-nil
accept_all-continuations op text ms ((mask, t) ∷ next ∷ rest) ne =
    accept_all-continuations op (text ++ t) ms (next ∷ rest) (λ e. cc) ∙ simp append_assoc

accept_all-split :
    (op : ℕ) (pieces : List (Option ℕ × Bytes)) (a : Assembly)
    → 0 < op
    → op < 8
    → pieces ≢ []
    → accept_all (split op pieces) a ≡ record {
      opcode = op;
      text = [];
      messages = a.messages ++ record { opcode = op; payload = whole pieces } ∷ [];
    }
accept_all-split op [] a lo hi ne = absurd (ne refl)
accept_all-split op ((mask, t) ∷ rest) a lo hi ne =
    let data_op : leb 8 op ≡ false = ground arith in
    let begins : (op == ws_op_continuation) ≡ false = ground arith in
    let first : Frame = record { opcode = op; text = t; fin = is_empty rest; mask = mask } in
    let accepted : accept first a
        ≡ fragment (is_empty rest) (record { opcode = op; text = t; messages = a.messages }) =
      rw (data_op, begins) in
    ap (accept_all (split ws_op_continuation rest)) accepted ∙ begun rest
  where
    begun :
        (rest : List (Option ℕ × Bytes))
        → accept_all
            (split ws_op_continuation rest)
            (fragment (is_empty rest) (record { opcode = op; text = t; messages = a.messages }))
          ≡ record {
            opcode = op;
            text = [];
            messages = a.messages ++ record { opcode = op; payload = t ++ whole rest } ∷ [];
          }
    begun [] = rw append-nil
    begun (next ∷ rest) = accept_all-continuations op t a.messages (next ∷ rest) (λ e. cc)

abbrev pub FitsLength : List (Option ℕ × Bytes) → Type 0
FitsLength pieces = All (λ (piece : Option ℕ × Bytes). length piece.1 < 2 ^ 64) pieces

split-IsSendable :
    (op : ℕ) (pieces : List (Option ℕ × Bytes))
    → op < 16
    → FitsLength pieces
    → All IsSendable (split op pieces)
split-IsSendable op [] o fits = tt
split-IsSendable op ((mask, t) ∷ rest) o (fit, fits) =
    (record { opcode = o; size = fit }, split-IsSendable ws_op_continuation rest (omega arith) fits)

-- However a message of a data opcode is cut into fragments, masked or not, an idle parser that is
-- fed their bytes delivers that one message, whole, behind those that it delivered before.
pub feed-split :
    (p : WsParser) (op : ℕ) (pieces : List (Option ℕ × Bytes))
    → IsIdle p
    → 0 < op
    → op < 8
    → pieces ≢ []
    → FitsLength pieces
    → IsIdle (feed p (wire_all (split op pieces))).0
      × ((feed p (wire_all (split op pieces))).0.delivered
          ≡ p.delivered ++ record { opcode = op; payload = whole pieces } ∷ [])
feed-split p op pieces i lo hi ne fits =
    let (idle, seen) =
      feed-wire_all (split op pieces) p i (split-IsSendable op pieces (omega arith) fits) in
    (idle, ap (λ (a : Assembly). a.messages) (seen ∙ accept_all-split op pieces (view p) lo hi ne))

-- ===== src/Websocket/Parser/Conversation.antt =====
-- What a peer may send by RFC 6455 section 5.4: messages in fragments, with control frames alone and
-- between the fragments. It is written from the side of the sender, without a state of reassembly.
use libapostol.Prelude.{
  ℕ, ◌<◌, ◌≤◌, ◌^◌, ◌≡◌, refl, ap, ◌∙◌, true, false, Option, List, [], ◌∷◌, ◌++◌, append_assoc,
  append-nil, Bytes, All, All-append, length, leb, is_empty, ◌==◌, arith,
}
use libapostol.Websocket.Frame.{ws_op_continuation}
use libapostol.Websocket.Parser.{Message, WsParser, feed}
use libapostol.Websocket.Parser.Delivery.{
  Frame, IsSendable, IsIdle, Assembly, view, wire_all, complete, fragment, accept, accept_all,
  feed-wire_all,
}

-- A ping, a pong or a close, masked with a random word or not.
pub record Control : Type 0 where
  pub opcode : ℕ
  pub text : Bytes
  pub mask : Option ℕ

-- A fragment behind the first, and the control frames that are sent before it.
pub record Piece : Type 0 where
  pub before : List Control
  pub text : Bytes
  pub mask : Option ℕ

-- A control frame on its own, or a message with the first fragment and the others.
pub data Turn : Type 0 where
  alone : Control → Turn
  message : ℕ → Bytes → Option ℕ → List Piece → Turn

abbrev control_frames : List Control → List Frame
control_frames [] = []
control_frames (c ∷ cs) =
    record { opcode = c.opcode; text = c.text; fin = true; mask = c.mask } ∷ control_frames cs

abbrev piece_frames : List Piece → List Frame
piece_frames [] = []
piece_frames (q ∷ qs) =
    control_frames q.before
    ++ (record { opcode = ws_op_continuation; text = q.text; fin = is_empty qs; mask = q.mask }
        ∷ piece_frames qs)

abbrev turn_frames : Turn → List Frame
turn_frames (alone c) = control_frames (c ∷ [])
turn_frames (message op text mask qs) =
    record { opcode = op; text = text; fin = is_empty qs; mask = mask } ∷ piece_frames qs

-- The frames of a conversation, in the order in which they are sent.
abbrev pub frames : List Turn → List Frame
frames [] = []
frames (t ∷ ts) = turn_frames t ++ frames ts

abbrev controls_told : List Control → List Message
controls_told [] = []
controls_told (c ∷ cs) = record { opcode = c.opcode; payload = c.text } ∷ controls_told cs

abbrev between : List Piece → List Message
between [] = []
between (q ∷ qs) = controls_told q.before ++ between qs

abbrev joined : List Piece → Bytes
joined [] = []
joined (q ∷ qs) = q.text ++ joined qs

abbrev turn_told : Turn → List Message
turn_told (alone c) = controls_told (c ∷ [])
turn_told (message op text mask qs) =
    between qs ++ (record { opcode = op; payload = text ++ joined qs } ∷ [])

-- What it says: each control frame where it is sent, each message at its last fragment.
abbrev pub told : List Turn → List Message
told [] = []
told (t ∷ ts) = turn_told t ++ told ts

-- Opcodes of control frames have their fourth bit, and their payloads fit a length of one byte.
pub record IsControl (c : Control) : Type 0 where
  pub low : 8 ≤ c.opcode
  pub high : c.opcode < 16
  pub size : length c.text ≤ 125

pub record IsPiece (q : Piece) : Type 0 where
  pub before : All IsControl q.before
  pub size : length q.text < 2 ^ 64

-- The opcode of a message is a data opcode, a reserved one too, and no continuation.
abbrev pub IsTurn : Turn → Type 0
IsTurn (alone c) = IsControl c
IsTurn (message op text mask qs) = (0 < op) × (op < 8) × (length text < 2 ^ 64) × All IsPiece qs

accept_all-append :
    (fs gs : List Frame) (a : Assembly) → accept_all (fs ++ gs) a ≡ accept_all gs (accept_all fs a)
accept_all-append [] gs a = refl
accept_all-append (f ∷ fs) gs a = accept_all-append fs gs (accept f a)

accept_all-controls :
    (cs : List Control) (a : Assembly)
    → All IsControl cs
    → accept_all (control_frames cs) a ≡ record a { messages = a.messages ++ controls_told cs }
accept_all-controls [] a k = rw append-nil refl
accept_all-controls (c ∷ cs) a (k, ks) =
    let is_control : leb 8 c.opcode ≡ true = ground (arith, k.low) in
    let sent : Frame = record { opcode = c.opcode; text = c.text; fin = true; mask = c.mask } in
    let first : accept sent a ≡ complete c.opcode c.text a = rw is_control refl in
    ap (accept_all (control_frames cs)) first
    ∙ accept_all-controls cs (complete c.opcode c.text a) ks
    ∙ simp append_assoc

accept-continuation :
    (f : Frame) (a : Assembly)
    → f.opcode ≡ ws_op_continuation
    → accept f a ≡ fragment f.fin (record a { text = a.text ++ f.text })
accept-continuation f a e =
    let data_op : leb 8 f.opcode ≡ false = ground (arith, e) in
    let goes_on : (f.opcode == ws_op_continuation) ≡ true = ground (arith, e) in
    rw (data_op, goes_on) refl

-- The fragments of a message behind its first, with what stands between them.
abbrev under_way : ℕ → Bytes → List Message → Assembly
under_way op text ms = record { opcode = op; text = text; messages = ms }

accept_all-piece :
    (op : ℕ) (text : Bytes) (ms : List Message) (q : Piece) (qs : List Piece)
    → IsPiece q
    → accept_all (piece_frames (q ∷ qs)) (under_way op text ms)
      ≡ accept_all
          (piece_frames qs)
          (fragment (is_empty qs) (under_way op (text ++ q.text) (ms ++ controls_told q.before)))
accept_all-piece op text ms q qs k =
    let own : Frame = record {
      opcode = ws_op_continuation;
      text = q.text;
      fin = is_empty qs;
      mask = q.mask;
    } in
    accept_all-append (control_frames q.before) (own ∷ piece_frames qs) (under_way op text ms)
    ∙ ap (accept_all (own ∷ piece_frames qs))
        (accept_all-controls q.before (under_way op text ms) k.before)
    ∙ ap (accept_all (piece_frames qs))
        (accept-continuation own (under_way op text (ms ++ controls_told q.before)) refl)

accept_all-pieces :
    (op : ℕ) (text : Bytes) (ms : List Message) (q : Piece) (qs : List Piece)
    → All IsPiece (q ∷ qs)
    → accept_all (piece_frames (q ∷ qs)) (under_way op text ms)
      ≡ under_way op [] (
          ms
          ++ (between (q ∷ qs) ++ (record { opcode = op; payload = text ++ joined (q ∷ qs) } ∷ [])))
accept_all-pieces op text ms q [] (k, ks) =
    accept_all-piece op text ms q [] k ∙ simp (append_assoc, append-nil)
accept_all-pieces op text ms q (next ∷ rest) (k, ks) =
    accept_all-piece op text ms q (next ∷ rest) k
    ∙ accept_all-pieces op (text ++ q.text) (ms ++ controls_told q.before) next rest ks
    ∙ simp append_assoc

accept-first :
    (f : Frame) (a : Assembly)
    → 0 < f.opcode
    → f.opcode < 8
    → accept f a ≡ fragment f.fin (under_way f.opcode f.text a.messages)
accept-first f a lo hi =
    let data_op : leb 8 f.opcode ≡ false = ground arith in
    let begins : (f.opcode == ws_op_continuation) ≡ false = ground arith in
    rw (data_op, begins) refl

turn_frames-told :
    (t : Turn) (a : Assembly)
    → IsTurn t
    → (accept_all (turn_frames t) a).messages ≡ a.messages ++ turn_told t
turn_frames-told (alone c) a k =
    ap (λ (b : Assembly). b.messages) (accept_all-controls (c ∷ []) a (k, tt))
turn_frames-told (message op text mask qs) a (lo, hi, fits, ks) =
    ap (λ (b : Assembly). (accept_all (piece_frames qs) b).messages)
      (accept-first (record { opcode = op; text = text; fin = is_empty qs; mask = mask }) a lo hi)
    ∙ begun qs ks
  where
    begun :
        (rest : List Piece)
        → All IsPiece rest
        → (accept_all
            (piece_frames rest)
            (fragment (is_empty rest) (under_way op text a.messages))).messages
          ≡ a.messages ++ turn_told (message op text mask rest)
    begun [] ks = rw append-nil refl
    begun (q ∷ rest) ks =
        ap (λ (b : Assembly). b.messages) (accept_all-pieces op text a.messages q rest ks)

frames-told :
    (ts : List Turn) (a : Assembly)
    → All IsTurn ts
    → (accept_all (frames ts) a).messages ≡ a.messages ++ told ts
frames-told [] a k = rw append-nil refl
frames-told (t ∷ ts) a (k, ks) =
    ap (λ (b : Assembly). b.messages) (accept_all-append (turn_frames t) (frames ts) a)
    ∙ frames-told ts (accept_all (turn_frames t) a) ks
    ∙ ap (λ (ms : List Message). ms ++ told ts) (turn_frames-told t a k)
    ∙ append_assoc a.messages (turn_told t) (told ts)

control_frames-IsSendable :
    (cs : List Control) → All IsControl cs → All IsSendable (control_frames cs)
control_frames-IsSendable [] k = tt
control_frames-IsSendable (c ∷ cs) (k, ks) =
    (record { opcode = k.high; size = omega (arith, k.size) }, control_frames-IsSendable cs ks)

piece_frames-IsSendable : (qs : List Piece) → All IsPiece qs → All IsSendable (piece_frames qs)
piece_frames-IsSendable [] k = tt
piece_frames-IsSendable (q ∷ qs) (k, ks) =
    All-append IsSendable (control_frames q.before) _ (control_frames-IsSendable q.before k.before)
      (record { opcode = omega arith; size = k.size }, piece_frames-IsSendable qs ks)

turn_frames-IsSendable : (t : Turn) → IsTurn t → All IsSendable (turn_frames t)
turn_frames-IsSendable (alone c) k = control_frames-IsSendable (c ∷ []) (k, tt)
turn_frames-IsSendable (message op text mask qs) (lo, hi, fits, ks) =
    (record { opcode = omega (arith, hi); size = fits }, piece_frames-IsSendable qs ks)

frames-IsSendable : (ts : List Turn) → All IsTurn ts → All IsSendable (frames ts)
frames-IsSendable [] k = tt
frames-IsSendable (t ∷ ts) (k, ks) =
    All-append IsSendable (turn_frames t) (frames ts) (turn_frames-IsSendable t k)
      (frames-IsSendable ts ks)

-- For an idle parser with a handler, and a conversation of messages in fragments with control frames
-- alone or between the fragments, masked or not, whose opcodes and lengths are in their ranges: feeding
-- the bytes of all its frames leaves the parser idle, and delivers each control frame where it was sent
-- and each message once, whole, where its last fragment was sent.
pub feed-conversation :
    (p : WsParser) (ts : List Turn)
    → IsIdle p
    → All IsTurn ts
    → IsIdle (feed p (wire_all (frames ts))).0
      × ((feed p (wire_all (frames ts))).0.delivered ≡ p.delivered ++ told ts)
feed-conversation p ts i k =
    let (idle, seen) = feed-wire_all (frames ts) p i (frames-IsSendable ts k) in
    (idle, ap (λ (a : Assembly). a.messages) seen ∙ frames-told ts (view p) k)

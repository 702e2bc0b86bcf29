-- ===== src/Websocket/Parser/Tests.antt =====
-- Runs of the parser, and the theorems at concrete frames.
use libapostol.Prelude.{List, ◌≡◌, refl, true, some, none, [], ◌∷◌, ◌++◌, codes, arith}
use libapostol.Websocket.Frame.{
  ws_build_frame, ws_build_client_frame, length_field, first_byte, mask_of, xor_mask,
}
use libapostol.Websocket.Parser.{WsParser, new_parser, set_handler, run_round, round, feed}
use libapostol.Websocket.Parser.Rounds.{feed-quiescent}
use libapostol.Websocket.Parser.Chunks.{feed-append}
use libapostol.Websocket.Parser.Delivery.{IsIdle, wire_all, split, feed-split}
use libapostol.Websocket.Parser.Conversation.{
  Control, Turn, alone, message, frames, feed-conversation,
}

abbrev listening : WsParser
unfolding set_handler
listening = set_handler new_parser

listening-IsIdle : IsIdle listening
unfolding set_handler
listening-IsIdle = record { state = refl; buf = refl; error = refl; handler = refl }

-- The two examples of RFC 6455 section 5.7: "Hello", unmasked and masked.
hello :
    (ws_build_frame 1 (codes "Hello") true ≡ 0x81 ∷ 0x05 ∷ codes "Hello")
    × (ws_build_client_frame 0x37fa213d 1 (codes "Hello") true
        ≡ 0x81 ∷ 0x85 ∷ 0x37 ∷ 0xfa ∷ 0x21 ∷ 0x3d ∷ 0x7f ∷ 0x9f ∷ 0x4d ∷ 0x51 ∷ 0x58 ∷ [])
unfolding ws_build_frame ws_build_client_frame length_field first_byte mask_of xor_mask
hello = (refl, refl)

two_pieces :
    (feed listening
      (wire_all (split 1 ((none, codes "He") ∷ (some 7, codes "llo") ∷ [])))).0.delivered
    ≡ record { opcode = 1; payload = codes "Hello" } ∷ []
unfolding feed run_round set_handler ws_build_frame ws_build_client_frame length_field first_byte
    mask_of
two_pieces = refl

feed-append_example :
    feed (feed listening (0x81 ∷ 0x02 ∷ codes "H")).0 (codes "i")
    ≡ feed listening (0x81 ∷ 0x02 ∷ codes "H" ++ codes "i")
unfolding set_handler
feed-append_example = feed-append listening (0x81 ∷ 0x02 ∷ codes "H") (codes "i") refl

feed-quiescent_example :
    ((feed listening (0xf3 ∷ 0x00 ∷ 0x00 ∷ [])).1 ≡ true)
    × (round
          (feed listening (0xf3 ∷ 0x00 ∷ 0x00 ∷ [])).0.state
          (feed listening (0xf3 ∷ 0x00 ∷ 0x00 ∷ [])).0
        ≡ none)
    × ((feed listening (0xf3 ∷ 0x00 ∷ 0x00 ∷ [])).0.error ≡ [])
unfolding set_handler
feed-quiescent_example = feed-quiescent listening (0xf3 ∷ 0x00 ∷ 0x00 ∷ []) refl

feed-split_example :
    IsIdle (feed listening (wire_all (split 2 ((some 5, codes "a") ∷ (none, codes "b") ∷ [])))).0
    × ((feed listening
          (wire_all (split 2 ((some 5, codes "a") ∷ (none, codes "b") ∷ [])))).0.delivered
        ≡ record { opcode = 2; payload = codes "ab" } ∷ [])
unfolding set_handler
feed-split_example =
    feed-split listening 2 ((some 5, codes "a") ∷ (none, codes "b") ∷ []) listening-IsIdle
      (omega arith) (omega arith) (λ e. cc) (omega arith, (omega arith, tt))

-- A ping between the two fragments of a text, and a close.
abbrev ping : Control
ping = record { opcode = 9; text = codes "?"; mask = some 8 }

abbrev chat : List Turn
chat =
    message 1 (codes "He") (some 7)
      (record { before = ping ∷ []; text = codes "llo"; mask = none } ∷ [])
    ∷ alone (record { opcode = 8; text = []; mask = none })
    ∷ []

feed-conversation_example :
    IsIdle (feed listening (wire_all (frames chat))).0
    × ((feed listening (wire_all (frames chat))).0.delivered
        ≡ record { opcode = 9; payload = codes "?" }
          ∷ record { opcode = 1; payload = codes "Hello" }
          ∷ record { opcode = 8; payload = [] }
          ∷ [])
unfolding set_handler
feed-conversation_example = feed-conversation listening chat listening-IsIdle (
  (
    omega arith,
    omega arith,
    omega arith,
    (
      record {
        before = (record { low = omega arith; high = omega arith; size = omega arith }, tt);
        size = omega arith;
      },
      tt,
    ),
  ),
  (record { low = omega arith; high = omega arith; size = omega arith }, tt),
)

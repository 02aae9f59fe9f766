-- ===== src/Wire/Tests.antt =====
-- A message on the wire.
use comp6461_assignment.Base.{◌≡◌, refl, some, [], ◌∷◌, arith}
use comp6461_assignment.Base.Int.{pos, negsuc}
use comp6461_assignment.Message.{Msg, MsgType}
use comp6461_assignment.Wire.{msg_bytes, header_bytes, int32_word, type_code, get_message, msg_get}
use comp6461_assignment.Wire.Layout.{IsSendable, cleared, msg_bytes_arrive}

abbrev message : Msg
message = record {
  client_id = pos 44;
  server_id = negsuc 0;
  type = MsgType.handshake;
  length = 2;
  sequence_number = 6;
  buffer = 7 ∷ 9 ∷ 11 ∷ [];
}

message_bytes :
    msg_bytes message
    ≡ 44 ∷ 0 ∷ 0 ∷ 0 ∷ 255 ∷ 255 ∷ 255 ∷ 255 ∷ 1 ∷ 0 ∷ 0 ∷ 0 ∷ 2 ∷ 0 ∷ 0 ∷ 0 ∷ 6 ∷ 0 ∷ 0 ∷ 0 ∷ 7 ∷ 9
      ∷ []
unfolding msg_bytes header_bytes int32_word type_code
message_bytes = refl

message-IsSendable : IsSendable message
message-IsSendable = record {
  client = omega arith;
  server = omega arith;
  typed = tt;
  fits = omega arith;
  filled = omega arith;
  numbered = omega arith;
}

msg_bytes_arrive_example :
    (get_message (5 ∷ []) (msg_bytes message) ≡ some (cleared message))
    × (msg_get message (msg_bytes message) ≡ some (cleared message))
msg_bytes_arrive_example = msg_bytes_arrive message message-IsSendable (5 ∷ []) message

-- ===== src/Wire.antt =====
-- A message on the wire: FtpClient::msgSend (FtpOverUdp/UdpClient/FtpClient.cpp), which sends the first
-- MSGHDRSIZE + length bytes of the Msg, as ServerThread::sendMsg, SenderThread::run and Receiver::sendAck
-- do, and the two readers FtpClient::msgGet and FtpServer::getMessage. An int is four bytes in two's
-- complement, the lowest first, and the Msg has no padding. Sequence number and length are read as they
-- are used, without a sign.
pub mod Layout
mod Tests
use comp6461_assignment.Base.{
  ℕ, ◌+◌, ◌-◌, ◌^◌, Bool, Option, none, some, List, [], ◌∷◌, ◌++◌, ◌==◌, ltb, length, take, drop,
  replicate, if◌then◌else◌,
}
use comp6461_assignment.Base.Int.{ℤ, pos, negsuc}
use comp6461_assignment.Message.{Msg, MsgType, buffer_length, msg_header_size, int_bytes, int_at}

-- The word that holds an int.
unfoldable pub int32_word : ℤ → ℕ
int32_word (pos n) = n
int32_word (negsuc n) = 2 ^ 32 - 1 - n

unfoldable pub int32_at : List ℕ → ℤ
int32_at bytes =
    if ltb (int_at bytes) (2 ^ 31) then pos (int_at bytes) else negsuc (2 ^ 32 - 1 - int_at bytes)

-- The values of `enum Type`.
unfoldable pub type_code : MsgType → ℕ
type_code MsgType.handshake = 1
type_code MsgType.get_list = 5
type_code MsgType.get_file = 6
type_code MsgType.resp = 10
type_code MsgType.resp_err = 12
type_code MsgType.ack = 14
type_code MsgType.put = 15
type_code MsgType.post = 16
type_code MsgType.terminate = 20
type_code (MsgType.other n) = n

unfoldable pub type_of : ℕ → MsgType
type_of n =
    if n == 1
    then MsgType.handshake
    else if n == 5
    then MsgType.get_list
    else if n == 6
    then MsgType.get_file
    else if n == 10
    then MsgType.resp
    else if n == 12
    then MsgType.resp_err
    else if n == 14
    then MsgType.ack
    else if n == 15
    then MsgType.put
    else if n == 16
    then MsgType.post
    else if n == 20
    then MsgType.terminate
    else MsgType.other n

unfoldable pub header_bytes : Msg → List ℕ
unfolding int32_word type_code
header_bytes m =
    int_bytes (int32_word m.client_id)
    ++ (int_bytes (int32_word m.server_id)
        ++ (int_bytes (type_code m.type) ++ (int_bytes m.length ++ int_bytes m.sequence_number)))

-- The bytes that msgSend hands to sendto.
unfoldable pub msg_bytes : Msg → List ℕ
unfolding header_bytes
msg_bytes m = header_bytes m ++ take m.length m.buffer

-- A Msg, read from its bytes.
abbrev pub msg_at : List ℕ → List ℕ → Msg
unfolding int32_at type_of
msg_at header buffer = record {
  client_id = int32_at header;
  server_id = int32_at (drop 4 header);
  type = type_of (int_at (drop 8 header));
  length = int_at (drop 12 header);
  sequence_number = int_at (drop 16 header);
  buffer = buffer;
}

-- FtpServer::getMessage on a datagram. `memory` is what the receive buffer held, whose end shows where the
-- datagram is short; `none` is a length that makes memcpy write behind the message.
unfoldable pub get_message : List ℕ → List ℕ → Option Msg
unfolding msg_at
get_message memory datagram =
    let buffer = datagram ++ drop (length datagram) memory in
    let size = int_at (drop 12 buffer) in
    if ltb buffer_length size
    then none
    else some (
        msg_at buffer
          (take size (drop msg_header_size buffer) ++ replicate (buffer_length - size) 0))

-- FtpClient::msgGet on a datagram, into a message that holds `old`; `none` is a datagram that is longer
-- than a Msg.
unfoldable pub msg_get : Msg → List ℕ → Option Msg
unfolding msg_at header_bytes
msg_get old datagram =
    let bytes =
      datagram ++ drop (length datagram) (header_bytes old ++ replicate buffer_length 0) in
    if ltb (msg_header_size + buffer_length) (length datagram)
    then none
    else some (msg_at bytes (drop msg_header_size bytes))

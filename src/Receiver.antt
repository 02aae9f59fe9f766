-- ===== src/Receiver.antt =====
-- FtpOverUdp/Common/Receiver.cpp and Receiver.h: the receiving end of a transfer. It keeps the
-- packets of its window in an array indexed by sequence number, moves them in order to a queue,
-- and acknowledges what it accepts. A message that the code hands to sendto is in `sent`; the code
-- only logs a failure of sendto. The socket and the address are left out.
pub mod Inv
pub mod Normalize
pub mod Store
pub mod Packet
pub mod Completion
pub mod Transfer
pub mod Drain
pub mod Bounds
pub mod Membership
mod Tests
use comp6461_assignment.Base.{
  ℕ, zero, suc, ◌+◌, ◌-◌, ◌%◌, Bool, true, false, not, ◌&&◌, ◌||◌, Option, none, some, List, [],
  ◌∷◌, ◌++◌, ltb, leb, ◌==◌, if◌then◌else◌, is_some, take, drop, update,
}
use comp6461_assignment.Base.Int.{ℤ}
use comp6461_assignment.Message.{
  Msg, MsgType, Payload, Exception, Status, returned, threw, out_of_bounds, no_such_file,
  payload_not_complete, sequence_range, window_size, buffer_length, strcmp_eq, eof_text, nsf_text,
  int_at,
}

pub record Receiver : Type 0 where
  pub server_id : ℤ
  pub client_id : ℤ
  pub completed_set : List Payload  -- the front of the queue first
  pub total_payload_size : ℕ
  pub current_window : ℕ → Option Payload  -- Payload *currentWindow[SEQUENCE_RANGE]
  pub sequence_seed : ℕ
  pub window_origin : ℕ
  pub is_complete : Bool

-- What a call leaves: the receiver, the messages sent, and how it ended.
pub record Handled : Type 0 where
  pub receiver : Receiver
  pub sent : List Msg
  pub status : Status

-- The constructor leaves the fields other than these as the memory was.
unfoldable pub new_receiver : Receiver → ℤ → ℤ → Receiver
new_receiver raw server client = record raw {
  server_id = server;
  client_id = client;
  completed_set = [];
}

unfoldable pub start_new_payload : Receiver → ℕ → Receiver
start_new_payload r seed = record r {
  is_complete = false;
  sequence_seed = seed;
  window_origin = 0;
  total_payload_size = 0;
  completed_set = [];
  current_window = λ _. none;
}

-- The message that sendAck hands to sendto.
abbrev pub ack_msg : Receiver → ℕ → Msg
ack_msg r seq = record {
  client_id = r.client_id;
  server_id = r.server_id;
  type = MsgType.ack;
  length = 0;
  sequence_number = seq;
  buffer = [];
}

abbrev pub is_resp_err : MsgType → Bool
is_resp_err MsgType.resp_err = true
is_resp_err _ = false

unfoldable pub is_eof_msg : Msg → Bool
is_eof_msg msg = is_resp_err msg.type && strcmp_eq msg.buffer eof_text

-- The test in front of "No such file.".
unfoldable pub is_nsf_msg : Receiver → Msg → Bool
is_nsf_msg r msg =
    msg.sequence_number == (r.sequence_seed + 1) % sequence_range
    && is_resp_err msg.type
    && strcmp_eq msg.buffer nsf_text

unfoldable pub is_sequence_number_in_window : Receiver → ℕ → Bool
is_sequence_number_in_window r seq =
    let head = (r.window_origin + r.sequence_seed) % sequence_range in
    let tail = head + window_size - 1 in
    let number = if ltb seq head then seq + sequence_range else seq in
    leb head number && leb number tail

-- The sequence number at the start of the window.
abbrev pub current_sequence : Receiver → ℕ
current_sequence r = (r.window_origin + r.sequence_seed) % sequence_range

-- One pass of the loop that moves the window: the packet at its start goes to the queue.
abbrev pub advance : Receiver → Payload → Receiver
advance r p = record r {
  completed_set = r.completed_set ++ p ∷ [];
  current_window = update r.current_window (current_sequence r) none;
  window_origin = r.window_origin + 1;
}

-- `while (currentWindow[currentSequence] != NULL)`, with fuel.
unfoldable pub normalize : ℕ → Receiver → Receiver
normalize zero r = r
normalize (suc fuel) r = elim (r.current_window (current_sequence r)) [
  | none ↦ r
  | some p ↦ normalize fuel (advance r p)
]

-- The packet that handleMsg stores for a message.
abbrev pub stored : Msg → Payload
stored msg = record { length = msg.length; contents = take msg.length msg.buffer }

abbrev pub store : Receiver → Msg → Receiver
store r msg = record r {
  current_window = update r.current_window msg.sequence_number (some (stored msg));
  total_payload_size = r.total_payload_size + msg.length;
}

-- The part of handleMsg behind the window test. The array has SEQUENCE_RANGE slots.
unfoldable pub register : Receiver → Msg → Handled
register r msg =
    if leb sequence_range msg.sequence_number
    then record { receiver = r; sent = acks; status = out_of_bounds }
    else if is_some (r.current_window msg.sequence_number)
    then record { receiver = r; sent = acks; status = returned }
    else if ltb buffer_length msg.length
    then record { receiver = r; sent = acks; status = out_of_bounds }
    else record {
      receiver = normalize sequence_range (store r msg);
      sent = acks;
      status = returned;
    }
  where
    acks : List Msg
    acks = ack_msg r msg.sequence_number ∷ []

-- The part of handleMsg for an EOF message.
unfoldable pub handle_eof : Receiver → Msg → Handled
handle_eof r msg =
    if int_at (drop 4 msg.buffer) == r.total_payload_size
    then record {
      receiver = record r { window_origin = r.window_origin + 1; is_complete = true };
      sent = ack_msg r msg.sequence_number ∷ [];
      status = returned;
    }
    else record { receiver = r; sent = []; status = returned }

unfoldable pub handle_msg : Receiver → Msg → Handled
handle_msg r msg =
    if is_nsf_msg r msg
    then record { receiver = r; sent = acks; status = threw no_such_file }
    else if is_eof_msg msg
    then handle_eof r msg
    else if not (is_sequence_number_in_window r msg.sequence_number)
    then record { receiver = r; sent = acks; status = returned }
    else register r msg
  where
    acks : List Msg
    acks = ack_msg r msg.sequence_number ∷ []

any_slot : ℕ → (ℕ → Option Payload) → Bool
any_slot zero w = false
any_slot (suc i) w = any_slot i w || is_some (w i)

abbrev is_empty {ℓ} : {A : Type ℓ} → List A → Bool
is_empty [] = true
is_empty (x ∷ xs) = false

unfoldable pub is_payload_started : Receiver → Bool
unfolding any_slot
is_payload_started r =
    any_slot sequence_range r.current_window
    || not (r.window_origin == 0)
    || not (is_empty r.completed_set)

unfoldable pub is_payload_complete : Receiver → Bool
is_payload_complete r = r.is_complete

unfoldable pub final_sequence_number : Receiver → ℕ
final_sequence_number r = (r.sequence_seed + r.window_origin) % sequence_range

-- It frees nothing and changes nothing.
unfoldable pub terminate_current_transmission : Receiver → Receiver
terminate_current_transmission r = r

-- The bytes that the loop of getPayload copies, packet behind packet.
unfoldable pub drain : List Payload → List ℕ
drain [] = []
drain (p ∷ ps) = take p.length p.contents ++ drain ps

-- What getPayload gives: the payload, or its exception, and the receiver with its queue emptied.
pub data Assembled : Type 0 where
  assembled : Payload → Receiver → Assembled
  not_complete : Exception → Assembled

unfoldable pub get_payload : Receiver → Assembled
get_payload r =
    if not r.is_complete
    then not_complete payload_not_complete
    else assembled (record { length = r.total_payload_size; contents = drain r.completed_set })
        (record r { completed_set = [] })

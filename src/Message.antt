-- ===== src/Message.antt =====
-- FtpOverUdp/Common/Common.h: the constants of the protocol and the message that both ends
-- exchange, with the byte-level views that the code takes of its buffer (strcmp, memcpy of an int).
-- A message's sequence number and length are C ints that no code of the program makes negative:
-- they are natural numbers here. Identifiers may be -1, and are integers.
use comp6461_assignment.Base.{
  ℕ, ◌+◌, ◌*◌, ◌/◌, ◌%◌, ◌^◌, ◌<◌, ◌≡◌, Bool, List, [], ◌∷◌, ◌++◌, arith, ◌==◌, if◌then◌else◌,
  bytes_eq, head_or, drop,
}
use comp6461_assignment.Base.Int.{ℤ, negsuc}

abbrev pub window_size : ℕ
window_size = 3

abbrev pub sequence_range : ℕ
sequence_range = 7

abbrev pub buffer_length : ℕ
buffer_length = 256

abbrev pub msg_header_size : ℕ
msg_header_size = 20

abbrev pub null_server_id : ℤ
null_server_id = negsuc 0

abbrev pub null_client_id : ℤ
null_client_id = negsuc 0

-- `enum Type`; `other` is a value that names no enumerator, such as the 0 of a cleared message.
pub data MsgType : Type 0 where
  handshake get_list get_file put post resp resp_err ack terminate : MsgType
  other : ℕ → MsgType

pub record Msg : Type 0 where
  pub client_id : ℤ
  pub server_id : ℤ
  pub type : MsgType
  pub length : ℕ
  pub sequence_number : ℕ
  pub buffer : List ℕ

pub record Payload : Type 0 where
  pub length : ℕ
  pub contents : List ℕ

-- The C string that starts at a buffer: the bytes before the first NUL.
abbrev pub c_string : List ℕ → List ℕ
c_string [] = []
c_string (b ∷ bs) = if b == 0 then [] else b ∷ c_string bs

-- strcmp(buffer, text) == 0
abbrev pub strcmp_eq : List ℕ → List ℕ → Bool
strcmp_eq buffer text = bytes_eq (c_string buffer) text

abbrev pub eof_text : List ℕ
eof_text = b'E' ∷ b'O' ∷ b'F' ∷ []

abbrev pub nsf_text : List ℕ
nsf_text = b'N' ∷ b'S' ∷ b'F' ∷ []

abbrev pub fae_text : List ℕ
fae_text = b'F' ∷ b'A' ∷ b'E' ∷ []

-- memcpy of a four-byte int to a buffer and back, the lowest byte first.
abbrev pub int_bytes : ℕ → List ℕ
int_bytes n = n % 256 ∷ n / 256 % 256 ∷ n / 65536 % 256 ∷ n / 16777216 % 256 ∷ []

abbrev pub int_at : List ℕ → ℕ
int_at bs =
    head_or 0 bs
    + 256 * head_or 0 (drop 1 bs)
    + 65536 * head_or 0 (drop 2 bs)
    + 16777216 * head_or 0 (drop 3 bs)

pub int_at-int_bytes : (n : ℕ) (rest : List ℕ) → n < 2 ^ 32 → int_at (int_bytes n ++ rest) ≡ n
int_at-int_bytes n rest h = omega arith

-- The exceptions that the code throws.
pub data Exception : Type 0 where
  no_such_file payload_not_complete payload_null file_not_found more_files_than_expected : Exception

-- How a call ends. `out_of_bounds` is an access outside an array, which C++ leaves undefined.
pub data Status : Type 0 where
  returned : Status
  threw : Exception → Status
  out_of_bounds : Status

-- ===== src/Wire/Layout.antt =====
-- What is sent is what is read.
use native.Mathlib.Nat.{zero-add, suc-add}
use comp6461_assignment.Base.{
  ℕ, zero, suc, none, ◌+◌, ◌-◌, ◌^◌, ◌≤◌, ◌<◌, ◌≡◌, refl, sym, ap, ◌∙◌, Option, some, List, [], ◌∷◌,
  ◌++◌, arith, ltb, le→ltb, length, take, drop, replicate, length-take, take-append, if◌then◌else◌,
}
use comp6461_assignment.Base.Int.{ℤ, pos, negsuc}
use comp6461_assignment.Message.{Msg, MsgType, buffer_length, int_bytes, int_at, int_at-int_bytes}
use comp6461_assignment.Wire.{
  int32_word, int32_at, type_code, type_of, header_bytes, msg_bytes, msg_at, get_message, msg_get,
}

-- -2^31 ≤ i < 2^31
abbrev pub IsInt32 : ℤ → Type 0
IsInt32 (pos n) = n < 2 ^ 31
IsInt32 (negsuc n) = n < 2 ^ 31

-- The type is an enumerator, or a value that is none.
abbrev pub IsType : MsgType → Type 0
IsType (MsgType.other n) = (n < 2 ^ 31) × (type_of n ≡ MsgType.other n)
IsType _ = Unit

-- A message that fits its struct.
pub record IsSendable (m : Msg) : Type 0 where
  pub client : IsInt32 m.client_id
  pub server : IsInt32 m.server_id
  pub typed : IsType m.type
  pub fits : m.length ≤ buffer_length
  pub filled : m.length ≤ length m.buffer
  pub numbered : m.sequence_number < 2 ^ 31

-- The message with zeros behind its contents, as both readers leave it.
abbrev pub cleared : Msg → Msg
cleared m = record m { buffer = take m.length m.buffer ++ replicate (buffer_length - m.length) 0 }

pub int32_at-int32_word :
    (i : ℤ) (rest : List ℕ) → IsInt32 i → int32_at (int_bytes (int32_word i) ++ rest) ≡ i
unfolding int32_at int32_word
int32_at-int32_word (pos n) rest h = ground (arith, int_at-int_bytes n rest)
int32_at-int32_word (negsuc n) rest h = ground (arith, int_at-int_bytes (2 ^ 32 - 1 - n) rest)

type_of-type_code : (t : MsgType) → IsType t → type_of (type_code t) ≡ t
unfolding type_of type_code
type_of-type_code (MsgType.other n) h = h.1
type_of-type_code MsgType.handshake h = refl
type_of-type_code MsgType.get_list h = refl
type_of-type_code MsgType.get_file h = refl
type_of-type_code MsgType.put h = refl
type_of-type_code MsgType.post h = refl
type_of-type_code MsgType.resp h = refl
type_of-type_code MsgType.resp_err h = refl
type_of-type_code MsgType.ack h = refl
type_of-type_code MsgType.terminate h = refl

type_code_small : (t : MsgType) → IsType t → type_code t < 2 ^ 32
unfolding type_code
type_code_small (MsgType.other n) h = omega (arith, h.0)
type_code_small MsgType.handshake h = omega arith
type_code_small MsgType.get_list h = omega arith
type_code_small MsgType.get_file h = omega arith
type_code_small MsgType.put h = omega arith
type_code_small MsgType.post h = omega arith
type_code_small MsgType.resp h = omega arith
type_code_small MsgType.resp_err h = omega arith
type_code_small MsgType.ack h = omega arith
type_code_small MsgType.terminate h = omega arith

replicate_eq : (j k b : ℕ) → j ≡ k → replicate j b ≡ replicate k b
replicate_eq j k b e = rw e refl

drop-replicate : (k n b : ℕ) → drop k (replicate n b) ≡ replicate (n - k) b
drop-replicate zero n b = replicate_eq n (n - 0) b (omega arith)
drop-replicate (suc k) zero b = replicate_eq 0 (0 - suc k) b (omega arith)
drop-replicate (suc k) (suc n) b =
    drop-replicate k n b ∙ replicate_eq (n - k) (suc n - suc k) b (omega arith)

drop_further : (k : ℕ) (xs ys : List ℕ) → drop (length xs + k) (xs ++ ys) ≡ drop k ys
drop_further k [] ys = rw zero-add refl
drop_further k (x ∷ xs) ys = rw suc-add (drop_further k xs ys)

module _ (m : Msg) (ok : IsSendable m) where
  msg_at-msg_bytes :
      (rest buffer : List ℕ) → msg_at (msg_bytes m ++ rest) buffer ≡ record m { buffer = buffer }
  unfolding msg_bytes header_bytes msg_at
  msg_at-msg_bytes rest buffer = λ i. record {
    client_id = int32_at-int32_word m.client_id [] ok.client i;
    server_id = int32_at-int32_word m.server_id [] ok.server i;
    type = typed i;
    length = int_at-int_bytes m.length [] (omega (arith, ok.fits)) i;
    sequence_number = int_at-int_bytes m.sequence_number [] (omega (arith, ok.numbered)) i;
    buffer = buffer;
  }
    where
      typed : type_of (int_at (drop 8 (msg_bytes m ++ rest))) ≡ m.type
      typed =
          ap type_of (int_at-int_bytes (type_code m.type) [] (type_code_small m.type ok.typed))
          ∙ type_of-type_code m.type ok.typed

  pub client_at : (rest : List ℕ) → int32_at (msg_bytes m ++ rest) ≡ m.client_id
  unfolding msg_bytes header_bytes int32_at
  client_at rest = int32_at-int32_word m.client_id [] ok.client

  size_at : (rest : List ℕ) → int_at (drop 12 (msg_bytes m ++ rest)) ≡ m.length
  unfolding msg_bytes header_bytes
  size_at rest = int_at-int_bytes m.length [] (omega (arith, ok.fits))

  contents_at : (rest : List ℕ) → drop 20 (msg_bytes m ++ rest) ≡ take m.length m.buffer ++ rest
  unfolding msg_bytes header_bytes
  contents_at rest = refl

  pub length-msg_bytes : length (msg_bytes m) ≡ 20 + m.length
  unfolding msg_bytes header_bytes
  length-msg_bytes = omega (arith, length-take m.length m.buffer ok.filled)

  read_exactly :
      (rest : List ℕ) → take m.length (drop 20 (msg_bytes m ++ rest)) ≡ take m.length m.buffer
  read_exactly rest =
      ap (take m.length) (contents_at rest)
      ∙ ap (λ (k : ℕ). take k (take m.length m.buffer ++ rest))
          (sym (length-take m.length m.buffer ok.filled))
      ∙ take-append (take m.length m.buffer) rest

  -- The rest of getMessage, behind the length.
  decoded : List ℕ → ℕ → Option Msg
  decoded bytes size =
      if ltb buffer_length size
      then none
      else some (msg_at bytes (take size (drop 20 bytes) ++ replicate (buffer_length - size) 0))

  decoded-msg_bytes : (rest : List ℕ) → decoded (msg_bytes m ++ rest) m.length ≡ some (cleared m)
  unfolding decoded
  decoded-msg_bytes rest = rw (le→ltb buffer_length m.length ok.fits) (
      ap some (
        msg_at-msg_bytes rest _
        ∙ ap (λ (b : List ℕ). record m { buffer = b ++ replicate (buffer_length - m.length) 0 })
            (read_exactly rest)))

  get_message-msg_bytes : (memory : List ℕ) → get_message memory (msg_bytes m) ≡ some (cleared m)
  unfolding get_message decoded msg_at
  get_message-msg_bytes memory =
      let rest = drop (length (msg_bytes m)) memory in
      ap (decoded (msg_bytes m ++ rest)) (size_at rest) ∙ decoded-msg_bytes rest

  -- The message into which msgGet reads, once it is cleared.
  behind : Msg → List ℕ
  behind old = drop (length (msg_bytes m)) (header_bytes old ++ replicate buffer_length 0)

  behind-replicate : (old : Msg) → behind old ≡ replicate (buffer_length - m.length) 0
  unfolding header_bytes behind msg_bytes
  behind-replicate old =
      ap (λ (k : ℕ). drop k (header_bytes old ++ replicate buffer_length 0)) length-msg_bytes
      ∙ drop_further m.length (header_bytes old) (replicate buffer_length 0)
      ∙ drop-replicate m.length buffer_length 0

  msg_get-msg_bytes : (old : Msg) → msg_get old (msg_bytes m) ≡ some (cleared m)
  unfolding msg_get msg_at msg_bytes behind
  msg_get-msg_bytes old =
      rw (le→ltb 276 (length (msg_bytes m)) (omega (arith, length-msg_bytes, ok.fits))) (
        ap some (
          msg_at-msg_bytes (behind old) _
          ∙ ap (λ (b : List ℕ). record m { buffer = b })
              (contents_at (behind old)
                ∙ ap (◌++◌ (take m.length m.buffer)) (behind-replicate old))))

  -- A message arrives as it was sent. From the bytes that msgSend puts on the wire, FtpServer::getMessage and
  -- FtpClient::msgGet both read the message, with zeros behind its contents, whatever their buffers held
  -- before. The ids, the type and the number must fit an int, and the length the buffer.
  pub msg_bytes_arrive :
      (memory : List ℕ) (old : Msg)
      → (get_message memory (msg_bytes m) ≡ some (cleared m))
        × (msg_get old (msg_bytes m) ≡ some (cleared m))
  msg_bytes_arrive memory old = (get_message-msg_bytes memory, msg_get-msg_bytes old)

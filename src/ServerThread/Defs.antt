-- ===== src/ServerThread/Defs.antt =====
-- The state of a ServerThread, the file system that it works on, and sendMsg.
use comp6461_assignment.Base.{ℕ, ◌-◌, Bool, Option, none, List, [], ◌∷◌, ◌++◌, length, replicate}
use comp6461_assignment.Base.Int.{pos}
use comp6461_assignment.Message.{Msg, MsgType, Exception, buffer_length}
use comp6461_assignment.Sender.{Sender}
use comp6461_assignment.Receiver.{Receiver}

-- What the code calls of Windows and of the C++ library for files; paths are byte strings.
pub record FileApi : Type 1 where
  pub Disk : Type 0
  pub path_file_exists : Disk → List ℕ → Bool  -- PathFileExists
  pub read : Disk → List ℕ → Option (List ℕ)  -- FindFirstFile and ifstream; `none`: no such file
  pub file_names : Disk → List ℕ → List (List ℕ)  -- FindNextFile, without the directories
  pub write : Disk → List ℕ → List ℕ → Disk  -- ofstream
  pub rename : Disk → List ℕ → List ℕ → Disk
  pub path_find_extension : List ℕ → List ℕ
  pub path_remove_extension : List ℕ → List ℕ

pub data ServerState : Type 0 where
  initializing starting_handshake waiting_for_request sending receiving renaming : ServerState

-- `serverFiles\`
abbrev pub server_directory : List ℕ
server_directory =
    b's' ∷ b'e' ∷ b'r' ∷ b'v' ∷ b'e' ∷ b'r' ∷ b'F' ∷ b'i' ∷ b'l' ∷ b'e' ∷ b's' ∷ 92 ∷ []

module _ (api : FileApi) where
  open api use {Disk}

  -- sender and receiver are pointers that the constructor leaves uninitialised: `none` until
  -- initServerWithClientData. `outbox` lists what the thread has handed to sendto itself, the first
  -- message first; its Sender and Receiver send by themselves.
  pub record Thread : Type 0 where
    pub server_id : ℕ
    pub files_directory : List ℕ
    pub current_state : ServerState
    pub current_msg : Msg
    pub sender : Option Sender
    pub receiver : Option Receiver
    pub filename : List ℕ
    pub sequence_number : ℕ
    pub disk : Disk
    pub outbox : List Msg

  -- The constructor. `raw` holds what the memory holds, and the disk; the message is a zeroed Msg.
  unfoldable pub new_thread : ℕ → Msg → Thread → Thread
  new_thread id msg raw = record raw {
    server_id = id;
    files_directory = server_directory;
    current_state = initializing;
    current_msg = msg;
    sender = none;
    receiver = none;
    outbox = [];
  }

  -- How a call ends: normally, by an exception, or by a memory error, which C++ leaves undefined.
  pub data Outcome : Type 0 where
    ok : Thread → Outcome
    threw : Exception → Thread → Outcome
    crashed : Outcome

  infixl 5 ◌>>◌
  abbrev pub ◌>>◌ : (Thread → Outcome) → (Thread → Outcome) → Thread → Outcome
  ◌>>◌ f g t = elim (f t) [ ok t' ↦ g t' | threw e t' ↦ threw e t' | crashed ↦ crashed ]

  -- A Msg whose buffer holds `bytes` and zeros behind them.
  abbrev pub padded : List ℕ → List ℕ
  padded bytes = bytes ++ replicate (buffer_length - length bytes) 0

  -- The reply that sendMsg completes and sends.
  abbrev pub reply : Thread → MsgType → ℕ → ℕ → List ℕ → Msg
  reply t type size seq bytes = record {
    client_id = t.current_msg.client_id;
    server_id = pos t.server_id;
    type = type;
    length = size;
    sequence_number = seq;
    buffer = padded bytes;
  }

  abbrev pub send_msg : Msg → Thread → Thread
  send_msg m t = record t { outbox = t.outbox ++ m ∷ [] }

  unfoldable pub send_ack : Thread → Thread
  send_ack t = send_msg (reply t MsgType.ack 0 t.current_msg.sequence_number []) t

-- ===== src/ServerThread/Tests.antt =====
-- A server thread over a small disk, and the theorems about it at some of its states.
use comp6461_assignment.Base.{
  ℕ, ◌≡◌, refl, true, false, Bool, Option, none, some, List, [], ◌∷◌, ◌++◌, arith, length, bytes_eq,
  if◌then◌else◌, ◌==◌, ◌||◌,
}
use comp6461_assignment.Base.Int.{pos}
use comp6461_assignment.Message.{Msg, MsgType, fae_text}
use comp6461_assignment.Sender.{Sender}
use comp6461_assignment.Receiver.{Receiver}
use comp6461_assignment.ServerThread.Defs.{
  FileApi, initializing, starting_handshake, waiting_for_request, renaming, Thread, ok, reply,
}
use comp6461_assignment.ServerThread.Requests.{fill_names, names_length}
use comp6461_assignment.ServerThread.Run.{on_renaming, pass, on_state, run}
use comp6461_assignment.ServerThread.Files.{lines_from, fill_names_roundtrip}
use comp6461_assignment.ServerThread.Replies.{rename_repeated}
use comp6461_assignment.ServerThread.Transitions.{Edge, pass-Edge}
use comp6461_assignment.ServerThread.Endings.{actives, renaming_forever}

abbrev Files : Type 0
Files = List (List ℕ × List ℕ)

find : Files → List ℕ → Option (List ℕ)
find [] path = none
find ((name, bytes) ∷ files) path =
    let rest = find files path in if bytes_eq name path then some bytes else rest

exists : Files → List ℕ → Bool
exists [] path = false
exists ((name, bytes) ∷ files) path = bytes_eq name path || exists files path

names_in : Files → List (List ℕ)
names_in [] = []
names_in ((name, bytes) ∷ files) = name ∷ names_in files

moved : Files → List ℕ → List ℕ → Files
moved [] from to = []
moved ((name, bytes) ∷ files) from to =
    let rest = moved files from to in
    if bytes_eq name from then (to, bytes) ∷ files else (name, bytes) ∷ rest

-- The extension of a path without directories and with at most one dot.
extension_of : List ℕ → List ℕ
extension_of [] = []
extension_of (b ∷ bs) = let rest = extension_of bs in if b == b'.' then b ∷ bs else rest

stem_of : List ℕ → List ℕ
stem_of [] = []
stem_of (b ∷ bs) = let rest = stem_of bs in if b == b'.' then [] else b ∷ rest

abbrev api : FileApi
api = record {
  Disk = Files;
  path_file_exists = exists;
  read = find;
  file_names = λ files directory. names_in files;
  write = λ files path bytes. (path, bytes) ∷ files;
  rename = moved;
  path_find_extension = extension_of;
  path_remove_extension = stem_of;
}

abbrev message : MsgType → ℕ → List ℕ → Msg
message type number bytes = record {
  client_id = pos 1;
  server_id = pos 2;
  type = type;
  length = length bytes;
  sequence_number = number;
  buffer = bytes ++ 0 ∷ [];
}

abbrev quiet_sender : Sender
quiet_sender = record {
  job = record {
    server_id = pos 2;
    client_id = pos 1;
    complete_payload = [];
    number_of_packets = 0;
    payload_size = 0;
    sequence_seed = 0;
  };
  is_complete = true;
  current_window = λ _. none;
  window_state = λ _. none;
  current_window_origin = 0;
  workers = record { next = 0; is_acked = λ _. true; msg = λ _. message MsgType.ack 0 [] };
}

abbrev idle_receiver : Receiver
idle_receiver = record {
  server_id = pos 2;
  client_id = pos 1;
  completed_set = [];
  total_payload_size = 0;
  current_window = λ _. none;
  sequence_seed = 6;
  window_origin = 0;
  is_complete = false;
}

abbrev file_a : List ℕ
file_a = b'a' ∷ b'.' ∷ b'c' ∷ []

abbrev file_b : List ℕ
file_b = b'b' ∷ []

-- One file, `a.c`, with two bytes.
abbrev waiting : Thread api
waiting = record {
  server_id = 2;
  files_directory = [];
  current_state = waiting_for_request;
  current_msg = message MsgType.get_file 6 file_a;
  sender = some quiet_sender;
  receiver = some idle_receiver;
  filename = file_a;
  sequence_number = 6;
  disk = (file_a, b'h' ∷ b'i' ∷ []) ∷ [];
  outbox = [];
}

fill_names_roundtrip_example :
    (bytes : List ℕ) × (fill_names (names_length (file_a ∷ file_b ∷ [])) 0 (file_a ∷ file_b ∷ [])
      ≡ some bytes)
    × (length bytes ≡ names_length (file_a ∷ file_b ∷ []))
    × (lines_from [] bytes ≡ file_a ∷ file_b ∷ [])
fill_names_roundtrip_example =
    fill_names_roundtrip (file_a ∷ file_b ∷ [])
      ((λ e. omega arith, (λ e. omega arith, (λ e. omega arith, tt))), ((λ e. omega arith, tt), tt))

abbrev asking_b : Thread api
asking_b = record waiting { current_msg = message MsgType.get_file 6 file_b }

abbrev renaming_a : Thread api
renaming_a = record waiting {
  current_state = renaming;
  current_msg = message MsgType.resp 0 file_b;
}

rename_repeated_example :
    let once = on_renaming api renaming_a in
    let twice = on_renaming api once in
    (once.disk ≡ moved waiting.disk file_a file_b)
    × (once.outbox ≡ reply api renaming_a MsgType.ack 0 0 [] ∷ [])
    × (twice.outbox ≡ once.outbox ++ reply api renaming_a MsgType.resp_err 4 0 fae_text ∷ [])
    × (twice.disk ≡ once.disk)
    × (twice.current_state ≡ renaming)
unfolding exists
rename_repeated_example = rename_repeated api renaming_a refl refl (omega arith) refl refl

renaming_forever_example :
    (t' : Thread api) × (run api 5 quiet_sender idle_receiver
        (actives (message MsgType.get_file 0 file_b ∷ []))
        renaming_a
      ≡ some (ok t'))
    × (t'.current_state ≡ renaming)
renaming_forever_example =
    renaming_forever api 5 quiet_sender idle_receiver (message MsgType.get_file 0 file_b ∷ [])
      renaming_a refl

abbrev beginning : Thread api
beginning = record waiting { current_state = initializing }

pass-Edge_example : Edge initializing starting_handshake
unfolding pass on_state
pass-Edge_example =
    pass-Edge api 5 quiet_sender idle_receiver beginning
      (record beginning { current_state = starting_handshake }) refl

-- ===== src/FtpClient/Tests.antt =====
-- A client whose disk is a list, and the theorems about it at some of its states.
mod Sessions
use comp6461_assignment.Base.{
  ℕ, ◌+◌, ◌%◌, ◌≤◌, ◌<◌, ◌≡◌, ◌≢◌, refl, true, false, Bool, Option, none, some, List, [], ◌∷◌, ◌++◌,
  arith, length, inl,
}
use comp6461_assignment.Base.Int.{pos}
use comp6461_assignment.Message.{Msg, MsgType, Payload, eof_text, int_bytes}
use comp6461_assignment.Sender.{Sender}
use comp6461_assignment.Receiver.{
  Receiver, handle_msg, handle_eof, start_new_payload, drain, normalize, register, is_eof_msg,
  is_nsf_msg, is_sequence_number_in_window,
}
use comp6461_assignment.Receiver.Inv.{size_below, chunks_below}
use comp6461_assignment.Receiver.Store.{IsPacket}
use comp6461_assignment.Receiver.Completion.{IsEof}
use comp6461_assignment.ServerThread.Defs.{FileApi}
use comp6461_assignment.FtpClient.Defs.{Event, got, silent, FtpClient}
use comp6461_assignment.FtpClient.Transfers.{perform_get, perform_list, print_listing}
use comp6461_assignment.FtpClient.Endings.{Finally}
use comp6461_assignment.FtpClient.Downloads.{Fed, Fits}
use comp6461_assignment.FtpClient.Downloads
use comp6461_assignment.FtpClient.Retrieval.{perform_get_exact}

-- A disk is what has been written to it.
abbrev pub api : FileApi
api = record {
  Disk = List (List ℕ × List ℕ);
  path_file_exists = λ disk path. false;
  read = λ disk path. none;
  file_names = λ disk directory. [];
  write = λ disk path bytes. (path, bytes) ∷ disk;
  rename = λ disk from to. disk;
  path_find_extension = λ path. [];
  path_remove_extension = λ path. path;
}

abbrev pub message : MsgType → ℕ → List ℕ → Msg
message type number bytes = record {
  client_id = pos 1;
  server_id = pos 2;
  type = type;
  length = length bytes;
  sequence_number = number;
  buffer = bytes ++ 0 ∷ [];
}

abbrev pub idle_sender : Sender
idle_sender = record {
  job = record {
    server_id = pos 2;
    client_id = pos 1;
    complete_payload = [];
    number_of_packets = 0;
    payload_size = 0;
    sequence_seed = 0;
  };
  is_complete = true;
  current_window = λ _. none;
  window_state = λ _. none;
  current_window_origin = 0;
  workers = record { next = 0; is_acked = λ _. true; msg = λ _. message MsgType.ack 0 [] };
}

abbrev pub idle_receiver : Receiver
idle_receiver = record {
  server_id = pos 2;
  client_id = pos 1;
  completed_set = [];
  total_payload_size = 0;
  current_window = λ _. none;
  sequence_seed = 0;
  window_origin = 0;
  is_complete = false;
}

-- Thread 2 serves the client, and the next request has the number 6.
abbrev pub client : FtpClient api
client = record {
  client_identifier = pos 1;
  server_identifier = pos 2;
  sequence_number = 6;
  sync_count = 3;
  files_directory = [];
  receiver = idle_receiver;
  sender = idle_sender;
  requests = record { next = 0; is_acked = λ _. true; msg = λ _. message MsgType.ack 0 [] };
  server_msg = message MsgType.handshake 0 [];
  disk = [];
  outbox = [];
  printed = [];
}

abbrev chunk : ℕ → Payload
chunk j = record { length = 1; contents = j ∷ [] }

abbrev end_msg : Msg
end_msg = record (message MsgType.resp_err 1 (eof_text ++ 0 ∷ int_bytes 2)) { length = 8 }

-- The second packet comes first, and the EOF message comes twice.
abbrev download : List Event
download =
    got (message MsgType.resp 0 (1 ∷ []))
    ∷ silent
    ∷ got (message MsgType.resp 6 (0 ∷ []))
    ∷ got end_msg
    ∷ got end_msg
    ∷ silent
    ∷ []

first-IsPacket : IsPacket 2 6 chunk 0 (message MsgType.resp 6 (0 ∷ []))
first-IsPacket = record {
  in_payload = omega arith;
  typed = refl;
  numbered = refl;
  fits = omega arith;
  content = refl;
}

second-IsPacket : IsPacket 2 6 chunk 1 (message MsgType.resp 0 (1 ∷ []))
second-IsPacket = record {
  in_payload = omega arith;
  typed = refl;
  numbered = refl;
  fits = omega arith;
  content = refl;
}

end-IsEof : IsEof 2 6 chunk end_msg
unfolding size_below
end-IsEof = record { typed = refl; text = refl; size = refl }

one_byte : (j : ℕ) → j < 2 → 0 < (chunk j).length
one_byte j h = omega arith

download-Fed : Fed 2 6 chunk (pos 2) download (start_new_payload idle_receiver 6)
unfolding start_new_payload handle_msg handle_eof register is_eof_msg is_nsf_msg
    is_sequence_number_in_window normalize
download-Fed = (
  λ a b. Downloads.packet 1 second-IsPacket (omega arith) (omega arith),
  (
    λ a b. Downloads.packet 0 first-IsPacket (omega arith) (omega arith),
    (λ a b. Downloads.eof end-IsEof refl, (λ a b. Downloads.eof end-IsEof refl, tt)),
  ),
)

perform_get_exact_example :
    Finally
      (λ (c : FtpClient api).
        (c.disk ≡ (b'a' ∷ [], drain (chunks_below chunk 2)) ∷ []) × (c.sequence_number ≡ 2))
      (λ (c : FtpClient api). (c.disk ≡ []) × (c.printed ≡ []))
      (perform_get api (b'a' ∷ []) download client)
perform_get_exact_example =
    perform_get_exact 2 chunk one_byte api download client download-Fed (b'a' ∷ []) (omega arith)

-- ===== src/Link/Tests/Download.antt =====
-- The transfer of two bytes as a client's download.
use comp6461_assignment.Base.{ℕ, ◌≡◌, refl, ◌⊎◌, true, false, some, List, [], ◌∷◌, arith}
use comp6461_assignment.Base.Int.{pos}
use comp6461_assignment.Message.{Msg}
use comp6461_assignment.Sender.{
  run_pass, process_ack, send, packet_msg, eof_msg, normalize_current_window, normalize_from,
  start_packet, mark, slide, refill, finalize_payload, initialize_payload,
}
use comp6461_assignment.Sender
use comp6461_assignment.Receiver.{
  handle_msg, ack_msg, start_new_payload, handle_eof, register, normalize, is_eof_msg, is_nsf_msg,
  is_sequence_number_in_window,
}
use comp6461_assignment.ServerThread.Defs.{FileApi, Thread, waiting_for_request, sending, ok}
use comp6461_assignment.ServerThread.Run.{run}
use comp6461_assignment.ServerThread.Endings.{actives}
use comp6461_assignment.FtpClient.Defs.{Event, got, silent, FtpClient}
use comp6461_assignment.FtpClient.Transfers.{perform_get}
use comp6461_assignment.FtpClient.Endings.{Finally, Returns}
use comp6461_assignment.Link.{Link, transmit}
use comp6461_assignment.Link.Serving.{Downloads, closed, timed_out, works, arrives, acked}
use comp6461_assignment.Link.Download.{Finished, get_served}
use comp6461_assignment.Link.Get.{get_request}
use comp6461_assignment.Link.Tests.{
  bytes, raw_sender, sender, receiver, started, on_its_way, stored, acknowledged, at_end, complete,
  finished, blank,
}

-- Every file holds the two bytes; a disk lists what has been written.
abbrev pub api : FileApi
api = record {
  Disk = List (List ℕ × List ℕ);
  path_file_exists = λ disk path. false;
  read = λ disk path. some bytes;
  file_names = λ disk directory. [];
  write = λ disk path contents. (path, contents) ∷ disk;
  rename = λ disk from to. disk;
  path_find_extension = λ path. [];
  path_remove_extension = λ path. path;
}

abbrev pub client : FtpClient api
client = record {
  client_identifier = pos 1;
  server_identifier = pos 2;
  sequence_number = 6;
  sync_count = 1;
  files_directory = b'd' ∷ [];
  receiver = receiver;
  sender = raw_sender;
  requests = record { next = 0; is_acked = λ _. true; msg = λ _. blank };
  server_msg = blank;
  disk = [];
  outbox = [];
  printed = [];
}

abbrev pub filename : List ℕ
filename = b'a' ∷ []

abbrev thread : Thread api
thread = record {
  server_id = 2;
  files_directory = [];
  current_state = waiting_for_request;
  current_msg = get_request api client filename;
  sender = some raw_sender;
  receiver = some receiver;
  filename = [];
  sequence_number = 6;
  disk = [];
  outbox = [];
}

abbrev pub events : List Event
events = got (packet_msg sender.job 0) ∷ got (eof_msg sender.job) ∷ silent ∷ []

abbrev pub acks : List Msg
acks = ack_msg receiver 6 ∷ ack_msg receiver 0 ∷ []

Downloads-complete :
    Downloads (pos 2) true complete (silent ∷ []) (ack_msg receiver 0 ∷ []) finished false
unfolding send normalize_current_window normalize_from start_packet process_ack mark slide refill
    finalize_payload handle_msg is_nsf_msg start_new_payload is_eof_msg is_sequence_number_in_window
    register normalize handle_eof
Downloads-complete =
    timed_out (acked (ack_msg receiver 0) [] finished.sender refl refl refl refl closed)

Downloads-at_end :
    Downloads
      (pos 2)
      true
      at_end
      (got (eof_msg sender.job) ∷ silent ∷ [])
      (ack_msg receiver 0 ∷ [])
      finished
      false
unfolding start_new_payload handle_msg register is_eof_msg is_nsf_msg is_sequence_number_in_window
    normalize handle_eof
Downloads-at_end = arrives (eof_msg sender.job) [] refl refl Downloads-complete

Downloads-acknowledged :
    Downloads
      (pos 2)
      true
      acknowledged
      (got (eof_msg sender.job) ∷ silent ∷ [])
      (ack_msg receiver 0 ∷ [])
      finished
      false
unfolding send normalize_current_window normalize_from start_packet mark slide refill
    finalize_payload run_pass
Downloads-acknowledged =
    works (transmit 1 (eof_msg sender.job) (omega arith) refl) refl Downloads-at_end

Downloads-stored :
    Downloads (pos 2) true stored (got (eof_msg sender.job) ∷ silent ∷ []) acks finished false
unfolding send normalize_current_window normalize_from start_packet process_ack mark slide refill
    finalize_payload
Downloads-stored =
    acked (ack_msg receiver 6) [] acknowledged.sender refl refl refl refl Downloads-acknowledged

Downloads-on_its_way : Downloads (pos 2) true on_its_way events acks finished false
unfolding start_new_payload handle_msg register is_eof_msg is_nsf_msg is_sequence_number_in_window
Downloads-on_its_way = arrives (packet_msg sender.job 0) [] refl refl Downloads-stored

pub Downloads-started : Downloads (pos 2) true started events acks finished false
unfolding send normalize_current_window normalize_from start_packet run_pass
Downloads-started =
    works (transmit 0 (packet_msg sender.job 0) (omega arith) refl) refl Downloads-on_its_way

-- What performGet leaves.
abbrev Fetched : FtpClient api → Type 0
Fetched c =
    (c.disk ≡ (b'd' ∷ b'a' ∷ [], bytes) ∷ [])
    × (c.sequence_number ≡ Sender.final_sequence_number sender)

get_served_example :
    (t' : Thread api) × (run api 1 raw_sender receiver (actives acks) thread ≡ some (ok t'))
    × ((Finished api (Sender.final_sequence_number sender) [] t'
          × (finished.receiver.is_complete ≡ true))
        ⊎ ((t'.current_state ≡ sending) × (finished.sender.is_complete ≡ false)))
    × Finally Fetched
        (λ (c : FtpClient api). (c.disk ≡ []) × (c.printed ≡ []))
        (perform_get api filename events client)
unfolding initialize_payload
get_served_example =
    get_served api 1 raw_sender receiver thread raw_sender sender client filename bytes events acks
      finished (omega arith) refl refl refl refl refl (λ f a. refl) (omega arith) (omega arith) refl
      refl Downloads-started

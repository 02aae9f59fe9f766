-- ===== src/Link/Tests/Listing.antt =====
-- The listing of a directory with one file, whose name is one letter.
use comp6461_assignment.Base.{ℕ, ◌≡◌, refl, true, false, some, List, [], ◌∷◌, arith}
use comp6461_assignment.Base.Int.{pos}
use comp6461_assignment.Sender.{
  Sender, run_pass, process_ack, send, packet_msg, eof_msg, normalize_current_window,
  normalize_from, start_packet, mark, slide, refill, finalize_payload, initialize_payload,
}
use comp6461_assignment.Sender
use comp6461_assignment.Receiver.{
  handle_msg, ack_msg, start_new_payload, handle_eof, register, normalize, is_eof_msg, is_nsf_msg,
  is_sequence_number_in_window,
}
use comp6461_assignment.ServerThread.Defs.{FileApi, Thread, waiting_for_request, ok}
use comp6461_assignment.ServerThread.Requests.{has_long_name, fill_names, names_length}
use comp6461_assignment.ServerThread.Run.{run}
use comp6461_assignment.ServerThread.Endings.{actives}
use comp6461_assignment.FtpClient.Defs.{got, silent, FtpClient}
use comp6461_assignment.FtpClient.Transfers.{perform_list}
use comp6461_assignment.FtpClient.Endings.{Finally, Returns}
use comp6461_assignment.Link.{Link, transmit, start_link}
use comp6461_assignment.Link.Serving.{Downloads, closed, timed_out, works, arrives, acked}
use comp6461_assignment.Link.Download.{ThreadEnds}
use comp6461_assignment.Link.Listing.{list_request, list_served}
use comp6461_assignment.Link.Tests.{raw_sender, receiver, blank}

-- Every directory holds the file `h`.
abbrev api : FileApi
api = record {
  Disk = List ℕ;
  path_file_exists = λ disk path. true;
  read = λ disk path. some disk;
  file_names = λ disk directory. (b'h' ∷ []) ∷ [];
  write = λ disk path contents. contents;
  rename = λ disk from to. disk;
  path_find_extension = λ path. [];
  path_remove_extension = λ path. path;
}

abbrev listing : List ℕ
listing = b'h' ∷ 0 ∷ []

abbrev lister : Sender
lister = record raw_sender {
  job = record raw_sender.job {
    complete_payload = listing;
    number_of_packets = 1;
    payload_size = 2;
    sequence_seed = 6;
  };
  is_complete = false;
}

abbrev client : FtpClient api
client = record {
  client_identifier = pos 1;
  server_identifier = pos 2;
  sequence_number = 6;
  sync_count = 1;
  files_directory = [];
  receiver = receiver;
  sender = raw_sender;
  requests = record { next = 0; is_acked = λ _. true; msg = λ _. blank };
  server_msg = blank;
  disk = [];
  outbox = [];
  printed = [];
}

abbrev thread : Thread api
thread = record {
  server_id = 2;
  files_directory = [];
  current_state = waiting_for_request;
  current_msg = list_request client;
  sender = some raw_sender;
  receiver = some receiver;
  filename = [];
  sequence_number = 6;
  disk = [];
  outbox = [];
}

abbrev started : Link
started = start_link lister receiver

abbrev stored : Link
stored = record started {
  receiver = (handle_msg started.receiver (packet_msg lister.job 0)).receiver;
  ack_channel = ack_msg receiver 6 ∷ [];
}

abbrev acknowledged : Link
acknowledged = record stored { sender = refill (slide 3 (mark started.sender 6)); ack_channel = [] }

abbrev complete : Link
complete = record acknowledged {
  receiver = (handle_msg stored.receiver (eof_msg lister.job)).receiver;
  ack_channel = ack_msg receiver 0 ∷ [];
}

abbrev finished : Link
finished = record complete {
  sender = record (mark acknowledged.sender 0) { is_complete = true };
  ack_channel = [];
}

Downloads-acknowledged :
    Downloads
      (pos 2)
      true
      acknowledged
      (got (eof_msg lister.job) ∷ silent ∷ [])
      (ack_msg receiver 0 ∷ [])
      finished
      false
unfolding start_new_payload handle_msg register is_eof_msg is_nsf_msg is_sequence_number_in_window
    normalize handle_eof send normalize_current_window normalize_from start_packet mark slide refill
    finalize_payload run_pass process_ack
Downloads-acknowledged = works (transmit 1 (eof_msg lister.job) (omega arith) refl) refl (
    arrives (eof_msg lister.job) [] refl refl
      (timed_out (acked (ack_msg receiver 0) [] finished.sender refl refl refl refl closed)))

Downloads-started :
    Downloads
      (pos 2)
      true
      started
      (got (packet_msg lister.job 0) ∷ got (eof_msg lister.job) ∷ silent ∷ [])
      (ack_msg receiver 6 ∷ ack_msg receiver 0 ∷ [])
      finished
      false
unfolding start_new_payload handle_msg register is_eof_msg is_nsf_msg is_sequence_number_in_window
    normalize send normalize_current_window normalize_from start_packet mark slide refill
    finalize_payload run_pass process_ack
Downloads-started = works (transmit 0 (packet_msg lister.job 0) (omega arith) refl) refl (
    arrives (packet_msg lister.job 0) [] refl refl (
      acked (ack_msg receiver 6) [] acknowledged.sender refl refl refl refl Downloads-acknowledged))

list_served_example :
    (t' : Thread api) × (run api 1 raw_sender receiver
        (actives (ack_msg receiver 6 ∷ ack_msg receiver 0 ∷ []))
        thread
      ≡ some (ok t'))
    × ThreadEnds api lister finished [] t'
    × Finally
        (λ (c : FtpClient api).
          (c.printed ≡ b'h' ∷ 10 ∷ []) × (c.disk ≡ []) × (c.sequence_number ≡ 1))
        (λ (c : FtpClient api). (c.disk ≡ []) × (c.printed ≡ []))
        (perform_list api
          (got (packet_msg lister.job 0) ∷ got (eof_msg lister.job) ∷ silent ∷ [])
          client)
unfolding initialize_payload has_long_name fill_names names_length
list_served_example =
    list_served api 1 raw_sender receiver thread raw_sender lister client listing
      (got (packet_msg lister.job 0) ∷ got (eof_msg lister.job) ∷ silent ∷ [])
      (ack_msg receiver 6 ∷ ack_msg receiver 0 ∷ []) finished refl refl refl
      (((λ e. cc (e)), tt), tt) refl refl (λ f a. refl) (omega arith) (omega arith) refl refl
      Downloads-started

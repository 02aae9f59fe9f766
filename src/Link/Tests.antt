-- ===== src/Link/Tests.antt =====
-- A transfer of two bytes, from start to end, and the theorems about a link at its states.
mod Download
mod Upload
mod Visits
mod Listing
use comp6461_assignment.Base.{ℕ, ◌<◌, ◌≡◌, refl, ◌≢◌, false, true, none, some, List, [], ◌∷◌, arith}
use comp6461_assignment.Base.Int.{pos}
use comp6461_assignment.Message.{Msg, MsgType, returned}
use comp6461_assignment.Sender.{
  Sender, run_pass, process_ack, send, initialize_payload, initialized, packet_msg, eof_msg,
  normalize_current_window, normalize_from, start_packet, mark, slide, refill, finalize_payload,
  is_payload_sent,
}
use comp6461_assignment.Sender
use comp6461_assignment.Receiver.{
  Receiver, handle_msg, ack_msg, start_new_payload, get_payload, assembled, handle_eof, register,
  normalize, is_eof_msg, is_nsf_msg, is_sequence_number_in_window, drain,
}
use comp6461_assignment.Receiver
use comp6461_assignment.Link.{Link, transmit, deliver, acknowledge, start_link, Reach, here, next}
use comp6461_assignment.Link.Safety.{IsGiven, link_exact, link_sent, link_never_faults}

abbrev pub bytes : List ℕ
bytes = b'h' ∷ b'i' ∷ []

abbrev pub blank : Msg
blank = record {
  client_id = pos 1;
  server_id = pos 2;
  type = MsgType.other 0;
  length = 0;
  sequence_number = 0;
  buffer = [];
}

abbrev pub raw_sender : Sender
raw_sender = record {
  job = record {
    server_id = pos 2;
    client_id = pos 1;
    complete_payload = [];
    number_of_packets = 0;
    payload_size = 0;
    sequence_seed = 0;
  };
  is_complete = true;
  current_window = λ _. none;
  window_state = λ _. none;
  current_window_origin = 0;
  workers = record { next = 0; is_acked = λ _. true; msg = λ _. blank };
}

abbrev pub sender : Sender
sender = record raw_sender {
  job = record raw_sender.job {
    complete_payload = bytes;
    number_of_packets = 1;
    payload_size = 2;
    sequence_seed = 6;
  };
  is_complete = false;
}

abbrev pub receiver : Receiver
receiver = record {
  server_id = pos 2;
  client_id = pos 1;
  completed_set = [];
  total_payload_size = 0;
  current_window = λ _. none;
  sequence_seed = 0;
  window_origin = 0;
  is_complete = false;
}

pub given : IsGiven bytes 6 sender
unfolding initialize_payload
given = record {
  before = raw_sender;
  quiet = λ f a. refl;
  given = refl;
  nonempty = omega arith;
  small = omega arith;
}

abbrev pub started : Link
started = start_link sender receiver

-- The packet is on its way.
abbrev pub on_its_way : Link
on_its_way = record started { data_channel = packet_msg sender.job 0 ∷ [] }

abbrev pub stored : Link
stored = record started {
  receiver = (handle_msg started.receiver (packet_msg sender.job 0)).receiver;
  ack_channel = ack_msg receiver 6 ∷ [];
}

abbrev pub acknowledged : Link
acknowledged = record stored { sender = refill (slide 3 (mark started.sender 6)); ack_channel = [] }

abbrev pub at_end : Link
at_end = record acknowledged { data_channel = eof_msg sender.job ∷ [] }

abbrev pub complete : Link
complete = record acknowledged {
  receiver = (handle_msg stored.receiver (eof_msg sender.job)).receiver;
  ack_channel = ack_msg receiver 0 ∷ [];
}

abbrev pub finished : Link
finished = record complete {
  sender = record (mark acknowledged.sender 0) { is_complete = true };
  ack_channel = [];
}

reach-on_its_way : Reach started on_its_way
unfolding send normalize_current_window normalize_from start_packet run_pass
reach-on_its_way = next here (transmit 0 (packet_msg sender.job 0) (omega arith) refl)

reach-stored : Reach started stored
unfolding start_new_payload handle_msg register is_eof_msg is_nsf_msg is_sequence_number_in_window
reach-stored = next reach-on_its_way (deliver (packet_msg sender.job 0) [] refl refl)

reach-acknowledged : Reach started acknowledged
unfolding send normalize_current_window normalize_from start_packet process_ack mark slide refill
    finalize_payload
reach-acknowledged =
    next reach-stored (acknowledge (ack_msg receiver 6) [] acknowledged.sender refl refl refl)

reach-at_end : Reach started at_end
unfolding send normalize_current_window normalize_from start_packet mark slide refill
    finalize_payload run_pass
reach-at_end = next reach-acknowledged (transmit 1 (eof_msg sender.job) (omega arith) refl)

reach-complete : Reach started complete
unfolding start_new_payload handle_msg register is_eof_msg is_nsf_msg is_sequence_number_in_window
    normalize handle_eof
reach-complete = next reach-at_end (deliver (eof_msg sender.job) [] refl refl)

reach-finished : Reach started finished
unfolding send normalize_current_window normalize_from start_packet process_ack mark slide refill
    finalize_payload
reach-finished =
    next reach-complete (acknowledge (ack_msg receiver 0) [] finished.sender refl refl refl)

link_exact_example :
    get_payload complete.receiver
    ≡ assembled
        (record { length = 2; contents = bytes })
        (record complete.receiver { completed_set = [] })
unfolding start_new_payload handle_msg register is_eof_msg is_nsf_msg is_sequence_number_in_window
    normalize handle_eof
link_exact_example = link_exact bytes 6 sender given receiver complete reach-complete refl

link_sent_example :
    (finished.receiver.is_complete ≡ true)
    × (Receiver.final_sequence_number finished.receiver ≡ Sender.final_sequence_number sender)
unfolding is_payload_sent
link_sent_example = link_sent bytes 6 sender given receiver finished reach-finished refl

link_never_faults_example :
    ((m : Msg) (rest : List Msg)
      → on_its_way.data_channel ≡ m ∷ rest
      → on_its_way.receiver.is_complete ≡ false
      → (handle_msg on_its_way.receiver m).status ≡ returned)
    × ((a : Msg) (rest : List Msg)
        → on_its_way.ack_channel ≡ a ∷ rest
        → on_its_way.sender.is_complete ≡ false
        → process_ack on_its_way.sender a ≢ none)
link_never_faults_example =
    link_never_faults bytes 6 sender given receiver on_its_way reach-on_its_way

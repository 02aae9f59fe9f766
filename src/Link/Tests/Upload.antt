-- ===== src/Link/Tests/Upload.antt =====
-- The transfer of two bytes as a client's upload.
use comp6461_assignment.Base.{refl, some, List, [], ◌∷◌, arith}
use comp6461_assignment.Base.Int.{pos}
use comp6461_assignment.Message.{Msg}
use comp6461_assignment.Sender.{
  Sender, run_pass, process_ack, send, packet_msg, eof_msg, normalize_current_window,
  normalize_from, start_packet, mark, slide, refill, finalize_payload,
}
use comp6461_assignment.Receiver.{
  handle_msg, ack_msg, start_new_payload, handle_eof, register, normalize, is_eof_msg, is_nsf_msg,
  is_sequence_number_in_window, get_payload, assembled,
}
use comp6461_assignment.Receiver
use comp6461_assignment.ServerThread.Defs.{Thread, waiting_for_request}
use comp6461_assignment.FtpClient.Defs.{Event, got, silent, FtpClient}
use comp6461_assignment.Link.{Link, transmit}
use comp6461_assignment.Link.Saving.{Uploads, closed, timed_out, works, acked, arrives, asked_again}
use comp6461_assignment.Link.Asking.{post_request}
use comp6461_assignment.Link.Tests.{
  raw_sender, sender, receiver, started, on_its_way, stored, acknowledged, at_end, complete,
  finished,
}
use comp6461_assignment.Link.Tests.Download.{api, client, filename}

abbrev last : List Event
last = silent ∷ got (ack_msg receiver 0) ∷ []

abbrev pub events : List Event
events = got (ack_msg receiver 6) ∷ last

-- What the thread is given; the client has sent its request twice.
abbrev pub handed : List Msg
handed = post_request client filename ∷ packet_msg sender.job 0 ∷ eof_msg sender.job ∷ []

abbrev thread : Thread api
thread = record {
  server_id = 2;
  files_directory = [];
  current_state = waiting_for_request;
  current_msg = post_request client filename;
  sender = some raw_sender;
  receiver = some receiver;
  filename = [];
  sequence_number = 6;
  disk = [];
  outbox = [];
}

Uploads-complete : Uploads (pos 2) complete last [] finished
unfolding send normalize_current_window normalize_from start_packet process_ack mark slide refill
    finalize_payload
Uploads-complete =
    timed_out (acked (ack_msg receiver 0) [] finished.sender refl refl refl refl closed)

Uploads-at_end : Uploads (pos 2) at_end last (eof_msg sender.job ∷ []) finished
unfolding start_new_payload handle_msg register is_eof_msg is_nsf_msg is_sequence_number_in_window
    normalize handle_eof
Uploads-at_end = arrives (eof_msg sender.job) [] refl refl Uploads-complete

Uploads-acknowledged : Uploads (pos 2) acknowledged last (eof_msg sender.job ∷ []) finished
unfolding send normalize_current_window normalize_from start_packet mark slide refill
    finalize_payload run_pass
Uploads-acknowledged =
    works (transmit 1 (eof_msg sender.job) (omega arith) refl) refl Uploads-at_end

Uploads-stored : Uploads (pos 2) stored events (eof_msg sender.job ∷ []) finished
unfolding send normalize_current_window normalize_from start_packet process_ack mark slide refill
    finalize_payload
Uploads-stored =
    acked (ack_msg receiver 6) [] acknowledged.sender refl refl refl refl Uploads-acknowledged

Uploads-on_its_way :
    Uploads (pos 2) on_its_way events (packet_msg sender.job 0 ∷ eof_msg sender.job ∷ []) finished
unfolding start_new_payload handle_msg register is_eof_msg is_nsf_msg is_sequence_number_in_window
Uploads-on_its_way = arrives (packet_msg sender.job 0) [] refl refl Uploads-stored

pub Uploads-started : Uploads (pos 2) started events handed finished
unfolding send normalize_current_window normalize_from start_packet run_pass start_new_payload
Uploads-started =
    asked_again (post_request client filename) refl refl
      (works (transmit 0 (packet_msg sender.job 0) (omega arith) refl) refl Uploads-on_its_way)

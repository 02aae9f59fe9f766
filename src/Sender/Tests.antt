-- ===== src/Sender/Tests.antt =====
-- A payload of 300 bytes, in two packets, and the theorems about Sender at its states.
use comp6461_assignment.Base.{
  ℕ, ◌≡◌, ◌≢◌, refl, true, false, not, none, some, List, [], arith, ◌==◌, replicate, take, update,
}
use comp6461_assignment.Base.Int.{pos}
use comp6461_assignment.Message.{Msg, MsgType}
use comp6461_assignment.Sender.{
  Sender, initialize_payload, send, normalize_current_window, normalize_from, start_packet,
  process_ack, eof_msg, is_payload_sent,
}
use comp6461_assignment.Sender.Window.{slot}
use comp6461_assignment.Sender.Ack.{Sending, Ending, Acknowledges, process_ack-Acknowledges}
use comp6461_assignment.Sender.Passes.{Quiet, send-Sending}
use comp6461_assignment.Sender.Limits.{send_empty}

abbrev bytes : List ℕ
bytes = replicate 300 7

abbrev ack : ℕ → Msg
ack number = record {
  client_id = pos 1;
  server_id = pos 2;
  type = MsgType.ack;
  length = 0;
  sequence_number = number;
  buffer = [];
}

abbrev idle : Sender
idle = record {
  job = record {
    server_id = pos 2;
    client_id = pos 1;
    complete_payload = [];
    number_of_packets = 0;
    payload_size = 0;
    sequence_seed = 0;
  };
  is_complete = true;
  current_window = λ _. none;
  window_state = λ _. none;
  current_window_origin = 0;
  workers = record { next = 0; is_acked = λ _. true; msg = λ _. ack 0 };
}

abbrev given : Sender
given = record idle {
  job = record idle.job {
    complete_payload = take 300 bytes;
    number_of_packets = 2;
    payload_size = 300;
    sequence_seed = 6;
  };
  is_complete = false;
}

abbrev started : Sender
started = send given

idle-Quiet : Quiet idle
idle-Quiet f h = refl

started-Sending : Sending given.job started
unfolding initialize_payload
started-Sending = (send-Sending idle given bytes 300 6 idle-Quiet (omega arith) refl).0

process_ack-Acknowledges_example :
    (s' : Sender) × (process_ack started (ack 0) ≡ some s') × Acknowledges given.job started 1 s'
unfolding send normalize_current_window normalize_from start_packet
process_ack-Acknowledges_example =
    process_ack-Acknowledges given.job started started-Sending 1 (omega arith) (omega arith)
      (omega arith) (ack 0) refl

-- Both packets are acknowledged, and worker 2 repeats the EOF message.
abbrev ending : Sender
ending = record given {
  current_window = update (λ _. none) 1 (some 2);
  window_state = update (λ _. none) 1 (some 2);
  current_window_origin = 2;
  workers = record {
    next = 3;
    is_acked = λ f. not (f == 2);
    msg = update (λ _. ack 0) 2 (eof_msg given.job);
  };
}

ending-Ending : Ending given.job ending
ending-Ending = record {
  same = refl;
  origin = refl;
  eof = 2;
  known = omega arith;
  state = refl;
  carries = refl;
  unset = refl;
  free = λ j a b.
      let apart : slot given.job j ≢ 1 = omega arith in
      (ground (arith, apart), ground (arith, apart));
  live = λ f a b. ground arith;
  incomplete = refl;
}

abbrev given_nothing : Sender
given_nothing = record given {
  job = record given.job { complete_payload = []; number_of_packets = 0; payload_size = 0 };
}

send_empty_example :
    ((send given_nothing).workers ≡ idle.workers) × (is_payload_sent (send given_nothing) ≡ false)
unfolding initialize_payload
send_empty_example = send_empty idle given_nothing [] 6 refl

-- ===== src/Receiver/Tests.antt =====
-- A transfer of two packets, the second of which arrives first.
use comp6461_assignment.Base.{ℕ, ◌<◌, ◌≡◌, refl, false, none, [], ◌∷◌, ◌++◌, arith, inl}
use comp6461_assignment.Base.Int.{pos}
use comp6461_assignment.Message.{
  window_size, Msg, MsgType, Payload, out_of_bounds, eof_text, int_bytes,
}
use comp6461_assignment.Receiver.{
  Receiver, handle_msg, handle_eof, start_new_payload, get_payload, assembled, drain,
  final_sequence_number, normalize, register, is_eof_msg, is_nsf_msg, is_sequence_number_in_window,
}
use comp6461_assignment.Receiver.Inv.{size_below, chunks_below}
use comp6461_assignment.Receiver.Store.{IsPacket}
use comp6461_assignment.Receiver.Packet.{Settled, Takes, handle_msg-Takes}
use comp6461_assignment.Receiver.Completion.{IsEof}
use comp6461_assignment.Receiver.Transfer.{
  packet, eof, Reach, started, then, start-Settled, transfer_complete,
}
use comp6461_assignment.Receiver.Membership.{is_number_of_window, is_sequence_number_in_window_lem}
use comp6461_assignment.Receiver.Bounds.{handle_msg-overflow}

abbrev chunk : ℕ → Payload
chunk j = record { length = 1; contents = j ∷ [] }

abbrev packet_of : ℕ → ℕ → Msg
packet_of k number = record {
  client_id = pos 1;
  server_id = pos 2;
  type = MsgType.resp;
  length = 1;
  sequence_number = number;
  buffer = k ∷ 0 ∷ [];
}

abbrev end_msg : Msg
end_msg = record (packet_of 0 1) {
  type = MsgType.resp_err;
  length = 8;
  buffer = eof_text ++ 0 ∷ int_bytes 2;
}

abbrev idle : Receiver
idle = record {
  server_id = pos 2;
  client_id = pos 1;
  completed_set = [];
  total_payload_size = 0;
  current_window = λ _. none;
  sequence_seed = 0;
  window_origin = 0;
  is_complete = false;
}

abbrev begun : Receiver
begun = start_new_payload idle 6

abbrev half : Receiver
half = (handle_msg begun (packet_of 1 0)).receiver

abbrev whole : Receiver
whole = (handle_msg half (packet_of 0 6)).receiver

abbrev done : Receiver
done = (handle_msg whole end_msg).receiver

first-IsPacket : IsPacket 2 6 chunk 0 (packet_of 0 6)
first-IsPacket = record {
  in_payload = omega arith;
  typed = refl;
  numbered = refl;
  fits = omega arith;
  content = refl;
}

second-IsPacket : IsPacket 2 6 chunk 1 (packet_of 1 0)
second-IsPacket = record {
  in_payload = omega arith;
  typed = refl;
  numbered = refl;
  fits = omega arith;
  content = refl;
}

end-IsEof : IsEof 2 6 chunk end_msg
unfolding size_below
end-IsEof = record { typed = refl; text = refl; size = refl }

reach-half : Reach 2 6 chunk idle half
unfolding start_new_payload
reach-half =
    then started
      (packet 1 (packet_of 1 0) half refl second-IsPacket (omega arith) (omega arith) refl)

reach-whole : Reach 2 6 chunk idle whole
unfolding start_new_payload handle_msg register is_eof_msg is_nsf_msg is_sequence_number_in_window
    normalize
reach-whole =
    then reach-half
      (packet 0 (packet_of 0 6) whole refl first-IsPacket (omega arith) (omega arith) refl)

reach-done : Reach 2 6 chunk idle done
unfolding start_new_payload handle_msg register is_eof_msg is_nsf_msg is_sequence_number_in_window
    normalize
reach-done = then reach-whole (eof end_msg done refl end-IsEof refl)

one_byte : (j : ℕ) → j < 2 → 0 < (chunk j).length
one_byte j h = omega arith

transfer_complete_example :
    (get_payload done
      ≡ assembled
          (record { length = size_below chunk 2; contents = drain (chunks_below chunk 2) })
          (record done { completed_set = [] }))
    × (final_sequence_number done ≡ 2)
unfolding start_new_payload handle_msg handle_eof register is_eof_msg is_nsf_msg
    is_sequence_number_in_window normalize
transfer_complete_example = transfer_complete 2 6 chunk one_byte reach-done refl

handle_msg-Takes_example :
    Takes 2 6 chunk begun 1 (packet_of 1 0) (handle_msg begun (packet_of 1 0))
unfolding start_new_payload
handle_msg-Takes_example =
    handle_msg-Takes 2 6 chunk begun (start-Settled 2 6 chunk idle) 1 (packet_of 1 0)
      second-IsPacket (omega arith) (omega arith)

abbrev whole_state : Receiver
whole_state = record begun {
  completed_set = chunk 0 ∷ chunk 1 ∷ [];
  total_payload_size = 2;
  window_origin = 2;
}

whole-Settled : Settled 2 6 chunk whole_state
unfolding start_new_payload chunks_below size_below
whole-Settled = record {
  holds = record {
    seeded = refl;
    bounded = omega arith;
    queue = refl;
    inside = λ j a b. inl refl;
    outside = λ j a b. refl;
    total = refl;
  };
  start_empty = refl;
}

handle_msg-overflow_example : (handle_msg begun (packet_of 0 7)).status ≡ out_of_bounds
unfolding start_new_payload
handle_msg-overflow_example = handle_msg-overflow begun (packet_of 0 7) (omega arith) refl refl

is_sequence_number_in_window_lem_example :
    is_sequence_number_in_window begun 1 ≡ is_number_of_window begun window_size 1
is_sequence_number_in_window_lem_example = is_sequence_number_in_window_lem begun 1 (omega arith)

-- ===== src/Receiver/Bounds.antt =====
-- When Receiver::handleMsg stays inside its arrays.
use comp6461_assignment.Base.{◌≤◌, ◌<◌, ◌≡◌, ◌≢◌, arith}
use comp6461_assignment.Message.{Msg, MsgType, out_of_bounds, sequence_range, buffer_length}
use comp6461_assignment.Receiver.{
  Receiver, handle_msg, handle_eof, register, current_sequence, is_nsf_msg, is_eof_msg,
  is_sequence_number_in_window,
}

-- In any state a message whose sequence number is below SEQUENCE_RANGE and whose length is at most that
-- of the buffer is handled without an access outside an array.
handle_msg-in_bounds :
    (r : Receiver) (msg : Msg)
    → msg.sequence_number < sequence_range
    → msg.length ≤ buffer_length
    → (handle_msg r msg).status ≢ out_of_bounds
unfolding handle_msg handle_eof register
handle_msg-in_bounds r msg number fits = ground (arith, number, fits)

-- The window test lets a bad number through: with the window's start in slot 5 or 6, a RESP message
-- with the sequence number SEQUENCE_RANGE passes it, and the code indexes the array out of its
-- bounds.
pub handle_msg-overflow :
    (r : Receiver) (msg : Msg)
    → 5 ≤ current_sequence r
    → msg.type ≡ MsgType.resp
    → msg.sequence_number ≡ sequence_range
    → (handle_msg r msg).status ≡ out_of_bounds
unfolding handle_msg is_nsf_msg is_eof_msg is_sequence_number_in_window register
handle_msg-overflow r msg head type number =
    let small : current_sequence r < 7 = omega arith in ground (arith, head, type, number, small)

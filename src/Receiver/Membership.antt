-- ===== src/Receiver/Membership.antt =====
-- The window test of Receiver::handleMsg against what it is for.
use comp6461_assignment.Base.{ℕ, zero, suc, ◌+◌, ◌%◌, ◌<◌, ◌≡◌, Bool, false, ◌||◌, arith, ◌==◌}
use comp6461_assignment.Message.{sequence_range, window_size}
use comp6461_assignment.Receiver.{Receiver, is_sequence_number_in_window}

-- The number is that of one of the `size` packets from the window's origin on.
abbrev pub is_number_of_window : Receiver → ℕ → ℕ → Bool
is_number_of_window r zero seq = false
is_number_of_window r (suc k) seq =
    is_number_of_window r k seq || seq == (r.window_origin + r.sequence_seed + k) % sequence_range

-- On the sequence numbers of the protocol, which are below SEQUENCE_RANGE, the test with a head, a tail
-- and a shift by SEQUENCE_RANGE accepts exactly the numbers of the WINDOW_SIZE packets from the window's
-- origin on.
pub is_sequence_number_in_window_lem :
    (r : Receiver) (seq : ℕ)
    → seq < sequence_range
    → is_sequence_number_in_window r seq ≡ is_number_of_window r window_size seq
unfolding is_sequence_number_in_window
is_sequence_number_in_window_lem r seq small = ground arith

-- ===== src/Sender/Limits.antt =====
-- Where Sender stops short: a payload without bytes, and a transmission that is given up.
use comp6461_assignment.Base.{ℕ, ◌≡◌, ◌≢◌, false, some, List, arith}
use comp6461_assignment.Sender.{
  Sender, run_pass, initialize_payload, initialized, send, normalize_current_window, normalize_from,
  terminate_current_transmission, release_slot, is_payload_sent,
}

-- Sending an empty payload starts no worker, and the payload does not count as sent.
pub send_empty :
    (s s' : Sender) (contents : List ℕ) (seed : ℕ)
    → initialize_payload s (some contents) 0 seed ≡ initialized s'
    → ((send s').workers ≡ s.workers) × (is_payload_sent (send s') ≡ false)
unfolding initialize_payload send normalize_current_window normalize_from is_payload_sent
send_empty s s' contents seed e = (ground arith, ground arith)

-- terminateCurrentTransmission stops the first WINDOW_SIZE slots of the array only: a worker in
-- another slot goes on sending.
terminate_leaves :
    (s : Sender) (f : ℕ)
    → s.is_acked f ≡ false
    → s.window_state 0 ≢ some f
    → s.window_state 1 ≢ some f
    → s.window_state 2 ≢ some f
    → run_pass (terminate_current_transmission s).workers f ≡ some (s.msg f)
unfolding terminate_current_transmission release_slot run_pass
terminate_leaves s f e a b c = ground arith

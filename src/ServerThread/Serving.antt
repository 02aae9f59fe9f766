-- ===== src/ServerThread/Serving.antt =====
-- ServerThread::run while a file goes out: what a pass does with each acknowledgement.
use comp6461_assignment.Base.{ℕ, ◌≡◌, ap, ◌∙◌, true, false, some, arith}
use comp6461_assignment.Message.{MsgType}
use comp6461_assignment.Sender.{Sender, process_ack, is_payload_sent}
use comp6461_assignment.Sender
use comp6461_assignment.Receiver.{Receiver}
use comp6461_assignment.ServerThread.Defs.{FileApi, waiting_for_request, sending, Thread, ok}
use comp6461_assignment.ServerThread.Requests.{dispatch_to_sender}
use comp6461_assignment.ServerThread.Run.{is_ack, on_request, on_sending, on_state, pass}

module _ (api : FileApi) (fuel : ℕ) (raw_sender : Sender) (raw_receiver : Receiver)
    (t : Thread api) where
  pass-sending :
      t.current_state ≡ sending → pass api fuel raw_sender raw_receiver t ≡ some (on_sending api t)
  unfolding pass on_state
  pass-sending w = ap (λ st. on_state api fuel raw_sender raw_receiver st t) w

  -- An acknowledgement that leaves something to send.
  pub pass_acknowledged :
      (s s' : Sender)
      → t.current_state ≡ sending
      → is_ack t.current_msg.type ≡ true
      → t.sender ≡ some s
      → process_ack s t.current_msg ≡ some s'
      → s'.is_complete ≡ false
      → pass api fuel raw_sender raw_receiver t ≡ some (ok (record t { sender = some s' }))
  unfolding on_sending dispatch_to_sender is_payload_sent
  pass_acknowledged s s' w type known acked open_ =
      pass-sending w ∙ ap some (ground (arith, type, known, acked, open_))

  -- The acknowledgement of the EOF message.
  pub pass_sent :
      (s s' : Sender)
      → t.current_state ≡ sending
      → is_ack t.current_msg.type ≡ true
      → t.sender ≡ some s
      → process_ack s t.current_msg ≡ some s'
      → s'.is_complete ≡ true
      → pass api fuel raw_sender raw_receiver t
        ≡ some (
            ok (record t {
              sender = some s';
              sequence_number = Sender.final_sequence_number s';
              current_state = waiting_for_request;
            }))
  unfolding on_sending dispatch_to_sender is_payload_sent
  pass_sent s s' w type known acked over =
      pass-sending w ∙ ap some (ground (arith, type, known, acked, over))

  -- What is not an acknowledgement is ignored.
  pub pass_ignored :
      t.current_state ≡ sending
      → is_ack t.current_msg.type ≡ false
      → pass api fuel raw_sender raw_receiver t ≡ some (ok t)
  unfolding on_sending
  pass_ignored w type = pass-sending w ∙ ap some (ground (arith, type))

  -- An acknowledgement that comes late is ignored.
  pub pass_late_ack :
      t.current_state ≡ waiting_for_request
      → t.current_msg.type ≡ MsgType.ack
      → pass api fuel raw_sender raw_receiver t ≡ some (ok t)
  unfolding pass on_state on_request
  pass_late_ack w type =
      ap (λ st. on_state api fuel raw_sender raw_receiver st t) w
      ∙ ap (λ (ty : MsgType). some (on_request api ty t)) type

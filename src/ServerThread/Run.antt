-- ===== src/ServerThread/Run.antt =====
-- ServerThread::run: one pass of its loop, and the loop over the messages that are handed over.
use comp6461_assignment.Base.{
  ℕ, ◌+◌, ◌%◌, Bool, true, false, ◌&&◌, ◌||◌, Option, none, some, List, [], ◌∷◌, ◌==◌,
  if◌then◌else◌,
}
use comp6461_assignment.Message.{Msg, MsgType, sequence_range, strcmp_eq, eof_text}
use comp6461_assignment.Sender.{Sender}
use comp6461_assignment.Sender
use comp6461_assignment.Receiver.{Receiver, is_resp_err}
use comp6461_assignment.Receiver
use comp6461_assignment.ServerThread.Defs.{
  FileApi, ServerState, initializing, starting_handshake, waiting_for_request, sending, receiving,
  renaming, Thread, Outcome, ok, threw, crashed, send_ack,
}
use comp6461_assignment.ServerThread.Requests.{
  init_server_with_client_data, start_handshake, send_list, send_file, get_file, start_rename,
  perform_rename, notify_file_error, dispatch_to_sender, dispatch_to_receiver,
}

abbrev pub is_ack : MsgType → Bool
is_ack MsgType.ack = true
is_ack _ = false

abbrev pub is_resp : MsgType → Bool
is_resp MsgType.resp = true
is_resp _ = false

abbrev pub is_post : MsgType → Bool
is_post MsgType.post = true
is_post _ = false

module _ (api : FileApi) where
  -- `switch (currentMsg->type)` in state WAITING_FOR_REQUEST
  unfoldable pub on_request : MsgType → Thread api → Outcome api
  on_request MsgType.handshake t = start_handshake api t
  on_request MsgType.get_list t = send_list api t
  on_request MsgType.get_file t = send_file api t
  on_request MsgType.post t = get_file api t
  on_request MsgType.put t = ok (start_rename api t)
  on_request MsgType.resp t = ok (send_ack api t)
  on_request MsgType.resp_err t = ok (send_ack api t)
  on_request _ t = ok t

  unfoldable pub on_sending : Thread api → Outcome api
  on_sending t = if is_ack t.current_msg.type then dispatch_to_sender api t else ok t

  -- The inner switch of state RENAMING.
  unfoldable pub on_repeated_name : MsgType → Thread api → Thread api
  on_repeated_name MsgType.put t = send_ack api t
  on_repeated_name MsgType.resp t = notify_file_error api t
  on_repeated_name _ t = t

  unfoldable pub on_renaming : Thread api → Thread api
  on_renaming t =
      if t.current_msg.sequence_number == t.sequence_number
      then on_repeated_name t.current_msg.type t
      else if t.current_msg.sequence_number == (t.sequence_number + 1) % sequence_range
          && is_resp t.current_msg.type
      then perform_rename api t
      else t

  -- What follows the loop; the pointers must have been set.
  unfoldable pub shut_down : Thread api → Outcome api
  shut_down t = elim t.sender [
    | none ↦ crashed
    | some s ↦ elim t.receiver [
      | none ↦ crashed
      | some r ↦ ok (record t {
        sender = some (Sender.terminate_current_transmission s);
        receiver = some (Receiver.terminate_current_transmission r);
      })
    ]
  ]

module _ (api : FileApi) (fuel : ℕ) where
  -- The second test compares the thread's sequenceNumber with itself, as the code does.
  unfoldable pub on_receiving : Thread api → Option (Outcome api)
  on_receiving t =
      if is_resp t.current_msg.type
        || is_resp_err t.current_msg.type && strcmp_eq t.current_msg.buffer eof_text
      then dispatch_to_receiver api fuel t
      else if is_post t.current_msg.type && t.sequence_number == t.sequence_number
      then some (ok (send_ack api t))
      else some (ok t)

module _ (api : FileApi) (fuel : ℕ) (raw_sender : Sender) (raw_receiver : Receiver) where
  -- `switch (currentState)`; `none` is a saveFile that is still looking for a name.
  unfoldable pub on_state : ServerState → Thread api → Option (Outcome api)
  on_state initializing t = some (ok (record t { current_state = starting_handshake }))
  on_state starting_handshake t =
      some (start_handshake api (init_server_with_client_data api raw_sender raw_receiver t))
  on_state waiting_for_request t = some (on_request api t.current_msg.type t)
  on_state sending t = some (on_sending api t)
  on_state receiving t = on_receiving api fuel t
  on_state renaming t = some (ok (on_renaming api t))

  -- One pass of the loop, without the wait for the next message.
  unfoldable pub pass : Thread api → Option (Outcome api)
  unfolding on_state
  pass t = on_state t.current_state t

  -- The loop over the messages that FtpServer hands over, each with the value of *isActive then.
  unfoldable pub run : List (Msg × Bool) → Thread api → Option (Outcome api)
  run [] t = pass t
  run ((m, active) ∷ ms) t = elim (pass t) [
    | none ↦ none
    | some (ok t') ↦
        if active
        then run ms (record t' { current_msg = m })
        else some (shut_down api (record t' { current_msg = m }))
    | some (threw e t') ↦ some (threw e t')
    | some crashed ↦ some crashed
  ]

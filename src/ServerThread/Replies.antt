-- ===== src/ServerThread/Replies.antt =====
-- What a ServerThread answers to requests.
use comp6461_assignment.Base.{
  ℕ, ◌+◌, ◌%◌, ◌≤◌, ◌<◌, ◌≡◌, refl, ◌≢◌, true, false, none, some, List, [], ◌∷◌, ◌++◌, arith,
  length, ≢→==, ==_iff,
}
use comp6461_assignment.Message.{
  Msg, MsgType, Exception, sequence_range, buffer_length, nsf_text, fae_text, no_such_file,
  returned, out_of_bounds, c_string,
}
use comp6461_assignment.Message
use comp6461_assignment.Sender.{Sender, send, initialize_payload, initialized}
use comp6461_assignment.Sender.Passes.{Quiet, send-Sending}
use comp6461_assignment.Sender.Ack.{Sending}
use comp6461_assignment.Receiver.{Receiver, handle_msg, is_nsf_msg}
use comp6461_assignment.ServerThread.Defs.{
  FileApi, waiting_for_request, renaming, Thread, ok, reply, send_ack,
}
use comp6461_assignment.ServerThread.Requests.{
  start_sender, send_file, perform_rename, requested_file, no_such_file_reply, notify_file_error,
  begin_sending,
}
use comp6461_assignment.ServerThread.Run.{on_repeated_name, on_renaming}

module _ (api : FileApi) where
  open api use {Disk, path_file_exists, read, rename}

  pub nsf-status :
      (r : Receiver) (m : Msg)
      → is_nsf_msg r m ≡ true
      → (handle_msg r m).status ≡ Message.threw no_such_file
  unfolding handle_msg
  nsf-status r m e = ground arith

  pub nsf-refused :
      (t : Thread api) (r : Receiver)
      → r.sequence_seed ≡ t.current_msg.sequence_number
      → is_nsf_msg r (
          reply api t MsgType.resp_err 4
            ((t.current_msg.sequence_number + 1) % sequence_range)
            nsf_text)
        ≡ true
  unfolding is_nsf_msg
  nsf-refused t r seed = ground (arith, seed)

  -- A request for a file that does not exist is refused in a way that the client understands: the
  -- thread sends one message and waits for the next request, and a receiver that the client has
  -- started with the request's sequence number throws "No such file." on it.
  send_file_missing :
      (t : Thread api) (r : Receiver)
      → t.current_msg.length ≤ buffer_length
      → read t.disk (requested_file api t) ≡ none
      → r.sequence_seed ≡ t.current_msg.sequence_number
      → (m : Msg) × (t' : Thread api) × (send_file api t ≡ ok t')
        × (t'.outbox ≡ t.outbox ++ m ∷ [])
        × (t'.current_state ≡ waiting_for_request)
        × ((handle_msg r m).status ≡ Message.threw no_such_file)
  unfolding send_file
  send_file_missing t r small missing seed = (
    _,
    no_such_file_reply api t,
    ground (arith, missing),
    refl,
    refl,
    nsf-status r _ (nsf-refused t r seed),
  )

  -- A request for a file with contents starts the transmission of those contents, under the
  -- request's sequence number: the first packets of the window are on their way.
  send_file_found :
      (t : Thread api) (s : Sender) (bytes : List ℕ)
      → t.current_msg.length ≤ buffer_length
      → read t.disk (requested_file api t) ≡ some bytes
      → t.sender ≡ some s
      → Quiet s
      → 0 < length bytes
      → (s' : Sender) × (initialize_payload s
            (some bytes)
            (length bytes)
            t.current_msg.sequence_number
          ≡ initialized s')
        × (send_file api t ≡ ok (record (begin_sending api t) { sender = some (send s') }))
        × Sending s'.job (send s')
  unfolding send_file start_sender initialize_payload
  send_file_found t s bytes small found e quiet nonempty = (
    _,
    refl,
    ground (arith, found, e),
    (send-Sending s _ bytes (length bytes) t.current_msg.sequence_number quiet nonempty refl).0,
  )

  -- The thread after a rename that is accepted.
  abbrev renamed : Thread api → Thread api
  renamed t = record t {
    sequence_number = t.current_msg.sequence_number;
    outbox = t.outbox ++ reply api t MsgType.ack 0 t.current_msg.sequence_number [] ∷ [];
    disk = rename t.disk t.filename (t.files_directory ++ c_string t.current_msg.buffer);
  }

  rename_once :
      (t : Thread api)
      → t.current_msg.type ≡ MsgType.resp
      → t.sequence_number < sequence_range
      → t.current_msg.sequence_number ≡ (t.sequence_number + 1) % sequence_range
      → path_file_exists t.disk (t.files_directory ++ c_string t.current_msg.buffer) ≡ false
      → on_renaming api t ≡ renamed t
  unfolding on_renaming perform_rename send_ack
  rename_once t type small number free =
      let other : t.current_msg.sequence_number ≢ t.sequence_number = omega arith in
      rw
        (
          ≢→== t.current_msg.sequence_number t.sequence_number other,
          (==_iff t.current_msg.sequence_number ((t.sequence_number + 1) % sequence_range)).1
              number,
          type,
          free,
        )
        refl

  repeated_name :
      (t : Thread api)
      → t.current_msg.type ≡ MsgType.resp
      → t.current_msg.sequence_number ≡ t.sequence_number
      → on_renaming api t ≡ notify_file_error api t
  unfolding on_renaming on_repeated_name
  repeated_name t type number =
      rw ((==_iff t.current_msg.sequence_number t.sequence_number).1 number, type) refl

  -- A rename that is accepted moves the file and acknowledges the new name. The same message again,
  -- as the client repeats it until the acknowledgement arrives, is answered by "FAE", the error of a
  -- name that is taken, and the thread stays in state RENAMING.
  pub rename_repeated :
      (t : Thread api)
      → t.current_state ≡ renaming
      → t.current_msg.type ≡ MsgType.resp
      → t.sequence_number < sequence_range
      → t.current_msg.sequence_number ≡ (t.sequence_number + 1) % sequence_range
      → path_file_exists t.disk (t.files_directory ++ c_string t.current_msg.buffer) ≡ false
      → let once = on_renaming api t in
        let twice = on_renaming api once in
        (once.disk ≡ rename t.disk t.filename (t.files_directory ++ c_string t.current_msg.buffer))
        × (once.outbox
            ≡ t.outbox ++ reply api t MsgType.ack 0 t.current_msg.sequence_number [] ∷ [])
        × (twice.outbox
            ≡ once.outbox
              ++ reply api t MsgType.resp_err 4 t.current_msg.sequence_number fae_text ∷ [])
        × (twice.disk ≡ once.disk)
        × (twice.current_state ≡ renaming)
  unfolding notify_file_error
  rename_repeated t state type small number free =
      rw (rename_once t type small number free, repeated_name (renamed t) type refl)
        (refl, refl, refl, refl, state)

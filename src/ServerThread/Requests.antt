-- ===== src/ServerThread/Requests.antt =====
-- The private methods of ServerThread that handle requests.
use comp6461_assignment.Base.{
  ℕ, zero, suc, ◌+◌, ◌%◌, Bool, true, false, Option, none, some, List, [], ◌∷◌, ◌++◌, length, take,
  if◌then◌else◌, ltb,
}
use comp6461_assignment.Base.Int.{pos}
use comp6461_assignment.Message.{
  Msg, MsgType, Exception, file_not_found, more_files_than_expected, sequence_range, buffer_length,
  c_string, nsf_text, fae_text, returned, out_of_bounds,
}
use comp6461_assignment.Message
use comp6461_assignment.Sender.{
  Sender, new_sender, initialize_payload, initialized, refused, send, process_ack, is_payload_sent,
}
use comp6461_assignment.Sender
use comp6461_assignment.Receiver.{
  Receiver, Handled, new_receiver, start_new_payload, handle_msg, is_payload_complete, get_payload,
  assembled, not_complete,
}
use comp6461_assignment.Receiver
use comp6461_assignment.ServerThread.Defs.{
  FileApi, waiting_for_request, sending, receiving, renaming, Thread, Outcome, ok, threw, crashed,
  reply, send_msg, send_ack,
}

-- The bytes of a list of file names, each with its NUL.
unfoldable pub names_length : List (List ℕ) → ℕ
names_length [] = 0
names_length (name ∷ names) = length name + 1 + names_length names

-- The second loop of getDirectoryContents, from an index on; `none` is its exception.
unfoldable pub fill_names : ℕ → ℕ → List (List ℕ) → Option (List ℕ)
fill_names limit index [] = some []
fill_names limit index (name ∷ names) =
    let next = index + (length name + 1) in
    let rest = fill_names limit next names in
    if ltb limit next
    then none
    else elim rest [ none ↦ none | some bytes ↦ some (name ++ 0 ∷ bytes) ]

-- A name of twenty characters or more does not fit `new char[20]`.
unfoldable pub has_long_name : List (List ℕ) → Bool
has_long_name [] = false
has_long_name (name ∷ names) = if ltb (length name) 20 then has_long_name names else true

module _ (api : FileApi) where
  open api use {
    Disk, path_file_exists, read, file_names, write, rename, path_find_extension,
    path_remove_extension,
  }

  -- `raw_sender` and `raw_receiver` are what the memory of the new objects holds.
  unfoldable pub init_server_with_client_data : Sender → Receiver → Thread api → Thread api
  init_server_with_client_data raw_sender raw_receiver t = record t {
    sender = some (new_sender raw_sender (pos t.server_id) t.current_msg.client_id);
    receiver = some (new_receiver raw_receiver (pos t.server_id) t.current_msg.client_id);
    current_state = waiting_for_request;
  }

  unfoldable pub start_handshake : Thread api → Outcome api
  start_handshake t =
      if ltb buffer_length t.current_msg.length
      then crashed
      else ok (
          send_msg api
            (reply api t MsgType.handshake t.current_msg.length (t.server_id % sequence_range)
              (take t.current_msg.length t.current_msg.buffer))
            t)

  -- startSender on a payload: its bytes, of which the Payload holds the number.
  unfoldable pub start_sender : List ℕ → Thread api → Outcome api
  start_sender contents t = elim t.sender [
    | none ↦ crashed
    | some s ↦
        elim (initialize_payload s (some contents) (length contents)
          t.current_msg.sequence_number) [
            | refused e ↦ threw e t
            | initialized s' ↦ ok (record t { sender = some (send s') })
          ]
  ]

  abbrev pub begin_sending : Thread api → Thread api
  begin_sending t = record t {
    current_state = sending;
    sequence_number = t.current_msg.sequence_number;
  }

  unfoldable pub send_list : Thread api → Outcome api
  unfolding has_long_name fill_names names_length
  send_list t =
      let names = file_names t.disk t.files_directory in
      if has_long_name names then crashed else elim (fill_names (names_length names) 0 names) [
        | none ↦ threw more_files_than_expected (begin_sending t)
        | some bytes ↦ start_sender bytes (begin_sending t)
      ]

  -- The name of the file that a GET_FILE message asks for.
  abbrev pub requested_file : Thread api → List ℕ
  requested_file t = t.files_directory ++ c_string (take t.current_msg.length t.current_msg.buffer)

  -- The catch block of sendFile.
  abbrev pub no_such_file_reply : Thread api → Thread api
  no_such_file_reply t =
      let seq = (t.current_msg.sequence_number + 1) % sequence_range in
      send_msg api (reply api t MsgType.resp_err 4 seq nsf_text)
        (record t { current_state = waiting_for_request; sequence_number = seq })

  unfoldable pub send_file : Thread api → Outcome api
  send_file t =
      if ltb buffer_length t.current_msg.length
      then crashed
      else elim (read t.disk (requested_file t)) [
        | none ↦ ok (no_such_file_reply t)
        | some contents ↦ start_sender contents (begin_sending t)
      ]

  unfoldable pub get_file : Thread api → Outcome api
  get_file t = elim t.receiver [
    | none ↦ crashed
    | some r ↦
        if ltb buffer_length t.current_msg.length
        then crashed
        else let started = record t {
          current_state = receiving;
          sequence_number = t.current_msg.sequence_number;
          receiver = some (start_new_payload r t.current_msg.sequence_number);
        } in
          ok (record (send_ack api started) {
            filename = take t.current_msg.length t.current_msg.buffer;
          })
  ]

  -- The loop of saveFile that looks for a free name; `none` means that the fuel ran out. (The copy of
  -- the name that the loop makes writes its NUL one byte behind its allocation.)
  unfoldable pub free_name : ℕ → Disk → List ℕ → List ℕ → Option (List ℕ)
  free_name zero disk extension name = none
  free_name (suc fuel) disk extension name =
      let rest = free_name fuel disk extension (path_remove_extension name ++ b'_' ∷ extension) in
      if path_file_exists disk name then rest else some name

  -- saveFile, for `fuel` names; a thread that finds no free name among them is still in the loop.
  unfoldable pub save_file : ℕ → List ℕ → Thread api → Option (Thread api)
  save_file fuel contents t =
      elim (free_name fuel t.disk (path_find_extension t.filename)
        (t.files_directory ++ t.filename)) [
          | none ↦ none
          | some name ↦ some (record t { disk = write t.disk name contents })
        ]

  -- The end of dispatchToReceiver, on the receiver that handleMsg leaves.
  unfoldable pub finish_receiving : ℕ → Receiver → Thread api → Option (Outcome api)
  finish_receiving fuel r t =
      if is_payload_complete r
      then elim (get_payload r) [
        | not_complete e ↦ some (threw e finished)
        | assembled payload r' ↦
            elim (save_file fuel payload.contents (record finished { receiver = some r' })) [
              | none ↦ none
              | some t' ↦ some (ok t')
            ]
      ]
      else some (ok t)
    where
      finished : Thread api
      finished = record t {
        sequence_number = Receiver.final_sequence_number r;
        current_state = waiting_for_request;
      }

  -- The messages that handleMsg sends go out through the thread's socket.
  unfoldable pub dispatch_to_receiver : ℕ → Thread api → Option (Outcome api)
  dispatch_to_receiver fuel t = elim t.receiver [
    | none ↦ some crashed
    | some r ↦
        let out = handle_msg r t.current_msg in
        let t' = record t { receiver = some out.receiver; outbox = t.outbox ++ out.sent } in
        elim out.status [
          | returned ↦ finish_receiving fuel out.receiver t'
          | Message.threw e ↦ some (threw e t')
          | out_of_bounds ↦ some crashed
        ]
  ]

  unfoldable pub notify_file_error : Thread api → Thread api
  notify_file_error t = send_msg api (reply api t MsgType.resp_err 4 t.sequence_number fae_text) t

  unfoldable pub start_rename : Thread api → Thread api
  unfolding notify_file_error
  start_rename t =
      let named = record t {
        filename = t.files_directory ++ c_string t.current_msg.buffer;
        sequence_number = t.current_msg.sequence_number;
      } in
      if path_file_exists t.disk named.filename
      then record (send_ack api named) { current_state = renaming }
      else notify_file_error named

  unfoldable pub perform_rename : Thread api → Thread api
  unfolding notify_file_error
  perform_rename t =
      let new_name = t.files_directory ++ c_string t.current_msg.buffer in
      let numbered = record t { sequence_number = t.current_msg.sequence_number } in
      if path_file_exists t.disk new_name
      then notify_file_error numbered
      else record (send_ack api numbered) { disk = rename t.disk t.filename new_name }

  unfoldable pub dispatch_to_sender : Thread api → Outcome api
  dispatch_to_sender t = elim t.sender [
    | none ↦ crashed
    | some s ↦ elim (process_ack s t.current_msg) [
      | none ↦ crashed
      | some s' ↦
          if is_payload_sent s'
          then ok (record t {
            sender = some s';
            sequence_number = Sender.final_sequence_number s';
            current_state = waiting_for_request;
          })
          else ok (record t { sender = some s' })
    ]
  ]

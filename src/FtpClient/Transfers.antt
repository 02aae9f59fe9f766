-- ===== src/FtpClient/Transfers.antt =====
-- FtpClient::performGet, performList and performUpload.
use comp6461_assignment.Base.{
  ℕ, ◌+◌, ◌%◌, Bool, true, false, ◌&&◌, Option, none, some, List, [], ◌∷◌, ◌++◌, ◌==◌, length,
  if◌then◌else◌, ltb,
}
use comp6461_assignment.Base.Int.{◌==ℤ◌}
use comp6461_assignment.Message.{
  Msg, MsgType, Payload, Exception, no_such_file, file_not_found, returned, out_of_bounds,
  sequence_range, buffer_length,
}
use comp6461_assignment.Message
use comp6461_assignment.Sender.{
  Sender, initialize_payload, initialized, refused, send, process_ack, is_payload_sent,
}
use comp6461_assignment.Sender
use comp6461_assignment.Receiver.{
  Receiver, handle_msg, start_new_payload, is_payload_complete, get_payload, assembled,
  not_complete,
}
use comp6461_assignment.Receiver
use comp6461_assignment.ServerThread.Defs.{FileApi}
use comp6461_assignment.ServerThread.Run.{is_ack}
use comp6461_assignment.FtpClient.Defs.{
  Event, got, silent, FtpClient, Ended, done, gave_up, threw, blocked, crashed, ◌>>=◌, request,
  acknowledge, answer_eof,
}

abbrev pub is_no_such_file : Exception → Bool
is_no_such_file no_such_file = true
is_no_such_file _ = false

-- The loop that prints the listing: a NUL ends a line (10 stands for endl).
unfoldable pub print_listing : List ℕ → List ℕ
print_listing [] = []
print_listing (b ∷ bs) = (if b == 0 then 10 else b) ∷ print_listing bs

module _ (api : FileApi) where
  open api use {Disk, read, write}

  -- What handling one message leads to.
  pub data Response : Type 0 where
    went_on : FtpClient api → Response
    stopped : FtpClient api → Response
    uncaught : Exception → FtpClient api → Response
    faulted : Response

  -- handleMsg on a message, with performGet's catch clause if `catches`.
  unfoldable pub deliver : ℕ → Bool → Msg → FtpClient api → Response
  deliver f catches m c =
      let out = handle_msg c.receiver m in
      let handled = record c { receiver = out.receiver; outbox = c.outbox ++ out.sent } in
      elim out.status [
        | returned ↦ went_on handled
        | Message.threw e ↦
            if catches
              && m.sequence_number == (c.sequence_number + 1) % sequence_range
              && is_no_such_file e
            then stopped (
                acknowledge api f (record handled {
                  receiver = Receiver.terminate_current_transmission out.receiver;
                }))
            else uncaught e handled
        | out_of_bounds ↦ faulted
      ]

  -- `switch (serverMsg.type)`, where RESP falls through to RESP_ERR.
  unfoldable pub respond : MsgType → ℕ → Bool → Msg → FtpClient api → Response
  respond MsgType.resp f catches m c =
      deliver f catches m
        (if m.sequence_number == c.sequence_number then acknowledge api f c else c)
  respond MsgType.resp_err f catches m c = deliver f catches m c
  respond _ f catches m c = went_on c

  -- The body of `while (!receiver->isPayloadComplete())` behind its msgGet.
  unfoldable pub handle_response : ℕ → Bool → Msg → FtpClient api → Response
  handle_response f catches m c =
      if m.server_id ==ℤ c.server_identifier then respond m.type f catches m c else went_on c

  -- The loop itself.
  unfoldable pub receive_loop : ℕ → Bool → List Event → FtpClient api → Ended api
  receive_loop f catches [] c = if is_payload_complete c.receiver then done c [] else blocked c
  receive_loop f catches (silent ∷ es) c =
      let more = receive_loop f catches es c in
      if is_payload_complete c.receiver then done c (silent ∷ es) else more
  receive_loop f catches (got m ∷ es) c =
      let more : Ended api = elim (handle_response f catches m (record c { server_msg = m })) [
        | went_on c' ↦ receive_loop f catches es c'
        | stopped c' ↦ gave_up c' es
        | uncaught e c' ↦ threw e c'
        | faulted ↦ crashed
      ] in
      if is_payload_complete c.receiver then done c (got m ∷ es) else more

  -- The request of performGet or performList, and its loop.
  unfoldable pub fetch : MsgType → List ℕ → Bool → List Event → FtpClient api → Ended api
  fetch type bytes catches es c =
      elim (request api type bytes
        (record c { receiver = start_new_payload c.receiver c.sequence_number })) [
          | none ↦ crashed
          | some c' ↦ receive_loop c.requests.next catches es c'
        ]

  -- The last lines of performGet.
  unfoldable pub write_payload : List ℕ → FtpClient api → List Event → Ended api
  write_payload filename c es = elim (get_payload c.receiver) [
    | not_complete e ↦ threw e c
    | assembled payload r ↦
        done
          (record c {
            receiver = r;
            disk = write c.disk (c.files_directory ++ filename) payload.contents;
          })
          es
  ]

  -- performGet, with the name that the user types; `char c_filename[20]` must hold its NUL.
  unfoldable pub perform_get : List ℕ → List Event → FtpClient api → Ended api
  perform_get filename es c =
      if ltb (length filename) 20
      then fetch MsgType.get_file filename true es c
        >>= (λ c es.
            answer_eof api es
              (record c { sequence_number = (c.server_msg.sequence_number + 1) % sequence_range }))
        >>= write_payload filename
      else crashed

  -- performList takes the payload before it answers EOF messages, and prints it behind that.
  unfoldable pub list_payload : FtpClient api → List Event → Ended api
  unfolding print_listing
  list_payload c es = elim (get_payload c.receiver) [
    | not_complete e ↦ threw e c
    | assembled payload r ↦
        answer_eof api es (record c { receiver = r })
        >>= (λ c es. done (record c { printed = c.printed ++ print_listing payload.contents }) es)
  ]

  -- `serverMsg.sequenceNumber + 1 % SEQUENCE_RANGE` is the number plus (1 % SEQUENCE_RANGE).
  unfoldable pub perform_list : List Event → FtpClient api → Ended api
  perform_list es c = fetch MsgType.get_list [] false es c >>= (λ c es.
      list_payload
        (record c { sequence_number = c.server_msg.sequence_number + 1 % sequence_range }) es)

  -- `do msgGet while (…)`: the acknowledgement of the POST message.
  unfoldable pub await_ack : List Event → FtpClient api → Ended api
  await_ack [] c = blocked c
  await_ack (silent ∷ es) c = await_ack es c
  await_ack (got m ∷ es) c =
      let c' = record c { server_msg = m } in
      let more = await_ack es c' in
      if is_ack m.type
        && m.sequence_number == c.sequence_number
        && m.server_id ==ℤ c.server_identifier
      then done c' es
      else more

  -- The body of `while (!sender->isPayloadSent())` behind its msgGet.
  unfoldable pub handle_ack : Msg → FtpClient api → Option (FtpClient api)
  handle_ack m c =
      if m.server_id ==ℤ c.server_identifier && is_ack m.type
      then elim (process_ack c.sender m) [ none ↦ none | some s ↦ some (record c { sender = s }) ]
      else some c

  unfoldable pub upload_loop : List Event → FtpClient api → Ended api
  upload_loop [] c = if is_payload_sent c.sender then done c [] else blocked c
  upload_loop (silent ∷ es) c =
      let more = upload_loop es c in if is_payload_sent c.sender then done c (silent ∷ es) else more
  upload_loop (got m ∷ es) c =
      let more : Ended api = elim (handle_ack m (record c { server_msg = m })) [
        | none ↦ crashed
        | some c' ↦ upload_loop es c'
      ] in
      if is_payload_sent c.sender then done c (got m ∷ es) else more

  -- performUpload from `*isAcked = true` on.
  unfoldable pub upload_contents : ℕ → List ℕ → FtpClient api → List Event → Ended api
  upload_contents f contents c es =
      elim (initialize_payload c.sender (some contents) (length contents) c.sequence_number) [
        | refused e ↦ threw e c
        | initialized s ↦
            upload_loop es (acknowledge api f (record c { sender = send s })) >>= (λ c es.
              done (record c { sequence_number = Sender.final_sequence_number c.sender }) es)
      ]

  -- performUpload, with the name that the user types. (The copy of the name that it sends writes its NUL
  -- one byte behind its allocation.)
  unfoldable pub perform_upload : List ℕ → List Event → FtpClient api → Ended api
  perform_upload filename es c = elim (read c.disk (c.files_directory ++ filename)) [
    | none ↦ threw file_not_found c
    | some contents ↦ elim (request api MsgType.post filename c) [
      | none ↦ crashed
      | some c' ↦ await_ack es c' >>= upload_contents c.requests.next contents
    ]
  ]

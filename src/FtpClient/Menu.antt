-- ===== src/FtpClient/Menu.antt =====
-- FtpClient::performMuxerHandshake, startClient, syncServer, sendRstMessage, terminate and showMenu.
use comp6461_assignment.Base.{
  ℕ, ◌+◌, ◌%◌, Bool, not, ◌&&◌, Option, none, some, List, [], ◌∷◌, ◌==◌, ltb, length, if◌then◌else◌,
}
use comp6461_assignment.Base.Int.{◌==ℤ◌}
use comp6461_assignment.Message.{
  Msg, MsgType, null_server_id, null_client_id, sequence_range, int_bytes, int_at,
}
use comp6461_assignment.Wire.{int32_word, int32_at}
use comp6461_assignment.Sender.{Sender, new_sender}
use comp6461_assignment.Receiver.{Receiver, new_receiver}
use comp6461_assignment.ServerThread.Defs.{FileApi}
use comp6461_assignment.FtpServer.{is_handshake}
use comp6461_assignment.FtpClient.Defs.{
  Event, got, silent, FtpClient, Ended, done, blocked, crashed, ◌>>=◌, request, acknowledge,
  clear_queue, client_msg, msg_send,
}
use comp6461_assignment.FtpClient.Transfers.{perform_get, perform_list, perform_upload}
use comp6461_assignment.FtpClient.Rename.{Typed, perform_rename}

-- `clientFiles\`
abbrev pub client_directory : List ℕ
client_directory =
    b'c' ∷ b'l' ∷ b'i' ∷ b'e' ∷ b'n' ∷ b't' ∷ b'F' ∷ b'i' ∷ b'l' ∷ b'e' ∷ b's' ∷ 92 ∷ []

-- What the user chooses in the menu, with what is typed then; `invalid` stands for all else.
pub data Choice : Type 0 where
  get : List ℕ → Choice
  list : Choice
  upload : List ℕ → Choice
  rename : List Typed → List Typed → Choice
  quit : Choice
  invalid : Choice

abbrev pub rst_text : List ℕ
rst_text = b'R' ∷ b'S' ∷ b'T' ∷ 0 ∷ []

module _ (api : FileApi) where
  -- The constructor leaves the fields other than these as the memory was, sequenceNumber among them.
  unfoldable pub new_client : FtpClient api → FtpClient api
  new_client raw = record raw {
    client_identifier = null_client_id;
    server_identifier = null_server_id;
    sync_count = 0;
    files_directory = client_directory;
  }

  -- What performMuxerHandshake sends.
  unfoldable pub muxer_request : FtpClient api → List ℕ
  muxer_request c = int_bytes (int32_word c.client_identifier)

  -- performMuxerHandshake, with the datagram that rawGet returns; `none` is one that is shorter than an int.
  unfoldable pub perform_muxer_handshake : List ℕ → FtpClient api → Option (FtpClient api)
  perform_muxer_handshake response c =
      if ltb (length response) 4
      then none
      else some (record c { client_identifier = int32_at response })

  -- startClient behind its console dialogue.
  unfoldable pub start_client : Sender → Receiver → List ℕ → FtpClient api → Option (FtpClient api)
  start_client raw_sender raw_receiver response c = elim (perform_muxer_handshake response c) [
    | none ↦ none
    | some c' ↦ some (record c' {
      sender = new_sender raw_sender c'.server_identifier c'.client_identifier;
      receiver = new_receiver raw_receiver c'.server_identifier c'.client_identifier;
    })
  ]

  unfoldable pub send_rst_message : FtpClient api → FtpClient api
  send_rst_message c =
      msg_send api (client_msg api c MsgType.terminate c.sequence_number rst_text) c

  -- The answer to the handshake: `type == HANDSHAKE && serverId != serverIdentifier`.
  unfoldable pub is_sync_answer : Msg → FtpClient api → Bool
  is_sync_answer m c = is_handshake m.type && not (m.server_id ==ℤ c.server_identifier)

  -- `while (!(*isAcked))`; the client takes the new thread's id from the answer.
  unfoldable pub await_sync : ℕ → List Event → FtpClient api → Ended api
  unfolding is_sync_answer
  await_sync f [] c = blocked c
  await_sync f (silent ∷ es) c = await_sync f es c
  await_sync f (got m ∷ es) c =
      let more = await_sync f es (record c { server_msg = m }) in
      if is_sync_answer m c && int_at m.buffer == c.sync_count
      then done (acknowledge api f (record c { server_msg = m; server_identifier = m.server_id }))
          es
      else more

  -- syncServer behind the first loop.
  unfoldable pub shake_hands : FtpClient api → List Event → Ended api
  shake_hands c es =
      let counted = record c { sync_count = c.sync_count + 1 } in
      elim (request api MsgType.handshake (int_bytes counted.sync_count) counted) [
        | none ↦ crashed
        | some c' ↦ await_sync c.requests.next es c'
      ]

  unfoldable pub sync_server : List Event → FtpClient api → Ended api
  sync_server es c = clear_queue api es c >>= shake_hands

  -- `msgGet(msg)` with a pointer that is not initialised: the first message that comes is written through
  -- it.
  unfoldable pub receive_nowhere : List Event → FtpClient api → Ended api
  receive_nowhere [] c = blocked c
  receive_nowhere (silent ∷ es) c = receive_nowhere es c
  receive_nowhere (got m ∷ es) c = crashed

  unfoldable pub terminate : List Event → FtpClient api → Ended api
  terminate es c = elim (request api MsgType.terminate [] c) [
    | none ↦ crashed
    | some c' ↦ receive_nowhere es c'
  ]

  unfoldable pub perform : Choice → FtpClient api → List Event → Ended api
  perform (get name) c es = perform_get api name es c
  perform list c es = perform_list api es c
  perform (upload name) c es = perform_upload api name es c
  perform (rename olds news) c es = perform_rename api olds news es c
  perform quit c es = terminate es c
  perform invalid c es = done c es

  abbrev pub next_number : FtpClient api → FtpClient api
  next_number c = record c { sequence_number = (c.sequence_number + 1) % sequence_range }

  unfoldable pub show_menu : Choice → List Event → FtpClient api → Ended api
  unfolding perform
  show_menu choice es c =
      sync_server es (next_number c) >>= (λ c es. perform choice (next_number c) es)

-- ===== src/Link/Get.antt =====
-- A whole download: FtpClient::performGet, the ServerThread that answers it, and the network between them.
use mathlib.Core.Path.{subst}
use comp6461_assignment.Base.{
  ℕ, ◌-◌, ◌^◌, ◌≤◌, ◌<◌, ◌≡◌, sym, ap, ◌∙◌, some, List, ◌++◌, arith, length, take, replicate,
  take_all, take-append,
}
use comp6461_assignment.Base.Int.{ℤ}
use comp6461_assignment.Message.{Msg, MsgType, c_string, buffer_length}
use comp6461_assignment.Sender.{Sender, initialize_payload, initialized, send, thread_msg}
use comp6461_assignment.Sender
use comp6461_assignment.Sender.Passes.{Quiet, initialize_payload-fields}
use comp6461_assignment.Receiver.{start_new_payload, drain}
use comp6461_assignment.Receiver.Inv.{chunks_below}
use comp6461_assignment.ServerThread.Defs.{FileApi, Thread, ok}
use comp6461_assignment.ServerThread.Requests.{
  send_file, start_sender, begin_sending, requested_file,
}
use comp6461_assignment.FtpClient.Defs.{Event, FtpClient}
use comp6461_assignment.FtpClient.Transfers.{perform_get}
use comp6461_assignment.FtpClient.Endings.{Finally, Finally-map}
use comp6461_assignment.FtpClient.Downloads.{Fed}
use comp6461_assignment.FtpClient.Retrieval.{perform_get_exact}
use comp6461_assignment.Link.{start_link}
use comp6461_assignment.Link.Packets.{chunk, packet_size-pos, drain-packets}
use comp6461_assignment.Link.Safety.{IsGiven, formed, given-payload, start-Agreed}
use comp6461_assignment.Link.Session.{Feeds, Feeds-Fed}

-- The file name arrives in the request.
name_arrives :
    (filename : List ℕ) (k : ℕ)
    → c_string filename ≡ filename
    → c_string (take (length filename) (take (length filename) filename ++ replicate k 0))
      ≡ filename
name_arrives filename k no_nul =
    ap (λ (f : List ℕ). c_string (take (length filename) (f ++ replicate k 0)))
      (take_all (length filename) filename (omega arith))
    ∙ ap c_string (take-append filename (replicate k 0))
    ∙ no_nul

module _ (api : FileApi) where
  open api use {read, write}

  send_file-reads :
      (t : Thread api) (old s : Sender) (bytes : List ℕ)
      → t.current_msg.length ≤ buffer_length
      → read t.disk (requested_file api t) ≡ some bytes
      → t.sender ≡ some old
      → initialize_payload old (some bytes) (length bytes) t.current_msg.sequence_number
        ≡ initialized s
      → send_file api t ≡ ok (record (begin_sending api t) { sender = some (send s) })
  unfolding send_file start_sender
  send_file-reads t old s bytes small found mine given = ground (arith, found, mine, given)

  -- The message of the client's request, as performGet starts it.
  abbrev pub get_request : FtpClient api → List ℕ → Msg
  get_request c filename =
      thread_msg c.server_identifier c.client_identifier MsgType.get_file c.sequence_number filename
        (length filename)

  -- The thread starts the transmission that the client has asked for.
  pub request_found :
      (t : Thread api) (old s : Sender) (c : FtpClient api) (filename bytes : List ℕ)
      → length filename < 20
      → c_string filename ≡ filename
      → t.current_msg ≡ get_request c filename
      → read t.disk (t.files_directory ++ filename) ≡ some bytes
      → t.sender ≡ some old
      → initialize_payload old (some bytes) (length bytes) c.sequence_number ≡ initialized s
      → send_file api t ≡ ok (record (begin_sending api t) { sender = some (send s) })
  request_found t old s c filename bytes short no_nul request found mine given =
      send_file-reads t old s bytes (omega (arith, ap (λ (m : Msg). m.length) request))
        (ap (read t.disk) (
            ap (λ (m : Msg). t.files_directory ++ c_string (take m.length m.buffer)) request
            ∙ ap (◌++◌ t.files_directory) (name_arrives filename (256 - length filename) no_nul))
          ∙ found)
        mine
        (ap (λ (m : Msg). initialize_payload old (some bytes) (length bytes) m.sequence_number)
            request
          ∙ given)

  module _ (s : Sender) (c : FtpClient api) (bytes : List ℕ) (g : IsGiven bytes c.sequence_number s)
      (es : List Event) (feeds : Feeds s.server_id (start_link s c.receiver) es) where
    pub seeded : s.sequence_seed ≡ c.sequence_number
    seeded = (initialize_payload-fields g.before s bytes (length bytes) c.sequence_number g.given).2

    fed :
        Fed s.number_of_packets c.sequence_number
          (chunk s.job)
          s.server_id
          es
          (start_new_payload c.receiver c.sequence_number)
    fed =
        subst
          (λ (seed : ℕ).
            Fed s.number_of_packets seed (chunk s.job) s.server_id es
              (start_new_payload c.receiver seed))
          seeded
          (Feeds-Fed s.job (formed bytes c.sequence_number s g c.receiver)
            (start-Agreed bytes c.sequence_number s g c.receiver) feeds)

    -- The same, as performGet takes it.
    pub fed_client :
        c.server_identifier ≡ s.server_id
        → Fed s.number_of_packets c.sequence_number
            (chunk s.job)
            c.server_identifier
            es
            (start_new_payload c.receiver c.sequence_number)
    fed_client same =
        subst
          (λ (server : ℤ).
            Fed s.number_of_packets c.sequence_number (chunk s.job) server es
              (start_new_payload c.receiver c.sequence_number))
          (sym same) fed

    pub all_bytes : drain (chunks_below (chunk s.job) s.number_of_packets) ≡ bytes
    all_bytes =
        drain-packets s.job (formed bytes c.sequence_number s g c.receiver)
        ∙ given-payload bytes c.sequence_number s g c.receiver

    pub received :
        (filename : List ℕ)
        → length filename < 20
        → c.server_identifier ≡ s.server_id
        → Finally
            (λ c'.
              (c'.disk ≡ write c.disk (c.files_directory ++ filename) bytes)
              × (c'.sequence_number ≡ Sender.final_sequence_number s))
            (λ c'. (c'.disk ≡ c.disk) × (c'.printed ≡ c.printed))
            (perform_get api filename es c)
    unfolding Sender.final_sequence_number
    received filename short same =
        Finally-map _ _ _ _ (perform_get api filename es c)
          (λ c' (written, number). (
            written ∙ ap (write c.disk (c.files_directory ++ filename)) all_bytes,
            number ∙ omega (arith, seeded),
          ))
          (λ c' w. w)
          (perform_get_exact s.number_of_packets (chunk s.job)
            (packet_size-pos s.job (formed bytes c.sequence_number s g c.receiver)) api es c
            (fed_client same) filename short)

  -- A download from end to end. A ServerThread is given the request of a client's performGet, for a
  -- file that it has, of at least one byte and less than 2 ^ 31; the client is synchronised with that
  -- thread, no worker of an earlier transmission of the thread is left, the name is shorter than 20
  -- bytes, and holds no NUL. Then sendFile starts a transmission, and in every run over a network that
  -- loses messages but keeps their order, and lets other messages and time-outs in between, performGet
  -- does not fail: when it returns, it has written the server's bytes under that name, and its sequence
  -- number is the one that the thread's sender computes; while it waits, it has written nothing.
  get_delivered :
      (t : Thread api) (old s : Sender) (c : FtpClient api) (filename bytes : List ℕ)
      (es : List Event)
      → length filename < 20
      → c_string filename ≡ filename
      → t.current_msg ≡ get_request c filename
      → read t.disk (t.files_directory ++ filename) ≡ some bytes
      → t.sender ≡ some old
      → Quiet old
      → 0 < length bytes
      → length bytes < 2 ^ 31
      → initialize_payload old (some bytes) (length bytes) c.sequence_number ≡ initialized s
      → c.server_identifier ≡ s.server_id
      → Feeds s.server_id (start_link s c.receiver) es
      → (send_file api t ≡ ok (record (begin_sending api t) { sender = some (send s) }))
        × Finally
            (λ c'.
              (c'.disk ≡ write c.disk (c.files_directory ++ filename) bytes)
              × (c'.sequence_number ≡ Sender.final_sequence_number s))
            (λ c'. (c'.disk ≡ c.disk) × (c'.printed ≡ c.printed))
            (perform_get api filename es c)
  get_delivered t old s c filename bytes es short no_nul request found mine quiet some_byte small
        given same feeds =
      (
        request_found t old s c filename bytes short no_nul request found mine given,
        received s c bytes
            (record {
              before = old;
              quiet = quiet;
              given = given;
              nonempty = some_byte;
              small = small;
            })
            es feeds filename short same,
      )

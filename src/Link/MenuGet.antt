-- ===== src/Link/MenuGet.antt =====
-- The first choice of FtpClient::showMenu from end to end: the handshake with a new ServerThread, and a
-- download from it.
use mathlib.Core.Path.{subst, ap₂}
use comp6461_assignment.Base.{
  Bool, true, ℕ, arith, ◌+◌, ◌^◌, ◌<◌, ◌≡◌, ◌≢◌, sym, ◌∙◌, some, List, ◌∷◌, ◌++◌, length, replicate,
  map,
}
use comp6461_assignment.Base.Int.{ℤ, pos}
use comp6461_assignment.Message.{Msg, c_string}
use comp6461_assignment.Sender.{Sender, new_sender, initialize_payload, initialized}
use comp6461_assignment.Sender
use comp6461_assignment.Sender.Passes.{Quiet}
use comp6461_assignment.Receiver.{Receiver, new_receiver}
use comp6461_assignment.ServerThread.Defs.{FileApi, Thread, ok, new_thread, server_directory}
use comp6461_assignment.ServerThread.Run.{run}
use comp6461_assignment.ServerThread.Endings.{Runs, actives}
use comp6461_assignment.FtpClient.Defs.{Event, got, silent, FtpClient}
use comp6461_assignment.FtpClient.Menu.{get, perform, show_menu}
use comp6461_assignment.FtpClient.Endings.{Finally}
use comp6461_assignment.Link.{Link, start_link}
use comp6461_assignment.Link.Safety.{IsGiven}
use comp6461_assignment.Link.Get.{get_request, received}
use comp6461_assignment.Link.Serving.{Downloads, Downloads-Feeds}
use comp6461_assignment.Link.Download.{ThreadEnds, get_served}
use comp6461_assignment.Link.Menu.{handshake, echo, synced, Ready, session, show_menu-synced}

module _ (api : FileApi) (fuel : ℕ) (raw_sender : Sender) (raw_receiver : Receiver) (id : ℕ)
    (blank : Msg) (raw_thread : Thread api) where
  open api use {Disk, read, write}

  -- A visit of a client that downloads a file. The user chooses GET; the client drops what is queued,
  -- asks for a new ServerThread, with fewer than 2 ^ 32 handshakes so far, and is answered by one whose
  -- number is not its old server's; that thread is new, has no worker, and has the file, of at least
  -- one byte and less than 2 ^ 31, under a name that is shorter than 20 bytes and holds no NUL. The
  -- handshake may come again before the request. Then in every run over a network that loses messages
  -- but keeps their order, neither end fails. The thread either still sends, or waits for a request
  -- again with the client's receiver complete. And when showMenu returns, the client has written the
  -- server's bytes under that name, with the sequence number that the thread's sender computes; while
  -- it waits, it has written nothing.
  pub menu_get_served :
      (c : FtpClient api) (s : Sender) (k : ℕ) (filename bytes : List ℕ) (stale : List Msg)
      (es : List Event) (ms : List Msg) (l' : Link) {answers : Bool}
      → Quiet raw_sender
      → c.sync_count + 1 < 2 ^ 32
      → pos id ≢ c.server_identifier
      → length filename < 20
      → c_string filename ≡ filename
      → read raw_thread.disk (server_directory ++ filename) ≡ some bytes
      → 0 < length bytes
      → length bytes < 2 ^ 31
      → initialize_payload
          (new_sender raw_sender (pos id) c.client_identifier)
          (some bytes)
          (length bytes)
          (synced api id c).sequence_number
        ≡ initialized s
      → Downloads (pos id) true (start_link s c.receiver) es ms l' answers
      → (t' : Thread api) × (run api fuel raw_sender raw_receiver
            (actives (
              handshake api c ∷ replicate k (handshake api c)
              ++ get_request api (synced api id c) filename ∷ ms))
            (new_thread api id blank raw_thread)
          ≡ some (ok t'))
        × ThreadEnds api s l' raw_thread.disk t'
        × Finally
            (λ c'.
              (c'.disk ≡ write c.disk (c.files_directory ++ filename) bytes)
              × (c'.sequence_number ≡ Sender.final_sequence_number s))
            (λ c'. (c'.disk ≡ c.disk) × (c'.printed ≡ c.printed))
            (show_menu api (get filename) (map got stale ++ silent ∷ got (echo api id c) ∷ es) c)
  unfolding new_sender initialize_payload perform
  menu_get_served c s k filename bytes stale es ms l' {answers} quiet few other short no_nul found
        some_byte small given downloads =
      let (t', ran, served) =
        session api id raw_thread blank raw_sender raw_receiver c fuel k
          (get_request api (synced api id c) filename) ms (ThreadEnds api s l' raw_thread.disk)
          serve in
      (
        t',
        ran,
        served,
        subst (Finally _ (λ c'. (c'.disk ≡ c.disk) × (c'.printed ≡ c.printed)))
            (sym (
              show_menu-synced api id raw_thread blank raw_sender raw_receiver c (get filename)
                stale es few other))
            (received api s (synced api id c) bytes g es (Downloads-Feeds downloads') filename short
              same),
      )
    where
      old : Sender
      old = new_sender raw_sender (pos id) c.client_identifier

      same : pos id ≡ s.server_id
      same = ground (arith, given)

      downloads' : Downloads s.server_id true (start_link s c.receiver) es ms l' answers
      downloads' =
          subst (λ (server : ℤ). Downloads server true (start_link s c.receiver) es ms l' answers)
            same downloads

      g : IsGiven bytes (synced api id c).sequence_number s
      g = record { before = old; quiet = quiet; given = given; nonempty = some_byte; small = small }

      serve :
          (t : Thread api)
          → Ready api id raw_thread.disk old
              (new_receiver raw_receiver (pos id) c.client_identifier)
              t
          → t.current_msg ≡ get_request api (synced api id c) filename
          → Runs api fuel raw_sender raw_receiver ms t (ThreadEnds api s l' raw_thread.disk)
      serve t h asked =
          let (t', ran, at_end, _) =
            get_served api fuel raw_sender raw_receiver t old s (synced api id c) filename bytes es
              ms l' short no_nul h.state asked
              (ap₂ (λ (d : Disk) (dir : List ℕ). read d (dir ++ filename)) h.disk h.directory
                ∙ found)
              h.sender quiet some_byte small given same downloads' in
          (t', ran, subst (λ (d : Disk). ThreadEnds api s l' d t') h.disk at_end)

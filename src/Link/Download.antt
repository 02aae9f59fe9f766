-- ===== src/Link/Download.antt =====
-- A whole download: FtpClient::performGet, the ServerThread that sends the file, and the network between
-- them, with what both ends are given.
use comp6461_assignment.Base.{
  Bool, ℕ, ◌^◌, ◌<◌, ◌≡◌, refl, ap, ◌∙◌, ◌⊎◌, inl, inr, true, false, some, List, ◌++◌, length,
}
use comp6461_assignment.Message.{Msg, MsgType, c_string}
use comp6461_assignment.Sender.{Sender, Job, initialize_payload, initialized, send, is_payload_sent}
use comp6461_assignment.Sender
use comp6461_assignment.Sender.Passes.{Quiet, send-Sending}
use comp6461_assignment.Receiver.{Receiver}
use comp6461_assignment.ServerThread.Defs.{FileApi, Thread, ok, sending, waiting_for_request}
use comp6461_assignment.ServerThread.Requests.{begin_sending}
use comp6461_assignment.ServerThread.Run.{on_request, pass, run}
use comp6461_assignment.ServerThread.Endings.{actives}
use comp6461_assignment.ServerThread.Saving.{pass-waiting}
use comp6461_assignment.FtpClient.Defs.{Event, FtpClient}
use comp6461_assignment.FtpClient.Transfers.{perform_get}
use comp6461_assignment.FtpClient.Endings.{Finally}
use comp6461_assignment.FtpClient.Uploads.{Active-incomplete}
use comp6461_assignment.Link.{Link, start_link, here}
use comp6461_assignment.Link.Safety.{IsGiven, formed, start-Agreed, link_sent}
use comp6461_assignment.Link.Get.{get_request, request_found, received}
use comp6461_assignment.Link.Serving.{Downloads, Downloads-Feeds, Downloads-Reach}
use comp6461_assignment.Link.Served.{Downloads-Serves}

module _ (api : FileApi) where
  open api use {Disk}

  -- The thread has sent the file, is told so, and waits for a request under that number.
  pub record Finished (last : ℕ) (d : Disk) (t : Thread api) : Type 0 where
    pub sender : Sender
    pub known : t.sender ≡ some sender
    pub quiet : Quiet sender
    pub state : t.current_state ≡ waiting_for_request
    pub number : t.sequence_number ≡ last
    pub disk : t.disk ≡ d

  -- At the end of the run, from the disk d.
  abbrev pub ThreadEnds : Sender → Link → Disk → Thread api → Type 0
  ThreadEnds s l' d t =
      (Finished (Sender.final_sequence_number s) d t × (l'.receiver.is_complete ≡ true))
      ⊎ ((t.current_state ≡ sending) × (l'.sender.is_complete ≡ false))

module _ (api : FileApi) (fuel : ℕ) (raw_sender : Sender) (raw_receiver : Receiver) where
  open api use {read, write}

  -- The thread has begun to send, in a pass that leaves it with the sender that `g` describes.
  pub sending_ends :
      (t : Thread api) (bytes : List ℕ) (seed : ℕ) (s : Sender) (r : Receiver) (es : List Event)
      (ms : List Msg) (l' : Link) {answers : Bool}
      → IsGiven bytes seed s
      → pass api fuel raw_sender raw_receiver t
        ≡ some (ok (record (begin_sending api t) { sender = some (send s) }))
      → Downloads s.server_id true (start_link s r) es ms l' answers
      → (t' : Thread api) × (run api fuel raw_sender raw_receiver (actives ms) t ≡ some (ok t'))
        × ThreadEnds api s l' t.disk t'
  unfolding is_payload_sent Sender.final_sequence_number
  sending_ends t bytes seed s r es ms l' g passed downloads =
      let (t', ran, at_end) =
        Downloads-Serves s.job (formed bytes seed s g r) api fuel raw_sender raw_receiver t.disk t
          (record (begin_sending api t) { sender = some (send s) }) (start-Agreed bytes seed s g r)
          passed
          (record {
            active =
                inl
                  (send-Sending g.before s bytes (length bytes) seed g.quiet g.nonempty g.given).0;
            state = refl;
            known = refl;
            disk = refl;
          })
          downloads in
      (
        t',
        ran,
        elim at_end [
          | inl h ↦ inl (
            record {
              sender = l'.sender;
              known = h.known;
              quiet = h.sent.1;
              state = h.state;
              number =
                  h.number
                  ∙ ap (λ (j : Job). Sender.final_sequence_number (record s { job = j })) h.sent.2;
              disk = h.disk;
            },
            (link_sent bytes seed s g r l' (Downloads-Reach downloads here) h.sent.0).0,
          )
          | inr h ↦ inr (h.state, Active-incomplete s.job l'.sender h.active)
        ],
      )

  -- A download with both ends. A ServerThread that waits for a request is given that of a client's
  -- performGet, for a file that it has, of at least one byte and less than 2 ^ 31; the client is
  -- synchronised with that thread, no worker of an earlier transmission of the thread is left, the name
  -- is shorter than 20 bytes, and holds no NUL. Then in every run over a network that loses messages
  -- but keeps their order, neither end fails. The thread either still sends, or waits for a request
  -- again: then the client's receiver is complete, no worker of the thread sends any more, and its
  -- sequence number is the one that performGet leaves. And when performGet returns, it has written the
  -- server's bytes under that name; while it waits, it has written nothing.
  pub get_served :
      (t : Thread api) (old s : Sender) (c : FtpClient api) (filename bytes : List ℕ)
      (es : List Event) (ms : List Msg) (l' : Link) {answers : Bool}
      → length filename < 20
      → c_string filename ≡ filename
      → t.current_state ≡ waiting_for_request
      → t.current_msg ≡ get_request api c filename
      → read t.disk (t.files_directory ++ filename) ≡ some bytes
      → t.sender ≡ some old
      → Quiet old
      → 0 < length bytes
      → length bytes < 2 ^ 31
      → initialize_payload old (some bytes) (length bytes) c.sequence_number ≡ initialized s
      → c.server_identifier ≡ s.server_id
      → Downloads s.server_id true (start_link s c.receiver) es ms l' answers
      → (t' : Thread api) × (run api fuel raw_sender raw_receiver (actives ms) t ≡ some (ok t'))
        × ThreadEnds api s l' t.disk t'
        × Finally
            (λ c'.
              (c'.disk ≡ write c.disk (c.files_directory ++ filename) bytes)
              × (c'.sequence_number ≡ Sender.final_sequence_number s))
            (λ c'. (c'.disk ≡ c.disk) × (c'.printed ≡ c.printed))
            (perform_get api filename es c)
  unfolding on_request
  get_served t old s c filename bytes es ms l' short no_nul w asked found mine quiet some_byte small
        given same downloads =
      let (t', ran, at_end) =
        sending_ends t bytes c.sequence_number s c.receiver es ms l' g
          (pass-waiting api fuel raw_sender raw_receiver t w
            ∙ ap (λ (ty : MsgType). some (on_request api ty t)) (ap (λ (m : Msg). m.type) asked)
            ∙ ap some
                (request_found api t old s c filename bytes short no_nul asked found mine given))
          downloads in
      (t', ran, at_end, received api s c bytes g es (Downloads-Feeds downloads) filename short same)
    where
      g : IsGiven bytes c.sequence_number s
      g = record { before = old; quiet = quiet; given = given; nonempty = some_byte; small = small }

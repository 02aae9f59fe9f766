-- ===== src/Link/Asking.antt =====
-- The request of FtpClient::performUpload, its acknowledgement by ServerThread::getFile, and what comes
-- before it.
use comp6461_assignment.Base.{
  ℕ, ◌-◌, ◌≤◌, ◌≡◌, refl, ap, ◌∙◌, true, false, some, List, [], ◌∷◌, ◌++◌, arith, length, take,
  replicate, take_all, take-append,
}
use comp6461_assignment.Base.Int.{ℤ, pos, ==ℤ_iff}
use comp6461_assignment.Message.{Msg, MsgType, buffer_length}
use comp6461_assignment.Sender.{Sender, thread_msg, start_thread}
use comp6461_assignment.Receiver.{Receiver, start_new_payload}
use comp6461_assignment.ServerThread.Defs.{
  FileApi, Thread, ok, receiving, waiting_for_request, reply, send_ack,
}
use comp6461_assignment.ServerThread.Requests.{get_file}
use comp6461_assignment.ServerThread.Run.{on_request, pass}
use comp6461_assignment.ServerThread.Saving.{pass-waiting}
use comp6461_assignment.FtpClient.Defs.{Event, got, silent, FtpClient, done, request}
use comp6461_assignment.FtpClient.Transfers.{await_ack, upload_contents, perform_upload}
use comp6461_assignment.FtpClient.Uploads.{is_ack_from}

-- The message of performUpload's request.
abbrev pub post_request : {api : FileApi} → FtpClient api → List ℕ → Msg
post_request c filename =
    thread_msg c.server_identifier c.client_identifier MsgType.post c.sequence_number filename
      (length filename)

-- Nothing of this acknowledges the request.
abbrev pub Unanswered : ℤ → List Event → Type 0
Unanswered server [] = Unit
Unanswered server (silent ∷ es) = Unanswered server es
Unanswered server (got m ∷ es) = (is_ack_from server m ≡ false) × Unanswered server es

module _ (api : FileApi) where
  open api use {read}

  await_ack-other :
      (m : Msg) (es : List Event) (c : FtpClient api)
      → is_ack_from c.server_identifier m ≡ false
      → await_ack api (got m ∷ es) c ≡ await_ack api es (record c { server_msg = m })
  unfolding await_ack
  await_ack-other m es c alien = ground (arith, alien)

  await_ack-Unanswered :
      (before es : List Event) (c : FtpClient api)
      → Unanswered c.server_identifier before
      → (m : Msg) × (await_ack api (before ++ es) c
          ≡ await_ack api es (record c { server_msg = m }))
  unfolding await_ack
  await_ack-Unanswered [] es c h = (c.server_msg, refl)
  await_ack-Unanswered (silent ∷ before) es c h = await_ack-Unanswered before es c h
  await_ack-Unanswered (got m ∷ before) es c (alien, h) =
      let (m', e) = await_ack-Unanswered before es (record c { server_msg = m }) h in
      (m', await_ack-other m (before ++ es) c alien ∙ e)

  await_ack-found :
      (a : Msg) (es : List Event) (c : FtpClient api)
      → is_ack_from c.server_identifier a ≡ true
      → a.sequence_number ≡ c.sequence_number
      → await_ack api (got a ∷ es) c ≡ done (record c { server_msg = a }) es
  unfolding await_ack
  await_ack-found a es c ours number = ground (arith, ours, number)

  -- The client when its request is acknowledged by `a`.
  abbrev pub accepted : FtpClient api → List ℕ → Msg → FtpClient api
  accepted c filename a = record c {
    requests = start_thread c.requests (post_request c filename);
    server_msg = a;
  }

  pub perform_upload-accepted :
      (c : FtpClient api) (filename bytes : List ℕ) (before es : List Event) (a : Msg)
      → length filename ≤ buffer_length
      → read c.disk (c.files_directory ++ filename) ≡ some bytes
      → Unanswered c.server_identifier before
      → is_ack_from c.server_identifier a ≡ true
      → a.sequence_number ≡ c.sequence_number
      → perform_upload api filename (before ++ got a ∷ es) c
        ≡ upload_contents api c.requests.next bytes (accepted c filename a) es
  unfolding perform_upload request
  perform_upload-accepted c filename bytes before es a short found quiet ours number =
      let c' : FtpClient api = record c {
        requests = start_thread c.requests (post_request c filename);
      } in
      let (m, e) = await_ack-Unanswered before (got a ∷ es) c' quiet in
      let waited = e ∙ await_ack-found a es (record c' { server_msg = m }) ours number in
      ground (arith, short, found, waited)

  -- The acknowledgement of the request, and the thread that has sent it.
  abbrev pub post_ack : Thread api → Msg
  post_ack t = reply api t MsgType.ack 0 t.current_msg.sequence_number []

  abbrev pub posted : Thread api → Receiver → Thread api
  posted t r = record t {
    current_state = receiving;
    sequence_number = t.current_msg.sequence_number;
    receiver = some (start_new_payload r t.current_msg.sequence_number);
    filename = take t.current_msg.length t.current_msg.buffer;
    outbox = t.outbox ++ post_ack t ∷ [];
  }

  get_file-posted :
      (t : Thread api) (r : Receiver)
      → t.current_msg.length ≤ buffer_length
      → t.receiver ≡ some r
      → get_file api t ≡ ok (posted t r)
  unfolding get_file send_ack
  get_file-posted t r short known = ground (arith, short, known)

  module _ (fuel : ℕ) (raw_sender : Sender) (raw_receiver : Receiver) where
    pub pass-posted :
        (t : Thread api) (r : Receiver)
        → t.current_state ≡ waiting_for_request
        → t.current_msg.type ≡ MsgType.post
        → t.current_msg.length ≤ buffer_length
        → t.receiver ≡ some r
        → pass api fuel raw_sender raw_receiver t ≡ some (ok (posted t r))
    unfolding on_request
    pass-posted t r w type short known =
        pass-waiting api fuel raw_sender raw_receiver t w
        ∙ ap (λ (ty : MsgType). some (on_request api ty t)) type
        ∙ ap some (get_file-posted t r short known)

    -- The name that the thread stores the file under, if no file has it.
    pub posted-filename :
        (t : Thread api) (r : Receiver) (c : FtpClient api) (filename : List ℕ)
        → t.current_msg ≡ post_request c filename
        → (posted t r).filename ≡ filename
    posted-filename t r c filename asked =
        ap (λ (m : Msg). take m.length m.buffer) asked
        ∙ ap (λ (f : List ℕ). take (length filename) (f ++ replicate (256 - length filename) 0))
            (take_all (length filename) filename (omega arith))
        ∙ take-append filename (replicate (256 - length filename) 0)

pub ack-accepts :
    (api : FileApi) (t : Thread api) (c : FtpClient api)
    → c.server_identifier ≡ pos t.server_id
    → is_ack_from c.server_identifier (post_ack api t) ≡ true
ack-accepts api t c server = rw (server, (==ℤ_iff (pos t.server_id) (pos t.server_id)).1 refl) refl

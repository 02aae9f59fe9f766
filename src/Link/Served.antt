-- ===== src/Link/Served.antt =====
-- The ServerThread at the start of a download: FtpOverUdp/UdpServer/ServerThread.cpp, run on the
-- acknowledgements that come back.
use mathlib.Core.Path.{subst}
use mathlib.Core.Bool.{true≢false}
use comp6461_assignment.Base.{Bool, ℕ, ◌≡◌, refl, sym, ap, ◌∙◌, ◌⊎◌, inl, inr, true, some, List}
use comp6461_assignment.Base.Int.{ℤ}
use comp6461_assignment.Message.{Msg}
use comp6461_assignment.Sender.{Sender, Job, process_ack}
use comp6461_assignment.Sender
use comp6461_assignment.Receiver.{Receiver}
use comp6461_assignment.ServerThread.Defs.{FileApi, Thread, ok, sending, waiting_for_request}
use comp6461_assignment.ServerThread.Run.{is_ack, pass, run}
use comp6461_assignment.ServerThread.Endings.{Runs, run-cons}
use comp6461_assignment.ServerThread.Serving.{
  pass_acknowledged, pass_sent, pass_ignored, pass_late_ack,
}
use comp6461_assignment.FtpClient.Defs.{Event}
use comp6461_assignment.FtpClient.Uploads.{Sent, Active, Active-incomplete, process_ack-Acks}
use comp6461_assignment.Link.{
  Link, Step, transmit, lose_data, lose_ack, deliver, deliver_late, acknowledge,
}
use comp6461_assignment.Link.Packets.{IsFormed}
use comp6461_assignment.Link.Acknowledgement.{acknowledge-Acks}
use comp6461_assignment.Link.Run.{Agreed, Step-Agree}
use comp6461_assignment.Link.Saving.{is_inner}
use comp6461_assignment.Link.Put.{same-some}
use comp6461_assignment.Link.Serving.{
  Downloads, closed, timed_out, other, works, arrives, arrives_late, acked, acked_late, ignored,
}

inner-sender : {l l' : Link} (step : Step l l') → is_inner step ≡ true → l'.sender ≡ l.sender
inner-sender (transmit f m known e) h = refl
inner-sender (lose_data m rest e) h = refl
inner-sender (lose_ack m rest e) h = refl
inner-sender (deliver m rest e open_) h = refl
inner-sender (deliver_late m rest e over) h = refl
inner-sender (acknowledge a rest s e open_ q) h = absurd (true≢false (sym h))

module _ (job : Job) (whole : IsFormed job) (api : FileApi) (fuel : ℕ) (raw_sender : Sender)
    (raw_receiver : Receiver) where
  open api use {Disk}

  -- Everything is acknowledged, and the thread waits for a request.
  pub record Finishes (s : Sender) (d : Disk) (t : Thread api) : Type 0 where
    pub sent : Sent job s
    pub state : t.current_state ≡ waiting_for_request
    pub known : t.sender ≡ some s
    pub number : t.sequence_number ≡ Sender.final_sequence_number s
    pub disk : t.disk ≡ d

  -- Acknowledgements that come when everything is acknowledged.
  Downloads-Waits :
      {server : ℤ} {w w' : Bool} {l l' : Link} {es : List Event} {ms : List Msg} (d : Disk)
      (t t1 : Thread api)
      → pass api fuel raw_sender raw_receiver t ≡ some (ok t1)
      → Finishes l.sender d t1
      → Downloads server w l es ms l' w'
      → Runs api fuel raw_sender raw_receiver ms t (Finishes l'.sender d)
  unfolding run
  Downloads-Waits d t t1 passed h closed = (t1, passed, h)
  Downloads-Waits d t t1 passed h (timed_out more) = Downloads-Waits d t t1 passed h more
  Downloads-Waits d t t1 passed h (other m alien more) = Downloads-Waits d t t1 passed h more
  Downloads-Waits d t t1 passed h (works step inner more) =
      Downloads-Waits d t t1 passed
        (subst (λ (s : Sender). Finishes s d t1) (sym (inner-sender step inner)) h) more
  Downloads-Waits d t t1 passed h (arrives m rest e open_ more) =
      Downloads-Waits d t t1 passed h more
  Downloads-Waits d t t1 passed h (arrives_late m rest e late more) =
      Downloads-Waits d t t1 passed h more
  Downloads-Waits d t t1 passed h (acked a rest s e open_ q type more) =
      absurd (true≢false (sym h.sent.0 ∙ open_))
  Downloads-Waits d t t1 passed h (ignored m type open_ more) =
      absurd (true≢false (sym h.sent.0 ∙ open_))
  Downloads-Waits d t t1 passed h (acked_late {ms = ms} a rest e late type more) =
      let t2 : Thread api = record t1 { current_msg = a } in
      run-cons api fuel raw_sender raw_receiver a ms t t1 _ passed (
        Downloads-Waits d t2 t2 (pass_late_ack api fuel raw_sender raw_receiver t2 h.state type)
          (record {
            sent = h.sent;
            state = h.state;
            known = h.known;
            number = h.number;
            disk = h.disk;
          })
          more)

  -- Something is left to send or to be acknowledged.
  pub record Sends (s : Sender) (d : Disk) (t : Thread api) : Type 0 where
    pub active : Active job s
    pub state : t.current_state ≡ sending
    pub known : t.sender ≡ some s
    pub disk : t.disk ≡ d

  -- At the end of the run.
  abbrev pub Serves : Link → Disk → Thread api → Type 0
  Serves l' d t = Finishes l'.sender d t ⊎ Sends l'.sender d t

  again :
      (s : Sender) (d : Disk) (t : Thread api) (m : Msg)
      → Sends s d t
      → Sends s d (record t { current_msg = m })
  again s d t m h = record { active = h.active; state = h.state; known = h.known; disk = h.disk }

  finished_then :
      (l' : Link) (d : Disk) (ms : List Msg) (t : Thread api)
      → Runs api fuel raw_sender raw_receiver ms t (Finishes l'.sender d)
      → Runs api fuel raw_sender raw_receiver ms t (Serves l' d)
  finished_then l' d ms t (t', e, h) = (t', e, inl h)

  pub Downloads-Serves :
      {server : ℤ} {w w' : Bool} {l l' : Link} {es : List Event} {ms : List Msg} (d : Disk)
      (t t1 : Thread api)
      → Agreed job l
      → pass api fuel raw_sender raw_receiver t ≡ some (ok t1)
      → Sends l.sender d t1
      → Downloads server w l es ms l' w'
      → Runs api fuel raw_sender raw_receiver ms t (Serves l' d)
  unfolding run
  Downloads-Serves d t t1 v passed h closed = (t1, passed, inr h)
  Downloads-Serves d t t1 v passed h (timed_out more) = Downloads-Serves d t t1 v passed h more
  Downloads-Serves d t t1 v passed h (other m alien more) = Downloads-Serves d t t1 v passed h more
  Downloads-Serves d t t1 v passed h (works step inner more) =
      Downloads-Serves d t t1 (Step-Agree job whole step v) passed
        (subst (λ (s : Sender). Sends s d t1) (sym (inner-sender step inner)) h) more
  Downloads-Serves d t t1 v passed h (arrives m rest e open_ more) =
      Downloads-Serves d t t1 (Step-Agree job whole (deliver m rest e open_) v) passed h more
  Downloads-Serves d t t1 v passed h (arrives_late m rest e late more) =
      Downloads-Serves d t t1 (Step-Agree job whole (deliver_late m rest e late) v) passed h more
  Downloads-Serves {l = l} d t t1 v passed h (acked_late a rest e late type more) =
      absurd (true≢false (sym late ∙ Active-incomplete job l.sender h.active))
  Downloads-Serves {l = l} d t t1 v passed h (ignored {ms = ms} m type open_ more) =
      let t2 : Thread api = record t1 { current_msg = m } in
      run-cons api fuel raw_sender raw_receiver m ms t t1 _ passed (
        Downloads-Serves d t2 t2 v (pass_ignored api fuel raw_sender raw_receiver t2 h.state type)
          (again l.sender d t1 m h) more)
  Downloads-Serves {l = l} {l' = l'} d t t1 (la, lo, v) passed h
        (acked {ms = ms} a rest s e open_ q type more) =
      let t2 : Thread api = record t1 { current_msg = a } in
      let (s', q', onward) =
        process_ack-Acks job l.sender a (acknowledge-Acks job la lo l v a rest e open_) in
      let same = same-some (sym q' ∙ q) in
      run-cons api fuel raw_sender raw_receiver a ms t t1 _ passed
        (elim (subst (λ (x : Sender). Active job x ⊎ Sent job x) same onward) [
          | inl active ↦
              Downloads-Serves d t2 (record t2 { sender = some s })
                (Step-Agree job whole (acknowledge a rest s e open_ q) (la, lo, v))
                (pass_acknowledged api fuel raw_sender raw_receiver t2 l.sender s h.state
                  (ap is_ack type) h.known q (Active-incomplete job s active))
                (record { active = active; state = h.state; known = refl; disk = h.disk }) more
          | inr sent ↦ finished_then l' d ms t2 (
              Downloads-Waits d t2
                (record t2 {
                  sender = some s;
                  sequence_number = Sender.final_sequence_number s;
                  current_state = waiting_for_request;
                })
                (pass_sent api fuel raw_sender raw_receiver t2 l.sender s h.state (ap is_ack type)
                  h.known q sent.0)
                (record { sent = sent; state = refl; known = refl; number = refl; disk = h.disk })
                more)
        ])

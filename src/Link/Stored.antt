-- ===== src/Link/Stored.antt =====
-- The ServerThread at the end of an upload: FtpOverUdp/UdpServer/ServerThread.cpp, run on what arrives.
use mathlib.Core.Bool.{true≢false}
use comp6461_assignment.Base.{
  ℕ, ◌<◌, ◌≡◌, refl, sym, ap, ◌∙◌, ◌⊎◌, inl, inr, true, false, ◌||◌, some, List, ◌++◌, arith,
  Bool-cases,
}
use comp6461_assignment.Base.Int.{ℤ}
use comp6461_assignment.Message.{Msg}
use comp6461_assignment.Sender.{Sender, Job}
use comp6461_assignment.Receiver.{Receiver, handle_msg, is_resp_err, drain}
use comp6461_assignment.Receiver
use comp6461_assignment.Receiver.Inv.{chunks_below}
use comp6461_assignment.Receiver.Packet.{Settled}
use comp6461_assignment.ServerThread.Defs.{
  FileApi, Thread, ok, receiving, waiting_for_request, send_ack,
}
use comp6461_assignment.ServerThread.Run.{is_resp, pass, run}
use comp6461_assignment.ServerThread.Endings.{Runs, run-cons}
use comp6461_assignment.ServerThread.Saving.{
  handled, IsFree, Saves, on_receiving_open, on_receiving-Saves, on_receiving_post, pass-receiving,
  pass_late,
}
use comp6461_assignment.FtpClient.Defs.{Event}
use comp6461_assignment.FtpClient.Responses.{is_transfer}
use comp6461_assignment.Link.{Link, deliver, deliver_late, acknowledge}
use comp6461_assignment.Link.Packets.{IsFormed, chunk, packet_size-pos}
use comp6461_assignment.Link.Run.{Agreed, Step-Agree}
use comp6461_assignment.Link.Session.{arrival}
use comp6461_assignment.Link.Saving.{
  Uploads, closed, timed_out, other, unread, works, acked, arrives, arrives_late, asked_again,
  inner-receiver,
}

transfer-type :
    (server : ℤ) (m : Msg)
    → is_transfer server m ≡ true
    → (is_resp m.type || is_resp_err m.type) ≡ true
transfer-type server m ours = ground (arith, ours)

module _ (job : Job) (whole : IsFormed job) (api : FileApi) (fuel : ℕ) (raw_sender : Sender)
    (raw_receiver : Receiver) where
  open job use {number_of_packets as n, sequence_seed as seed}
  open api use {Disk}

  -- It waits for a request, and has changed nothing.
  record Waits (t t' : Thread api) : Type 0 where
    state : t'.current_state ≡ waiting_for_request
    disk : t'.disk ≡ t.disk
    number : t'.sequence_number ≡ t.sequence_number

  -- Messages of the transfer that come when the file is stored.
  Uploads-Waits :
      {server : ℤ} {l l' : Link} {es : List Event} {ms : List Msg} (t t1 : Thread api)
      → Agreed job l
      → l.receiver.is_complete ≡ true
      → pass api fuel raw_sender raw_receiver t ≡ some (ok t1)
      → t1.current_state ≡ waiting_for_request
      → Uploads server l es ms l'
      → Runs api fuel raw_sender raw_receiver ms t (λ t'. Waits t1 t' × (l'.receiver ≡ l.receiver))
  unfolding run send_ack
  Uploads-Waits t t1 v over passed w closed =
      (t1, passed, (record { state = w; disk = refl; number = refl }, refl))
  Uploads-Waits t t1 v over passed w (timed_out more) = Uploads-Waits t t1 v over passed w more
  Uploads-Waits t t1 v over passed w (other m alien more) = Uploads-Waits t t1 v over passed w more
  Uploads-Waits t t1 v over passed w (unread m e more) = Uploads-Waits t t1 v over passed w more
  Uploads-Waits t t1 v over passed w (works step inner more) =
      let same = inner-receiver step inner in
      let (t', e, (waits, kept)) =
        Uploads-Waits t t1 (Step-Agree job whole step v)
          (ap (λ (r : Receiver). r.is_complete) same ∙ over) passed w more in
      (t', e, (waits, kept ∙ same))
  Uploads-Waits t t1 v over passed w (acked a rest s e open_ q ours more) =
      Uploads-Waits t t1 (Step-Agree job whole (acknowledge a rest s e open_ q) v) over passed w
        more
  Uploads-Waits t t1 v over passed w (arrives m rest e open_ more) =
      absurd (true≢false (sym over ∙ open_))
  Uploads-Waits t t1 v over passed w (asked_again m type open_ more) =
      absurd (true≢false (sym over ∙ open_))
  Uploads-Waits {l = l} t t1 v over passed w (arrives_late {ms = ms} m rest e late more) =
      let t2 : Thread api = record t1 { current_msg = m } in
      let (t', r, (waits, kept)) =
        Uploads-Waits t2 (send_ack api t2) (Step-Agree job whole (deliver_late m rest e late) v)
          over
          (pass_late api fuel raw_sender raw_receiver t2 w
            (transfer-type job.server_id m (arrival job whole l m rest v e).0))
          w more in
      run-cons api fuel raw_sender raw_receiver m ms t t1 _ passed
        (t', r, (record { state = waits.state; disk = waits.disk; number = waits.number }, kept))

  module _ (k : ℕ) (less : k < fuel) where
    -- At the end of the run the file is stored, or it is still coming in and nothing is written.
    abbrev pub Serves : Link → Disk → Thread api → Type 0
    Serves l' d t =
        ((l'.receiver.is_complete ≡ true)
          × Saves api (drain (chunks_below (chunk job) n))
              (Receiver.final_sequence_number l'.receiver) d t)
        ⊎ ((l'.receiver.is_complete ≡ false) × (t.current_state ≡ receiving) × (t.disk ≡ d))

    -- The thread t has still to take in what it has been given last.
    pub record Receives (l : Link) (t t1 : Thread api) : Type 0 where
      pub passed : pass api fuel raw_sender raw_receiver t ≡ some (ok t1)
      pub state : t1.current_state ≡ receiving
      pub known : t1.receiver ≡ some l.receiver
      pub open_ : l.receiver.is_complete ≡ false
      pub free : IsFree api k t1

    settled :
        (l : Link)
        → Agreed job l
        → l.receiver.is_complete ≡ false
        → Settled n seed (chunk job) l.receiver
    settled l (la, lo, v) open_ = elim v.receiving [ inl (h, _) ↦ h | inr c ↦ cc (c.flag, open_) ]

    saved_then :
        (l' l : Link) (ms : List Msg) (t : Thread api) (d : Disk) (t2 : Thread api)
        → Saves api
            (drain (chunks_below (chunk job) n))
            (Receiver.final_sequence_number l.receiver)
            d
            t2
        → l.receiver.is_complete ≡ true
        → Runs api fuel raw_sender raw_receiver ms t
            (λ t'. Waits t2 t' × (l'.receiver ≡ l.receiver))
        → Runs api fuel raw_sender raw_receiver ms t (Serves l' d)
    saved_then l' l ms t d t2 saves over (t', e, (waits, kept)) = (
      t',
      e,
      inl (
        ap (λ (r : Receiver). r.is_complete) kept ∙ over,
        record {
          name = saves.name;
          fresh = saves.fresh;
          disk = waits.disk ∙ saves.disk;
          state = waits.state;
          number = waits.number ∙ saves.number ∙ ap Receiver.final_sequence_number (sym kept);
        },
      ),
    )

    pub Uploads-Serves :
        {server : ℤ} {l l' : Link} {es : List Event} {ms : List Msg} (t t1 : Thread api)
        → Agreed job l
        → Receives l t t1
        → Uploads server l es ms l'
        → Runs api fuel raw_sender raw_receiver ms t (Serves l' t1.disk)
    unfolding run send_ack
    Uploads-Serves t t1 v h closed = (t1, h.passed, inr (h.open_, h.state, refl))
    Uploads-Serves t t1 v h (timed_out more) = Uploads-Serves t t1 v h more
    Uploads-Serves t t1 v h (other m alien more) = Uploads-Serves t t1 v h more
    Uploads-Serves t t1 v h (unread m e more) = Uploads-Serves t t1 v h more
    Uploads-Serves t t1 v h (works step inner more) =
        let same = inner-receiver step inner in
        Uploads-Serves t t1 (Step-Agree job whole step v)
          (record {
            passed = h.passed;
            state = h.state;
            known = h.known ∙ ap some (sym same);
            open_ = ap (λ (r : Receiver). r.is_complete) same ∙ h.open_;
            free = h.free;
          })
          more
    Uploads-Serves t t1 v h (acked a rest s e open_ q ours more) =
        Uploads-Serves t t1 (Step-Agree job whole (acknowledge a rest s e open_ q) v)
          (record {
            passed = h.passed;
            state = h.state;
            known = h.known;
            open_ = h.open_;
            free = h.free;
          })
          more
    Uploads-Serves t t1 v h (arrives_late m rest e late more) =
        absurd (true≢false (sym late ∙ h.open_))
    Uploads-Serves t t1 v h (asked_again {ms = ms} m type open_ more) =
        let t2 : Thread api = record t1 { current_msg = m } in
        run-cons api fuel raw_sender raw_receiver m ms t t1 _ h.passed (
          Uploads-Serves t2 (send_ack api t2) v
            (record {
              passed =
                  pass-receiving api fuel raw_sender raw_receiver t2 h.state
                  ∙ on_receiving_post api fuel t2 type;
              state = h.state;
              known = h.known;
              open_ = open_;
              free = h.free;
            })
            more)
    Uploads-Serves {l = l} {l' = l'} t t1 v h (arrives {ms = ms} m rest e open_ more) =
        let t2 : Thread api = record t1 { current_msg = m } in
        let (ours, fits) = arrival job whole l m rest v e in
        let onward = Step-Agree job whole (deliver m rest e open_) v in
        let positive = packet_size-pos job whole in
        let passes = pass-receiving api fuel raw_sender raw_receiver t2 h.state in
        run-cons api fuel raw_sender raw_receiver m ms t t1 _ h.passed
          (elim (Bool-cases (handle_msg l.receiver m).receiver.is_complete) [
            | inr still ↦
                Uploads-Serves t2 (handled api fuel l.receiver t2) onward
                  (record {
                    passed =
                        passes
                        ∙ on_receiving_open api fuel n seed (chunk job) positive t2 l.receiver
                            h.known (settled l v open_) open_ (fits open_) still;
                    state = h.state;
                    known = refl;
                    open_ = still;
                    free = h.free;
                  })
                  more
            | inl over ↦
                let (t3, done, saves) =
                  on_receiving-Saves api fuel n seed (chunk job) positive t2 l.receiver h.known
                    (settled l v open_) open_ (fits open_) k over less h.free in
                saved_then l'
                  (record l {
                    data_channel = rest;
                    receiver = (handle_msg l.receiver m).receiver;
                    ack_channel = l.ack_channel ++ (handle_msg l.receiver m).sent;
                  })
                  ms t2 t2.disk t3 saves over
                  (Uploads-Waits t2 t3 onward over (passes ∙ done) saves.state more)
          ])

-- ===== src/ServerThread/Endings.antt =====
-- How a ServerThread comes back from a transfer, and that it does not from a rename.
use comp6461_assignment.Base.{
  ℕ, ◌<◌, ◌≡◌, refl, ap, ◌∙◌, Bool, true, false, some, List, [], ◌∷◌, ◌++◌, arith,
}
use comp6461_assignment.Message.{Msg, MsgType, Payload, returned, strcmp_eq, eof_text}
use comp6461_assignment.Sender.{Sender, Job, process_ack, is_payload_sent}
use comp6461_assignment.Sender
use comp6461_assignment.Sender.Window.{slot}
use comp6461_assignment.Sender.Ack.{Ending}
use comp6461_assignment.Sender.Passes.{Quiet, process_ack-eof}
use comp6461_assignment.Receiver.{
  Receiver, Handled, handle_msg, is_resp_err, get_payload, assembled, is_payload_complete, ack_msg,
  drain,
}
use comp6461_assignment.Receiver
use comp6461_assignment.Receiver.Inv.{chunks_below}
use comp6461_assignment.Receiver.Packet.{Settled}
use comp6461_assignment.Receiver.Completion.{IsEof, Complete, eof-Complete, get_payload-Complete}
use comp6461_assignment.ServerThread.Defs.{FileApi, renaming, waiting_for_request, Thread, ok}
use comp6461_assignment.ServerThread.Requests.{
  dispatch_to_receiver, dispatch_to_sender, finish_receiving, save_file,
}
use comp6461_assignment.ServerThread.Files.{candidate, save_file_fresh}
use comp6461_assignment.ServerThread.Run.{
  on_receiving, on_sending, on_renaming, on_state, pass, run,
}
use comp6461_assignment.ServerThread.Transitions.{on_renaming-state}

module _ (api : FileApi) (fuel : ℕ) where
  open api use {path_file_exists, write, path_find_extension}

  pub eof_dispatches :
      (t : Thread api)
      → t.current_msg.type ≡ MsgType.resp_err
      → strcmp_eq t.current_msg.buffer eof_text ≡ true
      → on_receiving api fuel t ≡ dispatch_to_receiver api fuel t
  unfolding on_receiving
  eof_dispatches t type text = ground (arith, type, text)

  pub dispatch_returned :
      (t : Thread api) (r : Receiver)
      → t.receiver ≡ some r
      → (handle_msg r t.current_msg).status ≡ returned
      → dispatch_to_receiver api fuel t
        ≡ finish_receiving api fuel (handle_msg r t.current_msg).receiver (record t {
          receiver = some (handle_msg r t.current_msg).receiver;
          outbox = t.outbox ++ (handle_msg r t.current_msg).sent;
        })
  unfolding dispatch_to_receiver
  dispatch_returned t r known status = ground (arith, known, status)

  pub finish_saves :
      (r r' : Receiver) (t t' : Thread api) (payload : Payload)
      → r.is_complete ≡ true
      → get_payload r ≡ assembled payload r'
      → save_file api fuel payload.contents (record t {
        sequence_number = Receiver.final_sequence_number r;
        current_state = waiting_for_request;
        receiver = some r';
      })
        ≡ some t'
      → finish_receiving api fuel r t ≡ some (ok t')
  unfolding finish_receiving is_payload_complete
  finish_saves r r' t t' payload done given saved = ground (arith, done, given, saved)

  -- The end of an upload: in state RECEIVING, with a receiver that has every packet of a transfer
  -- without empty packets, the EOF message of the client is acknowledged, the bytes of the packets,
  -- in order, are written under a name that no file had (if one of the first `fuel` names is free),
  -- and the thread waits for a request.
  upload_saved :
      (n seed : ℕ) (chunk : ℕ → Payload) (positive : (j : ℕ) → j < n → 0 < (chunk j).length)
      (t : Thread api) (r : Receiver) (k : ℕ)
      → t.receiver ≡ some r
      → Settled n seed chunk r
      → r.window_origin ≡ n
      → IsEof n seed chunk t.current_msg
      → k < fuel
      → path_file_exists t.disk
          (candidate api (path_find_extension t.filename) (t.files_directory ++ t.filename) k)
        ≡ false
      → (name : List ℕ) × (t' : Thread api) × (on_receiving api fuel t ≡ some (ok t'))
        × (path_file_exists t.disk name ≡ false)
        × (t'.disk ≡ write t.disk name (drain (chunks_below chunk n)))
        × (t'.outbox ≡ t.outbox ++ ack_msg r t.current_msg.sequence_number ∷ [])
        × (t'.current_state ≡ waiting_for_request)
  upload_saved n seed chunk positive t r k known s whole is less free =
      let (name, fresh, saved) =
        save_file_fresh api fuel k (drain (chunks_below chunk n)) finished less free in
      (
        name,
        record finished { disk = write t.disk name (drain (chunks_below chunk n)) },
        eof_dispatches t is.typed is.text
            ∙ dispatch_returned t r known finish.2
            ∙ finish_saves out.receiver _ _ _ _ finish.0.flag
                (get_payload-Complete n seed chunk out.receiver finish.0) saved,
        fresh,
        refl,
        ap (t.outbox ++◌) finish.1,
        refl,
      )
    where
      out : Handled
      out = handle_msg r t.current_msg

      finish :
          Complete n seed chunk out.receiver
          × (out.sent ≡ ack_msg r t.current_msg.sequence_number ∷ [])
          × (out.status ≡ returned)
      finish = eof-Complete n seed chunk positive r s t.current_msg is whole

      finished : Thread api
      finished = record t {
        receiver = some (record out.receiver { completed_set = [] });
        outbox = t.outbox ++ out.sent;
        sequence_number = Receiver.final_sequence_number out.receiver;
        current_state = waiting_for_request;
      }

module _ (api : FileApi) where
  -- The end of a download: in state SENDING, when every packet is acknowledged, the acknowledgement of
  -- the EOF message brings the thread back to waiting for a request, under the number that the sender
  -- computes for what follows, and no worker of the sender sends any more.
  download_done :
      (job : Job) (t : Thread api) (s : Sender)
      → t.sender ≡ some s
      → Ending job s
      → t.current_msg.type ≡ MsgType.ack
      → t.current_msg.sequence_number ≡ slot job job.number_of_packets
      → (t' : Thread api) × (s' : Sender) × (on_sending api t ≡ ok t')
        × (t'.sender ≡ some s')
        × Quiet s'
        × (t'.sequence_number ≡ Sender.final_sequence_number s')
        × (t'.current_state ≡ waiting_for_request)
  unfolding on_sending dispatch_to_sender
  download_done job t s known ending type number =
      let (s', done, sent, _, quiet) = process_ack-eof job s ending t.current_msg number in
      (
        record t {
          sender = some s';
          sequence_number = Sender.final_sequence_number s';
          current_state = waiting_for_request;
        },
        s',
        ground (arith, type, known, done, sent),
        refl,
        quiet,
        refl,
        refl,
      )

-- Messages that come while the thread is active.
abbrev pub actives : List Msg → List (Msg × Bool)
actives [] = []
actives (m ∷ ms) = (m, true) ∷ actives ms

module _ (api : FileApi) (fuel : ℕ) (raw_sender : Sender) (raw_receiver : Receiver) where
  -- The thread when the messages are used up.
  abbrev pub Runs : List Msg → Thread api → (Thread api → Type 0) → Type 0
  Runs ms t P =
      (t' : Thread api) × (run api fuel raw_sender raw_receiver (actives ms) t ≡ some (ok t'))
      × P t'

  pub run-cons :
      (m : Msg) (ms : List Msg) (t t1 : Thread api) (P : Thread api → Type 0)
      → pass api fuel raw_sender raw_receiver t ≡ some (ok t1)
      → Runs ms (record t1 { current_msg = m }) P
      → Runs (m ∷ ms) t P
  unfolding run
  run-cons m ms t t1 P passed (t', e, h) = (t', rw (run, passed) e, h)

  pass-renaming :
      (t : Thread api)
      → t.current_state ≡ renaming
      → pass api fuel raw_sender raw_receiver t ≡ some (ok (on_renaming api t))
  unfolding pass on_state
  pass-renaming t w = ap (λ st. on_state api fuel raw_sender raw_receiver st t) w

  -- A thread in state RENAMING stays there, whatever messages come, for as long as it is active.
  pub renaming_forever :
      (ms : List Msg) (t : Thread api)
      → t.current_state ≡ renaming
      → (t' : Thread api) × (run api fuel raw_sender raw_receiver (actives ms) t ≡ some (ok t'))
        × (t'.current_state ≡ renaming)
  unfolding run
  renaming_forever [] t w = (on_renaming api t, pass-renaming t w, on_renaming-state api t ∙ w)
  renaming_forever (m ∷ ms) t w =
      let (t', e, v) =
        renaming_forever ms (record (on_renaming api t) { current_msg = m })
          (on_renaming-state api t ∙ w) in
      (t', rw (run, pass-renaming t w) e, v)

-- ===== src/ServerThread/Saving.antt =====
-- ServerThread::run while a file comes in: what a pass does with each message of the transfer.
use comp6461_assignment.Base.{
  ℕ, ◌<◌, ◌≡◌, refl, ap, ◌∙◌, inl, inr, true, false, ◌||◌, some, List, [], ◌++◌, arith,
}
use comp6461_assignment.Message.{MsgType, Payload}
use comp6461_assignment.Sender.{Sender}
use comp6461_assignment.Receiver.{
  Receiver, Handled, handle_msg, is_resp_err, assembled, get_payload, is_payload_complete, drain,
}
use comp6461_assignment.Receiver
use comp6461_assignment.Receiver.Inv.{chunks_below}
use comp6461_assignment.Receiver.Packet.{Settled}
use comp6461_assignment.Receiver.Completion.{get_payload-Complete}
use comp6461_assignment.ServerThread.Defs.{
  FileApi, waiting_for_request, receiving, Thread, ok, send_ack,
}
use comp6461_assignment.ServerThread.Requests.{dispatch_to_receiver, finish_receiving}
use comp6461_assignment.ServerThread.Files.{candidate, save_file_fresh}
use comp6461_assignment.ServerThread.Run.{is_resp, on_request, on_receiving, on_state, pass}
use comp6461_assignment.ServerThread.Endings.{eof_dispatches, dispatch_returned, finish_saves}
use comp6461_assignment.FtpClient.Downloads.{Fits, packet, eof, handle_msg-Proceeds}

module _ (api : FileApi) where
  open api use {Disk, path_file_exists, write, path_find_extension}

  -- The k-th name that saveFile tries is free.
  abbrev pub IsFree : ℕ → Thread api → Type 0
  IsFree k t =
      path_file_exists t.disk
        (candidate api (path_find_extension t.filename) (t.files_directory ++ t.filename) k)
      ≡ false

  -- From the disk d, the thread has written the bytes under a name that no file had, and waits for a
  -- request.
  pub record Saves (bytes : List ℕ) (last : ℕ) (d : Disk) (t : Thread api) : Type 0 where
    pub name : List ℕ
    pub fresh : path_file_exists d name ≡ false
    pub disk : t.disk ≡ write d name bytes
    pub state : t.current_state ≡ waiting_for_request
    pub number : t.sequence_number ≡ last

module _ (api : FileApi) (fuel : ℕ) where
  open api use {path_file_exists, write}

  packet_dispatches :
      (t : Thread api)
      → t.current_msg.type ≡ MsgType.resp
      → on_receiving api fuel t ≡ dispatch_to_receiver api fuel t
  unfolding on_receiving
  packet_dispatches t type = ground (arith, type)

  finish_open :
      (r : Receiver) (t : Thread api)
      → r.is_complete ≡ false
      → finish_receiving api fuel r t ≡ some (ok t)
  unfolding finish_receiving is_payload_complete
  finish_open r t open_ = ground (arith, open_)

  -- The thread with what handleMsg leaves.
  abbrev pub handled : Receiver → Thread api → Thread api
  handled r t = record t {
    receiver = some (handle_msg r t.current_msg).receiver;
    outbox = t.outbox ++ (handle_msg r t.current_msg).sent;
  }

  module _ (n seed : ℕ) (chunk : ℕ → Payload)
      (positive : (j : ℕ) → j < n → 0 < (chunk j).length) where
    Fits-dispatches :
        (t : Thread api) (r : Receiver)
        → Fits n seed chunk r t.current_msg
        → on_receiving api fuel t ≡ dispatch_to_receiver api fuel t
    Fits-dispatches t r (packet k is lo hi) = packet_dispatches t is.typed
    Fits-dispatches t r (eof is number) = eof_dispatches api fuel t is.typed is.text

    module _ (t : Thread api) (r : Receiver) (known : t.receiver ≡ some r)
        (settled : Settled n seed chunk r) (open_ : r.is_complete ≡ false)
        (fits : Fits n seed chunk r t.current_msg) where
      on_receiving_fits :
          on_receiving api fuel t
          ≡ finish_receiving api fuel (handle_msg r t.current_msg).receiver (handled r t)
      on_receiving_fits =
          Fits-dispatches t r fits
          ∙ dispatch_returned api fuel t r known
              (handle_msg-Proceeds n seed chunk positive r t.current_msg settled open_ fits).0

      -- While packets are missing, the thread only passes the message on.
      pub on_receiving_open :
          (handle_msg r t.current_msg).receiver.is_complete ≡ false
          → on_receiving api fuel t ≡ some (ok (handled r t))
      on_receiving_open still =
          on_receiving_fits ∙ finish_open (handle_msg r t.current_msg).receiver (handled r t) still

      -- The message that completes the payload makes it save the file.
      pub on_receiving-Saves :
          (k : ℕ)
          → (handle_msg r t.current_msg).receiver.is_complete ≡ true
          → k < fuel
          → IsFree api k t
          → (t' : Thread api) × (on_receiving api fuel t ≡ some (ok t'))
            × Saves api
                (drain (chunks_below chunk n))
                (Receiver.final_sequence_number (handle_msg r t.current_msg).receiver)
                t.disk
                t'
      on_receiving-Saves k over less free =
          elim (handle_msg-Proceeds n seed chunk positive r t.current_msg settled open_ fits).1 [
            | inl (s, still) ↦ cc (over, still)
            | inr (complete, _) ↦
                let (name, fresh, saved) =
                  save_file_fresh api fuel k (drain (chunks_below chunk n)) finished less free in
                (
                  record finished { disk = write t.disk name (drain (chunks_below chunk n)) },
                  on_receiving_fits
                      ∙ finish_saves api fuel out.receiver _ _ _ _ over
                          (get_payload-Complete n seed chunk out.receiver complete) saved,
                  record { name = name; fresh = fresh; disk = refl; state = refl; number = refl },
                )
          ]
        where
          out : Handled
          out = handle_msg r t.current_msg

          finished : Thread api
          finished = record (handled r t) {
            receiver = some (record out.receiver { completed_set = [] });
            sequence_number = Receiver.final_sequence_number out.receiver;
            current_state = waiting_for_request;
          }

  -- A repeated POST message is acknowledged again.
  pub on_receiving_post :
      (t : Thread api)
      → t.current_msg.type ≡ MsgType.post
      → on_receiving api fuel t ≡ some (ok (send_ack api t))
  unfolding on_receiving
  on_receiving_post t type = ground (arith, type)

module _ (api : FileApi) (fuel : ℕ) (raw_sender : Sender) (raw_receiver : Receiver)
    (t : Thread api) where
  pub pass-receiving :
      t.current_state ≡ receiving
      → pass api fuel raw_sender raw_receiver t ≡ on_receiving api fuel t
  unfolding pass on_state
  pass-receiving w = ap (λ st. on_state api fuel raw_sender raw_receiver st t) w

  pub pass-waiting :
      t.current_state ≡ waiting_for_request
      → pass api fuel raw_sender raw_receiver t ≡ some (on_request api t.current_msg.type t)
  unfolding pass on_state
  pass-waiting w = ap (λ st. on_state api fuel raw_sender raw_receiver st t) w

  -- A message of the transfer that comes late is acknowledged by the thread itself.
  pub pass_late :
      t.current_state ≡ waiting_for_request
      → (is_resp t.current_msg.type || is_resp_err t.current_msg.type) ≡ true
      → pass api fuel raw_sender raw_receiver t ≡ some (ok (send_ack api t))
  unfolding on_request
  pass_late w type = pass-waiting w ∙ ap some (by_type t.current_msg.type type)
    where
      by_type :
          (type : MsgType)
          → (is_resp type || is_resp_err type) ≡ true
          → on_request api type t ≡ ok (send_ack api t)
      by_type MsgType.resp h = refl
      by_type MsgType.resp_err h = refl
      by_type MsgType.handshake h = cc (h)
      by_type MsgType.get_list h = cc (h)
      by_type MsgType.get_file h = cc (h)
      by_type MsgType.put h = cc (h)
      by_type MsgType.post h = cc (h)
      by_type MsgType.ack h = cc (h)
      by_type MsgType.terminate h = cc (h)
      by_type (MsgType.other k) h = cc (h)

-- ===== src/Link.antt =====
-- A sender and a receiver joined by a network: FtpOverUdp/Common/Sender.cpp on one side and
-- FtpOverUdp/Common/Receiver.cpp on the other, as FtpClient::performUpload runs them against
-- ServerThread, and ServerThread against FtpClient::performGet. The network loses any message but
-- does not reorder: losing a message at the head of a channel stands for a loss on the way, and
-- a repetition is a second pass of a worker.
pub mod Packets
pub mod Flow
mod Invariant
mod Delivery
mod Acknowledgement
mod Run
mod Origin
pub mod Safety
pub mod Session
pub mod Get
pub mod Hearing
pub mod Put
pub mod Saving
pub mod Stored
pub mod Asking
pub mod Upload
pub mod Resent
pub mod Ending
pub mod Serving
pub mod Served
pub mod Download
pub mod Completing
pub mod Listing
pub mod Returns
pub mod Menu
pub mod MenuGet
pub mod MenuPut
pub mod Liveness
mod Tests
use comp6461_assignment.Base.{ℕ, ◌<◌, ◌≡◌, true, false, some, List, [], ◌∷◌, ◌++◌}
use comp6461_assignment.Message.{Msg}
use comp6461_assignment.Sender.{Sender, run_pass, process_ack, send}
use comp6461_assignment.Receiver.{Receiver, handle_msg, ack_msg, start_new_payload}

-- The head of a channel is the message that is delivered next.
pub record Link : Type 0 where
  pub sender : Sender
  pub receiver : Receiver
  pub data_channel : List Msg
  pub ack_channel : List Msg

pub data Step (l : Link) : Link → Type 0 where
  transmit :
      (f : ℕ) (m : Msg)
      → f < l.sender.next
      → run_pass l.sender.workers f ≡ some m
      → Step l (record l { data_channel = l.data_channel ++ m ∷ [] })
  lose_data :
      (m : Msg) (rest : List Msg)
      → l.data_channel ≡ m ∷ rest
      → Step l (record l { data_channel = rest })
  lose_ack :
      (m : Msg) (rest : List Msg)
      → l.ack_channel ≡ m ∷ rest
      → Step l (record l { ack_channel = rest })
  deliver :
      (m : Msg) (rest : List Msg)
      → l.data_channel ≡ m ∷ rest
      → l.receiver.is_complete ≡ false
      → Step l (record l {
        data_channel = rest;
        receiver = (handle_msg l.receiver m).receiver;
        ack_channel = l.ack_channel ++ (handle_msg l.receiver m).sent;
      })
  -- A complete receiver is not called any more: ServerThread::run acknowledges by itself. FtpClient does so
  -- only up to its first time-out: Serving.Downloads has that.
  deliver_late :
      (m : Msg) (rest : List Msg)
      → l.data_channel ≡ m ∷ rest
      → l.receiver.is_complete ≡ true
      → Step l (record l {
        data_channel = rest;
        ack_channel = l.ack_channel ++ ack_msg l.receiver m.sequence_number ∷ [];
      })
  acknowledge :
      (a : Msg) (rest : List Msg) (s : Sender)
      → l.ack_channel ≡ a ∷ rest
      → l.sender.is_complete ≡ false
      → process_ack l.sender a ≡ some s
      → Step l (record l { sender = s; ack_channel = rest })

-- Both ends at the start of a transfer, with empty channels.
abbrev pub start_link : Sender → Receiver → Link
start_link s r = record {
  sender = send s;
  receiver = start_new_payload r s.sequence_seed;
  data_channel = [];
  ack_channel = [];
}

pub data Reach (start : Link) : Link → Type 0 where
  here : Reach start start
  next : {l l' : Link} → Reach start l → Step l l' → Reach start l'

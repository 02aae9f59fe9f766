-- ===== src/Link/Saving.antt =====
-- An upload seen from both ends: what the socket of FtpClient::performUpload gives, and what FtpServer
-- hands over to the ServerThread that stores the file.
use mathlib.Core.Bool.{true≢false}
use comp6461_assignment.Base.{◌≡◌, refl, sym, Bool, true, false, some, List, [], ◌∷◌, ◌++◌}
use comp6461_assignment.Base.Int.{ℤ}
use comp6461_assignment.Message.{Msg, MsgType}
use comp6461_assignment.Sender.{Sender, process_ack}
use comp6461_assignment.Receiver.{handle_msg, ack_msg}
use comp6461_assignment.FtpClient.Defs.{Event, got, silent}
use comp6461_assignment.FtpClient.Uploads.{is_ack_from}
use comp6461_assignment.Link.{
  Link, Step, transmit, lose_data, lose_ack, deliver, deliver_late, acknowledge,
}
use comp6461_assignment.Link.Hearing.{Hears}
use comp6461_assignment.Link.Hearing

-- A pass of a worker, or a loss: neither end reads a message.
abbrev pub is_inner : {l l' : Link} → Step l l' → Bool
is_inner (transmit f m known e) = true
is_inner (lose_data m rest e) = true
is_inner (lose_ack m rest e) = true
is_inner (deliver m rest e open_) = false
is_inner (deliver_late m rest e over) = false
is_inner (acknowledge a rest s e open_ q) = false

-- A run of the link with both ends: the events of the client's socket, as in Hears, and the messages that
-- the thread is given, which are those of the transfer and, until the payload is complete, repetitions of
-- the request. The thread acknowledges these too, under the number of packet 0: a run here is one in which
-- such an acknowledgement is lost, or reaches the client when everything is acknowledged (Resent says what
-- it does before).
pub data Uploads (server : ℤ) : Link → List Event → List Msg → Link → Type 0 where
  closed : {l : Link} → Uploads server l [] [] l
  timed_out :
      {l l' : Link} {es : List Event} {ms : List Msg}
      → Uploads server l es ms l'
      → Uploads server l (silent ∷ es) ms l'
  other :
      {l l' : Link} {es : List Event} {ms : List Msg} (m : Msg)
      → is_ack_from server m ≡ false
      → Uploads server l es ms l'
      → Uploads server l (got m ∷ es) ms l'
  unread :
      {l l' : Link} {es : List Event} {ms : List Msg} (m : Msg)
      → l.sender.is_complete ≡ true
      → Uploads server l es ms l'
      → Uploads server l (got m ∷ es) ms l'
  works :
      {l l' l'' : Link} {es : List Event} {ms : List Msg} (step : Step l l')
      → is_inner step ≡ true
      → Uploads server l' es ms l''
      → Uploads server l es ms l''
  acked :
      {l l' : Link} {es : List Event} {ms : List Msg} (a : Msg) (rest : List Msg) (s : Sender)
      → l.ack_channel ≡ a ∷ rest
      → l.sender.is_complete ≡ false
      → process_ack l.sender a ≡ some s
      → is_ack_from server a ≡ true
      → Uploads server (record l { sender = s; ack_channel = rest }) es ms l'
      → Uploads server l (got a ∷ es) ms l'
  arrives :
      {l l' : Link} {es : List Event} {ms : List Msg} (m : Msg) (rest : List Msg)
      → l.data_channel ≡ m ∷ rest
      → l.receiver.is_complete ≡ false
      → Uploads server
          (record l {
            data_channel = rest;
            receiver = (handle_msg l.receiver m).receiver;
            ack_channel = l.ack_channel ++ (handle_msg l.receiver m).sent;
          })
          es
          ms
          l'
      → Uploads server l es (m ∷ ms) l'
  arrives_late :
      {l l' : Link} {es : List Event} {ms : List Msg} (m : Msg) (rest : List Msg)
      → l.data_channel ≡ m ∷ rest
      → l.receiver.is_complete ≡ true
      → Uploads server
          (record l {
            data_channel = rest;
            ack_channel = l.ack_channel ++ ack_msg l.receiver m.sequence_number ∷ [];
          })
          es
          ms
          l'
      → Uploads server l es (m ∷ ms) l'
  asked_again :
      {l l' : Link} {es : List Event} {ms : List Msg} (m : Msg)
      → m.type ≡ MsgType.post
      → l.receiver.is_complete ≡ false
      → Uploads server l es ms l'
      → Uploads server l es (m ∷ ms) l'

inner-unheard :
    {l l' : Link} (step : Step l l') → is_inner step ≡ true → Hearing.is_unheard step ≡ true
inner-unheard (transmit f m known e) h = refl
inner-unheard (lose_data m rest e) h = refl
inner-unheard (lose_ack m rest e) h = refl
inner-unheard (deliver m rest e open_) h = refl
inner-unheard (deliver_late m rest e over) h = refl
inner-unheard (acknowledge a rest s e open_ q) h = h

-- The client's side of it.
pub Uploads-Hears :
    {server : ℤ} {l l' : Link} {es : List Event} {ms : List Msg}
    → Uploads server l es ms l'
    → Hears server l es l'
Uploads-Hears closed = Hearing.closed
Uploads-Hears (timed_out more) = Hearing.timed_out (Uploads-Hears more)
Uploads-Hears (other m alien more) = Hearing.other m alien (Uploads-Hears more)
Uploads-Hears (unread m e more) = Hearing.unread m e (Uploads-Hears more)
Uploads-Hears (works step e more) = Hearing.works step (inner-unheard step e) (Uploads-Hears more)
Uploads-Hears (acked a rest s e open_ q ours more) =
    Hearing.acked a rest s e open_ q ours (Uploads-Hears more)
Uploads-Hears (arrives m rest e open_ more) =
    Hearing.works (deliver m rest e open_) refl (Uploads-Hears more)
Uploads-Hears (arrives_late m rest e over more) =
    Hearing.works (deliver_late m rest e over) refl (Uploads-Hears more)
Uploads-Hears (asked_again m type open_ more) = Uploads-Hears more

pub inner-receiver :
    {l l' : Link} (step : Step l l') → is_inner step ≡ true → l'.receiver ≡ l.receiver
inner-receiver (transmit f m known e) h = refl
inner-receiver (lose_data m rest e) h = refl
inner-receiver (lose_ack m rest e) h = refl
inner-receiver (deliver m rest e open_) h = absurd (true≢false (sym h))
inner-receiver (deliver_late m rest e over) h = absurd (true≢false (sym h))
inner-receiver (acknowledge a rest s e open_ q) h = absurd (true≢false (sym h))

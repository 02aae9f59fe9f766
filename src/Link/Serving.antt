-- ===== src/Link/Serving.antt =====
-- A download seen from both ends: what the socket of FtpClient::performGet gives, and what FtpServer hands
-- over to the ServerThread that sends the file.
use comp6461_assignment.Base.{
  ◌≡◌, refl, Bool, true, false, if◌then◌else◌, some, List, [], ◌∷◌, ◌++◌,
}
use comp6461_assignment.Base.Int.{ℤ}
use comp6461_assignment.Message.{Msg, MsgType}
use comp6461_assignment.Sender.{Sender, process_ack}
use comp6461_assignment.Receiver.{handle_msg, ack_msg}
use comp6461_assignment.ServerThread.Run.{is_ack}
use comp6461_assignment.FtpClient.Defs.{Event, got, silent}
use comp6461_assignment.FtpClient.Responses.{is_transfer}
use comp6461_assignment.Link.{
  Link, Step, transmit, lose_data, lose_ack, deliver, deliver_late, acknowledge, Reach, next,
}
use comp6461_assignment.Link.Saving.{is_inner}
use comp6461_assignment.Link.Session.{Feeds}
use comp6461_assignment.Link.Session

-- A run of the link with both ends: the events of the client's socket, as in Feeds, and the messages that
-- the thread is given, which are acknowledgements and, until everything is acknowledged, messages that it
-- ignores, such as repetitions of the request. The two flags say, for the beginning and the end of the
-- run, whether the client still answers: the first time-out with a complete receiver ends the loop
-- `while (waitTimeOut() > 0)`, behind which performGet and performList return, and what comes later is
-- not acknowledged: for this transfer it is lost.
pub data Downloads (server : ℤ) : Bool → Link → List Event → List Msg → Link → Bool → Type 0 where
  closed : {w : Bool} {l : Link} → Downloads server w l [] [] l w
  timed_out :
      {w w' : Bool} {l l' : Link} {es : List Event} {ms : List Msg}
      → Downloads server (if l.receiver.is_complete then false else w) l es ms l' w'
      → Downloads server w l (silent ∷ es) ms l' w'
  other :
      {w w' : Bool} {l l' : Link} {es : List Event} {ms : List Msg} (m : Msg)
      → is_transfer server m ≡ false
      → Downloads server w l es ms l' w'
      → Downloads server w l (got m ∷ es) ms l' w'
  works :
      {w w' : Bool} {l l' l'' : Link} {es : List Event} {ms : List Msg} (step : Step l l')
      → is_inner step ≡ true
      → Downloads server w l' es ms l'' w'
      → Downloads server w l es ms l'' w'
  arrives :
      {w w' : Bool} {l l' : Link} {es : List Event} {ms : List Msg} (m : Msg) (rest : List Msg)
      → l.data_channel ≡ m ∷ rest
      → l.receiver.is_complete ≡ false
      → Downloads server w
          (record l {
            data_channel = rest;
            receiver = (handle_msg l.receiver m).receiver;
            ack_channel = l.ack_channel ++ (handle_msg l.receiver m).sent;
          })
          es
          ms
          l'
          w'
      → Downloads server w l (got m ∷ es) ms l' w'
  arrives_late :
      {w' : Bool} {l l' : Link} {es : List Event} {ms : List Msg} (m : Msg) (rest : List Msg)
      → l.data_channel ≡ m ∷ rest
      → l.receiver.is_complete ≡ true
      → Downloads server true
          (record l {
            data_channel = rest;
            ack_channel = l.ack_channel ++ ack_msg l.receiver m.sequence_number ∷ [];
          })
          es
          ms
          l'
          w'
      → Downloads server true l (got m ∷ es) ms l' w'
  acked :
      {w w' : Bool} {l l' : Link} {es : List Event} {ms : List Msg} (a : Msg) (rest : List Msg)
      (s : Sender)
      → l.ack_channel ≡ a ∷ rest
      → l.sender.is_complete ≡ false
      → process_ack l.sender a ≡ some s
      → a.type ≡ MsgType.ack
      → Downloads server w (record l { sender = s; ack_channel = rest }) es ms l' w'
      → Downloads server w l es (a ∷ ms) l' w'
  acked_late :
      {w w' : Bool} {l l' : Link} {es : List Event} {ms : List Msg} (a : Msg) (rest : List Msg)
      → l.ack_channel ≡ a ∷ rest
      → l.sender.is_complete ≡ true
      → a.type ≡ MsgType.ack
      → Downloads server w (record l { ack_channel = rest }) es ms l' w'
      → Downloads server w l es (a ∷ ms) l' w'
  ignored :
      {w w' : Bool} {l l' : Link} {es : List Event} {ms : List Msg} (m : Msg)
      → is_ack m.type ≡ false
      → l.sender.is_complete ≡ false
      → Downloads server w l es ms l' w'
      → Downloads server w l es (m ∷ ms) l' w'

inner-silent :
    {l l' : Link} (step : Step l l') → is_inner step ≡ true → Session.is_silent step ≡ true
inner-silent (transmit f m known e) h = refl
inner-silent (lose_data m rest e) h = refl
inner-silent (lose_ack m rest e) h = refl
inner-silent (deliver m rest e open_) h = h
inner-silent (deliver_late m rest e over) h = h
inner-silent (acknowledge a rest s e open_ q) h = refl

-- The client's side of it.
pub Downloads-Feeds :
    {server : ℤ} {w w' : Bool} {l l' : Link} {es : List Event} {ms : List Msg}
    → Downloads server w l es ms l' w'
    → Feeds server l es
Downloads-Feeds closed = Session.closed
Downloads-Feeds (timed_out more) = Session.timed_out (Downloads-Feeds more)
Downloads-Feeds (other m alien more) = Session.other m alien (Downloads-Feeds more)
Downloads-Feeds (works step inner more) =
    Session.works step (inner-silent step inner) (Downloads-Feeds more)
Downloads-Feeds (arrives m rest e open_ more) =
    Session.arrives m rest e open_ (Downloads-Feeds more)
Downloads-Feeds (arrives_late m rest e late more) =
    Session.arrives_late m rest e late (Downloads-Feeds more)
Downloads-Feeds (acked a rest s e open_ q type more) =
    Session.works (acknowledge a rest s e open_ q) refl (Downloads-Feeds more)
Downloads-Feeds (acked_late a rest e late type more) =
    Session.works (lose_ack a rest e) refl (Downloads-Feeds more)
Downloads-Feeds (ignored m type open_ more) = Downloads-Feeds more

-- It is a run of the link.
pub Downloads-Reach :
    {server : ℤ} {w w' : Bool} {start l l' : Link} {es : List Event} {ms : List Msg}
    → Downloads server w l es ms l' w'
    → Reach start l
    → Reach start l'
Downloads-Reach closed h = h
Downloads-Reach (timed_out more) h = Downloads-Reach more h
Downloads-Reach (other m alien more) h = Downloads-Reach more h
Downloads-Reach (works step inner more) h = Downloads-Reach more (next h step)
Downloads-Reach (arrives m rest e open_ more) h =
    Downloads-Reach more (next h (deliver m rest e open_))
Downloads-Reach (arrives_late m rest e late more) h =
    Downloads-Reach more (next h (deliver_late m rest e late))
Downloads-Reach (acked a rest s e open_ q type more) h =
    Downloads-Reach more (next h (acknowledge a rest s e open_ q))
Downloads-Reach (acked_late a rest e late type more) h =
    Downloads-Reach more (next h (lose_ack a rest e))
Downloads-Reach (ignored m type open_ more) h = Downloads-Reach more h

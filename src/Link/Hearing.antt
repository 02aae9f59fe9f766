-- ===== src/Link/Hearing.antt =====
-- The socket of a client that uploads, as a run of the link fills it.
use mathlib.Core.Bool.{true≢false}
use comp6461_assignment.Base.{◌≡◌, refl, sym, ◌∙◌, Bool, true, false, some, List, [], ◌∷◌, ◌++◌}
use comp6461_assignment.Base.Int.{ℤ}
use comp6461_assignment.Message.{Msg}
use comp6461_assignment.Sender.{Sender, process_ack}
use comp6461_assignment.FtpClient.Defs.{Event, got, silent}
use comp6461_assignment.FtpClient.Uploads.{is_ack_from}
use comp6461_assignment.Link.{
  Link, Step, transmit, lose_data, lose_ack, deliver, deliver_late, acknowledge, Reach, here, next,
}
use comp6461_assignment.Link.Origin.{IsFrom, Reach-IsFrom, ack_from}

-- A step of the receiver or of the network, or a pass of a worker: not a call of processAck.
abbrev pub is_unheard : {l l' : Link} → Step l l' → Bool
is_unheard (transmit f m known e) = true
is_unheard (lose_data m rest e) = true
is_unheard (lose_ack m rest e) = true
is_unheard (deliver m rest e open_) = true
is_unheard (deliver_late m rest e over) = true
is_unheard (acknowledge a rest s e open_ q) = false

-- What the socket gives in a run of the link: the acknowledgements of the thread, as the network delivers
-- them, other messages, and time-outs, at any time. Once the payload is sent, nothing is read any more.
pub data Hears (server : ℤ) : Link → List Event → Link → Type 0 where
  closed : {l : Link} → Hears server l [] l
  timed_out :
      {l l' : Link} {es : List Event} → Hears server l es l' → Hears server l (silent ∷ es) l'
  other :
      {l l' : Link} {es : List Event} (m : Msg)
      → is_ack_from server m ≡ false
      → Hears server l es l'
      → Hears server l (got m ∷ es) l'
  unread :
      {l l' : Link} {es : List Event} (m : Msg)
      → l.sender.is_complete ≡ true
      → Hears server l es l'
      → Hears server l (got m ∷ es) l'
  works :
      {l l' l'' : Link} {es : List Event} (step : Step l l')
      → is_unheard step ≡ true
      → Hears server l' es l''
      → Hears server l es l''
  acked :
      {l l' : Link} {es : List Event} (a : Msg) (rest : List Msg) (s : Sender)
      → l.ack_channel ≡ a ∷ rest
      → l.sender.is_complete ≡ false
      → process_ack l.sender a ≡ some s
      → is_ack_from server a ≡ true
      → Hears server (record l { sender = s; ack_channel = rest }) es l'
      → Hears server l (got a ∷ es) l'

pub unheard-sender :
    {l l' : Link} (step : Step l l') → is_unheard step ≡ true → l'.sender ≡ l.sender
unheard-sender (transmit f m known e) h = refl
unheard-sender (lose_data m rest e) h = refl
unheard-sender (lose_ack m rest e) h = refl
unheard-sender (deliver m rest e open_) h = refl
unheard-sender (deliver_late m rest e over) h = refl
unheard-sender (acknowledge a rest s e open_ q) h = absurd (true≢false (sym h))

-- The receiver stays complete.
Step-complete :
    {l l' : Link} → Step l l' → l.receiver.is_complete ≡ true → l'.receiver.is_complete ≡ true
Step-complete (transmit f m known e) h = h
Step-complete (lose_data m rest e) h = h
Step-complete (lose_ack m rest e) h = h
Step-complete (deliver m rest e open_) h = absurd (true≢false (sym h ∙ open_))
Step-complete (deliver_late m rest e over) h = h
Step-complete (acknowledge a rest s e open_ q) h = h

-- A run, as the socket hears it, is a run of the link.
pub Hears-Reach :
    {server : ℤ} {start l l' : Link} {es : List Event}
    → Hears server l es l'
    → Reach start l
    → Reach start l'
Hears-Reach closed h = h
Hears-Reach (timed_out more) h = Hears-Reach more h
Hears-Reach (other m alien more) h = Hears-Reach more h
Hears-Reach (unread m e more) h = Hears-Reach more h
Hears-Reach (works step e more) h = Hears-Reach more (next h step)
Hears-Reach (acked a rest s e open_ q ours more) h =
    Hears-Reach more (next h (acknowledge a rest s e open_ q))

pub Hears-complete :
    {server : ℤ} {l l' : Link} {es : List Event}
    → Hears server l es l'
    → l.receiver.is_complete ≡ true
    → l'.receiver.is_complete ≡ true
Hears-complete closed h = h
Hears-complete (timed_out more) h = Hears-complete more h
Hears-complete (other m alien more) h = Hears-complete more h
Hears-complete (unread m e more) h = Hears-complete more h
Hears-complete (works step e more) h = Hears-complete more (Step-complete step h)
Hears-complete (acked a rest s e open_ q ours more) h = Hears-complete more h

pub Hears-trans :
    {server : ℤ} {l l' l'' : Link} {es fs : List Event}
    → Hears server l es l'
    → Hears server l' fs l''
    → Hears server l (es ++ fs) l''
Hears-trans closed k = k
Hears-trans (timed_out more) k = timed_out (Hears-trans more k)
Hears-trans (other m alien more) k = other m alien (Hears-trans more k)
Hears-trans (unread m e more) k = unread m e (Hears-trans more k)
Hears-trans (works step e more) k = works step e (Hears-trans more k)
Hears-trans (acked a rest s e open_ q ours more) k =
    acked a rest s e open_ q ours (Hears-trans more k)

-- What the socket hears in a run.
pub Reach-Hears :
    (server : ℤ) {l l' l'' : Link} (es : List Event)
    → IsFrom server l
    → Reach l l'
    → Hears server l' es l''
    → (es' : List Event) × Hears server l es' l''
Reach-Hears server es h here k = (es, k)
Reach-Hears server es h (next more (transmit f m known e)) k =
    Reach-Hears server es h more (works (transmit f m known e) refl k)
Reach-Hears server es h (next more (lose_data m rest e)) k =
    Reach-Hears server es h more (works (lose_data m rest e) refl k)
Reach-Hears server es h (next more (lose_ack m rest e)) k =
    Reach-Hears server es h more (works (lose_ack m rest e) refl k)
Reach-Hears server es h (next more (deliver m rest e open_)) k =
    Reach-Hears server es h more (works (deliver m rest e open_) refl k)
Reach-Hears server es h (next more (deliver_late m rest e over)) k =
    Reach-Hears server es h more (works (deliver_late m rest e over) refl k)
Reach-Hears server es h (next {l = mid} more (acknowledge a rest s e open_ q)) k =
    Reach-Hears server (got a ∷ es) h more
      (acked a rest s e open_ q (ack_from server mid a rest (Reach-IsFrom server more h) e) k)

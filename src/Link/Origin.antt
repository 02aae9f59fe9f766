-- ===== src/Link/Origin.antt =====
-- The acknowledgements on a link are those of the server that the client talks to.
use mathlib.Core.Path.{subst}
use comp6461_assignment.Base.{
  ℕ, zero, suc, ◌≡◌, refl, sym, ◌∙◌, ◌⊎◌, inl, inr, true, List, [], ◌∷◌, ◌++◌, arith, Option-cases,
}
use comp6461_assignment.Base.Int.{ℤ, ==ℤ_iff}
use comp6461_assignment.Message.{Msg, MsgType, sequence_range}
use comp6461_assignment.Receiver.{
  Receiver, handle_msg, handle_eof, register, normalize, ack_msg, current_sequence, advance, store,
}
use comp6461_assignment.ServerThread.Run.{is_ack}
use comp6461_assignment.FtpClient.Uploads.{is_ack_from}
use comp6461_assignment.Link.{
  Link, Step, transmit, lose_data, lose_ack, deliver, deliver_late, acknowledge, Reach, here, next,
}

normalize-server : (fuel : ℕ) (r : Receiver) → (normalize fuel r).server_id ≡ r.server_id
unfolding normalize
normalize-server zero r = refl
normalize-server (suc fuel) r = elim (Option-cases (r.current_window (current_sequence r))) [
  | inl e ↦ rw (e, normalize) refl
  | inr (p, e) ↦ rw (e, normalize) (normalize-server fuel (advance r p))
]

register-server : (r : Receiver) (m : Msg) → (register r m).receiver.server_id ≡ r.server_id
unfolding register
register-server r m = ground (arith, normalize-server sequence_range (store r m))

handle_msg-server : (r : Receiver) (m : Msg) → (handle_msg r m).receiver.server_id ≡ r.server_id
unfolding handle_msg handle_eof
handle_msg-server r m = ground (arith, register-server r m)

-- What handleMsg sends, if it sends anything.
handle_msg-sent :
    (r : Receiver) (m : Msg)
    → ((handle_msg r m).sent ≡ []) ⊎ ((handle_msg r m).sent ≡ ack_msg r m.sequence_number ∷ [])
unfolding handle_msg handle_eof register
handle_msg-sent r m = ground arith

abbrev pub AllFrom : ℤ → List Msg → Type 0
AllFrom server [] = Unit
AllFrom server (a ∷ acks) = (is_ack_from server a ≡ true) × AllFrom server acks

AllFrom-++ :
    (server : ℤ) (xs ys : List Msg)
    → AllFrom server xs
    → AllFrom server ys
    → AllFrom server (xs ++ ys)
AllFrom-++ server [] ys h k = k
AllFrom-++ server (x ∷ xs) ys (h, hs) k = (h, AllFrom-++ server xs ys hs k)

-- The receiver and the acknowledgements on their way bear the server's number.
pub record IsFrom (server : ℤ) (l : Link) : Type 0 where
  pub receiver : l.receiver.server_id ≡ server
  pub acks : AllFrom server l.ack_channel

ack-AllFrom :
    (server : ℤ) (r : Receiver) (k : ℕ) → r.server_id ≡ server → AllFrom server (ack_msg r k ∷ [])
ack-AllFrom server r k same = (rw (same, (==ℤ_iff server server).1 refl) refl, tt)

sent-AllFrom :
    (server : ℤ) (r : Receiver) (m : Msg)
    → r.server_id ≡ server
    → AllFrom server (handle_msg r m).sent
sent-AllFrom server r m same = elim (handle_msg-sent r m) [
  | inl e ↦ subst (AllFrom server) (sym e) tt
  | inr e ↦ subst (AllFrom server) (sym e) (ack-AllFrom server r m.sequence_number same)
]

rest-AllFrom :
    (server : ℤ) (acks rest : List Msg) (a : Msg)
    → acks ≡ a ∷ rest
    → AllFrom server acks
    → (is_ack_from server a ≡ true) × AllFrom server rest
rest-AllFrom server acks rest a e h = subst (AllFrom server) e h

pub Step-IsFrom : (server : ℤ) {l l' : Link} → Step l l' → IsFrom server l → IsFrom server l'
Step-IsFrom server (transmit f m known e) h = record { receiver = h.receiver; acks = h.acks }
Step-IsFrom server (lose_data m rest e) h = record { receiver = h.receiver; acks = h.acks }
Step-IsFrom server {l} (lose_ack m rest e) h = record {
  receiver = h.receiver;
  acks = (rest-AllFrom server l.ack_channel rest m e h.acks).1;
}
Step-IsFrom server {l} (deliver m rest e open_) h = record {
  receiver = handle_msg-server l.receiver m ∙ h.receiver;
  acks =
      AllFrom-++ server l.ack_channel (handle_msg l.receiver m).sent h.acks
        (sent-AllFrom server l.receiver m h.receiver);
}
Step-IsFrom server {l} (deliver_late m rest e over) h = record {
  receiver = h.receiver;
  acks =
      AllFrom-++ server l.ack_channel (ack_msg l.receiver m.sequence_number ∷ []) h.acks
        (ack-AllFrom server l.receiver m.sequence_number h.receiver);
}
Step-IsFrom server {l} (acknowledge a rest s e open_ q) h = record {
  receiver = h.receiver;
  acks = (rest-AllFrom server l.ack_channel rest a e h.acks).1;
}

pub Reach-IsFrom : (server : ℤ) {l l' : Link} → Reach l l' → IsFrom server l → IsFrom server l'
Reach-IsFrom server here h = h
Reach-IsFrom server (next more step) h = Step-IsFrom server step (Reach-IsFrom server more h)

pub ack_from :
    (server : ℤ) (l : Link) (a : Msg) (rest : List Msg)
    → IsFrom server l
    → l.ack_channel ≡ a ∷ rest
    → is_ack_from server a ≡ true
ack_from server l a rest h e = (rest-AllFrom server l.ack_channel rest a e h.acks).0

is_ack-eq : (type : MsgType) → is_ack type ≡ true → type ≡ MsgType.ack
is_ack-eq MsgType.ack h = refl
is_ack-eq MsgType.resp h = cc (h)
is_ack-eq MsgType.resp_err h = cc (h)
is_ack-eq MsgType.handshake h = cc (h)
is_ack-eq MsgType.get_list h = cc (h)
is_ack-eq MsgType.get_file h = cc (h)
is_ack-eq MsgType.put h = cc (h)
is_ack-eq MsgType.post h = cc (h)
is_ack-eq MsgType.terminate h = cc (h)
is_ack-eq (MsgType.other k) h = cc (h)

-- Whatever is on its way to the sender is an acknowledgement.
pub ack_typed :
    (server : ℤ) (l : Link) (a : Msg) (rest : List Msg)
    → IsFrom server l
    → l.ack_channel ≡ a ∷ rest
    → a.type ≡ MsgType.ack
ack_typed server l a rest h e =
    let ours = ack_from server l a rest h e in is_ack-eq a.type (ground (arith, ours))

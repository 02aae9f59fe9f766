-- ===== src/Link/Session.antt =====
-- A client's socket, when the thread that serves it sends over a network that loses messages:
-- FtpOverUdp/UdpClient/FtpClient.cpp on one side, FtpOverUdp/UdpServer/ServerThread.cpp on the other.
use mathlib.Core.Path.{subst}
use mathlib.Core.Bool.{true≢false}
use comp6461_assignment.Base.{
  ℕ, ◌≤◌, ◌≡◌, refl, sym, inl, inr, Bool, true, false, List, [], ◌∷◌, ◌++◌, arith,
}
use comp6461_assignment.Base.Int.{ℤ, ==ℤ_iff}
use comp6461_assignment.Message.{Msg}
use comp6461_assignment.Sender.{Job}
use comp6461_assignment.Receiver.{Receiver, handle_msg, ack_msg}
use comp6461_assignment.Receiver.Packet.{Settled}
use comp6461_assignment.Receiver.Store.{IsPacket}
use comp6461_assignment.FtpClient.Defs.{Event, got, silent}
use comp6461_assignment.FtpClient.Responses.{is_transfer, after, after-transfer}
use comp6461_assignment.FtpClient.Downloads.{Fits, packet, eof, Fed}
use comp6461_assignment.Link.Packets.{IsFormed, chunk, packet_msg-IsPacket, eof_msg-IsEof}
use comp6461_assignment.Link.Flow.{Flow, Flow-le}
use comp6461_assignment.Link.{
  Link, Step, transmit, lose_data, lose_ack, deliver, deliver_late, acknowledge,
}
use comp6461_assignment.Link.Invariant.{Carries, Agree, receiver-near, receiver-ahead}
use comp6461_assignment.Link.Run.{Agreed, Step-Agree}

-- A step of the sender or of the network, not of the receiver.
abbrev pub is_silent : {l l' : Link} → Step l l' → Bool
is_silent (transmit f m known e) = true
is_silent (lose_data m rest e) = true
is_silent (lose_ack m rest e) = true
is_silent (deliver m rest e open_) = false
is_silent (deliver_late m rest e done) = false
is_silent (acknowledge a rest s e open_ q) = true

-- What the socket gives from a state of the link on: the messages of the thread, as the network delivers
-- them, other messages, and time-outs, at any time.
pub data Feeds (server : ℤ) : Link → List Event → Type 0 where
  closed : {l : Link} → Feeds server l []
  timed_out : {l : Link} {es : List Event} → Feeds server l es → Feeds server l (silent ∷ es)
  other :
      {l : Link} {es : List Event} (m : Msg)
      → is_transfer server m ≡ false
      → Feeds server l es
      → Feeds server l (got m ∷ es)
  works :
      {l l' : Link} {es : List Event} (step : Step l l')
      → is_silent step ≡ true
      → Feeds server l' es
      → Feeds server l es
  arrives :
      {l : Link} {es : List Event} (m : Msg) (rest : List Msg)
      → l.data_channel ≡ m ∷ rest
      → l.receiver.is_complete ≡ false
      → Feeds server
          (record l {
            data_channel = rest;
            receiver = (handle_msg l.receiver m).receiver;
            ack_channel = l.ack_channel ++ (handle_msg l.receiver m).sent;
          })
          es
      → Feeds server l (got m ∷ es)
  arrives_late :
      {l : Link} {es : List Event} (m : Msg) (rest : List Msg)
      → l.data_channel ≡ m ∷ rest
      → l.receiver.is_complete ≡ true
      → Feeds server
          (record l {
            data_channel = rest;
            ack_channel = l.ack_channel ++ ack_msg l.receiver m.sequence_number ∷ [];
          })
          es
      → Feeds server l (got m ∷ es)

pub silent-receiver :
    {l l' : Link} (step : Step l l') → is_silent step ≡ true → l'.receiver ≡ l.receiver
silent-receiver (transmit f m known e) h = refl
silent-receiver (lose_data m rest e) h = refl
silent-receiver (lose_ack m rest e) h = refl
silent-receiver (deliver m rest e open_) h = absurd (true≢false (sym h))
silent-receiver (deliver_late m rest e done) h = absurd (true≢false (sym h))
silent-receiver (acknowledge a rest s e open_ q) h = refl

pub after_complete :
    (server : ℤ) (m : Msg) (r : Receiver) → r.is_complete ≡ true → after server m r ≡ r
after_complete server m r done = ground (arith, done)

module _ (job : Job) (formed : IsFormed job) where
  open job use {number_of_packets as n, sequence_seed as seed}

  Carries-transfer : (b : ℕ) (m : Msg) → Carries job b m → is_transfer job.server_id m ≡ true
  Carries-transfer b m (inl (k, x, y, z, q)) =
      rw (q, (==ℤ_iff job.server_id job.server_id).1 refl) refl
  Carries-transfer b m (inr (x, q)) = rw (q, (==ℤ_iff job.server_id job.server_id).1 refl) refl

  module _ (la lo : ℕ) (l : Link) (v : Agree job la lo l) (m : Msg) (rest : List Msg) (b : ℕ)
      (flow : Flow (Carries job) b l.sender.current_window_origin rest) (le : lo ≤ b) where
    Carries-Fits :
        Carries job b m
        → Settled n seed (chunk job) l.receiver
        → Fits n seed (chunk job) l.receiver m
    Carries-Fits (inl (k, x, y, z, q)) h =
        packet k
          (subst (IsPacket n seed (chunk job) k) (sym q) (packet_msg-IsPacket job formed k z))
          (omega (arith, receiver-near job la lo l v h))
          (omega (
            arith,
            receiver-ahead job la lo l v h,
            Flow-le (Carries job) b l.sender.current_window_origin rest flow,
          ))
    Carries-Fits (inr (x, q)) h = rw q (eof (eof_msg-IsEof job formed) refl)

  pub arrival :
      (l : Link) (m : Msg) (rest : List Msg)
      → Agreed job l
      → l.data_channel ≡ m ∷ rest
      → is_transfer job.server_id m ≡ true
        × (l.receiver.is_complete ≡ false → Fits n seed (chunk job) l.receiver m)
  arrival l m rest (la, lo, v) e =
      let (b, le, carries, flow) =
        subst (Flow (Carries job) lo l.sender.current_window_origin) e v.to_receiver in
      (
        Carries-transfer b m carries,
        λ open_. elim v.receiving [
          | inl (h, _) ↦ Carries-Fits la lo l v m rest b flow le carries h
          | inr c ↦ cc (c.flag, open_)
        ],
      )

  -- What the socket gives is what the client's methods can take.
  pub Feeds-Fed :
      {l : Link} {es : List Event}
      → Agreed job l
      → Feeds job.server_id l es
      → Fed n seed (chunk job) job.server_id es l.receiver
  Feeds-Fed v closed = tt
  Feeds-Fed v (timed_out more) = Feeds-Fed v more
  Feeds-Fed {l} v (other {es = es} m alien more) =
      (λ open_ ours. cc (ours, alien), rw alien (Feeds-Fed v more))
  Feeds-Fed v (works {es = es} step quiet more) =
      subst (Fed n seed (chunk job) job.server_id es) (silent-receiver step quiet)
        (Feeds-Fed (Step-Agree job formed step v) more)
  Feeds-Fed {l} v (arrives {es = es} m rest e open_ more) =
      let (ours, fits) = arrival l m rest v e in
      (
        λ o t. fits o,
        subst (Fed n seed (chunk job) job.server_id es)
            (sym (after-transfer job.server_id m l.receiver ours open_))
            (Feeds-Fed (Step-Agree job formed (deliver m rest e open_) v) more),
      )
  Feeds-Fed {l} v (arrives_late {es = es} m rest e done more) = (
    λ open_ t. cc (open_, done),
    subst (Fed n seed (chunk job) job.server_id es)
        (sym (after_complete job.server_id m l.receiver done))
        (Feeds-Fed (Step-Agree job formed (deliver_late m rest e done) v) more),
  )

-- ===== src/Link/Liveness.antt =====
-- From every state of a link the transfer can still be completed.
use mathlib.Core.Path.{subst}
use native.Mathlib.Decide.{dec_lt}
use comp6461_assignment.Base.{
  ℕ, zero, suc, ◌+◌, ◌≤◌, ◌<◌, ◌≡◌, refl, inl, inr, true, false, ◌||◌, ◌==◌, List, [], ◌∷◌, arith,
  length, Bool-cases,
}
use comp6461_assignment.Message.{Msg}
use comp6461_assignment.Sender.{Sender, Job, packet_msg, eof_msg, is_payload_sent}
use comp6461_assignment.Sender.Ack.{
  Sending, Ending, Acknowledges, is_acknowledged, process_ack-Acknowledges,
}
use comp6461_assignment.Sender.Passes.{run_pass-unacknowledged, run_pass-eof, process_ack-eof}
use comp6461_assignment.Receiver.{Receiver, handle_msg, ack_msg, get_payload, assembled}
use comp6461_assignment.Receiver.Packet.{handle_msg-Takes}
use comp6461_assignment.Receiver.Completion.{eof-Complete}
use comp6461_assignment.Link.{
  Link, transmit, lose_data, lose_ack, deliver, deliver_late, acknowledge, start_link, Reach, here,
  next,
}
use comp6461_assignment.Link.Packets.{
  IsFormed, chunk, packet_size-pos, packet_msg-IsPacket, eof_msg-IsEof,
}
use comp6461_assignment.Link.Invariant.{receiver-near, receiver-ahead, below-acknowledged}
use comp6461_assignment.Link.Run.{Agreed, Reach-Agree}
use comp6461_assignment.Link.Safety.{IsGiven, formed, start-Agreed, link_exact, link_sent}

-- The network may lose all that is on its way.
lose_all_data :
    {start : Link} (ms : List Msg) (l : Link)
    → l.data_channel ≡ ms
    → Reach start l
    → Reach start (record l { data_channel = [] })
lose_all_data {start} [] l e h =
    subst (λ (d : List Msg). Reach start (record l { data_channel = d })) e h
lose_all_data (m ∷ ms) l e h =
    lose_all_data ms (record l { data_channel = ms }) refl (next h (lose_data m ms e))

lose_all_acks :
    {start : Link} (ms : List Msg) (l : Link)
    → l.ack_channel ≡ ms
    → Reach start l
    → Reach start (record l { ack_channel = [] })
lose_all_acks {start} [] l e h =
    subst (λ (d : List Msg). Reach start (record l { ack_channel = d })) e h
lose_all_acks (m ∷ ms) l e h =
    lose_all_acks ms (record l { ack_channel = ms }) refl (next h (lose_ack m ms e))

-- A link with nothing on its way.
abbrev calm : Sender → Receiver → Link
calm s r = record { sender = s; receiver = r; data_channel = []; ack_channel = [] }

-- One message on its way, and then one acknowledgement.
abbrev asked : Sender → Receiver → Msg → Link
asked s r m = record (calm s r) { data_channel = m ∷ [] }

abbrev answered : Sender → Receiver → Msg → Link
answered s r a = record (calm s r) { ack_channel = a ∷ [] }

module _ (job : Job) (whole : IsFormed job) where
  open job use {number_of_packets as n, sequence_seed as seed}

  -- A receiver that is not complete answers what the sender sends with its number.
  reply-sent :
      (s : Sender) (r : Receiver) (m : Msg)
      → Agreed job (asked s r m)
      → r.is_complete ≡ false
      → (handle_msg r m).sent ≡ ack_msg r m.sequence_number ∷ []
  reply-sent s r m (la, lo, v) open_ =
      let (b, le, carries, flow) = v.to_receiver in
      elim v.receiving [
        | inr c ↦ cc (c.flag, open_)
        | inl (h, _) ↦ elim carries [
          | inl (k, x, y, z, q) ↦
              rw q
                (handle_msg-Takes n seed (chunk job) r h k (packet_msg job k)
                  (packet_msg-IsPacket job whole k z)
                  (omega (arith, receiver-near job la lo (asked s r m) v h))
                  (omega (arith, receiver-ahead job la lo (asked s r m) v h, flow))).sent
          | inr (x, q) ↦
              rw q
                (eof-Complete n seed (chunk job) (packet_size-pos job whole) r h (eof_msg job)
                  (eof_msg-IsEof job whole)
                  (omega
                    (arith, receiver-ahead job la lo (asked s r m) v h, flow, h.holds.bounded))).1
        ]
      ]

  exchange :
      {start : Link} (s : Sender) (r : Receiver) (m : Msg)
      → Agreed job (asked s r m)
      → Reach start (asked s r m)
      → (r' : Receiver) × (a : Msg) × (a.sequence_number ≡ m.sequence_number)
        × Reach start (answered s r' a)
  exchange {start} s r m v h = elim (Bool-cases r.is_complete) [
    | inl over ↦ (r, ack_msg r m.sequence_number, refl, next h (deliver_late m [] refl over))
    | inr open_ ↦ (
      (handle_msg r m).receiver,
      ack_msg r m.sequence_number,
      refl,
      subst
          (λ (acks : List Msg).
            Reach start (record (calm s (handle_msg r m).receiver) { ack_channel = acks }))
          (reply-sent s r m v open_) (next h (deliver m [] refl open_)),
    )
  ]

  module _ {start : Link} (v : Agreed job start) where
    -- The first packet that is left is sent, taken in, and acknowledged.
    advance_one :
        (s : Sender) (r : Receiver)
        → Sending job s
        → Reach start (calm s r)
        → (s' : Sender) × (r' : Receiver) × Acknowledges job s s.current_window_origin s'
          × Reach start (calm s' r')
    advance_one s r h reach =
        let o = s.current_window_origin in
        let (f, known, e) =
          run_pass-unacknowledged job s o h (omega arith) (omega arith) h.unfinished
            (ground (arith, h.first)) in
        let sent = next reach (transmit f (packet_msg job o) known e) in
        let (r', a, number, back) =
          exchange s r (packet_msg job o) (Reach-Agree job whole v sent) sent in
        let (s', q, progress) =
          process_ack-Acknowledges job s h o (omega arith) (omega arith) h.unfinished a number in
        (s', r', progress, next back (acknowledge a [] s' refl h.incomplete q))

    finish_one :
        (s : Sender) (r : Receiver)
        → Ending job s
        → Reach start (calm s r)
        → (l' : Link) × Reach start l' × (is_payload_sent l'.sender ≡ true)
    finish_one s r h reach =
        let sent = next reach (transmit h.eof (eof_msg job) h.known (run_pass-eof job s h)) in
        let (r', a, number, back) =
          exchange s r (eof_msg job) (Reach-Agree job whole v sent) sent in
        let (s', q, over, _, _) = process_ack-eof job s h a number in
        (calm s' r', next back (acknowledge a [] s' refl h.incomplete q), over)

    further :
        (s s' : Sender) (r : Receiver)
        → Agreed job (calm s r)
        → Sending job s'
        → ((j : ℕ)
            → is_acknowledged job s' j ≡ (is_acknowledged job s j || j == s.current_window_origin))
        → s.current_window_origin < s'.current_window_origin
    further s s' r (la, lo, w) h q =
        elim (dec_lt s.current_window_origin s'.current_window_origin) [
          | yes p ↦ p
          | no p ↦ ground (
            arith,
            h.first,
            q s'.current_window_origin,
            below-acknowledged job la lo (calm s r) w s'.current_window_origin,
          )
        ]

    complete_calm :
        (fuel : ℕ) (s : Sender) (r : Receiver)
        → n ≤ s.current_window_origin + fuel
        → Reach start (calm s r)
        → (l' : Link) × Reach start l' × (is_payload_sent l'.sender ≡ true)
    unfolding is_payload_sent
    complete_calm zero s r enough reach =
        let (la, lo, w) = Reach-Agree job whole v reach in
        elim w.sending [
          | inr (inl h) ↦ finish_one s r h reach
          | inr (inr h) ↦ (calm s r, reach, h.complete)
          | inl h ↦ absurd (omega (arith, h.unfinished))
        ]
    complete_calm (suc fuel) s r enough reach =
        let (la, lo, w) = Reach-Agree job whole v reach in
        elim w.sending [
          | inr (inl h) ↦ finish_one s r h reach
          | inr (inr h) ↦ (calm s r, reach, h.complete)
          | inl h ↦
              let (s', r', progress, reach') = advance_one s r h reach in
              elim progress [
                | inl (h', q) ↦
                    complete_calm fuel s' r' (omega (arith, further s s' r (la, lo, w) h' q)) reach'
                | inr (h', q) ↦ finish_one s' r' h' reach'
              ]
        ]

pub Reach-trans : {a b c : Link} → Reach a b → Reach b c → Reach a c
Reach-trans h here = h
Reach-trans h (next more step) = next (Reach-trans h more) step

pub link_completes :
    (bytes : List ℕ) (seed : ℕ) (s : Sender) (r : Receiver) (l : Link)
    → IsGiven bytes seed s
    → Reach (start_link s r) l
    → (l' : Link) × Reach l l'
      × (is_payload_sent l'.sender ≡ true)
      × (get_payload l'.receiver
          ≡ assembled
              (record { length = length bytes; contents = bytes })
              (record l'.receiver { completed_set = [] }))
link_completes bytes seed s r l g reach =
    let (l', onward, sent) =
      complete_calm s.job (formed bytes seed s g r)
        (Reach-Agree s.job (formed bytes seed s g r) (start-Agreed bytes seed s g r) reach)
        s.number_of_packets l.sender l.receiver (omega arith)
        (lose_all_acks l.ack_channel (record l { data_channel = [] }) refl
          (lose_all_data l.data_channel l refl here)) in
    let all = Reach-trans reach onward in
    (
      l',
      onward,
      sent,
      link_exact bytes seed s g r l' all (link_sent bytes seed s g r l' all sent).0,
    )

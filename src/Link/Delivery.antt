-- ===== src/Link/Delivery.antt =====
-- A message of the sender reaches the receiver.
use comp6461_assignment.Base.{
  ℕ, ◌+◌, ◌≤◌, ◌<◌, ◌≡◌, refl, ◌∙◌, inl, inr, true, false, List, [], ◌∷◌, ◌++◌, arith,
}
use mathlib.Core.Path.{subst}
use comp6461_assignment.Message.{Msg, window_size, returned}
use comp6461_assignment.Sender.{Job, packet_msg, eof_msg}
use comp6461_assignment.Receiver.{Receiver, handle_msg, ack_msg}
use comp6461_assignment.Receiver.Packet.{Settled, handle_msg-Takes}
use comp6461_assignment.Receiver.Completion.{Complete, eof-Complete}
use comp6461_assignment.Receiver.Transfer.{Inv}
use comp6461_assignment.Link.Packets.{
  IsFormed, chunk, packet_size-pos, packet_msg-IsPacket, eof_msg-IsEof,
}
use comp6461_assignment.Link.Flow.{Flow, Flow-le, Flow-append, Flow-map}
use comp6461_assignment.Link.{Link}
use comp6461_assignment.Link.Invariant.{
  taken, Carries, Answers, Agree, receiver-near, receiver-ahead,
}

module _ (job : Job) (formed : IsFormed job) (la lo : ℕ) (l : Link) (v : Agree job la lo l) where
  open job use {number_of_packets as n, sequence_seed as seed}
  open l use {sender as s, receiver as r}

  module _ (b : ℕ) (m : Msg) (rest : List Msg) (le : lo ≤ b)
      (flow : Flow (Carries job) b s.current_window_origin rest) where
    behind : b ≤ s.current_window_origin
    behind = Flow-le (Carries job) b s.current_window_origin rest flow

    -- An answer stays one while the receiver goes on.
    Answers-mono :
        (r' : Receiver)
        → ((j : ℕ) → taken job r j ≡ true → taken job r' j ≡ true)
        → (r.is_complete ≡ true → r'.is_complete ≡ true)
        → (c : ℕ) (a : Msg) → Answers job r c a
        → Answers job r' c a
    Answers-mono r' more done c a (inl (k, x, y, z, q, t)) = inl (k, x, y, z, q, more k t)
    Answers-mono r' more done c a (inr (x, q, t)) = inr (x, q, done t)

    -- What a delivery leaves: the receiver has moved on to r', and answers the message.
    delivered :
        (r' : Receiver) (a : Msg)
        → Inv n seed (chunk job) r'
        → ((j : ℕ) → taken job r j ≡ true → taken job r' j ≡ true)
        → (r.is_complete ≡ true → r'.is_complete ≡ true)
        → ((j : ℕ) → taken job r' j ≡ true → j < n → j < b + window_size)
        → Answers job r' b a
        → Agree job la b
            (record l { data_channel = rest; receiver = r'; ack_channel = l.ack_channel ++ a ∷ [] })
    delivered r' a inv more done near answer = record {
      receiving = inv;
      sending = v.sending;
      to_receiver = flow;
      to_sender =
          Flow-append (Answers job r') la lo b l.ack_channel a
            (Flow-map (Answers job r) (Answers job r') la lo l.ack_channel
              (Answers-mono r' more done) v.to_sender)
            le answer;
      near_receiver = near;
      near_sender = v.near_sender;
      agreed = λ j p q. more j (v.agreed j p q);
      finished = λ e. done (v.finished e);
    }

    module _ (h : Settled n seed (chunk job) r) where
      deliver-packet :
          (k : ℕ)
          → r.is_complete ≡ false
          → b ≤ k
          → k < b + 3
          → k < n
          → m ≡ packet_msg job k
          → let out = handle_msg r m in
            (out.status ≡ returned)
            × Agree job la b (record l {
              data_channel = rest;
              receiver = out.receiver;
              ack_channel = l.ack_channel ++ out.sent;
            })
      deliver-packet k open_ x y z e =
          let t =
            handle_msg-Takes n seed (chunk job) r h k (packet_msg job k)
              (packet_msg-IsPacket job formed k z) (omega (arith, receiver-near job la lo l v h))
              (omega (arith, receiver-ahead job la lo l v h, behind)) in
          rw (e, t.sent)
            (
              t.status,
              delivered (handle_msg r (packet_msg job k)).receiver _
                  (inl (t.settled, t.completion ∙ open_)) (λ j q. ground (arith, t.taken j))
                  (λ q. cc q) (λ j q p. ground (arith, t.taken j, v.near_receiver j))
                  (inl (k, x, y, z, refl, ground (arith, t.taken k))),
            )

      pub all_in : b ≡ n → r.window_origin ≡ n
      all_in e = omega (arith, receiver-ahead job la lo l v h, behind, h.holds.bounded)

      deliver-eof :
          b ≡ n
          → m ≡ eof_msg job
          → let out = handle_msg r m in
            (out.status ≡ returned)
            × Agree job la b (record l {
              data_channel = rest;
              receiver = out.receiver;
              ack_channel = l.ack_channel ++ out.sent;
            })
      deliver-eof x e =
          let (c, sent, status) =
            eof-Complete n seed (chunk job) (packet_size-pos job formed) r h (eof_msg job)
              (eof_msg-IsEof job formed) (all_in x) in
          rw (e, sent)
            (
              status,
              delivered (handle_msg r (eof_msg job)).receiver _ (inr c)
                  (λ j q. ground (arith, all_in x, c.passed, h.holds.inside j)) (λ q. c.flag)
                  (λ j q p. omega arith) (inr (x, refl, c.flag)),
            )

  -- A delivery to a receiver that is not complete returns, and keeps the agreement.
  pub deliver-Agree :
      (m : Msg) (rest : List Msg)
      → l.data_channel ≡ m ∷ rest
      → r.is_complete ≡ false
      → let out = handle_msg r m in
        (out.status ≡ returned)
        × ((lo' : ℕ) × Agree job la lo' (record l {
          data_channel = rest;
          receiver = out.receiver;
          ack_channel = l.ack_channel ++ out.sent;
        }))
  deliver-Agree m rest e open_ =
      let (b, le, carries, flow) =
        subst (Flow (Carries job) lo s.current_window_origin) e v.to_receiver in
      elim v.receiving [
        | inr c ↦ cc (c.flag)
        | inl (h, _) ↦ elim carries [
          | inl (k, x, y, z, q) ↦
              let (st, ag) = deliver-packet b m rest le flow h k open_ x y z q in (st, (b, ag))
          | inr (x, q) ↦ let (st, ag) = deliver-eof b m rest le flow h x q in (st, (b, ag))
        ]
      ]

  -- A message that reaches a complete receiver is only answered.
  pub deliver_late-Agree :
      (m : Msg) (rest : List Msg)
      → l.data_channel ≡ m ∷ rest
      → r.is_complete ≡ true
      → (lo' : ℕ) × Agree job la lo' (record l {
        data_channel = rest;
        ack_channel = l.ack_channel ++ ack_msg r m.sequence_number ∷ [];
      })
  deliver_late-Agree m rest e done =
      let (b, le, carries, flow) =
        subst (Flow (Carries job) lo s.current_window_origin) e v.to_receiver in
      elim v.receiving [
        | inl (h, open_) ↦ cc (open_)
        | inr c ↦ (
          b,
          delivered b m rest le flow r (ack_msg r m.sequence_number) (inr c) (λ j t. t) (λ d. d)
              (λ j t p. omega (arith, v.near_receiver j t p)) (answer b c carries),
        )
      ]
    where
      answer :
          (b : ℕ)
          → Complete n seed (chunk job) r
          → Carries job b m
          → Answers job r b (ack_msg r m.sequence_number)
      answer b c (inl (k, x, y, z, q)) = inl (k, x, y, z, rw q refl, ground (arith, c.passed))
      answer b c (inr (x, q)) = inr (x, rw q refl, done)

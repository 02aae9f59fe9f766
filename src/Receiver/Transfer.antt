-- ===== src/Receiver/Transfer.antt =====
-- A whole transfer as the receiver sees it: the packets arrive in any order, any number of times,
-- and the EOF message may come early. The callers (ServerThread::run in state RECEIVING,
-- FtpClient::performGet) stop calling handleMsg once the payload is complete.
use comp6461_assignment.Base.{
  ℕ, ◌+◌, ◌%◌, ◌≤◌, ◌<◌, ◌≡◌, refl, ◌∙◌, ◌⊎◌, inl, inr, true, false, [], arith,
}
use native.Mathlib.Decide.{dec_lt}
use comp6461_assignment.Message.{Msg, Payload, sequence_range}
use comp6461_assignment.Receiver.{
  Receiver, handle_msg, start_new_payload, get_payload, assembled, drain, final_sequence_number,
}
use comp6461_assignment.Receiver.Inv.{
  received, size_below, chunks_below, chunks_below-zero, size_below-zero,
}
use comp6461_assignment.Receiver.Store.{IsPacket}
use comp6461_assignment.Receiver.Packet.{Settled, handle_msg-Takes}
use comp6461_assignment.Receiver.Completion.{
  IsEof, Complete, eof-Complete, eof_early, get_payload-Complete, final_sequence_number-Complete,
}

module _ (n seed : ℕ) (chunk : ℕ → Payload) where
  -- One call of handleMsg before the payload is complete. A packet is at most four below the
  -- window's origin and not beyond the window, as a sender with the same window sends it.
  pub data Arrives (r : Receiver) : Receiver → Type 0 where
    packet :
        (k : ℕ) (msg : Msg) (r' : Receiver)
        → r.is_complete ≡ false
        → IsPacket n seed chunk k msg
        → r.window_origin ≤ k + 4
        → k < r.window_origin + 3
        → r' ≡ (handle_msg r msg).receiver
        → Arrives r r'
    eof :
        (msg : Msg) (r' : Receiver)
        → r.is_complete ≡ false
        → IsEof n seed chunk msg
        → r' ≡ (handle_msg r msg).receiver
        → Arrives r r'

  pub data Reach (start : Receiver) : Receiver → Type 0 where
    started : Reach start (start_new_payload start seed)
    then : {r r' : Receiver} → Reach start r → Arrives r r' → Reach start r'

  -- In transfer, or done.
  abbrev pub Inv : Receiver → Type 0
  Inv r = (Settled n seed chunk r × (r.is_complete ≡ false)) ⊎ Complete n seed chunk r

  pub start-Settled : (start : Receiver) → Settled n seed chunk (start_new_payload start seed)
  unfolding start_new_payload
  start-Settled start = record {
    holds = record {
      seeded = refl;
      bounded = omega arith;
      queue = ground (arith, chunks_below-zero chunk);
      inside = λ j a b. inl refl;
      outside = λ j a b. refl;
      total = omega (arith, size_below-zero chunk);
    };
    start_empty = refl;
  }

  pub start-Inv : (start : Receiver) → Inv (start_new_payload start seed)
  unfolding start_new_payload
  start-Inv start = inl (start-Settled start, refl)

  pub received-start :
      (start : Receiver) (j : ℕ) → received n seed chunk (start_new_payload start seed) j ≡ false
  unfolding start_new_payload
  received-start start j = ground arith

  module _ (positive : (j : ℕ) → j < n → 0 < (chunk j).length) where
    Arrives-Inv : {r r' : Receiver} → Arrives r r' → Inv r → Inv r'
    Arrives-Inv {r} (packet k msg r' open_ is lo hi e) (inl (s, _)) =
        let t = handle_msg-Takes n seed chunk r s k msg is lo hi in
        rw e (inl (t.settled, t.completion ∙ open_))
    Arrives-Inv {r} (eof msg r' open_ is e) (inl (s, _)) = elim (dec_lt r.window_origin n) [
      | yes early ↦ rw (e, eof_early n seed chunk positive r s msg is early) (inl (s, open_))
      | no all ↦
          rw e
            (inr (eof-Complete n seed chunk positive r s msg is (omega (arith, s.holds.bounded))).0)
    ]
    Arrives-Inv (packet k msg r' open_ is lo hi e) (inr c) = cc (c.flag)
    Arrives-Inv (eof msg r' open_ is e) (inr c) = cc (c.flag)

    Reach-Inv : {start r : Receiver} → Reach start r → Inv r
    unfolding start_new_payload
    Reach-Inv {start} started = inl (start-Settled start, refl)
    Reach-Inv (then s a) = Arrives-Inv a (Reach-Inv s)

    -- A transfer of packets that are not empty, of which each that arrives is at most four below
    -- the window's origin or in the window, in any order, with losses and repetitions, and with EOF
    -- messages at any time: once isPayloadComplete holds, getPayload gives the packets' bytes in
    -- order and the sum of their lengths, and the final sequence number is that behind the EOF
    -- message.
    pub transfer_complete :
        {start r : Receiver}
        → Reach start r
        → r.is_complete ≡ true
        → (get_payload r
            ≡ assembled
                (record { length = size_below chunk n; contents = drain (chunks_below chunk n) })
                (record r { completed_set = [] }))
          × (final_sequence_number r ≡ (seed + n + 1) % sequence_range)
    transfer_complete {r} reach done = elim (Reach-Inv reach) [
      | inl (s, open_) ↦ cc
      | inr c ↦
          (get_payload-Complete n seed chunk r c, final_sequence_number-Complete n seed chunk r c)
    ]

-- ===== src/Receiver/Completion.antt =====
-- Receiver::handleMsg on the EOF message of a transfer, and Receiver::getPayload after it.
use native.Mathlib.Numerals.{add-one}
use comp6461_assignment.Base.{
  ℕ, suc, ◌+◌, ◌%◌, ◌≤◌, ◌<◌, ◌≡◌, refl, ◌↔◌, true, false, List, [], ◌∷◌, arith, drop, ◌==◌,
  bytes_eq,
}
use comp6461_assignment.Message.{
  Msg, MsgType, Payload, returned, sequence_range, strcmp_eq, eof_text, nsf_text, c_string, int_at,
}
use comp6461_assignment.Receiver.{
  Receiver, handle_msg, handle_eof, is_eof_msg, is_nsf_msg, ack_msg, get_payload, assembled, drain,
  final_sequence_number,
}
use comp6461_assignment.Receiver.Inv.{
  slot, size_below, chunks_below, size_below-suc, size_below_mono, stored_length,
}
use comp6461_assignment.Receiver.Packet.{Settled}

module _ (n seed : ℕ) (chunk : ℕ → Payload) where
  bytes_eq-ne : (bs : List ℕ) → bytes_eq bs eof_text ≡ true → bytes_eq bs nsf_text ≡ false
  bytes_eq-ne [] h = cc
  bytes_eq-ne (b ∷ bs) h = ground arith

  -- The message that ends the transfer: it carries the size of the payload.
  pub record IsEof (msg : Msg) : Type 0 where
    pub typed : msg.type ≡ MsgType.resp_err
    pub text : strcmp_eq msg.buffer eof_text ≡ true
    pub size : int_at (drop 4 msg.buffer) ≡ size_below chunk n

  -- The whole payload is in the queue, and the window's origin has passed the EOF message.
  pub record Complete (r : Receiver) : Type 0 where
    pub flag : r.is_complete ≡ true
    pub seeded : r.sequence_seed ≡ seed
    pub queue : r.completed_set ≡ chunks_below chunk n
    pub total : r.total_payload_size ≡ size_below chunk n
    pub passed : r.window_origin ≡ n + 1

  add_two' : (o : ℕ) → o + 2 ≡ suc (suc o)
  add_two' o = omega arith

  module _ (positive : (j : ℕ) → j < n → 0 < (chunk j).length) where
    module _ (r : Receiver) (s : Settled n seed chunk r) where
      open r use {window_origin as o, current_window as w}

      -- A slot of the window counts for no more than the packet that belongs there.
      stored_length-le :
          (j : ℕ)
          → o ≤ j
          → j < o + 3
          → size_below chunk j + stored_length (w (slot seed j)) ≤ size_below chunk (suc j)
      stored_length-le j a b = ground (arith, s.holds.inside j, size_below-suc chunk j)

      -- A slot behind the last packet is empty.
      stored_length-past : (j : ℕ) → o ≤ j → j < o + 3 → n ≤ j → stored_length (w (slot seed j)) ≡ 0
      stored_length-past j a b c = ground (arith, s.holds.inside j)

      -- While the packet at the window's start is missing, the sizes do not add up.
      total-lt : o < n → r.total_payload_size < size_below chunk n
      total-lt h = ground (
        arith,
        s.holds.total,
        s.start_empty,
        positive o h,
        size_below-suc chunk o,
        add-one o,
        add_two' o,
        stored_length-le (o + 1),
        stored_length-le (o + 2),
        stored_length-past (o + 1),
        stored_length-past (o + 2),
        size_below_mono chunk (suc o) n,
        size_below_mono chunk (suc (suc o)) n,
        size_below_mono chunk (suc (suc (suc o))) n,
      )

      total-eq : o ≡ n → r.total_payload_size ≡ size_below chunk n
      total-eq e = ground (
        arith,
        s.holds.total,
        stored_length-past o,
        stored_length-past (o + 1),
        stored_length-past (o + 2),
      )

      -- The sizes agree exactly when every packet is in the queue.
      total_iff : ((size_below chunk n == r.total_payload_size) ≡ true) ↔ (o ≡ n)
      total_iff = (λ e. ground (arith, total-lt, s.holds.bounded), λ e. ground (arith, total-eq e))

      module _ (msg : Msg) (is : IsEof msg) where
        not_nsf : is_nsf_msg r msg ≡ false
        unfolding is_nsf_msg
        not_nsf = ground (arith, is.text, bytes_eq-ne (c_string msg.buffer))

        handle_msg-eof : handle_msg r msg ≡ handle_eof r msg
        unfolding handle_msg is_eof_msg
        handle_msg-eof = ground (arith, not_nsf, is.typed, is.text)

        -- In a transfer of packets that are not empty, when every packet is in the queue, the EOF
        -- message is acknowledged and completes the payload.
        pub eof-Complete :
            o ≡ n
            → Complete (handle_msg r msg).receiver
              × ((handle_msg r msg).sent ≡ ack_msg r msg.sequence_number ∷ [])
              × ((handle_msg r msg).status ≡ returned)
        unfolding handle_eof
        eof-Complete e =
            rw (handle_msg-eof, handle_eof, is.size, total_iff.1 e)
              (
                record {
                  flag = refl;
                  seeded = s.holds.seeded;
                  queue = rw (← e) s.holds.queue;
                  total = total-eq e;
                  passed = rw e refl;
                },
                refl,
                refl,
              )

        -- In a transfer of packets that are not empty, while a packet is missing from the queue,
        -- the EOF message changes nothing and is not acknowledged.
        pub eof_early :
            o < n → handle_msg r msg ≡ record { receiver = r; sent = []; status = returned }
        unfolding handle_eof
        eof_early h = rw handle_msg-eof (ground (arith, is.size, total-lt h))

  -- A complete receiver gives the packets of the payload in order, and its size.
  pub get_payload-Complete :
      (r : Receiver)
      → Complete r
      → get_payload r
        ≡ assembled
            (record { length = size_below chunk n; contents = drain (chunks_below chunk n) })
            (record r { completed_set = [] })
  unfolding get_payload
  get_payload-Complete r c = rw (c.flag, c.queue, c.total) refl

  pub final_sequence_number-Complete :
      (r : Receiver) → Complete r → final_sequence_number r ≡ (seed + n + 1) % sequence_range
  unfolding final_sequence_number
  final_sequence_number-Complete r c = rw (c.seeded, c.passed) (omega arith)

-- ===== src/Receiver/Packet.antt =====
-- Receiver::handleMsg on a data packet of a transfer.
use native.Mathlib.Decide.{dec_le}
use comp6461_assignment.Base.{
  ℕ, ◌+◌, ◌≤◌, ◌<◌, ◌≡◌, refl, inl, inr, true, ◌||◌, none, some, [], ◌∷◌, arith, leb, le→leb,
  not_le→leb, if◌then◌else◌, ◌==◌, Option-cases,
}
use comp6461_assignment.Message.{Msg, Payload, returned, sequence_range}
use comp6461_assignment.Receiver.{
  Receiver, Handled, handle_msg, register, normalize, store, ack_msg,
}
use comp6461_assignment.Receiver.Inv.{Holds, slot, received}
use comp6461_assignment.Receiver.Normalize.{normalize-is_complete}
use comp6461_assignment.Receiver.Store.{
  IsPacket, settle-Holds, window_test, number-lt, not_nsf, not_eof,
}

module _ (n seed : ℕ) (chunk : ℕ → Payload) where
  -- What the state means between two calls: the slot at the window's start is empty too.
  pub record Settled (r : Receiver) : Type 0 where
    pub holds : Holds n seed chunk r
    pub start_empty : r.current_window (slot seed r.window_origin) ≡ none

  -- What handleMsg makes of packet k: it acknowledges it, and has taken in k and nothing else.
  pub record Takes (r : Receiver) (k : ℕ) (msg : Msg) (out : Handled) : Type 0 where
    pub status : out.status ≡ returned
    pub sent : out.sent ≡ ack_msg r msg.sequence_number ∷ []
    pub settled : Settled out.receiver
    pub taken :
        (j : ℕ) → received n seed chunk out.receiver j ≡ (received n seed chunk r j || j == k)
    pub completion : out.receiver.is_complete ≡ r.is_complete

  module _ (r : Receiver) (s : Settled r) (k : ℕ) (msg : Msg)
      (is : IsPacket n seed chunk k msg) where
    open r use {window_origin as o, current_window as w}

    -- A packet that was taken in before is acknowledged again and changes nothing.
    unchanged :
        received n seed chunk r k ≡ true
        → Takes r k msg
            (record { receiver = r; sent = ack_msg r msg.sequence_number ∷ []; status = returned })
    unchanged old = record {
      status = refl;
      sent = refl;
      settled = s;
      taken = λ j. ground arith;
      completion = refl;
    }

    register_new :
        w (slot seed k) ≡ none
        → register r msg ≡ record {
          receiver = normalize sequence_range (store r msg);
          sent = ack_msg r msg.sequence_number ∷ [];
          status = returned;
        }
    unfolding register
    register_new new =
        ground (arith, is.numbered, is.fits, number-lt n seed chunk r s.holds k msg is)

    register_old :
        {p : Payload}
        → w (slot seed k) ≡ some p
        → register r msg
          ≡ record { receiver = r; sent = ack_msg r msg.sequence_number ∷ []; status = returned }
    unfolding register
    register_old old = ground (arith, is.numbered, number-lt n seed chunk r s.holds k msg is)

    register-Takes : o ≤ k → k < o + 3 → Takes r k msg (register r msg)
    register-Takes lo hi = elim (Option-cases (w (slot seed k))) [
      | inl new ↦
          let (held, clear, taken) = settle-Holds n seed chunk r s.holds k msg is lo hi new in
          rw (register_new new) (record {
            status = refl;
            sent = refl;
            settled = record { holds = held; start_empty = clear };
            taken = taken;
            completion = normalize-is_complete sequence_range (store r msg);
          })
      | inr (p, old) ↦ rw (register_old old) (unchanged (ground arith))
    ]

    handle_msg-packet :
        o ≤ k + 4
        → k < o + 3
        → handle_msg r msg ≡ (
            if leb o k then register r msg else record {
              receiver = r;
              sent = ack_msg r msg.sequence_number ∷ [];
              status = returned;
            })
    unfolding handle_msg
    handle_msg-packet lo hi = ground (
      arith,
      not_nsf n seed chunk r s.holds k msg is,
      not_eof n seed chunk r s.holds k msg is,
      window_test n seed chunk r s.holds k msg is,
    )

    -- In a transfer, a packet at most four below the window's origin or in the window is always
    -- acknowledged, and the receiver has then taken in that packet and nothing else; the window's
    -- meaning is kept, whatever the order and the number of repetitions.
    pub handle_msg-Takes : o ≤ k + 4 → k < o + 3 → Takes r k msg (handle_msg r msg)
    handle_msg-Takes lo hi = elim (dec_le o k) [
      | yes inside ↦ rw (handle_msg-packet lo hi, le→leb o k inside) (register-Takes inside hi)
      | no below ↦ rw (handle_msg-packet lo hi, not_le→leb o k below) (unchanged (ground arith))
    ]

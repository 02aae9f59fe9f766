-- ===== src/Receiver/Store.antt =====
-- Storing a packet of a transfer in the receiver's window: what Receiver::handleMsg does with a new
-- packet, and its tests on such a message.
use comp6461_assignment.Base.{
  ℕ, ◌+◌, ◌≤◌, ◌<◌, ◌≡◌, ◌∙◌, ◌≢◌, false, ◌||◌, none, some, arith, leb, ◌==◌,
}
use comp6461_assignment.Message.{Msg, MsgType, Payload, sequence_range, buffer_length}
use comp6461_assignment.Receiver.{
  Receiver, is_eof_msg, is_nsf_msg, is_sequence_number_in_window, normalize, stored, store,
  current_sequence,
}
use comp6461_assignment.Receiver.Inv.{
  Holds, slot, slot-ne, Slot, received, size_below, stored_length,
}
use comp6461_assignment.Receiver.Normalize.{normalize_settles, normalize-Holds}

module _ (n seed : ℕ) (chunk : ℕ → Payload) where
  -- The message carries packet k.
  pub record IsPacket (k : ℕ) (msg : Msg) : Type 0 where
    pub in_payload : k < n
    pub typed : msg.type ≡ MsgType.resp
    pub numbered : msg.sequence_number ≡ slot seed k
    pub fits : msg.length ≤ buffer_length
    pub content : stored msg ≡ chunk k

  head-none :
      (r : Receiver)
      → Holds n seed chunk r
      → r.current_window (current_sequence r) ≡ none
      → r.current_window (slot seed r.window_origin) ≡ none
  head-none r h e = rw (← h.seeded) e

  store_other :
      (r : Receiver) (k j : ℕ) (msg : Msg) (o : ℕ)
      → IsPacket k msg
      → o ≤ k
      → o ≤ j
      → k < o + 7
      → j < o + 7
      → k ≢ j
      → (store r msg).current_window (slot seed j) ≡ r.current_window (slot seed j)
  store_other r k j msg o is a b c d e = ground (arith, is.numbered, slot-ne seed o k j a b c d e)

  store_self :
      (r : Receiver) (k : ℕ) (msg : Msg)
      → IsPacket k msg
      → (store r msg).current_window (slot seed k) ≡ some (chunk k)
  store_self r k msg is = ground (arith, is.numbered, is.content)

  module _ (r : Receiver) (h : Holds n seed chunk r) (k : ℕ) (msg : Msg) (is : IsPacket k msg) where
    open r use {window_origin as o, current_window as w}

    length-eq : msg.length ≡ (chunk k).length
    length-eq = ground (arith, is.content)

    module _ (lo : o ≤ k) (hi : k < o + 3) (new : w (slot seed k) ≡ none) where
      store-inside : (j : ℕ) → o ≤ j → j < o + 3 → Slot n seed chunk (store r msg).current_window j
      store-inside j a b =
          ground
            (arith, store_self r k msg is, store_other r k j msg o is, h.inside j, is.in_payload)

      store-outside :
          (j : ℕ) → o + 3 ≤ j → j < o + 7 → (store r msg).current_window (slot seed j) ≡ none
      store-outside j a b = ground (arith, store_other r k j msg o is, h.outside j)

      store-total :
          (store r msg).total_payload_size
          ≡ size_below chunk o
            + stored_length ((store r msg).current_window (slot seed o))
            + stored_length ((store r msg).current_window (slot seed (o + 1)))
            + stored_length ((store r msg).current_window (slot seed (o + 2)))
      store-total = ground (
        arith,
        h.total,
        length-eq,
        store_self r k msg is,
        store_other r k o msg o is,
        store_other r k (o + 1) msg o is,
        store_other r k (o + 2) msg o is,
      )

      store-received :
          (j : ℕ) → received n seed chunk (store r msg) j ≡ (received n seed chunk r j || j == k)
      store-received j = ground (arith, store_self r k msg is, store_other r k j msg o is)

      store-Holds : Holds n seed chunk (store r msg)
      store-Holds = record {
        seeded = h.seeded;
        bounded = h.bounded;
        queue = h.queue;
        inside = store-inside;
        outside = store-outside;
        total = store-total;
      }

      -- After the store and the loop the window's start is empty again, and k is taken in.
      pub settle-Holds :
          let r' = normalize sequence_range (store r msg) in
          Holds n seed chunk r'
          × (r'.current_window (slot seed r'.window_origin) ≡ none)
          × ((j : ℕ) → received n seed chunk r' j ≡ (received n seed chunk r j || j == k))
      settle-Holds =
          let (held, kept) =
            normalize-Holds n seed chunk sequence_range (store r msg) store-Holds in
          (held, head-none _ held (normalize_settles (store r msg)), λ j. kept j ∙ store-received j)

    -- The window test accepts k if it is in the window, and refuses it if it is just below.
    pub window_test :
        o ≤ k + 4 → k < o + 3 → is_sequence_number_in_window r msg.sequence_number ≡ leb o k
    unfolding is_sequence_number_in_window
    window_test lo hi = ground (arith, is.numbered, h.seeded)

    pub number-lt : msg.sequence_number < 7
    number-lt = rw is.numbered (omega arith)

    pub not_nsf : is_nsf_msg r msg ≡ false
    unfolding is_nsf_msg
    not_nsf = ground (arith, is.typed)

    pub not_eof : is_eof_msg msg ≡ false
    unfolding is_eof_msg
    not_eof = ground (arith, is.typed)

-- ===== src/Receiver/Inv.antt =====
use native.Mathlib.Decide.{dec_lt, dec_le}
use native.Mathlib.Numerals.{add-one}
-- What the receiver's state means while the packets of one payload arrive: the queue holds the
-- packets below the window's origin, and a slot of the array is empty or holds the packet whose
-- sequence number it has.
use comp6461_assignment.Base.{
  ℕ, zero, suc, ◌+◌, ◌%◌, ◌≤◌, ◌<◌, ◌≡◌, refl, ◌∙◌, ◌⊎◌, ◌≢◌, Option, none, some, List, [], ◌∷◌,
  ◌++◌, arith, update, ltb, ◌&&◌, ◌||◌, Bool, is_some,
}
use comp6461_assignment.Message.{Payload, sequence_range, window_size}
use comp6461_assignment.Receiver.{Receiver, advance, current_sequence}

abbrev pub stored_length : Option Payload → ℕ
stored_length none = 0
stored_length (some p) = p.length

-- The sequence number of packet j in a transfer that starts at `seed`.
abbrev pub slot : ℕ → ℕ → ℕ
slot seed j = (j + seed) % sequence_range

-- Distinct packets within SEQUENCE_RANGE of one another have distinct sequence numbers.
pub slot-ne :
    (seed o j k : ℕ) → o ≤ j → o ≤ k → j < o + 7 → k < o + 7 → j ≢ k → slot seed j ≢ slot seed k
slot-ne seed o j k a b c d e = omega arith

add_two : (o : ℕ) → o + 1 + 1 ≡ o + 2
add_two o = omega arith

-- The packets of a transfer, put together in order.
module _ (chunk : ℕ → Payload) where
  -- The packets 0 to k - 1, in order.
  unfoldable pub chunks_below : ℕ → List Payload
  chunks_below zero = []
  chunks_below (suc k) = chunks_below k ++ chunk k ∷ []

  unfoldable pub size_below : ℕ → ℕ
  size_below zero = 0
  size_below (suc k) = size_below k + (chunk k).length

  pub chunks_below-suc : (k : ℕ) → chunks_below (suc k) ≡ chunks_below k ++ chunk k ∷ []
  unfolding chunks_below
  chunks_below-suc k = refl

  pub chunks_below-zero : chunks_below 0 ≡ []
  unfolding chunks_below
  chunks_below-zero = refl

  pub size_below-zero : size_below 0 ≡ 0
  unfolding size_below
  size_below-zero = refl

  pub size_below-suc : (k : ℕ) → size_below (suc k) ≡ size_below k + (chunk k).length
  unfolding size_below
  size_below-suc k = refl

  pub size_below_mono : (a b : ℕ) → a ≤ b → size_below a ≤ size_below b
  unfolding size_below
  size_below_mono a zero h = ground arith
  size_below_mono a (suc b) h = elim (dec_le a b) [
    | yes p ↦ omega (arith, size_below_mono a b p)
    | no p ↦ let e : a ≡ suc b = omega arith in rw e (omega arith)
  ]

-- A transfer of n packets: packet j has sequence number `slot seed j`.
module _ (n seed : ℕ) (chunk : ℕ → Payload) where
  -- The slot of packet j is empty, or holds packet j.
  abbrev pub Slot : (ℕ → Option Payload) → ℕ → Type 0
  Slot w j = (w (slot seed j) ≡ none) ⊎ ((j < n) × (w (slot seed j) ≡ some (chunk j)))

  pub record Holds (r : Receiver) : Type 0 where
    pub seeded : r.sequence_seed ≡ seed
    pub bounded : r.window_origin ≤ n
    pub queue : r.completed_set ≡ chunks_below chunk r.window_origin
    pub inside :
        (j : ℕ) → r.window_origin ≤ j → j < r.window_origin + window_size → Slot r.current_window j
    pub outside :
        (j : ℕ)
        → r.window_origin + window_size ≤ j
        → j < r.window_origin + sequence_range
        → r.current_window (slot seed j) ≡ none
    pub total :
        r.total_payload_size
        ≡ size_below chunk r.window_origin
          + stored_length (r.current_window (slot seed r.window_origin))
          + stored_length (r.current_window (slot seed (r.window_origin + 1)))
          + stored_length (r.current_window (slot seed (r.window_origin + 2)))

  module _ (r : Receiver) (h : Holds r) where
    open r use {window_origin as o, current_window as w}

    head-eq-slot : current_sequence r ≡ slot seed o
    head-eq-slot = rw h.seeded refl

    -- A write at the window's start leaves the later packets alone.
    update-head :
        (j : ℕ) (v : Option Payload)
        → o < j
        → j < o + 7
        → update w (current_sequence r) v (slot seed j) ≡ w (slot seed j)
    update-head j v a b = rw head-eq-slot (ground (arith, slot-ne seed o o j))

    update-head_wrapped :
        (j : ℕ) (v : Option Payload) → j ≡ o + 7 → update w (current_sequence r) v (slot seed j) ≡ v
    update-head_wrapped j v e = rw head-eq-slot (ground arith)

    chunk-eq : {p : Payload} → w (slot seed o) ≡ some p → (p ≡ chunk o) × (o < n)
    chunk-eq e = ground (arith, h.inside o (omega arith) (omega arith))

    advance-inside :
        (j : ℕ) → o + 1 ≤ j → j < o + 1 + 3 → Slot (update w (current_sequence r) none) j
    advance-inside j a b =
        ground (arith, update-head j none (omega arith) (omega arith), h.inside j, h.outside j)

    advance-outside :
        (j : ℕ)
        → o + 1 + 3 ≤ j
        → j < o + 1 + 7
        → update w (current_sequence r) none (slot seed j) ≡ none
    advance-outside j a b = elim (dec_lt j (o + 7)) [
      | yes old ↦ update-head j none (omega arith) old ∙ h.outside j (omega arith) old
      | no new ↦ update-head_wrapped j none (omega arith)
    ]

    advance-total :
        {p : Payload}
        → w (slot seed o) ≡ some p
        → r.total_payload_size
          ≡ size_below chunk (o + 1)
            + stored_length (update w (current_sequence r) none (slot seed (o + 1)))
            + stored_length (update w (current_sequence r) none (slot seed (o + 1 + 1)))
            + stored_length (update w (current_sequence r) none (slot seed (o + 1 + 2)))
    unfolding size_below
    advance-total e =
        rw
          (
            update-head (o + 1) none (omega arith) (omega arith),
            update-head (o + 1 + 1) none (omega arith) (omega arith),
            update-head (o + 1 + 2) none (omega arith) (omega arith),
          )
          (ground (arith, add-one o, h.total, chunk-eq e, h.outside (o + 1 + 2), add_two o))

    pub advance-Holds : (p : Payload) → w (slot seed o) ≡ some p → Holds (advance r p)
    unfolding chunks_below
    advance-Holds p e = record {
      seeded = h.seeded;
      bounded = ground (arith, chunk-eq e);
      queue = ground (arith, add-one o, h.queue, chunk-eq e);
      inside = advance-inside;
      outside = advance-outside;
      total = advance-total e;
    }

  -- Packet j has been taken in: it is in the queue, or in its slot of the window.
  abbrev pub received : Receiver → ℕ → Bool
  received r j =
      ltb j r.window_origin
      || ltb j (r.window_origin + window_size) && is_some (r.current_window (slot seed j))

  -- Moving the window forgets no packet and invents none.
  pub received-advance :
      (r : Receiver) (p : Payload) (j : ℕ)
      → Holds r
      → r.current_window (slot seed r.window_origin) ≡ some p
      → received (advance r p) j ≡ received r j
  received-advance r p j h e =
      ground (arith, update-head r h j none, update-head_wrapped r h j none, h.outside j)

-- ===== src/Sender/Window.antt =====
-- What the sender's state means between the steps of a call.
use comp6461_assignment.Base.{
  ℕ, ◌+◌, ◌%◌, ◌≤◌, ◌<◌, ◌≡◌, sym, ap, ◌∙◌, ◌⊎◌, ◌≢◌, Bool, true, false, not, ◌&&◌, ◌||◌, none,
  some, arith, ltb, is_some,
}
use native.Mathlib.Decide.{ℕ_discrete}
use comp6461_assignment.Message.{Msg, sequence_range, window_size}
use comp6461_assignment.Sender.{Sender, Job, packet_msg}

module _ (job : Job) where
  open job use {number_of_packets as n, sequence_seed as seed}

  abbrev pub slot : ℕ → ℕ
  slot j = (j + seed) % sequence_range

  pub slot-ne : (o j k : ℕ) → o ≤ j → o ≤ k → j < o + 7 → k < o + 7 → j ≢ k → slot j ≢ slot k
  slot-ne o j k a b c d e = omega arith

  -- Packet j has worker f. It is in currentWindow until its acknowledgement sets the flag.
  pub record Worker (s : Sender) (j f : ℕ) : Type 0 where
    pub state : s.window_state (slot j) ≡ some f
    pub known : f < s.next
    pub carries : s.msg f ≡ packet_msg job j
    pub phase :
        ((s.current_window (slot j) ≡ some f) × (s.is_acked f ≡ false))
        ⊎ ((s.current_window (slot j) ≡ none) × (s.is_acked f ≡ true))

  -- The packets from the window's origin up to `bound` have workers, and no other slot is in use.
  pub record Window (bound : ℕ) (s : Sender) : Type 0 where
    pub same : s.job ≡ job
    pub ordered : s.current_window_origin ≤ bound
    pub narrow : bound ≤ s.current_window_origin + window_size
    pub bounded : s.current_window_origin ≤ n
    pub inside : (j : ℕ) → s.current_window_origin ≤ j → j < bound → j < n → (f : ℕ) × Worker s j f
    pub outside :
        (j : ℕ)
        → s.current_window_origin ≤ j
        → j < s.current_window_origin + sequence_range
        → (bound ≤ j) ⊎ (n ≤ j)
        → (s.current_window (slot j) ≡ none) × (s.window_state (slot j) ≡ none)
    pub live :
        (f : ℕ)
        → f < s.next
        → s.is_acked f ≡ false
        → (j : ℕ) × (s.current_window_origin ≤ j) × (j < bound) × (j < n) × Worker s j f

  -- The acknowledgement of packet j has been processed.
  abbrev pub acked : ℕ → Sender → ℕ → Bool
  acked bound s j =
      ltb j s.current_window_origin
      || ltb j bound && ltb j n && not (is_some (s.current_window (slot j)))

  -- Two packets of a window do not share a worker.
  pub Worker-inj :
      {s : Sender} {f : ℕ} (o j k : ℕ)
      → o ≤ j
      → o ≤ k
      → j < o + 7
      → k < o + 7
      → Worker s j f
      → Worker s k f
      → j ≡ k
  Worker-inj o j k a b c d v w = elim (ℕ_discrete j k) [
    | yes e ↦ e
    | no ne ↦
        absurd (
          slot-ne o j k a b c d ne
            (ap (λ (m : Msg). m.sequence_number) (sym v.carries ∙ w.carries)))
  ]

-- ===== src/Sender/Mark.antt =====
-- The first lines of Sender::processAck: the flag of the acknowledged packet is set, and its worker
-- leaves currentWindow.
use comp6461_assignment.Base.{
  ℕ, ◌+◌, ◌≤◌, ◌<◌, ◌≡◌, refl, sym, ◌∙◌, ◌⊎◌, inl, inr, ◌≢◌, false, ◌||◌, none, arith, ◌==◌,
}
use native.Mathlib.Decide.{dec_lt, ℕ_discrete}
use comp6461_assignment.Message.{window_size}
use comp6461_assignment.Sender.{Sender, Job, mark}
use comp6461_assignment.Sender.Window.{slot, slot-ne, Worker, Window, acked, Worker-inj}

module _ (job : Job) (bound : ℕ) (s : Sender) (w : Window job bound s) where
  open job use {number_of_packets as n, sequence_seed as seed}
  open s use {current_window_origin as o}

  -- The acknowledgement is for a packet that has a worker.
  module _ (k g : ℕ) (lo : o ≤ k) (hi : k < bound) (below : k < n) (v : Worker job s k g) where
    mark-Worker_self : Worker job (mark s (slot job k)) k g
    unfolding mark
    mark-Worker_self = record {
      state = v.state;
      known = ground (arith, v.state, v.known);
      carries = ground (arith, v.state, v.carries);
      phase = inr (ground (arith, v.state), ground (arith, v.state));
    }

    mark-Worker :
        (j f : ℕ)
        → o ≤ j
        → j < bound
        → j ≢ k
        → Worker job s j f
        → Worker job (mark s (slot job k)) j f
    unfolding mark
    mark-Worker j f a b ne u = record {
      state = u.state;
      known = ground (arith, v.state, u.known);
      carries = ground (arith, v.state, u.carries);
      phase = ground (arith, v.state, u.phase, apart, slots);
    }
      where
        slots : slot job k ≢ slot job j
        slots =
            slot-ne job o k j lo a (omega (arith, w.narrow)) (omega (arith, w.narrow))
              (λ e. ne (sym e))

        apart : f ≢ g
        apart e = ne (
            Worker-inj job {s = s} {f = g} o j k a lo (omega (arith, w.narrow))
              (omega (arith, w.narrow)) (rw e at u) v)

    mark-inside :
        (j : ℕ) → o ≤ j → j < bound → j < n → (f : ℕ) × Worker job (mark s (slot job k)) j f
    mark-inside j a b c = elim (ℕ_discrete j k) [
      | yes e ↦ (g, rw e mark-Worker_self)
      | no ne ↦ let (f, u) = w.inside j a b c in (f, mark-Worker j f a b ne u)
    ]

    mark-outside :
        (j : ℕ)
        → o ≤ j
        → j < o + 7
        → (bound ≤ j) ⊎ (n ≤ j)
        → ((mark s (slot job k)).current_window (slot job j) ≡ none)
          × ((mark s (slot job k)).window_state (slot job j) ≡ none)
    unfolding mark
    mark-outside j a b c = ground (arith, w.outside j a b c)

    mark-live :
        (f : ℕ)
        → f < (mark s (slot job k)).next
        → (mark s (slot job k)).is_acked f ≡ false
        → (j : ℕ) × (o ≤ j) × (j < bound) × (j < n) × Worker job (mark s (slot job k)) j f
    unfolding mark
    mark-live f a b =
        let (j, p, q, r, u) = w.live f (ground (arith, v.state)) (ground (arith, v.state)) in
        (j, p, q, r, mark-Worker j f p q (λ e. ground (arith, v.state, rw e at (u.state))) u)

    mark-Window_hit : Window job bound (mark s (slot job k))
    unfolding mark
    mark-Window_hit = record {
      same = w.same;
      ordered = w.ordered;
      narrow = w.narrow;
      bounded = w.bounded;
      inside = mark-inside;
      outside = mark-outside;
      live = mark-live;
    }

    mark-acked_hit :
        (j : ℕ) → acked job bound (mark s (slot job k)) j ≡ (acked job bound s j || j == k)
    unfolding mark
    mark-acked_hit j = elim (dec_lt j bound) [
      | yes near ↦ elim (dec_lt j o) [
        | yes below_o ↦ ground arith
        | no above ↦ ground (arith, slot-ne job o k j, w.narrow)
      ]
      | no far ↦ ground arith
    ]

  -- The acknowledgement is for a slot that is not in use.
  module _ (i : ℕ) (e : s.current_window i ≡ none) (e' : s.window_state i ≡ none) where
    mark-current : (j : ℕ) → (mark s i).current_window j ≡ s.current_window j
    unfolding mark
    mark-current j = ground (arith, e)

    mark-workers : (mark s i).workers ≡ s.workers
    unfolding mark
    mark-workers = rw e' refl

    mark-Worker_miss : (j f : ℕ) → Worker job s j f → Worker job (mark s i) j f
    unfolding mark
    mark-Worker_miss j f u = record {
      state = u.state;
      known = ground (arith, e', u.known);
      carries = ground (arith, e', u.carries);
      phase = ground (arith, e', e, u.phase);
    }

    mark-Window_miss : Window job bound (mark s i)
    unfolding mark
    mark-Window_miss = record {
      same = w.same;
      ordered = w.ordered;
      narrow = w.narrow;
      bounded = w.bounded;
      inside = λ j a b c. let (f, u) = w.inside j a b c in (f, mark-Worker_miss j f u);
      outside = λ j a b c. ground (arith, e, w.outside j a b c);
      live = λ f a b.
          let (j, p, q, r, u) = w.live f (ground (arith, e')) (ground (arith, e')) in
          (j, p, q, r, mark-Worker_miss j f u);
    }

    mark-acked_miss : (j : ℕ) → acked job bound (mark s i) j ≡ acked job bound s j
    unfolding mark
    mark-acked_miss j = ground (arith, mark-current (slot job j))

-- The acknowledgement of packet k, at most four below the window's origin, keeps the meaning of
-- the window, and k is acknowledged then, and no other packet more than before.
pub mark-Window :
    (job : Job) (s : Sender) (k : ℕ)
    → Window job (s.current_window_origin + window_size) s
    → s.current_window_origin ≤ k + 4
    → k < s.current_window_origin + window_size
    → k < job.number_of_packets
    → Window job (s.current_window_origin + window_size) (mark s (slot job k))
      × ((j : ℕ)
          → acked job (s.current_window_origin + window_size) (mark s (slot job k)) j
            ≡ (acked job (s.current_window_origin + window_size) s j || j == k))
mark-Window job s k w lo hi below = elim (dec_lt k s.current_window_origin) [
  | yes old ↦
      let e : slot job k ≡ slot job (k + 7) = omega arith in
      let (free, free') = w.outside (k + 7) (omega arith) (omega arith) (inl (omega arith)) in
      rw e (
        mark-Window_miss job _ s w (slot job (k + 7)) free free',
        λ j. mark-acked_miss job _ s w (slot job (k + 7)) free free' j ∙ ground arith,
      )
  | no here ↦
      let (g, v) = w.inside k (omega arith) hi below in
      (
        mark-Window_hit job _ s w k g (omega arith) hi below v,
        λ j. mark-acked_hit job _ s w k g (omega arith) hi below v j,
      )
]

-- ===== src/Sender/Slide.antt =====
-- The loop of Sender::processAck that moves the window's origin over acknowledged packets.
use comp6461_assignment.Base.{
  ℕ, zero, suc, ◌+◌, ◌≤◌, ◌<◌, ◌≡◌, refl, sym, ◌∙◌, ◌⊎◌, inl, inr, ◌≢◌, true, false, not, ◌&&◌,
  none, arith, ltb, is_some, update, Bool-cases,
}
use mathlib.Core.Path.{subst}
use native.Mathlib.Decide.{dec_lt}
use comp6461_assignment.Sender.{Sender, Job, slide, origin_index}
use comp6461_assignment.Sender.Window.{slot, slot-ne, Worker, Window, acked}

-- One pass: the packet at the origin is acknowledged, and its slot is given up.
abbrev pub pass : Sender → Sender
pass s = record s {
  window_state = update s.window_state (origin_index s) none;
  current_window_origin = s.current_window_origin + 1;
}

module _ (job : Job) (bound : ℕ) (s : Sender) (w : Window job bound s) where
  open job use {number_of_packets as n, sequence_seed as seed}
  open s use {current_window_origin as o}

  pub origin_index-eq : origin_index s ≡ slot job o
  origin_index-eq = rw w.same refl

  module _ (below : o < n) (room : o < bound) (free : s.current_window (slot job o) ≡ none) where
    pass-Worker : (j f : ℕ) → o < j → j < o + 7 → Worker job s j f → Worker job (pass s) j f
    pass-Worker j f a b u = record {
      state = ground (arith, origin_index-eq, u.state, slot-ne job o o j);
      known = u.known;
      carries = u.carries;
      phase = u.phase;
    }

    pass-outside :
        (j : ℕ)
        → o + 1 ≤ j
        → j < o + 1 + 7
        → (bound ≤ j) ⊎ (n ≤ j)
        → (s.current_window (slot job j) ≡ none)
          × (update s.window_state (origin_index s) none (slot job j) ≡ none)
    pass-outside j a b c = elim (dec_lt j (o + 7)) [
      | yes near ↦ ground (arith, w.outside j (omega arith) near c)
      | no last ↦
          let e : slot job o ≡ slot job j = omega arith in
          (rw e at free, ground (arith, e, origin_index-eq))
    ]

    -- The packet that is passed has no worker that still sends.
    not_live : (f : ℕ) → s.is_acked f ≡ false → ¬ (Worker job s o f)
    not_live f a u = ground (arith, u.phase)

    pass-live :
        (f : ℕ)
        → f < s.next
        → s.is_acked f ≡ false
        → (j : ℕ) × (o + 1 ≤ j) × (j < bound) × (j < n) × Worker job (pass s) j f
    pass-live f a b =
        let (j, p, q, r, u) = w.live f a b in
        let ne : o ≢ j = λ e. not_live f b (subst (λ i. Worker job s i f) (sym e) u) in
        (j, omega arith, q, r, pass-Worker j f (omega arith) (omega (arith, w.narrow)) u)

    pub pass-Window : Window job bound (pass s)
    pass-Window = record {
      same = w.same;
      ordered = omega arith;
      narrow = omega (arith, w.narrow);
      bounded = omega arith;
      inside = λ j a b c.
          let (f, u) = w.inside j (omega arith) b c in
          (f, pass-Worker j f (omega arith) (omega (arith, w.narrow)) u);
      outside = pass-outside;
      live = pass-live;
    }

    pub pass-acked : (j : ℕ) → acked job bound (pass s) j ≡ acked job bound s j
    pass-acked j = ground arith

-- What the loop leaves: the meaning of the window, the same packets acknowledged, and an origin that
-- it may not move further.
pub record Slid (job : Job) (bound : ℕ) (s s' : Sender) : Type 0 where
  pub window : Window job bound s'
  pub kept : (j : ℕ) → acked job bound s' j ≡ acked job bound s j
  pub stopped :
      s'.current_window_origin < job.number_of_packets
      → s'.current_window_origin < bound
      → is_some (s'.current_window (slot job s'.current_window_origin)) ≡ true
  pub completion : s'.is_complete ≡ s.is_complete
  pub further : s.current_window_origin ≤ s'.current_window_origin

pub slide_lem :
    (job : Job) (bound rounds : ℕ) (s : Sender)
    → Window job bound s
    → bound ≡ s.current_window_origin + rounds
    → Slid job bound s (slide rounds s)
unfolding slide
slide_lem job bound zero s w e = record {
  window = w;
  kept = λ j. refl;
  stopped = λ a b. absurd (omega arith);
  completion = refl;
  further = omega arith;
}
slide_lem job bound (suc rounds) s w e =
    elim (Bool-cases (
      ltb s.current_window_origin s.number_of_packets
      && not (is_some (s.current_window (origin_index s))))) [
        | inl go ↦
            let below : s.current_window_origin < job.number_of_packets = ground (arith, w.same) in
            let free : s.current_window (slot job s.current_window_origin) ≡ none =
              ground (arith, origin_index-eq job bound s w) in
            let room : s.current_window_origin < bound = omega arith in
            let rest =
              slide_lem job bound rounds (pass s) (pass-Window job bound s w below room free)
                (omega arith) in
            rw go (record {
              window = rest.window;
              kept = λ j. rest.kept j ∙ pass-acked job bound s w below room free j;
              stopped = rest.stopped;
              completion = rest.completion;
              further = omega (arith, rest.further);
            })
        | inr stop ↦ rw stop (record {
          window = w;
          kept = λ j. refl;
          stopped = λ a b. ground (arith, origin_index-eq job bound s w, w.same);
          completion = refl;
          further = omega arith;
        })
      ]

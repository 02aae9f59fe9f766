-- ===== src/Sender/Normalize.antt =====
-- Sender::normalizeCurrentWindow: every packet of the window gets a worker.
use comp6461_assignment.Base.{
  ℕ, zero, suc, ◌+◌, ◌%◌, ◌≤◌, ◌<◌, ◌≡◌, refl, ◌∙◌, ◌⊎◌, inl, inr, ◌≢◌, false, none, some, arith,
  ltb, update, Bool-cases,
}
use mathlib.Core.Path.{subst}
use native.Mathlib.Decide.{dec_lt, ℕ_discrete}
use comp6461_assignment.Message.{window_size}
use comp6461_assignment.Sender.{
  Sender, Job, packet_msg, start_thread, start_packet, normalize_from, normalize_current_window,
}
use comp6461_assignment.Sender.Window.{slot, slot-ne, Worker, Window, acked}

-- A new worker for packet b, in the slot of b.
abbrev begin : Job → Sender → ℕ → Sender
begin job s b = record s {
  window_state = update s.window_state (slot job b) (some s.next);
  current_window = update s.current_window (slot job b) (some s.next);
  workers = start_thread s.workers (packet_msg job b);
}

module _ (job : Job) where
  open job use {number_of_packets as n, sequence_seed as seed}

  -- Behind the last packet the window is as wide as one likes.
  widen :
      (bound wide : ℕ) (s : Sender)
      → Window job bound s
      → n ≤ bound
      → bound ≤ wide
      → wide ≤ s.current_window_origin + window_size
      → Window job wide s
  widen bound wide s w a b c = record {
    same = w.same;
    ordered = omega (arith, w.ordered);
    narrow = c;
    bounded = w.bounded;
    inside = λ j p q r. w.inside j p (omega arith) r;
    outside = λ j p q r. w.outside j p q (omega arith);
    live = λ f p q. let (j, x, y, z, u) = w.live f p q in (j, x, omega arith, z, u);
  }

  module _ (s : Sender) (b : ℕ) (w : Window job b s) (below : b < n)
      (room : b < s.current_window_origin + 3) where
    open s use {current_window_origin as o}

    begin-Worker_self : Worker job (begin job s b) b s.next
    begin-Worker_self = record {
      state = ground arith;
      known = omega arith;
      carries = ground arith;
      phase = inl (ground arith, ground arith);
    }

    begin-Worker : (j f : ℕ) → o ≤ j → j < b → Worker job s j f → Worker job (begin job s b) j f
    begin-Worker j f p q u =
        let apart : slot job b ≢ slot job j =
          slot-ne job o b j w.ordered p (omega arith) (omega arith) (omega arith) in
        record {
          state = ground (arith, apart, u.state);
          known = omega (arith, u.known);
          carries = ground (arith, u.known, u.carries);
          phase = ground (arith, apart, u.known, u.phase);
        }

    begin-inside : (j : ℕ) → o ≤ j → j < suc b → j < n → (f : ℕ) × Worker job (begin job s b) j f
    begin-inside j p q r = elim (dec_lt j b) [
      | yes old ↦ let (f, u) = w.inside j p old r in (f, begin-Worker j f p old u)
      | no new ↦
          let e : b ≡ j = omega arith in
          (s.next, subst (λ i. Worker job (begin job s b) i s.next) e begin-Worker_self)
    ]

    begin-outside :
        (j : ℕ)
        → o ≤ j
        → j < o + 7
        → (suc b ≤ j) ⊎ (n ≤ j)
        → ((begin job s b).current_window (slot job j) ≡ none)
          × ((begin job s b).window_state (slot job j) ≡ none)
    begin-outside j p q r =
        let apart : slot job b ≢ slot job j =
          slot-ne job o b j w.ordered p (omega arith) q (omega arith) in
        let free = w.outside j p q (omega arith) in
        (ground (arith, apart, free), ground (arith, apart, free))

    begin-live :
        (f : ℕ)
        → f < s.next + 1
        → (begin job s b).is_acked f ≡ false
        → (j : ℕ) × (o ≤ j) × (j < suc b) × (j < n) × Worker job (begin job s b) j f
    begin-live f p q = elim (ℕ_discrete s.next f) [
      | yes new ↦ (
        b,
        w.ordered,
        omega arith,
        below,
        subst (λ i. Worker job (begin job s b) b i) new begin-Worker_self,
      )
      | no old ↦
          let (j, x, y, z, u) = w.live f (omega arith) (ground arith) in
          (j, x, omega arith, z, begin-Worker j f x y u)
    ]

    begin-Window : Window job (suc b) (begin job s b)
    begin-Window = record {
      same = w.same;
      ordered = omega (arith, w.ordered);
      narrow = omega arith;
      bounded = w.bounded;
      inside = begin-inside;
      outside = begin-outside;
      live = begin-live;
    }

    begin-acked : (j : ℕ) → acked job (suc b) (begin job s b) j ≡ acked job b s j
    begin-acked j = elim (dec_lt j o) [
      | yes below_o ↦ ground arith
      | no above ↦ ground (arith, slot-ne job o b j w.ordered, w.ordered)
    ]

  -- What the body of the loop does for the packet `i` behind the origin.
  module _ (s : Sender) (i bound : ℕ) (w : Window job bound s)
      (le : s.current_window_origin + i ≤ bound) (below : s.current_window_origin + i < n)
      (few : i < 3) where
    start_packet-old : s.current_window_origin + i < bound → start_packet s i ≡ s
    unfolding start_packet
    start_packet-old h =
        let (f, u) = w.inside (s.current_window_origin + i) (omega arith) h below in
        let e : (s.current_window_origin + job.sequence_seed + i) % 7
            ≡ slot job (s.current_window_origin + i) =
          omega arith in
        ground (arith, e, u.state, w.same)

    start_packet-new :
        (b : ℕ) → b ≡ bound → s.current_window_origin + i ≡ b → start_packet s i ≡ begin job s b
    unfolding start_packet
    start_packet-new b h e' =
        let e : (s.current_window_origin + job.sequence_seed + i) % 7 ≡ slot job b = omega arith in
        let free = w.outside b (omega arith) (omega arith) (inl (omega arith)) in
        rw (w.same, e, free.1, e') refl

  -- What the loop leaves: every packet of the window has a worker, and the same ones are
  -- acknowledged.
  pub record Normalized (bound : ℕ) (s s' : Sender) : Type 0 where
    pub origin : s'.current_window_origin ≡ s.current_window_origin
    pub window : Window job (s'.current_window_origin + window_size) s'
    pub kept :
        (j : ℕ) → acked job (s'.current_window_origin + window_size) s' j ≡ acked job bound s j
    pub completion : s'.is_complete ≡ s.is_complete

  widen-acked :
      (bound wide : ℕ) (s : Sender)
      → n ≤ bound
      → bound ≤ wide
      → (j : ℕ) → acked job wide s j ≡ acked job bound s j
  widen-acked bound wide s a b j = ground arith

  Normalized-done :
      (bound : ℕ) (s : Sender)
      → Window job bound s
      → (n ≤ bound) ⊎ (bound ≡ s.current_window_origin + 3)
      → Normalized bound s s
  Normalized-done bound s w (inl h) = record {
    origin = refl;
    window = widen bound _ s w h w.narrow (omega arith);
    kept = widen-acked bound _ s h w.narrow;
    completion = refl;
  }
  Normalized-done bound s w (inr h) = record {
    origin = refl;
    window = subst (λ b. Window job b s) h w;
    kept = λ j. ground (arith, h);
    completion = refl;
  }

  normalize_from_lem :
      (rounds i bound : ℕ) (s : Sender)
      → Window job bound s
      → s.current_window_origin + i ≤ bound
      → rounds + i ≡ 3
      → Normalized bound s (normalize_from rounds i s)
  unfolding normalize_from
  normalize_from_lem zero i bound s w le e =
      Normalized-done bound s w (inr (omega (arith, w.narrow)))
  normalize_from_lem (suc rounds) i bound s w le e =
      elim (Bool-cases (ltb (s.current_window_origin + i) s.number_of_packets)) [
        | inr stop ↦ rw stop (Normalized-done bound s w (inl (ground (arith, w.same))))
        | inl go ↦
            let below : s.current_window_origin + i < n = ground (arith, w.same) in
            rw go (elim (dec_lt (s.current_window_origin + i) bound) [
              | yes old ↦
                  rw (start_packet-old s i bound w le below (omega arith) old)
                    (normalize_from_lem rounds (i + 1) bound s w (omega arith) (omega arith))
              | no new ↦
                  let same : s.current_window_origin + i ≡ bound = omega arith in
                  let w' = begin-Window s bound w (omega arith) (omega arith) in
                  let rest =
                    normalize_from_lem rounds (i + 1) (suc bound) (begin job s bound) w'
                      (omega arith) (omega arith) in
                  rw (start_packet-new s i bound w le below (omega arith) bound refl same) (record {
                    origin = rest.origin;
                    window = rest.window;
                    kept = λ j. rest.kept j ∙ begin-acked s bound w (omega arith) (omega arith) j;
                    completion = rest.completion;
                  })
            ])
      ]

  pub normalize_current_window_lem :
      (bound : ℕ) (s : Sender)
      → Window job bound s
      → Normalized bound s (normalize_current_window s)
  unfolding normalize_current_window
  normalize_current_window_lem bound s w =
      normalize_from_lem 3 0 bound s w (omega (arith, w.ordered)) refl

-- ===== src/Receiver/Normalize.antt =====
-- The loop of Receiver::handleMsg that moves the window: it ends, and it keeps what the state means.
use comp6461_assignment.Base.{
  ℕ, zero, suc, ◌+◌, ◌%◌, ◌≤◌, ◌<◌, ◌≡◌, refl, ◌∙◌, inl, inr, none, some, arith, Option-cases,
}
use comp6461_assignment.Message.{Payload, sequence_range}
use comp6461_assignment.Receiver.{Receiver, advance, normalize, current_sequence}
use comp6461_assignment.Receiver.Inv.{Holds, advance-Holds, received, received-advance, slot}

-- The last slots of the array, in the window's order, are empty: at most `fuel` are not.
abbrev Spare : ℕ → Receiver → Type 0
Spare fuel r =
    (i : ℕ)
    → fuel ≤ i
    → i < sequence_range
    → r.current_window ((r.window_origin + r.sequence_seed + i) % sequence_range) ≡ none

Spare-advance :
    (fuel : ℕ) (r : Receiver) (p : Payload) → Spare (suc fuel) r → Spare fuel (advance r p)
Spare-advance fuel r p spare i a b = ground (arith, spare (i + 1), index)
  where
    index :
        (r.window_origin + 1 + r.sequence_seed + i) % 7
        ≡ (r.window_origin + r.sequence_seed + (i + 1)) % 7
    index = omega arith

normalize_settles_from :
    (fuel : ℕ) (r : Receiver)
    → Spare fuel r
    → (normalize fuel r).current_window (current_sequence (normalize fuel r)) ≡ none
unfolding normalize
normalize_settles_from zero r spare = ground (arith, spare 0)
normalize_settles_from (suc fuel) r spare =
    elim (Option-cases (r.current_window (current_sequence r))) [
      | inl e ↦ rw (e, normalize) e
      | inr (p, e) ↦
          rw (e, normalize)
            (normalize_settles_from fuel (advance r p) (Spare-advance fuel r p spare))
    ]

-- The loop of handleMsg that moves the window stops: from any state, after at most SEQUENCE_RANGE
-- passes the slot at the window's start is empty, which is the loop's own exit test.
pub normalize_settles :
    (r : Receiver)
    → (normalize sequence_range r).current_window (current_sequence (normalize sequence_range r))
      ≡ none
normalize_settles r = normalize_settles_from sequence_range r (λ i a b. absurd (omega arith))

pub normalize-is_complete :
    (fuel : ℕ) (r : Receiver) → (normalize fuel r).is_complete ≡ r.is_complete
unfolding normalize
normalize-is_complete zero r = refl
normalize-is_complete (suc fuel) r = elim (Option-cases (r.current_window (current_sequence r))) [
  | inl e ↦ rw (e, normalize) refl
  | inr (p, e) ↦ rw (e, normalize) (normalize-is_complete fuel (advance r p))
]

module _ (n seed : ℕ) (chunk : ℕ → Payload) where
  -- The loop keeps the meaning of the state and the packets that have been taken in.
  pub normalize-Holds :
      (fuel : ℕ) (r : Receiver)
      → Holds n seed chunk r
      → Holds n seed chunk (normalize fuel r)
        × ((j : ℕ) → received n seed chunk (normalize fuel r) j ≡ received n seed chunk r j)
  unfolding normalize
  normalize-Holds zero r h = (h, λ j. refl)
  normalize-Holds (suc fuel) r h = elim (Option-cases (r.current_window (current_sequence r))) [
    | inl e ↦ rw (e, normalize) (h, λ j. refl)
    | inr (p, e) ↦
        let here : r.current_window (slot seed r.window_origin) ≡ some p = rw (← h.seeded) e in
        let rest = normalize-Holds fuel (advance r p) (advance-Holds n seed chunk r h p here) in
        rw (e, normalize) (rest.0, λ j. rest.1 j ∙ received-advance n seed chunk r p j h here)
  ]

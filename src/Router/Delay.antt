-- ===== src/Router/Delay.antt =====
-- How long the router keeps a delayed packet back, and what may overtake it.
use native.Mathlib.Decide.{ℕ_discrete}
use mathlib.Core.Path.{subst}
use comp6461_assignment.Base.{
  ℕ, ◌+◌, ◌≤◌, ◌<◌, ◌≡◌, refl, ap, ◌∙◌, ◌⊎◌, inl, inr, true, false, none, some, List, [], ◌∷◌, ◌++◌,
  arith, if◌then◌else◌, Bool-cases, leb, ◌==◌,
}
use comp6461_assignment.Router.{
  Event, Router, Ready, release, count_wait, event1, event2, from_host1, from_host2, neither, Luck,
  Input, select_error, incoming, timeout, Action, forward, hold, drop, flush, lose, lose_held,
  send_proc, dispose, step, run,
}

-- This packet has left the buffer: sent, or lost because sendto failed.
abbrev pub Releases : Event → List Action → Type 0
Releases held [] = ⊥
Releases held (flush e ∷ rest) = (e ≡ held) ⊎ Releases held rest
Releases held (lose_held e ∷ rest) = (e ≡ held) ⊎ Releases held rest
Releases held (_ ∷ rest) = Releases held rest

abbrev pub is_timeout : Input → ℕ
is_timeout (timeout luck) = 1
is_timeout _ = 0

unfoldable pub timeouts : List Input → ℕ
timeouts [] = 0
timeouts (i ∷ is) = is_timeout i + timeouts is

is_timeout-le : (i : Input) → is_timeout i ≤ 1
is_timeout-le (timeout luck) = omega arith
is_timeout-le select_error = omega arith
is_timeout-le (incoming ready luck) = omega arith

Releases-left : (held : Event) (xs ys : List Action) → Releases held xs → Releases held (xs ++ ys)
Releases-left held [] ys h = absurd h
Releases-left held (forward e ∷ xs) ys h = Releases-left held xs ys h
Releases-left held (hold e ∷ xs) ys h = Releases-left held xs ys h
Releases-left held (drop e ∷ xs) ys h = Releases-left held xs ys h
Releases-left held (lose e ∷ xs) ys h = Releases-left held xs ys h
Releases-left held (flush e ∷ xs) ys (inl same) = inl same
Releases-left held (flush e ∷ xs) ys (inr h) = inr (Releases-left held xs ys h)
Releases-left held (lose_held e ∷ xs) ys (inl same) = inl same
Releases-left held (lose_held e ∷ xs) ys (inr h) = inr (Releases-left held xs ys h)

Releases-right : (held : Event) (xs ys : List Action) → Releases held ys → Releases held (xs ++ ys)
Releases-right held [] ys h = h
Releases-right held (forward e ∷ xs) ys h = Releases-right held xs ys h
Releases-right held (hold e ∷ xs) ys h = Releases-right held xs ys h
Releases-right held (drop e ∷ xs) ys h = Releases-right held xs ys h
Releases-right held (lose e ∷ xs) ys h = Releases-right held xs ys h
Releases-right held (flush e ∷ xs) ys h = inr (Releases-right held xs ys h)
Releases-right held (lose_held e ∷ xs) ys h = inr (Releases-right held xs ys h)

release-Releases : (luck : Luck) (s : Router) → Releases s.file_buf (release luck s).actions
unfolding send_proc
release-Releases luck s = elim (Bool-cases luck.proc_fails) [
  | inl fails ↦ rw fails (inl refl)
  | inr sent ↦ rw sent (inl refl)
]

dispose-waits :
    (luck : Luck) (e : Event) (s : Router)
    → s.empty ≡ false
    → Releases s.file_buf (dispose luck e s).actions ⊎ ((dispose luck e s).router ≡ s)
unfolding dispose send_proc
dispose-waits luck e s h = elim (Bool-cases luck.damaged) [
  | inl damaged ↦ inr (ground (arith, h, damaged))
  | inr whole ↦ elim (Bool-cases luck.send_fails) [
    | inl fails ↦ inr (ground (arith, h, whole, fails))
    | inr sent ↦ elim (Bool-cases (s.file_buf.destination == e.destination)) [
      | inl same ↦ inl (simp (h, whole, sent, same) (release-Releases luck s))
      | inr other ↦ inr (ground (arith, h, whole, sent, other))
    ]
  ]
]

-- The packet is still held, and each time-out has been counted.
abbrev StillHeld : Router → Input → Router → Type 0
StillHeld s i s' =
    (s'.empty ≡ false)
    × (s'.file_buf ≡ s.file_buf)
    × (s.wait_count + is_timeout i ≤ s'.wait_count)
    × ((is_timeout i ≡ 1) → s'.wait_count < 3)

incoming-waits :
    (ready : Ready) (luck : Luck) (e : Event) (s s1 : Router)
    → s.empty ≡ false
    → s1.empty ≡ false
    → s1.file_buf ≡ s.file_buf
    → s.wait_count ≤ s1.wait_count
    → Releases s.file_buf (dispose luck e s1).actions
      ⊎ StillHeld s (incoming ready luck) (dispose luck e s1).router
incoming-waits ready luck e s s1 h h1 same more = elim (dispose-waits luck e s1 h1) [
  | inl out ↦ inl (subst (λ (b : Event). Releases b (dispose luck e s1).actions) same out)
  | inr kept ↦ inr (
    ap (λ (t : Router). t.empty) kept ∙ h1,
    ap (λ (t : Router). t.file_buf) kept ∙ same,
    omega (arith, ap (λ (t : Router). t.wait_count) kept),
    λ e. absurd (omega arith),
  )
]

-- A held packet leaves the buffer, or is still held; after the third time-out it does leave.
step-waits :
    (s : Router) (i : Input)
    → s.empty ≡ false
    → Releases s.file_buf (step s i).actions ⊎ StillHeld s i (step s i).router
unfolding step
step-waits s select_error h = inr (h, refl, omega arith, λ e. absurd (omega arith))
step-waits s (incoming (from_host1 (some bytes)) luck) h =
    incoming-waits (from_host1 (some bytes)) luck (event1 (count_wait s) bytes) s _ h
      (ground (arith, h)) (ground (arith, h)) (ground (arith, h))
step-waits s (incoming (from_host1 none) luck) h = inr (ground (arith, h))
step-waits s (incoming (from_host2 (some bytes)) luck) h =
    incoming-waits (from_host2 (some bytes)) luck (event2 (count_wait s) bytes) s _ h
      (ground (arith, h)) (ground (arith, h)) (ground (arith, h))
step-waits s (incoming (from_host2 none) luck) h = inr (ground (arith, h))
step-waits s (incoming neither luck) h = inr (ground (arith, h))
step-waits s (timeout luck) h = elim (Bool-cases (leb 3 (s.wait_count + 1))) [
  | inl third ↦ inl (rw (h, third) (release-Releases luck s))
  | inr early ↦ inr (ground (arith, h, early))
]

-- No packet is kept back for ever: once a packet is held, any run with at least one time-out, and
-- with three together with the passes that wait_count has already counted, hands that packet to SendProc.
pub run-Releases :
    (s : Router) (is : List Input)
    → s.empty ≡ false
    → 1 ≤ timeouts is
    → 3 ≤ s.wait_count + timeouts is
    → Releases s.file_buf (run s is).actions
unfolding run timeouts
run-Releases s [] h one three = absurd (omega arith)
run-Releases s (i ∷ is) h one three = elim (step-waits s i h) [
  | inl now ↦ Releases-left s.file_buf (step s i).actions _ now
  | inr (held, same, counted, few) ↦ Releases-right s.file_buf (step s i).actions _ (
      subst (λ (b : Event). Releases b (run (step s i).router is).actions) same
        (elim (ℕ_discrete (is_timeout i) 1) [
          | yes e ↦ run-Releases (step s i).router is held (omega (arith, few e)) (omega arith)
          | no ne ↦
              run-Releases (step s i).router is held (omega (arith, is_timeout-le i))
                (omega (arith, is_timeout-le i))
        ]))
]

-- A packet for the host of the held one overtakes it alone: when the router forwards such a packet, it
-- sends the held one in the same pass, behind it, unless sendto fails, and the buffer is empty then.
forward_flushes :
    (s : Router) (luck : Luck) (e : Event)
    → s.empty ≡ false
    → s.file_buf.destination ≡ e.destination
    → luck.damaged ≡ false
    → luck.send_fails ≡ false
    → ((dispose luck e s).actions
        ≡ forward e ∷ (if luck.proc_fails then lose_held s.file_buf else flush s.file_buf) ∷ [])
      × ((dispose luck e s).router.empty ≡ true)
      × ((dispose luck e s).router.wait_count ≡ 0)
unfolding dispose send_proc
forward_flushes s luck e held same d f = (ground arith, ground arith, ground arith)

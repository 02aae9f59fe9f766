-- ===== src/Router/Delivery.antt =====
-- What becomes of the packets that the router receives: each is forwarded, dropped, lost by a failing
-- sendto, sent late, or still held, once.
use mathlib.Core.List.{Perm, perm_append_comm, append_assoc, append-nil}
use mathlib.Core.List.Perm
use mathlib.Core.Path.{subst}
use comp6461_assignment.Base.{
  ◌≡◌, refl, sym, ap, ◌∙◌, none, some, List, [], ◌∷◌, ◌++◌, ◌⊎◌, arith, if◌then◌else◌, inl, inr,
}
use comp6461_assignment.Router.{
  Event, Router, from_host1, from_host2, neither, Luck, Input, select_error, incoming, timeout,
  Action, forward, hold, drop, flush, lose, lose_held, Passed, send_proc, dispose, receive,
  on_timeout, step, run, count_wait, event1, event2,
}

-- The packet in the buffer.
abbrev pub held : Router → List Event
held s = if s.empty then [] else s.file_buf ∷ []

-- The packet that an input brings.
abbrev pub arrival : Router → Input → List Event
arrival s (incoming (from_host1 (some bytes)) luck) = event1 (count_wait s) bytes ∷ []
arrival s (incoming (from_host2 (some bytes)) luck) = event2 (count_wait s) bytes ∷ []
arrival s _ = []

unfoldable pub arrivals : Router → List Input → List Event
arrivals s [] = []
arrivals s (i ∷ is) = arrival s i ++ arrivals (step s i).router is

-- The packets that have left the router by some actions.
abbrev pub gone : List Action → List Event
gone [] = []
gone (hold e ∷ rest) = gone rest
gone (forward e ∷ rest) = e ∷ gone rest
gone (drop e ∷ rest) = e ∷ gone rest
gone (flush e ∷ rest) = e ∷ gone rest
gone (lose e ∷ rest) = e ∷ gone rest
gone (lose_held e ∷ rest) = e ∷ gone rest

-- One pass: what was held and what arrived is what has left and what is held now.
abbrev pub Balanced : Router → List Event → Passed → Type 0
Balanced s arrived p = Perm (held s ++ arrived) (gone p.actions ++ held p.router)

-- What was held stands before the packet or behind it.
dispose-order :
    (luck : Luck) (e : Event) (s : Router)
    → (gone (dispose luck e s).actions ++ held (dispose luck e s).router ≡ held s ++ (e ∷ []))
      ⊎ (gone (dispose luck e s).actions ++ held (dispose luck e s).router ≡ e ∷ held s)
unfolding dispose send_proc
dispose-order luck e s = ground arith

of_eq : (xs ys : List Event) → ys ≡ xs → Perm xs ys
of_eq xs ys same = subst (Perm xs) (sym same) (Perm.refl xs)

dispose-Balanced : (luck : Luck) (e : Event) (s : Router) → Balanced s (e ∷ []) (dispose luck e s)
dispose-Balanced luck e s = elim (dispose-order luck e s) [
  | inl same ↦ of_eq _ _ same
  | inr same ↦ Perm.trans (perm_append_comm (held s) (e ∷ [])) (of_eq _ _ same)
]

-- A pass that neither receives nor sends.
quiet-Balanced : (s : Router) → Balanced s [] (record { router = s; actions = [] })
quiet-Balanced s = of_eq _ _ (sym (append-nil (held s)))

received-Balanced :
    (luck : Luck) (e : Event) (s t : Router)
    → held t ≡ held s
    → Balanced s (e ∷ []) (dispose luck e t)
received-Balanced luck e s t same =
    subst
      (λ h.
        Perm (h ++ (e ∷ [])) (gone (dispose luck e t).actions ++ held (dispose luck e t).router))
      same (dispose-Balanced luck e t)

step-Balanced : (s : Router) (i : Input) → Balanced s (arrival s i) (step s i)
unfolding step receive on_timeout send_proc
step-Balanced s select_error = quiet-Balanced s
step-Balanced s (incoming (from_host1 (some bytes)) luck) =
    received-Balanced luck (event1 (count_wait s) bytes) s _ (ground arith)
step-Balanced s (incoming (from_host1 none) luck) = of_eq _ _ ground arith
step-Balanced s (incoming (from_host2 (some bytes)) luck) =
    received-Balanced luck (event2 (count_wait s) bytes) s _ (ground arith)
step-Balanced s (incoming (from_host2 none) luck) = of_eq _ _ ground arith
step-Balanced s (incoming neither luck) = of_eq _ _ ground arith
step-Balanced s (timeout luck) = of_eq _ _ ground arith

gone-append : (xs ys : List Action) → gone (xs ++ ys) ≡ gone xs ++ gone ys
gone-append [] ys = refl
gone-append (hold e ∷ xs) ys = gone-append xs ys
gone-append (forward e ∷ xs) ys = ap (e ∷◌) (gone-append xs ys)
gone-append (drop e ∷ xs) ys = ap (e ∷◌) (gone-append xs ys)
gone-append (flush e ∷ xs) ys = ap (e ∷◌) (gone-append xs ys)
gone-append (lose e ∷ xs) ys = ap (e ∷◌) (gone-append xs ys)
gone-append (lose_held e ∷ xs) ys = ap (e ∷◌) (gone-append xs ys)

-- In every run, the packets that were held or arrive are, in another order, those that left the router
-- (forwarded, dropped, sent late, or lost by a failing sendto) and the one that is still held: none is
-- invented, sent twice or forgotten.
pub run-Balanced : (s : Router) (is : List Input) → Balanced s (arrivals s is) (run s is)
unfolding run arrivals
run-Balanced s [] = quiet-Balanced s
run-Balanced s (i ∷ is) = Perm.trans (of_eq _ _ (append_assoc (held s) (arrival s i) later)) (
    Perm.trans (Perm.append_right later (step-Balanced s i)) (
      Perm.trans (of_eq _ _ (sym (append_assoc (gone first.actions) (held first.router) later))) (
        Perm.trans (Perm.append_left (gone first.actions) (run-Balanced first.router is)) (
          of_eq _ _ (
            ap (◌++ held last.router) (gone-append first.actions last.actions)
            ∙ append_assoc (gone first.actions) (gone last.actions) (held last.router))))))
  where
    first : Passed
    first = step s i

    later : List Event
    later = arrivals first.router is

    last : Passed
    last = run first.router is

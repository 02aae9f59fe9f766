-- ===== src/Router/Tests.antt =====
-- A packet that the router keeps back, and the theorems about the router at its states.
use comp6461_assignment.Base.{ℕ, refl, false, some, List, [], ◌∷◌, ◌++◌, arith}
use mathlib.Core.List.{Perm}
use comp6461_assignment.Router.{
  Event, Router, from_host1, from_host2, Luck, Input, incoming, timeout, run,
}
use comp6461_assignment.Router.Delay.{timeouts, Releases, run-Releases}
use comp6461_assignment.Router.Delivery.{held, arrivals, gone, run-Balanced}

abbrev packet : ℕ → ℕ → Event
packet number byte = record { count = number; destination = 2; contents = byte ∷ [] }

abbrev good_luck : Luck
good_luck = record { delayed = false; damaged = false; send_fails = false; proc_fails = false }

abbrev holding : Router
holding = record { empty = false; file_buf = packet 0 5; count1 = 1; count2 = 0; wait_count = 0 }

abbrev quiet : List Input
quiet = timeout good_luck ∷ timeout good_luck ∷ timeout good_luck ∷ []

run-Releases_example : Releases holding.file_buf (run holding quiet).actions
unfolding timeouts
run-Releases_example = run-Releases holding quiet refl (omega arith) (omega arith)

abbrev traffic : List Input
traffic =
    incoming (from_host1 (some (6 ∷ []))) good_luck
    ∷ incoming (from_host2 (some (7 ∷ []))) good_luck
    ∷ []

run-Balanced_example :
    Perm
      (held holding ++ arrivals holding traffic)
      (gone (run holding traffic).actions ++ held (run holding traffic).router)
run-Balanced_example = run-Balanced holding traffic

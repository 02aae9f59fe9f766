-- ===== src/Link/Flow.antt =====
-- Messages on their way in order, each with the origin of the sender's window when it was sent, or
-- when the message that it answers was: these origins never fall along a channel.
use comp6461_assignment.Base.{ℕ, ◌≤◌, List, [], ◌∷◌, ◌++◌, arith}
use comp6461_assignment.Message.{Msg}

module _ (P : ℕ → Msg → Type 0) where
  abbrev pub Flow : ℕ → ℕ → List Msg → Type 0
  Flow lo hi [] = lo ≤ hi
  Flow lo hi (m ∷ ms) = (b : ℕ) × (lo ≤ b) × P b m × Flow b hi ms

  pub Flow-le : (lo hi : ℕ) (ms : List Msg) → Flow lo hi ms → lo ≤ hi
  Flow-le lo hi [] h = h
  Flow-le lo hi (m ∷ ms) (b, le, p, rest) = omega (arith, Flow-le b hi ms rest)

  pub Flow-mono : (lo hi hi' : ℕ) (ms : List Msg) → hi ≤ hi' → Flow lo hi ms → Flow lo hi' ms
  Flow-mono lo hi hi' [] le h = omega arith
  Flow-mono lo hi hi' (m ∷ ms) le (b, a, p, rest) = (b, a, p, Flow-mono b hi hi' ms le rest)

  pub Flow-append :
      (lo hi b : ℕ) (ms : List Msg) (m : Msg)
      → Flow lo hi ms
      → hi ≤ b
      → P b m
      → Flow lo b (ms ++ m ∷ [])
  Flow-append lo hi b [] m h le p = (b, omega arith, p, omega arith)
  Flow-append lo hi b (x ∷ ms) m (c, a, q, rest) le p = (c, a, q, Flow-append c hi b ms m rest le p)

  pub Flow-lower : (lo lo' hi : ℕ) (ms : List Msg) → lo ≤ lo' → Flow lo' hi ms → Flow lo hi ms
  Flow-lower lo lo' hi [] le h = omega arith
  Flow-lower lo lo' hi (m ∷ ms) le (b, a, p, rest) = (b, omega arith, p, rest)

pub Flow-map :
    (P Q : ℕ → Msg → Type 0) (lo hi : ℕ) (ms : List Msg)
    → ((b : ℕ) (m : Msg) → P b m → Q b m)
    → Flow P lo hi ms
    → Flow Q lo hi ms
Flow-map P Q lo hi [] f h = h
Flow-map P Q lo hi (m ∷ ms) f (b, a, p, rest) = (b, a, f b m p, Flow-map P Q b hi ms f rest)

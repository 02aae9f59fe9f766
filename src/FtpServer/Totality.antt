-- ===== src/FtpServer/Totality.antt =====
-- FtpServer handles every message of a client whose thread still runs.
use comp6461_assignment.Base.{ℕ, ◌%◌, ◌≡◌, true, false, Option, some, List, ◌∷◌, ◌++◌}
use comp6461_assignment.Message.{Msg}
use comp6461_assignment.FtpServer.{FtpServer, Result, ok}

-- The thread of the id can be given a message.
abbrev Ready : FtpServer → ℕ → Type 0
Ready s id = (s.thread_locks id ≡ true) × (s.unread id ≡ false)

-- An answer names a thread that can be given a message.
Locked : Option ℕ × FtpServer → Type 0
Locked (o, s) = (id : ℕ) → o ≡ some id → Ready s id

-- A call returns, and what it returns has a property.
abbrev Ends : {A : Type 0} → (A → Type 0) → Result A → Type 0
Ends {A} P r = (a : A) × (r ≡ ok a) × P a

Running : ℕ × FtpServer → Type 0
Running (id, s) = Ready s id

module _ (before after : List ℕ) (draw : ℕ) where
  draws : List ℕ
  draws = before ++ draw ∷ after

  module _ (m : Msg) where
    Free : FtpServer → Type 0
    Free s = s.thread_locks (draw % 256) ≡ false

    -- The thread of the message's client, if it has one, still runs its loop and has taken its messages.
    abbrev pub Serves : FtpServer → Type 0
    Serves s =
        (current : ℕ)
        → s.client_ids m.client_id ≡ some current
        → (s.ended current ≡ false) × (s.unread current ≡ false)

-- ===== src/FtpServer/Running.antt =====
-- Where ids are not reused, the thread of each client of FtpServer still runs.
use comp6461_assignment.Base.{ℕ, ◌≡◌, ◌≢◌, Bool, true, false, Option, none, some}
use comp6461_assignment.Base.Int.{ℤ}
use comp6461_assignment.Message.{Msg}
use comp6461_assignment.FtpServer.{FtpServer}

-- The thread of the id has a lock, and runs its loop, with *isActive set, and has taken its messages.
abbrev pub Runs : FtpServer → ℕ → Type 0
Runs s i =
    (s.ended i ≡ false)
    × (s.unread i ≡ false)
    × (s.is_thread_active i ≡ some true)
    × (s.thread_locks i ≡ true)

-- The thread of each client runs, and isThreadActive has no entry for an id that threadLocks does not have.
pub record Running (s : FtpServer) : Type 0 where
  pub kept : s.are_server_ids_reused ≡ false
  pub runs : (c : ℤ) (i : ℕ) → s.client_ids c ≡ some i → Runs s i
  pub fresh : (i : ℕ) → s.thread_locks i ≡ false → s.is_thread_active i ≡ none

module _ (m : Msg) where
  -- What getServerId leaves: an answer names the thread of the message's client.
  abbrev Names : Option ℕ × FtpServer → Type 0
  Names (o, s) = Running s × ((id : ℕ) → o ≡ some id → s.client_ids m.client_id ≡ some id)

  -- The client's thread has been told to end; those of the others run.
  record Told (s : FtpServer) (t : FtpServer) : Type 0 where
    kept : t.are_server_ids_reused ≡ false
    same : t.client_ids ≡ s.client_ids
    others : (d : ℤ) (i : ℕ) → m.client_id ≢ d → s.client_ids d ≡ some i → Runs t i
    fresh : (i : ℕ) → t.thread_locks i ≡ false → t.is_thread_active i ≡ none

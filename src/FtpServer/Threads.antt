-- ===== src/FtpServer/Threads.antt =====
-- FtpServer::createServerThread and what holds of a Result.
use mathlib.Core.Path.{subst}
use comp6461_assignment.Base.{
  ℕ, ◌%◌, ◌<◌, ◌≡◌, refl, false, List, [], ◌∷◌, ◌++◌, arith, if◌then◌else◌, Bool-cases, inl, inr,
}
use comp6461_assignment.FtpServer.{
  FtpServer, Result, ok, searching, waiting, crashed, ◌then◌, create_server_thread,
  start_server_thread,
}

-- What a call returns, if it returns, has a property.
abbrev pub Gives : {A : Type 0} → (A → Type 0) → Result A → Type 0
Gives P (ok a) = P a
Gives P searching = Unit
Gives P waiting = Unit
Gives P crashed = Unit

module _ {A B : Type 0} (Middle : A → Type 0) (Last : B → Type 0) where
  pub Gives-then :
      (next : A → Result B) (call : Result A)
      → Gives Middle call
      → ((x : A) → Middle x → Gives Last (next x))
      → Gives Last (call then next)
  Gives-then next (ok x) mid later = later x mid
  Gives-then next searching mid later = tt
  Gives-then next waiting mid later = tt
  Gives-then next crashed mid later = tt

pub Gives-ok : {A : Type 0} (P : A → Type 0) (r : Result A) (a : A) → Gives P r → r ≡ ok a → P a
Gives-ok P r a p e = subst (Gives P) e p

-- The id is one that no thread has, and the thread has been started under it.
abbrev pub Opened : FtpServer → ℕ × FtpServer → Type 0
Opened s (id, s') = (s.thread_locks id ≡ false) × (id < 256) × (s' ≡ start_server_thread id s)

pub create_server_thread-Opened :
    (draws : List ℕ) (s : FtpServer) → Gives (Opened s) (create_server_thread draws s)
unfolding create_server_thread
create_server_thread-Opened [] s = tt
create_server_thread-Opened (draw ∷ draws) s = elim (Bool-cases (s.thread_locks (draw % 256))) [
  | inl taken ↦ rw taken (create_server_thread-Opened draws s)
  | inr free ↦ rw free (free, omega arith, refl)
]

-- The loop of createServerThread ends as soon as rand gives an id that no thread has: a thread is
-- started.
pub create_server_thread_ends :
    (before after : List ℕ) (draw : ℕ) (s : FtpServer)
    → s.thread_locks (draw % 256) ≡ false
    → (id : ℕ) × (s' : FtpServer) × (create_server_thread (before ++ draw ∷ after) s ≡ ok (id, s'))
unfolding create_server_thread
create_server_thread_ends [] after draw s free =
    (draw % 256, start_server_thread (draw % 256) s, ground (arith, free))
create_server_thread_ends (taken ∷ before) after draw s free =
    elim (Bool-cases (s.thread_locks (taken % 256))) [
      | inl busy ↦
          let (id, s', e) = create_server_thread_ends before after draw s free in
          (id, s', ground (arith, busy, e))
      | inr idle ↦ (taken % 256, start_server_thread (taken % 256) s, ground (arith, idle))
    ]

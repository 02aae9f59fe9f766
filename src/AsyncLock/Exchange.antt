-- ===== src/AsyncLock/Exchange.antt =====
-- How FtpServer::dispatchMessage and the loop of ServerThread::run use an AsyncLock to pass messages: one
-- thread writes *threadMsg between waitForSignalling and finalizeSignalling, the other reads the same
-- memory as *currentMsg between waitForConsumption and finalizeConsumption. Their steps
-- interleave freely, for as long as *isActive holds.
use comp6461_assignment.Base.{◌≡◌, ◌⊎◌, inl, inr, refl, ap, true, false, not, List, [], ◌∷◌, ◌++◌}
use comp6461_assignment.Message.{Msg}
use comp6461_assignment.AsyncLock.{
  AsyncLock, new_lock, may_consume, finalize_consumption, may_signal, finalize_signalling,
}

-- Where the writer is: before the wait, behind it, or behind the memcpy.
pub data Writer : Type 0 where
  outside entered copied : Writer

-- Where the reader is: at work on *currentMsg, or in the wait.
pub data Reader : Type 0 where
  working waiting : Reader

pub record Exchange : Type 0 where
  pub lock : AsyncLock
  pub writer : Writer
  pub reader : Reader
  pub slot : Msg
  pub sent : List Msg  -- what has been copied into the slot so far
  pub taken : List Msg  -- what the reader has found there

-- `new AsyncLock(true, serverId)`: the new thread runs first, on the message that it starts with.
unfoldable pub start : Msg → Exchange
unfolding new_lock
start blank = record {
  lock = new_lock true;
  writer = outside;
  reader = working;
  slot = blank;
  sent = [];
  taken = [];
}

pub data Step (x : Exchange) : Exchange → Type 0 where
  enter : x.writer ≡ outside → may_signal x.lock ≡ true → Step x (record x { writer = entered })
  copy :
      (m : Msg)
      → x.writer ≡ entered
      → Step x (record x { writer = copied; slot = m; sent = x.sent ++ m ∷ [] })
  leave :
      x.writer ≡ copied → Step x (record x { writer = outside; lock = finalize_signalling x.lock })
  finish :
      x.reader ≡ working
      → Step x (record x { reader = waiting; lock = finalize_consumption x.lock })
  take_up :
      x.reader ≡ waiting
      → may_consume x.lock ≡ true
      → Step x (record x { reader = working; taken = x.taken ++ x.slot ∷ [] })

pub data Reach (first : Exchange) : Exchange → Type 0 where
  here : Reach first first
  next : {x y : Exchange} → Reach first x → Step x y → Reach first y

-- The message in the slot has not been taken.
abbrev pub Pending : Exchange → Type 0
Pending x = x.sent ≡ x.taken ++ x.slot ∷ []

-- Whose turn it is.
pub data Turn (x : Exchange) : Type 0 where
  read :
      x.writer ≡ outside
      → x.reader ≡ working
      → x.lock.is_consumption_state ≡ true
      → x.sent ≡ x.taken
      → Turn x
  idle :
      x.writer ≡ outside
      → x.reader ≡ waiting
      → x.lock.is_consumption_state ≡ false
      → x.sent ≡ x.taken
      → Turn x
  write :
      x.writer ≡ entered
      → x.reader ≡ waiting
      → x.lock.is_consumption_state ≡ false
      → x.sent ≡ x.taken
      → Turn x
  written :
      x.writer ≡ copied
      → x.reader ≡ waiting
      → x.lock.is_consumption_state ≡ false
      → Pending x
      → Turn x
  full :
      x.writer ≡ outside
      → x.reader ≡ waiting
      → x.lock.is_consumption_state ≡ true
      → Pending x
      → Turn x

Step-Turn : {x y : Exchange} → Step x y → Turn x → Turn y
unfolding may_signal may_consume finalize_signalling finalize_consumption
Step-Turn (enter w f) (read a b c d) = cc
Step-Turn (enter w f) (idle a b c d) = write refl b c d
Step-Turn (enter w f) (write a b c d) = cc
Step-Turn (enter w f) (written a b c d) = cc
Step-Turn (enter w f) (full a b c d) = cc
Step-Turn (copy m w) (read a b c d) = cc
Step-Turn (copy m w) (idle a b c d) = cc
Step-Turn {x} (copy m w) (write a b c d) = written refl b c (ap (λ (ms : List Msg). ms ++ m ∷ []) d)
Step-Turn (copy m w) (written a b c d) = cc
Step-Turn (copy m w) (full a b c d) = cc
Step-Turn (leave w) (read a b c d) = cc
Step-Turn (leave w) (idle a b c d) = cc
Step-Turn (leave w) (write a b c d) = cc
Step-Turn (leave w) (written a b c d) = full refl b refl d
Step-Turn (leave w) (full a b c d) = cc
Step-Turn (finish r) (read a b c d) = idle a refl refl d
Step-Turn (finish r) (idle a b c d) = cc
Step-Turn (finish r) (write a b c d) = cc
Step-Turn (finish r) (written a b c d) = cc
Step-Turn (finish r) (full a b c d) = cc
Step-Turn (take_up r f) (read a b c d) = cc
Step-Turn (take_up r f) (idle a b c d) = cc
Step-Turn (take_up r f) (write a b c d) = cc
Step-Turn (take_up r f) (written a b c d) = cc
Step-Turn (take_up r f) (full a b c d) = read a refl c d

-- `blank` is the cleared message that the thread starts with.
module _ (blank : Msg) where
  Reach-Turn : {x : Exchange} → Reach (start blank) x → Turn x
  unfolding start
  Reach-Turn here = read refl refl refl refl
  Reach-Turn (next r s) = Step-Turn s (Reach-Turn r)

  -- Between FtpServer and a ServerThread no message is lost, repeated or overwritten: in every
  -- interleaving the messages that the reader has found are those that the writer has copied, in
  -- order, but for at most the last one, which is in the slot.
  pub exchange_exact :
      {x : Exchange}
      → Reach (start blank) x
      → (x.sent ≡ x.taken) ⊎ (x.sent ≡ x.taken ++ x.slot ∷ [])
  exchange_exact r = elim (Reach-Turn r) [
    | read a b c d ↦ inl d
    | idle a b c d ↦ inl d
    | write a b c d ↦ inl d
    | written a b c d ↦ inr d
    | full a b c d ↦ inr d
  ]

  -- The writer is inside its critical section only while the reader is in its wait and cannot leave it.
  exchange_exclusive :
      {x : Exchange}
      → Reach (start blank) x
      → (x.writer ≡ outside) ⊎ ((x.reader ≡ waiting) × (may_consume x.lock ≡ false))
  unfolding may_consume
  exchange_exclusive r = elim (Reach-Turn r) [
    | read a b c d ↦ inl a
    | idle a b c d ↦ inl a
    | write a b c d ↦ inr (b, c)
    | written a b c d ↦ inr (b, c)
    | full a b c d ↦ inl a
  ]

  -- In every interleaving one of the two threads can go on, if no notification is missed.
  exchange_no_deadlock : {x : Exchange} → Reach (start blank) x → (y : Exchange) × Step x y
  unfolding may_signal may_consume
  exchange_no_deadlock r = elim (Reach-Turn r) [
    | read a b c d ↦ (_, finish b)
    | idle a b c d ↦ (_, enter a (ap not c))
    | write a b c d ↦ (_, copy blank a)
    | written a b c d ↦ (_, leave a)
    | full a b c d ↦ (_, take_up b c)
  ]

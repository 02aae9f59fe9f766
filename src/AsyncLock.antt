-- ===== src/AsyncLock.antt =====
-- FtpOverUdp/Common/AsyncLock.cpp and AsyncLock.h: the flag that two threads take turns by. A wait on the
-- condition variable returns when its predicate holds: it is a test here, and a thread that waits takes
-- no step until the test is true. When a waiting thread is woken is left to the system: a notification
-- that comes between the test and the wait may be missed, since the flag is set outside the mutex.
pub mod Exchange
mod Tests
use comp6461_assignment.Base.{Bool, true, false, not}

pub record AsyncLock : Type 0 where
  pub is_consumption_state : Bool

unfoldable pub new_lock : Bool → AsyncLock
new_lock start_with_consumption = record { is_consumption_state = start_with_consumption }

-- The predicate that waitForConsumption waits for.
unfoldable pub may_consume : AsyncLock → Bool
may_consume l = l.is_consumption_state

unfoldable pub finalize_consumption : AsyncLock → AsyncLock
finalize_consumption l = record l { is_consumption_state = false }

-- The predicate that waitForSignalling waits for.
unfoldable pub may_signal : AsyncLock → Bool
may_signal l = not l.is_consumption_state

unfoldable pub finalize_signalling : AsyncLock → AsyncLock
finalize_signalling l = record l { is_consumption_state = true }

-- ===== src/Router.antt =====
-- FtpOverUdp/Router/Router.cpp and Router.h: the router between the server (peer host 1) and the
-- client multiplexer (peer host 2). It forwards each packet, drops it, or keeps it in a buffer for
-- one delayed packet, which it sends behind the next packet for the same host, or after three time-outs.
-- `step` is the body of the loop in Router::Run. What select, recvfrom, sendto and the random draws
-- give is its input. The two counters of packets and their DWORD copy wrap; wait_count is an int that
-- a run would have to raise two billion times to overflow, and does not wrap here. The catch clause
-- that logs a thrown text is taken to catch it: the loop goes on with the state reached so far.

pub mod Delivery
pub mod Delay
mod Tests
use comp6461_assignment.Base.{
  ℕ, ◌+◌, ◌%◌, ◌^◌, Bool, true, false, not, ◌&&◌, Option, none, some, List, [], ◌∷◌, ◌++◌, leb,
  ◌==◌, if◌then◌else◌,
}

-- EVENT_LIST without its flag: the packet's number, its destination (host 1 or 2), and its bytes.
pub record Event : Type 0 where
  pub count : ℕ
  pub destination : ℕ
  pub contents : List ℕ

pub record Router : Type 0 where
  pub empty : Bool  -- FileBuf.empty
  pub file_buf : Event
  pub count1 : ℕ
  pub count2 : ℕ
  pub wait_count : ℕ

-- Which socket is ready, with what recvfrom gives; `none` is SOCKET_ERROR.
pub data Ready : Type 0 where
  from_host1 : Option (List ℕ) → Ready
  from_host2 : Option (List ℕ) → Ready
  neither : Ready

-- What IsDelayed and IsDamage draw, and whether sendto fails, for the packet and in SendProc.
pub record Luck : Type 0 where
  pub delayed : Bool
  pub damaged : Bool
  pub send_fails : Bool
  pub proc_fails : Bool

-- One pass of the loop: select fails, finds a packet, or times out.
pub data Input : Type 0 where
  select_error : Input
  incoming : Ready → Luck → Input
  timeout : Luck → Input

-- What becomes of a packet.
pub data Action : Type 0 where
  forward : Event → Action  -- sent on as it came
  hold : Event → Action  -- put into the buffer
  drop : Event → Action  -- dropped by IsDamage
  flush : Event → Action  -- sent by SendProc
  lose : Event → Action  -- lost, because sendto failed
  lose_held : Event → Action  -- lost by SendProc, because sendto failed

pub record Passed : Type 0 where
  pub router : Router
  pub actions : List Action

-- The constructor, as far as the loop is concerned; the buffer holds what the memory held.
unfoldable pub new_router : Event → Router
new_router raw = record { empty = true; file_buf = raw; count1 = 0; count2 = 0; wait_count = 0 }

-- Router::SendProc
unfoldable pub send_proc : Luck → Router → Passed
send_proc luck s = record {
  router = record s { empty = true };
  actions = (if luck.proc_fails then lose_held s.file_buf else flush s.file_buf) ∷ [];
}

-- SendProc with `wait_count = 0` beside it.
abbrev pub release : Luck → Router → Passed
release luck s = send_proc luck (record s { wait_count = 0 })

-- From `if(FileBuf.empty&&IsDelayed())` on, for a packet that has been received.
unfoldable pub dispose : Luck → Event → Router → Passed
dispose luck e s =
    if s.empty && luck.delayed
    then record { router = record s { empty = false; file_buf = e }; actions = hold e ∷ [] }
    else if luck.damaged
    then record { router = s; actions = drop e ∷ [] }
    else if luck.send_fails
    then record { router = s; actions = lose e ∷ [] }
    else if not s.empty && s.file_buf.destination == e.destination
    then record { router = flushed.router; actions = forward e ∷ flushed.actions }
    else record { router = s; actions = forward e ∷ [] }
  where
    flushed : Passed
    flushed = release luck s

-- `if(!FileBuf.empty) wait_count++;`
abbrev pub count_wait : Router → Router
count_wait s = if s.empty then s else record s { wait_count = s.wait_count + 1 }

-- The packet that a socket gives, by the router's counters.
abbrev pub event1 : Router → List ℕ → Event
event1 s bytes = record { count = s.count1 % 2 ^ 32; destination = 2; contents = bytes }

abbrev pub event2 : Router → List ℕ → Event
event2 s bytes = record { count = s.count2 % 2 ^ 32; destination = 1; contents = bytes }

unfoldable pub receive : Ready → Luck → Router → Passed
unfolding dispose
receive (from_host1 (some bytes)) luck s =
    dispose luck (event1 s bytes) (record s { count1 = (s.count1 + 1) % 2 ^ 64 })
receive (from_host2 (some bytes)) luck s =
    dispose luck (event2 s bytes) (record s { count2 = (s.count2 + 1) % 2 ^ 64 })
receive (from_host1 none) luck s = record { router = s; actions = [] }
receive (from_host2 none) luck s = record { router = s; actions = [] }
receive neither luck s = record { router = s; actions = [] }

unfoldable pub on_timeout : Luck → Router → Passed
on_timeout luck s =
    if s.empty
    then record { router = s; actions = [] }
    else if leb 3 (s.wait_count + 1)
    then release luck s
    else record { router = record s { wait_count = s.wait_count + 1 }; actions = [] }

unfoldable pub step : Router → Input → Passed
unfolding receive on_timeout send_proc
step s select_error = record { router = s; actions = [] }
step s (incoming ready luck) = receive ready luck (count_wait s)
step s (timeout luck) = on_timeout luck s

unfoldable pub run : Router → List Input → Passed
unfolding step
run s [] = record { router = s; actions = [] }
run s (i ∷ is) =
    let first = step s i in
    let rest = run first.router is in
    record { router = rest.router; actions = first.actions ++ rest.actions }

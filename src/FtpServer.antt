-- ===== src/FtpServer.antt =====
-- FtpOverUdp/UdpServer/FtpServer.cpp and FtpServer.h: the server's loop, which finds the thread that
-- serves the client of each message, or starts one, and hands the message over. The maps of the class
-- are functions to Option. The thread of an id is a ServerThread, which takes what is handed over in
-- order: `handed_over` lists it. A thread that has read its *isActive as false has ended: it takes no
-- further message, and the wait for it to take one has no end (`waiting`). The socket and the log are
-- left out. What rand gives is a list: a server that has drawn it to the end
-- without finding an id is still in the loop of createServerThread.
pub mod Threads
pub mod Clients
pub mod Dispatch
pub mod Totality
pub mod Running
mod Tests
use comp6461_assignment.Base.{
  ℕ, ◌%◌, Bool, true, false, Option, none, some, List, [], ◌∷◌, ◌++◌, ◌==◌, if◌then◌else◌, ◌&&◌,
  ◌||◌, not, update, replicate,
}
use comp6461_assignment.Base.Int.{ℤ, pos, ◌==ℤ◌}
use comp6461_assignment.Message.{Msg, MsgType, null_server_id, buffer_length}

-- A message that a thread has been given, and the value of *isActive that it reads then.
pub record Handover : Type 0 where
  pub thread : ℕ
  pub msg : Msg
  pub active : Bool

pub record FtpServer : Type 0 where
  pub are_server_ids_reused : Bool
  pub client_ids : ℤ → Option ℕ
  pub past_server_ids : ℤ → Option ℕ
  pub messages : ℕ → Option Msg
  pub is_thread_active : ℕ → Option Bool
  pub thread_locks : ℕ → Bool  -- the keys of threadLocks
  -- The thread of the id has left its loop; its AsyncLock holds a message that it has not taken.
  pub ended : ℕ → Bool
  pub unread : ℕ → Bool
  pub handed_over : List Handover

-- How a call ends. `searching` has found no id among the draws; `waiting` is in waitForSignalling for a
-- message that no thread takes; `crashed` has followed the null pointer
-- that operator[] of threadLocks gives for a missing key.
pub data Result (A : Type 0) : Type 0 where
  ok : A → Result A
  searching : Result A
  waiting : Result A
  crashed : Result A

infixl 5 ◌then◌
abbrev pub ◌then◌ : {A B : Type 0} → Result A → (A → Result B) → Result B
ok a then f = f a
searching then f = searching
waiting then f = waiting
crashed then f = crashed

-- m[key] = value
abbrev pub put : {A : Type 0} → (ℤ → Option A) → ℤ → A → ℤ → Option A
put m key value k = if key ==ℤ k then some value else m k

-- std::map::insert, which keeps the value of a key that is there.
abbrev pub keep : {A : Type 0} → Option A → A → A
keep none value = value
keep (some old) value = old

unfoldable pub new_server : Bool → FtpServer
new_server reused = record {
  are_server_ids_reused = reused;
  client_ids = λ _. none;
  past_server_ids = λ _. none;
  messages = λ _. none;
  is_thread_active = λ _. none;
  thread_locks = λ _. false;
  ended = λ _. false;
  unread = λ _. false;
  handed_over = [];
}

abbrev pub cleared_msg : Msg
cleared_msg = record {
  client_id = pos 0;
  server_id = pos 0;
  type = MsgType.other 0;
  length = 0;
  sequence_number = 0;
  buffer = replicate buffer_length 0;
}

-- The part of createServerThread behind its loop.
abbrev pub start_server_thread : ℕ → FtpServer → FtpServer
start_server_thread id s = record s {
  messages = update s.messages id (some (keep (s.messages id) cleared_msg));
  is_thread_active = update s.is_thread_active id (some (keep (s.is_thread_active id) true));
  thread_locks = update s.thread_locks id true;
  ended = update s.ended id false;
  unread = update s.unread id false;
}

-- createServerThread, with the new id.
unfoldable pub create_server_thread : List ℕ → FtpServer → Result (ℕ × FtpServer)
create_server_thread [] s = searching
create_server_thread (draw ∷ draws) s =
    let rest = create_server_thread draws s in
    let id = draw % 256 in if s.thread_locks id then rest else ok (id, start_server_thread id s)

-- The message as a thread is given it.
abbrev pub handover : ℕ → Msg → FtpServer → Handover
handover id m s = record {
  thread = id;
  msg = record m { server_id = pos id };
  active = keep (s.is_thread_active id) false;
}

-- A thread takes the message and, when *isActive is false, ends; one that has ended leaves it.
abbrev pub handed : ℕ → Msg → FtpServer → FtpServer
handed id m s = record s {
  messages = update s.messages id (some (record m { server_id = pos id }));
  ended = update s.ended id (s.ended id || not (keep (s.is_thread_active id) false));
  unread = update s.unread id (s.ended id);
  handed_over = s.handed_over ++ handover id m s ∷ [];
}

-- dispatchMessage for an id that is not NULL_SERVER_ID.
unfoldable pub hand_over : ℕ → Msg → FtpServer → Result FtpServer
hand_over id m s =
    if s.thread_locks id then if s.unread id then waiting else ok (handed id m s) else crashed

unfoldable pub dispatch_message : Option ℕ → Msg → FtpServer → Result FtpServer
dispatch_message none m s = ok s
dispatch_message (some id) m s = hand_over id m s

-- The last lines of getServerId; `none` is NULL_SERVER_ID.
abbrev pub answer : ℤ → ℕ → FtpServer → Option ℕ × FtpServer
answer requested current s = (
  if requested ==ℤ null_server_id
      then some current
      else if requested ==ℤ pos current
      then some current
      else none,
  s,
)

-- getServerId for a client without a thread.
unfoldable pub admit_client : List ℕ → Msg → FtpServer → Result (Option ℕ × FtpServer)
admit_client draws m s = create_server_thread draws s then λ (id, s'). ok (
    answer m.server_id id (record s' {
      client_ids = put s'.client_ids m.client_id id;
      past_server_ids =
          put s'.past_server_ids m.client_id (keep (s'.past_server_ids m.client_id) id);
    }))

-- `if (areServerIdsReused)`
abbrev pub forget_thread : ℕ → FtpServer → FtpServer
forget_thread id s =
    if s.are_server_ids_reused
    then record s {
      messages = update s.messages id none;
      thread_locks = update s.thread_locks id false;
    }
    else s

-- `currentLock->waitForSignalling()` there.
unfoldable pub wait_to_forget : ℕ → FtpServer → Result FtpServer
wait_to_forget id s = if s.are_server_ids_reused && s.unread id then waiting else ok s

-- getServerId for a client that shakes hands again with the thread that serves it.
unfoldable pub restart_client : List ℕ → ℕ → Msg → FtpServer → Result (Option ℕ × FtpServer)
restart_client draws current m s =
    hand_over current m (record s {
      past_server_ids = put s.past_server_ids m.client_id current;
      is_thread_active = update s.is_thread_active current (some false);
    })
    then wait_to_forget current
    then λ told. create_server_thread draws (forget_thread current told) then λ (id, s').
        ok (answer m.server_id id (record s' { client_ids = put s'.client_ids m.client_id id }))

abbrev pub is_handshake : MsgType → Bool
is_handshake MsgType.handshake = true
is_handshake _ = false

-- getServerId for a client that shakes hands with another thread; reading pastServerIds[clientId] makes
-- an entry 0 where there is none.
unfoldable pub reconnect_client : ℕ → Msg → FtpServer → Option ℕ × FtpServer
reconnect_client current m s =
    answer (if m.server_id ==ℤ pos past then pos current else m.server_id) current
      (record s { past_server_ids = put s.past_server_ids m.client_id past })
  where
    past : ℕ
    past = keep (s.past_server_ids m.client_id) 0

unfoldable pub get_server_id : List ℕ → Msg → FtpServer → Result (Option ℕ × FtpServer)
get_server_id draws m s = elim (s.client_ids m.client_id) [
  | none ↦ admit_client draws m s
  | some current ↦
      if is_handshake m.type
      then if m.server_id ==ℤ pos current
        then restart_client draws current m s
        else ok (reconnect_client current m s)
      else ok (answer m.server_id current s)
]

-- One pass of the loop in start.
unfoldable pub handle_message : List ℕ → Msg → FtpServer → Result FtpServer
handle_message draws m s = get_server_id draws m s then λ (id, s'). dispatch_message id m s'

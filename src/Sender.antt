-- ===== src/Sender.antt =====
-- FtpOverUdp/Common/Sender.cpp and Sender.h: the sending end of a transfer. It cuts the payload into
-- packets, starts a SenderThread for each packet of the window, which repeats the packet until its
-- flag is set, and moves the window as acknowledgements come in.
--
-- A SenderThread and the bool that `new bool(false)` allocates for it are created together: both
-- are named here by the thread's number, in `Workers`. So currentWindow and windowState hold numbers
-- of workers, and setting `*windowState[i]` is seen by the thread that shares the flag.
-- currentAck points to the message that the caller receives into: `process_ack` takes what it holds
-- at the call. The socket and the address are left out.
pub mod Window
mod Mark
mod Slide
mod Normalize
pub mod Ack
pub mod Passes
pub mod Limits
mod Tests
use comp6461_assignment.Base.{
  ℕ, zero, suc, ◌+◌, ◌-◌, ◌*◌, ◌/◌, ◌%◌, Bool, true, false, not, ◌&&◌, Option, none, some, List, [],
  ◌∷◌, ◌++◌, ltb, leb, ◌==◌, if◌then◌else◌, is_some, take, drop, length, replicate, update,
}
use comp6461_assignment.Base.Int.{ℤ}
use comp6461_assignment.Message.{
  Msg, MsgType, Exception, payload_null, sequence_range, window_size, buffer_length, eof_text,
  int_bytes,
}

-- The SenderThreads started so far: worker f has number f < next.
pub record Workers : Type 0 where
  pub next : ℕ
  pub is_acked : ℕ → Bool
  pub msg : ℕ → Msg

-- The fields that only the constructor and initializePayload set.
pub record Job : Type 0 where
  pub server_id : ℤ
  pub client_id : ℤ
  pub complete_payload : List ℕ
  pub number_of_packets : ℕ
  pub payload_size : ℕ
  pub sequence_seed : ℕ

pub record Sender : Type 0 where
  pub job : Job
  pub open job use *
  pub is_complete : Bool
  pub current_window : ℕ → Option ℕ  -- SenderThread *currentWindow[SEQUENCE_RANGE]
  pub window_state : ℕ → Option ℕ  -- bool *windowState[SEQUENCE_RANGE]
  pub current_window_origin : ℕ
  pub workers : Workers
  pub open workers use *

-- The message that the constructor of SenderThread builds: the contents in a cleared buffer.
abbrev pub thread_msg : ℤ → ℤ → MsgType → ℕ → List ℕ → ℕ → Msg
thread_msg server client type seq contents size = record {
  client_id = client;
  server_id = server;
  type = type;
  length = size;
  sequence_number = seq;
  buffer = take size contents ++ replicate (buffer_length - size) 0;
}

-- The constructor of SenderThread, and start: a new worker whose flag is not set.
abbrev pub start_thread : Workers → Msg → Workers
start_thread w m = record {
  next = w.next + 1;
  is_acked = update w.is_acked w.next false;
  msg = update w.msg w.next m;
}

-- One pass of the loop of SenderThread::run: the message that it sends, or none, and the loop ends.
unfoldable pub run_pass : Workers → ℕ → Option Msg
run_pass w f = if w.is_acked f then none else some (w.msg f)

-- The constructor leaves the fields other than these as the memory was.
unfoldable pub new_sender : Sender → ℤ → ℤ → Sender
new_sender raw server client = record raw {
  job = record raw.job { server_id = server; client_id = client; complete_payload = [] };
  current_window = λ _. none;
  window_state = λ _. none;
}

-- numberOfPackets
abbrev pub packet_count : ℕ → ℕ
packet_count size =
    if ltb 0 (size % buffer_length) then size / buffer_length + 1 else size / buffer_length

pub data Initialized : Type 0 where
  initialized : Sender → Initialized
  refused : Exception → Initialized

-- The last bytes of the allocation stay uninitialised; they are not in the list.
unfoldable pub initialize_payload : Sender → Option (List ℕ) → ℕ → ℕ → Initialized
initialize_payload s none size seed = refused payload_null
initialize_payload s (some contents) size seed = initialized (record s {
  job = record s.job {
    complete_payload = take size contents;
    number_of_packets = packet_count size;
    payload_size = size;
    sequence_seed = seed;
  };
  current_window = λ _. none;
  window_state = λ _. none;
  current_window_origin = 0;
  is_complete = false;
})

-- currentSize and the bytes at &completePayload[currentChar]
abbrev pub packet_size : Job → ℕ → ℕ
packet_size job j =
    if j == job.number_of_packets - 1 then job.payload_size - j * buffer_length else buffer_length

-- Packet j, as normalizeCurrentWindow makes it.
abbrev pub packet_msg : Job → ℕ → Msg
packet_msg job j =
    thread_msg job.server_id job.client_id MsgType.resp ((j + job.sequence_seed) % sequence_range)
      (drop (j * buffer_length) job.complete_payload) (packet_size job j)

-- The body of the loop in normalizeCurrentWindow.
unfoldable pub start_packet : Sender → ℕ → Sender
start_packet s i =
    let index = (s.current_window_origin + s.sequence_seed + i) % sequence_range in
    if is_some (s.window_state index) then s else record s {
      window_state = update s.window_state index (some s.next);
      current_window = update s.current_window index (some s.next);
      workers =
          start_thread s.workers
            (record (packet_msg s.job (s.current_window_origin + i)) { sequence_number = index });
    }

-- The loop itself, from i on, with at most `rounds` passes.
unfoldable pub normalize_from : ℕ → ℕ → Sender → Sender
normalize_from zero i s = s
normalize_from (suc rounds) i s =
    let rest = normalize_from rounds (i + 1) (start_packet s i) in
    if ltb (s.current_window_origin + i) s.number_of_packets then rest else s

unfoldable pub normalize_current_window : Sender → Sender
normalize_current_window = normalize_from window_size 0

unfoldable pub send : Sender → Sender
send s = normalize_current_window s

-- The message of finalizePayload: "EOF", its NUL, and the payload's size.
abbrev pub eof_msg : Job → Msg
eof_msg job =
    thread_msg job.server_id job.client_id MsgType.resp_err
      ((job.number_of_packets + job.sequence_seed) % sequence_range)
      (eof_text ++ 0 ∷ int_bytes job.payload_size) 8

unfoldable pub finalize_payload : Sender → Sender
finalize_payload s =
    let index = (s.number_of_packets + s.sequence_seed) % sequence_range in
    record s {
      window_state = update s.window_state index (some s.next);
      current_window = update s.current_window index (some s.next);
      workers = start_thread s.workers (eof_msg s.job);
    }

-- `if (windowState[index] != NULL) *windowState[index] = true;`
abbrev pub set_flag : Option ℕ → Workers → Workers
set_flag none w = w
set_flag (some f) w = record w { is_acked = update w.is_acked f true }

-- The first lines of processAck.
unfoldable pub mark : Sender → ℕ → Sender
mark s index = record s {
  workers = set_flag (s.window_state index) s.workers;
  current_window = update s.current_window index none;
}

-- The slot of the packet at the window's origin.
abbrev pub origin_index : Sender → ℕ
origin_index s = (s.current_window_origin + s.sequence_seed) % sequence_range

-- The loop of processAck that moves the window, with at most `rounds` passes.
unfoldable pub slide : ℕ → Sender → Sender
slide zero s = s
slide (suc rounds) s =
    let rest = slide rounds (record s {
      window_state = update s.window_state (origin_index s) none;
      current_window_origin = s.current_window_origin + 1;
    }) in
    if ltb s.current_window_origin s.number_of_packets
      && not (is_some (s.current_window (origin_index s)))
    then rest
    else s

-- The end of processAck.
unfoldable pub refill : Sender → Sender
refill s =
    if s.current_window_origin == s.number_of_packets
    then finalize_payload s
    else normalize_current_window s

-- processAck; `none` is an index outside the arrays, which C++ leaves undefined.
unfoldable pub process_ack : Sender → Msg → Option Sender
process_ack s ack =
    let index = ack.sequence_number in
    let marked = mark s index in
    if leb sequence_range index
    then none
    else if s.current_window_origin == s.number_of_packets
    then some (record marked { is_complete = index == origin_index s })
    else some (refill (slide window_size marked))

unfoldable pub is_payload_sent : Sender → Bool
is_payload_sent s = s.is_complete

unfoldable pub final_sequence_number : Sender → ℕ
final_sequence_number s = (s.sequence_seed + s.number_of_packets + 1) % sequence_range

-- The body of the loop in terminateCurrentTransmission.
unfoldable pub release_slot : Sender → ℕ → Sender
release_slot s i =
    if is_some (s.window_state i)
    then record s {
      workers = set_flag (s.window_state i) s.workers;
      window_state = update s.window_state i none;
      current_window = update s.current_window i none;
    }
    else s

-- `for (int i = 0; i < WINDOW_SIZE; i++)`
unfoldable pub terminate_current_transmission : Sender → Sender
terminate_current_transmission s =
    release_slot (release_slot (release_slot (record s { is_complete = true }) 0) 1) 2

-- ===== src/FtpClient/Defs.antt =====
-- The state of the client, what it receives, and its messages.
use comp6461_assignment.Base.{
  ℕ, Bool, ◌&&◌, Option, none, some, List, [], ◌∷◌, ◌++◌, length, if◌then◌else◌, ltb,
}
use comp6461_assignment.Base.Int.{ℤ}
use comp6461_assignment.Message.{Msg, MsgType, Exception, buffer_length, strcmp_eq, eof_text}
use comp6461_assignment.Sender.{Sender, Workers, thread_msg, start_thread, set_flag}
use comp6461_assignment.Receiver.{Receiver, is_resp_err}
use comp6461_assignment.ServerThread.Defs.{FileApi}

-- What the socket gives: a message, as msgGet decodes it, or a time-out of select. A recv waits through
-- the time-outs; waitTimeOut tells whether a message comes before the next one.
pub data Event : Type 0 where
  got : Msg → Event
  silent : Event

module _ (api : FileApi) where
  open api use {Disk}

  -- `requests` are the SenderThreads that the client starts by itself; `outbox` lists what msgSend and the
  -- receiver's acknowledgements have sent, the first message first; `server_msg` is the message that the
  -- running method receives into; `printed` is what performList writes between its headings.
  pub record FtpClient : Type 0 where
    pub client_identifier : ℤ
    pub server_identifier : ℤ
    pub sequence_number : ℕ
    pub sync_count : ℕ
    pub files_directory : List ℕ
    pub receiver : Receiver
    pub sender : Sender
    pub requests : Workers
    pub server_msg : Msg
    pub disk : Disk
    pub outbox : List Msg
    pub printed : List ℕ

  -- How a method ends, and the events it leaves: it returns, it returns early without a result, an
  -- exception that nothing catches ends the program, it still waits when the events are used up, or it
  -- accesses memory that is not its own.
  pub data Ended : Type 0 where
    done : FtpClient → List Event → Ended
    gave_up : FtpClient → List Event → Ended
    threw : Exception → FtpClient → Ended
    blocked : FtpClient → Ended
    crashed : Ended

infixl 5 ◌>>=◌
abbrev pub ◌>>=◌ :
    {api : FileApi} → Ended api → (FtpClient api → List Event → Ended api) → Ended api
done c es >>= f = f c es
gave_up c es >>= f = gave_up c es
threw e c >>= f = threw e c
blocked c >>= f = blocked c
crashed >>= f = crashed

abbrev pub is_eof : Msg → Bool
is_eof m = is_resp_err m.type && strcmp_eq m.buffer eof_text

module _ (api : FileApi) where
  -- msgSend, for a message whose buffer holds `bytes` and zeros behind them: MSGHDRSIZE + length bytes go
  -- out, so the message is cut there.
  abbrev pub client_msg : FtpClient api → MsgType → ℕ → List ℕ → Msg
  client_msg c type seq bytes = record {
    client_id = c.client_identifier;
    server_id = c.server_identifier;
    type = type;
    length = length bytes;
    sequence_number = seq;
    buffer = bytes;
  }

  unfoldable pub msg_send : Msg → FtpClient api → FtpClient api
  msg_send m c = record c { outbox = c.outbox ++ m ∷ [] }

  -- `new SenderThread(…)->start()`; the new thread has number `c.requests.next`. The copy into the
  -- message's buffer holds BUFFER_LENGTH bytes.
  unfoldable pub request : MsgType → List ℕ → FtpClient api → Option (FtpClient api)
  request type bytes c =
      if ltb buffer_length (length bytes)
      then none
      else some (record c {
        requests = start_thread c.requests (
            thread_msg c.server_identifier c.client_identifier type c.sequence_number bytes
              (length bytes));
      })

  -- `*isAcked = true` for the thread with number f.
  abbrev pub acknowledge : ℕ → FtpClient api → FtpClient api
  acknowledge f c = record c { requests = set_flag (some f) c.requests }

  -- `while (waitTimeOut() > 0)` behind a transfer: EOF messages that come again are acknowledged.
  unfoldable pub answer_eof : List Event → FtpClient api → Ended api
  unfolding msg_send
  answer_eof [] c = blocked c
  answer_eof (silent ∷ es) c = done c es
  answer_eof (got m ∷ es) c = answer_eof es (
      if is_eof m
      then msg_send (client_msg c MsgType.ack m.sequence_number []) (record c { server_msg = m })
      else record c { server_msg = m })

  -- `while (waitTimeOut() > 0)` in syncServer: what is queued is dropped.
  unfoldable pub clear_queue : List Event → FtpClient api → Ended api
  clear_queue [] c = blocked c
  clear_queue (silent ∷ es) c = done c es
  clear_queue (got m ∷ es) c = clear_queue es c

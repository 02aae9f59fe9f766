-- ===== src/Link/Menu.antt =====
-- FtpClient::showMenu up to the chosen operation, and the new ServerThread that its syncServer is given.
use comp6461_assignment.Base.{
  ℕ, zero, suc, ◌+◌, ◌%◌, ◌^◌, ◌≤◌, ◌<◌, ◌≡◌, ◌≢◌, refl, ap, ◌∙◌, some, List, [], ◌∷◌, ◌++◌, arith,
  take, replicate, map,
}
use comp6461_assignment.Base.Int.{pos, ==ℤ_iff}
use comp6461_assignment.Message.{
  Msg, MsgType, int_bytes, int_at-int_bytes, sequence_range, buffer_length,
}
use comp6461_assignment.Sender.{Sender, new_sender, thread_msg, start_thread}
use comp6461_assignment.Receiver.{Receiver, new_receiver}
use comp6461_assignment.ServerThread.Defs.{
  FileApi, Thread, ok, starting_handshake, waiting_for_request, new_thread, server_directory, reply,
  send_msg,
}
use comp6461_assignment.ServerThread.Requests.{init_server_with_client_data, start_handshake}
use comp6461_assignment.ServerThread.Run.{on_request, on_state, pass}
use comp6461_assignment.ServerThread.Endings.{Runs, run-cons}
use comp6461_assignment.ServerThread.Saving.{pass-waiting}
use comp6461_assignment.FtpClient.Defs.{
  Event, got, silent, FtpClient, done, acknowledge, clear_queue, request, Ended, ◌>>=◌,
}
use comp6461_assignment.FtpClient.Menu.{
  Choice, await_sync, is_sync_answer, shake_hands, sync_server, next_number, perform, show_menu,
}

module _ (api : FileApi) where
  open api use {Disk}

  -- The client when it sends its handshake, and the message.
  abbrev pub counted : FtpClient api → FtpClient api
  counted c = record (next_number api c) { sync_count = c.sync_count + 1 }

  abbrev pub handshake : FtpClient api → Msg
  handshake c =
      thread_msg c.server_identifier c.client_identifier MsgType.handshake
        ((c.sequence_number + 1) % sequence_range) (int_bytes (c.sync_count + 1)) 4

  -- The answer of the thread with number `id`.
  abbrev pub echo : ℕ → FtpClient api → Msg
  echo id c = record {
    client_id = c.client_identifier;
    server_id = pos id;
    type = MsgType.handshake;
    length = 4;
    sequence_number = id % sequence_range;
    buffer = int_bytes (c.sync_count + 1) ++ replicate 252 0;
  }

  -- The client that goes on with the operation.
  abbrev pub synced : ℕ → FtpClient api → FtpClient api
  synced id c = next_number api (
      acknowledge api c.requests.next (record (counted c) {
        requests = start_thread c.requests (handshake c);
        server_msg = echo id c;
        server_identifier = pos id;
      }))

  clear_queue-stale :
      (stale : List Msg) (es : List Event) (c : FtpClient api)
      → clear_queue api (map got stale ++ silent ∷ es) c ≡ done c es
  unfolding clear_queue
  clear_queue-stale [] es c = refl
  clear_queue-stale (m ∷ stale) es c = clear_queue-stale stale es c

  -- A thread that has answered the handshake.
  pub record Ready (id : ℕ) (d : Disk) (s : Sender) (r : Receiver) (t : Thread api) : Type 0 where
    pub server : t.server_id ≡ id
    pub directory : t.files_directory ≡ server_directory
    pub state : t.current_state ≡ waiting_for_request
    pub sender : t.sender ≡ some s
    pub receiver : t.receiver ≡ some r
    pub disk : t.disk ≡ d

  greeted_again :
      (fuel : ℕ) (raw_sender : Sender) (raw_receiver : Receiver) (id : ℕ) (d : Disk) (s : Sender)
      (r : Receiver) (t : Thread api) (m : Msg)
      → m.type ≡ MsgType.handshake
      → m.length ≤ buffer_length
      → Ready id d s r t
      → (t' : Thread api) × (pass api fuel raw_sender raw_receiver (record t { current_msg = m })
          ≡ some (ok t'))
        × Ready id d s r t'
  unfolding on_request start_handshake
  greeted_again fuel raw_sender raw_receiver id d s r t m type small h = (
    send_msg api
        (reply api (record t { current_msg = m }) MsgType.handshake m.length
          (t.server_id % sequence_range) (take m.length m.buffer))
        (record t { current_msg = m }),
    pass-waiting api fuel raw_sender raw_receiver (record t { current_msg = m }) h.state
        ∙ ap (λ (ty : MsgType). some (on_request api ty (record t { current_msg = m }))) type
        ∙ ap some (ground (arith, small)),
    record {
      server = h.server;
      directory = h.directory;
      state = h.state;
      sender = h.sender;
      receiver = h.receiver;
      disk = h.disk;
    },
  )

  -- The handshake is repeated, and then the request comes.
  asks :
      (fuel : ℕ) (raw_sender : Sender) (raw_receiver : Receiver) (id : ℕ) (d : Disk) (s : Sender)
      (r : Receiver) (k : ℕ) (m q : Msg) (ms : List Msg) (P : Thread api → Type 0)
      (t t1 : Thread api)
      → m.type ≡ MsgType.handshake
      → m.length ≤ buffer_length
      → pass api fuel raw_sender raw_receiver t ≡ some (ok t1)
      → Ready id d s r t1
      → ((t2 : Thread api)
          → Ready id d s r t2
          → t2.current_msg ≡ q
          → Runs api fuel raw_sender raw_receiver ms t2 P)
      → Runs api fuel raw_sender raw_receiver (replicate k m ++ q ∷ ms) t P
  asks fuel raw_sender raw_receiver id d s r zero m q ms P t t1 type small passed h then =
      run-cons api fuel raw_sender raw_receiver q ms t t1 P passed (
        then (record t1 { current_msg = q })
          (record {
            server = h.server;
            directory = h.directory;
            state = h.state;
            sender = h.sender;
            receiver = h.receiver;
            disk = h.disk;
          })
          refl)
  asks fuel raw_sender raw_receiver id d s r (suc k) m q ms P t t1 type small passed h then =
      let (t2, passed', h') =
        greeted_again fuel raw_sender raw_receiver id d s r t1 m type small h in
      run-cons api fuel raw_sender raw_receiver m (replicate k m ++ q ∷ ms) t t1 P passed (
        asks fuel raw_sender raw_receiver id d s r k m q ms P (record t1 { current_msg = m }) t2
          type small passed' h' then)

  module _ (id : ℕ) (raw_thread : Thread api) (blank : Msg) (raw_sender : Sender)
      (raw_receiver : Receiver) (c : FtpClient api) where
    -- The thread that is given the handshake.
    abbrev greeted : Thread api
    greeted = record (new_thread api id blank raw_thread) {
      current_state = starting_handshake;
      current_msg = handshake c;
    }

    abbrev connected : Thread api
    connected =
        send_msg api (echo id c) (init_server_with_client_data api raw_sender raw_receiver greeted)

    pass-greeted : (fuel : ℕ) → pass api fuel raw_sender raw_receiver greeted ≡ some (ok connected)
    unfolding pass on_state start_handshake new_thread init_server_with_client_data
    pass-greeted fuel = refl

    -- A new thread is given a handshake, perhaps again, and then a request.
    pub session :
        (fuel k : ℕ) (q : Msg) (ms : List Msg) (P : Thread api → Type 0)
        → ((t : Thread api)
            → Ready id raw_thread.disk
                (new_sender raw_sender (pos id) c.client_identifier)
                (new_receiver raw_receiver (pos id) c.client_identifier)
                t
            → t.current_msg ≡ q
            → Runs api fuel raw_sender raw_receiver ms t P)
        → Runs api fuel raw_sender raw_receiver
            (handshake c ∷ replicate k (handshake c) ++ q ∷ ms)
            (new_thread api id blank raw_thread)
            P
    unfolding pass on_state new_thread init_server_with_client_data
    session fuel k q ms P onward =
        run-cons api fuel raw_sender raw_receiver (handshake c)
          (replicate k (handshake c) ++ q ∷ ms) (new_thread api id blank raw_thread)
          (record (new_thread api id blank raw_thread) { current_state = starting_handshake }) P
          refl
          (asks fuel raw_sender raw_receiver id raw_thread.disk
            (new_sender raw_sender (pos id) c.client_identifier)
            (new_receiver raw_receiver (pos id) c.client_identifier) k (handshake c) q ms P greeted
            connected refl (omega arith) (pass-greeted fuel)
            (record {
              server = refl;
              directory = refl;
              state = refl;
              sender = refl;
              receiver = refl;
              disk = refl;
            })
            onward)

    -- What is queued is dropped; then the answer of the thread comes, and the operation begins.
    pub show_menu-synced :
        (choice : Choice) (stale : List Msg) (es : List Event)
        → c.sync_count + 1 < 2 ^ 32
        → pos id ≢ c.server_identifier
        → show_menu api choice (map got stale ++ silent ∷ got (echo id c) ∷ es) c
          ≡ perform api choice (synced id c) es
    unfolding show_menu sync_server shake_hands request await_sync is_sync_answer
    show_menu-synced choice stale es small other =
        ap (λ e. e >>= shake_hands api >>= onward)
          (clear_queue-stale stale (got (echo id c) ∷ es) (next_number api c))
        ∙ ap (λ e. e >>= onward) answered
      where
        onward : FtpClient api → List Event → Ended api
        onward c es = perform api choice (next_number api c) es

        answered :
            shake_hands api (next_number api c) (got (echo id c) ∷ es)
            ≡ done
                (acknowledge api c.requests.next (record (counted c) {
                  requests = start_thread c.requests (handshake c);
                  server_msg = echo id c;
                  server_identifier = pos id;
                }))
                es
        answered = ground (
          arith,
          ==ℤ_iff (pos id) c.server_identifier,
          int_at-int_bytes (c.sync_count + 1) (replicate 252 0) small,
        )

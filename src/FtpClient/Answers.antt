-- ===== src/FtpClient/Answers.antt =====
-- The client's requests, and what a ServerThread makes of them.
use comp6461_assignment.Base.{
  ℕ, ◌+◌, ◌%◌, ◌≤◌, ◌<◌, ◌≡◌, ◌≢◌, refl, sym, ap, true, none, some, List, [], ◌∷◌, ◌++◌, arith,
  length,
}
use comp6461_assignment.Base.Int.{pos, ==ℤ_iff}
use comp6461_assignment.Message.{
  Msg, MsgType, Exception, no_such_file, sequence_range, buffer_length, nsf_text, returned,
  out_of_bounds,
}
use comp6461_assignment.Message
use comp6461_assignment.Sender.{Sender, run_pass, start_thread, thread_msg}
use comp6461_assignment.Receiver.{Receiver, handle_msg, start_new_payload, is_payload_complete}
use comp6461_assignment.Receiver
use comp6461_assignment.ServerThread.Defs.{
  FileApi, ServerState, initializing, starting_handshake, waiting_for_request, sending, receiving,
  renaming, Thread, ok, reply,
}
use comp6461_assignment.ServerThread.Requests.{send_file, requested_file, no_such_file_reply}
use comp6461_assignment.ServerThread.Run.{
  on_renaming, on_repeated_name, on_request, on_sending, on_receiving, on_state, pass,
}
use comp6461_assignment.ServerThread.Replies.{nsf-status, nsf-refused}
use comp6461_assignment.FtpClient.Defs.{Event, got, FtpClient, gave_up, request, acknowledge}
use comp6461_assignment.FtpClient.Transfers.{
  stopped, deliver, respond, handle_response, receive_loop, fetch, perform_get,
}

module _ (api : FileApi) where
  on_state-terminate :
      (fuel : ℕ) (raw_sender : Sender) (raw_receiver : Receiver) (s : ServerState) (t : Thread api)
      → t.current_msg.type ≡ MsgType.terminate
      → s ≢ initializing
      → s ≢ starting_handshake
      → on_state api fuel raw_sender raw_receiver s t ≡ some (ok t)
  unfolding on_state on_request on_sending on_receiving on_renaming on_repeated_name
  on_state-terminate fuel raw_sender raw_receiver initializing t type a b = absurd (a refl)
  on_state-terminate fuel raw_sender raw_receiver starting_handshake t type a b = absurd (b refl)
  on_state-terminate fuel raw_sender raw_receiver waiting_for_request t type a b =
      ground (arith, type)
  on_state-terminate fuel raw_sender raw_receiver sending t type a b = ground (arith, type)
  on_state-terminate fuel raw_sender raw_receiver receiving t type a b = ground (arith, type)
  on_state-terminate fuel raw_sender raw_receiver renaming t type a b = ground (arith, type)

  -- No thread answers a TERMINATE message: in any state but that of the first handshake it sends nothing
  -- and stays as it is, where terminate waits for an acknowledgement.
  terminate_unanswered :
      (fuel : ℕ) (raw_sender : Sender) (raw_receiver : Receiver) (t : Thread api)
      → t.current_msg.type ≡ MsgType.terminate
      → t.current_state ≢ initializing
      → t.current_state ≢ starting_handshake
      → pass api fuel raw_sender raw_receiver t ≡ some (ok t)
  unfolding pass
  terminate_unanswered fuel raw_sender raw_receiver t type a b =
      on_state-terminate fuel raw_sender raw_receiver t.current_state t type a b

  -- The thread's answer to a request for a file that is not there.
  refusal : Thread api → Msg
  refusal t =
      reply api t MsgType.resp_err 4 ((t.current_msg.sequence_number + 1) % sequence_range) nsf_text

  found_missing :
      (t : Thread api)
      → t.current_msg.length ≤ buffer_length
      → api.read t.disk (requested_file api t) ≡ none
      → send_file api t ≡ ok (no_such_file_reply api t)
  unfolding send_file
  found_missing t small missing = ground (arith, missing)

  deliver-stops :
      (f : ℕ) (m : Msg) (c : FtpClient api)
      → (handle_msg c.receiver m).status ≡ Message.threw no_such_file
      → m.sequence_number ≡ (c.sequence_number + 1) % sequence_range
      → deliver api f true m c
        ≡ stopped (
            acknowledge api f (record c {
              receiver = Receiver.terminate_current_transmission (handle_msg c.receiver m).receiver;
              outbox = c.outbox ++ (handle_msg c.receiver m).sent;
            }))
  unfolding deliver
  deliver-stops f m c status number = ground (arith, status, number)

  -- The client after its request.
  asking : FtpClient api → List ℕ → FtpClient api
  asking c filename = record c {
    receiver = start_new_payload c.receiver c.sequence_number;
    requests = start_thread c.requests (
        thread_msg c.server_identifier c.client_identifier MsgType.get_file c.sequence_number
          filename (length filename));
  }

  -- And when it has been refused.
  left : Thread api → FtpClient api → List ℕ → FtpClient api
  unfolding asking refusal
  left t c filename = acknowledge api c.requests.next (record (asking c filename) {
    server_msg = refusal t;
    receiver =
        Receiver.terminate_current_transmission
          (handle_msg (asking c filename).receiver (refusal t)).receiver;
    outbox = c.outbox ++ (handle_msg (asking c filename).receiver (refusal t)).sent;
  })

  get_stops :
      (t : Thread api) (c : FtpClient api) (filename : List ℕ) (es : List Event)
      → length filename < 20
      → c.server_identifier ≡ pos t.server_id
      → t.current_msg.sequence_number ≡ c.sequence_number
      → perform_get api filename (got (refusal t) ∷ es) c ≡ gave_up (left t c filename) es
  unfolding perform_get fetch request receive_loop is_payload_complete handle_response respond
      start_new_payload left
  get_stops t c filename es short ours number = ground (
    arith,
    short,
    ==ℤ_iff (pos t.server_id) c.server_identifier,
    deliver-stops c.requests.next (refusal t)
        (record (asking c filename) { server_msg = refusal t })
        (nsf-status api _ (refusal t)
          (nsf-refused api t (start_new_payload c.receiver c.sequence_number) (sym number)))
        (ap (λ (k : ℕ). (k + 1) % sequence_range) number),
  )

  -- A file that the server does not have, at both ends: the thread's answer to the request makes performGet
  -- return without a result; no file is written, and the request is not repeated any more.
  pub perform_get_missing :
      (t : Thread api) (c : FtpClient api) (filename : List ℕ) (es : List Event)
      → length filename < 20
      → t.current_msg.length ≤ buffer_length
      → api.read t.disk (requested_file api t) ≡ none
      → c.server_identifier ≡ pos t.server_id
      → t.current_msg.sequence_number ≡ c.sequence_number
      → (m : Msg) × (t' : Thread api) × (c' : FtpClient api) × (send_file api t ≡ ok t')
        × (t'.outbox ≡ t.outbox ++ m ∷ [])
        × (perform_get api filename (got m ∷ es) c ≡ gave_up c' es)
        × (c'.disk ≡ c.disk)
        × (run_pass c'.requests c.requests.next ≡ none)
  unfolding left asking refusal run_pass
  perform_get_missing t c filename es short small missing ours number = (
    refusal t,
    no_such_file_reply api t,
    left t c filename,
    found_missing t small missing,
    refl,
    get_stops t c filename es short ours number,
    refl,
    ground (arith),
  )

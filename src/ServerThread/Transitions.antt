-- ===== src/ServerThread/Transitions.antt =====
-- The states of a ServerThread: which follows which, and that no message makes it access memory that
-- is not its own.
use mathlib.Core.Path.{subst}
use comp6461_assignment.Base.{
  ℕ, ◌≡◌, refl, ◌⊎◌, inl, inr, Option, some, List, ◌++◌, arith, ltb, Bool-cases, Option-cases,
}
use comp6461_assignment.Message.{MsgType, buffer_length, c_string}
use comp6461_assignment.Sender.{Sender, initialize_payload}
use comp6461_assignment.Receiver.{Receiver, handle_msg}
use comp6461_assignment.ServerThread.Defs.{
  FileApi, ServerState, initializing, starting_handshake, waiting_for_request, sending, receiving,
  renaming, Thread, Outcome, ok, threw, crashed, send_ack,
}
use comp6461_assignment.ServerThread.Requests.{
  init_server_with_client_data, start_handshake, start_sender, send_list, send_file, get_file,
  start_rename, perform_rename, requested_file, notify_file_error, dispatch_to_sender,
  dispatch_to_receiver, finish_receiving, save_file, fill_names, has_long_name, names_length,
  begin_sending,
}
use comp6461_assignment.ServerThread.Run.{
  on_request, on_sending, on_receiving, on_repeated_name, on_renaming, on_state, pass, is_ack,
}

-- One pass of ServerThread::run goes along one of these edges.
pub data Edge : ServerState → ServerState → Type 0 where
  started : Edge initializing starting_handshake
  connected : Edge starting_handshake waiting_for_request
  downloads : Edge waiting_for_request sending
  uploads : Edge waiting_for_request receiving
  renames : Edge waiting_for_request renaming
  sent : Edge sending waiting_for_request
  saved : Edge receiving waiting_for_request
  stays : (s : ServerState) → Edge s s

module _ (api : FileApi) where
  -- What a handler that returns leaves is a state along an edge.
  abbrev Leads : ServerState → Outcome api → Type 0
  Leads s (ok t) = Edge s t.current_state
  Leads s (threw e t) = Unit
  Leads s crashed = Unit

  start_handshake-Leads :
      (s : ServerState) (t : Thread api) → Edge s t.current_state → Leads s (start_handshake api t)
  unfolding start_handshake
  start_handshake-Leads s t w = elim (Bool-cases (ltb buffer_length t.current_msg.length)) [
    | inl e ↦ rw e tt
    | inr e ↦ rw e w
  ]

  start_sender-Leads :
      (bytes : List ℕ) (t : Thread api)
      → Leads waiting_for_request (start_sender api bytes (begin_sending api t))
  unfolding start_sender initialize_payload
  start_sender-Leads bytes t = elim (Option-cases t.sender) [
    | inl e ↦ rw e tt
    | inr (s, e) ↦ rw e downloads
  ]

  send_list-Leads : (t : Thread api) → Leads waiting_for_request (send_list api t)
  unfolding send_list
  send_list-Leads t = elim (Bool-cases (has_long_name names)) [
    | inl e ↦ rw e tt
    | inr e ↦ rw e (elim (Option-cases (fill_names (names_length names) 0 names)) [
      | inl f ↦ rw f tt
      | inr (bytes, f) ↦ rw f (start_sender-Leads bytes t)
    ])
  ]
    where
      names : List (List ℕ)
      names = api.file_names t.disk t.files_directory

  send_file-Leads :
      (t : Thread api)
      → t.current_state ≡ waiting_for_request
      → Leads waiting_for_request (send_file api t)
  unfolding send_file
  send_file-Leads t w = elim (Bool-cases (ltb buffer_length t.current_msg.length)) [
    | inl e ↦ rw e tt
    | inr e ↦ rw e (elim (Option-cases (api.read t.disk (requested_file api t))) [
      | inl f ↦ rw f (stays waiting_for_request)
      | inr (bytes, f) ↦ rw f (start_sender-Leads bytes t)
    ])
  ]

  get_file-Leads : (t : Thread api) → Leads waiting_for_request (get_file api t)
  unfolding get_file send_ack
  get_file-Leads t = elim (Option-cases t.receiver) [
    | inl e ↦ rw e tt
    | inr (r, e) ↦ rw e (elim (Bool-cases (ltb buffer_length t.current_msg.length)) [
      | inl f ↦ rw f tt
      | inr f ↦ rw f uploads
    ])
  ]

  start_rename-Leads :
      (t : Thread api)
      → t.current_state ≡ waiting_for_request
      → Edge waiting_for_request (start_rename api t).current_state
  unfolding start_rename send_ack
  start_rename-Leads t w =
      elim (Bool-cases
        (api.path_file_exists t.disk (t.files_directory ++ c_string t.current_msg.buffer))) [
          | inl e ↦ rw e renames
          | inr e ↦ rw (e, w) (stays waiting_for_request)
        ]

  on_request-Leads :
      (type : MsgType) (t : Thread api)
      → t.current_state ≡ waiting_for_request
      → Leads waiting_for_request (on_request api type t)
  unfolding on_request send_ack
  on_request-Leads MsgType.handshake t w =
      start_handshake-Leads waiting_for_request t (rw w (stays waiting_for_request))
  on_request-Leads MsgType.get_list t w = send_list-Leads t
  on_request-Leads MsgType.get_file t w = send_file-Leads t w
  on_request-Leads MsgType.post t w = get_file-Leads t
  on_request-Leads MsgType.put t w = start_rename-Leads t w
  on_request-Leads MsgType.resp t w = rw w (stays waiting_for_request)
  on_request-Leads MsgType.resp_err t w = rw w (stays waiting_for_request)
  on_request-Leads _ t w = rw w (stays waiting_for_request)

  dispatch_to_sender-cases :
      (t t' : Thread api)
      → t.current_state ≡ sending
      → dispatch_to_sender api t ≡ ok t'
      → (t'.current_state ≡ sending) ⊎ (t'.current_state ≡ waiting_for_request)
  unfolding dispatch_to_sender
  dispatch_to_sender-cases t t' w e = ground arith

  edge_from_sending : (s : ServerState) → (s ≡ sending) ⊎ (s ≡ waiting_for_request) → Edge sending s
  edge_from_sending s (inl e) = rw e (stays sending)
  edge_from_sending s (inr e) = rw e sent

  -- An outcome with a property of the state it leaves leads there.
  Leads-intro :
      (s : ServerState) (o : Outcome api)
      → ((t : Thread api) → o ≡ ok t → Edge s t.current_state)
      → Leads s o
  Leads-intro s (ok t) h = h t refl
  Leads-intro s (threw e t) h = tt
  Leads-intro s crashed h = tt

  -- And back.
  by_outcome :
      {s : ServerState} (o : Outcome api) (t : Thread api)
      → Leads s o
      → ◌≡◌ {A = Option (Outcome api)} (some o) (some (ok t))
      → Edge s t.current_state
  by_outcome {s} o t h e = subst (Leads s) (same e) h
    where
      same : {a b : Outcome api} → ◌≡◌ {A = Option (Outcome api)} (some a) (some b) → a ≡ b
      same q = cc

  dispatch_to_sender-Leads :
      (t : Thread api) → t.current_state ≡ sending → Leads sending (dispatch_to_sender api t)
  dispatch_to_sender-Leads t w =
      Leads-intro sending _
        (λ t' e. edge_from_sending t'.current_state (dispatch_to_sender-cases t t' w e))

  on_sending-Leads : (t : Thread api) → t.current_state ≡ sending → Leads sending (on_sending api t)
  unfolding on_sending
  on_sending-Leads t w = elim (Bool-cases (is_ack t.current_msg.type)) [
    | inl e ↦ rw e (dispatch_to_sender-Leads t w)
    | inr e ↦ rw (e, w) (stays sending)
  ]

  pub on_renaming-state : (t : Thread api) → (on_renaming api t).current_state ≡ t.current_state
  unfolding on_renaming on_repeated_name perform_rename send_ack notify_file_error
  on_renaming-state t = ground arith

module _ (api : FileApi) (fuel : ℕ) where
  finish_receiving-cases :
      (r : Receiver) (t t' : Thread api)
      → t.current_state ≡ receiving
      → finish_receiving api fuel r t ≡ some (ok t')
      → (t'.current_state ≡ receiving) ⊎ (t'.current_state ≡ waiting_for_request)
  unfolding finish_receiving save_file
  finish_receiving-cases r t t' w e = ground arith

  dispatch_to_receiver-cases :
      (t t' : Thread api)
      → t.current_state ≡ receiving
      → dispatch_to_receiver api fuel t ≡ some (ok t')
      → (t'.current_state ≡ receiving) ⊎ (t'.current_state ≡ waiting_for_request)
  unfolding dispatch_to_receiver
  dispatch_to_receiver-cases t t' w e = elim (Option-cases t.receiver) [
    | inl none_yet ↦ ground (arith, none_yet)
    | inr (r, known) ↦ ground (
      arith,
      known,
      finish_receiving-cases (handle_msg r t.current_msg).receiver
          (record t {
            receiver = some (handle_msg r t.current_msg).receiver;
            outbox = t.outbox ++ (handle_msg r t.current_msg).sent;
          })
          t',
    )
  ]

  on_receiving-cases :
      (t t' : Thread api)
      → t.current_state ≡ receiving
      → on_receiving api fuel t ≡ some (ok t')
      → (t'.current_state ≡ receiving) ⊎ (t'.current_state ≡ waiting_for_request)
  unfolding on_receiving send_ack
  on_receiving-cases t t' w e = ground (arith, dispatch_to_receiver-cases t t' w)

  edge_from_receiving :
      (s : ServerState) → (s ≡ receiving) ⊎ (s ≡ waiting_for_request) → Edge receiving s
  edge_from_receiving s (inl e) = rw e (stays receiving)
  edge_from_receiving s (inr e) = rw e saved

  module _ (raw_sender : Sender) (raw_receiver : Receiver) where
    on_state-Edge :
        (s : ServerState) (t t' : Thread api)
        → t.current_state ≡ s
        → on_state api fuel raw_sender raw_receiver s t ≡ some (ok t')
        → Edge s t'.current_state
    unfolding on_state init_server_with_client_data
    on_state-Edge initializing t t' w e =
        by_outcome api (ok (record t { current_state = starting_handshake })) t' started e
    on_state-Edge starting_handshake t t' w e =
        by_outcome api _ t'
          (start_handshake-Leads api starting_handshake
            (init_server_with_client_data api raw_sender raw_receiver t) connected)
          e
    on_state-Edge waiting_for_request t t' w e =
        by_outcome api _ t' (on_request-Leads api t.current_msg.type t w) e
    on_state-Edge sending t t' w e = by_outcome api _ t' (on_sending-Leads api t w) e
    on_state-Edge receiving t t' w e =
        edge_from_receiving t'.current_state (on_receiving-cases t t' w e)
    on_state-Edge renaming t t' w e =
        by_outcome api (ok (on_renaming api t)) t'
          (rw (on_renaming-state api t, w) (stays renaming)) e

    -- Every pass of the loop that returns takes the thread along an edge of the state machine: from
    -- INITIALIZING through STARTING_HANDSHAKE to WAITING_FOR_REQUEST, from there into a transfer or
    -- a rename, from a transfer back, and never out of RENAMING; or the state stays as it was.
    pub pass-Edge :
        (t t' : Thread api)
        → pass api fuel raw_sender raw_receiver t ≡ some (ok t')
        → Edge t.current_state t'.current_state
    unfolding pass
    pass-Edge t t' e = on_state-Edge t.current_state t t' refl e

-- ===== src/FtpServer/Dispatch.antt =====
-- Where FtpServer hands a message over.
use mathlib.Core.Path.{subst}
use comp6461_assignment.Base.{
  ℕ, ◌≡◌, ◌≢◌, refl, sym, ap, ◌∙◌, true, false, Option, none, some, List, [], ◌∷◌, ◌++◌, arith,
  update, update_self, if◌then◌else◌, ◌⊎◌, Bool-cases, inl, inr,
}
use comp6461_assignment.Base.Int.{pos, ==ℤ_iff}
use comp6461_assignment.Message.{Msg, null_server_id}
use comp6461_assignment.FtpServer.{
  FtpServer, ok, waiting, wait_to_forget, ◌then◌, put, start_server_thread, create_server_thread,
  handover, handed, hand_over, dispatch_message, answer, restart_client, is_handshake,
  reconnect_client, get_server_id, handle_message,
}
use comp6461_assignment.FtpServer.Threads.{
  Gives, Gives-then, Gives-ok, Opened, create_server_thread-Opened,
}
use comp6461_assignment.FtpServer.Clients.{IsValid, put_self, handle_message-IsValid}

-- A message that is no handshake, of a client that has a thread, under an id that is not that
-- thread's, is discarded: nothing changes and no thread sees it.
handle_message_stale :
    (draws : List ℕ) (m : Msg) (s : FtpServer) (current : ℕ)
    → s.client_ids m.client_id ≡ some current
    → is_handshake m.type ≡ false
    → m.server_id ≢ null_server_id
    → m.server_id ≢ pos current
    → handle_message draws m s ≡ ok s
unfolding handle_message get_server_id dispatch_message
handle_message_stale draws m s current known type given other =
    ground
      (arith, known, type, ==ℤ_iff m.server_id null_server_id, ==ℤ_iff m.server_id (pos current))

-- From a state that satisfies the invariant of the maps, a message that is no handshake and carries
-- no id, or the id of its client's thread, which has taken all its messages, is handed to that thread, with the id filled in.
handle_message_known :
    (draws : List ℕ) (m : Msg) (s : FtpServer) (current : ℕ)
    → IsValid s
    → s.client_ids m.client_id ≡ some current
    → is_handshake m.type ≡ false
    → (m.server_id ≡ null_server_id) ⊎ (m.server_id ≡ pos current)
    → s.unread current ≡ false
    → (s' : FtpServer) × (handle_message draws m s ≡ ok s')
      × (s'.client_ids ≡ s.client_ids)
      × (s'.handed_over ≡ s.handed_over ++ handover current m s ∷ [])
unfolding handle_message get_server_id dispatch_message hand_over
handle_message_known draws m s current v known type given taken = (
  handed current m s,
  ground (
    arith,
    known,
    type,
    given,
    taken,
    v.served m.client_id current,
    ==ℤ_iff m.server_id null_server_id,
    ==ℤ_iff m.server_id (pos current),
  ),
  refl,
  refl,
)

-- The bug of a reused id: isThreadActive keeps the value false that the id's previous thread has left,
-- so the new thread finds its flag down with the first message that it is given.
create_server_thread_inactive :
    (draws : List ℕ) (m : Msg) (s s' : FtpServer) (id : ℕ)
    → create_server_thread draws s ≡ ok (id, s')
    → s.is_thread_active id ≡ some false
    → (t : FtpServer) × (hand_over id m s' ≡ ok t)
      × (t.handed_over
          ≡ s.handed_over
            ++ record { thread = id; msg = record m { server_id = pos id }; active = false } ∷ [])
unfolding hand_over
create_server_thread_inactive draws m s s' id e down =
    let (_, _, same) = Gives-ok (Opened s) _ (id, s') (create_server_thread-Opened draws s) e in
    subst
      (λ s'.
        (t : FtpServer) × (hand_over id m s' ≡ ok t)
        × (t.handed_over
            ≡ s.handed_over
              ++ record { thread = id; msg = record m { server_id = pos id }; active = false }
                ∷ []))
      (sym same) (handed id m (start_server_thread id s), ground arith, ground (arith, down))

-- A client that shakes hands again under the id of its thread.
module _ (m : Msg) (current : ℕ) (type : is_handshake m.type ≡ true)
    (number : m.server_id ≡ pos current) where
  -- The client has another thread, and its old id is the one before.
  Restarted : FtpServer → Type 0
  Restarted s =
      (id : ℕ) × (id ≢ current)
      × (s.client_ids m.client_id ≡ some id)
      × (s.past_server_ids m.client_id ≡ some current)
      × (s.unread id ≡ false)

  handle_message-restart :
      (draws : List ℕ) (s : FtpServer)
      → s.client_ids m.client_id ≡ some current
      → handle_message draws m s
        ≡ (restart_client draws current m s then λ (id, s'). dispatch_message id m s')
  unfolding handle_message get_server_id
  handle_message-restart draws s known = ground (arith, known, type, number)

  -- The second of two equal handshakes.
  reconnect-Restarted :
      (draws : List ℕ) (s : FtpServer)
      → IsValid s
      → Restarted s
      → (id : ℕ) × (s' : FtpServer) × (id ≢ current)
        × (s.client_ids m.client_id ≡ some id)
        × (handle_message draws m s ≡ ok s')
        × (s'.handed_over ≡ s.handed_over ++ handover id m s ∷ [])
  unfolding Restarted handle_message get_server_id reconnect_client dispatch_message hand_over
  reconnect-Restarted draws s v (id, ne, known, past, taken) = (
    id,
    handed id m (record s { past_server_ids = put s.past_server_ids m.client_id current }),
    ne,
    known,
    ground (arith, ne, known, past, taken, type, number, v.served m.client_id id),
    refl,
  )

  module _ (s : FtpServer) (v : IsValid s) (reused : s.are_server_ids_reused ≡ false)
      (known : s.client_ids m.client_id ≡ some current) where
    -- The old thread has been told to end.
    told : FtpServer
    told = handed current m (record s {
      past_server_ids = put s.past_server_ids m.client_id current;
      is_thread_active = update s.is_thread_active current (some false);
    })

    restart_client-eq :
        (draws : List ℕ)
        → s.unread current ≡ false
        → restart_client draws current m s ≡ (
            create_server_thread draws told then λ (id, s').
            ok
              (answer m.server_id id (record s' { client_ids = put s'.client_ids m.client_id id })))
    unfolding restart_client hand_over wait_to_forget told
    restart_client-eq draws taken = rw (v.served m.client_id current known, reused, taken) refl

    restart_client-waits :
        (draws : List ℕ) → s.unread current ≡ true → restart_client draws current m s ≡ waiting
    unfolding restart_client hand_over
    restart_client-waits draws stuck = rw (v.served m.client_id current known, stuck) refl

    told_lock : (id : ℕ) → told.thread_locks id ≡ false → id ≢ current
    unfolding told
    told_lock id free e = ground (arith, v.served m.client_id current known)

    Discarded : Option ℕ × FtpServer → Type 0
    Discarded (o, s') = (o ≡ none) × Restarted s'

    answer-Discarded :
        (id : ℕ) (s' : FtpServer)
        → Opened told (id, s')
        → Discarded
            (answer m.server_id id (record s' { client_ids = put s'.client_ids m.client_id id }))
    unfolding told Discarded Restarted
    answer-Discarded id s' (free, small, e) =
        let apart : id ≢ current = told_lock id free in
        (
          ground (arith, number, apart),
          (
            id,
            apart,
            put_self s'.client_ids m.client_id id,
            ap (λ (t : FtpServer). t.past_server_ids m.client_id) e
                ∙ put_self s.past_server_ids m.client_id current,
            ap (λ (t : FtpServer). t.unread id) e ∙ update_self told.unread id false,
          ),
        )

    restart-Discarded : (draws : List ℕ) → Gives Discarded (restart_client draws current m s)
    restart-Discarded draws = elim (Bool-cases (s.unread current)) [
      | inl stuck ↦ subst (Gives Discarded) (sym (restart_client-waits draws stuck)) tt
      | inr taken ↦ subst (Gives Discarded) (sym (restart_client-eq draws taken)) (
          Gives-then (Opened told) Discarded _ _ (create_server_thread-Opened draws told)
            (λ (id, s') w. answer-Discarded id s' w))
    ]

    handle_message-Restarted : (draws : List ℕ) → Gives Restarted (handle_message draws m s)
    unfolding Discarded dispatch_message
    handle_message-Restarted draws =
        subst (Gives Restarted) (sym (handle_message-restart draws s known)) (
          Gives-then Discarded Restarted _ _ (restart-Discarded draws)
            (λ (o, s') (e, w). subst (λ o. Gives Restarted (dispatch_message o m s')) (sym e) w))

    -- Where ids are not reused, from a state that satisfies the invariant of the maps: when a
    -- client shakes hands under the id of its thread, it is given another thread, and when it then
    -- repeats that handshake, the message is handed to the new thread.
    pub restart_reconnects :
        (draws draws' : List ℕ) (s' : FtpServer)
        → handle_message draws m s ≡ ok s'
        → (id : ℕ) × (s'' : FtpServer) × (id ≢ current)
          × (s'.client_ids m.client_id ≡ some id)
          × (handle_message draws' m s' ≡ ok s'')
          × (s''.handed_over ≡ s'.handed_over ++ handover id m s' ∷ [])
    restart_reconnects draws draws' s' e =
        reconnect-Restarted draws' s' (handle_message-IsValid m draws s s' v e)
          (Gives-ok Restarted _ s' (handle_message-Restarted draws) e)

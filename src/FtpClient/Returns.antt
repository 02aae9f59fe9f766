-- ===== src/FtpClient/Returns.antt =====
-- The events on which FtpClient::performGet and performList return.
use mathlib.Core.Path.{subst}
use comp6461_assignment.Base.{
  false, ℕ, ◌+◌, ◌%◌, ◌≤◌, arith, length, ◌<◌, ◌≡◌, refl, sym, ◌⊎◌, inl, inr, Bool, true, List, [],
  ◌∷◌, Bool-cases,
}
use comp6461_assignment.Base.Int.{ℤ}
use comp6461_assignment.Message.{MsgType, Payload, buffer_length, sequence_range}
use comp6461_assignment.Receiver.{Receiver, start_new_payload}
use comp6461_assignment.ServerThread.Defs.{FileApi}
use comp6461_assignment.FtpClient.Defs.{
  Event, got, silent, FtpClient, Ended, answer_eof, is_eof, msg_send, client_msg,
}
use comp6461_assignment.FtpClient.Transfers.{
  receive_loop, fetch, write_payload, perform_get, list_payload, perform_list,
}
use comp6461_assignment.FtpClient.Endings.{Keeps, Returns, Returns-bind, Finally-Returns}
use comp6461_assignment.FtpClient.Responses.{after, receive_loop_complete, receive_loop-silent}
use comp6461_assignment.FtpClient.Downloads.{Fed, Proceeds, start-Proceeds, receive_loop-Takes}
use comp6461_assignment.FtpClient.Retrieval.{
  list_payload-eq, write_payload-eq, perform_get-eq, requested, fetch-eq, fetch-Finally, Fetched,
  Ready, ReadyWith, Untouched, settle-Finally,
}
use comp6461_assignment.Receiver.Completion.{Complete, get_payload-Complete}

-- There is a time-out to come, which ends answer_eof.
abbrev pub HasTimeOut : List Event → Type 0
HasTimeOut [] = ⊥
HasTimeOut (silent ∷ es) = Unit
HasTimeOut (got m ∷ es) = HasTimeOut es

-- At one of the time-outs the receiver is complete.
abbrev pub Suffices : ℤ → List Event → Receiver → Type 0
Suffices server [] r = ⊥
Suffices server (silent ∷ es) r = (r.is_complete ≡ true) ⊎ Suffices server es r
Suffices server (got m ∷ es) r = Suffices server es (after server m r)

Suffices-HasTimeOut :
    (server : ℤ) (es : List Event) (r : Receiver) → Suffices server es r → HasTimeOut es
Suffices-HasTimeOut server [] r h = absurd h
Suffices-HasTimeOut server (silent ∷ es) r h = tt
Suffices-HasTimeOut server (got m ∷ es) r h = Suffices-HasTimeOut server es (after server m r) h

module _ (n seed : ℕ) (chunk : ℕ → Payload) (positive : (j : ℕ) → j < n → 0 < (chunk j).length)
    (api : FileApi) where
  module _ (f : ℕ) (catches : Bool) (base : FtpClient api) where
    -- The loop returns, and leaves a time-out to come.
    abbrev LeavesTimeOut : Ended api → Type 0
    LeavesTimeOut = Returns (λ c es. HasTimeOut es)

    pub receive_loop-Returns :
        (es : List Event) (c : FtpClient api)
        → Keeps api base c
        → Proceeds n seed chunk c.receiver c.server_msg
        → Fed n seed chunk base.server_identifier es c.receiver
        → Suffices base.server_identifier es c.receiver
        → LeavesTimeOut (receive_loop api f catches es c)
    receive_loop-Returns es c k (inr (complete, number)) fed h =
        subst LeavesTimeOut (sym (receive_loop_complete api f catches es c complete.flag))
          (Suffices-HasTimeOut base.server_identifier es c.receiver h)
    receive_loop-Returns [] c k (inl (s, open_)) fed h = absurd h
    receive_loop-Returns (silent ∷ es) c k (inl (s, open_)) fed (inl over) = cc (over, open_)
    receive_loop-Returns (silent ∷ es) c k (inl (s, open_)) fed (inr h) =
        subst LeavesTimeOut (sym (receive_loop-silent api f catches es c open_))
          (receive_loop-Returns es c k (inl (s, open_)) fed h)
    receive_loop-Returns (got m ∷ es) c k (inl (s, open_)) (fits, fed) h =
        let (c', e, k', p, same) =
          receive_loop-Takes n seed chunk positive api f catches base m c k s open_ (fits open_) in
        subst LeavesTimeOut (sym (e es)) (
          receive_loop-Returns es c' k' p
            (subst (Fed n seed chunk base.server_identifier es) (sym same) fed)
            (subst (Suffices base.server_identifier es) (sym same) h))

module _ (api : FileApi) where
  -- A time-out ends the answers to repeated EOF messages.
  pub answer_eof-Returns :
      (es : List Event) (c : FtpClient api)
      → HasTimeOut es
      → Returns (λ c es. Unit) (answer_eof api es c)
  unfolding answer_eof
  answer_eof-Returns [] c h = absurd h
  answer_eof-Returns (silent ∷ es) c h = tt
  answer_eof-Returns (got m ∷ es) c h = elim (Bool-cases (is_eof m)) [
    | inl again ↦ rw again (
        answer_eof-Returns es
          (msg_send api (client_msg api c MsgType.ack m.sequence_number [])
            (record c { server_msg = m }))
          h)
    | inr other ↦ rw other (answer_eof-Returns es (record c { server_msg = m }) h)
  ]

module _ (n : ℕ) (chunk : ℕ → Payload) (positive : (j : ℕ) → j < n → 0 < (chunk j).length)
    (api : FileApi) (es : List Event) (c : FtpClient api)
    (fed : Fed n c.sequence_number chunk c.server_identifier es
      (start_new_payload c.receiver c.sequence_number))
    (enough : Suffices c.server_identifier es
      (start_new_payload c.receiver c.sequence_number)) where
  open api use {write}

  fetch-Returns :
      (type : MsgType) (bytes : List ℕ) (catches : Bool)
      → length bytes ≤ buffer_length
      → Returns
          (λ c' es'. Fetched n chunk positive api es c fed c' × HasTimeOut es')
          (fetch api type bytes catches es c)
  unfolding requested
  fetch-Returns type bytes catches small =
      Finally-Returns (Fetched n chunk positive api es c fed) (Keeps api c)
        (λ c' es'. HasTimeOut es') _ (fetch api type bytes catches es c) (λ c' es' x h. (x, h))
        (fetch-Finally n chunk positive api es c fed type bytes catches small)
        (subst (Returns _) (sym (fetch-eq n chunk positive api es c fed type bytes catches small)) (
          receive_loop-Returns n c.sequence_number chunk positive api c.requests.next catches c es
            (requested n chunk positive api type bytes c)
            (record {
              server = refl;
              client = refl;
              number = refl;
              directory = refl;
              disk = refl;
              printed = refl;
            })
            (start-Proceeds n c.sequence_number chunk c.receiver c.server_msg) fed enough))

  settle-Returns :
      (c' : FtpClient api) (es' : List Event) (number : ℕ)
      → Fetched n chunk positive api es c fed c'
      → HasTimeOut es'
      → Returns
          (λ d ds. Ready n chunk positive api es c fed d)
          (answer_eof api es' (record c' { sequence_number = number }))
  settle-Returns c' es' number x h =
      Finally-Returns (ReadyWith n chunk positive api es c fed number)
        (Untouched n chunk positive api es c fed) (λ d ds. Unit) _
        (answer_eof api es' (record c' { sequence_number = number })) (λ d ds (r, e) u. r)
        (settle-Finally n chunk positive api es c fed c' es' number x)
        (answer_eof-Returns api es' (record c' { sequence_number = number }) h)

  write_payload-Returns :
      (filename : List ℕ) (c' : FtpClient api) (es' : List Event)
      → Ready n chunk positive api es c fed c'
      → Returns (λ d ds. Unit) (write_payload api filename c' es')
  write_payload-Returns filename c' es' r =
      subst (Returns _)
        (sym (
          write_payload-eq api filename c' es' _ _
            (get_payload-Complete n c.sequence_number chunk c'.receiver r.complete)))
        tt

  -- On such events performGet returns.
  pub perform_get-Returns :
      (filename : List ℕ)
      → length filename < 20
      → Returns (λ d ds. Unit) (perform_get api filename es c)
  perform_get-Returns filename short =
      subst (Returns _) (sym (perform_get-eq api filename es c short)) (
        Returns-bind (λ d ds. Ready n chunk positive api es c fed d) _ _ _
          (Returns-bind (λ d ds. Fetched n chunk positive api es c fed d × HasTimeOut ds) _ _ _
            (fetch-Returns MsgType.get_file filename true (omega arith))
            (λ c' es' (x, h).
              settle-Returns c' es' ((c'.server_msg.sequence_number + 1) % sequence_range) x h))
          (λ c' es' r. write_payload-Returns filename c' es' r))

  list_payload-Returns :
      (c' : FtpClient api) (es' : List Event)
      → Complete n c.sequence_number chunk c'.receiver
      → HasTimeOut es'
      → Returns (λ d ds. Unit) (list_payload api c' es')
  list_payload-Returns c' es' complete h =
      subst (Returns _)
        (sym (
          list_payload-eq api c' es' _ _
            (get_payload-Complete n c.sequence_number chunk c'.receiver complete)))
        (Returns-bind (λ d ds. Unit) _ _ _
          (answer_eof-Returns api es'
            (record c' { receiver = record c'.receiver { completed_set = [] } }) h)
          (λ d ds u. u))

  -- On such events performList returns.
  pub perform_list-Returns : Returns (λ d ds. Unit) (perform_list api es c)
  unfolding perform_list
  perform_list-Returns =
      Returns-bind (λ d ds. Fetched n chunk positive api es c fed d × HasTimeOut ds) _ _ _
        (fetch-Returns MsgType.get_list [] false (omega arith))
        (λ c' es' ((_, complete, _), h).
          list_payload-Returns (record c' { sequence_number = c'.server_msg.sequence_number + 1 })
            es' complete h)

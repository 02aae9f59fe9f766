-- ===== src/FtpClient/Downloads.antt =====
-- FtpClient::performGet and performList on the messages of a transfer, in any order and number.
use mathlib.Core.Path.{subst}
use native.Mathlib.Decide.{dec_lt}
use comp6461_assignment.Base.{
  ℕ, ◌+◌, ◌%◌, ◌≤◌, ◌<◌, ◌≡◌, refl, sym, ◌∙◌, ◌⊎◌, inl, inr, Bool, true, false, List, [], ◌∷◌,
  arith, Bool-cases,
}
use comp6461_assignment.Base.Int.{ℤ}
use comp6461_assignment.Message.{Msg, Payload, returned, sequence_range}
use comp6461_assignment.Receiver.{Receiver, handle_msg, start_new_payload}
use comp6461_assignment.Receiver.Store.{IsPacket}
use comp6461_assignment.Receiver.Packet.{Settled, handle_msg-Takes}
use comp6461_assignment.Receiver.Completion.{IsEof, Complete, eof-Complete, eof_early}
use comp6461_assignment.Receiver.Transfer.{start-Settled}
use comp6461_assignment.ServerThread.Defs.{FileApi}
use comp6461_assignment.FtpClient.Defs.{Event, got, silent, FtpClient, Ended}
use comp6461_assignment.FtpClient.Transfers.{receive_loop}
use comp6461_assignment.FtpClient.Endings.{Finally, Keeps, Keeps-trans, received-Keeps}
use comp6461_assignment.FtpClient.Responses.{
  after, after-foreign, after-transfer, handle_response-Handles, handle_response-other, is_transfer,
  receive_loop-empty, receive_loop-got, receive_loop-silent, receive_loop_complete,
}

module _ (n seed : ℕ) (chunk : ℕ → Payload) where
  -- A packet that a sender with the same window can send now, or the EOF message.
  pub data Fits (r : Receiver) (m : Msg) : Type 0 where
    packet :
        (k : ℕ)
        → IsPacket n seed chunk k m
        → r.window_origin ≤ k + 4
        → k < r.window_origin + 3
        → Fits r m
    eof : IsEof n seed chunk m → m.sequence_number ≡ (n + seed) % sequence_range → Fits r m

  -- While the receiver is not complete, each message of the transfer that comes fits it.
  abbrev pub Fed : ℤ → List Event → Receiver → Type 0
  Fed server [] r = Unit
  Fed server (silent ∷ es) r = Fed server es r
  Fed server (got m ∷ es) r =
      (r.is_complete ≡ false → is_transfer server m ≡ true → Fits r m)
      × Fed server es (after server m r)

  -- In transfer, or completed by the EOF message that came last.
  abbrev pub Proceeds : Receiver → Msg → Type 0
  Proceeds r m =
      (Settled n seed chunk r × (r.is_complete ≡ false))
      ⊎ (Complete n seed chunk r × (m.sequence_number ≡ (n + seed) % sequence_range))

  pub start-Proceeds : (r : Receiver) (m : Msg) → Proceeds (start_new_payload r seed) m
  unfolding start_new_payload
  start-Proceeds r m = inl (start-Settled n seed chunk r, refl)

  -- The client `base` has received the whole payload, and nothing else of it has changed.
  abbrev pub Received : {api : FileApi} → FtpClient api → FtpClient api → Type 0
  Received {api} base c =
      Keeps api base c
      × Complete n seed chunk c.receiver
      × (c.server_msg.sequence_number ≡ (n + seed) % sequence_range)

  module _ (positive : (j : ℕ) → j < n → 0 < (chunk j).length) where
    pub handle_msg-Proceeds :
        (r : Receiver) (m : Msg)
        → Settled n seed chunk r
        → r.is_complete ≡ false
        → Fits r m
        → ((handle_msg r m).status ≡ returned) × Proceeds (handle_msg r m).receiver m
    handle_msg-Proceeds r m s open_ (packet k is lo hi) =
        let t = handle_msg-Takes n seed chunk r s k m is lo hi in
        (t.status, inl (t.settled, t.completion ∙ open_))
    handle_msg-Proceeds r m s open_ (eof is number) = elim (dec_lt r.window_origin n) [
      | yes early ↦ rw (eof_early n seed chunk positive r s m is early) (refl, inl (s, open_))
      | no all ↦
          let (complete, _, status) =
            eof-Complete n seed chunk positive r s m is (omega (arith, s.holds.bounded)) in
          (status, inr (complete, number))
    ]

    module _ (api : FileApi) (f : ℕ) (catches : Bool) (base : FtpClient api) where
      go_on :
          {a b : Ended api}
          → a ≡ b
          → Finally (Received base) (Keeps api base) b
          → Finally (Received base) (Keeps api base) a
      go_on same h = subst (Finally (Received base) (Keeps api base)) (sym same) h

      -- One message that comes while the receiver is open: the loop goes on, and the receiver has taken it
      -- if it belongs to the transfer.
      abbrev Takes : Msg → FtpClient api → Type 0
      Takes m c =
          (c' : FtpClient api) × ((es : List Event)
            → receive_loop api f catches (got m ∷ es) c ≡ receive_loop api f catches es c')
          × Keeps api base c'
          × Proceeds c'.receiver c'.server_msg
          × (c'.receiver ≡ after base.server_identifier m c.receiver)

      pub receive_loop-Takes :
          (m : Msg) (c : FtpClient api)
          → Keeps api base c
          → Settled n seed chunk c.receiver
          → c.receiver.is_complete ≡ false
          → (is_transfer base.server_identifier m ≡ true → Fits c.receiver m)
          → Takes m c
      receive_loop-Takes m c k s open_ fits =
          elim (Bool-cases (is_transfer base.server_identifier m)) [
            | inl ours ↦
                let (status, onward) = handle_msg-Proceeds c.receiver m s open_ (fits ours) in
                let (c', e, k', same, last) =
                  handle_response-Handles api f catches m (record c { server_msg = m })
                    (rw k.server ours) status in
                (
                  c',
                  λ es. receive_loop-got api f catches m es c c' open_ e,
                  Keeps-trans api k (Keeps-trans api (received-Keeps api c m) k'),
                  rw (same, last) onward,
                  same ∙ sym (after-transfer base.server_identifier m c.receiver ours open_),
                )
            | inr foreign ↦ (
              record c { server_msg = m },
              λ es.
                  receive_loop-got api f catches m es c (record c { server_msg = m }) open_
                    (handle_response-other api f catches m (record c { server_msg = m })
                      (rw k.server foreign)),
              Keeps-trans api k (received-Keeps api c m),
              inl (s, open_),
              sym (after-foreign base.server_identifier m c.receiver foreign),
            )
          ]

      pub receive_loop-Finally :
          (es : List Event) (c : FtpClient api)
          → Keeps api base c
          → Proceeds c.receiver c.server_msg
          → Fed base.server_identifier es c.receiver
          → Finally (Received base) (Keeps api base) (receive_loop api f catches es c)
      receive_loop-Finally es c k (inr (complete, number)) fed =
          go_on (receive_loop_complete api f catches es c complete.flag) (k, complete, number)
      receive_loop-Finally [] c k (inl (s, open_)) fed =
          go_on (receive_loop-empty api f catches c open_) k
      receive_loop-Finally (silent ∷ es) c k (inl (s, open_)) fed =
          go_on (receive_loop-silent api f catches es c open_)
            (receive_loop-Finally es c k (inl (s, open_)) fed)
      receive_loop-Finally (got m ∷ es) c k (inl (s, open_)) (fits, fed) =
          let (c', e, k', p, same) = receive_loop-Takes m c k s open_ (fits open_) in
          go_on (e es)
            (receive_loop-Finally es c' k' p (subst (Fed base.server_identifier es) (sym same) fed))

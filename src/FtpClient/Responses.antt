-- ===== src/FtpClient/Responses.antt =====
-- What one message does in the loops of FtpClient::performGet and performList.
use comp6461_assignment.Base.{
  ℕ, ◌≡◌, refl, ap, inl, inr, Bool, true, false, not, ◌&&◌, ◌||◌, List, [], ◌∷◌, ◌++◌, arith, ◌==◌,
  Bool-cases, if◌then◌else◌,
}
use comp6461_assignment.Base.Int.{ℤ, ◌==ℤ◌}
use comp6461_assignment.Message.{Msg, MsgType, returned}
use comp6461_assignment.Receiver.{Receiver, handle_msg, is_resp_err, is_payload_complete}
use comp6461_assignment.ServerThread.Defs.{FileApi}
use comp6461_assignment.ServerThread.Run.{is_resp}
use comp6461_assignment.FtpClient.Defs.{Event, got, silent, FtpClient, done, blocked, acknowledge}
use comp6461_assignment.FtpClient.Transfers.{
  Response, went_on, deliver, respond, handle_response, receive_loop,
}
use comp6461_assignment.FtpClient.Endings.{Keeps, Keeps-refl, Keeps-trans}

-- The message is from the thread that serves the client, and handleMsg is called on it.
abbrev pub is_transfer : ℤ → Msg → Bool
is_transfer server m = m.server_id ==ℤ server && (is_resp m.type || is_resp_err m.type)

-- What a message leaves of the receiver: handleMsg is called until the payload is complete.
abbrev pub after : ℤ → Msg → Receiver → Receiver
after server m r =
    if is_transfer server m && not r.is_complete then (handle_msg r m).receiver else r

pub after-transfer :
    (server : ℤ) (m : Msg) (r : Receiver)
    → is_transfer server m ≡ true
    → r.is_complete ≡ false
    → after server m r ≡ (handle_msg r m).receiver
after-transfer server m r ours open_ = rw (ours, open_) refl

pub after-foreign :
    (server : ℤ) (m : Msg) (r : Receiver) → is_transfer server m ≡ false → after server m r ≡ r
after-foreign server m r foreign = rw foreign refl

module _ (api : FileApi) (f : ℕ) (catches : Bool) where
  -- handleMsg has returned, and the receiver is the one that it leaves.
  abbrev Handles : Msg → FtpClient api → Response api → Type 0
  Handles m c out =
      (c' : FtpClient api) × (out ≡ went_on c')
      × Keeps api c c'
      × (c'.receiver ≡ (handle_msg c.receiver m).receiver)
      × (c'.server_msg ≡ c.server_msg)

  deliver-Handles :
      (m : Msg) (base c : FtpClient api)
      → Keeps api base c
      → c.receiver ≡ base.receiver
      → c.server_msg ≡ base.server_msg
      → (handle_msg c.receiver m).status ≡ returned
      → Handles m base (deliver api f catches m c)
  unfolding deliver
  deliver-Handles m base c k same last e = (
    record c {
      receiver = (handle_msg c.receiver m).receiver;
      outbox = c.outbox ++ (handle_msg c.receiver m).sent;
    },
    ground (arith, e),
    Keeps-trans api k (record {
      server = refl;
      client = refl;
      number = refl;
      directory = refl;
      disk = refl;
      printed = refl;
    }),
    ap (λ (r : Receiver). (handle_msg r m).receiver) same,
    last,
  )

  respond-Handles :
      (type : MsgType) (m : Msg) (c : FtpClient api)
      → (is_resp type || is_resp_err type) ≡ true
      → (handle_msg c.receiver m).status ≡ returned
      → Handles m c (respond api type f catches m c)
  unfolding respond
  respond-Handles MsgType.resp m c h e =
      elim (Bool-cases (m.sequence_number == c.sequence_number)) [
        | inl first ↦ rw first (
            deliver-Handles m c (acknowledge api f c)
              (record {
                server = refl;
                client = refl;
                number = refl;
                directory = refl;
                disk = refl;
                printed = refl;
              })
              refl refl e)
        | inr later ↦ rw later (deliver-Handles m c c (Keeps-refl api c) refl refl e)
      ]
  respond-Handles MsgType.resp_err m c h e = deliver-Handles m c c (Keeps-refl api c) refl refl e
  respond-Handles MsgType.handshake m c h e = cc (h)
  respond-Handles MsgType.get_list m c h e = cc (h)
  respond-Handles MsgType.get_file m c h e = cc (h)
  respond-Handles MsgType.put m c h e = cc (h)
  respond-Handles MsgType.post m c h e = cc (h)
  respond-Handles MsgType.ack m c h e = cc (h)
  respond-Handles MsgType.terminate m c h e = cc (h)
  respond-Handles (MsgType.other k) m c h e = cc (h)

  respond-other :
      (type : MsgType) (m : Msg) (c : FtpClient api)
      → (is_resp type || is_resp_err type) ≡ false
      → respond api type f catches m c ≡ went_on c
  unfolding respond
  respond-other MsgType.resp m c h = cc (h)
  respond-other MsgType.resp_err m c h = cc (h)
  respond-other MsgType.handshake m c h = refl
  respond-other MsgType.get_list m c h = refl
  respond-other MsgType.get_file m c h = refl
  respond-other MsgType.put m c h = refl
  respond-other MsgType.post m c h = refl
  respond-other MsgType.ack m c h = refl
  respond-other MsgType.terminate m c h = refl
  respond-other (MsgType.other k) m c h = refl

  pub handle_response-Handles :
      (m : Msg) (c : FtpClient api)
      → is_transfer c.server_identifier m ≡ true
      → (handle_msg c.receiver m).status ≡ returned
      → Handles m c (handle_response api f catches m c)
  unfolding handle_response
  handle_response-Handles m c h e =
      let ours : (m.server_id ==ℤ c.server_identifier) ≡ true = ground arith in
      rw ours (respond-Handles m.type m c (ground arith) e)

  pub handle_response-other :
      (m : Msg) (c : FtpClient api)
      → is_transfer c.server_identifier m ≡ false
      → handle_response api f catches m c ≡ went_on c
  unfolding handle_response
  handle_response-other m c h = elim (Bool-cases (m.server_id ==ℤ c.server_identifier)) [
    | inl ours ↦ rw ours (respond-other m.type m c (ground arith))
    | inr foreign ↦ rw foreign refl
  ]

  module _ (es : List Event) (c : FtpClient api) where
    pub receive_loop_complete :
        c.receiver.is_complete ≡ true → receive_loop api f catches es c ≡ done c es
    unfolding receive_loop is_payload_complete
    receive_loop_complete h = by_head es
      where
        by_head : (es : List Event) → receive_loop api f catches es c ≡ done c es
        by_head [] = ground (arith, h)
        by_head (silent ∷ es) = ground (arith, h)
        by_head (got m ∷ es) = ground (arith, h)

    pub receive_loop-silent :
        c.receiver.is_complete ≡ false
        → receive_loop api f catches (silent ∷ es) c ≡ receive_loop api f catches es c
    unfolding receive_loop is_payload_complete
    receive_loop-silent h = ground (arith, h)

  pub receive_loop-empty :
      (c : FtpClient api)
      → c.receiver.is_complete ≡ false
      → receive_loop api f catches [] c ≡ blocked c
  unfolding receive_loop is_payload_complete
  receive_loop-empty c h = ground (arith, h)

  pub receive_loop-got :
      (m : Msg) (es : List Event) (c c' : FtpClient api)
      → c.receiver.is_complete ≡ false
      → handle_response api f catches m (record c { server_msg = m }) ≡ went_on c'
      → receive_loop api f catches (got m ∷ es) c ≡ receive_loop api f catches es c'
  unfolding receive_loop is_payload_complete
  receive_loop-got m es c c' h e = ground (arith, h, e)

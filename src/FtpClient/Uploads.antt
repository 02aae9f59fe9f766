-- ===== src/FtpClient/Uploads.antt =====
-- The acknowledgements that the transmission in FtpClient::performUpload can take, and its loop, one event
-- at a time.
use comp6461_assignment.Base.{
  ℕ, ◌+◌, ◌≤◌, ◌<◌, ◌≡◌, ◌⊎◌, inl, inr, Bool, true, false, ◌&&◌, some, List, [], ◌∷◌, arith, length,
}
use comp6461_assignment.Base.Int.{ℤ, ◌==ℤ◌}
use comp6461_assignment.Message.{Msg}
use comp6461_assignment.Sender.{
  Sender, Job, initialize_payload, initialized, send, process_ack, is_payload_sent, packet_count,
  mark,
}
use comp6461_assignment.Sender
use comp6461_assignment.Sender.Window.{slot}
use comp6461_assignment.Sender.Ack.{Sending, Ending, process_ack-Acknowledges}
use comp6461_assignment.Sender.Passes.{Quiet, process_ack-eof, process_ack-late}
use comp6461_assignment.ServerThread.Defs.{FileApi}
use comp6461_assignment.ServerThread.Run.{is_ack}
use comp6461_assignment.FtpClient.Defs.{
  Event, got, silent, FtpClient, done, blocked, acknowledge, ◌>>=◌,
}
use comp6461_assignment.FtpClient.Transfers.{handle_ack, upload_loop, upload_contents}

-- The message is from the thread that serves the client, and processAck is called on it.
abbrev pub is_ack_from : ℤ → Msg → Bool
is_ack_from server m = m.server_id ==ℤ server && is_ack m.type

module _ (job : Job) where
  open job use {number_of_packets as n}

  -- The acknowledgement of a packet that the receiver may have got, or of the EOF message.
  pub data Acks (s : Sender) (m : Msg) : Type 0 where
    packet :
        (k : ℕ)
        → Sending job s
        → s.current_window_origin ≤ k + 4
        → k < s.current_window_origin + 3
        → k < n
        → m.sequence_number ≡ slot job k
        → Acks s m
    late : (k : ℕ) → Ending job s → k < n → n ≤ k + 4 → m.sequence_number ≡ slot job k → Acks s m
    eof : Ending job s → m.sequence_number ≡ slot job n → Acks s m

  -- The payload is sent, and no worker sends any more.
  abbrev pub Sent : Sender → Type 0
  Sent s = (s.is_complete ≡ true) × Quiet s × (s.job ≡ job)

  -- Packets are outstanding, or only the EOF message is.
  abbrev pub Active : Sender → Type 0
  Active s = Sending job s ⊎ Ending job s

  pub Active-incomplete : (s : Sender) → Active s → s.is_complete ≡ false
  Active-incomplete s (inl h) = h.incomplete
  Active-incomplete s (inr h) = h.incomplete

  process_ack-job :
      (s s' : Sender) (m : Msg) → Ending job s → process_ack s m ≡ some s' → s'.job ≡ job
  unfolding process_ack mark
  process_ack-job s s' m h e = ground (arith, h.same, h.origin)

  pub process_ack-Acks :
      (s : Sender) (m : Msg)
      → Acks s m
      → (s' : Sender) × (process_ack s m ≡ some s') × (Active s' ⊎ Sent s')
  unfolding is_payload_sent
  process_ack-Acks s m (packet k h lo hi below number) =
      let (s', e, next) = process_ack-Acknowledges job s h k lo hi below m number in
      (s', e, elim next [ inl x ↦ inl (inl x.0) | inr x ↦ inl (inr x.0) ])
  process_ack-Acks s m (late k h below lo number) =
      let (s', e, next) = process_ack-late job s h m k below lo number in (s', e, inl (inr next))
  process_ack-Acks s m (eof h number) =
      let (s', e, sent, _, quiet) = process_ack-eof job s h m number in
      (s', e, inr (sent, quiet, process_ack-job s s' m h e))

module _ (api : FileApi) where
  pub upload_loop-sent :
      (es : List Event) (c : FtpClient api)
      → c.sender.is_complete ≡ true
      → upload_loop api es c ≡ done c es
  unfolding upload_loop is_payload_sent
  upload_loop-sent [] c h = ground (arith, h)
  upload_loop-sent (silent ∷ es) c h = ground (arith, h)
  upload_loop-sent (got m ∷ es) c h = ground (arith, h)

  pub upload_loop-empty :
      (c : FtpClient api) → c.sender.is_complete ≡ false → upload_loop api [] c ≡ blocked c
  unfolding upload_loop is_payload_sent
  upload_loop-empty c h = ground (arith, h)

  pub upload_loop-silent :
      (es : List Event) (c : FtpClient api)
      → c.sender.is_complete ≡ false
      → upload_loop api (silent ∷ es) c ≡ upload_loop api es c
  unfolding upload_loop is_payload_sent
  upload_loop-silent es c h = ground (arith, h)

  pub upload_loop-got :
      (m : Msg) (es : List Event) (c c' : FtpClient api)
      → c.sender.is_complete ≡ false
      → handle_ack api m (record c { server_msg = m }) ≡ some c'
      → upload_loop api (got m ∷ es) c ≡ upload_loop api es c'
  unfolding upload_loop is_payload_sent
  upload_loop-got m es c c' h e = ground (arith, h, e)

  pub handle_ack-ours :
      (m : Msg) (c : FtpClient api) (s : Sender)
      → is_ack_from c.server_identifier m ≡ true
      → process_ack c.sender m ≡ some s
      → handle_ack api m c ≡ some (record c { sender = s })
  unfolding handle_ack
  handle_ack-ours m c s ours e = ground (arith, ours, e)

  pub handle_ack-other :
      (m : Msg) (c : FtpClient api)
      → is_ack_from c.server_identifier m ≡ false
      → handle_ack api m c ≡ some c
  unfolding handle_ack
  handle_ack-other m c other = ground (arith, other)

  pub upload_contents-eq :
      (f : ℕ) (contents : List ℕ) (c : FtpClient api) (es : List Event) (s : Sender)
      → initialize_payload c.sender (some contents) (length contents) c.sequence_number
        ≡ initialized s
      → upload_contents api f contents c es ≡ (
          upload_loop api es (acknowledge api f (record c { sender = send s })) >>= (λ c es.
            done (record c { sequence_number = Sender.final_sequence_number c.sender }) es))
  unfolding upload_contents
  upload_contents-eq f contents c es s given = ground (arith, given)

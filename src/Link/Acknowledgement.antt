-- ===== src/Link/Acknowledgement.antt =====
-- An acknowledgement reaches the sender.
use mathlib.Core.Path.{subst}
use comp6461_assignment.Base.{
  ℕ, ◌+◌, ◌≤◌, ◌<◌, ◌≡◌, ◌⊎◌, inl, inr, true, false, some, List, ◌∷◌, arith,
}
use native.Mathlib.Decide.{dec_lt}
use comp6461_assignment.Message.{Msg, window_size}
use comp6461_assignment.Sender.{Sender, Job}
use comp6461_assignment.Sender.Ack.{Sending, Ending, is_acknowledged}
use comp6461_assignment.FtpClient.Uploads.{Acks}
use comp6461_assignment.FtpClient.Uploads
use comp6461_assignment.Link.Flow.{Flow, Flow-le, Flow-mono}
use comp6461_assignment.Link.{Link}
use comp6461_assignment.Sender.Ack.{process_ack-Acknowledges, Acknowledges}
use comp6461_assignment.Sender.Passes.{process_ack-eof, process_ack-late}
use comp6461_assignment.Sender.{process_ack, is_payload_sent}
use comp6461_assignment.Link.Invariant.{
  taken, Carries, Answers, Agree, Finished, origin-le, below-acknowledged, sender-near,
}

module _ (job : Job) (la lo : ℕ) (l : Link) (v : Agree job la lo l) where
  open job use {number_of_packets as n, sequence_seed as seed}
  open l use {sender as s, receiver as r}

  abbrev After : Sender → List Msg → Link
  After s' rest = record l { sender = s'; ack_channel = rest }

  module _ (c : ℕ) (rest : List Msg) (le : la ≤ c) (flow : Flow (Answers job r) c lo rest) where
    reach-le : c ≤ s.current_window_origin
    reach-le = omega (
      arith,
      Flow-le (Answers job r) c lo rest flow,
      Flow-le (Carries job) lo s.current_window_origin l.data_channel v.to_receiver,
    )

    -- The origin of the sender's window does not fall.
    Sending-origin :
        (s' : Sender)
        → Sending job s'
        → ((j : ℕ) → is_acknowledged job s j ≡ true → is_acknowledged job s' j ≡ true)
        → s.current_window_origin ≤ s'.current_window_origin
    Sending-origin s' h more = elim (dec_lt s'.current_window_origin s.current_window_origin) [
      | no p ↦ omega arith
      | yes p ↦
          ground
            (arith, h.first, more s'.current_window_origin (below-acknowledged job la lo l v _ p))
    ]

    acknowledged :
        (s' : Sender)
        → Sending job s' ⊎ (Ending job s' ⊎ Finished job s')
        → s.current_window_origin ≤ s'.current_window_origin
        → ((j : ℕ) → is_acknowledged job s' j ≡ true → j < n → j < c + window_size)
        → ((j : ℕ) → j < n → is_acknowledged job s' j ≡ true → taken job r j ≡ true)
        → (s'.is_complete ≡ true → r.is_complete ≡ true)
        → Agree job c lo (After s' rest)
    acknowledged s' sending further near agreed finished = record {
      receiving = v.receiving;
      sending = sending;
      to_receiver =
          Flow-mono (Carries job) lo s.current_window_origin s'.current_window_origin l.data_channel
            further v.to_receiver;
      to_sender = flow;
      near_receiver = v.near_receiver;
      near_sender = near;
      agreed = agreed;
      finished = finished;
    }

    ack-Sending :
        (k : ℕ) (s' : Sender)
        → k < c + 3
        → taken job r k ≡ true
        → Acknowledges job s k s'
        → Agree job c lo (After s' rest)
    ack-Sending k s' near t (inl (h, q)) =
        acknowledged s' (inl h) (Sending-origin s' h (λ j p. ground (arith, q j)))
          (λ j p below. ground (arith, q j, v.near_sender j))
          (λ j below p. ground (arith, q j, t, v.agreed j)) (λ p. cc (p, h.incomplete))
    ack-Sending k s' near t (inr (h, q)) =
        acknowledged s' (inr (inl h)) (omega (arith, h.origin, origin-le job la lo l v))
          (λ j p below. ground (arith, q j below, v.near_sender j))
          (λ j below p. ground (arith, q j below, t, v.agreed j)) (λ p. cc (p, h.incomplete))

    -- At the end of the payload nothing more is acknowledged but the EOF message.
    ack-end :
        (s' : Sender)
        → s.current_window_origin ≡ n
        → s'.current_window_origin ≡ n
        → Ending job s' ⊎ Finished job s'
        → (s'.is_complete ≡ true → r.is_complete ≡ true)
        → Agree job c lo (After s' rest)
    ack-end s' e e' h finished =
        acknowledged s' (inr h) (omega arith)
          (λ j p below.
            omega (arith, v.near_sender j (below-acknowledged job la lo l v j (omega arith)) below))
          (λ j below p. v.agreed j below (below-acknowledged job la lo l v j (omega arith)))
          finished

    -- An answer to what the sender sent is processed without an access outside the arrays.
    ack-Agree :
        (a : Msg)
        → s.is_complete ≡ false
        → Answers job r c a
        → (s' : Sender) × (process_ack s a ≡ some s') × Agree job c lo (After s' rest)
    unfolding is_payload_sent
    ack-Agree a open_ answer = elim v.sending [
      | inr (inr h) ↦ cc (h.complete, open_)
      | inl h ↦ elim answer [
        | inl (k, x, y, z, q, t) ↦
            let (s', e, done) =
              process_ack-Acknowledges job s h k (omega (arith, sender-near job la lo l v))
                (omega (arith, reach-le)) z a q in
            (s', e, ack-Sending k s' y t done)
        | inr (x, q, t) ↦ absurd (omega (arith, reach-le, h.unfinished))
      ]
      | inr (inl h) ↦ elim answer [
        | inl (k, x, y, z, q, t) ↦
            let (s', e, h') =
              process_ack-late job s h a k z (omega (arith, sender-near job la lo l v, h.origin))
                q in
            (s', e, ack-end s' h.origin h'.origin (inl h') (λ p. cc (p, h'.incomplete)))
        | inr (x, q, t) ↦
            let (s', e, sent, o, quiet) = process_ack-eof job s h a q in
            (
              s',
              e,
              ack-end s' h.origin o (inr (record { origin = o; complete = sent; quiet = quiet }))
                  (λ p. t),
            )
      ]
    ]

  -- An acknowledgement that reaches a sender that is not done keeps the agreement.
  pub acknowledge-Agree :
      (a : Msg) (rest : List Msg)
      → l.ack_channel ≡ a ∷ rest
      → s.is_complete ≡ false
      → (s' : Sender) × (process_ack s a ≡ some s') × ((la' : ℕ) × Agree job la' lo (After s' rest))
  acknowledge-Agree a rest e open_ =
      let (c, le, answer, flow) = subst (Flow (Answers job r) la lo) e v.to_sender in
      let (s', q, ag) = ack-Agree c rest le flow a open_ answer in (s', q, (c, ag))

  -- What the sender is told is an acknowledgement that it can take.
  pub acknowledge-Acks :
      (a : Msg) (rest : List Msg) → l.ack_channel ≡ a ∷ rest → s.is_complete ≡ false → Acks job s a
  acknowledge-Acks a rest e open_ =
      let (c, le, answer, flow) = subst (Flow (Answers job r) la lo) e v.to_sender in
      elim v.sending [
        | inr (inr h) ↦ cc (h.complete, open_)
        | inl h ↦ elim answer [
          | inl (k, x, y, z, q, t) ↦
              Uploads.packet k h (omega (arith, sender-near job la lo l v))
                (omega (arith, reach-le c rest le flow)) z q
          | inr (x, q, t) ↦ absurd (omega (arith, reach-le c rest le flow, h.unfinished))
        ]
        | inr (inl h) ↦ elim answer [
          | inl (k, x, y, z, q, t) ↦
              Uploads.late k h z (omega (arith, sender-near job la lo l v, h.origin)) q
          | inr (x, q, t) ↦ Uploads.eof h q
        ]
      ]

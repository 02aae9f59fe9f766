-- ===== src/Link/Safety.antt =====
-- What a transfer over a network that loses messages guarantees.
use mathlib.Core.Path.{ap₂}
use comp6461_assignment.Base.{
  ℕ, ◌^◌, ◌<◌, ◌≡◌, refl, sym, ap, ◌∙◌, ◌≢◌, inl, inr, true, false, some, none, List, [], ◌∷◌,
  arith, length, take, take_all,
}
use comp6461_assignment.Message.{Msg, returned}
use comp6461_assignment.Sender.{
  Sender, initialize_payload, initialized, packet_count, send, run_pass, process_ack,
  is_payload_sent,
}
use comp6461_assignment.Sender.Passes.{
  Quiet, initialize_payload-fields, send-Sending, run_pass-unacknowledged, run_pass-eof,
}
use comp6461_assignment.Receiver.{Receiver, handle_msg, get_payload, assembled}
use comp6461_assignment.Receiver
use comp6461_assignment.Sender
use comp6461_assignment.Receiver.Completion.{
  Complete, get_payload-Complete, final_sequence_number-Complete,
}
use comp6461_assignment.Link.Packets.{IsFormed, chunk, size_below-all, drain-packets}
use comp6461_assignment.Link.Delivery.{deliver-Agree}
use comp6461_assignment.Link.Acknowledgement.{acknowledge-Agree}
use comp6461_assignment.Link.Run.{Agreed, Reach-Agree, start-Agree}
use comp6461_assignment.Link.{Link, start_link, Reach}

-- `s` is a sender that initializePayload has given `bytes`, of a size that an int holds, with no
-- worker left of an earlier transmission.
pub record IsGiven (bytes : List ℕ) (seed : ℕ) (s : Sender) : Type 0 where
  pub before : Sender
  pub quiet : Quiet before
  pub given : initialize_payload before (some bytes) (length bytes) seed ≡ initialized s
  pub nonempty : 0 < length bytes
  pub small : length bytes < 2 ^ 31

module _ (bytes : List ℕ) (seed : ℕ) (s : Sender) (g : IsGiven bytes seed s) (r : Receiver) where
  fields :
      (s.number_of_packets ≡ packet_count (length bytes))
      × (s.payload_size ≡ length bytes)
      × (s.sequence_seed ≡ seed)
      × (s.complete_payload ≡ take (length bytes) bytes)
  fields = initialize_payload-fields g.before s bytes (length bytes) seed g.given

  pub given-payload : s.complete_payload ≡ bytes
  given-payload = fields.3 ∙ take_all (length bytes) bytes (omega arith)

  pub formed : IsFormed s.job
  formed = record {
    counted = fields.0 ∙ ap packet_count (sym fields.1);
    filled = ap length given-payload ∙ sym fields.1;
    small = omega (arith, fields.1, g.small);
  }

  pub start-Agreed : Agreed s.job (start_link s r)
  start-Agreed =
      let (h, none_yet) =
        send-Sending g.before s bytes (length bytes) seed g.quiet g.nonempty g.given in
      start-Agree s.job formed s r refl h none_yet

  module _ (l : Link) (reach : Reach (start_link s r) l) where
    agree : Agreed s.job l
    agree = Reach-Agree s.job formed start-Agreed reach

    completed :
        l.receiver.is_complete ≡ true
        → Complete s.number_of_packets s.sequence_seed (chunk s.job) l.receiver
    completed done = elim agree.2.receiving [ inl (h, open_) ↦ cc (done, open_) | inr c ↦ c ]

    -- A transfer is exact. The sender is given a payload of at least one byte and less than 2 ^ 31,
    -- with no worker of an earlier one left; then in every run over a network that loses messages but
    -- keeps their order, when the receiver is complete, getPayload gives the bytes that the sender was
    -- given.
    pub link_exact :
        l.receiver.is_complete ≡ true
        → get_payload l.receiver
          ≡ assembled
              (record { length = length bytes; contents = bytes })
              (record l.receiver { completed_set = [] })
    link_exact done =
        get_payload-Complete s.number_of_packets s.sequence_seed (chunk s.job) l.receiver
          (completed done)
        ∙ ap₂
            (λ (i : ℕ) (bs : List ℕ).
              assembled (record { length = i; contents = bs })
                (record l.receiver { completed_set = [] }))
            (size_below-all s.job formed ∙ fields.1) (drain-packets s.job formed ∙ given-payload)

    -- The number that the receiver computes is the sender's.
    pub complete_number :
        l.receiver.is_complete ≡ true
        → Receiver.final_sequence_number l.receiver ≡ Sender.final_sequence_number s
    unfolding Sender.final_sequence_number
    complete_number done =
        final_sequence_number-Complete s.number_of_packets s.sequence_seed (chunk s.job) l.receiver
          (completed done)

    -- The sender knows no more than is true. In every run of a link whose sender is given a payload
    -- of at least one byte and less than 2 ^ 31, with no worker of an earlier one left: when the
    -- sender takes the payload for sent, the receiver is complete, and both ends compute the same
    -- sequence number for what follows.
    pub link_sent :
        is_payload_sent l.sender ≡ true
        → (l.receiver.is_complete ≡ true)
          × (Receiver.final_sequence_number l.receiver ≡ Sender.final_sequence_number s)
    unfolding is_payload_sent
    link_sent done = let complete = agree.2.finished done in (complete, complete_number complete)

    -- Neither end fails. In every run of a link whose sender is given a payload of at least one
    -- byte and less than 2 ^ 31, with no worker of an earlier one left: until an end is complete,
    -- the message that is delivered to it next neither makes handleMsg throw nor makes that end
    -- access an array out of its bounds.
    pub link_never_faults :
        ((m : Msg) (rest : List Msg)
          → l.data_channel ≡ m ∷ rest
          → l.receiver.is_complete ≡ false
          → (handle_msg l.receiver m).status ≡ returned)
        × ((a : Msg) (rest : List Msg)
            → l.ack_channel ≡ a ∷ rest
            → l.sender.is_complete ≡ false
            → process_ack l.sender a ≢ none)
    link_never_faults = (
      λ m rest e open_. (deliver-Agree s.job formed agree.0 agree.1 l agree.2 m rest e open_).0,
      λ a rest e open_ q.
          let (s', q', _) = acknowledge-Agree s.job agree.0 agree.1 l agree.2 a rest e open_ in
          cc (q, q'),
    )

    -- No deadlock. In every run of a link whose sender is given a payload of at least one byte and
    -- less than 2 ^ 31, with no worker of an earlier one left: until the sender takes the payload
    -- for sent, one of its workers sends a message.
    link_no_deadlock :
        is_payload_sent l.sender ≡ false
        → (f : ℕ) × (m : Msg) × (f < l.sender.next) × (run_pass l.sender.workers f ≡ some m)
    unfolding is_payload_sent
    link_no_deadlock open_ = elim agree.2.sending [
      | inl h ↦
          let (f, known, e) =
            run_pass-unacknowledged s.job l.sender l.sender.current_window_origin h (omega arith)
              (omega arith) h.unfinished (ground (arith, h.first)) in
          (f, _, known, e)
      | inr (inl h) ↦ (h.eof, _, h.known, run_pass-eof s.job l.sender h)
      | inr (inr h) ↦ cc (h.complete, open_)
    ]

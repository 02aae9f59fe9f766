-- ===== src/Link/Run.antt =====
-- What holds of every run of a link, from the first packet to the end.
use mathlib.Core.Path.{subst}
use comp6461_assignment.Base.{
  ℕ, ◌<◌, ◌≡◌, refl, sym, ◌∙◌, inl, inr, false, some, List, [], ◌∷◌, ◌++◌, arith,
}
use comp6461_assignment.Message.{Msg}
use comp6461_assignment.Sender.{Sender, Job}
use comp6461_assignment.Sender.Ack.{Sending, is_acknowledged}
use comp6461_assignment.Receiver.{Receiver}
use comp6461_assignment.Receiver.Transfer.{Inv}
use comp6461_assignment.Link.Packets.{IsFormed, chunk}
use comp6461_assignment.Link.Flow.{Flow, Flow-append, Flow-lower}
use comp6461_assignment.Sender.{send, run_pass}
use comp6461_assignment.Sender.Passes.{run_pass-Sending, run_pass-Ending, run_pass-Quiet}
use comp6461_assignment.Receiver.{start_new_payload}
use comp6461_assignment.Receiver.Transfer.{start-Inv, received-start}
use comp6461_assignment.Link.Invariant.{taken, Carries, Answers, Agree}
use comp6461_assignment.Link.Delivery.{deliver-Agree, deliver_late-Agree}
use comp6461_assignment.Link.Acknowledgement.{acknowledge-Agree}
use comp6461_assignment.Link.{
  Link, Step, transmit, lose_data, lose_ack, deliver, deliver_late, acknowledge, start_link, Reach,
  here, next,
}

same-sender : {s t : Sender} → some s ≡ some t → s ≡ t
same-sender e = cc

abbrev pub Agreed : Job → Link → Type 0
Agreed job l = (la : ℕ) × (lo : ℕ) × Agree job la lo l

module _ (job : Job) (formed : IsFormed job) where
  open job use {number_of_packets as n, sequence_seed as seed}

  transmit-Agree :
      (la lo : ℕ) (l : Link) (f : ℕ) (m : Msg)
      → Agree job la lo l
      → f < l.sender.next
      → run_pass l.sender.workers f ≡ some m
      → Agree job la lo (record l { data_channel = l.data_channel ++ m ∷ [] })
  transmit-Agree la lo l f m v known e = record {
    receiving = v.receiving;
    sending = v.sending;
    to_receiver =
        Flow-append (Carries job) lo l.sender.current_window_origin l.sender.current_window_origin
          l.data_channel m v.to_receiver (omega arith) carries;
    to_sender = v.to_sender;
    near_receiver = v.near_receiver;
    near_sender = v.near_sender;
    agreed = v.agreed;
    finished = v.finished;
  }
    where
      carries : Carries job l.sender.current_window_origin m
      carries = elim v.sending [
        | inl h ↦
            let (k, x, y, z, q, _) = run_pass-Sending job l.sender f m h known e in
            inl (k, x, y, z, q)
        | inr (inl h) ↦ inr (h.origin, run_pass-Ending job l.sender f m h known e)
        | inr (inr h) ↦ cc (run_pass-Quiet l.sender f h.quiet known, e)
      ]

  lose_data-Agree :
      (la lo : ℕ) (l : Link) (m : Msg) (rest : List Msg)
      → Agree job la lo l
      → l.data_channel ≡ m ∷ rest
      → Agreed job (record l { data_channel = rest })
  lose_data-Agree la lo l m rest v e =
      let (b, le, carries, flow) =
        subst (Flow (Carries job) lo l.sender.current_window_origin) e v.to_receiver in
      (
        la,
        lo,
        record {
          receiving = v.receiving;
          sending = v.sending;
          to_receiver = Flow-lower (Carries job) lo b l.sender.current_window_origin rest le flow;
          to_sender = v.to_sender;
          near_receiver = v.near_receiver;
          near_sender = v.near_sender;
          agreed = v.agreed;
          finished = v.finished;
        },
      )

  lose_ack-Agree :
      (la lo : ℕ) (l : Link) (m : Msg) (rest : List Msg)
      → Agree job la lo l
      → l.ack_channel ≡ m ∷ rest
      → Agreed job (record l { ack_channel = rest })
  lose_ack-Agree la lo l m rest v e =
      let (b, le, answer, flow) = subst (Flow (Answers job l.receiver) la lo) e v.to_sender in
      (
        la,
        lo,
        record {
          receiving = v.receiving;
          sending = v.sending;
          to_receiver = v.to_receiver;
          to_sender = Flow-lower (Answers job l.receiver) la b lo rest le flow;
          near_receiver = v.near_receiver;
          near_sender = v.near_sender;
          agreed = v.agreed;
          finished = v.finished;
        },
      )

  -- Every step keeps the agreement.
  pub Step-Agree : {l l' : Link} → Step l l' → Agreed job l → Agreed job l'
  Step-Agree {l} (transmit f m known e) (la, lo, v) = (la, lo, transmit-Agree la lo l f m v known e)
  Step-Agree {l} (lose_data m rest e) (la, lo, v) = lose_data-Agree la lo l m rest v e
  Step-Agree {l} (lose_ack m rest e) (la, lo, v) = lose_ack-Agree la lo l m rest v e
  Step-Agree {l} (deliver m rest e open_) (la, lo, v) =
      let d = deliver-Agree job formed la lo l v m rest e open_ in (la, d.1.0, d.1.1)
  Step-Agree {l} (deliver_late m rest e done) (la, lo, v) =
      let d = deliver_late-Agree job formed la lo l v m rest e done in (la, d.0, d.1)
  Step-Agree {l} (acknowledge a rest s e open_ q) (la, lo, v) =
      let (s', q', (la', v')) = acknowledge-Agree job la lo l v a rest e open_ in
      (
        la',
        lo,
        subst (λ t. Agree job la' lo (record l { sender = t; ack_channel = rest }))
            (same-sender (sym q' ∙ q)) v',
      )

  pub Reach-Agree : {start l : Link} → Agreed job start → Reach start l → Agreed job l
  Reach-Agree h here = h
  Reach-Agree h (next reach step) = Step-Agree step (Reach-Agree h reach)

  seeds : (s : Sender) → s.job ≡ job → s.sequence_seed ≡ seed
  seeds s same = rw same refl

  -- The start of a transfer of `bytes`, which the sender has been given.
  pub start-Agree :
      (s : Sender) (r : Receiver)
      → s.job ≡ job
      → Sending job (send s)
      → ((j : ℕ) → is_acknowledged job (send s) j ≡ false)
      → Agreed job (start_link s r)
  start-Agree s r same h none_yet = (
    0,
    0,
    record {
      receiving =
          subst (λ (i : ℕ). Inv n seed (chunk job) (start_new_payload r i)) (sym (seeds s same))
            (start-Inv n seed (chunk job) r);
      sending = inl h;
      to_receiver = omega arith;
      to_sender = omega arith;
      near_receiver = λ j t p. cc (t, fresh j);
      near_sender = λ j t p. cc (t, none_yet j);
      agreed = λ j p t. cc (t, none_yet j);
      finished = λ e. cc (e, h.incomplete);
    },
  )
    where
      fresh : (j : ℕ) → taken job (start_new_payload r s.sequence_seed) j ≡ false
      fresh j =
          subst (λ (i : ℕ). taken job (start_new_payload r i) j ≡ false) (sym (seeds s same))
            (received-start n seed (chunk job) r j)

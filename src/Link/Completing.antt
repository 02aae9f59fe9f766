-- ===== src/Link/Completing.antt =====
-- A download that has not ended can be continued until both ends are complete.
use mathlib.Core.Path.{subst}
use comp6461_assignment.Base.{Bool, false, ℕ, ◌≡◌, refl, sym, inl, inr, true, List, [], ◌∷◌, ◌++◌}
use comp6461_assignment.Base.Int.{ℤ}
use comp6461_assignment.Message.{Msg}
use comp6461_assignment.Sender.{Sender, Job, is_payload_sent}
use comp6461_assignment.Receiver.{Receiver, start_new_payload}
use comp6461_assignment.FtpClient.Defs.{Event, got, silent}
use comp6461_assignment.FtpClient.Responses.{after-foreign, after-transfer}
use comp6461_assignment.FtpClient.Returns.{Suffices}
use comp6461_assignment.Link.{
  Link, Step, transmit, lose_data, lose_ack, deliver, deliver_late, acknowledge, Reach, here, next,
  start_link,
}
use comp6461_assignment.Link.Safety.{IsGiven, formed, start-Agreed, link_sent}
use comp6461_assignment.Link.Liveness.{link_completes, Reach-trans}
use comp6461_assignment.Link.Packets.{IsFormed}
use comp6461_assignment.Link.Run.{Agreed, Reach-Agree}
use comp6461_assignment.Link.Session.{after_complete, arrival}
use comp6461_assignment.Link.Saving.{inner-receiver}
use comp6461_assignment.Link.Origin.{IsFrom, Reach-IsFrom, ack_typed}
use comp6461_assignment.Link.Serving.{
  Downloads, closed, timed_out, other, works, arrives, arrives_late, acked, acked_late, ignored,
}

-- A time-out ends the answers of a complete client.
left :
    {server : ℤ} {l : Link}
    → l.receiver.is_complete ≡ true
    → Downloads server true l (silent ∷ []) [] l false
left over = timed_out (rw over closed)

module _ (job : Job) (whole : IsFormed job) where
  -- What both ends are given, so that the client's receiver completes, and the run ends at `l'`.
  abbrev Completing : Link → Link → Type 0
  Completing l l' =
      (es : List Event) × (ms : List Msg) × Downloads job.server_id true l es ms l' false
      × Suffices job.server_id es l.receiver

  -- One step of the link.
  Step-Completing :
      {l l' l'' : Link} (server : ℤ)
      → Agreed job l
      → IsFrom server l
      → Step l l'
      → Completing l' l''
      → Completing l l''
  Step-Completing server v from (transmit f m known e) (es, ms, go, h) =
      (es, ms, works (transmit f m known e) refl go, h)
  Step-Completing server v from (lose_data m rest e) (es, ms, go, h) =
      (es, ms, works (lose_data m rest e) refl go, h)
  Step-Completing server v from (lose_ack m rest e) (es, ms, go, h) =
      (es, ms, works (lose_ack m rest e) refl go, h)
  Step-Completing {l} server v from (acknowledge a rest s e open_ q) (es, ms, go, h) =
      (es, a ∷ ms, acked a rest s e open_ q (ack_typed server l a rest from e) go, h)
  Step-Completing {l} server v from (deliver m rest e open_) (es, ms, go, h) = (
    got m ∷ es,
    ms,
    arrives m rest e open_ go,
    subst (Suffices job.server_id es)
        (sym (after-transfer job.server_id m l.receiver (arrival job whole l m rest v e).0 open_))
        h,
  )
  Step-Completing {l} server v from (deliver_late m rest e over) (es, ms, go, h) = (
    got m ∷ es,
    ms,
    arrives_late m rest e over go,
    subst (Suffices job.server_id es) (sym (after_complete job.server_id m l.receiver over)) h,
  )

  Reach-Completing :
      {l l' l'' : Link} (server : ℤ)
      → Agreed job l
      → IsFrom server l
      → Reach l l'
      → Completing l' l''
      → Completing l l''
  Reach-Completing server v from here h = h
  Reach-Completing server v from (next more step) h =
      Reach-Completing server v from more (
        Step-Completing server (Reach-Agree job whole v more) (Reach-IsFrom server more from) step
          h)

  module _ {start : Link} (v : Agreed job start)
      (completes : (l : Link)
        → Reach start l
        → (l' : Link) × Completing l l' × (is_payload_sent l'.sender ≡ true)) where
    -- What both ends have been given so far can be continued.
    Downloads-Completing :
        {l l' : Link} {w w' : Bool} {es : List Event} {ms : List Msg}
        → Reach start l
        → Downloads job.server_id w l es ms l' w'
        → w' ≡ true
        → (es' : List Event) × (ms' : List Msg) × (l'' : Link) × Downloads job.server_id w l
            (es ++ es')
            (ms ++ ms')
            l''
            false
          × Suffices job.server_id (es ++ es') l.receiver
          × (is_payload_sent l''.sender ≡ true)
    Downloads-Completing {l} reach closed on =
        let (l'', (es, ms, go, h), sent) = completes l reach in
        (
          es,
          ms,
          l'',
          subst (λ (b : Bool). Downloads job.server_id b l es ms l'' false) (sym on) go,
          h,
          sent,
        )
    Downloads-Completing reach (timed_out more) on =
        let (es', ms', l'', go, h, sent) = Downloads-Completing reach more on in
        (es', ms', l'', timed_out go, inr h, sent)
    Downloads-Completing {l} reach (other {es = es} m alien more) on =
        let (es', ms', l'', go, h, sent) = Downloads-Completing reach more on in
        (
          es',
          ms',
          l'',
          other m alien go,
          subst (Suffices job.server_id (es ++ es'))
              (sym (after-foreign job.server_id m l.receiver alien)) h,
          sent,
        )
    Downloads-Completing reach (works {es = es} step inner more) on =
        let (es', ms', l'', go, h, sent) = Downloads-Completing (next reach step) more on in
        (
          es',
          ms',
          l'',
          works step inner go,
          subst (Suffices job.server_id (es ++ es')) (inner-receiver step inner) h,
          sent,
        )
    Downloads-Completing reach (acked a rest s e open_ q type more) on =
        let (es', ms', l'', go, h, sent) =
          Downloads-Completing (next reach (acknowledge a rest s e open_ q)) more on in
        (es', ms', l'', acked a rest s e open_ q type go, h, sent)
    Downloads-Completing reach (acked_late a rest e late type more) on =
        let (es', ms', l'', go, h, sent) =
          Downloads-Completing (next reach (lose_ack a rest e)) more on in
        (es', ms', l'', acked_late a rest e late type go, h, sent)
    Downloads-Completing reach (ignored m type open_ more) on =
        let (es', ms', l'', go, h, sent) = Downloads-Completing reach more on in
        (es', ms', l'', ignored m type open_ go, h, sent)
    Downloads-Completing {l} reach (arrives {es = es} m rest e open_ more) on =
        let (es', ms', l'', go, h, sent) =
          Downloads-Completing (next reach (deliver m rest e open_)) more on in
        let ours = (arrival job whole l m rest (Reach-Agree job whole v reach) e).0 in
        (
          es',
          ms',
          l'',
          arrives m rest e open_ go,
          subst (Suffices job.server_id (es ++ es'))
              (sym (after-transfer job.server_id m l.receiver ours open_)) h,
          sent,
        )
    Downloads-Completing {l} reach (arrives_late {es = es} m rest e late more) on =
        let (es', ms', l'', go, h, sent) =
          Downloads-Completing (next reach (deliver_late m rest e late)) more on in
        (
          es',
          ms',
          l'',
          arrives_late m rest e late go,
          subst (Suffices job.server_id (es ++ es'))
              (sym (after_complete job.server_id m l.receiver late)) h,
          sent,
        )

-- What both ends have been given of a transfer can be continued, so that both are complete, unless the
-- client has stopped to answer before.
pub Downloads_continue :
    (bytes : List ℕ) (seed : ℕ) (s : Sender) (r : Receiver) (es : List Event) (ms : List Msg)
    (l : Link)
    → IsGiven bytes seed s
    → Downloads s.server_id true (start_link s r) es ms l true
    → (es' : List Event) × (ms' : List Msg) × (l' : Link) × Downloads s.server_id true
        (start_link s r)
        (es ++ es')
        (ms ++ ms')
        l'
        false
      × Suffices s.server_id (es ++ es') (start_link s r).receiver
      × (is_payload_sent l'.sender ≡ true)
unfolding start_new_payload
Downloads_continue bytes seed s r es ms l g downloads =
    Downloads-Completing s.job fm (start-Agreed bytes seed s g r) completes here downloads refl
  where
    fm : IsFormed s.job
    fm = formed bytes seed s g r

    completes :
        (l : Link)
        → Reach (start_link s r) l
        → (l' : Link) × Completing s.job fm l l' × (is_payload_sent l'.sender ≡ true)
    completes l reach =
        let (l', onward, sent, _) = link_completes bytes seed s r l g reach in
        let over = (link_sent bytes seed s g r l' (Reach-trans reach onward) sent).0 in
        (
          l',
          Reach-Completing s.job fm r.server_id
              (Reach-Agree s.job fm (start-Agreed bytes seed s g r) reach)
              (Reach-IsFrom r.server_id reach (record { receiver = refl; acks = tt })) onward
              (silent ∷ [], [], left over, inl over),
          sent,
        )

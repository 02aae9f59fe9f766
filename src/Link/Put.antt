-- ===== src/Link/Put.antt =====
-- A whole upload: FtpClient::performUpload behind the acknowledgement of its request, and the Receiver of the
-- ServerThread at the other end of the network.
use mathlib.Core.Path.{subst}
use mathlib.Core.Bool.{true≢false}
use comp6461_assignment.Base.{
  ℕ, ◌+◌, ◌%◌, ◌^◌, ◌<◌, ◌≡◌, refl, sym, ap, ◌∙◌, ◌⊎◌, inl, inr, true, false, Option, some, none,
  List, [], length,
}
use comp6461_assignment.Base.Int.{ℤ}
use comp6461_assignment.Message.{sequence_range}
use comp6461_assignment.Sender.{
  Sender, Job, initialize_payload, initialized, send, process_ack, is_payload_sent,
}
use comp6461_assignment.Sender
use comp6461_assignment.Sender.Passes.{Quiet, send-Sending}
use comp6461_assignment.Receiver.{Receiver, handle_msg, start_new_payload, get_payload, assembled}
use comp6461_assignment.Receiver
use comp6461_assignment.ServerThread.Defs.{FileApi}
use comp6461_assignment.FtpClient.Defs.{Event, got, silent, FtpClient, Ended, done, ◌>>=◌}
use comp6461_assignment.FtpClient.Transfers.{upload_loop, upload_contents}
use comp6461_assignment.FtpClient.Endings.{
  Finally, Finally-bind, Finally-map, Finally-never, Returns,
}
use comp6461_assignment.FtpClient.Uploads.{
  Sent, Active, Active-incomplete, process_ack-Acks, upload_loop-sent, upload_loop-empty,
  upload_loop-silent, upload_loop-got, handle_ack-ours, handle_ack-other, upload_contents-eq,
}
use comp6461_assignment.Link.Hearing.{
  Hears, closed, timed_out, other, unread, works, acked, unheard-sender, Hears-Reach,
  Hears-complete,
}
use comp6461_assignment.Link.{Link, acknowledge, start_link, here}
use comp6461_assignment.FtpClient.Defs
use comp6461_assignment.Link.Packets.{IsFormed}
use comp6461_assignment.Link.Acknowledgement.{acknowledge-Acks}
use comp6461_assignment.Link.Run.{Agreed, Step-Agree}
use comp6461_assignment.Link.Safety.{IsGiven, formed, start-Agreed, link_exact, complete_number}

pub same-some : {s s' : Sender} → some s ≡ some s' → s ≡ s'
same-some {s = s} e = ap (λ (o : Option Sender). elim o [ none ↦ s | some x ↦ x ]) e

module _ (job : Job) (whole : IsFormed job) (api : FileApi) (server : ℤ) where
  -- The payload is sent, and the receiver at the end of the run has it.
  abbrev pub Delivered : Link → FtpClient api → Type 0
  Delivered l' c = Sent job c.sender × (l'.receiver.is_complete ≡ true)

  -- The payload is not sent, and the client has read all that the run has given it.
  abbrev pub Unsent : Link → FtpClient api → Type 0
  Unsent l' c = (c.sender.is_complete ≡ false) × (c.sender ≡ l'.sender)

  go_on :
      {a b : Ended api} (l' : Link)
      → a ≡ b
      → Finally (Delivered l') (Unsent l') b
      → Finally (Delivered l') (Unsent l') a
  go_on l' same h = subst (Finally (Delivered l') (Unsent l')) (sym same) h

  unsent :
      (c : FtpClient api) (s : Sender) → c.sender ≡ s → Active job s → c.sender.is_complete ≡ false
  unsent c s same active = ap (λ (x : Sender). x.is_complete) same ∙ Active-incomplete job s active

  -- Everything has been said when the payload is sent.
  Sent-Delivered :
      {l l' : Link} {es : List Event} (c : FtpClient api)
      → Agreed job l
      → Sent job l.sender
      → c.sender ≡ l.sender
      → Hears server l es l'
      → Finally (Delivered l') (Unsent l') (upload_loop api es c)
  Sent-Delivered {l} {l'} {es} c (la, lo, v) sent same hears =
      go_on l' (upload_loop-sent api es c (ap (λ (s : Sender). s.is_complete) same ∙ sent.0))
        (subst (Sent job) (sym same) sent, Hears-complete hears (v.finished sent.0))

  pub upload_loop-Delivered :
      {l l' : Link} {es : List Event} (c : FtpClient api)
      → Agreed job l
      → Active job l.sender ⊎ Sent job l.sender
      → c.sender ≡ l.sender
      → c.server_identifier ≡ server
      → Hears server l es l'
      → Finally (Delivered l') (Unsent l') (upload_loop api es c)
  upload_loop-Delivered c v (inr sent) same ours hears = Sent-Delivered c v sent same hears
  upload_loop-Delivered {l} c v (inl active) same ours closed =
      let idle = unsent c l.sender same active in
      go_on l (upload_loop-empty api c idle) (idle, same)
  upload_loop-Delivered {l} {l'} c v (inl active) same ours (timed_out {es = es} more) =
      go_on l' (upload_loop-silent api es c (unsent c l.sender same active))
        (upload_loop-Delivered c v (inl active) same ours more)
  upload_loop-Delivered {l} {l'} c v (inl active) same ours (other {es = es} m alien more) =
      go_on l'
        (upload_loop-got api m es c (record c { server_msg = m }) (unsent c l.sender same active)
          (handle_ack-other api m (record c { server_msg = m }) (rw ours alien)))
        (upload_loop-Delivered (record c { server_msg = m }) v (inl active) same ours more)
  upload_loop-Delivered {l} {l'} c v (inl active) same ours (unread {es = es} m e more) =
      absurd (true≢false (sym e ∙ Active-incomplete job l.sender active))
  upload_loop-Delivered {l} {l'} {es} c v (inl active) same ours (works step quiet more) =
      upload_loop-Delivered c (Step-Agree job whole step v)
        (subst (λ (s : Sender). Active job s ⊎ Sent job s) (sym (unheard-sender step quiet))
          (inl active))
        (same ∙ sym (unheard-sender step quiet)) ours more
  upload_loop-Delivered {l} {l'} c (la, lo, v) (inl active) same ours
        (acked {es = es} a rest s e open_ q mine more) =
      let (s', q', onward) =
        process_ack-Acks job l.sender a (acknowledge-Acks job la lo l v a rest e open_) in
      go_on l'
        (upload_loop-got api a es c (record c { server_msg = a; sender = s })
          (unsent c l.sender same active)
          (handle_ack-ours api a (record c { server_msg = a }) s (rw ours mine)
            (ap (λ (x : Sender). process_ack x a) same ∙ q)))
        (upload_loop-Delivered (record c { server_msg = a; sender = s })
          (Step-Agree job whole (acknowledge a rest s e open_ q) (la, lo, v))
          (subst (λ (x : Sender). Active job x ⊎ Sent job x) (same-some (sym q' ∙ q)) onward) refl
          ours more)

-- An upload of which sender and receiver are given: what the loop of performUpload comes to.
module _ (api : FileApi) (bytes : List ℕ) (c : FtpClient api) (s : Sender) (r : Receiver) (f : ℕ)
    (quiet : Quiet c.sender) (some_byte : 0 < length bytes) (small : length bytes < 2 ^ 31)
    (given : initialize_payload c.sender (some bytes) (length bytes) c.sequence_number
      ≡ initialized s) where
  pub put_given : IsGiven bytes c.sequence_number s
  put_given = record {
    before = c.sender;
    quiet = quiet;
    given = given;
    nonempty = some_byte;
    small = small;
  }

  pub put_formed : IsFormed s.job
  put_formed = formed bytes c.sequence_number s put_given r

  -- What performUpload leaves when it returns.
  abbrev pub Uploaded : Link → FtpClient api → Type 0
  Uploaded l' c' =
      (get_payload l'.receiver
        ≡ assembled (record { length = length bytes; contents = bytes })
            (record l'.receiver { completed_set = [] }))
      × (Receiver.final_sequence_number l'.receiver ≡ c'.sequence_number)
      × Quiet c'.sender

  pub upload_contents-Finally :
      (es : List Event) (l' : Link)
      → Hears c.server_identifier (start_link s r) es l'
      → Finally
          (Uploaded l')
          (Unsent s.job put_formed api c.server_identifier l')
          (upload_contents api f bytes c es)
  unfolding Sender.final_sequence_number
  upload_contents-Finally es l' hears =
      subst (Finally _ (Unsent s.job put_formed api c.server_identifier l'))
        (sym (upload_contents-eq api f bytes c es s given))
        (Finally-bind api (Delivered s.job put_formed api c.server_identifier l') _
          (Unsent s.job put_formed api c.server_identifier l') _ _
          (upload_loop-Delivered s.job put_formed api c.server_identifier
            (Defs.acknowledge api f (record c { sender = send s }))
            (start-Agreed bytes c.sequence_number s put_given r)
            (inl (
              inl
                (send-Sending c.sender s bytes (length bytes) c.sequence_number quiet some_byte
                  given).0))
            refl refl hears)
          (λ c' es' ((_, stopped, same), complete). (
            link_exact bytes c.sequence_number s put_given r l' (Hears-Reach hears here) complete,
            complete_number bytes c.sequence_number s put_given r l' (Hears-Reach hears here)
                  complete
                ∙ ap (λ (j : Job). (j.sequence_seed + j.number_of_packets + 1) % sequence_range)
                    (sym same),
            stopped,
          )))

  -- In a run that ends with the payload sent, the call returns.
  pub upload_contents-Returns :
      (es : List Event) (l' : Link)
      → is_payload_sent l'.sender ≡ true
      → Hears c.server_identifier (start_link s r) es l'
      → Returns (λ c' rest. Uploaded l' c') (upload_contents api f bytes c es)
  unfolding is_payload_sent
  upload_contents-Returns es l' sent hears =
      Finally-never (Uploaded l') (Unsent s.job put_formed api c.server_identifier l')
        (upload_contents api f bytes c es)
        (λ c' (idle, alike). cc (idle, ap (λ (x : Sender). x.is_complete) alike, sent))
        (upload_contents-Finally es l' hears)

module _ (api : FileApi) where
  -- An upload from end to end. The server has acknowledged the request of a client's performUpload, for
  -- a file of at least one byte and less than 2 ^ 31, no worker of an earlier upload is left, and the
  -- thread's receiver starts under the number of the request. Then in every run over a network that
  -- loses messages but keeps their order, and lets other messages and time-outs in between,
  -- performUpload does not fail: when it returns, the receiver of the thread has the file, byte for
  -- byte, both ends have the same sequence number, and no worker of the client sends any more.
  put_delivered :
      (bytes : List ℕ) (c : FtpClient api) (s : Sender) (r : Receiver) (f : ℕ) (es : List Event)
      (l' : Link)
      → Quiet c.sender
      → 0 < length bytes
      → length bytes < 2 ^ 31
      → initialize_payload c.sender (some bytes) (length bytes) c.sequence_number ≡ initialized s
      → Hears c.server_identifier (start_link s r) es l'
      → Finally
          (λ c'.
            (get_payload l'.receiver
              ≡ assembled
                  (record { length = length bytes; contents = bytes })
                  (record l'.receiver { completed_set = [] }))
            × (Receiver.final_sequence_number l'.receiver ≡ c'.sequence_number)
            × Quiet c'.sender)
          (λ c'. c'.sender.is_complete ≡ false)
          (upload_contents api f bytes c es)
  put_delivered bytes c s r f es l' quiet some_byte small given hears =
      Finally-map _ _ _ _ (upload_contents api f bytes c es) (λ c' h. h) (λ c' (idle, same). idle)
        (upload_contents-Finally api bytes c s r f quiet some_byte small given es l' hears)

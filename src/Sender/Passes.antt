-- ===== src/Sender/Passes.antt =====
-- What the workers of a Sender send (SenderThread::run), and the beginning of a transmission.
use comp6461_assignment.Base.{
  ℕ, ◌+◌, ◌≤◌, ◌<◌, ◌≡◌, refl, ◌∙◌, inl, inr, ◌≢◌, true, false, none, some, List, arith, Bool-cases,
}
use comp6461_assignment.Base.{take}
use comp6461_assignment.Message.{Msg, window_size}
use comp6461_assignment.Sender.{
  Sender, Job, packet_count, packet_msg, eof_msg, run_pass, mark, initialize_payload, initialized,
  send, process_ack, is_payload_sent,
}
use comp6461_assignment.Sender.Window.{slot, slot-ne, Window}
use comp6461_assignment.Sender.Ack.{Sending, Ending, is_acknowledged, normalize-Sending}

-- No worker sends any more.
abbrev pub Quiet : Sender → Type 0
Quiet s = (f : ℕ) → f < s.next → s.is_acked f ≡ true

-- A worker whose flag is set sends nothing.
pub run_pass-Quiet : (s : Sender) (f : ℕ) → Quiet s → f < s.next → run_pass s.workers f ≡ none
unfolding run_pass
run_pass-Quiet s f quiet known = rw (quiet f known) refl

module _ (job : Job) where
  open job use {number_of_packets as n}

  -- While packets are outstanding, whatever a worker sends is a packet of the window that is not
  -- acknowledged.
  pub run_pass-Sending :
      (s : Sender) (f : ℕ) (m : Msg)
      → Sending job s
      → f < s.next
      → run_pass s.workers f ≡ some m
      → (j : ℕ) × (s.current_window_origin ≤ j)
        × (j < s.current_window_origin + window_size)
        × (j < n)
        × (m ≡ packet_msg job j)
        × (is_acknowledged job s j ≡ false)
  unfolding run_pass
  run_pass-Sending s f m h known e =
      let unset : s.is_acked f ≡ false = ground arith in
      let (j, a, b, c, u) = h.window.live f known unset in
      (j, a, b, c, ground (arith, u.carries), ground (arith, u.phase))

  -- While packets are outstanding, each packet of the window that is not acknowledged has a worker
  -- that sends it.
  pub run_pass-unacknowledged :
      (s : Sender) (j : ℕ)
      → Sending job s
      → s.current_window_origin ≤ j
      → j < s.current_window_origin + window_size
      → j < n
      → is_acknowledged job s j ≡ false
      → (f : ℕ) × (f < s.next) × (run_pass s.workers f ≡ some (packet_msg job j))
  unfolding run_pass
  run_pass-unacknowledged s j h a b c e =
      let (f, u) = h.window.inside j a b c in (f, u.known, ground (arith, u.phase, u.carries))

  -- At the end of the payload whatever a worker sends is the EOF message.
  pub run_pass-Ending :
      (s : Sender) (f : ℕ) (m : Msg)
      → Ending job s
      → f < s.next
      → run_pass s.workers f ≡ some m
      → m ≡ eof_msg job
  unfolding run_pass
  run_pass-Ending s f m h known e =
      let unset : s.is_acked f ≡ false = ground arith in
      ground (arith, h.live f known unset, h.carries)

  -- And it is sent.
  pub run_pass-eof : (s : Sender) (h : Ending job s) → run_pass s.workers h.eof ≡ some (eof_msg job)
  unfolding run_pass
  run_pass-eof s h = ground (arith, h.unset, h.carries)

  module _ (s : Sender) (h : Ending job s) (ack : Msg) where
    -- When every packet is acknowledged and the EOF message is being repeated, its acknowledgement
    -- completes the transmission and stops all workers.
    pub process_ack-eof :
        ack.sequence_number ≡ slot job n
        → (s' : Sender) × (process_ack s ack ≡ some s')
          × (is_payload_sent s' ≡ true)
          × (s'.current_window_origin ≡ n)
          × Quiet s'
    unfolding process_ack mark is_payload_sent
    process_ack-eof e =
        let small : slot job n < 7 = omega arith in
        (
          record (mark s ack.sequence_number) { is_complete = true },
          ground (arith, e, small, h.same, h.origin),
          refl,
          h.origin,
          λ f a. quiet f a,
        )
      where
        quiet :
            (f : ℕ)
            → f < (mark s ack.sequence_number).next
            → (mark s ack.sequence_number).is_acked f ≡ true
        quiet f a = elim (Bool-cases (s.is_acked f)) [
          | inl set ↦ ground (arith, e, h.state)
          | inr unset ↦ ground (arith, e, h.state, h.live f)
        ]

    -- When every packet is acknowledged and the EOF message is being repeated, an acknowledgement
    -- of one of the last four packets that comes late leaves the sender in that state.
    pub process_ack-late :
        (k : ℕ)
        → k < n
        → n ≤ k + 4
        → ack.sequence_number ≡ slot job k
        → (s' : Sender) × (process_ack s ack ≡ some s') × Ending job s'
    unfolding process_ack mark
    process_ack-late k below lo e = (
      record (mark s ack.sequence_number) { is_complete = false },
      ground (arith, e, small, h.same, h.origin, apart),
      record {
        same = h.same;
        origin = h.origin;
        eof = h.eof;
        known = ground (arith, e, wrap, none_there, h.known);
        state = h.state;
        carries = ground (arith, e, wrap, none_there, h.carries);
        unset = ground (arith, e, wrap, none_there, h.unset);
        free = λ j a b. ground (arith, h.free j a b);
        live = λ f a b.
            h.live f (ground (arith, e, wrap, none_there)) (ground (arith, e, wrap, none_there));
        incomplete = refl;
      },
    )
      where
        small : slot job k < 7
        small = omega arith

        apart : slot job k ≢ slot job n
        apart =
            slot-ne job k k n (omega arith) (omega arith) (omega arith) (omega arith) (omega arith)

        wrap : slot job k ≡ slot job (k + 7)
        wrap = omega arith

        none_there :
            (s.current_window (slot job (k + 7)) ≡ none)
            × (s.window_state (slot job (k + 7)) ≡ none)
        none_there = h.free (k + 7) (omega arith) (omega arith)

-- What initializePayload sets.
pub initialize_payload-fields :
    (s s' : Sender) (contents : List ℕ) (size seed : ℕ)
    → initialize_payload s (some contents) size seed ≡ initialized s'
    → (s'.number_of_packets ≡ packet_count size)
      × (s'.payload_size ≡ size)
      × (s'.sequence_seed ≡ seed)
      × (s'.complete_payload ≡ take size contents)
unfolding initialize_payload
initialize_payload-fields s s' contents size seed e =
    (ground arith, ground arith, ground arith, ground arith)

-- A transmission of at least one byte begins with all packets of the window on the way and none
-- acknowledged, if no worker of an earlier one is left.
pub send-Sending :
    (s s' : Sender) (contents : List ℕ) (size seed : ℕ)
    → Quiet s
    → 0 < size
    → initialize_payload s (some contents) size seed ≡ initialized s'
    → Sending s'.job (send s') × ((j : ℕ) → is_acknowledged s'.job (send s') j ≡ false)
unfolding initialize_payload send
send-Sending s s' contents size seed quiet pos e =
    let (sending, kept) =
      normalize-Sending s'.job 0 s' fresh some_packet (λ h. absurd (omega arith)) (ground arith) in
    (sending, λ j. kept j ∙ ground arith)
  where
    some_packet : s'.current_window_origin < s'.number_of_packets
    some_packet = ground arith

    fresh : Window s'.job 0 s'
    fresh = record {
      same = refl;
      ordered = ground arith;
      narrow = omega arith;
      bounded = ground arith;
      inside = λ j a b. absurd (omega arith);
      outside = λ j a b c. ground arith;
      live = λ f a b. ground (arith, quiet f);
    }

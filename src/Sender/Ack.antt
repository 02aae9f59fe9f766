-- ===== src/Sender/Ack.antt =====
-- Sender::processAck while packets are outstanding: the whole call, with the end of the payload.
use comp6461_assignment.Base.{
  ℕ, ◌+◌, ◌≤◌, ◌<◌, ◌≡◌, refl, sym, ◌∙◌, ◌⊎◌, inl, inr, ◌≢◌, Bool, true, false, ◌||◌, none, some,
  arith, ◌==◌, is_some, Bool-cases,
}
use native.Mathlib.Decide.{ℕ_discrete}
use comp6461_assignment.Message.{Msg, sequence_range, window_size}
use comp6461_assignment.Sender.{
  Sender, Job, eof_msg, mark, slide, refill, finalize_payload, normalize_current_window,
  process_ack,
}
use comp6461_assignment.Sender.Window.{slot, slot-ne, Window, acked}
use comp6461_assignment.Sender.Mark.{mark-Window}
use comp6461_assignment.Sender.Slide.{Slid, slide_lem}
use comp6461_assignment.Sender.Normalize.{normalize_current_window_lem}

module _ (job : Job) where
  open job use {number_of_packets as n, sequence_seed as seed}

  abbrev pub is_acknowledged : Sender → ℕ → Bool
  is_acknowledged s j = acked job (s.current_window_origin + window_size) s j

  -- Between two calls, while a packet is not acknowledged: the packet at the origin is one such.
  pub record Sending (s : Sender) : Type 0 where
    pub window : Window job (s.current_window_origin + window_size) s
    pub unfinished : s.current_window_origin < n
    pub first : is_some (s.current_window (slot job s.current_window_origin)) ≡ true
    pub incomplete : s.is_complete ≡ false

  -- Between two calls, when all packets are acknowledged: only the EOF message is repeated.
  pub record Ending (s : Sender) : Type 0 where
    pub same : s.job ≡ job
    pub origin : s.current_window_origin ≡ n
    pub eof : ℕ
    pub known : eof < s.next
    pub state : s.window_state (slot job n) ≡ some eof
    pub carries : s.msg eof ≡ eof_msg job
    pub unset : s.is_acked eof ≡ false
    pub free :
        (j : ℕ)
        → n < j
        → j < n + sequence_range
        → (s.current_window (slot job j) ≡ none) × (s.window_state (slot job j) ≡ none)
    pub live : (f : ℕ) → f < s.next → s.is_acked f ≡ false → f ≡ eof
    pub incomplete : s.is_complete ≡ false

  finalize-Ending :
      (bound : ℕ) (s : Sender)
      → Window job bound s
      → s.current_window_origin ≡ n
      → s.is_complete ≡ false
      → Ending (finalize_payload s)
  unfolding finalize_payload
  finalize-Ending bound s w e open_ = record {
    same = w.same;
    origin = e;
    eof = s.next;
    known = omega arith;
    state = ground (arith, w.same);
    carries = ground (arith, w.same);
    unset = ground arith;
    free = λ j a b.
        let apart : slot job n ≢ slot job j =
          slot-ne job n n j (omega arith) (omega arith) (omega arith) b (omega arith) in
        let rest = w.outside j (omega arith) (omega arith) (inr (omega arith)) in
        (ground (arith, w.same, apart, rest), ground (arith, w.same, apart, rest));
    live = λ f a b. elim (ℕ_discrete s.next f) [
      | yes new ↦ sym new
      | no old ↦ let (j, x, y, z, u) = w.live f (omega arith) (ground arith) in absurd (omega arith)
    ];
    incomplete = open_;
  }

  pub normalize-Sending :
      (bound : ℕ) (s : Sender)
      → Window job bound s
      → s.current_window_origin < n
      → (s.current_window_origin < bound
          → is_some (s.current_window (slot job s.current_window_origin)) ≡ true)
      → s.is_complete ≡ false
      → Sending (normalize_current_window s)
        × ((j : ℕ) → is_acknowledged (normalize_current_window s) j ≡ acked job bound s j)
  normalize-Sending bound s w less stopped open_ =
      let r = normalize_current_window_lem job bound s w in
      (
        record {
          window = r.window;
          unfinished = omega (arith, r.origin);
          first = ground (arith, r.origin, r.kept s.current_window_origin, stopped);
          incomplete = r.completion ∙ open_;
        },
        r.kept,
      )

  -- After an acknowledgement of packet k the sender goes on with the packets that are left, or,
  -- when none is left, with the EOF message.
  abbrev pub Acknowledges : Sender → ℕ → Sender → Type 0
  Acknowledges s k s' =
      (Sending s' × ((j : ℕ) → is_acknowledged s' j ≡ (is_acknowledged s j || j == k)))
      ⊎ (Ending s' × ((j : ℕ) → j < n → (is_acknowledged s j || j == k) ≡ true))

  module _ (s : Sender) (h : Sending s) (k : ℕ) (lo : s.current_window_origin ≤ k + 4)
      (hi : k < s.current_window_origin + 3) (below : k < n) where
    marked : Sender
    marked = mark s (slot job k)

    marked-origin : marked.current_window_origin ≡ s.current_window_origin
    unfolding marked mark
    marked-origin = refl

    marked_complete : marked.is_complete ≡ s.is_complete
    unfolding marked mark
    marked_complete = refl

    slid : Slid job (s.current_window_origin + 3) marked (slide window_size marked)
    unfolding marked mark
    slid =
        slide_lem job (s.current_window_origin + 3) 3 marked
          (mark-Window job s k h.window lo hi below).0 refl

    slid-acked :
        (j : ℕ)
        → acked job (s.current_window_origin + 3) (slide window_size marked) j
          ≡ (is_acknowledged s j || j == k)
    unfolding marked
    slid-acked j = slid.kept j ∙ (mark-Window job s k h.window lo hi below).1 j

    refill-Acknowledges : Acknowledges s k (refill (slide window_size marked))
    unfolding refill
    refill-Acknowledges = elim (Bool-cases (t.current_window_origin == t.number_of_packets)) [
      | inl done ↦
          let e : t.current_window_origin ≡ n = ground (arith, slid.window.same) in
          rw done (
            inr (
              finalize-Ending _ t slid.window e (slid.completion ∙ marked_complete ∙ h.incomplete),
              λ j a. sym (slid-acked j) ∙ ground (arith, e),
            ))
      | inr more ↦
          let less : t.current_window_origin < n =
            ground (arith, slid.window.same, slid.window.bounded) in
          let (sending, kept) =
            normalize-Sending _ t slid.window less (slid.stopped less)
              (slid.completion ∙ marked_complete ∙ h.incomplete) in
          rw more (inl (sending, λ j. kept j ∙ slid-acked j))
    ]
      where
        t : Sender
        t = slide window_size marked

    process_ack-eq :
        (ack : Msg)
        → ack.sequence_number ≡ slot job k
        → process_ack s ack ≡ some (refill (slide window_size marked))
    unfolding process_ack marked mark
    process_ack-eq ack e =
        let small : slot job k < 7 = omega arith in
        ground (arith, e, small, h.unfinished, h.window.same)

    -- While packets are outstanding, an acknowledgement of a packet in the window, or of one at most
    -- four below it, is recorded for that packet and no other; then either some packet is left, and
    -- the window starts at the first such packet, or only the EOF message is left.
    pub process_ack-Acknowledges :
        (ack : Msg)
        → ack.sequence_number ≡ slot job k
        → (s' : Sender) × (process_ack s ack ≡ some s') × Acknowledges s k s'
    process_ack-Acknowledges ack e =
        (refill (slide window_size marked), process_ack-eq ack e, refill-Acknowledges)

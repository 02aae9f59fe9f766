-- ===== src/Link/Invariant.antt =====
-- What every state of a link satisfies: both ends agree on the packets, and no message on its way is
-- so old that its sequence number could be taken for another packet's.
use comp6461_assignment.Base.{
  ℕ, ◌+◌, ◌-◌, ◌≤◌, ◌<◌, ◌≡◌, sym, ◌∙◌, ◌⊎◌, inl, inr, Bool, true, false, arith,
}
use mathlib.Core.Bool.{true≢false}
use native.Mathlib.Decide.{dec_lt, ℕ_discrete}
use comp6461_assignment.Message.{Msg, window_size}
use comp6461_assignment.Sender.{Sender, Job, packet_msg, eof_msg}
use comp6461_assignment.Sender.Ack.{Sending, Ending, is_acknowledged}
use comp6461_assignment.Sender.Passes.{Quiet}
use comp6461_assignment.Receiver.{Receiver}
use comp6461_assignment.Receiver.Inv.{received, slot}
use comp6461_assignment.Receiver.Packet.{Settled}
use comp6461_assignment.Receiver.Transfer.{Inv}
use comp6461_assignment.Link.Packets.{chunk}
use comp6461_assignment.Link.Flow.{Flow}
use comp6461_assignment.Link.{Link}

module _ (job : Job) where
  open job use {number_of_packets as n, sequence_seed as seed}

  -- The receiver has taken in packet j.
  abbrev pub taken : Receiver → ℕ → Bool
  taken r j = received n seed (chunk job) r j

  -- A message on its way to the receiver: a packet of the window at b, or the EOF message.
  abbrev pub Carries : ℕ → Msg → Type 0
  Carries b m =
      ((k : ℕ) × (b ≤ k) × (k < b + window_size) × (k < n) × (m ≡ packet_msg job k))
      ⊎ ((b ≡ n) × (m ≡ eof_msg job))

  -- A message on its way to the sender answers one of those.
  abbrev pub Answers : Receiver → ℕ → Msg → Type 0
  Answers r b a =
      ((k : ℕ) × (b ≤ k)
        × (k < b + window_size)
        × (k < n)
        × (a.sequence_number ≡ slot seed k)
        × (taken r k ≡ true))
      ⊎ ((b ≡ n) × (a.sequence_number ≡ slot seed n) × (r.is_complete ≡ true))

  -- The EOF message was acknowledged.
  pub record Finished (s : Sender) : Type 0 where
    pub origin : s.current_window_origin ≡ n
    pub complete : s.is_complete ≡ true
    pub quiet : Quiet s

  pub record Agree (la lo : ℕ) (l : Link) : Type 0 where
    pub receiving : Inv n seed (chunk job) l.receiver
    pub sending : Sending job l.sender ⊎ (Ending job l.sender ⊎ Finished l.sender)
    pub to_receiver : Flow Carries lo l.sender.current_window_origin l.data_channel
    pub to_sender : Flow (Answers l.receiver) la lo l.ack_channel
    pub near_receiver : (j : ℕ) → taken l.receiver j ≡ true → j < n → j < lo + window_size
    pub near_sender : (j : ℕ) → is_acknowledged job l.sender j ≡ true → j < n → j < la + window_size
    pub agreed : (j : ℕ) → j < n → is_acknowledged job l.sender j ≡ true → taken l.receiver j ≡ true
    pub finished : l.sender.is_complete ≡ true → l.receiver.is_complete ≡ true

  module _ (la lo : ℕ) (l : Link) (v : Agree la lo l) where
    open l use {sender as s, receiver as r}

    pub origin-le : s.current_window_origin ≤ n
    origin-le = elim v.sending [
      | inl h ↦ omega (arith, h.unfinished)
      | inr (inl h) ↦ omega (arith, h.origin)
      | inr (inr h) ↦ omega (arith, h.origin)
    ]

    pub below-acknowledged : (j : ℕ) → j < s.current_window_origin → is_acknowledged job s j ≡ true
    below-acknowledged j h = ground arith

    -- The sender's window is at most three packets above the last answered one.
    pub sender-near : s.current_window_origin ≤ la + 3
    sender-near = elim (ℕ_discrete s.current_window_origin 0) [
      | yes e ↦ omega arith
      | no ne ↦ omega (
        arith,
        v.near_sender (s.current_window_origin - 1) (below-acknowledged _ (omega arith))
            (omega (arith, origin-le)),
      )
    ]

    module _ (h : Settled n seed (chunk job) r) where
      open h.holds use {bounded}

      pub receiver-near : r.window_origin ≤ lo + 3
      receiver-near = elim (ℕ_discrete r.window_origin 0) [
        | yes e ↦ omega arith
        | no ne ↦
            omega
              (arith, v.near_receiver (r.window_origin - 1) (ground arith) (omega (arith, bounded)))
      ]

      pub missing : taken r r.window_origin ≡ false
      missing = ground (arith, h.start_empty)

      -- The receiver is never behind the sender.
      pub receiver-ahead : s.current_window_origin ≤ r.window_origin
      receiver-ahead = elim (dec_lt r.window_origin s.current_window_origin) [
        | no p ↦ omega arith
        | yes p ↦ absurd (
            true≢false (
              sym (v.agreed r.window_origin (omega (arith, origin-le)) (below-acknowledged _ p))
              ∙ missing))
      ]

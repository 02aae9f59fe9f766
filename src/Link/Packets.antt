-- ===== src/Link/Packets.antt =====
-- The packets that Sender cuts from a payload are the payload: what Receiver::getPayload puts
-- together from them is what Sender::initializePayload was given.
use comp6461_assignment.Base.{
  ℕ, zero, suc, ◌+◌, ◌-◌, ◌*◌, ◌^◌, ◌≤◌, ◌<◌, ◌≡◌, refl, sym, ap, ◌∙◌, List, [], arith, take, drop,
  length, take_all, take-append_of_le, length-take, length-drop, take-take,
}
use native.Mathlib.Decide.{ℕ_discrete}
use comp6461_assignment.Message.{Payload, int_at-int_bytes}
use comp6461_assignment.Sender.{Job, packet_msg, eof_msg, packet_size, packet_count}
use comp6461_assignment.Receiver.{stored, drain}
use comp6461_assignment.Receiver.Inv.{chunks_below, size_below, size_below-suc, size_below-zero}
use comp6461_assignment.Receiver.Store.{IsPacket}
use comp6461_assignment.Receiver.Completion.{IsEof}
use comp6461_assignment.Receiver.Drain.{drain-chunks_below}

-- A job as initializePayload sets it up, of a size that an int holds.
pub record IsFormed (job : Job) : Type 0 where
  pub counted : job.number_of_packets ≡ packet_count job.payload_size
  pub filled : length job.complete_payload ≡ job.payload_size
  pub small : job.payload_size < 2 ^ 31

-- What the receiver stores for packet j.
abbrev pub chunk : Job → ℕ → Payload
chunk job j = stored (packet_msg job j)

module _ (job : Job) (formed : IsFormed job) where
  open job use {number_of_packets as n, payload_size as size, complete_payload as bytes}

  packet_size_bounds :
      (j : ℕ)
      → j < n
      → (0 < packet_size job j) × (packet_size job j ≤ 256) × (j * 256 + packet_size job j ≤ size)
  packet_size_bounds j h = ground (arith, formed.counted)

  pub packet_size-pos : (j : ℕ) → j < n → 0 < packet_size job j
  packet_size-pos j h = (packet_size_bounds j h).0

  packet_size-full : (j : ℕ) → suc j < n → packet_size job j ≡ 256
  packet_size-full j h = ground arith

  packet_size-last : (j : ℕ) → suc j ≡ n → j * 256 + packet_size job j ≡ size
  packet_size-last j h = ground (arith, formed.counted)

  size_below-full : (k : ℕ) → k < n → size_below (chunk job) k ≡ k * 256
  size_below-full zero h = size_below-zero (chunk job)
  size_below-full (suc k) h =
      omega
        (arith, size_below-suc (chunk job) k, size_below-full k (omega arith), packet_size-full k h)

  -- The lengths of all packets add up to the payload's size.
  pub size_below-all : size_below (chunk job) n ≡ size
  size_below-all = elim (ℕ_discrete n 0) [
    | yes e ↦
        ap (size_below (chunk job)) e ∙ size_below-zero (chunk job) ∙ ground (arith, formed.counted)
    | no ne ↦
        let last : suc (n - 1) ≡ n = omega arith in
        sym (ap (size_below (chunk job)) last)
        ∙ omega (
          arith,
          size_below-suc (chunk job) (n - 1),
          size_below-full (n - 1) (omega arith),
          packet_size-last (n - 1) last,
        )
  ]

  -- The stored bytes of packet j are its bytes of the payload.
  chunk-bytes :
      (j : ℕ)
      → j < n
      → take (packet_size job j) (chunk job j).contents
        ≡ take (packet_size job j) (drop (j * 256) bytes)
  chunk-bytes j h =
      let b = packet_size_bounds j h in
      let piece : List ℕ = take (packet_size job j) (drop (j * 256) bytes) in
      let full : length piece ≡ packet_size job j =
        length-take _ _ (omega (arith, length-drop (j * 256) bytes, formed.filled, b)) in
      take-take _ _ ∙ take-append_of_le _ piece _ (omega arith) ∙ take-take _ _

  piece-eq :
      (j : ℕ)
      → j < n
      → take (packet_size job j) (chunk job j).contents
        ≡ take (packet_size job j) (drop (size_below (chunk job) j) bytes)
  piece-eq j h =
      chunk-bytes j h
      ∙ ap (λ (i : ℕ). take (packet_size job j) (drop i bytes)) (sym (size_below-full j h))

  -- The packets of a payload, put together in order, are its bytes.
  pub drain-packets : drain (chunks_below (chunk job) n) ≡ bytes
  drain-packets =
      drain-chunks_below (chunk job) n bytes piece-eq n (omega arith)
      ∙ ap (λ (i : ℕ). take i bytes) size_below-all
      ∙ take_all size bytes (omega (arith, formed.filled))

  -- A packet reaches the receiver as the packet that it stands for.
  pub packet_msg-IsPacket :
      (j : ℕ) → j < n → IsPacket n job.sequence_seed (chunk job) j (packet_msg job j)
  packet_msg-IsPacket j h = record {
    in_payload = h;
    typed = refl;
    numbered = refl;
    fits = (packet_size_bounds j h).1;
    content = refl;
  }

  pub eof_msg-IsEof : IsEof n job.sequence_seed (chunk job) (eof_msg job)
  eof_msg-IsEof = record {
    typed = refl;
    text = refl;
    size = int_at-int_bytes size [] (omega (arith, formed.small)) ∙ sym size_below-all;
  }

-- ===== src/Receiver/Drain.antt =====
-- The loop of Receiver::getPayload copies the packets of the queue behind one another.
use comp6461_assignment.Base.{
  ℕ, zero, suc, ◌≤◌, ◌<◌, ◌≡◌, refl, sym, ap, ◌∙◌, List, [], ◌∷◌, ◌++◌, arith, take, drop,
  take-append-take-drop,
}
use mathlib.Core.List.{append_assoc, append-nil}
use mathlib.Core.Path.{ap₂}
use comp6461_assignment.Message.{Payload}
use comp6461_assignment.Receiver.{drain}
use comp6461_assignment.Receiver.Inv.{
  chunks_below, size_below, size_below-suc, size_below-zero, chunks_below-suc, chunks_below-zero,
}

drain-append :
    (ps : List Payload) (p : Payload) → drain (ps ++ p ∷ []) ≡ drain ps ++ take p.length p.contents
unfolding drain
drain-append [] p = append-nil _
drain-append (q ∷ ps) p =
    rw (drain-append ps p)
      (sym (append_assoc (take q.length q.contents) (drain ps) (take p.length p.contents)))

drain-nil : drain [] ≡ []
unfolding drain
drain-nil = refl

-- Packets that are consecutive pieces of `bytes` give the bytes back.
pub drain-chunks_below :
    (chunk : ℕ → Payload) (n : ℕ) (bytes : List ℕ)
    → ((j : ℕ)
        → j < n
        → take (chunk j).length (chunk j).contents
          ≡ take (chunk j).length (drop (size_below chunk j) bytes))
    → (k : ℕ) → k ≤ n
    → drain (chunks_below chunk k) ≡ take (size_below chunk k) bytes
drain-chunks_below chunk n bytes piece zero h =
    ap drain (chunks_below-zero chunk)
    ∙ drain-nil
    ∙ sym (ap (λ (i : ℕ). take i bytes) (size_below-zero chunk))
drain-chunks_below chunk n bytes piece (suc k) h =
    ap drain (chunks_below-suc chunk k)
    ∙ drain-append (chunks_below chunk k) (chunk k)
    ∙ ap₂ ◌++◌ (drain-chunks_below chunk n bytes piece k (omega arith)) (piece k h)
    ∙ take-append-take-drop (size_below chunk k) (chunk k).length bytes
    ∙ sym (ap (λ (i : ℕ). take i bytes) (size_below-suc chunk k))

-- ===== src/Base/Int.antt =====
-- Signed integers over the native numbers. The program uses them as identifiers, of which -1
-- stands for none: only equality is needed.
use Prim.Native.Nat.{ℕ}
use mathlib.Core.Path.{◌≡◌}
use mathlib.Core.Logic.{◌↔◌, ◌≢◌}
use mathlib.Core.Bool.{Bool, true, false}
use native.Mathlib.Omega.{arith}
use comp6461_assignment.Base.Tests.{◌==◌}

-- `negsuc n` is -(n + 1).
pub data ℤ : Type 0 where
  pos : ℕ → ℤ
  negsuc : ℕ → ℤ

infix 50 ◌==ℤ◌
abbrev pub ◌==ℤ◌ : ℤ → ℤ → Bool
pos a ==ℤ pos b = a == b
negsuc a ==ℤ negsuc b = a == b
_ ==ℤ _ = false

pub ==ℤ_iff : (a b : ℤ) → ((a ==ℤ b) ≡ true) ↔ (a ≡ b)
==ℤ_iff a b = ground arith

pub ≢→==ℤ : (a b : ℤ) → a ≢ b → (a ==ℤ b) ≡ false
≢→==ℤ a b h = ground (arith, ==ℤ_iff a b)

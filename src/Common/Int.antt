-- ===== src/Common/Int.antt =====
-- Signed 64-bit numbers: the integers, and the subtraction of `i64` that stops at both ends.
use Prim.Native.Nat.{ℕ, suc, ◌+◌, ◌-◌, ◌%◌, ◌≤◌, ◌<◌, min}
use mathlib.Core.Path.{◌≡◌}
use mathlib.Core.Logic.{◌↔◌}
use mathlib.Core.Bool.{Bool, true}
use native.Mathlib.Omega.{arith}
use ghal_bol.Common.Tests.{ltb, leb, if◌then◌else◌}

-- `negsuc n` is -(n + 1).
pub data ℤ : Type 0 where
  pos : ℕ → ℤ
  negsuc : ℕ → ℤ

abbrev pub pos_part : ℤ → ℕ
pos_part (pos n) = n
pos_part (negsuc n) = 0

abbrev pub neg_part : ℤ → ℕ
neg_part (pos n) = 0
neg_part (negsuc n) = suc n

infix 50 ◌≤ℤ◌ ◌<ℤ◌
abbrev pub ◌≤ℤ◌ : ℤ → ℤ → Type 0
a ≤ℤ b = pos_part a + neg_part b ≤ pos_part b + neg_part a

abbrev pub ◌<ℤ◌ : ℤ → ℤ → Type 0
a <ℤ b = suc (pos_part a + neg_part b) ≤ pos_part b + neg_part a

abbrev pub leb_ℤ : ℤ → ℤ → Bool
leb_ℤ a b = leb (pos_part a + neg_part b) (pos_part b + neg_part a)

abbrev pub ltb_ℤ : ℤ → ℤ → Bool
ltb_ℤ a b = ltb (pos_part a + neg_part b) (pos_part b + neg_part a)

abbrev sub_ℕ : ℕ → ℕ → ℤ
sub_ℕ a b = if leb b a then pos (a - b) else negsuc (b - a - 1)

abbrev saturate : ℤ → ℤ
saturate (pos n) = pos (min n 9223372036854775807)
saturate (negsuc n) = negsuc (min n 9223372036854775807)

-- `i64::saturating_sub`.
unfoldable pub saturating_sub : ℤ → ℤ → ℤ
saturating_sub a b = saturate (sub_ℕ (pos_part a + neg_part b) (neg_part a + pos_part b))

-- Against a bound below the largest `i64`, saturation does not show.
pub saturating_sub-le_iff :
    (a b : ℤ) (k : ℕ)
    → k < 9223372036854775807
    → (leb_ℤ (saturating_sub a b) (pos k) ≡ true)
      ↔ (pos_part a + neg_part b ≤ neg_part a + pos_part b + k)
unfolding saturating_sub
saturating_sub-le_iff a b k h = (λ t. ground arith, λ t. ground arith)

pub saturating_sub-nonneg_iff : (a b : ℤ) → (leb_ℤ (pos 0) (saturating_sub a b) ≡ true) ↔ (b ≤ℤ a)
unfolding saturating_sub
saturating_sub-nonneg_iff a b = (λ t. ground arith, λ t. ground arith)

-- The `i64` of the same 64 bits.
abbrev pub to_i64 : ℕ → ℤ
to_i64 n =
    let bits = n % 18446744073709551616 in
    if ltb bits 9223372036854775808 then pos bits else negsuc (18446744073709551615 - bits)

abbrev pub min_ℤ : ℤ → ℤ → ℤ
min_ℤ a b = if leb_ℤ a b then a else b

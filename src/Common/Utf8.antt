-- ===== src/Common/Utf8.antt =====
-- Texts as `str` has them in memory: their length in bytes of UTF-8, and a slice up to a byte, which panics
-- inside a character.
use Prim.Native.Nat.{ℕ, ◌+◌, ◌-◌, ◌≤◌, ◌<◌}
use mathlib.Core.Path.{◌≡◌, refl, sym, subst, ap, ◌∙◌}
use mathlib.Core.Logic.{inl, inr}
use mathlib.Core.Bool.{Bool, true}
use mathlib.Core.Option
use mathlib.Core.Option.{Option, none, some}
use mathlib.Core.List.{[], ◌∷◌}
use native.Mathlib.Omega.{arith}
use ghal_bol.Common.Tests.{ltb, leb, ◌==◌, if◌then◌else◌, Bool-cases, some_injective}
use ghal_bol.Common.Lists.{All}
use ghal_bol.Common.Texts.{Text}

abbrev pub utf8_len : ℕ → ℕ
utf8_len c = if ltb c 128 then 1 else if ltb c 2048 then 2 else if ltb c 65536 then 3 else 4

unfoldable pub byte_len : Text → ℕ
byte_len [] = 0
byte_len (c ∷ s) = utf8_len c + byte_len s

-- `&s[..n]`; `none` is a panic.
unfoldable pub slice_to : ℕ → Text → Option Text
slice_to n [] = if n == 0 then some [] else none
slice_to n (c ∷ s) =
    if n == 0
    then some []
    else if leb (utf8_len c) n
    then Option.map (λ t. c ∷ t) (slice_to (n - utf8_len c) s)
    else none

-- A text of ASCII can be cut at each place.
abbrev pub IsAscii : Text → Type 0
IsAscii = All (λ c. c < 128)

pub slice_ascii :
    (n : ℕ) (t : Text) → IsAscii t → n ≤ byte_len t → (s : Text) × (slice_to n t ≡ some s)
unfolding slice_to byte_len
slice_ascii n [] a h = ([], ground arith)
slice_ascii n (c ∷ t) a h = elim (Bool-cases (n == 0)) [
  | inl z ↦ ([], rw z)
  | inr z ↦
      let (s, e) = slice_ascii (n - 1) t a.1 (ground (arith, a.0)) in
      (
        c ∷ s,
        let one : utf8_len c ≡ 1 = ground (arith, a.0) in
            let fits : leb 1 n ≡ true = ground (arith, z) in
            rw z (rw one (rw fits (ap (Option.map (λ r. c ∷ r)) e))),
      )
]

cut_length :
    (n c : ℕ) (o : Option Text) (s : Text)
    → utf8_len c ≤ n
    → ((r : Text) → o ≡ some r → byte_len r ≡ n - utf8_len c)
    → Option.map (λ t. c ∷ t) o ≡ some s
    → byte_len s ≡ n
unfolding byte_len
cut_length n c none s f h e = absurd (cc)
cut_length n c (some r) s f h e =
    let rest = h r refl in subst (λ x. byte_len x ≡ n) (some_injective e) (omega (arith, rest, f))

cut_none : (n : ℕ) (t s : Text) → (n == 0) ≡ true → slice_to n t ≡ some s → [] ≡ s
unfolding slice_to
cut_none n [] s z h = some_injective (sym (ap (λ b. if b then some [] else none) z) ∙ h)
cut_none n (c ∷ t) s z h = some_injective (
    sym (
      ap
        (λ b.
          if b
          then some []
          else if leb (utf8_len c) n
          then Option.map (λ t. c ∷ t) (slice_to (n - utf8_len c) t)
          else none)
        z)
    ∙ h)

-- A slice has as many bytes as were asked for.
pub byte_len-slice_to : (n : ℕ) (t s : Text) → slice_to n t ≡ some s → byte_len s ≡ n
unfolding slice_to byte_len
byte_len-slice_to n [] s h = elim (Bool-cases (n == 0)) [
  | inl z ↦ subst (λ x. byte_len x ≡ n) (cut_none n [] s z h) (ground (arith, z))
  | inr z ↦ absurd (ground (arith, z, h))
]
byte_len-slice_to n (c ∷ t) s h = elim (Bool-cases (n == 0)) [
  | inl z ↦ subst (λ x. byte_len x ≡ n) (cut_none n (c ∷ t) s z h) (ground (arith, z))
  | inr z ↦ elim (Bool-cases (leb (utf8_len c) n)) [
    | inl fits ↦
        cut_length n c (slice_to (n - utf8_len c) t) s (ground (arith, fits))
          (byte_len-slice_to (n - utf8_len c) t) (sym (rw (z, fits) refl) ∙ h)
    | inr over ↦ absurd (ground (arith, z, over, h))
  ]
]

module _ (p : ℕ → Bool) where
  map-All :
      (c : ℕ) (o : Option Text) (s : Text)
      → p c ≡ true
      → ((r : Text) → o ≡ some r → All (λ d. p d ≡ true) r)
      → Option.map (λ t. c ∷ t) o ≡ some s
      → All (λ d. p d ≡ true) s
  map-All c none s h k e = absurd (cc)
  map-All c (some r) s h k e = subst (All (λ d. p d ≡ true)) (some_injective e) (h, k r refl)

  pub slice_to-All :
      (n : ℕ) (t s : Text)
      → All (λ d. p d ≡ true) t
      → slice_to n t ≡ some s
      → All (λ d. p d ≡ true) s
  unfolding slice_to
  slice_to-All n [] s h e = elim (Bool-cases (n == 0)) [
    | inl z ↦ subst (All (λ d. p d ≡ true)) (cut_none n [] s z e) tt
    | inr z ↦ absurd (ground (arith, z, e))
  ]
  slice_to-All n (c ∷ t) s h e = elim (Bool-cases (n == 0)) [
    | inl z ↦ subst (All (λ d. p d ≡ true)) (cut_none n (c ∷ t) s z e) tt
    | inr z ↦ elim (Bool-cases (leb (utf8_len c) n)) [
      | inl fits ↦
          map-All c (slice_to (n - utf8_len c) t) s h.0 (λ r. slice_to-All (n - utf8_len c) t r h.1)
            (sym (rw (z, fits) refl) ∙ e)
      | inr over ↦ absurd (ground (arith, z, over, e))
    ]
  ]

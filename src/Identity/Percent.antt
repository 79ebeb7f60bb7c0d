-- ===== src/Identity/Percent.antt =====
-- `percent_encode_uri_component` and `percent_decode_uri_component` of ghalbol_core/src/identity.rs, on the bytes
-- of UTF-8. What is no UTF-8 is replaced at the end of the decoding, which is left out.
use ghal_bol.Common.{
  ℕ, ◌+◌, ◌-◌, ◌*◌, ◌/◌, ◌%◌, ◌<◌, ◌≡◌, refl, ap, ◌∙◌, Bool, true, false, All-append, ◌&&◌, ◌||◌,
  Option, none, some, List, [], ◌∷◌, ◌++◌, leb, ltb, ◌==◌, if◌then◌else◌, All, arith, inl, inr,
  Bool-cases,
}

-- Letters, digits, `-`, `_`, `.` and `~`.
abbrev pub is_unreserved : ℕ → Bool
is_unreserved b =
    (leb 65 b && leb b 90)
    || (leb 97 b && leb b 122)
    || (leb 48 b && leb b 57)
    || (b == 45)
    || (b == 95)
    || (b == 46)
    || (b == 126)

-- A digit of `{:02X}`.
abbrev pub upper_digit : ℕ → ℕ
upper_digit n = if ltb n 10 then n + 48 else n + 55

-- A space is %20, as any other byte.
abbrev pub percent_encode_byte : ℕ → List ℕ
percent_encode_byte b =
    if is_unreserved b
    then b ∷ []
    else if b == 32
    then 37 ∷ 50 ∷ 48 ∷ []
    else 37 ∷ upper_digit (b / 16) ∷ upper_digit (b % 16) ∷ []

unfoldable pub percent_encode_uri_component : List ℕ → List ℕ
percent_encode_uri_component [] = []
percent_encode_uri_component (b ∷ s) = percent_encode_byte b ++ percent_encode_uri_component s

abbrev pub digit_value : ℕ → Option ℕ
digit_value c =
    if leb 48 c && leb c 57
    then some (c - 48)
    else if leb 65 c && leb c 70
    then some (c - 55)
    else if leb 97 c && leb c 102
    then some (c - 87)
    else none

abbrev pub two_digits : Option ℕ → Option ℕ → Option ℕ
two_digits (some x) (some y) = some (x * 16 + y)
two_digits _ _ = none

-- `u8::from_str_radix` of two bytes, which takes a `+` before a digit.
abbrev pub from_str_radix : ℕ → ℕ → Option ℕ
from_str_radix a b = if a == 43 then digit_value b else two_digits (digit_value a) (digit_value b)

abbrev pub decoded_or : Option ℕ → List ℕ → List ℕ → List ℕ
decoded_or (some byte) rest as_is = byte ∷ rest
decoded_or none rest as_is = as_is

-- A `%` with two bytes behind it that are a number is that byte.
unfoldable pub percent_decode_uri_component : List ℕ → List ℕ
percent_decode_uri_component [] = []
percent_decode_uri_component (c ∷ []) = c ∷ []
percent_decode_uri_component (c ∷ a ∷ []) = c ∷ a ∷ []
percent_decode_uri_component (c ∷ a ∷ b ∷ s) =
    let rest = percent_decode_uri_component s in
    let as_is = c ∷ percent_decode_uri_component (a ∷ b ∷ s) in
    if c == 37 then decoded_or (from_str_radix a b) rest as_is else as_is

nothing : percent_decode_uri_component [] ≡ []
unfolding percent_decode_uri_component
nothing = refl

decode_plain :
    (c : ℕ) (s : List ℕ)
    → (c == 37) ≡ false
    → percent_decode_uri_component (c ∷ s) ≡ c ∷ percent_decode_uri_component s
unfolding percent_decode_uri_component
decode_plain c [] h = refl
decode_plain c (a ∷ []) h = refl
decode_plain c (a ∷ b ∷ s) h = rw h refl

decode_escaped :
    (a b byte : ℕ) (s : List ℕ)
    → from_str_radix a b ≡ some byte
    → percent_decode_uri_component (37 ∷ a ∷ b ∷ s) ≡ byte ∷ percent_decode_uri_component s
unfolding percent_decode_uri_component
decode_escaped a b byte s h =
    ap
      (λ o.
        decoded_or o (percent_decode_uri_component s)
          (37 ∷ percent_decode_uri_component (a ∷ b ∷ s)))
      h

digits_read :
    (b : ℕ) → b < 256 → from_str_radix (upper_digit (b / 16)) (upper_digit (b % 16)) ≡ some b
digits_read b h = ground arith

decode_byte :
    (b : ℕ) (s : List ℕ)
    → b < 256
    → percent_decode_uri_component (percent_encode_byte b ++ s) ≡ b ∷ percent_decode_uri_component s
decode_byte b s h = elim (Bool-cases (is_unreserved b)) [
  | inl plain ↦ rw plain (decode_plain b s (ground (arith, plain)))
  | inr other ↦ elim (Bool-cases (b == 32)) [
    | inl space ↦
        rw (other, space)
          (decode_escaped 50 48 32 s refl
            ∙ ap (λ c. c ∷ percent_decode_uri_component s) (ground (arith, space)))
    | inr odd ↦
        rw (other, odd)
          (decode_escaped (upper_digit (b / 16)) (upper_digit (b % 16)) b s (digits_read b h))
  ]
]

-- The characters of a path segment.
abbrev pub is_segment : ℕ → Bool
is_segment c = is_unreserved c || (c == 37)

byte-Segment : (b : ℕ) → b < 256 → All (λ c. is_segment c ≡ true) (percent_encode_byte b)
byte-Segment b h = elim (Bool-cases (is_unreserved b)) [
  | inl plain ↦ rw plain (rw plain refl, tt)
  | inr other ↦ elim (Bool-cases (b == 32)) [
    | inl space ↦ rw (other, space) (refl, (refl, (refl, tt)))
    | inr odd ↦ rw (other, odd) (refl, (ground arith, (ground arith, tt)))
  ]
]

-- What is encoded holds letters, digits, `-`, `_`, `.`, `~` and `%` alone, and is decoded as it was.
pub percent_roundtrip :
    (s : List ℕ)
    → All (λ b. b < 256) s
    → All (λ c. is_segment c ≡ true) (percent_encode_uri_component s)
      × (percent_decode_uri_component (percent_encode_uri_component s) ≡ s)
unfolding percent_encode_uri_component
percent_roundtrip [] h = (tt, nothing)
percent_roundtrip (b ∷ s) h =
    let rest = percent_roundtrip s h.1 in
    (
      All-append (λ c. is_segment c ≡ true) (percent_encode_byte b) (percent_encode_uri_component s)
          (byte-Segment b h.0) rest.0,
      decode_byte b (percent_encode_uri_component s) h.0 ∙ ap (λ t. b ∷ t) rest.1,
    )

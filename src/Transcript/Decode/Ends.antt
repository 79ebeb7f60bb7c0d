-- ===== src/Transcript/Decode/Ends.antt =====
-- The search of `decode_root_lenient` ends, and what it finds.
use ghal_bol.Common.{
  ℕ, zero, suc, ◌+◌, ◌-◌, ◌/◌, ◌≤◌, ◌<◌, ◌≡◌, refl, inl, inr, ◌⊎◌, true, false, Option, none, some,
  [], ◌∷◌, leb, if◌then◌else◌, Text, trim, is_empty, arith, Bool-cases,
}
use ghal_bol.Common.Json.{Json, object, end}
use ghal_bol.Common.Utf8.{byte_len, slice_to, IsAscii, slice_ascii}
use ghal_bol.Transcript.Decode.{
  starts_with_brace, Decoded, out_of_fuel, panics, decoded, if_object, decode_loop,
  decode_root_lenient,
}

byte_len_pos : (t : Text) → starts_with_brace t ≡ true → 1 ≤ byte_len t
unfolding byte_len
byte_len_pos [] h = absurd (cc)
byte_len_pos (c ∷ t) h = ground arith

module _ (parse : Text → Option Json) where
  -- An object that some prefix of the text is.
  abbrev pub IsPrefix : Text → Json → Type 0
  IsPrefix t v = (n : ℕ) × (s : Text) × (slice_to n t ≡ some s) × (if_object (parse s) ≡ some v)

  -- The search comes to an end, a panic wants a character beyond ASCII, and what is found is a prefix.
  abbrev pub Outcome : Text → Decoded → Type 0
  Outcome t out_of_fuel = ⊥
  Outcome t panics = IsAscii t → ⊥
  Outcome t (decoded none) = Unit
  Outcome t (decoded (some v)) = IsPrefix t v

  -- One round, from what the two ways on come to.
  parsed-Outcome :
      (t : Text) (n : ℕ) (s : Text) (o : Option Json) (deeper : Json → Decoded)
      (shallower : Decoded)
      → slice_to n t ≡ some s
      → if_object (parse s) ≡ o
      → ((v : Json) → IsPrefix t v → Outcome t (deeper v))
      → Outcome t shallower
      → Outcome t (elim o as (λ _. Decoded) [ some v ↦ deeper v | none ↦ shallower ])
  parsed-Outcome t n s none deeper shallower cut e d h = h
  parsed-Outcome t n s (some v) deeper shallower cut e d h = d v (n, s, cut, e)

  probe-Outcome :
      (t : Text) (n : ℕ) (o : Option Text) (deeper : Json → Decoded) (shallower : Decoded)
      → n ≤ byte_len t
      → slice_to n t ≡ o
      → ((v : Json) → IsPrefix t v → Outcome t (deeper v))
      → Outcome t shallower
      → Outcome t (elim o as (λ _. Decoded) [
        | none ↦ panics
        | some s ↦ elim (if_object (parse s)) as (λ _. Decoded) [
          | some v ↦ deeper v
          | none ↦ shallower
        ]
      ])
  probe-Outcome t n none deeper shallower h e d k =
      λ a. let (s, found) = slice_ascii n t a h in absurd (cc)
  probe-Outcome t n (some s) deeper shallower h e d k =
      parsed-Outcome t n s (if_object (parse s)) deeper shallower e refl d k

  loop-Outcome :
      (fuel : ℕ) (t : Text) (lo hi : ℕ) (best : Option Json)
      → 1 ≤ lo
      → lo ≤ hi + 1
      → hi + 1 < lo + fuel
      → hi ≤ byte_len t
      → Outcome t (decoded best)
      → Outcome t (decode_loop parse fuel t lo hi best)
  unfolding decode_loop
  loop-Outcome zero t lo hi best one order enough within b = absurd (omega arith)
  loop-Outcome (suc fuel) t lo hi best one order enough within b = elim (Bool-cases (leb lo hi)) [
    | inl on ↦
        let le : lo ≤ hi = ground arith in
        rw on (
          probe-Outcome t ((lo + hi) / 2) (slice_to ((lo + hi) / 2) t)
            (λ v. decode_loop parse fuel t ((lo + hi) / 2 + 1) hi (some v))
            (decode_loop parse fuel t lo ((lo + hi) / 2 - 1) best) (omega arith) refl
            (λ v p.
              loop-Outcome fuel t ((lo + hi) / 2 + 1) hi (some v) (omega arith) (omega arith)
                (omega arith) within p)
            (loop-Outcome fuel t lo ((lo + hi) / 2 - 1) best one (omega arith) (omega arith)
              (omega arith) b))
    | inr off ↦ rw off b
  ]

  -- What the file gives: an empty object of a blank file, the value of the whole text, or that of a prefix.
  abbrev pub Given : Text → Decoded → Type 0
  Given raw (decoded (some v)) =
      ((is_empty (trim raw) ≡ true) × (v ≡ object end))
      ⊎ ((parse (trim raw) ≡ some v) ⊎ IsPrefix (trim raw) v)
  Given raw (decoded none) = Unit
  Given raw panics = IsAscii (trim raw) → ⊥
  Given raw out_of_fuel = ⊥

  Outcome-Given : (raw : Text) (d : Decoded) → Outcome (trim raw) d → Given raw d
  Outcome-Given raw out_of_fuel h = h
  Outcome-Given raw panics h = h
  Outcome-Given raw (decoded none) h = tt
  Outcome-Given raw (decoded (some v)) h = inr (inr h)

  whole-Given :
      (raw : Text) (o : Option Json)
      → is_empty (trim raw) ≡ false
      → parse (trim raw) ≡ o
      → Given raw (elim o as (λ _. Decoded) [
        | some v ↦ decoded (some v)
        | none ↦
            if starts_with_brace (trim raw)
            then decode_loop parse (byte_len (trim raw) + 2) (trim raw) 2 (byte_len (trim raw)) none
            else decoded none
      ])
  whole-Given raw (some v) f e = inr (inl e)
  whole-Given raw none f e = elim (Bool-cases (starts_with_brace (trim raw))) [
    | inl brace ↦
        let pos = byte_len_pos (trim raw) brace in
        rw brace (
          Outcome-Given raw _ (
            loop-Outcome (byte_len (trim raw) + 2) (trim raw) 2 (byte_len (trim raw)) none
              (omega arith) (omega arith) (omega arith) (omega arith) tt))
    | inr other ↦ rw other tt
  ]

  -- Reading a transcript comes to an end whatever the file holds. It panics only if the file has a
  -- character beyond ASCII; else what it gives is an empty object of a blank file, the value of the
  -- whole text, or an object that a prefix of the text is, if it gives anything.
  pub decode_ends : (raw : Text) → Given raw (decode_root_lenient parse raw)
  unfolding decode_root_lenient
  decode_ends raw = elim (Bool-cases (is_empty (trim raw))) [
    | inl blank ↦ rw blank (inl (blank, refl))
    | inr some_text ↦ rw some_text (whole-Given raw (parse (trim raw)) some_text refl)
  ]

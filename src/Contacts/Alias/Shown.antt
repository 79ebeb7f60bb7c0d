-- ===== src/Contacts/Alias/Shown.antt =====
-- What comes of a name that a peer sends.
use ghal_bol.Common.{
  ℕ, ◌≤◌, ◌≡◌, refl, sym, subst, ◌∙◌, inl, inr, Bool, true, false, not, ◌||◌, Option, none, some,
  some_injective, leb, ◌-◌, [], ◌∷◌, map, ltb, ◌==◌, All, Text, trim, trim_start, trim_end,
  is_whitespace, is_empty, arith, Bool-cases,
}
use mathlib.Core.Option
use ghal_bol.Common.Normal.{Starts, trim_start-Starts, trim_end-Starts, trim_idem}
use ghal_bol.Common.Utf8.{
  utf8_len, byte_len, slice_to, IsAscii, slice_ascii, byte_len-slice_to, slice_to-All,
}
use ghal_bol.Contacts.Alias.{
  Sanitized, panics, clean, one_line, pop_spaces, non_blank, truncated, sanitize_peer_display_alias,
}

abbrev pub is_on_line : ℕ → Bool
is_on_line c = not ((c == 10) || (c == 13) || (c == 9))

-- A name or a state that can be shown on one line.
pub record IsAlias (t : Text) : Type 0 where
  pub trimmed : trim t ≡ t
  pub some_text : is_empty t ≡ false
  pub short : byte_len t ≤ 64
  pub line : All (λ c. is_on_line c ≡ true) t

module _ (p : ℕ → Bool) where
  abbrev Every : Text → Type 0
  Every = All (λ c. p c ≡ true)

  trim_start-Every : (t : Text) → Every t → Every (trim_start t)
  unfolding trim_start
  trim_start-Every [] h = tt
  trim_start-Every (c ∷ t) h = ground (arith, h.0, h.1, trim_start-Every t h.1)

  trim_end-Every : (t : Text) → Every t → Every (trim_end t)
  unfolding trim_end
  trim_end-Every [] h = tt
  trim_end-Every (c ∷ t) h = ground (arith, h.0, trim_end-Every t h.1)

  trim-Every : (t : Text) → Every t → Every (trim t)
  unfolding trim
  trim-Every t h = trim_end-Every (trim_start t) (trim_start-Every t h)

  pop_spaces-Every : (t : Text) → Every t → Every (pop_spaces t)
  unfolding pop_spaces
  pop_spaces-Every [] h = tt
  pop_spaces-Every (c ∷ t) h = ground (arith, h.0, pop_spaces-Every t h.1)

byte_len-trim_start : (t : Text) → byte_len (trim_start t) ≤ byte_len t
unfolding trim_start byte_len
byte_len-trim_start [] = omega arith
byte_len-trim_start (c ∷ t) = ground (arith, byte_len-trim_start t)

byte_len-trim_end : (t : Text) → byte_len (trim_end t) ≤ byte_len t
unfolding trim_end byte_len
byte_len-trim_end [] = omega arith
byte_len-trim_end (c ∷ t) = ground (arith, byte_len-trim_end t)

byte_len-trim : (t : Text) → byte_len (trim t) ≤ byte_len t
unfolding trim
byte_len-trim t = omega (arith, byte_len-trim_end (trim_start t), byte_len-trim_start t)

byte_len-pop_spaces : (t : Text) → byte_len (pop_spaces t) ≤ byte_len t
unfolding pop_spaces byte_len
byte_len-pop_spaces [] = omega arith
byte_len-pop_spaces (c ∷ t) = ground (arith, byte_len-pop_spaces t)

one_line-Every : (t : Text) → All (λ c. is_on_line c ≡ true) (map one_line t)
one_line-Every [] = tt
one_line-Every (c ∷ t) = (ground arith, one_line-Every t)

one_line-IsAscii : (t : Text) → IsAscii t → IsAscii (map one_line t)
one_line-IsAscii [] h = tt
one_line-IsAscii (c ∷ t) h = (ground (arith, h.0), one_line-IsAscii t h.1)

-- The text begins with something else than white space.
abbrev Begins : Text → Type 0
Begins [] = ⊥
Begins (c ∷ t) = is_whitespace c ≡ false

Starts-Begins : (t : Text) → is_empty t ≡ false → Starts t → Begins t
Starts-Begins [] n h = absurd (cc)
Starts-Begins (c ∷ t) n h = h

trim-Begins : (raw : Text) → is_empty (trim raw) ≡ false → Begins (trim raw)
unfolding trim
trim-Begins raw n =
    Starts-Begins (trim raw) n (trim_end-Starts (trim_start raw) (trim_start-Starts raw))

one_line-Begins : (t : Text) → Begins t → Begins (map one_line t)
unfolding is_whitespace
one_line-Begins [] h = h
one_line-Begins (c ∷ t) h = ground (arith, h)

cut-Begins :
    (c : ℕ) (o : Option Text) (s : Text)
    → is_whitespace c ≡ false
    → Option.map (λ t. c ∷ t) o ≡ some s
    → Begins s
cut-Begins c none s h e = absurd (cc)
cut-Begins c (some r) s h e = subst Begins (some_injective e) h

slice-Begins : (t s : Text) → Begins t → slice_to 64 t ≡ some s → Begins s
unfolding slice_to
slice-Begins [] s h e = absurd h
slice-Begins (c ∷ t) s h e =
    let fits : leb (utf8_len c) 64 ≡ true = ground arith in
    cut-Begins c (slice_to (64 - utf8_len c) t) s h (sym (rw fits refl) ∙ e)

pop_spaces-Begins : (t : Text) → Begins t → Begins (pop_spaces t)
unfolding pop_spaces is_whitespace
pop_spaces-Begins [] h = h
pop_spaces-Begins (c ∷ t) h = ground (arith, h)

trimmed_some : (t : Text) → Begins t → is_empty (trim t) ≡ false
unfolding trim trim_start trim_end
trimmed_some [] h = absurd h
trimmed_some (c ∷ t) h = rw h (rw h (ground (arith, h)))

text_there : (t : Text) → is_empty t ≡ false → non_blank t ≡ some t
text_there [] n = absurd (cc)
text_there (c ∷ t) n = refl

-- What a text that begins so is trimmed to, if it fits.
trim-IsAlias :
    (t : Text) → Begins t → byte_len t ≤ 64 → All (λ c. is_on_line c ≡ true) t → IsAlias (trim t)
trim-IsAlias t b short line = record {
  trimmed = trim_idem t;
  some_text = trimmed_some t b;
  short = omega (arith, short, byte_len-trim t);
  line = trim-Every is_on_line t line;
}

-- What comes of a text: nothing of a blank one, else a name, and a panic only of a text beyond ASCII.
abbrev pub Outcome : Text → Sanitized → Type 0
Outcome raw panics = IsAscii raw → ⊥
Outcome raw (clean none) = is_empty (trim raw) ≡ true
Outcome raw (clean (some t)) = IsAlias t

alias-Outcome : (raw t : Text) → IsAlias t → Outcome raw (clean (non_blank t))
alias-Outcome raw t h = subst (λ o. Outcome raw (clean o)) (sym (text_there t h.some_text)) h

cut-Outcome :
    (raw t : Text) (o : Option Text)
    → Begins t
    → All (λ c. is_on_line c ≡ true) t
    → slice_to 64 t ≡ o
    → (o ≡ none → IsAscii raw → ⊥)
    → Outcome raw (truncated o)
cut-Outcome raw t none b line e h = h refl
cut-Outcome raw t (some s) b line e h =
    let length = byte_len-slice_to 64 t s e in
    alias-Outcome raw (trim (pop_spaces s)) (
      trim-IsAlias (pop_spaces s) (pop_spaces-Begins s (slice-Begins t s b e))
        (omega (arith, length, byte_len-pop_spaces s))
        (pop_spaces-Every is_on_line s (slice_to-All is_on_line 64 t s line e)))

IsAscii-flags : (raw : Text) → IsAscii raw → All (λ c. ltb c 128 ≡ true) raw
IsAscii-flags [] h = tt
IsAscii-flags (c ∷ t) h = (ground (arith, h.0), IsAscii-flags t h.1)

IsAscii-back : (t : Text) → All (λ c. ltb c 128 ≡ true) t → IsAscii t
IsAscii-back [] h = tt
IsAscii-back (c ∷ t) h = (ground (arith, h.0), IsAscii-back t h.1)

trim-IsAscii : (raw : Text) → IsAscii raw → IsAscii (trim raw)
trim-IsAscii raw h = IsAscii-back (trim raw) (trim-Every (λ c. ltb c 128) raw (IsAscii-flags raw h))

clash : (s : Text) → some s ≡ none → ⊥
clash s e = absurd (cc)

no_panic : (t : Text) → ltb 64 (byte_len t) ≡ true → slice_to 64 t ≡ none → IsAscii t → ⊥
no_panic t long e a = let (s, k) = slice_ascii 64 t a (ground (arith, long)) in clash s (sym k ∙ e)

-- A name that is sanitised is one line without space at its ends, not empty, and of 64 bytes at most. Only a
-- blank text gives none, and only a text with a character beyond ASCII can panic.
pub sanitize-Outcome : (raw : Text) → Outcome raw (sanitize_peer_display_alias raw)
unfolding sanitize_peer_display_alias
sanitize-Outcome raw = elim (Bool-cases (is_empty (trim raw))) [
  | inl blank ↦ rw blank blank
  | inr named ↦
      let t = map one_line (trim raw) in
      let b = one_line-Begins (trim raw) (trim-Begins raw named) in
      let line = one_line-Every (trim raw) in
      elim (Bool-cases (ltb 64 (byte_len t))) [
        | inl long ↦ rw named (
            rw long (
              cut-Outcome raw t (slice_to 64 t) b line refl
                (λ e a. no_panic t long e (one_line-IsAscii (trim raw) (trim-IsAscii raw a)))))
        | inr short ↦
            rw named (
              rw short (alias-Outcome raw (trim t) (trim-IsAlias t b (ground (arith, short)) line)))
      ]
]

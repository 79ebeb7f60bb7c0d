-- ===== src/Transcript/Line/Again.antt =====
-- The name and the kind of a row, and its numbers, once they were read and are written, are read again.
use ghal_bol.Common.{
  ℕ, ◌%◌, ◌^◌, ◌≡◌, refl, sym, ap, inl, inr, Bool-cases, ◌∙◌, Bool, true, false, not, ◌&&◌, ◌||◌,
  Option, none, some, [], ◌∷◌, ◌==◌, Text, text as lit, text_eq, trim, trim_start, is_empty, arith,
}
use mathlib.Core.Option
use ghal_bol.Common.Normal.{trim_idem}
use ghal_bol.Common.Int.{pos, negsuc}
use ghal_bol.Common.Json.{Json, as_str, as_i64, boolean, number, string}
use ghal_bol.Transcript.Line.{
  and_then, non_empty, after_paperclip, starts_with_paperclip, paperclip, or_else, or_empty,
  file_name_of, kind_of, integers, kind_field,
}

non_empty_of : (x s : Text) → non_empty x ≡ some s → x ≡ s
non_empty_of [] s e = absurd (cc)
non_empty_of (c ∷ x) s e = cc

non_empty_self : (s t : Text) → non_empty s ≡ some t → non_empty t ≡ some t
non_empty_self [] t e = absurd (cc)
non_empty_self (c ∷ s) t e = cc

trimmed : (x s : Text) → non_empty (trim x) ≡ some s → non_empty (trim s) ≡ some s
trimmed x s e =
    ap non_empty
      (ap trim (sym (non_empty_of (trim x) s e)) ∙ trim_idem x ∙ non_empty_of (trim x) s e)
    ∙ non_empty_self (trim x) s e

pub i64_again :
    (o : Option Json) → and_then (integers (and_then o as_i64)) as_i64 ≡ and_then o as_i64
i64_again none = refl
i64_again (some (number (pos n))) = ground arith
i64_again (some (number (negsuc n))) = refl
i64_again (some Json.null) = refl
i64_again (some (boolean b)) = refl
i64_again (some (Json.real s)) = refl
i64_again (some (string s)) = refl
i64_again (some (Json.array s)) = refl
i64_again (some (Json.object s)) = refl

pub u32_again :
    (o : Option ℕ)
    → Option.map (λ n. n % 2 ^ 32) (Option.map (λ n. n % 2 ^ 32) o) ≡ Option.map (λ n. n % 2 ^ 32) o
u32_again none = refl
u32_again (some n) = ap some (omega arith)

-- A name that was read is trimmed.
NameFits : Option Text → Type 0
NameFits none = Unit
NameFits (some s) = non_empty (trim s) ≡ some s

trimmed-NameFits : (x : Text) (o : Option Text) → non_empty (trim x) ≡ o → NameFits o
unfolding NameFits
trimmed-NameFits x none e = tt
trimmed-NameFits x (some s) e = trimmed x s e

paperclip-NameFits : (t : Text) → NameFits (after_paperclip t)
unfolding NameFits
paperclip-NameFits [] = tt
paperclip-NameFits (c ∷ t) = elim (Bool-cases (c == paperclip)) [
  | inl e ↦ rw e (trimmed-NameFits t (non_empty (trim t)) refl)
  | inr e ↦ rw e tt
]

or_else-NameFits : (a b : Option Text) → NameFits a → NameFits b → NameFits (or_else a b)
or_else-NameFits none b h k = k
or_else-NameFits (some s) b h k = h

or_else-none : (a b : Option Text) → or_else a b ≡ none → b ≡ none
or_else-none none b e = e
or_else-none (some s) b e = absurd (cc)

named_once :
    (o : Option Text) (t : Text)
    → NameFits o
    → (o ≡ none → after_paperclip (trim t) ≡ none)
    → file_name_of o t ≡ o
unfolding NameFits
named_once none t h k = k refl
named_once (some s) t h k = rw h

read_name-NameFits : (n : Option Text) (t : Text) → NameFits (file_name_of n t)
unfolding NameFits
read_name-NameFits none t = paperclip-NameFits (trim t)
read_name-NameFits (some n) t =
    or_else-NameFits (non_empty (trim n)) (after_paperclip (trim t))
      (trimmed-NameFits n (non_empty (trim n)) refl) (paperclip-NameFits (trim t))

pub named_again :
    (n : Option Text) (t : Text) → file_name_of (file_name_of n t) t ≡ file_name_of n t
named_again n t =
    named_once (file_name_of n t) t (read_name-NameFits n t)
      (or_else-none (and_then (Option.map trim n) non_empty) (after_paperclip (trim t)))

-- What is read of the kind that is written.
abbrev rewritten : Text → Text
rewritten k = trim (or_empty (and_then (kind_field (trim k)) as_str))

abbrev is_own : Text → Bool
is_own raw = not (is_empty raw) && not (text_eq raw (lit "text"))

own_again :
    (raw t : Text) (f : Option Text)
    → trim raw ≡ raw
    → is_own raw ≡ true
    → kind_of (rewritten (kind_of raw f t)) f t ≡ kind_of raw f t
own_again raw t f e own =
    let k : kind_of raw f t ≡ raw = rw own refl in
    let w : kind_field (trim raw) ≡ some (string raw) = rw e (rw own refl) in
    ap (λ x. kind_of (rewritten x) f t) k
    ∙ ap (λ o. kind_of (trim (or_empty (and_then o as_str))) f t) w
    ∙ ap (λ x. kind_of x f t) e

offer_again :
    (t : Text) (f : Option Text)
    → kind_of (rewritten (lit "attachment_offer")) f t ≡ lit "attachment_offer"
unfolding trim text_eq
offer_again t f = refl

text_again : (t : Text) (f : Option Text) → kind_of (rewritten (lit "text")) f t ≡ kind_of [] f t
unfolding trim text_eq
text_again t f = refl

abbrev is_offer : Option Text → Text → Bool
is_offer f t = (elim f [ none ↦ false | some _ ↦ true ]) || starts_with_paperclip (trim_start t)

other_again :
    (raw t : Text) (f : Option Text)
    → is_own raw ≡ false
    → kind_of (rewritten (kind_of raw f t)) f t ≡ kind_of raw f t
other_again raw t f other = elim (Bool-cases (is_offer f t)) [
  | inl o ↦
      let k : kind_of raw f t ≡ lit "attachment_offer" = rw other (rw o refl) in
      ap (λ x. kind_of (rewritten x) f t) k ∙ offer_again t f ∙ sym k
  | inr o ↦
      let k : kind_of raw f t ≡ lit "text" = rw other (rw o refl) in
      let k' : kind_of [] f t ≡ lit "text" = rw o refl in
      ap (λ x. kind_of (rewritten x) f t) k ∙ text_again t f ∙ k' ∙ sym k
]

pub kind_again :
    (raw t : Text) (f : Option Text)
    → trim raw ≡ raw
    → kind_of (rewritten (kind_of raw f t)) f t ≡ kind_of raw f t
kind_again raw t f e = elim (Bool-cases (is_own raw)) [
  | inl own ↦ own_again raw t f e own
  | inr other ↦ other_again raw t f other
]

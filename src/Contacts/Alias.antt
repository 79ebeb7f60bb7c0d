-- ===== src/Contacts/Alias.antt =====
-- `sanitize_peer_display_alias` of ghalbol_core/src/preferences_v1.rs, for names and states that peers send.
pub mod Shown
use ghal_bol.Common.{
  ℕ, ◌+◌, ◌≤◌, ◌<◌, ◌≡◌, refl, sym, subst, ap, ◌∙◌, inl, inr, Bool, true, false, not, ◌&&◌, ◌||◌,
  Option, none, some, some_injective, leb, ◌-◌, [], ◌∷◌, map, ltb, ◌==◌, if◌then◌else◌, All, Text,
  trim, trim_start, trim_end, is_whitespace, is_empty, arith, Bool-cases,
}
use mathlib.Core.Option
use ghal_bol.Common.Normal.{Starts, trim_start-Starts, trim_end-Starts, trim_idem}
use ghal_bol.Common.Utf8.{
  utf8_len, byte_len, slice_to, IsAscii, slice_ascii, byte_len-slice_to, slice_to-All,
}

pub data Sanitized : Type 0 where
  panics : Sanitized
  clean : Option Text → Sanitized

-- Line feed, carriage return and tab become spaces.
abbrev pub one_line : ℕ → ℕ
one_line c = if (c == 10) || (c == 13) || (c == 9) then 32 else c

-- `while t.ends_with(' ') { t.pop(); }`
unfoldable pub pop_spaces : Text → Text
pop_spaces [] = []
pop_spaces (c ∷ t) = let r = pop_spaces t in if is_empty r && (c == 32) then [] else c ∷ r

abbrev pub non_blank : Text → Option Text
non_blank [] = none
non_blank (c ∷ t) = some (c ∷ t)

-- `String::truncate`, which panics inside a character.
abbrev pub truncated : Option Text → Sanitized
truncated none = panics
truncated (some t) = clean (non_blank (trim (pop_spaces t)))

unfoldable pub sanitize_peer_display_alias : Text → Sanitized
sanitize_peer_display_alias raw =
    let t = map one_line (trim raw) in
    if is_empty (trim raw)
    then clean none
    else if ltb 64 (byte_len t)
    then truncated (slice_to 64 t)
    else clean (non_blank (trim t))

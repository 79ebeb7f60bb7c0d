-- ===== src/Transcript/Decode.antt =====
-- How the file of the transcript is read: `decode_root_lenient` and `read_root_unlocked` of
-- ghalbol_core/src/dm_transcript_store.rs (contacts_v1.rs has the first again). `parse` is
-- serde_json::from_str. A slice of a text is counted in bytes of UTF-8, and panics inside a character.
pub mod Ends
use ghal_bol.Common.{
  ℕ, zero, suc, ◌+◌, ◌-◌, ◌/◌, Bool, true, false, Option, none, some, [], ◌∷◌, leb, ltb, ◌==◌,
  if◌then◌else◌, Text, trim, is_empty,
}
use mathlib.Core.Option
use ghal_bol.Common.Utf8.{byte_len, slice_to}
use ghal_bol.Common.Json.{Json, object, end}

abbrev pub starts_with_brace : Text → Bool
starts_with_brace [] = false
starts_with_brace (c ∷ s) = c == 123

pub data Decoded : Type 0 where
  out_of_fuel panics : Decoded
  decoded : Option Json → Decoded

-- `Ok(v) if v.is_object()`.
abbrev pub if_object : Option Json → Option Json
if_object (some (object m)) = some (object m)
if_object _ = none

module _ (parse : Text → Option Json) where
  -- The search for a prefix that is an object.
  unfoldable pub decode_loop : ℕ → Text → ℕ → ℕ → Option Json → Decoded
  decode_loop zero t lo hi best = out_of_fuel
  decode_loop (suc fuel) t lo hi best =
      if leb lo hi
      then elim (slice_to ((lo + hi) / 2) t) as (λ _. Decoded) [
        | none ↦ panics
        | some s ↦ elim (if_object (parse s)) as (λ _. Decoded) [
          | some v ↦ decode_loop fuel t ((lo + hi) / 2 + 1) hi (some v)
          | none ↦ decode_loop fuel t lo ((lo + hi) / 2 - 1) best
        ]
      ]
      else decoded best

  -- Each round takes the half of what is left, so as many rounds as bytes are enough.
  unfoldable pub decode_root_lenient : Text → Decoded
  decode_root_lenient raw =
      let t = trim raw in
      if is_empty t then decoded (some (object end)) else elim (parse t) as (λ _. Decoded) [
        | some v ↦ decoded (some v)
        | none ↦
            if starts_with_brace t
            then decode_loop (byte_len t + 2) t 2 (byte_len t) none
            else decoded none
      ]

  -- No file, or none that can be read, is an empty object; `none` is a panic.
  unfoldable pub read_root_unlocked : Option Text → Option Json
  read_root_unlocked none = some (object end)
  read_root_unlocked (some raw) = elim (decode_root_lenient raw) as (λ _. Option Json) [
    | decoded (some v) ↦ some v
    | decoded none ↦ some (object end)
    | _ ↦ none
  ]

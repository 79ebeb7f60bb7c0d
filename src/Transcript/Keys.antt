-- ===== src/Transcript/Keys.antt =====
-- The names of a thread in ghalbol_core/src/dm_transcript_store.rs, and the revisions of the views.
-- `Contacts` is what it asks contacts_v1.rs and public_key_util.rs; an error of a lookup and no contact are
-- the same to it.
use ghal_bol.Common.{
  ℕ, ◌+◌, ◌-◌, ◌^◌, min, Bool, ◌||◌, Option, none, some, List, [], ◌∷◌, ◌++◌, any, if◌then◌else◌,
  Text, text as lit, text_eq, eq_of_text, trim, to_ascii_lowercase, is_empty,
}
use ghal_bol.Common.Map
use ghal_bol.Common.Map.{Map}

pub record Contacts : Type 0 where
  pub find_by_peer_id : Text → Option Text
  pub find_by_public_key : Text → Option Text
  pub is_valid_public_key_hex : Text → Bool
  pub legacy_libp2p_peer_id_str_from_public_key_hex : Text → Option Text
  pub legacy_public_key_from_peer_id_str : Text → Option Text

-- `|` is 124.
unfoldable pub revision_storage_key : Text → Text → Text
revision_storage_key app_namespace view_key =
    trim app_namespace ++ (124 ∷ to_ascii_lowercase (trim view_key))

-- A set of texts as a list.
abbrev pub set_insert : Text → List Text → List Text
set_insert k s = if any (text_eq k) s then s else s ++ (k ∷ [])

module _ (contacts : Contacts) where
  open contacts use {
    find_by_peer_id, find_by_public_key, is_valid_public_key_hex,
    legacy_libp2p_peer_id_str_from_public_key_hex, legacy_public_key_from_peer_id_str,
  }

  abbrev pub view_of : Text → Text
  view_of pk = if is_valid_public_key_hex pk then to_ascii_lowercase (trim pk) else trim pk

  unfoldable pub transcript_view_key : Text → Text
  transcript_view_key conversation_key =
      let k = trim conversation_key in
      if is_empty k
      then []
      else if is_valid_public_key_hex k
      then to_ascii_lowercase k
      else elim (find_by_peer_id k) [
        | some pk ↦ view_of pk
        | none ↦ elim (find_by_public_key k) [ some pk ↦ view_of pk | none ↦ k ]
      ]

  unfoldable pub bump_transcript_revision : Text → Text → Map Text ℕ → Map Text ℕ
  bump_transcript_revision app_namespace conversation_key revisions =
      let view = transcript_view_key conversation_key in
      let key = revision_storage_key app_namespace view in
      if is_empty view then revisions else elim (Map.get key revisions) [
        | none ↦ Map.insert key 1 revisions
        | some n ↦ Map.insert key (min (n + 1) (2 ^ 64 - 1)) revisions
      ]

  abbrev pub add_contact : Option Text → List Text → List Text
  add_contact none out = out
  add_contact (some pk) out =
      let out' = set_insert (trim pk) out in
      if is_valid_public_key_hex pk then set_insert (trim pk) out' else out'

  abbrev pub add_some : Option Text → List Text → List Text
  add_some none out = out
  add_some (some k) out = set_insert k out

  abbrev pub add_legacy_key : Option Text → List Text → List Text
  add_legacy_key none out = out
  add_legacy_key (some pk) out =
      add_some (legacy_libp2p_peer_id_str_from_public_key_hex pk) (set_insert pk out)

  abbrev pub add_legacy : Text → List Text → List Text
  add_legacy k out =
      if is_valid_public_key_hex k
      then add_some (legacy_libp2p_peer_id_str_from_public_key_hex k) out
      else add_legacy_key (legacy_public_key_from_peer_id_str k) out

  unfoldable pub add_names : List Text → List Text → List Text
  add_names [] out = out
  add_names (key ∷ keys) out =
      let k = trim key in
      add_names keys (
        if is_empty k || text_eq k (lit "solo")
        then out
        else add_legacy k
            (add_contact (find_by_public_key k) (add_contact (find_by_peer_id k) out)))

  unfoldable pub trimmed_keys : List Text → List Text
  trimmed_keys [] = []
  trimmed_keys (key ∷ keys) =
      let rest = trimmed_keys keys in
      if is_empty (trim key) then rest else set_insert (trim key) rest

  unfoldable pub expand_conversation_keys : List Text → List Text
  expand_conversation_keys keys = add_names keys (trimmed_keys keys)

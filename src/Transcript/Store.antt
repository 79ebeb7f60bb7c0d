-- ===== src/Transcript/Store.antt =====
-- The operations of ghalbol_core/src/dm_transcript_store.rs on its file. Between the calls the file is the
-- value that it holds, and its writes do not fail.
pub mod Append
pub mod Shown
pub mod Every
use ghal_bol.Common.{
  ℕ, ◌+◌, ◌-◌, ◌^◌, min, max, Bool, true, false, not, ◌&&◌, ◌||◌, Option, none, some, List, [], ◌∷◌,
  ◌++◌, ltb, leb, length, drop, any, map, if◌then◌else◌, Text, text as lit, text_eq, eq_of_text,
  trim, to_ascii_lowercase, is_empty,
}
use ghal_bol.Common.Int.{ℤ, pos, leb_ℤ}
use ghal_bol.Common.Map
use ghal_bol.Common.Map.{Map}
use ghal_bol.Common.Json
use ghal_bol.Common.Json.{
  Json, Items, nil, cons, Fields, end, field, array, object, as_array, as_object, from_items,
}
use ghal_bol.Transcript.Line.{StoredChatLine, from_json, to_json, or_empty, and_then}
use ghal_bol.Transcript.Order.{mid_of, insert_line_in_thread_order}
use ghal_bol.Transcript.Merge.{delivery_rank, rows, load_merged_unlocked}
use ghal_bol.Transcript.Patch.{
  patch_keys, patch_all_threads, threads_of, with_threads, failed, with_delivery, with_received_at,
  with_local_path, with_read_ack_sent,
}
use ghal_bol.Transcript.Keys.{
  Contacts, transcript_view_key, expand_conversation_keys, bump_transcript_revision,
  revision_storage_key, set_insert,
}

pub record Store : Type 0 where
  pub all : Json
  pub revisions : Map Text ℕ

pub record TranscriptThreadView : Type 0 where
  pub revision : ℕ
  pub lines : List StoredChatLine
  pub has_more : Bool

-- The newest lines up to the limit, and whether there are older ones.
unfoldable pub window : Option ℕ → List StoredChatLine → List StoredChatLine × Bool
window none all = (all, false)
window (some n) all = if ltb n (length all) then (drop (length all - n) all, true) else (all, false)

abbrev pub rows_of : Option Items → List StoredChatLine
rows_of none = []
rows_of (some thread) = rows thread

-- The thread of the key; a value that is no array, and none, are an empty thread.
abbrev pub thread_at : Text → Fields → List StoredChatLine
thread_at conversation_key threads = rows_of (and_then (Json.get conversation_key threads) as_array)

abbrev pub thread_json : List StoredChatLine → Json
thread_json lines = array (from_items (map to_json lines))

-- The line is not added if its message is in the thread.
abbrev pub append_to : Text → StoredChatLine → List StoredChatLine → Option (List StoredChatLine)
append_to mid line existing =
    if not (is_empty mid) && any (λ e. text_eq (mid_of e) mid) existing
    then none
    else some (insert_line_in_thread_order existing line)

-- A root that is no object stays as it is.
abbrev pub insert_root : Text → Json → Json → Json
insert_root k v (object root) = object (Json.insert k v root)
insert_root k v all = all

module _ (contacts : Contacts) where
  -- The end of a patch: the write and the new revision, if there was a change.
  abbrev pub patched : Text → Text → Option Fields → (Fields → Fields × Bool) → Store → Store × Bool
  patched app_namespace conversation_key none patch s = (s, false)
  patched app_namespace conversation_key (some threads) patch s =
      let (threads', changed) = patch threads in
      if changed
      then (
        record {
          all = with_threads app_namespace threads' s.all;
          revisions = bump_transcript_revision contacts app_namespace conversation_key s.revisions;
        },
        true,
      )
      else (s, false)

  abbrev pub patch_conversation :
      (StoredChatLine → Option StoredChatLine) → Text → Text → Store → Store × Bool
  patch_conversation f app_namespace conversation_key s =
      patched app_namespace conversation_key (threads_of app_namespace s.all)
        (patch_keys f (expand_conversation_keys contacts (conversation_key ∷ []))) s

  unfoldable pub patch_outgoing_failed : Text → Text → Text → Store → Store × Bool
  patch_outgoing_failed app_namespace conversation_key message_id s =
      if is_empty (trim message_id) || is_empty (trim conversation_key)
      then (s, false)
      else patch_conversation (failed (trim message_id)) app_namespace conversation_key s

  unfoldable pub patch_outgoing_delivery : Text → Text → Text → Text → Store → Store × Bool
  patch_outgoing_delivery app_namespace conversation_key message_id delivery s =
      if is_empty (trim message_id) || is_empty (trim conversation_key)
      then (s, false)
      else if ltb (delivery_rank delivery) 1
      then (s, false)
      else patch_conversation (with_delivery (trim message_id) delivery) app_namespace
          conversation_key s

  unfoldable pub patch_outgoing_received_at : Text → Text → Text → ℤ → Store → Store × Bool
  patch_outgoing_received_at app_namespace conversation_key message_id received_at_ms s =
      if is_empty (trim message_id)
        || is_empty (trim conversation_key)
        || leb_ℤ received_at_ms (pos 0)
      then (s, false)
      else patch_conversation (with_received_at (trim message_id) received_at_ms) app_namespace
          conversation_key s

  unfoldable pub patch_attachment_local_path : Text → Text → Text → Text → Store → Store × Bool
  patch_attachment_local_path app_namespace conversation_key message_id local_path s =
      if is_empty (trim message_id)
        || is_empty (trim conversation_key)
        || is_empty (trim local_path)
      then (s, false)
      else patch_conversation (with_local_path (trim message_id) (trim local_path)) app_namespace
          conversation_key s

  unfoldable pub bump_all : Text → List Text → Map Text ℕ → Map Text ℕ
  bump_all app_namespace [] revisions = revisions
  bump_all app_namespace (k ∷ keys) revisions =
      bump_all app_namespace keys (bump_transcript_revision contacts app_namespace k revisions)

  -- `with_transcript_path` and a file that is there.
  unfoldable pub patch_inbound_read_ack_sent : Text → Text → Store → Store × Bool
  patch_inbound_read_ack_sent app_namespace message_id s =
      if is_empty (trim message_id)
      then (s, false)
      else elim (threads_of app_namespace s.all) as (λ _. Store × Bool) [
        | none ↦ (s, false)
        | some threads ↦
            let (threads', touched) =
              patch_all_threads (with_read_ack_sent (trim message_id)) threads in
            if is_empty touched then (s, false) else (
              record {
                all = with_threads app_namespace threads' s.all;
                revisions = bump_all app_namespace touched s.revisions;
              },
              true,
            )
      ]

  -- The write, and the new revision.
  abbrev pub appended : Text → Text → Json → Store → Store
  appended app_namespace conversation_key all s = record {
    all = all;
    revisions = bump_transcript_revision contacts app_namespace conversation_key s.revisions;
  }

  abbrev pub append_lines : Text → Text → Fields → Option (List StoredChatLine) → Store → Store
  append_lines app_namespace conversation_key threads none s = s
  append_lines app_namespace conversation_key threads (some lines) s =
      appended app_namespace conversation_key
        (with_threads app_namespace (Json.insert conversation_key (thread_json lines) threads)
          s.all)
        s

  abbrev pub append_in : Text → Text → StoredChatLine → Option Fields → Store → Store
  append_in app_namespace conversation_key line none s =
      appended app_namespace conversation_key
        (insert_root app_namespace (object (field conversation_key (thread_json (line ∷ [])) end))
          s.all)
        s
  append_in app_namespace conversation_key line (some threads) s =
      append_lines app_namespace conversation_key threads
        (append_to (mid_of line) line (thread_at conversation_key threads)) s

  unfoldable pub append_if_new : Text → Text → StoredChatLine → Store → Store
  append_if_new app_namespace conversation_key line s =
      if is_empty (trim conversation_key)
      then s
      else append_in app_namespace conversation_key line (threads_of app_namespace s.all) s

  unfoldable pub load_merged : Text → List Text → Option Text → Store → List StoredChatLine
  load_merged app_namespace conversation_keys match_inbound_from_peer_id s =
      load_merged_unlocked app_namespace (expand_conversation_keys contacts conversation_keys)
        match_inbound_from_peer_id s.all

  unfoldable pub thread_revision_for_view : Text → Text → Store → ℕ
  thread_revision_for_view app_namespace view_key s =
      elim (Map.get (revision_storage_key app_namespace view_key) s.revisions) [
        | none ↦ 0
        | some n ↦ n
      ]

  -- The greatest revision of the views of the keys, of which there are none to begin with.
  unfoldable pub greatest_revision : Text → List Text → Store → ℕ
  greatest_revision app_namespace [] s = 0
  greatest_revision app_namespace (k ∷ keys) s =
      let rest = greatest_revision app_namespace keys s in
      let v = transcript_view_key contacts k in
      if is_empty v then rest else max (thread_revision_for_view app_namespace v s) rest

  unfoldable pub thread_revision_for_keys : Text → List Text → Store → ℕ
  thread_revision_for_keys app_namespace conversation_keys s =
      greatest_revision app_namespace (expand_conversation_keys contacts conversation_keys) s

  unfoldable pub thread_view_limited :
      Text → List Text → Option Text → Option ℕ → Store → TranscriptThreadView
  thread_view_limited app_namespace conversation_keys match_inbound_from_peer_id limit s =
      let all = load_merged app_namespace conversation_keys match_inbound_from_peer_id s in
      let (lines, has_more) = window limit all in
      record {
        revision = thread_revision_for_keys app_namespace conversation_keys s;
        lines = lines;
        has_more = has_more;
      }

-- ===== src/Transcript/Tests.antt =====
-- Runs of the transcript store.
use ghal_bol.Common.{
  ◌≡◌, refl, true, false, Option, none, some, List, [], ◌∷◌, map, Text, text as lit, text_eq,
  text_lt, ◌||◌, trim, is_empty, if◌then◌else◌, eq_of_text,
}
use ghal_bol.Common.Int.{pos}
use ghal_bol.Common.Json
use ghal_bol.Common.Json.{
  Json, Items, nil, cons, Fields, end, field, boolean, number, string, array, object, from_items,
}
use ghal_bol.Transcript.Line.{StoredChatLine, from_json, to_json}
use ghal_bol.Transcript.Line.Reread.{from_json_again}
use ghal_bol.Common.Map
use ghal_bol.Transcript.Order.{mid_of, sort_onto, insert_line_in_thread_order}
use ghal_bol.Transcript.Order.Sorted.{InOrder, count}
use ghal_bol.Common.Utf8.{byte_len, slice_to}
use ghal_bol.Transcript.Decode.{decoded, panics, decode_root_lenient, decode_loop}
use ghal_bol.Transcript.Decode.Ends.{Given, decode_ends}
use ghal_bol.Transcript.Merge.{
  rows, gather, dedupe_lines, included_rows, is_included, modify_or_insert, pick_better_duplicate,
  delivery_rank, part_lines, stored_rows, load_merged_unlocked,
}
use ghal_bol.Transcript.Merge.Exact.{has_mid}
use ghal_bol.Transcript.Merge.Load.{IsMerge, load_merged_exact}
use ghal_bol.Transcript.Patch.{patch_items, with_delivery}
use ghal_bol.Transcript.Patch.Rows.{or_same, rows-patch_items, with_delivery-Keeps}
use ghal_bol.Transcript.Patch.Delivery.{
  Change, fails, delivers, receives, acknowledges, AllKept, run, thread_kept,
}
use ghal_bol.Transcript.Keys.{Contacts}
use ghal_bol.Transcript.Store.{Store, append_if_new, load_merged}
use ghal_bol.Transcript.Store.Shown.{append_shown}

-- Nobody is known.
abbrev nobody : Contacts
nobody = record {
  find_by_peer_id = λ _. none;
  find_by_public_key = λ _. none;
  is_valid_public_key_hex = λ _. false;
  legacy_libp2p_peer_id_str_from_public_key_hex = λ _. none;
  legacy_public_key_from_peer_id_str = λ _. none;
}

abbrev greeting : StoredChatLine
greeting = record {
  local_id = lit "1";
  text = lit "hi";
  outgoing = true;
  from = none;
  message_id = some (lit "m1");
  delivery = lit "pending";
  created_at_ms = some (pos 5);
  received_at_ms = none;
  read_ack_sent = false;
  msg_kind = lit "text";
  duration_ms = none;
  audio_path = none;
  file_name = none;
  mime_type = none;
  size_bytes = none;
  local_path = none;
}

abbrev sent : StoredChatLine
sent = record greeting { delivery = lit "sent" }

-- The message twice, once as sent.
abbrev twice : Items
twice = cons (to_json sent) (cons (to_json greeting) nil)

abbrev threads_twice : Fields
threads_twice = field (lit "bob") (array twice) end

abbrev root_twice : Fields
root_twice = field (lit "dm") (object threads_twice) end

greeting_read : from_json (to_json greeting) ≡ some greeting
unfolding from_json to_json Json.get Json.insert text_eq text_lt trim
greeting_read = refl

from_json_again_example : from_json (to_json greeting) ≡ some greeting
from_json_again_example = from_json_again (to_json greeting) greeting greeting_read

-- serde_json on three texts.
abbrev parse_some : Text → Option Json
parse_some t = if text_eq t (lit "{}") || text_eq t (lit "{ }") then some (object end) else none

decode_ends_example : Given parse_some (lit "{}x") (decode_root_lenient parse_some (lit "{}x"))
decode_ends_example = decode_ends parse_some (lit "{}x")

-- An object with something behind it is found, if the search comes upon it.
found_prefix : decode_root_lenient parse_some (lit "{}x") ≡ decoded (some (object end))
unfolding decode_root_lenient decode_loop byte_len slice_to text_eq trim
found_prefix = refl

-- Behind two lengths that are no object, one of three characters is not.
lost_prefix : decode_root_lenient parse_some (lit "{ }xyz") ≡ decoded none
unfolding decode_root_lenient decode_loop byte_len slice_to text_eq trim
lost_prefix = refl

-- The middle of the text is in a character.
panics_inside : decode_root_lenient parse_some (123 ∷ 8364 ∷ 8364 ∷ []) ≡ panics
unfolding decode_root_lenient decode_loop byte_len slice_to text_eq trim
panics_inside = refl

twice_there : Json.get (lit "dm") root_twice ≡ some (object threads_twice)
unfolding Json.get text_eq
twice_there = refl

load_merged_exact_example :
    IsMerge
      (stored_rows (lit "bob" ∷ []) none threads_twice)
      (load_merged_unlocked (lit "dm") (lit "bob" ∷ []) none (object root_twice))
load_merged_exact_example =
    load_merged_exact (lit "dm") (lit "bob" ∷ []) none root_twice threads_twice twice_there

once_loaded : load_merged_unlocked (lit "dm") (lit "bob" ∷ []) none (object root_twice) ≡ sent ∷ []
unfolding load_merged_unlocked from_json to_json Json.get Json.insert text_eq text_lt trim rows
    gather dedupe_lines included_rows is_included modify_or_insert pick_better_duplicate
    delivery_rank part_lines Map.get Map.insert sort_onto insert_line_in_thread_order
once_loaded = refl

rows-patch_items_example :
    rows (patch_items (with_delivery (lit "m1") (lit "read")) twice).0
    ≡ map (λ l. or_same l (with_delivery (lit "m1") (lit "read") l)) (rows twice)
rows-patch_items_example =
    rows-patch_items (with_delivery (lit "m1") (lit "read")) twice
      (with_delivery-Keeps (lit "m1") (lit "read"))

abbrev changes : List Change
changes =
    delivers (lit "m1") (lit "delivered")
    ∷ fails (lit "m1")
    ∷ receives (lit "m1") (pos 7)
    ∷ acknowledges (lit "m1")
    ∷ []

thread_kept_example : AllKept (rows twice) (rows (run changes twice))
thread_kept_example = thread_kept changes twice (tt, (tt, (refl, (tt, tt))))

abbrev store_twice : Store
store_twice = record { all = object root_twice; revisions = [] }

bob_trimmed : trim (lit "bob") ≡ lit "bob"
unfolding trim
bob_trimmed = refl

id_there : is_empty (mid_of greeting) ≡ false
unfolding trim
id_there = refl

append_shown_example :
    (count (has_mid (mid_of greeting)) (
        load_merged nobody
          (lit "dm")
          (lit "bob" ∷ [])
          none
          (append_if_new nobody (lit "dm") (lit "bob") greeting store_twice))
      ≡ 1)
    × InOrder (
        load_merged nobody
          (lit "dm")
          (lit "bob" ∷ [])
          none
          (append_if_new nobody (lit "dm") (lit "bob") greeting store_twice))
append_shown_example =
    append_shown nobody (lit "dm") (lit "bob") greeting root_twice store_twice refl bob_trimmed refl
      id_there greeting_read

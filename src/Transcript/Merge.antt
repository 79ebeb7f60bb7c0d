-- ===== src/Transcript/Merge.antt =====
-- The merge of the threads of a contact: `pick_better_duplicate`, `dedupe_lines` and `load_merged_unlocked`
-- of ghalbol_core/src/dm_transcript_store.rs. The values of a hash map come in the order of its list.
pub mod Keyed
pub mod Exact
pub mod Load
pub mod Every
use ghal_bol.Common.{
  ℕ, Bool, true, false, not, ◌&&◌, ◌||◌, Option, none, some, List, [], ◌∷◌, ◌++◌, ltb, length, map,
  any, keep_if, if◌then◌else◌, Text, text as lit, text_eq, eq_of_text, trim, is_empty,
}
use ghal_bol.Common.Int.{ℤ, ltb_ℤ}
use ghal_bol.Common.Map
use ghal_bol.Common.Map.{Map}
use ghal_bol.Common.Json
use ghal_bol.Common.Json.{Json, Items, nil, cons, Fields, end, field, as_array, as_object}
use ghal_bol.Transcript.Line.{StoredChatLine, from_json, or_empty, and_then}
use ghal_bol.Transcript.Order.{mid_of, or_zero, sort_onto}

unfoldable pub delivery_rank : Text → ℕ
delivery_rank d =
    if text_eq d (lit "pending")
    then 0
    else if text_eq d (lit "failed")
    then 1
    else if text_eq d (lit "sent")
    then 2
    else if text_eq d (lit "delivered")
    then 3
    else if text_eq d (lit "read")
    then 4
    else if text_eq d (lit "downloaded")
    then 4
    else 0

unfoldable pub pick_better_duplicate : StoredChatLine → StoredChatLine → StoredChatLine
pick_better_duplicate a b =
    if is_empty (mid_of a) && not (is_empty (mid_of b))
    then b
    else if is_empty (mid_of b) && not (is_empty (mid_of a))
    then a
    else if a.outgoing && b.outgoing && ltb (delivery_rank a.delivery) (delivery_rank b.delivery)
    then b
    else if ltb_ℤ (or_zero a.created_at_ms) (or_zero b.created_at_ms)
    then b
    else a

abbrev pub Lines : Type 0
Lines = Map Text StoredChatLine

-- `entry(k).and_modify(…).or_insert(line)`, of what is bound to the key.
abbrev pub put_found :
    (StoredChatLine → StoredChatLine → StoredChatLine)
    → Text
    → StoredChatLine
    → Option StoredChatLine
    → Lines
    → Lines
put_found better k line none m = Map.insert k line m
put_found better k line (some prev) m = Map.insert k (better prev line) m

unfoldable pub modify_or_insert :
    (StoredChatLine → StoredChatLine → StoredChatLine) → Text → StoredChatLine → Lines → Lines
modify_or_insert better k line m = put_found better k line (Map.get k m) m

abbrev pub values : Lines → List StoredChatLine
values [] = []
values ((_, l) ∷ m) = l ∷ values m

-- The loop of `dedupe_lines`.
unfoldable pub part_lines :
    List StoredChatLine → Lines → List StoredChatLine → Lines × List StoredChatLine
part_lines [] by_mid no_mid = (by_mid, no_mid)
part_lines (l ∷ ls) by_mid no_mid =
    let blank = is_empty (mid_of l) in
    part_lines ls
      (if blank then by_mid else modify_or_insert pick_better_duplicate (mid_of l) l by_mid)
      (if blank then no_mid ++ (l ∷ []) else no_mid)

unfoldable pub dedupe_lines : List StoredChatLine → List StoredChatLine
dedupe_lines lines =
    if ltb (length lines) 2
    then lines
    else let (by_mid, no_mid) = part_lines lines [] [] in sort_onto [] (values by_mid ++ no_mid)

abbrev pub or_skip : Option StoredChatLine → List StoredChatLine → List StoredChatLine
or_skip none ls = ls
or_skip (some l) ls = l ∷ ls

-- The rows of a thread that can be read.
unfoldable pub rows : Items → List StoredChatLine
rows nil = []
rows (cons item thread) = or_skip (from_json item) (rows thread)

-- The inner loop of `load_merged_unlocked`; without a message id, the last line of a local id stays.
unfoldable pub gather : List StoredChatLine → Lines → Lines → Lines × Lines
gather [] by_mid no_mid = (by_mid, no_mid)
gather (l ∷ ls) by_mid no_mid =
    let blank = is_empty (mid_of l) in
    gather ls (if blank then by_mid else modify_or_insert pick_better_duplicate (mid_of l) l by_mid)
      (if blank then Map.insert l.local_id l no_mid else no_mid)

abbrev pub is_from : Text → StoredChatLine → Bool
is_from from_peer l = text_eq (trim (or_empty l.from)) from_peer

-- Whether a thread is taken: by its key, or by a sender in it.
unfoldable pub is_included : List Text → Text → Text → List StoredChatLine → Bool
is_included keys from_peer thread_key thread =
    any (text_eq thread_key) keys || (not (is_empty from_peer) && any (is_from from_peer) thread)

-- A thread, if it is one and is taken, before the rest.
abbrev pub take_thread :
    List Text → Text → Text → Option Items → List StoredChatLine → List StoredChatLine
take_thread keys from_peer thread_key none rest = rest
take_thread keys from_peer thread_key (some thread) rest =
    if is_included keys from_peer thread_key (rows thread) then rows thread ++ rest else rest

-- The lines of the threads that are taken, as the loops come to them.
unfoldable pub included_rows : List Text → Text → Fields → List StoredChatLine
included_rows keys from_peer end = []
included_rows keys from_peer (field thread_key v threads) =
    take_thread keys from_peer thread_key (as_array v) (included_rows keys from_peer threads)

abbrev pub merged : List StoredChatLine → List StoredChatLine
merged ls = let (by_mid, no_mid) = gather ls [] [] in dedupe_lines (values by_mid ++ values no_mid)

abbrev pub stored_rows : List Text → Option Text → Fields → List StoredChatLine
stored_rows expanded match_inbound_from_peer_id threads =
    included_rows (keep_if (λ k. not (is_empty k)) expanded)
      (trim (or_empty match_inbound_from_peer_id)) threads

abbrev pub load_from : List Text → Option Text → Option Fields → List StoredChatLine
load_from expanded match_inbound_from_peer_id none = []
load_from expanded match_inbound_from_peer_id (some threads) =
    merged (stored_rows expanded match_inbound_from_peer_id threads)

-- `expanded` are the keys with the other names of the contact.
unfoldable pub load_merged_unlocked : Text → List Text → Option Text → Json → List StoredChatLine
load_merged_unlocked app_namespace expanded match_inbound_from_peer_id all =
    load_from expanded match_inbound_from_peer_id
      (and_then (and_then (as_object all) (Json.get app_namespace)) as_object)

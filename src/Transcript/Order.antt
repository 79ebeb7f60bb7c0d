-- ===== src/Transcript/Order.antt =====
-- The order of a thread: `line_sort_key`, `insert_line_in_thread_order` and the sort of `dedupe_lines` in
-- ghalbol_core/src/dm_transcript_store.rs.
pub mod Sorted
use ghal_bol.Common.{
  Bool, true, false, Option, none, some, List, [], ◌∷◌, if◌then◌else◌, Text, text_lt, trim,
}
use ghal_bol.Common.Int.{ℤ, pos, ltb_ℤ}
use ghal_bol.Transcript.Line.{StoredChatLine, or_empty}

abbrev pub or_zero : Option ℤ → ℤ
or_zero none = pos 0
or_zero (some t) = t

-- `message_id.as_deref().unwrap_or("").trim()`.
abbrev pub mid_of : StoredChatLine → Text
mid_of l = trim (or_empty l.message_id)

abbrev pub line_sort_key : StoredChatLine → ℤ × Text × Text
line_sort_key l = (or_zero l.created_at_ms, mid_of l, l.local_id)

-- `<` of the tuples.
unfoldable pub key_lt : ℤ × Text × Text → ℤ × Text × Text → Bool
key_lt (t, m, i) (u, n, j) =
    if ltb_ℤ t u
    then true
    else if ltb_ℤ u t
    then false
    else if text_lt m n
    then true
    else if text_lt n m
    then false
    else text_lt i j

-- Before the first line with a greater key.
unfoldable pub insert_line_in_thread_order :
    List StoredChatLine → StoredChatLine → List StoredChatLine
insert_line_in_thread_order [] line = line ∷ []
insert_line_in_thread_order (e ∷ es) line =
    if key_lt (line_sort_key line) (line_sort_key e)
    then line ∷ e ∷ es
    else e ∷ insert_line_in_thread_order es line

-- `sort_by` is stable: a line goes behind those before it with the same key.
unfoldable pub sort_onto : List StoredChatLine → List StoredChatLine → List StoredChatLine
sort_onto sorted [] = sorted
sort_onto sorted (l ∷ ls) = sort_onto (insert_line_in_thread_order sorted l) ls

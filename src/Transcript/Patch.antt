-- ===== src/Transcript/Patch.antt =====
-- The loops of the patches in ghalbol_core/src/dm_transcript_store.rs, over the rows of threads.
pub mod Rows
pub mod Delivery
use ghal_bol.Common.{
  ℕ, ◌+◌, ◌-◌, ◌^◌, min, max, Bool, true, false, not, ◌&&◌, ◌||◌, Option, none, some, List, [], ◌∷◌,
  ◌++◌, ltb, leb, length, drop, any, map, if◌then◌else◌, Text, text as lit, text_eq, eq_of_text,
  trim, to_ascii_lowercase, is_empty,
}
use ghal_bol.Common.Int.{ℤ, pos, leb_ℤ}
use ghal_bol.Common.Map
use ghal_bol.Common.Map.{Map}
use ghal_bol.Common.Json
use ghal_bol.Common.Json.{
  Json, Items, nil, cons, Fields, end, field, array, object, as_array, as_object, from_items,
}
use ghal_bol.Transcript.Line.{StoredChatLine, from_json, to_json, or_empty, and_then}
use ghal_bol.Transcript.Order.{mid_of, insert_line_in_thread_order}
use ghal_bol.Transcript.Merge.{delivery_rank, rows, load_merged_unlocked}

-- A loop over `thread.iter_mut()`: a row that can be read and that `f` changes is written again.
unfoldable pub patch_items : (StoredChatLine → Option StoredChatLine) → Items → Items × Bool
patch_items f nil = (nil, false)
patch_items f (cons item thread) =
    let (rest, changed) = patch_items f thread in
    elim (and_then (from_json item) f) as (λ _. Items × Bool) [
      | none ↦ (cons item rest, changed)
      | some next ↦ (cons (to_json next) rest, true)
    ]

-- The bodies of the loops.
unfoldable pub failed : Text → StoredChatLine → Option StoredChatLine
failed mid l =
    if not l.outgoing || not (text_eq (mid_of l) mid)
    then none
    else if text_eq l.delivery (lit "failed")
        || leb (delivery_rank (lit "delivered")) (delivery_rank l.delivery)
    then none
    else some (record l { delivery = lit "failed" })

unfoldable pub with_delivery : Text → Text → StoredChatLine → Option StoredChatLine
with_delivery mid delivery l =
    if l.outgoing
      && text_eq (mid_of l) mid
      && ltb (delivery_rank l.delivery) (delivery_rank delivery)
    then some (record l { delivery = delivery })
    else none

abbrev pub is_none {ℓ} : {A : Type ℓ} → Option A → Bool
is_none none = true
is_none (some _) = false

unfoldable pub with_received_at : Text → ℤ → StoredChatLine → Option StoredChatLine
with_received_at mid received_at_ms l =
    if l.outgoing && text_eq (mid_of l) mid && is_none l.received_at_ms
    then some (record l { received_at_ms = some received_at_ms })
    else none

unfoldable pub with_local_path : Text → Text → StoredChatLine → Option StoredChatLine
with_local_path mid path l =
    if text_eq (mid_of l) mid
      && text_eq (trim l.msg_kind) (lit "attachment_offer")
      && not (text_eq (or_empty l.local_path) path)
    then some (record l { local_path = some path })
    else none

unfoldable pub with_read_ack_sent : Text → StoredChatLine → Option StoredChatLine
with_read_ack_sent mid l =
    if l.outgoing || not (text_eq (mid_of l) mid) || l.read_ack_sent
    then none
    else some (record l { read_ack_sent = true })

-- `get_mut(key).and_then(as_array_mut)`, and the loop over the thread.
unfoldable pub patch_thread :
    (StoredChatLine → Option StoredChatLine) → Text → Fields → Fields × Bool
patch_thread f ck threads = elim (and_then (Json.get ck threads) as_array) as (λ _. Fields × Bool) [
  | none ↦ (threads, false)
  | some thread ↦
      let (thread', changed) = patch_items f thread in
      (Json.set_at ck (array thread') threads, changed)
]

-- `for ck in keys`.
unfoldable pub patch_keys :
    (StoredChatLine → Option StoredChatLine) → List Text → Fields → Fields × Bool
patch_keys f [] threads = (threads, false)
patch_keys f (ck ∷ keys) threads =
    let (threads', changed) = patch_thread f ck threads in
    let (threads'', more) = patch_keys f keys threads' in (threads'', changed || more)

-- `for (conv_key, thread) in ns_obj.iter_mut()`, with the keys of the threads that change.
unfoldable pub patch_all_threads :
    (StoredChatLine → Option StoredChatLine) → Fields → Fields × List Text
patch_all_threads f end = (end, [])
patch_all_threads f (field conv_key v threads) =
    let (rest, touched) = patch_all_threads f threads in
    elim (as_array v) as (λ _. Fields × List Text) [
      | none ↦ (field conv_key v rest, touched)
      | some thread ↦
          let (thread', changed) = patch_items f thread in
          (field conv_key (array thread') rest, if changed then conv_key ∷ touched else touched)
    ]

abbrev pub threads_of : Text → Json → Option Fields
threads_of app_namespace all =
    and_then (and_then (as_object all) (Json.get app_namespace)) as_object

abbrev pub with_threads : Text → Fields → Json → Json
with_threads app_namespace threads (object root) =
    object (Json.set_at app_namespace (object threads) root)
with_threads app_namespace threads all = all

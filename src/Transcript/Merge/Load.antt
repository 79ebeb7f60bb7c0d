-- ===== src/Transcript/Merge/Load.antt =====
-- What a loaded thread holds.
use ghal_bol.Common.{
  ℕ, ◌≡◌, refl, sym, subst, ap, ◌∙◌, inl, inr, true, false, Option, some, List, [], ◌∷◌, ◌++◌, ltb,
  All, if◌then◌else◌, Text, text_eq, eq_of_text, is_empty, Bool-cases, arith,
}
use ghal_bol.Common.Map
use ghal_bol.Common.Map.{Unique, insert-Unique}
use ghal_bol.Common.Json
use ghal_bol.Common.Json.{Fields, object, as_object}
use ghal_bol.Transcript.Line.{StoredChatLine, and_then}
use ghal_bol.Transcript.Order.{mid_of}
use ghal_bol.Transcript.Order.Sorted.{InOrder, count, count-append}
use ghal_bol.Transcript.Merge.{
  Lines, modify_or_insert, values, pick_better_duplicate, gather, merged, stored_rows, load_from,
  load_merged_unlocked,
}
use ghal_bol.Transcript.Merge.Keyed.{has, Keyed, insert-Keyed, has-put, has-insert, count-values}
use ghal_bol.Transcript.Merge.Exact.{
  has_mid, is_local, blank_not_mid, ByMid, no_lines, next_by, next_by-ByMid, once, dedupe-mid,
  dedupe-local, dedupe-InOrder,
}

-- `out` is the merge of `ls`.
pub record IsMerge (ls out : List StoredChatLine) : Type 0 where
  pub ordered : InOrder out
  pub messages :
      (m : Text) → is_empty m ≡ false → count (has_mid m) out ≡ once (count (has_mid m) ls)
  pub locals : (i : Text) → count (is_local i) out ≡ once (count (is_local i) ls)

-- Lines with no message id, by their local ids.
record ByLocal (local : Lines) : Type 0 where
  keyed : Keyed (λ l. l.local_id) local
  unique : Unique local
  blank : All (λ l. is_empty (mid_of l) ≡ true) (values local)

insert-blank :
    (k : Text) (l : StoredChatLine) (m : Lines)
    → is_empty (mid_of l) ≡ true
    → All (λ q. is_empty (mid_of q) ≡ true) (values m)
    → All (λ q. is_empty (mid_of q) ≡ true) (values (Map.insert k l m))
unfolding Map.insert
insert-blank k l [] b h = (b, tt)
insert-blank k l ((j, q) ∷ m) b h = elim (Bool-cases (text_eq j k)) [
  | inl same ↦ rw same (b, h.1)
  | inr other ↦ rw other (h.0, insert-blank k l m b h.1)
]

abbrev next_no : StoredChatLine → Lines → Lines
next_no l local = if is_empty (mid_of l) then Map.insert l.local_id l local else local

next_no-ByLocal : (l : StoredChatLine) (local : Lines) → ByLocal local → ByLocal (next_no l local)
next_no-ByLocal l local h = elim (Bool-cases (is_empty (mid_of l))) [
  | inl b ↦ rw b (record {
    keyed = insert-Keyed (λ q. q.local_id) l.local_id l local refl h.keyed;
    unique = insert-Unique l.local_id l local h.unique;
    blank = insert-blank l.local_id l local b h.blank;
  })
  | inr n ↦ rw n h
]

gather-Parts :
    (ls : List StoredChatLine) (by local : Lines)
    → ByMid by
    → ByLocal local
    → ByMid (gather ls by local).0 × ByLocal (gather ls by local).1
unfolding gather
gather-Parts [] by local h k = (h, k)
gather-Parts (l ∷ ls) by local h k =
    gather-Parts ls (next_by l by) (next_no l local) (next_by-ByMid l by h)
      (next_no-ByLocal l local k)

gather-mid :
    (m : Text) (ls : List StoredChatLine) (by local : Lines)
    → is_empty m ≡ false
    → has m (gather ls by local).0 ≡ (if ltb 0 (count (has_mid m) ls) then 1 else has m by)
unfolding gather
gather-mid m [] by local named = refl
gather-mid m (l ∷ ls) by local named = elim (Bool-cases (is_empty (mid_of l))) [
  | inl blank ↦
      let away = blank_not_mid m l named blank in
      ground (arith, blank, away, gather-mid m ls by (Map.insert l.local_id l local) named)
  | inr n ↦ ground (
    arith,
    n,
    gather-mid m ls (modify_or_insert pick_better_duplicate (mid_of l) l by) local named,
    has-put pick_better_duplicate (mid_of l) m l by,
  )
]

gather-local :
    (i : Text) (ls : List StoredChatLine) (by local : Lines)
    → has i (gather ls by local).1 ≡ (if ltb 0 (count (is_local i) ls) then 1 else has i local)
unfolding gather
gather-local i [] by local = refl
gather-local i (l ∷ ls) by local = elim (Bool-cases (is_empty (mid_of l))) [
  | inl blank ↦ ground (
    arith,
    blank,
    gather-local i ls by (Map.insert l.local_id l local),
    has-insert l.local_id i l local,
  )
  | inr n ↦
      ground
        (arith, n, gather-local i ls (modify_or_insert pick_better_duplicate (mid_of l) l by) local)
]

blank-mid :
    (m : Text) (ls : List StoredChatLine)
    → is_empty m ≡ false
    → All (λ q. is_empty (mid_of q) ≡ true) ls
    → count (has_mid m) ls ≡ 0
blank-mid m [] n h = refl
blank-mid m (l ∷ ls) n h = ground (arith, blank_not_mid m l n h.0, blank-mid m ls n h.1)

blank-local :
    (i : Text) (ls : List StoredChatLine)
    → All (λ q. is_empty (mid_of q) ≡ true) ls
    → count (is_local i) ls ≡ count (λ l. text_eq l.local_id i) ls
blank-local i [] h = refl
blank-local i (l ∷ ls) h = ground (arith, h.0, blank-local i ls h.1)

once-once : (n : ℕ) → once (once n) ≡ once n
once-once n = ground arith

no_locals : ByLocal []
no_locals = record { keyed = tt; unique = tt; blank = tt }

module _ (ls : List StoredChatLine) where
  abbrev both : List StoredChatLine
  both = values (gather ls [] []).0 ++ values (gather ls [] []).1

  both-mid : (m : Text) → is_empty m ≡ false → count (has_mid m) both ≡ once (count (has_mid m) ls)
  unfolding Map.get
  both-mid m n =
      let (h, k) = gather-Parts ls [] [] no_lines no_locals in
      let none_blank = blank-mid m (values (gather ls [] []).1) n k.blank in
      let by = count-values mid_of m (gather ls [] []).0 h.keyed h.unique in
      let found = gather-mid m ls [] [] n in
      count-append (has_mid m) (values (gather ls [] []).0) (values (gather ls [] []).1)
      ∙ omega (arith, none_blank, by, found)

  both-local : (i : Text) → count (is_local i) both ≡ once (count (is_local i) ls)
  unfolding Map.get
  both-local i =
      let (h, k) = gather-Parts ls [] [] no_lines no_locals in
      let named = h.named i in
      let blank = blank-local i (values (gather ls [] []).1) k.blank in
      let local = count-values (λ l. l.local_id) i (gather ls [] []).1 k.keyed k.unique in
      let found = gather-local i ls [] [] in
      count-append (is_local i) (values (gather ls [] []).0) (values (gather ls [] []).1)
      ∙ omega (arith, named, blank, local, found)

  merged-IsMerge : IsMerge ls (merged ls)
  merged-IsMerge = record {
    ordered = dedupe-InOrder both;
    messages =
        λ m n. dedupe-mid m both n ∙ ap once (both-mid m n) ∙ once-once (count (has_mid m) ls);
    locals = λ i. dedupe-local i both ∙ both-local i;
  }

-- What is loaded of a name space is in the order of times, message ids and local ids. Each message id of
-- a line in the threads that are taken is there on one line, each local id of such a line without a
-- message id on one such line, and no other id.
pub load_merged_exact :
    (app_namespace : Text) (expanded : List Text) (from : Option Text) (root threads : Fields)
    → Json.get app_namespace root ≡ some (object threads)
    → IsMerge
        (stored_rows expanded from threads)
        (load_merged_unlocked app_namespace expanded from (object root))
unfolding load_merged_unlocked
load_merged_exact app_namespace expanded from root threads e =
    subst (IsMerge (stored_rows expanded from threads))
      (sym (ap (λ o. load_from expanded from (and_then o as_object)) e))
      (merged-IsMerge (stored_rows expanded from threads))

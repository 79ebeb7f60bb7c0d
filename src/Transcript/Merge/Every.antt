-- ===== src/Transcript/Merge/Every.antt =====
-- What holds of all lines holds of their merge.
use ghal_bol.Common.{
  ◌≡◌, refl, inl, inr, Bool, true, false, Option, none, some, List, [], ◌∷◌, ◌++◌, ltb, length, All,
  All-append, if◌then◌else◌, Text, text_eq, is_empty, Bool-cases, eq_of_text, arith,
}
use ghal_bol.Common.Map
use ghal_bol.Common.Map.{Map}
use ghal_bol.Transcript.Line.{StoredChatLine}
use ghal_bol.Transcript.Order.{mid_of, insert_line_in_thread_order, sort_onto}
use ghal_bol.Transcript.Merge.{
  Lines, put_found, modify_or_insert, values, pick_better_duplicate, part_lines, dedupe_lines,
  gather, merged,
}

module _ (p : StoredChatLine → Bool) where
  abbrev pub Every : List StoredChatLine → Type 0
  Every = All (λ l. p l ≡ true)

  insert-Every :
      (es : List StoredChatLine) (l : StoredChatLine)
      → p l ≡ true
      → Every es
      → Every (insert_line_in_thread_order es l)
  unfolding insert_line_in_thread_order
  insert-Every [] l h k = (h, tt)
  insert-Every (e ∷ es) l h k = ground (arith, h, k.0, k.1, insert-Every es l h k.1)

  sort-Every :
      (sorted ls : List StoredChatLine) → Every sorted → Every ls → Every (sort_onto sorted ls)
  unfolding sort_onto
  sort-Every sorted [] h k = h
  sort-Every sorted (l ∷ ls) h k =
      sort-Every (insert_line_in_thread_order sorted l) ls (insert-Every sorted l k.0 h) k.1

  pick-Every :
      (a b : StoredChatLine) → p a ≡ true → p b ≡ true → p (pick_better_duplicate a b) ≡ true
  unfolding pick_better_duplicate
  pick-Every a b h k = ground (arith, h, k)

  put-Every :
      (k : Text) (l : StoredChatLine) (m : Lines)
      → p l ≡ true
      → Every (values m)
      → Every (values (Map.insert k l m))
  unfolding Map.insert
  put-Every k l [] h v = (h, tt)
  put-Every k l ((j, q) ∷ m) h v = elim (Bool-cases (text_eq j k)) [
    | inl same ↦ rw same (h, v.1)
    | inr other ↦ rw other (v.0, put-Every k l m h v.1)
  ]

  get-Every :
      (k : Text) (m : Lines) (l : StoredChatLine)
      → Every (values m)
      → Map.get k m ≡ some l
      → p l ≡ true
  unfolding Map.get
  get-Every k [] l v e = absurd (cc)
  get-Every k ((j, q) ∷ m) l v e = ground (arith, v.0, e, get-Every k m l v.1)

  found-Every :
      (k : Text) (l : StoredChatLine) (m : Lines) (o : Option StoredChatLine)
      → Map.get k m ≡ o
      → p l ≡ true
      → Every (values m)
      → Every (values (put_found pick_better_duplicate k l o m))
  found-Every k l m none e h v = put-Every k l m h v
  found-Every k l m (some q) e h v =
      put-Every k (pick_better_duplicate q l) m (pick-Every q l (get-Every k m q v e) h) v

  modify-Every :
      (k : Text) (l : StoredChatLine) (m : Lines)
      → p l ≡ true
      → Every (values m)
      → Every (values (modify_or_insert pick_better_duplicate k l m))
  unfolding modify_or_insert
  modify-Every k l m h v = found-Every k l m (Map.get k m) refl h v

  if-Every :
      (b : Bool) (m n : Lines)
      → Every (values m)
      → Every (values n)
      → Every (values (if b then m else n))
  if-Every true m n h k = h
  if-Every false m n h k = k

  gather-Every :
      (ls : List StoredChatLine) (by local : Lines)
      → Every ls
      → Every (values by)
      → Every (values local)
      → Every (values (gather ls by local).0) × Every (values (gather ls by local).1)
  unfolding gather
  gather-Every [] by local h v w = (v, w)
  gather-Every (l ∷ ls) by local h v w =
      let blank = is_empty (mid_of l) in
      gather-Every ls (if blank then by else modify_or_insert pick_better_duplicate (mid_of l) l by)
        (if blank then Map.insert l.local_id l local else local) h.1
        (if-Every blank by (modify_or_insert pick_better_duplicate (mid_of l) l by) v
          (modify-Every (mid_of l) l by h.0 v))
        (if-Every blank (Map.insert l.local_id l local) local (put-Every l.local_id l local h.0 w)
          w)

  no_mid-Every :
      (b : Bool) (ls : List StoredChatLine) (l : StoredChatLine)
      → p l ≡ true
      → Every ls
      → Every (if b then ls ++ (l ∷ []) else ls)
  no_mid-Every true ls l h k = All-append (λ q. p q ≡ true) ls (l ∷ []) k (h, tt)
  no_mid-Every false ls l h k = k

  part-Every :
      (ls : List StoredChatLine) (by : Lines) (no_mid : List StoredChatLine)
      → Every ls
      → Every (values by)
      → Every no_mid
      → Every (values (part_lines ls by no_mid).0) × Every (part_lines ls by no_mid).1
  unfolding part_lines
  part-Every [] by no_mid h v w = (v, w)
  part-Every (l ∷ ls) by no_mid h v w =
      let blank = is_empty (mid_of l) in
      part-Every ls (if blank then by else modify_or_insert pick_better_duplicate (mid_of l) l by)
        (if blank then no_mid ++ (l ∷ []) else no_mid) h.1
        (if-Every blank by (modify_or_insert pick_better_duplicate (mid_of l) l by) v
          (modify-Every (mid_of l) l by h.0 v))
        (no_mid-Every blank no_mid l h.0 w)

  dedupe-Every : (ls : List StoredChatLine) → Every ls → Every (dedupe_lines ls)
  unfolding dedupe_lines
  dedupe-Every ls h = elim (Bool-cases (ltb (length ls) 2)) [
    | inl few ↦ rw few h
    | inr more ↦
        let (by, no_mid) = part-Every ls [] [] h tt tt in
        rw more (
          sort-Every [] (values (part_lines ls [] []).0 ++ (part_lines ls [] []).1) tt (
            All-append (λ q. p q ≡ true) (values (part_lines ls [] []).0) (part_lines ls [] []).1 by
              no_mid))
  ]

  pub merged-Every : (ls : List StoredChatLine) → Every ls → Every (merged ls)
  merged-Every ls h =
      let (by, local) = gather-Every ls [] [] h tt tt in
      dedupe-Every (values (gather ls [] []).0 ++ values (gather ls [] []).1) (
        All-append (λ q. p q ≡ true) (values (gather ls [] []).0) (values (gather ls [] []).1) by
          local)

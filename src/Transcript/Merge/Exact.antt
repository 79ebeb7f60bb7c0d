-- ===== src/Transcript/Merge/Exact.antt =====
-- What the merge of lines keeps: each message once.
use ghal_bol.Common.{
  ℕ, ◌+◌, ◌≡◌, refl, sym, subst, ap, ◌∙◌, inl, inr, Bool, true, false, ◌&&◌, Option, none, some,
  List, [], ◌∷◌, ◌++◌, ltb, length, if◌then◌else◌, Text, text_eq, text_eq_iff, eq_of_text, is_empty,
  Bool-cases, arith,
}
use ghal_bol.Common.Map
use ghal_bol.Common.Map.{Unique, insert-Unique}
use ghal_bol.Transcript.Line.{StoredChatLine}
use ghal_bol.Transcript.Order.{mid_of}
use ghal_bol.Transcript.Order.Sorted.{InOrder, sort-InOrder, count, count-append, count-sort}
use ghal_bol.Transcript.Merge.{
  Lines, modify_or_insert, put_found, values, pick_better_duplicate, part_lines, dedupe_lines,
}
use ghal_bol.Transcript.Merge.Keyed.{
  has, Keyed, get-Keyed, put-Keyed, put-Unique, has-put, count-values,
}

-- The lines of a message.
abbrev pub has_mid : Text → StoredChatLine → Bool
has_mid m l = text_eq (mid_of l) m

-- The lines with no message id, of a local id.
abbrev pub is_local : Text → StoredChatLine → Bool
is_local i l = is_empty (mid_of l) && text_eq l.local_id i

better-mid :
    (l p : StoredChatLine) → mid_of p ≡ mid_of l → mid_of (pick_better_duplicate p l) ≡ mid_of l
unfolding pick_better_duplicate
better-mid l p e = ground (arith, e)

-- A blank line is not of a message, and a line of a message is not blank.
pub blank_not_mid :
    (m : Text) (l : StoredChatLine)
    → is_empty m ≡ false
    → is_empty (mid_of l) ≡ true
    → has_mid m l ≡ false
blank_not_mid m l h b = elim (Bool-cases (has_mid m l)) [
  | inl same ↦ absurd (ground (arith, h, b, ap is_empty ((text_eq_iff (mid_of l) m).0 same)))
  | inr other ↦ other
]

module _ (m : Text) (named : is_empty m ≡ false) where
  part-mid :
      (ls : List StoredChatLine) (by : Lines) (no_mid : List StoredChatLine)
      → has m (part_lines ls by no_mid).0 ≡ (if ltb 0 (count (has_mid m) ls) then 1 else has m by)
  unfolding part_lines
  part-mid [] by no_mid = refl
  part-mid (l ∷ ls) by no_mid = elim (Bool-cases (is_empty (mid_of l))) [
    | inl blank ↦
        let away = blank_not_mid m l named blank in
        ground (arith, blank, away, part-mid ls by (no_mid ++ (l ∷ [])))
    | inr named_line ↦ ground (
      arith,
      named_line,
      part-mid ls (modify_or_insert pick_better_duplicate (mid_of l) l by) no_mid,
      has-put pick_better_duplicate (mid_of l) m l by,
    )
  ]

  part-no :
      (ls : List StoredChatLine) (by : Lines) (no_mid : List StoredChatLine)
      → count (has_mid m) (part_lines ls by no_mid).1 ≡ count (has_mid m) no_mid
  unfolding part_lines
  part-no [] by no_mid = refl
  part-no (l ∷ ls) by no_mid = elim (Bool-cases (is_empty (mid_of l))) [
    | inl blank ↦
        let away = blank_not_mid m l named blank in
        ground (
          arith,
          blank,
          away,
          part-no ls by (no_mid ++ (l ∷ [])),
          count-append (has_mid m) no_mid (l ∷ []),
        )
    | inr named_line ↦ ground (
      arith,
      named_line,
      part-no ls (modify_or_insert pick_better_duplicate (mid_of l) l by) no_mid,
    )
  ]

-- Lines by their message ids, which are not blank.
pub record ByMid (by : Lines) : Type 0 where
  pub keyed : Keyed mid_of by
  pub unique : Unique by
  pub named : (i : Text) → count (is_local i) (values by) ≡ 0

insert-named :
    (i k : Text) (l : StoredChatLine) (m : Lines)
    → is_empty (mid_of l) ≡ false
    → count (is_local i) (values m) ≡ 0
    → count (is_local i) (values (Map.insert k l m)) ≡ 0
unfolding Map.insert
insert-named i k l [] n h = ground (arith, n)
insert-named i k l ((j, q) ∷ m) n h = ground (arith, n, insert-named i k l m n)

found-named :
    (i : Text) (l : StoredChatLine) (o : Option StoredChatLine) (m : Lines)
    → Map.get (mid_of l) m ≡ o
    → is_empty (mid_of l) ≡ false
    → Keyed mid_of m
    → count (is_local i) (values m) ≡ 0
    → count (is_local i) (values (put_found pick_better_duplicate (mid_of l) l o m)) ≡ 0
found-named i l none m e n d h = insert-named i (mid_of l) l m n h
found-named i l (some p) m e n d h =
    insert-named i (mid_of l) (pick_better_duplicate p l) m
      (ap is_empty (better-mid l p (get-Keyed mid_of (mid_of l) m p d e)) ∙ n) h

put-ByMid :
    (l : StoredChatLine) (by : Lines)
    → is_empty (mid_of l) ≡ false
    → ByMid by
    → ByMid (modify_or_insert pick_better_duplicate (mid_of l) l by)
put-ByMid l by n h = record {
  keyed = put-Keyed mid_of pick_better_duplicate l by (better-mid l) h.keyed;
  unique = put-Unique pick_better_duplicate (mid_of l) l by h.unique;
  named = λ i.
      unfold modify_or_insert in
      found-named i l (Map.get (mid_of l) by) by refl n h.keyed (h.named i);
}

-- `by` after a line, which is put in if it has a message id.
abbrev pub next_by : StoredChatLine → Lines → Lines
next_by l by =
    if is_empty (mid_of l) then by else modify_or_insert pick_better_duplicate (mid_of l) l by

pub next_by-ByMid : (l : StoredChatLine) (by : Lines) → ByMid by → ByMid (next_by l by)
next_by-ByMid l by h = elim (Bool-cases (is_empty (mid_of l))) [
  | inl blank ↦ rw blank h
  | inr n ↦ rw n (put-ByMid l by n h)
]

part-ByMid :
    (ls : List StoredChatLine) (by : Lines) (no_mid : List StoredChatLine)
    → ByMid by
    → ByMid (part_lines ls by no_mid).0
unfolding part_lines
part-ByMid [] by no_mid h = h
part-ByMid (l ∷ ls) by no_mid h =
    part-ByMid ls (next_by l by) (if is_empty (mid_of l) then no_mid ++ (l ∷ []) else no_mid)
      (next_by-ByMid l by h)

part-local :
    (i : Text) (ls : List StoredChatLine) (by : Lines) (no_mid : List StoredChatLine)
    → count (is_local i) (part_lines ls by no_mid).1
      ≡ count (is_local i) no_mid + count (is_local i) ls
unfolding part_lines
part-local i [] by no_mid = omega arith
part-local i (l ∷ ls) by no_mid = elim (Bool-cases (is_empty (mid_of l))) [
  | inl blank ↦ ground (
    arith,
    blank,
    part-local i ls by (no_mid ++ (l ∷ [])),
    count-append (is_local i) no_mid (l ∷ []),
  )
  | inr n ↦
      ground
        (arith, n, part-local i ls (modify_or_insert pick_better_duplicate (mid_of l) l by) no_mid)
]

abbrev pub once : ℕ → ℕ
once n = if ltb 0 n then 1 else 0

pub no_lines : ByMid []
no_lines = record { keyed = tt; unique = tt; named = λ i. refl }

sorted_parts :
    (p : StoredChatLine → Bool) (ls : List StoredChatLine)
    → ltb (length ls) 2 ≡ false
    → count p (dedupe_lines ls)
      ≡ count p (values (part_lines ls [] []).0) + count p (part_lines ls [] []).1
unfolding dedupe_lines
sorted_parts p ls long =
    let by = (part_lines ls [] []).0 in
    let no_mid = (part_lines ls [] []).1 in
    rw long
      (omega (arith, count-sort p [] (values by ++ no_mid), count-append p (values by) no_mid))

-- A list that is too short to be sorted.
dedupe_short : (ls : List StoredChatLine) → ltb (length ls) 2 ≡ true → dedupe_lines ls ≡ ls
unfolding dedupe_lines
dedupe_short ls short = rw short refl

count_short :
    (p : StoredChatLine → Bool) (ls : List StoredChatLine)
    → ltb (length ls) 2 ≡ true
    → count p ls ≡ once (count p ls)
count_short p [] short = refl
count_short p (l ∷ []) short = ground arith
count_short p (l ∷ k ∷ ls) short = absurd (ground (arith, short))

-- Each message is there once.
pub dedupe-mid :
    (m : Text) (ls : List StoredChatLine)
    → is_empty m ≡ false
    → count (has_mid m) (dedupe_lines ls) ≡ once (count (has_mid m) ls)
unfolding Map.get
dedupe-mid m ls n = elim (Bool-cases (ltb (length ls) 2)) [
  | inl short ↦ ap (count (has_mid m)) (dedupe_short ls short) ∙ count_short (has_mid m) ls short
  | inr long ↦
      let parts = part-ByMid ls [] [] no_lines in
      let e = part-mid m n ls [] [] in
      sorted_parts (has_mid m) ls long
      ∙ ground (
        arith,
        count-values mid_of m (part_lines ls [] []).0 parts.keyed parts.unique,
        e,
        part-no m n ls [] [],
      )
]

pub dedupe-local :
    (i : Text) (ls : List StoredChatLine)
    → count (is_local i) (dedupe_lines ls) ≡ count (is_local i) ls
dedupe-local i ls = elim (Bool-cases (ltb (length ls) 2)) [
  | inl short ↦ ap (count (is_local i)) (dedupe_short ls short)
  | inr long ↦
      let parts = part-ByMid ls [] [] no_lines in
      sorted_parts (is_local i) ls long ∙ omega (arith, parts.named i, part-local i ls [] [])
]

short-InOrder : (ls : List StoredChatLine) → ltb (length ls) 2 ≡ true → InOrder ls
short-InOrder [] short = tt
short-InOrder (l ∷ []) short = (tt, tt)
short-InOrder (l ∷ k ∷ ls) short = absurd (ground (arith, short))

pub dedupe-InOrder : (ls : List StoredChatLine) → InOrder (dedupe_lines ls)
dedupe-InOrder ls = elim (Bool-cases (ltb (length ls) 2)) [
  | inl short ↦ subst InOrder (sym (dedupe_short ls short)) (short-InOrder ls short)
  | inr long ↦
      unfold dedupe_lines in
      rw long (sort-InOrder [] (values (part_lines ls [] []).0 ++ (part_lines ls [] []).1) tt)
]

-- ===== src/Transcript/Order/Sorted.antt =====
-- Threads in order, and how many lines of a kind there are.
use ghal_bol.Common.{
  ℕ, suc, ◌+◌, ◌≡◌, refl, inl, inr, Bool, true, false, List, [], ◌∷◌, ◌++◌, if◌then◌else◌, Text,
  text_lt, text_lt_asymm, Bool-cases, arith, All,
}
use ghal_bol.Common.Int.{ℤ, ltb_ℤ}
use ghal_bol.Transcript.Line.{StoredChatLine}
use ghal_bol.Transcript.Order.{line_sort_key, key_lt, insert_line_in_thread_order, sort_onto}

-- `b` does not come before `a`.
abbrev pub NotAfter : StoredChatLine → StoredChatLine → Type 0
NotAfter a b = key_lt (line_sort_key b) (line_sort_key a) ≡ false

abbrev pub InOrder : List StoredChatLine → Type 0
InOrder [] = Unit
InOrder (l ∷ ls) = All (NotAfter l) ls × InOrder ls

pub key_lt_asymm : (a b : ℤ × Text × Text) → key_lt a b ≡ true → key_lt b a ≡ false
unfolding key_lt
key_lt_asymm (t, m, i) (u, n, j) h =
    ground (arith, text_lt_asymm m n, text_lt_asymm n m, text_lt_asymm i j)

text_lt_trans : (s t u : Text) → text_lt t s ≡ false → text_lt u t ≡ false → text_lt u s ≡ false
unfolding text_lt
text_lt_trans [] [] [] h k = refl
text_lt_trans [] [] (c ∷ u) h k = refl
text_lt_trans [] (b ∷ t) [] h k = ground arith
text_lt_trans [] (b ∷ t) (c ∷ u) h k = refl
text_lt_trans (a ∷ s) [] u h k = absurd (cc)
text_lt_trans (a ∷ s) (b ∷ t) [] h k = absurd (cc)
text_lt_trans (a ∷ s) (b ∷ t) (c ∷ u) h k = ground (arith, text_lt_trans s t u)

abbrev pair_lt : Text × Text → Text × Text → Bool
pair_lt (m, i) (n, j) = if text_lt m n then true else if text_lt n m then false else text_lt i j

pair_lt_trans :
    (m i n j o k : Text)
    → pair_lt (n, j) (m, i) ≡ false
    → pair_lt (o, k) (n, j) ≡ false
    → pair_lt (o, k) (m, i) ≡ false
pair_lt_trans m i n j o k h g = elim (Bool-cases (text_lt m o)) [
  | inl before ↦ ground (arith, text_lt_asymm m o before)
  | inr after ↦
      let nm : text_lt n m ≡ false = ground (arith, h) in
      let on : text_lt o n ≡ false = ground (arith, g) in
      let mn = text_lt_trans n o m on after in
      let no_less = text_lt_trans o m n after nm in
      let om = text_lt_trans m n o nm on in
      rw om (
        rw after (text_lt_trans i j k (ground (arith, h, nm, mn)) (ground (arith, g, on, no_less))))
]

-- Not to come before is transitive.
pub key_lt_trans :
    (a b c : ℤ × Text × Text) → key_lt b a ≡ false → key_lt c b ≡ false → key_lt c a ≡ false
unfolding key_lt
key_lt_trans (t, m, i) (u, n, j) (v, o, k) h g = elim (Bool-cases (ltb_ℤ t v)) [
  | inl before ↦ ground (arith, before)
  | inr after ↦
      let vt : ltb_ℤ v t ≡ false = ground (arith, h, g) in
      let ut : ltb_ℤ u t ≡ false = ground (arith, h) in
      let tu : ltb_ℤ t u ≡ false = ground (arith, g, after) in
      let vu : ltb_ℤ v u ≡ false = ground (arith, g) in
      let uv : ltb_ℤ u v ≡ false = ground (arith, h, after) in
      rw vt (
        rw after
          (pair_lt_trans m i n j o k (ground (arith, h, ut, tu)) (ground (arith, g, vu, uv))))
]

All-NotAfter :
    (a b : StoredChatLine) (ls : List StoredChatLine)
    → NotAfter a b
    → All (NotAfter b) ls
    → All (NotAfter a) ls
All-NotAfter a b [] h all = tt
All-NotAfter a b (l ∷ ls) h all = (
  key_lt_trans (line_sort_key a) (line_sort_key b) (line_sort_key l) h all.0,
  All-NotAfter a b ls h all.1,
)

insert-All {κ} :
    (P : StoredChatLine → Type κ) (es : List StoredChatLine) (l : StoredChatLine)
    → P l
    → All P es
    → All P (insert_line_in_thread_order es l)
unfolding insert_line_in_thread_order
insert-All P [] l p h = (p, tt)
insert-All P (e ∷ es) l p h = elim (Bool-cases (key_lt (line_sort_key l) (line_sort_key e))) [
  | inl before ↦ rw before (p, h)
  | inr after ↦ rw after (h.0, insert-All P es l p h.1)
]

-- A line put into a thread in order leaves it in order.
pub insert-InOrder :
    (es : List StoredChatLine) (l : StoredChatLine)
    → InOrder es
    → InOrder (insert_line_in_thread_order es l)
unfolding insert_line_in_thread_order
insert-InOrder [] l h = (tt, tt)
insert-InOrder (e ∷ es) l h = elim (Bool-cases (key_lt (line_sort_key l) (line_sort_key e))) [
  | inl before ↦
      let le = key_lt_asymm (line_sort_key l) (line_sort_key e) before in
      rw before ((le, All-NotAfter l e es le h.0), h)
  | inr after ↦ rw after (insert-All (NotAfter e) es l after h.0, insert-InOrder es l h.1)
]

pub sort-InOrder :
    (sorted ls : List StoredChatLine) → InOrder sorted → InOrder (sort_onto sorted ls)
unfolding sort_onto
sort-InOrder sorted [] h = h
sort-InOrder sorted (l ∷ ls) h =
    sort-InOrder (insert_line_in_thread_order sorted l) ls (insert-InOrder sorted l h)

-- How many lines pass a test.
abbrev pub count : (StoredChatLine → Bool) → List StoredChatLine → ℕ
count p [] = 0
count p (l ∷ ls) = if p l then suc (count p ls) else count p ls

pub count-insert :
    (p : StoredChatLine → Bool) (es : List StoredChatLine) (l : StoredChatLine)
    → count p (insert_line_in_thread_order es l) ≡ count p (l ∷ es)
unfolding insert_line_in_thread_order
count-insert p [] l = refl
count-insert p (e ∷ es) l = ground (arith, count-insert p es l)

pub count-append :
    (p : StoredChatLine → Bool) (xs ys : List StoredChatLine)
    → count p (xs ++ ys) ≡ count p xs + count p ys
count-append p [] ys = omega arith
count-append p (x ∷ xs) ys = ground (arith, count-append p xs ys)

pub count-sort :
    (p : StoredChatLine → Bool) (sorted ls : List StoredChatLine)
    → count p (sort_onto sorted ls) ≡ count p sorted + count p ls
unfolding sort_onto
count-sort p sorted [] = omega arith
count-sort p sorted (l ∷ ls) =
    ground (arith, count-sort p (insert_line_in_thread_order sorted l) ls, count-insert p sorted l)

-- ===== src/Transcript/Merge/Keyed.antt =====
-- Maps of lines by a key that the line itself holds.
use ghal_bol.Common.{
  ℕ, ◌≡◌, refl, subst, inl, inr, Option, none, some, [], ◌∷◌, if◌then◌else◌, Text, text_eq,
  text_eq_iff, eq_of_text, Bool-cases, arith,
}
use ghal_bol.Common.Map
use ghal_bol.Common.Map.{
  Map, Every, Unique, Fresh, insert-Unique, insert-Every, get-insert, get-Every,
}
use ghal_bol.Transcript.Line.{StoredChatLine}
use ghal_bol.Transcript.Order.Sorted.{count}
use ghal_bol.Transcript.Merge.{Lines, modify_or_insert, put_found, values}

-- How often a key is bound.
abbrev pub has : Text → Lines → ℕ
has k m = elim (Map.get k m) [ none ↦ 0 | some _ ↦ 1 ]

module _ (f : StoredChatLine → Text) where
  abbrev pub Keyed : Lines → Type 0
  Keyed [] = Unit
  Keyed ((k, l) ∷ m) = (f l ≡ k) × Keyed m

  pub insert-Keyed :
      (k : Text) (l : StoredChatLine) (m : Lines) → f l ≡ k → Keyed m → Keyed (Map.insert k l m)
  unfolding Map.insert
  insert-Keyed k l [] e h = (e, tt)
  insert-Keyed k l ((j, q) ∷ m) e h = elim (Bool-cases (text_eq j k)) [
    | inl same ↦ rw same (e, h.1)
    | inr other ↦ rw other (h.0, insert-Keyed k l m e h.1)
  ]

  pub get-Keyed :
      (k : Text) (m : Lines) (l : StoredChatLine) → Keyed m → Map.get k m ≡ some l → f l ≡ k
  unfolding Map.get
  get-Keyed k [] l h e = absurd (cc)
  get-Keyed k ((j, q) ∷ m) l h e = ground (arith, text_eq_iff j k, get-Keyed k m l h.1)

  Fresh-count :
      (k : Text) (m : Lines) → Keyed m → Fresh k m → count (λ l. text_eq (f l) k) (values m) ≡ 0
  Fresh-count k [] h u = refl
  Fresh-count k ((j, q) ∷ m) h u = ground (arith, h.0, u.0, Fresh-count k m h.1 u.1)

  -- In a map by `f`, a key is held by one line if it is bound, and by none if not.
  pub count-values :
      (k : Text) (m : Lines)
      → Keyed m
      → Unique m
      → count (λ l. text_eq (f l) k) (values m) ≡ has k m
  unfolding Map.get
  count-values k [] h u = refl
  count-values k ((j, q) ∷ m) h u = elim (Bool-cases (text_eq j k)) [
    | inl same ↦
        let away = Fresh-count k m h.1 (subst (λ i. Fresh i m) ((text_eq_iff j k).0 same) u.0) in
        ground (arith, h.0, same, away)
    | inr other ↦ ground (arith, h.0, other, count-values k m h.1 u.1)
  ]

  module _ (better : StoredChatLine → StoredChatLine → StoredChatLine) where
    found-Keyed :
        (l : StoredChatLine) (o : Option StoredChatLine) (m : Lines)
        → Map.get (f l) m ≡ o
        → ((p : StoredChatLine) → f p ≡ f l → f (better p l) ≡ f l)
        → Keyed m
        → Keyed (put_found better (f l) l o m)
    found-Keyed l none m e keeps h = insert-Keyed (f l) l m refl h
    found-Keyed l (some p) m e keeps h =
        insert-Keyed (f l) (better p l) m (keeps p (get-Keyed (f l) m p h e)) h

    pub put-Keyed :
        (l : StoredChatLine) (m : Lines)
        → ((p : StoredChatLine) → f p ≡ f l → f (better p l) ≡ f l)
        → Keyed m
        → Keyed (modify_or_insert better (f l) l m)
    unfolding modify_or_insert
    put-Keyed l m keeps h = found-Keyed l (Map.get (f l) m) m refl keeps h

module _ (better : StoredChatLine → StoredChatLine → StoredChatLine) where
  found-Unique :
      (k : Text) (l : StoredChatLine) (o : Option StoredChatLine) (m : Lines)
      → Unique m
      → Unique (put_found better k l o m)
  found-Unique k l none m u = insert-Unique k l m u
  found-Unique k l (some p) m u = insert-Unique k (better p l) m u

  pub put-Unique :
      (k : Text) (l : StoredChatLine) (m : Lines)
      → Unique m
      → Unique (modify_or_insert better k l m)
  unfolding modify_or_insert
  put-Unique k l m u = found-Unique k l (Map.get k m) m u

pub has-insert :
    (j k : Text) (l : StoredChatLine) (m : Lines)
    → has k (Map.insert j l m) ≡ (if text_eq j k then 1 else has k m)
has-insert j k l m = ground (arith, get-insert j k l m)

module _ (better : StoredChatLine → StoredChatLine → StoredChatLine) where
  has-found :
      (j k : Text) (l : StoredChatLine) (o : Option StoredChatLine) (m : Lines)
      → has k (put_found better j l o m) ≡ (if text_eq j k then 1 else has k m)
  has-found j k l none m = has-insert j k l m
  has-found j k l (some p) m = has-insert j k (better p l) m

  pub has-put :
      (j k : Text) (l : StoredChatLine) (m : Lines)
      → has k (modify_or_insert better j l m) ≡ (if text_eq j k then 1 else has k m)
  unfolding modify_or_insert
  has-put j k l m = has-found j k l (Map.get j m) m

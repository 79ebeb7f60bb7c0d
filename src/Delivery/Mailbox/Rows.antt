-- ===== src/Delivery/Mailbox/Rows.antt =====
-- What UPDATE and the queries do to a table with unique keys.
use ghal_bol.Common.{
  ◌+◌, ◌≤◌, ◌≡◌, refl, ◌∙◌, sym, inl, inr, Bool, true, false, Option, none, some, [], ◌∷◌, arith,
  All, if◌then◌else◌, eq_of_text, eq_of_texts, texts_eq_iff, Bool-cases,
}
use ghal_bol.Common.Map
use ghal_bol.Common.Map.{Fresh, Unique, get_of_Fresh}
use ghal_bol.Delivery.Mailbox.{Key, Row, Table, update, select, query_row, sum_bytes}

-- A row, put through the update of its key.
abbrev pub updated : (Key → Row → Bool) → (Row → Row) → Key → Row → Row
updated p f k r = if p k r then f r else r

update-Fresh :
    (p : Key → Row → Bool) (f : Row → Row) (k : Key) (t : Table)
    → Fresh k t
    → Fresh k (update p f t)
unfolding update
update-Fresh p f k [] h = tt
update-Fresh p f k ((j, r) ∷ t) h = (h.0, update-Fresh p f k t h.1)

pub update-Unique :
    (p : Key → Row → Bool) (f : Row → Row) (t : Table) → Unique t → Unique (update p f t)
unfolding update
update-Unique p f [] u = tt
update-Unique p f ((j, r) ∷ t) u = (update-Fresh p f j t u.0, update-Unique p f t u.1)

pub get-update :
    (p : Key → Row → Bool) (f : Row → Row) (k : Key) (t : Table)
    → Map.get k (update p f t)
      ≡ elim (Map.get k t) [ none ↦ none | some r ↦ some (updated p f k r) ]
unfolding Map.get update
get-update p f k [] = refl
get-update p f k ((j, r) ∷ t) = ground (arith, texts_eq_iff j k, get-update p f k t)

-- The row that a query reads is one of the table, and passes the test.
pub query_row-get :
    (p : Key → Row → Bool) (t : Table) (k : Key) (r : Row)
    → Unique t
    → query_row p t ≡ some (k, r)
    → (Map.get k t ≡ some r) × (p k r ≡ true)
unfolding Map.get query_row
query_row-get p [] k r u e = cc
query_row-get p ((j, q) ∷ t) k r u e =
    ground (arith, texts_eq_iff j k, query_row-get p t k r u.1, get_of_Fresh j t u.0)

pub query_row-none :
    (p : Key → Row → Bool) (t : Table) (k : Key) (r : Row)
    → query_row p t ≡ none
    → Map.get k t ≡ some r
    → p k r ≡ false
unfolding Map.get query_row
query_row-none p [] k r e g = cc
query_row-none p ((j, q) ∷ t) k r e g = ground (arith, texts_eq_iff j k, query_row-none p t k r)

-- An update that adds to no sum.
pub sum_bytes-update-le :
    (q p : Key → Row → Bool) (f : Row → Row) (t : Table)
    → ((k : Key) (r : Row)
        → p k r ≡ true
        → (if q k (f r) then (f r).size_bytes else 0) ≤ (if q k r then r.size_bytes else 0))
    → sum_bytes q (update p f t) ≤ sum_bytes q t
unfolding sum_bytes update
sum_bytes-update-le q p f [] h = omega arith
sum_bytes-update-le q p f ((k, r) ∷ t) h = ground (arith, h k r, sum_bytes-update-le q p f t h)

pub sum_bytes-insert :
    (q : Key → Row → Bool) (k : Key) (r : Row) (t : Table)
    → sum_bytes q (Map.insert k r t)
        + elim (Map.get k t) [ none ↦ 0 | some o ↦ if q k o then o.size_bytes else 0 ]
      ≡ sum_bytes q t + (if q k r then r.size_bytes else 0)
unfolding sum_bytes Map.insert Map.get
sum_bytes-insert q k r [] = ground arith
sum_bytes-insert q k r ((j, o) ∷ t) = ground (arith, texts_eq_iff j k, sum_bytes-insert q k r t)

found_before :
    (p : Key → Row → Bool) (f : Row → Row) (k : Key) (r : Row) (o : Option Row)
    → elim o as (λ _. Option Row) [ none ↦ none | some q ↦ some (updated p f k q) ] ≡ some r
    → (q : Row) × (o ≡ some q) × (updated p f k q ≡ r)
found_before p f k r none e = absurd cc
found_before p f k r (some q) e = (q, refl, cc)

-- The row that a key has after an update is the one it had, put through it.
pub update-from :
    (p : Key → Row → Bool) (f : Row → Row) (k : Key) (t : Table) (r : Row)
    → Map.get k (update p f t) ≡ some r
    → (q : Row) × (Map.get k t ≡ some q) × (updated p f k q ≡ r)
update-from p f k t r e = found_before p f k r (Map.get k t) (sym (get-update p f k t) ∙ e)

-- The rows of a query stand in the table, and pass its test.
select_weaken :
    (j : Key) (o : Row) (t : Table) (p : Key → Row → Bool) (l : Table)
    → Fresh j t
    → All (λ b. (Map.get b.0 t ≡ some b.1) × (p b.0 b.1 ≡ true)) l
    → All (λ b. (Map.get b.0 ((j, o) ∷ t) ≡ some b.1) × (p b.0 b.1 ≡ true)) l
unfolding Map.get
select_weaken j o t p [] h a = tt
select_weaken j o t p ((k, r) ∷ l) h a = (
  (ground (arith, texts_eq_iff j k, get_of_Fresh j t h, a.0), a.0.1),
  select_weaken j o t p l h a.1,
)

pub select-All :
    (p : Key → Row → Bool) (t : Table)
    → Unique t
    → All (λ b. (Map.get b.0 t ≡ some b.1) × (p b.0 b.1 ≡ true)) (select p t)
unfolding Map.get select
select-All p [] u = tt
select-All p ((j, o) ∷ t) u =
    let rest = select_weaken j o t p (select p t) u.0 (select-All p t u.1) in
    elim (Bool-cases (p j o)) [
      | inl hit ↦ rw hit ((ground (arith, texts_eq_iff j j), hit), rest)
      | inr miss ↦ rw miss rest
    ]

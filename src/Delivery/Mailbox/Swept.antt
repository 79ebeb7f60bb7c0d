-- ===== src/Delivery/Mailbox/Swept.antt =====
-- What a sweep takes.
use ghal_bol.Common.{
  some_injective, ℕ, ◌≡◌, refl, ap, ◌∙◌, sym, subst, inl, inr, Bool, false, Option, none, some,
  List, [], ◌∷◌, map, any, arith, if◌then◌else◌, Text, text_eq, text_eq_iff, eq_of_text,
  eq_of_texts, texts_eq, texts_eq_iff, Bool-cases,
}
use ghal_bol.Common.Map
use ghal_bol.Common.Map.{Unique, Fresh, get_of_Fresh}
use ghal_bol.Delivery.Mailbox.{Key, Row, Table, MailboxStore, update, select}
use ghal_bol.Delivery.Mailbox.Sweep.{
  sweep_expired, expire_all, named, names_of, set_expired, overdue,
}
use ghal_bol.Delivery.Mailbox.Rows.{updated, update-Unique, get-update}

-- A row after a sweep that reported `es`.
abbrev marked : ℕ → List (Text × Text × Text) → Key → Row → Row
marked now es k r = if any (λ e. named e k r) es then set_expired now r else r

marked_once :
    (now : ℕ) (es : List (Text × Text × Text)) (k : Key) (r : Row)
    → marked now es k (set_expired now r) ≡ set_expired now r
marked_once now es k r = elim (Bool-cases (any (λ e. named e k (set_expired now r)) es)) [
  | inl t ↦ rw t refl
  | inr f ↦ rw f refl
]

marked_more :
    (now : ℕ) (e : Text × Text × Text) (es : List (Text × Text × Text)) (k : Key) (o : Option Row)
    → elim (elim o as (λ _. Option Row) [
      | none ↦ none
      | some r ↦ some (updated (named e) (set_expired now) k r)
    ])
        as (λ _. Option Row) [ none ↦ none | some r ↦ some (marked now es k r) ]
      ≡ elim o as (λ _. Option Row) [ none ↦ none | some r ↦ some (marked now (e ∷ es) k r) ]
marked_more now e es k none = refl
marked_more now e es k (some r) = elim (Bool-cases (named e k r)) [
  | inl t ↦ rw t (ap some (marked_once now es k r))
  | inr f ↦ rw f refl
]

unmarked :
    (now : ℕ) (k : Key) (o : Option Row)
    → o ≡ elim o as (λ _. Option Row) [ none ↦ none | some r ↦ some (marked now [] k r) ]
unmarked now k none = refl
unmarked now k (some r) = refl

get-expire_all :
    (now : ℕ) (es : List (Text × Text × Text)) (k : Key) (t : Table)
    → Map.get k (expire_all now es t)
      ≡ elim (Map.get k t) as (λ _. Option Row) [ none ↦ none | some r ↦ some (marked now es k r) ]
unfolding expire_all
get-expire_all now [] k t = unmarked now k (Map.get k t)
get-expire_all now (e ∷ es) k t =
    get-expire_all now es k (update (named e) (set_expired now) t)
    ∙ (ap
          (λ (o : Option Row). elim o as (λ _. Option Row) [
            | none ↦ none
            | some r ↦ some (marked now es k r)
          ])
          (get-update (named e) (set_expired now) k t)
        ∙ marked_more now e es k (Map.get k t))

names_key :
    (k j : Key) (r q : Row)
    → named (names_of (k, q)) j r
      ≡ (if texts_eq k j then text_eq r.recipient_wire q.recipient_wire else false)
names_key (k0, k1) (j0, j1) r q =
    ground (arith, text_eq_iff j0 k0, text_eq_iff j1 k1, text_eq_iff k0 j0, text_eq_iff k1 j1)

unnamed :
    (now : ℕ) (t : Table) (k : Key) (r : Row)
    → Fresh k t
    → any (λ e. named e k r) (map names_of (select (overdue now) t)) ≡ false
unfolding select
unnamed now [] k r h = refl
unnamed now ((j, q) ∷ t) k r h = ground (arith, names_key j k r q, h.0, unnamed now t k r h.1)

-- The names of the rows of a query meet exactly the rows of the query.
named-any :
    (now : ℕ) (t : Table) (k : Key) (r : Row)
    → Unique t
    → Map.get k t ≡ some r
    → any (λ e. named e k r) (map names_of (select (overdue now) t)) ≡ overdue now k r
unfolding Map.get select
named-any now [] k r u g = cc
named-any now ((j, q) ∷ t) k r u g = elim (Bool-cases (texts_eq j k)) [
  | inl same ↦
      let e : j ≡ k = (texts_eq_iff j k).0 same in
      let f : Fresh k t = subst (λ (x : Key). Fresh x t) e u.0 in
      ground (
        arith,
        names_key j k r q,
        unnamed now t k r f,
        text_eq_iff r.recipient_wire q.recipient_wire,
      )
  | inr other ↦ ground (arith, names_key j k r q, named-any now t k r u.1)
]

swept_or_kept :
    (now : ℕ) (t : Table) (k : Key) (o : Option Row)
    → Unique t
    → Map.get k t ≡ o
    → elim o as (λ _. Option Row) [
      | none ↦ none
      | some r ↦ some (marked now (map names_of (select (overdue now) t)) k r)
    ]
      ≡ elim o as (λ _. Option Row) [
        | none ↦ none
        | some r ↦ some (if overdue now k r then set_expired now r else r)
      ]
swept_or_kept now t k none u g = refl
swept_or_kept now t k (some r) u g = rw (named-any now t k r u g) refl

none_left :
    (now : ℕ) (k : Key) (o : Option Row) (r : Row)
    → elim o as (λ _. Option Row) [
      | none ↦ none
      | some q ↦ some (if overdue now k q then set_expired now q else q)
    ]
      ≡ some r
    → overdue now k r ≡ false
none_left now k none r e = absurd cc
none_left now k (some q) r e = elim (Bool-cases (overdue now k q)) [
  | inl due ↦
      subst (λ (x : Row). overdue now k x ≡ false)
        (sym (ap (λ (b : Bool). if b then set_expired now q else q) due) ∙ some_injective e) refl
  | inr kept ↦
      subst (λ (x : Row). overdue now k x ≡ false)
        (sym (ap (λ (b : Bool). if b then set_expired now q else q) kept) ∙ some_injective e) kept
]

expire_all-Unique :
    (now : ℕ) (es : List (Text × Text × Text)) (t : Table) → Unique t → Unique (expire_all now es t)
unfolding expire_all
expire_all-Unique now [] t u = u
expire_all-Unique now (e ∷ es) t u =
    expire_all-Unique now es (update (named e) (set_expired now) t)
      (update-Unique (named e) (set_expired now) t u)

none_selected :
    (p : Key → Row → Bool) (t : Table)
    → Unique t
    → ((k : Key) (r : Row) → Map.get k t ≡ some r → p k r ≡ false)
    → select p t ≡ []
unfolding select Map.get
none_selected p [] u h = refl
none_selected p ((j, q) ∷ t) u h = rw (h j q (ground (arith, texts_eq_iff j j))) (
    none_selected p t u.1 (λ k r g. h k r (ground (arith, texts_eq_iff j k, get_of_Fresh j t u.0))))

-- A sweep at `now` of a mailbox with one row per key takes exactly the rows that wait and whose time is
-- up: each of them loses its message and is expired since `now`, every other row stays as it is, and no
-- row is overdue after it.
pub sweep_exact :
    (now : ℕ) (s : MailboxStore) (k : Key)
    → Unique s.conn
    → (Map.get k (sweep_expired now s).0.conn ≡ elim (Map.get k s.conn) as (λ _. Option Row) [
      | none ↦ none
      | some r ↦ some (if overdue now k r then set_expired now r else r)
    ])
      × (select (overdue now) (sweep_expired now s).0.conn ≡ [])
unfolding sweep_expired
sweep_exact now s k u =
    let es = map names_of (select (overdue now) s.conn) in
    let e = λ (j : Key).
      get-expire_all now es j s.conn ∙ swept_or_kept now s.conn j (Map.get j s.conn) u refl in
    (
      e k,
      none_selected (overdue now) (expire_all now es s.conn) (expire_all-Unique now es s.conn u)
          (λ j r g. none_left now j (Map.get j s.conn) r (sym (e j) ∙ g)),
    )

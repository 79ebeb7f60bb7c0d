-- ===== src/Delivery/Mailbox/Import.antt =====
-- The merge of `import_mailbox` of ghalbol_delivery/src/mailbox_ops.rs, between two tables.
use ghal_bol.Common.{
  ℕ, ◌+◌, ◌≡◌, refl, subst, ◌⊎◌, ap, ◌∙◌, sym, inl, inr, Bool, true, not, ◌&&◌, Option, none, some,
  [], ◌∷◌, arith, ltb, if◌then◌else◌, Result, ok, err, eq_of_text, eq_of_texts, texts_eq,
  texts_eq_iff, Bool-cases,
}
use ghal_bol.Common.Map
use ghal_bol.Common.Map.{Unique, Fresh, get_of_Fresh, get-insert, insert-Unique}
use ghal_bol.Delivery.Error.{DeliveryError, bad_request}
use ghal_bol.Delivery.Mailbox.{Key, Row, Table}

-- The columns that the INSERT copies: `read_at_ms` is not one of them.
abbrev pub copied : Row → Row
copied r = record r { read_at_ms = none }

-- The join of the two tables.
unfoldable pub conflicts : Table → Table → ℕ
conflicts [] t = 0
conflicts ((k, r) ∷ imported) t = (if Map.contains k t then 1 else 0) + conflicts imported t

-- INSERT OR REPLACE … SELECT; without a conflict INSERT does the same.
unfoldable pub insert_all : Table → Table → Table
insert_all [] t = t
insert_all ((k, r) ∷ imported) t = insert_all imported (Map.insert k (copied r) t)

unfoldable pub import_rows : Bool → Table → Table → Result DeliveryError Table
import_rows replace imported t =
    if ltb 0 (conflicts imported t) && not replace
    then err bad_request
    else ok (insert_all imported t)

insert_all-Unique : (imported t : Table) → Unique t → Unique (insert_all imported t)
unfolding insert_all
insert_all-Unique [] t u = u
insert_all-Unique ((k, r) ∷ imported) t u =
    insert_all-Unique imported (Map.insert k (copied r) t) (insert-Unique k (copied r) t u)

-- The row is the same but for the time when it was read, which it does not have.
pub record IsCopy (r r' : Row) : Type 0 where
  pub recipient : r'.recipient_wire ≡ r.recipient_wire
  pub blob : r'.envelope_blob ≡ r.envelope_blob
  pub size : r'.size_bytes ≡ r.size_bytes
  pub times : (r'.uploaded_at_ms ≡ r.uploaded_at_ms) × (r'.expires_at_ms ≡ r.expires_at_ms)
  pub state : r'.state ≡ r.state
  pub marks : (r'.delivered_at_ms ≡ r.delivered_at_ms) × (r'.expired_at_ms ≡ r.expired_at_ms)
  pub unread : r'.read_at_ms ≡ none

-- The row of a key after the merge, from those of the archive and the table.
abbrev pub Merges : Option Row → Option Row → Option Row → Type 0
Merges (some r) o o' = (r' : Row) × (o' ≡ some r') × IsCopy r r'
Merges none o o' = o' ≡ o

-- The row of a key, with the imported one first.
abbrev merged : Option Row → Option Row → Option Row
merged (some r) o = some (copied r)
merged none o = o

get-insert_all :
    (k : Key) (imported t : Table)
    → Unique imported
    → Map.get k (insert_all imported t) ≡ merged (Map.get k imported) (Map.get k t)
unfolding insert_all Map.get
get-insert_all k [] t u = refl
get-insert_all k ((j, r) ∷ imported) t u = elim (Bool-cases (texts_eq j k)) [
  | inl same ↦
      let gone : Map.get k imported ≡ none =
        ap (λ (i : Key). Map.get i imported) (sym ((texts_eq_iff j k).0 same))
        ∙ get_of_Fresh j imported u.0 in
      get-insert_all k imported (Map.insert j (copied r) t) u.1
      ∙ rw (gone, get-insert j k (copied r) t, same) refl
  | inr other ↦
      get-insert_all k imported (Map.insert j (copied r) t) u.1
      ∙ rw (get-insert j k (copied r) t, other) refl
]

merged-Merges : (i o : Option Row) → Merges i o (merged i o)
merged-Merges none o = refl
merged-Merges (some r) o = (
  copied r,
  refl,
  record {
    recipient = refl;
    blob = refl;
    size = refl;
    times = (refl, refl);
    state = refl;
    marks = (refl, refl);
    unread = refl;
  },
)

-- A merge of an archive with one row per key into such a table, if it is not refused: each key of the
-- archive has a row with all columns of its row of the archive but the time when it was read, every other key has the row
-- that it had, and the table that results has one row per key. Without `replace`, no key is in both.
pub import_exact :
    (replace : Bool) (imported t t' : Table)
    → Unique imported
    → Unique t
    → import_rows replace imported t ≡ ok t'
    → Unique t'
      × ((k : Key) → Merges (Map.get k imported) (Map.get k t) (Map.get k t'))
      × ((replace ≡ true) ⊎ (conflicts imported t ≡ 0))
unfolding import_rows
import_exact replace imported t t' u v e =
    let all : insert_all imported t ≡ t' = ground arith in
    (
      subst Unique all (insert_all-Unique imported t v),
      λ k.
          subst (Merges (Map.get k imported) (Map.get k t))
            (sym (ap (Map.get k) (sym all) ∙ get-insert_all k imported t u))
            (merged-Merges (Map.get k imported) (Map.get k t)),
      ground arith,
    )

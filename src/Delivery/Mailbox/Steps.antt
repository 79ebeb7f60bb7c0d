-- ===== src/Delivery/Mailbox/Steps.antt =====
-- Each call keeps the invariant of the mailbox.
use ghal_bol.Common.{
  ℕ, ◌≡◌, refl, ap, ◌∙◌, sym, subst, inl, inr, true, Option, none, some, arith, Text, text_eq,
  text_eq_iff, eq_of_text, eq_of_texts, texts_eq, texts_eq_iff, Bool-cases,
}
use ghal_bol.Common.Int.{ℤ, min_ℤ, leb_ℤ, ◌≤ℤ◌}
use ghal_bol.Common.Map
use ghal_bol.Common.Map.{Unique, insert-Unique, get-insert}
use ghal_bol.Delivery.Policy.{PolicyLimits, max_expires_at_ms, later_by}
use ghal_bol.Delivery.Mailbox.{
  is_queued, is_delivered, is_expired, Key, Row, Table, MailboxStore, extend_row, update, query_row,
}
use ghal_bol.Delivery.Mailbox.Acks.{
  is_read, deliver_found, read_found, queued_for, addressed, addressed_from, set_delivered,
  set_read,
}
use ghal_bol.Delivery.Mailbox.Rows.{query_row-get}
use ghal_bol.Delivery.Mailbox.Invariant.{IsKept, Inv, update-Inv, min_ℤ-le}

pub one_row :
    (t : Table) {k j : Key} {r q : Row}
    → k ≡ j
    → Map.get k t ≡ some r
    → Map.get j t ≡ some q
    → r ≡ q
one_row t e g h = ground (arith, ap (λ (x : Key). Map.get x t) e)

extended_IsKept :
    (policy : PolicyLimits) (e : ℤ) (r q : Row)
    → e ≤ℤ max_expires_at_ms policy r.uploaded_at_ms
    → r ≡ q
    → IsKept policy q
    → IsKept policy (record q { expires_at_ms = e })
extended_IsKept policy e r q b same w = record {
  blob = w.blob;
  delivered_at = w.delivered_at;
  expired_at = w.expired_at;
  read_at = w.read_at;
  expiry = subst (λ (x : Row). e ≤ℤ max_expires_at_ms policy x.uploaded_at_ms) same b;
}

pub extend-Inv :
    (policy : PolicyLimits) (now : ℕ) (k : Key) (secs : ℕ) (o : Option Row) (s : MailboxStore)
    → Map.get k s.conn ≡ o
    → Inv policy s
    → Inv policy (extend_row policy now secs k o s).0
extend-Inv policy now k secs none s g v = v
extend-Inv policy now k secs (some r) s g v =
    let max_exp = max_expires_at_ms policy r.uploaded_at_ms in
    let e = min_ℤ (later_by now secs) max_exp in
    let moved : Inv policy (record s {
      conn = update (λ j q. texts_eq j k) (λ q. record q { expires_at_ms = e }) s.conn;
    }) =
      update-Inv policy (λ j q. texts_eq j k) (λ q. record q { expires_at_ms = e }) s
        (λ j q g' hit w.
          extended_IsKept policy e r q (min_ℤ-le (later_by now secs) max_exp)
            (one_row s.conn (sym ((texts_eq_iff j k).0 hit)) g g') w)
        (λ q. omega arith) v in
    elim (Bool-cases (is_queued r.state)) [
      | inl on ↦ elim (Bool-cases (leb_ℤ e r.expires_at_ms)) [
        | inl short ↦ rw (on, short) v
        | inr longer ↦ rw (on, longer) moved
      ]
      | inr off ↦ elim (Bool-cases (is_expired r.state)) [
        | inl over ↦ rw (off, over) v
        | inr other ↦ rw (off, other) v
      ]
    ]

-- The row that a confirmation of the recipient found, and the only one that it changes.
pub addressed_key :
    (recipient_wire message_id sender_wire : Text) (k j : Key) (r q : Row)
    → addressed_from recipient_wire message_id sender_wire j q ≡ true
    → addressed recipient_wire message_id k r ≡ true
    → text_eq k.0 sender_wire ≡ true
    → k ≡ j
addressed_key w m x (k0, k1) (j0, j1) r q h a b =
    ground (arith, text_eq_iff k1 m, text_eq_iff j1 m, text_eq_iff k0 x, text_eq_iff j0 x)

delivered-IsKept :
    (policy : PolicyLimits) (now : ℕ) (r : Row)
    → is_queued r.state ≡ true
    → IsKept policy r
    → IsKept policy (set_delivered now r)
delivered-IsKept policy now r q w = record {
  blob = refl;
  delivered_at = refl;
  expired_at = w.expired_at ∙ ground arith;
  read_at = w.read_at ∙ ground arith;
  expiry = w.expiry;
}

read-IsKept :
    (policy : PolicyLimits) (now : ℕ) (r : Row)
    → is_delivered r.state ≡ true
    → IsKept policy r
    → IsKept policy (set_read now r)
read-IsKept policy now r q w = record {
  blob = w.blob ∙ ground arith;
  delivered_at = w.delivered_at ∙ ground arith;
  expired_at = w.expired_at ∙ ground arith;
  read_at = refl;
  expiry = w.expiry;
}

pub deliver-Inv :
    (policy : PolicyLimits) (now : ℕ) (recipient_wire message_id sender_wire : Text)
    (s : MailboxStore) (o : Option (Key × Row))
    → query_row (queued_for recipient_wire message_id) s.conn ≡ o
    → Inv policy s
    → Inv policy (deliver_found now recipient_wire message_id sender_wire o s).0
deliver-Inv policy now w m x s none e v = v
deliver-Inv policy now w m x s (some (k, r)) e v =
    let found = query_row-get (queued_for w m) s.conn k r v.unique e in
    elim (Bool-cases (text_eq k.0 x)) [
      | inl own ↦ rw own (
          update-Inv policy (addressed_from w m x) (set_delivered now) s
            (λ j q g hit kept.
              let same : r ≡ q =
                one_row s.conn (addressed_key w m x k j r q hit (ground (arith, found.1)) own)
                  found.0 g in
              delivered-IsKept policy now q
                (ground (arith, ap (λ (y : Row). is_queued y.state) same, found.1)) kept)
            (λ q. omega arith) v)
      | inr other ↦ rw other v
    ]

pub read-Inv :
    (policy : PolicyLimits) (now : ℕ) (recipient_wire message_id sender_wire : Text)
    (s : MailboxStore) (o : Option (Key × Row))
    → query_row (addressed recipient_wire message_id) s.conn ≡ o
    → Inv policy s
    → Inv policy (read_found now recipient_wire message_id sender_wire o s).0
read-Inv policy now w m x s none e v = v
read-Inv policy now w m x s (some (k, r)) e v =
    let found = query_row-get (addressed w m) s.conn k r v.unique e in
    elim (Bool-cases (text_eq k.0 x)) [
      | inl own ↦ elim (Bool-cases (is_read r.state)) [
        | inl again ↦ rw (own, again) v
        | inr first ↦ elim (Bool-cases (is_delivered r.state)) [
          | inl ready ↦
              rw (own, first, ready)
                (update-Inv policy (addressed_from w m x) (set_read now) s
                  (λ j q g hit kept.
                    let same : r ≡ q =
                      one_row s.conn (addressed_key w m x k j r q hit found.1 own) found.0 g in
                    read-IsKept policy now q
                      (ground (arith, ap (λ (y : Row). is_delivered y.state) same)) kept)
                  (λ q. omega arith) v)
          | inr early ↦ rw (own, first, early) v
        ]
      ]
      | inr other ↦ rw other v
    ]

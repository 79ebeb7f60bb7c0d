-- ===== src/Delivery/Mailbox/Handed.antt =====
-- What the confirmation of a recipient does.
use ghal_bol.Common.{
  some_injective, ℕ, ◌≡◌, ◌≢◌, refl, ap, ◌∙◌, sym, subst, inl, inr, Bool, true, false, Option, none,
  some, arith, Text, text_eq, text_eq_iff, eq_of_text, eq_of_texts, Bool-cases, ok,
}
use ghal_bol.Common.Map
use ghal_bol.Common.Map.{Unique, get-insert, get-insert_self}
use ghal_bol.Delivery.Mailbox.{delivered, is_queued, Key, Row, MailboxStore, query_row}
use ghal_bol.Delivery.Mailbox.Acks.{
  ack_deliver, deliver_found, queued_for, addressed_from, set_delivered,
}
use ghal_bol.Delivery.Mailbox.Rows.{updated, get-update, query_row-get}
use ghal_bol.Delivery.Mailbox.Lifecycle.{met_key}

-- The row after: delivered at the time of the call, without its text, and else as it was.
pub record Delivered (now : ℕ) (r r' : Row) : Type 0 where
  pub state : r'.state ≡ delivered
  pub text_gone : r'.envelope_blob ≡ none
  pub time : r'.delivered_at_ms ≡ some now
  pub recipient : r'.recipient_wire ≡ r.recipient_wire
  pub size : r'.size_bytes ≡ r.size_bytes
  pub times : (r'.uploaded_at_ms ≡ r.uploaded_at_ms) × (r'.expires_at_ms ≡ r.expires_at_ms)
  pub marks : (r'.expired_at_ms ≡ r.expired_at_ms) × (r'.read_at_ms ≡ r.read_at_ms)

set_delivered-Delivered : (now : ℕ) (r : Row) → Delivered now r (set_delivered now r)
set_delivered-Delivered now r = record {
  state = refl;
  text_gone = refl;
  time = refl;
  recipient = refl;
  size = refl;
  times = (refl, refl);
  marks = (refl, refl);
}

-- What an accepted confirmation of the recipient means.
pub record Handed (now : ℕ) (w m x : Text) (s : MailboxStore) (s' : MailboxStore) : Type 0 where
  pub row : Row
  pub waited :
      (Map.get (x, m) s.conn ≡ some row) × (is_queued row.state ≡ true) × (row.recipient_wire ≡ w)
  pub taken : (row' : Row) × (Map.get (x, m) s'.conn ≡ some row') × Delivered now row row'
  pub others : (k : Key) → k ≢ (x, m) → Map.get k s'.conn ≡ Map.get k s.conn

found_key :
    (w m x : Text) (j : Key) (q : Row)
    → queued_for w m j q ≡ true
    → text_eq j.0 x ≡ true
    → j ≡ (x, m)
found_key w m x (j0, j1) q h own = ground (arith, text_eq_iff j1 m, text_eq_iff j0 x)

queued_test :
    (w m : Text) (j : Key) (q : Row)
    → queued_for w m j q ≡ true
    → (is_queued q.state ≡ true) × (q.recipient_wire ≡ w)
queued_test w m j q h = (ground arith, (text_eq_iff q.recipient_wire w).0 (ground arith))

hit_test :
    (w m x : Text) (j : Key) (q : Row)
    → j ≡ (x, m)
    → queued_for w m j q ≡ true
    → addressed_from w m x (x, m) q ≡ true
hit_test w m x (j0, j1) q e h = ground (arith, text_eq_iff m m, text_eq_iff x x, text_eq_iff j1 m)

taken_row :
    (p : Key → Row → Bool) (f : Row → Row) (k : Key) (q : Row) (o : Option Row)
    → o ≡ some q
    → p k q ≡ true
    → elim o as (λ _. Option Row) [ none ↦ none | some r ↦ some (updated p f k r) ] ≡ some (f q)
taken_row p f k q none e h = absurd cc
taken_row p f k q (some r) e h =
    subst (λ (y : Row). some (updated p f k y) ≡ some (f q)) (sym (some_injective e)) (rw h refl)

other_row :
    (p : Key → Row → Bool) (f : Row → Row) (k : Key) (o : Option Row)
    → ((r : Row) → p k r ≡ false)
    → elim o as (λ _. Option Row) [ none ↦ none | some r ↦ some (updated p f k r) ] ≡ o
other_row p f k none h = refl
other_row p f k (some r) h = rw (h r) refl

missed : (w m x : Text) (k : Key) (r : Row) → k ≢ (x, m) → addressed_from w m x k r ≡ false
missed w m x k r n = elim (Bool-cases (addressed_from w m x k r)) [
  | inl hit ↦ absurd (n (sym (met_key w m x k r hit)))
  | inr miss ↦ miss
]

handed :
    (now : ℕ) (w m x : Text) (s : MailboxStore) (o : Option (Key × Row)) (y : Text)
    → Unique s.conn
    → query_row (queued_for w m) s.conn ≡ o
    → (deliver_found now w m x o s).1 ≡ ok y
    → Handed now w m x s (deliver_found now w m x o s).0
handed now w m x s none y u e h = absurd cc
handed now w m x s (some (j, q)) y u e h =
    let found = query_row-get (queued_for w m) s.conn j q u e in
    elim (Bool-cases (text_eq j.0 x)) [
      | inl own ↦
          let key : j ≡ (x, m) = found_key w m x j q found.1 own in
          let there : Map.get (x, m) s.conn ≡ some q =
            ap (λ (i : Key). Map.get i s.conn) (sym key) ∙ found.0 in
          let p = addressed_from w m x in
          let f = set_delivered now in
          rw own (record {
            row = q;
            waited = (there, (queued_test w m j q found.1).0, (queued_test w m j q found.1).1);
            taken = (
              f q,
              get-update p f (x, m) s.conn
                  ∙ taken_row p f (x, m) q _ there (hit_test w m x j q key found.1),
              set_delivered-Delivered now q,
            );
            others = λ k n.
                get-update p f k s.conn
                ∙ other_row p f k (Map.get k s.conn) (λ r. missed w m x k r n);
          })
      | inr other ↦ absurd (ground arith)
    ]

-- In a mailbox with one row per key, if the server accepts that a recipient confirms a message, then the
-- message of that sender and id waited for that recipient; its row is delivered after the call, with the
-- time of the call and without its text, and else as it was, and every other message is as before.
pub ack_deliver_ok :
    (now : ℕ) (recipient_wire message_id sender_wire y : Text) (s : MailboxStore)
    → Unique s.conn
    → (ack_deliver now recipient_wire message_id sender_wire s).1 ≡ ok y
    → Handed now recipient_wire message_id sender_wire s
        (ack_deliver now recipient_wire message_id sender_wire s).0
unfolding ack_deliver
ack_deliver_ok now w m x y s u h = handed now w m x s (query_row (queued_for w m) s.conn) y u refl h

-- ===== src/Delivery/Mailbox/Invariant.antt =====
-- What holds of a mailbox after every run: one row per key, the columns of each row in step with its
-- state, and no sender above the quota.
use ghal_bol.Common.{
  ℕ, ◌+◌, ◌-◌, ◌≤◌, ◌≡◌, refl, ap, ◌∙◌, subst, inl, inr, Bool, true, false, ◌||◌, Option, none,
  some, arith, if◌then◌else◌, Text, text_eq, text_eq_iff, eq_of_text, eq_of_texts, texts_eq,
  Bool-cases,
}
use ghal_bol.Common.Int.{ℤ, pos, pos_part, min_ℤ, ltb_ℤ, ◌≤ℤ◌}
use ghal_bol.Common.Map
use ghal_bol.Common.Map.{Unique, insert-Unique, get-insert}
use ghal_bol.Delivery.Policy.{PolicyLimits, max_expires_at_ms, later_by}
use ghal_bol.Delivery.Mailbox.{
  is_queued, is_delivered, is_expired, Key, Row, Table, MailboxStore, ValidatedEnvelope, upload,
  uploaded_row, replaced_bytes, update, sum_bytes, queued_by, used_bytes,
}
use ghal_bol.Delivery.Mailbox.Acks.{is_read}
use ghal_bol.Delivery.Mailbox.Rows.{
  update-Unique, update-from, sum_bytes-update-le, sum_bytes-insert,
}

abbrev pub has {ℓ} : {A : Type ℓ} → Option A → Bool
has none = false
has (some a) = true

-- A row keeps its message exactly while it is queued, and the times of what has happened to it since;
-- it ends within the longest time from its upload.
pub record IsKept (policy : PolicyLimits) (r : Row) : Type 0 where
  pub blob : has r.envelope_blob ≡ is_queued r.state
  pub delivered_at : has r.delivered_at_ms ≡ (is_delivered r.state || is_read r.state)
  pub expired_at : has r.expired_at_ms ≡ is_expired r.state
  pub read_at : has r.read_at_ms ≡ is_read r.state
  pub expiry : r.expires_at_ms ≤ℤ max_expires_at_ms policy r.uploaded_at_ms

pub record Inv (policy : PolicyLimits) (s : MailboxStore) : Type 0 where
  pub unique : Unique s.conn
  pub kept : (k : Key) (r : Row) → Map.get k s.conn ≡ some r → IsKept policy r
  pub quota : (sender_wire : Text) → used_bytes sender_wire s.conn ≤ pos_part s.quota_per_peer

pub min_ℤ-le : (a b : ℤ) → min_ℤ a b ≤ℤ b
min_ℤ-le a b = ground arith

-- An update of rows that keeps each of them in step and adds to no sum.
pub update-Inv :
    (policy : PolicyLimits) (p : Key → Row → Bool) (f : Row → Row) (s : MailboxStore)
    → ((k : Key) (r : Row)
        → Map.get k s.conn ≡ some r
        → p k r ≡ true
        → IsKept policy r
        → IsKept policy (f r))
    → ((r : Row)
        → (if is_queued (f r).state then (f r).size_bytes else 0)
          ≤ (if is_queued r.state then r.size_bytes else 0))
    → Inv policy s
    → Inv policy (record s { conn = update p f s.conn })
unfolding used_bytes
update-Inv policy p f s good small v = record {
  unique = update-Unique p f s.conn v.unique;
  kept = λ k r g.
      let (o, there, e) = update-from p f k s.conn r g in
      subst (IsKept policy) e (elim (Bool-cases (p k o)) [
        | inl hit ↦ rw hit (good k o there hit (v.kept k o there))
        | inr miss ↦ rw miss (v.kept k o there)
      ]);
  quota = λ w. omega (
    arith,
    v.quota w,
    sum_bytes-update-le (queued_by w) p f s.conn (λ k r h. ground (arith, small r)),
  );
}

-- An upload leaves a row that is queued, of the size of its message.
uploaded_row-IsKept :
    (policy : PolicyLimits) (o : Option Row) (env : ValidatedEnvelope) (now : ℕ) (e : ℤ)
    → ((r : Row) → o ≡ some r → IsKept policy r)
    → e ≤ℤ max_expires_at_ms policy now
    → IsKept policy (uploaded_row o env now e)
uploaded_row-IsKept policy none env now e h b = record {
  blob = refl;
  delivered_at = refl;
  expired_at = refl;
  read_at = refl;
  expiry = b;
}
uploaded_row-IsKept policy (some r) env now e h b = elim (Bool-cases (is_queued r.state)) [
  | inl again ↦ rw again (record {
    blob = refl;
    delivered_at = refl;
    expired_at = refl;
    read_at = (h r refl).read_at ∙ ground arith;
    expiry = b;
  })
  | inr gone ↦
      rw gone
        (record { blob = refl; delivered_at = refl; expired_at = refl; read_at = refl; expiry = b })
]

pub uploaded_row_queued :
    (o : Option Row) (env : ValidatedEnvelope) (now : ℕ) (e : ℤ)
    → (is_queued (uploaded_row o env now e).state ≡ true)
      × ((uploaded_row o env now e).size_bytes ≡ env.size_bytes)
uploaded_row_queued none env now e = (refl, refl)
uploaded_row_queued (some r) env now e = ground arith

upload_sum :
    (w : Text) (k : Key) (r : Row) (t : Table)
    → is_queued r.state ≡ true
    → sum_bytes (queued_by w) (Map.insert k r t)
        + (if text_eq k.0 w then replaced_bytes (Map.get k t) else 0)
      ≡ sum_bytes (queued_by w) t + (if text_eq k.0 w then r.size_bytes else 0)
upload_sum w k r t q = ground (arith, sum_bytes-insert (queued_by w) k r t)

-- A queued row put in under its key, if its sender stays within the quota.
insert-Inv :
    (policy : PolicyLimits) (k : Key) (r : Row) (s : MailboxStore)
    → IsKept policy r
    → is_queued r.state ≡ true
    → used_bytes k.0 s.conn - replaced_bytes (Map.get k s.conn) + r.size_bytes
      ≤ pos_part s.quota_per_peer
    → Inv policy s
    → Inv policy (record s { conn = Map.insert k r s.conn })
unfolding used_bytes
insert-Inv policy k r s good q fits v = record {
  unique = insert-Unique k r s.conn v.unique;
  kept = λ j o g. elim (Bool-cases (texts_eq k j)) [
    | inl same ↦ subst (IsKept policy) (ground (arith, get-insert k j r s.conn)) good
    | inr other ↦ v.kept j o (ground (arith, get-insert k j r s.conn))
  ];
  quota = λ w. elim (Bool-cases (text_eq k.0 w)) [
    | inl same ↦
        let e : k.0 ≡ w = (text_eq_iff k.0 w).0 same in
        ground
          (arith, upload_sum w k r s.conn q, ap (λ (x : Text). sum_bytes (queued_by x) s.conn) e)
    | inr other ↦ ground (arith, upload_sum w k r s.conn q, v.quota w)
  ];
}

pub upload-Inv :
    (policy : PolicyLimits) (now : ℕ) (env : ValidatedEnvelope) (ttl_secs : ℕ) (s : MailboxStore)
    → Inv policy s
    → Inv policy (upload policy now env ttl_secs s).0
unfolding upload
upload-Inv policy now env ttl_secs s v =
    let k : Key = (env.sender_wire, env.message_id) in
    let o = Map.get k s.conn in
    let e = min_ℤ (later_by now ttl_secs) (max_expires_at_ms policy now) in
    let row = uploaded_row_queued o env now e in
    elim (Bool-cases (
      ltb_ℤ s.quota_per_peer
        (pos (used_bytes env.sender_wire s.conn - replaced_bytes o + env.size_bytes)))) [
          | inl full ↦ rw full v
          | inr fits ↦ rw fits (
              insert-Inv policy k (uploaded_row o env now e) s
                (uploaded_row-IsKept policy o env now e (v.kept k)
                  (min_ℤ-le (later_by now ttl_secs) (max_expires_at_ms policy now)))
                row.0 (ground (arith, fits, row.1)) v)
        ]

-- ===== src/Delivery/Mailbox/Handover.antt =====
-- The way of a message from its sender to its recipient.
use ghal_bol.Common.{
  some_injective, ℕ, ◌+◌, ◌-◌, ◌≡◌, refl, ap, ◌∙◌, sym, subst, inl, inr, Bool, true, Option, none,
  some, All, List, [], ◌∷◌, arith, Text, text_eq, text_eq_iff, eq_of_text, eq_of_texts, texts_eq,
  texts_eq_iff, Bool-cases, ok,
}
use mathlib.Core.Path.{ap₂}
use mathlib.Core.List.{Mem, mem-cons_self, mem-cons_of_mem}
use ghal_bol.Common.Int.{ℤ, pos, min_ℤ, ltb_ℤ, ◌≤ℤ◌}
use ghal_bol.Common.Map
use ghal_bol.Common.Map.{Unique, get-insert, get-insert_self}
use ghal_bol.Delivery.Policy.{PolicyLimits, max_expires_at_ms, later_by}
use ghal_bol.Delivery.Mailbox.{
  is_queued, Key, Row, Table, MailboxStore, ValidatedEnvelope, QuotaStatus, upload, uploaded_row,
  replaced_bytes, used_bytes, select,
}
use ghal_bol.Delivery.Mailbox.Sweep.{pending_for_recipient, pending_at, blobs}
use ghal_bol.Delivery.Mailbox.Invariant.{uploaded_row_queued, upload-Inv}
use ghal_bol.Delivery.Mailbox.Reach.{mailbox-Inv}
use ghal_bol.Delivery.Mailbox.Run.{Call, run, opened}
use ghal_bol.Delivery.Mailbox.Waits.{Waits, Leaves, run-Waits}

blobs_head :
    (o : Option Text) (b : Text) (m : Text) (e : ℤ) (rest : List (Text × Text × ℤ))
    → o ≡ some b
    → Mem
        (b, m, e)
        (elim o as (λ _. List (Text × Text × ℤ)) [ none ↦ rest | some c ↦ (c, m, e) ∷ rest ])
blobs_head none b m e rest h = absurd cc
blobs_head (some c) b m e rest h =
    subst (λ (x : Text). Mem (x, m, e) ((c, m, e) ∷ rest)) (some_injective h) mem-cons_self

blobs_skip :
    (o : Option Text) (x : Text × Text × ℤ) (m : Text) (e : ℤ) (rest : List (Text × Text × ℤ))
    → Mem x rest
    → Mem x (elim o as (λ _. List (Text × Text × ℤ)) [ none ↦ rest | some c ↦ (c, m, e) ∷ rest ])
blobs_skip none x m e rest h = h
blobs_skip (some c) x m e rest h = mem-cons_of_mem (c, m, e) h

blobs_here :
    (p : Key → Row → Bool) (t : Table) (j : Key) (q : Row) (b : Text)
    → p j q ≡ true
    → q.envelope_blob ≡ some b
    → Mem (b, j.1, q.expires_at_ms) (blobs (select p ((j, q) ∷ t)))
unfolding blobs select
blobs_here p t j q b h e =
    rw h (blobs_head q.envelope_blob b j.1 q.expires_at_ms (blobs (select p t)) e)

-- A row that a query finds is among the messages of the query.
blobs_mem :
    (p : Key → Row → Bool) (t : Table) (k : Key) (r : Row) (b : Text)
    → Map.get k t ≡ some r
    → p k r ≡ true
    → r.envelope_blob ≡ some b
    → Mem (b, k.1, r.expires_at_ms) (blobs (select p t))
unfolding blobs select Map.get
blobs_mem p [] k r b g h e = absurd cc
blobs_mem p ((j, q) ∷ t) k r b g h e = elim (Bool-cases (texts_eq j k)) [
  | inl same ↦
      let key : j ≡ k = (texts_eq_iff j k).0 same in
      let row : q ≡ r = some_injective (ground arith) in
      let here =
        blobs_here p t j q b (ap₂ p key row ∙ h) (ap (λ (y : Row). y.envelope_blob) row ∙ e) in
      subst (λ (i : Key). Mem (b, i.1, r.expires_at_ms) (blobs (select p ((j, q) ∷ t)))) key
        (subst (λ (y : Row). Mem (b, j.1, y.expires_at_ms) (blobs (select p ((j, q) ∷ t)))) row
          here)
  | inr other ↦
      let rest = blobs_mem p t k r b (ground arith) h e in
      elim (Bool-cases (p j q)) [
        | inl hit ↦
            rw hit (blobs_skip q.envelope_blob _ j.1 q.expires_at_ms (blobs (select p t)) rest)
        | inr miss ↦ rw miss rest
      ]
]

uploaded_row_fields :
    (o : Option Row) (env : ValidatedEnvelope) (now : ℕ) (e : ℤ)
    → ((uploaded_row o env now e).envelope_blob ≡ some env.envelope_blob)
      × ((uploaded_row o env now e).recipient_wire ≡ env.recipient_wire)
      × ((uploaded_row o env now e).expires_at_ms ≡ e)
uploaded_row_fields none env now e = (refl, refl, refl)
uploaded_row_fields (some r) env now e = elim (Bool-cases (is_queued r.state)) [
  | inl again ↦ rw again (refl, refl, refl)
  | inr first ↦ rw first (refl, refl, refl)
]

text_eq_of : (a b : Text) → a ≡ b → text_eq a b ≡ true
text_eq_of a b e = (text_eq_iff a b).1 e

pending_row :
    (now : ℕ) (w : Text) (k : Key) (r : Row)
    → text_eq r.recipient_wire w ≡ true
    → is_queued r.state ≡ true
    → ltb_ℤ (pos now) r.expires_at_ms ≡ true
    → pending_at now w k r ≡ true
pending_row now w k r a b c = rw (a, b) c

-- The end that an upload sets: after the time asked for, or the longest time.
abbrev pub end_of : PolicyLimits → ℕ → ℕ → ℤ
end_of policy now ttl_secs = min_ℤ (later_by now ttl_secs) (max_expires_at_ms policy now)

-- An uploaded message waits.
uploaded-Waits :
    (policy : PolicyLimits) (now : ℕ) (env : ValidatedEnvelope) (ttl_secs : ℕ) (s : MailboxStore)
    (q : QuotaStatus × Bool)
    → (upload policy now env ttl_secs s).1 ≡ ok q
    → Waits
        (env.sender_wire, env.message_id)
        env.recipient_wire
        env.envelope_blob
        (min_ℤ (later_by now ttl_secs) (max_expires_at_ms policy now))
        (upload policy now env ttl_secs s).0.conn
unfolding upload
uploaded-Waits policy now env ttl_secs s q h =
    let o = Map.get (env.sender_wire, env.message_id) s.conn in
    let e = min_ℤ (later_by now ttl_secs) (max_expires_at_ms policy now) in
    let row = uploaded_row o env now e in
    let fields = uploaded_row_fields o env now e in
    elim (Bool-cases (
      ltb_ℤ s.quota_per_peer
        (pos (used_bytes env.sender_wire s.conn - replaced_bytes o + env.size_bytes)))) [
          | inl full ↦ absurd (ground arith)
          | inr fits ↦ rw fits (
            row,
            get-insert_self (env.sender_wire, env.message_id) row s.conn,
            record {
              queued = (uploaded_row_queued o env now e).0;
              recipient = fields.1;
              blob = fields.0;
              until = subst (λ x. e ≤ℤ x) (sym fields.2) (omega arith);
            },
          )
        ]

-- A message that waits is handed over.
waiting_pending :
    (k : Key) (w b : Text) (e : ℤ) (now : ℕ) (s : MailboxStore)
    → ltb_ℤ (pos now) e ≡ true
    → Waits k w b e s.conn
    → (e' : ℤ) × (e ≤ℤ e') × Mem (b, k.1, e') (pending_for_recipient now w s)
unfolding pending_for_recipient
waiting_pending k w b e now s early (r, g, i) = (
  r.expires_at_ms,
  i.until,
  blobs_mem (pending_at now w) s.conn k r b g
      (pending_row now w k r (text_eq_of r.recipient_wire w i.recipient) i.queued
        (ground (arith, early, i.until)))
      i.blob,
)

-- After any calls on an empty mailbox, a message that the server takes is handed to its recipient whenever the
-- recipient asks before the end that the upload set, with an end that is not earlier, whatever is called in
-- between: as long as the message is not uploaded again, its recipient does not confirm it, and each sweep runs
-- before that end.
pub upload_pending :
    (policy : PolicyLimits) (quota : ℤ) (before : List (ℕ × Call)) (now : ℕ)
    (env : ValidatedEnvelope) (ttl_secs : ℕ) (q : QuotaStatus × Bool) (between : List (ℕ × Call))
    (later : ℕ)
    → (upload policy now env ttl_secs (run policy before (opened quota))).1 ≡ ok q
    → All
        (Leaves (env.sender_wire, env.message_id) env.recipient_wire (end_of policy now ttl_secs))
        between
    → ltb_ℤ (pos later) (end_of policy now ttl_secs) ≡ true
    → (e : ℤ) × (end_of policy now ttl_secs ≤ℤ e)
      × Mem
          (env.envelope_blob, env.message_id, e)
          (pending_for_recipient later env.recipient_wire (
            run policy between
              (upload policy now env ttl_secs (run policy before (opened quota))).0))
upload_pending policy quota before now env ttl_secs q between later h l early =
    let s = run policy before (opened quota) in
    let k : Key = (env.sender_wire, env.message_id) in
    let e = end_of policy now ttl_secs in
    waiting_pending k env.recipient_wire env.envelope_blob e later _ early (
      run-Waits k env.recipient_wire env.envelope_blob e policy between
        (upload policy now env ttl_secs s).0
        (upload-Inv policy now env ttl_secs s (mailbox-Inv policy quota before).0) l
        (uploaded-Waits policy now env ttl_secs s q h))

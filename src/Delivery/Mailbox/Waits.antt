-- ===== src/Delivery/Mailbox/Waits.antt =====
-- A message that waits goes on waiting.
use ghal_bol.Common.{
  some_injective, ℕ, ◌+◌, ◌-◌, ◌≡◌, refl, ap, ◌∙◌, sym, subst, inl, inr, Bool, true, false, ◌&&◌,
  Option, none, some, List, [], ◌∷◌, All, arith, if◌then◌else◌, Text, text_eq, text_eq_iff,
  eq_of_text, eq_of_texts, texts_eq, texts_eq_iff, Bool-cases,
}
use ghal_bol.Common.Int.{ℤ, pos, min_ℤ, ltb_ℤ, leb_ℤ, ◌≤ℤ◌}
use ghal_bol.Common.Map
use ghal_bol.Common.Map.{Unique, get-insert}
use ghal_bol.Delivery.Policy.{PolicyLimits, max_expires_at_ms, later_by}
use ghal_bol.Delivery.Mailbox.{
  is_queued, is_delivered, is_expired, Key, Row, Table, MailboxStore, ValidatedEnvelope, upload,
  replaced_bytes, used_bytes, extend_ttl, extend_row, update, query_row,
}
use ghal_bol.Delivery.Mailbox.Acks.{
  ack_deliver, ack_read, is_read, deliver_found, read_found, queued_for, addressed, addressed_from,
  set_delivered, set_read,
}
use ghal_bol.Delivery.Mailbox.Sweep.{sweep_expired, set_expired, overdue}
use ghal_bol.Delivery.Mailbox.Rows.{updated, get-update}
use ghal_bol.Delivery.Mailbox.Run.{Call, uploads, extends, delivers, reads, sweeps, step, run}
use ghal_bol.Delivery.Mailbox.Invariant.{Inv}
use ghal_bol.Delivery.Mailbox.Reach.{step-Inv}
use ghal_bol.Delivery.Mailbox.Swept.{sweep_exact}

-- The call does not upload the message again, its recipient does not confirm it, and it is no sweep at its end.
abbrev pub Leaves : Key → Text → ℤ → ℕ × Call → Type 0
Leaves k w e (now, uploads env ttl) = texts_eq (env.sender_wire, env.message_id) k ≡ false
Leaves k w e (now, extends x m secs) = Unit
Leaves k w e (now, delivers v m x) = text_eq v w && texts_eq (x, m) k ≡ false
Leaves k w e (now, reads v m x) = text_eq v w && texts_eq (x, m) k ≡ false
Leaves k w e (now, sweeps) = ltb_ℤ (pos now) e ≡ true

-- The row waits with the message for the recipient, until a time that is not before `e`.
pub record IsWaiting (w b : Text) (e : ℤ) (r : Row) : Type 0 where
  pub queued : is_queued r.state ≡ true
  pub recipient : r.recipient_wire ≡ w
  pub blob : r.envelope_blob ≡ some b
  pub until : e ≤ℤ r.expires_at_ms

module _ (k : Key) (w b : Text) (e : ℤ) where
  abbrev pub Waits : Table → Type 0
  Waits t = (r : Row) × (Map.get k t ≡ some r) × IsWaiting w b e r

  update-Waits :
      (p : Key → Row → Bool) (f : Row → Row) (t : Table)
      → ((r : Row)
          → Map.get k t ≡ some r
          → p k r ≡ true
          → IsWaiting w b e r
          → IsWaiting w b e (f r))
      → Waits t
      → Waits (update p f t)
  update-Waits p f t h (r, g, i) =
      let there =
        get-update p f k t
        ∙ ap (λ o. elim o as (λ _. Option Row) [ none ↦ none | some q ↦ some (updated p f k q) ])
            g in
      (
        updated p f k r,
        there,
        elim (Bool-cases (p k r)) [ inl hit ↦ rw hit (h r g hit i) | inr miss ↦ rw miss i ],
      )

  insert-Waits :
      (j : Key) (row : Row) (t : Table)
      → texts_eq j k ≡ false
      → Waits t
      → Waits (Map.insert j row t)
  insert-Waits j row t other (r, g, i) = (r, ground (arith, get-insert j k row t, g, other), i)

  upload-Waits :
      (policy : PolicyLimits) (now : ℕ) (env : ValidatedEnvelope) (ttl : ℕ) (s : MailboxStore)
      → texts_eq (env.sender_wire, env.message_id) k ≡ false
      → Waits s.conn
      → Waits (upload policy now env ttl s).0.conn
  unfolding upload
  upload-Waits policy now env ttl s other h =
      let o = Map.get (env.sender_wire, env.message_id) s.conn in
      elim (Bool-cases (
        ltb_ℤ s.quota_per_peer
          (pos (used_bytes env.sender_wire s.conn - replaced_bytes o + env.size_bytes)))) [
            | inl full ↦ rw full h
            | inr fits ↦ rw fits (insert-Waits (env.sender_wire, env.message_id) _ s.conn other h)
          ]

  longer :
      (r q : Row) (e' : ℤ)
      → r ≡ q
      → leb_ℤ e' q.expires_at_ms ≡ false
      → IsWaiting w b e r
      → IsWaiting w b e (record r { expires_at_ms = e' })
  longer r q e' same more i = record {
    queued = i.queued;
    recipient = i.recipient;
    blob = i.blob;
    until =
        let before = subst (λ (x : Row). e ≤ℤ x.expires_at_ms) same i.until in
        ground (arith, before, more);
  }

  extend-Waits :
      (policy : PolicyLimits) (now secs : ℕ) (j : Key) (o : Option Row) (s : MailboxStore)
      → Map.get j s.conn ≡ o
      → Waits s.conn
      → Waits (extend_row policy now secs j o s).0.conn
  extend-Waits policy now secs j none s g h = h
  extend-Waits policy now secs j (some q) s g h =
      let e' = min_ℤ (later_by now secs) (max_expires_at_ms policy q.uploaded_at_ms) in
      elim (Bool-cases (is_queued q.state)) [
        | inl on ↦ elim (Bool-cases (leb_ℤ e' q.expires_at_ms)) [
          | inl short ↦ rw (on, short) h
          | inr more ↦
              rw (on, more)
                (update-Waits (λ i r. texts_eq i j) (λ r. record r { expires_at_ms = e' }) s.conn
                  (λ r there hit i.
                    longer r q e'
                      (some_injective (
                        sym there
                        ∙ (ap (λ (x : Key). Map.get x s.conn) ((texts_eq_iff k j).0 hit) ∙ g)))
                      more i)
                  h)
        ]
        | inr off ↦ elim (Bool-cases (is_expired q.state)) [
          | inl over ↦ rw (off, over) h
          | inr other ↦ rw (off, other) h
        ]
      ]

  -- A confirmation of the message by its recipient, or none.
  confirmed_row :
      (v m x : Text) (r : Row)
      → text_eq v w && texts_eq (x, m) k ≡ false
      → r.recipient_wire ≡ w
      → addressed_from v m x k r ≡ true
      → ⊥
  confirmed_row v m x r h e hit = ground (
    arith,
    h,
    hit,
    texts_eq_iff (x, m) k,
    text_eq_iff k.0 x,
    text_eq_iff k.1 m,
    text_eq_iff r.recipient_wire v,
    text_eq_iff v w,
  )

  confirm-Waits :
      (v m x : Text) (f : Row → Row) (t : Table)
      → text_eq v w && texts_eq (x, m) k ≡ false
      → Waits t
      → Waits (update (addressed_from v m x) f t)
  confirm-Waits v m x f t other h =
      update-Waits (addressed_from v m x) f t
        (λ r g hit i. absurd (confirmed_row v m x r other i.recipient hit)) h

  deliver-Waits :
      (now : ℕ) (v m x : Text) (o : Option (Key × Row)) (s : MailboxStore)
      → text_eq v w && texts_eq (x, m) k ≡ false
      → Waits s.conn
      → Waits (deliver_found now v m x o s).0.conn
  deliver-Waits now v m x none s other h = h
  deliver-Waits now v m x (some (j, q)) s other h = elim (Bool-cases (text_eq j.0 x)) [
    | inl own ↦ rw own (confirm-Waits v m x (set_delivered now) s.conn other h)
    | inr foreign ↦ rw foreign h
  ]

  read-Waits :
      (now : ℕ) (v m x : Text) (o : Option (Key × Row)) (s : MailboxStore)
      → text_eq v w && texts_eq (x, m) k ≡ false
      → Waits s.conn
      → Waits (read_found now v m x o s).0.conn
  read-Waits now v m x none s other h = h
  read-Waits now v m x (some (j, q)) s other h = elim (Bool-cases (text_eq j.0 x)) [
    | inl own ↦ elim (Bool-cases (is_read q.state)) [
      | inl again ↦ rw (own, again) h
      | inr first ↦ elim (Bool-cases (is_delivered q.state)) [
        | inl ready ↦ rw (own, first, ready) (confirm-Waits v m x (set_read now) s.conn other h)
        | inr early ↦ rw (own, first, early) h
      ]
    ]
    | inr foreign ↦ rw foreign h
  ]

  sweep-Waits :
      (now : ℕ) (s : MailboxStore)
      → Unique s.conn
      → ltb_ℤ (pos now) e ≡ true
      → Waits s.conn
      → Waits (sweep_expired now s).0.conn
  sweep-Waits now s u early (r, g, i) =
      let whole : (o : Option Row) → Option Row = λ o. elim o as (λ _. Option Row) [
        | none ↦ none
        | some q ↦ some (if overdue now k q then set_expired now q else q)
      ] in
      let fine : overdue now k r ≡ false = ground (arith, early, i.until) in
      (r, (sweep_exact now s k u).0 ∙ (ap whole g ∙ rw fine refl), i)

  step-Waits :
      (policy : PolicyLimits) (now : ℕ) (c : Call) (s : MailboxStore)
      → Unique s.conn
      → Leaves k w e (now, c)
      → Waits s.conn
      → Waits (step policy now c s).conn
  unfolding step extend_ttl ack_deliver ack_read
  step-Waits policy now (uploads env ttl) s u l h = upload-Waits policy now env ttl s l h
  step-Waits policy now (extends x m secs) s u l h =
      extend-Waits policy now secs (x, m) (Map.get (x, m) s.conn) s refl h
  step-Waits policy now (delivers v m x) s u l h =
      deliver-Waits now v m x (query_row (queued_for v m) s.conn) s l h
  step-Waits policy now (reads v m x) s u l h =
      read-Waits now v m x (query_row (addressed v m) s.conn) s l h
  step-Waits policy now sweeps s u l h = sweep-Waits now s u l h

  pub run-Waits :
      (policy : PolicyLimits) (cs : List (ℕ × Call)) (s : MailboxStore)
      → Inv policy s
      → All (Leaves k w e) cs
      → Waits s.conn
      → Waits (run policy cs s).conn
  unfolding run
  run-Waits policy [] s v l h = h
  run-Waits policy ((now, c) ∷ cs) s v l h =
      run-Waits policy cs (step policy now c s) (step-Inv policy now c s v) l.1
        (step-Waits policy now c s v.unique l.0 h)

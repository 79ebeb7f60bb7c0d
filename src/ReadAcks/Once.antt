-- ===== src/ReadAcks/Once.antt =====
-- A read receipt that the server took does not go out again.
use ghal_bol.Common.{
  ◌≡◌, refl, sym, subst, ap, ◌∙◌, inl, inr, Bool, true, false, not, ◌&&◌, ◌||◌, Option, none, some,
  some_injective, List, [], ◌∷◌, any, if◌then◌else◌, Text, text_eq, trim, normalize, is_empty,
  Bool-cases, arith,
}
use ghal_bol.Common.Normal.{trim_idem}
use ghal_bol.Common.Int.{ℤ, pos, ltb_ℤ, saturating_sub}
use ghal_bol.Transcript.Line.{StoredChatLine, or_empty}
use ghal_bol.Transcript.Order.{mid_of}
use ghal_bol.Transcript.Merge.Every.{Every}
use ghal_bol.Transcript.Store.Every.{load-Every}
use ghal_bol.ReadAcks.{
  PendingDeliveryReadAck, ReadAcks, World, is_pending, is_before, inbound_received_at_for_row,
  enqueue_pending, dequeue_pending, rows_for, patch_already_sent, should_attempt_in,
  should_attempt_read_ack, drain_item, drain_loop, drain_pending_read_acks, seed_row, seed_rows,
  seed_in, read_ack_cutoff_ms, lookup_keys_for_sender,
}
use ghal_bol.ReadAcks.Acked.{acked, Acked}
use ghal_bol.ReadAcks.Again.{
  Gone, Over, Unsent, keep-Gone, append-Gone, append-Unsent, attempt-Over,
}

module _ (ns mid sender : Text) where
  should_attempt_in-Over :
      (w : World) (s m : Text) (o : Option Text) (r : ReadAcks)
      → Over ns mid sender r
      → Over ns mid sender (should_attempt_in w s m o r).0
  unfolding dequeue_pending
  should_attempt_in-Over w s m none r h = h
  should_attempt_in-Over w s m (some n) r h = elim (Bool-cases (patch_already_sent w n s m r)) [
    | inl done ↦ rw done (
      keep-Gone ns mid sender (λ p. not (is_pending (trim m) (normalize s) p)) r.pending h.0,
      h.1,
    )
    | inr open_row ↦ elim (Bool-cases (w.may_send s)) [
      | inl may ↦ rw open_row (rw may h)
      | inr not_now ↦ rw open_row (rw not_now h)
    ]
  ]

  drain_item-Over :
      (w : World) (force : Bool) (item : PendingDeliveryReadAck) (r : ReadAcks)
      → w.app_namespace ≡ some ns
      → is_pending mid sender item ≡ false
      → Over ns mid sender r
      → Over ns mid sender (drain_item w force item r).0
        × Unsent ns mid sender (drain_item w force item r).1
  unfolding should_attempt_read_ack
  drain_item-Over w force item r e other h =
      elim (Bool-cases
        (not force && ltb_ℤ (saturating_sub w.now_ms item.queued_at_ms) (pos 1000))) [
          | inl early ↦ rw early (h, refl)
          | inr due ↦ rw due (
              attempt-Over ns mid sender w item
                (should_attempt_in w item.sender_wire item.message_id w.app_namespace r) e other
                (should_attempt_in-Over w item.sender_wire item.message_id w.app_namespace r h))
        ]

  drain_loop-Over :
      (w : World) (force : Bool) (items : List PendingDeliveryReadAck) (r : ReadAcks)
      → w.app_namespace ≡ some ns
      → Gone ns mid sender items
      → Over ns mid sender r
      → Over ns mid sender (drain_loop w force items r).0
        × Unsent ns mid sender (drain_loop w force items r).1
  unfolding drain_loop
  drain_loop-Over w force [] r e g h = (h, refl)
  drain_loop-Over w force (item ∷ items) r e g h = elim (Bool-cases (is_pending mid sender item)) [
    | inl same ↦ absurd (ground (arith, same, g))
    | inr other ↦
        let first = drain_item-Over w force item r e other h in
        let rest =
          drain_loop-Over w force items (drain_item w force item r).0 e
            (sym (ap (λ b. if b then true else any (is_pending mid sender) items) other) ∙ g)
            first.0 in
        (
          rest.0,
          append-Unsent ns mid sender (drain_item w force item r).1
              (drain_loop w force items (drain_item w force item r).0).1 first.1 rest.1,
        )
  ]

  pub drain-Over :
      (w : World) (force : Bool) (r : ReadAcks)
      → w.app_namespace ≡ some ns
      → Over ns mid sender r
      → Over ns mid sender (drain_pending_read_acks w force r).0
        × Unsent ns mid sender (drain_pending_read_acks w force r).1
  unfolding drain_pending_read_acks
  drain-Over w force r e h =
      elim w.has_url
        as (λ b.
          Over ns mid sender (if b then drain_loop w force r.pending r else (r, [])).0
          × Unsent ns mid sender (if b then drain_loop w force r.pending r else (r, [])).1) [
            | true ↦ drain_loop-Over w force r.pending r e h.0 h
            | false ↦ (h, refl)
          ]

  enqueue-Over :
      (w : World) (m s : Text) (r : ReadAcks)
      → text_eq (trim m) mid ≡ false
      → Over ns mid sender r
      → Over ns mid sender (enqueue_pending w m s r)
  unfolding enqueue_pending
  enqueue-Over w m s r other h =
      elim (Bool-cases
        (is_empty (trim m) || not (w.contacts.is_valid_public_key_hex (normalize s)))) [
          | inl bad ↦ rw bad h
          | inr good ↦ elim (Bool-cases (any (is_pending (trim m) (normalize s)) r.pending)) [
            | inl waits ↦ rw good (rw waits h)
            | inr fresh ↦
                rw good (rw fresh (append-Gone ns mid sender r.pending _ h.0 (rw other refl), h.1))
          ]
        ]

  seed_row-Over :
      (w : World) (s : Text) (cutoff : ℤ) (row : StoredChatLine) (r : ReadAcks)
      → acked mid row ≡ true
      → Over ns mid sender r
      → Over ns mid sender (seed_row w s cutoff row r)
  seed_row-Over w s cutoff row r a h = elim (Bool-cases (row.outgoing || row.read_ack_sent)) [
    | inl done ↦ rw done h
    | inr open_row ↦
        elim (Bool-cases
          (not (is_before cutoff (inbound_received_at_for_row row)) || is_empty (mid_of row))) [
            | inl skipped ↦ rw open_row (rw skipped h)
            | inr taken ↦
                let other : text_eq (mid_of row) mid ≡ false = ground (arith, a, open_row) in
                rw open_row (
                  rw taken (
                    enqueue-Over w (mid_of row) s r
                      (ap (λ t. text_eq t mid) (trim_idem (or_empty row.message_id)) ∙ other) h))
          ]
  ]

  seed_rows-Over :
      (w : World) (s : Text) (cutoff : ℤ) (rows : List StoredChatLine) (r : ReadAcks)
      → Every (acked mid) rows
      → Over ns mid sender r
      → Over ns mid sender (seed_rows w s cutoff rows r)
  unfolding seed_rows
  seed_rows-Over w s cutoff [] r a h = h
  seed_rows-Over w s cutoff (row ∷ rows) r a h =
      seed_rows-Over w s cutoff rows (seed_row w s cutoff row r) a.1
        (seed_row-Over w s cutoff row r a.0 h)

  pub seed_in-Over :
      (w : World) (s : Text) (o : Option Text) (r : ReadAcks)
      → o ≡ some ns
      → Over ns mid sender r
      → Over ns mid sender (seed_in w s o r)
  seed_in-Over w s none r e h = h
  seed_in-Over w s (some n) r e h =
      seed_rows-Over w s (read_ack_cutoff_ms w s) (rows_for w n s r) r
        (load-Every (acked mid) w.contacts n (lookup_keys_for_sender w s) none r.store
          (subst (λ k. Acked k mid r.store) (sym (some_injective e)) h.1))
        h

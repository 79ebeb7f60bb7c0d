-- ===== src/ReadAcks/Receipts.antt =====
-- The read receipts of all calls after one that the server took.
use ghal_bol.Common.{
  ◌≡◌, refl, sym, subst, ap, ◌∙◌, inl, inr, Bool, true, false, not, ◌&&◌, Option, none, some,
  some_injective, List, [], ◌∷◌, any, keep_if, if◌then◌else◌, Text, text_eq, text_eq_iff, trim,
  normalize, is_empty, Bool-cases, All,
}
use ghal_bol.ReadAcks.{
  ReadAcks, World, Log, is_pending, dequeue_pending, claim_in_flight, release_in_flight, patch_in,
  patch_read_ack_sent, sent, send_inbox_read, seed_in, seed_read_acks_for_sender,
  queue_delivery_read_catchup, inbound_claimed, try_read_ack_after_inbound,
  delivery_read_ack_upkeep,
}
use ghal_bol.ReadAcks.Acked.{Acked, patch-Acked}
use ghal_bol.ReadAcks.Again.{
  Act, catches_up, keeps_up, takes_in, step, receipts, is_receipt, Fits, Gone, Over, Unsent,
  drop-Gone, append-Unsent, sent-Over,
}
use ghal_bol.ReadAcks.Once.{drain-Over, seed_in-Over}

module _ (ns mid sender : Text) where
  abbrev Quiet : ReadAcks × Log → Type 0
  Quiet r = Over ns mid sender r.0 × Unsent ns mid sender r.1

  if-Quiet :
      (b : Bool) (x : ReadAcks × Log) (s : ReadAcks)
      → Quiet x
      → Over ns mid sender s
      → Quiet (if b then x else (s, []))
  if-Quiet true x s q h = q
  if-Quiet false x s q h = (h, refl)

  answered-Over :
      (w : World) (m s : Text) (b : Bool) (r : ReadAcks)
      → w.app_namespace ≡ some ns
      → Over ns mid sender r
      → Over ns mid sender (if b then sent w m s true r else r)
  answered-Over w m s true r e h = sent-Over ns mid sender w m s true r e h
  answered-Over w m s false r e h = h

  inbound-Quiet :
      (w : World) (m s : Text) (r : ReadAcks)
      → w.app_namespace ≡ some ns
      → is_receipt mid sender (m, s) ≡ false
      → Over ns mid sender r
      → Quiet (inbound_claimed w m s (claim_in_flight m r) r)
  unfolding claim_in_flight release_in_flight
  inbound-Quiet w m s r e other h = elim (Bool-cases (any (text_eq (trim m)) r.in_flight)) [
    | inl busy ↦ rw busy (h, refl)
    | inr free ↦ rw free (answered-Over w m s (w.answers m s) _ e h, rw other refl)
  ]

  is_trimmed :
      (m s : Text)
      → trim mid ≡ mid
      → text_eq (trim m) mid && text_eq s sender ≡ false
      → is_receipt mid sender (m, s) ≡ false
  is_trimmed m s t e = elim (Bool-cases (text_eq m mid)) [
    | inl same ↦
        ap (λ b. b && text_eq s sender)
          (same ∙ sym ((text_eq_iff (trim m) mid).1 (ap trim ((text_eq_iff m mid).0 same) ∙ t)))
        ∙ e
    | inr other ↦ rw other refl
  ]

  step-Quiet :
      (a : Act) (r : ReadAcks)
      → trim mid ≡ mid
      → Fits ns mid sender a
      → Over ns mid sender r
      → Quiet (step a r)
  unfolding step queue_delivery_read_catchup delivery_read_ack_upkeep try_read_ack_after_inbound
      seed_read_acks_for_sender
  step-Quiet (catches_up w s) r t fits h =
      if-Quiet (w.enabled && w.contacts.is_valid_public_key_hex (normalize s)) _ r
        (drain-Over ns mid sender w true (seed_in w (normalize s) w.app_namespace r) fits
          (seed_in-Over ns mid sender w (normalize s) w.app_namespace r fits h))
        h
  step-Quiet (keeps_up w) r t fits h =
      if-Quiet w.enabled _ r (drain-Over ns mid sender w false r fits h) h
  step-Quiet (takes_in w m s) r t fits h =
      if-Quiet
        (w.enabled && w.contacts.is_valid_public_key_hex (normalize s) && w.may_send (normalize s))
        _ r (inbound-Quiet w m (normalize s) r fits.0 (is_trimmed m (normalize s) t fits.1) h) h

  receipts-Unsent :
      (acts : List Act) (r : ReadAcks)
      → trim mid ≡ mid
      → All (Fits ns mid sender) acts
      → Over ns mid sender r
      → Unsent ns mid sender (receipts acts r)
  unfolding receipts
  receipts-Unsent [] r t fits h = refl
  receipts-Unsent (a ∷ acts) r t fits h =
      let (over, unsent) = step-Quiet a r t fits.0 h in
      append-Unsent ns mid sender (step a r).1 (receipts acts (step a r).0) unsent
        (receipts-Unsent acts (step a r).0 t fits.1 over)

  answer-Over :
      (w : World) (b : Bool) (o : Option Text) (r : ReadAcks)
      → b ≡ true
      → o ≡ some ns
      → trim mid ≡ mid
      → is_empty mid ≡ false
      → normalize sender ≡ sender
      → Gone ns mid sender (keep_if (λ p. not (is_pending mid sender p)) r.pending)
        × Acked ns mid (patch_in w mid o r.store)
  answer-Over w b none r x e t n u = absurd (cc)
  answer-Over w b (some k) r x e t n u = (
    drop-Gone ns mid sender r.pending,
    subst (λ m. Acked ns m (patch_in w mid (some k) r.store)) t
        (subst (λ q. Acked ns (trim mid) (patch_in w mid (some q) r.store)) (sym (some_injective e))
          (patch-Acked w.contacts ns mid r.store (ap is_empty t ∙ n))),
  )

  taken-Over :
      (w : World) (b : Bool) (r : ReadAcks)
      → b ≡ true
      → w.app_namespace ≡ some ns
      → trim mid ≡ mid
      → is_empty mid ≡ false
      → normalize sender ≡ sender
      → Over ns mid sender (sent w mid sender b r)
  unfolding dequeue_pending patch_read_ack_sent
  taken-Over w false r x e t n u = absurd (cc)
  taken-Over w true r x e t n u = rw u (rw t (answer-Over w true w.app_namespace r refl e t n u))

  -- A read receipt that the delivery server took is never sent again: no call of the account after it puts one for the same message and sender on the wire, as long as the message does not come in again.
  pub receipt_once :
      (w : World) (r : ReadAcks) (acts : List Act)
      → trim mid ≡ mid
      → is_empty mid ≡ false
      → normalize sender ≡ sender
      → w.app_namespace ≡ some ns
      → any (text_eq mid) r.in_flight ≡ false
      → w.answers mid sender ≡ true
      → All (Fits ns mid sender) acts
      → any (is_receipt mid sender) (receipts acts (send_inbox_read w mid sender r).0) ≡ false
  unfolding send_inbox_read claim_in_flight release_in_flight
  receipt_once w r acts t n u e free took fits =
      receipts-Unsent acts _ t fits
        (rw t (rw free (taken-Over w (w.answers mid sender) _ took e t n u)))

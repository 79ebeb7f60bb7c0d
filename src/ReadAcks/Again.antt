-- ===== src/ReadAcks/Again.antt =====
-- No read receipt goes out again.
use ghal_bol.Common.{
  ◌≡◌, refl, sym, subst, ap, ◌∙◌, inl, inr, Bool, true, false, not, ◌&&◌, Option, none, some,
  some_injective, List, [], ◌∷◌, ◌++◌, map, any, keep_if, if◌then◌else◌, Text, text_eq, trim,
  normalize, Bool-cases, arith,
}
use ghal_bol.Common.Int.{ℤ}
use ghal_bol.Transcript.Store.{Store}
use ghal_bol.ReadAcks.{
  PendingDeliveryReadAck, ReadAcks, World, Log, is_pending, dequeue_pending, claim_in_flight,
  release_in_flight, patch_in, patch_read_ack_sent, retime, sent, send_inbox_read, attempt,
  queue_delivery_read_catchup, try_read_ack_after_inbound, delivery_read_ack_upkeep,
}
use ghal_bol.ReadAcks.Acked.{Acked, keep-Acked}

-- The calls, each in its world.
pub data Act : Type 0 where
  catches_up : World → Text → Act
  keeps_up : World → Act
  takes_in : World → Text → Text → Act

unfoldable pub step : Act → ReadAcks → ReadAcks × Log
step (catches_up w sender_pk) s = queue_delivery_read_catchup w sender_pk s
step (keeps_up w) s = delivery_read_ack_upkeep w s
step (takes_in w message_id sender) s = try_read_ack_after_inbound w message_id sender s

-- The receipts of the calls, in order.
unfoldable pub receipts : List Act → ReadAcks → Log
receipts [] s = []
receipts (a ∷ acts) s = let (s', log) = step a s in log ++ receipts acts s'

abbrev pub is_receipt : Text → Text → Text × Text → Bool
is_receipt mid sender (m, s) = text_eq m mid && text_eq s sender

-- The account is the same, and the message does not come in again.
abbrev pub Fits : Text → Text → Text → Act → Type 0
Fits ns mid sender (catches_up w sender_pk) = w.app_namespace ≡ some ns
Fits ns mid sender (keeps_up w) = w.app_namespace ≡ some ns
Fits ns mid sender (takes_in w m s) =
    (w.app_namespace ≡ some ns) × (text_eq (trim m) mid && text_eq (normalize s) sender ≡ false)

module _ (ns mid sender : Text) where
  abbrev pub Gone : List PendingDeliveryReadAck → Type 0
  Gone ps = any (is_pending mid sender) ps ≡ false

  -- The receipt is over: it does not wait, and the rows of its message are acknowledged.
  abbrev pub Over : ReadAcks → Type 0
  Over s = Gone s.pending × Acked ns mid s.store

  abbrev pub Unsent : Log → Type 0
  Unsent log = any (is_receipt mid sender) log ≡ false

  pub keep-Gone :
      (q : PendingDeliveryReadAck → Bool) (ps : List PendingDeliveryReadAck)
      → Gone ps
      → Gone (keep_if q ps)
  keep-Gone q [] h = h
  keep-Gone q (p ∷ ps) h = ground (arith, h, keep-Gone q ps)

  pub drop-Gone :
      (ps : List PendingDeliveryReadAck) → Gone (keep_if (λ p. not (is_pending mid sender p)) ps)
  drop-Gone [] = refl
  drop-Gone (p ∷ ps) = elim (Bool-cases (is_pending mid sender p)) [
    | inl same ↦ rw same (drop-Gone ps)
    | inr other ↦ rw other (rw other (drop-Gone ps))
  ]

  retime-same :
      (now : ℤ) (m s : Text) (p : PendingDeliveryReadAck)
      → is_pending mid sender (retime now m s p) ≡ is_pending mid sender p
  retime-same now m s p = elim (Bool-cases (is_pending m s p)) [
    | inl same ↦ rw same refl
    | inr other ↦ rw other refl
  ]

  retime-Gone :
      (now : ℤ) (m s : Text) (ps : List PendingDeliveryReadAck)
      → Gone ps
      → Gone (map (retime now m s) ps)
  retime-Gone now m s [] h = h
  retime-Gone now m s (p ∷ ps) h = elim (Bool-cases (is_pending mid sender p)) [
    | inl same ↦ absurd (ground (arith, same, h))
    | inr other ↦ rw (retime-same now m s p ∙ other) (
        retime-Gone now m s ps
          (sym (ap (λ b. if b then true else any (is_pending mid sender) ps) other) ∙ h))
  ]

  pub append-Gone : (ps qs : List PendingDeliveryReadAck) → Gone ps → Gone qs → Gone (ps ++ qs)
  append-Gone [] qs h k = k
  append-Gone (p ∷ ps) qs h k = ground (arith, h, k, append-Gone ps qs)

  pub append-Unsent : (l m : Log) → Unsent l → Unsent m → Unsent (l ++ m)
  append-Unsent [] m h k = k
  append-Unsent (e ∷ l) m h k = ground (arith, h, k, append-Unsent l m)

  pub patched-Acked :
      (w : World) (m : Text) (o : Option Text) (store : Store)
      → o ≡ some ns
      → Acked ns mid store
      → Acked ns mid (patch_in w m o store)
  patched-Acked w m none store e h = absurd (cc)
  patched-Acked w m (some n) store e h =
      subst (λ k. Acked ns mid (patch_in w m (some k) store)) (sym (some_injective e))
        (keep-Acked w.contacts ns mid m store h)

  pub sent-Over :
      (w : World) (m s : Text) (b : Bool) (r : ReadAcks)
      → w.app_namespace ≡ some ns
      → Over r
      → Over (sent w m s b r)
  unfolding dequeue_pending patch_read_ack_sent
  sent-Over w m s true r e h = (
    keep-Gone (λ p. not (is_pending (trim m) (normalize s) p)) r.pending h.0,
    patched-Acked w m w.app_namespace r.store e h.1,
  )
  sent-Over w m s false r e h = (retime-Gone w.now_ms (trim m) s r.pending h.0, h.1)

  pub claimed-Over :
      (w : World) (m s : Text) (r : ReadAcks)
      → w.app_namespace ≡ some ns
      → is_receipt mid sender (m, s) ≡ false
      → Over r
      → Over (send_inbox_read w m s r).0 × Unsent (send_inbox_read w m s r).1
  unfolding send_inbox_read claim_in_flight release_in_flight
  claimed-Over w m s r e other h = elim (Bool-cases (any (text_eq (trim m)) r.in_flight)) [
    | inl busy ↦ rw busy (h, refl)
    | inr free ↦ rw free (sent-Over w m s (w.answers m s) _ e h, rw other refl)
  ]

  pub attempt-Over :
      (w : World) (item : PendingDeliveryReadAck) (r : ReadAcks × Bool)
      → w.app_namespace ≡ some ns
      → is_pending mid sender item ≡ false
      → Over r.0
      → Over (attempt w item r).0 × Unsent (attempt w item r).1
  attempt-Over w item (r, true) e other h =
      claimed-Over w item.message_id item.sender_wire r e other h
  attempt-Over w item (r, false) e other h = (h, refl)

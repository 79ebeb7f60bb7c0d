-- ===== src/Session/Sends/Exact.antt =====
-- What a pass over the acknowledgements sends, and what waits after it.
use ghal_bol.Common.{
  suc, ◌≡◌, refl, sym, ap, ◌∙◌, Bool, true, false, not, ◌&&◌, List, [], ◌∷◌, ◌++◌, any, keep_if,
  map, length, if◌then◌else◌, Text, text_eq, text_eq_iff, arith,
}
use ghal_bol.Session.State.{SessionState, PendingReadAck, PendingDeliveryAck, has}
use ghal_bol.Session.Acks.{
  mark_delivery_ack_sent, dequeue_delivery_ack, delivery_queued, is_read_ack_confirmed,
  mark_read_ack_wire_sent,
}
use ghal_bol.Session.Sends.{
  AckFrame, received_frame, read_frame, Wire, Pass, tried, deliver_item, deliver_items, is_tried,
  read_item, read_items,
}

append_one : (xs ys : List AckFrame) (f : AckFrame) → (xs ++ (f ∷ [])) ++ ys ≡ xs ++ (f ∷ ys)
append_one [] ys f = refl
append_one (x ∷ xs) ys f = ap (λ zs. x ∷ zs) (append_one xs ys f)

pub append_none : (xs : List AckFrame) → xs ≡ xs ++ []
append_none [] = refl
append_none (x ∷ xs) = ap (λ zs. x ∷ zs) (append_none xs)

keep_if-append_one :
    (q : AckFrame → Bool) (xs : List AckFrame) (f : AckFrame)
    → length (keep_if q (xs ++ (f ∷ [])))
      ≡ (if q f then suc (length (keep_if q xs)) else length (keep_if q xs))
keep_if-append_one q [] f = ground arith
keep_if-append_one q (x ∷ xs) f = ground (arith, keep_if-append_one q xs f)

module _ (w : Wire) where
  -- The count is that of the frames that went out.
  abbrev pub Counted : Pass → Type 0
  Counted p = p.done ≡ length (keep_if w.sends p.frames)

  tried-Counted :
      (b : Bool) (f : AckFrame) (p : Pass) → Counted p → Counted (tried b f (w.sends f) p)
  tried-Counted false f p h = h
  tried-Counted true f p h = ground (arith, h, keep_if-append_one w.sends p.frames f)

  tried-frames :
      (b went : Bool) (f : AckFrame) (p : Pass) (rest : List AckFrame)
      → (tried b f went p).frames ++ rest ≡ p.frames ++ (if b then f ∷ rest else rest)
  tried-frames false went f p rest = refl
  tried-frames true went f p rest = append_one p.frames rest f

  tried-session : (b went : Bool) (f : AckFrame) (p : Pass) → (tried b f went p).session ≡ p.session
  tried-session false went f p = refl
  tried-session true went f p = refl

  pub delivered-Counted :
      (items : List PendingDeliveryAck) (p : Pass) → Counted p → Counted (deliver_items w items p)
  unfolding deliver_items
  delivered-Counted [] p h = h
  delivered-Counted (item ∷ items) p h =
      delivered-Counted items (deliver_item w item p)
        (tried-Counted (w.connected item.peer) (received_frame item) _ h)

  pub read-Counted :
      (items : List PendingReadAck) (p : Pass) → Counted p → Counted (read_items w items p)
  unfolding read_items
  read-Counted [] p h = h
  read-Counted (item ∷ items) p h =
      read-Counted items (read_item w item p)
        (tried-Counted (is_tried w p.session item) (read_frame item) _ h)

  kept_frames :
      (b : Bool) (f : AckFrame) (item : PendingDeliveryAck) (items : List PendingDeliveryAck)
      → received_frame item ≡ f
      → (if b then f ∷ map received_frame items else map received_frame items)
        ≡ map received_frame (if b then item ∷ items else items)
  kept_frames true f item items e = ap (λ g. g ∷ map received_frame items) (sym e)
  kept_frames false f item items e = refl

  kept_reads :
      (b : Bool) (item : PendingReadAck) (items : List PendingReadAck)
      → (if b then read_frame item ∷ map read_frame items else map read_frame items)
        ≡ map read_frame (if b then item ∷ items else items)
  kept_reads true item items = refl
  kept_reads false item items = refl

  abbrev pub delivered_to : List PendingDeliveryAck → List AckFrame
  delivered_to items = map received_frame (keep_if (λ i. w.connected i.peer) items)

  pub deliver_items-frames :
      (items : List PendingDeliveryAck) (p : Pass)
      → (deliver_items w items p).frames ≡ p.frames ++ delivered_to items
  unfolding deliver_items
  deliver_items-frames [] p = append_none p.frames
  deliver_items-frames (item ∷ items) p =
      deliver_items-frames items (deliver_item w item p)
      ∙ (tried-frames (w.connected item.peer) (w.sends (received_frame item)) (received_frame item)
            _ (delivered_to items)
          ∙ ap (λ fs. p.frames ++ fs)
              (kept_frames (w.connected item.peer) (received_frame item) item
                (keep_if (λ i. w.connected i.peer) items) refl))

  -- The frame of the item goes out.
  abbrev pub goes_out : PendingDeliveryAck → Bool
  goes_out item = w.connected item.peer && w.sends (received_frame item)

  kept-queued :
      (id x : Text) (q : List PendingDeliveryAck)
      → delivery_queued id (keep_if (λ p. not (text_eq p.inbound_id x)) q)
        ≡ delivery_queued id q && not (text_eq x id)
  kept-queued id x [] = refl
  kept-queued id x (p ∷ q) = grind (
    arith,
    kept-queued id x q,
    text_eq_iff p.inbound_id x,
    text_eq_iff x id,
    text_eq_iff p.inbound_id id,
  )

  -- The frame of the message goes out in the pass over these items.
  abbrev pub is_among : Text → List PendingDeliveryAck → Bool
  is_among id items = any (λ i. goes_out i && text_eq i.inbound_id id) items

  step-queued :
      (id x : Text) (b : Bool) (s : SessionState)
      → delivery_queued id
          (if b
            then dequeue_delivery_ack x (mark_delivery_ack_sent x s)
            else s).pending_delivery_acks
        ≡ delivery_queued id s.pending_delivery_acks && not (b && text_eq x id)
  unfolding dequeue_delivery_ack mark_delivery_ack_sent
  step-queued id x true s = kept-queued id x s.pending_delivery_acks
  step-queued id x false s = ground arith

  and_not : (a b c : Bool) → (a && not b) && not c ≡ a && not (if b then true else c)
  and_not a b c = ground arith

  pub deliver_items-queued :
      (id : Text) (items : List PendingDeliveryAck) (p : Pass)
      → delivery_queued id (deliver_items w items p).session.pending_delivery_acks
        ≡ delivery_queued id p.session.pending_delivery_acks && not (is_among id items)
  unfolding deliver_items
  deliver_items-queued id [] p = ground arith
  deliver_items-queued id (item ∷ items) p =
      let out = goes_out item && text_eq item.inbound_id id in
      deliver_items-queued id items (deliver_item w item p)
      ∙ (ap (λ b. b && not (is_among id items))
            (ap (λ (s : SessionState). delivery_queued id s.pending_delivery_acks)
                (tried-session (w.connected item.peer) (w.sends (received_frame item))
                  (received_frame item) _)
              ∙ step-queued id item.inbound_id (goes_out item) p.session)
          ∙ and_not (delivery_queued id p.session.pending_delivery_acks) out (is_among id items))

  -- The reads of a session.
  abbrev pub Reads : Type 0
  Reads = List PendingReadAck × List Text

  abbrev pub reads_of : SessionState → Reads
  reads_of s = (s.pending_read_acks, s.read_ack_confirmed)

  step-reads :
      (x : Text) (b : Bool) (s : SessionState)
      → reads_of (if b then dequeue_delivery_ack x (mark_delivery_ack_sent x s) else s) ≡ reads_of s
  unfolding dequeue_delivery_ack mark_delivery_ack_sent
  step-reads x true s = refl
  step-reads x false s = refl

  pub deliver_items-reads :
      (items : List PendingDeliveryAck) (p : Pass)
      → reads_of (deliver_items w items p).session ≡ reads_of p.session
  unfolding deliver_items
  deliver_items-reads [] p = refl
  deliver_items-reads (item ∷ items) p =
      deliver_items-reads items (deliver_item w item p)
      ∙ (ap reads_of (
            tried-session (w.connected item.peer) (w.sends (received_frame item))
              (received_frame item) _)
          ∙ step-reads item.inbound_id (goes_out item) p.session)

  -- What a pass over reads leaves alone.
  abbrev pub Rest : Type 0
  Rest = List PendingDeliveryAck × List Text

  abbrev pub rest_of : SessionState → Rest
  rest_of s = (s.pending_delivery_acks, s.read_ack_confirmed)

  step-rest :
      (x : Text) (b : Bool) (s : SessionState)
      → rest_of (if b then mark_read_ack_wire_sent x w.now_ms s else s) ≡ rest_of s
  unfolding mark_read_ack_wire_sent
  step-rest x true s = refl
  step-rest x false s = refl

  read_item-rest :
      (item : PendingReadAck) (p : Pass) → rest_of (read_item w item p).session ≡ rest_of p.session
  read_item-rest item p =
      ap rest_of
        (tried-session (is_tried w p.session item) (w.sends (read_frame item)) (read_frame item) _)
      ∙ step-rest item.inbound_id (is_tried w p.session item && w.sends (read_frame item)) p.session

  pub read_items-rest :
      (items : List PendingReadAck) (p : Pass)
      → rest_of (read_items w items p).session ≡ rest_of p.session
  unfolding read_items
  read_items-rest [] p = refl
  read_items-rest (item ∷ items) p =
      read_items-rest items (read_item w item p) ∙ read_item-rest item p

  abbrev pub reads_to : SessionState → List PendingReadAck → List AckFrame
  reads_to s items = map read_frame (keep_if (is_tried w s) items)

  pub same-tried :
      (s t : SessionState) (items : List PendingReadAck)
      → s.read_ack_confirmed ≡ t.read_ack_confirmed
      → reads_to s items ≡ reads_to t items
  unfolding is_read_ack_confirmed
  same-tried s t items e =
      ap
        (λ c. map read_frame (
          keep_if
            (λ item.
              w.connected item.peer
              && not (
                  not (w.may_send_in_room_read_ack item.peer)
                  && w.is_live_foreground_peer item.peer)
              && not (has item.inbound_id c))
            items))
        e

  pub read_items-frames :
      (items : List PendingReadAck) (p : Pass)
      → (read_items w items p).frames ≡ p.frames ++ reads_to p.session items
  unfolding read_items
  read_items-frames [] p = append_none p.frames
  read_items-frames (item ∷ items) p =
      read_items-frames items (read_item w item p)
      ∙ (ap (λ fs. (read_item w item p).frames ++ fs)
            (same-tried (read_item w item p).session p.session items
              (ap (λ r. r.1) (read_item-rest item p)))
          ∙ (tried-frames (is_tried w p.session item) (w.sends (read_frame item)) (read_frame item)
                _ (reads_to p.session items)
              ∙ ap (λ fs. p.frames ++ fs)
                  (kept_reads (is_tried w p.session item) item
                    (keep_if (is_tried w p.session) items))))

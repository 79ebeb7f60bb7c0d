-- ===== src/Session/Sends.antt =====
-- The passes of ghalbol_core/src/connect/outbox_acks.rs that put acknowledgements and messages of the outbox on
-- the wire. No other task changes the session during a pass.
pub mod Exact
pub mod Upkeep
use ghal_bol.Common.{
  ℕ, zero, suc, ◌+◌, Bool, true, false, not, ◌&&◌, ◌||◌, Option, none, some, List, [], ◌∷◌, ◌++◌,
  any, keep_if, if◌then◌else◌, Text, text_eq, ◌==◌,
}
use ghal_bol.Common.Int.{ℤ, pos, leb_ℤ, saturating_sub}
use ghal_bol.Session.State.{
  SessionPeer, SessionState, PendingOutbound, PendingReadAck, PendingDeliveryAck, is_due,
  outbox_due_for_resend, pending_outbox_for_peer, mark_outbox_sent, mark_outbox_send_failed,
}
use ghal_bol.Session.Acks.{
  is_delivery_ack_sent, mark_delivery_ack_sent, enqueue_delivery_ack, dequeue_delivery_ack,
  delivery_acks_due_for_upkeep, is_read_ack_confirmed, try_claim_read_ack_wire_send,
  mark_read_ack_wire_sent, read_acks_due_for_upkeep, pending_read_ack_len,
}

abbrev pub read_ack_upkeep_max_ops : ℕ
read_ack_upkeep_max_ops = 32

abbrev pub ack_burst_max_rounds : ℕ
ack_burst_max_rounds = 4

abbrev pub ack_burst_max_ops : ℕ
ack_burst_max_ops = 64

pub data AckKind : Type 0 where
  ack_received ack_read : AckKind

-- What `send_ack_frame` builds a frame of.
pub record AckFrame : Type 0 where
  pub peer : SessionPeer
  pub recipient_signing : Text
  pub ref_id : Text
  pub kind : AckKind
  pub received_at_ms : Option ℤ

abbrev pub received_frame : PendingDeliveryAck → AckFrame
received_frame item = record {
  peer = item.peer;
  recipient_signing = item.recipient_public_key_hex;
  ref_id = item.inbound_id;
  kind = ack_received;
  received_at_ms = some item.received_at_ms;
}

abbrev pub read_frame : PendingReadAck → AckFrame
read_frame item = record {
  peer = item.peer;
  recipient_signing = item.recipient_public_key_hex;
  ref_id = item.inbound_id;
  kind = ack_read;
  received_at_ms = none;
}

-- What a pass meets: the peers that are connected, the room that is open, whether it may acknowledge what is
-- read there, the clock, and whether a frame is built and goes out (`send_ack_frame`).
pub record Wire : Type 0 where
  pub connected : SessionPeer → Bool
  pub is_live_foreground_peer : SessionPeer → Bool
  pub may_send_in_room_read_ack : SessionPeer → Bool
  pub now_ms : ℤ
  pub sends : AckFrame → Bool

-- The session, the count of what went out, and the frames that were tried.
pub record Pass : Type 0 where
  pub session : SessionState
  pub done : ℕ
  pub frames : List AckFrame

-- An item that is skipped, or whose frame is tried.
abbrev pub tried : Bool → AckFrame → Bool → Pass → Pass
tried false frame went p = p
tried true frame went p = record p {
  done = if went then suc p.done else p.done;
  frames = p.frames ++ (frame ∷ []);
}

module _ (w : Wire) where
  abbrev pub deliver_item : PendingDeliveryAck → Pass → Pass
  deliver_item item p =
      let goes = w.connected item.peer && w.sends (received_frame item) in
      tried (w.connected item.peer) (received_frame item) (w.sends (received_frame item))
        (record p {
          session =
              if goes
              then dequeue_delivery_ack item.inbound_id
                  (mark_delivery_ack_sent item.inbound_id p.session)
              else p.session;
        })

  unfoldable pub deliver_items : List PendingDeliveryAck → Pass → Pass
  deliver_items [] p = p
  deliver_items (item ∷ items) p = deliver_items items (deliver_item item p)

  -- In the room that is open, only if it may acknowledge; elsewhere what was read before.
  abbrev pub is_tried : SessionState → PendingReadAck → Bool
  is_tried s item =
      w.connected item.peer
      && not (not (w.may_send_in_room_read_ack item.peer) && w.is_live_foreground_peer item.peer)
      && not (is_read_ack_confirmed item.inbound_id s)

  abbrev pub read_item : PendingReadAck → Pass → Pass
  read_item item p =
      let goes = is_tried p.session item && w.sends (read_frame item) in
      tried (is_tried p.session item) (read_frame item) (w.sends (read_frame item)) (record p {
        session =
            if goes then mark_read_ack_wire_sent item.inbound_id w.now_ms p.session else p.session;
      })

  unfoldable pub read_items : List PendingReadAck → Pass → Pass
  read_items [] p = p
  read_items (item ∷ items) p = read_items items (read_item item p)

  unfoldable pub run_ack_upkeep_limited : ℕ → Bool → SessionState → Pass
  run_ack_upkeep_limited limit include_read s =
      let delivered =
        deliver_items (delivery_acks_due_for_upkeep limit s)
          (record { session = s; done = 0; frames = [] }) in
      if include_read
      then read_items (read_acks_due_for_upkeep limit delivered.session) delivered
      else delivered

  unfoldable pub run_ack_upkeep_limited_delivery : SessionState → Pass
  run_ack_upkeep_limited_delivery s = run_ack_upkeep_limited read_ack_upkeep_max_ops false s

  abbrev pub received_now : SessionPeer → Text → Text → ℤ → AckFrame
  received_now peer inbound_id sender_signing at_ms = record {
    peer = peer;
    recipient_signing = sender_signing;
    ref_id = inbound_id;
    kind = ack_received;
    received_at_ms = some at_ms;
  }

  unfoldable pub send_inbound_delivery_ack :
      SessionPeer → Text → Text → SessionState → SessionState × List AckFrame
  send_inbound_delivery_ack peer inbound_id sender_signing s =
      let frame = received_now peer inbound_id sender_signing w.now_ms in
      if is_delivery_ack_sent inbound_id s
      then (s, [])
      else if w.sends frame
      then (dequeue_delivery_ack inbound_id (mark_delivery_ack_sent inbound_id s), frame ∷ [])
      else (enqueue_delivery_ack peer inbound_id sender_signing w.now_ms s, frame ∷ [])

  abbrev pub read_now : SessionPeer → Text → Text → AckFrame
  read_now peer inbound_id sender_signing = record {
    peer = peer;
    recipient_signing = sender_signing;
    ref_id = inbound_id;
    kind = ack_read;
    received_at_ms = none;
  }

  -- `release_read_ack_wire_claim` does nothing.
  abbrev pub read_if_claimed :
      SessionPeer → Text → Text → SessionState × Bool → SessionState × List AckFrame
  read_if_claimed peer inbound_id sender_signing (s, false) = (s, [])
  read_if_claimed peer inbound_id sender_signing (s, true) =
      let frame = read_now peer inbound_id sender_signing in
      (if w.sends frame then mark_read_ack_wire_sent inbound_id w.now_ms s else s, frame ∷ [])

  unfoldable pub send_inbound_read_ack_if_possible :
      SessionPeer → Text → Text → SessionState → SessionState × List AckFrame
  send_inbound_read_ack_if_possible peer inbound_id sender_signing s =
      if is_read_ack_confirmed inbound_id s
      then (s, [])
      else read_if_claimed peer inbound_id sender_signing
          (try_claim_read_ack_wire_send peer inbound_id s)

  -- The rounds of a burst: the next one unless nothing went out and nothing was queued, or the last is done.
  unfoldable pub burst_rounds : ℕ → SessionState → SessionState × List AckFrame
  burst_rounds zero s = (s, [])
  burst_rounds (suc rounds) s =
      let p = run_ack_upkeep_limited ack_burst_max_ops true s in
      let rest = burst_rounds rounds p.session in
      if p.done == 0 && (pending_read_ack_len p.session == pending_read_ack_len s)
      then (p.session, p.frames)
      else (rest.0, p.frames ++ rest.1)

  unfoldable pub run_ack_upkeep_burst : SessionState → SessionState × List AckFrame
  run_ack_upkeep_burst s = burst_rounds ack_burst_max_rounds s

-- ===== src/Session/Acks.antt =====
-- The acknowledgements that `SessionState` of ghalbol_core/src/connect/session.rs queues: that a message was
-- delivered, and that it was read.
pub mod Queues
pub mod Invariant
use ghal_bol.Common.{
  ℕ, ◌+◌, Bool, true, false, not, Option, none, some, List, [], ◌∷◌, ◌++◌, leb, length, take, drop,
  keep_if, any, map, if◌then◌else◌, Text, text_eq, trim, is_empty,
}
use ghal_bol.Common.Int.{ℤ, pos}
use ghal_bol.Session.State.{
  SessionPeer, SessionState, PendingReadAck, PendingDeliveryAck, has, add, discard,
}

abbrev pub ack_queue_max : ℕ
ack_queue_max = 512

-- `pop_front` on a full queue, and `push_back`.
abbrev pub push_bounded {ℓ} : {A : Type ℓ} → A → List A → List A
push_bounded a q = (if leb ack_queue_max (length q) then drop 1 q else q) ++ a ∷ []

unfoldable pub is_delivery_ack_sent : Text → SessionState → Bool
is_delivery_ack_sent id s = has id s.delivery_ack_sent

unfoldable pub mark_delivery_ack_sent : Text → SessionState → SessionState
mark_delivery_ack_sent id s = record s { delivery_ack_sent = add id s.delivery_ack_sent }

unfoldable pub clear_delivery_ack_sent : Text → SessionState → SessionState
clear_delivery_ack_sent id s = record s { delivery_ack_sent = discard id s.delivery_ack_sent }

abbrev pub delivery_queued : Text → List PendingDeliveryAck → Bool
delivery_queued id q = any (λ p. text_eq p.inbound_id id) q

unfoldable pub enqueue_delivery_ack : SessionPeer → Text → Text → ℤ → SessionState → SessionState
enqueue_delivery_ack peer inbound_id recipient_signing received_at_ms s =
    let id = trim inbound_id in
    let ack : PendingDeliveryAck = record {
      peer = peer;
      inbound_id = id;
      recipient_public_key_hex = trim recipient_signing;
      received_at_ms = received_at_ms;
    } in
    if is_empty id
    then s
    else if delivery_queued id s.pending_delivery_acks
    then s
    else record s { pending_delivery_acks = push_bounded ack s.pending_delivery_acks }

unfoldable pub dequeue_delivery_ack : Text → SessionState → SessionState
dequeue_delivery_ack inbound_id s = record s {
  pending_delivery_acks =
      keep_if (λ p. not (text_eq p.inbound_id inbound_id)) s.pending_delivery_acks;
}

unfoldable pub delivery_acks_due_for_upkeep : ℕ → SessionState → List PendingDeliveryAck
delivery_acks_due_for_upkeep limit s = take limit s.pending_delivery_acks

abbrev pub read_queued : Text → List PendingReadAck → Bool
read_queued id q = any (λ p. text_eq p.inbound_id id) q

unfoldable pub has_pending_read_ack : Text → SessionState → Bool
has_pending_read_ack id s = read_queued id s.pending_read_acks

unfoldable pub is_read_ack_confirmed : Text → SessionState → Bool
is_read_ack_confirmed id s = has id s.read_ack_confirmed

unfoldable pub mark_read_ack_confirmed : Text → SessionState → SessionState
mark_read_ack_confirmed id s = record s {
  read_ack_confirmed = add id s.read_ack_confirmed;
  pending_read_acks = keep_if (λ p. not (text_eq p.inbound_id id)) s.pending_read_acks;
}

abbrev pub read_ack_for : SessionPeer → Text → PendingReadAck
read_ack_for peer id = record {
  peer = peer;
  inbound_id = id;
  recipient_public_key_hex = peer;
  last_send_ms = pos 0;
}

unfoldable pub try_claim_read_ack_wire_send :
    SessionPeer → Text → SessionState → SessionState × Bool
try_claim_read_ack_wire_send peer inbound_id s =
    let id = trim inbound_id in
    if is_empty id
    then (s, false)
    else if has id s.read_ack_confirmed
    then (s, false)
    else if read_queued id s.pending_read_acks
    then (s, true)
    else (
      record s { pending_read_acks = push_bounded (read_ack_for peer id) s.pending_read_acks },
      true,
    )

unfoldable pub mark_read_ack_wire_sent : Text → ℤ → SessionState → SessionState
mark_read_ack_wire_sent inbound_id now_ms s = record s {
  pending_read_acks =
      map (λ p. if text_eq p.inbound_id inbound_id then record p { last_send_ms = now_ms } else p)
        s.pending_read_acks;
}

unfoldable pub enqueue_read_ack_backlog : SessionPeer → Text → SessionState → SessionState × Bool
enqueue_read_ack_backlog peer inbound_id s =
    let id = trim inbound_id in
    let s' = record s { read_ack_confirmed = discard id s.read_ack_confirmed } in
    if is_empty id
    then (s, false)
    else if read_queued id s.pending_read_acks
    then (s', false)
    else (
      record s' { pending_read_acks = push_bounded (read_ack_for peer id) s.pending_read_acks },
      true,
    )

unfoldable pub has_pending_read_acks_for : SessionPeer → SessionState → Bool
has_pending_read_acks_for peer s = any (λ p. text_eq p.peer peer) s.pending_read_acks

unfoldable pub pending_read_ack_len : SessionState → ℕ
pending_read_ack_len s = length s.pending_read_acks

unfoldable pub read_acks_due_for_upkeep : ℕ → SessionState → List PendingReadAck
read_acks_due_for_upkeep limit s = take limit s.pending_read_acks

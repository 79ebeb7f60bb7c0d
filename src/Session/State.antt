-- ===== src/Session/State.antt =====
-- `SessionState` of ghalbol_core/src/connect/session.rs, with the rows of types.rs. Its locks are never
-- poisoned; a hash set is a list without repetition. The contents of a message, the running calls and the
-- keys of the transport, which these operations do not look at, are left out.
pub mod Outbox
pub mod Seen
use ghal_bol.Common.{
  ℕ, ◌+◌, ◌-◌, ◌≤◌, Bool, true, false, not, ◌&&◌, ◌||◌, Option, none, some, List, [], ◌∷◌, ltb, leb,
  length, keep_if, any, if◌then◌else◌, Text, text_eq, eq_of_text, trim, is_empty, map,
}
use ghal_bol.Common.Int.{ℤ, pos, leb_ℤ, ltb_ℤ, saturating_sub}
use ghal_bol.Common.Map
use ghal_bol.Common.Map.{Map, retain}
use ghal_bol.Call.Signal.{CallSigKind}

abbrev pub outbox_resend_interval_ms : ℕ
outbox_resend_interval_ms = 1000

abbrev pub seen_inbound_max : ℕ
seen_inbound_max = 2048

abbrev pub SessionPeer : Type 0
SessionPeer = Text

pub record PendingOutbound : Type 0 where
  pub message_id : Text
  pub peer : SessionPeer
  pub created_at_ms : ℤ
  pub last_send_ms : ℤ
  pub first_on_wire_ms : ℤ
  pub on_wire : Bool

pub record PendingReadAck : Type 0 where
  pub peer : SessionPeer
  pub inbound_id : Text
  pub recipient_public_key_hex : Text
  pub last_send_ms : ℤ

pub record PendingDeliveryAck : Type 0 where
  pub peer : SessionPeer
  pub inbound_id : Text
  pub recipient_public_key_hex : Text
  pub received_at_ms : ℤ

pub record PendingCallSignal : Type 0 where
  pub call_id : Text
  pub signal_id : Text
  pub signal_kind : CallSigKind
  pub peer : SessionPeer
  pub recipient_public_key_hex : Text
  pub created_at_ms : ℤ

pub record SessionState : Type 0 where
  pub outbox : Map Text PendingOutbound
  pub outbound_ack_pending_poll : List Text
  pub seen_inbound_ids : Map Text ℤ
  pub pending_read_acks : List PendingReadAck
  pub pending_delivery_acks : List PendingDeliveryAck
  pub pending_call_signals : List PendingCallSignal
  pub read_ack_confirmed : List Text
  pub delivery_ack_sent : List Text

abbrev pub new : SessionState
new = record {
  outbox = [];
  outbound_ack_pending_poll = [];
  seen_inbound_ids = [];
  pending_read_acks = [];
  pending_delivery_acks = [];
  pending_call_signals = [];
  read_ack_confirmed = [];
  delivery_ack_sent = [];
}

-- `HashSet::contains`, `insert` and `remove`.
unfoldable pub has : Text → List Text → Bool
has id ids = any (λ x. text_eq x id) ids

unfoldable pub add : Text → List Text → List Text
add id ids = if has id ids then ids else id ∷ ids

unfoldable pub discard : Text → List Text → List Text
discard id ids = keep_if (λ x. not (text_eq x id)) ids

abbrev pub track_outbound : PendingOutbound → SessionState → SessionState
track_outbound row s = record s { outbox = Map.insert row.message_id row s.outbox }

unfoldable pub pending_outbox_for_peer : SessionPeer → SessionState → List PendingOutbound
pending_outbox_for_peer peer s = keep_if (λ r. text_eq r.peer peer) (map (λ b. b.1) s.outbox)

unfoldable pub finalize_outbound_ack : Text → SessionState → SessionState
finalize_outbound_ack message_id s =
    let id = trim message_id in
    if is_empty id then s else record s {
      outbox = Map.remove id s.outbox;
      outbound_ack_pending_poll = add id s.outbound_ack_pending_poll;
    }

abbrev pub sent_now : ℤ → PendingOutbound → PendingOutbound
sent_now now_ms p =
    if p.on_wire
    then record p { last_send_ms = now_ms }
    else record p { on_wire = true; first_on_wire_ms = now_ms; last_send_ms = now_ms }

abbrev pub sent_row : Text → ℤ → Option PendingOutbound → SessionState → SessionState × Bool
sent_row message_id now_ms none s = (s, false)
sent_row message_id now_ms (some p) s =
    (record s { outbox = Map.insert message_id (sent_now now_ms p) s.outbox }, not p.on_wire)

unfoldable pub mark_outbox_sent : Text → ℤ → SessionState → SessionState × Bool
mark_outbox_sent message_id now_ms s = sent_row message_id now_ms (Map.get message_id s.outbox) s

abbrev pub failed_row : Text → ℤ → Option PendingOutbound → SessionState → SessionState
failed_row message_id now_ms none s = s
failed_row message_id now_ms (some p) s = record s {
  outbox =
      Map.insert message_id
        (record p { on_wire = false; first_on_wire_ms = pos 0; last_send_ms = now_ms }) s.outbox;
}

unfoldable pub mark_outbox_send_failed : Text → ℤ → SessionState → SessionState
mark_outbox_send_failed message_id now_ms s =
    failed_row message_id now_ms (Map.get message_id s.outbox) s

abbrev pub is_due : ℤ → PendingOutbound → Bool
is_due now_ms p =
    not p.on_wire || leb_ℤ (pos outbox_resend_interval_ms) (saturating_sub now_ms p.last_send_ms)

unfoldable pub outbox_due_for_resend : ℤ → SessionState → List PendingOutbound
outbox_due_for_resend now_ms s = keep_if (is_due now_ms) (map (λ b. b.1) s.outbox)

-- `min_by_key`: the first of the bindings with the least time.
abbrev pub oldest_from : Text → ℤ → Map Text ℤ → Text
oldest_from id t [] = id
oldest_from id t ((j, u) ∷ m) = if ltb_ℤ u t then oldest_from j u m else oldest_from id t m

unfoldable pub drop_oldest : Map Text ℤ → Map Text ℤ
drop_oldest [] = []
drop_oldest ((id, t) ∷ m) = Map.remove (oldest_from id t m) ((id, t) ∷ m)

unfoldable pub mark_seen_inbound : Text → ℤ → SessionState → SessionState × Bool
mark_seen_inbound id now_ms s =
    let seen = Map.insert id now_ms s.seen_inbound_ids in
    if Map.contains id s.seen_inbound_ids
    then (s, false)
    else if ltb seen_inbound_max (length seen)
    then (record s { seen_inbound_ids = drop_oldest seen }, true)
    else (record s { seen_inbound_ids = seen }, true)

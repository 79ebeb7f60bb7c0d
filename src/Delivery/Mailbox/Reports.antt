-- ===== src/Delivery/Mailbox/Reports.antt =====
-- The reports on a mailbox: `list_outbox` and `aggregate_health` of ghalbol_delivery/src/store.rs, and
-- `collect_stats` of ghalbol_delivery/src/mailbox_ops.rs.
use ghal_bol.Common.{
  ℕ, ◌-◌, ◌/◌, min, Bool, Option, none, some, List, [], ◌∷◌, leb, length, if◌then◌else◌, Text,
  text_eq,
}
use ghal_bol.Common.Int.{ℤ}
use ghal_bol.Delivery.Mailbox.{
  MailState, is_queued, is_delivered, is_expired, Key, Row, Table, MailboxStore, select, sum_bytes,
  queued_by,
}

pub record MailboxRow : Type 0 where
  pub message_id : Text
  pub recipient_wire : Text
  pub size_bytes : ℕ
  pub uploaded_at_ms : ℕ
  pub expires_at_ms : ℤ
  pub state : MailState

abbrev pub mailbox_row : Key × Row → MailboxRow
mailbox_row b = record {
  message_id = b.0.1;
  recipient_wire = b.1.recipient_wire;
  size_bytes = b.1.size_bytes;
  uploaded_at_ms = b.1.uploaded_at_ms;
  expires_at_ms = b.1.expires_at_ms;
  state = b.1.state;
}

-- ORDER BY uploaded_at_ms DESC: the place of a row among rows in that order.
unfoldable pub place : MailboxRow → List MailboxRow → List MailboxRow
place r [] = r ∷ []
place r (q ∷ qs) = if leb q.uploaded_at_ms r.uploaded_at_ms then r ∷ q ∷ qs else q ∷ place r qs

unfoldable pub order_by_upload : List (Key × Row) → List MailboxRow
order_by_upload [] = []
order_by_upload (b ∷ t) = place (mailbox_row b) (order_by_upload t)

abbrev pub sent_by : Text → Key → Row → Bool
sent_by sender_wire k r = text_eq k.0 sender_wire

unfoldable pub list_outbox : Text → Bool → MailboxStore → List MailboxRow
list_outbox sender_wire include_expired s = order_by_upload (
    if include_expired
    then select (sent_by sender_wire) s.conn
    else select (queued_by sender_wire) s.conn)

pub record HealthMetrics : Type 0 where
  pub connected_peers : ℕ
  pub pending_messages : ℕ
  pub pending_bytes : ℕ
  pub oldest_pending_age_secs : ℕ

abbrev pub waiting : Key → Row → Bool
waiting k r = is_queued r.state

-- MIN(uploaded_at_ms); it is NULL of no row.
unfoldable pub oldest : Table → Option ℕ
oldest [] = none
oldest ((k, r) ∷ t) = elim (oldest t) [
  | none ↦ some r.uploaded_at_ms
  | some m ↦ some (min r.uploaded_at_ms m)
]

abbrev pub age_secs : ℕ → Option ℕ → ℕ
age_secs now none = 0
age_secs now (some t) = (now - t) / 1000

unfoldable pub aggregate_health : ℕ → ℕ → MailboxStore → HealthMetrics
aggregate_health now connected_peers s = record {
  connected_peers = connected_peers;
  pending_messages = length (select waiting s.conn);
  pending_bytes = sum_bytes waiting s.conn;
  oldest_pending_age_secs = age_secs now (oldest (select waiting s.conn));
}

pub record MailboxStats : Type 0 where
  pub queued_count : ℕ
  pub queued_bytes : ℕ
  pub delivered_count : ℕ
  pub expired_count : ℕ
  pub total_rows : ℕ

unfoldable pub collect_stats : Table → MailboxStats
collect_stats t = record {
  queued_count = length (select waiting t);
  queued_bytes = sum_bytes waiting t;
  delivered_count = length (select (λ k r. is_delivered r.state) t);
  expired_count = length (select (λ k r. is_expired r.state) t);
  total_rows = length t;
}

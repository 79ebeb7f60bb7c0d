-- ===== src/Delivery/Mailbox/Acks.antt =====
-- `ack_deliver` and `ack_read` of ghalbol_delivery/src/store.rs.
use ghal_bol.Common.{
  ℕ, Bool, true, false, ◌&&◌, Option, none, some, if◌then◌else◌, Result, ok, err, Text, text_eq,
}
use ghal_bol.Delivery.Error.{DeliveryError, bad_request, forbidden, not_found}
use ghal_bol.Delivery.Mailbox.{
  MailState, delivered, read, is_queued, is_delivered, Key, Row, MailboxStore, update, query_row,
}

-- `recipient_wire = ?1 AND message_id = ?2`.
abbrev pub addressed : Text → Text → Key → Row → Bool
addressed recipient_wire message_id k r =
    text_eq r.recipient_wire recipient_wire && text_eq k.1 message_id

abbrev pub queued_for : Text → Text → Key → Row → Bool
queued_for recipient_wire message_id k r =
    addressed recipient_wire message_id k r && is_queued r.state

-- The row of the three.
abbrev pub addressed_from : Text → Text → Text → Key → Row → Bool
addressed_from recipient_wire message_id sender_wire k r =
    addressed recipient_wire message_id k r && text_eq k.0 sender_wire

abbrev pub set_delivered : ℕ → Row → Row
set_delivered now r = record r {
  state = delivered;
  envelope_blob = none;
  delivered_at_ms = some now;
}

abbrev pub set_read : ℕ → Row → Row
set_read now r = record r { state = read; read_at_ms = some now }

abbrev pub deliver_found :
    ℕ
    → Text
    → Text
    → Text
    → Option (Key × Row)
    → MailboxStore
    → MailboxStore × Result DeliveryError Text
deliver_found now recipient_wire message_id sender_wire none s = (s, err not_found)
deliver_found now recipient_wire message_id sender_wire (some (k, r)) s =
    if text_eq k.0 sender_wire
    then (
      record s {
        conn =
            update (addressed_from recipient_wire message_id sender_wire) (set_delivered now)
              s.conn;
      },
      ok sender_wire,
    )
    else (s, err forbidden)

unfoldable pub ack_deliver :
    ℕ → Text → Text → Text → MailboxStore → MailboxStore × Result DeliveryError Text
ack_deliver now recipient_wire message_id sender_wire s =
    deliver_found now recipient_wire message_id sender_wire
      (query_row (queued_for recipient_wire message_id) s.conn) s

abbrev pub is_read : MailState → Bool
is_read read = true
is_read _ = false

abbrev pub read_found :
    ℕ
    → Text
    → Text
    → Text
    → Option (Key × Row)
    → MailboxStore
    → MailboxStore × Result DeliveryError Text
read_found now recipient_wire message_id sender_wire none s = (s, err not_found)
read_found now recipient_wire message_id sender_wire (some (k, r)) s =
    if text_eq k.0 sender_wire
    then if is_read r.state
      then (s, ok sender_wire)
      else if is_delivered r.state
      then (
        record s {
          conn =
              update (addressed_from recipient_wire message_id sender_wire) (set_read now) s.conn;
        },
        ok sender_wire,
      )
      else (s, err bad_request)
    else (s, err forbidden)

unfoldable pub ack_read :
    ℕ → Text → Text → Text → MailboxStore → MailboxStore × Result DeliveryError Text
ack_read now recipient_wire message_id sender_wire s =
    read_found now recipient_wire message_id sender_wire
      (query_row (addressed recipient_wire message_id) s.conn) s

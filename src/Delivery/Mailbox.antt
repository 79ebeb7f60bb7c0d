-- ===== src/Delivery/Mailbox.antt =====
-- ghalbol_delivery/src/store.rs and the merge of mailbox_ops.rs: the table `pending_messages`, with its
-- primary key (sender_wire, message_id). The rows of a query that has no ORDER BY come in the order of the table.
pub mod Acks
pub mod Sweep
pub mod Rows
pub mod Run
pub mod Invariant
pub mod Steps
pub mod Reach
pub mod Swept
pub mod Lifecycle
pub mod Waits
pub mod Handover
pub mod Handed
pub mod Reports
pub mod Import
use ghal_bol.Common.{
  ℕ, ◌+◌, ◌-◌, ◌/◌, ◌≤◌, min, Bool, true, false, not, ◌&&◌, ◌||◌, Option, none, some, List, [], ◌∷◌,
  ◌++◌, map, ltb, leb, length, keep_if, any, if◌then◌else◌, Result, ok, err, Text, text_eq,
  eq_of_text, eq_of_texts, texts_eq,
}
use ghal_bol.Common.Int.{ℤ, pos, leb_ℤ, ltb_ℤ, min_ℤ}
use ghal_bol.Common.Map
use ghal_bol.Common.Map.{Map}
use ghal_bol.Delivery.Error.{
  DeliveryError, bad_request, forbidden, not_found, quota_exceeded, ttl_invalid, message_expired,
}
use ghal_bol.Delivery.Policy.{PolicyLimits, later_by, max_expires_at_ms}

-- The values of the column `state`.
pub data MailState : Type 0 where
  queued delivered read expired : MailState

abbrev pub is_queued : MailState → Bool
is_queued queued = true
is_queued _ = false

abbrev pub is_delivered : MailState → Bool
is_delivered delivered = true
is_delivered _ = false

abbrev pub is_expired : MailState → Bool
is_expired expired = true
is_expired _ = false

-- The sender and the id of a message.
abbrev pub Key : Type 0
Key = Text × Text

pub record Row : Type 0 where
  pub recipient_wire : Text
  pub envelope_blob : Option Text
  pub size_bytes : ℕ
  pub uploaded_at_ms : ℕ
  pub expires_at_ms : ℤ
  pub state : MailState
  pub delivered_at_ms : Option ℕ
  pub expired_at_ms : Option ℕ
  pub read_at_ms : Option ℕ

abbrev pub Table : Type 0
Table = Map Key Row

-- UPDATE … WHERE.
unfoldable pub update : (Key → Row → Bool) → (Row → Row) → Table → Table
update p f [] = []
update p f ((k, r) ∷ t) = (k, if p k r then f r else r) ∷ update p f t

-- SELECT … WHERE.
unfoldable pub select : (Key → Row → Bool) → Table → Table
select p t = keep_if (λ b. p b.0 b.1) t

-- The row that `query_row` reads.
unfoldable pub query_row : (Key → Row → Bool) → Table → Option (Key × Row)
query_row p [] = none
query_row p ((k, r) ∷ t) = if p k r then some (k, r) else query_row p t

-- SUM(size_bytes).
unfoldable pub sum_bytes : (Key → Row → Bool) → Table → ℕ
sum_bytes p [] = 0
sum_bytes p ((k, r) ∷ t) = (if p k r then r.size_bytes else 0) + sum_bytes p t

abbrev pub queued_by : Text → Key → Row → Bool
queued_by sender_wire k r = text_eq k.0 sender_wire && is_queued r.state

pub record ValidatedEnvelope : Type 0 where
  pub message_id : Text
  pub sender_wire : Text
  pub recipient_wire : Text
  pub envelope_blob : Text
  pub size_bytes : ℕ

pub record QuotaStatus : Type 0 where
  pub allocated_bytes : ℤ
  pub used_bytes : ℕ
  pub pending_count : ℕ

pub record MailboxStore : Type 0 where
  pub conn : Table
  pub quota_per_peer : ℤ

unfoldable pub used_bytes : Text → Table → ℕ
used_bytes sender_wire t = sum_bytes (queued_by sender_wire) t

unfoldable pub quota_status : Text → MailboxStore → QuotaStatus
quota_status sender_wire s = record {
  allocated_bytes = s.quota_per_peer;
  used_bytes = used_bytes sender_wire s.conn;
  pending_count = length (select (queued_by sender_wire) s.conn);
}

-- What the table keeps of a message that is uploaded: INSERT OR REPLACE, and INSERT.
abbrev pub new_row : ValidatedEnvelope → ℕ → ℤ → Row
new_row env now expires_at = record {
  recipient_wire = env.recipient_wire;
  envelope_blob = some env.envelope_blob;
  size_bytes = env.size_bytes;
  uploaded_at_ms = now;
  expires_at_ms = expires_at;
  state = queued;
  delivered_at_ms = none;
  expired_at_ms = none;
  read_at_ms = none;
}

-- The UPDATE of a row that is queued; it does not touch `read_at_ms`.
abbrev pub requeue : ValidatedEnvelope → ℕ → ℤ → Row → Row
requeue env now expires_at r = record (new_row env now expires_at) { read_at_ms = r.read_at_ms }

abbrev pub is_queued_row : Option Row → Bool
is_queued_row none = false
is_queued_row (some r) = is_queued r.state

abbrev pub replaced_bytes : Option Row → ℕ
replaced_bytes none = 0
replaced_bytes (some r) = if is_queued r.state then r.size_bytes else 0

-- The row that an upload leaves, by the row that is there.
abbrev pub uploaded_row : Option Row → ValidatedEnvelope → ℕ → ℤ → Row
uploaded_row none env now expires_at = new_row env now expires_at
uploaded_row (some r) env now expires_at =
    if is_queued r.state then requeue env now expires_at r else new_row env now expires_at

unfoldable pub upload :
    PolicyLimits
    → ℕ
    → ValidatedEnvelope
    → ℕ
    → MailboxStore
    → MailboxStore × Result DeliveryError (QuotaStatus × Bool)
upload policy now env ttl_secs s =
    let k : Key = (env.sender_wire, env.message_id) in
    let expires_at = min_ℤ (later_by now ttl_secs) (max_expires_at_ms policy now) in
    let existing = Map.get k s.conn in
    let new_used = used_bytes env.sender_wire s.conn - replaced_bytes existing + env.size_bytes in
    let s' = record s { conn = Map.insert k (uploaded_row existing env now expires_at) s.conn } in
    if ltb_ℤ s.quota_per_peer (pos new_used)
    then (s, err quota_exceeded)
    else (s', ok (quota_status env.sender_wire s', is_queued_row existing))

abbrev pub extended :
    PolicyLimits → ℕ → ℕ → Key → Row → MailboxStore → MailboxStore × Result DeliveryError Row
extended policy now extend_secs k r s =
    let new_expires =
      min_ℤ (later_by now extend_secs) (max_expires_at_ms policy r.uploaded_at_ms) in
    if leb_ℤ new_expires r.expires_at_ms then (s, err ttl_invalid) else (
      record s {
        conn = update (λ j q. texts_eq j k) (λ q. record q { expires_at_ms = new_expires }) s.conn;
      },
      ok (record r { expires_at_ms = new_expires }),
    )

-- By the state of the row.
abbrev pub extend_row :
    PolicyLimits → ℕ → ℕ → Key → Option Row → MailboxStore → MailboxStore × Result DeliveryError Row
extend_row policy now extend_secs k none s = (s, err not_found)
extend_row policy now extend_secs k (some r) s =
    if is_queued r.state
    then extended policy now extend_secs k r s
    else if is_expired r.state
    then (s, err message_expired)
    else (s, err bad_request)

unfoldable pub extend_ttl :
    PolicyLimits → ℕ → Text → Text → ℕ → MailboxStore → MailboxStore × Result DeliveryError Row
extend_ttl policy now sender_wire message_id extend_secs s =
    let k : Key = (sender_wire, message_id) in
    extend_row policy now extend_secs k (Map.get k s.conn) s

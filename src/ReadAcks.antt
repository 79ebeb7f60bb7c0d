-- ===== src/ReadAcks.antt =====
-- The read receipts of messages from the delivery server: ghalbol_core/src/delivery_read_acks.rs, over the
-- transcript. The time stands still during a call, and calls do not overlap.
pub mod Acked
pub mod Again
pub mod Once
pub mod Receipts
mod Tests
use ghal_bol.Common.{
  ℕ, Bool, true, false, not, ◌&&◌, ◌||◌, Option, none, some, List, [], ◌∷◌, ◌++◌, any, keep_if, map,
  if◌then◌else◌, Text, text_eq, trim, normalize, is_empty,
}
use ghal_bol.Common.Int.{ℤ, pos, leb_ℤ, ltb_ℤ, saturating_sub}
use ghal_bol.Transcript.Line.{StoredChatLine, or_empty}
use ghal_bol.Transcript.Order.{mid_of}
use ghal_bol.Transcript.Keys.{Contacts}
use ghal_bol.Transcript.Store.{Store, load_merged, patch_inbound_read_ack_sent}

pub record PendingDeliveryReadAck : Type 0 where
  pub message_id : Text
  pub sender_wire : Text
  pub queued_at_ms : ℤ

pub record ReadAcks : Type 0 where
  pub pending : List PendingDeliveryReadAck
  pub in_flight : List Text
  pub store : Store

-- What a call meets: the address book, the account, the read gate (`may_send_read_ack_for_contact_pk`), the
-- clocks of the room and the contacts, whether there is a delivery server, and its answers to `inbox.read`.
pub record World : Type 0 where
  pub contacts : Contacts
  pub app_namespace : Option Text
  pub may_send : Text → Bool
  pub session_at_ms : ℤ
  pub exit_at_ms : Text → Option ℤ
  pub now_ms : ℤ
  pub enabled : Bool
  pub has_url : Bool
  pub answers : Text → Text → Bool

-- The closure `push` of `inbound_transcript_lookup_keys`.
abbrev pub push_key : Text → List Text → List Text
push_key k keys =
    let t = trim k in
    if not (is_empty t) && not (any (text_eq t) keys) then keys ++ (t ∷ []) else keys

abbrev pub push_some : Option Text → List Text → List Text
push_some none keys = keys
push_some (some k) keys = push_key k keys

module _ (w : World) where
  -- `inbound_transcript_lookup_keys` with the sender for all three keys. A contact has its key for a name.
  unfoldable pub lookup_keys_for_sender : Text → List Text
  lookup_keys_for_sender pk =
      let named = push_key pk [] in
      let own = if w.contacts.is_valid_public_key_hex pk then push_key pk named else named in
      let wire = if is_empty pk then own else push_key pk own in
      push_some (w.contacts.find_by_peer_id pk) (push_some (w.contacts.find_by_public_key pk) wire)

  unfoldable pub read_ack_cutoff_ms : Text → ℤ
  read_ack_cutoff_ms sender_pk =
      if w.may_send sender_pk
      then if ltb_ℤ (pos 0) w.session_at_ms then w.session_at_ms else w.now_ms
      else elim w.app_namespace [
        | none ↦ w.now_ms
        | some ns ↦ elim (w.exit_at_ms sender_pk) [
          | none ↦ w.now_ms
          | some t ↦ if ltb_ℤ (pos 0) t then t else w.now_ms
        ]
      ]

abbrev pub inbound_received_at_for_row : StoredChatLine → Option ℤ
inbound_received_at_for_row row = elim row.received_at_ms [
  | none ↦ row.created_at_ms
  | some t ↦ some t
]

abbrev pub is_pending : Text → Text → PendingDeliveryReadAck → Bool
is_pending mid sender p = text_eq p.message_id mid && text_eq p.sender_wire sender

unfoldable pub enqueue_pending : World → Text → Text → ReadAcks → ReadAcks
enqueue_pending w message_id sender_wire s =
    let mid = trim message_id in
    let sender = normalize sender_wire in
    if is_empty mid || not (w.contacts.is_valid_public_key_hex sender)
    then s
    else if any (is_pending mid sender) s.pending
    then s
    else record s {
      pending =
          s.pending
          ++ (record { message_id = mid; sender_wire = sender; queued_at_ms = w.now_ms } ∷ []);
    }

unfoldable pub dequeue_pending : Text → Text → ReadAcks → ReadAcks
dequeue_pending message_id sender_wire s =
    let mid = trim message_id in
    let sender = normalize sender_wire in
    record s { pending = keep_if (λ p. not (is_pending mid sender p)) s.pending }

-- `none`: another task sends it.
unfoldable pub claim_in_flight : Text → ReadAcks → Option ReadAcks
claim_in_flight message_id s =
    if any (text_eq (trim message_id)) s.in_flight
    then none
    else some (record s { in_flight = trim message_id ∷ s.in_flight })

unfoldable pub release_in_flight : Text → ReadAcks → ReadAcks
release_in_flight message_id s = record s {
  in_flight = keep_if (λ i. not (text_eq i (trim message_id))) s.in_flight;
}

abbrev pub patch_in : World → Text → Option Text → Store → Store
patch_in w message_id none store = store
patch_in w message_id (some ns) store =
    (patch_inbound_read_ack_sent w.contacts ns message_id store).0

unfoldable pub patch_read_ack_sent : World → Text → ReadAcks → ReadAcks
patch_read_ack_sent w message_id s = record s {
  store = patch_in w message_id w.app_namespace s.store;
}

-- The rows that wait for the server again.
abbrev pub retime : ℤ → Text → Text → PendingDeliveryReadAck → PendingDeliveryReadAck
retime now mid sender p = if is_pending mid sender p then record p { queued_at_ms = now } else p

abbrev pub sent : World → Text → Text → Bool → ReadAcks → ReadAcks
sent w message_id sender_pk true s =
    dequeue_pending message_id sender_pk (patch_read_ack_sent w message_id s)
sent w message_id sender_pk false s = record s {
  pending = map (retime w.now_ms (trim message_id) sender_pk) s.pending;
}

-- The receipts that go on the wire stand beside the state.
abbrev pub Log : Type 0
Log = List (Text × Text)

abbrev pub send_claimed : World → Text → Text → Option ReadAcks → ReadAcks → ReadAcks × Log
send_claimed w message_id sender_pk none s = (s, [])
send_claimed w message_id sender_pk (some claimed) s = (
  sent w message_id sender_pk (w.answers message_id sender_pk)
      (release_in_flight message_id claimed),
  (message_id, sender_pk) ∷ [],
)

unfoldable pub send_inbox_read : World → Text → Text → ReadAcks → ReadAcks × Log
send_inbox_read w message_id sender_pk s =
    send_claimed w message_id sender_pk (claim_in_flight message_id s) s

-- `message_id.as_deref().map(str::trim) == Some(message_id.trim())`.
abbrev pub has_id : Text → Option Text → Bool
has_id mid none = false
has_id mid (some i) = text_eq (trim i) (trim mid)

abbrev pub rows_for : World → Text → Text → ReadAcks → List StoredChatLine
rows_for w ns sender_pk s =
    load_merged w.contacts ns (lookup_keys_for_sender w sender_pk) none s.store

unfoldable pub patch_already_sent : World → Text → Text → Text → ReadAcks → Bool
patch_already_sent w ns sender_pk message_id s =
    any (λ r. not r.outgoing && r.read_ack_sent && has_id message_id r.message_id)
      (rows_for w ns sender_pk s)

abbrev pub is_before : ℤ → Option ℤ → Bool
is_before cutoff_ms none = false
is_before cutoff_ms (some t) = leb_ℤ t cutoff_ms

unfoldable pub row_eligible_for_leave_read : World → Text → Text → Text → ℤ → ReadAcks → Bool
row_eligible_for_leave_read w ns sender_pk message_id cutoff_ms s =
    any
      (λ r.
        not (r.outgoing || r.read_ack_sent)
        && has_id message_id r.message_id
        && is_before cutoff_ms (inbound_received_at_for_row r))
      (rows_for w ns sender_pk s)

abbrev pub should_attempt_in : World → Text → Text → Option Text → ReadAcks → ReadAcks × Bool
should_attempt_in w sender_pk message_id none s = (s, false)
should_attempt_in w sender_pk message_id (some ns) s =
    if patch_already_sent w ns sender_pk message_id s
    then (dequeue_pending message_id sender_pk s, false)
    else if w.may_send sender_pk
    then (s, true)
    else (
      s,
      row_eligible_for_leave_read w ns sender_pk message_id (read_ack_cutoff_ms w sender_pk) s,
    )

unfoldable pub should_attempt_read_ack : World → Text → Text → ReadAcks → ReadAcks × Bool
should_attempt_read_ack w sender_pk message_id s =
    should_attempt_in w sender_pk message_id w.app_namespace s

abbrev pub attempt : World → PendingDeliveryReadAck → ReadAcks × Bool → ReadAcks × Log
attempt w item (s, true) = send_inbox_read w item.message_id item.sender_wire s
attempt w item (s, false) = (s, [])

abbrev pub drain_item : World → Bool → PendingDeliveryReadAck → ReadAcks → ReadAcks × Log
drain_item w force item s =
    if not force && ltb_ℤ (saturating_sub w.now_ms item.queued_at_ms) (pos 1000)
    then (s, [])
    else attempt w item (should_attempt_read_ack w item.sender_wire item.message_id s)

unfoldable pub drain_loop : World → Bool → List PendingDeliveryReadAck → ReadAcks → ReadAcks × Log
drain_loop w force [] s = (s, [])
drain_loop w force (item ∷ items) s =
    let (s', log) = drain_item w force item s in
    let (s'', more) = drain_loop w force items s' in (s'', log ++ more)

unfoldable pub drain_pending_read_acks : World → Bool → ReadAcks → ReadAcks × Log
drain_pending_read_acks w force s = if w.has_url then drain_loop w force s.pending s else (s, [])

-- A row of the transcript that is to be acknowledged.
abbrev pub seed_row : World → Text → ℤ → StoredChatLine → ReadAcks → ReadAcks
seed_row w sender_pk cutoff row s =
    if row.outgoing || row.read_ack_sent
    then s
    else if not (is_before cutoff (inbound_received_at_for_row row)) || is_empty (mid_of row)
    then s
    else enqueue_pending w (mid_of row) sender_pk s

unfoldable pub seed_rows : World → Text → ℤ → List StoredChatLine → ReadAcks → ReadAcks
seed_rows w sender_pk cutoff [] s = s
seed_rows w sender_pk cutoff (row ∷ rows) s =
    seed_rows w sender_pk cutoff rows (seed_row w sender_pk cutoff row s)

abbrev pub seed_in : World → Text → Option Text → ReadAcks → ReadAcks
seed_in w sender_pk none s = s
seed_in w sender_pk (some ns) s =
    seed_rows w sender_pk (read_ack_cutoff_ms w sender_pk) (rows_for w ns sender_pk s) s

unfoldable pub seed_read_acks_for_sender : World → Text → ReadAcks → ReadAcks
seed_read_acks_for_sender w sender_pk s = seed_in w sender_pk w.app_namespace s

-- The room opens, or (`dispatch_delivery_leave_drain`, with the same body) it is left.
unfoldable pub queue_delivery_read_catchup : World → Text → ReadAcks → ReadAcks × Log
queue_delivery_read_catchup w sender_pk s =
    let pk = normalize sender_pk in
    if w.enabled && w.contacts.is_valid_public_key_hex pk
    then drain_pending_read_acks w true (seed_read_acks_for_sender w pk s)
    else (s, [])

-- Without a retry: a receipt that the server refuses changes nothing.
abbrev pub inbound_claimed : World → Text → Text → Option ReadAcks → ReadAcks → ReadAcks × Log
inbound_claimed w message_id sender none s = (s, [])
inbound_claimed w message_id sender (some claimed) s =
    let s' = release_in_flight message_id claimed in
    (
      if w.answers message_id sender then sent w message_id sender true s' else s',
      (message_id, sender) ∷ [],
    )

unfoldable pub try_read_ack_after_inbound : World → Text → Text → ReadAcks → ReadAcks × Log
try_read_ack_after_inbound w message_id sender_wire s =
    let sender = normalize sender_wire in
    if w.enabled && w.contacts.is_valid_public_key_hex sender && w.may_send sender
    then inbound_claimed w message_id sender (claim_in_flight message_id s) s
    else (s, [])

unfoldable pub delivery_read_ack_upkeep : World → ReadAcks → ReadAcks × Log
delivery_read_ack_upkeep w s = if w.enabled then drain_pending_read_acks w false s else (s, [])

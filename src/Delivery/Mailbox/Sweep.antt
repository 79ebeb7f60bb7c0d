-- ===== src/Delivery/Mailbox/Sweep.antt =====
-- `pending_for_recipient` and `sweep_expired` of ghalbol_delivery/src/store.rs.
use ghal_bol.Common.{ℕ, Bool, ◌&&◌, none, some, List, [], ◌∷◌, map, Text, text_eq}
use ghal_bol.Common.Int.{ℤ, pos, leb_ℤ, ltb_ℤ}
use ghal_bol.Delivery.Mailbox.{expired, is_queued, Key, Row, Table, MailboxStore, update, select}

-- The message, its id and the end of its time, for each row that has a message.
unfoldable pub blobs : Table → List (Text × Text × ℤ)
blobs [] = []
blobs ((k, r) ∷ t) = elim r.envelope_blob [
  | none ↦ blobs t
  | some b ↦ (b, k.1, r.expires_at_ms) ∷ blobs t
]

abbrev pub pending_at : ℕ → Text → Key → Row → Bool
pending_at now recipient_wire k r =
    text_eq r.recipient_wire recipient_wire && is_queued r.state && ltb_ℤ (pos now) r.expires_at_ms

unfoldable pub pending_for_recipient : ℕ → Text → MailboxStore → List (Text × Text × ℤ)
pending_for_recipient now recipient_wire s = blobs (select (pending_at now recipient_wire) s.conn)

abbrev pub overdue : ℕ → Key → Row → Bool
overdue now k r = is_queued r.state && leb_ℤ r.expires_at_ms (pos now)

-- What the sweep reports of a row: the sender, the id and the recipient.
abbrev pub names_of : Key × Row → Text × Text × Text
names_of b = (b.0.0, b.0.1, b.1.recipient_wire)

abbrev pub named : Text × Text × Text → Key → Row → Bool
named e k r = text_eq k.0 e.0 && text_eq k.1 e.1 && text_eq r.recipient_wire e.2

abbrev pub set_expired : ℕ → Row → Row
set_expired now r = record r { state = expired; envelope_blob = none; expired_at_ms = some now }

-- One UPDATE for each row that the query found.
unfoldable pub expire_all : ℕ → List (Text × Text × Text) → Table → Table
expire_all now [] t = t
expire_all now (e ∷ es) t = expire_all now es (update (named e) (set_expired now) t)

unfoldable pub sweep_expired : ℕ → MailboxStore → MailboxStore × List (Text × Text × Text)
sweep_expired now s =
    let swept = map names_of (select (overdue now) s.conn) in
    (record s { conn = expire_all now swept s.conn }, swept)

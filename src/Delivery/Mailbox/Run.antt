-- ===== src/Delivery/Mailbox/Run.antt =====
-- The calls that change a mailbox, and their runs.
use ghal_bol.Common.{ℕ, List, [], ◌∷◌, Text}
use ghal_bol.Common.Int.{ℤ}
use ghal_bol.Delivery.Policy.{PolicyLimits}
use ghal_bol.Delivery.Mailbox.{ValidatedEnvelope, MailboxStore, upload, extend_ttl}
use ghal_bol.Delivery.Mailbox.Acks.{ack_deliver, ack_read}
use ghal_bol.Delivery.Mailbox.Sweep.{sweep_expired}

-- The arguments of the calls, without the time.
pub data Call : Type 0 where
  uploads : ValidatedEnvelope → ℕ → Call
  extends : Text → Text → ℕ → Call
  delivers : Text → Text → Text → Call
  reads : Text → Text → Text → Call
  sweeps : Call

unfoldable pub step : PolicyLimits → ℕ → Call → MailboxStore → MailboxStore
step policy now (uploads env ttl_secs) s = (upload policy now env ttl_secs s).0
step policy now (extends sender_wire message_id secs) s =
    (extend_ttl policy now sender_wire message_id secs s).0
step policy now (delivers recipient_wire message_id sender_wire) s =
    (ack_deliver now recipient_wire message_id sender_wire s).0
step policy now (reads recipient_wire message_id sender_wire) s =
    (ack_read now recipient_wire message_id sender_wire s).0
step policy now sweeps s = (sweep_expired now s).0

-- Each call at its time.
unfoldable pub run : PolicyLimits → List (ℕ × Call) → MailboxStore → MailboxStore
run policy [] s = s
run policy ((now, c) ∷ cs) s = run policy cs (step policy now c s)

abbrev pub opened : ℤ → MailboxStore
opened quota_per_peer = record { conn = []; quota_per_peer = quota_per_peer }

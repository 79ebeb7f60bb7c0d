-- ===== src/Delivery/Tests.antt =====
-- Runs of the mailbox and of the challenges, and their results at inputs.
use ghal_bol.Common.{
  ℕ, ◌≤◌, ◌≡◌, refl, ◌⊎◌, true, false, none, some, List, [], ◌∷◌, map, Result, ok, err, Text, text,
  text_eq, eq_of_text, eq_of_texts,
}
use ghal_bol.Common.Int.{ℤ, pos, ◌≤ℤ◌}
use mathlib.Core.List.{Mem}
use ghal_bol.Common.Map
use ghal_bol.Common.Map.{Unique}
use ghal_bol.Delivery.Error.{DeliveryError, forbidden}
use ghal_bol.Delivery.Policy.{PolicyLimits}
use ghal_bol.Delivery.Mailbox.{
  MailState, queued, delivered, read, expired, Key, Row, Table, MailboxStore, ValidatedEnvelope,
  upload, update, select, query_row, sum_bytes, used_bytes, quota_status,
}
use ghal_bol.Delivery.Mailbox.Acks.{ack_deliver, ack_read, set_delivered}
use ghal_bol.Delivery.Mailbox.Sweep.{
  sweep_expired, pending_for_recipient, overdue, set_expired, expire_all,
}
use ghal_bol.Delivery.Mailbox.Run.{Call, uploads, delivers, reads, sweeps, step, run, opened}
use ghal_bol.Delivery.Mailbox.Invariant.{Inv}
use ghal_bol.Delivery.Mailbox.Reach.{mailbox-Inv}
use ghal_bol.Delivery.Mailbox.Lifecycle.{Edge, step-Edge}
use ghal_bol.Delivery.Mailbox.Swept.{sweep_exact}
use ghal_bol.Delivery.Mailbox.Handover.{upload_pending}
use ghal_bol.Delivery.Mailbox.Handed.{Handed, ack_deliver_ok}
use ghal_bol.Delivery.Mailbox.Import.{import_rows, insert_all, conflicts, Merges, import_exact}
use ghal_bol.Delivery.Challenge.{no_challenges}
use ghal_bol.Delivery.Challenge.Replay
use ghal_bol.Delivery.Challenge.Replay.{issues_op, takes_op, nothing, no_replay}

abbrev limits : PolicyLimits
limits = record { min_ttl_secs = 3600; max_ttl_secs = 2592000; default_ttl_secs = 604800 }

abbrev letter : Text → ℕ → ValidatedEnvelope
letter sender_wire size = record {
  message_id = text "m";
  sender_wire = sender_wire;
  recipient_wire = text "bob";
  envelope_blob = text "hi";
  size_bytes = size;
}

abbrev box : MailboxStore
box = opened (pos 100)

abbrev history : List (ℕ × Call)
history =
    (1000, uploads (letter (text "ann") 60) 3600)
    ∷ (2000, uploads (letter (text "cat") 90) 3600)
    ∷ (3000, delivers (text "bob") (text "m") (text "ann"))
    ∷ (4000, reads (text "bob") (text "m") (text "ann"))
    ∷ (3700000, sweeps)
    ∷ []

abbrev states : Table → List MailState
states t = map (λ b. b.1.state) t

history-states : states (run limits history box).conn ≡ read ∷ expired ∷ []
unfolding run step upload ack_deliver ack_read sweep_expired Map.get Map.insert update select
    query_row used_bytes sum_bytes expire_all text_eq quota_status
history-states = refl

mailbox-Inv_example :
    Inv limits (run limits history (opened (pos 100)))
    × ((run limits history (opened (pos 100))).quota_per_peer ≡ pos 100)
mailbox-Inv_example = mailbox-Inv limits (pos 100) history

abbrev waiting_row : Row
waiting_row = record {
  recipient_wire = text "bob";
  envelope_blob = some (text "hi");
  size_bytes = 60;
  uploaded_at_ms = 1000;
  expires_at_ms = pos 3601000;
  state = queued;
  delivered_at_ms = none;
  expired_at_ms = none;
  read_at_ms = none;
}

abbrev ann_m : Key
ann_m = (text "ann", text "m")

abbrev one_letter : MailboxStore
one_letter = record { conn = (ann_m, waiting_row) ∷ []; quota_per_peer = pos 100 }

step-Edge_example : Edge (delivers (text "bob") (text "m") (text "ann")) ann_m queued delivered
step-Edge_example =
    step-Edge limits 5000 (delivers (text "bob") (text "m") (text "ann")) one_letter ann_m
      waiting_row (set_delivered 5000 waiting_row) (tt, tt) (unfold Map.get text_eq in refl)
      (unfold step ack_deliver Map.get update query_row text_eq in refl)

sweep_exact_example :
    (Map.get ann_m (sweep_expired 9000000 one_letter).0.conn
      ≡ some (set_expired 9000000 waiting_row))
    × (select (overdue 9000000) (sweep_expired 9000000 one_letter).0.conn ≡ [])
unfolding Map.get text_eq
sweep_exact_example = sweep_exact 9000000 one_letter ann_m (tt, tt)

-- A letter of another sender, a confirmation that is not for the recipient, and a sweep.
abbrev meanwhile : List (ℕ × Call)
meanwhile =
    (2000, uploads (letter (text "cat") 90) 3600)
    ∷ (3000, delivers (text "cat") (text "m") (text "ann"))
    ∷ (3600500, sweeps)
    ∷ []

upload_pending_example :
    (e : ℤ) × (pos 3601000 ≤ℤ e)
    × Mem
        (text "hi", text "m", e)
        (pending_for_recipient 3600900 (text "bob") (
          run limits meanwhile
            (upload limits 1000
              (letter (text "ann") 60)
              3600
              (run limits [] (opened (pos 100)))).0))
unfolding run
upload_pending_example =
    upload_pending limits (pos 100) [] 1000 (letter (text "ann") 60) 3600
      (record { allocated_bytes = pos 100; used_bytes = 60; pending_count = 1 }, false) meanwhile
      3600900
      (unfold run upload Map.get Map.insert used_bytes sum_bytes quota_status select text_eq in
        refl)
      (unfold text_eq in (refl, (refl, (refl, tt)))) refl

ack_deliver_ok_example :
    Handed 5000
      (text "bob")
      (text "m")
      (text "ann")
      one_letter
      (ack_deliver 5000 (text "bob") (text "m") (text "ann") one_letter).0
ack_deliver_ok_example =
    ack_deliver_ok 5000 (text "bob") (text "m") (text "ann") (text "ann") one_letter (tt, tt)
      (unfold ack_deliver query_row text_eq in refl)

-- Of two messages of the same id to the same recipient only the first one can be confirmed.
same_id_forbidden :
    (ack_deliver 9 (text "bob") (text "m") (text "cat") (
      run limits
        ((1, uploads (letter (text "ann") 60) 3600)
          ∷ (2, uploads (letter (text "cat") 60) 3600)
          ∷ [])
        box)).1
    ≡ err forbidden
unfolding ack_deliver run step upload Map.get Map.insert query_row used_bytes sum_bytes text_eq
same_id_forbidden = refl

import_exact_example :
    Unique one_letter.conn
    × ((k : Key) → Merges (Map.get k one_letter.conn) (Map.get k []) (Map.get k one_letter.conn))
    × ((false ≡ true) ⊎ (conflicts one_letter.conn [] ≡ 0))
import_exact_example =
    import_exact false one_letter.conn [] one_letter.conn (tt, tt) tt
      (unfold import_rows conflicts insert_all Map.get Map.insert in refl)

abbrev as_is : Text → Result DeliveryError Text
as_is t = ok t

-- The same nonce twice: the second one is refused.
abbrev replayed : List Replay.Call
replayed =
    issues_op 1 60 (text "n") (text "ann")
    ∷ takes_op 2 (text "ann") (text "n")
    ∷ takes_op 3 (text "ann") (text "n")
    ∷ []

no_replay_example :
    ((Replay.run as_is (text "ann") replayed (no_challenges, nothing)).1.sessions_taken
      ≤ (Replay.run as_is (text "ann") replayed (no_challenges, nothing)).1.sessions_issued)
    × ((Replay.run as_is (text "ann") replayed (no_challenges, nothing)).1.ops_taken
        ≤ (Replay.run as_is (text "ann") replayed (no_challenges, nothing)).1.ops_issued)
no_replay_example = no_replay as_is (text "ann") replayed

-- ===== src/Session/Tests.antt =====
-- Runs of the session state, and its results at inputs.
use ghal_bol.Common.{
  ◌≤◌, ◌≡◌, refl, Bool, true, false, List, [], ◌∷◌, arith, length, Text, text, text_eq, trim,
  eq_of_text,
}
use ghal_bol.Common.Int.{ℤ, pos}
use ghal_bol.Call.Signal.{CallSigKind, invite, hangup}
use ghal_bol.Session.State.{
  SessionState, PendingOutbound, PendingCallSignal, PendingReadAck, PendingDeliveryAck, has,
  outbox_due_for_resend, mark_outbox_sent, new, seen_inbound_max,
}
use ghal_bol.Common.Map
use ghal_bol.Session.Resync.{Writers, resync_pending_outbox, resync_rows}
use ghal_bol.Session.State.Outbox
use ghal_bol.Session.State.Outbox.{
  tracks, sends, fails, acks, resyncs, in_outbox, waits, outbox_waits,
}
use ghal_bol.Session.State.Seen
use ghal_bol.Session.State.Seen.{taken, seen_inbound_once}
use ghal_bol.Session.Acks.Invariant
use ghal_bol.Session.Acks.Invariant.{Inv, acks-Inv, seeds, claims, confirms}
use ghal_bol.Session.Acks.{
  delivery_acks_due_for_upkeep, read_acks_due_for_upkeep, is_read_ack_confirmed,
  mark_read_ack_wire_sent, pending_read_ack_len,
}
use ghal_bol.Session.Sends.{
  Wire, read_frame, deliver_items, read_items, run_ack_upkeep_limited, burst_rounds,
  run_ack_upkeep_burst,
}
use ghal_bol.Session.Sends.Upkeep.{IsExact, upkeep-IsExact}
use ghal_bol.Session.Signals.{flush_pending_call_signals}
use ghal_bol.Session.Signals.Order.{flush_order}

abbrev row : PendingOutbound
row = record {
  message_id = text "m1";
  peer = text "bob";
  created_at_ms = pos 1;
  last_send_ms = pos 0;
  first_on_wire_ms = pos 0;
  on_wire = false;
}

-- Bob's writer is open, and each frame goes out.
abbrev all_go : Writers
all_go = record { is_open = λ _. true; builds = λ _. true; sends = λ _. true; now_ms = pos 20 }

-- A message is reported when it goes out first.
resent :
    (resync_pending_outbox all_go (text "bob" ∷ []) (Outbox.step (tracks row) new)).1
    ≡ text "m1" ∷ []
unfolding Outbox.step resync_pending_outbox resync_rows outbox_due_for_resend mark_outbox_sent
    Map.insert Map.get text_eq
resent = refl

abbrev sending : List Outbox.Call
sending =
    tracks row
    ∷ resyncs all_go (text "bob" ∷ [])
    ∷ fails (text "m1") (pos 5)
    ∷ sends (text "m1") (pos 9)
    ∷ acks (text " m2")
    ∷ []

outbox_waits_example :
    in_outbox (text "m1") (Outbox.run sending new)
    ≡ waits (text "m1") sending (in_outbox (text "m1") new)
outbox_waits_example = outbox_waits (text "m1") sending new

still_waits : waits (text "m1") sending false ≡ true
unfolding waits text_eq trim
still_waits = refl

abbrev twice : List (Text × ℤ)
twice = (text "a", pos 1) ∷ (text "a", pos 2) ∷ []

seen_inbound_once_example :
    (taken (text "a") twice new ≤ 1)
    × (length (Seen.run twice new).seen_inbound_ids ≤ seen_inbound_max)
seen_inbound_once_example = seen_inbound_once (text "a") twice twice (omega arith)

abbrev reading : List Invariant.Call
reading =
    seeds (text "bob") (text "m1") ∷ claims (text "bob") (text " m1 ") ∷ confirms (text "m1") ∷ []

acks-Inv_example : Inv (Invariant.run reading new)
acks-Inv_example = acks-Inv reading

abbrev signal : CallSigKind → PendingCallSignal
signal kind = record {
  call_id = text "c";
  signal_id = text "s";
  signal_kind = kind;
  peer = text "bob";
  recipient_public_key_hex = text "bob";
  created_at_ms = pos 1;
}

abbrev calling : SessionState
calling = record new { pending_call_signals = signal invite ∷ signal hangup ∷ [] }

abbrev offline : PendingCallSignal → Bool
offline c = false

-- The peer is away for one pass: the invite of the call then stands behind its end.
flush_order_example :
    flush_pending_call_signals offline calling
    ≡ (record new { pending_call_signals = signal hangup ∷ signal invite ∷ [] }, [])
flush_order_example = flush_order offline calling 2 refl (omega arith)

-- Bob is connected, and the room of nobody is open.
abbrev to_bob : Wire
to_bob = record {
  connected = λ p. text_eq p (text "bob");
  is_live_foreground_peer = λ _. false;
  may_send_in_room_read_ack = λ _. false;
  now_ms = pos 7;
  sends = λ _. true;
}

abbrev delivery_to : Text → Text → PendingDeliveryAck
delivery_to peer id = record {
  peer = peer;
  inbound_id = id;
  recipient_public_key_hex = peer;
  received_at_ms = pos 3;
}

abbrev read_of : PendingReadAck
read_of = record {
  peer = text "bob";
  inbound_id = text "m3";
  recipient_public_key_hex = text "bob";
  last_send_ms = pos 0;
}

-- An acknowledgement for Ann, who is away, stands before one for Bob.
abbrev owing : SessionState
owing = record new {
  pending_delivery_acks =
      delivery_to (text "ann") (text "m1") ∷ delivery_to (text "bob") (text "m2") ∷ [];
  pending_read_acks = read_of ∷ [];
}

upkeep-IsExact_example : IsExact to_bob 2 true owing (run_ack_upkeep_limited to_bob 2 true owing)
upkeep-IsExact_example = upkeep-IsExact to_bob 2 owing true

-- The entry of a peer who is away takes up the limit.
behind_ann : (run_ack_upkeep_limited to_bob 1 false owing).frames ≡ []
unfolding run_ack_upkeep_limited deliver_items delivery_acks_due_for_upkeep text_eq
behind_ann = refl

-- A burst sends a read acknowledgement in each of its rounds.
burst_of_reads :
    (run_ack_upkeep_burst to_bob (record new { pending_read_acks = read_of ∷ [] })).1
    ≡ read_frame read_of ∷ read_frame read_of ∷ read_frame read_of ∷ read_frame read_of ∷ []
unfolding run_ack_upkeep_burst burst_rounds run_ack_upkeep_limited deliver_items read_items
    delivery_acks_due_for_upkeep read_acks_due_for_upkeep is_read_ack_confirmed
    mark_read_ack_wire_sent pending_read_ack_len has text_eq
burst_of_reads = refl

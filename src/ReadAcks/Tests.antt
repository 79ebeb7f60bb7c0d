-- ===== src/ReadAcks/Tests.antt =====
-- Runs of the read receipts.
use ghal_bol.Common.{
  ◌≡◌, refl, true, false, none, some, [], ◌∷◌, any, text as lit, text_eq, trim, trim_start,
  trim_end, is_whitespace, normalize, to_ascii_lowercase,
}
use ghal_bol.Common.Int.{pos, saturating_sub}
use ghal_bol.Common.Json.{get, nil, cons, end, field, array, object}
use ghal_bol.Transcript.Line.{StoredChatLine, to_json}
use ghal_bol.Transcript.Store.{load_merged, patch_inbound_read_ack_sent}
use ghal_bol.Transcript.Merge.{load_merged_unlocked}
use ghal_bol.ReadAcks.{
  ReadAcks, World, dequeue_pending, claim_in_flight, release_in_flight, patch_read_ack_sent,
  send_inbox_read, patch_already_sent, should_attempt_read_ack, drain_loop, drain_pending_read_acks,
  delivery_read_ack_upkeep,
}
use ghal_bol.ReadAcks.Again.{catches_up, keeps_up, takes_in, step, receipts, is_receipt}
use ghal_bol.ReadAcks.Receipts.{receipt_once}

-- The room of a sender is open, and the server takes each receipt.
abbrev open_room : World
open_room = record {
  contacts = record {
    find_by_peer_id = λ _. none;
    find_by_public_key = λ _. none;
    is_valid_public_key_hex = λ _. true;
    legacy_libp2p_peer_id_str_from_public_key_hex = λ _. none;
    legacy_public_key_from_peer_id_str = λ _. none;
  };
  app_namespace = some (lit "me");
  may_send = λ _. true;
  session_at_ms = pos 9;
  exit_at_ms = λ _. none;
  now_ms = pos 2000;
  enabled = true;
  has_url = true;
  answers = λ _ _. true;
}

-- A server that refuses.
abbrev refusing : World
refusing = record open_room { answers = λ _ _. false }

abbrev question : StoredChatLine
question = record {
  local_id = lit "1";
  text = lit "hi";
  outgoing = false;
  from = some (lit "ab");
  message_id = some (lit "m1");
  delivery = lit "pending";
  created_at_ms = some (pos 5);
  received_at_ms = some (pos 6);
  read_ack_sent = false;
  msg_kind = lit "text";
  duration_ms = none;
  audio_path = none;
  file_name = none;
  mime_type = none;
  size_bytes = none;
  local_path = none;
}

-- Two messages of the sender came in.
abbrev came_in : ReadAcks
came_in = record {
  pending = [];
  in_flight = [];
  store = record {
    all = object (
        field (lit "me")
          (object (
            field (lit "ab")
              (array (
                cons (to_json question)
                  (cons (to_json (record question { message_id = some (lit "m2") })) nil)))
              end))
          end);
    revisions = [];
  };
}

-- Nothing is stored, and a receipt waits.
abbrev waiting : ReadAcks
waiting = record {
  pending = record { message_id = lit "m1"; sender_wire = lit "ab"; queued_at_ms = pos 0 } ∷ [];
  in_flight = [];
  store = record { all = object end; revisions = [] };
}

-- What the server refuses waits for a second.
refused :
    receipts
      (keeps_up refusing
        ∷ keeps_up (record open_room { now_ms = pos 2999 })
        ∷ keeps_up (record open_room { now_ms = pos 3000 })
        ∷ keeps_up (record open_room { now_ms = pos 9000 })
        ∷ [])
      waiting
    ≡ (lit "m1", lit "ab") ∷ (lit "m1", lit "ab") ∷ []
unfolding receipts step delivery_read_ack_upkeep drain_pending_read_acks drain_loop saturating_sub
    should_attempt_read_ack patch_already_sent load_merged load_merged_unlocked get send_inbox_read
    claim_in_flight release_in_flight text_eq trim trim_start trim_end is_whitespace dequeue_pending
    normalize to_ascii_lowercase patch_read_ack_sent patch_inbound_read_ack_sent
refused = refl

receipt_once_example :
    any (is_receipt (lit "m1") (lit "ab")) (
      receipts
        (catches_up open_room (lit "ab")
          ∷ keeps_up refusing
          ∷ takes_in open_room (lit "m2") (lit "ab")
          ∷ [])
        (send_inbox_read open_room (lit "m1") (lit "ab") came_in).0)
    ≡ false
unfolding trim trim_start trim_end is_whitespace normalize to_ascii_lowercase text_eq
receipt_once_example =
    receipt_once (lit "me") (lit "m1") (lit "ab") open_room came_in
      (catches_up open_room (lit "ab")
        ∷ keeps_up refusing
        ∷ takes_in open_room (lit "m2") (lit "ab")
        ∷ [])
      refl refl refl refl refl refl (refl, (refl, ((refl, refl), tt)))

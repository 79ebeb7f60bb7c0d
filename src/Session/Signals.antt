-- ===== src/Session/Signals.antt =====
-- The call signals that wait for their peer: `SessionState` of ghalbol_core/src/connect/session.rs, and
-- `flush_pending_call_signals` of outbox_acks.rs.
pub mod Order
use ghal_bol.Common.{
  ℕ, Bool, true, false, List, [], ◌∷◌, ◌++◌, ltb, length, take, drop, min, if◌then◌else◌, Text,
}
use ghal_bol.Call.Signal.{wire_name}
use ghal_bol.Session.State.{SessionPeer, SessionState, PendingCallSignal}

abbrev pub call_signals_max : ℕ
call_signals_max = 128

unfoldable pub enqueue_pending_call_signal : PendingCallSignal → SessionState → SessionState
enqueue_pending_call_signal sig s = record s {
  pending_call_signals = s.pending_call_signals ++ sig ∷ [];
}

unfoldable pub drain_pending_call_signals : ℕ → SessionState → SessionState × List PendingCallSignal
drain_pending_call_signals limit s =
    let n = min limit (length s.pending_call_signals) in
    (
      record s { pending_call_signals = drop n s.pending_call_signals },
      take n s.pending_call_signals,
    )

unfoldable pub requeue_pending_call_signal_front : PendingCallSignal → SessionState → SessionState
requeue_pending_call_signal_front item s =
    if ltb (length s.pending_call_signals) call_signals_max
    then record s { pending_call_signals = item ∷ s.pending_call_signals }
    else s

-- `GossipChatEvent::CallSignalSent`.
pub record CallSignalSent : Type 0 where
  pub call_id : Text
  pub signal : Text
  pub recipient_public_key_hex : Text

abbrev pub sent_event : PendingCallSignal → CallSignalSent
sent_event call = record {
  call_id = call.call_id;
  signal = wire_name call.signal_kind;
  recipient_public_key_hex = call.recipient_public_key_hex;
}

-- `goes` tells of a signal whether its peer is connected, its writer open, its frame built and sent;
-- whichever of them fails, the signal is put back.
module _ (goes : PendingCallSignal → Bool) where
  unfoldable pub flush_batch :
      List PendingCallSignal → SessionState → SessionState × List CallSignalSent
  flush_batch [] s = (s, [])
  flush_batch (call ∷ batch) s =
      let sent = flush_batch batch s in
      let kept = flush_batch batch (requeue_pending_call_signal_front call s) in
      if goes call then (sent.0, sent_event call ∷ sent.1) else kept

  unfoldable pub flush_pending_call_signals : SessionState → SessionState × List CallSignalSent
  flush_pending_call_signals s =
      let (s', batch) = drain_pending_call_signals 32 s in flush_batch batch s'

-- ===== src/Session/Resync.antt =====
-- The passes of ghalbol_core/src/connect/outbox_acks.rs that send the messages of the outbox again. No other task
-- changes the session during a pass, and a writer that is open stays so.
use ghal_bol.Common.{
  Bool, true, false, not, ◌&&◌, List, [], ◌∷◌, ◌++◌, any, keep_if, if◌then◌else◌, Text, text_eq,
}
use ghal_bol.Common.Int.{ℤ}
use ghal_bol.Session.State.{
  SessionPeer, SessionState, PendingOutbound, is_due, outbox_due_for_resend,
  pending_outbox_for_peer, mark_outbox_sent, mark_outbox_send_failed,
}

-- What a pass meets: the peers whose writer is open, the rows whose frame is built (`build_pending_outbound_frame`)
-- and those whose frame goes out (`send_frame_to_peer`), and the clock.
pub record Writers : Type 0 where
  pub is_open : SessionPeer → Bool
  pub builds : PendingOutbound → Bool
  pub sends : PendingOutbound → Bool
  pub now_ms : ℤ

-- The ids of the `OutboundSent` events.
abbrev pub Events : Type 0
Events = List Text

abbrev pub reported : PendingOutbound → SessionState × Bool → SessionState × Events
reported p (s, true) = (s, p.message_id ∷ [])
reported p (s, false) = (s, [])

module _ (w : Writers) where
  abbrev pub resync_row : PendingOutbound → SessionState → SessionState × Events
  resync_row p s =
      if not (w.is_open p.peer && w.builds p)
      then (s, [])
      else if w.sends p
      then reported p (mark_outbox_sent p.message_id w.now_ms s)
      else (mark_outbox_send_failed p.message_id w.now_ms s, [])

  unfoldable pub resync_rows : List PendingOutbound → SessionState → SessionState × Events
  resync_rows [] s = (s, [])
  resync_rows (p ∷ ps) s =
      let (s', events) = resync_row p s in
      let (s'', more) = resync_rows ps s' in (s'', events ++ more)

  unfoldable pub resync_pending_outbox : List SessionPeer → SessionState → SessionState × Events
  resync_pending_outbox connected_peers s =
      resync_rows
        (keep_if (λ p. any (λ cp. text_eq cp p.peer) connected_peers)
          (outbox_due_for_resend w.now_ms s))
        s

  -- A row that does not go out stays as it is.
  abbrev pub burst_row : PendingOutbound → SessionState → SessionState × Events
  burst_row p s =
      if w.builds p && w.sends p
      then reported p (mark_outbox_sent p.message_id w.now_ms s)
      else (s, [])

  unfoldable pub burst_rows :
      SessionPeer → List PendingOutbound → SessionState → SessionState × Events
  burst_rows peer [] s = (s, [])
  burst_rows peer (p ∷ ps) s =
      let (s', events) = burst_row p s in
      let (s'', more) = burst_rows peer ps s' in
      if w.is_open peer then (s'', events ++ more) else (s, [])

  unfoldable pub resync_outbox_burst_for_peer : SessionPeer → SessionState → SessionState × Events
  resync_outbox_burst_for_peer peer s =
      burst_rows peer (keep_if (is_due w.now_ms) (pending_outbox_for_peer peer s)) s

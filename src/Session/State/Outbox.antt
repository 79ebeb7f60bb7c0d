-- ===== src/Session/State/Outbox.antt =====
-- A message stays in the outbox until it is acknowledged, and not longer.
use ghal_bol.Common.{
  ◌≡◌, refl, ap, ◌∙◌, sym, inl, inr, Bool, true, false, not, ◌&&◌, Option, none, some, List, [],
  ◌∷◌, arith, if◌then◌else◌, Text, text_eq, text_eq_iff, eq_of_text, trim, is_empty, Bool-cases,
}
use ghal_bol.Common.Int.{ℤ, pos}
use ghal_bol.Common.Map
use ghal_bol.Common.Map.{get-insert, get-remove}
use ghal_bol.Session.Resync.{
  Writers, Events, reported, resync_row, resync_rows, resync_pending_outbox, burst_row, burst_rows,
  resync_outbox_burst_for_peer,
}
use ghal_bol.Session.State.{
  SessionPeer, PendingOutbound, SessionState, track_outbound, finalize_outbound_ack,
  mark_outbox_sent, sent_row, sent_now, mark_outbox_send_failed, failed_row,
}

-- The calls that change the outbox.
pub data Call : Type 0 where
  tracks : PendingOutbound → Call
  sends : Text → ℤ → Call
  fails : Text → ℤ → Call
  acks : Text → Call
  resyncs : Writers → List SessionPeer → Call
  bursts : Writers → SessionPeer → Call

unfoldable pub step : Call → SessionState → SessionState
step (tracks row) s = track_outbound row s
step (sends id now_ms) s = (mark_outbox_sent id now_ms s).0
step (fails id now_ms) s = mark_outbox_send_failed id now_ms s
step (acks id) s = finalize_outbound_ack id s
step (resyncs w peers) s = (resync_pending_outbox w peers s).0
step (bursts w peer) s = (resync_outbox_burst_for_peer w peer s).0

unfoldable pub run : List Call → SessionState → SessionState
run [] s = s
run (c ∷ cs) s = run cs (step c s)

-- Whether a message waits, told by the calls alone: it does from the call that tracks it to the
-- acknowledgement of its id, which has no space around it.
unfoldable pub waits : Text → List Call → Bool → Bool
waits id [] b = b
waits id (tracks row ∷ cs) b = waits id cs (if text_eq row.message_id id then true else b)
waits id (sends m now_ms ∷ cs) b = waits id cs b
waits id (fails m now_ms ∷ cs) b = waits id cs b
waits id (resyncs w peers ∷ cs) b = waits id cs b
waits id (bursts w peer ∷ cs) b = waits id cs b
waits id (acks m ∷ cs) b =
    waits id cs (if is_empty (trim m) then b else if text_eq (trim m) id then false else b)

abbrev pub in_outbox : Text → SessionState → Bool
in_outbox id s = Map.contains id s.outbox

insert_stays :
    (id m : Text) (v p : PendingOutbound) (t : Map.Map Text PendingOutbound)
    → Map.get m t ≡ some p
    → Map.contains id (Map.insert m v t) ≡ Map.contains id t
insert_stays id m v p t e = elim (Bool-cases (text_eq m id)) [
  | inl same ↦
      let there : Map.get id t ≡ some p =
        ap (λ (x : Text). Map.get x t) (sym ((text_eq_iff m id).0 same)) ∙ e in
      ground (arith, get-insert m id v t)
  | inr other ↦ ground (arith, get-insert m id v t)
]

sent_stays :
    (id m : Text) (now_ms : ℤ) (o : Option PendingOutbound) (s : SessionState)
    → Map.get m s.outbox ≡ o
    → in_outbox id (sent_row m now_ms o s).0 ≡ in_outbox id s
sent_stays id m now_ms none s e = refl
sent_stays id m now_ms (some p) s e = insert_stays id m (sent_now now_ms p) p s.outbox e

failed_stays :
    (id m : Text) (now_ms : ℤ) (o : Option PendingOutbound) (s : SessionState)
    → Map.get m s.outbox ≡ o
    → in_outbox id (failed_row m now_ms o s) ≡ in_outbox id s
failed_stays id m now_ms none s e = refl
failed_stays id m now_ms (some p) s e =
    insert_stays id m
      (record p { on_wire = false; first_on_wire_ms = pos 0; last_send_ms = now_ms }) p s.outbox e

tracked_in :
    (id : Text) (row : PendingOutbound) (s : SessionState)
    → in_outbox id (track_outbound row s)
      ≡ (if text_eq row.message_id id then true else in_outbox id s)
tracked_in id row s = ground (arith, get-insert row.message_id id row s.outbox)

acked_in :
    (id m : Text) (s : SessionState)
    → in_outbox id (finalize_outbound_ack m s) ≡ (
        if is_empty (trim m)
        then in_outbox id s
        else if text_eq (trim m) id
        then false
        else in_outbox id s)
unfolding finalize_outbound_ack
acked_in id m s = ground (arith, get-remove (trim m) id s.outbox)

reported_stays :
    (id : Text) (p : PendingOutbound) (r : SessionState × Bool)
    → in_outbox id (reported p r).0 ≡ in_outbox id r.0
reported_stays id p (s, true) = refl
reported_stays id p (s, false) = refl

marked_stays :
    (id : Text) (now_ms : ℤ) (p : PendingOutbound) (s : SessionState)
    → in_outbox id (reported p (mark_outbox_sent p.message_id now_ms s)).0 ≡ in_outbox id s
unfolding mark_outbox_sent
marked_stays id now_ms p s =
    reported_stays id p (sent_row p.message_id now_ms (Map.get p.message_id s.outbox) s)
    ∙ sent_stays id p.message_id now_ms (Map.get p.message_id s.outbox) s refl

if_stays :
    (id : Text) (b : Bool) (x y : SessionState × Events) (s : SessionState)
    → in_outbox id x.0 ≡ in_outbox id s
    → in_outbox id y.0 ≡ in_outbox id s
    → in_outbox id (if b then x else y).0 ≡ in_outbox id s
if_stays id true x y s h k = h
if_stays id false x y s h k = k

resync_row_stays :
    (id : Text) (w : Writers) (p : PendingOutbound) (s : SessionState)
    → in_outbox id (resync_row w p s).0 ≡ in_outbox id s
unfolding mark_outbox_send_failed
resync_row_stays id w p s =
    if_stays id (not (w.is_open p.peer && w.builds p)) (s, []) _ s refl
      (if_stays id (w.sends p) _ (mark_outbox_send_failed p.message_id w.now_ms s, []) s
        (marked_stays id w.now_ms p s)
        (failed_stays id p.message_id w.now_ms (Map.get p.message_id s.outbox) s refl))

resync_rows_stays :
    (id : Text) (w : Writers) (ps : List PendingOutbound) (s : SessionState)
    → in_outbox id (resync_rows w ps s).0 ≡ in_outbox id s
unfolding resync_rows
resync_rows_stays id w [] s = refl
resync_rows_stays id w (p ∷ ps) s =
    resync_rows_stays id w ps (resync_row w p s).0 ∙ resync_row_stays id w p s

burst_rows_stays :
    (id : Text) (w : Writers) (peer : SessionPeer) (ps : List PendingOutbound) (s : SessionState)
    → in_outbox id (burst_rows w peer ps s).0 ≡ in_outbox id s
unfolding burst_rows
burst_rows_stays id w peer [] s = refl
burst_rows_stays id w peer (p ∷ ps) s =
    if_stays id (w.is_open peer) _ (s, []) s
      (burst_rows_stays id w peer ps (burst_row w p s).0
        ∙ if_stays id (w.builds p && w.sends p) _ (s, []) s (marked_stays id w.now_ms p s) refl)
      refl

-- Whatever is tracked, sent, failed, acknowledged and sent again in a pass: a message is in the outbox
-- exactly if it waits, which sending it, or failing to, does not change.
pub outbox_waits :
    (id : Text) (cs : List Call) (s : SessionState)
    → in_outbox id (run cs s) ≡ waits id cs (in_outbox id s)
unfolding run waits step mark_outbox_sent mark_outbox_send_failed resync_pending_outbox
    resync_outbox_burst_for_peer
outbox_waits id [] s = refl
outbox_waits id (tracks row ∷ cs) s =
    outbox_waits id cs (track_outbound row s) ∙ ap (waits id cs) (tracked_in id row s)
outbox_waits id (sends m now_ms ∷ cs) s =
    outbox_waits id cs (mark_outbox_sent m now_ms s).0
    ∙ ap (waits id cs) (sent_stays id m now_ms (Map.get m s.outbox) s refl)
outbox_waits id (fails m now_ms ∷ cs) s =
    outbox_waits id cs (mark_outbox_send_failed m now_ms s)
    ∙ ap (waits id cs) (failed_stays id m now_ms (Map.get m s.outbox) s refl)
outbox_waits id (resyncs w peers ∷ cs) s =
    outbox_waits id cs (resync_pending_outbox w peers s).0
    ∙ ap (waits id cs) (resync_rows_stays id w _ s)
outbox_waits id (bursts w peer ∷ cs) s =
    outbox_waits id cs (resync_outbox_burst_for_peer w peer s).0
    ∙ ap (waits id cs) (burst_rows_stays id w peer _ s)
outbox_waits id (acks m ∷ cs) s =
    outbox_waits id cs (finalize_outbound_ack m s) ∙ ap (waits id cs) (acked_in id m s)

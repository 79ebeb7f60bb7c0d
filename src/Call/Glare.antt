-- ===== src/Call/Glare.antt =====
-- Both sides call at once, and their invites cross.
use ghal_bol.Common.{
  ◌≡◌, refl, true, false, some, Text, text_lt, text_eq_iff, text_lt_asymm, normalize, eq_of_text,
  arith, ok, err,
}
use ghal_bol.Common.Int.{ℤ}
use ghal_bol.Common.Map.{get, insert, get-insert_self}
use ghal_bol.Call.Signal.{invite, accept}
use ghal_bol.Call.State.{
  PeerCall, Store, outgoing_ringing, incoming_ringing, connected, busy, fresh_call,
}
use ghal_bol.Call.Outbound.{apply_outbound}
use ghal_bol.Call.Inbound.{apply_inbound}

module _ (now : ℤ) (peer call_id : Text) (g : Store) (c : PeerCall)
    (e : get (normalize peer) g ≡ some c) where
  take_invite_lower :
      c.phase ≡ outgoing_ringing
      → text_lt call_id c.call_id ≡ true
      → apply_inbound now peer call_id invite g
        ≡ (insert (normalize peer) (fresh_call now call_id incoming_ringing false) g, ok tt)
  unfolding apply_inbound
  take_invite_lower h lt = ground arith

  take_invite_higher :
      text_lt call_id c.call_id ≡ false → apply_inbound now peer call_id invite g ≡ (g, err busy)
  unfolding apply_inbound
  take_invite_higher lt = ground arith

  take_accept :
      c.call_id ≡ call_id
      → apply_inbound now peer call_id accept g
        ≡ (insert (normalize peer) (fresh_call now call_id connected c.video_enabled) g, ok tt)
  unfolding apply_inbound
  take_accept h = ground (arith, text_eq_iff c.call_id call_id)

  send_accept :
      c.call_id ≡ call_id
      → c.phase ≡ incoming_ringing
      → apply_outbound now peer call_id accept g
        ≡ (insert (normalize peer) (fresh_call now call_id connected c.video_enabled) g, ok tt)
  unfolding apply_outbound
  send_accept h k = ground (arith, text_eq_iff c.call_id call_id)

-- `p` calls with the lower id `low` and `q` with the higher id `high`, and each then gets the
-- invite of the other. `p` refuses the invite and keeps its own call; `q` gives up its own call and
-- rings for `low`. When `q` accepts and `p` gets that, both are connected in the call `low`.
pub glare_resolves :
    (now later : ℤ) (p q low high : Text) (at_p at_q : Store) (mine yours : PeerCall)
    → text_lt low high ≡ true
    → get (normalize q) at_p ≡ some mine
    → mine.call_id ≡ low
    → mine.phase ≡ outgoing_ringing
    → get (normalize p) at_q ≡ some yours
    → yours.call_id ≡ high
    → yours.phase ≡ outgoing_ringing
    → let at_p' = apply_inbound now q high invite at_p in
      let at_q' = apply_inbound now p low invite at_q in
      (at_p' ≡ (at_p, err busy))
      × (get (normalize p) at_q'.0 ≡ some (fresh_call now low incoming_ringing false))
      × (get (normalize p) (apply_outbound later p low accept at_q'.0).0
          ≡ some (fresh_call later low connected false))
      × (get (normalize q) (apply_inbound later q low accept at_p'.0).0
          ≡ some (fresh_call later low connected mine.video_enabled))
glare_resolves now later p q low high at_p at_q mine yours lt e_mine low_mine ring_mine e_yours
      high_yours ring_yours =
    let kept =
      take_invite_higher now q high at_p mine e_mine (rw low_mine (text_lt_asymm low high lt)) in
    let rings = take_invite_lower now p low at_q yours e_yours ring_yours (rw high_yours lt) in
    let stored = get-insert_self (normalize p) (fresh_call now low incoming_ringing false) at_q in
    (
      kept,
      rw rings stored,
      rw (rings, send_accept later p low _ _ stored refl refl) (get-insert_self (normalize p) _ _),
      rw (kept, take_accept later q low at_p mine e_mine low_mine)
          (get-insert_self (normalize q) _ _),
    )

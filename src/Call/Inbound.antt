-- ===== src/Call/Inbound.antt =====
-- `apply_inbound` of ghalbol_core/src/call_state.rs: a signal of the peer, after it is verified.
use ghal_bol.Common.{
  Bool, true, false, Option, none, some, Text, text_eq, text_lt, normalize, eq_of_text, ok, err,
  if◌then◌else◌,
}
use ghal_bol.Common.Int.{ℤ}
use ghal_bol.Common.Map.{get, insert, remove}
use ghal_bol.Call.Signal.{
  CallSigKind, invite, accept, reject, hangup, sdp_offer, sdp_answer, ice, video_on, video_off,
  key_request,
}
use ghal_bol.Call.State.{
  PeerCall, Store, Outcome, phase_eq, outgoing_ringing, incoming_ringing, connected,
  no_outgoing_call, no_active_call, call_id_mismatch, busy, fresh_call,
}

-- Where both sides call at once, the lower call_id is the canonical call.
take_invite : ℤ → Text → Text → Option PeerCall → Store → Outcome
take_invite now key call_id none g =
    (insert key (fresh_call now call_id incoming_ringing false) g, ok tt)
take_invite now key call_id (some c) g =
    if phase_eq c.phase outgoing_ringing
    then (if text_lt call_id c.call_id
        then (insert key (fresh_call now call_id incoming_ringing false) g, ok tt)
        else (g, err busy))
    else (g, err busy)

take_accept : ℤ → Text → Text → Option PeerCall → Store → Outcome
take_accept now key call_id none g = (g, err no_outgoing_call)
take_accept now key call_id (some c) g =
    if text_eq c.call_id call_id
    then (insert key (fresh_call now call_id connected c.video_enabled) g, ok tt)
    else (g, err call_id_mismatch)

take_video : Bool → Text → Text → Option PeerCall → Store → Outcome
take_video on key call_id none g = (g, err no_active_call)
take_video on key call_id (some c) g =
    if text_eq c.call_id call_id
    then (insert key (record c { call_id = call_id; video_enabled = on }) g, ok tt)
    else (g, err call_id_mismatch)

take_other : Text → Option PeerCall → Store → Outcome
take_other call_id none g = (g, err no_active_call)
take_other call_id (some c) g =
    if text_eq c.call_id call_id then (g, ok tt) else (g, err call_id_mismatch)

dispatch : ℤ → Text → Text → CallSigKind → Option PeerCall → Store → Outcome
unfolding take_invite take_accept take_video take_other
dispatch now key call_id invite cur g = take_invite now key call_id cur g
dispatch now key call_id accept cur g = take_accept now key call_id cur g
dispatch now key call_id reject cur g = (remove key g, ok tt)
dispatch now key call_id hangup cur g = (remove key g, ok tt)
dispatch now key call_id video_on cur g = take_video true key call_id cur g
dispatch now key call_id video_off cur g = take_video false key call_id cur g
dispatch now key call_id sdp_offer cur g = take_other call_id cur g
dispatch now key call_id sdp_answer cur g = take_other call_id cur g
dispatch now key call_id ice cur g = take_other call_id cur g
dispatch now key call_id key_request cur g = take_other call_id cur g

unfoldable pub apply_inbound : ℤ → Text → Text → CallSigKind → Store → Outcome
unfolding dispatch
apply_inbound now peer call_id kind g =
    let key = normalize peer in dispatch now key call_id kind (get key g) g

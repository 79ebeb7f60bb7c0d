-- ===== src/Call/Outbound.antt =====
-- `apply_outbound` of ghalbol_core/src/call_state.rs: a signal of ours, before it is sent.
use ghal_bol.Common.{
  Bool, true, false, ◌&&◌, Option, none, some, Text, text_eq, normalize, eq_of_text, ok, err,
  if◌then◌else◌,
}
use ghal_bol.Common.Int.{ℤ}
use ghal_bol.Common.Map.{get, insert, remove}
use ghal_bol.Call.Signal.{
  CallSigKind, invite, accept, reject, hangup, sdp_offer, sdp_answer, ice, video_on, video_off,
  key_request,
}
use ghal_bol.Call.State.{
  PeerCall, Store, Outcome, phase_eq, outgoing_ringing, incoming_ringing, connected, already_active,
  no_call_to_accept, no_active_call, call_id_mismatch, not_incoming_ringing, not_connected,
  fresh_call,
}

send_invite : ℤ → Text → Text → Option PeerCall → Store → Outcome
send_invite now key call_id none g =
    (insert key (fresh_call now call_id outgoing_ringing false) g, ok tt)
send_invite now key call_id (some c) g =
    if phase_eq c.phase outgoing_ringing && text_eq c.call_id call_id
    then (g, ok tt)
    else (g, err already_active)

send_accept : ℤ → Text → Text → Option PeerCall → Store → Outcome
send_accept now key call_id none g = (g, err no_call_to_accept)
send_accept now key call_id (some c) g =
    if text_eq c.call_id call_id
    then (if phase_eq c.phase incoming_ringing
        then (insert key (fresh_call now call_id connected c.video_enabled) g, ok tt)
        else (g, err not_incoming_ringing))
    else (g, err call_id_mismatch)

send_video_on : ℤ → Text → Text → Option PeerCall → Store → Outcome
send_video_on now key call_id none g = (g, err no_active_call)
send_video_on now key call_id (some c) g =
    if text_eq c.call_id call_id
    then (if phase_eq c.phase connected
        then (insert key (fresh_call now call_id connected true) g, ok tt)
        else (g, err not_connected))
    else (g, err call_id_mismatch)

send_key_request : Text → Option PeerCall → Store → Outcome
send_key_request call_id none g = (g, err no_active_call)
send_key_request call_id (some c) g =
    if text_eq c.call_id call_id
    then (if phase_eq c.phase connected then (g, ok tt) else (g, err not_connected))
    else (g, err call_id_mismatch)

set_video : Bool → Text → Text → Option PeerCall → Store → Outcome
set_video on key call_id none g = (g, err no_active_call)
set_video on key call_id (some c) g =
    if text_eq c.call_id call_id
    then (insert key (record c { call_id = call_id; video_enabled = on }) g, ok tt)
    else (g, err call_id_mismatch)

check_call : Text → Option PeerCall → Store → Outcome
check_call call_id none g = (g, err no_active_call)
check_call call_id (some c) g =
    if text_eq c.call_id call_id then (g, ok tt) else (g, err call_id_mismatch)

dispatch : ℤ → Text → Text → CallSigKind → Option PeerCall → Store → Outcome
unfolding send_invite send_accept send_video_on send_key_request set_video check_call
dispatch now key call_id invite cur g = send_invite now key call_id cur g
dispatch now key call_id accept cur g = send_accept now key call_id cur g
dispatch now key call_id reject cur g = (remove key g, ok tt)
dispatch now key call_id hangup cur g = (remove key g, ok tt)
dispatch now key call_id video_on cur g = send_video_on now key call_id cur g
dispatch now key call_id video_off cur g = set_video false key call_id cur g
dispatch now key call_id sdp_offer cur g = check_call call_id cur g
dispatch now key call_id sdp_answer cur g = check_call call_id cur g
dispatch now key call_id ice cur g = check_call call_id cur g
dispatch now key call_id key_request cur g = send_key_request call_id cur g

unfoldable pub apply_outbound : ℤ → Text → Text → CallSigKind → Store → Outcome
unfolding dispatch
apply_outbound now peer call_id kind g =
    let key = normalize peer in dispatch now key call_id kind (get key g) g

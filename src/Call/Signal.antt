-- ===== src/Call/Signal.antt =====
-- `CallSigKind` of ghalbol_core/src/call_sig_v1.rs, and its names on the wire.
use ghal_bol.Common.{Text, text, text_eq, trim, Result, ok, err, if◌then◌else◌}

pub data CallSigKind : Type 0 where
  invite accept reject hangup sdp_offer sdp_answer ice video_on video_off key_request : CallSigKind

unfoldable pub wire_name : CallSigKind → Text
wire_name invite = text "invite"
wire_name accept = text "accept"
wire_name reject = text "reject"
wire_name hangup = text "hangup"
wire_name sdp_offer = text "sdp_offer"
wire_name sdp_answer = text "sdp_answer"
wire_name ice = text "ice"
wire_name video_on = text "video_on"
wire_name video_off = text "video_off"
wire_name key_request = text "key_request"

-- The `match` on the trimmed text; the error carries the text that no arm matches.
parse_trimmed : Text → Result Text CallSigKind
parse_trimmed s =
    if text_eq s (text "invite")
    then ok invite
    else if text_eq s (text "accept")
    then ok accept
    else if text_eq s (text "reject")
    then ok reject
    else if text_eq s (text "hangup")
    then ok hangup
    else if text_eq s (text "sdp_offer")
    then ok sdp_offer
    else if text_eq s (text "sdp_answer")
    then ok sdp_answer
    else if text_eq s (text "ice")
    then ok ice
    else if text_eq s (text "video_on")
    then ok video_on
    else if text_eq s (text "video_off")
    then ok video_off
    else if text_eq s (text "key_request")
    then ok key_request
    else err s

unfoldable pub parse_wire : Text → Result Text CallSigKind
unfolding parse_trimmed
parse_wire s = parse_trimmed (trim s)

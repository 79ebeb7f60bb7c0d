-- ===== src/Call/Tests.antt =====
-- Runs of the call state, and each result at an input.
use ghal_bol.Common.{
  List, ◌≡◌, refl, ◌⊎◌, ◌↔◌, true, false, none, some, [], ◌∷◌, Text, text, text_eq, text_lt,
  normalize, eq_of_text, err,
}
use ghal_bol.Common.Int.{pos}
use ghal_bol.Common.Map.{get, insert}
use ghal_bol.Call.Active
use ghal_bol.Call.Active.{video_starts, voice_starts, video_stops, IsRunning, active-IsRunning}
use ghal_bol.Call.Signal.{invite, accept}
use ghal_bol.Call.State.{
  PeerCall, Store, idle, outgoing_ringing, incoming_ringing, connected, peer_call_phase,
  expire_stale_ringing, fresh_call, busy,
}
use ghal_bol.Call.Outbound.{apply_outbound}
use ghal_bol.Call.Inbound.{apply_inbound}
use ghal_bol.Call.Connect.{apply_inbound-connected, invite_accept_connects}
use ghal_bol.Call.Glare.{glare_resolves}
use ghal_bol.Call.Expiry.{expire_stale_ringing_lem, IsStale}
use ghal_bol.Call.Run.{received, run, run-IsSound}

abbrev ann : Text
ann = text "02aa"

abbrev bob : Text
bob = text "03bb"

-- `bob` rings `ann` since 1000.
abbrev ringing : Store
ringing = (bob, fresh_call (pos 1000) (text "c1") incoming_ringing false) ∷ []

-- `ann` rings `bob` since 1000.
abbrev calling : Store
calling = (bob, fresh_call (pos 1000) (text "a") outgoing_ringing false) ∷ []

abbrev called : Store
called = (ann, fresh_call (pos 1000) (text "b") outgoing_ringing false) ∷ []

accept_connects :
    peer_call_phase bob (apply_outbound (pos 2000) (text " 03BB ") (text "c1") accept ringing).0
    ≡ connected
unfolding peer_call_phase apply_outbound get insert normalize text_eq
accept_connects = refl

apply_inbound-connected_example :
    (before : PeerCall) × (get (normalize bob) calling ≡ some before)
    × (before.call_id ≡ text "a")
    × ((before.phase ≡ connected) ⊎ (accept ≡ accept))
apply_inbound-connected_example =
    apply_inbound-connected (pos 2000) bob (text "a") accept calling
      (fresh_call (pos 2000) (text "a") connected false)
      (unfold apply_inbound get insert normalize text_eq in refl) refl

invite_accept_connects_example :
    let ringing = (apply_inbound (pos 1) bob (text "c") invite []).0 in
    peer_call_phase bob (apply_inbound (pos 2) bob (text "c") accept ringing).0 ≡ connected
invite_accept_connects_example =
    invite_accept_connects (pos 1) (pos 2) bob (text "c") [] (unfold get in refl)

glare_resolves_example :
    let at_p' = apply_inbound (pos 2000) bob (text "b") invite calling in
    let at_q' = apply_inbound (pos 2000) ann (text "a") invite called in
    (at_p' ≡ (calling, err busy))
    × (get (normalize ann) at_q'.0 ≡ some (fresh_call (pos 2000) (text "a") incoming_ringing false))
    × (get (normalize ann) (apply_outbound (pos 2500) ann (text "a") accept at_q'.0).0
        ≡ some (fresh_call (pos 2500) (text "a") connected false))
    × (get (normalize bob) (apply_inbound (pos 2500) bob (text "a") accept at_p'.0).0
        ≡ some (fresh_call (pos 2500) (text "a") connected false))
glare_resolves_example =
    glare_resolves (pos 2000) (pos 2500) ann bob (text "a") (text "b") calling called
      (fresh_call (pos 1000) (text "a") outgoing_ringing false)
      (fresh_call (pos 1000) (text "b") outgoing_ringing false) (unfold text_lt in refl)
      (unfold get normalize text_eq in refl) refl refl (unfold get normalize text_eq in refl) refl
      refl

expire_stale_ringing_lem_example :
    ((get bob (expire_stale_ringing (pos 90000) ringing).0 ≡ none)
      × IsStale (pos 90000) (fresh_call (pos 1000) (text "c1") incoming_ringing false))
    ⊎ ((get bob (expire_stale_ringing (pos 90000) ringing).0
          ≡ some (fresh_call (pos 1000) (text "c1") incoming_ringing false))
        × (¬ IsStale (pos 90000) (fresh_call (pos 1000) (text "c1") incoming_ringing false)))
expire_stale_ringing_lem_example =
    (expire_stale_ringing_lem (pos 90000) ringing (tt, tt)).0 bob
      (fresh_call (pos 1000) (text "c1") incoming_ringing false) (unfold get text_eq in refl)

run-IsSound_example :
    (peer_call_phase bob (run [] (received (pos 1) bob (text "c") invite ∷ [])) ≡ idle)
    ↔ (get (normalize bob) (run [] (received (pos 1) bob (text "c") invite ∷ [])) ≡ none)
run-IsSound_example = (run-IsSound (received (pos 1) bob (text "c") invite ∷ [])).1 bob

-- The end of call `a` comes after the start of call `b`.
abbrev overlapping : List Active.Event
overlapping =
    video_starts (text "a") (text "ann") true
    ∷ voice_starts (text "b") (text "bob")
    ∷ video_stops (text "a")
    ∷ []

-- The picture of `a` is then told to belong to `b`.
overlapping-run :
    Active.run overlapping none
    ≡ some (record {
      call_id = text "b";
      peer_public_key_hex = text "bob";
      voice_active = true;
      video_active = true;
      camera_on = true;
      remote_video_on = false;
    })
unfolding Active.run Active.step Active.on_voice_start Active.on_video_start Active.on_video_stop
    text_eq
overlapping-run = refl

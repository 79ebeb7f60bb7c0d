-- ===== src/Call/Active.antt =====
-- ghalbol_core/src/p2p/call_active.rs: what the user interface is told of the running call.
use ghal_bol.Common.{
  Bool, true, false, ◌||◌, ◌≡◌, refl, Option, none, some, List, [], ◌∷◌, if◌then◌else◌, Text,
  text_eq, arith,
}

pub record ActiveCallSnapshot : Type 0 where
  pub call_id : Text
  pub peer_public_key_hex : Text
  pub voice_active : Bool
  pub video_active : Bool
  pub camera_on : Bool
  pub remote_video_on : Bool

-- `slot`.
abbrev pub Slot : Type 0
Slot = Option ActiveCallSnapshot

-- `unwrap_or` of a call that has nothing running.
abbrev pub or_new : Text → Text → Slot → ActiveCallSnapshot
or_new call_id peer none = record {
  call_id = call_id;
  peer_public_key_hex = peer;
  voice_active = false;
  video_active = false;
  camera_on = false;
  remote_video_on = false;
}
or_new call_id peer (some snap) = snap

-- What the interface reads of the slot.
abbrev pub snapshot : Slot → Option ActiveCallSnapshot
snapshot slot = slot

abbrev pub clear : Slot → Slot
clear slot = none

unfoldable pub on_voice_start : Text → Text → Slot → Slot
on_voice_start call_id peer slot = some (record (or_new call_id peer slot) {
  call_id = call_id;
  peer_public_key_hex = peer;
  voice_active = true;
})

unfoldable pub on_voice_stop : Text → Slot → Slot
on_voice_stop call_id none = none
on_voice_stop call_id (some snap) =
    if text_eq snap.call_id call_id
    then (if snap.video_active then some (record snap { voice_active = false }) else none)
    else some snap

unfoldable pub on_video_start : Text → Text → Bool → Slot → Slot
on_video_start call_id peer camera_enabled slot = some (record (or_new call_id peer slot) {
  call_id = call_id;
  peer_public_key_hex = peer;
  video_active = true;
  camera_on = camera_enabled;
})

unfoldable pub on_video_stop : Text → Slot → Slot
on_video_stop call_id none = none
on_video_stop call_id (some snap) =
    if text_eq snap.call_id call_id
    then (if snap.voice_active
        then some (record snap { video_active = false; camera_on = false; remote_video_on = false })
        else none)
    else some snap

unfoldable pub set_camera_on : Text → Bool → Slot → Slot
set_camera_on call_id on none = none
set_camera_on call_id on (some snap) =
    if text_eq snap.call_id call_id then some (record snap { camera_on = on }) else some snap

unfoldable pub set_remote_video_on : Text → Bool → Slot → Slot
set_remote_video_on call_id on none = none
set_remote_video_on call_id on (some snap) =
    if text_eq snap.call_id call_id then some (record snap { remote_video_on = on }) else some snap

pub data Event : Type 0 where
  voice_starts : Text → Text → Event
  voice_stops : Text → Event
  video_starts : Text → Text → Bool → Event
  video_stops : Text → Event
  camera_turns : Text → Bool → Event
  remote_turns : Text → Bool → Event
  clears : Event

unfoldable pub step : Event → Slot → Slot
step (voice_starts call_id peer) s = on_voice_start call_id peer s
step (voice_stops call_id) s = on_voice_stop call_id s
step (video_starts call_id peer camera) s = on_video_start call_id peer camera s
step (video_stops call_id) s = on_video_stop call_id s
step (camera_turns call_id on) s = set_camera_on call_id on s
step (remote_turns call_id on) s = set_remote_video_on call_id on s
step clears s = clear s

unfoldable pub run : List Event → Slot → Slot
run [] s = s
run (e ∷ es) s = run es (step e s)

-- A call is told of only while its voice or its video runs.
abbrev pub IsRunning : Slot → Type 0
IsRunning none = Unit
IsRunning (some snap) = (snap.voice_active || snap.video_active) ≡ true

step-IsRunning : (e : Event) (s : Slot) → IsRunning s → IsRunning (step e s)
unfolding step on_voice_start on_voice_stop on_video_start on_video_stop set_camera_on
    set_remote_video_on
step-IsRunning (voice_starts call_id peer) s h = refl
step-IsRunning (voice_stops call_id) none h = tt
step-IsRunning (voice_stops call_id) (some snap) h = ground (arith, h)
step-IsRunning (video_starts call_id peer camera) s h = ground arith
step-IsRunning (video_stops call_id) none h = tt
step-IsRunning (video_stops call_id) (some snap) h = ground (arith, h)
step-IsRunning (camera_turns call_id on) none h = tt
step-IsRunning (camera_turns call_id on) (some snap) h = ground (arith, h)
step-IsRunning (remote_turns call_id on) none h = tt
step-IsRunning (remote_turns call_id on) (some snap) h = ground (arith, h)
step-IsRunning clears s h = tt

run_from : (es : List Event) (s : Slot) → IsRunning s → IsRunning (run es s)
unfolding run
run_from [] s h = h
run_from (e ∷ es) s h = run_from es (step e s) (step-IsRunning e s h)

-- After any events, the user interface is told of a call only while its voice or its video runs.
pub active-IsRunning : (es : List Event) → IsRunning (snapshot (run es none))
active-IsRunning es = run_from es none tt

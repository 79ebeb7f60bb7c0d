-- ===== src/Call/State.antt =====
-- The call store of ghalbol_core/src/call_state.rs: at most one call for each peer. The mutex is
-- the store that each operation takes and returns; it is never poisoned here. The clock is an
-- argument, and the messages of `Err` are constructors.
use ghal_bol.Common.{
  ℕ, Bool, true, false, not, ◌&&◌, ◌||◌, Option, none, some, List, [], ◌∷◌, map, Text, normalize,
  eq_of_text, Result, if◌then◌else◌, length, ◌==◌,
}
use ghal_bol.Common.Int.{ℤ, pos, leb_ℤ, saturating_sub}
use ghal_bol.Common.Map.{Map, get, remove, retain}

abbrev pub max_live_call_invite_age_ms : ℕ
max_live_call_invite_age_ms = 45000

unfoldable pub call_invite_is_live : ℤ → ℤ → Bool
call_invite_is_live created_at_ms now_ms =
    let age = saturating_sub now_ms created_at_ms in
    if leb_ℤ created_at_ms (pos 0)
    then false
    else leb_ℤ (pos 0) age && leb_ℤ age (pos max_live_call_invite_age_ms)

pub data CallPhase : Type 0 where
  idle outgoing_ringing incoming_ringing connected : CallPhase

abbrev pub phase_eq : CallPhase → CallPhase → Bool
phase_eq idle idle = true
phase_eq outgoing_ringing outgoing_ringing = true
phase_eq incoming_ringing incoming_ringing = true
phase_eq connected connected = true
phase_eq _ _ = false

pub record PeerCall : Type 0 where
  pub call_id : Text
  pub phase : CallPhase
  pub video_enabled : Bool
  pub phase_at_ms : ℤ

abbrev pub Store : Type 0
Store = Map Text PeerCall

pub data CallError : Type 0 where
  already_active no_call_to_accept no_outgoing_call no_active_call call_id_mismatch : CallError
  not_incoming_ringing not_connected busy : CallError

abbrev pub Outcome : Type 0
Outcome = Store × Result CallError (Unit {0})

unfoldable pub store_for_teardown : Store → List (Text × Text)
store_for_teardown g = map (λ b. (b.0, b.1.call_id)) g

abbrev pub is_ringing : CallPhase → Bool
is_ringing incoming_ringing = true
is_ringing outgoing_ringing = true
is_ringing _ = false

-- What `retain` keeps.
abbrev pub is_fresh : ℤ → PeerCall → Bool
is_fresh now_ms c =
    not (is_ringing c.phase)
    || leb_ℤ (saturating_sub now_ms c.phase_at_ms) (pos max_live_call_invite_age_ms)

unfoldable pub expire_stale_ringing : ℤ → Store → Store × Bool
expire_stale_ringing now_ms g =
    let g' = retain (is_fresh now_ms) g in (g', not (length g' == length g))

unfoldable pub clear_peer : Text → Store → Store
clear_peer peer g = remove (normalize peer) g

unfoldable pub peer_call_phase : Text → Store → CallPhase
peer_call_phase peer g = elim (get (normalize peer) g) [ none ↦ idle | some c ↦ c.phase ]

-- The loops of the three queries below, in the order of the bindings.
abbrev first_in_phase : CallPhase → Store → Option (Text × PeerCall)
first_in_phase p [] = none
first_in_phase p ((pk, call) ∷ g) =
    if phase_eq call.phase p then some (pk, call) else first_in_phase p g

abbrev peer_and_id : Option (Text × PeerCall) → Option (Text × Text)
peer_and_id none = none
peer_and_id (some (pk, call)) = some (pk, call.call_id)

unfoldable pub first_incoming_ringing : ℤ → Store → Store × Option (Text × Text)
unfolding expire_stale_ringing
first_incoming_ringing now g =
    let g' = (expire_stale_ringing now g).0 in
    (g', peer_and_id (first_in_phase incoming_ringing g'))

unfoldable pub first_outgoing_ringing : ℤ → Store → Store × Option (Text × Text)
unfolding expire_stale_ringing
first_outgoing_ringing now g =
    let g' = (expire_stale_ringing now g).0 in
    (g', peer_and_id (first_in_phase outgoing_ringing g'))

unfoldable pub incoming_ring_age_ms : ℤ → Store → Store × Option ℤ
unfolding expire_stale_ringing
incoming_ring_age_ms now g =
    let g' = (expire_stale_ringing now g).0 in
    (
      g',
      elim (first_in_phase incoming_ringing g') [
        | none ↦ none
        | some (_, call) ↦ some (saturating_sub now call.phase_at_ms)
      ],
    )

abbrev pub fresh_call : ℤ → Text → CallPhase → Bool → PeerCall
fresh_call now call_id phase video_enabled = record {
  call_id = call_id;
  phase = phase;
  video_enabled = video_enabled;
  phase_at_ms = now;
}

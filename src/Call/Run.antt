-- ===== src/Call/Run.antt =====
-- The call store over a whole history of signals, expiries and resets.
use ghal_bol.Common.{◌≡◌, ◌≢◌, ◌↔◌, none, List, [], ◌∷◌, Text, normalize, eq_of_text, arith}
use ghal_bol.Common.Int.{ℤ}
use ghal_bol.Common.Map.{
  get, Unique, Every, insert-Unique, remove-Unique, retain-Unique, insert-Every, remove-Every,
  retain-Every, get-Every,
}
use ghal_bol.Call.Signal.{CallSigKind}
use ghal_bol.Call.State.{
  PeerCall, Store, idle, is_fresh, peer_call_phase, expire_stale_ringing, clear_peer,
}
use ghal_bol.Call.Outbound.{apply_outbound}
use ghal_bol.Call.Inbound.{apply_inbound}

-- What may happen to the store; `clear_all_calls` is `cleared_all`.
pub data Event : Type 0 where
  sent : ℤ → Text → Text → CallSigKind → Event
  received : ℤ → Text → Text → CallSigKind → Event
  expired : ℤ → Event
  cleared : Text → Event
  cleared_all : Event

unfoldable pub step : Store → Event → Store
step g (sent now peer call_id kind) = (apply_outbound now peer call_id kind g).0
step g (received now peer call_id kind) = (apply_inbound now peer call_id kind g).0
step g (expired now) = (expire_stale_ringing now g).0
step g (cleared peer) = clear_peer peer g
step g cleared_all = []

unfoldable pub run : Store → List Event → Store
run g [] = g
run g (e ∷ es) = run (step g e) es

abbrev IsCall : PeerCall → Type 0
IsCall c = c.phase ≢ idle

-- Each peer has one call at most, and no stored call is idle.
pub record IsSound (g : Store) : Type 0 where
  pub unique : Unique g
  pub calls : Every IsCall g

apply_outbound-IsSound :
    (now : ℤ) (peer call_id : Text) (kind : CallSigKind) (g : Store)
    → IsSound g
    → IsSound (apply_outbound now peer call_id kind g).0
unfolding apply_outbound
apply_outbound-IsSound now peer call_id kind g s = record {
  unique = grind (arith, insert-Unique, remove-Unique);
  calls = grind (arith, insert-Every IsCall, remove-Every IsCall, get-Every IsCall);
}

apply_inbound-IsSound :
    (now : ℤ) (peer call_id : Text) (kind : CallSigKind) (g : Store)
    → IsSound g
    → IsSound (apply_inbound now peer call_id kind g).0
unfolding apply_inbound
apply_inbound-IsSound now peer call_id kind g s = record {
  unique = grind (arith, insert-Unique, remove-Unique);
  calls = grind (arith, insert-Every IsCall, remove-Every IsCall, get-Every IsCall);
}

step-IsSound : (g : Store) (e : Event) → IsSound g → IsSound (step g e)
unfolding step clear_peer expire_stale_ringing
step-IsSound g (sent now peer call_id kind) s = apply_outbound-IsSound now peer call_id kind g s
step-IsSound g (received now peer call_id kind) s = apply_inbound-IsSound now peer call_id kind g s
step-IsSound g (expired now) s = record {
  unique = retain-Unique (is_fresh now) g s.unique;
  calls = retain-Every IsCall (is_fresh now) g s.calls;
}
step-IsSound g (cleared peer) s = record {
  unique = remove-Unique (normalize peer) g s.unique;
  calls = remove-Every IsCall (normalize peer) g s.calls;
}
step-IsSound g cleared_all s = record { unique = tt; calls = tt }

run_from-IsSound : (g : Store) (es : List Event) → IsSound g → IsSound (run g es)
unfolding run
run_from-IsSound g [] s = s
run_from-IsSound g (e ∷ es) s = run_from-IsSound (step g e) es (step-IsSound g e s)

idle_iff :
    (peer : Text) (g : Store)
    → IsSound g
    → (peer_call_phase peer g ≡ idle) ↔ (get (normalize peer) g ≡ none)
unfolding peer_call_phase
idle_iff peer g s =
    (λ h. grind (arith, get-Every IsCall (normalize peer) g s.calls), λ h. ground arith)

-- After any history of an empty store each peer has at most one call, no stored call is idle, and
-- so a peer is reported idle exactly if it has no call.
pub run-IsSound :
    (es : List Event)
    → IsSound (run [] es)
      × ((peer : Text)
          → (peer_call_phase peer (run [] es) ≡ idle) ↔ (get (normalize peer) (run [] es) ≡ none))
run-IsSound es =
    let s = run_from-IsSound [] es (record { unique = tt; calls = tt }) in
    (s, λ peer. idle_iff peer (run [] es) s)

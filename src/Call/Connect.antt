-- ===== src/Call/Connect.antt =====
-- Who connects a call: the branches of the two dispatchers that lead to `connected`.
use ghal_bol.Common.{
  ◌≡◌, ◌⊎◌, inl, inr, none, some, Text, text_eq_iff, normalize, eq_of_text, arith, Option-cases,
}
use ghal_bol.Common.Int.{ℤ}
use ghal_bol.Common.Map.{get, get-remove, get-insert_self}
use ghal_bol.Call.Signal.{CallSigKind, invite, accept}
use ghal_bol.Call.State.{PeerCall, Store, connected, peer_call_phase}
use ghal_bol.Call.Inbound.{apply_inbound}

-- If a call is connected after a signal of the peer, it was there before with the same id, and
-- either it was connected already or the signal is `accept`.
pub apply_inbound-connected :
    (now : ℤ) (peer call_id : Text) (kind : CallSigKind) (g : Store) (after : PeerCall)
    → get (normalize peer) (apply_inbound now peer call_id kind g).0 ≡ some after
    → after.phase ≡ connected
    → (before : PeerCall) × (get (normalize peer) g ≡ some before)
      × (before.call_id ≡ after.call_id)
      × ((before.phase ≡ connected) ⊎ (kind ≡ accept))
unfolding apply_inbound
apply_inbound-connected now peer call_id kind g after h c =
    elim (Option-cases (get (normalize peer) g)) [
      | inl e ↦ absurd (grind (arith, get-insert_self, get-remove, text_eq_iff))
      | inr (before, e) ↦ (
        before,
        e,
        grind (arith, get-insert_self, get-remove, text_eq_iff),
        grind (arith, get-insert_self, get-remove, text_eq_iff),
      )
    ]

-- A peer with which there is no call connects one alone: its `invite` followed by its own `accept`
-- of the same id leaves the call connected, with no signal of ours in between.
pub invite_accept_connects :
    (now later : ℤ) (peer call_id : Text) (g : Store)
    → get (normalize peer) g ≡ none
    → let ringing = (apply_inbound now peer call_id invite g).0 in
      peer_call_phase peer (apply_inbound later peer call_id accept ringing).0 ≡ connected
unfolding apply_inbound peer_call_phase
invite_accept_connects now later peer call_id g e =
    rw e (grind (arith, get-insert_self, text_eq_iff))

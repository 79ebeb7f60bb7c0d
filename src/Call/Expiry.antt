-- ===== src/Call/Expiry.antt =====
-- Rings that nobody answers go away.
use ghal_bol.Common.{
  suc, ◌∙◌, ap, ◌+◌, ◌≤◌, ◌≡◌, refl, ◌⊎◌, inl, inr, ◌↔◌, Bool, true, false, none, some, Text,
  eq_of_text, arith, Bool-cases, length, length-keep_if-le, [], ◌∷◌,
}
use ghal_bol.Common.Int.{ℤ, pos_part, neg_part, saturating_sub-le_iff}
use ghal_bol.Common.Map.{get, Unique, retain, get-retain}
use ghal_bol.Call.State.{PeerCall, Store, is_ringing, is_fresh, expire_stale_ringing}

-- The call has rung for more than 45 seconds.
abbrev pub IsStale : ℤ → PeerCall → Type 0
IsStale now c =
    (is_ringing c.phase ≡ true)
    × (suc (pos_part c.phase_at_ms + neg_part now + 45000) ≤ pos_part now + neg_part c.phase_at_ms)

is_fresh-false : (now : ℤ) (c : PeerCall) → is_fresh now c ≡ false → IsStale now c
is_fresh-false now c h = ground (arith, saturating_sub-le_iff now c.phase_at_ms 45000)

is_fresh-true : (now : ℤ) (c : PeerCall) → is_fresh now c ≡ true → ¬ IsStale now c
is_fresh-true now c h = λ s. ground (arith, saturating_sub-le_iff now c.phase_at_ms 45000)

keep_if_all : (p : PeerCall → Bool) (g : Store) → length (retain p g) ≡ length g → retain p g ≡ g
keep_if_all p [] h = refl
keep_if_all p ((k, c) ∷ g) h =
    ground (arith, keep_if_all p g, length-keep_if-le (λ (b : Text × PeerCall). p b.1) g)

-- In a store with unique keys a call goes away exactly if it has rung for more than 45 seconds, all
-- others stay as they are, and the result is false exactly if nothing changed.
pub expire_stale_ringing_lem :
    (now : ℤ) (g : Store)
    → Unique g
    → ((peer : Text) (c : PeerCall)
        → get peer g ≡ some c
        → ((get peer (expire_stale_ringing now g).0 ≡ none) × IsStale now c)
          ⊎ ((get peer (expire_stale_ringing now g).0 ≡ some c) × (¬ IsStale now c)))
      × ((peer : Text) → get peer g ≡ none → get peer (expire_stale_ringing now g).0 ≡ none)
      × (((expire_stale_ringing now g).1 ≡ false) ↔ ((expire_stale_ringing now g).0 ≡ g))
unfolding expire_stale_ringing
expire_stale_ringing_lem now g u = (
  λ peer c e. elim (Bool-cases (is_fresh now c)) [
    | inl f ↦ inr (get-retain (is_fresh now) peer g u ∙ rw (e, f), is_fresh-true now c f)
    | inr f ↦ inl (get-retain (is_fresh now) peer g u ∙ rw (e, f), is_fresh-false now c f)
  ],
  λ peer e. get-retain (is_fresh now) peer g u ∙ rw e,
  (λ h. keep_if_all (is_fresh now) g (ground arith), λ h. ground (arith, ap length h)),
)

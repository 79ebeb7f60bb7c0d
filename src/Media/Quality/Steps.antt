-- ===== src/Media/Quality/Steps.antt =====
-- When the tier of the encoder steps.
use ghal_bol.Common.{ℕ, suc, ◌≤◌, ◌<◌, ◌≡◌, ◌≢◌, ◌⊎◌, none, some, List, [], ◌∷◌, arith}
use ghal_bol.Media.Quality.{AdaptiveQuality, tier, note_wire_send, tick}

-- A report of the losses, or a tick.
pub data Event : Type 0 where
  report : ℕ → ℕ → Event
  elapse : Event

unfoldable pub step : Event → AdaptiveQuality → AdaptiveQuality
step (report drops total) q = note_wire_send drops total q
step elapse q = (tick q).0

unfoldable pub run : List Event → AdaptiveQuality → AdaptiveQuality
run [] q = q
run (e ∷ es) q = run es (step e q)

-- The index is one of a tier, and the counters are bytes that are never both at a threshold.
pub record Inv (q : AdaptiveQuality) : Type 0 where
  pub index : q.tier_idx < 4
  pub congested : q.congested_ticks ≤ 255
  pub clear : q.clear_ticks ≤ 255
  pub one : (q.congested_ticks ≡ 0) ⊎ (q.clear_ticks < 6)

pub step-Inv : (e : Event) (q : AdaptiveQuality) → Inv q → Inv (step e q)
unfolding step note_wire_send tick
step-Inv (report drops total) q v = record {
  index = ground (arith, v.index);
  congested = ground (arith, v.congested);
  clear = ground (arith, v.clear);
  one = ground (arith, v.one);
}
step-Inv elapse q v = record {
  index = ground (arith, v.index);
  congested = ground (arith, v.congested);
  clear = ground (arith, v.clear);
  one = ground (arith, v.one);
}

pub run-Inv : (es : List Event) (q : AdaptiveQuality) → Inv q → Inv (run es q)
unfolding run
run-Inv [] q v = v
run-Inv (e ∷ es) q v = run-Inv es (step e q) (step-Inv e q v)

-- What a tick does to the tier.
pub record Moves (q : AdaptiveQuality) : Type 0 where
  pub down : 8 ≤ q.congested_ticks → q.tier_idx < 3 → (tick q).0.tier_idx ≡ suc q.tier_idx
  pub up : 50 ≤ q.clear_ticks → 1 ≤ q.tier_idx → suc (tick q).0.tier_idx ≡ q.tier_idx
  pub stays :
      ((tick q).1 ≡ none → (tick q).0 ≡ q)
      × ((q.congested_ticks < 8) × (q.clear_ticks < 50) → (tick q).1 ≡ none)
  pub reported :
      (b : ℕ)
      → (tick q).1 ≡ some b
      → (b ≡ (tier (tick q).0).bitrate_bps) × ((tick q).0.tier_idx ≢ q.tier_idx)

pub tick-Moves : (q : AdaptiveQuality) → Inv q → Moves q
unfolding tick
tick-Moves q v = record {
  down = λ h k. ground arith;
  up = λ h k. ground (arith, v.one);
  stays = (λ e. ground arith, λ e. ground arith);
  reported = λ b e. (ground arith, λ same. ground (arith, v.one));
}

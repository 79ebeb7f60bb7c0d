-- ===== src/Media/Quality/Pace.antt =====
-- How many reports it takes to move the tier of the encoder.
use ghal_bol.Common.{
  ℕ, suc, ◌+◌, ◌-◌, ◌≤◌, ◌<◌, ◌≡◌, refl, ap, ◌∙◌, inl, inr, Bool, true, false, ◌&&◌, none, leb,
  some, List, [], ◌∷◌, arith, ltb, min, length, All, if◌then◌else◌, Bool-cases,
}
use ghal_bol.Media.Quality.{
  AdaptiveQuality, new, tier, note_wire_send, is_congested, next_tick, tick,
}
use ghal_bol.Media.Quality.Steps.{Event, report, elapse, step, run, Inv, run-Inv, Moves, tick-Moves}

-- The losses of a report: how many of how many frames were dropped.
abbrev pub Losses : Type 0
Losses = ℕ × ℕ

-- More frames were dropped than went through.
abbrev pub is_lossy : Losses → Bool
is_lossy (drops, total) = ltb 0 total && ltb (total - drops) drops

-- The doubled count of dropped frames is a `u32`.
abbrev pub IsCount : Losses → Type 0
IsCount r = r.0 < 2147483648

unfoldable pub reports : List Losses → List Event
reports [] = []
reports (r ∷ rs) = report r.0 r.1 ∷ reports rs

-- The lossy reports among the events, and the others.
unfoldable pub lossy : List Event → ℕ
lossy [] = 0
lossy (report drops total ∷ es) = (if is_lossy (drops, total) then 1 else 0) + lossy es
lossy (elapse ∷ es) = lossy es

unfoldable pub clear : List Event → ℕ
clear [] = 0
clear (report drops total ∷ es) = (if is_lossy (drops, total) then 0 else 1) + clear es
clear (elapse ∷ es) = clear es

-- The reports among the events count frames.
abbrev pub Counts : List Event → Type 0
Counts [] = Unit
Counts (report drops total ∷ es) = IsCount (drops, total) × Counts es
Counts (elapse ∷ es) = Counts es

-- The bit rates of the tiers.
abbrev pub bitrate_of : ℕ → ℕ
bitrate_of k =
    if ltb k 1 then 2000000 else if ltb k 2 then 1500000 else if ltb k 3 then 1000000 else 500000

lossy-Congested : (d t : ℕ) → d < 2147483648 → is_congested d t ≡ is_lossy (d, t)
lossy-Congested d t h = ground arith

report-lossy :
    (d t : ℕ) (q : AdaptiveQuality)
    → is_congested d t ≡ true
    → ((note_wire_send d t q).tier_idx ≡ q.tier_idx)
      × ((note_wire_send d t q).congested_ticks ≡ min (q.congested_ticks + 1) 255)
unfolding note_wire_send
report-lossy d t q h = rw h (refl, refl)

report-clear :
    (d t : ℕ) (q : AdaptiveQuality)
    → is_congested d t ≡ false
    → ((note_wire_send d t q).tier_idx ≡ q.tier_idx)
      × ((note_wire_send d t q).clear_ticks ≡ min (q.clear_ticks + 1) 255)
      × ((note_wire_send d t q).congested_ticks ≤ q.congested_ticks)
unfolding note_wire_send
report-clear d t q h = elim (Bool-cases (leb 6 (next_tick q.clear_ticks))) [
  | inl long ↦ rw h (rw long (refl, refl, omega arith))
  | inr short ↦ rw h (rw short (refl, refl, omega arith))
]

lossy_reports :
    (rs : List Losses) (q : AdaptiveQuality)
    → All (λ r. IsCount r × (is_lossy r ≡ true)) rs
    → q.congested_ticks ≤ 255
    → ((run (reports rs) q).tier_idx ≡ q.tier_idx)
      × ((run (reports rs) q).congested_ticks ≡ min (q.congested_ticks + length rs) 255)
unfolding run reports step
lossy_reports [] q h c = (refl, omega (arith, c))
lossy_reports (r ∷ rs) q h c =
    let (same, one) = report-lossy r.0 r.1 q (lossy-Congested r.0 r.1 h.0.0 ∙ h.0.1) in
    let (tier, more) = lossy_reports rs (note_wire_send r.0 r.1 q) h.1 (omega (arith, one)) in
    (tier ∙ same, omega (arith, more, one))

clear_reports :
    (rs : List Losses) (q : AdaptiveQuality)
    → All (λ r. IsCount r × (is_lossy r ≡ false)) rs
    → q.clear_ticks ≤ 255
    → ((run (reports rs) q).tier_idx ≡ q.tier_idx)
      × ((run (reports rs) q).clear_ticks ≡ min (q.clear_ticks + length rs) 255)
unfolding run reports step
clear_reports [] q h c = (refl, omega (arith, c))
clear_reports (r ∷ rs) q h c =
    let (same, one, kept) = report-clear r.0 r.1 q (lossy-Congested r.0 r.1 h.0.0 ∙ h.0.1) in
    let (tier, more) = clear_reports rs (note_wire_send r.0 r.1 q) h.1 (omega (arith, one)) in
    (tier ∙ same, omega (arith, more, one))

report-counts :
    (d t : ℕ) (q : AdaptiveQuality)
    → d < 2147483648
    → ((note_wire_send d t q).tier_idx ≡ q.tier_idx)
      × ((note_wire_send d t q).congested_ticks
          ≤ q.congested_ticks + (if is_lossy (d, t) then 1 else 0))
      × ((note_wire_send d t q).clear_ticks ≤ q.clear_ticks + (if is_lossy (d, t) then 0 else 1))
unfolding note_wire_send
report-counts d t q h = rw⁻¹ (lossy-Congested d t h) (ground arith, ground arith, ground arith)

-- Fewer than eight lossy reports and fewer than fifty others leave the tier as it is.
abbrev pub Holds : AdaptiveQuality → Type 0
Holds q =
    (es : List Event) → Counts es → lossy es < 8 → clear es < 50 → (run es q).tier_idx ≡ q.tier_idx

idle_tick : (q : AdaptiveQuality) → q.congested_ticks < 8 → q.clear_ticks < 50 → tick q ≡ (q, none)
unfolding tick
idle_tick q h k = ground arith

few_hold :
    (es : List Event) (q : AdaptiveQuality)
    → Counts es
    → q.congested_ticks + lossy es < 8
    → q.clear_ticks + clear es < 50
    → (run es q).tier_idx ≡ q.tier_idx
unfolding run step lossy clear
few_hold [] q c h k = refl
few_hold (report d t ∷ es) q c h k =
    let (same, lost, fine) = report-counts d t q c.0 in
    few_hold es (note_wire_send d t q) c.1 (omega (arith, h, lost)) (omega (arith, k, fine)) ∙ same
few_hold (elapse ∷ es) q c h k =
    let idle = idle_tick q (omega (arith, h)) (omega (arith, k)) in
    ap (λ r. (run es r.0).tier_idx) idle ∙ few_hold es q c h k

-- A tick that steps sets both counters back.
tick-resets :
    (q : AdaptiveQuality) (b : ℕ)
    → (tick q).1 ≡ some b
    → ((tick q).0.congested_ticks ≡ 0) × ((tick q).0.clear_ticks ≡ 0)
unfolding tick
tick-resets q b e = (ground arith, ground arith)

tick-down :
    (q : AdaptiveQuality)
    → 8 ≤ q.congested_ticks
    → q.tier_idx < 3
    → ((tick q).1 ≡ some (bitrate_of (suc q.tier_idx))) × ((tick q).0.tier_idx ≡ suc q.tier_idx)
unfolding tick
tick-down q h k = (ground arith, ground arith)

tick-up :
    (q : AdaptiveQuality)
    → q.congested_ticks < 8
    → 50 ≤ q.clear_ticks
    → 1 ≤ q.tier_idx
    → q.tier_idx < 4
    → ((tick q).1 ≡ some (bitrate_of (q.tier_idx - 1))) × (suc (tick q).0.tier_idx ≡ q.tier_idx)
unfolding tick
tick-up q c h k l = (ground arith, ground arith)

-- What reports and the tick after them do.
pub record Paces (q : AdaptiveQuality) : Type 0 where
  pub down :
      (rs : List Losses)
      → All (λ r. IsCount r × (is_lossy r ≡ true)) rs
      → 8 ≤ length rs
      → q.tier_idx < 3
      → ((tick (run (reports rs) q)).1 ≡ some (bitrate_of (suc q.tier_idx)))
        × ((tick (run (reports rs) q)).0.tier_idx ≡ suc q.tier_idx)
  pub up :
      (rs : List Losses)
      → All (λ r. IsCount r × (is_lossy r ≡ false)) rs
      → 50 ≤ length rs
      → 1 ≤ q.tier_idx
      → ((tick (run (reports rs) q)).1 ≡ some (bitrate_of (q.tier_idx - 1)))
        × (suc (tick (run (reports rs) q)).0.tier_idx ≡ q.tier_idx)
  pub holds : (b : ℕ) → (tick q).1 ≡ some b → Holds (tick q).0

all-Paces : (q : AdaptiveQuality) → Inv q → Paces q
all-Paces q v = record {
  down = λ rs h n k.
      let (same, more) = lossy_reports rs q h v.congested in
      let (rate, next) =
        tick-down (run (reports rs) q) (omega (arith, more, n)) (omega (arith, same, k)) in
      (rate ∙ ap (λ i. some (bitrate_of (suc i))) same, next ∙ ap suc same);
  up = λ rs h n k.
      let (same, more) = clear_reports rs q h v.clear in
      let v' = run-Inv (reports rs) q v in
      let (rate, next) =
        tick-up (run (reports rs) q) (ground (arith, v'.one, more, n)) (omega (arith, more, n))
          (omega (arith, same, k)) v'.index in
      (rate ∙ ap (λ i. some (bitrate_of (i - 1))) same, next ∙ same);
  holds = λ b e es c h k.
      let (lost, fine) = tick-resets q b e in
      few_hold es (tick q).0 c (omega (arith, lost, h)) (omega (arith, fine, k));
}

-- After any reports and ticks the index is one of the four tiers; a tick reports the bit rate of the new tier
-- exactly if it steps, and steps only if a counter is at its threshold. A report is lossy if more frames were
-- dropped than went through. Eight lossy reports or more and a tick step one tier down (unless at the last),
-- fifty others or more and a tick one up (unless at the first), and the tick reports that tier's bit rate. After
-- a step, and at the start, fewer than eight lossy reports and fewer than fifty others, with any ticks, leave the
-- tier as it is. In these reports the counts of dropped frames are below 2 ^ 31.
pub run-Moves :
    (es : List Event)
    → ((run es new).tier_idx < 4) × Moves (run es new) × Paces (run es new) × Holds new
run-Moves es =
    let v = run-Inv es new (record {
      index = omega arith;
      congested = omega arith;
      clear = omega arith;
      one = inl refl;
    }) in
    (
      v.index,
      tick-Moves (run es new) v,
      all-Paces (run es new) v,
      λ later c h k. few_hold later new c (omega (arith, h)) (omega (arith, k)),
    )

-- ===== src/Media/Quality.antt =====
-- ghalbol_core/src/call_video/quality.rs: the tier of the encoder, from the losses of the wire.
pub mod Steps
pub mod Pace
use ghal_bol.Common.{
  ℕ, suc, ◌+◌, ◌-◌, ◌*◌, ◌%◌, min, Bool, true, false, ◌&&◌, Option, none, some, List, [], ◌∷◌, ltb,
  leb, length, if◌then◌else◌,
}

pub record Tier : Type 0 where
  pub max_edge : ℕ
  pub bitrate_bps : ℕ

abbrev pub tiers : List Tier
tiers =
    record { max_edge = 640; bitrate_bps = 2000000 }
    ∷ record { max_edge = 560; bitrate_bps = 1500000 }
    ∷ record { max_edge = 480; bitrate_bps = 1000000 }
    ∷ record { max_edge = 360; bitrate_bps = 500000 }
    ∷ []

-- `TIERS[k]`, with the last tier in place of a panic out of range.
abbrev pub tier_from : List Tier → ℕ → Tier
tier_from [] k = record { max_edge = 360; bitrate_bps = 500000 }
tier_from (t ∷ ts) k = if ltb 0 k then tier_from ts (k - 1) else t

abbrev pub tiers_len : ℕ
tiers_len = length tiers

-- The counters are bytes.
pub record AdaptiveQuality : Type 0 where
  pub tier_idx : ℕ
  pub congested_ticks : ℕ
  pub clear_ticks : ℕ
  pub last_logged_tier : ℕ

abbrev pub new : AdaptiveQuality
new = record { tier_idx = 0; congested_ticks = 0; clear_ticks = 0; last_logged_tier = 0 }

abbrev pub tier : AdaptiveQuality → Tier
tier q = tier_from tiers q.tier_idx

-- `saturating_add(1)` on a byte.
abbrev pub next_tick : ℕ → ℕ
next_tick n = min (n + 1) 255

-- `drops * 2` is a `u32`, and wraps in a release build.
abbrev pub is_congested : ℕ → ℕ → Bool
is_congested drops total = ltb 0 total && ltb total (drops * 2 % 4294967296)

unfoldable pub note_wire_send : ℕ → ℕ → AdaptiveQuality → AdaptiveQuality
note_wire_send drops total q =
    let clear = next_tick q.clear_ticks in
    if is_congested drops total
    then record q { congested_ticks = next_tick q.congested_ticks; clear_ticks = 0 }
    else if leb 6 clear
    then record q { clear_ticks = clear; congested_ticks = 0 }
    else record q { clear_ticks = clear }

abbrev pub log_tier_change : AdaptiveQuality → AdaptiveQuality × ℕ
log_tier_change q = (record q { last_logged_tier = q.tier_idx }, (tier q).bitrate_bps)

-- The tier `k`, with both counters back at zero.
abbrev pub moved_to : ℕ → AdaptiveQuality → AdaptiveQuality × Option ℕ
moved_to k q =
    let r = log_tier_change (record q { tier_idx = k; congested_ticks = 0; clear_ticks = 0 }) in
    (r.0, some r.1)

unfoldable pub tick : AdaptiveQuality → AdaptiveQuality × Option ℕ
tick q =
    if leb 8 q.congested_ticks && ltb (q.tier_idx + 1) tiers_len
    then moved_to (q.tier_idx + 1) q
    else if leb 50 q.clear_ticks && ltb 0 q.tier_idx
    then moved_to (q.tier_idx - 1) q
    else (q, none)

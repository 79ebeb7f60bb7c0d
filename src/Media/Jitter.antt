-- ===== src/Media/Jitter.antt =====
-- `JitterBuffer` of ghalbol_core/src/call_media/jitter.rs. The B-tree map is the list of its
-- bindings in ascending order; a sequence number is a `u64`, and its successor wraps.
pub mod Order
pub mod Tick
pub mod Play
mod Tests
use ghal_bol.Common.{
  ℕ, ◌+◌, ◌%◌, max, Bool, true, false, Option, none, some, List, [], ◌∷◌, ltb, leb, length, any,
  if◌then◌else◌,
}
use ghal_bol.Common.OrdMap.{OrdMap, get, insert, remove, first_key}

pub record MediaFrame : Type 0 where
  pub seq : ℕ
  pub ts : ℕ
  pub flags : ℕ
  pub payload : List ℕ

pub data Playout : Type 0 where
  frame : MediaFrame → Playout
  conceal silence : Playout

pub record JitterBuffer : Type 0 where
  pub target_depth : ℕ
  pub max_depth : ℕ
  pub frames : OrdMap MediaFrame
  pub next_seq : Option ℕ
  pub started : Bool

abbrev pub default_jitter_target : ℕ
default_jitter_target = 4

abbrev pub default_jitter_max : ℕ
default_jitter_max = 16

unfoldable pub new : ℕ → ℕ → JitterBuffer
new target_depth max_depth = record {
  target_depth = max target_depth 1;
  max_depth = max max_depth (max target_depth 1);
  frames = [];
  next_seq = none;
  started = false;
}

abbrev pub after : ℕ → ℕ
after n = (n + 1) % 18446744073709551616

-- The cursor passes a frame that is dropped.
abbrev pub skip_past : ℕ → Option ℕ → Option ℕ
skip_past oldest none = none
skip_past oldest (some n) = if leb n oldest then some (after oldest) else some n

-- The loop of `push`: the oldest frames go until the rest fits.
drop_oldest : ℕ → OrdMap MediaFrame → Option ℕ → OrdMap MediaFrame × Option ℕ
drop_oldest max_depth [] next_seq = ([], next_seq)
drop_oldest max_depth ((oldest, f) ∷ m) next_seq =
    let rest = drop_oldest max_depth m (skip_past oldest next_seq) in
    if ltb max_depth (length ((oldest, f) ∷ m)) then rest else ((oldest, f) ∷ m, next_seq)

abbrev pub is_late : ℕ → Option ℕ → Bool
is_late seq none = false
is_late seq (some n) = ltb seq n

unfoldable pub push : MediaFrame → JitterBuffer → JitterBuffer
unfolding drop_oldest
push f b =
    let kept = drop_oldest b.max_depth (insert f.seq f b.frames) b.next_seq in
    if is_late f.seq b.next_seq then b else record b { frames = kept.0; next_seq = kept.1 }

-- `range(lo..).next().is_some()`.
abbrev pub has_from : ℕ → OrdMap MediaFrame → Bool
has_from lo m = any (λ b. leb lo b.0) m

play_from : ℕ → Option MediaFrame → JitterBuffer → JitterBuffer × Playout
play_from n (some f) b =
    (record b { frames = remove n b.frames; next_seq = some (after n) }, frame f)
play_from n none b =
    if has_from (after n) b.frames
    then (record b { next_seq = some (after n) }, conceal)
    else (record b { started = false }, silence)

play : Option ℕ → JitterBuffer → JitterBuffer × Playout
unfolding play_from
play none b = (b, silence)
play (some n) b = play_from n (get n b.frames) b

unfoldable pub pop : JitterBuffer → JitterBuffer × Playout
unfolding play
pop b =
    if b.started
    then play b.next_seq b
    else if ltb (length b.frames) b.target_depth
    then (b, silence)
    else play (first_key b.frames) (record b { started = true; next_seq = first_key b.frames })

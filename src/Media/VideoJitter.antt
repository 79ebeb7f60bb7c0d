-- ===== src/Media/VideoJitter.antt =====
-- `VideoJitter` of ghalbol_core/src/call_video/jitter.rs: a buffer that knows which frames can be
-- decoded alone. A frame number is a `u32`, and its successor wraps.
pub mod Order
pub mod Prune
pub mod Tick
pub mod Play
pub mod Overflow
mod Tests
use ghal_bol.Common.{
  ℕ, ◌+◌, ◌%◌, max, Bool, true, false, Option, none, some, List, [], ◌∷◌, ltb, leb, length, keep_if,
  if◌then◌else◌,
}
use ghal_bol.Common.OrdMap.{OrdMap, get, insert, remove}

pub record EncodedVideoFrame : Type 0 where
  pub keyframe : Bool
  pub bytes : List ℕ

abbrev pub Frames : Type 0
Frames = OrdMap EncodedVideoFrame

pub record VideoJitter : Type 0 where
  pub frames : Frames
  pub next_seq : Option ℕ
  pub started : Bool
  pub max_depth : ℕ
  pub keyframe_request : Bool

unfoldable pub new : ℕ → VideoJitter
new max_depth = record {
  frames = [];
  next_seq = none;
  started = false;
  max_depth = max max_depth 2;
  keyframe_request = false;
}

abbrev pub after : ℕ → ℕ
after n = (n + 1) % 4294967296

abbrev pub skip_past : ℕ → Option ℕ → Option ℕ
skip_past oldest none = none
skip_past oldest (some n) = if leb n oldest then some (after oldest) else some n

-- The loop of `push`: what stays, the cursor, and whether a keyframe is wanted.
drop_oldest : ℕ → Frames → Option ℕ → Bool → Frames × Option ℕ × Bool
drop_oldest max_depth [] next_seq wanted = ([], next_seq, wanted)
drop_oldest max_depth ((oldest, f) ∷ m) next_seq wanted =
    let rest = drop_oldest max_depth m (skip_past oldest next_seq) true in
    if ltb max_depth (length ((oldest, f) ∷ m)) then rest else ((oldest, f) ∷ m, next_seq, wanted)

abbrev pub is_late : ℕ → Option ℕ → Bool
is_late seq none = false
is_late seq (some n) = ltb seq n

unfoldable pub push : ℕ → EncodedVideoFrame → VideoJitter → VideoJitter
unfolding drop_oldest
push frame_seq f j =
    let kept =
      drop_oldest j.max_depth (insert frame_seq f j.frames) j.next_seq j.keyframe_request in
    if is_late frame_seq j.next_seq
    then j
    else record j { frames = kept.0; next_seq = kept.1; keyframe_request = kept.2 }

-- `iter().find(|(_, f)| f.keyframe)`: the number of the first keyframe.
abbrev pub first_keyframe : Frames → Option ℕ
first_keyframe [] = none
first_keyframe ((s, f) ∷ m) = if f.keyframe then some s else first_keyframe m

-- The bindings of `range(..s)` go.
abbrev pub drop_before : ℕ → Frames → Frames
drop_before s m = keep_if (λ b. leb s b.0) m

abbrev pub Popped : Type 0
Popped = VideoJitter × Option EncodedVideoFrame

stall : VideoJitter → Popped
stall j = (record j { keyframe_request = true }, none)

jump_to : ℕ → Option EncodedVideoFrame → VideoJitter → Popped
unfolding stall
jump_to ks none j = stall j
jump_to ks (some f) j =
    (record j { frames = remove ks j.frames; next_seq = some (after ks) }, some f)

recover : Option ℕ → VideoJitter → Popped
unfolding jump_to stall
recover none j = stall j
recover (some ks) j =
    let pruned = drop_before ks j.frames in
    jump_to ks (get ks pruned) (record j { frames = pruned })

play_from : ℕ → Option EncodedVideoFrame → VideoJitter → Popped
unfolding recover
play_from n (some f) j =
    (record j { frames = remove n j.frames; next_seq = some (after n) }, some f)
play_from n none j = recover (first_keyframe j.frames) j

play : Option ℕ → VideoJitter → Popped
unfolding play_from
play none j = (j, none)
play (some n) j = play_from n (get n j.frames) j

start : Option ℕ → VideoJitter → Popped
unfolding play stall
start none j = stall j
start (some s) j =
    play (some s) (record j { frames = drop_before s j.frames; next_seq = some s; started = true })

pop_from : Frames → VideoJitter → Popped
unfolding play start
pop_from [] j = (j, none)
pop_from (b ∷ m) j = if j.started then play j.next_seq j else start (first_keyframe (b ∷ m)) j

unfoldable pub pop : VideoJitter → Popped
unfolding pop_from
pop j = pop_from j.frames j

unfoldable pub take_keyframe_request : VideoJitter → VideoJitter × Bool
take_keyframe_request j = (record j { keyframe_request = false }, j.keyframe_request)

-- ===== src/Media/VideoJitter/Overflow.antt =====
-- The other case: a frame arrives at a full buffer that waits behind a gap.
use ghal_bol.Common.{ℕ, ◌+◌, ◌<◌, ◌≡◌, sym, ap, ◌∙◌, Bool, true, none, some, ◌∷◌, arith, length}
use ghal_bol.Common.OrdMap.{get, insert, length-insert_new}
use ghal_bol.Media.VideoJitter.{EncodedVideoFrame, Frames, VideoJitter, push, pop, drop_oldest}

drop_oldest_full :
    (max_depth n k seq : ℕ) (a b f : EncodedVideoFrame) (rest : Frames) (wanted : Bool)
    → n < k
    → k + 1 < 4294967295
    → k + 1 < seq
    → get seq rest ≡ none
    → length ((k, a) ∷ (k + 1, b) ∷ rest) ≡ max_depth
    → drop_oldest max_depth (insert seq f ((k, a) ∷ (k + 1, b) ∷ rest)) (some n) wanted
      ≡ ((k + 1, b) ∷ insert seq f rest, some (k + 1), true)
unfolding insert drop_oldest
drop_oldest_full max_depth n k seq a b f rest wanted gap range later fresh full =
    ground (arith, length-insert_new seq f rest fresh)

push_full :
    (j : VideoJitter) (n k seq : ℕ) (a b f : EncodedVideoFrame) (rest : Frames)
    → j.next_seq ≡ some n
    → j.frames ≡ (k, a) ∷ (k + 1, b) ∷ rest
    → n < k
    → k + 1 < 4294967295
    → k + 1 < seq
    → get seq rest ≡ none
    → length j.frames ≡ j.max_depth
    → push seq f j ≡ record j {
      frames = (k + 1, b) ∷ insert seq f rest;
      next_seq = some (k + 1);
      keyframe_request = true;
    }
unfolding push
push_full j n k seq a b f rest at held gap range later fresh full =
    let e =
      drop_oldest_full j.max_depth n k seq a b f rest j.keyframe_request gap range later fresh
        (ap length (sym held) ∙ full) in
    ground (arith, e)

-- A started buffer is full, its cursor stands at a missing frame `n`, and the oldest frames that it
-- holds are `k` and `k + 1`, behind the gap. When a later frame arrives, `k` is dropped and the next
-- tick hands on `k + 1`, keyframe or not: it follows frames that were never decoded.
pub overflow_breaks_chain :
    (j : VideoJitter) (n k seq : ℕ) (a b f : EncodedVideoFrame) (rest : Frames)
    → j.started ≡ true
    → j.next_seq ≡ some n
    → j.frames ≡ (k, a) ∷ (k + 1, b) ∷ rest
    → n < k
    → k + 1 < 4294967295
    → k + 1 < seq
    → get seq rest ≡ none
    → length j.frames ≡ j.max_depth
    → (pop (push seq f j)).1 ≡ some b
unfolding pop get
overflow_breaks_chain j n k seq a b f rest on at held gap range later fresh full =
    rw (push_full j n k seq a b f rest at held gap range later fresh full) (ground arith)

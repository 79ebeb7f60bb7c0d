-- ===== src/Media/VideoJitter/Tick.antt =====
-- One tick of the video jitter buffer.
use ghal_bol.Common.{
  ℕ, suc, ◌≤◌, ◌≡◌, refl, ap, subst, ◌∙◌, ◌⊎◌, inl, inr, Bool, true, false, Option, none, some, [],
  ◌∷◌, arith, leb, length, All, if◌then◌else◌, length-keep_if-le, All-keep_if,
}
use ghal_bol.Common.OrdMap.{
  get, remove, Sorted, Sorted-mono, length-remove-le, remove-All, get-All, remove-Sorted_next,
}
use ghal_bol.Media.VideoJitter.{
  EncodedVideoFrame, Frames, VideoJitter, pop, after, first_keyframe, drop_before, stall, recover,
  play_from, play, start, pop_from,
}
use ghal_bol.Media.VideoJitter.Order.{cursor, IsBinding, Inv}
use ghal_bol.Media.VideoJitter.Prune.{drop_before-Sorted, get-drop_before, first_keyframe_found}

-- `f` was buffered at a number that is not behind the cursor, and the cursor moves to the number
-- after it. It can be decoded alone, or it stands at the cursor of a buffer that has started.
abbrev pub Emitted : VideoJitter → VideoJitter → EncodedVideoFrame → Type 0
Emitted j j' f =
    (s : ℕ) × (cursor j.next_seq ≤ s)
    × (cursor j'.next_seq ≡ suc s)
    × (get s j.frames ≡ some f)
    × ((f.keyframe ≡ true) ⊎ ((j.started ≡ true) × (j.next_seq ≡ some s)))

-- What one tick does to a buffer in order.
pub record Ticks (j : VideoJitter) (r : VideoJitter × Option EncodedVideoFrame) : Type 0 where
  pub inv : Inv r.0
  pub later : cursor j.next_seq ≤ cursor r.0.next_seq
  pub emitted : (f : EncodedVideoFrame) → r.1 ≡ some f → Emitted j r.0 f
  pub stalled : r.1 ≡ none → (r.0.keyframe_request ≡ true) ⊎ (j.frames ≡ [])
  pub quiet : r.1 ≡ none → (r.0.started ≡ j.started) × (r.0.next_seq ≡ j.next_seq)

stall-Ticks : (j : VideoJitter) → Inv j → Ticks j (stall j)
unfolding stall
stall-Ticks j v = record {
  inv = record {
    depth = v.depth;
    bounded = v.bounded;
    sorted = v.sorted;
    bindings = v.bindings;
    ranged = v.ranged;
    begun = v.begun;
  };
  later = omega arith;
  emitted = λ f e. absurd (ground arith);
  stalled = λ e. inl refl;
  quiet = λ e. (refl, refl);
}

some_injective : (f f' : EncodedVideoFrame) → some f ≡ some f' → f ≡ f'
some_injective f f' p = cc

-- A frame `f` at the head of what is left is taken out.
module _ (j : VideoJitter) (v : Inv j) (on : Bool) (m : Frames) (n : ℕ)
    (f : EncodedVideoFrame) where
  emit_Ticks :
      cursor j.next_seq ≤ n
      → Sorted n m
      → length m ≤ j.max_depth
      → All IsBinding m
      → get n m ≡ some f
      → get n j.frames ≡ some f
      → ((f.keyframe ≡ true) ⊎ ((j.started ≡ true) × (j.next_seq ≡ some n)))
      → Ticks j (record j { frames = remove n m; next_seq = some (after n); started = on }, some f)
  emit_Ticks h s l b g g' why =
      let r = get-All IsBinding n m b g in
      record {
        inv = record {
          depth = v.depth;
          bounded = omega (arith, length-remove-le n m);
          sorted = Sorted-mono (remove n m) (omega arith) (remove-Sorted_next n m s);
          bindings = remove-All IsBinding n m b;
          ranged = omega arith;
          begun = λ t e. ground arith;
        };
        later = omega arith;
        emitted = λ f' p.
            subst
              (Emitted j
                (record j { frames = remove n m; next_seq = some (after n); started = on }))
              (some_injective f f' p) (n, h, omega arith, g', why);
        stalled = λ p. absurd (ground arith);
        quiet = λ p. absurd (ground arith);
      }

recover-Ticks :
    (key : Option ℕ) (j : VideoJitter)
    → first_keyframe j.frames ≡ key
    → Inv j
    → Ticks j (recover key j)
unfolding recover
recover-Ticks none j e v = stall-Ticks j v
recover-Ticks (some ks) j e v =
    let (f, g, key, later) = first_keyframe_found ks (cursor j.next_seq) j.frames e v.sorted in
    let g' = get-drop_before ks j.frames ∙ g in
    rw g' (
      emit_Ticks j v j.started (drop_before ks j.frames) ks f later
        (drop_before-Sorted ks (cursor j.next_seq) j.frames v.sorted)
        (omega (
          arith,
          v.bounded,
          length-keep_if-le (λ (b : ℕ × EncodedVideoFrame). leb ks b.0) j.frames,
        ))
        (All-keep_if IsBinding (λ b. leb ks b.0) j.frames v.bindings) g' g (inl key))

play_at :
    (n : ℕ) (o : Option EncodedVideoFrame) (j : VideoJitter)
    → j.next_seq ≡ some n
    → j.started ≡ true
    → get n j.frames ≡ o
    → Inv j
    → Ticks j (play_from n o j)
unfolding play_from
play_at n none j e t g v = recover-Ticks (first_keyframe j.frames) j refl v
play_at n (some f) j e t g v =
    emit_Ticks j v j.started j.frames n f (omega (arith, ap cursor e))
      (subst (λ (o : Option ℕ). Sorted (cursor o) j.frames) e v.sorted) v.bounded v.bindings g g
      (inr (t, e))

play_started :
    (o : Option ℕ) (j : VideoJitter)
    → j.next_seq ≡ o
    → j.started ≡ true
    → Inv j
    → Ticks j (play o j)
unfolding play
play_started none j e t v = absurd (v.begun t e)
play_started (some n) j e t v = play_at n (get n j.frames) j e t refl v

start-Ticks :
    (key : Option ℕ) (j : VideoJitter)
    → first_keyframe j.frames ≡ key
    → Inv j
    → Ticks j (start key j)
unfolding start
start-Ticks none j e v = stall-Ticks j v
start-Ticks (some ks) j e v =
    let (f, g, key, later) = first_keyframe_found ks (cursor j.next_seq) j.frames e v.sorted in
    let g' = get-drop_before ks j.frames ∙ g in
    rw g' (
      emit_Ticks j v true (drop_before ks j.frames) ks f later
        (drop_before-Sorted ks (cursor j.next_seq) j.frames v.sorted)
        (omega (
          arith,
          v.bounded,
          length-keep_if-le (λ (b : ℕ × EncodedVideoFrame). leb ks b.0) j.frames,
        ))
        (All-keep_if IsBinding (λ b. leb ks b.0) j.frames v.bindings) g' g (inl key))

started_or_not :
    (on : Bool) (j : VideoJitter)
    → j.started ≡ on
    → Inv j
    → Ticks j (if on then play j.next_seq j else start (first_keyframe j.frames) j)
started_or_not true j t v = play_started j.next_seq j refl t v
started_or_not false j t v = start-Ticks (first_keyframe j.frames) j refl v

pop_from-Ticks : (m : Frames) (j : VideoJitter) → j.frames ≡ m → Inv j → Ticks j (pop_from m j)
unfolding pop_from
pop_from-Ticks [] j e v = record {
  inv = v;
  later = omega arith;
  emitted = λ f p. absurd (ground arith);
  stalled = λ p. inr e;
  quiet = λ p. (refl, refl);
}
pop_from-Ticks (b ∷ m) j e v =
    subst
      (λ (m' : Frames).
        Ticks j (if j.started then play j.next_seq j else start (first_keyframe m') j))
      e (started_or_not j.started j refl v)

-- A tick keeps the invariant and never moves the cursor back. A frame that it hands to the decoder
-- can be decoded alone, or stands at the cursor of a started buffer. If it hands on nothing though
-- the buffer is not empty, a keyframe is asked for.
pub pop-Ticks : (j : VideoJitter) → Inv j → Ticks j (pop j)
unfolding pop
pop-Ticks j v = pop_from-Ticks j.frames j refl v

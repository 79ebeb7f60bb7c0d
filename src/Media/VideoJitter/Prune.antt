-- ===== src/Media/VideoJitter/Prune.antt =====
-- The search for a keyframe, and the frames that go before one.
use ghal_bol.Common.{
  Bool, false, Option, none, ltb, leb, length, All, All-keep_if, if◌then◌else◌, ℕ, suc, ◌≤◌, ◌≡◌,
  refl, true, some, [], ◌∷◌, arith, inl, inr, Bool-cases,
}
use ghal_bol.Common.OrdMap.{get, insert, insert-All, remove-All, Sorted, Sorted-mono}
use ghal_bol.Media.VideoJitter.{
  EncodedVideoFrame, Frames, VideoJitter, first_keyframe, drop_before, skip_past, is_late,
  drop_oldest, push, stall, jump_to, recover, play_from, play, start, pop_from, pop,
}

drop_before-Sorted_same : (s lo : ℕ) (m : Frames) → Sorted lo m → Sorted lo (drop_before s m)
drop_before-Sorted_same s lo [] h = tt
drop_before-Sorted_same s lo ((k, f) ∷ m) h = ground (
  arith,
  drop_before-Sorted_same s (suc k) m h.1,
  Sorted-mono {lo = lo} {hi = suc k} (drop_before s m),
)

pub drop_before-Sorted : (s lo : ℕ) (m : Frames) → Sorted lo m → Sorted s (drop_before s m)
drop_before-Sorted s lo [] h = tt
drop_before-Sorted s lo ((k, f) ∷ m) h =
    ground (arith, drop_before-Sorted s (suc k) m h.1, drop_before-Sorted_same s (suc k) m h.1)

pub get-drop_before : (s : ℕ) (m : Frames) → get s (drop_before s m) ≡ get s m
unfolding get
get-drop_before s [] = refl
get-drop_before s ((k, f) ∷ m) = ground (arith, get-drop_before s m)

-- The number that the search finds is that of a keyframe.
pub first_keyframe_found :
    (s lo : ℕ) (m : Frames)
    → first_keyframe m ≡ some s
    → Sorted lo m
    → (f : EncodedVideoFrame) × (get s m ≡ some f) × (f.keyframe ≡ true) × (lo ≤ s)
unfolding get
first_keyframe_found s lo [] e h = cc
first_keyframe_found s lo ((k, f) ∷ m) e h = elim (Bool-cases f.keyframe) [
  | inl key ↦ (f, ground arith, key, ground arith)
  | inr delta ↦
      let (g, found, key, later) = first_keyframe_found s (suc k) m (ground arith) h.1 in
      (g, ground arith, key, omega arith)
]

-- What holds of each frame that is buffered.
module _ (P : ℕ × EncodedVideoFrame → Type 0) where
  drop_oldest-All :
      (n : ℕ) (m : Frames) (next : Option ℕ) (wanted : Bool)
      → All P m
      → All P (drop_oldest n m next wanted).0
  unfolding drop_oldest
  drop_oldest-All n [] next wanted h = tt
  drop_oldest-All n ((k, f) ∷ m) next wanted h = elim (Bool-cases (ltb n (length ((k, f) ∷ m)))) [
    | inl full ↦ rw full (drop_oldest-All n m (skip_past k next) true h.1)
    | inr room ↦ rw room h
  ]

  pub push-All :
      (s : ℕ) (f : EncodedVideoFrame) (j : VideoJitter)
      → P (s, f)
      → All P j.frames
      → All P (push s f j).frames
  unfolding push
  push-All s f j p h = elim (Bool-cases (is_late s j.next_seq)) [
    | inl late ↦ rw late h
    | inr fresh ↦ rw fresh (
        drop_oldest-All j.max_depth (insert s f j.frames) j.next_seq j.keyframe_request
          (insert-All P s f j.frames p h))
  ]

  jump_to-All :
      (ks : ℕ) (o : Option EncodedVideoFrame) (j : VideoJitter)
      → All P j.frames
      → All P (jump_to ks o j).0.frames
  unfolding jump_to stall
  jump_to-All ks none j h = h
  jump_to-All ks (some f) j h = remove-All P ks j.frames h

  recover-All : (o : Option ℕ) (j : VideoJitter) → All P j.frames → All P (recover o j).0.frames
  unfolding recover stall
  recover-All none j h = h
  recover-All (some ks) j h =
      jump_to-All ks (get ks (drop_before ks j.frames))
        (record j { frames = drop_before ks j.frames }) (All-keep_if P (λ b. leb ks b.0) j.frames h)

  play_from-All :
      (n : ℕ) (o : Option EncodedVideoFrame) (j : VideoJitter)
      → All P j.frames
      → All P (play_from n o j).0.frames
  unfolding play_from
  play_from-All n (some f) j h = remove-All P n j.frames h
  play_from-All n none j h = recover-All (first_keyframe j.frames) j h

  play-All : (o : Option ℕ) (j : VideoJitter) → All P j.frames → All P (play o j).0.frames
  unfolding play
  play-All none j h = h
  play-All (some n) j h = play_from-All n (get n j.frames) j h

  start-All : (o : Option ℕ) (j : VideoJitter) → All P j.frames → All P (start o j).0.frames
  unfolding start stall
  start-All none j h = h
  start-All (some s) j h =
      play-All (some s)
        (record j { frames = drop_before s j.frames; next_seq = some s; started = true })
        (All-keep_if P (λ b. leb s b.0) j.frames h)

  pop_from-All : (m : Frames) (j : VideoJitter) → All P j.frames → All P (pop_from m j).0.frames
  unfolding pop_from
  pop_from-All [] j h = h
  pop_from-All (b ∷ m) j h =
      elim j.started
        as (λ on.
          All P (if on then play j.next_seq j else start (first_keyframe (b ∷ m)) j).0.frames) [
            | true ↦ play-All j.next_seq j h
            | false ↦ start-All (first_keyframe (b ∷ m)) j h
          ]

  pub pop-All : (j : VideoJitter) → All P j.frames → All P (pop j).0.frames
  unfolding pop
  pop-All j h = pop_from-All j.frames j h

-- ===== src/Media/VideoJitter/Order.antt =====
-- The invariant of the video jitter buffer: bounded, in order, and nothing behind the cursor.
use ghal_bol.Common.{
  ℕ, suc, ◌≤◌, ◌<◌, ◌≡◌, ◌≢◌, inl, inr, Bool, true, false, Option, none, some, [], ◌∷◌, arith, ltb,
  length, All, Bool-cases,
}
use ghal_bol.Common.OrdMap.{insert, Sorted, insert-Sorted, Sorted-mono, insert-All}
use ghal_bol.Media.VideoJitter.{
  EncodedVideoFrame, Frames, VideoJitter, new, push, drop_oldest, skip_past, is_late,
}

abbrev pub cursor : Option ℕ → ℕ
cursor none = 0
cursor (some n) = n

-- The number is not the last of the 32-bit range.
abbrev pub IsBinding : ℕ × EncodedVideoFrame → Type 0
IsBinding b = b.0 < 4294967295

pub record Inv (j : VideoJitter) : Type 0 where
  pub depth : 2 ≤ j.max_depth
  pub bounded : length j.frames ≤ j.max_depth
  pub sorted : Sorted (cursor j.next_seq) j.frames
  pub bindings : All IsBinding j.frames
  pub ranged : cursor j.next_seq < 4294967296
  pub begun : j.started ≡ true → j.next_seq ≢ none

pub new-Inv : (depth : ℕ) → Inv (new depth)
unfolding new
new-Inv depth = ground arith

-- What the loop of `push` hands on.
record Kept (max_depth lo : ℕ) (next : Option ℕ) (r : Frames × Option ℕ × Bool) : Type 0 where
  bounded : length r.0 ≤ max_depth
  sorted : Sorted (cursor r.1) r.0
  bindings : All IsBinding r.0
  later : lo ≤ cursor r.1
  ranged : cursor r.1 < 4294967296
  begun : next ≢ none → r.1 ≢ none

Kept-mono :
    {max_depth lo hi : ℕ} {next next' : Option ℕ} {r : Frames × Option ℕ × Bool}
    → lo ≤ hi
    → (next ≢ none → next' ≢ none)
    → Kept max_depth hi next' r
    → Kept max_depth lo next r
Kept-mono h g k = record {
  bounded = k.bounded;
  sorted = k.sorted;
  bindings = k.bindings;
  later = omega (arith, k.later);
  ranged = k.ranged;
  begun = λ n. k.begun (g n);
}

skip_past_bounds :
    (k : ℕ) (next : Option ℕ)
    → cursor next ≤ k
    → k < 4294967295
    → (cursor next ≤ cursor (skip_past k next)) × (cursor (skip_past k next) ≤ suc k)
skip_past_bounds k next h r = ground arith

skip_past_begun : (k : ℕ) (next : Option ℕ) → next ≢ none → skip_past k next ≢ none
skip_past_begun k none h = h
skip_past_begun k (some n) h = λ e. ground arith

drop_oldest-Kept :
    (max_depth : ℕ) (m : Frames) (next : Option ℕ) (wanted : Bool)
    → Sorted (cursor next) m
    → All IsBinding m
    → cursor next < 4294967296
    → Kept max_depth (cursor next) next (drop_oldest max_depth m next wanted)
unfolding drop_oldest
drop_oldest-Kept max_depth [] next wanted s b r = record {
  bounded = omega arith;
  sorted = tt;
  bindings = tt;
  later = omega arith;
  ranged = r;
  begun = λ n. n;
}
drop_oldest-Kept max_depth ((k, f) ∷ m) next wanted s b r =
    elim (Bool-cases (ltb max_depth (length ((k, f) ∷ m)))) [
      | inl full ↦
          let h = skip_past_bounds k next s.0 b.0 in
          rw full (
            Kept-mono h.0 (skip_past_begun k next) (
              drop_oldest-Kept max_depth m (skip_past k next) true (Sorted-mono m h.1 s.1) b.1
                (omega (arith, b.0))))
      | inr fits ↦ rw fits (record {
        bounded = ground arith;
        sorted = s;
        bindings = b;
        later = omega arith;
        ranged = r;
        begun = λ n. n;
      })
    ]

not_late : (seq : ℕ) (next : Option ℕ) → is_late seq next ≡ false → cursor next ≤ seq
not_late seq next h = ground arith

Kept-Inv :
    (j : VideoJitter) (r : Frames × Option ℕ × Bool)
    → Inv j
    → Kept j.max_depth (cursor j.next_seq) j.next_seq r
    → Inv (record j { frames = r.0; next_seq = r.1; keyframe_request = r.2 })
      × (cursor j.next_seq ≤ cursor r.1)
Kept-Inv j r v k = (
  record {
    depth = v.depth;
    bounded = k.bounded;
    sorted = k.sorted;
    bindings = k.bindings;
    ranged = k.ranged;
    begun = λ t. k.begun (v.begun t);
  },
  k.later,
)

-- A frame of the number range, put in, keeps the invariant; the cursor never goes back.
pub push-Inv :
    (seq : ℕ) (f : EncodedVideoFrame) (j : VideoJitter)
    → seq < 4294967295
    → Inv j
    → Inv (push seq f j) × (cursor j.next_seq ≤ cursor (push seq f j).next_seq)
unfolding push
push-Inv seq f j r v = elim (Bool-cases (is_late seq j.next_seq)) [
  | inl late ↦ rw late (v, omega arith)
  | inr live ↦ rw live (
      Kept-Inv j _ v (
        drop_oldest-Kept j.max_depth (insert seq f j.frames) j.next_seq j.keyframe_request
          (insert-Sorted (cursor j.next_seq) seq f j.frames (not_late seq j.next_seq live) v.sorted)
          (insert-All IsBinding seq f j.frames r v.bindings) v.ranged))
]

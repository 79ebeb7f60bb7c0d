-- ===== src/Media/Jitter/Order.antt =====
-- The invariant of the jitter buffer: bounded, in order, and nothing behind the cursor.
use ghal_bol.Common.{
  ℕ, suc, ◌≤◌, ◌<◌, ◌≡◌, refl, inl, inr, false, Option, none, some, [], ◌∷◌, arith, ltb, length,
  All, Bool-cases,
}
use ghal_bol.Common.OrdMap.{OrdMap, insert, Sorted, insert-Sorted, Sorted-mono, insert-All}
use ghal_bol.Media.Jitter.{MediaFrame, JitterBuffer, new, push, drop_oldest, skip_past, is_late}

abbrev pub cursor : Option ℕ → ℕ
cursor none = 0
cursor (some n) = n

-- A binding as `push` makes it, of a frame that is not the last of the number range.
abbrev pub IsBinding : ℕ × MediaFrame → Type 0
IsBinding b = (b.1.seq ≡ b.0) × (b.0 < 18446744073709551615)

pub record Inv (b : JitterBuffer) : Type 0 where
  pub target : 1 ≤ b.target_depth
  pub depth : b.target_depth ≤ b.max_depth
  pub bounded : length b.frames ≤ b.max_depth
  pub sorted : Sorted (cursor b.next_seq) b.frames
  pub bindings : All IsBinding b.frames
  pub ranged : cursor b.next_seq < 18446744073709551616

pub new-Inv : (target depth : ℕ) → Inv (new target depth)
unfolding new
new-Inv target depth = ground arith

-- What the loop of `push` hands on.
record Kept (max_depth lo : ℕ) (r : OrdMap MediaFrame × Option ℕ) : Type 0 where
  bounded : length r.0 ≤ max_depth
  sorted : Sorted (cursor r.1) r.0
  bindings : All IsBinding r.0
  later : lo ≤ cursor r.1
  ranged : cursor r.1 < 18446744073709551616

skip_past_bounds :
    (k : ℕ) (next : Option ℕ)
    → cursor next ≤ k
    → k < 18446744073709551615
    → (cursor next ≤ cursor (skip_past k next)) × (cursor (skip_past k next) ≤ suc k)
skip_past_bounds k next h r = ground arith

Kept-mono :
    {max_depth lo hi : ℕ} {r : OrdMap MediaFrame × Option ℕ}
    → lo ≤ hi
    → Kept max_depth hi r
    → Kept max_depth lo r
Kept-mono h k = record {
  bounded = k.bounded;
  sorted = k.sorted;
  bindings = k.bindings;
  later = omega (arith, k.later);
  ranged = k.ranged;
}

drop_oldest-Kept :
    (max_depth : ℕ) (m : OrdMap MediaFrame) (next : Option ℕ)
    → Sorted (cursor next) m
    → All IsBinding m
    → cursor next < 18446744073709551616
    → Kept max_depth (cursor next) (drop_oldest max_depth m next)
unfolding drop_oldest
drop_oldest-Kept max_depth [] next s b r = ground arith
drop_oldest-Kept max_depth ((k, f) ∷ m) next s b r =
    elim (Bool-cases (ltb max_depth (length ((k, f) ∷ m)))) [
      | inl full ↦
          let h = skip_past_bounds k next s.0 b.0.1 in
          rw full (
            Kept-mono h.0 (
              drop_oldest-Kept max_depth m (skip_past k next) (Sorted-mono m h.1 s.1) b.1
                (omega (arith, b.0.1))))
      | inr fits ↦ rw fits (record {
        bounded = ground arith;
        sorted = s;
        bindings = b;
        later = omega arith;
        ranged = r;
      })
    ]

not_late : (seq : ℕ) (next : Option ℕ) → is_late seq next ≡ false → cursor next ≤ seq
not_late seq next h = ground arith

Kept-Inv :
    (b : JitterBuffer) (r : OrdMap MediaFrame × Option ℕ)
    → Inv b
    → Kept b.max_depth (cursor b.next_seq) r
    → Inv (record b { frames = r.0; next_seq = r.1 }) × (cursor b.next_seq ≤ cursor r.1)
Kept-Inv b r v k = (
  record {
    target = v.target;
    depth = v.depth;
    bounded = k.bounded;
    sorted = k.sorted;
    bindings = k.bindings;
    ranged = k.ranged;
  },
  k.later,
)

-- A frame of the number range, put in, keeps the invariant; the cursor never goes back.
pub push-Inv :
    (f : MediaFrame) (b : JitterBuffer)
    → f.seq < 18446744073709551615
    → Inv b
    → Inv (push f b) × (cursor b.next_seq ≤ cursor (push f b).next_seq)
unfolding push
push-Inv f b r v = elim (Bool-cases (is_late f.seq b.next_seq)) [
  | inl late ↦ rw late (v, omega arith)
  | inr live ↦ rw live (
      Kept-Inv b _ v (
        drop_oldest-Kept b.max_depth (insert f.seq f b.frames) b.next_seq
          (insert-Sorted (cursor b.next_seq) f.seq f b.frames (not_late f.seq b.next_seq live)
            v.sorted)
          (insert-All IsBinding f.seq f b.frames (refl, r) v.bindings) v.ranged))
]

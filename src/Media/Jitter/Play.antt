-- ===== src/Media/Jitter/Play.antt =====
-- What a call hears: the frames that a whole history of arrivals and ticks plays.
use ghal_bol.Common.{ℕ, suc, ◌≤◌, ◌<◌, ◌≡◌, refl, subst, ◌∙◌, max, List, [], ◌∷◌, arith, length}
use ghal_bol.Media.Jitter.{
  MediaFrame, JitterBuffer, Playout, frame, conceal, silence, new, push, pop,
}
use ghal_bol.Media.Jitter.Order.{Inv, cursor, new-Inv, push-Inv}
use ghal_bol.Media.Jitter.Tick.{Ticks, pop-Ticks}

pub data Action : Type 0 where
  receive : MediaFrame → Action
  tick : Action

abbrev heard : Playout → List MediaFrame → List MediaFrame
heard (frame f) fs = f ∷ fs
heard conceal fs = fs
heard silence fs = fs

unfoldable pub run : JitterBuffer → List Action → JitterBuffer
run b [] = b
run b (receive f ∷ acts) = run (push f b) acts
run b (tick ∷ acts) = run (pop b).0 acts

-- The frames that the ticks play, in the order of time.
unfoldable pub played : JitterBuffer → List Action → List MediaFrame
played b [] = []
played b (receive f ∷ acts) = played (push f b) acts
played b (tick ∷ acts) = heard (pop b).1 (played (pop b).0 acts)

-- Every frame that arrives satisfies `P`.
abbrev pub Receives {ℓ} : (MediaFrame → Type ℓ) → List Action → Type ℓ
Receives P [] = Unit
Receives P (receive f ∷ acts) = P f × Receives P acts
Receives P (tick ∷ acts) = Receives P acts

-- The number is not the last of the 64-bit range.
abbrev pub InRange : MediaFrame → Type 0
InRange f = f.seq < 18446744073709551615

-- The numbers ascend strictly, from `lo` at least.
abbrev pub Ascending : ℕ → List MediaFrame → Type 0
Ascending lo [] = Unit
Ascending lo (f ∷ fs) = (lo ≤ f.seq) × Ascending (suc f.seq) fs

Ascending-mono : {lo hi : ℕ} (fs : List MediaFrame) → lo ≤ hi → Ascending hi fs → Ascending lo fs
Ascending-mono [] h a = tt
Ascending-mono (f ∷ fs) h a = (omega arith, a.1)

heard-Ascending :
    (b : JitterBuffer) (p : Playout) (b' : JitterBuffer) (fs : List MediaFrame)
    → Ticks b (b', p)
    → Ascending (cursor b'.next_seq) fs
    → Ascending (cursor b.next_seq) (heard p fs)
heard-Ascending b (frame f) b' fs t a =
    ((t.played f refl).0, subst (λ (k : ℕ). Ascending k fs) (t.played f refl).1 a)
heard-Ascending b conceal b' fs t a = Ascending-mono fs t.later a
heard-Ascending b silence b' fs t a = Ascending-mono fs t.later a

played-Ascending :
    (b : JitterBuffer) (acts : List Action)
    → Receives InRange acts
    → Inv b
    → Ascending (cursor b.next_seq) (played b acts)
unfolding played
played-Ascending b [] h v = tt
played-Ascending b (receive f ∷ acts) h v =
    Ascending-mono _ (push-Inv f b h.0 v).1
      (played-Ascending (push f b) acts h.1 (push-Inv f b h.0 v).0)
played-Ascending b (tick ∷ acts) h v =
    let t = pop-Ticks b v in
    heard-Ascending b (pop b).1 (pop b).0 _ t (played-Ascending (pop b).0 acts h t.inv)

run-Inv : (b : JitterBuffer) (acts : List Action) → Receives InRange acts → Inv b → Inv (run b acts)
unfolding run
run-Inv b [] h v = v
run-Inv b (receive f ∷ acts) h v = run-Inv (push f b) acts h.1 (push-Inv f b h.0 v).0
run-Inv b (tick ∷ acts) h v = run-Inv (pop b).0 acts h (pop-Ticks b v).inv

push-max_depth : (f : MediaFrame) (b : JitterBuffer) → (push f b).max_depth ≡ b.max_depth
unfolding push
push-max_depth f b = ground arith

pop-max_depth : (b : JitterBuffer) → (pop b).0.max_depth ≡ b.max_depth
unfolding pop
pop-max_depth b = ground arith

run-max_depth : (b : JitterBuffer) (acts : List Action) → (run b acts).max_depth ≡ b.max_depth
unfolding run
run-max_depth b [] = refl
run-max_depth b (receive f ∷ acts) = run-max_depth (push f b) acts ∙ push-max_depth f b
run-max_depth b (tick ∷ acts) = run-max_depth (pop b).0 acts ∙ pop-max_depth b

-- Whatever frames of the number range arrive, in whatever order and however often, and whenever the
-- ticks fall: a new buffer plays its frames in strictly ascending order of their numbers, so none
-- twice and none late, and it never holds more frames than the depth it was made with.
pub played_in_order :
    (target depth : ℕ) (acts : List Action)
    → Receives InRange acts
    → Ascending 0 (played (new target depth) acts)
      × (length (run (new target depth) acts).frames ≤ max depth (max target 1))
unfolding new
played_in_order target depth acts h =
    let v = run-Inv (new target depth) acts h (new-Inv target depth) in
    (
      played-Ascending (new target depth) acts h (new-Inv target depth),
      omega (arith, v.bounded, run-max_depth (new target depth) acts),
    )

-- ===== src/Media/Jitter/Tick.antt =====
-- One tick of the jitter buffer keeps its invariant, and plays what stands at the cursor.
use ghal_bol.Common.{
  ℕ, suc, ◌≤◌, ◌<◌, ◌≡◌, refl, sym, subst, inl, inr, Bool, true, false, Option, none, some, [], ◌∷◌,
  arith, ltb, length, All, if◌then◌else◌, Bool-cases,
}
use ghal_bol.Common.OrdMap.{
  OrdMap, get, remove, first_key, Sorted, Sorted-mono, length-remove-le, remove-All, get-All,
  remove-Sorted_next, Sorted-absent, Sorted-first,
}
use ghal_bol.Media.Jitter.Order.{cursor, IsBinding, Inv}
use ghal_bol.Media.Jitter.{
  MediaFrame, JitterBuffer, Playout, frame, pop, after, play_from, play, has_from, silence,
}

-- `f` is the frame at its number, behind the cursor, and the cursor moves to its successor.
abbrev pub Played : JitterBuffer → Option ℕ → MediaFrame → Type 0
Played b next f =
    (cursor b.next_seq ≤ f.seq) × (cursor next ≡ suc f.seq) × (get f.seq b.frames ≡ some f)

frame_injective : (f f' : MediaFrame) → frame f ≡ frame f' → f ≡ f'
frame_injective f f' p = cc

-- What one tick does to a buffer in order.
pub record Ticks (b : JitterBuffer) (r : JitterBuffer × Playout) : Type 0 where
  pub inv : Inv r.0
  pub later : cursor b.next_seq ≤ cursor r.0.next_seq
  pub played : (f : MediaFrame) → r.1 ≡ frame f → Played b r.0.next_seq f

play_found :
    (n : ℕ) (f : MediaFrame) (b : JitterBuffer)
    → b.next_seq ≡ some n
    → get n b.frames ≡ some f
    → Inv b
    → Ticks b (play_from n (some f) b)
unfolding play_from
play_found n f b e g v =
    let s = subst (λ (o : Option ℕ). Sorted (cursor o) b.frames) e v.sorted in
    let h = get-All IsBinding n b.frames v.bindings g in
    record {
      inv = record {
        target = v.target;
        depth = v.depth;
        bounded = omega (arith, v.bounded, length-remove-le n b.frames);
        sorted =
            Sorted-mono (remove n b.frames) (omega (arith, h)) (remove-Sorted_next n b.frames s);
        bindings = remove-All IsBinding n b.frames v.bindings;
        ranged = omega (arith, h);
      };
      later = rw e (omega (arith, h));
      played = λ f' p. subst (Played b (some (after n))) (frame_injective f f' p) (
        rw e (omega (arith, h)),
        omega (arith, h),
        subst (λ (k : ℕ). get k b.frames ≡ some f) (sym h.0) g,
      );
    }

has_from_bound :
    (n lo : ℕ) (m : OrdMap MediaFrame)
    → has_from lo m ≡ true
    → All IsBinding m
    → Sorted n m
    → n < 18446744073709551615
has_from_bound n lo [] h b s = cc
has_from_bound n lo ((k, f) ∷ m) h b s = omega (arith, b.0)

play_missing :
    (n : ℕ) (b : JitterBuffer)
    → b.next_seq ≡ some n
    → get n b.frames ≡ none
    → Inv b
    → Ticks b (play_from n none b)
unfolding play_from
play_missing n b e g v =
    let s = subst (λ (o : Option ℕ). Sorted (cursor o) b.frames) e v.sorted in
    elim (Bool-cases (has_from (after n) b.frames)) [
      | inl more ↦
          let h = has_from_bound n (after n) b.frames more v.bindings s in
          rw more (record {
            inv = record {
              target = v.target;
              depth = v.depth;
              bounded = v.bounded;
              sorted = Sorted-mono b.frames (omega arith) (Sorted-absent n b.frames g s);
              bindings = v.bindings;
              ranged = omega arith;
            };
            later = rw e (omega arith);
            played = λ f p. absurd (ground arith);
          })
      | inr done ↦ rw done (record {
        inv = record {
          target = v.target;
          depth = v.depth;
          bounded = v.bounded;
          sorted = v.sorted;
          bindings = v.bindings;
          ranged = v.ranged;
        };
        later = omega arith;
        played = λ f p. absurd (ground arith);
      })
    ]

play_at :
    (n : ℕ) (o : Option MediaFrame) (b : JitterBuffer)
    → b.next_seq ≡ some n
    → get n b.frames ≡ o
    → Inv b
    → Ticks b (play_from n o b)
play_at n none b e g v = play_missing n b e g v
play_at n (some f) b e g v = play_found n f b e g v

play-Ticks :
    (next : Option ℕ) (b : JitterBuffer) → b.next_seq ≡ next → Inv b → Ticks b (play next b)
unfolding play
play-Ticks none b e v = record {
  inv = v;
  later = omega arith;
  played = λ f p. absurd (ground arith);
}
play-Ticks (some n) b e v = play_at n (get n b.frames) b e refl v

no_first : (m : OrdMap MediaFrame) → first_key m ≡ none → 1 ≤ length m → ⊥
no_first [] e h = omega arith
no_first ((k, f) ∷ m) e h = cc

first_bound :
    (n : ℕ) (m : OrdMap MediaFrame)
    → first_key m ≡ some n
    → All IsBinding m
    → n < 18446744073709551615
first_bound n [] e b = cc
first_bound n ((k, f) ∷ m) e b = ground (arith, b.0)

not_ltb : (a b : ℕ) → ltb a b ≡ false → b ≤ a
not_ltb a b h = ground arith

-- A buffer that starts again takes its cursor from the least number, which is not behind it.
restart_Ticks :
    (first : Option ℕ) (b : JitterBuffer)
    → first_key b.frames ≡ first
    → 1 ≤ length b.frames
    → Inv b
    → Ticks b (play first (record b { started = true; next_seq = first }))
restart_Ticks none b e h v = absurd (no_first b.frames e h)
restart_Ticks (some n) b e h v =
    let s = Sorted-first (cursor b.next_seq) n b.frames e v.sorted in
    let b' : JitterBuffer = record b { started = true; next_seq = some n } in
    let t = play-Ticks (some n) b' refl (record {
      target = v.target;
      depth = v.depth;
      bounded = v.bounded;
      sorted = s.1;
      bindings = v.bindings;
      ranged = omega (arith, first_bound n b.frames e v.bindings);
    }) in
    record {
      inv = t.inv;
      later = omega (arith, s.0, t.later);
      played = λ f p. (omega (arith, s.0, t.played f p), (t.played f p).1, (t.played f p).2);
    }

silent_Ticks : (b : JitterBuffer) → Inv b → Ticks b (b, silence)
silent_Ticks b v = record { inv = v; later = omega arith; played = λ f p. absurd (ground arith) }

pop_at :
    (on : Bool) (b : JitterBuffer)
    → Inv b
    → Ticks b (
        if on
        then play b.next_seq b
        else if ltb (length b.frames) b.target_depth
        then (b, silence)
        else play (first_key b.frames) (record b { started = true; next_seq = first_key b.frames }))
pop_at true b v = play-Ticks b.next_seq b refl v
pop_at false b v = elim (Bool-cases (ltb (length b.frames) b.target_depth)) [
  | inl few ↦ rw few (silent_Ticks b v)
  | inr ready ↦
      rw ready
        (restart_Ticks (first_key b.frames) b refl (omega (arith, not_ltb _ _ ready, v.target)) v)
]

-- A tick keeps the invariant, the cursor never goes back, and a frame that is played was buffered
-- under its number, at the cursor or later, and moves the cursor to the number after it.
pub pop-Ticks : (b : JitterBuffer) → Inv b → Ticks b (pop b)
unfolding pop
pop-Ticks b v = pop_at b.started b v

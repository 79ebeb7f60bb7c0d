-- ===== src/Media/VideoJitter/Play.antt =====
-- What the decoder is given over a whole history of arrivals and ticks.
use ghal_bol.Common.{
  ℕ, suc, ◌≤◌, ◌<◌, ◌≡◌, refl, sym, ap, ◌∙◌, ◌⊎◌, inl, inr, Bool, true, Option, none, some, List,
  [], ◌∷◌, arith, length, All,
}
use ghal_bol.Common.OrdMap.{insert, get-All}
use ghal_bol.Media.VideoJitter.{EncodedVideoFrame, Frames, VideoJitter, new, push, pop, drop_oldest}
use ghal_bol.Media.VideoJitter.Order.{cursor, Inv, new-Inv, push-Inv}
use ghal_bol.Media.VideoJitter.Prune.{push-All, pop-All}
use ghal_bol.Media.VideoJitter.Tick.{Ticks, pop-Ticks}

pub data Action : Type 0 where
  receive : ℕ → EncodedVideoFrame → Action
  tick : Action

-- A frame that a tick hands on.
abbrev handed :
    VideoJitter × Option EncodedVideoFrame → List EncodedVideoFrame → List EncodedVideoFrame
handed (j, none) fs = fs
handed (j, some f) fs = f ∷ fs

-- The frames that the decoder is given, in the order of time.
unfoldable pub decoded : VideoJitter → List Action → List EncodedVideoFrame
decoded j [] = []
decoded j (receive s f ∷ acts) = decoded (push s f j) acts
decoded j (tick ∷ acts) = handed (pop j) (decoded (pop j).0 acts)

abbrev pub Follows : Option ℕ → ℕ → Type 0
Follows none s = ⊥
Follows (some n) s = s ≡ suc n

-- The sender's number of a frame.
module _ (number : EncodedVideoFrame → ℕ) where
  -- Each frame arrives under its number, which is not the last of the 32-bit range, and finds room.
  abbrev pub Fits : VideoJitter → List Action → Type 0
  Fits j [] = Unit
  Fits j (receive s f ∷ acts) =
      (number f ≡ s)
      × (s < 4294967295)
      × (length (insert s f j.frames) ≤ j.max_depth)
      × Fits (push s f j) acts
  Fits j (tick ∷ acts) = Fits (pop j).0 acts

  -- Each frame can be decoded: alone, or from the frame just before it, which was decoded last.
  abbrev pub Decodable : Option ℕ → List EncodedVideoFrame → Type 0
  Decodable last [] = Unit
  Decodable last (f ∷ fs) =
      ((f.keyframe ≡ true) ⊎ Follows last (number f)) × Decodable (some (number f)) fs

  -- The frame is stored under its number.
  abbrev IsNumbered : ℕ × EncodedVideoFrame → Type 0
  IsNumbered b = number b.1 ≡ b.0

-- The cursor of a started buffer stands just after the last frame that was handed on.
pub record Linked (number : EncodedVideoFrame → ℕ) (last : Option ℕ) (j : VideoJitter)
    : Type 0 where
  inv : Inv j
  numbered : All (IsNumbered number) j.frames
  link : j.started ≡ true → (n : ℕ) × (last ≡ some n) × (j.next_seq ≡ some (suc n))

drop_oldest_fits :
    (n : ℕ) (m : Frames) (next : Option ℕ) (wanted : Bool)
    → length m ≤ n
    → drop_oldest n m next wanted ≡ (m, next, wanted)
unfolding drop_oldest
drop_oldest_fits n [] next wanted h = refl
drop_oldest_fits n ((k, f) ∷ m) next wanted h = ground arith

push_fits :
    (s : ℕ) (f : EncodedVideoFrame) (j : VideoJitter)
    → length (insert s f j.frames) ≤ j.max_depth
    → ((push s f j).started ≡ j.started) × ((push s f j).next_seq ≡ j.next_seq)
unfolding push
push_fits s f j h =
    let e = drop_oldest_fits j.max_depth (insert s f j.frames) j.next_seq j.keyframe_request h in
    (ground arith, ground (arith, e))

some-cursor : (o : Option ℕ) (s : ℕ) → cursor o ≡ suc s → o ≡ some (suc s)
some-cursor o s h = ground arith

new_idle : (depth : ℕ) → (new depth).started ≡ true → ⊥
unfolding new
new_idle depth t = cc

module _ (number : EncodedVideoFrame → ℕ) where
  push-Linked :
      (last : Option ℕ) (s : ℕ) (f : EncodedVideoFrame) (j : VideoJitter)
      → number f ≡ s
      → s < 4294967295
      → length (insert s f j.frames) ≤ j.max_depth
      → Linked number last j
      → Linked number last (push s f j)
  push-Linked last s f j e r h l =
      let (on, same) = push_fits s f j h in
      record {
        inv = (push-Inv s f j r l.inv).0;
        numbered = push-All (IsNumbered number) s f j e l.numbered;
        link = λ t. let (n, e, c) = l.link (sym on ∙ t) in (n, e, same ∙ c);
      }

  quiet-Linked :
      (last : Option ℕ) (j : VideoJitter) (r : VideoJitter × Option EncodedVideoFrame)
      → r.1 ≡ none
      → All (IsNumbered number) r.0.frames
      → Ticks j r
      → Linked number last j
      → Linked number last r.0
  quiet-Linked last j r o a t l =
      let (on, same) = t.quiet o in
      record {
        inv = t.inv;
        numbered = a;
        link = λ e. let (n, p, c) = l.link (sym on ∙ e) in (n, p, same ∙ c);
      }

  handed-Linked :
      (last : Option ℕ) (j j' : VideoJitter) (f : EncodedVideoFrame)
      → All (IsNumbered number) j'.frames
      → Ticks j (j', some f)
      → Linked number last j
      → ((f.keyframe ≡ true) ⊎ Follows last (number f)) × Linked number (some (number f)) j'
  handed-Linked last j j' f a t l =
      let (s, later, next, found, why) = t.emitted f refl in
      let numbered : number f ≡ s = get-All (IsNumbered number) s j.frames l.numbered found in
      (
        elim why [
          | inl key ↦ inl key
          | inr (on, at) ↦
              let (n, e, c) = l.link on in
              inr (rw (e, numbered) (omega (arith, ap cursor (sym at ∙ c))))
        ],
        record {
          inv = t.inv;
          numbered = a;
          link = λ on.
              (number f, refl, some-cursor j'.next_seq (number f) (next ∙ ap suc (sym numbered)));
        },
      )

  handed-Decodable :
      (last : Option ℕ) (j j' : VideoJitter) (o : Option EncodedVideoFrame)
      (fs : List EncodedVideoFrame)
      → All (IsNumbered number) j'.frames
      → Ticks j (j', o)
      → Linked number last j
      → ((p : Option ℕ) → Linked number p j' → Decodable number p fs)
      → Decodable number last (handed (j', o) fs)
  handed-Decodable last j j' none fs a t l rest =
      rest last (quiet-Linked last j (j', none) refl a t l)
  handed-Decodable last j j' (some f) fs a t l rest =
      let (follows, linked) = handed-Linked last j j' f a t l in (follows, rest _ linked)

  decoded-Decodable :
      (last : Option ℕ) (j : VideoJitter) (acts : List Action)
      → Fits number j acts
      → Linked number last j
      → Decodable number last (decoded j acts)
  unfolding decoded
  decoded-Decodable last j [] h l = tt
  decoded-Decodable last j (receive s f ∷ acts) h l =
      decoded-Decodable last (push s f j) acts h.3 (push-Linked last s f j h.0 h.1 h.2 l)
  decoded-Decodable last j (tick ∷ acts) h l =
      handed-Decodable last j (pop j).0 (pop j).1 (decoded (pop j).0 acts)
        (pop-All (IsNumbered number) j l.numbered) (pop-Ticks j l.inv) l
        (λ p m. decoded-Decodable p (pop j).0 acts h m)

  new-Linked : (depth : ℕ) → Linked number none (new depth)
  unfolding new
  new-Linked depth = record {
    inv = new-Inv depth;
    numbered = tt;
    link = λ t. absurd (new_idle depth t);
  }

  -- If every frame arrives under the number that its sender gave it and finds room in the buffer, then whatever
  -- is lost or arrives out of order, a new buffer gives its decoder only frames that can be decoded: each is a
  -- keyframe, or its number is the one after the number of the frame that was decoded last.
  pub decoded_chain :
      (depth : ℕ) (acts : List Action)
      → Fits number (new depth) acts
      → Decodable number none (decoded (new depth) acts)
  decoded_chain depth acts h = decoded-Decodable none (new depth) acts h (new-Linked depth)

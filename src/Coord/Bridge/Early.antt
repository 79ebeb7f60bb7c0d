-- ===== src/Coord/Bridge/Early.antt =====
-- Frames that come in before the other side has joined.
use ghal_bol.Common.{
  ◌≤◌, sym, subst, ◌⊎◌, inl, inr, ltb, ◌&&◌, arith, ℕ, ◌+◌, ◌-◌, ◌^◌, min, ◌≡◌, refl, ap, ◌∙◌, true,
  false, Option, none, some, List, [], ◌∷◌, ◌++◌, length,
}
use mathlib.Core.List.{append_assoc, append-nil}
use ghal_bol.Coord.Bridge.{Role, caller, callee, Frame, ActiveBridge, join, forward, sends, paired}
use ghal_bol.Coord.Bridge.Waiting.{Event, joins, receives, step, run}

abbrev pub other : Role → Role
other caller = callee
other callee = caller

-- What the first side does: it sends a frame, or joins again with another socket.
pub data Move : Type 0 where
  frame : Frame → Move
  rejoin : ℕ → Move

unfoldable pub events_of : Role → List Move → List Event
events_of role [] = []
events_of role (frame f ∷ ms) = receives role f ∷ events_of role ms
events_of role (rejoin tx ∷ ms) = joins role tx ∷ events_of role ms

unfoldable pub frames_of : List Move → List Frame
frames_of [] = []
frames_of (frame f ∷ ms) = f ∷ frames_of ms
frames_of (rejoin tx ∷ ms) = frames_of ms

unfoldable pub bytes_of : List Move → ℕ
bytes_of [] = 0
bytes_of (frame f ∷ ms) = length f + bytes_of ms
bytes_of (rejoin tx ∷ ms) = bytes_of ms

-- There is no limit on bytes, or they stay within it.
abbrev pub Within : ℕ → ℕ → Type 0
Within max_bytes n = (max_bytes ≡ 0) ⊎ (n ≤ max_bytes)

-- A bridge that only the role has joined: the frames that it left and how many bytes were counted.
abbrev pub alone : Role → ℕ → List Frame → ℕ → ActiveBridge
alone caller tx waiting n = record {
  caller_tx = some tx;
  callee_tx = none;
  to_caller = [];
  to_callee = waiting;
  bytes_relayed = n;
  was_paired = false;
}
alone callee tx waiting n = record {
  caller_tx = none;
  callee_tx = some tx;
  to_caller = waiting;
  to_callee = [];
  bytes_relayed = n;
  was_paired = false;
}

Within-open :
    (max_bytes n k : ℕ) → k ≤ n → Within max_bytes n → ltb 0 max_bytes && ltb max_bytes k ≡ false
Within-open max_bytes n k h (inl none_set) = ground (arith, none_set)
Within-open max_bytes n k h (inr fits) = ground (arith, h, fits)

Within-less : (max_bytes n k : ℕ) → k ≤ n → Within max_bytes n → Within max_bytes k
Within-less max_bytes n k h (inl none_set) = inl none_set
Within-less max_bytes n k h (inr fits) = inr (omega (arith, h, fits))

module _ (max_bytes : ℕ) where
  step-alone :
      (role : Role) (tx n : ℕ) (f : Frame) (fs : List Frame)
      → Within max_bytes (n + length f)
      → step max_bytes (receives role f) (some (alone role tx fs n))
        ≡ some (alone role tx (fs ++ (f ∷ [])) (min (n + length f) (2 ^ 64 - 1)))
  unfolding step forward
  step-alone caller tx n f fs h =
      rw
        (
          Within-open max_bytes (n + length f) (min (n + length f) (2 ^ 64 - 1)) (omega arith) h,
          step,
          forward,
        )
        refl
  step-alone callee tx n f fs h =
      rw
        (
          Within-open max_bytes (n + length f) (min (n + length f) (2 ^ 64 - 1)) (omega arith) h,
          step,
          forward,
        )
        refl

  step-rejoin :
      (role : Role) (tx n other_tx : ℕ) (fs : List Frame)
      → step max_bytes (joins role other_tx) (some (alone role tx fs n))
        ≡ some (alone role other_tx fs n)
  unfolding step join
  step-rejoin caller tx n other_tx fs = refl
  step-rejoin callee tx n other_tx fs = refl

  -- The bridge after the moves of the first side, with its last socket.
  run-alone :
      (role : Role) (tx n : ℕ) (ms : List Move) (gs : List Frame)
      → Within max_bytes (n + bytes_of ms)
      → (tx' : ℕ) × (n' : ℕ) × (n' ≤ n + bytes_of ms)
        × (run max_bytes (events_of role ms) (some (alone role tx gs n))
            ≡ some (alone role tx' (gs ++ frames_of ms) n'))
  unfolding run events_of frames_of bytes_of
  run-alone role tx n [] gs h = (tx, n, omega arith, rw append-nil refl)
  run-alone role tx n (frame f ∷ ms) gs h =
      let k = min (n + length f) (2 ^ 64 - 1) in
      let (tx', n', le, e) =
        run-alone role tx k ms (gs ++ (f ∷ [])) (
          Within-less max_bytes (n + (length f + bytes_of ms)) (k + bytes_of ms) (omega arith) h) in
      (
        tx',
        n',
        omega (arith, le),
        ap (run max_bytes (events_of role ms)) (
              step-alone role tx n f gs (
                Within-less max_bytes (n + (length f + bytes_of ms)) (n + length f) (omega arith)
                  h))
            ∙ (e
                ∙ ap (λ ws. some (alone role tx' ws n')) (append_assoc gs (f ∷ []) (frames_of ms))),
      )
  run-alone role tx n (rejoin other_tx ∷ ms) gs h =
      let (tx', n', le, e) = run-alone role other_tx n ms gs h in
      (tx', n', le, ap (run max_bytes (events_of role ms)) (step-rejoin role tx n other_tx gs) ∙ e)

join-first : (role : Role) (tx : ℕ) → (join role tx none).0 ≡ alone role tx [] 0
unfolding join
join-first caller tx = refl
join-first callee tx = refl

-- The second side takes the frames; the bridge is paired, and a later frame goes straight to it.
pub record Handed (max_bytes : ℕ) (role : Role) (rx : ℕ) (fs : List Frame) (f : Frame)
    (a : Option ActiveBridge) : Type 0 where
  pub first : (join (other role) rx a).1 ≡ fs
  pub pairs : paired (join (other role) rx a).0 ≡ true
  pub later : (forward max_bytes role f (some (join (other role) rx a).0)).1 ≡ sends rx

alone-Handed :
    (max_bytes : ℕ) (role : Role) (tx rx n : ℕ) (fs : List Frame) (f : Frame)
    → Within max_bytes (n + length f)
    → Handed max_bytes role rx fs f (some (alone role tx fs n))
unfolding join forward
alone-Handed max_bytes caller tx rx n fs f h = record {
  first = refl;
  pairs = refl;
  later =
      rw (Within-open max_bytes (n + length f) (min (n + length f) (2 ^ 64 - 1)) (omega arith) h)
        refl;
}
alone-Handed max_bytes callee tx rx n fs f h = record {
  first = refl;
  pairs = refl;
  later =
      rw (Within-open max_bytes (n + length f) (min (n + length f) (2 ^ 64 - 1)) (omega arith) h)
        refl;
}

-- One side joins a bridge that is not there yet, sends frames, joins again with other sockets as it likes, and
-- does not leave. If there is no limit on bytes, or all of them and the later frame stay within it, the frames are
-- all handed to the other side when it joins, in order; the bridge is then paired, and the later frame of the
-- first side is sent on to the other.
pub early_frames :
    (max_bytes : ℕ) (role : Role) (tx rx : ℕ) (ms : List Move) (f : Frame)
    → Within max_bytes (bytes_of ms + length f)
    → Handed max_bytes role rx
        (frames_of ms)
        f
        (run max_bytes (joins role tx ∷ events_of role ms) none)
unfolding run step
early_frames max_bytes role tx rx ms f h =
    let (tx', n', le, e) =
      run-alone max_bytes role tx 0 ms []
        (Within-less max_bytes (bytes_of ms + length f) (0 + bytes_of ms) (omega arith) h) in
    subst (Handed max_bytes role rx (frames_of ms) f)
      (sym (ap (λ a. run max_bytes (events_of role ms) (some a)) (join-first role tx) ∙ e))
      (alone-Handed max_bytes role tx' rx n' (frames_of ms) f
        (Within-less max_bytes (bytes_of ms + length f) (n' + length f) (omega (arith, le)) h))

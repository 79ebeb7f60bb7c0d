-- ===== src/Media/VideoJitter/Tests.antt =====
-- Runs of the video jitter buffer, and its results at inputs.
use ghal_bol.Common.{ℕ, ◌≡◌, refl, true, false, none, some, List, [], ◌∷◌, arith}
use ghal_bol.Common.OrdMap.{get, insert, remove}
use ghal_bol.Media.VideoJitter.{EncodedVideoFrame, VideoJitter, new, push, pop}
use ghal_bol.Media.VideoJitter.Play.{Action, receive, tick, decoded, Decodable, decoded_chain}
use ghal_bol.Media.VideoJitter.Overflow.{overflow_breaks_chain}

abbrev key : ℕ → EncodedVideoFrame
key n = record { keyframe = true; bytes = n ∷ [] }

abbrev delta : ℕ → EncodedVideoFrame
delta n = record { keyframe = false; bytes = n ∷ [] }

-- 2 is lost, so 3 is skipped and 4 is the next picture.
abbrev lossy : List Action
lossy =
    receive 1 (delta 1)
    ∷ receive 0 (key 0)
    ∷ tick
    ∷ tick
    ∷ receive 3 (delta 3)
    ∷ tick
    ∷ receive 4 (key 4)
    ∷ tick
    ∷ []

lossy-decoded : decoded (new 8) lossy ≡ key 0 ∷ delta 1 ∷ key 4 ∷ []
unfolding decoded new push pop get insert remove
lossy-decoded = refl

-- Each frame has its number as its only byte.
abbrev first_byte : List ℕ → ℕ
first_byte [] = 0
first_byte (n ∷ ns) = n

abbrev number : EncodedVideoFrame → ℕ
number f = first_byte f.bytes

decoded_chain_example : Decodable number none (decoded (new 8) lossy)
decoded_chain_example =
    decoded_chain number 8 lossy (unfold new push pop get insert remove in omega arith)

-- Full, at the missing frame 5.
abbrev waiting : VideoJitter
waiting = record {
  frames = (6, delta 6) ∷ (7, delta 7) ∷ [];
  next_seq = some 5;
  started = true;
  max_depth = 2;
  keyframe_request = false;
}

overflow_breaks_chain_example : (pop (push 8 (delta 8) waiting)).1 ≡ some (delta 7)
overflow_breaks_chain_example =
    overflow_breaks_chain waiting 5 6 8 (delta 6) (delta 7) (delta 8) [] refl refl refl
      (omega arith) (omega arith) (omega arith) (unfold get in refl) refl

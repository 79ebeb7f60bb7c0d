-- ===== src/Media/Jitter/Tests.antt =====
-- Runs of the audio jitter buffer, and its results at inputs.
use ghal_bol.Common.{ℕ, ◌≤◌, ◌≡◌, refl, max, List, [], ◌∷◌, arith, length}
use ghal_bol.Common.OrdMap.{get, insert, remove}
use ghal_bol.Media.Jitter.{MediaFrame, new, push, pop}
use ghal_bol.Media.Jitter.Play.{Action, receive, tick, run, played, Ascending, played_in_order}

abbrev frame_of : ℕ → MediaFrame
frame_of n = record { seq = n; ts = 0; flags = 0; payload = n ∷ [] }

abbrev shuffled : List Action
shuffled =
    receive (frame_of 5)
    ∷ receive (frame_of 3)
    ∷ tick
    ∷ receive (frame_of 4)
    ∷ receive (frame_of 3)
    ∷ tick
    ∷ tick
    ∷ tick
    ∷ []

shuffled_played : played (new 2 4) shuffled ≡ frame_of 3 ∷ frame_of 4 ∷ frame_of 5 ∷ []
unfolding played new push pop get insert remove
shuffled_played = refl

played_in_order_example :
    Ascending 0 (played (new 2 4) shuffled)
    × (length (run (new 2 4) shuffled).frames ≤ max 4 (max 2 1))
played_in_order_example = played_in_order 2 4 shuffled (omega arith)

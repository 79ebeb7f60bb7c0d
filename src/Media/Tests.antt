-- ===== src/Media/Tests.antt =====
-- Runs of the packets and of the quality steps, and their results at inputs.
use ghal_bol.Common.{
  ℕ, ◌<◌, ◌≤◌, ◌≡◌, refl, true, false, length, map, none, List, [], ◌∷◌, arith, nat_eq,
}
use ghal_bol.Common.Map
use ghal_bol.Common.OrdMap
use ghal_bol.Media.VideoJitter.{EncodedVideoFrame}
use ghal_bol.Media.Packet.{VideoChunk, fragment_frame, chunks, number_from}
use ghal_bol.Media.Reassembly.{new, push, evict}
use ghal_bol.Media.Reassembly.Feed.{feed}
use ghal_bol.Media.Reassembly.Bound.{pending_bound}
use ghal_bol.Media.Reassembly.Roundtrip.{Delivers, fragment_roundtrip}
use ghal_bol.Media.Quality
use ghal_bol.Media.Quality.Steps
use ghal_bol.Media.Quality.Steps.{Moves, report, elapse}
use ghal_bol.Media.Quality.Pace.{Paces, Holds, run-Moves}

abbrev clip : EncodedVideoFrame
clip = record { keyframe = true; bytes = 1 ∷ 2 ∷ 3 ∷ 4 ∷ 5 ∷ [] }

fragment_roundtrip_example : Delivers 9 clip (feed (fragment_frame 9 clip 2) (new 4))
fragment_roundtrip_example =
    fragment_roundtrip 9 clip 2 (new 4) (omega arith) (unfold Map.get new in refl)
      (unfold new in omega arith)

reassembled : (feed (fragment_frame 9 clip 2) (new 4)).1 ≡ (9, clip) ∷ []
unfolding feed fragment_frame new push evict chunks number_from Map.get Map.insert Map.remove
    OrdMap.insert
reassembled = refl

-- The third of three chunks alone is kept, and nothing is delivered.
partial_kept :
    (push
      (record { frame_seq = 9; chunk_idx = 2; chunk_cnt = 3; keyframe = true; bytes = [] })
      (new 4)).1
    ≡ none
unfolding new push evict Map.get Map.insert Map.remove OrdMap.insert
partial_kept = refl

abbrev losses : List Steps.Event
losses =
    report 10 10
    ∷ report 10 10
    ∷ report 10 10
    ∷ report 10 10
    ∷ report 10 10
    ∷ report 10 10
    ∷ report 10 10
    ∷ report 10 10
    ∷ elapse
    ∷ []

stepped_down : (Steps.run losses Quality.new).tier_idx ≡ 1
unfolding Steps.run Steps.step Quality.note_wire_send Quality.tick
stepped_down = refl

run-Moves_example :
    ((Steps.run losses Quality.new).tier_idx < 4)
    × Moves (Steps.run losses Quality.new)
    × Paces (Steps.run losses Quality.new)
    × Holds Quality.new
run-Moves_example = run-Moves losses

abbrev chunk : VideoChunk
chunk = record {
  frame_seq = 70000;
  chunk_idx = 1;
  chunk_cnt = 300;
  keyframe = true;
  bytes = 5 ∷ [];
}

abbrev first_of : ℕ → VideoChunk
first_of n = record {
  frame_seq = n;
  chunk_idx = 0;
  chunk_cnt = 2;
  keyframe = false;
  bytes = n ∷ [];
}

abbrev firsts : List VideoChunk
firsts = first_of 7 ∷ first_of 5 ∷ first_of 6 ∷ []

least_evicted : map (λ b. b.0) (feed firsts (new 1)).0.pending ≡ 7 ∷ 6 ∷ []
unfolding feed new push Map.get Map.insert Map.remove OrdMap.insert evict
least_evicted = refl

pending_bound_example : length (feed firsts (new 1)).0.pending ≤ 2
pending_bound_example = pending_bound 1 firsts

-- ===== src/Media/Reassembly.antt =====
-- `Reassembler` of ghalbol_core/src/call_video/packet.rs. The hash map of partial frames has unique
-- keys; the chunks of one frame are a B-tree map by their index.
pub mod Feed
pub mod Roundtrip
pub mod Bound
use ghal_bol.Common.{
  ℕ, zero, suc, ◌+◌, ◌-◌, ◌%◌, min, max, Bool, true, false, ◌||◌, Option, none, some, List, [], ◌∷◌,
  ◌++◌, ltb, leb, ◌==◌, length, if◌then◌else◌, nat_eq,
}
use ghal_bol.Common.Map
use ghal_bol.Common.Map.{Map}
use ghal_bol.Common.OrdMap
use ghal_bol.Common.OrdMap.{OrdMap}
use ghal_bol.Media.VideoJitter.{EncodedVideoFrame}
use ghal_bol.Media.Packet.{VideoChunk}

pub record Partial : Type 0 where
  pub chunk_cnt : ℕ
  pub keyframe : Bool
  pub chunks : OrdMap (List ℕ)

abbrev pub Pending : Type 0
Pending = Map ℕ Partial

pub record Reassembler : Type 0 where
  pub pending : Pending
  pub max_pending : ℕ

unfoldable pub new : ℕ → Reassembler
new max_pending = record { pending = []; max_pending = max max_pending 2 }

-- `keys().min()`.
abbrev pub least_from : ℕ → Pending → ℕ
least_from k [] = k
least_from k ((j, _) ∷ m) = least_from (min k j) m

abbrev pub evict_least : Pending → Pending
evict_least [] = []
evict_least ((k, p) ∷ m) = Map.remove (least_from k m) ((k, p) ∷ m)

-- The loop at the end of `push`; each round takes out one frame, so as many rounds as frames are
-- enough.
unfoldable pub evict : ℕ → ℕ → Pending → Pending
evict zero max_pending m = m
evict (suc fuel) max_pending m =
    let rest = evict fuel max_pending (evict_least m) in
    if ltb max_pending (length m) then rest else m

-- The bytes of all chunks, in the order of their indices.
abbrev pub concat : OrdMap (List ℕ) → List ℕ
concat [] = []
concat ((_, d) ∷ m) = d ++ concat m

-- `entry(fs).or_insert_with(…)`.
abbrev pub entry : VideoChunk → Option Partial → Partial
entry c none = record { chunk_cnt = c.chunk_cnt; keyframe = false; chunks = [] }
entry c (some p) = p

-- The entry with the chunk put in.
abbrev pub with_chunk : VideoChunk → Partial → Partial
with_chunk c p = record p {
  keyframe = p.keyframe || c.keyframe;
  chunks = OrdMap.insert c.chunk_idx c.bytes p.chunks;
}

unfoldable pub push : VideoChunk → Reassembler → Reassembler × Option (ℕ × EncodedVideoFrame)
unfolding evict
push c r =
    let p = with_chunk c (entry c (Map.get c.frame_seq r.pending)) in
    let pending = Map.insert c.frame_seq p r.pending in
    if leb p.chunk_cnt (length p.chunks % 65536)
    then (
      record r { pending = Map.remove c.frame_seq pending },
      some (c.frame_seq, record { keyframe = p.keyframe; bytes = concat p.chunks }),
    )
    else (record r { pending = evict (length pending) r.max_pending pending }, none)

-- ===== src/Media/Packet.antt =====
-- ghalbol_core/src/call_video/packet.rs: coded frames cut into chunks, the payload of a chunk, and the
-- reassembly of the chunks. Bytes are numbers below 256.
pub mod Cut
use ghal_bol.Common.{
  ℕ, zero, suc, ◌+◌, ◌-◌, ◌*◌, ◌/◌, ◌%◌, min, max, Bool, true, false, ◌||◌, Option, none, some,
  List, [], ◌∷◌, ◌++◌, ltb, leb, ◌==◌, length, take, drop, if◌then◌else◌, Result, ok, err, nat_eq,
  is_empty,
}
use ghal_bol.Common.Map
use ghal_bol.Common.Map.{Map}
use ghal_bol.Common.OrdMap
use ghal_bol.Common.OrdMap.{OrdMap}
use ghal_bol.Media.VideoJitter.{EncodedVideoFrame}

pub record VideoChunk : Type 0 where
  pub frame_seq : ℕ
  pub chunk_idx : ℕ
  pub chunk_cnt : ℕ
  pub keyframe : Bool
  pub bytes : List ℕ

-- `to_le_bytes` of a number of `k` bytes, and `from_le_bytes`.
abbrev pub le_bytes : ℕ → ℕ → List ℕ
le_bytes zero n = []
le_bytes (suc k) n = n % 256 ∷ le_bytes k (n / 256)

abbrev pub from_le_bytes : List ℕ → ℕ
from_le_bytes [] = 0
from_le_bytes (b ∷ bs) = b + 256 * from_le_bytes bs

abbrev pub video_chunk_header_len : ℕ
video_chunk_header_len = 9

abbrev pub flag_byte : Bool → ℕ
flag_byte true = 1
flag_byte false = 0

unfoldable pub to_payload : VideoChunk → List ℕ
to_payload c =
    le_bytes 4 c.frame_seq
    ++ (le_bytes 2 c.chunk_idx ++ (le_bytes 2 c.chunk_cnt ++ (flag_byte c.keyframe ∷ c.bytes)))

pub data ChunkError : Type 0 where
  too_short indices_invalid : ChunkError

-- `payload[8] & FLAG_KEYFRAME != 0`: the lowest bit.
abbrev flag_of : List ℕ → Bool
flag_of [] = false
flag_of (b ∷ _) = b % 2 == 1

unfoldable pub from_payload : List ℕ → Result ChunkError VideoChunk
from_payload payload =
    let frame_seq = from_le_bytes (take 4 payload) in
    let chunk_idx = from_le_bytes (take 2 (drop 4 payload)) in
    let chunk_cnt = from_le_bytes (take 2 (drop 6 payload)) in
    if ltb (length payload) video_chunk_header_len
    then err too_short
    else if chunk_cnt == 0 || leb chunk_cnt chunk_idx
    then err indices_invalid
    else ok (record {
      frame_seq = frame_seq;
      chunk_idx = chunk_idx;
      chunk_cnt = chunk_cnt;
      keyframe = flag_of (drop 8 payload);
      bytes = drop video_chunk_header_len payload;
    })

-- `slice::chunks`, on as much fuel as there are bytes: each chunk takes one byte at least.
unfoldable pub chunks : ℕ → ℕ → List ℕ → List (List ℕ)
chunks zero n xs = []
chunks (suc fuel) n [] = []
chunks (suc fuel) n (x ∷ xs) = take n (x ∷ xs) ∷ chunks fuel n (drop n (x ∷ xs))

-- `enumerate`, with the index as a `u16`.
unfoldable pub number_from : ℕ → ℕ → ℕ → Bool → List (List ℕ) → List VideoChunk
number_from i frame_seq chunk_cnt keyframe [] = []
number_from i frame_seq chunk_cnt keyframe (d ∷ ds) =
    record {
      frame_seq = frame_seq;
      chunk_idx = i % 65536;
      chunk_cnt = chunk_cnt;
      keyframe = keyframe;
      bytes = d;
    }
    ∷ number_from (i + 1) frame_seq chunk_cnt keyframe ds

abbrev pub div_ceil : ℕ → ℕ → ℕ
div_ceil a b = (a + (b - 1)) / b

unfoldable pub fragment_frame : ℕ → EncodedVideoFrame → ℕ → List VideoChunk
fragment_frame frame_seq enc chunk_data_bytes =
    let cdb = max chunk_data_bytes 1 in
    let total = div_ceil (length enc.bytes) cdb in
    if is_empty enc.bytes
    then record {
      frame_seq = frame_seq;
      chunk_idx = 0;
      chunk_cnt = 1;
      keyframe = enc.keyframe;
      bytes = [];
    }
      ∷ []
    else number_from 0 frame_seq (min total 65535) enc.keyframe
        (chunks (length enc.bytes) cdb enc.bytes)

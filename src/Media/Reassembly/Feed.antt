-- ===== src/Media/Reassembly/Feed.antt =====
-- One chunk of a frame, put in behind the chunks before it.
use ghal_bol.Common.{
  ℕ, zero, suc, ◌%◌, ◌≤◌, ◌<◌, ◌≡◌, refl, sym, Bool, ◌||◌, none, some, List, [], ◌∷◌, ◌++◌, arith,
  length, All, nat_eq,
}
use mathlib.Core.List.{append_assoc, append-nil}
use ghal_bol.Common.Map
use ghal_bol.Common.Map.{get-insert, get-remove, get-insert_self, length-insert-le}
use ghal_bol.Common.OrdMap
use ghal_bol.Common.OrdMap.{OrdMap}
use ghal_bol.Media.VideoJitter.{EncodedVideoFrame}
use ghal_bol.Media.Packet.{VideoChunk}
use ghal_bol.Media.Reassembly.{
  Partial, Pending, Reassembler, push, evict, concat, entry, with_chunk,
}

-- What the receiver of a list of chunks completes, in the order of time.
unfoldable pub feed : List VideoChunk → Reassembler → Reassembler × List (ℕ × EncodedVideoFrame)
feed [] r = (r, [])
feed (c ∷ cs) r =
    let (r', done) = push c r in
    let (r'', fs) = feed cs r' in (r'', elim done [ none ↦ fs | some f ↦ f ∷ fs ])

module _ (c : VideoChunk) (cs : List VideoChunk) (r r' : Reassembler) where
  pub feed_more : push c r ≡ (r', none) → feed (c ∷ cs) r ≡ feed cs r'
  unfolding feed
  feed_more e = ground arith

  pub feed_done :
      (f : ℕ × EncodedVideoFrame)
      → push c r ≡ (r', some f)
      → feed (c ∷ cs) r ≡ ((feed cs r').0, f ∷ (feed cs r').1)
  unfolding feed
  feed_done f e = ground arith

-- All indices are below `i`.
abbrev pub Below : ℕ → OrdMap (List ℕ) → Type 0
Below i = All (λ b. b.0 < i)

pub insert_last :
    (i : ℕ) (d : List ℕ) (m : OrdMap (List ℕ)) → Below i m → OrdMap.insert i d m ≡ m ++ (i, d) ∷ []
unfolding OrdMap.insert
insert_last i d [] b = refl
insert_last i d ((j, e) ∷ m) b = ground (arith, insert_last i d m b.1)

pub concat-append :
    (m : OrdMap (List ℕ)) (i : ℕ) (d : List ℕ) → concat (m ++ (i, d) ∷ []) ≡ concat m ++ d
concat-append [] i d = append-nil d
concat-append ((j, e) ∷ m) i d = rw (concat-append m i d) (sym (append_assoc e (concat m) d))

evict_fits : (fuel n : ℕ) (m : Pending) → length m ≤ n → evict fuel n m ≡ m
unfolding evict
evict_fits zero n m h = refl
evict_fits (suc fuel) n m h = ground arith

-- One chunk put into the entry of its frame.
module _ (c : VideoChunk) (r : Reassembler) (p : Partial)
    (e : entry c (Map.get c.frame_seq r.pending) ≡ p) where
  pub push_more :
      length (with_chunk c p).chunks < p.chunk_cnt
      → p.chunk_cnt < 65536
      → length (Map.insert c.frame_seq (with_chunk c p) r.pending) ≤ r.max_pending
      → push c r ≡ (record r { pending = Map.insert c.frame_seq (with_chunk c p) r.pending }, none)
  unfolding push
  push_more h w room = rw e (
      ground (
        arith,
        evict_fits (length (Map.insert c.frame_seq (with_chunk c p) r.pending)) r.max_pending
            (Map.insert c.frame_seq (with_chunk c p) r.pending) room,
      ))

  pub push_last :
      length (with_chunk c p).chunks ≡ p.chunk_cnt
      → p.chunk_cnt < 65536
      → push c r ≡ (
        record r {
          pending = Map.remove c.frame_seq (Map.insert c.frame_seq (with_chunk c p) r.pending);
        },
        some (
          c.frame_seq,
          record { keyframe = p.keyframe || c.keyframe; bytes = concat (with_chunk c p).chunks },
        ),
      )
  unfolding push
  push_last h w = rw e (ground arith)

-- The chunk that carries `d` as number `i`.
abbrev pub chunk_at : ℕ → ℕ → Bool → ℕ → List ℕ → VideoChunk
chunk_at frame_seq cnt key i d = record {
  frame_seq = frame_seq;
  chunk_idx = i % 65536;
  chunk_cnt = cnt;
  keyframe = key;
  bytes = d;
}

-- The entry holds the chunks before number `i`.
pub record Holds (cnt : ℕ) (key : Bool) (i : ℕ) (p : Partial) : Type 0 where
  pub count : p.chunk_cnt ≡ cnt
  pub below : Below i p.chunks
  pub size : length p.chunks ≡ i
  pub flag : (p.keyframe || key) ≡ key

pub with_chunk-chunks :
    (frame_seq cnt : ℕ) (key : Bool) (i : ℕ) (d : List ℕ) (p : Partial)
    → i < 65536
    → Holds cnt key i p
    → (with_chunk (chunk_at frame_seq cnt key i d) p).chunks ≡ p.chunks ++ (i, d) ∷ []
with_chunk-chunks frame_seq cnt key i d p h q =
    let same : i % 65536 ≡ i = omega arith in rw same (insert_last i d p.chunks q.below)

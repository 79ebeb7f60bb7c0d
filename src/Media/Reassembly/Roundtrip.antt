-- ===== src/Media/Reassembly/Roundtrip.antt =====
-- The chunks of a frame, sent in order, come back as that frame.
use ghal_bol.Common.{
  ℕ, suc, ◌+◌, ◌≤◌, ◌<◌, ◌≡◌, refl, ap, subst, ◌∙◌, sym, Bool, false, ◌||◌, none, List, [], ◌∷◌,
  ◌++◌, arith, length, length-append, All-append, min, max, nat_eq,
}
use mathlib.Core.List.{append_assoc, append-nil}
use ghal_bol.Common.Map
use ghal_bol.Common.Map.{
  get-insert, get-remove, get-insert_self, length-insert-le, length-insert_again, beq_self,
}
use ghal_bol.Common.OrdMap.{OrdMap}
use ghal_bol.Media.VideoJitter.{EncodedVideoFrame}
use ghal_bol.Media.Packet.{number_from, chunks, fragment_frame, div_ceil}
use ghal_bol.Media.Packet.Cut.{join, join-chunks, length-chunks}
use ghal_bol.Media.Reassembly.{Partial, Pending, Reassembler, concat, entry, with_chunk}
use ghal_bol.Media.Reassembly.Feed.{
  feed, feed_more, feed_done, Below, Holds, concat-append, push_more, push_last, chunk_at,
  with_chunk-chunks,
}

Below-mono : (i : ℕ) (m : OrdMap (List ℕ)) → Below i m → Below (i + 1) m
Below-mono i [] b = tt
Below-mono i ((j, d) ∷ m) b = (omega arith, Below-mono i m b.1)

next_Holds :
    (frame_seq cnt : ℕ) (key : Bool) (i : ℕ) (d : List ℕ) (p : Partial)
    → i < 65536
    → Holds cnt key i p
    → Holds cnt key (i + 1) (with_chunk (chunk_at frame_seq cnt key i d) p)
next_Holds frame_seq cnt key i d p h q =
    let e = with_chunk-chunks frame_seq cnt key i d p h q in
    record {
      count = q.count;
      below = subst (Below (i + 1)) (sym e) (
          All-append (λ b. b.0 < i + 1) p.chunks ((i, d) ∷ []) (Below-mono i p.chunks q.below)
            (omega arith, tt));
      size = ap length e ∙ (length-append p.chunks ((i, d) ∷ []) ∙ omega (arith, q.size));
      flag = ground (arith, q.flag);
    }

-- What the receiver ends with: the one frame, and no entry for it.
abbrev pub Delivers : ℕ → EncodedVideoFrame → Reassembler × List (ℕ × EncodedVideoFrame) → Type 0
Delivers frame_seq f r = (r.1 ≡ (frame_seq, f) ∷ []) × (Map.get frame_seq r.0.pending ≡ none)

delivered :
    (frame_seq : ℕ) (p : Partial) (r : Reassembler) (key : Bool) (bytes : List ℕ) (m : Pending)
    {whole : List ℕ}
    → (p.keyframe || key) ≡ key
    → bytes ≡ whole
    → Delivers frame_seq
        (record { keyframe = key; bytes = whole })
        (
          (feed [] (record r { pending = Map.remove frame_seq m })).0,
          (frame_seq, record { keyframe = p.keyframe || key; bytes = bytes })
              ∷ (feed [] (record r { pending = Map.remove frame_seq m })).1,
        )
unfolding feed
delivered frame_seq p r key bytes m f e =
    (rw (f, e), get-remove frame_seq frame_seq m ∙ rw (beq_self frame_seq))

module _ (frame_seq cnt : ℕ) (key : Bool) (width : cnt < 65536) where
  feed_rest :
      (ds : List (List ℕ)) (d : List ℕ) (i : ℕ) (p : Partial) (r : Reassembler)
      → entry (chunk_at frame_seq cnt key i d) (Map.get frame_seq r.pending) ≡ p
      → Holds cnt key i p
      → i + suc (length ds) ≡ cnt
      → ((q : Partial) → length (Map.insert frame_seq q r.pending) ≤ r.max_pending)
      → Delivers frame_seq
          (record { keyframe = key; bytes = concat p.chunks ++ join (d ∷ ds) })
          (feed (number_from i frame_seq cnt key (d ∷ ds)) r)
  unfolding number_from
  feed_rest [] d i p r e q n room =
      let c = chunk_at frame_seq cnt key i d in
      let next = next_Holds frame_seq cnt key i d p (omega arith) q in
      let pushed = push_last c r p e (omega (arith, next.size, q.count)) (omega (arith, q.count)) in
      let bytes =
        ap concat (with_chunk-chunks frame_seq cnt key i d p (omega arith) q)
        ∙ concat-append p.chunks i d in
      rw (feed_done c [] r _ _ pushed) (
        delivered frame_seq p r key _ (Map.insert frame_seq (with_chunk c p) r.pending) q.flag
          (bytes ∙ ap (◌++◌ (concat p.chunks)) (sym (append-nil d))))
  feed_rest (d' ∷ ds) d i p r e q n room =
      let c = chunk_at frame_seq cnt key i d in
      let p' : Partial = with_chunk c p in
      let r' : Reassembler = record r { pending = Map.insert frame_seq p' r.pending } in
      let next = next_Holds frame_seq cnt key i d p (omega arith) q in
      let pushed =
        push_more c r p e (omega (arith, next.size, q.count)) (omega (arith, q.count)) (room p') in
      let kept =
        ap (λ (b : List ℕ). b ++ join (d' ∷ ds))
          (ap concat (with_chunk-chunks frame_seq cnt key i d p (omega arith) q)
            ∙ concat-append p.chunks i d)
        ∙ append_assoc (concat p.chunks) d (join (d' ∷ ds)) in
      rw (feed_more c (number_from (i + 1) frame_seq cnt key (d' ∷ ds)) r r' pushed, sym kept)
        (feed_rest ds d' (i + 1) p' r'
          (ap (entry (chunk_at frame_seq cnt key (i + 1) d'))
            (get-insert_self frame_seq p' r.pending))
          next (omega arith)
          (λ (x : Partial).
            subst (λ (n : ℕ). n ≤ r.max_pending)
              (sym (length-insert_again frame_seq x p' r.pending)) (room p')))

-- A frame of at least one byte has a first chunk.
feed_whole :
    (frame_seq cnt : ℕ) (key : Bool) (ds : List (List ℕ)) (r : Reassembler)
    → cnt < 65536
    → 1 ≤ cnt
    → length ds ≡ cnt
    → Map.get frame_seq r.pending ≡ none
    → ((q : Partial) → length (Map.insert frame_seq q r.pending) ≤ r.max_pending)
    → Delivers frame_seq
        (record { keyframe = key; bytes = join ds })
        (feed (number_from 0 frame_seq cnt key ds) r)
feed_whole frame_seq cnt key [] r w p n new room = absurd (omega arith)
feed_whole frame_seq cnt key (d ∷ ds) r w p n new room =
    feed_rest frame_seq cnt key w ds d 0 (record { chunk_cnt = cnt; keyframe = false; chunks = [] })
      r (ap (entry (chunk_at frame_seq cnt key 0 d)) new)
      (record { count = refl; below = tt; size = refl; flag = refl }) (omega (arith, n)) room

div_ceil_pos : (a b : ℕ) → 1 ≤ a → 1 ≤ b → 1 ≤ div_ceil a b
div_ceil_pos a b p q = grind arith

-- The frame with the flag and the bytes apart.
fragmented :
    (frame_seq : ℕ) (key : Bool) (bytes : List ℕ) (cdb : ℕ) (r : Reassembler)
    → div_ceil (length bytes) (max cdb 1) ≤ 65535
    → Map.get frame_seq r.pending ≡ none
    → ((q : Partial) → length (Map.insert frame_seq q r.pending) ≤ r.max_pending)
    → Delivers frame_seq
        (record { keyframe = key; bytes = bytes })
        (feed (fragment_frame frame_seq (record { keyframe = key; bytes = bytes }) cdb) r)
unfolding fragment_frame number_from
fragmented frame_seq key [] cdb r fits new room =
    feed_whole frame_seq 1 key ([] ∷ []) r (omega arith) (omega arith) refl new room
fragmented frame_seq key (x ∷ xs) cdb r fits new room =
    let n = max cdb 1 in
    let cut = chunks (suc (length xs)) n (x ∷ xs) in
    let total = div_ceil (suc (length xs)) n in
    let pos : 1 ≤ n = omega arith in
    let same : min total 65535 ≡ total = omega arith in
    rw same (
      subst
        (λ (b : List ℕ).
          Delivers frame_seq (record { keyframe = key; bytes = b })
            (feed (number_from 0 frame_seq total key cut) r))
        (join-chunks (suc (length xs)) n (x ∷ xs) pos (omega arith))
        (feed_whole frame_seq total key cut r (omega arith)
          (div_ceil_pos (suc (length xs)) n (omega arith) pos)
          (length-chunks (suc (length xs)) n (x ∷ xs) pos (omega arith)) new room))

-- A frame cut into chunks, and fed to a receiver in order, is delivered whole, once, and leaves no
-- partial frame behind: if no chunk of its number is waiting there, one more partial frame fits, and
-- the frame takes at most 65535 chunks.
pub fragment_roundtrip :
    (frame_seq : ℕ) (enc : EncodedVideoFrame) (chunk_data_bytes : ℕ) (r : Reassembler)
    → div_ceil (length enc.bytes) (max chunk_data_bytes 1) ≤ 65535
    → Map.get frame_seq r.pending ≡ none
    → length r.pending < r.max_pending
    → Delivers frame_seq enc (feed (fragment_frame frame_seq enc chunk_data_bytes) r)
fragment_roundtrip frame_seq enc cdb r fits new room =
    let room' : (q : Partial) → length (Map.insert frame_seq q r.pending) ≤ r.max_pending =
      λ q. omega (arith, length-insert-le frame_seq q r.pending) in
    fragmented frame_seq enc.keyframe enc.bytes cdb r fits new room'

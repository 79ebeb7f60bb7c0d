-- ===== src/Media/Reassembly/Bound.antt =====
-- The receiver never holds more partial frames than it was made for.
use ghal_bol.Common.{
  ℕ, zero, suc, ◌%◌, ◌≤◌, ◌<◌, ◌≡◌, refl, inl, inr, true, List, [], ◌∷◌, arith, length, min, max,
  nat_eq, ltb, leb, Bool-cases,
}
use ghal_bol.Common.Map
use ghal_bol.Common.Map.{length-insert-le, length-remove-le}
use ghal_bol.Media.Packet.{VideoChunk}
use ghal_bol.Media.Reassembly.{
  Partial, Pending, Reassembler, new, push, evict, evict_least, least_from, entry, with_chunk,
}
use ghal_bol.Media.Reassembly.Feed.{feed}

remove_shorter :
    (k : ℕ) (m : Pending) → Map.contains k m ≡ true → length (Map.remove k m) < length m
unfolding Map.get Map.remove
remove_shorter k [] h = absurd cc
remove_shorter k ((j, v) ∷ m) h = ground (arith, length-remove-le k m, remove_shorter k m)

contains_more :
    (k j : ℕ) (u : Partial) (m : Pending)
    → Map.contains k m ≡ true
    → Map.contains k ((j, u) ∷ m) ≡ true
unfolding Map.get
contains_more k j u m h = ground arith

contains_first : (k j : ℕ) (u : Partial) (m : Pending) → k ≡ j → Map.contains k ((j, u) ∷ m) ≡ true
unfolding Map.get
contains_first k j u m e = ground arith

contains_past :
    (k i : ℕ) (t : Partial) (j : ℕ) (u : Partial) (m : Pending)
    → Map.contains k ((i, t) ∷ m) ≡ true
    → Map.contains k ((i, t) ∷ (j, u) ∷ m) ≡ true
unfolding Map.get
contains_past k i t j u m h = ground arith

-- The least key is one of the keys.
least_in : (k : ℕ) (p : Partial) (m : Pending) → Map.contains (least_from k m) ((k, p) ∷ m) ≡ true
least_in k p [] = contains_first k k p [] refl
least_in k p ((j, q) ∷ m) = elim (Bool-cases (leb k j)) [
  | inl le ↦
      let e : min k j ≡ k = ground arith in
      rw e (contains_past (least_from k m) k p j q m (least_in k p m))
  | inr gt ↦
      let e : min k j ≡ j = ground arith in
      rw e (contains_more (least_from j m) k p ((j, q) ∷ m) (least_in j q m))
]

evict_least_shorter : (m : Pending) → 1 ≤ length m → length (evict_least m) < length m
evict_least_shorter [] h = absurd (omega arith)
evict_least_shorter ((k, p) ∷ m) h = remove_shorter (least_from k m) ((k, p) ∷ m) (least_in k p m)

-- As many rounds as there are frames are enough.
evict_bound : (fuel n : ℕ) (m : Pending) → length m ≤ fuel → length (evict fuel n m) ≤ n
unfolding evict
evict_bound zero n [] h = omega arith
evict_bound zero n (b ∷ m) h = absurd (omega arith)
evict_bound (suc fuel) n m h = elim (Bool-cases (ltb n (length m))) [
  | inl over ↦ rw over (evict_bound fuel n (evict_least m) (ground (arith, evict_least_shorter m)))
  | inr fits ↦ rw fits (ground arith)
]

-- A frame that is complete leaves no more behind than there was.
remove-insert-le :
    (k : ℕ) (p : Partial) (m : Pending) → length (Map.remove k (Map.insert k p m)) ≤ length m
unfolding Map.insert Map.remove
remove-insert-le k p [] = ground arith
remove-insert-le k p ((j, v) ∷ m) = ground (arith, remove-insert-le k p m, length-remove-le k m)

push_bound :
    (c : VideoChunk) (r : Reassembler)
    → length r.pending ≤ r.max_pending
    → length (push c r).0.pending ≤ r.max_pending
unfolding push
push_bound c r h =
    let p = with_chunk c (entry c (Map.get c.frame_seq r.pending)) in
    let pending = Map.insert c.frame_seq p r.pending in
    elim (Bool-cases (leb p.chunk_cnt (length p.chunks % 65536))) [
      | inl full ↦ rw full (omega (arith, remove-insert-le c.frame_seq p r.pending, h))
      | inr more ↦ rw more (evict_bound (length pending) r.max_pending pending (omega arith))
    ]

push_keeps_max : (c : VideoChunk) (r : Reassembler) → (push c r).0.max_pending ≡ r.max_pending
unfolding push
push_keeps_max c r = ground arith

feed_bound :
    (cs : List VideoChunk) (r : Reassembler)
    → length r.pending ≤ r.max_pending
    → length (feed cs r).0.pending ≤ r.max_pending
unfolding feed
feed_bound [] r h = h
feed_bound (c ∷ cs) r h =
    let kept = push_keeps_max c r in
    let fits = push_bound c r h in
    let rest = feed_bound cs (push c r).0 (omega arith) in omega arith

-- Whatever chunks arrive, a reassembler that was made for `n` partial frames holds at most `n` of
-- them, or two where `n` is less.
pub pending_bound : (n : ℕ) (cs : List VideoChunk) → length (feed cs (new n)).0.pending ≤ max n 2
unfolding new
pending_bound n cs = feed_bound cs (new n) (omega arith)

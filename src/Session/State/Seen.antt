-- ===== src/Session/State/Seen.antt =====
-- A message that came in is handled once, and the memory of such messages is bounded.
use ghal_bol.Common.{
  ℕ, ◌+◌, ◌≤◌, ◌<◌, ◌≡◌, refl, inl, inr, true, false, ◌&&◌, List, [], ◌∷◌, arith, length, ltb,
  if◌then◌else◌, Text, text_eq, text_eq_iff, eq_of_text, Bool-cases,
}
use ghal_bol.Common.Int.{ℤ, ltb_ℤ}
use ghal_bol.Common.Map
use ghal_bol.Common.Map.{
  Map, get-insert, get-insert_self, get-remove, length-insert-le, length-remove-le,
}
use ghal_bol.Session.State.{
  SessionState, new, mark_seen_inbound, drop_oldest, oldest_from, seen_inbound_max,
}

remove_shorter :
    (k : Text) (m : Map Text ℤ) → Map.contains k m ≡ true → length (Map.remove k m) < length m
unfolding Map.get Map.remove
remove_shorter k [] h = absurd cc
remove_shorter k ((j, v) ∷ m) h = ground (arith, length-remove-le k m, remove_shorter k m)

contains_more :
    (k j : Text) (u : ℤ) (m : Map Text ℤ)
    → Map.contains k m ≡ true
    → Map.contains k ((j, u) ∷ m) ≡ true
unfolding Map.get
contains_more k j u m h = ground arith

contains_first : (k j : Text) (u : ℤ) (m : Map Text ℤ) → k ≡ j → Map.contains k ((j, u) ∷ m) ≡ true
unfolding Map.get
contains_first k j u m e = ground (arith, text_eq_iff j k)

contains_past :
    (k i : Text) (t : ℤ) (j : Text) (u : ℤ) (m : Map Text ℤ)
    → Map.contains k ((i, t) ∷ m) ≡ true
    → Map.contains k ((i, t) ∷ (j, u) ∷ m) ≡ true
unfolding Map.get
contains_past k i t j u m h = ground arith

-- The oldest key is one of the keys.
oldest_in :
    (id : Text) (t : ℤ) (m : Map Text ℤ) → Map.contains (oldest_from id t m) ((id, t) ∷ m) ≡ true
oldest_in id t [] = contains_first id id t [] refl
oldest_in id t ((j, u) ∷ m) = elim (Bool-cases (ltb_ℤ u t)) [
  | inl less ↦ rw less (contains_more (oldest_from j u m) id t ((j, u) ∷ m) (oldest_in j u m))
  | inr more ↦ rw more (contains_past (oldest_from id t m) id t j u m (oldest_in id t m))
]

drop_oldest_shorter : (m : Map Text ℤ) → 1 ≤ length m → length (drop_oldest m) < length m
unfolding drop_oldest
drop_oldest_shorter [] h = absurd (omega arith)
drop_oldest_shorter ((id, t) ∷ m) h =
    remove_shorter (oldest_from id t m) ((id, t) ∷ m) (oldest_in id t m)

-- The arrivals, with their times.
unfoldable pub run : List (Text × ℤ) → SessionState → SessionState
run [] s = s
run ((id, now_ms) ∷ cs) s = run cs (mark_seen_inbound id now_ms s).0

mark_bound :
    (id : Text) (now_ms : ℤ) (s : SessionState)
    → length s.seen_inbound_ids ≤ seen_inbound_max
    → length (mark_seen_inbound id now_ms s).0.seen_inbound_ids ≤ seen_inbound_max
unfolding mark_seen_inbound
mark_bound id now_ms s h =
    let seen = Map.insert id now_ms s.seen_inbound_ids in
    ground (arith, length-insert-le id now_ms s.seen_inbound_ids, drop_oldest_shorter seen)

run_bound :
    (cs : List (Text × ℤ)) (s : SessionState)
    → length s.seen_inbound_ids ≤ seen_inbound_max
    → length (run cs s).seen_inbound_ids ≤ seen_inbound_max
unfolding run
run_bound [] s h = h
run_bound ((id, now_ms) ∷ cs) s h =
    run_bound cs (mark_seen_inbound id now_ms s).0 (mark_bound id now_ms s h)

-- How often a message is taken as new.
unfoldable pub taken : Text → List (Text × ℤ) → SessionState → ℕ
taken id [] s = 0
taken id ((j, now_ms) ∷ cs) s =
    let (s', fresh) = mark_seen_inbound j now_ms s in
    (if text_eq j id && fresh then 1 else 0) + taken id cs s'

-- Room for all arrivals: an id is new once, if it is not there.
taken_once :
    (id : Text) (cs : List (Text × ℤ)) (s : SessionState)
    → length s.seen_inbound_ids + length cs ≤ seen_inbound_max
    → taken id cs s ≤ (if Map.contains id s.seen_inbound_ids then 0 else 1)
unfolding taken mark_seen_inbound
taken_once id [] s h = omega arith
taken_once id ((j, now_ms) ∷ cs) s h = elim (Bool-cases (Map.contains j s.seen_inbound_ids)) [
  | inl known ↦ rw known (ground (arith, taken_once id cs s))
  | inr fresh ↦
      let seen = Map.insert j now_ms s.seen_inbound_ids in
      let fits : ltb seen_inbound_max (length seen) ≡ false =
        ground (arith, length-insert-le j now_ms s.seen_inbound_ids) in
      let rest =
        taken_once id cs (record s { seen_inbound_ids = seen })
          (omega (arith, length-insert-le j now_ms s.seen_inbound_ids)) in
      rw (fresh, fits)
        (ground (arith, rest, get-insert j id now_ms s.seen_inbound_ids, text_eq_iff j id))
]

-- However many messages come in, the memory holds 2048 of them at most; and of 2048 arrivals or fewer
-- since the start, each message is taken as new once at most, however often it comes.
pub seen_inbound_once :
    (id : Text) (cs earlier : List (Text × ℤ))
    → length cs ≤ seen_inbound_max
    → (taken id cs new ≤ 1) × (length (run earlier new).seen_inbound_ids ≤ seen_inbound_max)
unfolding Map.get
seen_inbound_once id cs earlier h =
    (omega (arith, taken_once id cs new (omega arith)), run_bound earlier new (omega arith))

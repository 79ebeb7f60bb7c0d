-- ===== src/Coord/Presence/Kept.antt =====
-- The calls on the presence table, and the record of a peer that they leave as it is.
use ghal_bol.Common.{
  ℕ, ◌+◌, ◌≤◌, ◌≡◌, ◌≢◌, refl, ap, ◌∙◌, sym, inl, inr, Bool, true, false, not, Option, none, some,
  List, [], ◌∷◌, All, arith, ltb, Result, ok, err, Text, text_eq, text_eq_iff, eq_of_text,
  Bool-cases,
}
use ghal_bol.Common.Map
use ghal_bol.Common.Map.{retain, get-insert}
use ghal_bol.Coord.Presence.{
  ServerError, PeerEndpoint, PeerRecord, PresenceStore, filter_wan_presence_endpoints,
  heartbeat_cutoff_ms, merge_client_register, merge_for, upsert, upsert_for, heartbeat, beaten,
  purge_expired,
}

pub data Call : Type 0 where
  registers upserts : ℕ → Text → List PeerEndpoint → List Text → Option Text → Option Text → Call
  beats : ℕ → Text → Call
  purges : ℕ → ℕ → Call

get-retain_kept :
    (p : PeerRecord → Bool) (k : Text) (r : PeerRecord) (s : PresenceStore)
    → p r ≡ true
    → Map.get k s ≡ some r
    → Map.get k (retain p s) ≡ some r
unfolding Map.get
get-retain_kept p k r [] h g = absurd cc
get-retain_kept p k r ((j, q) ∷ s) h g =
    ground (arith, h, g, text_eq_iff j k, get-retain_kept p k r s h)

module _ (normalize : Text → Result ServerError Text) where
  unfoldable pub step : Call → PresenceStore → PresenceStore
  step (registers now who es caps ipv6 ipv4) s =
      (merge_client_register normalize now who es caps ipv6 ipv4 s).0
  step (upserts now who es caps ipv6 ipv4) s = (upsert normalize now who es caps ipv6 ipv4 s).0
  step (beats now who) s = (heartbeat normalize now who s).0
  step (purges now ttl) s = (purge_expired now ttl s).0

  unfoldable pub run : List Call → PresenceStore → PresenceStore
  run [] s = s
  run (c ∷ cs) s = run cs (step c s)

  -- The call is for another peer, or it purges while the peer's presence runs.
  abbrev pub Leaves : Text → ℕ → Call → Type 0
  Leaves key at (registers now who es caps ipv6 ipv4) = normalize who ≢ ok key
  Leaves key at (upserts now who es caps ipv6 ipv4) = normalize who ≢ ok key
  Leaves key at (beats now who) = normalize who ≢ ok key
  Leaves key at (purges now ttl) = now ≤ at + ttl

  other_key :
      (k key : Text) → ◌≢◌ {A = Result ServerError Text} (ok k) (ok key) → text_eq k key ≡ false
  other_key k key n = elim (Bool-cases (text_eq k key)) [
    | inl same ↦ absurd (n (ap ok ((text_eq_iff k key).0 same)))
    | inr other ↦ other
  ]

  module _ (again : (w k : Text) → normalize w ≡ ok k → normalize k ≡ ok k) (key : Text)
      (r : PeerRecord) where
    abbrev Stored : PresenceStore → Type 0
    Stored s = Map.get key s ≡ some r

    insert-Stored :
        (k : Text) (q : PeerRecord) (s : PresenceStore)
        → text_eq k key ≡ false
        → Stored s
        → Stored (Map.insert k q s)
    insert-Stored k q s other g = ground (arith, get-insert k key q s, g, other)

    upsert-Stored :
        (now : ℕ) (es : List PeerEndpoint) (caps : List Text) (ipv6 ipv4 : Option Text)
        (o : Result ServerError Text) (s : PresenceStore)
        → o ≢ ok key
        → Stored s
        → Stored (upsert_for now es caps ipv6 ipv4 o s).0
    upsert-Stored now es caps ipv6 ipv4 (err e) s n g = g
    upsert-Stored now es caps ipv6 ipv4 (ok k) s n g = insert-Stored k _ s (other_key k key n) g

    merge-Stored :
        (now : ℕ) (es : List PeerEndpoint) (caps : List Text) (ipv6 ipv4 : Option Text) (who : Text)
        (o : Result ServerError Text) (s : PresenceStore)
        → normalize who ≡ o
        → o ≢ ok key
        → Stored s
        → Stored (merge_for normalize now es caps ipv6 ipv4 o s).0
    merge-Stored now es caps ipv6 ipv4 who (err e) s i n g = g
    merge-Stored now es caps ipv6 ipv4 who (ok k) s i n g =
        upsert-Stored now (filter_wan_presence_endpoints es) caps ipv6 ipv4 (normalize k) s
          (λ e. n (sym (again who k i) ∙ e)) g

    beaten-Stored :
        (now : ℕ) (k : Text) (o : Option PeerRecord) (s : PresenceStore)
        → text_eq k key ≡ false
        → Stored s
        → Stored (beaten normalize now k o s).0
    beaten-Stored now k none s n g = g
    beaten-Stored now k (some q) s n g = insert-Stored k _ s n g

    beat-Stored :
        (now : ℕ) (o : Result ServerError Text) (s : PresenceStore)
        → o ≢ ok key
        → Stored s
        → Stored
            (elim o as (λ _. PresenceStore × Result ServerError PeerRecord) [
              | err e ↦ (s, err e)
              | ok k ↦ beaten normalize now k (Map.get k s) s
            ]).0
    beat-Stored now (err e) s n g = g
    beat-Stored now (ok k) s n g = beaten-Stored now k (Map.get k s) s (other_key k key n) g

    step-Stored :
        (at : ℕ) (c : Call) (s : PresenceStore)
        → at ≤ r.last_heartbeat_unix_ms
        → Leaves key at c
        → Stored s
        → Stored (step c s)
    unfolding step merge_client_register upsert heartbeat purge_expired
    step-Stored at (registers now who es caps ipv6 ipv4) s h l g =
        merge-Stored now es caps ipv6 ipv4 who (normalize who) s refl l g
    step-Stored at (upserts now who es caps ipv6 ipv4) s h l g =
        upsert-Stored now es caps ipv6 ipv4 (normalize who) s l g
    step-Stored at (beats now who) s h l g = beat-Stored now (normalize who) s l g
    step-Stored at (purges now ttl) s h l g =
        get-retain_kept (λ q. not (ltb q.last_heartbeat_unix_ms (heartbeat_cutoff_ms now ttl))) key
          r s (ground (arith, h, l)) g

    pub run-Stored :
        (at : ℕ) (cs : List Call) (s : PresenceStore)
        → at ≤ r.last_heartbeat_unix_ms
        → All (Leaves key at) cs
        → Stored s
        → Stored (run cs s)
    unfolding run
    run-Stored at [] s h l g = g
    run-Stored at (c ∷ cs) s h l g = run-Stored at cs (step c s) h l.1 (step-Stored at c s h l.0 g)

-- ===== src/Coord/Presence/Register.antt =====
-- A peer that registers is found.
use ghal_bol.Common.{
  sym, inl, inr, Bool, true, false, ◌&&◌, any, some, All, ltb, text, text_eq, Bool-cases, ℕ, ◌+◌,
  ◌≤◌, ◌≡◌, refl, ap, ◌∙◌, Option, List, [], ◌∷◌, arith, length, if◌then◌else◌, Result, ok, err,
  Text, eq_of_text, is_empty,
}
use ghal_bol.Common.Map
use ghal_bol.Common.Map.{get-insert_self}
use ghal_bol.Coord.Presence.{
  ServerError, not_found, is_wan_dialable_endpoint, is_public_routable_tcp_host, PeerEndpoint,
  PeerRecord, PresenceStore, filter_wan_presence_endpoints, prepare_peer_lookup,
  heartbeat_cutoff_ms, fetch_one, merge_client_register, merge_for, upsert_for, answer, get_for,
  get,
}
use ghal_bol.Coord.Presence.Kept.{Call, Leaves, run, run-Stored}
use ghal_bol.Coord.Presence.Lookup.{Dialable, filter-Dialable, filter_again}

-- The record that the server answers with.
abbrev pub registered :
    ℕ → Text → List PeerEndpoint → List Text → Option Text → Option Text → PeerRecord
registered now_ms key es caps ipv6 ipv4 = record {
  public_key_hex = key;
  endpoints = filter_wan_presence_endpoints es;
  transport_capabilities = caps;
  ipv6 = ipv6;
  ipv4 = ipv4;
  last_heartbeat_unix_ms = now_ms;
}

filter_twice :
    (es : List PeerEndpoint)
    → filter_wan_presence_endpoints (filter_wan_presence_endpoints es)
      ≡ filter_wan_presence_endpoints es
filter_twice es = filter_again (filter_wan_presence_endpoints es) (filter-Dialable es)

kept_list :
    (r : PeerRecord) (es : List PeerEndpoint)
    → 1 ≤ length es
    → ◌≡◌ {A = Result ServerError PeerRecord}
        (if is_empty es then err not_found else ok (record r { endpoints = es }))
        (ok (record r { endpoints = es }))
kept_list r [] n = absurd (omega arith)
kept_list r (e ∷ es) n = refl

prepared_same :
    (r : PeerRecord) → Dialable r.endpoints → 1 ≤ length r.endpoints → prepare_peer_lookup r ≡ ok r
unfolding prepare_peer_lookup
prepared_same r d n = rw (filter_again r.endpoints d) (kept_list r r.endpoints n)

-- What is stored of the endpoints.
stored :
    (now_ms : ℕ) (key : Text) (es : List PeerEndpoint) (caps : List Text) (ipv6 ipv4 : Option Text)
    → registered now_ms key (filter_wan_presence_endpoints es) caps ipv6 ipv4
      ≡ registered now_ms key es caps ipv6 ipv4
stored now_ms key es caps ipv6 ipv4 =
    ap
      (λ (x : List PeerEndpoint). record (registered now_ms key [] caps ipv6 ipv4) {
        endpoints = x;
      })
      (filter_twice es)

-- A `tcp` endpoint with a port, at a public IPv4 address.
abbrev pub is_public_tcp : PeerEndpoint → Bool
is_public_tcp e =
    text_eq e.scheme (text "tcp") && (is_public_routable_tcp_host e.host && ltb 0 e.port)

-- The second list has, in order, the public `tcp` endpoints of the first, and no other.
pub data Picks : List PeerEndpoint → List PeerEndpoint → Type 0 where
  empty : Picks [] []
  takes :
      {e : PeerEndpoint} {es fs : List PeerEndpoint}
      → is_public_tcp e ≡ true
      → Picks es fs
      → Picks (e ∷ es) (e ∷ fs)
  drops :
      {e : PeerEndpoint} {es fs : List PeerEndpoint}
      → is_public_tcp e ≡ false
      → Picks es fs
      → Picks (e ∷ es) fs

same_test : (e : PeerEndpoint) → is_wan_dialable_endpoint e ≡ is_public_tcp e
unfolding is_wan_dialable_endpoint
same_test e = ground arith

filter-Picks : (es : List PeerEndpoint) → Picks es (filter_wan_presence_endpoints es)
filter-Picks [] = empty
filter-Picks (e ∷ es) = elim (Bool-cases (is_wan_dialable_endpoint e)) [
  | inl yes' ↦ rw yes' (takes (sym (same_test e) ∙ yes') (filter-Picks es))
  | inr no' ↦ rw no' (drops (sym (same_test e) ∙ no') (filter-Picks es))
]

some_left :
    (es : List PeerEndpoint)
    → any is_public_tcp es ≡ true
    → 1 ≤ length (filter_wan_presence_endpoints es)
some_left [] h = absurd cc
some_left (e ∷ es) h = ground (arith, same_test e, some_left es, h)

-- The answer to a lookup of a peer.
pub record Answers (key : Text) (es : List PeerEndpoint) (caps : List Text)
    (ipv6 ipv4 : Option Text) (at : ℕ) (r : PeerRecord) : Type 0 where
  pub public_key : r.public_key_hex ≡ key
  pub endpoints : Picks es r.endpoints
  pub capabilities : r.transport_capabilities ≡ caps
  pub hints : (r.ipv6 ≡ ipv6) × (r.ipv4 ≡ ipv4)
  pub heartbeat : r.last_heartbeat_unix_ms ≡ at

-- The record after a registration.
put :
    (normalize : Text → Result ServerError Text) (now_ms : ℕ) (who key : Text)
    (es : List PeerEndpoint) (caps : List Text) (ipv6 ipv4 : Option Text) (s : PresenceStore)
    → normalize who ≡ ok key
    → normalize key ≡ ok key
    → (merge_client_register normalize now_ms who es caps ipv6 ipv4 s).0
      ≡ Map.insert key (registered now_ms key es caps ipv6 ipv4) s
unfolding merge_client_register
put normalize now_ms who key es caps ipv6 ipv4 s h k =
    ap (λ (o : Result ServerError Text). (merge_for normalize now_ms es caps ipv6 ipv4 o s).0) h
    ∙ (ap
          (λ (o : Result ServerError Text).
            (upsert_for now_ms (filter_wan_presence_endpoints es) caps ipv6 ipv4 o s).0)
          k
        ∙ ap (λ (x : PeerRecord). Map.insert key x s) (stored now_ms key es caps ipv6 ipv4))

fetched :
    (key : Text) (cutoff : ℕ) (r : PeerRecord) (s : PresenceStore)
    → cutoff ≤ r.last_heartbeat_unix_ms
    → Map.get key s ≡ some r
    → fetch_one key cutoff s ≡ ok r
unfolding fetch_one
fetched key cutoff r s h g = ground (arith, g)

-- `normalize` gives normal forms, and a peer registers with an endpoint that is `tcp`, with a port, at a public
-- IPv4 address. Then, until its presence runs out, a lookup of it answers with what it registered, but of the
-- endpoints with those that are of this kind alone (a `quic` endpoint is dropped), whatever is called in between
-- for other peers, and whatever is purged while its presence runs.
pub register_found :
    (normalize : Text → Result ServerError Text) (now_ms later_ms ttl_ms : ℕ) (who key : Text)
    (es : List PeerEndpoint) (caps : List Text) (ipv6 ipv4 : Option Text) (s : PresenceStore)
    (between : List Call)
    → ((w k : Text) → normalize w ≡ ok k → normalize k ≡ ok k)
    → normalize who ≡ ok key
    → any is_public_tcp es ≡ true
    → All (Leaves normalize key now_ms) between
    → later_ms ≤ now_ms + ttl_ms
    → (r : PeerRecord) × (get normalize later_ms ttl_ms who
          (run normalize between (merge_client_register normalize now_ms who es caps ipv6 ipv4 s).0)
        ≡ ok r)
      × Answers key es caps ipv6 ipv4 now_ms r
unfolding get
register_found normalize now_ms later_ms ttl_ms who key es caps ipv6 ipv4 s between again h n l t =
    let r = registered now_ms key es caps ipv6 ipv4 in
    let s' =
      run normalize between (merge_client_register normalize now_ms who es caps ipv6 ipv4 s).0 in
    let there : Map.get key s' ≡ some r =
      run-Stored normalize again key r now_ms between _ (omega arith) l (
        ap (Map.get key) (put normalize now_ms who key es caps ipv6 ipv4 s h (again who key h))
        ∙ get-insert_self key r s) in
    (
      r,
      ap (λ (o : Result ServerError Text). get_for later_ms ttl_ms o s') h
          ∙ (ap answer
                (fetched key (heartbeat_cutoff_ms later_ms ttl_ms) r s' (omega (arith, t)) there)
              ∙ prepared_same r (filter-Dialable es) (some_left es n)),
      record {
        public_key = refl;
        endpoints = filter-Picks es;
        capabilities = refl;
        hints = (refl, refl);
        heartbeat = refl;
      },
    )

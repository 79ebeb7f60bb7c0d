-- ===== src/Coord/Presence.antt =====
-- ghalbol_coord/src/presence.rs: the table `peers`, by its primary key `public_key_hex`. `normalize` is
-- normalize_identity_wire, which asks the crypto libraries. Times are numbers below 2 ^ 63, and rows come in
-- table order where times are equal.
pub mod Lookup
pub mod Kept
pub mod Register
use ghal_bol.Common.{
  ℕ, ◌+◌, ◌-◌, ◌*◌, ◌/◌, Bool, true, false, not, ◌&&◌, ◌||◌, Option, none, some, List, [], ◌∷◌, ltb,
  leb, ◌==◌, length, keep_if, map, if◌then◌else◌, Result, ok, err, Text, text, text_eq, eq_of_text,
  is_empty, trim, any,
}
use ghal_bol.Common.Map
use ghal_bol.Common.Map.{Map, retain}

pub data ServerError : Type 0 where
  bad_request unauthorized not_found internal : ServerError

pub record PeerEndpoint : Type 0 where
  pub scheme : Text
  pub host : Text
  pub port : ℕ

pub record PeerRecord : Type 0 where
  pub public_key_hex : Text
  pub endpoints : List PeerEndpoint
  pub transport_capabilities : List Text
  pub ipv6 : Option Text
  pub ipv4 : Option Text
  pub last_heartbeat_unix_ms : ℕ

abbrev pub PresenceStore : Type 0
PresenceStore = Map Text PeerRecord

-- `Ipv4Addr::parse`: four numbers of one to three digits, below 256, without a leading zero, with a dot
-- (46) between two of them. `d` is the number read so far and how many digits it has.
unfoldable pub octets_from : Text → ℕ → ℕ → Option (List ℕ)
octets_from [] n digits = if digits == 0 then none else some (n ∷ [])
octets_from (c ∷ s) n digits =
    let rest = octets_from s 0 0 in
    let longer = octets_from s (n * 10 + (c - 48)) (digits + 1) in
    if c == 46
    then (if digits == 0
        then none
        else elim rest as (λ _. Option (List ℕ)) [ none ↦ none | some os ↦ some (n ∷ os) ])
    else if ltb c 48 || ltb 57 c
    then none
    else if leb 3 digits || (ltb 0 digits && n == 0) || ltb 255 (n * 10 + (c - 48))
    then none
    else longer

-- An address is its four numbers.
unfoldable pub parse_ipv4 : Text → Option (ℕ × ℕ × ℕ × ℕ)
parse_ipv4 s = elim (octets_from s 0 0) as (λ _. Option (ℕ × ℕ × ℕ × ℕ)) [
  | some (a ∷ b ∷ c ∷ d ∷ []) ↦ some (a, b, c, d)
  | _ ↦ none
]

abbrev pub is_private : ℕ × ℕ × ℕ × ℕ → Bool
is_private (a, b, c, d) = a == 10 || (a == 172 && leb 16 b && leb b 31) || (a == 192 && b == 168)

abbrev pub is_unspecified : ℕ × ℕ × ℕ × ℕ → Bool
is_unspecified (a, b, c, d) = a == 0 && b == 0 && c == 0 && d == 0

-- `octets()[1] & 0xc0 == 0x40` is the range from 64 to 127.
abbrev pub is_public_address : ℕ × ℕ × ℕ × ℕ → Bool
is_public_address (a, b, c, d) =
    not (is_private (a, b, c, d))
    && not (a == 127)
    && not (is_unspecified (a, b, c, d))
    && not (a == 169 && b == 254)
    && not (a == 100 && b / 64 == 1)

unfoldable pub is_public_routable_tcp_host : Text → Bool
is_public_routable_tcp_host raw =
    let host = trim raw in
    if is_empty host || any (λ c. c == 58) host
    then false
    else elim (parse_ipv4 host) [ none ↦ false | some ip ↦ is_public_address ip ]

unfoldable pub is_wan_dialable_endpoint : PeerEndpoint → Bool
is_wan_dialable_endpoint ep =
    if text_eq ep.scheme (text "tcp")
    then is_public_routable_tcp_host ep.host && not (ep.port == 0)
    else false

abbrev pub filter_wan_presence_endpoints : List PeerEndpoint → List PeerEndpoint
filter_wan_presence_endpoints es = keep_if is_wan_dialable_endpoint es

unfoldable pub prepare_peer_lookup : PeerRecord → Result ServerError PeerRecord
prepare_peer_lookup r =
    let es = filter_wan_presence_endpoints r.endpoints in
    if is_empty es then err not_found else ok (record r { endpoints = es })

-- `saturating_sub`.
abbrev pub heartbeat_cutoff_ms : ℕ → ℕ → ℕ
heartbeat_cutoff_ms now_ms ttl_ms = now_ms - ttl_ms

unfoldable pub fetch_one : Text → ℕ → PresenceStore → Result ServerError PeerRecord
fetch_one key cutoff_ms s = elim (Map.get key s) [
  | none ↦ err not_found
  | some r ↦ if leb cutoff_ms r.last_heartbeat_unix_ms then ok r else err not_found
]

unfoldable pub purge_expired : ℕ → ℕ → PresenceStore → PresenceStore × ℕ
purge_expired now_ms ttl_ms s =
    let kept =
      retain (λ r. not (ltb r.last_heartbeat_unix_ms (heartbeat_cutoff_ms now_ms ttl_ms))) s in
    (kept, length s - length kept)

-- ORDER BY last_heartbeat_unix_ms DESC.
unfoldable pub place : PeerRecord → List PeerRecord → List PeerRecord
place r [] = r ∷ []
place r (q ∷ qs) =
    if leb q.last_heartbeat_unix_ms r.last_heartbeat_unix_ms then r ∷ q ∷ qs else q ∷ place r qs

unfoldable pub by_heartbeat : PresenceStore → List PeerRecord
by_heartbeat [] = []
by_heartbeat ((k, r) ∷ s) = place r (by_heartbeat s)

unfoldable pub prepared : List PeerRecord → List PeerRecord
prepared [] = []
prepared (r ∷ rs) = elim (prepare_peer_lookup r) [ ok r' ↦ r' ∷ prepared rs | err e ↦ prepared rs ]

unfoldable pub list_online : ℕ → ℕ → PresenceStore → List PeerRecord
list_online now_ms ttl_ms s = prepared (
    by_heartbeat (retain (λ r. leb (heartbeat_cutoff_ms now_ms ttl_ms) r.last_heartbeat_unix_ms) s))

abbrev pub upsert_for :
    ℕ
    → List PeerEndpoint
    → List Text
    → Option Text
    → Option Text
    → Result ServerError Text
    → PresenceStore
    → PresenceStore × Result ServerError PeerRecord
upsert_for now_ms es caps ipv6 ipv4 (err e) s = (s, err e)
upsert_for now_ms es caps ipv6 ipv4 (ok key) s =
    let r : PeerRecord = record {
      public_key_hex = key;
      endpoints = filter_wan_presence_endpoints es;
      transport_capabilities = caps;
      ipv6 = ipv6;
      ipv4 = ipv4;
      last_heartbeat_unix_ms = now_ms;
    } in
    (Map.insert key r s, ok r)

abbrev pub answer : Result ServerError PeerRecord → Result ServerError PeerRecord
answer (err e) = err e
answer (ok r) = prepare_peer_lookup r

abbrev pub get_for : ℕ → ℕ → Result ServerError Text → PresenceStore → Result ServerError PeerRecord
get_for now_ms ttl_ms (err e) s = err e
get_for now_ms ttl_ms (ok key) s = answer (fetch_one key (heartbeat_cutoff_ms now_ms ttl_ms) s)

module _ (normalize : Text → Result ServerError Text) where
  unfoldable pub upsert :
      ℕ
      → Text
      → List PeerEndpoint
      → List Text
      → Option Text
      → Option Text
      → PresenceStore
      → PresenceStore × Result ServerError PeerRecord
  upsert now_ms public_key_hex es caps ipv6 ipv4 s =
      upsert_for now_ms es caps ipv6 ipv4 (normalize public_key_hex) s

  abbrev pub merge_for :
      ℕ
      → List PeerEndpoint
      → List Text
      → Option Text
      → Option Text
      → Result ServerError Text
      → PresenceStore
      → PresenceStore × Result ServerError PeerRecord
  merge_for now_ms es caps ipv6 ipv4 (err e) s = (s, err e)
  merge_for now_ms es caps ipv6 ipv4 (ok key) s =
      upsert_for now_ms (filter_wan_presence_endpoints es) caps ipv6 ipv4 (normalize key) s

  unfoldable pub merge_client_register :
      ℕ
      → Text
      → List PeerEndpoint
      → List Text
      → Option Text
      → Option Text
      → PresenceStore
      → PresenceStore × Result ServerError PeerRecord
  merge_client_register now_ms public_key_hex es caps ipv6 ipv4 s =
      merge_for now_ms es caps ipv6 ipv4 (normalize public_key_hex) s

  abbrev pub beaten :
      ℕ → Text → Option PeerRecord → PresenceStore → PresenceStore × Result ServerError PeerRecord
  beaten now_ms key none s = (s, err not_found)
  beaten now_ms key (some r) s =
      let s' = Map.insert key (record r { last_heartbeat_unix_ms = now_ms }) s in
      (s', answer (fetch_one key 0 s'))

  unfoldable pub heartbeat :
      ℕ → Text → PresenceStore → PresenceStore × Result ServerError PeerRecord
  heartbeat now_ms public_key_hex s = elim (normalize public_key_hex) [
    | err e ↦ (s, err e)
    | ok key ↦ beaten now_ms key (Map.get key s) s
  ]

  unfoldable pub get : ℕ → ℕ → Text → PresenceStore → Result ServerError PeerRecord
  get now_ms ttl_ms public_key_hex s = get_for now_ms ttl_ms (normalize public_key_hex) s

  unfoldable pub get_stored : Text → PresenceStore → Result ServerError PeerRecord
  get_stored public_key_hex s = elim (normalize public_key_hex) [
    | err e ↦ err e
    | ok key ↦ fetch_one key 0 s
  ]

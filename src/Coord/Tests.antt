-- ===== src/Coord/Tests.antt =====
-- Runs of the presence table, and its results at inputs.
use ghal_bol.Common.{
  ◌≡◌, ◌≢◌, text_ne, err, ap, refl, inr, true, false, none, some, List, [], ◌∷◌, arith, Result, ok,
  Text, text, text_eq, eq_of_text, to_ascii_lowercase, trim,
}
use ghal_bol.Coord.Presence.{
  ServerError, PeerEndpoint, PeerRecord, PresenceStore, is_wan_dialable_endpoint,
  is_public_routable_tcp_host, octets_from, parse_ipv4, merge_client_register, get,
}
use ghal_bol.Common.Map
use ghal_bol.Coord.Bridge
use ghal_bol.Coord.Bridge.{
  BridgeInner, count_for_peer, drop_caller_pending_for_replace, Frame, caller, callee, is_some,
  join, leave,
}
use ghal_bol.Coord.Bridge.Waiting.{Event, joins, receives, leaves, run, step}
use ghal_bol.Coord.Bridge.Early.{
  Handed, Move, frame, rejoin, events_of, frames_of, bytes_of, early_frames,
}
use ghal_bol.Coord.Bridge.Request.{
  BridgeRegistry, BridgeRequestResponse, Meanwhile, nothing, from_env, post_bridge_request,
}
use ghal_bol.Coord.Bridge.Limit.{Stands, Alone, seen, request_accepted}
use ghal_bol.Coord.Presence.Register.{Answers, register_found}
use ghal_bol.Coord.Presence.Kept
use ghal_bol.Coord.Presence.Kept.{registers, purges}

abbrev public_one : PeerEndpoint
public_one = record { scheme = text "tcp"; host = text "203.0.113.50"; port = 41234 }

abbrev private_one : PeerEndpoint
private_one = record { scheme = text "tcp"; host = text "192.168.0.7"; port = 41234 }

public_dialable : is_wan_dialable_endpoint public_one ≡ true
unfolding is_wan_dialable_endpoint is_public_routable_tcp_host parse_ipv4 octets_from text_eq trim
public_dialable = refl

private_refused : is_wan_dialable_endpoint private_one ≡ false
unfolding is_wan_dialable_endpoint is_public_routable_tcp_host parse_ipv4 octets_from text_eq trim
private_refused = refl

no_leading_zero : is_public_routable_tcp_host (text "8.8.08.8") ≡ false
unfolding is_public_routable_tcp_host parse_ipv4 octets_from trim
no_leading_zero = refl

abbrev as_is : Text → Result ServerError Text
as_is t = ok t

abbrev both : List PeerEndpoint
both = private_one ∷ public_one ∷ []

abbrev ann : PeerRecord
ann = record {
  public_key_hex = text "ann";
  endpoints = public_one ∷ [];
  transport_capabilities = [];
  ipv6 = none;
  ipv4 = none;
  last_heartbeat_unix_ms = 1000;
}

abbrev table : PresenceStore
table = (text "ann", ann) ∷ []

-- Ben registers, and a sweep runs.
abbrev others : List Kept.Call
others = registers 1200 (text "ben") both [] none none ∷ purges 1900 1000 ∷ []

abbrev name_in : Result ServerError Text → Text
name_in (ok t) = t
name_in (err e) = []

ann_ben : ◌≢◌ {A = Result ServerError Text} (ok (text "ben")) (ok (text "ann"))
ann_ben e = text_ne (text "ben") (text "ann") (unfold text_eq in refl) (ap name_in e)

register_found_example :
    (r : PeerRecord) × (get as_is 1950 1000 (text "ann") (
        Kept.run as_is others
          (merge_client_register as_is 1000 (text "ann") both [] none none []).0)
      ≡ ok r)
    × Answers (text "ann") both [] none none 1000 r
register_found_example =
    register_found as_is 1000 1950 1000 (text "ann") (text "ann") both [] none none [] others
      (λ w k e. refl) refl
      (unfold is_public_routable_tcp_host parse_ipv4 octets_from text_eq trim in refl)
      (ann_ben, (omega arith, tt)) (omega arith)

abbrev early_events : List Event
early_events = joins caller 1 ∷ receives caller (7 ∷ []) ∷ joins callee 2 ∷ leaves caller ∷ []

abbrev noise : List Move
noise = frame (7 ∷ []) ∷ rejoin 5 ∷ frame (8 ∷ []) ∷ []

early_frames_example :
    Handed 3 caller 2
      (frames_of noise)
      (9 ∷ [])
      (run 3 (joins caller 1 ∷ events_of caller noise) none)
early_frames_example =
    early_frames 3 caller 1 2 noise (9 ∷ []) (inr (unfold bytes_of in omega arith))

-- A second socket of the caller replaces the first; when the first closes, it takes the second out.
old_socket_cuts_new :
    elim (run 0 (joins caller 1 ∷ joins callee 2 ∷ joins caller 3 ∷ leaves caller ∷ []) none) [
      | none ↦ []
      | some a ↦ is_some a.caller_tx ∷ is_some a.callee_tx ∷ []
    ]
    ≡ false ∷ true ∷ []
unfolding run step join leave
old_socket_cuts_new = refl

abbrev registry : BridgeRegistry
registry = from_env none none (some 1) none none

abbrev stale_invite : BridgeInner
stale_invite = record {
  pending =
      (
        text "b0",
        record {
          bridge_id = text "b0";
          caller_wire = text "Ann";
          callee_wire = text "ben";
          call_id = text "c0";
          caller_token = text "t0";
          callee_token = text "u0";
          expires = 50;
        },
      )
      ∷ [];
  active = [];
}

-- What the caller asks for, with the tokens of the request.
abbrev ask :
    Meanwhile → Text → Text → BridgeInner → BridgeInner × Result ServerError BridgeRequestResponse
ask m whom id g =
    post_bridge_request registry m 60 60 (text "wss") (text "ann") whom id id (text "t") (text "u")
      g

request_accepted_example :
    ((ask nothing (text "ben") (text "b1") stale_invite).1
      ≡ ok (record { bridge_id = text "b1"; token = text "t"; connect_url = text "wss" }))
    × Stands
        (text "ann")
        (text "b1")
        (text "t")
        (text "u")
        (seen nothing 60 (text "ann") (text "ben") (text "b1") stale_invite)
        (ask nothing (text "ben") (text "b1") stale_invite).0
    × (nothing ≡ nothing
        → Alone registry
            (text "ann")
            (text "ben")
            (text "b1")
            (ask nothing (text "ben") (text "b1") stale_invite).0)
request_accepted_example =
    request_accepted registry nothing 60 60 (text "wss") (text "ann") (text "ben") (text "b1")
      (text "b1") (text "t") (text "u") stale_invite
      (unfold count_for_peer drop_caller_pending_for_replace Bridge.purge_expired from_env text_eq
          to_ascii_lowercase in
        omega arith)
      (unfold text_eq in refl)

abbrev empty : BridgeInner
empty = record { pending = []; active = [] }

-- A request that runs after another one has counted: both are accepted, and the caller has two pending bridges
-- where one is allowed.
abbrev racing : Meanwhile
racing = record nothing { after_count = λ g. (ask nothing (text "cat") (text "b2") g).0 }

race_passes_limit : count_for_peer (text "ann") (ask racing (text "ben") (text "b1") empty).0 ≡ 2
unfolding post_bridge_request count_for_peer drop_caller_pending_for_replace Bridge.purge_expired
    from_env text_eq to_ascii_lowercase Map.insert
race_passes_limit = refl

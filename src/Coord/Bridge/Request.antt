-- ===== src/Coord/Bridge/Request.antt =====
-- Requests of bridges in ghalbol_coord/src/bridge.rs, from the point where the signature is checked. The
-- identities come normalised; identifiers and tokens are what the random source makes, and times are seconds.
use ghal_bol.Common.{
  ℕ, ◌+◌, min, max, Option, none, some, List, leb, keep_if, map, if◌then◌else◌, Result, ok, err,
  Text, eq_of_text,
}
use ghal_bol.Common.Map
use ghal_bol.Common.Map.{Map}
use ghal_bol.Coord.Presence.{ServerError, bad_request}
use ghal_bol.Coord.Bridge.{
  PendingBridge, BridgeInner, same_wire, purge_expired, drop_caller_pending_for_replace,
  count_for_peer,
}

pub record BridgeRegistry : Type 0 where
  pub max_secs : ℕ
  pub pending_secs : ℕ
  pub max_bytes : ℕ
  pub max_per_peer : ℕ
  pub idle_secs : ℕ

abbrev pub unwrap_or : ℕ → Option ℕ → ℕ
unwrap_or d none = d
unwrap_or d (some n) = n

-- The values of the environment, where they are set and can be read.
unfoldable pub from_env :
    (max_secs max_bytes max_per_peer idle_secs pending_secs : Option ℕ) → BridgeRegistry
from_env max_secs max_bytes max_per_peer idle_secs pending_secs =
    let secs = unwrap_or 14400 max_secs in
    record {
      max_secs = secs;
      pending_secs = min (max (unwrap_or 90 pending_secs) 15) (max secs 15);
      max_bytes = unwrap_or 0 max_bytes;
      max_per_peer = unwrap_or 4 max_per_peer;
      idle_secs = unwrap_or 120 idle_secs;
    }

pub record BridgeRequestResponse : Type 0 where
  pub bridge_id : Text
  pub token : Text
  pub connect_url : Text

pub record BridgePendingItem : Type 0 where
  pub bridge_id : Text
  pub call_id : Text
  pub caller_identity_wire : Text
  pub token : Text
  pub connect_url : Text

abbrev pub invite : BridgeRegistry → ℕ → Text → Text → Text → Text → Text → Text → PendingBridge
invite registry now who whom call_id id caller_token callee_token = record {
  bridge_id = id;
  caller_wire = who;
  callee_wire = whom;
  call_id = call_id;
  caller_token = caller_token;
  callee_token = callee_token;
  expires = now + registry.pending_secs;
}

-- The request holds the lock four times: it purges, drops what it replaces, counts, and inserts. What other
-- tasks do to the registry in between are arguments; so are the two times at which it reads the clock.
pub record Meanwhile : Type 0 where
  pub after_purge : BridgeInner → BridgeInner
  pub after_drop : BridgeInner → BridgeInner
  pub after_count : BridgeInner → BridgeInner

-- No other task runs.
abbrev pub nothing : Meanwhile
nothing = record { after_purge = λ g. g; after_drop = λ g. g; after_count = λ g. g }

unfoldable pub post_bridge_request :
    BridgeRegistry
    → Meanwhile
    → (purged_at now : ℕ) (connect_url who whom call_id id caller_token callee_token : Text)
    → BridgeInner
    → BridgeInner × Result ServerError BridgeRequestResponse
post_bridge_request registry m purged_at now connect_url who whom call_id id caller_token
      callee_token g =
    let purged = m.after_purge (purge_expired purged_at g) in
    let dropped = m.after_drop (drop_caller_pending_for_replace who whom call_id purged) in
    let counted = m.after_count dropped in
    if leb registry.max_per_peer (count_for_peer who dropped) then (dropped, err bad_request) else (
      record counted {
        pending =
            Map.insert id (invite registry now who whom call_id id caller_token callee_token)
              counted.pending;
      },
      ok (record { bridge_id = id; token = caller_token; connect_url = connect_url }),
    )

-- The list is read under a lock of its own, after the purge.
unfoldable pub get_bridge_pending :
    (after_purge : BridgeInner → BridgeInner) (now : ℕ) (connect_url wire : Text)
    → BridgeInner
    → BridgeInner × List BridgePendingItem
get_bridge_pending after_purge now connect_url wire g =
    let g' = after_purge (purge_expired now g) in
    (
      g',
      map
          (λ b. record {
            bridge_id = b.1.bridge_id;
            call_id = b.1.call_id;
            caller_identity_wire = b.1.caller_wire;
            token = b.1.callee_token;
            connect_url = connect_url;
          })
          (keep_if (λ b. same_wire b.1.callee_wire wire) g'.pending),
    )

-- ===== src/Coord/Bridge.antt =====
-- ghalbol_coord/src/bridge.rs: the registry of bridges, and what a socket does to it each time it holds
-- the lock. The sender of a socket's channel is the number of the socket. Nothing waits on `notify`.
pub mod Waiting
pub mod Early
pub mod Request
pub mod Limit
use ghal_bol.Common.{
  ℕ, ◌+◌, ◌-◌, ◌^◌, min, Bool, true, false, not, ◌&&◌, ◌||◌, Option, none, some, List, [], ◌∷◌,
  ◌++◌, ltb, leb, ◌==◌, length, keep_if, if◌then◌else◌, Text, text_eq, eq_of_text, trim,
  to_ascii_lowercase, is_empty,
}
use ghal_bol.Common.Map
use ghal_bol.Common.Map.{Map, retain}

pub record PendingBridge : Type 0 where
  pub bridge_id : Text
  pub caller_wire : Text
  pub callee_wire : Text
  pub call_id : Text
  pub caller_token : Text
  pub callee_token : Text
  pub expires : ℕ

pub data Role : Type 0 where
  caller callee : Role

abbrev pub Frame : Type 0
Frame = List ℕ

pub record ActiveBridge : Type 0 where
  pub caller_tx : Option ℕ
  pub callee_tx : Option ℕ
  pub to_caller : List Frame
  pub to_callee : List Frame
  pub bytes_relayed : ℕ
  pub was_paired : Bool

pub record BridgeInner : Type 0 where
  pub pending : Map Text PendingBridge
  pub active : Map Text ActiveBridge

unfoldable pub purge_expired : ℕ → BridgeInner → BridgeInner
purge_expired now g = record g { pending = retain (λ b. ltb now b.expires) g.pending }

abbrev pub same_wire : Text → Text → Bool
same_wire a b = text_eq (to_ascii_lowercase a) (to_ascii_lowercase b)

unfoldable pub drop_caller_pending_for_replace : Text → Text → Text → BridgeInner → BridgeInner
drop_caller_pending_for_replace who whom call_id g = record g {
  pending =
      retain
        (λ b.
          if not (same_wire b.caller_wire who)
          then true
          else not (text_eq b.call_id call_id || same_wire b.callee_wire whom))
        g.pending;
}

unfoldable pub count_for_peer : Text → BridgeInner → ℕ
count_for_peer wire g =
    length
      (keep_if (λ b. same_wire b.1.caller_wire wire || same_wire b.1.callee_wire wire) g.pending)

-- What the token of a connection is for; a bridge that is not pending takes nobody.
unfoldable pub role_of : Text → Text → BridgeInner → Option Role
role_of bridge_id token g = elim (Map.get bridge_id g.pending) [
  | none ↦ none
  | some p ↦
      if text_eq p.caller_token token
      then some caller
      else if text_eq p.callee_token token
      then some callee
      else none
]

abbrev pub is_some : Option ℕ → Bool
is_some none = false
is_some (some tx) = true

-- `or_insert_with`.
abbrev pub or_fresh : Option ActiveBridge → ActiveBridge
or_fresh none = record {
  caller_tx = none;
  callee_tx = none;
  to_caller = [];
  to_callee = [];
  bytes_relayed = 0;
  was_paired = false;
}
or_fresh (some a) = a

abbrev pub with_tx : Role → ℕ → ActiveBridge → ActiveBridge
with_tx caller tx a = record a { caller_tx = some tx }
with_tx callee tx a = record a { callee_tx = some tx }

abbrev pub paired : ActiveBridge → Bool
paired a = is_some a.caller_tx && is_some a.callee_tx

abbrev pub mark_paired : ActiveBridge → ActiveBridge
mark_paired a = record a { was_paired = if paired a then true else a.was_paired }

-- `mem::take` of the frames that wait for the role.
abbrev pub take_waiting : Role → ActiveBridge → ActiveBridge × List Frame
take_waiting caller a = (record a { to_caller = [] }, a.to_caller)
take_waiting callee a = (record a { to_callee = [] }, a.to_callee)

-- A socket joins with the sender `tx`: the bridge, and the frames it is to be handed first.
unfoldable pub join : Role → ℕ → Option ActiveBridge → ActiveBridge × List Frame
join role tx a = take_waiting role (mark_paired (with_tx role tx (or_fresh a)))

pub data Forward : Type 0 where
  closes : Forward
  sends : ℕ → Forward
  keeps : Forward

abbrev pub tx_of_peer : Role → ActiveBridge → Option ℕ
tx_of_peer caller a = a.callee_tx
tx_of_peer callee a = a.caller_tx

abbrev pub push_waiting : Role → Frame → ActiveBridge → ActiveBridge
push_waiting caller bytes a = record a { to_callee = a.to_callee ++ (bytes ∷ []) }
push_waiting callee bytes a = record a { to_caller = a.to_caller ++ (bytes ∷ []) }

-- `saturating_add`.
abbrev pub with_bytes : ℕ → ActiveBridge → ActiveBridge
with_bytes len a = record a { bytes_relayed = min (a.bytes_relayed + len) (2 ^ 64 - 1) }

abbrev pub forward_to : Role → Frame → Option ℕ → ActiveBridge → ActiveBridge × Forward
forward_to role bytes (some peer) a = (a, sends peer)
forward_to role bytes none a =
    if a.was_paired then (a, closes) else (push_waiting role bytes a, keeps)

-- A frame that comes in from the socket of the role.
unfoldable pub forward : ℕ → Role → Frame → Option ActiveBridge → Option ActiveBridge × Forward
forward max_bytes role bytes none = (none, closes)
forward max_bytes role bytes (some a) =
    let a' = with_bytes (length bytes) a in
    if ltb 0 max_bytes && ltb max_bytes a'.bytes_relayed
    then (some a', closes)
    else let (a'', f) = forward_to role bytes (tx_of_peer role a') a' in (some a'', f)

abbrev pub without_tx : Role → ActiveBridge → ActiveBridge
without_tx caller a = record a { caller_tx = none }
without_tx callee a = record a { callee_tx = none }

-- The socket of the role closes.
unfoldable pub leave : Role → Option ActiveBridge → Option ActiveBridge
leave role none = none
leave role (some a) =
    let a' = without_tx role a in
    if not (is_some a'.caller_tx) && not (is_some a'.callee_tx) then none else some a'

-- The end of `handle_bridge_socket`.
unfoldable pub disconnect : Text → Role → BridgeInner → BridgeInner
disconnect bridge_id role g = elim (leave role (Map.get bridge_id g.active)) [
  | none ↦ record {
    pending = Map.remove bridge_id g.pending;
    active = Map.remove bridge_id g.active;
  }
  | some a ↦ record g { active = Map.insert bridge_id a g.active }
]

-- The start of `handle_bridge_socket`, from the query to the frames that are handed to the socket. The role is read
-- under one lock and the join is done under another; `after_role` is what other tasks do in between.
unfoldable pub connect :
    (after_role : BridgeInner → BridgeInner) (bridge_id token : Text) (tx : ℕ)
    → BridgeInner
    → BridgeInner × Option (Role × List Frame)
connect after_role bridge_id token tx g =
    let id = trim bridge_id in
    if is_empty id || is_empty (trim token)
    then (g, none)
    else elim (role_of id (trim token) g) as (λ _. BridgeInner × Option (Role × List Frame)) [
      | none ↦ (g, none)
      | some role ↦
          let h = after_role g in
          let (a, flush) = join role tx (Map.get id h.active) in
          (
            record {
              pending = if paired a then Map.remove id h.pending else h.pending;
              active = Map.insert id a h.active;
            },
            some (role, flush),
          )
    ]

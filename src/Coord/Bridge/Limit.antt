-- ===== src/Coord/Bridge/Limit.antt =====
-- What an accepted request of a bridge leaves in the registry.
use ghal_bol.Common.{
  ℕ, ◌+◌, ◌≤◌, ◌<◌, ◌≡◌, refl, sym, subst, Bool, true, false, ◌&&◌, ◌||◌, some, [], ◌∷◌, leb,
  keep_if, length, ok, Text, text_eq, eq_of_text, to_ascii_lowercase, arith,
}
use ghal_bol.Common.Map
use ghal_bol.Common.Map.{Map, retain, get-insert, get-insert_self, beq_self}
use ghal_bol.Coord.Bridge.{
  PendingBridge, BridgeInner, caller, callee, same_wire, purge_expired,
  drop_caller_pending_for_replace, count_for_peer, role_of,
}
use ghal_bol.Coord.Bridge.Request.{BridgeRegistry, Meanwhile, nothing, invite, post_bridge_request}

-- An invite that a new one of the same call, or to the same peer, replaces.
abbrev pub replaced_by : Text → Text → Text → PendingBridge → Bool
replaced_by who whom call_id b =
    same_wire b.caller_wire who && (text_eq b.call_id call_id || same_wire b.callee_wire whom)

abbrev pub count : (PendingBridge → Bool) → Map Text PendingBridge → ℕ
count p m = length (keep_if (λ b. p b.1) m)

count-insert-le :
    (p : PendingBridge → Bool) (k : Text) (v : PendingBridge) (m : Map Text PendingBridge)
    → count p (Map.insert k v m) ≤ count p m + 1
unfolding Map.insert
count-insert-le p k v [] = ground arith
count-insert-le p k v ((j, w) ∷ m) = ground (arith, count-insert-le p k v m)

count-insert :
    (p : PendingBridge → Bool) (k : Text) (v : PendingBridge) (m : Map Text PendingBridge)
    → p v ≡ true
    → count p m ≡ 0
    → count p (Map.insert k v m) ≡ 1
unfolding Map.insert
count-insert p k v [] h z = ground arith
count-insert p k v ((j, w) ∷ m) h z = ground (arith, count-insert p k v m h)

count-retain :
    (p q : PendingBridge → Bool) (m : Map Text PendingBridge)
    → ((b : PendingBridge) → p b ≡ true → q b ≡ false)
    → count p (retain q m) ≡ 0
count-retain p q [] h = refl
count-retain p q ((j, w) ∷ m) h = ground (arith, h w, count-retain p q m h)

none_left :
    (who whom call_id : Text) (g : BridgeInner)
    → count
        (replaced_by who whom call_id)
        (drop_caller_pending_for_replace who whom call_id g).pending
      ≡ 0
unfolding drop_caller_pending_for_replace
none_left who whom call_id g = count-retain _ _ g.pending (λ b e. ground (arith, e))

same_wire_self : (w : Text) → same_wire w w ≡ true
same_wire_self w = beq_self {K = Text} (to_ascii_lowercase w)

role_of_caller :
    (id : Text) (b : PendingBridge) (g : BridgeInner)
    → Map.get id g.pending ≡ some b
    → role_of id b.caller_token g ≡ some caller
unfolding role_of
role_of_caller id b g e =
    let same = beq_self {K = Text} b.caller_token in rw (e, role_of) (rw same refl)

role_of_callee :
    (id : Text) (b : PendingBridge) (g : BridgeInner)
    → text_eq b.caller_token b.callee_token ≡ false
    → Map.get id g.pending ≡ some b
    → role_of id b.callee_token g ≡ some callee
unfolding role_of
role_of_callee id b g other e =
    let same = beq_self {K = Text} b.callee_token in rw (e, role_of) (rw (other, same) refl)

-- What the request sees when it counts.
abbrev pub seen : Meanwhile → ℕ → Text → Text → Text → BridgeInner → BridgeInner
seen m purged_at who whom call_id g =
    m.after_drop
      (drop_caller_pending_for_replace who whom call_id (m.after_purge (purge_expired purged_at g)))

-- What an accepted request leaves, from `g`, the registry as it is when the request inserts: its tokens are those
-- of the two sides of its bridge, all else is as it was, and the caller has one pending bridge more at most.
pub record Stands (who id caller_token callee_token : Text) (g g' : BridgeInner) : Type 0 where
  pub callers : role_of id caller_token g' ≡ some caller
  pub callees : role_of id callee_token g' ≡ some callee
  pub others : (j : Text) → text_eq id j ≡ false → Map.get j g'.pending ≡ Map.get j g.pending
  pub active : g'.active ≡ g.active
  pub bounded : count_for_peer who g' ≤ count_for_peer who g + 1

-- Without other tasks between the drop and the insertion: the caller has no more pending bridges than it may, and
-- the invite is the only one of its call or between the two peers from the caller.
abbrev pub Alone : BridgeRegistry → Text → Text → Text → BridgeInner → Type 0
Alone registry who whom call_id g' =
    (count_for_peer who g' ≤ registry.max_per_peer)
    × (count (replaced_by who whom call_id) g'.pending ≡ 1)

module _ (registry : BridgeRegistry) (m : Meanwhile) (purged_at now : ℕ)
    (connect_url who whom call_id id caller_token callee_token : Text) (g : BridgeInner) where
  abbrev added : PendingBridge
  added = invite registry now who whom call_id id caller_token callee_token

  abbrev inserted : BridgeInner → BridgeInner
  inserted h = record h { pending = Map.insert id added h.pending }

  inserted-count-le : (h : BridgeInner) → count_for_peer who (inserted h) ≤ count_for_peer who h + 1
  unfolding count_for_peer
  inserted-count-le h =
      count-insert-le (λ b. same_wire b.caller_wire who || same_wire b.callee_wire who) id added
        h.pending

  insert-Stands :
      (h : BridgeInner)
      → text_eq caller_token callee_token ≡ false
      → Stands who id caller_token callee_token h (inserted h)
  insert-Stands h differ = record {
    callers = role_of_caller id added _ (get-insert_self id added h.pending);
    callees = role_of_callee id added _ differ (get-insert_self id added h.pending);
    others = λ j other. ground (arith, get-insert id j added h.pending, other);
    active = refl;
    bounded = inserted-count-le h;
  }

  insert-Alone :
      (h : BridgeInner)
      → count_for_peer who h < registry.max_per_peer
      → count (replaced_by who whom call_id) h.pending ≡ 0
      → Alone registry who whom call_id (inserted h)
  insert-Alone h few z = (
    omega (arith, few, inserted-count-le h),
    count-insert (replaced_by who whom call_id) id added h.pending
        (ground (arith, same_wire_self who, same_wire_self whom)) z,
  )

module _ (registry : BridgeRegistry) (m : Meanwhile) (purged_at now : ℕ)
    (connect_url who whom call_id id caller_token callee_token : Text) (g : BridgeInner) where
  answered-Alone :
      count_for_peer who (seen nothing purged_at who whom call_id g) < registry.max_per_peer
      → Alone registry who whom call_id
          (post_bridge_request registry nothing purged_at now connect_url who whom call_id id
            caller_token callee_token g).0
  unfolding post_bridge_request
  answered-Alone few =
      let h = seen nothing purged_at who whom call_id g in
      let fits : leb registry.max_per_peer (count_for_peer who h) ≡ false = ground (arith, few) in
      rw fits (
        insert-Alone registry nothing purged_at now connect_url who whom call_id id caller_token
          callee_token g h few (none_left who whom call_id (purge_expired purged_at g)))

  -- While the pending bridges of the caller are fewer than it may have when the request counts them, after it has
  -- dropped those whose time is up and those it replaces, it is accepted, whatever other tasks do between its
  -- sections. Bridges that both sides have joined are not pending and do not count. The tokens it made, which
  -- differ, are then those of the two sides of its bridge, all else is as the other tasks left it, and the caller
  -- has one pending bridge more at most. If no other task ran in between, it has no more pending bridges than it
  -- may, and the invite is the only one of its call or between the two peers from the caller.
  pub request_accepted :
      count_for_peer who (seen m purged_at who whom call_id g) < registry.max_per_peer
      → text_eq caller_token callee_token ≡ false
      → ((post_bridge_request registry m purged_at now connect_url who whom call_id id caller_token
            callee_token g).1
          ≡ ok (record { bridge_id = id; token = caller_token; connect_url = connect_url }))
        × Stands who id caller_token callee_token
            (m.after_count (seen m purged_at who whom call_id g))
            (post_bridge_request registry m purged_at now connect_url who whom call_id id
              caller_token callee_token g).0
        × (m ≡ nothing
            → Alone registry who whom call_id
                (post_bridge_request registry m purged_at now connect_url who whom call_id id
                  caller_token callee_token g).0)
  unfolding post_bridge_request
  request_accepted few differ =
      let h = seen m purged_at who whom call_id g in
      let fits : leb registry.max_per_peer (count_for_peer who h) ≡ false = ground (arith, few) in
      (
        rw fits refl,
        rw fits (
            insert-Stands registry m purged_at now connect_url who whom call_id id caller_token
              callee_token g (m.after_count h) differ),
        λ e.
            subst
              (λ n.
                Alone registry who whom call_id
                  (post_bridge_request registry n purged_at now connect_url who whom call_id id
                    caller_token callee_token g).0)
              (sym e)
              (answered-Alone (
                subst
                  (λ n.
                    count_for_peer who (seen n purged_at who whom call_id g)
                    < registry.max_per_peer)
                  e few)),
      )

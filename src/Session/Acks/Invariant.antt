-- ===== src/Session/Acks/Invariant.antt =====
-- The queues of acknowledgements are bounded, and hold each message once.
use ghal_bol.Common.{
  suc, ◌≤◌, ◌≡◌, refl, subst, ap, sym, inl, inr, not, List, [], ◌∷◌, arith, length,
  length-keep_if-le, map, if◌then◌else◌, Text, text_eq, trim, is_empty, Bool-cases,
}
use ghal_bol.Common.Int.{ℤ}
use ghal_bol.Session.State.{
  SessionPeer, SessionState, PendingReadAck, PendingDeliveryAck, new, has, discard,
}
use ghal_bol.Session.Acks.{
  ack_queue_max, mark_delivery_ack_sent, clear_delivery_ack_sent, enqueue_delivery_ack,
  delivery_queued, dequeue_delivery_ack, mark_read_ack_confirmed, read_queued, read_ack_for,
  try_claim_read_ack_wire_send, mark_read_ack_wire_sent, enqueue_read_ack_backlog,
}
use ghal_bol.Session.Acks.Queues.{
  Distinct, Apart, push_bound, push-Distinct, push-Apart, keep-Distinct, keep-Apart, discard_gone,
  discard-Apart,
}

-- The calls that change the queues.
pub data Call : Type 0 where
  sent : Text → Call
  clears : Text → Call
  delivers : SessionPeer → Text → Text → ℤ → Call
  dequeues : Text → Call
  confirms : Text → Call
  claims : SessionPeer → Text → Call
  wires : Text → ℤ → Call
  seeds : SessionPeer → Text → Call

unfoldable pub step : Call → SessionState → SessionState
step (sent id) s = mark_delivery_ack_sent id s
step (clears id) s = clear_delivery_ack_sent id s
step (delivers peer id who at_ms) s = enqueue_delivery_ack peer id who at_ms s
step (dequeues id) s = dequeue_delivery_ack id s
step (confirms id) s = mark_read_ack_confirmed id s
step (claims peer id) s = (try_claim_read_ack_wire_send peer id s).0
step (wires id now_ms) s = mark_read_ack_wire_sent id now_ms s
step (seeds peer id) s = (enqueue_read_ack_backlog peer id s).0

unfoldable pub run : List Call → SessionState → SessionState
run [] s = s
run (c ∷ cs) s = run cs (step c s)

abbrev read_id : PendingReadAck → Text
read_id p = p.inbound_id

abbrev delivery_id : PendingDeliveryAck → Text
delivery_id p = p.inbound_id

-- The ids of a queue.
abbrev pub read_ids : List PendingReadAck → List Text
read_ids q = map (λ p. p.inbound_id) q

abbrev pub delivery_ids : List PendingDeliveryAck → List Text
delivery_ids q = map (λ p. p.inbound_id) q

-- Both queues keep to their bound and hold no message twice, and none that waits to be acknowledged as
-- read is confirmed already.
pub record Inv (s : SessionState) : Type 0 where
  pub read_bound : length s.pending_read_acks ≤ ack_queue_max
  pub delivery_bound : length s.pending_delivery_acks ≤ ack_queue_max
  pub read_distinct : Distinct (read_ids s.pending_read_acks)
  pub delivery_distinct : Distinct (delivery_ids s.pending_delivery_acks)
  pub apart : Apart (read_ids s.pending_read_acks) s.read_ack_confirmed

deliver-Inv :
    (peer : SessionPeer) (inbound_id who : Text) (at_ms : ℤ) (s : SessionState)
    → Inv s
    → Inv (enqueue_delivery_ack peer inbound_id who at_ms s)
unfolding enqueue_delivery_ack
deliver-Inv peer inbound_id who at_ms s v =
    let id = trim inbound_id in
    let ack : PendingDeliveryAck = record {
      peer = peer;
      inbound_id = id;
      recipient_public_key_hex = trim who;
      received_at_ms = at_ms;
    } in
    elim (Bool-cases (is_empty id)) [
      | inl blank ↦ rw blank v
      | inr full ↦ elim (Bool-cases (delivery_queued id s.pending_delivery_acks)) [
        | inl there ↦ rw (full, there) v
        | inr fresh ↦
            rw (full, fresh)
              (record {
                read_bound = v.read_bound;
                delivery_bound =
                    push_bound delivery_id ack s.pending_delivery_acks v.delivery_bound;
                read_distinct = v.read_distinct;
                delivery_distinct =
                    push-Distinct delivery_id ack s.pending_delivery_acks v.delivery_distinct fresh;
                apart = v.apart;
              })
      ]
    ]

claim-Inv :
    (peer : SessionPeer) (inbound_id : Text) (s : SessionState)
    → Inv s
    → Inv (try_claim_read_ack_wire_send peer inbound_id s).0
unfolding try_claim_read_ack_wire_send
claim-Inv peer inbound_id s v =
    let id = trim inbound_id in
    let ack = read_ack_for peer id in
    elim (Bool-cases (is_empty id)) [
      | inl blank ↦ rw blank v
      | inr full ↦ elim (Bool-cases (has id s.read_ack_confirmed)) [
        | inl done ↦ rw (full, done) v
        | inr free ↦ elim (Bool-cases (read_queued id s.pending_read_acks)) [
          | inl there ↦ rw (full, free, there) v
          | inr fresh ↦
              rw (full, free, fresh)
                (record {
                  read_bound = push_bound read_id ack s.pending_read_acks v.read_bound;
                  delivery_bound = v.delivery_bound;
                  read_distinct =
                      push-Distinct read_id ack s.pending_read_acks v.read_distinct fresh;
                  delivery_distinct = v.delivery_distinct;
                  apart =
                      push-Apart read_id ack s.pending_read_acks s.read_ack_confirmed v.apart free;
                })
        ]
      ]
    ]

seed-Inv :
    (peer : SessionPeer) (inbound_id : Text) (s : SessionState)
    → Inv s
    → Inv (enqueue_read_ack_backlog peer inbound_id s).0
unfolding enqueue_read_ack_backlog
seed-Inv peer inbound_id s v =
    let id = trim inbound_id in
    let ack = read_ack_for peer id in
    let still = discard-Apart id (read_ids s.pending_read_acks) s.read_ack_confirmed v.apart in
    elim (Bool-cases (is_empty id)) [
      | inl blank ↦ rw blank v
      | inr full ↦ elim (Bool-cases (read_queued id s.pending_read_acks)) [
        | inl there ↦
            rw (full, there)
              (record {
                read_bound = v.read_bound;
                delivery_bound = v.delivery_bound;
                read_distinct = v.read_distinct;
                delivery_distinct = v.delivery_distinct;
                apart = still;
              })
        | inr fresh ↦
            rw (full, fresh)
              (record {
                read_bound = push_bound read_id ack s.pending_read_acks v.read_bound;
                delivery_bound = v.delivery_bound;
                read_distinct = push-Distinct read_id ack s.pending_read_acks v.read_distinct fresh;
                delivery_distinct = v.delivery_distinct;
                apart =
                    push-Apart read_id ack s.pending_read_acks (discard id s.read_ack_confirmed)
                      still (discard_gone id s.read_ack_confirmed);
              })
      ]
    ]

wired_ids :
    (id : Text) (now_ms : ℤ) (q : List PendingReadAck)
    → read_ids
        (map (λ p. if text_eq p.inbound_id id then record p { last_send_ms = now_ms } else p) q)
      ≡ read_ids q
wired_ids id now_ms [] = refl
wired_ids id now_ms (p ∷ q) = ground (arith, wired_ids id now_ms q)

wired_length :
    (id : Text) (now_ms : ℤ) (q : List PendingReadAck)
    → length
        (map (λ p. if text_eq p.inbound_id id then record p { last_send_ms = now_ms } else p) q)
      ≡ length q
wired_length id now_ms [] = refl
wired_length id now_ms (p ∷ q) = ap suc (wired_length id now_ms q)

wire-Inv :
    (id : Text) (now_ms : ℤ) (s : SessionState) → Inv s → Inv (mark_read_ack_wire_sent id now_ms s)
unfolding mark_read_ack_wire_sent
wire-Inv id now_ms s v =
    let same = wired_ids id now_ms s.pending_read_acks in
    record {
      read_bound = omega (arith, v.read_bound, wired_length id now_ms s.pending_read_acks);
      delivery_bound = v.delivery_bound;
      read_distinct = subst Distinct (sym same) v.read_distinct;
      delivery_distinct = v.delivery_distinct;
      apart = subst (λ (xs : List Text). Apart xs s.read_ack_confirmed) (sym same) v.apart;
    }

step-Inv : (c : Call) (s : SessionState) → Inv s → Inv (step c s)
unfolding step mark_delivery_ack_sent clear_delivery_ack_sent dequeue_delivery_ack
    mark_read_ack_confirmed
step-Inv (sent id) s v = record {
  read_bound = v.read_bound;
  delivery_bound = v.delivery_bound;
  read_distinct = v.read_distinct;
  delivery_distinct = v.delivery_distinct;
  apart = v.apart;
}
step-Inv (clears id) s v = record {
  read_bound = v.read_bound;
  delivery_bound = v.delivery_bound;
  read_distinct = v.read_distinct;
  delivery_distinct = v.delivery_distinct;
  apart = v.apart;
}
step-Inv (delivers peer id who at_ms) s v = deliver-Inv peer id who at_ms s v
step-Inv (dequeues id) s v = record {
  read_bound = v.read_bound;
  delivery_bound = omega (
    arith,
    v.delivery_bound,
    length-keep_if-le (λ (p : PendingDeliveryAck). not (text_eq p.inbound_id id))
        s.pending_delivery_acks,
  );
  read_distinct = v.read_distinct;
  delivery_distinct =
      keep-Distinct delivery_id (λ p. not (text_eq p.inbound_id id)) s.pending_delivery_acks
        v.delivery_distinct;
  apart = v.apart;
}
step-Inv (confirms id) s v = record {
  read_bound = omega (
    arith,
    v.read_bound,
    length-keep_if-le (λ (p : PendingReadAck). not (text_eq p.inbound_id id)) s.pending_read_acks,
  );
  delivery_bound = v.delivery_bound;
  read_distinct =
      keep-Distinct read_id (λ p. not (text_eq p.inbound_id id)) s.pending_read_acks
        v.read_distinct;
  delivery_distinct = v.delivery_distinct;
  apart = keep-Apart read_id id s.pending_read_acks s.read_ack_confirmed v.apart;
}
step-Inv (claims peer id) s v = claim-Inv peer id s v
step-Inv (wires id now_ms) s v = wire-Inv id now_ms s v
step-Inv (seeds peer id) s v = seed-Inv peer id s v

run-Inv : (cs : List Call) (s : SessionState) → Inv s → Inv (run cs s)
unfolding run
run-Inv [] s v = v
run-Inv (c ∷ cs) s v = run-Inv cs (step c s) (step-Inv c s v)

-- After any calls on a new session: the queues of acknowledgements hold 512 entries at most and no
-- message twice, and no message waits to be acknowledged as read that is confirmed already.
pub acks-Inv : (cs : List Call) → Inv (run cs new)
acks-Inv cs = run-Inv cs new (record {
  read_bound = omega arith;
  delivery_bound = omega arith;
  read_distinct = tt;
  delivery_distinct = tt;
  apart = tt;
})

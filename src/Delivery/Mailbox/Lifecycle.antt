-- ===== src/Delivery/Mailbox/Lifecycle.antt =====
-- The life of a message, from call to call.
use ghal_bol.Common.{
  some_injective, ℕ, ◌+◌, ◌-◌, ◌≡◌, refl, ap, ◌∙◌, sym, subst, inl, inr, Bool, true, Option, none,
  some, arith, if◌then◌else◌, Text, text_eq, text_eq_iff, eq_of_text, eq_of_texts, texts_eq,
  texts_eq_iff, Bool-cases,
}
use ghal_bol.Common.Int.{pos, min_ℤ, ltb_ℤ, leb_ℤ}
use ghal_bol.Common.Map
use ghal_bol.Common.Map.{Unique, get-insert}
use ghal_bol.Delivery.Policy.{PolicyLimits, max_expires_at_ms, later_by}
use ghal_bol.Delivery.Mailbox.{
  MailState, queued, delivered, read, expired, is_queued, is_delivered, is_expired, Key, Row, Table,
  MailboxStore, ValidatedEnvelope, upload, uploaded_row, replaced_bytes, used_bytes, extend_ttl,
  extend_row, update, query_row,
}
use ghal_bol.Delivery.Mailbox.Acks.{
  ack_deliver, ack_read, is_read, deliver_found, read_found, queued_for, addressed, addressed_from,
  set_delivered, set_read,
}
use ghal_bol.Delivery.Mailbox.Sweep.{sweep_expired, set_expired, overdue}
use ghal_bol.Delivery.Mailbox.Rows.{updated, update-from, query_row-get}
use ghal_bol.Delivery.Mailbox.Run.{Call, uploads, extends, delivers, reads, sweeps, step}
use ghal_bol.Delivery.Mailbox.Invariant.{uploaded_row_queued}
use ghal_bol.Delivery.Mailbox.Steps.{one_row, addressed_key}
use ghal_bol.Delivery.Mailbox.Swept.{sweep_exact}

-- What one call can do to the state of a message.
pub data Edge : Call → Key → MailState → MailState → Type 0 where
  kept : {c : Call} {k : Key} {st : MailState} → Edge c k st st
  sent :
      {env : ValidatedEnvelope} {ttl : ℕ} {st : MailState}
      → Edge (uploads env ttl) (env.sender_wire, env.message_id) st queued
  confirmed : {w m x : Text} → Edge (delivers w m x) (x, m) queued delivered
  seen : {w m x : Text} → Edge (reads w m x) (x, m) delivered read
  lapsed : {k : Key} → Edge sweeps k queued expired

-- The state of a key before and after.
abbrev pub Moves : Call → Key → Table → Table → Type 0
Moves c k t t' =
    (r r' : Row) → Map.get k t ≡ some r → Map.get k t' ≡ some r' → Edge c k r.state r'.state

stays : (c : Call) (k : Key) (t : Table) → Moves c k t t
stays c k t r r' g g' =
    subst (λ (x : Row). Edge c k r.state x.state) (some_injective (sym g ∙ g')) kept

update-Moves :
    (c : Call) (k : Key) (p : Key → Row → Bool) (f : Row → Row) (t : Table)
    → ((r : Row) → Map.get k t ≡ some r → p k r ≡ true → Edge c k r.state (f r).state)
    → Moves c k t (update p f t)
update-Moves c k p f t h r r' g g' =
    let (q, there, e) = update-from p f k t r' g' in
    let same : r ≡ q = some_injective (sym g ∙ there) in
    subst (λ (x : Row). Edge c k r.state x.state) (ap (updated p f k) same ∙ e)
      (elim (Bool-cases (p k r)) [ inl hit ↦ rw hit (h r g hit) | inr miss ↦ rw miss kept ])

queued_state : (st : MailState) → is_queued st ≡ true → queued ≡ st
queued_state queued h = refl
queued_state delivered h = absurd cc
queued_state read h = absurd cc
queued_state expired h = absurd cc

delivered_state : (st : MailState) → is_delivered st ≡ true → delivered ≡ st
delivered_state queued h = absurd cc
delivered_state delivered h = refl
delivered_state read h = absurd cc
delivered_state expired h = absurd cc

insert-Moves :
    (env : ValidatedEnvelope) (ttl : ℕ) (row : Row) (t : Table) (k : Key)
    → is_queued row.state ≡ true
    → Moves (uploads env ttl) k t (Map.insert (env.sender_wire, env.message_id) row t)
insert-Moves env ttl row t k q r r' g g' =
    let key : Key = (env.sender_wire, env.message_id) in
    elim (Bool-cases (texts_eq key k)) [
      | inl same ↦
          let e : row ≡ r' = some_injective (ground (arith, get-insert key k row t)) in
          subst (λ (j : Key). Edge (uploads env ttl) j r.state r'.state)
            ((texts_eq_iff key k).0 same)
            (subst (λ (st : MailState). Edge (uploads env ttl) key r.state st)
              (queued_state row.state q ∙ ap (λ (x : Row). x.state) e) sent)
      | inr other ↦ stays (uploads env ttl) k t r r' g (ground (arith, get-insert key k row t))
    ]

upload-Moves :
    (policy : PolicyLimits) (now : ℕ) (env : ValidatedEnvelope) (ttl : ℕ) (s : MailboxStore)
    (k : Key)
    → Moves (uploads env ttl) k s.conn (upload policy now env ttl s).0.conn
unfolding upload
upload-Moves policy now env ttl s k =
    let o = Map.get (env.sender_wire, env.message_id) s.conn in
    let e = min_ℤ (later_by now ttl) (max_expires_at_ms policy now) in
    elim (Bool-cases (
      ltb_ℤ s.quota_per_peer
        (pos (used_bytes env.sender_wire s.conn - replaced_bytes o + env.size_bytes)))) [
          | inl full ↦ rw full (stays (uploads env ttl) k s.conn)
          | inr fits ↦ rw fits (
              insert-Moves env ttl (uploaded_row o env now e) s.conn k
                (uploaded_row_queued o env now e).0)
        ]

extend-Moves :
    (policy : PolicyLimits) (now secs : ℕ) (x m : Text) (o : Option Row) (s : MailboxStore)
    (k : Key)
    → Moves (extends x m secs) k s.conn (extend_row policy now secs (x, m) o s).0.conn
extend-Moves policy now secs x m none s k = stays (extends x m secs) k s.conn
extend-Moves policy now secs x m (some r) s k =
    let e = min_ℤ (later_by now secs) (max_expires_at_ms policy r.uploaded_at_ms) in
    let c = extends x m secs in
    elim (Bool-cases (is_queued r.state)) [
      | inl on ↦ elim (Bool-cases (leb_ℤ e r.expires_at_ms)) [
        | inl short ↦ rw (on, short) (stays c k s.conn)
        | inr longer ↦
            rw (on, longer)
              (update-Moves c k (λ j q. texts_eq j (x, m)) (λ q. record q { expires_at_ms = e })
                s.conn (λ q g h. kept))
      ]
      | inr off ↦ elim (Bool-cases (is_expired r.state)) [
        | inl over ↦ rw (off, over) (stays c k s.conn)
        | inr other ↦ rw (off, other) (stays c k s.conn)
      ]
    ]

-- The key of a row that a confirmation meets.
pub met_key : (w m x : Text) (k : Key) (r : Row) → addressed_from w m x k r ≡ true → (x, m) ≡ k
met_key w m x (k0, k1) r h = ground (arith, text_eq_iff k1 m, text_eq_iff k0 x)

deliver-Moves :
    (now : ℕ) (w m x : Text) (s : MailboxStore) (o : Option (Key × Row)) (k : Key)
    → Unique s.conn
    → query_row (queued_for w m) s.conn ≡ o
    → Moves (delivers w m x) k s.conn (deliver_found now w m x o s).0.conn
deliver-Moves now w m x s none k u e = stays (delivers w m x) k s.conn
deliver-Moves now w m x s (some (j, q)) k u e =
    let found = query_row-get (queued_for w m) s.conn j q u e in
    let c = delivers w m x in
    elim (Bool-cases (text_eq j.0 x)) [
      | inl own ↦ rw own (
          update-Moves c k (addressed_from w m x) (set_delivered now) s.conn (λ r g hit.
            let same : q ≡ r =
              one_row s.conn (addressed_key w m x j k q r hit (ground (arith, found.1)) own) found.0
                g in
            let on : queued ≡ r.state =
              queued_state r.state
                (ground (arith, ap (λ (y : Row). is_queued y.state) same, found.1)) in
            subst (λ (i : Key). Edge c i r.state delivered) (met_key w m x k r hit)
              (subst (λ (st : MailState). Edge c (x, m) st delivered) on confirmed)))
      | inr other ↦ rw other (stays c k s.conn)
    ]

read-Moves :
    (now : ℕ) (w m x : Text) (s : MailboxStore) (o : Option (Key × Row)) (k : Key)
    → Unique s.conn
    → query_row (addressed w m) s.conn ≡ o
    → Moves (reads w m x) k s.conn (read_found now w m x o s).0.conn
read-Moves now w m x s none k u e = stays (reads w m x) k s.conn
read-Moves now w m x s (some (j, q)) k u e =
    let found = query_row-get (addressed w m) s.conn j q u e in
    let c = reads w m x in
    elim (Bool-cases (text_eq j.0 x)) [
      | inl own ↦ elim (Bool-cases (is_read q.state)) [
        | inl again ↦ rw (own, again) (stays c k s.conn)
        | inr first ↦ elim (Bool-cases (is_delivered q.state)) [
          | inl ready ↦
              rw (own, first, ready)
                (update-Moves c k (addressed_from w m x) (set_read now) s.conn (λ r g hit.
                  let same : q ≡ r =
                    one_row s.conn (addressed_key w m x j k q r hit found.1 own) found.0 g in
                  let on : delivered ≡ r.state =
                    delivered_state r.state
                      (ground (arith, ap (λ (y : Row). is_delivered y.state) same)) in
                  subst (λ (i : Key). Edge c i r.state read) (met_key w m x k r hit)
                    (subst (λ (st : MailState). Edge c (x, m) st read) on seen)))
          | inr early ↦ rw (own, first, early) (stays c k s.conn)
        ]
      ]
      | inr other ↦ rw other (stays c k s.conn)
    ]

sweep-Moves :
    (now : ℕ) (s : MailboxStore) (k : Key)
    → Unique s.conn
    → Moves sweeps k s.conn (sweep_expired now s).0.conn
sweep-Moves now s k u r r' g g' =
    let whole : (o : Option Row) → Option Row = λ o. elim o as (λ _. Option Row) [
      | none ↦ none
      | some q ↦ some (if overdue now k q then set_expired now q else q)
    ] in
    let moved = some_injective (sym ((sweep_exact now s k u).0 ∙ ap whole g) ∙ g') in
    subst (λ (x : Row). Edge sweeps k r.state x.state) moved
      (elim (Bool-cases (overdue now k r)) [
        | inl due ↦ rw due (
            subst (λ (st : MailState). Edge sweeps k st expired)
              (queued_state r.state (ground arith)) lapsed)
        | inr fine ↦ rw fine kept
      ])

step-Moves :
    (policy : PolicyLimits) (now : ℕ) (c : Call) (s : MailboxStore) (k : Key)
    → Unique s.conn
    → Moves c k s.conn (step policy now c s).conn
unfolding step extend_ttl ack_deliver ack_read
step-Moves policy now (uploads env ttl) s k u = upload-Moves policy now env ttl s k
step-Moves policy now (extends x m secs) s k u =
    extend-Moves policy now secs x m (Map.get (x, m) s.conn) s k
step-Moves policy now (delivers w m x) s k u =
    deliver-Moves now w m x s (query_row (queued_for w m) s.conn) k u refl
step-Moves policy now (reads w m x) s k u =
    read-Moves now w m x s (query_row (addressed w m) s.conn) k u refl
step-Moves policy now sweeps s k u = sweep-Moves now s k u

-- In a mailbox with one row per key, one call moves the state of a message at most along the edge of that
-- call: an upload of it makes it wait again, the confirmation of its recipient takes it from queued to
-- delivered, that it was read from delivered to read, and a sweep from queued to expired. No other call,
-- and no call for another message, moves it.
pub step-Edge :
    (policy : PolicyLimits) (now : ℕ) (c : Call) (s : MailboxStore) (k : Key) (r r' : Row)
    → Unique s.conn
    → Map.get k s.conn ≡ some r
    → Map.get k (step policy now c s).conn ≡ some r'
    → Edge c k r.state r'.state
step-Edge policy now c s k r r' u g g' = step-Moves policy now c s k u r r' g g'

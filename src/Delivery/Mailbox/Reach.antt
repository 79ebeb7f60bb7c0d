-- ===== src/Delivery/Mailbox/Reach.antt =====
-- The invariant holds after every run.
use ghal_bol.Common.{
  ℕ, ◌≡◌, refl, ap, ◌∙◌, inl, inr, Bool, true, ◌||◌, Option, none, some, List, [], ◌∷◌, All, map,
  arith, Text, text_eq_iff, eq_of_text, eq_of_texts, Bool-cases,
}
use ghal_bol.Common.Int.{ℤ}
use ghal_bol.Common.Map
use ghal_bol.Common.Map.{Unique, insert-Unique, get-insert}
use ghal_bol.Delivery.Policy.{PolicyLimits}
use ghal_bol.Delivery.Mailbox.{
  MailState, is_queued, is_expired, Key, Row, Table, MailboxStore, upload, extend_ttl, extend_row,
  update, query_row, sum_bytes, used_bytes,
}
use ghal_bol.Delivery.Mailbox.Acks.{
  ack_deliver, ack_read, deliver_found, read_found, queued_for, addressed,
}
use ghal_bol.Delivery.Mailbox.Sweep.{sweep_expired, expire_all, named, names_of, set_expired}
use ghal_bol.Delivery.Mailbox.Rows.{update-from}
use ghal_bol.Delivery.Mailbox.Run.{
  Call, uploads, extends, delivers, reads, sweeps, step, run, opened,
}
use ghal_bol.Delivery.Mailbox.{select}
use ghal_bol.Delivery.Mailbox.Sweep.{overdue}
use ghal_bol.Delivery.Mailbox.Rows.{select-All}
use ghal_bol.Delivery.Mailbox.Invariant.{IsKept, Inv, update-Inv, upload-Inv}
use ghal_bol.Delivery.Mailbox.Steps.{one_row, extend-Inv, deliver-Inv, read-Inv}

-- A row that waits, or that the sweep has just taken the message of.
abbrev is_sweepable : MailState → Bool
is_sweepable st = is_queued st || is_expired st

expired-IsKept :
    (policy : PolicyLimits) (now : ℕ) (r : Row)
    → is_sweepable r.state ≡ true
    → IsKept policy r
    → IsKept policy (set_expired now r)
expired-IsKept policy now r q w = record {
  blob = refl;
  delivered_at = w.delivered_at ∙ ground arith;
  expired_at = refl;
  read_at = w.read_at ∙ ground arith;
  expiry = w.expiry;
}

-- The rows of a name can be swept.
abbrev Sweepable : Table → Text × Text × Text → Type 0
Sweepable t e =
    (k : Key) (r : Row) → Map.get k t ≡ some r → named e k r ≡ true → is_sweepable r.state ≡ true

Sweepable-update :
    (now : ℕ) (e : Text × Text × Text) (es : List (Text × Text × Text)) (t : Table)
    → All (Sweepable t) es
    → All (Sweepable (update (named e) (set_expired now) t)) es
Sweepable-update now e [] t h = tt
Sweepable-update now e (d ∷ es) t h = (
  λ k r g n.
      let (q, there, same) = update-from (named e) (set_expired now) k t r g in
      elim (Bool-cases (named e k q)) [
        | inl hit ↦ ground (arith, ap (λ (x : Row). is_sweepable x.state) same)
        | inr miss ↦ h.0 k r (ground arith) n
      ],
  Sweepable-update now e es t h.1,
)

expire_all-Inv :
    (policy : PolicyLimits) (now : ℕ) (es : List (Text × Text × Text)) (s : MailboxStore)
    → All (Sweepable s.conn) es
    → Inv policy s
    → Inv policy (record s { conn = expire_all now es s.conn })
unfolding expire_all
expire_all-Inv policy now [] s h v = v
expire_all-Inv policy now (e ∷ es) s h v =
    expire_all-Inv policy now es (record s { conn = update (named e) (set_expired now) s.conn })
      (Sweepable-update now e es s.conn h.1)
      (update-Inv policy (named e) (set_expired now) s
        (λ k r g hit w. expired-IsKept policy now r (h.0 k r g hit) w) (λ r. omega arith) v)

pub named_key : (k j : Key) (r q : Row) → named (names_of (k, r)) j q ≡ true → k ≡ j
named_key (k0, k1) (j0, j1) r q h = ground (arith, text_eq_iff j0 k0, text_eq_iff j1 k1)

swept_Sweepable :
    (now : ℕ) (t : Table) (l : Table)
    → All (λ b. (Map.get b.0 t ≡ some b.1) × (overdue now b.0 b.1 ≡ true)) l
    → All (Sweepable t) (map names_of l)
swept_Sweepable now t [] h = tt
swept_Sweepable now t ((k, r) ∷ l) h = (
  λ j q g n.
      let same : r ≡ q = one_row t (named_key k j r q n) h.0.0 g in
      ground (arith, h.0.1, ap (λ (x : Row). is_queued x.state) same),
  swept_Sweepable now t l h.1,
)

pub step-Inv :
    (policy : PolicyLimits) (now : ℕ) (c : Call) (s : MailboxStore)
    → Inv policy s
    → Inv policy (step policy now c s)
unfolding step extend_ttl ack_deliver ack_read sweep_expired
step-Inv policy now (uploads env ttl_secs) s v = upload-Inv policy now env ttl_secs s v
step-Inv policy now (extends x m secs) s v =
    extend-Inv policy now (x, m) secs (Map.get (x, m) s.conn) s refl v
step-Inv policy now (delivers w m x) s v =
    deliver-Inv policy now w m x s (query_row (queued_for w m) s.conn) refl v
step-Inv policy now (reads w m x) s v =
    read-Inv policy now w m x s (query_row (addressed w m) s.conn) refl v
step-Inv policy now sweeps s v =
    expire_all-Inv policy now (map names_of (select (overdue now) s.conn)) s
      (swept_Sweepable now s.conn (select (overdue now) s.conn)
        (select-All (overdue now) s.conn v.unique))
      v

pub run-Inv :
    (policy : PolicyLimits) (cs : List (ℕ × Call)) (s : MailboxStore)
    → Inv policy s
    → Inv policy (run policy cs s)
unfolding run
run-Inv policy [] s v = v
run-Inv policy ((now, c) ∷ cs) s v =
    run-Inv policy cs (step policy now c s) (step-Inv policy now c s v)

extend_quota :
    (policy : PolicyLimits) (now : ℕ) (k : Key) (secs : ℕ) (o : Option Row) (s : MailboxStore)
    → (extend_row policy now secs k o s).0.quota_per_peer ≡ s.quota_per_peer
extend_quota policy now k secs none s = refl
extend_quota policy now k secs (some r) s = ground arith

deliver_quota :
    (now : ℕ) (w m x : Text) (o : Option (Key × Row)) (s : MailboxStore)
    → (deliver_found now w m x o s).0.quota_per_peer ≡ s.quota_per_peer
deliver_quota now w m x none s = refl
deliver_quota now w m x (some b) s = ground arith

read_quota :
    (now : ℕ) (w m x : Text) (o : Option (Key × Row)) (s : MailboxStore)
    → (read_found now w m x o s).0.quota_per_peer ≡ s.quota_per_peer
read_quota now w m x none s = refl
read_quota now w m x (some b) s = ground arith

step_quota :
    (policy : PolicyLimits) (now : ℕ) (c : Call) (s : MailboxStore)
    → (step policy now c s).quota_per_peer ≡ s.quota_per_peer
unfolding step upload extend_ttl ack_deliver ack_read sweep_expired
step_quota policy now (uploads env ttl_secs) s = ground arith
step_quota policy now (extends x m secs) s = extend_quota policy now (x, m) secs _ s
step_quota policy now (delivers w m x) s = deliver_quota now w m x _ s
step_quota policy now (reads w m x) s = read_quota now w m x _ s
step_quota policy now sweeps s = refl

run_quota :
    (policy : PolicyLimits) (cs : List (ℕ × Call)) (s : MailboxStore)
    → (run policy cs s).quota_per_peer ≡ s.quota_per_peer
unfolding run
run_quota policy [] s = refl
run_quota policy ((now, c) ∷ cs) s =
    run_quota policy cs (step policy now c s) ∙ step_quota policy now c s

-- After any calls on an empty mailbox, at any times: each key has one row; the messages of a sender that
-- wait take no more than the quota that the mailbox was opened with; and each row keeps its message
-- exactly while it waits, the times of what became of it exactly once it did, and an end within the
-- longest time from its upload.
pub mailbox-Inv :
    (policy : PolicyLimits) (quota : ℤ) (cs : List (ℕ × Call))
    → Inv policy (run policy cs (opened quota))
      × ((run policy cs (opened quota)).quota_per_peer ≡ quota)
unfolding used_bytes sum_bytes Map.get
mailbox-Inv policy quota cs = (
  run-Inv policy cs (opened quota)
      (record { unique = tt; kept = λ k r g. absurd cc; quota = λ w. omega arith }),
  run_quota policy cs (opened quota),
)

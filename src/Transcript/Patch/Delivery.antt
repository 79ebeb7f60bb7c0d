-- ===== src/Transcript/Patch/Delivery.antt =====
-- What any changes leave of the lines of a thread.
use ghal_bol.Common.{
  ◌≤◌, ◌≡◌, refl, sym, subst, ap, ◌∙◌, Bool, true, false, not, ◌&&◌, ◌||◌, Option, none, some, List,
  [], ◌∷◌, ltb, leb, map, if◌then◌else◌, Text, text as lit, text_eq, trim, arith, All,
}
use ghal_bol.Common.Int.{ℤ}
use ghal_bol.Common.Json.{Items, number, as_i64}
use ghal_bol.Transcript.Line.{StoredChatLine, or_empty}
use ghal_bol.Transcript.Order.{mid_of}
use ghal_bol.Transcript.Merge.{delivery_rank, rows}
use ghal_bol.Transcript.Patch.{
  patch_items, is_none, failed, with_delivery, with_received_at, with_local_path,
  with_read_ack_sent,
}
use ghal_bol.Transcript.Patch.Rows.{
  or_same, Keeps, rows-patch_items, failed-Keeps, with_delivery-Keeps, with_received_at-Keeps,
  with_local_path-Keeps, with_read_ack_sent-Keeps,
}

pub data Change : Type 0 where
  fails : Text → Change
  delivers : Text → Text → Change
  receives : Text → ℤ → Change
  stores : Text → Text → Change
  acknowledges : Text → Change

abbrev pub patch_of : Change → StoredChatLine → Option StoredChatLine
patch_of (fails mid) = failed mid
patch_of (delivers mid delivery) = with_delivery mid delivery
patch_of (receives mid at) = with_received_at mid at
patch_of (stores mid path) = with_local_path mid path
patch_of (acknowledges mid) = with_read_ack_sent mid

-- Times are `i64`.
abbrev pub Fits : Change → Type 0
Fits (receives mid at) = as_i64 (number at) ≡ some at
Fits _ = Unit

unfoldable pub run : List Change → Items → Items
run [] thread = thread
run (c ∷ cs) thread = run cs (patch_items (patch_of c) thread).0

-- The line `b` after changes of the line `a`.
pub record Kept (a b : StoredChatLine) : Type 0 where
  pub local_id : b.local_id ≡ a.local_id
  pub text : b.text ≡ a.text
  pub outgoing : b.outgoing ≡ a.outgoing
  pub message_id : b.message_id ≡ a.message_id
  pub created_at_ms : b.created_at_ms ≡ a.created_at_ms
  pub delivery : 3 ≤ delivery_rank a.delivery → delivery_rank a.delivery ≤ delivery_rank b.delivery
  pub received_at_ms : (t : ℤ) → a.received_at_ms ≡ some t → b.received_at_ms ≡ some t
  pub read_ack_sent : a.read_ack_sent ≡ true → b.read_ack_sent ≡ true

Kept-refl : (a : StoredChatLine) → Kept a a
Kept-refl a = record {
  local_id = refl;
  text = refl;
  outgoing = refl;
  message_id = refl;
  created_at_ms = refl;
  delivery = λ h. omega arith;
  received_at_ms = λ t e. e;
  read_ack_sent = λ e. e;
}

Kept-trans : (a b c : StoredChatLine) → Kept a b → Kept b c → Kept a c
Kept-trans a b c h k = record {
  local_id = k.local_id ∙ h.local_id;
  text = k.text ∙ h.text;
  outgoing = k.outgoing ∙ h.outgoing;
  message_id = k.message_id ∙ h.message_id;
  created_at_ms = k.created_at_ms ∙ h.created_at_ms;
  delivery = λ r. let first = h.delivery r in let next = k.delivery (omega arith) in omega arith;
  received_at_ms = λ t e. k.received_at_ms t (h.received_at_ms t e);
  read_ack_sent = λ e. k.read_ack_sent (h.read_ack_sent e);
}

if-Kept :
    (b : Bool) (a : StoredChatLine) (x y : Option StoredChatLine)
    → (b ≡ true → Kept a (or_same a x))
    → (b ≡ false → Kept a (or_same a y))
    → Kept a (or_same a (if b then x else y))
if-Kept true a x y h k = h refl
if-Kept false a x y h k = k refl

delivery_changed :
    (a : StoredChatLine) (d : Text)
    → (3 ≤ delivery_rank a.delivery → delivery_rank a.delivery ≤ delivery_rank d)
    → Kept a (record a { delivery = d })
delivery_changed a d h = record {
  local_id = refl;
  text = refl;
  outgoing = refl;
  message_id = refl;
  created_at_ms = refl;
  delivery = h;
  received_at_ms = λ t e. e;
  read_ack_sent = λ e. e;
}

delivered_rank : delivery_rank (lit "delivered") ≡ 3
unfolding delivery_rank text_eq
delivered_rank = refl

failed-Kept : (mid : Text) (a : StoredChatLine) → Kept a (or_same a (failed mid a))
unfolding failed
failed-Kept mid a =
    let next : StoredChatLine = record a { delivery = lit "failed" } in
    let past : Bool =
      text_eq a.delivery (lit "failed")
      || leb (delivery_rank (lit "delivered")) (delivery_rank a.delivery) in
    if-Kept (not a.outgoing || not (text_eq (mid_of a) mid)) a none
      (if past then none else some next) (λ other. Kept-refl a)
      (λ own.
        if-Kept past a none (some next) (λ is_past. Kept-refl a)
          (λ open_yet.
            delivery_changed a (lit "failed")
              (λ r. absurd (ground (arith, open_yet, delivered_rank, r)))))

with_delivery-Kept :
    (mid d : Text) (a : StoredChatLine) → Kept a (or_same a (with_delivery mid d a))
unfolding with_delivery
with_delivery-Kept mid d a =
    if-Kept
      (a.outgoing && text_eq (mid_of a) mid && ltb (delivery_rank a.delivery) (delivery_rank d)) a
      (some (record a { delivery = d })) none
      (λ own. delivery_changed a d (λ r. ground (arith, own))) (λ other. Kept-refl a)

with_received_at-Kept :
    (mid : Text) (t : ℤ) (a : StoredChatLine) → Kept a (or_same a (with_received_at mid t a))
unfolding with_received_at
with_received_at-Kept mid t a =
    if-Kept (a.outgoing && text_eq (mid_of a) mid && is_none a.received_at_ms) a
      (some (record a { received_at_ms = some t })) none
      (λ own. record {
        local_id = refl;
        text = refl;
        outgoing = refl;
        message_id = refl;
        created_at_ms = refl;
        delivery = λ h. omega arith;
        received_at_ms = λ u e. absurd (ground (arith, own, ap is_none e));
        read_ack_sent = λ e. e;
      })
      (λ other. Kept-refl a)

with_local_path-Kept :
    (mid path : Text) (a : StoredChatLine) → Kept a (or_same a (with_local_path mid path a))
unfolding with_local_path
with_local_path-Kept mid path a =
    if-Kept
      (text_eq (mid_of a) mid
        && text_eq (trim a.msg_kind) (lit "attachment_offer")
        && not (text_eq (or_empty a.local_path) path))
      a (some (record a { local_path = some path })) none
      (λ own. record {
        local_id = refl;
        text = refl;
        outgoing = refl;
        message_id = refl;
        created_at_ms = refl;
        delivery = λ h. omega arith;
        received_at_ms = λ u e. e;
        read_ack_sent = λ e. e;
      })
      (λ other. Kept-refl a)

with_read_ack_sent-Kept :
    (mid : Text) (a : StoredChatLine) → Kept a (or_same a (with_read_ack_sent mid a))
unfolding with_read_ack_sent
with_read_ack_sent-Kept mid a =
    if-Kept (a.outgoing || not (text_eq (mid_of a) mid) || a.read_ack_sent) a none
      (some (record a { read_ack_sent = true })) (λ other. Kept-refl a)
      (λ own. record {
        local_id = refl;
        text = refl;
        outgoing = refl;
        message_id = refl;
        created_at_ms = refl;
        delivery = λ h. omega arith;
        received_at_ms = λ u e. e;
        read_ack_sent = λ e. refl;
      })

patch-Kept : (c : Change) (a : StoredChatLine) → Kept a (or_same a (patch_of c a))
patch-Kept (fails mid) a = failed-Kept mid a
patch-Kept (delivers mid d) a = with_delivery-Kept mid d a
patch-Kept (receives mid t) a = with_received_at-Kept mid t a
patch-Kept (stores mid path) a = with_local_path-Kept mid path a
patch-Kept (acknowledges mid) a = with_read_ack_sent-Kept mid a

patch-Keeps : (c : Change) → Fits c → Keeps (patch_of c)
patch-Keeps (fails mid) f = failed-Keeps mid
patch-Keeps (delivers mid d) f = with_delivery-Keeps mid d
patch-Keeps (receives mid t) f = with_received_at-Keeps mid t f
patch-Keeps (stores mid path) f = with_local_path-Keeps mid path
patch-Keeps (acknowledges mid) f = with_read_ack_sent-Keeps mid

-- Line by line.
abbrev pub AllKept : List StoredChatLine → List StoredChatLine → Type 0
AllKept [] [] = Unit
AllKept (a ∷ as_were) (b ∷ as_are) = Kept a b × AllKept as_were as_are
AllKept _ _ = ⊥

AllKept-patch :
    (c : Change) (ls : List StoredChatLine) → AllKept ls (map (λ l. or_same l (patch_of c l)) ls)
AllKept-patch c [] = tt
AllKept-patch c (l ∷ ls) = (patch-Kept c l, AllKept-patch c ls)

AllKept-refl : (ls : List StoredChatLine) → AllKept ls ls
AllKept-refl [] = tt
AllKept-refl (l ∷ ls) = (Kept-refl l, AllKept-refl ls)

AllKept-trans : (xs ys zs : List StoredChatLine) → AllKept xs ys → AllKept ys zs → AllKept xs zs
AllKept-trans [] [] [] h k = tt
AllKept-trans (x ∷ xs) (y ∷ ys) (z ∷ zs) h k =
    (Kept-trans x y z h.0 k.0, AllKept-trans xs ys zs h.1 k.1)
AllKept-trans [] [] (z ∷ zs) h k = k
AllKept-trans [] (y ∷ ys) zs h k = absurd h
AllKept-trans (x ∷ xs) [] zs h k = absurd h
AllKept-trans (x ∷ xs) (y ∷ ys) [] h k = k

-- Whatever deliveries, failures, times of receipt, paths and read acknowledgements are written into a
-- thread, it has the same readable lines: each keeps its ids, text, direction and time of creation, a
-- message that was delivered or read is never set back, and a time of receipt and a sent
-- acknowledgement stay.
pub thread_kept :
    (cs : List Change) (thread : Items) → All Fits cs → AllKept (rows thread) (rows (run cs thread))
unfolding run
thread_kept [] thread f = AllKept-refl (rows thread)
thread_kept (c ∷ cs) thread f =
    let e = rows-patch_items (patch_of c) thread (patch-Keeps c f.0) in
    AllKept-trans (rows thread) (rows (patch_items (patch_of c) thread).0)
      (rows (run cs (patch_items (patch_of c) thread).0))
      (subst (AllKept (rows thread)) (sym e) (AllKept-patch c (rows thread)))
      (thread_kept cs (patch_items (patch_of c) thread).0 f.1)

-- ===== src/Transcript/Patch/Rows.antt =====
-- A patch of the JSON of a thread is a change of its lines.
use ghal_bol.Common.{
  ◌≡◌, refl, ap, ◌∙◌, Bool, true, false, not, ◌&&◌, ◌||◌, Option, none, some, List, ◌∷◌, ltb, leb,
  map, if◌then◌else◌, Text, text as lit, text_eq, trim,
}
use ghal_bol.Common.Int.{ℤ}
use ghal_bol.Common.Json.{Json, Items, nil, cons, number, as_i64}
use ghal_bol.Transcript.Line.{StoredChatLine, from_json, to_json, and_then, or_empty}
use ghal_bol.Transcript.Line.Reread.{IsRead, read_again, from_json-IsRead}
use ghal_bol.Transcript.Order.{mid_of}
use ghal_bol.Transcript.Merge.{delivery_rank, rows, or_skip}
use ghal_bol.Transcript.Patch.{
  patch_items, is_none, failed, with_delivery, with_received_at, with_local_path,
  with_read_ack_sent,
}

-- The line after a patch.
abbrev pub or_same : StoredChatLine → Option StoredChatLine → StoredChatLine
or_same l none = l
or_same l (some next) = next

abbrev pub Readable : Option StoredChatLine → Type 0
Readable none = Unit
Readable (some l) = IsRead l

-- A patch that leaves lines readable.
abbrev pub Keeps : (StoredChatLine → Option StoredChatLine) → Type 0
Keeps f = (l : StoredChatLine) → IsRead l → Readable (f l)

patched_row :
    (f : StoredChatLine → Option StoredChatLine) (item : Json) (o : Option StoredChatLine)
    (r : Option StoredChatLine) (rest : Items) (changed : Bool) (ls : List StoredChatLine)
    → from_json item ≡ o
    → and_then o f ≡ r
    → Readable r
    → rows rest ≡ map (λ l. or_same l (f l)) ls
    → rows
        (elim r as (λ _. Items × Bool) [
          | none ↦ (cons item rest, changed)
          | some next ↦ (cons (to_json next) rest, true)
        ]).0
      ≡ map (λ l. or_same l (f l)) (or_skip o ls)
unfolding rows
patched_row f item none none rest changed ls e g h k = ap (λ o. or_skip o (rows rest)) e ∙ k
patched_row f item none (some next) rest changed ls e g h k = absurd (cc)
patched_row f item (some l) none rest changed ls e g h k =
    ap (λ o. or_skip o (rows rest)) e ∙ rw g (ap (λ r. l ∷ r) k)
patched_row f item (some l) (some next) rest changed ls e g h k =
    ap (λ o. or_skip o (rows rest)) (read_again next h) ∙ rw g (ap (λ r. next ∷ r) k)

readable :
    (f : StoredChatLine → Option StoredChatLine) (item : Json) (o : Option StoredChatLine)
    → Keeps f
    → from_json item ≡ o
    → Readable (and_then o f)
readable f item none keeps e = tt
readable f item (some l) keeps e = keeps l (from_json-IsRead item l e)

-- The lines of a patched thread are the lines of the thread, each patched; what cannot be read stays.
pub rows-patch_items :
    (f : StoredChatLine → Option StoredChatLine) (thread : Items)
    → Keeps f
    → rows (patch_items f thread).0 ≡ map (λ l. or_same l (f l)) (rows thread)
unfolding rows patch_items
rows-patch_items f nil keeps = refl
rows-patch_items f (cons item thread) keeps =
    patched_row f item (from_json item) (and_then (from_json item) f) (patch_items f thread).0
      (patch_items f thread).1 (rows thread) refl refl (readable f item (from_json item) keeps refl)
      (rows-patch_items f thread keeps)

module _ (l : StoredChatLine) (h : IsRead l) where
  with_delivery-IsRead : (d : Text) → IsRead (record l { delivery = d })
  with_delivery-IsRead d = record {
    id_trimmed = h.id_trimmed;
    id_some = h.id_some;
    created = h.created;
    received = h.received;
    duration = h.duration;
    named = h.named;
    kind = h.kind;
  }

  with_received-IsRead :
      (t : ℤ) → as_i64 (number t) ≡ some t → IsRead (record l { received_at_ms = some t })
  with_received-IsRead t fits = record {
    id_trimmed = h.id_trimmed;
    id_some = h.id_some;
    created = h.created;
    received = fits;
    duration = h.duration;
    named = h.named;
    kind = h.kind;
  }

  with_path-IsRead : (path : Text) → IsRead (record l { local_path = some path })
  with_path-IsRead path = record {
    id_trimmed = h.id_trimmed;
    id_some = h.id_some;
    created = h.created;
    received = h.received;
    duration = h.duration;
    named = h.named;
    kind = h.kind;
  }

  acknowledged-IsRead : IsRead (record l { read_ack_sent = true })
  acknowledged-IsRead = record {
    id_trimmed = h.id_trimmed;
    id_some = h.id_some;
    created = h.created;
    received = h.received;
    duration = h.duration;
    named = h.named;
    kind = h.kind;
  }

if-Readable :
    (b : Bool) (x y : Option StoredChatLine)
    → Readable x
    → Readable y
    → Readable (if b then x else y)
if-Readable true x y h k = h
if-Readable false x y h k = k

pub failed-Keeps : (mid : Text) → Keeps (failed mid)
unfolding failed
failed-Keeps mid l h =
    if-Readable (not l.outgoing || not (text_eq (mid_of l) mid)) none
      (if text_eq l.delivery (lit "failed")
          || leb (delivery_rank (lit "delivered")) (delivery_rank l.delivery)
        then none
        else some (record l { delivery = lit "failed" }))
      tt
      (if-Readable
        (text_eq l.delivery (lit "failed")
          || leb (delivery_rank (lit "delivered")) (delivery_rank l.delivery))
        none (some (record l { delivery = lit "failed" })) tt
        (with_delivery-IsRead l h (lit "failed")))

pub with_delivery-Keeps : (mid delivery : Text) → Keeps (with_delivery mid delivery)
unfolding with_delivery
with_delivery-Keeps mid delivery l h =
    if-Readable
      (l.outgoing
        && text_eq (mid_of l) mid
        && ltb (delivery_rank l.delivery) (delivery_rank delivery))
      (some (record l { delivery = delivery })) none (with_delivery-IsRead l h delivery) tt

pub with_received_at-Keeps :
    (mid : Text) (t : ℤ) → as_i64 (number t) ≡ some t → Keeps (with_received_at mid t)
unfolding with_received_at
with_received_at-Keeps mid t fits l h =
    if-Readable (l.outgoing && text_eq (mid_of l) mid && is_none l.received_at_ms)
      (some (record l { received_at_ms = some t })) none (with_received-IsRead l h t fits) tt

pub with_local_path-Keeps : (mid path : Text) → Keeps (with_local_path mid path)
unfolding with_local_path
with_local_path-Keeps mid path l h =
    if-Readable
      (text_eq (mid_of l) mid
        && text_eq (trim l.msg_kind) (lit "attachment_offer")
        && not (text_eq (or_empty l.local_path) path))
      (some (record l { local_path = some path })) none (with_path-IsRead l h path) tt

pub with_read_ack_sent-Keeps : (mid : Text) → Keeps (with_read_ack_sent mid)
unfolding with_read_ack_sent
with_read_ack_sent-Keeps mid l h =
    if-Readable (l.outgoing || not (text_eq (mid_of l) mid) || l.read_ack_sent) none
      (some (record l { read_ack_sent = true })) tt (acknowledged-IsRead l h)

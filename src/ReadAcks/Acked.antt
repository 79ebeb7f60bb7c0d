-- ===== src/ReadAcks/Acked.antt =====
-- Messages whose rows are acknowledged stay so, and a receipt acknowledges the rows of its message.
use ghal_bol.Common.{
  ◌≡◌, refl, sym, subst, ap, ◌∙◌, inl, inr, Bool, true, false, not, ◌||◌, Option, none, some,
  some_injective, List, [], ◌∷◌, if◌then◌else◌, Text, text_eq, trim, is_empty, Bool-cases, arith,
}
use mathlib.Core.Bool.{false≢true}
use ghal_bol.Common.Json
use ghal_bol.Common.Json.{
  Json, Items, nil, cons, Fields, end, field, array, object, as_array, as_object, get-set_at_self,
}
use ghal_bol.Transcript.Line.{StoredChatLine, from_json, to_json, and_then}
use ghal_bol.Transcript.Order.{mid_of}
use ghal_bol.Transcript.Merge.Every.{Every}
use ghal_bol.Transcript.Patch.{
  patch_items, patch_all_threads, threads_of, with_threads, with_read_ack_sent,
}
use ghal_bol.Transcript.Patch.Rows.{or_same, with_read_ack_sent-Keeps}
use ghal_bol.Transcript.Keys.{Contacts}
use ghal_bol.Transcript.Store.{Store, rows_of, patch_inbound_read_ack_sent, bump_all}
use ghal_bol.Transcript.Store.Append.{as_object_of, as_array_of}
use ghal_bol.Transcript.Store.Every.{Threads, InSpace, patch_all-Threads}

-- The row is no unacknowledged inbound row of the message.
abbrev pub acked : Text → StoredChatLine → Bool
acked mid l = l.outgoing || not (text_eq (mid_of l) mid) || l.read_ack_sent

-- No row of the message waits for its acknowledgement.
abbrev pub Acked : Text → Text → Store → Type 0
Acked ns mid s = InSpace (acked mid) (threads_of ns s.all)

stays-acked :
    (mid m : Text) (l : StoredChatLine)
    → acked mid l ≡ true
    → acked mid (or_same l (with_read_ack_sent m l)) ≡ true
unfolding with_read_ack_sent
stays-acked mid m l h = elim (Bool-cases (acked m l)) [
  | inl done ↦ rw done h
  | inr open_row ↦ rw open_row (ground (arith, h))
]

becomes-acked :
    (mid : Text) (l : StoredChatLine) → acked mid (or_same l (with_read_ack_sent mid l)) ≡ true
unfolding with_read_ack_sent
becomes-acked mid l = elim (Bool-cases (acked mid l)) [
  | inl done ↦ rw done done
  | inr open_row ↦ rw open_row (ground arith)
]

module _ (f : StoredChatLine → Option StoredChatLine) where
  row-same :
      (item : Json) (o : Option StoredChatLine) (r : Items × Bool) (thread : Items)
      → (elim o as (λ _. Items × Bool) [
        | none ↦ (cons item r.0, r.1)
        | some next ↦ (cons (to_json next) r.0, true)
      ]).1
        ≡ false
      → (r.1 ≡ false → r.0 ≡ thread)
      → (elim o as (λ _. Items × Bool) [
        | none ↦ (cons item r.0, r.1)
        | some next ↦ (cons (to_json next) r.0, true)
      ]).0
        ≡ cons item thread
  row-same item none r thread e h = ap (cons item) (h e)
  row-same item (some next) r thread e h = absurd (cc)

  items-same :
      (thread : Items) → (patch_items f thread).1 ≡ false → (patch_items f thread).0 ≡ thread
  unfolding patch_items
  items-same nil e = refl
  items-same (cons item thread) e =
      row-same item (and_then (from_json item) f) (patch_items f thread) thread e
        (items-same thread)

  thread-same :
      (k : Text) (v : Json) (o : Option Items) (r : Fields × List Text) (threads : Fields)
      → as_array v ≡ o
      → is_empty
          (elim o as (λ _. Fields × List Text) [
            | none ↦ (field k v r.0, r.1)
            | some thread ↦ (
              field k (array (patch_items f thread).0) r.0,
              if (patch_items f thread).1 then k ∷ r.1 else r.1,
            )
          ]).1
        ≡ true
      → (is_empty r.1 ≡ true → r.0 ≡ threads)
      → (elim o as (λ _. Fields × List Text) [
        | none ↦ (field k v r.0, r.1)
        | some thread ↦ (
          field k (array (patch_items f thread).0) r.0,
          if (patch_items f thread).1 then k ∷ r.1 else r.1,
        )
      ]).0
        ≡ field k v threads
  thread-same k v none r threads a e h = ap (field k v) (h e)
  thread-same k v (some thread) r threads a e h =
      let v_is : v ≡ array thread = some_injective (as_array_of (some v) thread a) in
      elim (Bool-cases (patch_items f thread).1) [
        | inl changed ↦
            absurd (false≢true (ap (λ b. is_empty (if b then k ∷ r.1 else r.1)) (sym changed) ∙ e))
        | inr same ↦
            let first = items-same thread same in
            let rest = h (ap (λ b. is_empty (if b then k ∷ r.1 else r.1)) (sym same) ∙ e) in
            λ i. field k (((ap array first) ∙ sym v_is) i) (rest i)
      ]

  all-same :
      (threads : Fields)
      → is_empty (patch_all_threads f threads).1 ≡ true
      → (patch_all_threads f threads).0 ≡ threads
  unfolding patch_all_threads
  all-same end e = refl
  all-same (field k v threads) e =
      thread-same k v (as_array v) (patch_all_threads f threads) threads refl e (all-same threads)

module _ (contacts : Contacts) (ns m : Text) (s : Store) (q : StoredChatLine → Bool) where
  with-threads :
      (root : Json) (threads next : Fields)
      → threads_of ns root ≡ some threads
      → threads_of ns (with_threads ns next root) ≡ some next
  with-threads (object root) threads next e =
      ap (λ o. and_then o as_object)
        (get-set_at_self ns (object next) (object threads) root
          (as_object_of (Json.get ns root) threads e))
  with-threads Json.null threads next e = absurd (cc)
  with-threads (Json.boolean b) threads next e = absurd (cc)
  with-threads (Json.number z) threads next e = absurd (cc)
  with-threads (Json.real t) threads next e = absurd (cc)
  with-threads (Json.string t) threads next e = absurd (cc)
  with-threads (array xs) threads next e = absurd (cc)

  abbrev patched : Fields → Fields × List Text
  patched = patch_all_threads (with_read_ack_sent (trim m))

  space-patched :
      (o : Option Fields)
      → threads_of ns s.all ≡ o
      → ((threads : Fields) → o ≡ some threads → Threads q (patched threads).0)
      → InSpace q (
          threads_of ns
            (elim o as (λ _. Store × Bool) [
              | none ↦ (s, false)
              | some threads ↦ if is_empty (patched threads).1 then (s, false) else (
                record {
                  all = with_threads ns (patched threads).0 s.all;
                  revisions = bump_all contacts ns (patched threads).1 s.revisions;
                },
                true,
              )
            ]).0.all)
  space-patched none e h = subst (InSpace q) (sym e) tt
  space-patched (some threads) e h = elim (Bool-cases (is_empty (patched threads).1)) [
    | inl none_touched ↦ rw none_touched (
        subst (InSpace q) (sym e) (
          subst (Threads q) (all-same (with_read_ack_sent (trim m)) threads none_touched)
            (h threads refl)))
    | inr some_touched ↦ rw some_touched (
        subst (InSpace q) (sym (with-threads s.all threads (patched threads).0 e)) (h threads refl))
  ]

  patch-InSpace :
      is_empty (trim m) ≡ false
      → ((threads : Fields) → threads_of ns s.all ≡ some threads → Threads q (patched threads).0)
      → InSpace q (threads_of ns (patch_inbound_read_ack_sent contacts ns m s).0.all)
  unfolding patch_inbound_read_ack_sent
  patch-InSpace n h = rw n (space-patched (threads_of ns s.all) refl h)

always : StoredChatLine → Bool
always l = true

always-Every : (ls : List StoredChatLine) → Every always ls
unfolding always
always-Every [] = tt
always-Every (l ∷ ls) = (refl, always-Every ls)

always-Threads : (threads : Fields) → Threads always threads
always-Threads end = tt
always-Threads (field k v threads) = (always-Every (rows_of (as_array v)), always-Threads threads)

-- A receipt acknowledges every row of its message.
pub patch-Acked :
    (contacts : Contacts) (ns m : Text) (s : Store)
    → is_empty (trim m) ≡ false
    → Acked ns (trim m) (patch_inbound_read_ack_sent contacts ns m s).0
patch-Acked contacts ns m s n = patch-InSpace contacts ns m s (acked (trim m)) n (λ threads e.
    patch_all-Threads always (acked (trim m)) (with_read_ack_sent (trim m))
      (with_read_ack_sent-Keeps (trim m)) (λ l h. becomes-acked (trim m) l) threads
      (always-Threads threads))

-- A receipt leaves the rows of other messages as they are.
pub keep-Acked :
    (contacts : Contacts) (ns mid m : Text) (s : Store)
    → Acked ns mid s
    → Acked ns mid (patch_inbound_read_ack_sent contacts ns m s).0
unfolding patch_inbound_read_ack_sent
keep-Acked contacts ns mid m s h = elim (Bool-cases (is_empty (trim m))) [
  | inl blank ↦ rw blank h
  | inr named ↦ patch-InSpace contacts ns m s (acked mid) named (λ threads e.
      patch_all-Threads (acked mid) (acked mid) (with_read_ack_sent (trim m))
        (with_read_ack_sent-Keeps (trim m)) (λ l k. stays-acked mid (trim m) l k) threads
        (subst (InSpace (acked mid)) e h))
]

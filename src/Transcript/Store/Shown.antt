-- ===== src/Transcript/Store/Shown.antt =====
-- What is appended under a key is loaded under that key.
use ghal_bol.Common.{
  ℕ, ◌||◌, ◌≤◌, ◌≡◌, refl, sym, subst, ap, ◌∙◌, inl, inr, Bool, true, false, not, Option, none,
  some, List, [], ◌∷◌, ◌++◌, any, keep_if, if◌then◌else◌, Text, text as lit, text_eq, text_eq_iff,
  eq_of_text, trim, is_empty, Bool-cases, arith,
}
use ghal_bol.Common.Json.{Json, Fields, object}
use ghal_bol.Transcript.Line.{StoredChatLine, from_json, to_json}
use ghal_bol.Transcript.Order.{mid_of}
use ghal_bol.Transcript.Order.Sorted.{InOrder, count}
use ghal_bol.Transcript.Merge.{load_merged_unlocked}
use ghal_bol.Transcript.Merge.Exact.{has_mid, once}
use ghal_bol.Transcript.Merge.Load.{load_merged_exact}
use ghal_bol.Transcript.Patch.{threads_of}
use ghal_bol.Transcript.Keys.{
  Contacts, expand_conversation_keys, set_insert, trimmed_keys, add_names, add_contact, add_some,
  add_legacy_key, add_legacy,
}
use ghal_bol.Transcript.Store.{Store, append_if_new, append_in, load_merged}
use ghal_bol.Transcript.Store.Append.{Stored, append-Stored, included-count}

-- The key is in the set.
abbrev Has : Text → List Text → Type 0
Has k s = any (text_eq k) s ≡ true

Has-append : (k j : Text) (s : List Text) → Has k s → Has k (s ++ (j ∷ []))
Has-append k j [] h = absurd (cc)
Has-append k j (i ∷ s) h = ground (arith, h, Has-append k j s)

Has-last : (k : Text) (s : List Text) → Has k (s ++ (k ∷ []))
Has-last k [] = rw ((text_eq_iff k k).1 refl) refl
Has-last k (i ∷ s) = ground (arith, Has-last k s)

set_insert-Has : (k j : Text) (s : List Text) → Has k s → Has k (set_insert j s)
set_insert-Has k j s h = elim (Bool-cases (any (text_eq j) s)) [
  | inl old ↦ rw old h
  | inr new_key ↦ rw new_key (Has-append k j s h)
]

set_insert-Has_self : (k : Text) (s : List Text) → Has k (set_insert k s)
set_insert-Has_self k s = elim (Bool-cases (any (text_eq k) s)) [
  | inl old ↦ rw old old
  | inr new_key ↦ rw new_key (Has-last k s)
]

keep-Has : (p : Text → Bool) (k : Text) (s : List Text) → p k ≡ true → Has k s → Has k (keep_if p s)
keep-Has p k [] e h = h
keep-Has p k (j ∷ s) e h = elim (Bool-cases (text_eq k j)) [
  | inl same ↦
      let kept : p j ≡ true = subst (λ i. p i ≡ true) ((text_eq_iff k j).0 same) e in
      rw kept (rw same refl)
  | inr other ↦ ground (arith, other, h, keep-Has p k s e)
]

module _ (contacts : Contacts) (k : Text) where
  contact-Has : (o : Option Text) (s : List Text) → Has k s → Has k (add_contact contacts o s)
  contact-Has none s h = h
  contact-Has (some pk) s h = elim (Bool-cases (contacts.is_valid_public_key_hex pk)) [
    | inl valid ↦ rw valid (set_insert-Has k (trim pk) _ (set_insert-Has k (trim pk) s h))
    | inr other ↦ rw other (set_insert-Has k (trim pk) s h)
  ]

  some-Has : (o : Option Text) (s : List Text) → Has k s → Has k (add_some contacts o s)
  some-Has none s h = h
  some-Has (some j) s h = set_insert-Has k j s h

  legacy_key-Has : (o : Option Text) (s : List Text) → Has k s → Has k (add_legacy_key contacts o s)
  legacy_key-Has none s h = h
  legacy_key-Has (some pk) s h =
      some-Has (contacts.legacy_libp2p_peer_id_str_from_public_key_hex pk) (set_insert pk s)
        (set_insert-Has k pk s h)

  legacy-Has : (j : Text) (s : List Text) → Has k s → Has k (add_legacy contacts j s)
  legacy-Has j s h = elim (Bool-cases (contacts.is_valid_public_key_hex j)) [
    | inl valid ↦ rw valid (some-Has (contacts.legacy_libp2p_peer_id_str_from_public_key_hex j) s h)
    | inr other ↦ rw other (legacy_key-Has (contacts.legacy_public_key_from_peer_id_str j) s h)
  ]

  if-Has : (b : Bool) (s t : List Text) → Has k s → Has k t → Has k (if b then s else t)
  if-Has true s t h g = h
  if-Has false s t h g = g

  names-Has : (keys s : List Text) → Has k s → Has k (add_names contacts keys s)
  unfolding add_names
  names-Has [] s h = h
  names-Has (j ∷ keys) s h =
      let i = trim j in
      let by_peer = contact-Has (contacts.find_by_peer_id i) s h in
      names-Has keys _ (
        if-Has (is_empty i || text_eq i (lit "solo")) s _ h
          (legacy-Has i _ (contact-Has (contacts.find_by_public_key i) _ by_peer)))

  -- A key is among its own names.
  key-Has : trim k ≡ k → is_empty k ≡ false → Has k (expand_conversation_keys contacts (k ∷ []))
  unfolding expand_conversation_keys trimmed_keys
  key-Has t n = names-Has (k ∷ []) _ (
      subst (λ i. Has k (if is_empty i then [] else set_insert i [])) (sym t)
        (rw n (set_insert-Has_self k [])))

once_of : (n : ℕ) → 1 ≤ n → once n ≡ 1
once_of n h = ground (arith, h)

module _ (contacts : Contacts) (ns k : Text) (is_trimmed : trim k ≡ k)
    (is_named : is_empty k ≡ false) where
  abbrev Shown : Text → Store → Type 0
  Shown m s =
      (count (has_mid m) (load_merged contacts ns (k ∷ []) none s) ≡ 1)
      × InOrder (load_merged contacts ns (k ∷ []) none s)

  abbrev load_of : Json → List StoredChatLine
  load_of = load_merged_unlocked ns (expand_conversation_keys contacts (k ∷ [])) none

  -- A message of a thread is shown.
  Stored-Shown : (m : Text) (s : Store) → is_empty m ≡ false → Stored ns k m s → Shown m s
  unfolding load_merged
  Stored-Shown m s n h =
      let names = expand_conversation_keys contacts (k ∷ []) in
      let taken =
        keep-Has (λ i. not (is_empty i)) k names (ap not is_named)
          (key-Has contacts k is_trimmed is_named) in
      let merge = load_merged_exact ns names none h.root h.threads h.in_root in
      let included =
        included-count (has_mid m) (keep_if (λ i. not (is_empty i)) names) (trim []) k h.threads
          h.thread taken h.in_threads in
      let is_shown = merge.messages m n ∙ once_of _ (omega (arith, h.held, included)) in
      subst (λ j. (count (has_mid m) (load_of j) ≡ 1) × InOrder (load_of j)) (sym h.is_root)
        (is_shown, merge.ordered)

-- After `append_if_new` into a store whose root is an object, under a key that is not blank and has no space at
-- its ends, of a line with a message id that is read back as it is written, what `load_merged` shows for that
-- key has exactly one line of that message id, and is in the order of the threads. This holds whether the
-- message was there before or not.
pub append_shown :
    (contacts : Contacts) (ns k : Text) (line : StoredChatLine) (root : Fields) (s : Store)
    → s.all ≡ object root
    → trim k ≡ k
    → is_empty k ≡ false
    → is_empty (mid_of line) ≡ false
    → from_json (to_json line) ≡ some line
    → (count
          (has_mid (mid_of line))
          (load_merged contacts ns (k ∷ []) none (append_if_new contacts ns k line s))
        ≡ 1)
      × InOrder (load_merged contacts ns (k ∷ []) none (append_if_new contacts ns k line s))
unfolding append_if_new
append_shown contacts ns k line root s o t n m r =
    let space = ap (threads_of ns) o in
    let stored = append-Stored contacts ns k line r root s o (threads_of ns s.all) (sym space) in
    subst
      (λ i.
        Shown contacts ns k t n (mid_of line)
          (if is_empty i then s else append_in contacts ns k line (threads_of ns s.all) s))
      (sym t) (rw n (Stored-Shown contacts ns k t n (mid_of line) _ m stored))

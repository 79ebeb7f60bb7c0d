-- ===== src/Contacts/Book/BlockedRows.antt =====
-- Rows of blocked contacts, as the changes of a list leave them.
use ghal_bol.Common.{
  ◌≡◌, refl, sym, ap, ◌∙◌, inl, inr, Bool, true, false, ◌&&◌, some, List, [], ◌∷◌, ◌++◌, any, ok,
  All, if◌then◌else◌, Text, text_eq, ◌||◌, trim, Bool-cases,
}
use ghal_bol.Identity.{Keys, Identity, to_wire, both_same}
use ghal_bol.Contacts.Contact.{SavedContact}
use ghal_bol.Contacts.Book.{identity_of, is_contact, update_first, remove_first}
use ghal_bol.Contacts.Book.Calls.{Call, removes, trusts}
use ghal_bol.Contacts.Book.Distinct.{IsNormal}

pub and_or : (x y z : Bool) → x && z ≡ true → x && (y || z) ≡ true
and_or true true z h = refl
and_or true false z h = h
and_or false y z h = h

pub and_first : (x z : Bool) → x && z ≡ true → x ≡ true
and_first true z h = refl
and_first false z h = h

module _ (keys : Keys) (id : Identity) where
  -- A row of the identity that is blocked.
  abbrev pub is_blocked_row : SavedContact → Bool
  is_blocked_row c = is_contact keys (ok id) c && c.is_blocked

  abbrev pub is_blocked_in : List SavedContact → Bool
  is_blocked_in = any is_blocked_row

  -- The call neither removes the identity nor takes its block away.
  abbrev pub Leaves : (Text → Text) → Call → Type 0
  Leaves to_lowercase (removes c) = both_same (identity_of keys c) (ok id) ≡ false
  Leaves to_lowercase (trusts now pk known (some false)) =
      text_eq (to_wire keys id) (to_lowercase (trim pk)) ≡ false
  Leaves to_lowercase _ = Unit

  pub later_blocked :
      (c : SavedContact) (list : List SavedContact)
      → is_blocked_row c ≡ false
      → is_blocked_in (c ∷ list) ≡ true
      → is_blocked_in list ≡ true
  later_blocked c list n b = sym (ap (λ q. if q then true else is_blocked_in list) n) ∙ b

  pub here_blocked :
      (c : SavedContact) (list : List SavedContact)
      → is_blocked_row c ≡ true
      → is_blocked_in (c ∷ list) ≡ true
  here_blocked c list b = rw b refl

  pub front_blocked :
      (c : SavedContact) (list : List SavedContact)
      → is_blocked_in list ≡ true
      → is_blocked_in (c ∷ list) ≡ true
  front_blocked c list b = elim (Bool-cases (is_blocked_row c)) [
    | inl here ↦ rw here refl
    | inr other ↦ rw other b
  ]

  pub update-Blocked :
      (p : SavedContact → Bool) (f : SavedContact → SavedContact) (list : List SavedContact)
      → ((c : SavedContact)
          → IsNormal keys c
          → p c ≡ true
          → is_blocked_row c ≡ true
          → is_blocked_row (f c) ≡ true)
      → All (IsNormal keys) list
      → is_blocked_in list ≡ true
      → is_blocked_in (update_first p f list) ≡ true
  unfolding update_first
  update-Blocked p f [] h n b = b
  update-Blocked p f (c ∷ list) h n b = elim (Bool-cases (p c)) [
    | inl found ↦ elim (Bool-cases (is_blocked_row c)) [
      | inl here ↦ rw found (rw (h c n.0 found here) refl)
      | inr later ↦ rw found (front_blocked (f c) list (later_blocked c list later b))
    ]
    | inr other ↦ elim (Bool-cases (is_blocked_row c)) [
      | inl here ↦ rw other (rw here refl)
      | inr later ↦ rw other (
          front_blocked c (update_first p f list)
            (update-Blocked p f list h n.1 (later_blocked c list later b)))
    ]
  ]

  pub append-Blocked :
      (list more : List SavedContact)
      → is_blocked_in list ≡ true
      → is_blocked_in (list ++ more) ≡ true
  append-Blocked [] more b = absurd (cc)
  append-Blocked (c ∷ list) more b = elim (Bool-cases (is_blocked_row c)) [
    | inl here ↦ rw here refl
    | inr later ↦
        front_blocked c (list ++ more) (append-Blocked list more (later_blocked c list later b))
  ]

  pub remove-Blocked :
      (p : SavedContact → Bool) (list : List SavedContact)
      → ((c : SavedContact) → is_blocked_row c ≡ true → p c ≡ false)
      → is_blocked_in list ≡ true
      → is_blocked_in (remove_first p list) ≡ true
  unfolding remove_first
  remove-Blocked p [] h b = b
  remove-Blocked p (c ∷ list) h b = elim (Bool-cases (is_blocked_row c)) [
    | inl here ↦ rw (h c here) (rw here refl)
    | inr later ↦ elim (Bool-cases (p c)) [
      | inl found ↦ rw found (later_blocked c list later b)
      | inr other ↦ rw other (
          front_blocked c (remove_first p list)
            (remove-Blocked p list h (later_blocked c list later b)))
    ]
  ]

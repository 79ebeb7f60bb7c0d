-- ===== src/Contacts/Book/Distinct.antt =====
-- Each identity is in the address book once.
use ghal_bol.Common.{
  ◌≡◌, refl, ap, inl, inr, Bool, true, false, List, [], ◌∷◌, ◌++◌, map, any, ok, err, Result, All,
  Bool-cases, arith,
}
use ghal_bol.Identity.{Keys, Identity, IdentityError, to_wire, both_same}
use ghal_bol.Identity.Wire.{IsAccepted, identity_eq_sound}
use ghal_bol.Contacts.Contact.{SavedContact}
use ghal_bol.Contacts.Book.{identity_of, is_contact, update_first, remove_first}

pub same_sound : (p q : Result IdentityError Identity) → both_same p q ≡ true → p ≡ q
same_sound (ok x) (ok y) h = ap ok (identity_eq_sound x y h)
same_sound (err e) q h = absurd (cc)
same_sound (ok x) (err e) h = absurd (cc)

abbrev pub Distinct : List (Result IdentityError Identity) → Type 0
Distinct [] = Unit
Distinct (p ∷ ps) = All (λ q. both_same p q ≡ false) ps × Distinct ps

module _ (keys : Keys) where
  abbrev pub ids : List SavedContact → List (Result IdentityError Identity)
  ids = map (identity_of keys)

  -- The row has the wire form of an identity.
  abbrev pub IsNormal : SavedContact → Type 0
  IsNormal c = (id : Identity) × IsAccepted keys id × (c.public_key_hex ≡ to_wire keys id)

  -- Every row has a wire form, and no two have the same identity.
  pub record IsBook (list : List SavedContact) : Type 0 where
    pub normal : All IsNormal list
    pub distinct : Distinct (ids list)

  pub update-ids :
      (p : SavedContact → Bool) (f : SavedContact → SavedContact) (list : List SavedContact)
      → ((c : SavedContact) → p c ≡ true → identity_of keys (f c) ≡ identity_of keys c)
      → ids (update_first p f list) ≡ ids list
  unfolding update_first
  update-ids p f [] h = refl
  update-ids p f (c ∷ list) h = elim (Bool-cases (p c)) [
    | inl found ↦ rw found (ap (λ i. i ∷ ids list) (h c found))
    | inr other ↦ rw other (ap (λ is. identity_of keys c ∷ is) (update-ids p f list h))
  ]

  pub update-Normal :
      (p : SavedContact → Bool) (f : SavedContact → SavedContact) (list : List SavedContact)
      → ((c : SavedContact) → IsNormal c → IsNormal (f c))
      → All IsNormal list
      → All IsNormal (update_first p f list)
  unfolding update_first
  update-Normal p f [] h n = tt
  update-Normal p f (c ∷ list) h n = elim (Bool-cases (p c)) [
    | inl found ↦ rw found (h c n.0, n.1)
    | inr other ↦ rw other (n.0, update-Normal p f list h n.1)
  ]

  removed-All :
      (i : Result IdentityError Identity) (p : SavedContact → Bool) (list : List SavedContact)
      → All (λ q. both_same i q ≡ false) (ids list)
      → All (λ q. both_same i q ≡ false) (ids (remove_first p list))
  unfolding remove_first
  removed-All i p [] h = tt
  removed-All i p (c ∷ list) h = elim (Bool-cases (p c)) [
    | inl found ↦ rw found h.1
    | inr other ↦ rw other (h.0, removed-All i p list h.1)
  ]

  pub remove-IsBook :
      (p : SavedContact → Bool) (list : List SavedContact)
      → All IsNormal list
      → Distinct (ids list)
      → All IsNormal (remove_first p list) × Distinct (ids (remove_first p list))
  unfolding remove_first
  remove-IsBook p [] n d = (tt, tt)
  remove-IsBook p (c ∷ list) n d = elim (Bool-cases (p c)) [
    | inl found ↦ rw found (n.1, d.1)
    | inr other ↦
        let rest = remove-IsBook p list n.1 d.1 in
        rw other ((n.0, rest.0), (removed-All (identity_of keys c) p list d.0, rest.1))
  ]

  append-All :
      (i : Result IdentityError Identity) (c : SavedContact) (list : List SavedContact)
      → both_same i (identity_of keys c) ≡ false
      → All (λ q. both_same i q ≡ false) (ids list)
      → All (λ q. both_same i q ≡ false) (ids (list ++ (c ∷ [])))
  append-All i c [] h a = (h, tt)
  append-All i c (d ∷ list) h a = (a.0, append-All i c list h a.1)

  pub append-Distinct :
      (c : SavedContact) (list : List SavedContact)
      → any (is_contact keys (identity_of keys c)) list ≡ false
      → Distinct (ids list)
      → Distinct (ids (list ++ (c ∷ [])))
  append-Distinct c [] h d = (tt, tt)
  append-Distinct c (e ∷ list) h d = elim (Bool-cases (is_contact keys (identity_of keys c) e)) [
    | inl same ↦ absurd (ground (arith, same, h))
    | inr other ↦ (
      append-All (identity_of keys e) c list other d.0,
      append-Distinct c list (ground (arith, other, h)) d.1,
    )
  ]

  pub append-Normal :
      (c : SavedContact) (list : List SavedContact)
      → IsNormal c
      → All IsNormal list
      → All IsNormal (list ++ (c ∷ []))
  append-Normal c [] n h = (n, tt)
  append-Normal c (e ∷ list) n h = (h.0, append-Normal c list n h.1)

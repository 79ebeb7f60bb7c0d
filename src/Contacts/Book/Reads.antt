-- ===== src/Contacts/Book/Reads.antt =====
-- What a call reads of the rows that the last one wrote.
use ghal_bol.Common.{
  ◌≡◌, refl, sym, subst, ap, ◌∙◌, Bool, true, false, List, [], ◌∷◌, ok, err, All, Text, trim,
}
use ghal_bol.Identity.{Keys, Identity, parse, to_wire, is_valid_public_key_hex}
use ghal_bol.Identity.Wire.{IsLawful, IsAccepted, parse-to_wire, trim-to_wire}
use ghal_bol.Contacts.Contact.{SavedContact}
use ghal_bol.Contacts.Book.{identity_of, reread, read_list}
use ghal_bol.Contacts.Book.Distinct.{Distinct, ids, IsNormal, IsBook}

valid_of :
    (keys : Keys) (s : Text) (id : Identity)
    → parse keys s ≡ ok id
    → is_valid_public_key_hex keys s ≡ true
unfolding is_valid_public_key_hex
valid_of keys s id e = ap (λ o. elim o as (λ _. Bool) [ ok _ ↦ true | err _ ↦ false ]) e

module _ (keys : Keys) (laws : IsLawful keys) (to_lowercase : Text → Text)
    (lower : (id : Identity)
      → IsAccepted keys id
      → to_lowercase (to_wire keys id) ≡ to_wire keys id) where
  key_read :
      (c : SavedContact) (n : IsNormal keys c)
      → to_lowercase (trim c.public_key_hex) ≡ c.public_key_hex
  key_read c (id, a, e) =
      ap (λ k. to_lowercase (trim k)) e
      ∙ ap to_lowercase (trim-to_wire keys laws id)
      ∙ lower id a
      ∙ sym e

  normal-valid :
      (c : SavedContact) → IsNormal keys c → is_valid_public_key_hex keys c.public_key_hex ≡ true
  normal-valid c (id, a, e) =
      valid_of keys c.public_key_hex id (ap (parse keys) e ∙ parse-to_wire keys laws id a)

  pub normal-identity : (c : SavedContact) (n : IsNormal keys c) → identity_of keys c ≡ ok n.0
  normal-identity c (id, a, e) =
      ap (λ k. parse keys (trim k)) e
      ∙ ap (parse keys) (trim-to_wire keys laws id)
      ∙ parse-to_wire keys laws id a

  row_kept :
      (c : SavedContact)
      → IsNormal keys c
      → is_valid_public_key_hex keys (to_lowercase (trim c.public_key_hex)) ≡ true
  row_kept c n = ap (is_valid_public_key_hex keys) (key_read c n) ∙ normal-valid c n

  pub read-cons :
      (c : SavedContact) (list : List SavedContact)
      → IsNormal keys c
      → read_list keys to_lowercase (c ∷ list)
        ≡ reread keys to_lowercase c ∷ read_list keys to_lowercase list
  unfolding read_list
  read-cons c list n = rw (row_kept c n) refl

  pub same_row :
      (c : SavedContact)
      → IsNormal keys c
      → identity_of keys (reread keys to_lowercase c) ≡ identity_of keys c
  same_row c n = ap (λ k. parse keys (trim k)) (key_read c n)

  read-Normal :
      (list : List SavedContact)
      → All (IsNormal keys) list
      → All (IsNormal keys) (read_list keys to_lowercase list)
  unfolding read_list
  read-Normal [] h = tt
  read-Normal (c ∷ list) h =
      rw (row_kept c h.0) ((h.0.0, h.0.1, key_read c h.0 ∙ h.0.2), read-Normal list h.1)

  read-ids :
      (list : List SavedContact)
      → All (IsNormal keys) list
      → ids keys (read_list keys to_lowercase list) ≡ ids keys list
  unfolding read_list
  read-ids [] h = refl
  read-ids (c ∷ list) h =
      rw (row_kept c h.0) (λ i. parse keys (trim (key_read c h.0 i)) ∷ read-ids list h.1 i)

  pub read-IsBook :
      (list : List SavedContact) → IsBook keys list → IsBook keys (read_list keys to_lowercase list)
  read-IsBook list h = record {
    normal = read-Normal list h.normal;
    distinct = subst Distinct (sym (read-ids list h.normal)) h.distinct;
  }

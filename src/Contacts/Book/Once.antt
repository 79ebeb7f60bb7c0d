-- ===== src/Contacts/Book/Once.antt =====
-- Any calls leave each identity in the address book once.
use ghal_bol.Common.{
  ◌≡◌, refl, sym, subst, ap, ◌∙◌, inl, inr, Bool, true, false, Option, none, some, List, [], ◌∷◌,
  ◌++◌, any, ok, err, Result, All, if◌then◌else◌, Text, trim, is_empty, Bool-cases, arith,
}
use ghal_bol.Common.Normal.{trim_idem}
use ghal_bol.Common.Int.{ℤ}
use ghal_bol.Identity.{
  Keys, Identity, IdentityError, parse, to_wire, is_valid_public_key_hex, identity_empty,
  parse_split, split_once, normalize_identity_wire, wire_of,
}
use ghal_bol.Identity.Wire.{IsLawful, IsAccepted, parse-to_wire, parse-Accepted, trim-to_wire}
use ghal_bol.Contacts.Contact.{
  SavedContact, set_or, upserted, previewed, trusted, with_status, left_room, unread_cleared,
}
use ghal_bol.Contacts.Alias.{Sanitized, panics, clean}
use ghal_bol.Contacts.Book.{
  Book, invalid_input, Changed, identity_of, is_contact, update_first, has_contact, has_key, key_of,
  put_row, put_clean, and_clean, upsert_in, remove_in, update_existing, status_in,
}
use ghal_bol.Contacts.Book.Calls.{
  Call, upserts, removes, sets_status, trusts, leaves, previews, clears, step, run, Keeps, if-Keeps,
  KeepsCall, step-Holds,
}
use ghal_bol.Contacts.Book.Distinct.{
  same_sound, Distinct, IsBook, update-ids, update-Normal, remove-IsBook, append-Distinct,
  append-Normal,
}
use ghal_bol.Contacts.Book.Reads.{read-IsBook}

-- What is put in has a key of an identity.
abbrev pub Fits : Keys → Call → Type 0
Fits keys (upserts now c) = is_valid_public_key_hex keys c.public_key_hex ≡ true
Fits keys _ = Unit

module _ (keys : Keys) (laws : IsLawful keys) (to_lowercase : Text → Text)
    (lower : (id : Identity)
      → IsAccepted keys id
      → to_lowercase (to_wire keys id) ≡ to_wire keys id) where
  -- A change of one row that leaves its key.
  update-IsBook :
      (p : SavedContact → Bool) (f : SavedContact → SavedContact) (list : List SavedContact)
      → ((c : SavedContact) → (f c).public_key_hex ≡ c.public_key_hex)
      → IsBook keys list
      → IsBook keys (update_first p f list)
  update-IsBook p f list e h = record {
    normal = update-Normal keys p f list (λ c (id, a, k). (id, a, e c ∙ k)) h.normal;
    distinct =
        subst Distinct
          (sym (update-ids keys p f list (λ c found. ap (λ k. parse keys (trim k)) (e c))))
          h.distinct;
  }

  existing-Keeps :
      (pk : Text) (f : SavedContact → SavedContact) (list : List SavedContact)
      → ((c : SavedContact) → (f c).public_key_hex ≡ c.public_key_hex)
      → IsBook keys list
      → Keeps (IsBook keys) (update_existing pk f list)
  existing-Keeps pk f list e h =
      if-Keeps (IsBook keys) (any (has_key pk) list) _ _ (update-IsBook (has_key pk) f list e h) tt

  cleaned-Keeps :
      (now : ℤ) (pk : Text) (o : Sanitized) (list : List SavedContact)
      → IsBook keys list
      → Keeps (IsBook keys) (elim o as (λ _. Changed) [
        | panics ↦ none
        | clean t ↦ some (ok (update_first (has_key pk) (with_status now t) list))
      ])
  cleaned-Keeps now pk panics list h = tt
  cleaned-Keeps now pk (clean t) list h =
      update-IsBook (has_key pk) (with_status now t) list (λ c. refl) h

  status-Keeps :
      (now : ℤ) (pk : Text) (s : Option Text) (list : List SavedContact)
      → IsBook keys list
      → Keeps (IsBook keys) (status_in now pk s list)
  unfolding status_in
  status-Keeps now pk s list h =
      if-Keeps (IsBook keys) (any (has_key pk) list) _ _ (cleaned-Keeps now pk (and_clean s) list h)
        tt

  previewed-key :
      (now : ℤ) (preview : Text) (mark : Bool) (at : ℤ) (c : SavedContact)
      → (previewed now preview mark at c).public_key_hex ≡ c.public_key_hex
  unfolding previewed
  previewed-key now preview mark at c = ground arith

  parse-trim : (s : Text) → parse keys (trim s) ≡ parse keys s
  unfolding parse
  parse-trim s =
      ap (λ t. if is_empty t then err identity_empty else parse_split keys t (split_once 58 t))
        (trim_idem s)

  pub upserted-identity :
      (now : ℤ) (contact : SavedContact) (id : Identity) (alias status : Option Text → Option Text)
      (c : SavedContact)
      → IsAccepted keys id
      → identity_of keys (upserted now contact (to_wire keys id) alias status c) ≡ ok id
  upserted-identity now contact id alias status c a =
      ap (parse keys) (trim-to_wire keys laws id) ∙ parse-to_wire keys laws id a

  put-IsBook :
      (now : ℤ) (contact : SavedContact) (id : Identity) (alias status : Option Text → Option Text)
      (list : List SavedContact)
      → IsAccepted keys id
      → identity_of keys contact ≡ ok id
      → is_valid_public_key_hex keys contact.public_key_hex ≡ true
      → IsBook keys list
      → IsBook keys (
          if has_contact keys contact list
          then update_first
              (is_contact keys (identity_of keys contact))
              (upserted now contact (to_wire keys id) alias status)
              list
          else list ++ (upserted now contact (to_wire keys id) alias status contact ∷ []))
  put-IsBook now contact id alias status list a e v h =
      let next = upserted now contact (to_wire keys id) alias status in
      let same : (c : SavedContact) → identity_of keys (next c) ≡ identity_of keys contact =
        λ c. upserted-identity now contact id alias status c a ∙ sym e in
      elim (Bool-cases (any (is_contact keys (identity_of keys contact)) list)) [
        | inl found ↦
            rw (v, found)
              (record {
                normal =
                    update-Normal keys (is_contact keys (identity_of keys contact)) next list
                      (λ c n. (id, a, refl)) h.normal;
                distinct =
                    subst Distinct
                      (sym (
                        update-ids keys (is_contact keys (identity_of keys contact)) next list
                          (λ c p. same c ∙ sym (same_sound _ _ p))))
                      h.distinct;
              })
        | inr fresh ↦
            rw (v, fresh)
              (record {
                normal = append-Normal keys (next contact) list (id, a, refl) h.normal;
                distinct =
                    append-Distinct keys (next contact) list
                      (ap (λ i. any (is_contact keys i) list) (same contact) ∙ fresh) h.distinct;
              })
      ]

  put_row-Keeps :
      (now : ℤ) (contact : SavedContact) (id : Identity)
      (alias status : Option (Option Text → Option Text)) (list : List SavedContact)
      → IsAccepted keys id
      → identity_of keys contact ≡ ok id
      → is_valid_public_key_hex keys contact.public_key_hex ≡ true
      → IsBook keys list
      → Keeps (IsBook keys) (put_row keys now contact (to_wire keys id) alias status list)
  put_row-Keeps now contact id (some alias) (some status) list a e v h =
      put-IsBook now contact id alias status list a e v h
  put_row-Keeps now contact id (some alias) none list a e v h = tt
  put_row-Keeps now contact id none status list a e v h = tt

  identity_there :
      (o : Result IdentityError Identity)
      → elim o as (λ _. Bool) [ ok _ ↦ true | err _ ↦ false ] ≡ true
      → (id : Identity) × (o ≡ ok id)
  identity_there (ok id) h = (id, refl)
  identity_there (err e) h = absurd (cc)

  valid_identity :
      (s : Text) → is_valid_public_key_hex keys s ≡ true → (id : Identity) × (parse keys s ≡ ok id)
  unfolding is_valid_public_key_hex
  valid_identity s h = identity_there (parse keys s) h

  -- An upsert with a valid key puts a row with the wire form of its identity.
  pub upsert_with :
      (Q : Changed → Type 0) (now : ℤ) (contact : SavedContact) (list : List SavedContact)
      → is_valid_public_key_hex keys contact.public_key_hex ≡ true
      → ((id : Identity)
          → IsAccepted keys id
          → identity_of keys contact ≡ ok id
          → Q (
              put_row keys now contact
                (to_wire keys id)
                (put_clean contact.display_alias)
                (put_clean contact.availability_status)
                list))
      → Q (upsert_in keys now contact list)
  unfolding upsert_in normalize_identity_wire
  upsert_with Q now contact list v h =
      let (id, e) = valid_identity contact.public_key_hex v in
      let e' : identity_of keys contact ≡ ok id = parse-trim contact.public_key_hex ∙ e in
      let key : key_of keys contact ≡ ok (to_wire keys id) = rw v (ap (wire_of keys) e') in
      subst
        (λ k. Q (elim k as (λ _. Changed) [
          | err e ↦ some (err invalid_input)
          | ok key ↦
              put_row keys now contact key (put_clean contact.display_alias)
                (put_clean contact.availability_status) list
        ]))
        (sym key) (h id (parse-Accepted keys laws contact.public_key_hex id e) e')

  upsert-Keeps :
      (now : ℤ) (contact : SavedContact) (list : List SavedContact)
      → is_valid_public_key_hex keys contact.public_key_hex ≡ true
      → IsBook keys list
      → Keeps (IsBook keys) (upsert_in keys now contact list)
  upsert-Keeps now contact list v h =
      upsert_with (Keeps (IsBook keys)) now contact list v (λ id a e.
        put_row-Keeps now contact id (put_clean contact.display_alias)
          (put_clean contact.availability_status) list a e v h)

  remove-Keeps :
      (contact : SavedContact) (list : List SavedContact)
      → IsBook keys list
      → Keeps (IsBook keys) (remove_in keys contact list)
  unfolding remove_in
  remove-Keeps contact list h =
      let gone =
        remove-IsBook keys (is_contact keys (identity_of keys contact)) list h.normal h.distinct in
      elim (Bool-cases (has_contact keys contact list)) [
        | inl found ↦ rw found (record { normal = gone.0; distinct = gone.1 })
        | inr other ↦ rw other h
      ]

  -- What is kept of an address book in one call.
  pub call-Keeps :
      (c : Call) (list : List SavedContact)
      → Fits keys c
      → IsBook keys list
      → KeepsCall keys to_lowercase (IsBook keys) (read-IsBook keys laws to_lowercase lower) c list
  call-Keeps (upserts now c) list f h = upsert-Keeps now c list f h
  call-Keeps (removes c) list f h = remove-Keeps c list h
  call-Keeps (sets_status now pk s) list f h = status-Keeps now (to_lowercase (trim pk)) s list h
  call-Keeps (trusts now pk known blocked) list f h =
      existing-Keeps (to_lowercase (trim pk)) (trusted now known blocked) list (λ c. refl) h
  call-Keeps (leaves pk at) list f h =
      update-IsBook (has_key (to_lowercase (trim pk))) (left_room at) list (λ c. refl) h
  call-Keeps (previews now pk preview mark at) list f h =
      update-IsBook (has_key (to_lowercase (trim pk))) (previewed now preview mark (set_or at now))
        list (previewed-key now preview mark (set_or at now)) h
  call-Keeps (clears now pk) list f h =
      update-IsBook (has_key (to_lowercase (trim pk))) (unread_cleared now) list (λ c. refl) h

  pub step-IsBook :
      (c : Call) (b : Book)
      → Fits keys c
      → IsBook keys b.contacts
      → IsBook keys (step keys to_lowercase c b).contacts
  step-IsBook c b f =
      step-Holds keys to_lowercase (IsBook keys) (read-IsBook keys laws to_lowercase lower) c b
        (λ list. call-Keeps c list f)

  -- After any calls whose upserts have a key of an identity, every row of the address book has the wire
  -- form of an identity, and no two rows have the same one.
  pub run-IsBook :
      (cs : List Call) (b : Book)
      → All (Fits keys) cs
      → IsBook keys b.contacts
      → IsBook keys (run keys to_lowercase cs b).contacts
  unfolding run
  run-IsBook [] b f h = h
  run-IsBook (c ∷ cs) b f h = run-IsBook cs (step keys to_lowercase c b) f.1 (step-IsBook c b f.0 h)

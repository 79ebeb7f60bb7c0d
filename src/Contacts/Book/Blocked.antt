-- ===== src/Contacts/Book/Blocked.antt =====
-- Who is blocked stays blocked.
use ghal_bol.Common.{
  ◌≡◌, refl, sym, subst, ap, ◌∙◌, inl, inr, Bool, true, false, ◌&&◌, Option, none, some, List, [],
  ◌∷◌, any, ok, err, ok_injective, All, Text, text_eq, text_eq_iff, ◌||◌, trim, Bool-cases,
}
use mathlib.Core.Bool.{false≢true}
use ghal_bol.Common.Int.{ℤ, ltb_ℤ}
use ghal_bol.Identity.{Keys, Identity, IdentityError, to_wire, both_same}
use ghal_bol.Identity.Wire.{IsLawful, IsAccepted}
use ghal_bol.Contacts.Contact.{
  SavedContact, set_or, upserted, previewed, trusted, with_status, left_room, unread_cleared,
}
use ghal_bol.Contacts.Alias.{Sanitized, panics, clean}
use ghal_bol.Contacts.Book.{
  Book, Changed, identity_of, is_contact, reread, read_list, update_first, has_contact, has_key,
  put_row, put_clean, and_clean, upsert_in, remove_in, update_existing, status_in,
}
use ghal_bol.Contacts.Book.Calls.{
  Call, upserts, removes, sets_status, trusts, leaves, previews, clears, step, run, Keeps, if-Keeps,
  KeepsCall, step-Holds,
}
use ghal_bol.Contacts.Book.Distinct.{same_sound, IsNormal, IsBook}
use ghal_bol.Contacts.Book.Reads.{read-IsBook, read-cons, same_row, normal-identity}
use ghal_bol.Contacts.Book.Once.{Fits, upsert_with, upserted-identity, call-Keeps}
use ghal_bol.Contacts.Book.BlockedRows.{
  and_or, and_first, is_blocked_row, is_blocked_in, Leaves, later_blocked, here_blocked,
  front_blocked, update-Blocked, append-Blocked, remove-Blocked,
}

module _ (keys : Keys) (laws : IsLawful keys) (to_lowercase : Text → Text)
    (lower : (id : Identity)
      → IsAccepted keys id
      → to_lowercase (to_wire keys id) ≡ to_wire keys id)
    (id : Identity) where
  abbrev Blocked : List SavedContact → Type 0
  Blocked list = is_blocked_in keys id list ≡ true

  abbrev Holds : List SavedContact → Type 0
  Holds list = IsBook keys list × Blocked list

  read-Blocked :
      (list : List SavedContact)
      → All (IsNormal keys) list
      → Blocked list
      → Blocked (read_list keys to_lowercase list)
  read-Blocked [] n b = absurd (cc)
  read-Blocked (c ∷ list) n b =
      subst Blocked (sym (read-cons keys laws to_lowercase lower c list n.0))
        (elim (Bool-cases (is_blocked_row keys id c)) [
          | inl here ↦
              here_blocked keys id (reread keys to_lowercase c) (read_list keys to_lowercase list) (
                ap (λ i. both_same i (ok id) && c.is_blocked)
                  (same_row keys laws to_lowercase lower c n.0)
                ∙ here)
          | inr other ↦
              front_blocked keys id (reread keys to_lowercase c) (read_list keys to_lowercase list)
                (read-Blocked list n.1 (later_blocked keys id c list other b))
        ])

  reads : (list : List SavedContact) → Holds list → Holds (read_list keys to_lowercase list)
  reads list h =
      (read-IsBook keys laws to_lowercase lower list h.0, read-Blocked list h.0.normal h.1)

  both-Keeps : (o : Changed) → Keeps (IsBook keys) o → Keeps Blocked o → Keeps Holds o
  both-Keeps none h k = tt
  both-Keeps (some (err e)) h k = tt
  both-Keeps (some (ok list)) h k = (h, k)

  -- A change of rows by key that leaves keys and blocks.
  row-Blocked :
      (p : SavedContact → Bool) (f : SavedContact → SavedContact) (list : List SavedContact)
      → ((c : SavedContact) → is_blocked_row keys id (f c) ≡ is_blocked_row keys id c)
      → Holds list
      → Blocked (update_first p f list)
  row-Blocked p f list e h = update-Blocked keys id p f list (λ c n found b. e c ∙ b) h.0.normal h.1

  put_row-Blocked :
      (now : ℤ) (contact : SavedContact) (i : Identity)
      (alias status : Option (Option Text → Option Text)) (list : List SavedContact)
      → IsAccepted keys i
      → identity_of keys contact ≡ ok i
      → Holds list
      → Keeps Blocked (put_row keys now contact (to_wire keys i) alias status list)
  put_row-Blocked now contact i (some alias) (some status) list a e h =
      elim (Bool-cases (has_contact keys contact list)) [
        | inl found ↦ rw found (
            update-Blocked keys id (is_contact keys (identity_of keys contact))
              (upserted now contact (to_wire keys i) alias status) list
              (λ c n same b.
                let next =
                  upserted-identity keys laws to_lowercase lower now contact i alias status c a in
                ap (λ q. both_same q (ok id) && (contact.is_blocked || c.is_blocked))
                  (next ∙ sym (same_sound _ _ same ∙ e))
                ∙ and_or (is_contact keys (ok id) c) contact.is_blocked c.is_blocked b)
              h.0.normal h.1)
        | inr fresh ↦ rw fresh (
            append-Blocked keys id list
              (upserted now contact (to_wire keys i) alias status contact ∷ []) h.1)
      ]
  put_row-Blocked now contact i (some alias) none list a e h = tt
  put_row-Blocked now contact i none status list a e h = tt

  -- The row with the key of another identity is not that of the identity.
  other_key :
      (k : Text) (c : SavedContact)
      → text_eq (to_wire keys id) k ≡ false
      → IsNormal keys c
      → has_key k c ≡ true
      → is_blocked_row keys id c ≡ true
      → ⊥
  other_key k c other n found b =
      let same : identity_of keys c ≡ ok id =
        same_sound (identity_of keys c) (ok id)
          (and_first (is_contact keys (ok id) c) c.is_blocked b) in
      let one : n.0 ≡ id =
        ok_injective {E = IdentityError}
          (sym (normal-identity keys laws to_lowercase lower c n) ∙ same) in
      let key : to_wire keys id ≡ k =
        ap (to_wire keys) (sym one) ∙ sym n.2 ∙ (text_eq_iff c.public_key_hex k).0 found in
      false≢true (sym other ∙ (text_eq_iff (to_wire keys id) k).1 key)

  trusted-Blocked :
      (now : ℤ) (k : Text) (known blocked : Option Bool) (c : SavedContact)
      → (blocked ≡ some false → text_eq (to_wire keys id) k ≡ false)
      → IsNormal keys c
      → has_key k c ≡ true
      → is_blocked_row keys id c ≡ true
      → is_blocked_row keys id (trusted now known blocked c) ≡ true
  trusted-Blocked now k known none c l n found b = b
  trusted-Blocked now k known (some true) c l n found b =
      and_or (is_contact keys (ok id) c) true c.is_blocked b
  trusted-Blocked now k known (some false) c l n found b = absurd (other_key k c (l refl) n found b)

  previewed-Blocked :
      (now : ℤ) (preview : Text) (mark : Bool) (at : ℤ) (c : SavedContact)
      → is_blocked_row keys id (previewed now preview mark at c) ≡ is_blocked_row keys id c
  unfolding previewed
  previewed-Blocked now preview mark at c =
      let late = elim c.last_message_at_ms as (λ _. Bool) [ none ↦ false | some t ↦ ltb_ℤ at t ] in
      elim (Bool-cases late) [
        | inl l ↦ elim (Bool-cases mark) [ inl m ↦ rw l (rw m refl) | inr m ↦ rw l (rw m refl) ]
        | inr l ↦ rw l refl
      ]

  cleaned-Blocked :
      (now : ℤ) (k : Text) (o : Sanitized) (list : List SavedContact)
      → Holds list
      → Keeps Blocked (elim o as (λ _. Changed) [
        | panics ↦ none
        | clean t ↦ some (ok (update_first (has_key k) (with_status now t) list))
      ])
  cleaned-Blocked now k panics list h = tt
  cleaned-Blocked now k (clean t) list h =
      row-Blocked (has_key k) (with_status now t) list (λ c. refl) h

  status-Blocked :
      (now : ℤ) (k : Text) (s : Option Text) (list : List SavedContact)
      → Holds list
      → Keeps Blocked (status_in now k s list)
  unfolding status_in
  status-Blocked now k s list h =
      if-Keeps Blocked (any (has_key k) list) _ _ (cleaned-Blocked now k (and_clean s) list h) tt

  trust-Blocked :
      (now : ℤ) (k : Text) (known blocked : Option Bool) (list : List SavedContact)
      → (blocked ≡ some false → text_eq (to_wire keys id) k ≡ false)
      → Holds list
      → Keeps Blocked (update_existing k (trusted now known blocked) list)
  trust-Blocked now k known blocked list l h =
      if-Keeps Blocked (any (has_key k) list) _ _
        (update-Blocked keys id (has_key k) (trusted now known blocked) list
          (λ c. trusted-Blocked now k known blocked c l) h.0.normal h.1)
        tt

  other_identity :
      (contact c : SavedContact)
      → both_same (identity_of keys contact) (ok id) ≡ false
      → is_blocked_row keys id c ≡ true
      → is_contact keys (identity_of keys contact) c ≡ false
  other_identity contact c other b =
      elim (Bool-cases (is_contact keys (identity_of keys contact) c)) [
        | inl same ↦ absurd (
            false≢true (
              sym other
              ∙ ap (λ q. both_same q (ok id)) (sym (same_sound _ _ same))
              ∙ and_first (is_contact keys (ok id) c) c.is_blocked b))
        | inr apart ↦ apart
      ]

  removed-Blocked :
      (contact : SavedContact) (list : List SavedContact)
      → both_same (identity_of keys contact) (ok id) ≡ false
      → Holds list
      → Keeps Blocked (remove_in keys contact list)
  unfolding remove_in
  removed-Blocked contact list other h = elim (Bool-cases (has_contact keys contact list)) [
    | inl found ↦ rw found (
        remove-Blocked keys id (is_contact keys (identity_of keys contact)) list
          (λ c. other_identity contact c other) h.1)
    | inr fresh ↦ rw fresh h.1
  ]

  call-Blocked :
      (c : Call) (list : List SavedContact)
      → Fits keys c
      → Leaves keys id to_lowercase c
      → Holds list
      → KeepsCall keys to_lowercase Holds reads c list
  call-Blocked (upserts now c) list f l h =
      both-Keeps (upsert_in keys now c list)
        (call-Keeps keys laws to_lowercase lower (upserts now c) list f h.0)
        (upsert_with keys laws to_lowercase lower (Keeps Blocked) now c list f (λ i a e.
          put_row-Blocked now c i (put_clean c.display_alias) (put_clean c.availability_status) list
            a e h))
  call-Blocked (removes c) list f l h =
      both-Keeps (remove_in keys c list)
        (call-Keeps keys laws to_lowercase lower (removes c) list f h.0)
        (removed-Blocked c list l h)
  call-Blocked (sets_status now pk s) list f l h =
      both-Keeps (status_in now (to_lowercase (trim pk)) s list)
        (call-Keeps keys laws to_lowercase lower (sets_status now pk s) list f h.0)
        (status-Blocked now (to_lowercase (trim pk)) s list h)
  call-Blocked (trusts now pk known none) list f l h =
      both-Keeps (update_existing (to_lowercase (trim pk)) (trusted now known none) list)
        (call-Keeps keys laws to_lowercase lower (trusts now pk known none) list f h.0)
        (trust-Blocked now (to_lowercase (trim pk)) known none list (λ e. absurd (cc)) h)
  call-Blocked (trusts now pk known (some true)) list f l h =
      both-Keeps (update_existing (to_lowercase (trim pk)) (trusted now known (some true)) list)
        (call-Keeps keys laws to_lowercase lower (trusts now pk known (some true)) list f h.0)
        (trust-Blocked now (to_lowercase (trim pk)) known (some true) list (λ e. absurd (cc)) h)
  call-Blocked (trusts now pk known (some false)) list f l h =
      both-Keeps (update_existing (to_lowercase (trim pk)) (trusted now known (some false)) list)
        (call-Keeps keys laws to_lowercase lower (trusts now pk known (some false)) list f h.0)
        (trust-Blocked now (to_lowercase (trim pk)) known (some false) list (λ e. l) h)
  call-Blocked (leaves pk at) list f l h = (
    call-Keeps keys laws to_lowercase lower (leaves pk at) list f h.0,
    row-Blocked (has_key (to_lowercase (trim pk))) (left_room at) list (λ c. refl) h,
  )
  call-Blocked (previews now pk preview mark at) list f l h = (
    call-Keeps keys laws to_lowercase lower (previews now pk preview mark at) list f h.0,
    row-Blocked (has_key (to_lowercase (trim pk))) (previewed now preview mark (set_or at now)) list
        (previewed-Blocked now preview mark (set_or at now)) h,
  )
  call-Blocked (clears now pk) list f l h = (
    call-Keeps keys laws to_lowercase lower (clears now pk) list f h.0,
    row-Blocked (has_key (to_lowercase (trim pk))) (unread_cleared now) list (λ c. refl) h,
  )

  run-Holds :
      (cs : List Call) (b : Book)
      → All (Fits keys) cs
      → All (Leaves keys id to_lowercase) cs
      → Holds b.contacts
      → Holds (run keys to_lowercase cs b).contacts
  unfolding run
  run-Holds [] b f l h = h
  run-Holds (c ∷ cs) b f l h =
      run-Holds cs (step keys to_lowercase c b) f.1 l.1
        (step-Holds keys to_lowercase Holds reads c b (λ list. call-Blocked c list f.0 l.0) h)

  -- In a book with one row for each identity, a blocked contact stays blocked over any calls whose upserts have
  -- a valid key, upserts with other marks included, as long as no call removes it or sets its block to false.
  pub stays_blocked :
      (cs : List Call) (b : Book)
      → All (Fits keys) cs
      → All (Leaves keys id to_lowercase) cs
      → IsBook keys b.contacts
      → is_blocked_in keys id b.contacts ≡ true
      → is_blocked_in keys id (run keys to_lowercase cs b).contacts ≡ true
  stays_blocked cs b f l h k = (run-Holds cs b f l (h, k)).1

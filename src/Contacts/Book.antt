-- ===== src/Contacts/Book.antt =====
-- The address book of one namespace: ghalbol_core/src/contacts_v1.rs, whose operations read the file, change the
-- list and write it. What a call finds is what the last one wrote, as `from_json` reads it. A panic while
-- the lock is held poisons it.
pub mod Distinct
pub mod Calls
pub mod Reads
pub mod Once
pub mod BlockedRows
pub mod Blocked
use ghal_bol.Common.{
  ℕ, ◌+◌, ◌-◌, ◌%◌, ◌^◌, min, Bool, true, false, not, ◌&&◌, ◌||◌, Option, none, some, List, [], ◌∷◌,
  ◌++◌, ltb, leb, length, take, map, any, keep_if, ok, err, Result, if◌then◌else◌, Text, text_eq,
  trim, is_empty,
}
use ghal_bol.Common.Int.{ℤ, pos, leb_ℤ, ltb_ℤ}
use ghal_bol.Identity.{
  Keys, Identity, IdentityError, parse, is_valid_public_key_hex, normalize_identity_wire, both_same,
}
use ghal_bol.Contacts.Contact.{
  SavedContact, is_some, or, set_or, previewed, upserted, trusted, with_status, left_room,
  unread_cleared, one_more, truncate_preview,
}
use ghal_bol.Contacts.Alias.{Sanitized, panics, clean, sanitize_peer_display_alias}

pub data ContactsError : Type 0 where
  poisoned_lock invalid_input not_found : ContactsError

pub record Book : Type 0 where
  pub contacts : List SavedContact
  pub poisoned : Bool
  pub version : ℕ

-- What a change of the list comes to; `none` is a panic.
abbrev pub Changed : Type 0
Changed = Option (Result ContactsError (List SavedContact))

-- The answer of a call; `none` is a panic.
abbrev pub Answered : Type 0
Answered = Option (Result ContactsError (Unit {0}))

abbrev pub Answer : Type 0
Answer = Answered × Book

-- `list.iter().position(p)` and the write to that place.
unfoldable pub update_first :
    (SavedContact → Bool) → (SavedContact → SavedContact) → List SavedContact → List SavedContact
update_first p f [] = []
update_first p f (c ∷ list) = if p c then f c ∷ list else c ∷ update_first p f list

unfoldable pub remove_first : (SavedContact → Bool) → List SavedContact → List SavedContact
remove_first p [] = []
remove_first p (c ∷ list) = if p c then list else c ∷ remove_first p list

abbrev pub has_key : Text → SavedContact → Bool
has_key pk c = text_eq c.public_key_hex pk

-- The rows that are found by their key as it stands; the row must be there.
abbrev pub update_existing : Text → (SavedContact → SavedContact) → List SavedContact → Changed
update_existing pk f list =
    if any (has_key pk) list
    then some (ok (update_first (has_key pk) f list))
    else some (err not_found)

-- The row need not be there.
abbrev pub update_if_there : Text → (SavedContact → SavedContact) → List SavedContact → Changed
update_if_there pk f list = some (ok (update_first (has_key pk) f list))

-- `status.and_then(sanitize_peer_display_alias)`.
abbrev pub and_clean : Option Text → Sanitized
and_clean none = clean none
and_clean (some s) = sanitize_peer_display_alias s

unfoldable pub status_in : ℤ → Text → Option Text → List SavedContact → Changed
status_in now pk status list =
    if any (has_key pk) list
    then elim (and_clean status) as (λ _. Changed) [
      | panics ↦ none
      | clean t ↦ some (ok (update_first (has_key pk) (with_status now t) list))
    ]
    else some (err not_found)

-- The field after a text for it was cleaned: as it was, or new.
abbrev pub put_clean : Option Text → Option (Option Text → Option Text)
put_clean none = some (λ kept. kept)
put_clean (some s) =
    elim (sanitize_peer_display_alias s) as (λ _. Option (Option Text → Option Text)) [
      | panics ↦ none
      | clean t ↦ some (λ _. t)
    ]

-- The write of what a change came to, under the lock.
abbrev pub stored : Changed → Book → Answer
stored none b = (none, record b { poisoned = true })
stored (some (err e)) b = (some (err e), b)
stored (some (ok list)) b =
    (some (ok tt), record { contacts = list; poisoned = false; version = (b.version + 1) % 2 ^ 64 })

module _ (keys : Keys) where
  abbrev pub identity_of : SavedContact → Result IdentityError Identity
  identity_of c = parse keys (trim c.public_key_hex)

  -- `is_some_and(|id| id == target)`.
  abbrev pub is_contact : Result IdentityError Identity → SavedContact → Bool
  is_contact target c = both_same (identity_of c) target

  -- `index_of` finds a contact by its identity.
  abbrev pub has_contact : SavedContact → List SavedContact → Bool
  has_contact contact list =
      is_valid_public_key_hex keys contact.public_key_hex
      && any (is_contact (identity_of contact)) list

  -- The key in the upsert: the normal form of a valid one, else that of the row itself.
  abbrev pub key_of : SavedContact → Result IdentityError Text
  key_of contact =
      if is_valid_public_key_hex keys contact.public_key_hex
      then normalize_identity_wire keys (trim contact.public_key_hex)
      else ok contact.public_key_hex

  abbrev pub put_row :
      ℤ
      → SavedContact
      → Text
      → Option (Option Text → Option Text)
      → Option (Option Text → Option Text)
      → List SavedContact
      → Changed
  put_row now contact key (some alias) (some status) list =
      let next = upserted now contact key alias status in
      some (
        ok (
          if has_contact contact list
          then update_first (is_contact (identity_of contact)) next list
          else list ++ (next contact ∷ [])))
  put_row now contact key _ _ list = none

  unfoldable pub upsert_in : ℤ → SavedContact → List SavedContact → Changed
  upsert_in now contact list = elim (key_of contact) as (λ _. Changed) [
    | err e ↦ some (err invalid_input)
    | ok key ↦
        put_row now contact key (put_clean contact.display_alias)
          (put_clean contact.availability_status) list
  ]

  unfoldable pub remove_in : SavedContact → List SavedContact → Changed
  remove_in contact list = some (
      ok (
        if has_contact contact list
        then remove_first (is_contact (identity_of contact)) list
        else list))

module _ (keys : Keys) (to_lowercase : Text → Text) where
  -- The row that `from_json` reads of what `to_json` wrote.
  abbrev pub reread : SavedContact → SavedContact
  reread c = record c {
    public_key_hex = to_lowercase (trim c.public_key_hex);
    unread_count = min c.unread_count 9999;
  }

  -- `read_all` of what was written; a row whose key is no key is left out.
  unfoldable pub read_list : List SavedContact → List SavedContact
  read_list [] = []
  read_list (c ∷ list) =
      let rest = read_list list in
      if is_valid_public_key_hex keys (to_lowercase (trim c.public_key_hex))
      then reread c ∷ rest
      else rest

  -- `with_store`.
  unfoldable pub with_store : (List SavedContact → Changed) → Book → Answer
  with_store f b =
      if b.poisoned then (some (err poisoned_lock), b) else stored (f (read_list b.contacts)) b

  -- The key of a call, and what it answers without the lock where it is none.
  abbrev pub on_key : Text → Answered → (Text → List SavedContact → Changed) → Book → Answer
  on_key public_key_hex refused f b =
      let pk = to_lowercase (trim public_key_hex) in
      if is_valid_public_key_hex keys pk then with_store (f pk) b else (refused, b)

  unfoldable pub upsert_contact : ℤ → SavedContact → Book → Answer
  upsert_contact now contact = with_store (upsert_in keys now contact)

  unfoldable pub remove_contact : SavedContact → Book → Answer
  remove_contact contact = with_store (remove_in keys contact)

  unfoldable pub set_contact_availability_status : ℤ → Text → Option Text → Book → Answer
  set_contact_availability_status now public_key_hex status =
      on_key public_key_hex (some (err invalid_input)) (λ pk. status_in now pk status)

  unfoldable pub set_contact_trust : ℤ → Text → Option Bool → Option Bool → Book → Answer
  set_contact_trust now public_key_hex is_known is_blocked =
      on_key public_key_hex (some (err invalid_input))
        (λ pk. update_existing pk (trusted now is_known is_blocked))

  unfoldable pub sync_chat_room_exit_at_ms : Text → ℤ → Book → Answer
  sync_chat_room_exit_at_ms public_key_hex at_ms b =
      if leb_ℤ at_ms (pos 0)
      then (some (ok tt), b)
      else on_key public_key_hex (some (ok tt)) (λ pk. update_if_there pk (left_room at_ms)) b

  unfoldable pub record_inbound_preview : ℤ → Text → Text → Bool → Option ℤ → Book → Answer
  record_inbound_preview now public_key_hex preview mark_unread message_at_ms =
      on_key public_key_hex (some (ok tt))
        (λ pk. update_if_there pk (previewed now preview mark_unread (set_or message_at_ms now)))

  unfoldable pub clear_unread : ℤ → Text → Book → Answer
  clear_unread now public_key_hex =
      on_key public_key_hex (some (ok tt)) (λ pk. update_if_there pk (unread_cleared now))

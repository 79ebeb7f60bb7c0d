-- ===== src/Contacts/Book/Calls.antt =====
-- The calls of the address book, and what each keeps that its change of the list keeps.
use ghal_bol.Common.{
  Bool, true, false, Option, none, some, List, [], ◌∷◌, ok, err, Result, if◌then◌else◌, Text, trim,
}
use ghal_bol.Common.Int.{ℤ, pos, leb_ℤ}
use ghal_bol.Identity.{Keys, is_valid_public_key_hex}
use ghal_bol.Contacts.Contact.{SavedContact, set_or, previewed, trusted, left_room, unread_cleared}
use ghal_bol.Contacts.Book.{
  Book, ContactsError, Changed, Answer, read_list, stored, with_store, on_key, upsert_in, remove_in,
  update_existing, update_if_there, status_in, upsert_contact, remove_contact, set_contact_trust,
  set_contact_availability_status, sync_chat_room_exit_at_ms, record_inbound_preview, clear_unread,
}

pub data Call : Type 0 where
  upserts : ℤ → SavedContact → Call
  removes : SavedContact → Call
  sets_status : ℤ → Text → Option Text → Call
  trusts : ℤ → Text → Option Bool → Option Bool → Call
  leaves : Text → ℤ → Call
  previews : ℤ → Text → Text → Bool → Option ℤ → Call
  clears : ℤ → Text → Call

module _ (keys : Keys) (to_lowercase : Text → Text) where
  unfoldable pub step : Call → Book → Book
  step (upserts now c) b = (upsert_contact keys to_lowercase now c b).1
  step (removes c) b = (remove_contact keys to_lowercase c b).1
  step (sets_status now pk s) b = (set_contact_availability_status keys to_lowercase now pk s b).1
  step (trusts now pk known blocked) b =
      (set_contact_trust keys to_lowercase now pk known blocked b).1
  step (leaves pk at) b = (sync_chat_room_exit_at_ms keys to_lowercase pk at b).1
  step (previews now pk preview mark at) b =
      (record_inbound_preview keys to_lowercase now pk preview mark at b).1
  step (clears now pk) b = (clear_unread keys to_lowercase now pk b).1

  unfoldable pub run : List Call → Book → Book
  run [] b = b
  run (c ∷ cs) b = run cs (step c b)

module _ (P : List SavedContact → Type 0) where
  -- A change keeps what holds of a list.
  abbrev pub Keeps : Changed → Type 0
  Keeps none = Unit
  Keeps (some (err e)) = Unit
  Keeps (some (ok list)) = P list

  pub if-Keeps : (b : Bool) (x y : Changed) → Keeps x → Keeps y → Keeps (if b then x else y)
  if-Keeps true x y h k = h
  if-Keeps false x y h k = k

module _ (keys : Keys) (to_lowercase : Text → Text) (P : List SavedContact → Type 0)
    (reads : (list : List SavedContact) → P list → P (read_list keys to_lowercase list)) where
  stored-Holds : (o : Changed) (b : Book) → Keeps P o → P b.contacts → P (stored o b).1.contacts
  stored-Holds none b k h = h
  stored-Holds (some (err e)) b k h = h
  stored-Holds (some (ok list)) b k h = k

  if-Holds :
      (q : Bool) (x y : Answer)
      → P x.1.contacts
      → P y.1.contacts
      → P (if q then x else y).1.contacts
  if-Holds true x y h k = h
  if-Holds false x y h k = k

  with_store-Holds :
      (f : List SavedContact → Changed) (b : Book)
      → ((list : List SavedContact) → P list → Keeps P (f list))
      → P b.contacts
      → P (with_store keys to_lowercase f b).1.contacts
  unfolding with_store
  with_store-Holds f b k h = if-Holds b.poisoned _ _ h (
      stored-Holds (f (read_list keys to_lowercase b.contacts)) b
        (k (read_list keys to_lowercase b.contacts) (reads b.contacts h)) h)

  on_key-Holds :
      (pk : Text) (refused : Option (Result ContactsError (Unit {0})))
      (f : Text → List SavedContact → Changed) (b : Book)
      → ((list : List SavedContact) → P list → Keeps P (f (to_lowercase (trim pk)) list))
      → P b.contacts
      → P (on_key keys to_lowercase pk refused f b).1.contacts
  on_key-Holds pk refused f b k h =
      if-Holds (is_valid_public_key_hex keys (to_lowercase (trim pk))) _ _
        (with_store-Holds (f (to_lowercase (trim pk))) b k h) h

  -- The change of the list in a call.
  abbrev pub KeepsCall : Call → List SavedContact → Type 0
  KeepsCall (upserts now c) list = Keeps P (upsert_in keys now c list)
  KeepsCall (removes c) list = Keeps P (remove_in keys c list)
  KeepsCall (sets_status now pk s) list = Keeps P (status_in now (to_lowercase (trim pk)) s list)
  KeepsCall (trusts now pk known blocked) list =
      Keeps P (update_existing (to_lowercase (trim pk)) (trusted now known blocked) list)
  KeepsCall (leaves pk at) list =
      Keeps P (update_if_there (to_lowercase (trim pk)) (left_room at) list)
  KeepsCall (previews now pk preview mark at) list =
      Keeps P
        (update_if_there (to_lowercase (trim pk)) (previewed now preview mark (set_or at now)) list)
  KeepsCall (clears now pk) list =
      Keeps P (update_if_there (to_lowercase (trim pk)) (unread_cleared now) list)

  pub step-Holds :
      (c : Call) (b : Book)
      → ((list : List SavedContact) → P list → KeepsCall c list)
      → P b.contacts
      → P (step keys to_lowercase c b).contacts
  unfolding step upsert_contact remove_contact set_contact_trust set_contact_availability_status
      sync_chat_room_exit_at_ms record_inbound_preview clear_unread
  step-Holds (upserts now c) b k h = with_store-Holds (upsert_in keys now c) b k h
  step-Holds (removes c) b k h = with_store-Holds (remove_in keys c) b k h
  step-Holds (sets_status now pk s) b k h = on_key-Holds pk _ (λ j. status_in now j s) b k h
  step-Holds (trusts now pk known blocked) b k h =
      on_key-Holds pk _ (λ j. update_existing j (trusted now known blocked)) b k h
  step-Holds (leaves pk at) b k h =
      if-Holds (leb_ℤ at (pos 0)) _ _ h
        (on_key-Holds pk _ (λ j. update_if_there j (left_room at)) b k h)
  step-Holds (previews now pk preview mark at) b k h =
      on_key-Holds pk _ (λ j. update_if_there j (previewed now preview mark (set_or at now))) b k h
  step-Holds (clears now pk) b k h =
      on_key-Holds pk _ (λ j. update_if_there j (unread_cleared now)) b k h

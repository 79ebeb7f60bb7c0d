-- ===== src/Contacts/Tests.antt =====
-- Runs of the address book.
use ghal_bol.Common.{
  ◌≡◌, refl, Bool, true, false, none, some, List, [], ◌∷◌, Text, text as lit, text_eq, trim,
  to_ascii_lowercase, ◌++◌, arith, map,
}
use ghal_bol.Common.Int.{pos}
use ghal_bol.Common.Utf8.{byte_len, slice_to}
use ghal_bol.Identity.{
  Identity, ed25519, to_wire, parse, split_once, from_wire_id, wire_id, decode_pubkey_hex,
  is_valid_public_key_hex, normalize_identity_wire, same_contact_identity,
}
use ghal_bol.Identity.Sample.{keys, laws, lower}
use ghal_bol.Contacts.Alias.{panics, clean, sanitize_peer_display_alias}
use ghal_bol.Contacts.Alias.Shown.{Outcome, sanitize-Outcome}
use ghal_bol.Contacts.Contact.{SavedContact}
use ghal_bol.Contacts.Book.{Book, upsert_contact, with_store, read_list, upsert_in}
use ghal_bol.Contacts.Book.Distinct.{IsBook}
use ghal_bol.Contacts.Book.Calls.{Call, upserts, trusts, previews, clears, run, step}
use ghal_bol.Contacts.Book.Once.{run-IsBook}
use ghal_bol.Contacts.Book.BlockedRows.{is_blocked_in}
use ghal_bol.Contacts.Book.Blocked.{stays_blocked}

abbrev peer : Identity
peer = record { algorithm = ed25519; public_key = 10 ∷ 255 ∷ [] }

abbrev contact : Bool → SavedContact
contact blocked = record {
  public_key_hex = lit "ed25519:0aff";
  display_alias = none;
  availability_status = none;
  last_message_preview = none;
  last_message_at_ms = none;
  unread_count = 0;
  created_at_ms = none;
  updated_at_ms = none;
  is_known = false;
  is_blocked = blocked;
  chat_room_exit_at_ms = none;
}

key_valid : is_valid_public_key_hex keys (lit "ed25519:0aff") ≡ true
unfolding is_valid_public_key_hex parse decode_pubkey_hex split_once from_wire_id trim text_eq
key_valid = refl

abbrev calls : List Call
calls =
    upserts (pos 1) (contact false)
    ∷ trusts (pos 2) (lit " ED25519:0AFF") (some true) (some true)
    ∷ upserts (pos 3) (contact false)
    ∷ previews (pos 4) (lit "ed25519:0aff") (lit "hi") true none
    ∷ []

abbrev empty_book : Book
empty_book = record { contacts = []; poisoned = false; version = 0 }

run-IsBook_example : IsBook keys (run keys to_ascii_lowercase calls empty_book).contacts
run-IsBook_example =
    run-IsBook keys laws to_ascii_lowercase lower calls empty_book
      (key_valid, (tt, (key_valid, (tt, tt)))) (record { normal = tt; distinct = tt })

abbrev blocked_book : Book
blocked_book = record { contacts = contact true ∷ []; poisoned = false; version = 0 }

wire : lit "ed25519:0aff" ≡ to_wire keys peer
unfolding to_wire wire_id
wire = refl

blocked_there : is_blocked_in keys peer blocked_book.contacts ≡ true
unfolding parse decode_pubkey_hex split_once from_wire_id wire_id trim text_eq
blocked_there = refl

abbrev later : List Call
later = upserts (pos 3) (contact false) ∷ clears (pos 4) (lit "ed25519:0aff") ∷ []

stays_blocked_example :
    is_blocked_in keys peer (run keys to_ascii_lowercase later blocked_book).contacts ≡ true
stays_blocked_example =
    stays_blocked keys laws to_ascii_lowercase lower peer later blocked_book (key_valid, (tt, tt))
      (tt, (tt, tt))
      (record {
        normal = ((peer, record { accepted = refl; bytes = omega arith }, wire), tt);
        distinct = (tt, tt);
      })
      blocked_there

-- An upsert whose key has its algorithm in capitals, which is no valid key: read again, the key is the one of the
-- blocked contact, and there are two rows of it.
abbrev capitals : SavedContact
capitals = record (contact false) { public_key_hex = lit "ED25519:0aff" }

abbrev marks : Book → List (Text × Bool)
marks b = map (λ c. (c.public_key_hex, c.is_blocked)) (read_list keys to_ascii_lowercase b.contacts)

upsert_doubles :
    marks (run keys to_ascii_lowercase (upserts (pos 3) capitals ∷ []) blocked_book)
    ≡ (lit "ed25519:0aff", true) ∷ (lit "ed25519:0aff", false) ∷ []
unfolding run step upsert_contact with_store read_list upsert_in parse decode_pubkey_hex split_once
    from_wire_id wire_id trim text_eq is_valid_public_key_hex to_ascii_lowercase
    normalize_identity_wire to_wire same_contact_identity
upsert_doubles = refl

sanitize-Outcome_example : Outcome (lit " a name ") (sanitize_peer_display_alias (lit " a name "))
sanitize-Outcome_example = sanitize-Outcome (lit " a name ")

name_kept : sanitize_peer_display_alias (lit " a name ") ≡ clean (some (lit "a name"))
unfolding sanitize_peer_display_alias trim byte_len
name_kept = refl

-- 63 letters and a character of two bytes.
abbrev long_name : Text
long_name = lit "aaaaaaaaaaaaaaaaaaaaaaaaaaaaaaaaaaaaaaaaaaaaaaaaaaaaaaaaaaaaaaa" ++ (233 ∷ [])

name_panics : sanitize_peer_display_alias long_name ≡ panics
unfolding sanitize_peer_display_alias trim byte_len slice_to
name_panics = refl

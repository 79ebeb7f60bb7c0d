-- ===== src/Contacts/Contact.antt =====
-- A contact, `SavedContact` of ghalbol_core/src/contacts_v1.rs, and what the operations make of it.
use ghal_bol.Common.{
  ℕ, ◌+◌, ◌-◌, ◌^◌, min, Bool, true, false, ◌||◌, Option, none, some, [], ◌∷◌, ◌++◌, leb, length,
  take, if◌then◌else◌, Text, trim,
}
use ghal_bol.Common.Int.{ℤ, ltb_ℤ}

pub record SavedContact : Type 0 where
  pub public_key_hex : Text
  pub display_alias : Option Text
  pub availability_status : Option Text
  pub last_message_preview : Option Text
  pub last_message_at_ms : Option ℤ
  pub unread_count : ℕ
  pub created_at_ms : Option ℤ
  pub updated_at_ms : Option ℤ
  pub is_known : Bool
  pub is_blocked : Bool
  pub chat_room_exit_at_ms : Option ℤ

abbrev pub or {ℓ} : {A : Type ℓ} → Option A → Option A → Option A
or none b = b
or (some a) b = some a

abbrev pub is_some {ℓ} : {A : Type ℓ} → Option A → Bool
is_some none = false
is_some (some _) = true

-- 8230 is the ellipsis.
unfoldable pub truncate_preview : Text → Text
truncate_preview s = let t = trim s in if leb (length t) 120 then t else take 117 t ++ (8230 ∷ [])

-- `saturating_add(1)` of `u32`.
abbrev pub one_more : ℕ → ℕ
one_more n = min (n + 1) (2 ^ 32 - 1)

-- The contact after a message at a time, which may come late.
unfoldable pub previewed : ℤ → Text → Bool → ℤ → SavedContact → SavedContact
previewed now preview mark_unread at c =
    if elim c.last_message_at_ms [ none ↦ false | some t ↦ ltb_ℤ at t ]
    then (if mark_unread
        then record c { unread_count = one_more c.unread_count; updated_at_ms = some now }
        else c)
    else record c {
      last_message_preview = some (truncate_preview preview);
      last_message_at_ms = some at;
      unread_count = if mark_unread then one_more c.unread_count else c.unread_count;
      updated_at_ms = some now;
    }

abbrev pub set_or {ℓ} : {A : Type ℓ} → Option A → A → A
set_or none a = a
set_or (some b) a = b

abbrev pub upserted :
    ℤ
    → SavedContact
    → Text
    → (Option Text → Option Text)
    → (Option Text → Option Text)
    → SavedContact
    → SavedContact
upserted now contact key alias status base = record {
  public_key_hex = key;
  display_alias = alias base.display_alias;
  availability_status = status base.availability_status;
  last_message_preview = or contact.last_message_preview base.last_message_preview;
  last_message_at_ms = or contact.last_message_at_ms base.last_message_at_ms;
  unread_count =
      if is_some contact.last_message_preview || is_some contact.last_message_at_ms
      then contact.unread_count
      else base.unread_count;
  created_at_ms = or base.created_at_ms (some now);
  updated_at_ms = some now;
  is_known = contact.is_known || base.is_known;
  is_blocked = contact.is_blocked || base.is_blocked;
  chat_room_exit_at_ms = or contact.chat_room_exit_at_ms base.chat_room_exit_at_ms;
}

abbrev pub trusted : ℤ → Option Bool → Option Bool → SavedContact → SavedContact
trusted now is_known is_blocked c = record c {
  is_known = set_or is_known c.is_known;
  is_blocked = set_or is_blocked c.is_blocked;
  updated_at_ms = some now;
}

abbrev pub with_status : ℤ → Option Text → SavedContact → SavedContact
with_status now status c = record c { availability_status = status; updated_at_ms = some now }

abbrev pub left_room : ℤ → SavedContact → SavedContact
left_room at_ms c = record c { chat_room_exit_at_ms = some at_ms }

abbrev pub unread_cleared : ℤ → SavedContact → SavedContact
unread_cleared now c = record c { unread_count = 0; updated_at_ms = some now }

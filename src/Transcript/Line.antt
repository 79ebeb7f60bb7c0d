-- ===== src/Transcript/Line.antt =====
-- A line of a thread and its JSON: `StoredChatLine` of ghalbol_core/src/dm_transcript_store.rs.
pub mod Gets
pub mod Again
pub mod Reread
use ghal_bol.Common.{
  ℕ, ◌%◌, ◌^◌, Bool, true, false, not, ◌&&◌, ◌||◌, Option, none, some, List, [], ◌∷◌, ◌==◌,
  if◌then◌else◌, Text, text as lit, text_eq, trim, trim_start, is_empty,
}
use mathlib.Core.Option
use ghal_bol.Common.Int.{ℤ, pos}
use ghal_bol.Common.Json
use ghal_bol.Common.Json.{
  Json, Fields, end, boolean, number, string, object, as_str, as_bool, as_i64, as_u64, as_object,
  put_some,
}

pub record StoredChatLine : Type 0 where
  pub local_id : Text
  pub text : Text
  pub outgoing : Bool
  pub from : Option Text
  pub message_id : Option Text
  pub delivery : Text
  pub created_at_ms : Option ℤ
  pub received_at_ms : Option ℤ
  pub read_ack_sent : Bool
  pub msg_kind : Text
  pub duration_ms : Option ℕ
  pub audio_path : Option Text
  pub file_name : Option Text
  pub mime_type : Option Text
  pub size_bytes : Option ℕ
  pub local_path : Option Text

-- `Option::and_then`, which opens wherever it stands.
abbrev pub and_then : {A B : Type 0} → Option A → (A → Option B) → Option B
and_then none f = none
and_then (some a) f = f a

abbrev pub strings : Option Text → Option Json
strings = Option.map string

abbrev pub integers : Option ℤ → Option Json
integers = Option.map number

abbrev pub naturals : Option ℕ → Option Json
naturals = Option.map (λ n. number (pos n))

-- `msg_kind` is written where it is neither empty nor "text".
abbrev pub kind_field : Text → Option Json
kind_field kind =
    if not (is_empty kind) && not (text_eq kind (lit "text")) then some (string kind) else none

abbrev pub fields : StoredChatLine → Fields
fields l =
    (put_some (lit "local_path") (strings l.local_path) (
      put_some (lit "size_bytes") (naturals l.size_bytes) (
        put_some (lit "mime_type") (strings l.mime_type) (
          put_some (lit "file_name") (strings l.file_name) (
            put_some (lit "audio_path") (strings l.audio_path) (
              put_some (lit "duration_ms") (naturals l.duration_ms) (
                put_some (lit "msg_kind") (kind_field (trim l.msg_kind)) (
                  put_some (lit "read_ack_sent")
                    (if l.read_ack_sent then some (boolean true) else none)
                    (put_some (lit "received_at_ms") (integers l.received_at_ms) (
                      put_some (lit "created_at_ms") (integers l.created_at_ms) (
                        put_some (lit "message_id") (strings l.message_id) (
                          put_some (lit "from") (strings l.from) (
                            put_some (lit "delivery") (some (string l.delivery)) (
                              put_some (lit "outgoing") (some (boolean l.outgoing)) (
                                put_some (lit "text") (some (string l.text)) (
                                  put_some (lit "local_id") (some (string l.local_id))
                                    end))))))))))))))))

unfoldable pub to_json : StoredChatLine → Json
to_json l = object (fields l)

abbrev pub text_at : Text → Fields → Option Text
text_at k m = and_then (Json.get k m) as_str

abbrev pub i64_at : Text → Fields → Option ℤ
i64_at k m = and_then (Json.get k m) as_i64

abbrev pub u64_at : Text → Fields → Option ℕ
u64_at k m = and_then (Json.get k m) as_u64

-- `== Some(true)`.
abbrev pub is_true : Option Json → Bool
is_true none = false
is_true (some (boolean b)) = b
is_true (some _) = false

abbrev pub is_set : Text → Fields → Bool
is_set k m = is_true (Json.get k m)

abbrev pub or_pending : Option Text → Text
or_pending none = lit "pending"
or_pending (some d) = d

abbrev pub or_empty : Option Text → Text
or_empty none = []
or_empty (some s) = s

abbrev pub non_empty : Text → Option Text
non_empty [] = none
non_empty (c ∷ s) = some (c ∷ s)

-- The sign of an attachment, U+1F4CE.
abbrev pub paperclip : ℕ
paperclip = 128206

abbrev pub after_paperclip : Text → Option Text
after_paperclip [] = none
after_paperclip (c ∷ s) = if c == paperclip then non_empty (trim s) else none

abbrev pub starts_with_paperclip : Text → Bool
starts_with_paperclip [] = false
starts_with_paperclip (c ∷ s) = c == paperclip

abbrev pub or_else {ℓ} : {A : Type ℓ} → Option A → Option A → Option A
or_else none o = o
or_else (some a) o = some a

-- The name in the row, or behind the paperclip in its text.
abbrev pub file_name_of : Option Text → Text → Option Text
file_name_of name text =
    or_else (and_then (Option.map trim name) non_empty) (after_paperclip (trim text))

abbrev pub kind_of : Text → Option Text → Text → Text
kind_of raw_kind name text =
    if not (is_empty raw_kind) && not (text_eq raw_kind (lit "text"))
    then raw_kind
    else if (elim name [ none ↦ false | some _ ↦ true ]) || starts_with_paperclip (trim_start text)
    then lit "attachment_offer"
    else lit "text"

abbrev pub line_of : Text → Fields → StoredChatLine
line_of local_id m =
    let text = or_empty (text_at (lit "text") m) in
    let file_name = file_name_of (text_at (lit "file_name") m) text in
    record {
      local_id = local_id;
      text = text;
      outgoing = is_set (lit "outgoing") m;
      from = text_at (lit "from") m;
      message_id = text_at (lit "message_id") m;
      delivery = or_pending (text_at (lit "delivery") m);
      created_at_ms = i64_at (lit "created_at_ms") m;
      received_at_ms = i64_at (lit "received_at_ms") m;
      read_ack_sent = is_set (lit "read_ack_sent") m;
      msg_kind = kind_of (trim (or_empty (text_at (lit "msg_kind") m))) file_name text;
      duration_ms = Option.map (λ n. n % 2 ^ 32) (u64_at (lit "duration_ms") m);
      audio_path = text_at (lit "audio_path") m;
      file_name = file_name;
      mime_type = text_at (lit "mime_type") m;
      size_bytes = u64_at (lit "size_bytes") m;
      local_path = text_at (lit "local_path") m;
    }

abbrev pub line_from : Fields → Option StoredChatLine
line_from m = elim (text_at (lit "local_id") m) [
  | none ↦ none
  | some id ↦ if is_empty (trim id) then none else some (line_of (trim id) m)
]

unfoldable pub from_json : Json → Option StoredChatLine
from_json j = elim (as_object j) [ none ↦ none | some m ↦ line_from m ]

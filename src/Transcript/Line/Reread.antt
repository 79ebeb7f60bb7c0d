-- ===== src/Transcript/Line/Reread.antt =====
-- A row that was read is written and read again as it is.
use ghal_bol.Common.{
  ℕ, ◌%◌, ◌^◌, ◌≡◌, refl, sym, subst, some_injective, ap, inl, inr, Bool-cases, ◌∙◌, Bool, true,
  false, Option, none, some, if◌then◌else◌, Text, text as lit, trim, is_empty, arith,
}
use mathlib.Core.Option
use ghal_bol.Common.Normal.{trim_idem}
use ghal_bol.Common.Json
use ghal_bol.Common.Json.{
  Json, Fields, as_str, as_bool, as_i64, as_u64, get-put_some, boolean, number, string,
}
use ghal_bol.Transcript.Line.{
  StoredChatLine, fields, text_at, u64_at, is_true, or_pending, and_then, or_empty, file_name_of,
  kind_of, strings, integers, naturals, kind_field, line_of, to_json, from_json,
}
use ghal_bol.Transcript.Line.Gets.{
  get-from, get-message_id, get-created_at_ms, get-received_at_ms, get-read_ack_sent, get-msg_kind,
  get-duration_ms, get-audio_path, get-file_name, get-mime_type, get-size_bytes, get-local_path,
  get-delivery, get-outgoing, get-text, get-local_id,
}
use ghal_bol.Transcript.Line.Again.{i64_again, u32_again, named_again, kind_again}

-- Two lines with the same fields are one.
line_eq :
    (l r : StoredChatLine)
    → l.local_id ≡ r.local_id
    → l.text ≡ r.text
    → l.outgoing ≡ r.outgoing
    → l.from ≡ r.from
    → l.message_id ≡ r.message_id
    → l.delivery ≡ r.delivery
    → l.created_at_ms ≡ r.created_at_ms
    → l.received_at_ms ≡ r.received_at_ms
    → l.read_ack_sent ≡ r.read_ack_sent
    → l.msg_kind ≡ r.msg_kind
    → l.duration_ms ≡ r.duration_ms
    → l.audio_path ≡ r.audio_path
    → l.file_name ≡ r.file_name
    → l.mime_type ≡ r.mime_type
    → l.size_bytes ≡ r.size_bytes
    → l.local_path ≡ r.local_path
    → l ≡ r
line_eq l r e0 e1 e2 e3 e4 e5 e6 e7 e8 e9 e10 e11 e12 e13 e14 e15 = λ i. record {
  local_id = e0 i;
  text = e1 i;
  outgoing = e2 i;
  from = e3 i;
  message_id = e4 i;
  delivery = e5 i;
  created_at_ms = e6 i;
  received_at_ms = e7 i;
  read_ack_sent = e8 i;
  msg_kind = e9 i;
  duration_ms = e10 i;
  audio_path = e11 i;
  file_name = e12 i;
  mime_type = e13 i;
  size_bytes = e14 i;
  local_path = e15 i;
}

-- What a row that was read keeps to.
pub record IsRead (l : StoredChatLine) : Type 0 where
  pub id_trimmed : trim l.local_id ≡ l.local_id
  pub id_some : is_empty l.local_id ≡ false
  pub created : and_then (integers l.created_at_ms) as_i64 ≡ l.created_at_ms
  pub received : and_then (integers l.received_at_ms) as_i64 ≡ l.received_at_ms
  pub duration : Option.map (λ n. n % 2 ^ 32) l.duration_ms ≡ l.duration_ms
  pub named : file_name_of l.file_name l.text ≡ l.file_name
  pub kind :
      kind_of (trim (or_empty (and_then (kind_field (trim l.msg_kind)) as_str))) l.file_name l.text
      ≡ l.msg_kind

strings_back : (o : Option Text) → and_then (strings o) as_str ≡ o
strings_back none = refl
strings_back (some s) = refl

naturals_back : (o : Option ℕ) → and_then (naturals o) as_u64 ≡ o
naturals_back none = refl
naturals_back (some n) = refl

set_back : (b : Bool) → is_true (if b then some (boolean true) else none) ≡ b
set_back true = refl
set_back false = refl

sign_back : (b : Bool) → is_true (some (boolean b)) ≡ b
sign_back true = refl
sign_back false = refl

module _ (l : StoredChatLine) (h : IsRead l) where
  text_back : or_empty (text_at (lit "text") (fields l)) ≡ l.text
  text_back = ap (λ o. or_empty (and_then o as_str)) (get-text l)

  name_back :
      file_name_of
        (text_at (lit "file_name") (fields l))
        (or_empty (text_at (lit "text") (fields l)))
      ≡ l.file_name
  name_back =
      ap (λ o. file_name_of (and_then o as_str) (or_empty (text_at (lit "text") (fields l))))
        (get-file_name l)
      ∙ ap (λ o. file_name_of o (or_empty (text_at (lit "text") (fields l))))
          (strings_back l.file_name)
      ∙ ap (file_name_of l.file_name) text_back
      ∙ h.named

  kind_back : (line_of (trim l.local_id) (fields l)).msg_kind ≡ l.msg_kind
  kind_back =
      ap
        (λ o.
          kind_of (trim (or_empty (and_then o as_str)))
            (file_name_of (text_at (lit "file_name") (fields l))
              (or_empty (text_at (lit "text") (fields l))))
            (or_empty (text_at (lit "text") (fields l))))
        (get-msg_kind l)
      ∙ ap
          (λ o.
            kind_of (trim (or_empty (and_then (kind_field (trim l.msg_kind)) as_str))) o
              (or_empty (text_at (lit "text") (fields l))))
          name_back
      ∙ ap (kind_of (trim (or_empty (and_then (kind_field (trim l.msg_kind)) as_str))) l.file_name)
          text_back
      ∙ h.kind

  line_back : line_of (trim l.local_id) (fields l) ≡ l
  line_back =
      line_eq (line_of (trim l.local_id) (fields l)) l h.id_trimmed text_back
        (ap is_true (get-outgoing l) ∙ sign_back l.outgoing)
        (ap (λ o. and_then o as_str) (get-from l) ∙ strings_back l.from)
        (ap (λ o. and_then o as_str) (get-message_id l) ∙ strings_back l.message_id)
        (ap (λ o. or_pending (and_then o as_str)) (get-delivery l))
        (ap (λ o. and_then o as_i64) (get-created_at_ms l) ∙ h.created)
        (ap (λ o. and_then o as_i64) (get-received_at_ms l) ∙ h.received)
        (ap is_true (get-read_ack_sent l) ∙ set_back l.read_ack_sent) kind_back
        (ap (λ o. Option.map (λ n. n % 2 ^ 32) (and_then o as_u64)) (get-duration_ms l)
          ∙ ap (Option.map (λ n. n % 2 ^ 32)) (naturals_back l.duration_ms)
          ∙ h.duration)
        (ap (λ o. and_then o as_str) (get-audio_path l) ∙ strings_back l.audio_path) name_back
        (ap (λ o. and_then o as_str) (get-mime_type l) ∙ strings_back l.mime_type)
        (ap (λ o. and_then o as_u64) (get-size_bytes l) ∙ naturals_back l.size_bytes)
        (ap (λ o. and_then o as_str) (get-local_path l) ∙ strings_back l.local_path)

  pub read_again : from_json (to_json l) ≡ some l
  unfolding from_json to_json
  read_again =
      ap
        (λ o. elim (and_then o as_str) as (λ _. Option StoredChatLine) [
          | none ↦ none
          | some id ↦ if is_empty (trim id) then none else some (line_of (trim id) (fields l))
        ])
        (get-local_id l)
      ∙ rw (ap is_empty h.id_trimmed ∙ h.id_some) (ap some line_back)

line_of-IsRead :
    (id : Text) (m : Fields) → is_empty (trim id) ≡ false → IsRead (line_of (trim id) m)
line_of-IsRead id m e = record {
  id_trimmed = trim_idem id;
  id_some = e;
  created = i64_again (Json.get (lit "created_at_ms") m);
  received = i64_again (Json.get (lit "received_at_ms") m);
  duration = u32_again (u64_at (lit "duration_ms") m);
  named = named_again (text_at (lit "file_name") m) (or_empty (text_at (lit "text") m));
  kind =
      kind_again (trim (or_empty (text_at (lit "msg_kind") m))) (or_empty (text_at (lit "text") m))
        (line_of (trim id) m).file_name (trim_idem (or_empty (text_at (lit "msg_kind") m)));
}

Fits-IsRead :
    (o : Option Text) (m : Fields) (l : StoredChatLine)
    → (elim o as (λ _. Option StoredChatLine) [
      | none ↦ none
      | some id ↦ if is_empty (trim id) then none else some (line_of (trim id) m)
    ])
      ≡ some l
    → IsRead l
Fits-IsRead none m l e = absurd (cc)
Fits-IsRead (some id) m l e = elim (Bool-cases (is_empty (trim id))) [
  | inl blank ↦ absurd (ground (arith, e, blank))
  | inr kept ↦ subst IsRead (some_injective (sym (rw kept refl) ∙ e)) (line_of-IsRead id m kept)
]

pub from_json-IsRead : (j : Json) (l : StoredChatLine) → from_json j ≡ some l → IsRead l
unfolding from_json
from_json-IsRead (Json.object m) l e = Fits-IsRead (text_at (lit "local_id") m) m l e
from_json-IsRead Json.null l e = absurd (cc)
from_json-IsRead (boolean b) l e = absurd (cc)
from_json-IsRead (number z) l e = absurd (cc)
from_json-IsRead (Json.real s) l e = absurd (cc)
from_json-IsRead (string s) l e = absurd (cc)
from_json-IsRead (Json.array xs) l e = absurd (cc)

-- A row that was read is written, and read again, without a change.
pub from_json_again :
    (j : Json) (l : StoredChatLine) → from_json j ≡ some l → from_json (to_json l) ≡ some l
from_json_again j l e = read_again l (from_json-IsRead j l e)

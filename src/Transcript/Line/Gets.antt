-- ===== src/Transcript/Line/Gets.antt =====
-- What is found in the fields that are written of a line.
use ghal_bol.Common.{◌≡◌, refl, true, Option, none, some, if◌then◌else◌, text as lit, text_eq, trim}
use ghal_bol.Common.Json
use ghal_bol.Common.Json.{
  Json, Fields, as_str, as_bool, as_i64, as_u64, get-put_some, boolean, number, string,
}
use ghal_bol.Transcript.Line.{StoredChatLine, fields, strings, integers, naturals, kind_field}

or_absent : (o r : Option Json) → r ≡ none → (elim o [ none ↦ r | some v ↦ some v ]) ≡ o
or_absent none r e = e
or_absent (some v) r e = refl

module _ (l : StoredChatLine) where
  pub get-from : Json.get (lit "from") (fields l) ≡ strings l.from
  unfolding text_eq Json.get
  get-from = simp get-put_some (or_absent _ _ (simp get-put_some))

  pub get-message_id : Json.get (lit "message_id") (fields l) ≡ strings l.message_id
  unfolding text_eq Json.get
  get-message_id = simp get-put_some (or_absent _ _ (simp get-put_some))

  pub get-created_at_ms : Json.get (lit "created_at_ms") (fields l) ≡ integers l.created_at_ms
  unfolding text_eq Json.get
  get-created_at_ms = simp get-put_some (or_absent _ _ (simp get-put_some))

  pub get-received_at_ms : Json.get (lit "received_at_ms") (fields l) ≡ integers l.received_at_ms
  unfolding text_eq Json.get
  get-received_at_ms = simp get-put_some (or_absent _ _ (simp get-put_some))

  pub get-read_ack_sent :
      Json.get (lit "read_ack_sent") (fields l)
      ≡ (if l.read_ack_sent then some (boolean true) else none)
  unfolding text_eq Json.get
  get-read_ack_sent = simp get-put_some (or_absent _ _ (simp get-put_some))

  pub get-msg_kind : Json.get (lit "msg_kind") (fields l) ≡ kind_field (trim l.msg_kind)
  unfolding text_eq Json.get
  get-msg_kind = simp get-put_some (or_absent _ _ (simp get-put_some))

  pub get-duration_ms : Json.get (lit "duration_ms") (fields l) ≡ naturals l.duration_ms
  unfolding text_eq Json.get
  get-duration_ms = simp get-put_some (or_absent _ _ (simp get-put_some))

  pub get-audio_path : Json.get (lit "audio_path") (fields l) ≡ strings l.audio_path
  unfolding text_eq Json.get
  get-audio_path = simp get-put_some (or_absent _ _ (simp get-put_some))

  pub get-file_name : Json.get (lit "file_name") (fields l) ≡ strings l.file_name
  unfolding text_eq Json.get
  get-file_name = simp get-put_some (or_absent _ _ (simp get-put_some))

  pub get-mime_type : Json.get (lit "mime_type") (fields l) ≡ strings l.mime_type
  unfolding text_eq Json.get
  get-mime_type = simp get-put_some (or_absent _ _ (simp get-put_some))

  pub get-size_bytes : Json.get (lit "size_bytes") (fields l) ≡ naturals l.size_bytes
  unfolding text_eq Json.get
  get-size_bytes = simp get-put_some (or_absent _ _ (simp get-put_some))

  pub get-local_path : Json.get (lit "local_path") (fields l) ≡ strings l.local_path
  unfolding text_eq Json.get
  get-local_path = simp get-put_some (or_absent _ _ (simp get-put_some))

  pub get-delivery : Json.get (lit "delivery") (fields l) ≡ some (string l.delivery)
  unfolding text_eq
  get-delivery = simp get-put_some

  pub get-outgoing : Json.get (lit "outgoing") (fields l) ≡ some (boolean l.outgoing)
  unfolding text_eq
  get-outgoing = simp get-put_some

  pub get-text : Json.get (lit "text") (fields l) ≡ some (string l.text)
  unfolding text_eq
  get-text = simp get-put_some

  pub get-local_id : Json.get (lit "local_id") (fields l) ≡ some (string l.local_id)
  unfolding text_eq
  get-local_id = simp get-put_some

-- ===== src/Delivery/Error.antt =====
-- ghalbol_delivery/src/error.rs, without the message texts and the errors of the disk.
use ghal_bol.Common.{Text, text, Result}

pub data DeliveryError : Type 0 where
  bad_request : DeliveryError
  unauthorized : DeliveryError
  forbidden : DeliveryError
  not_found : DeliveryError
  quota_exceeded : DeliveryError
  ttl_invalid : DeliveryError
  message_expired : DeliveryError
  invalid_envelope : DeliveryError
  internal : DeliveryError

unfoldable pub ws_code : DeliveryError → Text
ws_code unauthorized = text "unauthorized"
ws_code forbidden = text "forbidden"
ws_code quota_exceeded = text "quota_exceeded"
ws_code invalid_envelope = text "invalid_envelope"
ws_code not_found = text "not_found"
ws_code ttl_invalid = text "ttl_invalid"
ws_code message_expired = text "expired"
ws_code bad_request = text "bad_request"
ws_code internal = text "error"

-- The result of a check.
abbrev pub Checked : Type 0
Checked = Result {0, 0} DeliveryError Unit

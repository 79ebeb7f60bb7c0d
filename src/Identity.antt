-- ===== src/Identity.antt =====
-- Identities: ghalbol_core/src/identity.rs (ghalbol_coord/src/identity.rs has the same functions again). The
-- codec of hexadecimal and the libraries that check keys are `Keys`; of an error its kind stays.
pub mod Wire
pub mod Percent
pub mod Sample
mod Tests
use ghal_bol.Common.{
  ℕ, Bool, true, false, not, ◌&&◌, ◌||◌, Option, none, some, List, [], ◌∷◌, ◌++◌, leb, ◌==◌, ok,
  err, Result, if◌then◌else◌, Text, text as lit, text_eq, trim, is_empty,
}

pub data IdentityAlgorithm : Type 0 where
  secp256k1 ed25519 ecdsa_p256 : IdentityAlgorithm

pub data IdentityError : Type 0 where
  identity_empty unknown_algorithm invalid_hex hex_error bad_key : IdentityError

pub record Identity : Type 0 where
  pub algorithm : IdentityAlgorithm
  pub public_key : List ℕ

-- hex::encode, hex::decode, and whether the library of an algorithm takes the bytes as a public key.
pub record Keys : Type 0 where
  pub encode : List ℕ → Text
  pub decode : Text → Option (List ℕ)
  pub accepts : IdentityAlgorithm → List ℕ → Bool

unfoldable pub wire_id : IdentityAlgorithm → Text
wire_id secp256k1 = lit "secp256k1"
wire_id ed25519 = lit "ed25519"
wire_id ecdsa_p256 = lit "ecdsa-p256"

unfoldable pub from_wire_id : Text → Result IdentityError IdentityAlgorithm
from_wire_id s =
    if text_eq (trim s) (lit "secp256k1")
    then ok secp256k1
    else if text_eq (trim s) (lit "ed25519")
    then ok ed25519
    else if text_eq (trim s) (lit "ecdsa-p256")
    then ok ecdsa_p256
    else err unknown_algorithm

abbrev pub is_ascii_hexdigit : ℕ → Bool
is_ascii_hexdigit c = (leb 48 c && leb c 57) || (leb 65 c && leb c 70) || (leb 97 c && leb c 102)

abbrev pub all_chars : (ℕ → Bool) → Text → Bool
all_chars p [] = true
all_chars p (c ∷ s) = p c && all_chars p s

-- `str::split_once`, at the first such character.
unfoldable pub split_once : ℕ → Text → Option (Text × Text)
split_once d [] = none
split_once d (c ∷ s) =
    if c == d
    then some ([], s)
    else elim (split_once d s) [ none ↦ none | some (a, b) ↦ some (c ∷ a, b) ]

abbrev pub identity_eq : Identity → Identity → Bool
identity_eq a b =
    text_eq (wire_id a.algorithm) (wire_id b.algorithm) && text_eq a.public_key b.public_key

abbrev pub both_same : Result IdentityError Identity → Result IdentityError Identity → Bool
both_same (ok x) (ok y) = identity_eq x y
both_same _ _ = false

module _ (keys : Keys) where
  open keys use {encode, decode, accepts}

  unfoldable pub decode_pubkey_hex : Text → Result IdentityError (List ℕ)
  decode_pubkey_hex hex_s =
      let s = trim hex_s in
      if is_empty s || not (all_chars is_ascii_hexdigit s)
      then err invalid_hex
      else elim (decode s) [ none ↦ err hex_error | some bytes ↦ ok bytes ]

  abbrev pub validated :
      IdentityAlgorithm → Result IdentityError (List ℕ) → Result IdentityError Identity
  validated algorithm (err e) = err e
  validated algorithm (ok public_key) =
      if accepts algorithm public_key
      then ok (record { algorithm = algorithm; public_key = public_key })
      else err bad_key

  abbrev pub parse_prefixed :
      Result IdentityError IdentityAlgorithm → Text → Result IdentityError Identity
  parse_prefixed (err e) hex_part = err e
  parse_prefixed (ok algorithm) hex_part = validated algorithm (decode_pubkey_hex hex_part)

  -- `:` is 58.
  abbrev pub parse_split : Text → Option (Text × Text) → Result IdentityError Identity
  parse_split t none = validated secp256k1 (decode_pubkey_hex t)
  parse_split t (some (algo, hex_part)) = parse_prefixed (from_wire_id algo) hex_part

  unfoldable pub parse : Text → Result IdentityError Identity
  parse s =
      if is_empty (trim s)
      then err identity_empty
      else parse_split (trim s) (split_once 58 (trim s))

  unfoldable pub to_wire : Identity → Text
  to_wire id = elim id.algorithm [
    | secp256k1 ↦ encode id.public_key
    | _ ↦ wire_id id.algorithm ++ (58 ∷ encode id.public_key)
  ]

  abbrev pub wire_of : Result IdentityError Identity → Result IdentityError Text
  wire_of (err e) = err e
  wire_of (ok id) = ok (to_wire id)

  unfoldable pub normalize_identity_wire : Text → Result IdentityError Text
  normalize_identity_wire s = wire_of (parse s)

  unfoldable pub is_valid_public_key_hex : Text → Bool
  is_valid_public_key_hex hex_s = elim (parse hex_s) [ ok _ ↦ true | err _ ↦ false ]

  unfoldable pub same_contact_identity : Text → Text → Bool
  same_contact_identity a b = both_same (parse a) (parse b)

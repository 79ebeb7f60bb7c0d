-- ===== src/Identity/Wire.antt =====
-- An identity and its wire form agree.
use ghal_bol.Common.{
  ℕ, ◌*◌, ◌<◌, ◌≡◌, refl, sym, subst, ap, ◌∙◌, ◌↔◌, inl, inr, Bool, true, false, Option, none, some,
  ok_injective, List, [], ◌∷◌, ◌++◌, ◌==◌, ok, err, Result, length, All, All-append, if◌then◌else◌,
  Text, text_eq, text_eq_iff, is_whitespace, trim_start, trim_end, trim, is_empty, Bool-cases,
  arith,
}
use mathlib.Core.Bool.{false≢true}
use ghal_bol.Identity.{
  IdentityAlgorithm, secp256k1, ed25519, ecdsa_p256, IdentityError, invalid_hex, hex_error,
  Identity, Keys, wire_id, from_wire_id, is_ascii_hexdigit, all_chars, split_once,
  decode_pubkey_hex, validated, parse_split, parse, to_wire, normalize_identity_wire, identity_eq,
  same_contact_identity, wire_of, both_same, parse_prefixed,
}

-- What is documented of the libraries: hexadecimal has two digits a byte and is read back, bytes are
-- below 256, and no key is empty.
pub record IsLawful (keys : Keys) : Type 0 where
  pub encode-digits : (b : List ℕ) → all_chars is_ascii_hexdigit (keys.encode b) ≡ true
  pub length-encode : (b : List ℕ) → length (keys.encode b) ≡ 2 * length b
  pub decode-encode : (b : List ℕ) → All (λ c. c < 256) b → keys.decode (keys.encode b) ≡ some b
  pub decode-bytes : (s : Text) (b : List ℕ) → keys.decode s ≡ some b → All (λ c. c < 256) b
  pub accepts_some : (a : IdentityAlgorithm) → keys.accepts a [] ≡ false

-- An identity that its library takes.
pub record IsAccepted (keys : Keys) (id : Identity) : Type 0 where
  pub accepted : keys.accepts id.algorithm id.public_key ≡ true
  pub bytes : All (λ c. c < 256) id.public_key

abbrev Solid : Text → Type 0
Solid = All (λ c. is_whitespace c ≡ false)

trim_start_of_Solid : (s : Text) → Solid s → trim_start s ≡ s
unfolding trim_start
trim_start_of_Solid [] h = refl
trim_start_of_Solid (c ∷ s) h = rw h.0 refl

trim_end_of_Solid : (s : Text) → Solid s → trim_end s ≡ s
unfolding trim_end
trim_end_of_Solid [] h = refl
trim_end_of_Solid (c ∷ s) h = ground (arith, h.0, trim_end_of_Solid s h.1)

trim_of_Solid : (s : Text) → Solid s → trim s ≡ s
unfolding trim
trim_of_Solid s h = ap trim_end (trim_start_of_Solid s h) ∙ trim_end_of_Solid s h

digit-Solid : (c : ℕ) → is_ascii_hexdigit c ≡ true → is_whitespace c ≡ false
unfolding is_whitespace
digit-Solid c h = ground arith

hex-Solid : (s : Text) → all_chars is_ascii_hexdigit s ≡ true → Solid s
hex-Solid [] h = tt
hex-Solid (c ∷ s) h = (digit-Solid c (ground (arith, h)), hex-Solid s (ground (arith, h)))

split_hex : (s : Text) → all_chars is_ascii_hexdigit s ≡ true → split_once 58 s ≡ none
unfolding split_once
split_hex [] h = refl
split_hex (c ∷ s) h =
    let rest = split_hex s (ground (arith, h)) in
    let other : (c == 58) ≡ false = ground (arith, h) in rw other (rw rest refl)

split_prefixed :
    (a : IdentityAlgorithm) (s : Text) → split_once 58 (wire_id a ++ (58 ∷ s)) ≡ some (wire_id a, s)
unfolding split_once wire_id
split_prefixed secp256k1 s = refl
split_prefixed ed25519 s = refl
split_prefixed ecdsa_p256 s = refl

from_wire_id-wire_id : (a : IdentityAlgorithm) → from_wire_id (wire_id a) ≡ ok a
unfolding from_wire_id wire_id trim text_eq
from_wire_id-wire_id secp256k1 = refl
from_wire_id-wire_id ed25519 = refl
from_wire_id-wire_id ecdsa_p256 = refl

wire_id-Solid : (a : IdentityAlgorithm) → Solid (wire_id a)
unfolding wire_id is_whitespace
wire_id-Solid secp256k1 = ground arith
wire_id-Solid ed25519 = ground arith
wire_id-Solid ecdsa_p256 = ground arith

prefixed_some : (a : IdentityAlgorithm) (s : Text) → is_empty (wire_id a ++ (58 ∷ s)) ≡ false
unfolding wire_id
prefixed_some secp256k1 s = refl
prefixed_some ed25519 s = refl
prefixed_some ecdsa_p256 s = refl

wire_id_injective : (a b : IdentityAlgorithm) → text_eq (wire_id a) (wire_id b) ≡ true → a ≡ b
wire_id_injective a b h = ok_injective {E = IdentityError} (
    sym (from_wire_id-wire_id a) ∙ ap from_wire_id ((text_eq_iff _ _).0 h) ∙ from_wire_id-wire_id b)

pub identity_eq_sound : (x y : Identity) → identity_eq x y ≡ true → x ≡ y
identity_eq_sound x y h =
    let a = wire_id_injective x.algorithm y.algorithm (ground (arith, h)) in
    let k = (text_eq_iff x.public_key y.public_key).0 (ground (arith, h)) in
    λ i. record { algorithm = a i; public_key = k i }

pub identity_eq_self : (x : Identity) → identity_eq x x ≡ true
identity_eq_self x =
    rw ((text_eq_iff (wire_id x.algorithm) _).1 refl, (text_eq_iff x.public_key _).1 refl) refl

module _ (keys : Keys) (laws : IsLawful keys) where
  some_of_length :
      (b : List ℕ) (s : Text) → is_empty b ≡ false → length s ≡ 2 * length b → is_empty s ≡ false
  some_of_length [] s n e = absurd (cc)
  some_of_length (c ∷ b) [] n e = absurd (omega (arith, e))
  some_of_length (c ∷ b) (d ∷ s) n e = refl

  key_some : (a : IdentityAlgorithm) (b : List ℕ) → keys.accepts a b ≡ true → is_empty b ≡ false
  key_some a [] h = absurd (false≢true (sym (laws.accepts_some a) ∙ h))
  key_some a (c ∷ b) h = refl

  hex_some :
      (a : IdentityAlgorithm) (b : List ℕ)
      → keys.accepts a b ≡ true
      → is_empty (keys.encode b) ≡ false
  hex_some a b h = some_of_length b (keys.encode b) (key_some a b h) (laws.length-encode b)

  hex_read :
      (a : IdentityAlgorithm) (b : List ℕ)
      → IsAccepted keys (record { algorithm = a; public_key = b })
      → validated keys a (decode_pubkey_hex keys (keys.encode b))
        ≡ ok (record { algorithm = a; public_key = b })
  unfolding decode_pubkey_hex
  hex_read a b h =
      let t = trim_of_Solid (keys.encode b) (hex-Solid _ (laws.encode-digits b)) in
      rw t (
        rw (hex_some a b h.accepted, laws.encode-digits b, laws.decode-encode b h.bytes, h.accepted)
          refl)

  bare-Solid : (b : List ℕ) → Solid (keys.encode b)
  bare-Solid b = hex-Solid (keys.encode b) (laws.encode-digits b)

  prefixed-Solid : (a : IdentityAlgorithm) (b : List ℕ) → Solid (wire_id a ++ (58 ∷ keys.encode b))
  unfolding is_whitespace
  prefixed-Solid a b =
      All-append (λ c. is_whitespace c ≡ false) (wire_id a) (58 ∷ keys.encode b) (wire_id-Solid a)
        (refl, bare-Solid b)

  wire-Solid :
      (a : IdentityAlgorithm) (b : List ℕ)
      → Solid (to_wire keys (record { algorithm = a; public_key = b }))
  unfolding to_wire
  wire-Solid secp256k1 b = bare-Solid b
  wire-Solid ed25519 b = prefixed-Solid ed25519 b
  wire-Solid ecdsa_p256 b = prefixed-Solid ecdsa_p256 b

  pub trim-to_wire : (id : Identity) → trim (to_wire keys id) ≡ to_wire keys id
  trim-to_wire id = trim_of_Solid (to_wire keys id) (wire-Solid id.algorithm id.public_key)

  read_bare :
      (b : List ℕ)
      → IsAccepted keys (record { algorithm = secp256k1; public_key = b })
      → parse keys (keys.encode b) ≡ ok (record { algorithm = secp256k1; public_key = b })
  unfolding parse
  read_bare b h =
      let digits = laws.encode-digits b in
      rw (trim_of_Solid (keys.encode b) (hex-Solid _ digits))
        (rw (hex_some secp256k1 b h.accepted, split_hex _ digits) (hex_read secp256k1 b h))

  read_prefixed :
      (a : IdentityAlgorithm) (b : List ℕ)
      → IsAccepted keys (record { algorithm = a; public_key = b })
      → parse keys (wire_id a ++ (58 ∷ keys.encode b))
        ≡ ok (record { algorithm = a; public_key = b })
  unfolding parse
  read_prefixed a b h =
      let s = wire_id a ++ (58 ∷ keys.encode b) in
      rw (trim_of_Solid s (prefixed-Solid a b)) (
        rw
          (
            prefixed_some a (keys.encode b),
            split_prefixed a (keys.encode b),
            from_wire_id-wire_id a,
          )
          (hex_read a b h))

  read_wire :
      (a : IdentityAlgorithm) (b : List ℕ)
      → IsAccepted keys (record { algorithm = a; public_key = b })
      → parse keys (to_wire keys (record { algorithm = a; public_key = b }))
        ≡ ok (record { algorithm = a; public_key = b })
  unfolding to_wire
  read_wire secp256k1 b h = read_bare b h
  read_wire ed25519 b h = read_prefixed ed25519 b h
  read_wire ecdsa_p256 b h = read_prefixed ecdsa_p256 b h

  -- An identity that its library takes is read back from its wire form.
  pub parse-to_wire : (id : Identity) → IsAccepted keys id → parse keys (to_wire keys id) ≡ ok id
  parse-to_wire id h = read_wire id.algorithm id.public_key h

  decoded-Accepted :
      (a : IdentityAlgorithm) (o : Result IdentityError (List ℕ)) (id : Identity)
      → ((b : List ℕ) → o ≡ ok b → All (λ c. c < 256) b)
      → validated keys a o ≡ ok id
      → IsAccepted keys id
  decoded-Accepted a (err e) id h k = absurd (cc)
  decoded-Accepted a (ok b) id h k = elim (Bool-cases (keys.accepts a b)) [
    | inl taken ↦
        subst (IsAccepted keys) (ok_injective (sym (rw taken refl) ∙ k))
          (record { accepted = taken; bytes = h b refl })
    | inr refused ↦ absurd (ground (arith, refused, k))
  ]

  found_bytes :
      (s : Text) (b : List ℕ) (blank : Bool) (o : Option (List ℕ))
      → keys.decode s ≡ o
      → (if blank then err invalid_hex else elim o as (λ _. Result IdentityError (List ℕ)) [
        | none ↦ err hex_error
        | some bytes ↦ ok bytes
      ])
        ≡ ok b
      → All (λ c. c < 256) b
  found_bytes s b true o e h = absurd (cc)
  found_bytes s b false none e h = absurd (cc)
  found_bytes s b false (some d) e h =
      subst (All (λ c. c < 256)) (ok_injective h) (laws.decode-bytes s d e)

  hex_bytes : (s : Text) (b : List ℕ) → decode_pubkey_hex keys s ≡ ok b → All (λ c. c < 256) b
  unfolding decode_pubkey_hex
  hex_bytes s b h = found_bytes (trim s) b _ (keys.decode (trim s)) refl h

  prefixed-Accepted :
      (r : Result IdentityError IdentityAlgorithm) (s : Text) (id : Identity)
      → parse_prefixed keys r s ≡ ok id
      → IsAccepted keys id
  prefixed-Accepted (err e) s id h = absurd (cc)
  prefixed-Accepted (ok a) s id h =
      decoded-Accepted a (decode_pubkey_hex keys s) id (λ b. hex_bytes s b) h

  split-Accepted :
      (t : Text) (o : Option (Text × Text)) (id : Identity)
      → parse_split keys t o ≡ ok id
      → IsAccepted keys id
  split-Accepted t none id h =
      decoded-Accepted secp256k1 (decode_pubkey_hex keys t) id (λ b. hex_bytes t b) h
  split-Accepted t (some (algo, s)) id h = prefixed-Accepted (from_wire_id algo) s id h

  pub parse-Accepted : (s : Text) (id : Identity) → parse keys s ≡ ok id → IsAccepted keys id
  unfolding parse
  parse-Accepted s id h = elim (Bool-cases (is_empty (trim s))) [
    | inl blank ↦ absurd (ground (arith, blank, h))
    | inr some_text ↦
        split-Accepted (trim s) (split_once 58 (trim s)) id (sym (rw some_text refl) ∙ h)
  ]

  normal_of :
      (o : Result IdentityError Identity) (w : Text)
      → ((id : Identity) → o ≡ ok id → parse keys (to_wire keys id) ≡ ok id)
      → wire_of keys o ≡ ok w
      → parse keys w ≡ o
  normal_of (err e) w h k = absurd (cc)
  normal_of (ok id) w h k = subst (λ t. parse keys t ≡ ok id) (ok_injective k) (h id refl)

  parse_normal : (s w : Text) → normalize_identity_wire keys s ≡ ok w → parse keys w ≡ parse keys s
  unfolding normalize_identity_wire
  parse_normal s w h =
      normal_of (parse keys s) w (λ id e. parse-to_wire id (parse-Accepted s id e)) h

  both_normal :
      (p q : Result IdentityError Identity)
      → both_same p q ≡ true
      → (w : Text) × (wire_of keys p ≡ ok w) × (wire_of keys q ≡ ok w)
  both_normal (ok x) (ok y) h =
      (to_wire keys x, refl, ap (λ z. ok (to_wire keys z)) (sym (identity_eq_sound x y h)))
  both_normal (err e) q h = absurd (cc)
  both_normal (ok x) (err e) h = absurd (cc)

  same_self :
      (p : Result IdentityError Identity) (w : Text) → wire_of keys p ≡ ok w → both_same p p ≡ true
  same_self (err e) w h = absurd (cc)
  same_self (ok x) w h = identity_eq_self x

  -- Two texts are the same contact exactly if both have a normal form and it is one.
  pub same_contact_iff :
      (a b : Text)
      → (same_contact_identity keys a b ≡ true) ↔ (
          (w : Text) × (normalize_identity_wire keys a ≡ ok w)
          × (normalize_identity_wire keys b ≡ ok w))
  unfolding same_contact_identity normalize_identity_wire
  same_contact_iff a b = (
    both_normal (parse keys a) (parse keys b),
    λ (w, n, m).
        subst (λ q. both_same (parse keys a) q ≡ true)
          (sym (parse_normal a w n) ∙ parse_normal b w m) (same_self (parse keys a) w n),
  )

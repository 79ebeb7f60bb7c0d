-- ===== src/Identity/Sample.antt =====
-- A codec of hexadecimal, and libraries that take every key but the empty one.
use ghal_bol.Common.{
  ℕ, ◌+◌, ◌-◌, ◌*◌, ◌/◌, ◌%◌, ◌<◌, ◌≡◌, refl, ap, ◌∙◌, true, not, Option, none, some,
  some_injective, subst, List, [], ◌∷◌, leb, ltb, if◌then◌else◌, length, All, Text, ◌++◌,
  lower_char, to_ascii_lowercase, is_empty, arith,
}
use ghal_bol.Identity.{
  Identity, Keys, secp256k1, ed25519, ecdsa_p256, IdentityAlgorithm, is_ascii_hexdigit, all_chars,
  to_wire, wire_id,
}
use ghal_bol.Identity.Wire.{IsLawful, IsAccepted}

abbrev pub digit : ℕ → ℕ
digit n = if ltb n 10 then n + 48 else n + 87

abbrev pub hex : List ℕ → Text
hex [] = []
hex (b ∷ s) = digit (b / 16 % 16) ∷ digit (b % 16) ∷ hex s

abbrev pub value_of : ℕ → ℕ
value_of c = if leb c 57 then c - 48 else if leb c 70 then c - 55 else c - 87

abbrev pub add_byte : ℕ → Option (List ℕ) → Option (List ℕ)
add_byte b none = none
add_byte b (some s) = some (b % 256 ∷ s)

abbrev pub unhex : Text → Option (List ℕ)
unhex [] = some []
unhex (c ∷ []) = none
unhex (c ∷ d ∷ s) = add_byte (value_of c * 16 + value_of d) (unhex s)

abbrev pub keys : Keys
keys = record { encode = hex; decode = unhex; accepts = λ a b. not (is_empty b) }

hex-digits : (b : List ℕ) → all_chars is_ascii_hexdigit (hex b) ≡ true
hex-digits [] = refl
hex-digits (b ∷ s) = ground (arith, hex-digits s)

length-hex : (b : List ℕ) → length (hex b) ≡ 2 * length b
length-hex [] = refl
length-hex (b ∷ s) = omega (arith, length-hex s)

unhex-hex : (b : List ℕ) → All (λ c. c < 256) b → unhex (hex b) ≡ some b
unhex-hex [] h = refl
unhex-hex (b ∷ s) h =
    ap (add_byte (value_of (digit (b / 16 % 16)) * 16 + value_of (digit (b % 16))))
      (unhex-hex s h.1)
    ∙ ap (λ c. some (c ∷ s)) (ground (arith, h.0))

added-bytes :
    (x : ℕ) (o : Option (List ℕ)) (b : List ℕ)
    → ((s : List ℕ) → o ≡ some s → All (λ c. c < 256) s)
    → add_byte x o ≡ some b
    → All (λ c. c < 256) b
added-bytes x none b h e = absurd (cc)
added-bytes x (some s) b h e = subst (All (λ c. c < 256)) (some_injective e) (omega arith, h s refl)

unhex-bytes : (s : Text) (b : List ℕ) → unhex s ≡ some b → All (λ c. c < 256) b
unhex-bytes [] b h = subst (All (λ c. c < 256)) (some_injective h) tt
unhex-bytes (c ∷ []) b h = absurd (cc)
unhex-bytes (c ∷ d ∷ s) b h =
    added-bytes (value_of c * 16 + value_of d) (unhex s) b (λ t e. unhex-bytes s t e) h

pub laws : IsLawful keys
laws = record {
  encode-digits = hex-digits;
  length-encode = length-hex;
  decode-encode = unhex-hex;
  decode-bytes = unhex-bytes;
  accepts_some = λ a. refl;
}

digit-lower : (n : ℕ) → n < 16 → lower_char (digit n) ≡ digit n
digit-lower n h = ground (arith, h)

hex-lower : (b : List ℕ) → to_ascii_lowercase (hex b) ≡ hex b
unfolding to_ascii_lowercase
hex-lower [] = refl
hex-lower (b ∷ s) =
    let high = digit-lower (b / 16 % 16) (omega arith) in
    let low = digit-lower (b % 16) (omega arith) in λ i. high i ∷ low i ∷ hex-lower s i

lower_wire :
    (a : IdentityAlgorithm) (b : List ℕ)
    → to_ascii_lowercase (to_wire keys (record { algorithm = a; public_key = b }))
      ≡ to_wire keys (record { algorithm = a; public_key = b })
unfolding to_wire wire_id to_ascii_lowercase
lower_wire secp256k1 b = hex-lower b
lower_wire ed25519 b = λ i. wire_id ed25519 ++ (58 ∷ hex-lower b i)
lower_wire ecdsa_p256 b = λ i. wire_id ecdsa_p256 ++ (58 ∷ hex-lower b i)

pub lower :
    (id : Identity) → IsAccepted keys id → to_ascii_lowercase (to_wire keys id) ≡ to_wire keys id
lower id a = lower_wire id.algorithm id.public_key

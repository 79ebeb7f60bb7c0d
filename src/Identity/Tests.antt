-- ===== src/Identity/Tests.antt =====
-- Runs of the identities, with the sample codec.
use ghal_bol.Common.{
  ◌≡◌, refl, ◌↔◌, true, [], ◌∷◌, ok, All, Text, text as lit, text_eq, trim, arith,
}
use ghal_bol.Identity.{
  Identity, ed25519, parse, to_wire, normalize_identity_wire, same_contact_identity,
  decode_pubkey_hex, split_once, from_wire_id, wire_id,
}
use ghal_bol.Identity.Wire.{parse-to_wire, same_contact_iff}
use ghal_bol.Identity.Percent.{
  percent_encode_uri_component, percent_decode_uri_component, is_segment, percent_roundtrip,
}
use ghal_bol.Identity.Sample.{keys, laws}

abbrev key : Identity
key = record { algorithm = ed25519; public_key = 10 ∷ 255 ∷ [] }

parse-to_wire_example : parse keys (to_wire keys key) ≡ ok key
parse-to_wire_example =
    parse-to_wire keys laws key (record { accepted = refl; bytes = omega arith })

key_wire : to_wire keys key ≡ lit "ed25519:0aff"
unfolding to_wire wire_id
key_wire = refl

-- Space at the ends, capital digits and the name of the default algorithm do not count.
normal_of_capitals : normalize_identity_wire keys (lit " secp256k1: 0AFF") ≡ ok (lit "0aff")
unfolding normalize_identity_wire parse to_wire decode_pubkey_hex split_once from_wire_id trim
    text_eq wire_id
normal_of_capitals = refl

same_contact_iff_example : (same_contact_identity keys (lit "0AFF") (lit "0aff") ≡ true) ↔ (
    (w : Text) × (normalize_identity_wire keys (lit "0AFF") ≡ ok w)
    × (normalize_identity_wire keys (lit "0aff") ≡ ok w))
same_contact_iff_example = same_contact_iff keys laws (lit "0AFF") (lit "0aff")

percent_roundtrip_example :
    All (λ c. is_segment c ≡ true) (percent_encode_uri_component (58 ∷ 97 ∷ 32 ∷ 195 ∷ []))
    × (percent_decode_uri_component (percent_encode_uri_component (58 ∷ 97 ∷ 32 ∷ 195 ∷ []))
        ≡ 58 ∷ 97 ∷ 32 ∷ 195 ∷ [])
percent_roundtrip_example = percent_roundtrip (58 ∷ 97 ∷ 32 ∷ 195 ∷ []) (omega arith)

-- `%+5` is read as a byte.
plus_decoded : percent_decode_uri_component (37 ∷ 43 ∷ 53 ∷ []) ≡ 5 ∷ []
unfolding percent_decode_uri_component
plus_decoded = refl

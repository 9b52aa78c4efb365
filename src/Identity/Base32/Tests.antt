-- ===== src/Identity/Base32/Tests.antt =====
-- Concrete strings.
use meshbbs.Common.{ℕ, ◌≡◌, refl, List, [], ◌∷◌, arith, ok, err}
use meshbbs.Identity.Base32.{
  crockford_decode, place_of, lower_of, character, value_of, emit, pack, encode_base32, clean,
  unpack, decode_base32, group, stray_bits, invalid_character,
}
use meshbbs.Identity.Base32.RoundTrip.{decode_base32-encode_base32}

abbrev id : List ℕ
id = 0 ∷ 255 ∷ 16 ∷ 32 ∷ 64 ∷ 128 ∷ 7 ∷ 200 ∷ []

-- 03zh 0g20 g03w g
id_written : encode_base32 id ≡ 48 ∷ 51 ∷ 90 ∷ 72 ∷ 48 ∷ 56 ∷ 50 ∷ 48 ∷ 71 ∷ 48 ∷ 51 ∷ 87 ∷ 71 ∷ []
unfolding encode_base32 pack emit character
id_written = refl

-- The letters o and L read as zero and one, and a hyphen is passed over.
forgiven : decode_base32 (111 ∷ 76 ∷ 45 ∷ 48 ∷ 48 ∷ []) ≡ ok (0 ∷ 64 ∷ [])
unfolding decode_base32 clean unpack value_of crockford_decode place_of lower_of
forgiven = refl

stray : decode_base32 (48 ∷ 49 ∷ []) ≡ err stray_bits
unfolding decode_base32 clean unpack value_of crockford_decode place_of lower_of
stray = refl

-- A whole character of padding more than a byte needs is let through.
padded : decode_base32 (48 ∷ 48 ∷ 48 ∷ []) ≡ decode_base32 (48 ∷ 48 ∷ [])
unfolding decode_base32 clean unpack value_of crockford_decode place_of lower_of
padded = refl

refused_u : decode_base32 (117 ∷ []) ≡ err invalid_character
unfolding decode_base32 clean unpack value_of crockford_decode place_of lower_of
refused_u = refl

decode_base32-encode_base32_example :
    (decode_base32 (encode_base32 id) ≡ ok id) × (decode_base32 (group (encode_base32 id)) ≡ ok id)
decode_base32-encode_base32_example = decode_base32-encode_base32 id (omega arith) (omega arith)

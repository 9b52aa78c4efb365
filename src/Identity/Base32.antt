-- ===== src/Identity/Base32.antt =====
-- internal/identity/base32.go: Crockford base32. Strings are lists of bytes. The accumulators are uint16,
-- and `acc<<8 | uint16(c)` is a sum, since the bits that the shift has cleared are free.
pub mod Clean
pub mod RoundTrip
mod Tests
use meshbbs.Common.{
  ℕ, zero, suc, ◌+◌, ◌-◌, ◌*◌, ◌/◌, ◌%◌, ◌^◌, Bool, true, false, ◌&&◌, ◌||◌, not, Option, none,
  some, List, [], ◌∷◌, ◌++◌, length, take, drop, get_or, if◌then◌else◌, ltb, leb, nat_beq, Result,
  ok, err, ◌>>=◌, ◌>>◌, guard,
}

-- `crockfordAlphabet`
abbrev pub crockford_alphabet : List ℕ
crockford_alphabet =
    48 ∷ 49 ∷ 50 ∷ 51 ∷ 52 ∷ 53 ∷ 54 ∷ 55 ∷ 56 ∷ 57 ∷ 65 ∷ 66 ∷ 67 ∷ 68 ∷ 69 ∷ 70 ∷ 71 ∷ 72 ∷ 74
    ∷ 75 ∷ 77 ∷ 78 ∷ 80 ∷ 81 ∷ 82 ∷ 83 ∷ 84 ∷ 86 ∷ 87 ∷ 88 ∷ 89 ∷ 90 ∷ []

-- `lowerOf`
unfoldable pub lower_of : ℕ → ℕ
lower_of c = if leb 65 c && leb c 90 then c + 32 else c

-- The loop that fills `crockfordDecode`: the place of a character, in either case.
unfoldable pub place_of : ℕ → ℕ → List ℕ → Option ℕ
place_of c i [] = none
place_of c i (a ∷ as') =
    let rest = place_of c (i + 1) as' in
    if nat_beq a c || nat_beq (lower_of a) c then some i else rest

-- `crockfordDecode`, with `none` for -1.
unfoldable pub crockford_decode : ℕ → Option ℕ
crockford_decode c =
    if nat_beq c 73 || nat_beq c 105 || nat_beq c 76 || nat_beq c 108
    then some 1
    else (if nat_beq c 79 || nat_beq c 111 then some 0 else place_of c 0 crockford_alphabet)

-- A character of the alphabet.
unfoldable pub character : ℕ → ℕ
character x = get_or crockford_alphabet x 0

-- The inner loop of `EncodeBase32`, with the number of bits as fuel: the characters, and the bits left.
unfoldable pub emit : ℕ → ℕ → ℕ → List ℕ × ℕ
emit zero acc bits = ([], bits)
emit (suc n) acc bits =
    let (out, left) = emit n acc (bits - 5) in
    if leb 5 bits then (character (acc / 2 ^ (bits - 5) % 32) ∷ out, left) else ([], bits)

-- The loop of `EncodeBase32`, and what follows it.
unfoldable pub pack : ℕ → ℕ → List ℕ → List ℕ
pack acc bits [] = if ltb 0 bits then character (acc * 2 ^ (5 - bits) % 65536 % 32) ∷ [] else []
pack acc bits (c ∷ b) =
    let acc' = acc * 256 % 65536 + c in
    let (out, left) = emit (bits + 8) acc' (bits + 8) in out ++ pack acc' left b

-- `EncodeBase32`
unfoldable pub encode_base32 : List ℕ → List ℕ
encode_base32 b = if nat_beq (length b) 0 then [] else pack 0 0 b

pub data Base32Error : Type 0 where
  invalid_character no_characters stray_bits : Base32Error

-- The first loop of `DecodeBase32`.
unfoldable pub clean : List ℕ → Result Base32Error (List ℕ)
clean [] = ok []
clean (c ∷ s) =
    let rest = clean s in
    if nat_beq c 45 || nat_beq c 32 || nat_beq c 9 then rest else elim (crockford_decode c) [
      | none ↦ err invalid_character
      | some x ↦ elim rest [ ok cs ↦ ok (c ∷ cs) | err e ↦ err e ]
    ]

-- The value of a character that `clean` has let through.
unfoldable pub value_of : ℕ → ℕ
value_of c = elim (crockford_decode c) [ none ↦ 0 | some x ↦ x ]

-- The second loop of `DecodeBase32`, and what follows it.
unfoldable pub unpack : ℕ → ℕ → List ℕ → Result Base32Error (List ℕ)
unpack acc bits [] =
    if ltb 0 bits && not (nat_beq (acc % 2 ^ bits) 0) then err stray_bits else ok []
unpack acc bits (c ∷ cs) =
    let acc' = acc * 32 % 65536 + value_of c in
    if leb 8 (bits + 5)
    then (do out ← unpack acc' (bits + 5 - 8) cs; ok ((acc' / 2 ^ (bits + 5 - 8) % 256) ∷ out))
    else unpack acc' (bits + 5) cs

-- `DecodeBase32`
unfoldable pub decode_base32 : List ℕ → Result Base32Error (List ℕ)
decode_base32 s = do cs ← clean s; guard (not (nat_beq (length cs) 0)) no_characters; unpack 0 0 cs

-- `Group`
unfoldable pub group : List ℕ → List ℕ
group s =
    if not (nat_beq (length s) 13)
    then s
    else take 4 s ++ (45 ∷ (take 4 (drop 4 s) ++ (45 ∷ take 5 (drop 8 s))))

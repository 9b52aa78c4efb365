-- ===== src/Identity/Base32/RoundTrip.antt =====
-- `DecodeBase32` inverts `EncodeBase32`, grouped or not.
use meshbbs.Common.{
  ℕ, zero, suc, ◌+◌, ◌-◌, ◌*◌, ◌/◌, ◌%◌, ◌^◌, ◌≡◌, ◌<◌, refl, ◌∙◌, Bool, true, false, ◌&&◌, List,
  [], ◌∷◌, length, All, arith, leb, nat_beq, ok,
}
use mathlib.Core.Path.{subst}
use meshbbs.Common.Bytes.{IsByte}
use meshbbs.Identity.Base32.Clean.{clean_all, clean-group, pack-AllRead}
use meshbbs.Identity.Base32.{
  place_of, crockford_decode, lower_of, character, value_of, emit, pack, encode_base32, clean,
  unpack, decode_base32, group,
}

-- Each character of the alphabet has its place as its value, by evaluation.
reads_back : ℕ → Bool
reads_back zero = true
reads_back (suc n) = nat_beq (value_of (character n)) n && reads_back n

reads_back_lem : (n x : ℕ) → reads_back n ≡ true → x < n → value_of (character x) ≡ x
unfolding reads_back
reads_back_lem zero x h lt = absurd (omega arith)
reads_back_lem (suc n) x h lt = ground (arith, reads_back_lem n x)

value_of-character : (x : ℕ) → x < 32 → value_of (character x) ≡ x
unfolding reads_back value_of character crockford_decode place_of lower_of
value_of-character x h = reads_back_lem 32 x refl h

-- A character that ends no byte, and one that does.
unpack_more :
    (acc bits x : ℕ) (cs : List ℕ)
    → x < 32
    → bits < 3
    → unpack acc bits (character x ∷ cs) ≡ unpack (acc * 32 % 65536 + x) (bits + 5) cs
unfolding unpack
unpack_more acc bits x cs h hb =
    let short : leb 8 (bits + 5) ≡ false = ground arith in rw (value_of-character x h, short) refl

unpack_byte :
    (acc bits left x p : ℕ) (cs out : List ℕ)
    → x < 32
    → bits ≡ left + 3
    → (acc * 32 % 65536 + x) / 2 ^ left % 256 ≡ p
    → unpack (acc * 32 % 65536 + x) left cs ≡ ok out
    → unpack acc bits (character x ∷ cs) ≡ ok (p ∷ out)
unfolding unpack
unpack_byte acc bits left x p cs out h hb e later =
    let full : leb 8 (bits + 5) ≡ true = ground arith in
    let rest : bits + 5 - 8 ≡ left = omega arith in
    rw (value_of-character x h, full, rest, later, e) refl

-- The packed bytes, from a state in which `left` bits of the byte before are still to come, read back
-- from one in which its other bits are held.
abbrev Pending : ℕ → List ℕ → Type 0
Pending left b =
    (acc acc' p : ℕ)
    → p < 256
    → acc % 2 ^ left ≡ p % 2 ^ left
    → acc' % 2 ^ (8 - left) ≡ p / 2 ^ left
    → unpack acc' (8 - left) (pack acc left b) ≡ ok (p ∷ b)

abbrev Settled : List ℕ → Type 0
Settled b = (acc acc' : ℕ) → unpack acc' 0 (pack acc 0 b) ≡ ok b

Settled-step : (c : ℕ) (b : List ℕ) → c < 256 → Pending 3 b → Settled (c ∷ b)
unfolding pack emit
Settled-step c b h next acc acc' =
    let a = acc * 256 % 65536 + c in
    let x = a / 8 % 32 in
    unpack_more acc' 0 x (pack a 3 b) (omega arith) (omega arith)
    ∙ next a (acc' * 32 % 65536 + x) c h (omega arith) (omega arith)

Pending-three : (c : ℕ) (b : List ℕ) → c < 256 → Pending 1 b → Pending 3 (c ∷ b)
unfolding pack emit
Pending-three c b h next acc acc' p hp low high =
    let a = acc * 256 % 65536 + c in
    let x = a / 64 % 32 in
    let y = a / 2 % 32 in
    let d = acc' * 32 % 65536 + x in
    unpack_byte acc' 5 2 x p (character y ∷ pack a 1 b) (c ∷ b) (omega arith) refl
      (omega (arith, low, high))
      (unpack_more d 2 y (pack a 1 b) (omega arith) (omega arith)
        ∙ next a (d * 32 % 65536 + y) c h (omega arith) (omega arith))

Pending-one : (c : ℕ) (b : List ℕ) → c < 256 → Pending 4 b → Pending 1 (c ∷ b)
unfolding pack emit
Pending-one c b h next acc acc' p hp low high =
    let a = acc * 256 % 65536 + c in
    let x = a / 16 % 32 in
    unpack_byte acc' 7 4 x p (pack a 4 b) (c ∷ b) (omega arith) refl (omega (arith, low, high))
      (next a (acc' * 32 % 65536 + x) c h (omega arith) (omega arith))

Pending-four : (c : ℕ) (b : List ℕ) → c < 256 → Pending 2 b → Pending 4 (c ∷ b)
unfolding pack emit
Pending-four c b h next acc acc' p hp low high =
    let a = acc * 256 % 65536 + c in
    let x = a / 128 % 32 in
    let y = a / 4 % 32 in
    let d = acc' * 32 % 65536 + x in
    unpack_byte acc' 4 1 x p (character y ∷ pack a 2 b) (c ∷ b) (omega arith) refl
      (omega (arith, low, high))
      (unpack_more d 1 y (pack a 2 b) (omega arith) (omega arith)
        ∙ next a (d * 32 % 65536 + y) c h (omega arith) (omega arith))

Pending-two : (c : ℕ) (b : List ℕ) → c < 256 → Settled b → Pending 2 (c ∷ b)
unfolding pack emit
Pending-two c b h next acc acc' p hp low high =
    let a = acc * 256 % 65536 + c in
    let x = a / 32 % 32 in
    let y = a / 1 % 32 in
    let d = acc' * 32 % 65536 + x in
    unpack_byte acc' 6 3 x p (character y ∷ pack a 0 b) (c ∷ b) (omega arith) refl
      (omega (arith, low, high))
      (unpack_byte d 3 0 y c (pack a 0 b) b (omega arith) refl (omega arith)
        (next a (d * 32 % 65536 + y)))

-- After the last character, which has the bits of the byte before at its top, zeros are left.
unpack_end : (acc bits : ℕ) → acc % 2 ^ bits ≡ 0 → unpack acc bits [] ≡ ok []
unfolding unpack
unpack_end acc bits h = ground arith

last_three : Pending 3 []
unfolding pack
last_three acc acc' p hp low high =
    let x = acc * 4 % 65536 % 32 in
    unpack_byte acc' 5 2 x p [] [] (omega arith) refl (omega (arith, low, high))
      (unpack_end (acc' * 32 % 65536 + x) 2 (omega (arith, low, high)))

last_one : Pending 1 []
unfolding pack
last_one acc acc' p hp low high =
    let x = acc * 16 % 65536 % 32 in
    unpack_byte acc' 7 4 x p [] [] (omega arith) refl (omega (arith, low, high))
      (unpack_end (acc' * 32 % 65536 + x) 4 (omega (arith, low, high)))

last_four : Pending 4 []
unfolding pack
last_four acc acc' p hp low high =
    let x = acc * 2 % 65536 % 32 in
    unpack_byte acc' 4 1 x p [] [] (omega arith) refl (omega (arith, low, high))
      (unpack_end (acc' * 32 % 65536 + x) 1 (omega (arith, low, high)))

last_two : Pending 2 []
unfolding pack
last_two acc acc' p hp low high =
    let x = acc * 8 % 65536 % 32 in
    unpack_byte acc' 6 3 x p [] [] (omega arith) refl (omega (arith, low, high))
      (unpack_end (acc' * 32 % 65536 + x) 3 (omega (arith, low, high)))

-- Where the five states lead.
abbrev Reads : List ℕ → Type 0
Reads b = Settled b × Pending 3 b × Pending 1 b × Pending 4 b × Pending 2 b

every-Reads : (b : List ℕ) → All IsByte b → Reads b
unfolding pack unpack
every-Reads [] h = (λ acc acc'. refl, last_three, last_one, last_four, last_two)
every-Reads (c ∷ b) (h, hs) =
    let (settled, three, one, four, two) = every-Reads b hs in
    (
      Settled-step c b h three,
      Pending-three c b h one,
      Pending-one c b h four,
      Pending-four c b h two,
      Pending-two c b h settled,
    )

decode_base32_of :
    (s cs : List ℕ) (b : List ℕ)
    → clean s ≡ ok cs
    → 0 < length cs
    → unpack 0 0 cs ≡ ok b
    → decode_base32 s ≡ ok b
unfolding decode_base32
decode_base32_of s cs b e some_there u = ground (arith, e, u)

pack_some : (c : ℕ) (b : List ℕ) → 0 < length (pack 0 0 (c ∷ b))
unfolding pack emit
pack_some c b = omega arith

encode_base32_of : (c : ℕ) (b : List ℕ) → pack 0 0 (c ∷ b) ≡ encode_base32 (c ∷ b)
unfolding encode_base32
encode_base32_of c b = ground arith

-- DecodeBase32 reads back what EncodeBase32 writes for one byte or more, also after Group has put
-- hyphens in.
pub decode_base32-encode_base32 :
    (b : List ℕ)
    → All IsByte b
    → 0 < length b
    → (decode_base32 (encode_base32 b) ≡ ok b) × (decode_base32 (group (encode_base32 b)) ≡ ok b)
decode_base32-encode_base32 [] h nonempty = absurd (omega arith)
decode_base32-encode_base32 (c ∷ b) h nonempty =
    let s = pack 0 0 (c ∷ b) in
    let kept = pack-AllRead 0 0 (c ∷ b) in
    let read = (every-Reads (c ∷ b) h).0 0 0 in
    subst (λ t. (decode_base32 t ≡ ok (c ∷ b)) × (decode_base32 (group t) ≡ ok (c ∷ b)))
      (encode_base32_of c b)
      (
        decode_base32_of s s (c ∷ b) (clean_all s kept) (pack_some c b) read,
        decode_base32_of (group s) s (c ∷ b) (clean-group s kept) (pack_some c b) read,
      )

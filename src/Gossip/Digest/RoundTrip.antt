-- ===== src/Gossip/Digest/RoundTrip.antt =====
-- A digest is read back, and each has one wire form.
use meshbbs.Common.{
  ℕ, zero, suc, ◌+◌, ◌*◌, ◌/◌, ◌%◌, ◌≡◌, ◌≢◌, ◌≤◌, ◌<◌, refl, sym, ap, ◌∙◌, true, Option, none,
  some, List, [], ◌∷◌, ◌++◌, append_assoc, length, length-append, take, drop, get_or, All, arith,
  inl, inr, Bool-cases, Result-cases, bytes_eq, bytes_beq, bytes_beq_iff, if◌then◌else◌, ok,
}
use mathlib.Core.Path.{subst}
use meshbbs.Common.Bytes.{IsByte, be16}
use meshbbs.Common.Sort.{
  sort_by, insert_by, follows, Chain, Apart, AllApart, length-sort_by, All-sort_by, sort_by-Chain,
  sort_by_of_Chain,
}
use meshbbs.Vv.{less}
use meshbbs.Vv.Origins.{less_total}
use meshbbs.Vv.Wire.{ascends}
use meshbbs.Gossip.{AreaTag, msg_digest, format_version, max_areas, check_header}
use meshbbs.Gossip.Digest.{
  AreaState, Digest, lower_tag, find_area, area_bytes, encode_areas, encode_digest, decode_areas,
  decode_digest,
}

-- What the Go types of the fields give.
pub record IsAreaState (a : AreaState) : Type 0 where
  pub tag_len : length a.tag ≡ 4
  pub fingerprint_len : length a.fingerprint ≡ 4
  pub total_fits : a.total < 65536

-- No tag stands twice.
abbrev pub IsDistinct : List AreaState → Type 0
IsDistinct [] = Unit {0}
IsDistinct (a ∷ as') = All (λ b. a.tag ≢ b.tag) as' × IsDistinct as'

distinct-Apart :
    (a : AreaState) (bs : List AreaState) → All (λ b. a.tag ≢ b.tag) bs → All (Apart lower_tag a) bs
distinct-Apart a [] h = tt
distinct-Apart a (b ∷ bs) (h, hs) = (
  λ e. elim (Bool-cases (less b.tag a.tag)) [
    | inl below ↦ below
    | inr above ↦ absurd (h (less_total a.tag b.tag e above))
  ],
  distinct-Apart a bs hs,
)

IsDistinct-AllApart : (bs : List AreaState) → IsDistinct bs → AllApart lower_tag bs
IsDistinct-AllApart [] h = tt
IsDistinct-AllApart (a ∷ bs) (h, hs) = (distinct-Apart a bs h, IsDistinct-AllApart bs hs)

abbrev tag_of : Option AreaState → Option AreaTag
tag_of none = none
tag_of (some a) = some a.tag

ascends-follows :
    (prev : Option AreaState) (a : AreaState)
    → ascends (tag_of prev) a.tag ≡ follows lower_tag prev a
unfolding ascends follows
ascends-follows none a = refl
ascends-follows (some p) a = refl

area_bytes_append :
    (a : AreaState) (rest : List ℕ)
    → area_bytes a ++ rest
      ≡ a.tag ++ (a.fingerprint ++ ((a.total / 256 % 256) ∷ (a.total % 256) ∷ rest))
area_bytes_append a rest = simp append_assoc

-- The fields of an area, read from its bytes.
area_read :
    (t f : List ℕ) (n : ℕ) (rest : List ℕ)
    → length t ≡ 4
    → length f ≡ 4
    → n < 65536
    → let b = t ++ (f ++ ((n / 256 % 256) ∷ (n % 256) ∷ rest)) in
      (take 4 b ≡ t)
      × (take 4 (drop 4 b) ≡ f)
      × (get_or b 8 0 * 256 + get_or b 9 0 ≡ n)
      × (drop 10 b ≡ rest)
area_read (a ∷ b ∷ c ∷ d ∷ []) (e ∷ f ∷ g ∷ h ∷ []) n rest p q s = (refl, refl, omega arith, refl)
area_read t f n rest p q s = absurd (omega arith)

decode_areas_step :
    (n : ℕ) (prev : Option AreaTag) (b t f rest : List ℕ) (total : ℕ) (as' : List AreaState)
    → take 4 b ≡ t
    → take 4 (drop 4 b) ≡ f
    → get_or b 8 0 * 256 + get_or b 9 0 ≡ total
    → drop 10 b ≡ rest
    → ascends prev t ≡ true
    → decode_areas n (some t) rest ≡ ok as'
    → decode_areas (suc n) prev b ≡ ok (record { tag = t; fingerprint = f; total = total } ∷ as')
unfolding decode_areas
decode_areas_step n prev b t f rest total as' p q r s above later =
    rw (p, q, r, s, above, later) refl

decode_areas-encode_areas :
    (prev : Option AreaState) (as' : List AreaState)
    → All IsAreaState as'
    → Chain lower_tag prev as'
    → decode_areas (length as') (tag_of prev) (encode_areas as') ≡ ok as'
unfolding decode_areas encode_areas
decode_areas-encode_areas prev [] h c = refl
decode_areas-encode_areas prev (a ∷ as') (h, hs) (c, cs) =
    let r =
      area_read a.tag a.fingerprint a.total (encode_areas as') h.tag_len h.fingerprint_len
        h.total_fits in
    decode_areas_step (length as') (tag_of prev) (encode_areas (a ∷ as')) a.tag a.fingerprint
      (encode_areas as') a.total as' (ap (take 4) (area_bytes_append a (encode_areas as')) ∙ r.0)
      (ap (λ b. take 4 (drop 4 b)) (area_bytes_append a (encode_areas as')) ∙ r.1)
      (ap (λ b. get_or b 8 0 * 256 + get_or b 9 0) (area_bytes_append a (encode_areas as')) ∙ r.2)
      (ap (drop 10) (area_bytes_append a (encode_areas as')) ∙ r.3) (ascends-follows prev a ∙ c)
      (decode_areas-encode_areas (some a) as' hs cs)

length-encode_areas :
    (as' : List AreaState) → All IsAreaState as' → length (encode_areas as') ≡ 10 * length as'
unfolding encode_areas
length-encode_areas [] h = refl
length-encode_areas (a ∷ as') (h, hs) = omega (
  arith,
  length-append (area_bytes a) (encode_areas as'),
  length-append a.tag (a.fingerprint ++ be16 a.total),
  length-append a.fingerprint (be16 a.total),
  length-encode_areas as' hs,
  h.tag_len,
  h.fingerprint_len,
)

find_area-insert_by :
    (t : AreaTag) (a : AreaState) (bs : List AreaState)
    → All (λ b. a.tag ≢ b.tag) bs
    → find_area t (insert_by lower_tag a bs) ≡ find_area t (a ∷ bs)
unfolding find_area insert_by
find_area-insert_by t a [] h = refl
find_area-insert_by t a (b ∷ bs) (h, hs) =
    ground (arith, find_area-insert_by t a bs hs, bytes_beq_iff a.tag t, bytes_beq_iff b.tag t)

find_area-sort_by :
    (t : AreaTag) (bs : List AreaState)
    → IsDistinct bs
    → find_area t (sort_by lower_tag bs) ≡ find_area t bs
unfolding find_area sort_by
find_area-sort_by t [] h = refl
find_area-sort_by t (a ∷ bs) (h, hs) =
    let moved =
      find_area-insert_by t a (sort_by lower_tag bs)
        (All-sort_by lower_tag (λ b. a.tag ≢ b.tag) bs h) in
    moved ∙ ap (λ r. if bytes_beq a.tag t then some a else r) (find_area-sort_by t bs hs)

decode_digest_body :
    (dictionary m n : ℕ) (body : List ℕ) (as' : List AreaState)
    → m ≡ n
    → n ≤ max_areas
    → length body ≡ 10 * n
    → decode_areas n none body ≡ ok as'
    → decode_digest (msg_digest ∷ format_version ∷ dictionary ∷ m ∷ body)
      ≡ ok (record { dictionary = dictionary; areas = as' })
unfolding decode_digest check_header
decode_digest_body dictionary m n body as' same few size read = ground arith

-- DecodeDigest of what Encode writes gives the digest as Encode leaves it, sorted, and Get answers as
-- it did before. The digest has at most MaxAreas areas with different tags, and fields in the range
-- of their Go types.
pub decode_digest-encode_digest :
    (d : Digest)
    → All IsAreaState d.areas
    → IsDistinct d.areas
    → length d.areas ≤ max_areas
    → (decode_digest (encode_digest d).1 ≡ ok (encode_digest d).0)
      × ((t : AreaTag) → find_area t (encode_digest d).0.areas ≡ find_area t d.areas)
unfolding encode_digest
decode_digest-encode_digest d h once few =
    let sorted = sort_by lower_tag d.areas in
    let size = length-sort_by lower_tag d.areas in
    let fields = All-sort_by lower_tag IsAreaState d.areas h in
    let bytes = length-encode_areas sorted fields in
    let read =
      decode_areas-encode_areas none sorted fields
        (sort_by-Chain lower_tag d.areas (IsDistinct-AllApart d.areas once)) in
    (
      decode_digest_body d.dictionary (length sorted % 256) (length sorted) (encode_areas sorted)
          sorted (omega arith) (omega arith) bytes read,
      λ t. find_area-sort_by t d.areas once,
    )

-- The area at the front of the bytes.
abbrev front : List ℕ → AreaState
front b = record {
  tag = take 4 b;
  fingerprint = take 4 (drop 4 b);
  total = get_or b 8 0 * 256 + get_or b 9 0;
}

decode_areas_inv :
    (n : ℕ) (prev : Option AreaTag) (b : List ℕ) (as' : List AreaState)
    → decode_areas (suc n) prev b ≡ ok as'
    → (rest : List AreaState) × (ascends prev (take 4 b) ≡ true)
      × (decode_areas n (some (take 4 b)) (drop 10 b) ≡ ok rest)
      × (front b ∷ rest ≡ as')
unfolding decode_areas
decode_areas_inv n prev b as' e =
    elim (Result-cases (decode_areas n (some (take 4 b)) (drop 10 b))) [
      | inl (rest, got) ↦ (rest, ground arith, got, ground arith)
      | inr (x, bad) ↦ absurd (ground arith)
    ]

two_bytes :
    (x y : ℕ) → x < 256 → y < 256 → ((x * 256 + y) / 256 % 256 ≡ x) × ((x * 256 + y) % 256 ≡ y)
two_bytes x y h k = (omega arith, omega arith)

-- The other direction: what the loop read, it would write.
decode_areas_parses :
    (n : ℕ) (prev : Option AreaState) (b : List ℕ) (as' : List AreaState)
    → All IsByte b
    → length b ≡ 10 * n
    → decode_areas n (tag_of prev) b ≡ ok as'
    → (length as' ≡ n) × Chain lower_tag prev as' × (encode_areas as' ≡ b)
unfolding decode_areas encode_areas
decode_areas_parses zero prev [] as' hb l e = ground arith
decode_areas_parses zero prev (x ∷ b) as' hb l e = absurd (omega arith)
decode_areas_parses (suc n) prev (b0 ∷ b1 ∷ b2 ∷ b3 ∷ b4 ∷ b5 ∷ b6 ∷ b7 ∷ b8 ∷ b9 ∷ b) as'
      (h0, (h1, (h2, (h3, (h4, (h5, (h6, (h7, (h8, (h9, hb)))))))))) l e =
    let bytes = b0 ∷ b1 ∷ b2 ∷ b3 ∷ b4 ∷ b5 ∷ b6 ∷ b7 ∷ b8 ∷ b9 ∷ b in
    let (rest, above, later, whole) = decode_areas_inv n (tag_of prev) bytes as' e in
    let (size, chain, same) =
      decode_areas_parses n (some (front bytes)) b rest hb (omega arith) later in
    let (high, low) = two_bytes b8 b9 h8 h9 in
    subst (λ x. (length x ≡ suc n) × Chain lower_tag prev x × (encode_areas x ≡ bytes)) whole
      (
        ap suc size,
        (sym (ascends-follows prev (front bytes)) ∙ above, chain),
        rw (high, low, same) refl,
      )
decode_areas_parses (suc n) prev b as' hb l e = absurd (omega arith)

encode_digest_of :
    (b0 b1 dictionary n : ℕ) (as' : List AreaState) (body : List ℕ)
    → sort_by lower_tag as' ≡ as'
    → length as' ≡ n
    → encode_areas as' ≡ body
    → b0 ≡ msg_digest
    → b1 ≡ format_version
    → n < 256
    → encode_digest (record { dictionary = dictionary; areas = as' })
      ≡ (record { dictionary = dictionary; areas = as' }, b0 ∷ b1 ∷ dictionary ∷ n ∷ body)
unfolding encode_digest
encode_digest_of b0 b1 dictionary n as' body sorted size same p q h =
    let small : length as' % 256 ≡ n = omega (arith, size) in rw (p, q, sorted, same, small) refl

-- The bytes of a digest that DecodeDigest accepts are the ones that Encode writes for what it
-- returns, and Encode leaves that digest as it is.
pub encode_digest-decode_digest :
    (b : List ℕ) (d : Digest) → All IsByte b → decode_digest b ≡ ok d → encode_digest d ≡ (d, b)
unfolding encode_digest decode_digest check_header
encode_digest-decode_digest (b0 ∷ b1 ∷ b2 ∷ b3 ∷ b) d (h0, (h1, (h2, (h3, hb)))) e =
    elim (Result-cases (decode_areas b3 none b)) [
      | inr (x, bad) ↦ absurd (ground arith)
      | inl (as', got) ↦
          let (size, chain, same) = decode_areas_parses b3 none b as' hb (ground arith) got in
          let whole : record { dictionary = b2; areas = as' } ≡ d = ground arith in
          let sorted = sort_by_of_Chain lower_tag none as' chain in
          subst (λ x. encode_digest x ≡ (x, b0 ∷ b1 ∷ b2 ∷ b3 ∷ b)) whole
            (encode_digest_of b0 b1 b2 b3 as' b sorted size same (ground arith) (ground arith) h3)
    ]
encode_digest-decode_digest b d hb e = absurd (ground arith)

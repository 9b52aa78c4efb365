-- ===== src/Vv/Wire/RoundTrip.antt =====
-- `Decode` of what `Encode` wrote.
use meshbbs.Common.{
  ℕ, suc, ◌+◌, ◌≡◌, ◌≤◌, refl, ap, ◌∙◌, true, Option, none, some, List, [], ◌∷◌, ◌++◌, length,
  length-append, take_width, drop_width, drop-length-append, All, arith, if◌then◌else◌, leb,
  nat_beq_iff, bytes_eq, bytes_beq_iff, ok, Bool-cases, inl, inr, Option-cases,
}
use meshbbs.Common.Bytes.{IsU64}
use meshbbs.Common.Map.{find, put}
use meshbbs.Common.Uvarint.{append_uvarint}
use meshbbs.Common.Uvarint.Read.{uvarint-append_uvarint}
use meshbbs.Identity.{NodeId, node_id_len}
use meshbbs.Vv.{
  Entries, Vector, IsVector, AllEntries, get_entry, get, len, less, keys, insert, sort, origins,
}
use meshbbs.Vv.Origins.{Ascending, AllAbove, origins-Ascending, contains, contains-origins}
use meshbbs.Vv.Wire.{
  ascends, decode_loop, decode, encode_loop, encode, canonical_uvarint, max_origins,
}
use meshbbs.Vv.Wire.Parse.{encode_entries, put_all, AscendsFrom}
use meshbbs.Vv.Wire.Canonical.{length-keys, put_all_append, AscendsFrom-Ascending, Ascending-IsMap}

canonical_uvarint-append_uvarint :
    (x : ℕ) (rest : List ℕ)
    → IsU64 x
    → canonical_uvarint (append_uvarint x ++ rest) ≡ ok (x, length (append_uvarint x))
unfolding canonical_uvarint
canonical_uvarint-append_uvarint x rest h =
    rw (uvarint-append_uvarint x rest h, canonical_uvarint)
      (rw ((nat_beq_iff (length (append_uvarint x)) (length (append_uvarint x))).1 refl))

-- Sequences fit 64 bits.
abbrev AllU64 : Entries → Type 0
AllU64 [] = Unit {0}
AllU64 ((k, s) ∷ es) = IsU64 s × AllU64 es

has_room : (n : ℕ) (k t : List ℕ) → length k ≡ n → leb n (length (k ++ t)) ≡ true
has_room n k t h = ground (arith, length-append k t)

-- One round of the loop, on the bytes of one entry.
decode_loop_entry :
    (n : ℕ) (prev : Option NodeId) (k : NodeId) (s : ℕ) (tail : List ℕ) (m : Entries)
    → length k ≡ node_id_len
    → ascends prev k ≡ true
    → IsU64 s
    → decode_loop (suc n) prev (k ++ (append_uvarint s ++ tail)) m
      ≡ decode_loop n (some k) tail (put k s m)
unfolding decode_loop
decode_loop_entry n prev k s tail m hk a hs =
    let after = append_uvarint s ++ tail in
    rw
      (
        has_room node_id_len k after hk,
        take_width node_id_len k after hk,
        drop_width node_id_len k after hk,
      )
      (rw (canonical_uvarint-append_uvarint s tail hs)
        (rw (drop-length-append (append_uvarint s) tail, a)))

decode_loop-encode_entries :
    (es : Entries) (prev : Option NodeId) (m : Entries)
    → AscendsFrom prev es
    → AllU64 es
    → decode_loop (length es) prev (encode_entries es) m ≡ ok (put_all m es, [])
unfolding encode_entries put_all
decode_loop-encode_entries [] prev m a h = unfold decode_loop in refl
decode_loop-encode_entries ((k, s) ∷ es) prev m (a, w, as') (h, hs) =
    decode_loop_entry (length es) prev k s (encode_entries es) m w a h
    ∙ decode_loop-encode_entries es (some k) (put k s m) as' hs

-- The entries of `v`, in the order of the given origins.
abbrev listing : Vector → List NodeId → Entries
listing v [] = []
listing v (o ∷ os) = (o, get v o) ∷ listing v os

encode_loop-listing :
    (v : Vector) (os : List NodeId) → encode_loop v os ≡ encode_entries (listing v os)
unfolding encode_loop encode_entries
encode_loop-listing v [] = refl
encode_loop-listing v (o ∷ os) = rw (encode_loop-listing v os)

length-listing : (v : Vector) (os : List NodeId) → length (listing v os) ≡ length os
length-listing v [] = refl
length-listing v (o ∷ os) = ap suc (length-listing v os)

listing-AscendsFrom :
    (v : Vector) (os : List NodeId)
    → Ascending os
    → All (λ o. length o ≡ node_id_len) os
    → AscendsFrom none (listing v os)
listing-AscendsFrom v [] a w = tt
listing-AscendsFrom v (o ∷ os) (a, as') (w, ws) = (unfold ascends in refl, w, after o os a as' ws)
  where
    after :
        (o : NodeId) (os : List NodeId)
        → AllAbove o os
        → Ascending os
        → All (λ x. length x ≡ node_id_len) os
        → AscendsFrom (some o) (listing v os)
    after o [] a b w = tt
    after o (p ∷ os) (a, as') (b, bs) (w, ws) = (unfold ascends in a, w, after p os b bs ws)

find-listing :
    (v : Vector) (k : NodeId) (os : List NodeId)
    → find k (listing v os) ≡ (if contains k os then some (get v k) else none)
unfolding find contains
find-listing v k [] = refl
find-listing v k (o ∷ os) = ground (arith, find-listing v k os, bytes_beq_iff o k)

-- The listing of its origins reads like the vector itself.
find-listing-origins : (v : Vector) (k : NodeId) → find k (listing v (origins v)) ≡ find k v.entries
unfolding get get_entry
find-listing-origins v k = ground (
  arith,
  find-listing v k (origins v),
  contains-origins k v,
  Option-cases (find k v.entries),
  Bool-cases (contains k (origins v)),
)

All-insert :
    (P : NodeId → Type 0) (x : NodeId) (xs : List NodeId) → P x → All P xs → All P (insert x xs)
unfolding insert
All-insert P x [] h hs = (h, tt)
All-insert P x (y ∷ ys) h (k, ks) = elim (Bool-cases (less x y)) [
  | inl lt ↦ rw lt (h, (k, ks))
  | inr ge ↦ rw ge (k, All-insert P x ys h ks)
]

pub All-sort : (P : NodeId → Type 0) (xs : List NodeId) → All P xs → All P (sort xs)
unfolding sort
All-sort P [] h = tt
All-sort P (x ∷ xs) (h, hs) = All-insert P x (sort xs) h (All-sort P xs hs)

length-insert : (x : NodeId) (xs : List NodeId) → length (insert x xs) ≡ length xs + 1
unfolding insert
length-insert x [] = omega arith
length-insert x (y ∷ ys) = ground (arith, length-insert x ys)

length-sort : (xs : List NodeId) → length (sort xs) ≡ length xs
unfolding sort
length-sort [] = refl
length-sort (x ∷ xs) = omega (arith, length-insert x (sort xs), length-sort xs)

pub length-origins : (v : Vector) → length (origins v) ≡ len v
unfolding origins len
length-origins v = length-sort (keys v.entries) ∙ length-keys v.entries

pub keys_width : (m : Entries) → AllEntries m → All (λ o. length o ≡ node_id_len) (keys m)
keys_width [] h = tt
keys_width ((k, s) ∷ m) h = (h.0.0.0, keys_width m h.1)

pub get_entry-IsU64 : (k : NodeId) (m : Entries) → AllEntries m → IsU64 (get_entry k m)
unfolding get_entry find
get_entry-IsU64 k [] h = omega arith
get_entry-IsU64 k ((j, s) ∷ m) (h, hs) = ground (arith, get_entry-IsU64 k m hs)

listing-AllU64 : (v : Vector) (os : List NodeId) → AllEntries v.entries → AllU64 (listing v os)
unfolding get
listing-AllU64 v [] h = tt
listing-AllU64 v (o ∷ os) h = (get_entry-IsU64 o v.entries h, listing-AllU64 v os h)

leb_of_le : (a b : ℕ) → a ≤ b → leb a b ≡ true
leb_of_le a b h = ground arith

decode_listing :
    (v : Vector) (es : Entries)
    → encode v ≡ append_uvarint (length es) ++ encode_entries es
    → length es ≤ max_origins
    → AscendsFrom none es
    → AllU64 es
    → decode (encode v) ≡ ok (record { entries = put_all [] es })
unfolding decode
decode_listing v es e few a h =
    rw (e, canonical_uvarint-append_uvarint (length es) (encode_entries es) (omega arith))
      (rw
        (
          drop-length-append (append_uvarint (length es)) (encode_entries es),
          decode_loop-encode_entries es none [] a h,
        )
        (rw (leb_of_le (length es) max_origins few)))

origins-listing : (v : Vector) → IsVector v → AscendsFrom none (listing v (origins v))
unfolding origins
origins-listing v h =
    listing-AscendsFrom v (origins v) (origins-Ascending v h.distinct)
      (All-sort _ (keys v.entries) (keys_width v.entries h.typed))

encode-listing :
    (v : Vector)
    → encode v
      ≡ append_uvarint (length (listing v (origins v))) ++ encode_entries (listing v (origins v))
unfolding encode
encode-listing v = rw (encode_loop-listing v (origins v), length-listing v (origins v))

-- Decoding the encoding of a vector of at most `max_origins` origins succeeds, and gives a vector
-- with the same entries. The vector has its keys once, and its fields are in range.
pub decode-encode :
    (v : Vector)
    → IsVector v
    → len v ≤ max_origins
    → (w : Vector) × (decode (encode v) ≡ ok w)
      × ((k : NodeId) → find k w.entries ≡ find k v.entries)
decode-encode v h few =
    let asc = origins-listing v h in
    (
      record { entries = put_all [] (listing v (origins v)) },
      decode_listing v (listing v (origins v)) (encode-listing v)
          (omega (arith, length-listing v (origins v), length-origins v)) asc
          (listing-AllU64 v (origins v) h.typed),
      λ k.
          rw
            (put_all_append [] (listing v (origins v))
              (Ascending-IsMap _ (AscendsFrom-Ascending none (listing v (origins v)) asc)))
            (find-listing-origins v k),
    )

-- ===== src/Vv/Equality.antt =====
-- `Equal`, and what depends on nothing but the entries: `Origins`, `Encode` and `Hash`.
use meshbbs.Common.{
  ℕ, ◌≡◌, ◌<◌, refl, sym, ◌∙◌, true, none, some, List, [], ◌∷◌, length, arith, bytes_beq_iff,
  bytes_eq, ◌↔◌, Bool-cases, Option-cases, inl, inr,
}
use meshbbs.Common.Map.{find, IsMap, KeysWithin, length-KeysWithin, KeysWithin-of_length}
use meshbbs.Identity.{NodeId}
use meshbbs.Vv.{
  Entries, Vector, get_entry, get, len, same_entries, equal, origins, hash_input, hash,
}
use meshbbs.Vv.Lookup.{get_entry_absent}
use meshbbs.Vv.Merge.{Same, IsMapped}
use meshbbs.Vv.Origins.{contains, contains-origins, Ascending-ext, origins-Ascending}
use meshbbs.Vv.Wire.{encode_loop, encode}

-- No entry is zero.
abbrev pub AllPositive : Entries → Type 0
AllPositive [] = Unit {0}
AllPositive ((k, s) ∷ m) = (0 < s) × AllPositive m

abbrev pub IsPositive : Vector → Type 0
IsPositive v = AllPositive v.entries

-- A key of a map without zeros reads above zero.
get_entry_positive :
    (k : NodeId) (m : Entries) → AllPositive m → get_entry k m ≡ 0 → find k m ≡ none
unfolding get_entry find
get_entry_positive k [] h e = refl
get_entry_positive k ((j, s) ∷ m) (h, hs) e = ground (arith, get_entry_positive k m hs)

-- Each entry of `m` is what `n` reads.
abbrev ReadsAll : Entries → Entries → Type 0
ReadsAll m n = (k : NodeId) (s : ℕ) → find k m ≡ some s → get_entry k n ≡ s

get_entry_found : (k : NodeId) (m : Entries) (s : ℕ) → find k m ≡ some s → get_entry k m ≡ s
unfolding get_entry
get_entry_found k m s f = ground arith

same_entries→read : (m n : Entries) → same_entries m n ≡ true → ReadsAll m n
unfolding same_entries find
same_entries→read [] n h k s f = absurd (ground arith)
same_entries→read ((j, t) ∷ m) n h k s f =
    ground (arith, same_entries→read m n (ground arith) k s, bytes_beq_iff j k)

read→same_entries : (m n : Entries) → IsMap m → ReadsAll m n → same_entries m n ≡ true
unfolding same_entries find
read→same_entries [] n h r = refl
read→same_entries ((j, t) ∷ m) n (h, hs) r = ground (
  arith,
  r j t,
  bytes_beq_iff j j,
  read→same_entries m n hs (λ k s f. ground (arith, r k s, bytes_beq_iff j k)),
)

-- Maps without zeros that read alike have the same keys.
read-KeysWithin :
    (m n : Entries)
    → AllPositive m
    → ((k : NodeId) → get_entry k m ≡ get_entry k n)
    → KeysWithin m n
read-KeysWithin m n p r k g = get_entry_positive k m p (r k ∙ get_entry_absent k n g)

ReadsAll-KeysWithin : (m n : Entries) → AllPositive m → ReadsAll m n → KeysWithin m n
ReadsAll-KeysWithin m n p r k g = elim (Option-cases (find k m)) [
  | inl none_there ↦ none_there
  | inr (s, f) ↦
      get_entry_positive k m p (get_entry_found k m s f ∙ sym (r k s f) ∙ get_entry_absent k n g)
]

-- Equality of the two lengths and of the entries of one is equality of all entries.
equal_keys :
    (m n : Entries)
    → IsMap m
    → IsMap n
    → AllPositive m
    → length m ≡ length n
    → same_entries m n ≡ true
    → (k : NodeId) → get_entry k m ≡ get_entry k n
equal_keys m n hm hn p l e k =
    let r = same_entries→read m n e in
    elim (Option-cases (find k m)) [
      | inl absent ↦
          get_entry_absent k m absent
          ∙ sym (
              get_entry_absent k n
                (KeysWithin-of_length m n hm hn (ReadsAll-KeysWithin m n p r) l k absent))
      | inr (s, f) ↦ get_entry_found k m s f ∙ sym (r k s f)
    ]

-- On vectors without zero entries, with each key once, `Equal` says exactly that they read the same
-- everywhere.
pub equal_iff :
    (a b : Vector)
    → IsMapped a
    → IsMapped b
    → IsPositive a
    → IsPositive b
    → (equal a b ≡ true) ↔ Same a b
unfolding equal get len
equal_iff a b ha hb pa pb = (
  λ e. equal_keys a.entries b.entries ha hb pa (ground arith) (ground arith),
  λ r. ground (
    arith,
    length-KeysWithin a.entries b.entries ha hb (read-KeysWithin a.entries b.entries pa r),
    length-KeysWithin b.entries a.entries hb ha
        (read-KeysWithin b.entries a.entries pb (λ k. sym (r k))),
    read→same_entries a.entries b.entries ha (λ k s f. sym (r k) ∙ get_entry_found k a.entries s f),
  ),
)

contains-origins_agree :
    (a b : Vector)
    → ((k : NodeId) → find k a.entries ≡ find k b.entries)
    → (k : NodeId) → contains k (origins a) ≡ contains k (origins b)
contains-origins_agree a b h k = ground (
  arith,
  h k,
  contains-origins k a,
  contains-origins k b,
  Bool-cases (contains k (origins a)),
  Bool-cases (contains k (origins b)),
)

-- The order in which a map is visited does not show: two maps with the same entries have the same
-- origins,
pub origins_agree :
    (a b : Vector)
    → IsMapped a
    → IsMapped b
    → ((k : NodeId) → find k a.entries ≡ find k b.entries)
    → origins a ≡ origins b
origins_agree a b ha hb h =
    Ascending-ext (origins a) (origins b) (origins-Ascending a ha) (origins-Ascending b hb)
      (contains-origins_agree a b h)

encode_loop_agree :
    (a b : Vector) (os : List NodeId) → Same a b → encode_loop a os ≡ encode_loop b os
unfolding encode_loop
encode_loop_agree a b [] h = refl
encode_loop_agree a b (o ∷ os) h = rw (h o, encode_loop_agree a b os h)

hash_input_agree : (a b : Vector) (os : List NodeId) → Same a b → hash_input a os ≡ hash_input b os
unfolding hash_input
hash_input_agree a b [] h = refl
hash_input_agree a b (o ∷ os) h = rw (h o, hash_input_agree a b os h)

find-Same : (a b : Vector) → ((k : NodeId) → find k a.entries ≡ find k b.entries) → Same a b
unfolding get get_entry
find-Same a b h k = ground (arith, h k)

-- Two vectors with the same entries, each key once, have the same wire form, and the same hash under
-- every digest function, whatever the orders of their maps.
pub encode_agree :
    (blake3 : List ℕ → List ℕ) (a b : Vector)
    → IsMapped a
    → IsMapped b
    → ((k : NodeId) → find k a.entries ≡ find k b.entries)
    → (encode a ≡ encode b) × (hash blake3 a ≡ hash blake3 b)
unfolding encode hash
encode_agree blake3 a b ha hb h =
    let same = find-Same a b h in
    let os = origins_agree a b ha hb h in
    (
      rw (os, encode_loop_agree a b (origins b) same),
      rw (os, hash_input_agree a b (origins b) same),
    )

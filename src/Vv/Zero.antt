-- ===== src/Vv/Zero.antt =====
-- Entries of zero: the operations of vv.go write none, and `Decode` lets them in.
use meshbbs.Common.{
  ℕ, zero, ◌≡◌, ◌<◌, ap, ◌∙◌, false, none, some, [], ◌∷◌, length, length-append, arith, ltb,
  bytes_beq, bytes_beq_iff, bytes_eq, Bool-cases, inl, inr, ok,
}
use meshbbs.Common.Map.{find, put, put_new, put-IsMap, find-put, length-put}
use meshbbs.Identity.{NodeId, IsNodeId}
use meshbbs.Vv.{
  Entries, Vector, IsVector, AllEntries, get_entry, get, len, equal, raise, set_seq, merge_loop,
  merge, from_map_loop, from_map, missing,
}
use meshbbs.Vv.Lookup.{get_entry_absent, get_entry-put}
use meshbbs.Vv.Order.{dominates_iff, missing-eq-nil}
use meshbbs.Vv.Equality.{AllPositive, IsPositive}
use meshbbs.Vv.Wire.{encode, decode, max_origins}
use meshbbs.Vv.Wire.RoundTrip.{decode-encode}

put-AllPositive :
    (k : NodeId) (s : ℕ) (m : Entries) → 0 < s → AllPositive m → AllPositive (put k s m)
unfolding put
put-AllPositive k s [] p h = (p, tt)
put-AllPositive k s ((j, t) ∷ m) p (h, hs) = ground (arith, put-AllPositive k s m p hs)

raise-AllPositive : (k : NodeId) (s : ℕ) (m : Entries) → AllPositive m → AllPositive (raise k s m)
unfolding raise
raise-AllPositive k s m h = elim (Bool-cases (ltb (get_entry k m) s)) [
  | inl up ↦ rw up (put-AllPositive k s m (ground arith) h)
  | inr stay ↦ rw stay h
]

merge_loop-AllPositive : (m other : Entries) → AllPositive m → AllPositive (merge_loop m other)
unfolding merge_loop
merge_loop-AllPositive m [] h = h
merge_loop-AllPositive m ((k, s) ∷ other) h =
    merge_loop-AllPositive (raise k s m) other (raise-AllPositive k s m h)

from_map_loop-AllPositive : (m out : Entries) → AllPositive out → AllPositive (from_map_loop m out)
unfolding from_map_loop
from_map_loop-AllPositive [] out h = h
from_map_loop-AllPositive ((k, s) ∷ m) out h = elim (Bool-cases (ltb 0 s)) [
  | inl up ↦
      rw up (from_map_loop-AllPositive m (put k s out) (put-AllPositive k s out (ground arith) h))
  | inr stay ↦ rw stay (from_map_loop-AllPositive m out h)
]

-- `FromMap` gives a vector without zero entries whatever the map holds, and `Set` and `Merge` keep
-- a vector free of them, whatever the sequence or the other vector.
pub no_zero_entries :
    (m : Entries) (v w : Vector) (k : NodeId) (s : ℕ)
    → IsPositive v
    → IsPositive (from_map m) × IsPositive (set_seq v k s) × IsPositive (merge v (some w))
unfolding from_map set_seq merge
no_zero_entries m v w k s h = (
  from_map_loop-AllPositive m [] tt,
  raise-AllPositive k s v.entries h,
  merge_loop-AllPositive v.entries w.entries h,
)

-- A vector with one more entry, of sequence zero.
abbrev pub with_zero : Vector → NodeId → Vector
with_zero v k = record { entries = put k 0 v.entries }

get-with_zero :
    (v : Vector) (k j : NodeId) → find k v.entries ≡ none → get (with_zero v k) j ≡ get v j
unfolding get
get-with_zero v k j f =
    ground (arith, get_entry-put k j 0 v.entries, get_entry_absent k v.entries f, bytes_beq_iff k j)

put-AllEntries : (k : NodeId) (m : Entries) → IsNodeId k → AllEntries m → AllEntries (put k 0 m)
unfolding put
put-AllEntries k [] i h = ((i, omega arith), tt)
put-AllEntries k ((j, t) ∷ m) i (h, hs) = elim (Bool-cases (bytes_beq j k)) [
  | inl eq ↦ rw eq ((i, omega arith), hs)
  | inr ne ↦ rw ne (h, put-AllEntries k m i hs)
]

with_zero-IsVector : (v : Vector) (k : NodeId) → IsNodeId k → IsVector v → IsVector (with_zero v k)
with_zero-IsVector v k i h = record {
  distinct = put-IsMap k 0 v.entries h.distinct;
  typed = put-AllEntries k v.entries i h.typed;
}

decode_zero :
    (v : Vector) (k : NodeId)
    → IsNodeId k
    → IsVector v
    → len v < max_origins
    → (w : Vector) × (decode (encode (with_zero v k)) ≡ ok w) × (find k w.entries ≡ some 0)
unfolding len
decode_zero v k i h few =
    let (w, e, same) =
      decode-encode (with_zero v k) (with_zero-IsVector v k i h)
        (omega (arith, length-put k 0 v.entries)) in
    (w, e, same k ∙ ground (arith, find-put k k 0 v.entries, bytes_beq_iff k k))

-- Give a vector with room for it one more entry, of a new node ID and of sequence zero. The two
-- vectors are not `Equal` and yet neither has anything to ask of the other; and `Decode` accepts the
-- wire form of the second, zero entry included.
pub zero_entry_diverges :
    (v : Vector) (k : NodeId)
    → IsNodeId k
    → IsVector v
    → len v < max_origins
    → find k v.entries ≡ none
    → (equal v (with_zero v k) ≡ false)
      × (missing v (some (with_zero v k)) ≡ [])
      × (missing (with_zero v k) (some v) ≡ [])
      × ((w : Vector) × (decode (encode (with_zero v k)) ≡ ok w) × (find k w.entries ≡ some 0))
unfolding equal len
zero_entry_diverges v k i h few f =
    let mapped = put-IsMap k 0 v.entries h.distinct in
    (
      ground (arith, ap length (put_new k 0 v.entries f), length-append v.entries ((k, zero) ∷ [])),
      (missing-eq-nil v (with_zero v k) mapped).1
          ((dominates_iff v (with_zero v k) mapped).1 (λ j. omega (arith, get-with_zero v k j f))),
      (missing-eq-nil (with_zero v k) v h.distinct).1 (
          (dominates_iff (with_zero v k) v h.distinct).1
            (λ j. omega (arith, get-with_zero v k j f))),
      decode_zero v k i h few,
    )

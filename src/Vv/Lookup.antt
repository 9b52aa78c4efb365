-- ===== src/Vv/Lookup.antt =====
-- What `Get` reads after each operation of vv.go.
use meshbbs.Common.{
  ℕ, ◌≡◌, refl, none, some, [], ◌∷◌, max, arith, if◌then◌else◌, bytes_eq, bytes_beq_iff, bytes_beq,
}
use meshbbs.Common.Map.{find, put, IsMap, find-put, put-IsMap}
use meshbbs.Identity.{NodeId}
use meshbbs.Vv.{Entries, get_entry, raise, merge_loop, clone_loop, from_map_loop}

pub get_entry-put :
    (k j : NodeId) (s : ℕ) (m : Entries)
    → get_entry j (put k s m) ≡ (if bytes_beq k j then s else get_entry j m)
unfolding get_entry
get_entry-put k j s m = ground (arith, find-put k j s m)

pub get_entry_absent : (k : NodeId) (m : Entries) → find k m ≡ none → get_entry k m ≡ 0
unfolding get_entry
get_entry_absent k m h = rw (h, get_entry)

pub get_entry-cons :
    (j k : NodeId) (s : ℕ) (m : Entries)
    → get_entry j ((k, s) ∷ m) ≡ (if bytes_beq k j then s else get_entry j m)
unfolding get_entry find
get_entry-cons j k s m = ground arith

-- The entry of `k` rises to `s`, and no other changes.
pub get_entry-raise :
    (k j : NodeId) (s : ℕ) (m : Entries)
    → get_entry j (raise k s m) ≡ (if bytes_beq k j then max (get_entry j m) s else get_entry j m)
unfolding raise
get_entry-raise k j s m = ground (arith, get_entry-put k j s m, bytes_beq_iff k j)

pub raise-IsMap : (k : NodeId) (s : ℕ) (m : Entries) → IsMap m → IsMap (raise k s m)
unfolding raise
raise-IsMap k s m h = ground (arith, put-IsMap k s m h)

-- `other` is a map, so the loop meets each origin once; a list with a key twice would be no map.
pub get_entry-merge_loop :
    (j : NodeId) (m other : Entries)
    → IsMap other
    → get_entry j (merge_loop m other) ≡ max (get_entry j m) (get_entry j other)
unfolding merge_loop
get_entry-merge_loop j m [] h = omega (arith, get_entry_absent j [] (unfold find in refl))
get_entry-merge_loop j m ((k, s) ∷ other) (h, hs) = ground (
  arith,
  get_entry-merge_loop j (raise k s m) other hs,
  get_entry-raise k j s m,
  get_entry-cons j k s other,
  get_entry_absent k other h,
  bytes_beq_iff k j,
)

pub merge_loop-IsMap : (m other : Entries) → IsMap m → IsMap (merge_loop m other)
unfolding merge_loop
merge_loop-IsMap m [] h = h
merge_loop-IsMap m ((k, s) ∷ other) h = merge_loop-IsMap (raise k s m) other (raise-IsMap k s m h)

pub clone_loop-IsMap : (m out : Entries) → IsMap out → IsMap (clone_loop m out)
unfolding clone_loop
clone_loop-IsMap [] out h = h
clone_loop-IsMap ((k, s) ∷ m) out h = clone_loop-IsMap m (put k s out) (put-IsMap k s out h)

-- The later of two equal keys would win, so that `m` has to be a map.
pub get_entry-clone_loop :
    (j : NodeId) (m out : Entries)
    → IsMap m
    → get_entry j (clone_loop m out) ≡ (elim (find j m) [ none ↦ get_entry j out | some s ↦ s ])
unfolding clone_loop find
get_entry-clone_loop j [] out h = refl
get_entry-clone_loop j ((k, s) ∷ m) out (h, hs) = ground (
  arith,
  get_entry-clone_loop j m (put k s out) hs,
  get_entry-put k j s out,
  h,
  bytes_beq_iff k j,
)

pub from_map_loop-IsMap : (m out : Entries) → IsMap out → IsMap (from_map_loop m out)
unfolding from_map_loop
from_map_loop-IsMap [] out h = h
from_map_loop-IsMap ((k, s) ∷ m) out h =
    from_map_loop-IsMap m _ (ground (arith, put-IsMap k s out h))

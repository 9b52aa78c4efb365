-- ===== src/Vv/Merge.antt =====
-- The laws of `Set`, `Merge` and `Merged`, on which convergence rests.
use meshbbs.Common.{
  ℕ, ◌≡◌, ◌≤◌, refl, some, List, [], ◌∷◌, max, arith, if◌then◌else◌, bytes_beq, bytes_eq,
}
use meshbbs.Common.Map.{find, IsMap}
use mathlib.Core.List.{Memᴰ}
use meshbbs.Identity.{NodeId}
use meshbbs.Vv.{Vector, get_entry, get, set_seq, merge, clone, merged}
use meshbbs.Vv.Lookup.{
  get_entry-raise, raise-IsMap, get_entry-merge_loop, merge_loop-IsMap, get_entry-clone_loop,
  clone_loop-IsMap, get_entry_absent,
}

-- Two vectors read the same for every origin.
abbrev pub Same : Vector → Vector → Type 0
Same a b = (j : NodeId) → get a j ≡ get b j

abbrev pub IsMapped : Vector → Type 0
IsMapped v = IsMap v.entries

-- `Set` raises one entry, to the larger of the old and the new, and touches no other.
pub get-set_seq :
    (v : Vector) (k j : NodeId) (s : ℕ)
    → get (set_seq v k s) j ≡ (if bytes_beq k j then max (get v j) s else get v j)
unfolding get set_seq
get-set_seq v k j s = get_entry-raise k j s v.entries

pub set_seq-IsMapped : (v : Vector) (k : NodeId) (s : ℕ) → IsMapped v → IsMapped (set_seq v k s)
unfolding set_seq
set_seq-IsMapped v k s h = raise-IsMap k s v.entries h

-- `Merge` takes the larger of the two entries of each origin.
pub get-merge :
    (v w : Vector) (j : NodeId) → IsMapped w → get (merge v (some w)) j ≡ max (get v j) (get w j)
unfolding get merge
get-merge v w j h = get_entry-merge_loop j v.entries w.entries h

pub merge-IsMapped : (v w : Vector) → IsMapped v → IsMapped (merge v (some w))
unfolding merge
merge-IsMapped v w h = merge_loop-IsMap v.entries w.entries h

-- A copy reads like the original.
pub clone-Same : (v : Vector) → IsMapped v → Same (clone (some v)) v
unfolding get clone get_entry
clone-Same v h j =
    ground
      (arith, get_entry-clone_loop j v.entries [] h, get_entry_absent j [] (unfold find in refl))

pub clone-IsMapped : (v : Vector) → IsMapped (clone (some v))
unfolding clone
clone-IsMapped v = clone_loop-IsMap v.entries [] tt

-- `Merged` reads the larger entry of each origin.
pub get-merged :
    (v w : Vector) (j : NodeId)
    → IsMapped v
    → IsMapped w
    → get (merged (some v) (some w)) j ≡ max (get v j) (get w j)
unfolding merged
get-merged v w j hv hw = ground (arith, get-merge (clone (some v)) w j hw, clone-Same v hv j)

-- Vectors that arrive one after the other.
unfoldable pub merge_all : Vector → List Vector → Vector
merge_all v [] = v
merge_all v (w ∷ ws) = merge_all (merge v (some w)) ws

abbrev pub AllMapped : List Vector → Type 0
AllMapped [] = Unit {0}
AllMapped (w ∷ ws) = IsMapped w × AllMapped ws

merge_all-ge :
    (v : Vector) (ws : List Vector) (j : NodeId) → AllMapped ws → get v j ≤ get (merge_all v ws) j
unfolding merge_all
merge_all-ge v [] j h = omega arith
merge_all-ge v (w ∷ ws) j (h, hs) =
    omega (arith, merge_all-ge (merge v (some w)) ws j hs, get-merge v w j h)

merge_all-ge_member :
    (v w : Vector) (ws : List Vector) (j : NodeId)
    → Memᴰ w ws
    → AllMapped ws
    → get w j ≤ get (merge_all v ws) j
unfolding merge_all
merge_all-ge_member v w [] j m _ = elim m [ ]
merge_all-ge_member v w (u ∷ us) j (Memᴰ.head e) (h, hs) =
    rw e (omega (arith, merge_all-ge (merge v (some u)) us j hs, get-merge v u j h))
merge_all-ge_member v w (u ∷ us) j (Memᴰ.tail m) (h, hs) =
    merge_all-ge_member (merge v (some u)) w us j m hs

merge_all-least :
    (v : Vector) (ws : List Vector) (j : NodeId) (n : ℕ)
    → get v j ≤ n
    → ((w : Vector) → Memᴰ w ws → get w j ≤ n)
    → AllMapped ws
    → get (merge_all v ws) j ≤ n
unfolding merge_all
merge_all-least v [] j n hv hw h = hv
merge_all-least v (w ∷ ws) j n hv hw (h, hs) =
    merge_all-least (merge v (some w)) ws j n
      (omega (arith, get-merge v w j h, hw w (Memᴰ.head refl))) (λ u m. hw u (Memᴰ.tail m)) hs

-- Whatever the order in which the same vectors arrive, and however often each of them does, the
-- node that merges them all ends up with the same entries. Each arriving vector has its keys once.
pub merge_all_order :
    (v : Vector) (us ws : List Vector)
    → AllMapped us
    → AllMapped ws
    → ((w : Vector) → Memᴰ w us → Memᴰ w ws)
    → ((w : Vector) → Memᴰ w ws → Memᴰ w us)
    → Same (merge_all v us) (merge_all v ws)
merge_all_order v us ws hu hw fro to j = omega (
  arith,
  merge_all-least v us j (get (merge_all v ws) j) (merge_all-ge v ws j hw)
      (λ u m. merge_all-ge_member v u ws j (fro u m) hw) hu,
  merge_all-least v ws j (get (merge_all v us) j) (merge_all-ge v us j hu)
      (λ u m. merge_all-ge_member v u us j (to u m) hu) hw,
)

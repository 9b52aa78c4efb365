-- ===== src/Vv.antt =====
-- internal/vv/vv.go: version vectors, which map each origin to the highest contiguous sequence
-- number held from it.
-- A `*Vector` that the code tests for nil is an `Option Vector`. A nil receiver and a nil map read
-- as the empty vector, as they do in Go. The map is an association list (`Common.Map`), whose order
-- stands for the order of `range`.
pub mod Lookup
pub mod Merge
pub mod Origins
pub mod Order
pub mod Wire
pub mod Equality
pub mod Zero
mod Tests
use meshbbs.Common.{
  ℕ, zero, suc, ◌+◌, ◌≡◌, ◌<◌, ◌%◌, Bool, true, false, ◌&&◌, Option, none, some, List, [], ◌∷◌, map,
  length, take, ◌++◌, if◌then◌else◌, ltb, nat_beq, not, bytes_eq,
}
use meshbbs.Common.Bytes.{be64, IsU64}
use meshbbs.Common.Map.{find, put, IsMap}
use meshbbs.Identity.{NodeId, IsNodeId}

abbrev pub Entries : Type 0
Entries = List (NodeId × ℕ)

pub record Vector : Type 0 where
  pub entries : Entries

-- `New`
abbrev pub new : Vector
new = record { entries = [] }

-- A map read with a missing key gives the zero value.
unfoldable pub get_entry : NodeId → Entries → ℕ
get_entry origin m = elim (find origin m) [ none ↦ 0 | some s ↦ s ]

-- `Get`
unfoldable pub get : Vector → NodeId → ℕ
get v origin = get_entry origin v.entries

-- The guarded assignment of `Set`, which `Merge` repeats for each entry.
unfoldable pub raise : NodeId → ℕ → Entries → Entries
raise origin seq m = if ltb (get_entry origin m) seq then put origin seq m else m

-- `Set`
unfoldable pub set_seq : Vector → NodeId → ℕ → Vector
unfolding raise
set_seq v origin seq = record { entries = raise origin seq v.entries }

-- The loop of `FromMap`: zero sequences are left out.
unfoldable pub from_map_loop : Entries → Entries → Entries
from_map_loop [] out = out
from_map_loop ((k, s) ∷ m) out = from_map_loop m (if ltb 0 s then put k s out else out)

-- `FromMap`
unfoldable pub from_map : Entries → Vector
from_map m = record { entries = from_map_loop m [] }

-- `Len`
unfoldable pub len : Vector → ℕ
len v = length v.entries

-- The loop of `Merge`, over the entries of the other vector.
unfoldable pub merge_loop : Entries → Entries → Entries
merge_loop m [] = m
merge_loop m ((k, s) ∷ other) = merge_loop (raise k s m) other

-- `Merge`
unfoldable pub merge : Vector → Option Vector → Vector
merge v none = v
merge v (some other) = record { entries = merge_loop v.entries other.entries }

-- The loop of `Clone`.
unfoldable pub clone_loop : Entries → Entries → Entries
clone_loop [] out = out
clone_loop ((k, s) ∷ m) out = clone_loop m (put k s out)

-- `Clone`
unfoldable pub clone : Option Vector → Vector
clone none = new
clone (some v) = record { entries = clone_loop v.entries [] }

-- `Merged`
unfoldable pub merged : Option Vector → Option Vector → Vector
unfolding clone merge
merged a b = merge (clone a) b

-- The loop of `Equal`: each entry of the first map has the value that the other map reads.
unfoldable pub same_entries : Entries → Entries → Bool
same_entries [] other = true
same_entries ((k, s) ∷ m) other = nat_beq (get_entry k other) s && same_entries m other

-- `Equal`
unfoldable pub equal : Vector → Vector → Bool
equal v other = if nat_beq (len v) (len other) then same_entries v.entries other.entries else false

-- The loop of `Dominates`.
unfoldable pub covers : Vector → Entries → Bool
covers v [] = true
covers v ((k, s) ∷ other) = not (ltb (get v k) s) && covers v other

-- `Dominates`
unfoldable pub dominates : Vector → Option Vector → Bool
dominates v none = true
dominates v (some other) = covers v other.entries

-- `less`, and the order by which `Origins` sorts. Node IDs all have eight bytes, so that the
-- clauses for uneven lengths are never met.
unfoldable pub less : NodeId → NodeId → Bool
less [] [] = false
less [] (b ∷ bs) = true
less (a ∷ as') [] = false
less (a ∷ as') (b ∷ bs) = if nat_beq a b then less as' bs else ltb a b

-- `sort.Slice`: the keys in ascending order.
unfoldable pub insert : NodeId → List NodeId → List NodeId
insert x [] = x ∷ []
insert x (y ∷ ys) = if less x y then x ∷ (y ∷ ys) else y ∷ insert x ys

unfoldable pub sort : List NodeId → List NodeId
sort [] = []
sort (x ∷ xs) = insert x (sort xs)

abbrev pub keys : Entries → List NodeId
keys [] = []
keys ((k, s) ∷ m) = k ∷ keys m

-- `Origins`
unfoldable pub origins : Vector → List NodeId
unfolding sort insert less
origins v = sort (keys v.entries)

-- `Range`, its ends inclusive.
pub record Range : Type 0 where
  pub origin : NodeId
  pub from : ℕ
  pub to : ℕ

-- The loop of `Missing` over the other vector's origins.
unfoldable pub missing_loop : Vector → Vector → List NodeId → List Range
missing_loop v other [] = []
missing_loop v other (o ∷ os) =
    let rest = missing_loop v other os in
    let theirs = get other o in
    let mine = get v o in
    if ltb mine theirs then record { origin = o; from = mine + 1; to = theirs } ∷ rest else rest

-- `Missing`
unfoldable pub missing : Vector → Option Vector → List Range
missing v none = []
missing v (some other) = missing_loop v other (origins other)

-- `Count`: a uint64 sum, which wraps.
unfoldable pub count_loop : ℕ → Entries → ℕ
count_loop n [] = n
count_loop n ((k, s) ∷ m) = count_loop ((n + s) % 18446744073709551616) m

unfoldable pub count : Vector → ℕ
count v = count_loop 0 v.entries

-- The bytes that `Hash` feeds to BLAKE3.
unfoldable pub hash_input : Vector → List NodeId → List ℕ
hash_input v [] = []
hash_input v (o ∷ os) = o ++ (be64 (get v o) ++ hash_input v os)

-- `Hash`. The digest function is lukechampine.com/blake3, a parameter.
unfoldable pub hash : (List ℕ → List ℕ) → Vector → List ℕ
hash blake3 v = take 4 (blake3 (hash_input v (origins v)))

-- What the type of the Go map gives: each key once, keys of eight bytes, uint64 values.
abbrev pub AllEntries : Entries → Type 0
AllEntries [] = Unit {0}
AllEntries ((k, s) ∷ m) = (IsNodeId k × IsU64 s) × AllEntries m

pub record IsVector (v : Vector) : Type 0 where
  pub distinct : IsMap v.entries
  pub typed : AllEntries v.entries

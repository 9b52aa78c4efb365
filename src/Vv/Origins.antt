-- ===== src/Vv/Origins.antt =====
-- The order of `less`, and the list of `Origins`: ascending, with each known origin once.
use meshbbs.Common.{
  ◌≡◌, refl, sym, Bool, true, false, ◌||◌, none, List, [], ◌∷◌, arith, bytes_beq, bytes_beq_iff,
  bytes_eq, Bool-cases, All, All-map, inl, inr, ap₂, ◌↔◌,
}
use meshbbs.Common.Map.{find, IsMap}
use meshbbs.Identity.{NodeId}
use meshbbs.Vv.{Entries, Vector, less, insert, sort, keys, origins}

pub less_irrefl : (a : NodeId) → less a a ≡ false
unfolding less
less_irrefl [] = refl
less_irrefl (a ∷ bs) = ground (arith, less_irrefl bs)

pub less_trans : (a b c : NodeId) → less a b ≡ true → less b c ≡ true → less a c ≡ true
unfolding less
less_trans [] [] c p q = cc
less_trans [] (y ∷ ys) [] p q = cc
less_trans [] (y ∷ ys) (z ∷ zs) p q = refl
less_trans (x ∷ xs) [] c p q = cc
less_trans (x ∷ xs) (y ∷ ys) [] p q = cc
less_trans (x ∷ xs) (y ∷ ys) (z ∷ zs) p q = ground (arith, less_trans xs ys zs)

-- Two different node IDs are in order one way or the other.
pub less_total : (a b : NodeId) → less a b ≡ false → less b a ≡ false → a ≡ b
unfolding less
less_total [] [] p q = refl
less_total [] (y ∷ ys) p q = cc
less_total (x ∷ xs) [] p q = cc
less_total (x ∷ xs) (y ∷ ys) p q = ground (arith, less_total xs ys)

pub less_asym : (a b : NodeId) → less a b ≡ true → less b a ≡ false
less_asym a b h = elim (Bool-cases (less b a)) [
  | inl g ↦ ground (arith, less_trans a b a h g, less_irrefl a)
  | inr g ↦ g
]

-- Membership, as a test.
unfoldable pub contains : NodeId → List NodeId → Bool
contains k [] = false
contains k (x ∷ xs) = bytes_beq x k || contains k xs

abbrev pub AllAbove : NodeId → List NodeId → Type 0
AllAbove x = All (λ y. less x y ≡ true)

abbrev pub Ascending : List NodeId → Type 0
Ascending [] = Unit {0}
Ascending (x ∷ xs) = AllAbove x xs × Ascending xs

-- Nothing below the head of an ascending list is in it.
contains_below :
    (k x : NodeId) (xs : List NodeId) → less k x ≡ true → AllAbove x xs → contains k xs ≡ false
unfolding contains
contains_below k x [] h a = refl
contains_below k x (y ∷ ys) h (a, as') =
    ground
      (arith, less_trans k x y h a, bytes_beq_iff y k, less_irrefl k, contains_below k x ys h as')

pub contains_above : (x : NodeId) (xs : List NodeId) → AllAbove x xs → contains x xs ≡ false
unfolding contains
contains_above x [] a = refl
contains_above x (y ∷ ys) (a, as') =
    ground (arith, bytes_beq_iff y x, less_irrefl x, contains_above x ys as')

pub contains-insert :
    (k x : NodeId) (xs : List NodeId) → contains k (insert x xs) ≡ (bytes_beq x k || contains k xs)
unfolding contains insert
contains-insert k x [] = refl
contains-insert k x (y ∷ ys) = ground (arith, contains-insert k x ys)

pub contains-sort : (k : NodeId) (xs : List NodeId) → contains k (sort xs) ≡ contains k xs
unfolding sort contains
contains-sort k [] = refl
contains-sort k (x ∷ xs) = ground (arith, contains-insert k x (sort xs), contains-sort k xs)

AllAbove-insert :
    (z x : NodeId) (xs : List NodeId) → less z x ≡ true → AllAbove z xs → AllAbove z (insert x xs)
unfolding insert
AllAbove-insert z x [] h a = (h, tt)
AllAbove-insert z x (y ∷ ys) h (a, as') = ground (arith, AllAbove-insert z x ys h as')

insert-Ascending :
    (x : NodeId) (xs : List NodeId) → contains x xs ≡ false → Ascending xs → Ascending (insert x xs)
unfolding insert contains
insert-Ascending x [] h a = (tt, tt)
insert-Ascending x (y ∷ ys) h (a, as') = elim (Bool-cases (less x y)) [
  | inl lt ↦ rw lt ((lt, All-map _ _ (λ z g. less_trans x y z lt g) ys a), (a, as'))
  | inr ge ↦ rw ge (
    AllAbove-insert y x ys
        (ground (arith, Bool-cases (less y x), less_total x y ge, bytes_beq_iff y x)) a,
    insert-Ascending x ys (ground arith) as',
  )
]

abbrev pub IsOnce : List NodeId → Type 0
IsOnce [] = Unit {0}
IsOnce (x ∷ xs) = (contains x xs ≡ false) × IsOnce xs

pub sort-Ascending : (xs : List NodeId) → IsOnce xs → Ascending (sort xs)
unfolding sort
sort-Ascending [] h = tt
sort-Ascending (x ∷ xs) (h, hs) =
    insert-Ascending x (sort xs) (rw contains-sort h) (sort-Ascending xs hs)

-- An ascending list is its own sorted form.
pub sort_of_Ascending : (xs : List NodeId) → Ascending xs → sort xs ≡ xs
unfolding sort insert
sort_of_Ascending [] h = refl
sort_of_Ascending (x ∷ []) h = refl
sort_of_Ascending (x ∷ y ∷ ys) (a, as') = rw (sort_of_Ascending (y ∷ ys) as', insert) (rw a.0)

-- The head of an ascending list is not above a member of it.
head_not_above :
    (x y : NodeId) (xs ys : List NodeId)
    → AllAbove y ys
    → ((k : NodeId) → contains k (x ∷ xs) ≡ contains k (y ∷ ys))
    → less x y ≡ false
unfolding contains
head_not_above x y xs ys b h = elim (Bool-cases (less x y)) [
  | inl lt ↦
      ground (
        arith,
        h x,
        bytes_beq_iff x x,
        bytes_beq_iff y x,
        less_irrefl x,
        contains_below x y ys lt b,
      )
  | inr ge ↦ ge
]

tails_agree :
    (x y k : NodeId) (xs ys : List NodeId)
    → x ≡ y
    → AllAbove x xs
    → AllAbove y ys
    → contains k (x ∷ xs) ≡ contains k (y ∷ ys)
    → contains k xs ≡ contains k ys
unfolding contains
tails_agree x y k xs ys e a b h =
    ground
      (arith, bytes_beq_iff x k, bytes_beq_iff y k, contains_above x xs a, contains_above y ys b)

-- Two ascending lists with the same members are equal.
pub Ascending-ext :
    (xs ys : List NodeId)
    → Ascending xs
    → Ascending ys
    → ((k : NodeId) → contains k xs ≡ contains k ys)
    → xs ≡ ys
unfolding contains
Ascending-ext [] [] a b h = refl
Ascending-ext [] (y ∷ ys) a b h = ground (arith, h y, bytes_beq_iff y y)
Ascending-ext (x ∷ xs) [] a b h = ground (arith, h x, bytes_beq_iff x x)
Ascending-ext (x ∷ xs) (y ∷ ys) (a, as') (b, bs) h =
    let e =
      less_total x y (head_not_above x y xs ys b h) (head_not_above y x ys xs a (λ k. sym (h k))) in
    ap₂ (λ z zs. z ∷ zs) e (Ascending-ext xs ys as' bs (λ k. tails_agree x y k xs ys e a b (h k)))

-- The keys of a map, and their test.
pub contains-keys : (k : NodeId) (m : Entries) → (contains k (keys m) ≡ false) ↔ (find k m ≡ none)
unfolding contains find
contains-keys k [] = ground arith
contains-keys k ((j, s) ∷ m) = ground (arith, contains-keys k m)

pub keys-IsOnce : (m : Entries) → IsMap m → IsOnce (keys m)
keys-IsOnce [] h = tt
keys-IsOnce ((k, s) ∷ m) (h, hs) = ((contains-keys k m).1 h, keys-IsOnce m hs)

-- `Origins` is ascending and has exactly the keys.
pub origins-Ascending : (v : Vector) → IsMap v.entries → Ascending (origins v)
unfolding origins
origins-Ascending v h = sort-Ascending (keys v.entries) (keys-IsOnce v.entries h)

pub contains-origins :
    (k : NodeId) (v : Vector) → (contains k (origins v) ≡ false) ↔ (find k v.entries ≡ none)
unfolding origins
contains-origins k v = rw contains-sort (contains-keys k v.entries)

-- ===== src/Vv/Order.antt =====
-- `Dominates` and `Missing`: when a node has nothing to learn, and what it asks for otherwise.
use meshbbs.Common.{
  ℕ, ◌≡◌, ◌≤◌, ◌<◌, refl, Bool, true, false, ◌&&◌, ◌||◌, some, List, [], ◌∷◌, arith, ltb, leb,
  bytes_beq, bytes_beq_iff, bytes_eq, ◌↔◌, Bool-cases,
}
use meshbbs.Common.Map.{find, IsMap}
use meshbbs.Identity.{NodeId}
use meshbbs.Vv.{
  Entries, Vector, get_entry, get, covers, dominates, Range, missing_loop, missing, origins,
}
use meshbbs.Vv.Lookup.{get_entry-cons, get_entry_absent}
use meshbbs.Vv.Merge.{IsMapped}
use meshbbs.Vv.Origins.{contains, contains-origins}

covers→le : (v : Vector) (m : Entries) (j : NodeId) → covers v m ≡ true → get_entry j m ≤ get v j
unfolding covers
covers→le v [] j h = omega (arith, get_entry_absent j [] (unfold find in refl))
covers→le v ((k, s) ∷ m) j h =
    ground (arith, covers→le v m j, get_entry-cons j k s m, bytes_beq_iff k j)

le→covers :
    (v : Vector) (m : Entries)
    → IsMap m
    → ((j : NodeId) → get_entry j m ≤ get v j)
    → covers v m ≡ true
unfolding covers
le→covers v [] h le = refl
le→covers v ((k, s) ∷ m) (h, hs) le = ground (
  arith,
  le k,
  get_entry-cons k k s m,
  bytes_beq_iff k k,
  le→covers v m hs (λ j.
      ground (arith, le j, get_entry-cons j k s m, bytes_beq_iff k j, get_entry_absent k m h)),
)

-- `Dominates` says exactly that `v` holds at least as much as `w` from every origin, where `w` has
-- its keys once.
pub dominates_iff :
    (v w : Vector) → IsMapped w → (dominates v (some w) ≡ true) ↔ ((j : NodeId) → get w j ≤ get v j)
unfolding dominates get
dominates_iff v w h = (λ d j. covers→le v w.entries j d, le→covers v w.entries h)

-- Whether a list of ranges asks for the record `s` of `o`.
unfoldable pub asks : NodeId → ℕ → List Range → Bool
asks o s [] = false
asks o s (r ∷ rs) = (bytes_beq r.origin o && (leb r.from s && leb s r.to)) || asks o s rs

asks-missing_loop :
    (v w : Vector) (o : NodeId) (s : ℕ) (os : List NodeId)
    → asks o s (missing_loop v w os) ≡ (contains o os && (ltb (get v o) s && leb s (get w o)))
unfolding asks missing_loop contains
asks-missing_loop v w o s [] = refl
asks-missing_loop v w o s (k ∷ os) = ground (arith, asks-missing_loop v w o s os, bytes_beq_iff k o)

-- An origin that `Origins` leaves out reads zero.
pub absent-origins : (w : Vector) (o : NodeId) → contains o (origins w) ≡ false → get w o ≡ 0
unfolding get
absent-origins w o h = get_entry_absent o w.entries ((contains-origins o w).0 h)

-- The ranges of `Missing` ask for a record exactly if the other vector has it and `v` lacks it.
pub asks-missing :
    (v w : Vector) (o : NodeId) (s : ℕ)
    → (asks o s (missing v (some w)) ≡ true) ↔ ((get v o < s) × (s ≤ get w o))
unfolding missing
asks-missing v w o s = ground (
  arith,
  asks-missing_loop v w o s (origins w),
  absent-origins w o,
  Bool-cases (contains o (origins w)),
)

missing_loop_nil :
    (v w : Vector) (os : List NodeId) (j : NodeId)
    → missing_loop v w os ≡ []
    → contains j os ≡ true
    → get w j ≤ get v j
unfolding missing_loop contains
missing_loop_nil v w [] j e h = cc
missing_loop_nil v w (k ∷ os) j e h = ground (arith, missing_loop_nil v w os j, bytes_beq_iff k j)

missing_loop_covered :
    (v w : Vector) (os : List NodeId)
    → ((j : NodeId) → get w j ≤ get v j)
    → missing_loop v w os ≡ []
unfolding missing_loop
missing_loop_covered v w [] h = refl
missing_loop_covered v w (k ∷ os) h = ground (arith, h k, missing_loop_covered v w os h)

-- Nothing is missing exactly if `v` dominates a `w` that has its keys once.
pub missing-eq-nil :
    (v w : Vector) → IsMapped w → (missing v (some w) ≡ []) ↔ (dominates v (some w) ≡ true)
unfolding missing
missing-eq-nil v w h = (
  λ e. (dominates_iff v w h).1 (λ j. ground (
    arith,
    missing_loop_nil v w (origins w) j,
    absent-origins w j,
    Bool-cases (contains j (origins w)),
  )),
  λ d. missing_loop_covered v w (origins w) ((dominates_iff v w h).0 d),
)

-- ===== src/Store/Tests.antt =====
-- Concrete databases: runs, and the theorems at inputs where their hypotheses hold.
use meshbbs.Common.{
  ℕ, ◌+◌, ◌≡◌, ◌≤◌, refl, true, false, none, some, List, [], ◌∷◌, arith, inl, inr, bytes_eq,
}
use mathlib.Core.Path.{subst}
use meshbbs.Common.Map.{find, put}
use meshbbs.Identity.{NodeId}
use meshbbs.Vv.{
  Vector, get, get_entry, dominates, missing, missing_loop, merge, origins, sort, insert, less,
  set_seq, raise,
}
use meshbbs.Vv.Merge.{IsMapped}
use meshbbs.Vv.Order.{asks}
use meshbbs.Store.{held_vector, vector_loop, take_row, turn, flush, is_current}
use meshbbs.Store.Contiguous.{has, readable, IsOrdered}
use meshbbs.Store.Complete.{held_vector-contiguous}
use meshbbs.Store.Catchup.{held, missing-dominates}

abbrev alpha : NodeId
alpha = 1 ∷ 2 ∷ 3 ∷ 4 ∷ 5 ∷ 6 ∷ 7 ∷ 8 ∷ []

abbrev beta : NodeId
beta = 1 ∷ 2 ∷ 3 ∷ 4 ∷ 5 ∷ 6 ∷ 9 ∷ 0 ∷ []

-- A gap behind the second record of the first origin, and the first record of the second.
abbrev gap : List (NodeId × ℕ)
gap = (alpha, 1) ∷ (alpha, 2) ∷ (alpha, 4) ∷ (beta, 1) ∷ []

abbrev closed : List (NodeId × ℕ)
closed = (alpha, 1) ∷ (alpha, 2) ∷ (alpha, 3) ∷ (alpha, 4) ∷ (beta, 1) ∷ []

-- The vector of a peer that has nothing of the second origin.
abbrev peer : Vector
peer = record { entries = (alpha, 3) ∷ [] }

gap_held : held gap ≡ record { entries = (alpha, 2) ∷ (beta, 1) ∷ [] }
unfolding held_vector readable vector_loop take_row turn flush is_current set_seq raise get_entry
    find put
gap_held = refl

-- A row that cannot be read ends the scan, and the run under way is lost.
unreadable : held_vector (some (some (alpha, 1) ∷ none ∷ [])) ≡ record { entries = [] }
unfolding held_vector vector_loop take_row turn flush is_current
unreadable = refl

gap-IsOrdered : IsOrdered gap
unfolding IsOrdered less
gap-IsOrdered = (
  refl,
  (inr (refl, omega arith), (inr (refl, omega arith), (inl refl, tt))),
  (refl, (inr (refl, omega arith), (inl refl, tt)), (refl, (inl refl, tt), (refl, tt, tt))),
)

closed-IsOrdered : IsOrdered closed
unfolding IsOrdered less
closed-IsOrdered = (
  refl,
  (inr (refl, omega arith), (inr (refl, omega arith), (inr (refl, omega arith), (inl refl, tt)))),
  (
    refl,
    (inr (refl, omega arith), (inr (refl, omega arith), (inl refl, tt))),
    (refl, (inr (refl, omega arith), (inl refl, tt)), (refl, (inl refl, tt), (refl, tt, tt))),
  ),
)

asked : missing (held gap) (some peer) ≡ record { origin = alpha; from = 3; to = 3 } ∷ []
unfolding held_vector readable vector_loop take_row turn flush is_current set_seq raise get_entry
    find put missing missing_loop origins sort insert get
asked = refl

kept : (o : NodeId) (s : ℕ) → has o s gap ≡ true → has o s closed ≡ true
unfolding has
kept o s h = ground (arith, h)

fetched :
    (o : NodeId) (s : ℕ) → asks o s (missing (held gap) (some peer)) ≡ true → has o s closed ≡ true
unfolding has asks
fetched o s h = let h' = subst (λ rs. asks o s rs ≡ true) asked h in ground (arith, h')

peer-IsMapped : IsMapped peer
unfolding find
peer-IsMapped = (refl, tt)

held_vector-contiguous_example :
    ((s : ℕ) → 1 ≤ s → s ≤ get (held gap) alpha → has alpha s gap ≡ true)
    × (has alpha (get (held gap) alpha + 1) gap ≡ false)
held_vector-contiguous_example = held_vector-contiguous gap alpha gap-IsOrdered

missing-dominates_example :
    (dominates (held closed) (some peer) ≡ true)
    × ((o : NodeId) → get (merge (held gap) (some peer)) o ≤ get (held closed) o)
missing-dominates_example =
    missing-dominates gap closed peer closed-IsOrdered peer-IsMapped kept fetched

-- ===== src/Store/Catchup.antt =====
-- What a node holds once the records that it asked a peer for are in its database.
use meshbbs.Common.{ℕ, ◌≡◌, ◌≤◌, true, some, List, max, arith, inl, inr, Bool-cases, ltb}
use meshbbs.Identity.{NodeId}
use meshbbs.Vv.{Vector, get, dominates, missing, merge}
use meshbbs.Vv.Merge.{IsMapped, get-merge}
use meshbbs.Vv.Order.{asks, asks-missing, dominates_iff}
use meshbbs.Store.{held_vector}
use meshbbs.Store.Contiguous.{has, readable, IsOrdered, held_vector-has}
use meshbbs.Store.Complete.{held_vector_complete}

abbrev pub held : List (NodeId × ℕ) → Vector
held rows = held_vector (some (readable rows))

-- The records of a run from 1 up to what the peer has are all there.
caught_up :
    (rows rows' : List (NodeId × ℕ)) (w : Vector) (o : NodeId) (s : ℕ)
    → ((o : NodeId) (s : ℕ) → has o s rows ≡ true → has o s rows' ≡ true)
    → ((o : NodeId) (s : ℕ) → asks o s (missing (held rows) (some w)) ≡ true → has o s rows' ≡ true)
    → 1 ≤ s
    → s ≤ max (get (held rows) o) (get w o)
    → has o s rows' ≡ true
caught_up rows rows' w o s kept fetched low high = elim (Bool-cases (ltb (get (held rows) o) s)) [
  | inl lacked ↦
      fetched o s
        ((asks-missing (held rows) w o s).1 (ground (arith, lacked), ground (arith, high)))
  | inr known ↦ kept o s (held_vector-has rows o s low (ground (arith, known)))
]

-- A node reads its vector and asks a peer for what `Missing` gives. Once its database still has a
-- row for every record that it had, and has one for every record that the ranges ask for, all rows
-- readable and in the order of the query, the vector that it reads dominates the vector of the peer, and holds at least
-- the merge of the two from every origin. The vector of the peer has its keys once.
pub missing-dominates :
    (rows rows' : List (NodeId × ℕ)) (w : Vector)
    → IsOrdered rows'
    → IsMapped w
    → ((o : NodeId) (s : ℕ) → has o s rows ≡ true → has o s rows' ≡ true)
    → ((o : NodeId) (s : ℕ) → asks o s (missing (held rows) (some w)) ≡ true → has o s rows' ≡ true)
    → (dominates (held rows') (some w) ≡ true)
      × ((o : NodeId) → get (merge (held rows) (some w)) o ≤ get (held rows') o)
missing-dominates rows rows' w h d kept fetched =
    let reaches : (o : NodeId) → max (get (held rows) o) (get w o) ≤ get (held rows') o = λ o.
      held_vector_complete rows' o (max (get (held rows) o) (get w o)) h
        (λ s. caught_up rows rows' w o s kept fetched) in
    (
      (dominates_iff (held rows') w d).1 (λ o. omega (arith, reaches o)),
      λ o. omega (arith, reaches o, get-merge (held rows) w o d),
    )

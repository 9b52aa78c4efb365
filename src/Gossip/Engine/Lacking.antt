-- ===== src/Gossip/Engine/Lacking.antt =====
-- The number of records that a node lacks of a peer.
use meshbbs.Common.{
  ℕ, ◌+◌, ◌-◌, ◌≡◌, ◌≤◌, ◌<◌, sym, true, some, List, [], ◌∷◌, arith, inl, inr, Bool-cases, bytes_eq,
  bytes_beq_iff, ◌==◌,
}
use mathlib.Core.Path.{subst}
use meshbbs.Identity.{NodeId}
use meshbbs.Vv.{Vector, IsVector, get, origins, dominates}
use meshbbs.Vv.Origins.{contains}
use meshbbs.Vv.Order.{dominates_iff, absent-origins}

-- The number of records that `w` has from these origins and `v` lacks.
unfoldable pub lacking : Vector → Vector → List NodeId → ℕ
lacking v w [] = 0
lacking v w (o ∷ os) = (get w o - get v o) + lacking v w os

-- One vector holds at least what the other holds.
abbrev pub Grows : Vector → Vector → Type 0
Grows v v' = (o : NodeId) → get v o ≤ get v' o

lacking-Grows : (v v' w : Vector) (os : List NodeId) → Grows v v' → lacking v' w os ≤ lacking v w os
unfolding lacking
lacking-Grows v v' w [] g = omega arith
lacking-Grows v v' w (o ∷ os) g = omega (arith, g o, lacking-Grows v v' w os g)

-- A record that is not lacking any more.
pub lacking_drops :
    (v v' w : Vector) (o : NodeId) (os : List NodeId)
    → Grows v v'
    → contains o os ≡ true
    → get v o < get v' o
    → get v o < get w o
    → lacking v' w os < lacking v w os
unfolding lacking contains
lacking_drops v v' w o [] g c more lower = absurd (ground arith)
lacking_drops v v' w o (x ∷ os) g c more lower = elim (Bool-cases (x == o)) [
  | inl here ↦
      let same : x ≡ o = (bytes_beq_iff x o).0 here in
      let rest = lacking-Grows v v' w os g in
      subst (λ y. (get w y - get v' y) + lacking v' w os < (get w y - get v y) + lacking v w os)
        (sym same) (omega (arith, rest, more, lower, g o))
  | inr there ↦ omega (arith, g x, lacking_drops v v' w o os g (ground arith) more lower)
]

lacking_none :
    (v w : Vector) (os : List NodeId) (o : NodeId)
    → lacking v w os ≡ 0
    → contains o os ≡ true
    → get w o ≤ get v o
unfolding lacking contains
lacking_none v w [] o none_left c = absurd (ground arith)
lacking_none v w (x ∷ os) o none_left c = elim (Bool-cases (x == o)) [
  | inl here ↦
      subst (λ y. get w y ≤ get v y) ((bytes_beq_iff x o).0 here) (omega (arith, none_left))
  | inr there ↦ lacking_none v w os o (omega (arith, none_left)) (ground arith)
]

pub lacking-dominates :
    (v w : Vector) → IsVector w → lacking v w (origins w) ≡ 0 → dominates v (some w) ≡ true
lacking-dominates v w h e = (dominates_iff v w h.distinct).1 (λ o.
    elim (Bool-cases (contains o (origins w))) [
      | inl present ↦ lacking_none v w (origins w) o e present
      | inr absent ↦ omega (arith, absent-origins w o absent)
    ])

pub Grows-dominates :
    (v v' w : Vector)
    → IsVector w
    → Grows v v'
    → dominates v (some w) ≡ true
    → dominates v' (some w) ≡ true
Grows-dominates v v' w h g d =
    (dominates_iff v' w h.distinct).1
      (λ o. omega (arith, g o, (dominates_iff v w h.distinct).0 d o))

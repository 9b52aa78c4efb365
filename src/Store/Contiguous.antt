-- ===== src/Store/Contiguous.antt =====
-- `GossipStore.Vector` on rows in the order of its query: it claims no record without a row.
use meshbbs.Common.{
  ℕ, ◌+◌, ◌≡◌, ◌≤◌, ◌⊎◌, refl, Bool, true, false, ◌&&◌, ◌||◌, Option, none, some, List, [], ◌∷◌,
  length, max, arith, inl, inr, Bool-cases, Option-cases, All, nat_beq, bytes_beq, bytes_beq_iff,
  bytes_eq, if◌then◌else◌,
}
use mathlib.Core.Path.{subst, sym}
use meshbbs.Common.Map.{find}
use meshbbs.Identity.{NodeId, node_id_len}
use meshbbs.Vv.{get, get_entry, new, less}
use meshbbs.Vv.Merge.{get-set_seq}
use meshbbs.Store.{Scan, flush, is_current, turn, take_row, vector_loop, no_row, held_vector}

-- Whether there is a row for the record `seq` of `o`.
unfoldable pub has : NodeId → ℕ → List (NodeId × ℕ) → Bool
has o seq [] = false
has o seq ((k, s) ∷ rows) = (bytes_beq k o && nat_beq s seq) || has o seq rows

-- An answer whose rows can all be read.
unfoldable pub readable : List (NodeId × ℕ) → List (Option (List ℕ × ℕ))
readable [] = []
readable (r ∷ rows) = some r ∷ readable rows

abbrev pub Before : NodeId × ℕ → NodeId × ℕ → Type 0
Before a b = (less a.0 b.0 ≡ true) ⊎ ((a.0 ≡ b.0) × (a.1 ≤ b.1))

-- `ORDER BY origin, seq`, and the check of the table that an origin has eight bytes.
unfoldable pub IsOrdered : List (NodeId × ℕ) → Type 0
IsOrdered [] = Unit
IsOrdered (r ∷ rows) = (length r.0 ≡ node_id_len) × All (Before r) rows × IsOrdered rows

pub flush-get :
    (st : Scan) (o : NodeId)
    → get (flush st) o
      ≡ (if is_current o st.cur then max (get st.vec o) st.contiguous else get st.vec o)
unfolding flush is_current
flush-get st o = elim (Option-cases st.cur) [
  | inl e ↦ rw (e, flush, is_current) refl
  | inr (k, e) ↦
      rw (e, flush, is_current)
        (ground (arith, get-set_seq st.vec k o st.contiguous, bytes_beq_iff k o))
]

-- A record that the scan counts as held.
abbrev Seen : NodeId → ℕ → Scan → Type 0
Seen o s st = (s ≤ get st.vec o) ⊎ ((is_current o st.cur ≡ true) × (s ≤ st.contiguous))

-- Every record that the scan counts as held has `H`.
abbrev IsSound : (NodeId → ℕ → Type 0) → Scan → Type 0
IsSound H st = (o : NodeId) (s : ℕ) → 1 ≤ s → Seen o s st → H o s

flush-IsSound :
    (H : NodeId → ℕ → Type 0) (st : Scan)
    → IsSound H st
    → (o : NodeId) (s : ℕ) → 1 ≤ s
    → s ≤ get (flush st) o
    → H o s
flush-IsSound H st h o s low high = h o s low (ground (arith, flush-get st o, high))

pub turn_same : (k : NodeId) (st : Scan) → is_current k st.cur ≡ true → turn k st ≡ st
unfolding turn
turn_same k st e = rw (e, turn) refl

pub turn_new :
    (k : NodeId) (st : Scan)
    → is_current k st.cur ≡ false
    → turn k st ≡ record { cur = some k; contiguous = 0; vec = flush st }
unfolding turn
turn_new k st e = rw (e, turn) refl

-- The row of an origin changes nothing of what has been seen.
turn-IsSound :
    (H : NodeId → ℕ → Type 0) (k : NodeId) (st : Scan) → IsSound H st → IsSound H (turn k st)
unfolding is_current
turn-IsSound H k st h o s low high = elim (Bool-cases (is_current k st.cur)) [
  | inl e ↦ h o s low (subst (λ x. Seen o s x) (turn_same k st e) high)
  | inr e ↦
      flush-IsSound H st h o s low
        (let high' = subst (λ x. Seen o s x) (turn_new k st e) high in ground (arith, low, high'))
]

pub turn-is_current : (k : NodeId) (st : Scan) → is_current k (turn k st).cur ≡ true
unfolding is_current
turn-is_current k st = elim (Bool-cases (is_current k st.cur)) [
  | inl e ↦ subst (λ x. is_current k x.cur ≡ true) (sym (turn_same k st e)) e
  | inr e ↦
      subst (λ x. is_current k x.cur ≡ true) (sym (turn_new k st e))
        (ground (arith, bytes_beq_iff k k))
]

pub current_unique :
    (j k : NodeId) (cur : Option NodeId) → is_current j cur ≡ true → is_current k cur ≡ true → j ≡ k
unfolding is_current
current_unique j k none hj hk = cc
current_unique j k (some i) hj hk = ground (arith, bytes_beq_iff i j, bytes_beq_iff i k)

take_row-IsSound :
    (H : NodeId → ℕ → Type 0) (k : NodeId) (seq : ℕ) (st : Scan)
    → H k seq
    → IsSound H st
    → IsSound H (take_row k seq st)
unfolding take_row
take_row-IsSound H k seq st row h = elim (Bool-cases (nat_beq (length k) node_id_len)) [
  | inr e ↦ rw (e, take_row) h
  | inl e ↦
      let h' = turn-IsSound H k st h in
      rw (e, take_row)
        (elim (Bool-cases (nat_beq seq ((turn k st).contiguous + 1))) [
          | inr gap ↦ rw (gap, take_row) h'
          | inl next ↦
              rw (next, take_row)
                (λ o s low high. elim high [
                  | inl before ↦ h' o s low (inl before)
                  | inr (current, upto) ↦
                      let same =
                        current_unique o k (turn k st).cur current (turn-is_current k st) in
                      elim (Bool-cases (nat_beq s seq)) [
                        | inl here ↦
                            let here' : s ≡ seq = ground (arith, here) in
                            subst (λ x. H x s) (sym same) (subst (λ x. H k x) (sym here') row)
                        | inr below ↦ h' o s low (inr (current, ground (arith, below, next, upto)))
                      ]
                ])
        ])
]

vector_loop-IsSound :
    (H : NodeId → ℕ → Type 0) (rows : List (NodeId × ℕ)) (st : Scan)
    → ((o : NodeId) (s : ℕ) → has o s rows ≡ true → H o s)
    → IsSound H st
    → (o : NodeId) (s : ℕ) → 1 ≤ s
    → s ≤ get (vector_loop (readable rows) st) o
    → H o s
unfolding vector_loop readable has
vector_loop-IsSound H [] st seen h = flush-IsSound H st h
vector_loop-IsSound H ((k, seq) ∷ rows) st seen h =
    vector_loop-IsSound H rows (take_row k seq st) (λ o s row. seen o s (ground (arith, row)))
      (take_row-IsSound H k seq st (seen k seq (ground (arith, bytes_beq_iff k k))) h)

pub get-new : (o : NodeId) → get new o ≡ 0
unfolding get get_entry find
get-new o = refl

-- The vector claims no record for which there is no row.
pub held_vector-has :
    (rows : List (NodeId × ℕ)) (o : NodeId) (s : ℕ)
    → 1 ≤ s
    → s ≤ get (held_vector (some (readable rows))) o
    → has o s rows ≡ true
unfolding held_vector is_current
held_vector-has rows o s =
    vector_loop-IsSound (λ o s. has o s rows ≡ true) rows no_row (λ o s row. row)
      (λ o s low high. absurd (ground (arith, low, high, get-new o))) o s

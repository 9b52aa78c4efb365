-- ===== src/Fountain/Solve/Invariant.antt =====
-- The invariant of the elimination, and that each round keeps it.
use meshbbs.Common.{
  ℕ, zero, suc, ◌+◌, ◌≡◌, ◌≤◌, ◌<◌, ◌∙◌, Bool, true, false, not, ◌&&◌, none, some, List, length,
  length-set, drop, All, get_or, arith, if◌then◌else◌, Bool-cases, inl, inr, nat_beq, nat_beq_iff,
  ltb, Option-cases, ltb→lt,
}
use mathlib.Core.Bool.{xor}
use meshbbs.Fountain.Solve.{
  Equation, no_equation, has_bit, select, swap, clear, Tableau, pivot, eliminate,
}
use meshbbs.Fountain.Solve.Rows.{HasWidth, IsSum, clear-IsSum, swap-All, All-get_or}
use meshbbs.Fountain.Solve.Reduce.{
  get_or-set, length-swap, get_or-swap, length-clear, get_or-clear, has_bit-add_row, select-tableau,
}

abbrev pub bit_at : List Equation → ℕ → ℕ → Bool
bit_at rows i c = has_bit c (get_or rows i no_equation)

-- Column `c` has its only bit in row `r`.
abbrev pub IsUnit : ℕ → ℕ → List Equation → Type 0
IsUnit c r rows = (i : ℕ) → i < length rows → bit_at rows i c ≡ nat_beq i r

abbrev Places : ℕ → List Equation → Type 0
Places k rows = (i : ℕ) → i < length rows → length (get_or rows i no_equation).mask ≡ k

swap-IsUnit :
    (c r row sel : ℕ) (rows : List Equation)
    → r < row
    → row ≤ sel
    → sel < length rows
    → IsUnit c r rows
    → IsUnit c r (swap row sel rows)
swap-IsUnit c r row sel rows h lo hi u i l =
    rw (get_or-swap row sel i rows (omega arith) hi)
      (ground (arith, u row (omega arith), u sel hi, u i (omega (arith, length-swap row sel rows))))

clear_bit :
    (k c col row i : ℕ) (p : Equation) (rows : List Equation)
    → i < length rows
    → Places k rows
    → length p.mask ≡ k
    → bit_at (clear col row p 0 rows) i c ≡ (
        if not (nat_beq i row) && bit_at rows i col
        then xor (bit_at rows i c) (has_bit c p)
        else bit_at rows i c)
clear_bit k c col row i p rows l h hp =
    let z : zero + i ≡ i = omega arith in
    rw (get_or-clear col row 0 i p rows l, z)
      (ground (arith, has_bit-add_row c (get_or rows i no_equation) p, h i l))

clear-IsUnit :
    (k c r col row : ℕ) (p : Equation) (rows : List Equation)
    → Places k rows
    → length p.mask ≡ k
    → has_bit c p ≡ false
    → IsUnit c r rows
    → IsUnit c r (clear col row p 0 rows)
unfolding xor
clear-IsUnit k c r col row p rows h hp b u i l =
    ground (arith, length-clear col row 0 p rows, clear_bit k c col row i p rows, h, u i)

-- The pivot row `p` has its bit in `col`, and every other row is cleared there.
cleared-IsUnit :
    (k col row : ℕ) (rows : List Equation)
    → row < length rows
    → Places k rows
    → bit_at rows row col ≡ true
    → IsUnit col row (clear col row (get_or rows row no_equation) 0 rows)
unfolding xor
cleared-IsUnit k col row rows lt h b i l = ground (
  arith,
  length-clear col row 0 (get_or rows row no_equation) rows,
  clear_bit k col col row i (get_or rows row no_equation) rows,
  h,
  h row lt,
  nat_beq_iff i row,
  Bool-cases (bit_at rows i col),
)

All-Places :
    (k w : ℕ) (source : List (List ℕ)) (rows : List Equation)
    → All (IsSum k w source) rows
    → Places k rows
All-Places k w source rows s i l = (All-get_or (IsSum k w source) rows i s l).places

-- After the columns below `col`, with `row` pivots found: every row is the sum that its mask names;
-- a pivot column lies below `col` and its row below `row`; and that row has the column's one bit.
pub record IsReduced (k w : ℕ) (source : List (List ℕ)) (col row : ℕ) (t : Tableau) : Type 0 where
  pub sums : All (IsSum k w source) t.rows
  pub columns : length t.pivot_row ≡ k
  pub found :
      (c r : ℕ)
      → get_or t.pivot_row c none ≡ some r
      → (c < col) × (r < row) × (r < length t.rows) × IsUnit c r t.rows
  pub apart :
      (c d r : ℕ) → get_or t.pivot_row c none ≡ some r → get_or t.pivot_row d none ≡ some r → c ≡ d

module _ (k w : ℕ) (source : List (List ℕ)) (widths : All (HasWidth w) source) (col row sel : ℕ)
    (t : Tableau) (inv : IsReduced k w source col row t) (below : row < length t.rows)
    (room : col < k)
    (chosen : (row ≤ sel) × (sel < length t.rows) × (bit_at t.rows sel col ≡ true)) where
  swapped : List Equation
  swapped = swap row sel t.rows

  swapped-IsSum : All (IsSum k w source) swapped
  unfolding swapped
  swapped-IsSum = swap-All (IsSum k w source) row sel t.rows below chosen.1 inv.sums

  row-swapped : row < length swapped
  unfolding swapped
  row-swapped = omega (arith, length-swap row sel t.rows)

  pivot_bit : bit_at swapped row col ≡ true
  unfolding swapped
  pivot_bit =
      rw (get_or-swap row sel row t.rows below chosen.1)
        (ground (arith, chosen.2, nat_beq_iff row sel))

  pivot_sums : All (IsSum k w source) (pivot col row sel t).rows
  unfolding pivot swapped
  pivot_sums =
      clear-IsSum k w col row 0 source _ swapped widths
        (All-get_or (IsSum k w source) swapped row swapped-IsSum row-swapped) swapped-IsSum

  old-IsUnit : (c r : ℕ) → r < row → IsUnit c r t.rows → IsUnit c r (pivot col row sel t).rows
  unfolding pivot swapped
  old-IsUnit c r lt u =
      let u' : IsUnit c r swapped = swap-IsUnit c r row sel t.rows lt chosen.0 chosen.1 u in
      let places = All-Places k w source swapped swapped-IsSum in
      clear-IsUnit k c r col row (get_or swapped row no_equation) swapped places
        (places row row-swapped) (ground (arith, u' row row-swapped)) u'

  new-IsUnit : IsUnit col row (pivot col row sel t).rows
  unfolding pivot swapped
  new-IsUnit =
      cleared-IsUnit k col row swapped row-swapped (All-Places k w source swapped swapped-IsSum)
        pivot_bit

  length-pivot : length (pivot col row sel t).rows ≡ length t.rows
  unfolding pivot
  length-pivot = length-clear col row 0 _ (swap row sel t.rows) ∙ length-swap row sel t.rows

  pivot_entry :
      (c : ℕ)
      → get_or (pivot col row sel t).pivot_row c none
        ≡ (if nat_beq c col then some row else get_or t.pivot_row c none)
  unfolding pivot
  pivot_entry c = get_or-set t.pivot_row col c (some row) none (omega (arith, inv.columns))

  old_below : (c r : ℕ) → get_or t.pivot_row c none ≡ some r → r < row
  old_below c r h = (inv.found c r h).1

  pivot_found :
      (c r : ℕ)
      → get_or (pivot col row sel t).pivot_row c none ≡ some r
      → (c < col + 1)
        × (r < row + 1)
        × (r < length (pivot col row sel t).rows)
        × IsUnit c r (pivot col row sel t).rows
  pivot_found c r h = elim (Bool-cases (nat_beq c col)) [
    | inl new ↦
        let at_col : c ≡ col = (nat_beq_iff c col).0 new in
        let at_row : r ≡ row = ground (arith, pivot_entry c) in
        (omega arith, omega arith, omega (arith, length-pivot), rw (at_col, at_row) new-IsUnit)
    | inr old ↦
        let (lo, below_row, inside, u) = inv.found c r (ground (arith, pivot_entry c)) in
        (omega arith, omega arith, omega (arith, length-pivot), old-IsUnit c r below_row u)
  ]

  -- A round that finds a pivot keeps the invariant.
  pub pivot-IsReduced : IsReduced k w source (col + 1) (row + 1) (pivot col row sel t)
  pivot-IsReduced = record {
    sums = pivot_sums;
    columns = unfold pivot in (length-set t.pivot_row col (some row) ∙ inv.columns);
    found = pivot_found;
    apart = λ c d r p q.
        ground (arith, pivot_entry c, pivot_entry d, old_below c r, old_below d r, inv.apart c d r);
  }

skip-IsReduced :
    (k w : ℕ) (source : List (List ℕ)) (col row : ℕ) (t : Tableau)
    → IsReduced k w source col row t
    → IsReduced k w source (col + 1) row t
skip-IsReduced k w source col row t inv = record {
  sums = inv.sums;
  columns = inv.columns;
  found = λ c r h. let (lo, below, inside, u) = inv.found c r h in (omega arith, below, inside, u);
  apart = inv.apart;
}

-- The whole elimination keeps the invariant, at some column and row.
pub eliminate-IsReduced :
    (left k w : ℕ) (source : List (List ℕ)) (col row : ℕ) (t : Tableau)
    → All (HasWidth w) source
    → col + left ≡ k
    → IsReduced k w source col row t
    → (c : ℕ) × (r : ℕ) × IsReduced k w source c r (eliminate left col row t)
unfolding eliminate
eliminate-IsReduced zero k w source col row t ws e inv = (col, row, inv)
eliminate-IsReduced (suc left) k w source col row t ws e inv =
    elim (Bool-cases (ltb row (length t.rows))) [
      | inr stop ↦ rw (stop, eliminate) (col, row, inv)
      | inl go ↦ elim (Option-cases (select col row (drop row t.rows))) [
        | inl no_pivot ↦
            rw (go, no_pivot, eliminate)
              (eliminate-IsReduced left k w source (col + 1) row t ws (omega arith)
                (skip-IsReduced k w source col row t inv))
        | inr (sel, got) ↦
            let below = ltb→lt row (length t.rows) go in
            rw (go, got, eliminate)
              (eliminate-IsReduced left k w source (col + 1) (row + 1) (pivot col row sel t) ws
                (omega arith)
                (pivot-IsReduced k w source ws col row sel t inv below (omega arith)
                  (select-tableau col row t.rows sel below got)))
      ]
    ]

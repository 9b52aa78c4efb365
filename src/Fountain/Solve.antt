-- ===== src/Fountain/Solve.antt =====
-- internal/fountain/codec.go: `trySolve`, Gaussian elimination over GF(2).
pub mod Rows
pub mod Reduce
pub mod Invariant
pub mod Sound
use meshbbs.Common.{
  ℕ, zero, suc, ◌+◌, Bool, true, false, ◌&&◌, not, Option, none, some, List, [], ◌∷◌, length, drop,
  get_or, set, replicate, if◌then◌else◌, ltb, nat_beq,
}
use mathlib.Core.Bool.{xor}
use meshbbs.Fountain.Encoder.{xor_bytes}

-- One row of the system: the source symbols it combines, and their sum.
pub record Equation : Type 0 where
  pub mask : List Bool
  pub payload : List ℕ

abbrev pub no_equation : Equation
no_equation = record { mask = []; payload = [] }

-- `xorInto`
unfoldable pub xor_into : List Bool → List Bool → List Bool
xor_into [] src = []
xor_into (d ∷ ds) [] = d ∷ ds
xor_into (d ∷ ds) (s ∷ ss) = xor d s ∷ xor_into ds ss

unfoldable pub add_row : Equation → Equation → Equation
unfolding xor_into
add_row e p = record { mask = xor_into e.mask p.mask; payload = xor_bytes e.payload p.payload }

-- `masks[r][col]`
unfoldable pub has_bit : ℕ → Equation → Bool
has_bit col e = get_or e.mask col false

-- The first row from `row` on whose bit at `col` is set; `rows` are those from `row` on.
unfoldable pub select : ℕ → ℕ → List Equation → Option ℕ
select col row [] = none
select col row (e ∷ rows) =
    let rest = select col (row + 1) rows in if has_bit col e then some row else rest

-- `masks[i], masks[j] = masks[j], masks[i]`, and so for the data.
unfoldable pub swap : ℕ → ℕ → List Equation → List Equation
swap i j rows = set (set rows i (get_or rows j no_equation)) j (get_or rows i no_equation)

-- The loop that clears `col` in every row but `row`, from row `r` on; `p` is the pivot row.
unfoldable pub clear : ℕ → ℕ → Equation → ℕ → List Equation → List Equation
clear col row p r [] = []
clear col row p r (e ∷ rows) =
    (if not (nat_beq r row) && has_bit col e then add_row e p else e) ∷ clear col row p (r + 1) rows

-- What the elimination changes: the rows, and the pivot row of each column (`none` for -1).
pub record Tableau : Type 0 where
  pub rows : List Equation
  pub pivot_row : List (Option ℕ)

-- One round with a pivot found at `sel`.
unfoldable pub pivot : ℕ → ℕ → ℕ → Tableau → Tableau
pivot col row sel t =
    let swapped = swap row sel t.rows in
    record {
      rows = clear col row (get_or swapped row no_equation) 0 swapped;
      pivot_row = set t.pivot_row col (some row);
    }

-- The loop over the columns, with the rounds left.
unfoldable pub eliminate : ℕ → ℕ → ℕ → Tableau → Tableau
eliminate zero col row t = t
eliminate (suc left) col row t = elim (ltb row (length t.rows)) [
  | false ↦ t
  | true ↦ elim (select col row (drop row t.rows)) [
    | none ↦ eliminate left (col + 1) row t
    | some sel ↦ eliminate left (col + 1) (row + 1) (pivot col row sel t)
  ]
]

-- The last loop: the data of the pivot rows, if every column has one.
unfoldable pub collect : List (Option ℕ) → List Equation → Option (List (List ℕ))
collect [] rows = some []
collect (none ∷ ps) rows = none
collect (some r ∷ ps) rows = elim (collect ps rows) [
  | none ↦ none
  | some solved ↦ some ((get_or rows r no_equation).payload ∷ solved)
]

-- `trySolve`: the source symbols, if the rows determine them.
unfoldable pub try_solve : ℕ → List Equation → Option (List (List ℕ))
try_solve n rows =
    let t = eliminate n 0 0 (record { rows = rows; pivot_row = replicate n none }) in
    collect t.pivot_row t.rows

-- ===== src/Fountain/Solve/Reduce.antt =====
-- What `trySolve` knows after some columns: each pivot column has its one bit in its pivot row.
use meshbbs.Common.{
  ℕ, zero, suc, ◌+◌, ◌-◌, ◌≡◌, ◌≤◌, ◌<◌, refl, ap, ◌∙◌, Bool, true, false, not, ◌&&◌, some, List,
  [], ◌∷◌, length, length-set, drop, get_or, set, arith, if◌then◌else◌, Bool-cases, inl, inr,
  nat_beq,
}
use mathlib.Core.Bool.{xor}
use meshbbs.Fountain.Solve.{Equation, no_equation, xor_into, add_row, has_bit, select, swap, clear}

pub get_or-set {ℓ} :
    {A : Type ℓ} (xs : List A) (i j : ℕ) (v d : A)
    → i < length xs
    → get_or (set xs i v) j d ≡ (if nat_beq j i then v else get_or xs j d)
get_or-set [] i j v d h = absurd (omega arith)
get_or-set (x ∷ xs) zero zero v d h = refl
get_or-set (x ∷ xs) zero (suc j) v d h = ground arith
get_or-set (x ∷ xs) (suc i) zero v d h = ground arith
get_or-set (x ∷ xs) (suc i) (suc j) v d h = ground (arith, get_or-set xs i j v d)

pub length-swap : (i j : ℕ) (rows : List Equation) → length (swap i j rows) ≡ length rows
unfolding swap
length-swap i j rows =
    length-set (set rows i (get_or rows j no_equation)) j (get_or rows i no_equation)
    ∙ length-set rows i (get_or rows j no_equation)

pub get_or-swap :
    (i j r : ℕ) (rows : List Equation)
    → i < length rows
    → j < length rows
    → get_or (swap i j rows) r no_equation ≡ (
        if nat_beq r j
        then get_or rows i no_equation
        else (if nat_beq r i then get_or rows j no_equation else get_or rows r no_equation))
unfolding swap
get_or-swap i j r rows p q = ground (
  arith,
  get_or-set (set rows i (get_or rows j no_equation)) j r (get_or rows i no_equation) no_equation,
  length-set rows i (get_or rows j no_equation),
  get_or-set rows i r (get_or rows j no_equation) no_equation,
)

pub length-clear :
    (col row r : ℕ) (p : Equation) (rows : List Equation)
    → length (clear col row p r rows) ≡ length rows
unfolding clear
length-clear col row r p [] = refl
length-clear col row r p (e ∷ rows) = ap suc (length-clear col row (r + 1) p rows)

-- Row `i` of the list is row `r + i` of the tableau.
pub get_or-clear :
    (col row r i : ℕ) (p : Equation) (rows : List Equation)
    → i < length rows
    → get_or (clear col row p r rows) i no_equation ≡ (
        if not (nat_beq (r + i) row) && has_bit col (get_or rows i no_equation)
        then add_row (get_or rows i no_equation) p
        else get_or rows i no_equation)
unfolding clear
get_or-clear col row r i p [] h = absurd (omega arith)
get_or-clear col row r zero p (e ∷ rows) h = let z : r + zero ≡ r = omega arith in rw z
get_or-clear col row r (suc i) p (e ∷ rows) h =
    let z : r + suc i ≡ r + 1 + i = omega arith in
    rw z (get_or-clear col row (r + 1) i p rows (omega arith))

get_or-xor_into :
    (m n : List Bool) (c : ℕ)
    → length n ≡ length m
    → get_or (xor_into m n) c false ≡ xor (get_or m c false) (get_or n c false)
unfolding xor_into xor
get_or-xor_into [] [] c h = refl
get_or-xor_into [] (y ∷ n) c h = absurd (omega arith)
get_or-xor_into (x ∷ m) [] c h = absurd (omega arith)
get_or-xor_into (x ∷ m) (y ∷ n) zero h = refl
get_or-xor_into (x ∷ m) (y ∷ n) (suc c) h = get_or-xor_into m n c (omega arith)

pub has_bit-add_row :
    (c : ℕ) (e p : Equation)
    → length p.mask ≡ length e.mask
    → has_bit c (add_row e p) ≡ xor (has_bit c e) (has_bit c p)
unfolding has_bit add_row
has_bit-add_row c e p h = get_or-xor_into e.mask p.mask c h

-- The row that `select` finds.
select_found :
    (col row : ℕ) (rows : List Equation) (sel : ℕ)
    → select col row rows ≡ some sel
    → (row ≤ sel)
      × (sel < row + length rows)
      × (has_bit col (get_or rows (sel - row) no_equation) ≡ true)
unfolding select
select_found col row [] sel h = absurd (ground arith)
select_found col row (e ∷ rows) sel h = elim (Bool-cases (has_bit col e)) [
  | inl hit ↦
      let same : row ≡ sel = ground arith in
      let first : sel - row ≡ 0 = omega arith in (omega arith, omega arith, rw first hit)
  | inr miss ↦
      let later : select col (row + 1) rows ≡ some sel = ground arith in
      let (lo, hi, set_there) = select_found col (row + 1) rows sel later in
      let next : sel - row ≡ suc (sel - (row + 1)) = omega arith in
      (omega arith, omega arith, rw next set_there)
]

get_or-drop :
    (n i : ℕ) (rows : List Equation)
    → get_or (drop n rows) i no_equation ≡ get_or rows (n + i) no_equation
get_or-drop zero i rows = let z : zero + i ≡ i = omega arith in rw z
get_or-drop (suc n) i [] = refl
get_or-drop (suc n) i (e ∷ rows) =
    let z : suc n + i ≡ suc (n + i) = omega arith in rw z (get_or-drop n i rows)

length-drop : (n : ℕ) (rows : List Equation) → length (drop n rows) ≡ length rows - n
length-drop zero rows = omega arith
length-drop (suc n) [] = omega arith
length-drop (suc n) (e ∷ rows) = omega (arith, length-drop n rows)

-- The chosen row, in the whole tableau.
pub select-tableau :
    (col row : ℕ) (rows : List Equation) (sel : ℕ)
    → row < length rows
    → select col row (drop row rows) ≡ some sel
    → (row ≤ sel) × (sel < length rows) × (has_bit col (get_or rows sel no_equation) ≡ true)
select-tableau col row rows sel lt h =
    let (lo, hi, set_there) = select_found col row (drop row rows) sel h in
    let at : row + (sel - row) ≡ sel = omega arith in
    (
      lo,
      omega (arith, length-drop row rows),
      rw (← at) (rw (← get_or-drop row (sel - row) rows) set_there),
    )

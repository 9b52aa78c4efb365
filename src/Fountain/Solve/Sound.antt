-- ===== src/Fountain/Solve/Sound.antt =====
-- What `trySolve` returns is the source block.
use meshbbs.Common.{
  ℕ, zero, suc, ◌≡◌, ◌<◌, refl, sym, ap, ap₂, ◌∙◌, Bool, false, Option, none, some, List, [], ◌∷◌,
  length, replicate, length-replicate, All, get_or, arith, nat_beq, nat_beq_iff, Option-cases, inl,
  inr,
}
use meshbbs.Fountain.Encoder.{xor_bytes, combine}
use meshbbs.Fountain.Solve.{Equation, no_equation, Tableau, has_bit, eliminate, collect, try_solve}
use meshbbs.Fountain.Solve.Rows.{HasWidth, IsSum, All-get_or, zeros-xor_bytes}
use meshbbs.Fountain.Solve.Invariant.{IsReduced, eliminate-IsReduced}

combine_none :
    (acc : List ℕ) (m : List Bool) (source : List (List ℕ))
    → ((c : ℕ) → c < length m → get_or m c false ≡ false)
    → combine acc m source ≡ acc
unfolding combine
combine_none acc [] source h = refl
combine_none acc (b ∷ m) [] h = refl
combine_none acc (b ∷ m) (s ∷ source) h =
    rw (h 0 (omega arith)) (combine_none acc m source (λ c l. h (suc c) (omega arith)))

-- A mask with the one place `col` names the source symbol `col`.
pub combine_unit :
    (acc : List ℕ) (m : List Bool) (source : List (List ℕ)) (col : ℕ)
    → length m ≡ length source
    → col < length m
    → ((c : ℕ) → c < length m → get_or m c false ≡ nat_beq c col)
    → combine acc m source ≡ xor_bytes acc (get_or source col [])
unfolding combine
combine_unit acc [] source col e l h = absurd (omega arith)
combine_unit acc (b ∷ m) [] col e l h = absurd (omega arith)
combine_unit acc (b ∷ m) (s ∷ source) zero e l h =
    rw (h 0 (omega arith))
      (combine_none (xor_bytes acc s) m source (λ c lt. h (suc c) (omega arith) ∙ ground arith))
combine_unit acc (b ∷ m) (s ∷ source) (suc col) e l h =
    let off : b ≡ false = h 0 (omega arith) ∙ ground arith in
    rw off (
      combine_unit acc m source col (omega arith) (omega arith)
        (λ c lt. h (suc c) (omega arith) ∙ ground arith))

get_or_ext {ℓ} :
    {A : Type ℓ} (d : A) (xs ys : List A)
    → length xs ≡ length ys
    → ((c : ℕ) → c < length xs → get_or xs c d ≡ get_or ys c d)
    → xs ≡ ys
get_or_ext d [] [] e h = refl
get_or_ext d [] (y ∷ ys) e h = absurd (omega arith)
get_or_ext d (x ∷ xs) [] e h = absurd (omega arith)
get_or_ext d (x ∷ xs) (y ∷ ys) e h =
    ap₂ (λ z zs. z ∷ zs) (h 0 (omega arith))
      (get_or_ext d xs ys (omega arith) (λ c l. h (suc c) (omega arith)))

collect_cons :
    (r : ℕ) (ps : List (Option ℕ)) (rows : List Equation) (solved : List (List ℕ))
    → collect (some r ∷ ps) rows ≡ some solved
    → (later : List (List ℕ)) × (collect ps rows ≡ some later)
      × (solved ≡ (get_or rows r no_equation).payload ∷ later)
unfolding collect
collect_cons r ps rows solved e = elim (Option-cases (collect ps rows)) [
  | inl failed ↦ absurd (ground arith)
  | inr (later, got) ↦ (later, got, ground arith)
]

-- Each solved symbol is the payload of its column's pivot row.
collect_found :
    (ps : List (Option ℕ)) (rows : List Equation) (solved : List (List ℕ)) (c : ℕ)
    → collect ps rows ≡ some solved
    → c < length ps
    → (r : ℕ) × (get_or ps c none ≡ some r)
      × (get_or solved c [] ≡ (get_or rows r no_equation).payload)
collect_found [] rows solved c e l = absurd (omega arith)
collect_found (none ∷ ps) rows solved c e l = absurd (unfold collect in ground arith)
collect_found (some r ∷ ps) rows solved zero e l =
    let (later, got, shape) = collect_cons r ps rows solved e in (r, refl, rw shape)
collect_found (some r ∷ ps) rows solved (suc c) e l =
    let (later, got, shape) = collect_cons r ps rows solved e in
    let (r', at, same) = collect_found ps rows later c got (omega arith) in (r', at, rw shape same)

length-collect :
    (ps : List (Option ℕ)) (rows : List Equation) (solved : List (List ℕ))
    → collect ps rows ≡ some solved
    → length solved ≡ length ps
length-collect [] rows solved e = unfold collect in ground arith
length-collect (none ∷ ps) rows solved e = absurd (unfold collect in ground arith)
length-collect (some r ∷ ps) rows solved e =
    let (later, got, shape) = collect_cons r ps rows solved e in
    rw shape (ap suc (length-collect ps rows later got))

pub All-width :
    (w : ℕ) (source : List (List ℕ)) (c : ℕ)
    → All (HasWidth w) source
    → c < length source
    → length (get_or source c []) ≡ w
All-width w [] c h l = absurd (omega arith)
All-width w (s ∷ source) zero h l = h.0
All-width w (s ∷ source) (suc c) h l = All-width w source c h.1 (omega arith)

module _ (k w : ℕ) (source : List (List ℕ)) (widths : All (HasWidth w) source)
    (size : length source ≡ k) where
  -- A row whose mask is the column `c` alone holds the source symbol `c`.
  unit_row :
      (e : Equation) (c : ℕ)
      → IsSum k w source e
      → c < k
      → ((d : ℕ) → d < k → has_bit d e ≡ nat_beq d c)
      → e.payload ≡ get_or source c []
  unfolding has_bit
  unit_row e c s l h =
      s.total
      ∙ combine_unit (replicate w 0) e.mask source c (s.places ∙ sym size) (omega (arith, s.places))
          (λ d lt. h d (omega (arith, s.places)))
      ∙ ap (λ n. xor_bytes (replicate n 0) (get_or source c []))
          (sym (All-width w source c widths (omega arith)))
      ∙ zeros-xor_bytes (get_or source c [])

  -- Once every column has a pivot, the pivot row of a column is that column alone.
  collect-source :
      (col row : ℕ) (t : Tableau)
      → IsReduced k w source col row t
      → (solved : List (List ℕ)) → collect t.pivot_row t.rows ≡ some solved
      → solved ≡ source
  collect-source col row t inv solved e =
      get_or_ext [] solved source
        (length-collect t.pivot_row t.rows solved e ∙ inv.columns ∙ sym size)
        (λ c l. symbol_at c (omega (arith, length-collect t.pivot_row t.rows solved e)))
    where
      same_pivot :
          (c d r r' : ℕ)
          → get_or t.pivot_row c none ≡ some r
          → get_or t.pivot_row d none ≡ some r'
          → nat_beq r r' ≡ nat_beq d c
      same_pivot c d r r' p q = ground (arith, inv.apart c d r, nat_beq_iff d c)

      only_bit :
          (c r d : ℕ)
          → get_or t.pivot_row c none ≡ some r
          → d < length t.pivot_row
          → has_bit d (get_or t.rows r no_equation) ≡ nat_beq d c
      only_bit c r d at l =
          let (r', at', _) = collect_found t.pivot_row t.rows solved d e l in
          (inv.found d r' at').3 r (inv.found c r at).2 ∙ same_pivot c d r r' at at'

      symbol_at : (c : ℕ) → c < length t.pivot_row → get_or solved c [] ≡ get_or source c []
      symbol_at c l =
          let (r, at, same) = collect_found t.pivot_row t.rows solved c e l in
          same
          ∙ unit_row (get_or t.rows r no_equation) c
              (All-get_or (IsSum k w source) t.rows r inv.sums (inv.found c r at).2)
              (omega (arith, inv.columns)) (λ d lt. only_bit c r d at (omega (arith, inv.columns)))

  none_pivots : (n c r : ℕ) → get_or (replicate n none) c none ≡ some r → ⊥
  none_pivots zero c r h = ground arith
  none_pivots (suc n) zero r h = ground arith
  none_pivots (suc n) (suc c) r h = none_pivots n c r h

  -- If every row is the sum of the source symbols that its mask names, then what `trySolve` returns
  -- is the source block, whichever rows there are and in whatever order.
  pub try_solve-source :
      (rows : List Equation) (solved : List (List ℕ))
      → All (IsSum k w source) rows
      → try_solve k rows ≡ some solved
      → solved ≡ source
  unfolding try_solve
  try_solve-source rows solved s e =
      let start : Tableau = record { rows = rows; pivot_row = replicate k none } in
      let (col, row, inv) =
        eliminate-IsReduced k k w source 0 0 start widths (omega arith) (record {
          sums = s;
          columns = length-replicate k none;
          found = λ c r h. absurd (none_pivots k c r h);
          apart = λ c d r p q. absurd (none_pivots k c r p);
        }) in
      collect-source col row (eliminate k 0 0 start) inv solved e

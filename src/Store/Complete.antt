-- ===== src/Store/Complete.antt =====
-- `GossipStore.Vector` on rows in the order of its query: a run of rows from 1 is claimed in full.
use meshbbs.Common.{
  ℕ, ◌+◌, ◌≡◌, ◌≤◌, ◌<◌, ◌⊎◌, refl, sym, ap, true, false, some, List, [], ◌∷◌, length, arith, inl,
  inr, Bool-cases, All, All-map, nat_beq, bytes_beq, bytes_beq_iff, bytes_eq, if◌then◌else◌, ◌∙◌,
}
use mathlib.Core.Path.{subst}
use meshbbs.Identity.{NodeId, node_id_len}
use meshbbs.Vv.{get, less}
use meshbbs.Vv.Origins.{less_irrefl, less_asym}
use meshbbs.Store.{Scan, flush, is_current, turn, take_row, vector_loop, no_row, held_vector}
use meshbbs.Store.Contiguous.{
  has, readable, Before, IsOrdered, flush-get, turn_same, turn_new, turn-is_current, current_unique,
  held_vector-has,
}

record Taken (k : NodeId) (seq : ℕ) (st st' : Scan) : Type 0 where
  cur_of : st'.cur ≡ (turn k st).cur
  vec_of : st'.vec ≡ (turn k st).vec
  run_of :
      st'.contiguous
      ≡ (if nat_beq seq ((turn k st).contiguous + 1) then seq else (turn k st).contiguous)

take_row-Taken :
    (k : NodeId) (seq : ℕ) (st : Scan) → length k ≡ node_id_len → Taken k seq st (take_row k seq st)
unfolding take_row
take_row-Taken k seq st width =
    let full : nat_beq (length k) node_id_len ≡ true = ground (arith, width) in
    rw (full, take_row)
      (elim (Bool-cases (nat_beq seq ((turn k st).contiguous + 1))) [
        | inl e ↦ rw (e, take_row) (record { cur_of = refl; vec_of = refl; run_of = rw e refl })
        | inr e ↦ rw (e, take_row) (record { cur_of = refl; vec_of = refl; run_of = rw e refl })
      ])

turn_grows : (k o : NodeId) (st : Scan) → get st.vec o ≤ get (turn k st).vec o
turn_grows k o st = elim (Bool-cases (is_current k st.cur)) [
  | inl e ↦ subst (λ x. get st.vec o ≤ get x.vec o) (sym (turn_same k st e)) (omega arith)
  | inr e ↦
      subst (λ x. get st.vec o ≤ get x.vec o) (sym (turn_new k st e))
        (ground (arith, flush-get st o))
]

-- No row lowers an entry.
vector_loop_grows :
    (rows : List (NodeId × ℕ)) (st : Scan) (o : NodeId)
    → IsOrdered rows
    → get st.vec o ≤ get (vector_loop (readable rows) st) o
unfolding vector_loop readable IsOrdered
vector_loop_grows [] st o h = ground (arith, flush-get st o)
vector_loop_grows ((k, seq) ∷ rows) st o (width, after, h) =
    let t = take_row-Taken k seq st width in
    let step = subst (λ v. get st.vec o ≤ get v o) (sym t.vec_of) (turn_grows k o st) in
    omega (arith, step, vector_loop_grows rows (take_row k seq st) o h)

-- After a row of `o`, the rows of `o` do not go down.
has_after :
    (o : NodeId) (seq s : ℕ) (rows : List (NodeId × ℕ))
    → All (Before (o, seq)) rows
    → has o s rows ≡ true
    → seq ≤ s
unfolding has
has_after o seq s [] after h = absurd (ground arith)
has_after o seq s ((k, t) ∷ rows) (first, after) h =
    ground (arith, has_after o seq s rows after, bytes_beq_iff k o, less_irrefl o, first, h)

-- After a row of a later origin, there is no row of `o`.
has_none_after :
    (o k : NodeId) (seq s : ℕ) (rows : List (NodeId × ℕ))
    → less o k ≡ true
    → All (Before (k, seq)) rows
    → has o s rows ≡ false
unfolding has
has_none_after o k seq s [] above after = refl
has_none_after o k seq s ((j, t) ∷ rows) above (first, after) = ground (
  arith,
  has_none_after o k seq s rows above after,
  bytes_beq_iff j o,
  less_asym o k above,
  less_irrefl o,
  first,
)

-- A row of the origin that the scan is at.
taken_here :
    (o : NodeId) (seq : ℕ) (st : Scan)
    → is_current o st.cur ≡ true
    → length o ≡ node_id_len
    → (is_current o (take_row o seq st).cur ≡ true)
      × ((take_row o seq st).contiguous
          ≡ (if nat_beq seq (st.contiguous + 1) then seq else st.contiguous))
taken_here o seq st here width =
    let t = take_row-Taken o seq st width in
    let same = turn_same o st here in
    (
      subst (λ c. is_current o c ≡ true) (sym t.cur_of)
          (subst (λ x. is_current o x.cur ≡ true) (sym same) here),
      t.run_of
          ∙ ap {A = Scan} (λ x. if nat_beq seq (x.contiguous + 1) then seq else x.contiguous) same,
    )

-- With the rows of `o` under way, all that is claimed of it from the run on.
run_complete :
    (rows : List (NodeId × ℕ)) (o : NodeId) (n : ℕ) (st : Scan)
    → is_current o st.cur ≡ true
    → All (λ r. (less o r.0 ≡ true) ⊎ (o ≡ r.0)) rows
    → IsOrdered rows
    → ((s : ℕ) → st.contiguous < s → s ≤ n → has o s rows ≡ true)
    → n ≤ get (vector_loop (readable rows) st) o
unfolding vector_loop readable IsOrdered has
run_complete [] o n st here above h all = ground (arith, flush-get st o, here, all n)
run_complete ((k, seq) ∷ rows) o n st here (first, above) (width, after, h) all =
    elim (Bool-cases (bytes_beq k o)) [
      | inl e ↦
          let same : k ≡ o = (bytes_beq_iff k o).0 e in
          let wide = subst (λ x. length x ≡ node_id_len) same width in
          let later = subst (λ x. All (Before (x, seq)) rows) same after in
          let (here', run) = taken_here o seq st here wide in
          subst (λ x. n ≤ get (vector_loop (readable rows) (take_row x seq st)) o) (sym same)
            (run_complete rows o n (take_row o seq st) here' above h (λ s low high. ground (
              arith,
              run,
              all s,
              all (st.contiguous + 1),
              has_after o seq (st.contiguous + 1) rows later,
              low,
              high,
            )))
      | inr e ↦
          let above' : less o k ≡ true = ground (arith, first, bytes_beq_iff k o, e) in
          let gone = has_none_after o k seq n rows above' after in
          let other : is_current k st.cur ≡ false = ground (
            arith,
            e,
            bytes_beq_iff k o,
            Bool-cases (is_current k st.cur),
            current_unique k o st.cur,
            here,
          ) in
          let t = take_row-Taken k seq st width in
          let vec : (take_row k seq st).vec ≡ flush st =
            t.vec_of ∙ ap {A = Scan} (λ x. x.vec) (turn_new k st other) in
          let closed =
            subst (λ v. n ≤ get v o) (sym vec)
              (ground (arith, flush-get st o, here, all n, gone, e)) in
          omega (arith, closed, vector_loop_grows rows (take_row k seq st) o h)
    ]

take_row-turn :
    (k : NodeId) (seq : ℕ) (st : Scan)
    → length k ≡ node_id_len
    → take_row k seq (turn k st) ≡ take_row k seq st
unfolding take_row
take_row-turn k seq st width =
    let full : nat_beq (length k) node_id_len ≡ true = ground (arith, width) in
    rw (full, take_row)
      (ap {A = Scan}
        (λ x. if nat_beq seq (x.contiguous + 1) then record x { contiguous = seq } else x)
        (turn_same k (turn k st) (turn-is_current k st)))

-- The first row of `o`: the scan turns to it with an empty run.
run_starts :
    (rows : List (NodeId × ℕ)) (o : NodeId) (seq n : ℕ) (st : Scan)
    → is_current o st.cur ≡ false
    → IsOrdered ((o, seq) ∷ rows)
    → ((s : ℕ) → 1 ≤ s → s ≤ n → has o s ((o, seq) ∷ rows) ≡ true)
    → n ≤ get (vector_loop (readable rows) (take_row o seq st)) o
unfolding vector_loop readable IsOrdered
run_starts rows o seq n st ahead (width, after, h) all =
    let run : (turn o st).contiguous ≡ 0 =
      ap {A = Scan} (λ x. x.contiguous) (turn_new o st ahead) in
    subst (λ x. n ≤ get (vector_loop (readable rows) x) o) (take_row-turn o seq st width)
      (run_complete ((o, seq) ∷ rows) o n (turn o st) (turn-is_current o st)
        (inr refl, All-map _ _ (λ r b. ground (arith, b)) rows after) (width, after, h)
        (λ s low high. all s (omega (arith, run, low)) high))

-- A scan that has not come to `o` yet.
vector_loop_complete :
    (rows : List (NodeId × ℕ)) (o : NodeId) (n : ℕ) (st : Scan)
    → is_current o st.cur ≡ false
    → IsOrdered rows
    → ((s : ℕ) → 1 ≤ s → s ≤ n → has o s rows ≡ true)
    → n ≤ get (vector_loop (readable rows) st) o
unfolding vector_loop readable IsOrdered has
vector_loop_complete [] o n st ahead h all = ground (arith, all n)
vector_loop_complete ((k, seq) ∷ rows) o n st ahead (width, after, h) all =
    elim (Bool-cases (bytes_beq k o)) [
      | inl e ↦
          let same : k ≡ o = (bytes_beq_iff k o).0 e in
          subst (λ x. n ≤ get (vector_loop (readable rows) (take_row x seq st)) o) (sym same)
            (run_starts rows o seq n st ahead
              (subst (λ x. IsOrdered ((x, seq) ∷ rows)) same (width, after, h))
              (subst (λ x. (s : ℕ) → 1 ≤ s → s ≤ n → has o s ((x, seq) ∷ rows) ≡ true) same all))
      | inr e ↦
          let t = take_row-Taken k seq st width in
          let away : is_current o (turn k st).cur ≡ false = ground (
            arith,
            e,
            bytes_beq_iff k o,
            Bool-cases (is_current o (turn k st).cur),
            current_unique k o (turn k st).cur,
            turn-is_current k st,
          ) in
          vector_loop_complete rows o n (take_row k seq st)
            (subst (λ c. is_current o c ≡ false) (sym t.cur_of) away) h
            (λ s low high. ground (arith, all s low high, e))
    ]

-- The vector claims all of a run of rows from 1.
pub held_vector_complete :
    (rows : List (NodeId × ℕ)) (o : NodeId) (n : ℕ)
    → IsOrdered rows
    → ((s : ℕ) → 1 ≤ s → s ≤ n → has o s rows ≡ true)
    → n ≤ get (held_vector (some (readable rows))) o
unfolding held_vector is_current
held_vector_complete rows o n h all = vector_loop_complete rows o n no_row refl h all

-- With the rows all readable and in the order of the query, `Vector` has for each origin the contiguous high-water
-- mark: there is a row for every record from 1 up to the entry, and none for the one after it.
pub held_vector-contiguous :
    (rows : List (NodeId × ℕ)) (o : NodeId)
    → IsOrdered rows
    → ((s : ℕ) → 1 ≤ s → s ≤ get (held_vector (some (readable rows))) o → has o s rows ≡ true)
      × (has o (get (held_vector (some (readable rows))) o + 1) rows ≡ false)
held_vector-contiguous rows o h =
    let n = get (held_vector (some (readable rows))) o in
    (
      held_vector-has rows o,
      elim (Bool-cases (has o (n + 1) rows)) [
        | inr none_there ↦ none_there
        | inl more ↦ absurd (
            ground (
              arith,
              held_vector_complete rows o (n + 1) h
                  (λ s low high. ground (arith, held_vector-has rows o s low, high, more)),
            ))
      ],
    )

-- ===== src/Store.antt =====
-- internal/store/gossipstore.go: what the gossip engine reads from the database. The database is not
-- modelled; its answer to a query is an argument of the function that asks it.
pub mod Contiguous
pub mod Complete
pub mod Catchup
mod Tests
use meshbbs.Common.{
  ℕ, ◌+◌, Bool, false, not, Option, none, some, List, [], ◌∷◌, length, if◌then◌else◌, ltb, nat_beq,
  bytes_beq,
}
use meshbbs.Identity.{NodeId, node_id_len}
use meshbbs.Vv.{Vector, new, set_seq}

-- The variables of `Vector`: `cur` with `have`, `contiguous` and `v`.
pub record Scan : Type 0 where
  pub cur : Option NodeId
  pub contiguous : ℕ
  pub vec : Vector

-- `flush`
unfoldable pub flush : Scan → Vector
flush st = elim st.cur [
  | none ↦ st.vec
  | some o ↦ if ltb 0 st.contiguous then set_seq st.vec o st.contiguous else st.vec
]

-- `have && origin == cur`
unfoldable pub is_current : NodeId → Option NodeId → Bool
is_current o none = false
is_current o (some k) = bytes_beq k o

-- A row of another origin: `flush`, and the run of the new origin is empty.
unfoldable pub turn : NodeId → Scan → Scan
turn o st =
    if is_current o st.cur then st else record { cur = some o; contiguous = 0; vec = flush st }

-- The body of the loop, with a row that could be read.
unfoldable pub take_row : NodeId → ℕ → Scan → Scan
take_row o seq st =
    let st' = turn o st in
    if not (nat_beq (length o) node_id_len)
    then st
    else (if nat_beq seq (st'.contiguous + 1) then record st' { contiguous = seq } else st')

-- The loop of `Vector`. A row that cannot be read ends it, without the last `flush`.
unfoldable pub vector_loop : List (Option (List ℕ × ℕ)) → Scan → Vector
vector_loop [] st = flush st
vector_loop (none ∷ rows) st = st.vec
vector_loop (some (o, seq) ∷ rows) st = vector_loop rows (take_row o seq st)

abbrev pub no_row : Scan
no_row = record { cur = none; contiguous = 0; vec = new }

-- `GossipStore.Vector`, with the answer of the database to its query.
unfoldable pub held_vector : Option (List (Option (List ℕ × ℕ))) → Vector
held_vector none = new
held_vector (some rows) = vector_loop rows no_row

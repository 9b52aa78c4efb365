-- ===== src/Vv/Wire.antt =====
-- The wire form of internal/vv/vv.go: `Encode`, `canonicalUvarint` and `Decode`.
-- A byte slice is a list of numbers, and the position `p` in it is the list that is left.
pub mod Parse
pub mod Canonical
pub mod RoundTrip
use meshbbs.Common.{
  ℕ, zero, suc, ◌+◌, ◌≡◌, Bool, true, false, Option, none, some, List, [], ◌∷◌, ◌++◌, length, take,
  drop, if◌then◌else◌, ltb, leb, nat_beq, not, bytes_eq, Result, ok, err, ◌>>=◌, ◌>>◌, guard,
}
use meshbbs.Common.Map.{put}
use meshbbs.Common.Uvarint.{append_uvarint, uvarint}
use meshbbs.Identity.{NodeId, node_id_len}
use meshbbs.Vv.{Entries, Vector, new, get, less, origins}

pub data Error : Type 0 where
  truncated non_canonical too_many not_ascending trailing : Error

-- The loop of `Encode`.
unfoldable pub encode_loop : Vector → List NodeId → List ℕ
encode_loop v [] = []
encode_loop v (o ∷ os) = o ++ (append_uvarint (get v o) ++ encode_loop v os)

-- `Encode`
unfoldable pub encode : Vector → List ℕ
encode v = append_uvarint (length (origins v)) ++ encode_loop v (origins v)

-- `canonicalUvarint`
unfoldable pub canonical_uvarint : List ℕ → Result Error (ℕ × ℕ)
canonical_uvarint b = elim (uvarint b) [
  | none ↦ err truncated
  | some (val, n) ↦
      if nat_beq (length (append_uvarint val)) n then ok (val, n) else err non_canonical
]

-- `MaxOrigins`
abbrev pub max_origins : ℕ
max_origins = 512

-- `i == 0 || less(prev, origin)`: there is no previous origin in the first round.
unfoldable pub ascends : Option NodeId → NodeId → Bool
ascends none origin = true
ascends (some prev) origin = less prev origin

-- The loop of `Decode`, with the rounds left, and the bytes from `p` on.
unfoldable pub decode_loop : ℕ → Option NodeId → List ℕ → Entries → Result Error (Entries × List ℕ)
decode_loop zero prev b entries = ok (entries, b)
decode_loop (suc n) prev b entries = do
  guard (leb node_id_len (length b)) truncated
  let origin = take node_id_len b
  (seq, read) ← canonical_uvarint (drop node_id_len b)
  guard (ascends prev origin) not_ascending
  decode_loop n (some origin) (drop read (drop node_id_len b)) (put origin seq entries)

-- `Decode`
unfoldable pub decode : List ℕ → Result Error Vector
decode b = do
  (n, read) ← canonical_uvarint b
  guard (leb n max_origins) too_many
  (entries, rest) ← decode_loop n none (drop read b) []
  guard (nat_beq (length rest) 0) trailing
  ok (record { entries = entries })

-- ===== src/Fountain/Decoder.antt =====
-- internal/fountain/codec.go: the decoder.
pub mod Chunks
pub mod Block
pub mod Correct
use meshbbs.Common.{
  ℕ, zero, suc, ◌+◌, ◌*◌, Bool, true, false, ◌&&◌, ◌||◌, not, Option, none, some, List, [], ◌∷◌,
  ◌++◌, length, take, replicate, set, if◌then◌else◌, ltb, leb, nat_beq, Result, ok, err, ◌>>=◌,
  ◌>>◌, guard,
}
use meshbbs.Identity.{NodeId}
use meshbbs.Fountain.{
  Error, bad_k, symbol_size, mismatched, not_decoded, bad_length, max_k, max_symbol_size,
}
use meshbbs.Fountain.Symbol.{Symbol}
use meshbbs.Fountain.Mask.{mask}
use meshbbs.Fountain.Solve.{Equation, try_solve}

-- `done` is true exactly if `solved` is set; the source keeps both.
pub record Decoder : Type 0 where
  pub sender : NodeId
  pub bundle_id : ℕ
  pub k : ℕ
  pub sym_size : ℕ
  pub orig_len : ℕ
  pub rows : List Equation
  pub seen : List ℕ
  pub solved : List (List ℕ)
  pub finished : Bool

-- `NewDecoder`
unfoldable pub new_decoder : NodeId → ℕ → ℕ → ℕ → ℕ → Result Error Decoder
new_decoder sender bundle_id k sym_size orig_len = do
  guard (not (nat_beq k 0 || ltb max_k k)) bad_k
  guard (not (nat_beq sym_size 0 || ltb max_symbol_size sym_size)) symbol_size
  guard (not (nat_beq orig_len 0 || ltb (k * sym_size) orig_len)) bad_length
  ok (record {
    sender = sender;
    bundle_id = bundle_id;
    k = k;
    sym_size = sym_size;
    orig_len = orig_len;
    rows = [];
    seen = [];
    solved = [];
    finished = false;
  })

-- `d.seen[index]`
unfoldable pub has_seen : ℕ → List ℕ → Bool
has_seen index [] = false
has_seen index (i ∷ is) = nat_beq i index || has_seen index is

-- The mask with one place set.
unfoldable pub unit_mask : ℕ → ℕ → List Bool
unit_mask k index = set (replicate k false) index true

-- The call of `trySolve` on a decoder with enough rows.
unfoldable pub solve : Decoder → Decoder
solve d = elim (try_solve d.k d.rows) [
  | none ↦ d
  | some solved ↦ record d { solved = solved; finished = true }
]

module _ (blake3 : List ℕ → List ℕ) where
  unfoldable pub row_mask : Decoder → ℕ → List Bool
  row_mask d index =
      if ltb index d.k then unit_mask d.k index else mask blake3 d.sender d.bundle_id index d.k

  -- `Add` of a symbol that fits the block and is new.
  unfoldable pub add_new : Decoder → Symbol → Decoder
  unfolding solve
  add_new d s =
      let d' = record d {
        rows = d.rows ++ (record { mask = row_mask d s.index; payload = s.payload } ∷ []);
        seen = s.index ∷ d.seen;
      } in
      if leb d.k (length d'.rows) then solve d' else d'

  -- `Add`: the decoder afterwards, with the result.
  unfoldable pub add : Decoder → Symbol → Decoder × Result Error Bool
  add d s =
      if d.finished
      then (d, ok true)
      else (if not (nat_beq s.bundle_id d.bundle_id) || not (nat_beq s.k d.k)
          then (d, err mismatched)
          else (if not (nat_beq (length s.payload) d.sym_size)
              then (d, err symbol_size)
              else (if has_seen s.index d.seen
                  then (d, ok d.finished)
                  else (add_new d s, ok (add_new d s).finished))))

-- `Done` and `Received`
abbrev pub done : Decoder → Bool
done d = d.finished

abbrev pub received : Decoder → ℕ
received d = length d.seen

-- The loop of `Payload`.
unfoldable pub join_symbols : List (List ℕ) → List ℕ
join_symbols [] = []
join_symbols (s ∷ ss) = s ++ join_symbols ss

-- `Payload`
unfoldable pub payload : Decoder → Result Error (List ℕ)
payload d = if d.finished then ok (take d.orig_len (join_symbols d.solved)) else err not_decoded

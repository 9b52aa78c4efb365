-- ===== src/Fountain/Encoder.antt =====
-- internal/fountain/codec.go: the encoder.
use meshbbs.Common.{
  ℕ, zero, suc, ◌+◌, ◌-◌, ◌*◌, ◌/◌, ◌%◌, Bool, ◌||◌, not, List, [], ◌∷◌, ◌++◌, length, take, drop,
  get_or, replicate, min, bit_xor, if◌then◌else◌, ltb, nat_beq, Result, ok, ◌>>◌, guard,
}
use meshbbs.Identity.{NodeId}
use meshbbs.Fountain.{Error, bad_k, symbol_size, max_k, max_symbol_size}
use meshbbs.Fountain.Symbol.{Symbol}
use meshbbs.Fountain.Mask.{mask}

pub record Encoder : Type 0 where
  pub sender : NodeId
  pub bundle_id : ℕ
  pub k : ℕ
  pub sym_size : ℕ
  pub source : List (List ℕ)
  pub orig_len : ℕ

-- `copy(dst, src)`
unfoldable pub copy : List ℕ → List ℕ → List ℕ
copy [] src = []
copy (d ∷ ds) [] = d ∷ ds
copy (d ∷ ds) (s ∷ ss) = s ∷ copy ds ss

-- `payload[lo:hi]`
unfoldable pub slice : ℕ → ℕ → List ℕ → List ℕ
slice lo hi payload = take (hi - lo) (drop lo payload)

-- The `i`th source symbol, padded with zeros.
unfoldable pub chunk : List ℕ → ℕ → ℕ → List ℕ
unfolding copy slice
chunk payload sym_size i =
    copy (replicate sym_size 0)
      (slice (i * sym_size) (min ((i + 1) * sym_size) (length payload)) payload)

-- The loop over the source symbols, with the rounds left.
unfoldable pub source_loop : List ℕ → ℕ → ℕ → ℕ → List (List ℕ)
source_loop payload sym_size zero i = []
source_loop payload sym_size (suc n) i =
    chunk payload sym_size i ∷ source_loop payload sym_size n (i + 1)

-- `NewEncoder`. A symbol size of zero or below is zero here.
unfoldable pub new_encoder : NodeId → ℕ → List ℕ → ℕ → Result Error Encoder
new_encoder sender bundle_id payload sym_size = do
  guard (not (nat_beq sym_size 0 || ltb max_symbol_size sym_size)) symbol_size
  guard (not (nat_beq (length payload) 0)) bad_k
  let k = (length payload + sym_size - 1) / sym_size
  guard (not (ltb max_k k)) bad_k
  ok (record {
    sender = sender;
    bundle_id = bundle_id;
    k = k;
    sym_size = sym_size;
    source = source_loop payload sym_size k 0;
    orig_len = length payload;
  })

-- `dst[i] ^= src[i]`, over the bytes of `dst`.
unfoldable pub xor_bytes : List ℕ → List ℕ → List ℕ
xor_bytes [] src = []
xor_bytes (d ∷ ds) [] = d ∷ ds
xor_bytes (d ∷ ds) (s ∷ ss) = bit_xor d s ∷ xor_bytes ds ss

-- The loop of `Symbol` over the mask: the chosen source symbols are added up.
unfoldable pub combine : List ℕ → List Bool → List (List ℕ) → List ℕ
combine combined [] source = combined
combine combined (member ∷ m) [] = combined
combine combined (member ∷ m) (s ∷ source) =
    combine (if member then xor_bytes combined s else combined) m source

module _ (blake3 : List ℕ → List ℕ) where
  -- `Symbol`
  unfoldable pub symbol : Encoder → ℕ → Symbol
  symbol e index = record {
    bundle_id = e.bundle_id;
    index = index;
    k = e.k;
    payload =
        if ltb index e.k
        then get_or e.source index []
        else combine (replicate e.sym_size 0) (mask blake3 e.sender e.bundle_id index e.k) e.source;
  }

  -- The two loops of `Transmission`, with the rounds left; indices are uint16.
  unfoldable pub symbols_from : Encoder → ℕ → ℕ → List Symbol
  symbols_from e zero i = []
  symbols_from e (suc n) i = symbol e (i % 65536) ∷ symbols_from e n (i + 1)

  -- `Transmission`
  unfoldable pub transmission : Encoder → ℕ → List Symbol
  transmission e repair = symbols_from e e.k 0 ++ symbols_from e repair e.k

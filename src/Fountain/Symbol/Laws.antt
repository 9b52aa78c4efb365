-- ===== src/Fountain/Symbol/Laws.antt =====
-- The wire form of a symbol is read back, and each symbol has one.
use meshbbs.Common.{ℕ, ◌≡◌, ◌≤◌, ◌<◌, List, ◌∷◌, length, All, arith, ok}
use meshbbs.Common.Bytes.{IsByte, IsU16, IsU32, of_be32-be32, be32-of_be32}
use meshbbs.Fountain.{max_k, max_symbol_size}
use meshbbs.Fountain.Symbol.{Symbol, encode, decode_symbol}

-- What the field types of the Go struct, and the two limits, give.
pub record IsSymbol (s : Symbol) : Type 0 where
  pub id_fits : IsU32 s.bundle_id
  pub index_fits : IsU16 s.index
  pub some_k : 0 < s.k
  pub k_fits : s.k ≤ max_k
  pub some_payload : 0 < length s.payload
  pub payload_fits : length s.payload ≤ max_symbol_size

-- `DecodeSymbol` reads back what `Encode` wrote, for every symbol within the limits.
pub decode_symbol-encode : (s : Symbol) → IsSymbol s → decode_symbol (encode s) ≡ ok s
unfolding decode_symbol encode
decode_symbol-encode s h = ground (arith, of_be32-be32 s.bundle_id)

-- `DecodeSymbol` returns only symbols within the limits, and accepts no other bytes for them than
-- those that `Encode` writes.
pub encode-decode_symbol :
    (b : List ℕ) (s : Symbol) → All IsByte b → decode_symbol b ≡ ok s → IsSymbol s × (encode s ≡ b)
unfolding decode_symbol encode
encode-decode_symbol (b0 ∷ b1 ∷ b2 ∷ b3 ∷ b4 ∷ b5 ∷ b6 ∷ b7 ∷ p) s h e =
    ground (arith, be32-of_be32 b1 b2 b3 b4)
encode-decode_symbol _ s h e = ground arith

-- ===== src/Fountain/Symbol.antt =====
-- internal/fountain/fountain.go: the wire form of a symbol.
pub mod Laws
use meshbbs.Common.{
  ℕ, ◌+◌, ◌*◌, ◌/◌, ◌%◌, Bool, true, false, ◌&&◌, ◌||◌, not, List, [], ◌∷◌, ◌++◌, length, drop,
  get_or, if◌then◌else◌, ltb, nat_beq, Result, ok, err, ◌>>=◌, ◌>>◌, guard,
}
use meshbbs.Common.Bytes.{be32, of_be32}
use meshbbs.Fountain.{
  Error, truncated, bad_k, symbol_size, bad_version, bad_reserved, header_size, max_k,
  max_symbol_size,
}

pub record Symbol : Type 0 where
  pub bundle_id : ℕ  -- uint32
  pub index : ℕ  -- uint16
  pub k : ℕ  -- uint8
  pub payload : List ℕ

-- `Encode`. The first byte holds version 1 in its two top bits.
unfoldable pub encode : Symbol → List ℕ
encode s =
    (64 ∷ be32 s.bundle_id)
    ++ (((s.index % 256) ∷ (s.k % 256) ∷ (s.index / 256 % 256) ∷ []) ++ s.payload)

-- `DecodeSymbol`. The reads are in range, since `b` holds at least a header.
unfoldable pub decode_symbol : List ℕ → Result Error Symbol
decode_symbol b = do
  guard (not (ltb (length b) header_size)) truncated
  guard (nat_beq (get_or b 0 0 / 64) 1) bad_version
  guard (nat_beq (get_or b 0 0 % 64) 0) bad_reserved
  let payload = drop header_size b
  guard (not (nat_beq (length payload) 0 || ltb max_symbol_size (length payload))) symbol_size
  let k = get_or b 6 0
  guard (not (nat_beq k 0 || ltb max_k k)) bad_k
  ok (record {
    bundle_id = of_be32 (get_or b 1 0) (get_or b 2 0) (get_or b 3 0) (get_or b 4 0);
    index = get_or b 5 0 + get_or b 7 0 * 256;
    k = k;
    payload = payload;
  })

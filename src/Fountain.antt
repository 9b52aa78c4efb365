-- ===== src/Fountain.antt =====
-- internal/fountain: fountain coding over GF(2). A payload is cut into K source symbols; any K and
-- a few more of the transmitted symbols determine it.
pub mod Symbol
pub mod Mask
pub mod Encoder
pub mod Solve
pub mod Decoder
mod Tests
use meshbbs.Common.{ℕ}

-- `HeaderSize`, `MaxK` and `MaxSymbolSize`
abbrev pub header_size : ℕ
header_size = 8

abbrev pub max_k : ℕ
max_k = 64

abbrev pub max_symbol_size : ℕ
max_symbol_size = 1400

-- The errors of the package. `bad_version` and `bad_reserved` are made on the spot in the source,
-- and so is `bad_length`.
pub data Error : Type 0 where
  truncated bad_k mismatched not_decoded symbol_size bad_version bad_reserved bad_length : Error

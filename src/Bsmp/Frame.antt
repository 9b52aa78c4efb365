-- ===== src/Bsmp/Frame.antt =====
-- The inbox reads the frames that the outbox writes.
use meshbbs.Common.{ℕ, ◌+◌, ◌*◌, ◌≡◌, ◌≤◌, ◌<◌, some, List, ◌∷◌, ◌++◌, length, arith, ok}
use mathlib.Core.Path.{subst}
use meshbbs.Common.Bytes.{IsU16, IsU32, be32, of_be32-be32}
use meshbbs.Identity.{NodeId}
use meshbbs.Fountain.{max_k, max_symbol_size}
use meshbbs.Fountain.Symbol.{Symbol, encode}
use meshbbs.Fountain.Symbol.Laws.{IsSymbol, decode_symbol-encode}
use meshbbs.Fountain.Encoder.{Encoder, new_encoder, symbol}
use meshbbs.Fountain.Decoder.Block.{
  Made, block_of, new_encoder-Made, block_of-Encodes, enough_chunks,
}
use meshbbs.Fountain.Decoder.Correct.{length-symbol}
use meshbbs.Bsmp.{frame_symbol, word_of}
use meshbbs.Bsmp.Outbox.{symbol_frame}
use meshbbs.Bsmp.Inbox.{parse_frame, max_orig_len}

parse_encoded :
    (from : NodeId) (frame_type n : ℕ) (s : Symbol)
    → IsSymbol s
    → 0 < n
    → n ≤ max_orig_len
    → parse_frame (record { from = from; bytes = frame_type ∷ (be32 n ++ encode s) }) ≡ some (n, s)
unfolding parse_frame word_of encode
parse_encoded from frame_type n s h some_bytes fits =
    ground (arith, of_be32-be32 n, decode_symbol-encode s h)

fits_cap :
    (n k size : ℕ) → n ≤ (0 + k) * size → k ≤ max_k → size ≤ max_symbol_size → n ≤ max_orig_len
fits_cap n k size h p q = grind arith

symbol-IsSymbol :
    (blake3 : List ℕ → List ℕ) (sender : NodeId) (id : ℕ) (p : List ℕ) (size i : ℕ)
    → Made sender id p size (block_of sender id p size)
    → IsU32 id
    → IsU16 i
    → IsSymbol (symbol blake3 (block_of sender id p size) i)
unfolding symbol
symbol-IsSymbol blake3 sender id p size i m id_fits index_fits =
    let block = block_of-Encodes sender id p size m.some_bytes m.some_size in
    let width = length-symbol blake3 (block_of sender id p size) p block i in
    record {
      id_fits = id_fits;
      index_fits = index_fits;
      some_k = block.some_k;
      k_fits = m.k_fits;
      some_payload = omega (arith, width, m.some_size);
      payload_fits = omega (arith, width, m.size_fits);
    }

-- The inbox reads back the frame of any symbol that the outbox sends: the length of the packed
-- bundle, and the symbol. The bundle ID is a uint32 and the index a uint16.
pub parse_frame-symbol_frame :
    (blake3 : List ℕ → List ℕ) (from sender : NodeId) (id : ℕ) (packed : List ℕ) (size : ℕ)
    (e : Encoder) (i : ℕ)
    → new_encoder sender id packed size ≡ ok e
    → IsU32 id
    → IsU16 i
    → parse_frame (record { from = from; bytes = symbol_frame blake3 e i })
      ≡ some (length packed, symbol blake3 e i)
unfolding symbol_frame
parse_frame-symbol_frame blake3 from sender id packed size e i h id_fits index_fits =
    let m = new_encoder-Made sender id packed size e h in
    let m' = subst (Made sender id packed size) m.made m in
    rw m.made (
      parse_encoded from frame_symbol (length packed)
        (symbol blake3 (block_of sender id packed size) i)
        (symbol-IsSymbol blake3 sender id packed size i m' id_fits index_fits) m.some_bytes
        (fits_cap (length packed) _ size
          (enough_chunks (length packed) size m.some_bytes m.some_size).1 m'.k_fits m.size_fits))

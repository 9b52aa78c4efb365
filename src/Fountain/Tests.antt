-- ===== src/Fountain/Tests.antt =====
-- Concrete blocks: runs, and the theorems at inputs where their hypotheses hold.
use meshbbs.Common.{ℕ, ◌≡◌, refl, true, false, List, [], ◌∷◌, replicate, arith, ok}
use meshbbs.Identity.{NodeId}
use meshbbs.Fountain.Symbol.{Symbol, decode_symbol}
use meshbbs.Fountain.Symbol.Laws.{IsSymbol}
use meshbbs.Fountain.Mask.{mask, mask_from, mask_loop, next, word_bits, any_set, ensure_set}
use meshbbs.Fountain.Encoder.{Encoder, new_encoder, source_loop, chunk, symbol, xor_bytes, combine}
use meshbbs.Fountain.Solve.{
  try_solve, eliminate, collect, select, pivot, clear, swap, add_row, has_bit,
}
use meshbbs.Fountain.Decoder.{new_decoder, has_seen, unit_mask, row_mask, add_new, add, payload}
use meshbbs.Fountain.Decoder.Correct.{feed, fresh, new_decoder-new_encoder, payload-feed}

-- A digest whose words have bits 0 and 2 set.
abbrev digest : List ℕ → List ℕ
digest b = replicate 32 5

abbrev node : NodeId
node = 1 ∷ 2 ∷ 3 ∷ 4 ∷ 5 ∷ 6 ∷ 7 ∷ 8 ∷ []

abbrev text : List ℕ
text = 10 ∷ 20 ∷ 30 ∷ 40 ∷ 50 ∷ []

abbrev block : Encoder
block = record {
  sender = node;
  bundle_id = 77;
  k = 3;
  sym_size = 2;
  source = (10 ∷ 20 ∷ []) ∷ (30 ∷ 40 ∷ []) ∷ (50 ∷ 0 ∷ []) ∷ [];
  orig_len = 5;
}

block_made : new_encoder node 77 text 2 ≡ ok block
unfolding new_encoder source_loop chunk
block_made = refl

mask_five : mask digest node 77 3 3 ≡ true ∷ false ∷ true ∷ []
unfolding mask mask_from mask_loop next word_bits any_set ensure_set
mask_five = refl

abbrev sample : Symbol
sample = record { bundle_id = 77; index = 3; k = 3; payload = 56 ∷ 20 ∷ [] }

sample-IsSymbol : IsSymbol sample
sample-IsSymbol = record {
  id_fits = omega arith;
  index_fits = omega arith;
  some_k = omega arith;
  k_fits = omega arith;
  some_payload = omega arith;
  payload_fits = omega arith;
}

symbol_three : symbol digest block 3 ≡ sample
unfolding symbol mask mask_from mask_loop next word_bits any_set ensure_set combine xor_bytes
symbol_three = refl

sample_read : decode_symbol (64 ∷ 0 ∷ 0 ∷ 0 ∷ 77 ∷ 3 ∷ 3 ∷ 0 ∷ 56 ∷ 20 ∷ []) ≡ ok sample
unfolding decode_symbol
sample_read = refl

fresh_made : new_decoder node 77 3 2 5 ≡ ok (fresh node 77 3 2 5)
fresh_made = new_decoder-new_encoder node 77 text 2 block block_made

-- The repair symbol stands in for the first source symbol, and one arrives twice.
repaired : (feed digest block (fresh node 77 3 2 5) (2 ∷ 1 ∷ 1 ∷ 3 ∷ [])).finished ≡ true
unfolding feed add add_new has_seen row_mask unit_mask symbol mask mask_from mask_loop next
    word_bits any_set ensure_set combine xor_bytes try_solve eliminate collect select pivot clear
    swap add_row has_bit
repaired = refl

payload-feed_example :
    payload (feed digest block (fresh node 77 3 2 5) (2 ∷ 1 ∷ 1 ∷ 3 ∷ [])) ≡ ok text
payload-feed_example =
    payload-feed digest node 77 text 2 block (fresh node 77 3 2 5) (2 ∷ 1 ∷ 1 ∷ 3 ∷ []) block_made
      fresh_made repaired

abbrev stranger : Symbol
stranger = record { bundle_id = 78; index = 0; k = 3; payload = 1 ∷ 2 ∷ [] }

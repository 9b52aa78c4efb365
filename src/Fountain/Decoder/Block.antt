-- ===== src/Fountain/Decoder/Block.antt =====
-- The block that `NewEncoder` makes of a payload, and the masks of its source symbols.
use meshbbs.Common.{
  ℕ, zero, suc, ◌+◌, ◌-◌, ◌*◌, ◌/◌, ◌≡◌, ◌≤◌, ◌<◌, refl, ◌∙◌, Bool, true, false, List, [], ◌∷◌,
  length, length-replicate, length-set, take, replicate, All, get_or, arith, nat_beq, ok,
}
use meshbbs.Identity.{NodeId}
use meshbbs.Fountain.{max_k, max_symbol_size}
use meshbbs.Fountain.Encoder.{Encoder, new_encoder, xor_bytes, combine, source_loop}
use meshbbs.Fountain.Solve.Rows.{HasWidth, length-xor_bytes}
use meshbbs.Fountain.Solve.Reduce.{get_or-set}
use meshbbs.Fountain.Decoder.{unit_mask, join_symbols}
use meshbbs.Fountain.Decoder.Chunks.{source_loop-HasWidth, length-source_loop, join_source_loop}

-- What `NewEncoder` makes of a payload.
pub record Encodes (e : Encoder) (p : List ℕ) : Type 0 where
  pub some_k : 0 < e.k
  pub size : length e.source ≡ e.k
  pub widths : All (HasWidth e.sym_size) e.source
  pub orig : e.orig_len ≡ length p
  pub whole : take (length p) (join_symbols e.source) ≡ p

pub enough_chunks :
    (n s : ℕ) → 0 < n → 0 < s → (0 < (n + s - 1) / s) × (n ≤ (0 + (n + s - 1) / s) * s)
enough_chunks n s h p = (grind arith, grind arith)

-- The encoder that `NewEncoder` returns.
abbrev pub block_of : NodeId → ℕ → List ℕ → ℕ → Encoder
block_of sender bundle_id p sym_size = record {
  sender = sender;
  bundle_id = bundle_id;
  k = (length p + sym_size - 1) / sym_size;
  sym_size = sym_size;
  source = source_loop p sym_size ((length p + sym_size - 1) / sym_size) 0;
  orig_len = length p;
}

-- When `NewEncoder` succeeds, and what it returns.
pub record Made (sender : NodeId) (bundle_id : ℕ) (p : List ℕ) (sym_size : ℕ) (e : Encoder)
    : Type 0 where
  pub some_size : 0 < sym_size
  pub size_fits : sym_size ≤ max_symbol_size
  pub some_bytes : 0 < length p
  pub k_fits : e.k ≤ max_k
  pub made : e ≡ block_of sender bundle_id p sym_size

pub new_encoder-Made :
    (sender : NodeId) (bundle_id : ℕ) (p : List ℕ) (sym_size : ℕ) (e : Encoder)
    → new_encoder sender bundle_id p sym_size ≡ ok e
    → Made sender bundle_id p sym_size e
unfolding new_encoder
new_encoder-Made sender bundle_id p sym_size e h = record {
  some_size = ground arith;
  size_fits = ground arith;
  some_bytes = ground arith;
  k_fits = ground arith;
  made = ground arith;
}

pub block_of-Encodes :
    (sender : NodeId) (bundle_id : ℕ) (p : List ℕ) (sym_size : ℕ)
    → 0 < length p
    → 0 < sym_size
    → Encodes (block_of sender bundle_id p sym_size) p
block_of-Encodes sender bundle_id p sym_size some_bytes some_size =
    let k = (length p + sym_size - 1) / sym_size in
    let (pos, enough) = enough_chunks (length p) sym_size some_bytes some_size in
    record {
      some_k = pos;
      size = length-source_loop p sym_size k 0;
      widths = source_loop-HasWidth p sym_size k 0;
      orig = refl;
      whole =
          let z : 0 * sym_size ≡ 0 = omega arith in
          rw z at (join_source_loop p sym_size k 0 enough);
    }

pub length-combine :
    (acc : List ℕ) (m : List Bool) (source : List (List ℕ))
    → length (combine acc m source) ≡ length acc
unfolding combine
length-combine acc [] source = refl
length-combine acc (b ∷ m) [] = refl
length-combine acc (true ∷ m) (s ∷ source) =
    length-combine (xor_bytes acc s) m source ∙ length-xor_bytes acc s
length-combine acc (false ∷ m) (s ∷ source) = length-combine acc m source

get_or-replicate : (n c : ℕ) → get_or (replicate n false) c false ≡ false
get_or-replicate zero c = refl
get_or-replicate (suc n) zero = refl
get_or-replicate (suc n) (suc c) = get_or-replicate n c

pub get_or-unit_mask : (k i c : ℕ) → i < k → get_or (unit_mask k i) c false ≡ nat_beq c i
unfolding unit_mask
get_or-unit_mask k i c h = ground (
  arith,
  get_or-set (replicate k false) i c true false,
  length-replicate k false,
  get_or-replicate k c,
)

pub length-unit_mask : (k i : ℕ) → length (unit_mask k i) ≡ k
unfolding unit_mask
length-unit_mask k i = length-set (replicate k false) i true ∙ length-replicate k false

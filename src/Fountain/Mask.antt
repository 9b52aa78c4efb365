-- ===== src/Fountain/Mask.antt =====
-- internal/fountain/fountain.go: the mask of a repair symbol, which source symbols it combines.
-- The digest function is lukechampine.com/blake3, a parameter.
pub mod Laws
use meshbbs.Common.{
  ℕ, zero, suc, ◌+◌, ◌-◌, ◌*◌, ◌/◌, ◌%◌, ◌^◌, Bool, true, false, ◌||◌, List, [], ◌∷◌, ◌++◌, length,
  take, drop, get_or, set, replicate, min, if◌then◌else◌, ltb, nat_beq,
}
use meshbbs.Common.Bytes.{be16, be32, of_be32}
use meshbbs.Identity.{NodeId}

-- The state of the closure `next`: a counter, and the bytes not used up yet.
pub record Pool : Type 0 where
  pub counter : ℕ
  pub bytes : List ℕ

-- `binary.BigEndian.Uint32(pool[:4])`
unfoldable pub first_word : List ℕ → ℕ
first_word p = of_be32 (get_or p 0 0) (get_or p 1 0) (get_or p 2 0) (get_or p 3 0)

module _ (blake3 : List ℕ → List ℕ) where
  -- The bytes to draw from: the counter's digest once fewer than four are left.
  unfoldable pub refill : List ℕ → Pool → Pool
  refill seed p =
      if ltb (length p.bytes) 4
      then record {
        counter = (p.counter + 1) % 4294967296;
        bytes = blake3 (seed ++ be32 p.counter);
      }
      else p

  -- `next`
  unfoldable pub next : List ℕ → Pool → ℕ × Pool
  unfolding refill first_word
  next seed p = let q = refill seed p in (first_word q.bytes, record q { bytes = drop 4 q.bytes })

-- The inner loop: bits `j` to `j + n - 1` of a word.
unfoldable pub word_bits : ℕ → ℕ → ℕ → List Bool
word_bits zero word j = []
word_bits (suc n) word j = nat_beq (word / 2 ^ j % 2) 1 ∷ word_bits n word (j + 1)

-- Whether `set` is above zero at the end of the loop.
unfoldable pub any_set : List Bool → Bool
any_set [] = false
any_set (b ∷ bs) = b || any_set bs

-- An empty mask gets one place set.
unfoldable pub ensure_set : List Bool → ℕ → List Bool
ensure_set out i = if any_set out then out else set out i true

module _ (blake3 : List ℕ → List ℕ) where
  -- The outer loop, for the rounds that are left, with `left` source symbols to go.
  unfoldable pub mask_loop : ℕ → ℕ → List ℕ → Pool → List Bool × Pool
  mask_loop zero left seed p = ([], p)
  mask_loop (suc rounds) left seed p =
      let (word, q) = next blake3 seed p in
      let (rest, q') = mask_loop rounds (left - 32) seed q in
      (word_bits (min 32 left) word 0 ++ rest, q')

  -- The mask once the seed is drawn.
  unfoldable pub mask_from : List ℕ → ℕ → List Bool
  mask_from seed k =
      if nat_beq k 1
      then true ∷ []
      else (let (out, p) = mask_loop ((k + 31) / 32) k seed (record { counter = 0; bytes = [] }) in
          let (word, _) = next blake3 seed p in ensure_set out (word % k))

  -- `mask`
  unfoldable pub mask : NodeId → ℕ → ℕ → ℕ → List Bool
  mask sender bundle_id index k = mask_from (blake3 (sender ++ (be32 bundle_id ++ be16 index))) k

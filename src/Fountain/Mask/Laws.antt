-- ===== src/Fountain/Mask/Laws.antt =====
-- A mask has a place for every source symbol, and combines at least one of them.
use meshbbs.Common.{
  ℕ, zero, suc, ◌+◌, ◌-◌, ◌*◌, ◌/◌, ◌≡◌, ◌≤◌, ◌<◌, refl, ap, ◌∙◌, Bool, true, List, [], ◌∷◌, length,
  length-append, length-set, set, min, arith, nat_beq, Bool-cases, inl, inr,
}
use meshbbs.Identity.{NodeId}
use meshbbs.Fountain.Mask.{Pool, next, word_bits, any_set, ensure_set, mask_loop, mask_from, mask}

length-word_bits : (n word j : ℕ) → length (word_bits n word j) ≡ n
unfolding word_bits
length-word_bits zero word j = refl
length-word_bits (suc n) word j = ap suc (length-word_bits n word (j + 1))

any_set-set : (bs : List Bool) (i : ℕ) → i < length bs → any_set (set bs i true) ≡ true
unfolding any_set
any_set-set [] i h = absurd (omega arith)
any_set-set (b ∷ bs) zero h = refl
any_set-set (b ∷ bs) (suc i) h = ground (arith, any_set-set bs i)

ensure_set_shape :
    (out : List Bool) (i k : ℕ)
    → length out ≡ k
    → i < k
    → (length (ensure_set out i) ≡ k) × (any_set (ensure_set out i) ≡ true)
unfolding ensure_set
ensure_set_shape out i k h l = ground (arith, length-set out i true, any_set-set out i)

module _ (blake3 : List ℕ → List ℕ) where
  length-mask_loop :
      (rounds left : ℕ) (seed : List ℕ) (p : Pool)
      → left ≤ 32 * rounds
      → length (mask_loop blake3 rounds left seed p).0 ≡ left
  unfolding mask_loop
  length-mask_loop zero left seed p h = omega arith
  length-mask_loop (suc rounds) left seed p h =
      let (word, q) = next blake3 seed p in
      length-append (word_bits (min 32 left) word 0) _
      ∙ omega (
        arith,
        length-word_bits (min 32 left) word 0,
        length-mask_loop rounds (left - 32) seed q (omega arith),
      )

  mask_from_shape :
      (seed : List ℕ) (k : ℕ)
      → 0 < k
      → (length (mask_from blake3 seed k) ≡ k) × (any_set (mask_from blake3 seed k) ≡ true)
  unfolding mask_from any_set
  mask_from_shape seed k h = elim (Bool-cases (nat_beq k 1)) [
    | inl one ↦ rw one (ground arith, refl)
    | inr more ↦ rw more (
        ensure_set_shape _ _ k (length-mask_loop ((k + 31) / 32) k seed _ (omega arith))
          (grind arith))
  ]

  -- For every digest function, block and index: a mask over `k` source symbols, at least one, has `k`
  -- places, and at least one of them is set, so that no repair symbol is empty.
  pub mask_shape :
      (sender : NodeId) (bundle_id index k : ℕ)
      → 0 < k
      → (length (mask blake3 sender bundle_id index k) ≡ k)
        × (any_set (mask blake3 sender bundle_id index k) ≡ true)
  unfolding mask
  mask_shape sender bundle_id index k h = mask_from_shape _ k h

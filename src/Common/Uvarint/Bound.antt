-- ===== src/Common/Uvarint/Bound.antt =====
-- `Uvarint` returns no more than a uint64 holds.
use Prim.Native.Nat.{ℕ, zero, suc, ◌+◌, ◌*◌, ◌%◌, ◌^◌, ◌≤◌, ◌<◌, bit_and}
use mathlib.Core.Path.{◌≡◌, refl, ap}
use mathlib.Core.Logic.{inl, inr}
use mathlib.Core.Option.{some, none}
use mathlib.Core.List.{List, [], ◌∷◌}
use native.Mathlib.Omega.{arith}
use native.Mathlib.Nat.{pow-suc}
use meshbbs.Common.Tests.{ltb, Bool-cases, ltb→lt}
use meshbbs.Common.Lists.{All}
use meshbbs.Common.Bytes.{IsByte, IsU64}
use meshbbs.Common.Uvarint.{uvarint_loop, uvarint}
use meshbbs.Common.Uvarint.Write.{seven_bits}
use meshbbs.Common.Uvarint.Read.{pow_seven}

uvarint_loop_ten : (bs : List ℕ) (x s : ℕ) → uvarint_loop bs 10 x s ≡ none
unfolding uvarint_loop
uvarint_loop_ten [] x s = refl
uvarint_loop_ten (b ∷ bs) x s = refl

-- A group at a bit of value `u`, with `t` for what may follow it, after `x`.
group_fits : (x b u t : ℕ) → x < u → b < 128 → 1 ≤ t → x + b * u < u * (128 * t)
group_fits x b u t hx hb ht = grind arith

one_le_pow : (k : ℕ) → 1 ≤ 128 ^ k
one_le_pow zero = omega arith
one_le_pow (suc k) = omega (arith, one_le_pow k, pow-suc 128 k)

next_group : (x b s : ℕ) → x < 2 ^ s → x + b % 128 * 2 ^ s < 2 ^ (s + 7)
next_group x b s h =
    let m : b % 128 < 128 = omega arith in
    omega (arith, pow_seven s, group_fits x (b % 128) (2 ^ s) 1 h m (omega arith))

last_group : (x b v u : ℕ) → x < u → b ≤ 1 → u ≡ 9223372036854775808 → v ≡ x + b * u → IsU64 v
last_group x zero v u hx hb hu e = omega (arith, hx, hu, e)
last_group x (suc zero) v u hx hb hu e = omega (arith, hx, hu, e)
last_group x (suc (suc b)) v u hx hb hu e = absurd (omega (arith, hb))

uvarint_loop-IsU64 :
    (bs : List ℕ) (k i x s v n : ℕ)
    → All IsByte bs
    → i + k ≡ 9
    → x < 2 ^ s
    → 2 ^ s * 128 ^ k ≡ 9223372036854775808
    → uvarint_loop bs i x s ≡ some (v, n)
    → IsU64 v
unfolding uvarint_loop
uvarint_loop-IsU64 [] k i x s v n hb hi hx hs e = absurd (ground arith)
uvarint_loop-IsU64 (b ∷ bs) zero i x s v n (hb, hbs) hi hx hs e = elim (Bool-cases (ltb b 128)) [
  | inl low ↦
      let top : 2 ^ s ≡ 9223372036854775808 = omega (arith, hs) in
      elim (Bool-cases (ltb 1 b)) [
        | inl big ↦ absurd (ground arith)
        | inr bit ↦
            let value : v ≡ x + b * 2 ^ s = ground arith in
            let one : b ≤ 1 = ground arith in last_group x b v (2 ^ s) hx one top value
      ]
  | inr high ↦
      let nine : i ≡ 9 = omega arith in
      absurd (ground (arith, uvarint_loop_ten bs (x + bit_and b 0x7f * 2 ^ s) (s + 7)))
]
uvarint_loop-IsU64 (b ∷ bs) (suc k) i x s v n (hb, hbs) hi hx hs e = elim (Bool-cases (ltb b 128)) [
  | inl low ↦
      let value : v ≡ x + b * 2 ^ s = ground arith in
      let fits = group_fits x b (2 ^ s) (128 ^ k) hx (ltb→lt b 128 low) (one_le_pow k) in
      omega (arith, hs, pow-suc 128 k, fits, ap (λ (t : ℕ). 2 ^ s * t) (pow-suc 128 k))
  | inr high ↦
      uvarint_loop-IsU64 bs k (i + 1) (x + b % 128 * 2 ^ s) (s + 7) v n hbs (omega arith)
        (next_group x b s hx)
        (omega (
          arith,
          pow_seven s,
          pow-suc 128 k,
          hs,
          ap (λ (t : ℕ). t * 128 ^ k) (pow_seven s),
          ap (λ (t : ℕ). 2 ^ s * t) (pow-suc 128 k),
        ))
        (ground (arith, seven_bits b hb))
]

-- `Uvarint` of a list of bytes is a uint64.
pub uvarint-IsU64 : (bs : List ℕ) (v n : ℕ) → All IsByte bs → uvarint bs ≡ some (v, n) → IsU64 v
unfolding uvarint
uvarint-IsU64 bs v n hb e = uvarint_loop-IsU64 bs 9 0 0 0 v n hb refl (omega arith) refl e

-- ===== src/Common/Uvarint/Read.antt =====
-- What `Uvarint` reads, and that it inverts `AppendUvarint`.
use Prim.Native.Nat.{ℕ, zero, suc, ◌+◌, ◌*◌, ◌/◌, ◌%◌, ◌^◌, ◌≤◌, ◌<◌}
use mathlib.Core.Path.{◌≡◌, refl, ap, ◌∙◌}
use mathlib.Core.Option.{some}
use mathlib.Core.List.{List, [], ◌∷◌, ◌++◌}
use native.Mathlib.Omega.{arith}
use native.Mathlib.Numerals.{towards_suc}
use native.Mathlib.Nat.{div-add-mod, pow-suc}
use meshbbs.Common.Tests.{ltb, Bool-cases, ltb→lt, ltb→le}
use mathlib.Core.Logic.{inl, inr}
use meshbbs.Common.Lists.{length, All, drop, drop-length-append}
use meshbbs.Common.Bytes.{IsByte, IsU64}
use meshbbs.Common.Uvarint.{append_uvarint, uvarint_loop, uvarint}
use meshbbs.Common.Uvarint.Write.{append_uvarint_lem, seven_bits}

pub pow_seven : (s : ℕ) → 2 ^ (s + 7) ≡ 128 * 2 ^ s
pow_seven s = simp towards_suc (omega arith)

-- The lowest group of `x` and the rest of it, both at bit `s`.
low_group : (x s : ℕ) → x * 2 ^ s ≡ x % 128 * 2 ^ s + x / 128 * 2 ^ (s + 7)
low_group x s = omega (
  arith,
  ap (λ (t : ℕ). t * 2 ^ s) (div-add-mod x 128),
  ap (λ (t : ℕ). x / 128 * t) (pow_seven s),
)

-- From byte `i` on there is room for `k + 1` groups, the last of them a single bit.
uvarint_loop-append_uvarint :
    (k i x acc s : ℕ) (rest : List ℕ)
    → i + k ≡ 9
    → x < 2 * 128 ^ k
    → uvarint_loop (append_uvarint x ++ rest) i acc s
      ≡ some (acc + x * 2 ^ s, i + length (append_uvarint x))
unfolding uvarint_loop
uvarint_loop-append_uvarint zero i x acc s rest hi hx = rw append_uvarint_lem (ground arith)
uvarint_loop-append_uvarint (suc k) i x acc s rest hi hx = ground (
  arith,
  append_uvarint_lem x,
  seven_bits (x % 128 + 128),
  low_group x s,
  uvarint_loop-append_uvarint k (i + 1) (x / 128) (acc + x % 128 * 2 ^ s) (s + 7) rest,
  pow-suc 128 k,
)

-- `Uvarint` reads back what `AppendUvarint` wrote, whatever follows it.
pub uvarint-append_uvarint :
    (x : ℕ) (rest : List ℕ)
    → IsU64 x
    → uvarint (append_uvarint x ++ rest) ≡ some (x, length (append_uvarint x))
unfolding uvarint
uvarint-append_uvarint x rest h = ground (arith, uvarint_loop-append_uvarint 9 0 x 0 0 rest)

-- The number that a list of groups stands for.
le128 : List ℕ → ℕ
le128 [] = 0
le128 (b ∷ bs) = b % 128 + 128 * le128 bs

-- A complete number: every byte but the last continues.
abbrev IsGroups : List ℕ → Type 0
IsGroups [] = ⊥
IsGroups (b ∷ []) = b < 128
IsGroups (b ∷ c ∷ cs) = (128 ≤ b) × (b < 256) × IsGroups (c ∷ cs)

-- The shortest form is at most as long, and it is the same bytes if it is as long.
shortest :
    (c : List ℕ)
    → IsGroups c
    → (length (append_uvarint (le128 c)) ≤ length c)
      × (length (append_uvarint (le128 c)) ≡ length c → append_uvarint (le128 c) ≡ c)
unfolding le128
shortest [] h = absurd h
shortest (b ∷ []) h = ground (arith, append_uvarint_lem (b % 128 + 128 * 0))
shortest (b ∷ c ∷ cs) (h, h', hs) =
    ground (arith, append_uvarint_lem (b % 128 + 128 * le128 (c ∷ cs)), shortest (c ∷ cs) hs)

-- What a successful read took from its input.
record Taken (bs : List ℕ) (v n i x s : ℕ) : Type 0 where
  front : List ℕ
  back : List ℕ
  split : bs ≡ front ++ back
  groups : IsGroups front
  value : v ≡ x + le128 front * 2 ^ s
  count : n ≡ i + length front

last-Taken :
    (b : ℕ) (bs : List ℕ) (v n i x s : ℕ)
    → b < 128
    → v ≡ x + b * 2 ^ s
    → n ≡ i + 1
    → Taken (b ∷ bs) v n i x s
unfolding le128
last-Taken b bs v n i x s h hv hn = record {
  front = b ∷ [];
  back = bs;
  split = refl;
  groups = h;
  value = ground arith;
  count = omega arith;
}

more-Taken :
    (b : ℕ) (bs : List ℕ) (v n i x s : ℕ)
    → 128 ≤ b
    → b < 256
    → Taken bs v n (i + 1) (x + b % 128 * 2 ^ s) (s + 7)
    → Taken (b ∷ bs) v n i x s
unfolding le128
more-Taken b bs v n i x s h h' t = record {
  front = b ∷ t.front;
  back = t.back;
  split = ap (λ l. b ∷ l) t.split;
  groups = longer t.front t.groups;
  value = omega (arith, t.value, ap (λ (u : ℕ). le128 t.front * u) (pow_seven s));
  count = omega (arith, t.count);
}
  where
    longer : (f : List ℕ) → IsGroups f → IsGroups (b ∷ f)
    longer [] g = absurd g
    longer (c ∷ cs) g = (h, h', g)

uvarint_loop_takes :
    (bs : List ℕ) (v n i x s : ℕ)
    → All IsByte bs
    → uvarint_loop bs i x s ≡ some (v, n)
    → Taken bs v n i x s
unfolding uvarint_loop
uvarint_loop_takes [] v n i x s hb e = absurd (ground arith)
uvarint_loop_takes (b ∷ bs) v n i x s (hb, hs) e = elim (Bool-cases (ltb b 128)) [
  | inl low ↦
      last-Taken b bs v n i x s (omega (arith, ltb→lt b 128 low)) (ground arith) (ground arith)
  | inr high ↦ more-Taken b bs v n i x s (omega (arith, ltb→le b 128 high)) hb (
      uvarint_loop_takes bs v n (i + 1) (x + b % 128 * 2 ^ s) (s + 7) hs
        (ground (arith, seven_bits b hb)))
]

groups_shortest :
    (front back : List ℕ) (v : ℕ)
    → IsGroups front
    → v ≡ le128 front
    → length (append_uvarint v) ≡ length front
    → front ++ back ≡ append_uvarint v ++ drop (length front) (front ++ back)
groups_shortest front back v g hv hn =
    let form : append_uvarint (le128 front) ≡ front =
      (shortest front g).1 (ground (arith, ap (λ u. length (append_uvarint u)) hv)) in
    rw (hv, form, drop-length-append)

-- A read that took as many bytes as the shortest form has took the shortest form.
pub uvarint_shortest :
    (bs : List ℕ) (v n : ℕ)
    → All IsByte bs
    → uvarint bs ≡ some (v, n)
    → length (append_uvarint v) ≡ n
    → bs ≡ append_uvarint v ++ drop n bs
unfolding uvarint
uvarint_shortest bs v n hb e hn =
    let t = uvarint_loop_takes bs v n 0 0 0 hb e in
    let same : n ≡ length t.front = omega (arith, t.count) in
    let found = groups_shortest t.front t.back v t.groups (omega (arith, t.value)) (hn ∙ same) in
    rw (t.split, same) found

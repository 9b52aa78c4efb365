-- ===== src/Common/Uvarint/Write.antt =====
-- `AppendUvarint` writes groups of seven bits, the lowest first.
use Prim.Native.Nat.{ℕ, zero, suc, ◌+◌, ◌/◌, ◌%◌, ◌^◌, ◌≤◌, ◌<◌, bit_and, bit_or}
use mathlib.Core.Path.{◌≡◌, refl}
use mathlib.Core.Bool.{Bool, true, ◌&&◌}
use mathlib.Core.List.{[], ◌∷◌}
use native.Mathlib.Omega.{arith}
use native.Mathlib.Nat.{pow-suc}
use meshbbs.Common.Tests.{if◌then◌else◌, ltb, nat_beq}
use meshbbs.Common.Lists.{All, length}
use meshbbs.Common.Bytes.{IsByte}
use meshbbs.Common.Uvarint.{append_loop, append_uvarint}

-- Whether two functions agree on every number below `n`, by evaluation.
agrees : (ℕ → ℕ) → (ℕ → ℕ) → ℕ → Bool
agrees f g zero = true
agrees f g (suc n) = nat_beq (f n) (g n) && agrees f g n

agrees→eq : (f g : ℕ → ℕ) (n x : ℕ) → agrees f g n ≡ true → x < n → f x ≡ g x
unfolding agrees
agrees→eq f g zero x h lt = absurd (omega arith)
agrees→eq f g (suc n) x h lt = ground (arith, agrees→eq f g n x)

pub continued_byte : (b : ℕ) → b < 256 → bit_or b 0x80 ≡ b % 128 + 128
unfolding agrees
continued_byte b h = agrees→eq (λ x. bit_or x 0x80) (λ x. x % 128 + 128) 256 b refl h

pub seven_bits : (b : ℕ) → b < 256 → bit_and b 0x7f ≡ b % 128
unfolding agrees
seven_bits b h = agrees→eq (λ x. bit_and x 0x7f) (λ x. x % 128) 256 b refl h

append_loop_fuel : (f g x : ℕ) → x ≤ f → x ≤ g → append_loop f x ≡ append_loop g x
unfolding append_loop
append_loop_fuel zero zero x p q = refl
append_loop_fuel zero (suc g) x p q = ground arith
append_loop_fuel (suc f) zero x p q = ground arith
append_loop_fuel (suc f) (suc g) x p q = ground (arith, append_loop_fuel f g (x / 128))

-- The recursion that the loop stands for.
pub append_uvarint_lem :
    (x : ℕ)
    → append_uvarint x ≡ (if ltb x 128 then x ∷ [] else (x % 128 + 128) ∷ append_uvarint (x / 128))
unfolding append_uvarint
append_uvarint_lem zero = refl
append_uvarint_lem (suc n) =
    ground (arith, continued_byte (suc n % 256), append_loop_fuel n (suc n / 128) (suc n / 128))

append_loop-IsByte : (f x : ℕ) → All IsByte (append_loop f x)
unfolding append_loop
append_loop-IsByte zero x = omega arith
append_loop-IsByte (suc f) x =
    ground (arith, append_loop-IsByte f (x / 128), continued_byte (x % 256))

pub append_uvarint-IsByte : (x : ℕ) → All IsByte (append_uvarint x)
unfolding append_uvarint
append_uvarint-IsByte x = append_loop-IsByte x x

-- A number below 128 ^ k takes at most k bytes.
pub length-append_uvarint : (k x : ℕ) → 1 ≤ k → x < 128 ^ k → length (append_uvarint x) ≤ k
length-append_uvarint zero x h hx = absurd (omega arith)
length-append_uvarint (suc zero) x h hx = ground (arith, append_uvarint_lem x)
length-append_uvarint (suc (suc k)) x h hx =
    ground
      (arith, append_uvarint_lem x, pow-suc 128 (suc k), length-append_uvarint (suc k) (x / 128))

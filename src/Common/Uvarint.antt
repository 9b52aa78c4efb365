-- ===== src/Common/Uvarint.antt =====
-- encoding/binary: `AppendUvarint` and `Uvarint`, which vv.go and the record codec call.
pub mod Read
pub mod Bound
pub mod Write
use Prim.Native.Nat.{ℕ, zero, suc, ◌+◌, ◌*◌, ◌/◌, ◌%◌, ◌^◌, bit_and, bit_or}
use mathlib.Core.Bool.{◌&&◌}
use mathlib.Core.Option.{Option, none, some}
use mathlib.Core.List.{List, [], ◌∷◌}
use meshbbs.Common.Tests.{if◌then◌else◌, ltb, nat_beq}

-- `for x >= 0x80 { buf = append(buf, byte(x)|0x80); x >>= 7 }; append(buf, byte(x))`
unfoldable pub append_loop : ℕ → ℕ → List ℕ
append_loop zero x = (x % 256) ∷ []
append_loop (suc fuel) x =
    let rest = append_loop fuel (x / 128) in
    if ltb x 128 then (x % 256) ∷ [] else bit_or (x % 256) 0x80 ∷ rest

-- Each round divides `x`, so `x` rounds are more than enough.
unfoldable pub append_uvarint : ℕ → List ℕ
unfolding append_loop
append_uvarint x = append_loop x x

-- The loop of `Uvarint` at byte `i`, with `x` read so far. `none` is the result 0 or below, which
-- every caller treats alike. The groups of bits do not overlap, so `|` is a sum.
unfoldable pub uvarint_loop : List ℕ → ℕ → ℕ → ℕ → Option (ℕ × ℕ)
uvarint_loop [] i x s = none
uvarint_loop (b ∷ bs) i x s =
    let more = uvarint_loop bs (i + 1) (x + bit_and b 0x7f * 2 ^ s) (s + 7) in
    if nat_beq i 10
    then none
    else (if ltb b 128
        then (if nat_beq i 9 && ltb 1 b then none else some (x + b * 2 ^ s, i + 1))
        else more)

-- The value and the number of bytes read.
unfoldable pub uvarint : List ℕ → Option (ℕ × ℕ)
unfolding uvarint_loop
uvarint bs = uvarint_loop bs 0 0 0

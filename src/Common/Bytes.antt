-- ===== src/Common/Bytes.antt =====
-- Bytes and big-endian words.
use Prim.Native.Nat.{ℕ, ◌+◌, ◌*◌, ◌/◌, ◌%◌, ◌<◌, ◌≤◌}
use mathlib.Core.Path.{◌≡◌}
use mathlib.Core.List.{List, [], ◌∷◌, ◌++◌}
use meshbbs.Common.Lists.{length, take, All}
use native.Mathlib.Omega.{arith}

abbrev pub IsByte : ℕ → Type 0
IsByte b = b < 256

abbrev pub IsU16 : ℕ → Type 0
IsU16 v = v < 65536

abbrev pub IsU32 : ℕ → Type 0
IsU32 v = v < 4294967296

abbrev pub IsU64 : ℕ → Type 0
IsU64 v = v < 18446744073709551616

-- `binary.BigEndian.PutUint16`, `PutUint32` and `PutUint64`
abbrev pub be16 : ℕ → List ℕ
be16 v = (v / 256 % 256) ∷ (v % 256) ∷ []

abbrev pub be32 : ℕ → List ℕ
be32 v = (v / 16777216 % 256) ∷ (v / 65536 % 256) ∷ (v / 256 % 256) ∷ (v % 256) ∷ []

abbrev pub be64 : ℕ → List ℕ
be64 v = be32 (v / 4294967296) ++ be32 (v % 4294967296)

-- `binary.BigEndian.Uint32` of four bytes
abbrev pub of_be32 : ℕ → ℕ → ℕ → ℕ → ℕ
of_be32 a b c d = ((a * 256 + b) * 256 + c) * 256 + d

pub of_be32-be32 :
    (v : ℕ) → IsU32 v → of_be32 (v / 16777216 % 256) (v / 65536 % 256) (v / 256 % 256) (v % 256) ≡ v
of_be32-be32 v h = omega arith

pub be32-of_be32 :
    (a b c d : ℕ)
    → IsByte a
    → IsByte b
    → IsByte c
    → IsByte d
    → IsU32 (of_be32 a b c d) × (be32 (of_be32 a b c d) ≡ a ∷ b ∷ c ∷ d ∷ [])
be32-of_be32 a b c d p q r s = (omega arith, ground arith)

-- `binary.BigEndian.Uint32` of a slice, of which the callers see to the length.
unfoldable pub read_be32 : List ℕ → ℕ
read_be32 (a ∷ (b ∷ (c ∷ (d ∷ rest)))) = of_be32 a b c d
read_be32 bytes = 0

pub read_be32-be32 : (v : ℕ) (rest : List ℕ) → IsU32 v → read_be32 (be32 v ++ rest) ≡ v
unfolding read_be32
read_be32-be32 v rest h = of_be32-be32 v h

-- Four bytes are the encoding of the number that they are read as.
pub be32-read_be32 :
    (xs : List ℕ)
    → 4 ≤ length xs
    → All IsByte xs
    → IsU32 (read_be32 xs) × (be32 (read_be32 xs) ≡ take 4 xs)
unfolding read_be32
be32-read_be32 [] h _ = absurd (omega arith)
be32-read_be32 (a ∷ []) h _ = absurd (omega arith)
be32-read_be32 (a ∷ (b ∷ [])) h _ = absurd (omega arith)
be32-read_be32 (a ∷ (b ∷ (c ∷ []))) h _ = absurd (omega arith)
be32-read_be32 (a ∷ (b ∷ (c ∷ (d ∷ rest)))) h (p, (q, (r, (s, _)))) = be32-of_be32 a b c d p q r s

-- ===== src/Bsmp.antt =====
-- internal/bsmp: the sync protocol over a link. The outbox turns records into fountain symbols, the
-- inbox turns symbols into records.
pub mod Inbox
pub mod Outbox
pub mod Frame
pub mod Faithful
pub mod EndToEnd
mod Tests
use meshbbs.Common.{ℕ, ◌+◌, ◌*◌, List, take, get_or}
use meshbbs.Common.Bytes.{of_be32}

-- `frameOverhead`: the frame type and the length of the packed bundle.
abbrev pub frame_overhead : ℕ
frame_overhead = 5

-- `link.FrameControl` and `link.FrameSymbol`
abbrev pub frame_control : ℕ
frame_control = 1

abbrev pub frame_symbol : ℕ
frame_symbol = 2

-- The four bytes of a big-endian word.
unfoldable pub word_of : List ℕ → ℕ
word_of b = of_be32 (get_or b 0 0) (get_or b 1 0) (get_or b 2 0) (get_or b 3 0)

-- `bundleIDFor`. The digest function is lukechampine.com/blake3, a parameter.
unfoldable pub bundle_id_for : (List ℕ → List ℕ) → List ℕ → ℕ
bundle_id_for blake3 packed = word_of (take 4 (blake3 packed))

-- ===== src/Gossip.antt =====
-- internal/gossip: anti-entropy. Here the messages and their wire form.
pub mod Digest
pub mod VectorReq
pub mod RangeReq
pub mod Schedule
pub mod Engine
mod Tests
use meshbbs.Common.{
  ℕ, ◌+◌, ◌-◌, ◌/◌, Bool, true, false, ◌&&◌, Option, none, some, List, [], ◌∷◌, length, get_or,
  if◌then◌else◌, leb, nat_beq, Result, ok, err, ◌>>=◌, ◌>>◌, guard,
}
use meshbbs.Common.Uvarint.{append_uvarint, uvarint}
use meshbbs.Vv.{less}
use meshbbs.Vv.Wire.{Error as VectorError}

-- `record.AreaTag`: four bytes.
abbrev pub AreaTag : Type 0
AreaTag = List ℕ

-- `lessTag` and `lessNode` are the loop of `less` of internal/vv over four and eight bytes.
abbrev pub less_tag : AreaTag → AreaTag → Bool
less_tag = less

-- `FormatVersion`, `MeshMTU`, `TransportOverhead`, `MaxControlMessage`, `digestHeader`, `MaxAreas`
-- and `MaxRanges`
abbrev pub format_version : ℕ
format_version = 2

abbrev pub mesh_mtu : ℕ
mesh_mtu = 233

abbrev pub transport_overhead : ℕ
transport_overhead = 9

abbrev pub max_control_message : ℕ
max_control_message = mesh_mtu - transport_overhead

abbrev pub digest_header : ℕ
digest_header = 4

abbrev pub max_areas : ℕ
max_areas = (max_control_message - digest_header) / 10

abbrev pub max_ranges : ℕ
max_ranges = 32

-- The values of `MsgType`
abbrev pub msg_digest : ℕ
msg_digest = 1

abbrev pub msg_vector_req : ℕ
msg_vector_req = 2

abbrev pub msg_vector : ℕ
msg_vector = 3

abbrev pub msg_range_req : ℕ
msg_range_req = 4

-- The errors of the package. Those from `wrong_type` on are made on the spot in the source, but for
-- `vector`, which passes on an error of `vv.Decode`.
pub data Error : Type 0 where
  truncated too_many not_canonical unsupported_version : Error
  wrong_type unknown_type zero_start trailing : Error
  vector : VectorError → Error

-- `Valid`
unfoldable pub valid : ℕ → Bool
valid m = leb msg_digest m && leb m msg_range_req

-- `PeekType`
unfoldable pub peek_type : List ℕ → Result Error ℕ
peek_type b = do
  guard (leb 2 (length b)) truncated
  guard (valid (get_or b 0 0)) unknown_type
  guard (nat_beq (get_or b 1 0) format_version) unsupported_version
  ok (get_or b 0 0)

-- The checks that every `Decode…` opens with: type and version come before the length that this
-- version asks for.
unfoldable pub check_header : ℕ → ℕ → List ℕ → Result Error (Unit {0})
check_header msg_type shortest b = do
  guard (leb 2 (length b)) truncated
  guard (nat_beq (get_or b 0 0) msg_type) wrong_type
  guard (nat_beq (get_or b 1 0) format_version) unsupported_version
  guard (leb shortest (length b)) truncated

-- `canonicalUvarint`, this package's own.
unfoldable pub read_uvarint : List ℕ → Result Error (ℕ × ℕ)
read_uvarint b = elim (uvarint b) [
  | none ↦ err truncated
  | some (val, n) ↦
      if nat_beq (length (append_uvarint val)) n then ok (val, n) else err not_canonical
]

-- ===== src/Record.antt =====
-- internal/record: the records of the log and their canonical encoding.
-- The bodies of FILE and DOOR_EVENT records are checked by a parameter.
pub mod Codec
pub mod RoundTrip
pub mod Tests
use meshbbs.Common.{ℕ, Bool, not, ◌&&◌, List, [], ◌∷◌, replicate, ltb, bytes_beq}
use meshbbs.Identity.{NodeId, Crypto}
use meshbbs.Gossip.{AreaTag}

-- `FormatVersion`
abbrev pub record_version : ℕ
record_version = 1

-- `IDLen`
abbrev pub id_len : ℕ
id_len = 16

-- `MaxBodyLen`
abbrev pub max_body_len : ℕ
max_body_len = 8192

-- `Valid`, of the types 1 to 10
unfoldable pub is_type : ℕ → Bool
is_type kind = ltb 0 kind && ltb kind 11

-- `Record`, as far as it is signed.
pub record Entry : Type 0 where
  pub origin : NodeId
  pub seq : ℕ
  pub ts : ℕ
  pub kind : ℕ  -- `Type`
  pub area : AreaTag
  pub parent : List ℕ
  pub body : List ℕ

-- `Record`
pub record SignedRecord : Type 0 where
  pub entry : Entry
  pub id : List ℕ
  pub signed : List ℕ
  pub sig : List ℕ

-- What makes an entry or its bytes unacceptable.
pub data RecordError : Type 0 where
  truncated unknown_version unknown_type unknown_flags body_too_long no_origin : RecordError
  trailing_bytes non_canonical bad_body wrong_key no_signed_bytes bad_signature wrong_id :
      RecordError

-- `HasParent`
unfoldable pub has_parent : Entry → Bool
has_parent r = not (bytes_beq r.parent (replicate id_len 0))

-- Ed25519, BLAKE3, and `checkNoFileContent` with `checkDoorEventBody`.
pub record Checks : Type 0 where
  pub crypto : Crypto
  pub blake3 : List ℕ → List ℕ
  pub is_body : ℕ → List ℕ → Bool  -- of the type and the body

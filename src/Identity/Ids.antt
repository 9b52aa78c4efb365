-- ===== src/Identity/Ids.antt =====
-- internal/identity/nodeid.go: `NodeID` is an array of eight bytes, here a list of numbers.
use meshbbs.Common.{ℕ, ◌≡◌, Bool, true, List, length, All, replicate, bytes_beq}
use meshbbs.Common.Bytes.{IsByte}

abbrev pub NodeId : Type 0
NodeId = List ℕ

abbrev pub node_id_len : ℕ
node_id_len = 8

abbrev pub IsNodeId : NodeId → Type 0
IsNodeId id = (length id ≡ node_id_len) × All IsByte id

-- `id == NodeID{}`
unfoldable pub is_zero : NodeId → Bool
is_zero id = bytes_beq id (replicate node_id_len 0)

-- `ed25519` and `identity.NodeIDFromPublicKey`, which hashes the key.
pub record Crypto : Type 0 where
  pub sign : List ℕ → List ℕ → List ℕ  -- by the secret of a public key
  pub verify : List ℕ → List ℕ → List ℕ → Bool
  pub id_of_key : List ℕ → NodeId

-- A key pair of `ed25519`: the public key has 32 bytes, a signature has 64, and it verifies.
pub record IsKey (crypto : Crypto) (public : List ℕ) : Type 0 where
  pub key_length : length public ≡ 32
  pub signature_length : (m : List ℕ) → length (crypto.sign public m) ≡ 64
  pub verifies : (m : List ℕ) → crypto.verify public m (crypto.sign public m) ≡ true

-- ===== src/Meshlink/Links.antt =====
-- internal/meshlink/link.go: the state of a link.
-- A connection takes a frame or fails, which is a parameter; the text of traces and events is left out.
use meshbbs.Common.{ℕ, Bool, Option, List}
use meshbbs.Identity.{NodeId}
use meshbbs.Governor.{Governor, Floats}
use meshbbs.Bsmp.Inbox.{Datagram}
use meshbbs.Meshlink.{Crypto, PeerTable, AskRate}

-- `meshpb.MeshPacket` of a received packet, as far as the link reads it.
pub record MeshPacket : Type 0 where
  pub sender : ℕ  -- `From`
  pub to : ℕ
  pub channel : ℕ
  pub pki_encrypted : Bool
  pub decoded : Option (ℕ × List ℕ)  -- the port number and the payload

-- The packet that `sendFrame` hands to the radio, less its number and its hops.
pub record Frame : Type 0 where
  pub to : ℕ
  pub channel : ℕ
  pub payload : List ℕ
  pub want_ack : Bool

-- `Link`
pub record Link (F : Type 0) : Type 0 where
  pub own_id : NodeId  -- `self`
  pub own_radio : Option ℕ  -- the number of `radio`
  pub chan_idx : ℕ
  pub has_conn : Bool
  pub connected : Bool
  pub peers : PeerTable
  pub asks : AskRate
  pub answers : AskRate
  pub governor : Option (Governor F)
  pub inbox : List Datagram
  pub inbox_size : ℕ
  pub on_air : List Frame  -- what the radio has taken, the first of it first
  pub sent : ℕ
  pub received : ℕ
  pub refused : ℕ
  pub unattributed : ℕ
  pub wrong_channel : ℕ
  pub undecryptable : ℕ
  pub announces_sent : ℕ

-- What a link relies on: the arithmetic of its governor, its keys, and its connection.
pub record Setup (F : Type 0) : Type 0 where
  pub env : Floats F
  pub crypto : Crypto
  pub public_key : List ℕ  -- of `cfg.Key`
  pub takes : Frame → Bool  -- `conn.Send` returns no error

-- `broadcastAddr`
abbrev pub broadcast_addr : ℕ
broadcast_addr = 4294967295

-- `meshpb.PortNum_PRIVATE_APP`
abbrev pub private_app : ℕ
private_app = 256

-- `MaxPayload`
abbrev pub max_payload : ℕ
max_payload = 225

-- ===== src/Meshlink.antt =====
-- internal/meshlink: the mapping between node IDs and radios, and the frames that establish it.
-- A time is a number of nanoseconds since the epoch.
pub mod Wire
pub mod Peers
pub mod Table
pub mod Learn
pub mod Links
pub mod Receive
pub mod Transmit
pub mod Attribution
pub mod Deliver
pub mod Charged
pub mod Asking
pub mod Tests
use meshbbs.Common.{ℕ, ◌+◌, ◌*◌, Bool, List, [], ◌∷◌}
use meshbbs.Identity.{NodeId}
pub use meshbbs.Identity.{Crypto, IsKey}

-- `FrameAnnounce` and `FrameWhoIs`
abbrev pub frame_announce : ℕ
frame_announce = 3

abbrev pub frame_who_is : ℕ
frame_who_is = 4

-- `time.Second`
abbrev pub second : ℕ
second = 1000000000

-- `maxClockSkew`
abbrev pub max_clock_skew : ℕ
max_clock_skew = 24 * 3600 * second

-- `Announcement`
pub record Announcement : Type 0 where
  pub id : NodeId
  pub public_key : List ℕ
  pub radio : ℕ
  pub at : ℕ

-- `ErrMalformedAnnounce`, `ErrBadSignature`, `ErrRadioMismatch`, `ErrStaleAnnounce` and
-- `ErrMalformedWhoIs`, and what stops a transmission
pub data LinkError : Type 0 where
  malformed_announce bad_signature radio_mismatch stale_announce malformed_who_is : LinkError
  too_large empty_payload reserved_frame unknown_peer no_budget not_connected send_failed :
      LinkError

-- `binding`
pub record Binding : Type 0 where
  pub radio : ℕ
  pub at : ℕ

-- `peerTable`
pub record PeerTable : Type 0 where
  pub by_id : List (NodeId × Binding)
  pub by_radio : List (ℕ × NodeId)

-- `askRate`
pub record AskRate : Type 0 where
  pub asked : List (ℕ × ℕ)  -- `last`
  pub every : ℕ

-- ===== src/Meshlink/Wire.antt =====
-- internal/meshlink/wire.go: announcements and who-is requests.
pub mod RoundTrip
use meshbbs.Common.{
  ℕ, ◌+◌, ◌*◌, ◌/◌, ◌%◌, Bool, true, false, not, ◌||◌, List, [], ◌∷◌, ◌++◌, length, take, drop,
  if◌then◌else◌, nat_beq, Result, ok, err,
}
use meshbbs.Common.Bytes.{be32, read_be32}
use meshbbs.Meshlink.{
  frame_announce, frame_who_is, second, Crypto, Announcement, LinkError, malformed_announce,
  bad_signature, radio_mismatch, malformed_who_is,
}

abbrev pub announce_body_len : ℕ
announce_body_len = 41

abbrev pub announce_len : ℕ
announce_len = 105

abbrev pub who_is_len : ℕ
who_is_len = 5

unfoldable pub starts_with : ℕ → List ℕ → Bool
starts_with frame_type [] = false
starts_with frame_type (b ∷ bytes) = nat_beq b frame_type

-- The part of an announcement that is signed: `uint32(at.Unix())` drops what is above 32 bits.
unfoldable pub announce_body : List ℕ → ℕ → ℕ → List ℕ
announce_body public radio at =
    frame_announce ∷ (public ++ (be32 radio ++ be32 (at / second % 4294967296)))

module _ (crypto : Crypto) where
  -- `EncodeAnnounce`, with the public key for the key.
  unfoldable pub encode_announce : List ℕ → ℕ → ℕ → List ℕ
  encode_announce public radio at =
      let body = announce_body public radio at in body ++ crypto.sign public body

  -- `DecodeAnnounce`
  unfoldable pub decode_announce : List ℕ → ℕ → Result LinkError Announcement
  decode_announce payload from =
      let body = take announce_body_len payload in
      let signature = drop announce_body_len payload in
      let public = take 32 (drop 1 body) in
      let claimed = read_be32 (drop 33 body) in
      let seconds = read_be32 (drop 37 body) in
      if not (nat_beq (length payload) announce_len) || not (starts_with frame_announce payload)
      then err malformed_announce
      else (if not (crypto.verify public body signature)
          then err bad_signature
          else (if not (nat_beq claimed from)
              then err radio_mismatch
              else ok (record {
                id = crypto.id_of_key public;
                public_key = public;
                radio = claimed;
                at = seconds * second;
              })))

-- `EncodeWhoIs`
unfoldable pub encode_who_is : ℕ → List ℕ
encode_who_is target = frame_who_is ∷ be32 target

-- `DecodeWhoIs`
unfoldable pub decode_who_is : List ℕ → Result LinkError ℕ
decode_who_is payload =
    if not (nat_beq (length payload) who_is_len) || not (starts_with frame_who_is payload)
    then err malformed_who_is
    else ok (read_be32 (drop 1 payload))

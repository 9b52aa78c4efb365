-- ===== src/Meshlink/Wire/RoundTrip.antt =====
-- Announcements and who-is requests: what is encoded is decoded, and nothing else.
use meshbbs.Common.{
  ℕ, ◌*◌, ◌/◌, ◌%◌, ◌≡◌, refl, sym, ap, ◌∙◌, Bool, true, not, ◌||◌, List, [], ◌∷◌, ◌++◌, length,
  length-append, length-take, length-drop, take, drop, take_width, drop_width, take_all, drop-drop,
  take-append-drop, All, All-take, All-drop, arith, if◌then◌else◌, nat_beq, nat_beq_iff, Result, ok,
  err,
}
use mathlib.Core.Path.{subst}
use meshbbs.Common.Bytes.{IsByte, IsU32, be32, read_be32, read_be32-be32, be32-read_be32}
use meshbbs.Meshlink.{
  frame_announce, second, Crypto, IsKey, Announcement, LinkError, malformed_announce, bad_signature,
  radio_mismatch,
}
use meshbbs.Meshlink.Wire.{
  starts_with, announce_body, encode_announce, decode_announce, encode_who_is, decode_who_is,
}

-- A request is read back as the radio that it asks about.
pub decode_who_is-encode_who_is :
    (target : ℕ) → IsU32 target → decode_who_is (encode_who_is target) ≡ ok target
unfolding decode_who_is encode_who_is starts_with
decode_who_is-encode_who_is target h = ap ok (read_be32-be32 target [] h)

-- The tests of `DecodeAnnounce`, one after the other.
all_passed :
    (whole typed verified own : Bool) (a a' : Announcement)
    → let r : Result LinkError Announcement =
        if not whole || not typed
        then err malformed_announce
        else (if not verified
            then err bad_signature
            else (if not own then err radio_mismatch else ok a)) in
      r ≡ ok a' → (whole ≡ true) × (typed ≡ true) × (verified ≡ true) × (own ≡ true) × (a ≡ a')
all_passed whole typed verified own a a' h = ground arith

module _ (crypto : Crypto) where
  -- What `DecodeAnnounce` reads of a signed body.
  decode_signed :
      (public signature : List ℕ) (radio at from : ℕ)
      → length public ≡ 32
      → length signature ≡ 64
      → crypto.verify public (announce_body public radio at) signature ≡ true
      → IsU32 radio
      → decode_announce crypto (announce_body public radio at ++ signature) from ≡ (
          if nat_beq radio from
          then ok (record {
            id = crypto.id_of_key public;
            public_key = public;
            radio = radio;
            at = at / second % 4294967296 * second;
          })
          else err radio_mismatch)
  unfolding decode_announce announce_body starts_with
  decode_signed public signature radio at from k s v r =
      let seconds = at / second % 4294967296 in
      let low : IsU32 seconds = omega arith in
      let words = be32 radio ++ be32 seconds in
      let body = announce_body public radio at in
      let body_length : length body ≡ 41 = omega (arith, k, length-append public words) in
      let whole : length (body ++ signature) ≡ 105 =
        omega (arith, body_length, s, length-append body signature) in
      let front = take_width 41 body signature body_length in
      let back = drop_width 41 body signature body_length in
      let key = take_width 32 public words k in
      let third = drop_width 32 public words k in
      let fourth = sym (drop-drop 32 4 (public ++ words)) ∙ ap (drop 4) third in
      let claimed = read_be32-be32 radio (be32 seconds) r in
      let stamped = read_be32-be32 seconds [] low in
      rw (decode_announce, whole, front, back, key, third, fourth, claimed, stamped, v)
        (ground arith)

  -- For a key pair and a radio number of 32 bits: an announcement is read back when it arrives from the radio that it names, with its time cut to 32 bits of seconds;
  -- from any other radio it is refused.
  pub decode_announce-encode_announce :
      (public : List ℕ) (radio at from : ℕ)
      → IsKey crypto public
      → IsU32 radio
      → decode_announce crypto (encode_announce crypto public radio at) from ≡ (
          if nat_beq radio from
          then ok (record {
            id = crypto.id_of_key public;
            public_key = public;
            radio = radio;
            at = at / second % 4294967296 * second;
          })
          else err radio_mismatch)
  unfolding encode_announce
  decode_announce-encode_announce public radio at from k r =
      let body = announce_body public radio at in
      decode_signed public (crypto.sign public body) radio at from k.key_length
        (k.signature_length body) (k.verifies body) r

  -- An announcement whose signature stands.
  pub record IsSigned (a : Announcement) (from : ℕ) (payload : List ℕ) : Type 0 where
    pub signature : List ℕ
    pub framed : payload ≡ announce_body a.public_key a.radio a.at ++ signature
    pub verified :
        crypto.verify a.public_key (announce_body a.public_key a.radio a.at) signature ≡ true
    pub own_id : a.id ≡ crypto.id_of_key a.public_key
    pub own_radio : a.radio ≡ from

  -- The body of a payload of the right length and type.
  body_parts :
      (payload : List ℕ)
      → length payload ≡ 105
      → starts_with frame_announce payload ≡ true
      → All IsByte payload
      → let body = take 41 payload in
        let seconds = read_be32 (drop 37 body) in
        body ≡ announce_body (take 32 (drop 1 body)) (read_be32 (drop 33 body)) (seconds * second)
  unfolding starts_with announce_body
  body_parts [] whole typed bytes = absurd (omega (arith, whole))
  body_parts (b ∷ rest) whole typed bytes =
      let xs = take 40 rest in
      let xs_length : length xs ≡ 40 = omega (arith, length-take 40 rest, whole) in
      let xs_bytes = All-take IsByte 40 rest bytes.1 in
      let words = drop 32 xs in
      let words_length : length words ≡ 8 = omega (arith, length-drop 32 xs, xs_length) in
      let (claimed_low, claimed) =
        be32-read_be32 words (omega (arith, words_length)) (All-drop IsByte 32 xs xs_bytes) in
      let last = drop 4 words in
      let last_length : length last ≡ 4 = omega (arith, length-drop 4 words, words_length) in
      let (low, stamped) =
        be32-read_be32 last (omega (arith, last_length))
          (All-drop IsByte 4 words (All-drop IsByte 32 xs xs_bytes)) in
      let same_last : drop 36 xs ≡ last = sym (drop-drop 32 4 xs) in
      let seconds = read_be32 (drop 36 xs) in
      let seconds_low : IsU32 seconds = subst (λ l. IsU32 (read_be32 l)) (sym same_last) low in
      let cut : seconds * second / second % 4294967296 ≡ seconds = omega (arith, seconds_low) in
      let tail : be32 seconds ≡ last =
        ap (λ l. be32 (read_be32 l)) same_last
        ∙ stamped
        ∙ take_all 4 last (omega (arith, last_length)) in
      let joined : xs
          ≡ take 32 xs
            ++ (be32 (read_be32 words) ++ be32 (seconds * second / second % 4294967296)) =
        sym (take-append-drop 32 xs)
        ∙ ap (λ l. take 32 xs ++ l)
            (sym (take-append-drop 4 words)
              ∙ (ap (λ l. l ++ last) (sym claimed)
                  ∙ ap (λ l. be32 (read_be32 words) ++ l) (sym tail ∙ ap be32 (sym cut)))) in
      let first : b ≡ frame_announce = ground (arith, typed) in
      ap (λ l. b ∷ l) joined
      ∙ ap
          (λ c.
            c
            ∷ (take 32 xs
                ++ (be32 (read_be32 words) ++ be32 (seconds * second / second % 4294967296))))
          first

  decode_announce_ok :
      (payload : List ℕ) (from : ℕ) (a : Announcement)
      → decode_announce crypto payload from ≡ ok a
      → let body = take 41 payload in
        let public = take 32 (drop 1 body) in
        (length payload ≡ 105)
        × (starts_with frame_announce payload ≡ true)
        × (crypto.verify public body (drop 41 payload) ≡ true)
        × (read_be32 (drop 33 body) ≡ from)
        × (record {
          id = crypto.id_of_key public;
          public_key = public;
          radio = read_be32 (drop 33 body);
          at = read_be32 (drop 37 body) * second;
        }
            ≡ a)
  unfolding decode_announce
  decode_announce_ok payload from a h =
      let body = take 41 payload in
      let public = take 32 (drop 1 body) in
      let claimed = read_be32 (drop 33 body) in
      let (whole, typed, verified, own, same) =
        all_passed (nat_beq (length payload) 105) (starts_with frame_announce payload)
          (crypto.verify public body (drop 41 payload)) (nat_beq claimed from)
          (record {
            id = crypto.id_of_key public;
            public_key = public;
            radio = claimed;
            at = read_be32 (drop 37 body) * second;
          })
          a h in
      (
        (nat_beq_iff (length payload) 105).0 whole,
        typed,
        verified,
        (nat_beq_iff claimed from).0 own,
        same,
      )

  -- What `DecodeAnnounce` accepts is a signed announcement of the radio that it came from, by the node that the
  -- key in it belongs to, of exactly these bytes, for
  -- a payload that is a list of bytes.
  pub decode_announce-IsSigned :
      (payload : List ℕ) (from : ℕ) (a : Announcement)
      → All IsByte payload
      → decode_announce crypto payload from ≡ ok a
      → IsSigned a from payload
  decode_announce-IsSigned payload from a bytes h =
      let (whole, typed, verified, own, same) = decode_announce_ok payload from a h in
      let parts = body_parts payload whole typed bytes in
      subst (λ a. IsSigned a from payload) same
        record {
          signature = drop 41 payload;
          framed = sym (take-append-drop 41 payload) ∙ ap (λ l. l ++ drop 41 payload) parts;
          verified =
              subst
                (λ l. crypto.verify (take 32 (drop 1 (take 41 payload))) l (drop 41 payload) ≡ true)
                parts verified;
          own_id = refl;
          own_radio = own;
        }

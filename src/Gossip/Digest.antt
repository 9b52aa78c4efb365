-- ===== src/Gossip/Digest.antt =====
-- internal/gossip/digest.go: the heartbeat.
pub mod RoundTrip
use meshbbs.Common.{
  ℕ, zero, suc, ◌+◌, ◌*◌, ◌%◌, ◌/◌, Bool, true, false, Option, none, some, List, [], ◌∷◌, ◌++◌, map,
  length, take, drop, get_or, if◌then◌else◌, ltb, leb, nat_beq, bytes_eq, ◌==◌, Result, ok, err,
  ◌>>=◌, ◌>>◌, guard,
}
use meshbbs.Common.Bytes.{be16}
use meshbbs.Common.Sort.{sort_by, insert_by}
use meshbbs.Vv.Wire.{ascends}
use meshbbs.Vv.{Vector, count, hash}
use meshbbs.Gossip.{
  AreaTag, less_tag, Error, truncated, too_many, not_canonical, msg_digest, format_version,
  digest_header, max_areas, check_header,
}

pub record AreaState : Type 0 where
  pub tag : AreaTag
  pub fingerprint : List ℕ  -- `Hash`, four bytes
  pub total : ℕ  -- `Count`, a uint16

pub record Digest : Type 0 where
  pub dictionary : ℕ
  pub areas : List AreaState

-- `SaturatingCount`
unfoldable pub saturating_count : ℕ → ℕ
saturating_count n = if ltb 0xffff n then 0xffff else n

-- `AreaStateFrom`
unfoldable pub area_state_from : (List ℕ → List ℕ) → AreaTag → Vector → AreaState
area_state_from blake3 tag v = record {
  tag = tag;
  fingerprint = hash blake3 v;
  total = saturating_count (count v);
}

abbrev pub lower_tag : AreaState → AreaState → Bool
lower_tag a b = less_tag a.tag b.tag

-- `NewDigest`
unfoldable pub area_states : (List ℕ → List ℕ) → List (AreaTag × Vector) → List AreaState
area_states blake3 [] = []
area_states blake3 ((tag, v) ∷ areas) = area_state_from blake3 tag v ∷ area_states blake3 areas

unfoldable pub new_digest : (List ℕ → List ℕ) → List (AreaTag × Vector) → Digest
unfolding area_states
new_digest blake3 areas = record {
  dictionary = 0;
  areas = sort_by lower_tag (area_states blake3 areas);
}

-- `Get`
unfoldable pub find_area : AreaTag → List AreaState → Option AreaState
find_area tag [] = none
find_area tag (a ∷ as') = if a.tag == tag then some a else find_area tag as'

-- `Size`
abbrev pub size : Digest → ℕ
size d = digest_header + 10 * length d.areas

-- The loop of `Encode`.
abbrev pub area_bytes : AreaState → List ℕ
area_bytes a = a.tag ++ (a.fingerprint ++ be16 a.total)

unfoldable pub encode_areas : List AreaState → List ℕ
encode_areas [] = []
encode_areas (a ∷ as') = area_bytes a ++ encode_areas as'

-- `Encode`, which sorts the areas of the digest in place: the digest afterwards, and the bytes.
unfoldable pub encode_digest : Digest → Digest × List ℕ
encode_digest d =
    let areas = sort_by lower_tag d.areas in
    (
      record d { areas = areas },
      msg_digest ∷ format_version ∷ d.dictionary ∷ (length areas % 256) ∷ encode_areas areas,
    )

-- The loop of `DecodeDigest`, with the rounds left, and the bytes from `p` on.
unfoldable pub decode_areas : ℕ → Option AreaTag → List ℕ → Result Error (List AreaState)
decode_areas zero prev b = ok []
decode_areas (suc n) prev b = do
  let a : AreaState = record {
    tag = take 4 b;
    fingerprint = take 4 (drop 4 b);
    total = get_or b 8 0 * 256 + get_or b 9 0;
  }
  guard (ascends prev a.tag) not_canonical
  rest ← decode_areas n (some a.tag) (drop 10 b)
  ok (a ∷ rest)

-- `DecodeDigest`
unfoldable pub decode_digest : List ℕ → Result Error Digest
decode_digest b = do
  check_header msg_digest digest_header b
  let n = get_or b 3 0
  guard (leb n max_areas) too_many
  guard (nat_beq (length b) (digest_header + 10 * n)) truncated
  areas ← decode_areas n none (drop digest_header b)
  ok (record { dictionary = get_or b 2 0; areas = areas })

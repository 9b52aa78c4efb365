-- ===== src/Gossip/VectorReq.antt =====
-- internal/gossip/digest.go: the request for full vectors, and the message that carries one.
use meshbbs.Common.{
  ℕ, zero, suc, ◌+◌, ◌*◌, ◌%◌, Option, none, some, List, [], ◌∷◌, ◌++◌, length, take, drop, get_or,
  leb, nat_beq, Result, ok, err, ◌>>=◌, ◌>>◌, guard,
}
use meshbbs.Common.Sort.{sort_by}
use meshbbs.Vv.{Vector}
use meshbbs.Vv.Wire.{ascends}
use meshbbs.Vv.Wire as Wire
use meshbbs.Gossip.{
  AreaTag, less_tag, Error, truncated, too_many, not_canonical, vector, msg_vector_req, msg_vector,
  format_version, max_areas, check_header,
}

pub record VectorReq : Type 0 where
  pub areas : List AreaTag

-- The loop of `Encode`.
unfoldable pub encode_tags : List AreaTag → List ℕ
encode_tags [] = []
encode_tags (t ∷ ts) = t ++ encode_tags ts

-- `VectorReq.Encode`
unfoldable pub encode_vector_req : VectorReq → List ℕ
encode_vector_req r =
    let tags = sort_by less_tag r.areas in
    msg_vector_req ∷ format_version ∷ (length tags % 256) ∷ encode_tags tags

-- The loop of `DecodeVectorReq`, with the rounds left, and the bytes that are left.
unfoldable pub decode_tags : ℕ → Option AreaTag → List ℕ → Result Error (List AreaTag)
decode_tags zero prev b = ok []
decode_tags (suc n) prev b = do
  let t = take 4 b
  guard (ascends prev t) not_canonical
  rest ← decode_tags n (some t) (drop 4 b)
  ok (t ∷ rest)

-- `DecodeVectorReq`
unfoldable pub decode_vector_req : List ℕ → Result Error VectorReq
decode_vector_req b = do
  check_header msg_vector_req 3 b
  let n = get_or b 2 0
  guard (leb n max_areas) too_many
  guard (nat_beq (length b) (3 + 4 * n)) truncated
  areas ← decode_tags n none (drop 3 b)
  ok (record { areas = areas })

pub record VectorMsg : Type 0 where
  pub area : AreaTag
  pub content : Vector  -- `Vector`

-- `VectorMsg.Encode`
unfoldable pub encode_vector_msg : VectorMsg → List ℕ
encode_vector_msg m = msg_vector ∷ format_version ∷ (m.area ++ Wire.encode m.content)

-- `DecodeVectorMsg`
unfoldable pub decode_vector_msg : List ℕ → Result Error VectorMsg
decode_vector_msg b = do
  check_header msg_vector 6 b
  v ← elim (Wire.decode (drop 6 b)) [ ok v ↦ ok v | err x ↦ err (vector x) ]
  ok (record { area = take 4 (drop 2 b); content = v })

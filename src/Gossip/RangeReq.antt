-- ===== src/Gossip/RangeReq.antt =====
-- internal/gossip/digest.go: the request for ranges of records.
pub mod Parse
pub mod RoundTrip
pub mod Fit
use meshbbs.Common.{
  ℕ, zero, suc, ◌+◌, ◌-◌, ◌*◌, ◌%◌, ◌^◌, Bool, true, false, ◌&&◌, not, Option, none, some, List, [],
  ◌∷◌, ◌++◌, length, take, drop, get_or, if◌then◌else◌, ltb, leb, nat_beq, bytes_beq, Result, ok,
  err, ◌>>=◌, ◌>>◌, guard,
}
use meshbbs.Common.Sort.{sort_by, insert_by}
use meshbbs.Common.Uvarint.{append_uvarint}
use meshbbs.Identity.{NodeId, node_id_len}
use meshbbs.Vv.{Range, less}
use meshbbs.Gossip.{
  AreaTag, Error, truncated, too_many, not_canonical, zero_start, trailing, msg_range_req,
  format_version, max_ranges, check_header, read_uvarint,
}

pub record RangeReq : Type 0 where
  pub area : AreaTag
  pub ranges : List Range

-- The order of `sort.Slice` in `Encode`.
unfoldable pub lower_range : Range → Range → Bool
lower_range a b =
    if not (bytes_beq a.origin b.origin) then less a.origin b.origin else ltb a.from b.from

abbrev pub u64 : ℕ
u64 = 18446744073709551616

-- A range as `Encode` writes it: the origin, the start and the span, a difference of uint64 values.
abbrev pub range_bytes : Range → List ℕ
range_bytes r = r.origin ++ (append_uvarint r.from ++ append_uvarint ((r.to + u64 - r.from) % u64))

-- The loop of `Encode`.
unfoldable pub encode_ranges : List Range → List ℕ
encode_ranges [] = []
encode_ranges (r ∷ rs) = range_bytes r ++ encode_ranges rs

-- `RangeReq.Encode`
unfoldable pub encode_range_req : RangeReq → List ℕ
encode_range_req r =
    let ranges = sort_by lower_range r.ranges in
    msg_range_req ∷ format_version ∷ (r.area ++ ((length ranges % 256) ∷ encode_ranges ranges))

-- The two checks of `DecodeRangeReq` against the range before.
unfoldable pub in_order : Option Range → Range → Bool
in_order none r = true
in_order (some prev) r =
    not (bytes_beq r.origin prev.origin && leb r.from prev.from)
    && not (not (bytes_beq r.origin prev.origin) && not (less prev.origin r.origin))

-- The loop of `DecodeRangeReq`, with the rounds left: the ranges, and the bytes that are left. The sum
-- of start and span wraps.
unfoldable pub decode_ranges : ℕ → Option Range → List ℕ → Result Error (List Range × List ℕ)
decode_ranges zero prev b = ok ([], b)
decode_ranges (suc n) prev b = do
  guard (leb node_id_len (length b)) truncated
  let b1 = drop node_id_len b
  (from, read) ← read_uvarint b1
  let b2 = drop read b1
  (span, read') ← read_uvarint b2
  guard (not (nat_beq from 0)) zero_start
  let r : Range = record { origin = take node_id_len b; from = from; to = (from + span) % u64 }
  guard (in_order prev r) not_canonical
  (rest, b3) ← decode_ranges n (some r) (drop read' b2)
  ok (r ∷ rest, b3)

-- `DecodeRangeReq`
unfoldable pub decode_range_req : List ℕ → Result Error RangeReq
decode_range_req b = do
  check_header msg_range_req 7 b
  let n = get_or b 6 0
  guard (leb n max_ranges) too_many
  (ranges, rest) ← decode_ranges n none (drop 7 b)
  guard (nat_beq (length rest) 0) trailing
  ok (record { area = take 4 (drop 2 b); ranges = ranges })

-- The loop of `FitRanges`: the longest prefix of at most `n` ranges that fits.
unfoldable pub fit_loop : ℕ → AreaTag → List Range → ℕ → List Range
fit_loop zero area ranges max_bytes = []
fit_loop (suc n) area ranges max_bytes =
    let shorter = fit_loop n area ranges max_bytes in
    if leb (length (encode_range_req (record { area = area; ranges = take (suc n) ranges })))
      max_bytes
    then take (suc n) ranges
    else shorter

-- `FitRanges`
unfoldable pub fit_ranges : AreaTag → List Range → ℕ → List Range
fit_ranges area ranges max_bytes =
    let bounded = if ltb max_ranges (length ranges) then take max_ranges ranges else ranges in
    fit_loop (length bounded) area bounded max_bytes

-- ===== src/Gossip/RangeReq/RoundTrip.antt =====
-- A request for ranges is read back.
use meshbbs.Common.{
  ℕ, suc, ◌+◌, ◌-◌, ◌%◌, ◌≡◌, ◌≢◌, ◌≤◌, ◌<◌, refl, ap, ◌∙◌, true, false, Option, none, some, List,
  [], ◌∷◌, ◌++◌, append_assoc, length, take, drop, take_width, drop_width, drop-length-append,
  length-append, All, arith, inl, inr, Bool-cases, bytes_eq, bytes_beq, bytes_beq_iff, leb, nat_beq,
  ok,
}
use meshbbs.Common.Bytes.{IsU64}
use meshbbs.Common.Sort.{
  sort_by, Chain, Apart, AllApart, length-sort_by, All-sort_by, sort_by-Chain,
}
use meshbbs.Common.Uvarint.{append_uvarint}
use meshbbs.Common.Uvarint.Read.{uvarint-append_uvarint}
use meshbbs.Identity.{node_id_len}
use meshbbs.Vv.{Range, less}
use meshbbs.Vv.Origins.{less_total}
use meshbbs.Gossip.{msg_range_req, format_version, max_ranges, check_header, read_uvarint}
use meshbbs.Gossip.RangeReq.{
  RangeReq, lower_range, u64, range_bytes, encode_ranges, encode_range_req, in_order, decode_ranges,
  decode_range_req,
}
use meshbbs.Gossip.RangeReq.Parse.{in_order-follows}

-- What the Go types of the fields give, and a start that is not zero.
pub record IsRange (r : Range) : Type 0 where
  pub origin_len : length r.origin ≡ node_id_len
  pub starts : 0 < r.from
  pub from_fits : IsU64 r.from
  pub to_fits : IsU64 r.to

-- No two ranges start at the same record.
abbrev pub StartsElsewhere : Range → Range → Type 0
StartsElsewhere a b = a.origin ≡ b.origin → a.from ≢ b.from

abbrev pub IsDistinct : List Range → Type 0
IsDistinct [] = Unit {0}
IsDistinct (a ∷ rs) = All (StartsElsewhere a) rs × IsDistinct rs

StartsElsewhere-Apart : (a b : Range) → StartsElsewhere a b → Apart lower_range a b
unfolding lower_range
StartsElsewhere-Apart a b h e = elim (Bool-cases (bytes_beq a.origin b.origin)) [
  | inl same ↦
      let h' : a.from ≢ b.from = h ((bytes_beq_iff a.origin b.origin).0 same) in
      ground (arith, bytes_beq_iff a.origin b.origin, bytes_beq_iff b.origin a.origin)
  | inr other ↦ elim (Bool-cases (less b.origin a.origin)) [
    | inl below ↦ ground (arith, bytes_beq_iff a.origin b.origin, bytes_beq_iff b.origin a.origin)
    | inr above ↦
        absurd (ground (arith, less_total a.origin b.origin, bytes_beq_iff a.origin b.origin))
  ]
]

All-Apart :
    (a : Range) (rs : List Range) → All (StartsElsewhere a) rs → All (Apart lower_range a) rs
All-Apart a [] h = tt
All-Apart a (b ∷ rs) (h, hs) = (StartsElsewhere-Apart a b h, All-Apart a rs hs)

IsDistinct-AllApart : (rs : List Range) → IsDistinct rs → AllApart lower_range rs
IsDistinct-AllApart [] h = tt
IsDistinct-AllApart (a ∷ rs) (h, hs) = (All-Apart a rs h, IsDistinct-AllApart rs hs)

read_uvarint-append_uvarint :
    (x : ℕ) (rest : List ℕ)
    → IsU64 x
    → read_uvarint (append_uvarint x ++ rest) ≡ ok (x, length (append_uvarint x))
unfolding read_uvarint
read_uvarint-append_uvarint x rest h = ground (arith, uvarint-append_uvarint x rest h)

-- Start and span add up to the end.
end_of :
    (start stop : ℕ) → IsU64 start → IsU64 stop → (start + (stop + u64 - start) % u64) % u64 ≡ stop
end_of start stop h k = omega arith

decode_ranges_step :
    (n : ℕ) (prev : Option Range) (b b1 b2 b3 o rest : List ℕ) (start span stop read read' : ℕ)
    (rs : List Range)
    → node_id_len ≤ length b
    → take node_id_len b ≡ o
    → drop node_id_len b ≡ b1
    → read_uvarint b1 ≡ ok (start, read)
    → drop read b1 ≡ b2
    → read_uvarint b2 ≡ ok (span, read')
    → drop read' b2 ≡ b3
    → 0 < start
    → (start + span) % u64 ≡ stop
    → let r : Range = record { origin = o; from = start; to = stop } in
      in_order prev r ≡ true
      → decode_ranges n (some r) b3 ≡ ok (rs, rest)
      → decode_ranges (suc n) prev b ≡ ok (r ∷ rs, rest)
unfolding decode_ranges
decode_ranges_step n prev b b1 b2 b3 o rest start span stop read read' rs size id h1 one h2 two h3
      positive whole above later =
    let room : leb node_id_len (length b) ≡ true = ground arith in
    let nonzero : nat_beq start 0 ≡ false = ground arith in
    rw (room, id, h1, one, h2, two, h3, nonzero, whole, above, later) refl

range_joined :
    (r : Range) (rest : List ℕ)
    → range_bytes r ++ rest
      ≡ r.origin
        ++ (append_uvarint r.from ++ (append_uvarint ((r.to + u64 - r.from) % u64) ++ rest))
range_joined r rest = simp append_assoc

decode_ranges-encode_ranges :
    (prev : Option Range) (rs : List Range)
    → All IsRange rs
    → Chain lower_range prev rs
    → decode_ranges (length rs) prev (encode_ranges rs) ≡ ok (rs, [])
unfolding decode_ranges encode_ranges
decode_ranges-encode_ranges prev [] h c = refl
decode_ranges-encode_ranges prev (r ∷ rs) (h, hs) (c, cs) =
    let rest = encode_ranges rs in
    let span = (r.to + u64 - r.from) % u64 in
    let b2 = append_uvarint span ++ rest in
    let b1 = append_uvarint r.from ++ b2 in
    let span_fits : IsU64 span = omega arith in
    let joined = range_joined r rest in
    decode_ranges_step (length rs) prev (range_bytes r ++ rest) b1 b2 rest r.origin [] r.from span
      r.to (length (append_uvarint r.from)) (length (append_uvarint span)) rs
      (omega (arith, ap length joined, length-append r.origin b1, h.origin_len))
      (ap (take node_id_len) joined ∙ take_width node_id_len r.origin b1 h.origin_len)
      (ap (drop node_id_len) joined ∙ drop_width node_id_len r.origin b1 h.origin_len)
      (read_uvarint-append_uvarint r.from b2 h.from_fits)
      (drop-length-append (append_uvarint r.from) b2)
      (read_uvarint-append_uvarint span rest span_fits)
      (drop-length-append (append_uvarint span) rest) h.starts
      (end_of r.from r.to h.from_fits h.to_fits) (in_order-follows prev r ∙ c)
      (decode_ranges-encode_ranges (some r) rs hs cs)

decode_range_req_body :
    (m n : ℕ) (area body : List ℕ) (rs : List Range)
    → length area ≡ 4
    → m ≡ n
    → n ≤ max_ranges
    → decode_ranges n none body ≡ ok (rs, [])
    → decode_range_req (msg_range_req ∷ format_version ∷ (area ++ (m ∷ body)))
      ≡ ok (record { area = area; ranges = rs })
unfolding decode_range_req check_header
decode_range_req_body m n (a ∷ b ∷ c ∷ d ∷ []) body rs l same few read = ground arith
decode_range_req_body m n area body rs l same few read = absurd (omega arith)

-- DecodeRangeReq of what Encode writes gives the ranges back, in the order of Encode. There are at
-- most MaxRanges of them, none of which starts at sequence zero or where another starts, and the
-- fields are in the range of their Go types.
pub decode_range_req-encode_range_req :
    (r : RangeReq)
    → length r.area ≡ 4
    → All IsRange r.ranges
    → IsDistinct r.ranges
    → length r.ranges ≤ max_ranges
    → decode_range_req (encode_range_req r)
      ≡ ok (record { area = r.area; ranges = sort_by lower_range r.ranges })
unfolding encode_range_req
decode_range_req-encode_range_req r area h once few =
    let sorted = sort_by lower_range r.ranges in
    let size = length-sort_by lower_range r.ranges in
    decode_range_req_body (length sorted % 256) (length sorted) r.area (encode_ranges sorted) sorted
      area (omega (arith, size, few)) (omega (arith, size, few))
      (decode_ranges-encode_ranges none sorted (All-sort_by lower_range IsRange r.ranges h)
        (sort_by-Chain lower_range r.ranges (IsDistinct-AllApart r.ranges once)))

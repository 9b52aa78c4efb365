-- ===== src/Gossip/RangeReq/Parse.antt =====
-- Each request for ranges has one wire form.
use meshbbs.Common.{
  All-drop, ℕ, zero, suc, ◌+◌, ◌-◌, ◌%◌, ◌≡◌, ◌<◌, refl, sym, ap, ◌∙◌, true, Option, none, some,
  List, [], ◌∷◌, ◌++◌, append_assoc, length, take, drop, take-append-drop, All, arith, inl, inr,
  Result-cases, Option-cases, bytes_eq, bytes_beq_iff, ok,
}
use mathlib.Core.Path.{subst}
use mathlib.Core.List.{append-nil}
use meshbbs.Common.Bytes.{IsByte, IsU64}
use meshbbs.Common.Sort.{sort_by, follows, Chain, sort_by_of_Chain}
use meshbbs.Common.Uvarint.{append_uvarint, uvarint}
use meshbbs.Common.Uvarint.Read.{uvarint_shortest}
use meshbbs.Common.Uvarint.Bound.{uvarint-IsU64}
use meshbbs.Identity.{node_id_len}
use meshbbs.Vv.{Range}
use meshbbs.Vv.Wire.Parse.{regroup}
use meshbbs.Gossip.{msg_range_req, format_version, check_header, read_uvarint}
use meshbbs.Gossip.RangeReq.{
  RangeReq, lower_range, u64, range_bytes, encode_ranges, encode_range_req, in_order, decode_ranges,
  decode_range_req,
}

-- `canonicalUvarint` takes the bytes that `AppendUvarint` writes, and gives a uint64.
read_uvarint_takes :
    (b : List ℕ) (v n : ℕ)
    → All IsByte b
    → read_uvarint b ≡ ok (v, n)
    → (b ≡ append_uvarint v ++ drop n b) × IsU64 v
unfolding read_uvarint
read_uvarint_takes b v n hb e = elim (Option-cases (uvarint b)) [
  | inl no_value ↦ absurd (ground arith)
  | inr ((w, k), got) ↦
      let read : uvarint b ≡ some (v, n) = ground arith in
      (uvarint_shortest b v n hb read (ground arith), uvarint-IsU64 b v n hb read)
]

-- A range as the loop makes it.
abbrev pub range_of : List ℕ → ℕ → ℕ → Range
range_of b start span = record {
  origin = take node_id_len b;
  from = start;
  to = (start + span) % u64;
}

-- One round of the loop that goes on.
record Round (n : ℕ) (prev : Option Range) (b : List ℕ) (out : List Range) (rest : List ℕ)
    : Type 0 where
  start : ℕ
  span : ℕ
  read : ℕ
  read' : ℕ
  tail : List Range
  first : read_uvarint (drop node_id_len b) ≡ ok (start, read)
  second : read_uvarint (drop read (drop node_id_len b)) ≡ ok (span, read')
  ordered : in_order prev (range_of b start span) ≡ true
  later :
      decode_ranges n (some (range_of b start span)) (drop read' (drop read (drop node_id_len b)))
      ≡ ok (tail, rest)
  whole : range_of b start span ∷ tail ≡ out

round :
    (n : ℕ) (prev : Option Range) (b : List ℕ) (out : List Range) (rest : List ℕ)
    → decode_ranges (suc n) prev b ≡ ok (out, rest)
    → Round n prev b out rest
unfolding decode_ranges
round n prev b out rest e = elim (Result-cases (read_uvarint (drop node_id_len b))) [
  | inr (x, bad) ↦ absurd (ground arith)
  | inl ((start, read), first) ↦
      elim (Result-cases (read_uvarint (drop read (drop node_id_len b)))) [
        | inr (x, bad) ↦ absurd (ground arith)
        | inl ((span, read'), second) ↦
            elim (Result-cases (
              decode_ranges n (some (range_of b start span))
                (drop read' (drop read (drop node_id_len b))))) [
                  | inr (x, bad) ↦ absurd (ground arith)
                  | inl ((tail, rest'), later) ↦ record {
                    start = start;
                    span = span;
                    read = read;
                    read' = read';
                    tail = tail;
                    first = first;
                    second = second;
                    ordered = ground arith;
                    later = later ∙ ap (λ (r : List ℕ). ok (tail, r)) (ground arith);
                    whole = ground arith;
                  }
                ]
      ]
]

pub in_order-follows :
    (prev : Option Range) (r : Range) → in_order prev r ≡ follows lower_range prev r
unfolding in_order follows lower_range
in_order-follows none r = refl
in_order-follows (some p) r =
    ground (arith, bytes_beq_iff p.origin r.origin, bytes_beq_iff r.origin p.origin)

-- The span that `Encode` writes is the one that was read.
span_of :
    (start span : ℕ) → IsU64 start → IsU64 span → ((start + span) % u64 + u64 - start) % u64 ≡ span
span_of start span h k = omega arith

-- The bytes of a range, and what follows it.
range_written :
    (b : List ℕ) (start span read read' : ℕ) (rest : List ℕ)
    → IsU64 start
    → IsU64 span
    → drop node_id_len b ≡ append_uvarint start ++ drop read (drop node_id_len b)
    → drop read (drop node_id_len b) ≡ append_uvarint span ++ rest
    → b ≡ range_bytes (range_of b start span) ++ rest
range_written b start span read read' rest h k p q =
    let b1 = drop node_id_len b in
    subst (λ t. b ≡ (take node_id_len b ++ (append_uvarint start ++ append_uvarint t)) ++ rest)
      (sym (span_of start span h k))
      (regroup b (take node_id_len b) b1 (append_uvarint start) (drop read b1) (append_uvarint span)
        rest (take-append-drop node_id_len b) p q)

-- What the loop read, it would write.
decode_ranges_parses :
    (n : ℕ) (prev : Option Range) (b : List ℕ) (out : List Range) (rest : List ℕ)
    → All IsByte b
    → decode_ranges n prev b ≡ ok (out, rest)
    → (length out ≡ n) × Chain lower_range prev out × (b ≡ encode_ranges out ++ rest)
unfolding encode_ranges decode_ranges
decode_ranges_parses zero prev b [] rest hb e = ground arith
decode_ranges_parses zero prev b (r ∷ rs) rest hb e = absurd (ground arith)
decode_ranges_parses (suc n) prev b out rest hb e =
    let r = round n prev b out rest e in
    let b1 = drop node_id_len b in
    let hb1 = All-drop IsByte node_id_len b hb in
    let (p, h) = read_uvarint_takes b1 r.start r.read hb1 r.first in
    let hb2 = All-drop IsByte r.read b1 hb1 in
    let (q, k) = read_uvarint_takes (drop r.read b1) r.span r.read' hb2 r.second in
    let b3 = drop r.read' (drop r.read b1) in
    let here = range_of b r.start r.span in
    let (size, chain, same) =
      decode_ranges_parses n (some here) b3 r.tail rest
        (All-drop IsByte r.read' (drop r.read b1) hb2) r.later in
    let bytes = range_written b r.start r.span r.read r.read' b3 h k p q in
    subst (λ x. (length x ≡ suc n) × Chain lower_range prev x × (b ≡ encode_ranges x ++ rest))
      r.whole
      (
        ap suc size,
        (sym (in_order-follows prev here) ∙ r.ordered, chain),
        bytes
            ∙ ap (λ x. range_bytes here ++ x) same
            ∙ sym (append_assoc (range_bytes here) (encode_ranges r.tail) rest),
      )

encode_range_req_of :
    (b0 b1 n : ℕ) (area : List ℕ) (rs : List Range) (body : List ℕ)
    → sort_by lower_range rs ≡ rs
    → length rs ≡ n
    → encode_ranges rs ≡ body
    → b0 ≡ msg_range_req
    → b1 ≡ format_version
    → n < 256
    → encode_range_req (record { area = area; ranges = rs }) ≡ b0 ∷ b1 ∷ (area ++ (n ∷ body))
unfolding encode_range_req
encode_range_req_of b0 b1 n area rs body sorted size same p q h =
    let small : length rs % 256 ≡ n = omega (arith, size) in rw (p, q, sorted, same, small) refl

-- The bytes of a request for ranges that DecodeRangeReq accepts are the ones that Encode writes for
-- what it returns.
pub encode_range_req-decode_range_req :
    (b : List ℕ) (r : RangeReq) → All IsByte b → decode_range_req b ≡ ok r → encode_range_req r ≡ b
unfolding decode_range_req check_header
encode_range_req-decode_range_req (b0 ∷ b1 ∷ t0 ∷ t1 ∷ t2 ∷ t3 ∷ n ∷ b) r
      (h0, (h1, (h2, (h3, (h4, (h5, (hn, hb))))))) e =
    elim (Result-cases (decode_ranges n none b)) [
      | inr (x, bad) ↦ absurd (ground arith)
      | inl ((rs, []), got) ↦
          let (size, chain, same) = decode_ranges_parses n none b rs [] hb got in
          let area = t0 ∷ t1 ∷ t2 ∷ t3 ∷ [] in
          let whole : record { area = area; ranges = rs } ≡ r = ground arith in
          subst (λ x. encode_range_req x ≡ b0 ∷ b1 ∷ t0 ∷ t1 ∷ t2 ∷ t3 ∷ n ∷ b) whole
            (encode_range_req_of b0 b1 n area rs b (sort_by_of_Chain lower_range none rs chain) size
              (sym (same ∙ append-nil (encode_ranges rs))) (ground arith) (ground arith) hn)
      | inl ((rs, x ∷ rest), got) ↦ absurd (ground arith)
    ]
encode_range_req-decode_range_req b r hb e = absurd (ground arith)

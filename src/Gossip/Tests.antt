-- ===== src/Gossip/Tests.antt =====
-- Concrete messages: runs, and the theorems at inputs where their hypotheses hold.
use meshbbs.Common.{
  ℕ, ◌≡◌, ◌≤◌, ◌<◌, ◌⊎◌, min, refl, List, [], ◌∷◌, length, take, arith, bytes_eq, ok, bytes_beq_iff,
}
use meshbbs.Common.Sort.{sort_by, insert_by}
use meshbbs.Common.Uvarint.{append_uvarint, uvarint}
use meshbbs.Vv.{Range, less}
use meshbbs.Vv.Wire.{ascends}
use meshbbs.Gossip.{AreaTag, max_ranges, check_header, read_uvarint}
use meshbbs.Gossip.Digest.{
  AreaState, Digest, find_area, encode_areas, encode_digest, decode_areas, decode_digest,
}
use meshbbs.Gossip.Digest.RoundTrip.{decode_digest-encode_digest}
use meshbbs.Gossip.RangeReq.{in_order, decode_ranges, decode_range_req, fit_ranges}
use meshbbs.Gossip.RangeReq.Fit.{cost, fit_ranges-longest}

abbrev pub news : AreaTag
news = 1 ∷ 2 ∷ 3 ∷ 4 ∷ []

abbrev pub chat : AreaTag
chat = 0 ∷ 9 ∷ 9 ∷ 9 ∷ []

abbrev pub news_state : AreaState
news_state = record { tag = news; fingerprint = 5 ∷ 6 ∷ 7 ∷ 8 ∷ []; total = 300 }

abbrev pub chat_state : AreaState
chat_state = record { tag = chat; fingerprint = 1 ∷ 1 ∷ 1 ∷ 1 ∷ []; total = 2 }

abbrev heartbeat : Digest
heartbeat = record { dictionary = 1; areas = news_state ∷ chat_state ∷ [] }

abbrev pub heartbeat_bytes : List ℕ
heartbeat_bytes =
    1 ∷ 2 ∷ 1 ∷ 2 ∷ 0 ∷ 9 ∷ 9 ∷ 9 ∷ 1 ∷ 1 ∷ 1 ∷ 1 ∷ 0 ∷ 2 ∷ 1 ∷ 2 ∷ 3 ∷ 4 ∷ 5 ∷ 6 ∷ 7 ∷ 8 ∷ 1 ∷ 44
    ∷ []

heartbeat_written : (encode_digest heartbeat).1 ≡ heartbeat_bytes
unfolding encode_digest encode_areas sort_by insert_by less
heartbeat_written = refl

pub heartbeat_read :
    decode_digest heartbeat_bytes
    ≡ ok (record { dictionary = 1; areas = chat_state ∷ news_state ∷ [] })
unfolding decode_digest decode_areas check_header ascends less
heartbeat_read = refl

decode_digest-encode_digest_example :
    (decode_digest (encode_digest heartbeat).1 ≡ ok (encode_digest heartbeat).0)
    × ((t : AreaTag) → find_area t (encode_digest heartbeat).0.areas ≡ find_area t heartbeat.areas)
decode_digest-encode_digest_example =
    decode_digest-encode_digest heartbeat
      (
        record { tag_len = refl; fingerprint_len = refl; total_fits = omega arith },
        (record { tag_len = refl; fingerprint_len = refl; total_fits = omega arith }, tt),
      )
      ((ground (arith, bytes_beq_iff news chat), tt), (tt, tt)) (omega arith)

abbrev gaps : List Range
gaps =
    record { origin = 2 ∷ 0 ∷ 0 ∷ 0 ∷ 0 ∷ 0 ∷ 0 ∷ 1 ∷ []; from = 200; to = 300 }
    ∷ record { origin = 1 ∷ 0 ∷ 0 ∷ 0 ∷ 0 ∷ 0 ∷ 0 ∷ 1 ∷ []; from = 7; to = 7 }
    ∷ []

abbrev sorted_gaps : List Range
sorted_gaps =
    record { origin = 1 ∷ 0 ∷ 0 ∷ 0 ∷ 0 ∷ 0 ∷ 0 ∷ 1 ∷ []; from = 7; to = 7 }
    ∷ record { origin = 2 ∷ 0 ∷ 0 ∷ 0 ∷ 0 ∷ 0 ∷ 0 ∷ 1 ∷ []; from = 200; to = 300 }
    ∷ []

abbrev request_bytes : List ℕ
request_bytes =
    4 ∷ 2 ∷ 1 ∷ 2 ∷ 3 ∷ 4 ∷ 2 ∷ 1 ∷ 0 ∷ 0 ∷ 0 ∷ 0 ∷ 0 ∷ 0 ∷ 1 ∷ 7 ∷ 0 ∷ 2 ∷ 0 ∷ 0 ∷ 0 ∷ 0 ∷ 0 ∷ 0
    ∷ 1 ∷ 200 ∷ 1 ∷ 100 ∷ []

request_read : decode_range_req request_bytes ≡ ok (record { area = news; ranges = sorted_gaps })
unfolding decode_range_req decode_ranges check_header read_uvarint uvarint append_uvarint in_order
    less
request_read = refl

-- A span that takes the end of a range past the largest uint64 is let through, and the range ends
-- before it starts.
wrapped :
    decode_range_req (
      4 ∷ 2 ∷ 1 ∷ 2 ∷ 3 ∷ 4 ∷ 1 ∷ 1 ∷ 0 ∷ 0 ∷ 0 ∷ 0 ∷ 0 ∷ 0 ∷ 1 ∷ 7 ∷ 255 ∷ 255 ∷ 255 ∷ 255 ∷ 255
      ∷ 255 ∷ 255 ∷ 255 ∷ 255 ∷ 1 ∷ [])
    ≡ ok (record {
      area = news;
      ranges = record { origin = 1 ∷ 0 ∷ 0 ∷ 0 ∷ 0 ∷ 0 ∷ 0 ∷ 1 ∷ []; from = 7; to = 6 } ∷ [];
    })
unfolding decode_range_req decode_ranges check_header read_uvarint uvarint append_uvarint in_order
    less
wrapped = refl

fit_ranges-longest_example :
    (k : ℕ) × (k ≤ min (length gaps) max_ranges)
    × (fit_ranges news gaps 20 ≡ take k gaps)
    × ((k ≡ 0) ⊎ (cost news (take k gaps) ≤ 20))
    × ((j : ℕ) → k < j → j ≤ min (length gaps) max_ranges → 20 < cost news (take j gaps))
fit_ranges-longest_example = fit_ranges-longest news gaps 20

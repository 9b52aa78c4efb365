-- ===== src/Record/Tests.antt =====
-- A post that is signed, written, read back and verified.
use meshbbs.Common.{ℕ, ◌%◌, ◌≡◌, refl, true, List, [], ◌∷◌, ◌++◌, length, replicate, arith, ok, err}
use meshbbs.Common.Bytes.{be32, read_be32}
use meshbbs.Common.Uvarint.{append_uvarint, append_loop, uvarint, uvarint_loop}
use meshbbs.Identity.Ids.{is_zero}
use meshbbs.Meshlink.Tests.{crypto, public_key, public_key-IsKey}
use meshbbs.Record.{Entry, SignedRecord, non_canonical, is_type, has_parent, Checks}
use meshbbs.Record.Codec.{
  parent_bytes, flags_of, layout, canonical_bytes, take_bytes, read_number, read_parent, read_body,
  decode_fields, decode_canonical, marshal, derive_id, unmarshal, with_origin, new_record,
  verify_record,
}
use meshbbs.Record.RoundTrip.{IsEntry, unmarshal-new_record, marshal-unmarshal}

abbrev checks : Checks
checks = record {
  crypto = crypto;
  blake3 = λ m. replicate 32 (length m % 256);
  is_body = λ kind body. true;
}

-- A post with no origin yet.
abbrev draft : Entry
draft = record {
  origin = replicate 8 0;
  seq = 300;
  ts = 1700000000;
  kind = 1;
  area = 1 ∷ 2 ∷ 3 ∷ 4 ∷ [];
  parent = replicate 16 0;
  body = 104 ∷ 105 ∷ [];
}

abbrev post : Entry
post = record {
  origin = replicate 8 5;
  seq = 300;
  ts = 1700000000;
  kind = 1;
  area = 1 ∷ 2 ∷ 3 ∷ 4 ∷ [];
  parent = replicate 16 0;
  body = 104 ∷ 105 ∷ [];
}

post-IsEntry : IsEntry post
unfolding is_type is_zero
post-IsEntry = record {
  sized = record {
    origin_width = refl;
    seq_width = omega arith;
    ts_width = omega arith;
    area_width = refl;
    parent_width = refl;
  };
  known_type = refl;
  body_fits = omega arith;
  named = refl;
}

unmarshal-new_record_example :
    (s : SignedRecord) × (new_record checks public_key draft ≡ ok s)
    × (s.entry ≡ post)
    × (unmarshal checks (marshal s) ≡ ok s)
    × (verify_record checks public_key s ≡ ok tt)
unfolding with_origin is_zero
unmarshal-new_record_example =
    unmarshal-new_record checks public_key draft post-IsEntry public_key-IsKey refl refl

-- Its canonical bytes, with the sequence number in two bytes.
abbrev post_bytes : List ℕ
post_bytes =
    1
    ∷ 0
    ∷ 1
    ∷ (replicate 8 5 ++ (172 ∷ 2 ∷ (be32 1700000000 ++ (1 ∷ 2 ∷ 3 ∷ 4 ∷ 2 ∷ 104 ∷ 105 ∷ []))))

abbrev stored : List ℕ
stored = post_bytes ++ replicate 64 9

abbrev stored_post : SignedRecord
stored_post = record {
  entry = post;
  id = replicate 16 24;
  signed = post_bytes;
  sig = replicate 64 9;
}

stored_read : unmarshal checks stored ≡ ok stored_post
unfolding unmarshal decode_canonical is_type decode_fields take_bytes read_number uvarint
    uvarint_loop read_be32 read_parent read_body canonical_bytes is_zero layout flags_of has_parent
    parent_bytes append_uvarint append_loop derive_id
stored_read = refl

marshal-unmarshal_example :
    (marshal stored_post ≡ stored)
    × (canonical_bytes post ≡ ok post_bytes)
    × (stored_post.id ≡ derive_id checks post_bytes)
    × (checks.is_body 1 post.body ≡ true)
marshal-unmarshal_example = marshal-unmarshal checks stored stored_post stored_read

-- The same post with a longer form of its sequence number is refused.
longer_number_refused :
    unmarshal checks (
      1
      ∷ 0
      ∷ 1
      ∷ (replicate 8 5
          ++ (172 ∷ 130 ∷ 0 ∷ (be32 1700000000 ++ (1 ∷ 2 ∷ 3 ∷ 4 ∷ 2 ∷ 104 ∷ 105 ∷ [])))
          ++ replicate 64 9))
    ≡ err non_canonical
unfolding unmarshal decode_canonical is_type decode_fields take_bytes read_number uvarint
    uvarint_loop read_be32 read_parent read_body canonical_bytes is_zero layout flags_of has_parent
    parent_bytes append_uvarint append_loop derive_id
longer_number_refused = refl

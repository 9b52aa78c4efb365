-- ===== src/Record/Codec.antt =====
-- internal/record/record.go and codec.go: building, encoding and parsing records.
use meshbbs.Common.{
  ℕ, ◌-◌, not, ◌&&◌, none, some, List, [], ◌∷◌, ◌++◌, length, take, drop, replicate, if◌then◌else◌,
  ltb, nat_beq, bytes_beq, Result, ok, err, ◌>>=◌, ◌>>◌, guard,
}
use meshbbs.Common.Bytes.{be32, read_be32}
use meshbbs.Common.Uvarint.{append_uvarint, uvarint}
use meshbbs.Identity.{NodeId, is_zero, node_id_len}
use meshbbs.Record.{
  record_version, id_len, max_body_len, is_type, Entry, SignedRecord, RecordError, truncated,
  unknown_version, unknown_type, unknown_flags, body_too_long, no_origin, trailing_bytes,
  non_canonical, bad_body, wrong_key, no_signed_bytes, bad_signature, wrong_id, has_parent, Checks,
}

-- The parent, if there is one, and its flag.
unfoldable pub parent_bytes : Entry → List ℕ
parent_bytes r = if has_parent r then r.parent else []

unfoldable pub flags_of : Entry → ℕ
flags_of r = if has_parent r then 1 else 0

unfoldable pub layout : Entry → List ℕ
layout r =
    record_version
    ∷ flags_of r
    ∷ r.kind
    ∷ (r.origin
        ++ (append_uvarint r.seq
            ++ (be32 r.ts
                ++ (r.area ++ (parent_bytes r ++ (append_uvarint (length r.body) ++ r.body))))))

-- `canonicalBytes`
unfoldable pub canonical_bytes : Entry → Result RecordError (List ℕ)
canonical_bytes r =
    guard (is_type r.kind) unknown_type
    >> guard (not (ltb max_body_len (length r.body))) body_too_long
    >> guard (not (is_zero r.origin)) no_origin
    >> ok (layout r)

-- `need` and what is read then.
unfoldable pub take_bytes : ℕ → List ℕ → Result RecordError (List ℕ × List ℕ)
take_bytes n b = if ltb (length b) n then err truncated else ok (take n b, drop n b)

unfoldable pub read_number : List ℕ → Result RecordError (ℕ × List ℕ)
read_number b = elim (uvarint b) [ none ↦ err truncated | some (v, n) ↦ ok (v, drop n b) ]

unfoldable pub read_parent : ℕ → List ℕ → Result RecordError (List ℕ × List ℕ)
read_parent flags b = if nat_beq flags 1 then take_bytes id_len b else ok (replicate id_len 0, b)

unfoldable pub read_body : ℕ → List ℕ → Result RecordError (List ℕ)
read_body n b =
    if ltb max_body_len n
    then err body_too_long
    else (take_bytes n b >>= λ p. if nat_beq (length p.1) 0 then ok p.0 else err trailing_bytes)

-- The fields of `decodeCanonical` after the head.
unfoldable pub decode_fields : ℕ → ℕ → List ℕ → Result RecordError Entry
decode_fields flags kind b = take_bytes node_id_len b >>= λ origin. read_number origin.1 >>= λ seq.
    take_bytes 4 seq.1 >>= λ ts. take_bytes 4 ts.1 >>= λ area.
    read_parent flags area.1 >>= λ parent. read_number parent.1 >>= λ size.
    read_body size.0 size.1 >>= λ body. ok (record {
      origin = origin.0;
      seq = seq.0;
      ts = read_be32 ts.0;
      kind = kind;
      area = area.0;
      parent = parent.0;
      body = body;
    })

-- `decodeCanonical`: the flags are a byte, of which only the lowest bit is known.
unfoldable pub decode_canonical : List ℕ → Result RecordError Entry
decode_canonical (version ∷ flags ∷ kind ∷ b) =
    guard (nat_beq version record_version) unknown_version
    >> guard (is_type kind) unknown_type
    >> guard (ltb flags 2) unknown_flags
    >> decode_fields flags kind b
decode_canonical b = err truncated

-- `Marshal`
unfoldable pub marshal : SignedRecord → List ℕ
marshal r = r.signed ++ r.sig

module _ (checks : Checks) where
  -- `deriveID`
  unfoldable pub derive_id : List ℕ → List ℕ
  derive_id m = take id_len (checks.blake3 m)

  -- `Unmarshal`
  unfoldable pub unmarshal : List ℕ → Result RecordError SignedRecord
  unmarshal b =
      let canonical = take (length b - 64) b in
      let sig = drop (length b - 64) b in
      guard (not (ltb (length b) 72)) truncated
      >> (decode_canonical canonical >>= λ r. canonical_bytes r >>= λ again.
          guard (bytes_beq again canonical) non_canonical
          >> guard (checks.is_body r.kind r.body) bad_body
          >> ok (record { entry = r; id = derive_id canonical; signed = canonical; sig = sig }))

  -- The origin that `New` fills in.
  unfoldable pub with_origin : NodeId → Entry → Entry
  with_origin own r = if is_zero r.origin then record r { origin = own } else r

  -- `New`, with the public key for the key.
  unfoldable pub new_record : List ℕ → Entry → Result RecordError SignedRecord
  new_record public given =
      let r = with_origin (checks.crypto.id_of_key public) given in
      guard (bytes_beq r.origin (checks.crypto.id_of_key public)) wrong_key
      >> (canonical_bytes r >>= λ canonical.
          guard (checks.is_body r.kind r.body) bad_body
          >> ok (record {
            entry = r;
            id = derive_id canonical;
            signed = canonical;
            sig = checks.crypto.sign public canonical;
          }))

  -- `Verify`, with `verifySig`; `ok` for no error.
  unfoldable pub verify_record : List ℕ → SignedRecord → Result RecordError (Unit {0})
  verify_record public r =
      guard (not (nat_beq (length r.signed) 0)) no_signed_bytes
      >> guard (bytes_beq r.entry.origin (checks.crypto.id_of_key public)) wrong_key
      >> guard (nat_beq (length public) 32 && checks.crypto.verify public r.signed r.sig)
          bad_signature
      >> guard (bytes_beq (derive_id r.signed) r.id) wrong_id

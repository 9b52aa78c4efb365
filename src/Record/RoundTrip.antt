-- ===== src/Record/RoundTrip.antt =====
-- Records: what is encoded is decoded, and a record has one wire form.
use meshbbs.Common.{
  ℕ, ◌+◌, ◌-◌, ◌≡◌, ◌≢◌, ◌≤◌, refl, sym, ap, ◌∙◌, Bool, true, false, not, List, [], ◌++◌,
  append-nil, length, length-append, take, drop, take_width, drop_width, take-append-drop,
  replicate, arith, Bool-cases, Result-cases, inl, inr, if◌then◌else◌, ltb, nat_beq, bytes_beq,
  bytes_beq_iff, Result, ok, err,
}
use mathlib.Core.Path.{subst}
use meshbbs.Common.Bytes.{IsU32, IsU64, be32, read_be32, read_be32-be32}
use meshbbs.Common.Uvarint.{append_uvarint}
use meshbbs.Common.Uvarint.Read.{uvarint-append_uvarint}
use meshbbs.Identity.{IsKey, is_zero}
use meshbbs.Record.{
  id_len, max_body_len, is_type, Entry, SignedRecord, RecordError, truncated, non_canonical,
  bad_body, has_parent, Checks,
}
use meshbbs.Record.Codec.{
  parent_bytes, flags_of, layout, canonical_bytes, take_bytes, read_number, read_parent, read_body,
  decode_fields, decode_canonical, marshal, derive_id, unmarshal, with_origin, new_record,
  verify_record,
}

-- An entry whose fields have the widths of their types.
pub record IsSized (r : Entry) : Type 0 where
  pub origin_width : length r.origin ≡ 8
  pub seq_width : IsU64 r.seq
  pub ts_width : IsU32 r.ts
  pub area_width : length r.area ≡ 4
  pub parent_width : length r.parent ≡ 16

take_bytes-append : (n : ℕ) (xs ys : List ℕ) → length xs ≡ n → take_bytes n (xs ++ ys) ≡ ok (xs, ys)
unfolding take_bytes
take_bytes-append n xs ys h =
    let enough : ltb (length (xs ++ ys)) n ≡ false = ground (arith, length-append xs ys, h) in
    rw (take_bytes, enough, take_width n xs ys h, drop_width n xs ys h) refl

read_number-append :
    (v : ℕ) (rest : List ℕ) → IsU64 v → read_number (append_uvarint v ++ rest) ≡ ok (v, rest)
unfolding read_number
read_number-append v rest h =
    rw
      (
        read_number,
        uvarint-append_uvarint v rest h,
        drop_width (length (append_uvarint v)) (append_uvarint v) rest refl,
      )
      refl

-- With the flag the parent is there, and without it the parent is zero.
flagged :
    (none_given : Bool) (parent rest : List ℕ)
    → length parent ≡ 16
    → (none_given ≡ true → replicate id_len 0 ≡ parent)
    → read_parent
        (if not none_given then 1 else 0)
        ((if not none_given then parent else []) ++ rest)
      ≡ ok (parent, rest)
unfolding read_parent
flagged true parent rest h zero_parent = ap (λ p. ok (p, rest)) (zero_parent refl)
flagged false parent rest h zero_parent = take_bytes-append 16 parent rest h

read_parent-parent_bytes :
    (r : Entry) (rest : List ℕ)
    → length r.parent ≡ 16
    → read_parent (flags_of r) (parent_bytes r ++ rest) ≡ ok (r.parent, rest)
unfolding flags_of parent_bytes has_parent
read_parent-parent_bytes r rest h =
    flagged (bytes_beq r.parent (replicate id_len 0)) r.parent rest h
      (λ same. sym ((bytes_beq_iff r.parent (replicate id_len 0)).0 same))

read_body-whole :
    (body : List ℕ) → length body ≤ max_body_len → read_body (length body) body ≡ ok body
unfolding read_body
read_body-whole body h =
    let fits : ltb max_body_len (length body) ≡ false = ground (arith, h) in
    let whole =
      subst (λ l. take_bytes (length body) l ≡ ok (body, [])) (append-nil body)
        (take_bytes-append (length body) body [] refl) in
    rw (read_body, fits, whole) refl

decode_fields-layout :
    (r : Entry)
    → IsSized r
    → length r.body ≤ max_body_len
    → decode_fields (flags_of r) r.kind (drop 3 (layout r)) ≡ ok r
unfolding decode_fields layout
decode_fields-layout r w h =
    let sized = append_uvarint (length r.body) ++ r.body in
    let from_parent = parent_bytes r ++ sized in
    let from_area = r.area ++ from_parent in
    let from_ts = be32 r.ts ++ from_area in
    let from_seq = append_uvarint r.seq ++ from_ts in
    let small : IsU64 (length r.body) = omega (arith, h) in
    let origin = take_bytes-append 8 r.origin from_seq w.origin_width in
    let seq = read_number-append r.seq from_ts w.seq_width in
    let ts = take_bytes-append 4 (be32 r.ts) from_area refl in
    let area = take_bytes-append 4 r.area from_parent w.area_width in
    let parent = read_parent-parent_bytes r sized w.parent_width in
    let size = read_number-append (length r.body) r.body small in
    let body = read_body-whole r.body h in
    let stamp =
      subst (λ l. read_be32 l ≡ r.ts) (append-nil (be32 r.ts))
        (read_be32-be32 r.ts [] w.ts_width) in
    rw (decode_fields, origin, seq, ts, area, parent, size, body, stamp) refl

-- An entry that the codec takes.
pub record IsEntry (r : Entry) : Type 0 where
  pub sized : IsSized r
  pub known_type : is_type r.kind ≡ true
  pub body_fits : length r.body ≤ max_body_len
  pub named : is_zero r.origin ≡ false

canonical_bytes-layout : (r : Entry) → IsEntry r → canonical_bytes r ≡ ok (layout r)
unfolding canonical_bytes
canonical_bytes-layout r w =
    let fits : ltb max_body_len (length r.body) ≡ false = ground (arith, w.body_fits) in
    rw (canonical_bytes, w.known_type, fits, w.named) refl

flags_known : (r : Entry) → ltb (flags_of r) 2 ≡ true
unfolding flags_of
flags_known r = ground arith

length-layout : (r : Entry) → IsSized r → 11 ≤ length (layout r)
unfolding layout
length-layout r w =
    let rest =
      append_uvarint r.seq
      ++ (be32 r.ts
          ++ (r.area ++ (parent_bytes r ++ (append_uvarint (length r.body) ++ r.body)))) in
    omega (arith, length-append r.origin rest, w.origin_width)

-- `decodeCanonical` reads back what `canonicalBytes` writes.
decode_canonical-layout : (r : Entry) → IsEntry r → decode_canonical (layout r) ≡ ok r
unfolding decode_canonical layout
decode_canonical-layout r w =
    let fields = decode_fields-layout r w.sized w.body_fits in
    let known : ltb (flags_of r) 2 ≡ true = flags_known r in
    rw (decode_canonical, w.known_type, known) fields

failed : (e : RecordError) (s : SignedRecord) → err e ≢ ok s
failed e s h = ground arith

succeeded : (s' s : SignedRecord) → Path (Result RecordError SignedRecord) (ok s') (ok s) → s' ≡ s
succeeded s' s h = ground arith

module _ (checks : Checks) where
  -- A record of the log: what `New` returns for this entry and this key.
  unfoldable pub written : List ℕ → Entry → SignedRecord
  written public r = record {
    entry = r;
    id = derive_id checks (layout r);
    signed = layout r;
    sig = checks.crypto.sign public (layout r);
  }

  new_record-written :
      (public : List ℕ) (given : Entry)
      → let r = with_origin checks (checks.crypto.id_of_key public) given in
        IsEntry r
        → checks.is_body r.kind r.body ≡ true
        → r.origin ≡ checks.crypto.id_of_key public
        → new_record checks public given ≡ ok (written public r)
  unfolding new_record written
  new_record-written public given w allowed own =
      let r = with_origin checks (checks.crypto.id_of_key public) given in
      let same : bytes_beq r.origin (checks.crypto.id_of_key public) ≡ true =
        (bytes_beq_iff r.origin (checks.crypto.id_of_key public)).1 own in
      rw (new_record, same, canonical_bytes-layout r w, allowed) refl

  unmarshal-written :
      (public : List ℕ) (r : Entry)
      → IsEntry r
      → IsKey checks.crypto public
      → checks.is_body r.kind r.body ≡ true
      → unmarshal checks (marshal (written public r)) ≡ ok (written public r)
  unfolding unmarshal marshal written
  unmarshal-written public r w key allowed =
      let m = layout r in
      let sig = checks.crypto.sign public m in
      let whole : length (m ++ sig) ≡ length m + 64 =
        omega (arith, length-append m sig, key.signature_length m) in
      let cut : length (m ++ sig) - 64 ≡ length m = omega (arith, whole) in
      let long : ltb (length (m ++ sig)) 72 ≡ false =
        ground (arith, whole, length-layout r w.sized) in
      let front = take_width (length m) m sig refl in
      let back = drop_width (length m) m sig refl in
      let same : bytes_beq m m ≡ true = (bytes_beq_iff m m).1 refl in
      rw
        (
          unmarshal,
          cut,
          front,
          back,
          long,
          decode_canonical-layout r w,
          canonical_bytes-layout r w,
          same,
          allowed,
        )
        refl

  verify_record-written :
      (public : List ℕ) (r : Entry)
      → IsEntry r
      → IsKey checks.crypto public
      → r.origin ≡ checks.crypto.id_of_key public
      → verify_record checks public (written public r) ≡ ok tt
  unfolding verify_record written
  verify_record-written public r w key own =
      let m = layout r in
      let some_bytes : nat_beq (length m) 0 ≡ false = ground (arith, length-layout r w.sized) in
      let same : bytes_beq r.origin (checks.crypto.id_of_key public) ≡ true =
        (bytes_beq_iff r.origin (checks.crypto.id_of_key public)).1 own in
      let id : bytes_beq (derive_id checks m) (derive_id checks m) ≡ true =
        (bytes_beq_iff (derive_id checks m) (derive_id checks m)).1 refl in
      rw (verify_record, some_bytes, same, key.key_length, key.verifies m, id) refl

  -- With a key pair, `New` signs an entry that the codec takes, whose body is allowed and whose origin is zero or the node of the key;
  -- `Unmarshal` reads the record back from what `Marshal` writes, and
  -- `Verify` accepts it.
  pub unmarshal-new_record :
      (public : List ℕ) (given : Entry)
      → let r = with_origin checks (checks.crypto.id_of_key public) given in
        IsEntry r
        → IsKey checks.crypto public
        → checks.is_body r.kind r.body ≡ true
        → r.origin ≡ checks.crypto.id_of_key public
        → (s : SignedRecord) × (new_record checks public given ≡ ok s)
          × (s.entry ≡ r)
          × (unmarshal checks (marshal s) ≡ ok s)
          × (verify_record checks public s ≡ ok tt)
  unfolding written
  unmarshal-new_record public given w key allowed own =
      let r = with_origin checks (checks.crypto.id_of_key public) given in
      (
        written public r,
        new_record-written public given w allowed own,
        refl,
        unmarshal-written public r w key allowed,
        verify_record-written public r w key own,
      )

  -- A record and the bytes that it was read from.
  abbrev IsCanonical : List ℕ → SignedRecord → Type 0
  IsCanonical b s =
      (marshal s ≡ b)
      × (canonical_bytes s.entry ≡ ok s.signed)
      × (s.id ≡ derive_id checks s.signed)
      × (checks.is_body s.entry.kind s.entry.body ≡ true)

  -- `Unmarshal` accepts only the bytes that `Marshal` writes for the record that it returns, and what was signed is what
  -- `canonicalBytes` writes for its entry, of which the ID is the digest. An entry has one wire form and one ID.
  pub marshal-unmarshal :
      (b : List ℕ) (s : SignedRecord)
      → unmarshal checks b ≡ ok s
      → (marshal s ≡ b)
        × (canonical_bytes s.entry ≡ ok s.signed)
        × (s.id ≡ derive_id checks s.signed)
        × (checks.is_body s.entry.kind s.entry.body ≡ true)
  unfolding unmarshal marshal
  marshal-unmarshal b s h =
      let canonical = take (length b - 64) b in
      elim (Bool-cases (ltb (length b) 72)) [
        | inl short ↦ absurd (failed truncated s (rw (unmarshal, short) at h))
        | inr long ↦ elim (Result-cases (decode_canonical canonical)) [
          | inr (e, bad) ↦ absurd (failed e s (rw (unmarshal, long, bad) at h))
          | inl (r, decoded) ↦ elim (Result-cases (canonical_bytes r)) [
            | inr (e, bad) ↦ absurd (failed e s (rw (unmarshal, long, decoded, bad) at h))
            | inl (again, encoded) ↦ elim (Bool-cases (bytes_beq again canonical)) [
              | inr other ↦
                  absurd
                    (failed non_canonical s (rw (unmarshal, long, decoded, encoded, other) at h))
              | inl same ↦ elim (Bool-cases (checks.is_body r.kind r.body)) [
                | inr refused ↦
                    absurd (
                      failed bad_body s
                        (rw (unmarshal, long, decoded, encoded, same, refused) at h))
                | inl allowed ↦
                    let sig = drop (length b - 64) b in
                    let s' : SignedRecord = record {
                      entry = r;
                      id = derive_id checks canonical;
                      signed = canonical;
                      sig = sig;
                    } in
                    let result : s' ≡ s =
                      succeeded s' s (rw (unmarshal, long, decoded, encoded, same, allowed) at h) in
                    subst (IsCanonical b) result (
                      take-append-drop (length b - 64) b,
                      encoded ∙ ap ok ((bytes_beq_iff again canonical).0 same),
                      refl,
                      allowed,
                    )
              ]
            ]
          ]
        ]
      ]

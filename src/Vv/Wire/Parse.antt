-- ===== src/Vv/Wire/Parse.antt =====
-- What a successful `Decode` has read: a list of entries, in ascending order, and nothing else.
use meshbbs.Common.{
  All-drop, ℕ, zero, suc, ◌≡◌, ◌≤◌, refl, ap, true, Option, some, List, [], ◌∷◌, ◌++◌, append_assoc,
  length, take, drop, take-append-drop, length-take, All, arith, bytes_eq, ok, inl, inr,
  Result-cases, Option-cases,
}
use meshbbs.Common.Bytes.{IsByte}
use meshbbs.Common.Map.{put}
use meshbbs.Common.Uvarint.{append_uvarint, uvarint}
use meshbbs.Common.Uvarint.Read.{uvarint_shortest}
use meshbbs.Identity.{NodeId, node_id_len}
use meshbbs.Vv.{Entries}
use meshbbs.Vv.Wire.{canonical_uvarint, ascends, decode_loop}

-- `canonicalUvarint` accepts only the bytes that `AppendUvarint` writes.
pub canonical_uvarint_takes :
    (b : List ℕ) (v n : ℕ)
    → All IsByte b
    → canonical_uvarint b ≡ ok (v, n)
    → b ≡ append_uvarint v ++ drop n b
unfolding canonical_uvarint
canonical_uvarint_takes b v n hb e = elim (Option-cases (uvarint b)) [
  | inl no_value ↦ absurd (ground arith)
  | inr ((w, k), got) ↦ uvarint_shortest b v n hb (ground arith) (ground arith)
]

-- Entries in the order of a list.
unfoldable pub encode_entries : Entries → List ℕ
encode_entries [] = []
encode_entries ((k, s) ∷ es) = k ++ (append_uvarint s ++ encode_entries es)

-- Assignments in the order of a list.
unfoldable pub put_all : Entries → Entries → Entries
put_all m [] = m
put_all m ((k, s) ∷ es) = put_all (put k s m) es

-- Each origin is above the one before it, and has eight bytes.
abbrev pub AscendsFrom : Option NodeId → Entries → Type 0
AscendsFrom prev [] = Unit {0}
AscendsFrom prev ((k, s) ∷ es) =
    (ascends prev k ≡ true) × (length k ≡ node_id_len) × AscendsFrom (some k) es

pub record Parsed (n : ℕ) (prev : Option NodeId) (b : List ℕ) (m out : Entries) (rest : List ℕ)
    : Type 0 where
  pub entries : Entries
  pub bytes : b ≡ encode_entries entries ++ rest
  pub size : length entries ≡ n
  pub result : out ≡ put_all m entries
  pub ordered : AscendsFrom prev entries

-- One round of the loop that goes on.
record Round (n : ℕ) (prev : Option NodeId) (b : List ℕ) (m out : Entries) (rest : List ℕ)
    : Type 0 where
  seq : ℕ
  read : ℕ
  room : node_id_len ≤ length b
  value : canonical_uvarint (drop node_id_len b) ≡ ok (seq, read)
  above : ascends prev (take node_id_len b) ≡ true
  later :
      decode_loop n
        (some (take node_id_len b))
        (drop read (drop node_id_len b))
        (put (take node_id_len b) seq m)
      ≡ ok (out, rest)

decode_loop-Round :
    (n : ℕ) (prev : Option NodeId) (b : List ℕ) (m out : Entries) (rest : List ℕ)
    → decode_loop (suc n) prev b m ≡ ok (out, rest)
    → Round n prev b m out rest
unfolding decode_loop
decode_loop-Round n prev b m out rest e =
    elim (Result-cases (canonical_uvarint (drop node_id_len b))) [
      | inl ((seq, read), got) ↦ record {
        seq = seq;
        read = read;
        room = ground arith;
        value = got;
        above = ground arith;
        later = ground arith;
      }
      | inr (x, bad) ↦ absurd (ground arith)
    ]

pub regroup :
    (b id after u d e rest : List ℕ)
    → id ++ after ≡ b
    → after ≡ u ++ d
    → d ≡ e ++ rest
    → b ≡ (id ++ (u ++ e)) ++ rest
regroup b id after u d e rest p q r = rw (← p, q, r) (simp append_assoc)

pub decode_loop_parses :
    (n : ℕ) (prev : Option NodeId) (b : List ℕ) (m out : Entries) (rest : List ℕ)
    → All IsByte b
    → decode_loop n prev b m ≡ ok (out, rest)
    → Parsed n prev b m out rest
unfolding decode_loop encode_entries put_all
decode_loop_parses zero prev b m out rest hb e = record {
  entries = [];
  bytes = ground arith;
  size = refl;
  result = ground arith;
  ordered = tt;
}
decode_loop_parses (suc n) prev b m out rest hb e =
    let r = decode_loop-Round n prev b m out rest e in
    let id = take node_id_len b in
    let after = drop node_id_len b in
    let p =
      decode_loop_parses n (some id) (drop r.read after) (put id r.seq m) out rest
        (All-drop IsByte r.read after (All-drop IsByte node_id_len b hb)) r.later in
    record {
      entries = (id, r.seq) ∷ p.entries;
      bytes =
          regroup b id after (append_uvarint r.seq) (drop r.read after) (encode_entries p.entries)
            rest (take-append-drop node_id_len b)
            (canonical_uvarint_takes after r.seq r.read (All-drop IsByte node_id_len b hb) r.value)
            p.bytes;
      size = ap suc p.size;
      result = p.result;
      ordered = (r.above, omega (arith, length-take node_id_len b, r.room), p.ordered);
    }

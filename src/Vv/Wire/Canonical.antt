-- ===== src/Vv/Wire/Canonical.antt =====
-- `Decode` accepts one byte string for each vector: the one that `Encode` writes.
use meshbbs.Common.{
  All-drop, ℕ, suc, ◌≡◌, ◌≤◌, refl, sym, ap, ◌∙◌, true, Option, none, some, List, [], ◌∷◌, ◌++◌,
  append_assoc, append-nil, length, drop, All, arith, bytes_eq, bytes_beq_iff, ok, inl, inr,
  Result-cases,
}
use meshbbs.Common.Bytes.{IsByte}
use meshbbs.Common.Map.{find, put, IsMap, put_new, IsMap-append_find}
use meshbbs.Common.Uvarint.{append_uvarint}
use meshbbs.Identity.{NodeId}
use meshbbs.Vv.{Entries, Vector, get, less, keys, origins}
use meshbbs.Vv.Lookup.{get_entry-cons}
use meshbbs.Vv.Origins.{
  Ascending, AllAbove, less_trans, sort_of_Ascending, contains-keys, contains_above,
}
use meshbbs.Vv.Wire.{
  ascends, decode_loop, decode, encode_loop, encode, canonical_uvarint, max_origins,
}
use meshbbs.Vv.Wire.Parse.{
  canonical_uvarint_takes, encode_entries, put_all, AscendsFrom, decode_loop_parses,
}

-- Assigning the entries of a map in turn lists them.
pub put_all_append : (m es : Entries) → IsMap (m ++ es) → put_all m es ≡ m ++ es
unfolding put_all
put_all_append m [] h = sym (append-nil m)
put_all_append m ((k, s) ∷ es) h =
    let step : put k s m ≡ m ++ ((k, s) ∷ []) = put_new k s m (IsMap-append_find m k s es h) in
    rw step (rw append_assoc at (put_all_append (m ++ ((k, s) ∷ [])) es (rw append_assoc h)))

AscendsFrom-AllAbove :
    (x k : NodeId) (s : ℕ) (es : Entries)
    → less x k ≡ true
    → AscendsFrom (some k) es
    → AllAbove x (keys es)
unfolding ascends
AscendsFrom-AllAbove x k s [] h a = tt
AscendsFrom-AllAbove x k s ((j, t) ∷ es) h (a, w, as') =
    let below = less_trans x k j h a in (below, AscendsFrom-AllAbove x j t es below as')

pub AscendsFrom-Ascending :
    (prev : Option NodeId) (es : Entries) → AscendsFrom prev es → Ascending (keys es)
unfolding ascends
AscendsFrom-Ascending prev [] a = tt
AscendsFrom-Ascending prev ((k, s) ∷ []) (a, w, as') = (tt, tt)
AscendsFrom-Ascending prev ((k, s) ∷ (j, t) ∷ es) (a, w, bs) = (
  (bs.0, AscendsFrom-AllAbove k j t es bs.0 bs.2),
  AscendsFrom-Ascending (some k) ((j, t) ∷ es) bs,
)

pub Ascending-IsMap : (es : Entries) → Ascending (keys es) → IsMap es
Ascending-IsMap [] a = tt
Ascending-IsMap ((k, s) ∷ es) (a, as') =
    ((contains-keys k es).0 (contains_above k (keys es) a), Ascending-IsMap es as')

-- `v` reads every listed entry.
abbrev Reads : Vector → Entries → Type 0
Reads v [] = Unit {0}
Reads v ((k, s) ∷ es) = (get v k ≡ s) × Reads v es

Reads-cons :
    (k : NodeId) (s : ℕ) (m es : Entries)
    → find k es ≡ none
    → Reads (record { entries = m }) es
    → Reads (record { entries = (k, s) ∷ m }) es
unfolding get find
Reads-cons k s m [] h r = tt
Reads-cons k s m ((j, t) ∷ es) h (r, rs) = (
  ground (arith, get_entry-cons j k s m, bytes_beq_iff j k, bytes_beq_iff k j),
  Reads-cons k s m es (ground arith) rs,
)

Reads-self : (es : Entries) → IsMap es → Reads (record { entries = es }) es
unfolding get
Reads-self [] h = tt
Reads-self ((k, s) ∷ es) (h, hs) = (
  ground (arith, get_entry-cons k k s es, bytes_beq_iff k k),
  Reads-cons k s es es h (Reads-self es hs),
)

encode_loop-keys :
    (v : Vector) (es : Entries) → Reads v es → encode_loop v (keys es) ≡ encode_entries es
unfolding encode_loop encode_entries
encode_loop-keys v [] r = refl
encode_loop-keys v ((k, s) ∷ es) (r, rs) = rw (r, encode_loop-keys v es rs)

pub length-keys : (es : Entries) → length (keys es) ≡ length es
length-keys [] = refl
length-keys ((k, s) ∷ es) = ap suc (length-keys es)

-- An ascending list of entries is encoded as it stands.
pub encode_of_AscendsFrom :
    (es : Entries)
    → AscendsFrom none es
    → encode (record { entries = es }) ≡ append_uvarint (length es) ++ encode_entries es
unfolding encode origins
encode_of_AscendsFrom es a =
    let asc = AscendsFrom-Ascending none es a in
    rw (sort_of_Ascending (keys es) asc, length-keys es)
      (rw (encode_loop-keys (record { entries = es }) es (Reads-self es (Ascending-IsMap es asc))))

-- The parts of a successful `Decode`.
pub record Decoded (b : List ℕ) (v : Vector) : Type 0 where
  pub n : ℕ
  pub read : ℕ
  pub few : n ≤ max_origins
  pub head : canonical_uvarint b ≡ ok (n, read)
  pub loop : decode_loop n none (drop read b) [] ≡ ok (v.entries, [])

decode_inv : (b : List ℕ) (v : Vector) → decode b ≡ ok v → Decoded b v
unfolding decode
decode_inv b v e = elim (Result-cases (canonical_uvarint b)) [
  | inr (x, bad) ↦ absurd (ground arith)
  | inl ((n, read), got) ↦ elim (Result-cases (decode_loop n none (drop read b) [])) [
    | inr (x, bad) ↦ absurd (ground arith)
    | inl ((entries, rest), ran) ↦ record {
      n = n;
      read = read;
      few = ground arith;
      head = got;
      loop = ground arith;
    }
  ]
]

with_header :
    (n m : ℕ) (b d e : List ℕ)
    → b ≡ append_uvarint n ++ d
    → d ≡ e ++ []
    → m ≡ n
    → b ≡ append_uvarint m ++ e
with_header n m b d e p q r = rw (p, q, r) (rw append-nil)

pub decode_parses :
    (b : List ℕ) (v : Vector)
    → All IsByte b
    → decode b ≡ ok v
    → (es : Entries) × (b ≡ append_uvarint (length es) ++ encode_entries es)
      × AscendsFrom none es
      × (v.entries ≡ es)
      × (length es ≤ max_origins)
decode_parses b v hb e =
    let d = decode_inv b v e in
    let p =
      decode_loop_parses d.n none (drop d.read b) [] v.entries [] (All-drop IsByte d.read b hb)
        d.loop in
    let once = Ascending-IsMap p.entries (AscendsFrom-Ascending none p.entries p.ordered) in
    (
      p.entries,
      with_header d.n (length p.entries) b (drop d.read b) (encode_entries p.entries)
          (canonical_uvarint_takes b d.n d.read hb d.head) p.bytes p.size,
      p.ordered,
      p.result ∙ put_all_append [] p.entries once,
      omega (arith, p.size, d.few),
    )

-- A list of bytes that `Decode` accepts is the one that `Encode` writes for the vector it returns.
pub encode-decode : (b : List ℕ) (v : Vector) → All IsByte b → decode b ≡ ok v → encode v ≡ b
encode-decode b v hb e =
    let (es, bytes, asc, same, few) = decode_parses b v hb e in
    ap (λ m. encode (record { entries = m })) same ∙ encode_of_AscendsFrom es asc ∙ sym bytes

-- ===== src/Vv/Tests.antt =====
-- Concrete vectors: runs, and the theorems at inputs where their hypotheses hold.
use meshbbs.Common.{
  ℕ, ◌≡◌, ◌≤◌, ◌<◌, ◌↔◌, refl, true, false, some, List, [], ◌∷◌, arith, bytes_eq, ok, err,
  bytes_beq_iff,
}
use mathlib.Core.List.{Memᴰ}
use meshbbs.Common.Map.{find, put}
use meshbbs.Common.Uvarint.{append_uvarint, uvarint}
use meshbbs.Identity.{NodeId}
use meshbbs.Vv.{
  Vector, IsVector, get, len, equal, missing, origins, count, hash, get_entry, count_loop, less,
}
use meshbbs.Vv.Merge.{Same, IsMapped, merge_all, merge_all_order}
use meshbbs.Vv.Order.{asks, asks-missing}
use meshbbs.Vv.Equality.{encode_agree}
use meshbbs.Vv.Zero.{with_zero, zero_entry_diverges}
use meshbbs.Vv.Wire.{
  encode, encode_loop, decode, decode_loop, canonical_uvarint, ascends, non_canonical,
}
use meshbbs.Vv.Wire.Canonical.{encode-decode}
use meshbbs.Vv.Wire.RoundTrip.{decode-encode}

abbrev alpha : NodeId
alpha = 1 ∷ 2 ∷ 3 ∷ 4 ∷ 5 ∷ 6 ∷ 7 ∷ 8 ∷ []

abbrev beta : NodeId
beta = 1 ∷ 2 ∷ 3 ∷ 4 ∷ 5 ∷ 6 ∷ 9 ∷ 0 ∷ []

-- The same two entries, visited in either order.
abbrev two : Vector
two = record { entries = (beta, 300) ∷ (alpha, 4) ∷ [] }

abbrev two' : Vector
two' = record { entries = (alpha, 4) ∷ (beta, 300) ∷ [] }

abbrev one : Vector
one = record { entries = (alpha, 9) ∷ [] }

two-IsMapped : IsMapped two
unfolding find
two-IsMapped = (refl, (refl, tt))

two'-IsMapped : IsMapped two'
unfolding find
two'-IsMapped = (refl, (refl, tt))

one-IsMapped : IsMapped one
unfolding find
one-IsMapped = (refl, tt)

two-IsVector : IsVector two
two-IsVector = record { distinct = two-IsMapped; typed = omega arith }

abbrev two_bytes : List ℕ
two_bytes = 2 ∷ 1 ∷ 2 ∷ 3 ∷ 4 ∷ 5 ∷ 6 ∷ 7 ∷ 8 ∷ 4 ∷ 1 ∷ 2 ∷ 3 ∷ 4 ∷ 5 ∷ 6 ∷ 9 ∷ 0 ∷ 0xac ∷ 2 ∷ []

two_encoded : encode two ≡ two_bytes
unfolding encode encode_loop origins get get_entry find append_uvarint
two_encoded = refl

two_decoded : decode two_bytes ≡ ok two'
unfolding decode decode_loop canonical_uvarint uvarint append_uvarint ascends less put
two_decoded = refl

-- A sequence padded with an empty group is refused.
padded_refused : decode (1 ∷ 1 ∷ 2 ∷ 3 ∷ 4 ∷ 5 ∷ 6 ∷ 7 ∷ 8 ∷ 0x84 ∷ 0 ∷ []) ≡ err non_canonical
unfolding decode decode_loop canonical_uvarint uvarint append_uvarint ascends less put
padded_refused = refl

count_two : count two ≡ 304
unfolding count count_loop
count_two = refl

merge_all_order_example :
    Same (merge_all one (two ∷ one ∷ [])) (merge_all one (one ∷ two ∷ one ∷ []))
merge_all_order_example =
    merge_all_order one (two ∷ one ∷ []) (one ∷ two ∷ one ∷ []) (two-IsMapped, (one-IsMapped, tt))
      (one-IsMapped, (two-IsMapped, (one-IsMapped, tt))) (λ w m. Memᴰ.tail m) narrow
  where
    narrow : (w : Vector) → Memᴰ w (one ∷ two ∷ one ∷ []) → Memᴰ w (two ∷ one ∷ [])
    narrow w (Memᴰ.head e) = Memᴰ.tail (Memᴰ.head e)
    narrow w (Memᴰ.tail m) = m

asks-missing_example :
    (asks alpha 5 (missing two (some one)) ≡ true) ↔ ((get two alpha < 5) × (5 ≤ get one alpha))
asks-missing_example = asks-missing two one alpha 5

encode_agree_example : (encode two ≡ encode two') × (hash (λ b. b) two ≡ hash (λ b. b) two')
unfolding find
encode_agree_example = encode_agree (λ b. b) two two' two-IsMapped two'-IsMapped agree
  where
    agree : (k : NodeId) → find k two.entries ≡ find k two'.entries
    agree k = ground (arith, bytes_beq_iff alpha k, bytes_beq_iff beta k)

zero_entry_diverges_example :
    (equal one (with_zero one beta) ≡ false)
    × (missing one (some (with_zero one beta)) ≡ [])
    × (missing (with_zero one beta) (some one) ≡ [])
    × ((w : Vector) × (decode (encode (with_zero one beta)) ≡ ok w)
        × (find beta w.entries ≡ some 0))
unfolding find len
zero_entry_diverges_example =
    zero_entry_diverges one beta (omega arith)
      (record { distinct = one-IsMapped; typed = omega arith }) (omega arith) refl

encode-decode_example : encode two' ≡ two_bytes
encode-decode_example = encode-decode two_bytes two' (omega arith) two_decoded

decode-encode_example :
    (w : Vector) × (decode (encode two) ≡ ok w)
    × ((k : NodeId) → find k w.entries ≡ find k two.entries)
unfolding len
decode-encode_example = decode-encode two two-IsVector (omega arith)

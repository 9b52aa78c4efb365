-- ===== src/Fountain/Decoder/Chunks.antt =====
-- The source symbols of a payload, joined and cut to its length, are the payload.
use meshbbs.Common.{
  ℕ, zero, suc, ◌+◌, ◌-◌, ◌*◌, ◌≡◌, ◌≤◌, refl, sym, ap, ◌∙◌, List, [], ◌∷◌, ◌++◌, append_assoc,
  append-nil, length, length-append, length-replicate, length-take, length-drop, take, drop,
  replicate, drop_all, drop-drop, take_all, take-append-drop, take-length-append, All, min, arith,
  Bool-cases, ltb, ltb→lt, ltb→le, inl, inr,
}
use meshbbs.Fountain.Encoder.{copy, slice, chunk, source_loop}
use meshbbs.Fountain.Decoder.{join_symbols}
use meshbbs.Fountain.Solve.Rows.{HasWidth}

copy_shape :
    (s : ℕ) (x : List ℕ) → length x ≤ s → copy (replicate s 0) x ≡ x ++ replicate (s - length x) 0
unfolding copy
copy_shape zero [] h = refl
copy_shape zero (b ∷ x) h = absurd (omega arith)
copy_shape (suc s) [] h = let e : suc s - zero ≡ suc s = omega arith in rw e
copy_shape (suc s) (b ∷ x) h =
    ap (λ l. b ∷ l) (copy_shape s x (omega arith))
    ∙ (let e : s - length x ≡ suc s - suc (length x) = omega arith in rw e)

take-append_longer : (x rest : List ℕ) (n : ℕ) → take (length x + n) (x ++ rest) ≡ x ++ take n rest
take-append_longer [] rest n = let e : 0 + n ≡ n = omega arith in rw e
take-append_longer (b ∷ x) rest n =
    let e : suc (length x) + n ≡ suc (length x + n) = omega arith in
    rw e (ap (λ l. b ∷ l) (take-append_longer x rest n))

cut_short : (n : ℕ) (q : List ℕ) → take (min n (length q)) q ≡ take n q
cut_short n q = elim (Bool-cases (ltb n (length q))) [
  | inl less ↦ let e : min n (length q) ≡ n = omega (arith, ltb→lt n (length q) less) in rw e
  | inr all ↦
      let le = ltb→le n (length q) all in
      let e : min n (length q) ≡ length q = omega arith in
      rw e (take_all (length q) q (omega arith) ∙ sym (take_all n q le))
]

-- A chunk is the next `s` bytes of what is left, filled up with zeros.
chunk_shape :
    (payload : List ℕ) (s i : ℕ)
    → chunk payload s i
      ≡ take s (drop (i * s) payload) ++ replicate (s - length (take s (drop (i * s) payload))) 0
unfolding chunk slice
chunk_shape payload s i =
    let q = drop (i * s) payload in
    let cut : min ((i + 1) * s) (length payload) - i * s ≡ min s (length q) =
      omega (arith, length-drop (i * s) payload) in
    rw cut (rw (cut_short s q) (copy_shape s (take s q) (omega (arith, length-take s q))))

pub length-chunk : (payload : List ℕ) (s i : ℕ) → length (chunk payload s i) ≡ s
length-chunk payload s i =
    let q = drop (i * s) payload in
    ap length (chunk_shape payload s i)
    ∙ length-append (take s q) (replicate (s - length (take s q)) 0)
    ∙ omega (arith, length-replicate (s - length (take s q)) zero, length-take s q)

pub source_loop-HasWidth :
    (payload : List ℕ) (s n i : ℕ) → All (HasWidth s) (source_loop payload s n i)
unfolding source_loop
source_loop-HasWidth payload s zero i = tt
source_loop-HasWidth payload s (suc n) i =
    (length-chunk payload s i, source_loop-HasWidth payload s n (i + 1))

pub length-source_loop : (payload : List ℕ) (s n i : ℕ) → length (source_loop payload s n i) ≡ n
unfolding source_loop
length-source_loop payload s zero i = refl
length-source_loop payload s (suc n) i = ap suc (length-source_loop payload s n (i + 1))

-- One chunk in front of symbols that hold the bytes after it.
join_chunk :
    (s : ℕ) (q rest : List ℕ)
    → take (length (drop s q)) rest ≡ drop s q
    → take (length q) ((take s q ++ replicate (s - length (take s q)) 0) ++ rest) ≡ q
join_chunk s q rest h = elim (Bool-cases (ltb s (length q))) [
  | inl less ↦
      let full : length (take s q) ≡ s = omega (arith, ltb→lt s (length q) less, length-take s q) in
      let none_left : s - length (take s q) ≡ 0 = omega arith in
      let parts : length q ≡ length (take s q) + length (drop s q) =
        omega (arith, length-drop s q, ltb→lt s (length q) less) in
      rw (none_left, append-nil)
        (ap (λ n. take n (take s q ++ rest)) parts
          ∙ take-append_longer (take s q) rest (length (drop s q))
          ∙ ap (λ l. take s q ++ l) h
          ∙ take-append-drop s q)
  | inr all ↦
      rw (take_all s q (ltb→le s (length q) all), append_assoc)
        (take-length-append q (replicate (s - length q) 0 ++ rest))
]

-- The chunks from the `i`th on hold the bytes from `i * s` on.
pub join_source_loop :
    (payload : List ℕ) (s n i : ℕ)
    → length payload ≤ (i + n) * s
    → take (length (drop (i * s) payload)) (join_symbols (source_loop payload s n i))
      ≡ drop (i * s) payload
unfolding source_loop join_symbols
join_source_loop payload s zero i h =
    rw (drop_all (i * s) payload (let e : (i + zero) * s ≡ i * s = omega arith in rw e at h))
join_source_loop payload s (suc n) i h =
    let q = drop (i * s) payload in
    let later = join_symbols (source_loop payload s n (i + 1)) in
    let next : i * s + s ≡ (i + 1) * s = omega arith in
    let after : drop s q ≡ drop ((i + 1) * s) payload =
      drop-drop (i * s) s payload ∙ ap (λ m. drop m payload) next in
    rw (chunk_shape payload s i) (
      join_chunk s q later (
        rw after (
          join_source_loop payload s n (i + 1)
            (let e : (i + suc n) * s ≡ (i + 1 + n) * s = omega arith in rw e at h))))

-- ===== src/Identity/Base32/Clean.antt =====
-- What `DecodeBase32` keeps of a string.
use meshbbs.Common.{
  All-append, All-take, All-drop, ℕ, zero, suc, ◌+◌, ◌-◌, ◌*◌, ◌%◌, ◌≡◌, ◌<◌, refl, ap, ◌∙◌, Bool,
  true, false, ◌&&◌, ◌||◌, not, none, some, List, [], ◌∷◌, ◌++◌, length, take, drop, All, arith,
  inl, inr, Bool-cases, ltb, leb, nat_beq, ok,
}
use meshbbs.Identity.Base32.{
  place_of, crockford_decode, lower_of, character, emit, pack, clean, group,
}

-- A character that `DecodeBase32` keeps.
unfoldable pub reads : ℕ → Bool
reads c =
    not (nat_beq c 45 || nat_beq c 32 || nat_beq c 9)
    && (elim (crockford_decode c) [ none ↦ false | some x ↦ true ])

all_read : ℕ → Bool
all_read zero = true
all_read (suc n) = reads (character n) && all_read n

all_read_lem : (n x : ℕ) → all_read n ≡ true → x < n → reads (character x) ≡ true
unfolding all_read
all_read_lem zero x h lt = absurd (omega arith)
all_read_lem (suc n) x h lt = ground (arith, all_read_lem n x)

reads-character : (x : ℕ) → x < 32 → reads (character x) ≡ true
unfolding all_read reads character crockford_decode place_of lower_of
reads-character x h = all_read_lem 32 x refl h

abbrev pub AllRead : List ℕ → Type 0
AllRead = All (λ c. reads c ≡ true)

clean-append :
    (xs ys zs : List ℕ) → AllRead xs → clean ys ≡ ok zs → clean (xs ++ ys) ≡ ok (xs ++ zs)
unfolding clean reads
clean-append [] ys zs h e = e
clean-append (x ∷ xs) ys zs (h, hs) e = ground (arith, h, clean-append xs ys zs hs e)

pub clean_all : (xs : List ℕ) → AllRead xs → clean xs ≡ ok xs
unfolding clean reads
clean_all [] h = refl
clean_all (x ∷ xs) (h, hs) = ground (arith, h, clean_all xs hs)

emit-AllRead : (n acc bits : ℕ) → AllRead (emit n acc bits).0
unfolding emit
emit-AllRead zero acc bits = tt
emit-AllRead (suc n) acc bits = elim (Bool-cases (leb 5 bits)) [
  | inl more ↦ rw (emit, more) (reads-character _ (omega arith), emit-AllRead n acc (bits - 5))
  | inr fewer ↦ rw (emit, fewer) tt
]

pub pack-AllRead : (acc bits : ℕ) (b : List ℕ) → AllRead (pack acc bits b)
unfolding pack
pack-AllRead acc bits [] = elim (Bool-cases (ltb 0 bits)) [
  | inl some_left ↦ rw (pack, some_left) (reads-character _ (omega arith), tt)
  | inr none_left ↦ rw (pack, none_left) tt
]
pack-AllRead acc bits (c ∷ b) =
    All-append (λ x. reads x ≡ true) _ _
      (emit-AllRead (bits + 8) (acc * 256 % 65536 + c) (bits + 8))
      (pack-AllRead (acc * 256 % 65536 + c) (emit (bits + 8) (acc * 256 % 65536 + c) (bits + 8)).1
        b)

regrouped : (s : List ℕ) → length s ≡ 13 → take 4 s ++ (take 4 (drop 4 s) ++ take 5 (drop 8 s)) ≡ s
regrouped (a ∷ b ∷ c ∷ d ∷ e ∷ f ∷ g ∷ h ∷ i ∷ j ∷ k ∷ l ∷ m ∷ []) e' = refl
regrouped s e' = absurd (omega arith)

clean_hyphen : (s out : List ℕ) → clean s ≡ ok out → clean (45 ∷ s) ≡ ok out
unfolding clean
clean_hyphen s out e = e

AllRead-take : (n : ℕ) (xs : List ℕ) → AllRead xs → AllRead (take n xs)
AllRead-take n xs h = All-take (λ x. reads x ≡ true) n xs h

-- Hyphens are taken out again.
pub clean-group : (s : List ℕ) → AllRead s → clean (group s) ≡ ok s
unfolding group
clean-group s h =
    let P : ℕ → Type 0 = λ x. reads x ≡ true in
    elim (Bool-cases (nat_beq (length s) 13)) [
      | inl full ↦
          let a = take 4 s in
          let b = take 4 (drop 4 s) in
          let c = take 5 (drop 8 s) in
          let third =
            clean_hyphen c c (clean_all c (AllRead-take 5 (drop 8 s) (All-drop P 8 s h))) in
          let second =
            clean_hyphen (b ++ (45 ∷ c)) (b ++ c)
              (clean-append b (45 ∷ c) c (AllRead-take 4 (drop 4 s) (All-drop P 4 s h)) third) in
          rw (group, full)
            (clean-append a (45 ∷ (b ++ (45 ∷ c))) (b ++ c) (AllRead-take 4 s h) second
              ∙ ap ok (regrouped s (ground (arith, full))))
      | inr other ↦ rw (group, other) (clean_all s h)
    ]

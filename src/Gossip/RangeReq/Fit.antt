-- ===== src/Gossip/RangeReq/Fit.antt =====
-- What `FitRanges` keeps.
use meshbbs.Common.{
  ℕ, zero, suc, ◌≡◌, ◌≤◌, ◌<◌, ◌⊎◌, min, refl, ap, ◌∙◌, false, List, [], ◌∷◌, length, take,
  length-take, arith, inl, inr, Bool-cases, if◌then◌else◌, ltb, leb,
}
use mathlib.Core.Path.{subst}
use meshbbs.Vv.{Range}
use meshbbs.Gossip.{AreaTag, max_ranges}
use meshbbs.Gossip.RangeReq.{encode_range_req, fit_loop, fit_ranges}

-- The bytes of a request for these ranges.
abbrev pub cost : AreaTag → List Range → ℕ
cost area rs = length (encode_range_req (record { area = area; ranges = rs }))

next_too_long :
    (n k : ℕ) (area : AreaTag) (rs : List Range) (max_bytes : ℕ)
    → ((j : ℕ) → k < j → j ≤ n → max_bytes < cost area (take j rs))
    → leb (cost area (take (suc n) rs)) max_bytes ≡ false
    → (j : ℕ) → k < j
    → j ≤ suc n
    → max_bytes < cost area (take j rs)
next_too_long n k area rs max_bytes longest bad j h h' = elim (Bool-cases (leb j n)) [
  | inl low ↦ longest j h (ground arith)
  | inr high ↦
      let last : suc n ≡ j = ground arith in
      subst (λ i. max_bytes < cost area (take i rs)) last (ground arith)
]

fit_loop_lem :
    (n : ℕ) (area : AreaTag) (rs : List Range) (max_bytes : ℕ)
    → n ≤ length rs
    → (k : ℕ) × (k ≤ n)
      × (fit_loop n area rs max_bytes ≡ take k rs)
      × ((k ≡ 0) ⊎ (cost area (take k rs) ≤ max_bytes))
      × ((j : ℕ) → k < j → j ≤ n → max_bytes < cost area (take j rs))
unfolding fit_loop
fit_loop_lem zero area rs max_bytes few =
    (0, omega arith, ground arith, inl refl, λ j h h'. absurd (omega arith))
fit_loop_lem (suc n) area rs max_bytes few =
    let (k, le, same, fits, longest) = fit_loop_lem n area rs max_bytes (omega arith) in
    elim (Bool-cases (leb (cost area (take (suc n) rs)) max_bytes)) [
      | inl good ↦
          (suc n, omega arith, rw good refl, inr (ground arith), λ j h h'. absurd (omega arith))
      | inr bad ↦
          (k, omega arith, rw bad same, fits, next_too_long n k area rs max_bytes longest bad)
    ]

take-take : (j m : ℕ) (rs : List Range) → j ≤ m → take j (take m rs) ≡ take j rs
take-take zero m rs h = refl
take-take (suc j) zero rs h = absurd (omega arith)
take-take (suc j) (suc m) [] h = refl
take-take (suc j) (suc m) (r ∷ rs) h = ap (λ t. r ∷ t) (take-take j m rs (omega arith))

take_all : (m : ℕ) (rs : List Range) → length rs ≤ m → take m rs ≡ rs
take_all zero [] h = refl
take_all zero (r ∷ rs) h = absurd (omega arith)
take_all (suc m) [] h = refl
take_all (suc m) (r ∷ rs) h = ap (λ t. r ∷ t) (take_all m rs (omega arith))

-- The cut at the start of the function.
bound :
    (rs : List Range)
    → (if ltb max_ranges (length rs) then take max_ranges rs else rs) ≡ take max_ranges rs
bound rs = ground (arith, take_all max_ranges rs)

-- FitRanges keeps a prefix of the ranges, of at most MaxRanges, that is empty or encodes within the
-- bytes allowed, and no longer prefix of at most MaxRanges does.
pub fit_ranges-longest :
    (area : AreaTag) (rs : List Range) (max_bytes : ℕ)
    → (k : ℕ) × (k ≤ min (length rs) max_ranges)
      × (fit_ranges area rs max_bytes ≡ take k rs)
      × ((k ≡ 0) ⊎ (cost area (take k rs) ≤ max_bytes))
      × ((j : ℕ) → k < j → j ≤ min (length rs) max_ranges → max_bytes < cost area (take j rs))
unfolding fit_ranges
fit_ranges-longest area rs max_bytes =
    let bounded = take max_ranges rs in
    let size = length-take max_ranges rs in
    let (k, le, same, fits, longest) =
      fit_loop_lem (length bounded) area bounded max_bytes (omega arith) in
    let inner : k ≤ max_ranges = omega (arith, size) in
    (
      k,
      omega (arith, size),
      rw (bound rs) (same ∙ take-take k max_ranges rs inner),
      subst (λ t. (k ≡ 0) ⊎ (cost area t ≤ max_bytes)) (take-take k max_ranges rs inner) fits,
      λ j h h'.
          subst (λ t. max_bytes < cost area t) (take-take j max_ranges rs (omega arith))
            (longest j h (omega (arith, size))),
    )

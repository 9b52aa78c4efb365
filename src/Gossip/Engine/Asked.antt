-- ===== src/Gossip/Engine/Asked.antt =====
-- What the peer reads of the ranges that `onVector` asks for.
use meshbbs.Common.{
  ℕ, zero, suc, ◌≡◌, ◌≢◌, ◌≤◌, sym, ap, true, false, some, List, [], ◌∷◌, length, length-take, take,
  All, All-map, All-take, Bool, arith, inl, inr, Bool-cases, if◌then◌else◌, ltb, bytes_eq, ok,
}
use mathlib.Core.Path.{subst}
use meshbbs.Common.Sort.{sort_by, insert_by, All-insert_by, All-sort_by}
use meshbbs.Identity.{NodeId}
use meshbbs.Vv.{Vector, IsVector, Range, get, origins, missing, missing_loop, less}
use meshbbs.Vv.Origins.{Ascending, AllAbove, origins-Ascending, less_irrefl}
use meshbbs.Gossip.{AreaTag, max_control_message, max_ranges}
use meshbbs.Gossip.RangeReq.{lower_range, encode_range_req, decode_range_req}
use meshbbs.Gossip.RangeReq.Fit.{fit_ranges-longest}
use meshbbs.Gossip.RangeReq.RoundTrip.{IsRange, IsDistinct, decode_range_req-encode_range_req}
use meshbbs.Gossip.Engine.{Env}
use meshbbs.Gossip.Engine.Handlers.{from_before, wanted}
use meshbbs.Gossip.Engine.Asks.{Lacks, get-IsU64}

-- No two ranges have the same origin.
abbrev OneEach : List Range → Type 0
OneEach [] = Unit {0}
OneEach (r ∷ rs) = All (λ s. r.origin ≢ s.origin) rs × OneEach rs

insert_by-OneEach :
    (r : Range) (rs : List Range)
    → All (λ s. r.origin ≢ s.origin) rs
    → OneEach rs
    → OneEach (insert_by from_before r rs)
unfolding insert_by
insert_by-OneEach r [] a h = (tt, tt)
insert_by-OneEach r (s ∷ rs) (a, as') (h, hs) = elim (Bool-cases (from_before r s)) [
  | inl below ↦ rw below ((a, as'), (h, hs))
  | inr above ↦ rw above (
    All-insert_by from_before (λ t. s.origin ≢ t.origin) r rs (λ e. a (sym e)) h,
    insert_by-OneEach r rs as' hs,
  )
]

sort_by-OneEach : (rs : List Range) → OneEach rs → OneEach (sort_by from_before rs)
unfolding sort_by
sort_by-OneEach [] h = tt
sort_by-OneEach (r ∷ rs) (h, hs) =
    insert_by-OneEach r (sort_by from_before rs)
      (All-sort_by from_before (λ s. r.origin ≢ s.origin) rs h) (sort_by-OneEach rs hs)

take-OneEach : (n : ℕ) (rs : List Range) → OneEach rs → OneEach (take n rs)
take-OneEach zero rs h = tt
take-OneEach (suc n) [] h = tt
take-OneEach (suc n) (r ∷ rs) (h, hs) =
    (All-take (λ s. r.origin ≢ s.origin) n rs h, take-OneEach n rs hs)

OneEach-IsDistinct : (rs : List Range) → OneEach rs → IsDistinct rs
OneEach-IsDistinct [] h = tt
OneEach-IsDistinct (r ∷ rs) (h, hs) =
    (All-map _ _ (λ s apart e. absurd (apart e)) rs h, OneEach-IsDistinct rs hs)

missing_loop-apart :
    (v w : Vector) (o : NodeId) (os : List NodeId)
    → AllAbove o os
    → All (λ s. o ≢ s.origin) (missing_loop v w os)
unfolding missing_loop
missing_loop-apart v w o [] h = tt
missing_loop-apart v w o (k ∷ os) (h, hs) =
    let rest = missing_loop-apart v w o os hs in
    elim (Bool-cases (ltb (get v k) (get w k))) [
      | inl lower ↦
          rw (missing_loop, lower)
            (
              λ e.
                  let same : o ≡ k = e in
                  absurd (ground (arith, less_irrefl o, subst (λ x. less o x ≡ true) (sym same) h)),
              rest,
            )
      | inr upper ↦ rw (missing_loop, upper) rest
    ]

missing_loop-OneEach :
    (v w : Vector) (os : List NodeId) → Ascending os → OneEach (missing_loop v w os)
unfolding missing_loop
missing_loop-OneEach v w [] h = tt
missing_loop-OneEach v w (k ∷ os) (h, hs) =
    let rest = missing_loop-OneEach v w os hs in
    elim (Bool-cases (ltb (get v k) (get w k))) [
      | inl lower ↦ rw (missing_loop, lower) (missing_loop-apart v w k os h, rest)
      | inr upper ↦ rw (missing_loop, upper) rest
    ]

cut-OneEach :
    (n : ℕ) (c : Bool) (rs : List Range) → OneEach rs → OneEach (if c then take n rs else rs)
cut-OneEach n true rs h = take-OneEach n rs h
cut-OneEach n false rs h = h

Lacks-IsRange : (v w : Vector) → IsVector w → (r : Range) → Lacks v w r → IsRange r
Lacks-IsRange v w h r lack = record {
  origin_len = lack.width;
  starts = omega (arith, lack.starts);
  from_fits = omega (arith, lack.starts, lack.lower, get-IsU64 w r.origin h);
  to_fits = omega (arith, lack.ends, get-IsU64 w r.origin h);
}

module _ {S R G F : Type 0} (env : Env S R G F) where
  wanted-OneEach : (area : AreaTag) (v w : Vector) → IsVector w → OneEach (wanted env area v w)
  unfolding wanted missing
  wanted-OneEach area v w h =
      let gaps = sort_by from_before (missing v (some w)) in
      let limit = env.cfg.max_ranges_per_request in
      let few = if ltb limit (length gaps) then take limit gaps else gaps in
      let (k, le, same, fits, longest) = fit_ranges-longest area few max_control_message in
      subst OneEach (sym same) (
        take-OneEach k few (
          cut-OneEach limit (ltb limit (length gaps)) gaps (
            sort_by-OneEach (missing v (some w))
              (missing_loop-OneEach v w (origins w) (origins-Ascending w h.distinct)))))

  wanted-few : (area : AreaTag) (v w : Vector) → length (wanted env area v w) ≤ max_ranges
  unfolding wanted
  wanted-few area v w =
      let gaps = sort_by from_before (missing v (some w)) in
      let limit = env.cfg.max_ranges_per_request in
      let few = if ltb limit (length gaps) then take limit gaps else gaps in
      let (k, le, same, fits, longest) = fit_ranges-longest area few max_control_message in
      let size = length-take k few in omega (arith, le, size, ap length same)

  -- The request that `onVector` sends is read as the ranges that it asks for, in the order of their
  -- origins.
  pub decode-wanted :
      (area : AreaTag) (v w : Vector)
      → length area ≡ 4
      → IsVector w
      → All (Lacks v w) (wanted env area v w)
      → decode_range_req (encode_range_req (record { area = area; ranges = wanted env area v w }))
        ≡ ok (record { area = area; ranges = sort_by lower_range (wanted env area v w) })
  decode-wanted area v w ha h lack =
      decode_range_req-encode_range_req (record { area = area; ranges = wanted env area v w }) ha
        (All-map _ _ (Lacks-IsRange v w h) (wanted env area v w) lack)
        (OneEach-IsDistinct (wanted env area v w) (wanted-OneEach area v w h)) (wanted-few area v w)

-- ===== src/Gossip/Engine/Asks.antt =====
-- What a node asks for when it has the vector of a peer.
use meshbbs.Common.{
  ℕ, zero, suc, ◌+◌, ◌-◌, ◌%◌, ◌≡◌, ◌≢◌, ◌≤◌, ◌<◌, min, refl, ap, true, false, some, List, [], ◌∷◌,
  ◌++◌, length, length-append, take, All-take, All, arith, inl, inr, Bool-cases, bytes_eq,
  bytes_beq_iff, if◌then◌else◌, ltb,
}
use meshbbs.Common.Bytes.{IsU64}
use meshbbs.Common.Sort.{sort_by, insert_by, length-sort_by, All-sort_by}
use meshbbs.Common.Uvarint.{append_uvarint}
use meshbbs.Common.Uvarint.Write.{length-append_uvarint}
use meshbbs.Identity.{NodeId, node_id_len}
use meshbbs.Vv.{Vector, IsVector, Range, get, origins, keys, missing, missing_loop, dominates}
use meshbbs.Vv.Origins.{contains}
use meshbbs.Vv.Order.{missing-eq-nil}
use meshbbs.Vv.Wire.RoundTrip.{All-sort, keys_width, get_entry-IsU64}
use meshbbs.Gossip.{AreaTag, max_control_message, max_ranges}
use meshbbs.Gossip.RangeReq.{u64, range_bytes, encode_ranges, encode_range_req, fit_ranges}
use meshbbs.Gossip.RangeReq.Fit.{cost, fit_ranges-longest}
use meshbbs.Gossip.Engine.{Env}
use meshbbs.Gossip.Engine.Handlers.{from_before, wanted}

-- A range from the first record that `v` lacks up to the last that `w` has.
pub record Lacks (v w : Vector) (r : Range) : Type 0 where
  pub lower : get v r.origin < get w r.origin
  pub starts : r.from ≡ get v r.origin + 1
  pub ends : r.to ≡ get w r.origin
  pub known : contains r.origin (origins w) ≡ true
  pub width : length r.origin ≡ node_id_len

contains-All :
    (os all : List NodeId)
    → ((o : NodeId) → contains o os ≡ true → contains o all ≡ true)
    → All (λ o. contains o all ≡ true) os
unfolding contains
contains-All [] all h = tt
contains-All (o ∷ os) all h =
    (h o (ground (arith, bytes_beq_iff o o)), contains-All os all (λ x c. h x (ground (arith, c))))

missing_loop-Lacks :
    (v w : Vector) (os : List NodeId)
    → All (λ o. length o ≡ node_id_len) os
    → All (λ o. contains o (origins w) ≡ true) os
    → All (Lacks v w) (missing_loop v w os)
unfolding missing_loop
missing_loop-Lacks v w [] h c = tt
missing_loop-Lacks v w (o ∷ os) (h, hs) (c, cs) = elim (Bool-cases (ltb (get v o) (get w o))) [
  | inl lower ↦
      rw (missing_loop, lower)
        (
          record { lower = ground arith; starts = refl; ends = refl; known = c; width = h },
          missing_loop-Lacks v w os hs cs,
        )
  | inr upper ↦ rw (missing_loop, upper) (missing_loop-Lacks v w os hs cs)
]

missing-Lacks : (v w : Vector) → IsVector w → All (Lacks v w) (missing v (some w))
unfolding missing origins
missing-Lacks v w h =
    missing_loop-Lacks v w (origins w)
      (All-sort (λ o. length o ≡ node_id_len) (keys w.entries) (keys_width w.entries h.typed))
      (contains-All (origins w) (origins w) (λ o c. c))

-- A request for one range fits a packet.
one_range_fits :
    (area : AreaTag) (r : Range)
    → length area ≡ 4
    → length r.origin ≡ node_id_len
    → r.from < u64
    → cost area (r ∷ []) ≤ max_control_message
unfolding encode_range_req encode_ranges sort_by insert_by
one_range_fits area r ha ho hf =
    let span = (r.to + u64 - r.from) % u64 in
    let small : span < u64 = omega arith in
    omega (
      arith,
      ha,
      ho,
      length-append area (1 ∷ (range_bytes r ++ [])),
      length-append (range_bytes r) [],
      length-append r.origin (append_uvarint r.from ++ append_uvarint span),
      length-append (append_uvarint r.from) (append_uvarint span),
      length-append_uvarint 10 r.from (omega arith) (omega arith),
      length-append_uvarint 10 span (omega arith) (omega arith),
    )

-- FitRanges keeps the first range.
fit_first :
    (v w : Vector) (area : AreaTag) (r : Range) (rs : List Range)
    → length area ≡ 4
    → ((o : NodeId) → IsU64 (get w o))
    → All (Lacks v w) (r ∷ rs)
    → (rest : List Range) × (fit_ranges area (r ∷ rs) max_control_message ≡ r ∷ rest)
      × All (Lacks v w) rest
fit_first v w area r rs ha hw (h, hs) =
    let (k, le, same, fits, longest) = fit_ranges-longest area (r ∷ rs) max_control_message in
    let start : r.from < u64 = omega (arith, h.starts, h.lower, hw r.origin) in
    let one = one_range_fits area r ha h.width start in go k same longest one
  where
    go :
        (k : ℕ)
        → fit_ranges area (r ∷ rs) max_control_message ≡ take k (r ∷ rs)
        → ((j : ℕ)
            → k < j
            → j ≤ min (length (r ∷ rs)) max_ranges
            → max_control_message < cost area (take j (r ∷ rs)))
        → cost area (r ∷ []) ≤ max_control_message
        → (rest : List Range) × (fit_ranges area (r ∷ rs) max_control_message ≡ r ∷ rest)
          × All (Lacks v w) rest
    go zero same longest one = absurd (omega (arith, longest 1 (omega arith) (omega arith), one))
    go (suc k) same longest one = (take k rs, same, All-take (Lacks v w) k rs hs)

pub get-IsU64 : (w : Vector) (o : NodeId) → IsVector w → IsU64 (get w o)
unfolding get
get-IsU64 w o h = get_entry-IsU64 o w.entries h.typed

-- The limit on the number of ranges keeps the first one, too.
cut_first :
    (v w : Vector) (limit : ℕ) (rs : List Range)
    → 1 ≤ limit
    → rs ≢ []
    → All (Lacks v w) rs
    → (r : Range) × (rest : List Range) × ((if ltb limit (length rs) then take limit rs else rs)
        ≡ r ∷ rest)
      × All (Lacks v w) (r ∷ rest)
cut_first v w zero rs hl some_range h = absurd (omega arith)
cut_first v w (suc n) [] hl some_range h = absurd (some_range refl)
cut_first v w (suc n) (r ∷ rs) hl some_range (h, hs) =
    elim (Bool-cases (ltb (suc n) (length (r ∷ rs)))) [
      | inl many ↦ (r, take n rs, rw many refl, (h, All-take (Lacks v w) n rs hs))
      | inr few ↦ (r, rs, rw few refl, (h, hs))
    ]

sorted_nil : (rs : List Range) → sort_by from_before rs ≡ [] → rs ≡ []
sorted_nil [] h = refl
sorted_nil (r ∷ rs) h = absurd (omega (arith, length-sort_by from_before (r ∷ rs), ap length h))

module _ {S R G F : Type 0} (env : Env S R G F) where
  -- A node that does not dominate the vector of a peer asks for something, and only for records that
  -- it lacks, from its own mark on.
  pub wanted-Lacks :
      (area : AreaTag) (v w : Vector)
      → length area ≡ 4
      → 1 ≤ env.cfg.max_ranges_per_request
      → IsVector w
      → dominates v (some w) ≡ false
      → (r : Range) × (rest : List Range) × (wanted env area v w ≡ r ∷ rest)
        × All (Lacks v w) (r ∷ rest)
  unfolding wanted
  wanted-Lacks area v w ha hl h behind =
      let gaps = sort_by from_before (missing v (some w)) in
      let there : gaps ≢ [] = λ e.
        absurd
          (ground (arith, (missing-eq-nil v w h.distinct).0 (sorted_nil (missing v (some w)) e))) in
      let lacking =
        All-sort_by from_before (Lacks v w) (missing v (some w)) (missing-Lacks v w h) in
      let (r, rest, cut, (first, others)) =
        cut_first v w env.cfg.max_ranges_per_request gaps hl there lacking in
      let (tail, fit, kept) = fit_first v w area r rest ha (λ o. get-IsU64 w o h) (first, others) in
      (r, tail, rw (wanted, cut) fit, (first, kept))

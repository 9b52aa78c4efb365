-- ===== src/Governor/WellFormed.antt =====
-- What holds of a governor whatever calls it gets.
use meshbbs.Common.{
  ℕ, ◌-◌, ◌≡◌, ◌≤◌, refl, sym, Bool, true, false, some, List, [], ◌∷◌, All, arith, inl, inr,
  Bool-cases, Option-cases, if_splits, ltb, leb, bytes_eq,
}
use mathlib.Core.Path.{subst}
use meshbbs.Common.Map.{find, find-All, put, put-All}
use meshbbs.Gossip.{AreaTag}
use meshbbs.Bsmp.Outbox.{Class}
use meshbbs.Governor.{Config, AreaBucket, Governor, Charge, Floats}
use meshbbs.Governor.Bucket.{
  refill, prune_tx, cost_locked, duty_allows, check, floored_capacity, refill_area, bucket_for,
}
use meshbbs.Governor.Check.{check_state}
use meshbbs.Governor.Calls.{
  positive, with_defaults, new_governor, charge_packet, charge_area, allow_checked,
}

module _ {F : Type 0} (env : Floats F) where
  -- A bucket holds no more than its capacity.
  unfoldable pub IsFilled : AreaBucket F → Type 0
  IsFilled b = b.tokens ≤ b.capacity

  -- A share that `New` and `SetAreaShares` keep.
  unfoldable pub IsShare : F → Type 0
  IsShare share = env.below env.zero_f share ≡ true

  -- The buckets hold no more than their capacities, the penalty is between 1 and 32, and every
  -- share is positive.
  pub record IsWellFormed (g : Governor F) : Type 0 where
    pub filled : g.tokens ≤ g.capacity
    pub penalised : (1 ≤ g.penalty) × (g.penalty ≤ 32)
    pub areas_filled : All (λ e. IsFilled (e.1)) g.area_buckets
    pub shares : All (λ e. IsShare (e.1)) g.area_shares

  -- A governor that differs elsewhere.
  pub kept :
      (g g' : Governor F)
      → g'.tokens ≤ g.tokens
      → g'.capacity ≡ g.capacity
      → g'.penalty ≡ g.penalty
      → g'.area_buckets ≡ g.area_buckets
      → g'.area_shares ≡ g.area_shares
      → IsWellFormed g
      → IsWellFormed g'
  kept g g' tokens capacity penalty buckets shares w = record {
    filled = omega (arith, w.filled, tokens, capacity);
    penalised = (omega (arith, w.penalised.0, penalty), omega (arith, w.penalised.1, penalty));
    areas_filled = subst (All (λ e. IsFilled (e.1))) (sym buckets) w.areas_filled;
    shares = subst (All (λ e. IsShare (e.1))) (sym shares) w.shares;
  }

  pub positive-IsShare : (m : List (AreaTag × F)) → All (λ e. IsShare (e.1)) (positive env m)
  unfolding positive IsShare
  positive-IsShare [] = tt
  positive-IsShare ((a, s) ∷ m) =
      let ih = positive-IsShare m in
      if_splits (All (λ e. IsShare (e.1))) (env.below env.zero_f s) ((a, s) ∷ positive env m)
        (positive env m) (λ h. (h, ih)) (λ h. ih)

  pub new_governor-IsWellFormed : (c : Config F) (now : ℕ) → IsWellFormed (new_governor env c now)
  unfolding new_governor
  new_governor-IsWellFormed c now = record {
    filled = omega arith;
    penalised = (omega arith, omega arith);
    areas_filled = tt;
    shares = positive-IsShare (with_defaults env c).configured_shares;
  }

  pub refill-IsWellFormed :
      (now : ℕ) (g : Governor F) → IsWellFormed g → IsWellFormed (refill env now g)
  unfolding refill prune_tx
  refill-IsWellFormed now g w = elim (Bool-cases (leb now g.last)) [
    | inl old ↦ rw (refill, old) w
    | inr new ↦
        rw (refill, new)
          record {
            filled = ground arith;
            penalised = w.penalised;
            areas_filled = w.areas_filled;
            shares = w.shares;
          }
  ]

  duty_allows-IsWellFormed :
      (now air : ℕ) (g : Governor F) → IsWellFormed g → IsWellFormed (duty_allows env now air g).0
  unfolding duty_allows prune_tx
  duty_allows-IsWellFormed now air g w =
      let g1 = (duty_allows env now air g).0 in
      kept g g1 (ground arith) (ground arith) (ground arith) (ground arith) (ground arith) w

  pub check-IsWellFormed :
      (now n : ℕ) (class : Class) (g : Governor F)
      → IsWellFormed g
      → IsWellFormed (check env now n class g).0
  check-IsWellFormed now n class g w =
      let refilled = refill-IsWellFormed now g w in
      elim (check_state env now n class g) [
        | inl here ↦ subst IsWellFormed (sym here) refilled
        | inr pruned ↦
            subst IsWellFormed (sym pruned)
              (duty_allows-IsWellFormed now (env.packet n) (refill env now g) refilled)
      ]

  refill_area-IsFilled :
      (now : ℕ) (g : Governor F) (b : AreaBucket F)
      → IsFilled b
      → IsFilled (refill_area env now g b)
  unfolding refill_area IsFilled
  refill_area-IsFilled now g b h = ground (arith, h)

  at_most : (b : AreaBucket F) → b.tokens ≡ b.capacity → IsFilled b
  unfolding IsFilled
  at_most b h = omega (arith, h)

  -- The bucket of an area, kept or made.
  put-IsWellFormed :
      (area : AreaTag) (b : AreaBucket F) (g : Governor F)
      → IsFilled b
      → IsWellFormed g
      → IsWellFormed (record g { area_buckets = put area b g.area_buckets })
  put-IsWellFormed area b g h w = record {
    filled = w.filled;
    penalised = w.penalised;
    shares = w.shares;
    areas_filled = put-All IsFilled area b g.area_buckets h w.areas_filled;
  }

  -- What `bucket_for` finds.
  found_bucket : (b b' : AreaBucket F) → IsFilled b → some b ≡ some b' → IsFilled b'
  found_bucket b b' h same = let same' : b ≡ b' = ground arith in subst IsFilled same' h

  bucket_for-IsWellFormed :
      (now : ℕ) (area : AreaTag) (g : Governor F)
      → IsWellFormed g
      → let r = bucket_for env now area g in
        IsWellFormed r.0 × ((b : AreaBucket F) → r.1 ≡ some b → IsFilled b)
  unfolding bucket_for
  bucket_for-IsWellFormed now area g w = elim (Option-cases (find area g.area_shares)) [
    | inl none_given ↦ rw (bucket_for, none_given) (w, λ b h. absurd (ground arith))
    | inr (share, found) ↦ elim (Bool-cases (env.below env.zero_f share)) [
      | inl some_share ↦ elim (Option-cases (find area g.area_buckets)) [
        | inl new ↦
            let capacity = floored_capacity env share g in
            let b1 : AreaBucket F = record {
              share = share;
              tokens = capacity;
              capacity = capacity;
              last = now;
            } in
            let full = at_most b1 refl in
            rw (bucket_for, found, some_share, new)
              (put-IsWellFormed area b1 g full w, λ b h. found_bucket b1 b full h)
        | inr (b0, old) ↦
            let b1 = refill_area env now g b0 in
            let full =
              refill_area-IsFilled now g b0
                (find-All IsFilled area b0 g.area_buckets old w.areas_filled) in
            rw (bucket_for, found, some_share, old)
              (put-IsWellFormed area b1 g full w, λ b h. found_bucket b1 b full h)
      ]
      | inr no_share ↦ rw (bucket_for, found, no_share) (w, λ b h. absurd (ground arith))
    ]
  ]

  charge_packet-IsWellFormed :
      (now n : ℕ) (g : Governor F) → IsWellFormed g → IsWellFormed (charge_packet env now n g)
  unfolding charge_packet
  charge_packet-IsWellFormed now n g w =
      kept g (charge_packet env now n g) (omega arith) refl refl refl refl w

  charge_area-IsWellFormed :
      (area : AreaTag) (b : AreaBucket F) (cost : ℕ) (g : Governor F)
      → IsFilled b
      → IsWellFormed g
      → IsWellFormed (charge_area env area b cost g)
  unfolding charge_area IsFilled
  charge_area-IsWellFormed area b cost g h w =
      put-IsWellFormed area (record b { tokens = b.tokens - cost }) g (omega (arith, h)) w

  pub allow_checked-IsWellFormed :
      (now n : ℕ) (ch : Charge) (with_area : Bool) (g : Governor F)
      → IsWellFormed g
      → IsWellFormed (allow_checked env now n ch with_area g).0
  unfolding allow_checked
  allow_checked-IsWellFormed now n ch false g w = charge_packet-IsWellFormed now n g w
  allow_checked-IsWellFormed now n ch true g w =
      let g1 = (bucket_for env now ch.area g).0 in
      let (w1, full) = bucket_for-IsWellFormed now ch.area g w in
      let w2 = charge_packet-IsWellFormed now n g1 w1 in
      elim (Option-cases (bucket_for env now ch.area g).1) [
        | inl no_bucket ↦ rw (allow_checked, no_bucket) w2
        | inr (b, found) ↦ elim (Bool-cases (ltb b.tokens (cost_locked env n g))) [
          | inl short ↦
              let g2 = (allow_checked env now n ch true g).0 in
              let same : g2 ≡ record g1 { stats = g2.stats } =
                rw (allow_checked, found, short) refl in
              subst IsWellFormed (sym same)
                (kept g1 (record g1 { stats = g2.stats }) (omega arith) refl refl refl refl w1)
          | inr enough ↦
              let cost = cost_locked env n g in
              rw (allow_checked, found, enough)
                (charge_area-IsWellFormed ch.area b cost (charge_packet env now n g1) (full b found)
                  w2)
        ]
      ]

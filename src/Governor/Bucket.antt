-- ===== src/Governor/Bucket.antt =====
-- internal/governor/governor.go: what the operations share: the buckets, and the rules of `check`.
use meshbbs.Common.{
  ℕ, ◌+◌, ◌-◌, ◌*◌, Bool, true, false, ◌&&◌, not, Option, none, some, List, [], ◌∷◌, if◌then◌else◌,
  ltb, leb, bytes_eq,
}
use meshbbs.Common.Map.{find, put}
use meshbbs.Gossip.{AreaTag}
use meshbbs.Bsmp.Outbox.{Class, dm_class}
use meshbbs.Governor.{
  hour, Window, contains, AreaBucket, TxRecord, Governor, Refusal, quiet_hour, channel_busy,
  duty_cycle, over_budget, Floats, duty_cycle_limit,
}

-- The loop of `pruneTX`.
unfoldable pub recent : ℕ → List TxRecord → List TxRecord
recent now [] = []
recent now (t ∷ ts) =
    let rest = recent now ts in if ltb now (t.sent_at + hour) then t ∷ rest else rest

-- The sum of `dutyAllows`.
unfoldable pub used : List TxRecord → ℕ
used [] = 0
used (t ∷ ts) = t.air + used ts

-- The loop over the quiet hours.
unfoldable pub is_quiet : ℕ → List Window → Bool
is_quiet since [] = false
is_quiet since (w ∷ ws) = if contains w since then true else is_quiet since ws

unfoldable pub is_dm : Class → Bool
is_dm dm_class = true
is_dm class = false

module _ {F : Type 0} (env : Floats F) where
  -- `costLocked`
  unfoldable pub cost_locked : ℕ → Governor F → ℕ
  cost_locked n g = env.cost_of g.multiplier (env.packet n)

  -- `burst`
  unfoldable pub burst : Governor F → ℕ
  burst g =
      let hourly = env.hourly g.cfg.ceiling_percent g.cfg.instances in
      let floor = 3 * cost_locked 233 g in
      if ltb 0 g.cfg.burst_limit
      then g.cfg.burst_limit
      else if ltb hourly floor
      then floor
      else hourly

  -- `pruneTX`
  unfoldable pub prune_tx : ℕ → Governor F → Governor F
  prune_tx now g = record g { local_tx = recent now g.local_tx }

  -- `refill`
  unfoldable pub refill : ℕ → Governor F → Governor F
  refill now g =
      let full =
        g.tokens + env.accrued g.cfg.ceiling_percent g.cfg.instances g.penalty (now - g.last) in
      if leb now g.last
      then g
      else prune_tx now
          (record g { last = now; tokens = if ltb g.capacity full then g.capacity else full })

  -- `dutyAllows`
  unfoldable pub duty_allows : ℕ → ℕ → Governor F → Governor F × Bool
  duty_allows now air g = elim (find g.cfg.region duty_cycle_limit) [
    | none ↦ (g, true)
    | some limit ↦ let g1 = prune_tx now g in (g1, leb (used g1.local_tx + air) limit)
  ]

  -- The telemetry rule of `check`: nothing but mail on a saturated channel.
  unfoldable pub is_silenced : Class → Governor F → Bool
  is_silenced class g =
      g.have_telemetry && (not (env.below g.chan_util env.silence_threshold) && not (is_dm class))

  -- The end of `check`, from the duty cycle on.
  unfoldable pub check_budget : ℕ → ℕ → Class → Governor F → Governor F × Option Refusal
  check_budget now n class g =
      let (g1, fits) = duty_allows now (env.packet n) g in
      if not fits
      then (g1, some duty_cycle)
      else (if ltb g1.tokens (cost_locked n g1 + env.reserved class g1.capacity)
          then (g1, some over_budget)
          else (g1, none))

  -- `check`
  unfoldable pub check : ℕ → ℕ → Class → Governor F → Governor F × Option Refusal
  check now n class g =
      let g1 = refill now g in
      if is_quiet (env.since_midnight now) g1.cfg.quiet_hours
      then (g1, some quiet_hour)
      else (if is_silenced class g1 then (g1, some channel_busy) else check_budget now n class g1)

  -- The capacity of an area's bucket, at least one full packet.
  unfoldable pub floored_capacity : F → Governor F → ℕ
  floored_capacity share g =
      let capacity = env.area_capacity share g.capacity in
      let floor = cost_locked 233 g in if ltb capacity floor then floor else capacity

  -- The refill of an area's bucket.
  unfoldable pub refill_area : ℕ → Governor F → AreaBucket F → AreaBucket F
  refill_area now g b =
      let full =
        b.tokens
        + env.area_accrued b.share g.cfg.ceiling_percent g.cfg.instances g.penalty (now - b.last) in
      if leb now b.last
      then b
      else record b { last = now; tokens = if ltb b.capacity full then b.capacity else full }

  -- `bucketFor`, which puts the bucket it returns in its place.
  unfoldable pub bucket_for : ℕ → AreaTag → Governor F → Governor F × Option (AreaBucket F)
  bucket_for now area g = elim (find area g.area_shares) [
    | none ↦ (g, none)
    | some share ↦
        let capacity = floored_capacity share g in
        let fresh : AreaBucket F = record {
          share = share;
          tokens = capacity;
          capacity = capacity;
          last = now;
        } in
        let b : AreaBucket F = elim (find area g.area_buckets) [
          | none ↦ fresh
          | some b ↦ refill_area now g b
        ] in
        if env.below env.zero_f share
        then (record g { area_buckets = put area b g.area_buckets }, some b)
        else (g, none)
  ]

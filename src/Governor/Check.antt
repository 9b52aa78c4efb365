-- ===== src/Governor/Check.antt =====
-- What the rules of `check` leave of a governor, and what they promise.
use meshbbs.Common.{
  ℕ, ◌+◌, ◌≡◌, ◌≤◌, ◌⊎◌, refl, sym, ap, true, false, none, arith, inl, inr, Bool-cases,
  Option-cases, bytes_eq,
}
use mathlib.Core.Path.{subst}
use meshbbs.Common.Map.{find}
use meshbbs.Gossip.{AreaTag}
use meshbbs.Bsmp.Outbox.{Class}
use meshbbs.Governor.{Governor, Floats, duty_cycle_limit}
use meshbbs.Governor.Bucket.{
  is_quiet, is_silenced, cost_locked, prune_tx, refill, duty_allows, check_budget, check,
  bucket_for,
}

module _ {F : Type 0} (env : Floats F) where
  -- The purse and the rules that one governor shares with another.
  pub record SamePurse (g g' : Governor F) : Type 0 where
    pub same_tokens : g'.tokens ≡ g.tokens
    pub same_capacity : g'.capacity ≡ g.capacity
    pub same_last : g'.last ≡ g.last
    pub same_cfg : g'.cfg ≡ g.cfg
    pub same_multiplier : g'.multiplier ≡ g.multiplier
    pub same_stats : g'.stats ≡ g.stats

  pub SamePurse-refl : (g : Governor F) → SamePurse g g
  SamePurse-refl g = record {
    same_tokens = refl;
    same_capacity = refl;
    same_last = refl;
    same_cfg = refl;
    same_multiplier = refl;
    same_stats = refl;
  }

  pub duty_allows-SamePurse :
      (now air : ℕ) (g : Governor F) → SamePurse g (duty_allows env now air g).0
  unfolding duty_allows prune_tx
  duty_allows-SamePurse now air g = elim (Option-cases (find g.cfg.region duty_cycle_limit)) [
    | inl free ↦ rw (duty_allows, free) (SamePurse-refl g)
    | inr (limit, found) ↦
        rw (duty_allows, found)
          record {
            same_tokens = refl;
            same_capacity = refl;
            same_last = refl;
            same_cfg = refl;
            same_multiplier = refl;
            same_stats = refl;
          }
  ]

  check_budget_state :
      (now n : ℕ) (class : Class) (g : Governor F)
      → (check_budget env now n class g).0 ≡ (duty_allows env now (env.packet n) g).0
  unfolding check_budget
  check_budget_state now n class g = ground arith

  -- `check` leaves what `refill` leaves, or what the duty cycle has pruned of it.
  pub check_state :
      (now n : ℕ) (class : Class) (g : Governor F)
      → let g1 = refill env now g in
        ((check env now n class g).0 ≡ g1)
        ⊎ ((check env now n class g).0 ≡ (duty_allows env now (env.packet n) g1).0)
  unfolding check
  check_state now n class g = ground (arith, check_budget_state now n class (refill env now g))

  pub check-SamePurse :
      (now n : ℕ) (class : Class) (g : Governor F)
      → SamePurse (refill env now g) (check env now n class g).0
  check-SamePurse now n class g =
      let g1 = refill env now g in
      elim (check_state now n class g) [
        | inl here ↦ subst (SamePurse g1) (sym here) (SamePurse-refl g1)
        | inr pruned ↦
            subst (SamePurse g1) (sym pruned) (duty_allows-SamePurse now (env.packet n) g1)
      ]

  -- What holds when `check` finds nothing to refuse.
  pub record IsClear (now n : ℕ) (class : Class) (g : Governor F) : Type 0 where
    pub awake : is_quiet (env.since_midnight now) g.cfg.quiet_hours ≡ false
    pub heard : is_silenced env class g ≡ false
    pub within_duty : (duty_allows env now (env.packet n) g).1 ≡ true
    pub within_budget : cost_locked env n g + env.reserved class g.capacity ≤ g.tokens

  check_budget-clear :
      (now n : ℕ) (class : Class) (g : Governor F)
      → (check_budget env now n class g).1 ≡ none
      → ((duty_allows env now (env.packet n) g).1 ≡ true)
        × (cost_locked env n g + env.reserved class g.capacity ≤ g.tokens)
        × ((check_budget env now n class g).0 ≡ (duty_allows env now (env.packet n) g).0)
  unfolding check_budget cost_locked
  check_budget-clear now n class g h =
      let d = duty_allows-SamePurse now (env.packet n) g in
      ground (arith, d.same_tokens, d.same_capacity, d.same_multiplier)

  -- A packet that `check` passes is not in a quiet hour, not silenced, within the duty cycle, and paid
  -- for with the reserve of its class untouched.
  pub check-IsClear :
      (now n : ℕ) (class : Class) (g : Governor F)
      → (check env now n class g).1 ≡ none
      → IsClear now n class (refill env now g)
        × ((check env now n class g).0 ≡ (duty_allows env now (env.packet n) (refill env now g)).0)
  unfolding check
  check-IsClear now n class g h =
      let g1 = refill env now g in
      elim (Bool-cases (is_quiet (env.since_midnight now) g1.cfg.quiet_hours)) [
        | inl quiet ↦ absurd (ground (arith))
        | inr awake ↦ elim (Bool-cases (is_silenced env class g1)) [
          | inl silenced ↦ absurd (ground arith)
          | inr heard ↦
              let (duty, paid, same) = check_budget-clear now n class g1 (ground arith) in
              (
                record { awake = awake; heard = heard; within_duty = duty; within_budget = paid },
                ground arith,
              )
        ]
      ]

  pub bucket_for-SamePurse :
      (now : ℕ) (area : AreaTag) (g : Governor F) → SamePurse g (bucket_for env now area g).0
  unfolding bucket_for
  bucket_for-SamePurse now area g = elim (Option-cases (find area g.area_shares)) [
    | inl none_given ↦ rw (bucket_for, none_given) (SamePurse-refl g)
    | inr (share, found) ↦ elim (Bool-cases (env.below env.zero_f share)) [
      | inl some_share ↦
          rw (bucket_for, found, some_share)
            record {
              same_tokens = refl;
              same_capacity = refl;
              same_last = refl;
              same_cfg = refl;
              same_multiplier = refl;
              same_stats = refl;
            }
      | inr no_share ↦ rw (bucket_for, found, no_share) (SamePurse-refl g)
    ]
  ]

  -- The cost of a packet, for governors with the same purse.
  pub SamePurse-cost_locked :
      (n : ℕ) (g g' : Governor F) → SamePurse g g' → cost_locked env n g' ≡ cost_locked env n g
  unfolding cost_locked
  SamePurse-cost_locked n g g' h = ap (λ r. env.cost_of r (env.packet n)) h.same_multiplier

  -- A packet that no rule refuses passes `check`.
  pub IsClear-check :
      (now n : ℕ) (class : Class) (g : Governor F)
      → IsClear now n class (refill env now g)
      → (check env now n class g).1 ≡ none
  unfolding check check_budget
  IsClear-check now n class g clear =
      let g1 = refill env now g in
      let d = duty_allows-SamePurse now (env.packet n) g1 in
      let cost = SamePurse-cost_locked n g1 (duty_allows env now (env.packet n) g1).0 d in
      let paid : cost_locked env n (duty_allows env now (env.packet n) g1).0
            + env.reserved class (duty_allows env now (env.packet n) g1).0.capacity
          ≤ (duty_allows env now (env.packet n) g1).0.tokens =
        ground (arith, cost, d.same_capacity, d.same_tokens, clear.within_budget) in
      ground (arith, clear.awake, clear.heard, clear.within_duty, paid)

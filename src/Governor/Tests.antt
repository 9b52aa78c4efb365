-- ===== src/Governor/Tests.antt =====
-- Runs of a governor, with whole numbers for the floating-point numbers.
use meshbbs.Common.{
  ℕ, ◌+◌, ◌-◌, ◌*◌, ◌/◌, ◌≡◌, ◌≤◌, ◌⊎◌, refl, true, false, List, [], ◌∷◌, length, arith,
  if◌then◌else◌, ltb, nat_beq,
}
use meshbbs.Bsmp.Outbox.{forum_class}
use meshbbs.Governor.{hour, Config, Charge, Floats}
use meshbbs.Governor.Bucket.{
  recent, used, is_quiet, is_dm, cost_locked, burst, prune_tx, refill, duty_allows, is_silenced,
  check_budget, check, floored_capacity, refill_area, bucket_for,
}
use meshbbs.Governor.Check.{IsClear}
use meshbbs.Common.Map.{find, put}
use meshbbs.Governor.Calls.{
  new_governor, with_defaults, positive, allow_charge, allow_checked, charge_packet, charge_area,
  refused, observe, set_area_shares, resize, set_instances,
}
use meshbbs.Governor.Outcome.{Pays, Refuses, Reason, allow_charge-outcome}
use meshbbs.Governor.Rate.{IsRate, run-spends}
use meshbbs.Governor.Duty.{IsOrdered, run-within_duty}
use meshbbs.Governor.WellFormed.{IsWellFormed}
use meshbbs.Governor.Reachable.{run-IsWellFormed}
use meshbbs.Governor.Run.{
  Request, allows, reshares, observes, joins, step, run, sends, lets_out, history,
}

-- A second for each byte, and a tenth of the channel.
abbrev pub whole : Floats ℕ
whole = record {
  zero_f = 0;
  one_f = 1;
  default_ceiling = 10;
  max_ceiling = 10;
  default_flood = 2;
  backoff_threshold = 25;
  silence_threshold = 40;
  below = ltb;
  same = nat_beq;
  packet = λ n. n * 1000000000;
  cost_of = λ r air. air * r;
  hourly = λ ceiling instances. hour / 10;
  accrued =
      λ ceiling instances penalty elapsed. if ltb 1 penalty then elapsed / 20 else elapsed / 10;
  area_accrued = λ share ceiling instances penalty elapsed. elapsed / 100;
  area_capacity = λ share capacity. capacity / 10 * share;
  reserved = λ class capacity. capacity / 10;
  observed = λ echoes sent. 1;
  since_midnight = λ now. now;
}

abbrev pub config : Config ℕ
config = record {
  region = 69 ∷ 85 ∷ 95 ∷ 56 ∷ 54 ∷ 56 ∷ [];
  ceiling_percent = 10;
  instances = 1;
  flood_multiplier = 2;
  flood_override = true;
  quiet_hours = [];
  burst_limit = 2000000000000;
  inbound_quota = 1000;
  configured_shares = ((7 ∷ [], 5)) ∷ [];
}

abbrev charge : Charge
charge = record { class = forum_class; area = 7 ∷ [] }

-- Two packets fit the duty cycle, and a third of the same size does not.
abbrev calls : List (ℕ × Request ℕ)
calls =
    (1000, allows 150 charge true)
    ∷ (2000, allows 150 charge true)
    ∷ (3000, observes 30 0)
    ∷ (4000, allows 150 charge false)
    ∷ (5000, reshares (((7 ∷ [], 1)) ∷ []))
    ∷ (6000, joins 2)
    ∷ []

two_sent : length (history whole calls (new_governor whole config 0)) ≡ 2
unfolding new_governor with_defaults positive burst run step history lets_out sends allow_charge
    allow_checked charge_packet charge_area check check_budget is_quiet is_silenced duty_allows
    prune_tx refill cost_locked recent used find put bucket_for floored_capacity refill_area refused
    observe set_area_shares resize set_instances is_dm
two_sent = refl

duty_refusals : (run whole calls (new_governor whole config 0)).stats.refused_duty ≡ 1
unfolding new_governor with_defaults positive burst run step history lets_out sends allow_charge
    allow_checked charge_packet charge_area check check_budget is_quiet is_silenced duty_allows
    prune_tx refill cost_locked recent used find put bucket_for floored_capacity refill_area refused
    observe set_area_shares resize set_instances is_dm
duty_refusals = refl

whole-IsRate : IsRate whole 10 (λ elapsed. elapsed / 10)
whole-IsRate = record {
  bounded = λ instances penalty elapsed. ground arith;
  adds = λ a b. omega arith;
}

run-spends_example :
    let g = new_governor whole config 0 in
    let g' = run whole calls g in
    g'.stats.charged_channel + g'.tokens
    ≤ g.stats.charged_channel + g.tokens + (g'.last - g.last) / 10
unfolding new_governor with_defaults
run-spends_example =
    run-spends whole (λ elapsed. elapsed / 10) calls (new_governor whole config 0) whole-IsRate

run-within_duty_example :
    used (recent 7000 (history whole calls (new_governor whole config 0))) ≤ 360000000000
unfolding new_governor find with_defaults IsOrdered
run-within_duty_example =
    run-within_duty whole 360000000000 0 7000 calls (new_governor whole config 0) refl refl (
      omega arith,
      (omega arith, (omega arith, (omega arith, (omega arith, (omega arith, omega arith))))),
    )

allow_charge-outcome_example :
    let g = new_governor whole config 0 in
    let g1 = refill whole 1000 g in
    let r = allow_charge whole 1000 150 charge true g in
    ((r.1 ≡ true) × IsClear whole 1000 150 forum_class g1 × Pays whole 150 g1 r.0)
    ⊎ ((r.1 ≡ false) × Refuses whole g1 r.0 × Reason whole 1000 150 charge true g)
allow_charge-outcome_example =
    allow_charge-outcome whole 1000 150 charge true (new_governor whole config 0)

run-IsWellFormed_example : IsWellFormed whole (run whole calls (new_governor whole config 0))
run-IsWellFormed_example = run-IsWellFormed whole config 0 calls

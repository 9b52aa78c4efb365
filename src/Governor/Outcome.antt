-- ===== src/Governor/Outcome.antt =====
-- The two outcomes of `AllowCharge`: a packet is let out and paid for, or refused and counted.
use meshbbs.Common.{
  ℕ, ◌+◌, ◌≡◌, ◌≢◌, ◌<◌, none, some, ◌≤◌, ◌⊎◌, refl, sym, ap, ◌∙◌, Bool, true, false, arith, inl,
  inr, Bool-cases, Option-cases, ltb, bytes_eq,
}
use meshbbs.Gossip.{AreaTag}
use meshbbs.Governor.{
  AreaBucket, Governor, Charge, Refusal, Stats, quiet_hour, channel_busy, duty_cycle, over_budget,
  Floats,
}
use meshbbs.Governor.Bucket.{cost_locked, refill, check, bucket_for}
use meshbbs.Governor.Check.{
  SamePurse, check-SamePurse, IsClear, check-IsClear, IsClear-check, bucket_for-SamePurse,
  SamePurse-cost_locked,
}
use meshbbs.Governor.Calls.{refused, charge_packet, charge_area, allow_checked, allow_charge}

-- All that was refused.
unfoldable pub refusals : Stats → ℕ
refusals s = s.refused_budget + s.refused_quiet + s.refused_duty + s.refused_busy + s.refused_area

refused_counts :
    (why : Refusal) (s : Stats)
    → (refusals (refused why s) ≡ refusals s + 1)
      × ((refused why s).allowed ≡ s.allowed)
      × ((refused why s).charged_channel ≡ s.charged_channel)
unfolding refusals refused
refused_counts quiet_hour s = (omega arith, refl, refl)
refused_counts channel_busy s = (omega arith, refl, refl)
refused_counts duty_cycle s = (omega arith, refl, refl)
refused_counts over_budget s = (omega arith, refl, refl)

some_reason : (why : Refusal) → some why ≢ none
some_reason why h = ground arith

module _ {F : Type 0} (env : Floats F) where
  -- A packet of so many bytes is paid for and counted.
  pub record Pays (n : ℕ) (g g' : Governor F) : Type 0 where
    pub spent : g'.tokens + cost_locked env n g ≡ g.tokens
    pub charged : g'.stats.charged_channel ≡ g.stats.charged_channel + cost_locked env n g
    pub counted : g'.stats.allowed ≡ g.stats.allowed + 1
    pub no_refusal : refusals g'.stats ≡ refusals g.stats
    pub same_clock : g'.last ≡ g.last
    pub same_rules : g'.cfg ≡ g.cfg

  -- Nothing is paid, and one more refusal is counted.
  pub record Refuses (g g' : Governor F) : Type 0 where
    pub unspent : g'.tokens ≡ g.tokens
    pub uncharged : g'.stats.charged_channel ≡ g.stats.charged_channel
    pub uncounted : g'.stats.allowed ≡ g.stats.allowed
    pub one_refusal : refusals g'.stats ≡ refusals g.stats + 1
    pub same_clock : g'.last ≡ g.last
    pub same_rules : g'.cfg ≡ g.cfg

  Pays-SamePurse : (n : ℕ) (g g1 g' : Governor F) → SamePurse env g g1 → Pays n g1 g' → Pays n g g'
  Pays-SamePurse n g g1 g' h p =
      let cost = SamePurse-cost_locked env n g g1 h in
      let s = h.same_stats in
      record {
        spent = ap (λ c. g'.tokens + c) (sym cost) ∙ p.spent ∙ h.same_tokens;
        charged = omega (arith, p.charged, cost, ap (λ s. s.charged_channel) s);
        counted = omega (arith, p.counted, ap (λ s. s.allowed) s);
        no_refusal = p.no_refusal ∙ ap refusals s;
        same_clock = p.same_clock ∙ h.same_last;
        same_rules = p.same_rules ∙ h.same_cfg;
      }

  Refuses-SamePurse : (g g1 g' : Governor F) → SamePurse env g g1 → Refuses g1 g' → Refuses g g'
  Refuses-SamePurse g g1 g' h p =
      let s = h.same_stats in
      record {
        unspent = p.unspent ∙ h.same_tokens;
        uncharged = p.uncharged ∙ ap (λ s. s.charged_channel) s;
        uncounted = p.uncounted ∙ ap (λ s. s.allowed) s;
        one_refusal = omega (arith, p.one_refusal, ap refusals s);
        same_clock = p.same_clock ∙ h.same_last;
        same_rules = p.same_rules ∙ h.same_cfg;
      }

  charge_packet-Pays :
      (now n : ℕ) (g : Governor F)
      → cost_locked env n g ≤ g.tokens
      → Pays n g (charge_packet env now n g)
  unfolding charge_packet refusals
  charge_packet-Pays now n g h = record {
    spent = omega (arith, h);
    charged = refl;
    counted = refl;
    no_refusal = refl;
    same_clock = refl;
    same_rules = refl;
  }

  charge_area-Pays :
      (n : ℕ) (area : AreaTag) (b : AreaBucket F) (cost : ℕ) (g g1 : Governor F)
      → Pays n g g1
      → Pays n g (charge_area env area b cost g1)
  unfolding charge_area
  charge_area-Pays n area b cost g g1 p = record {
    spent = p.spent;
    charged = p.charged;
    counted = p.counted;
    no_refusal = p.no_refusal;
    same_clock = p.same_clock;
    same_rules = p.same_rules;
  }

  -- The area has a bucket, and it does not hold the cost of the packet.
  pub record IsShort (now n : ℕ) (area : AreaTag) (g : Governor F) : Type 0 where
    pub bucket : AreaBucket F
    pub kept_for : (bucket_for env now area g).1 ≡ some bucket
    pub too_low : bucket.tokens < cost_locked env n g

  -- Why a packet is refused: a rule of `check`, or the bucket of its area.
  pub data Reason (now n : ℕ) (ch : Charge) (with_area : Bool) (g : Governor F) : Type 0 where
    by_rule : ¬ IsClear env now n ch.class (refill env now g) → Reason now n ch with_area g
    by_area :
        with_area ≡ true
        → IsShort now n ch.area (check env now n ch.class g).0
        → Reason now n ch with_area g

  allow_checked_cases :
      (now n : ℕ) (ch : Charge) (with_area : Bool) (g : Governor F)
      → cost_locked env n g ≤ g.tokens
      → let r = allow_checked env now n ch with_area g in
        ((r.1 ≡ true) × Pays n g r.0)
        ⊎ ((r.1 ≡ false) × Refuses g r.0 × (with_area ≡ true) × IsShort now n ch.area g)
  unfolding allow_checked refusals
  allow_checked_cases now n ch false g h = inl (refl, charge_packet-Pays now n g h)
  allow_checked_cases now n ch true g h =
      let g1 = (bucket_for env now ch.area g).0 in
      let same = bucket_for-SamePurse env now ch.area g in
      let cost = SamePurse-cost_locked env n g g1 same in
      let paid = charge_packet-Pays now n g1 (omega (arith, h, cost, same.same_tokens)) in
      let g2 = charge_packet env now n g1 in
      let settled = Pays-SamePurse n g g1 g2 same paid in
      elim (Option-cases (bucket_for env now ch.area g).1) [
        | inl no_bucket ↦ rw (allow_checked, no_bucket) (inl (refl, settled))
        | inr (b, found) ↦ elim (Bool-cases (ltb b.tokens (cost_locked env n g))) [
          | inl short ↦
              rw (allow_checked, found, short)
                (inr (
                  refl,
                  let s = g1.stats in
                      let g2 : Governor F = record g1 {
                        stats = record s { refused_area = s.refused_area + 1 };
                      } in
                      Refuses-SamePurse g g1 g2 same record {
                        unspent = refl;
                        uncharged = refl;
                        uncounted = refl;
                        one_refusal = omega arith;
                        same_clock = refl;
                        same_rules = refl;
                      },
                  refl,
                  record { bucket = b; kept_for = found; too_low = ground (arith, short) },
                ))
          | inr enough ↦
              rw (allow_checked, found, enough)
                (inl (refl, charge_area-Pays n ch.area b (cost_locked env n g) g g2 settled))
        ]
      ]

  -- After the refill of the bucket, a packet is let out, no rule refuses it, its whole cost is paid out of the bucket and
  -- counted, and the bucket held the reserve of its class besides; or it is refused, nothing is paid, one more
  -- refusal is counted, and a rule refuses it or the bucket of its area is short of its cost.
  pub allow_charge-outcome :
      (now n : ℕ) (ch : Charge) (with_area : Bool) (g : Governor F)
      → let g1 = refill env now g in
        let r = allow_charge env now n ch with_area g in
        ((r.1 ≡ true) × IsClear env now n ch.class g1 × Pays n g1 r.0)
        ⊎ ((r.1 ≡ false) × Refuses g1 r.0 × Reason now n ch with_area g)
  unfolding allow_charge
  allow_charge-outcome now n ch with_area g =
      let g1 = refill env now g in
      let g2 = (check env now n ch.class g).0 in
      let same = check-SamePurse env now n ch.class g in
      elim (Option-cases (check env now n ch.class g).1) [
        | inl clear ↦
            let (rules, state) = check-IsClear env now n ch.class g clear in
            let paid = rules.within_budget in
            let cost = SamePurse-cost_locked env n g1 g2 same in
            let r = allow_checked env now n ch with_area g2 in
            rw (allow_charge, clear)
              (elim (allow_checked_cases now n ch with_area g2
                (omega (arith, paid, cost, same.same_tokens))) [
                  | inl (let_out, pays) ↦ inl (let_out, rules, Pays-SamePurse n g1 g2 r.0 same pays)
                  | inr (kept, refuses, area, short) ↦
                      inr (kept, Refuses-SamePurse g1 g2 r.0 same refuses, by_area area short)
                ])
        | inr (why, found) ↦
            let g3 : Governor F = record g2 { stats = refused why g2.stats } in
            let (one, allowed, charged) = refused_counts why g2.stats in
            rw (allow_charge, found)
              (inr (
                refl,
                Refuses-SamePurse g1 g2 g3 same record {
                  unspent = refl;
                  uncharged = charged;
                  uncounted = allowed;
                  one_refusal = one;
                  same_clock = refl;
                  same_rules = refl;
                },
                by_rule (λ clear.
                    some_reason why (sym found ∙ IsClear-check env now n ch.class g clear)),
              ))
      ]

-- ===== src/Governor/Rate.antt =====
-- What a governor lets through is bounded by its bucket and by what accrues.
use meshbbs.Common.{
  ℕ, ◌+◌, ◌-◌, ◌≡◌, ◌≤◌, refl, sym, ap, ◌∙◌, Bool, List, [], ◌∷◌, arith, inl, inr, Bool-cases,
  if◌then◌else◌, ltb, leb, bytes_eq,
}
use mathlib.Core.Path.{subst}
use meshbbs.Identity.{NodeId}
use meshbbs.Bsmp.Outbox.{Class}
use meshbbs.Governor.{Governor, Charge, Floats}
use meshbbs.Governor.Bucket.{recent, prune_tx, refill, check}
use meshbbs.Governor.Check.{SamePurse, check-SamePurse}
use meshbbs.Governor.Outcome.{allow_charge-outcome}
use meshbbs.Governor.Calls.{
  would, allow_charge, set_area_shares, observe, reestimate, note_echo, note_inbound, budget,
  set_instances,
}
use meshbbs.Governor.Run.{
  Request, allows, tries, reshares, observes, echoes_back, hears, reports, joins, step, run,
}

module _ {F : Type 0} (env : Floats F) where
  -- `full` bounds what accrues in a time under a ceiling, however many instances there are and however busy
  -- the channel is; and in two spans one after the other no more accrues than in both as one.
  pub record IsRate (ceiling : F) (full : ℕ → ℕ) : Type 0 where
    pub bounded :
        (instances penalty elapsed : ℕ)
        → env.accrued ceiling instances penalty elapsed ≤ full elapsed
    pub adds : (a b : ℕ) → full a + full b ≤ full (a + b)

  module _ (full : ℕ → ℕ) where
    -- What one governor has spent and holds besides what the other has, has accrued.
    pub record Paid (g g' : Governor F) : Type 0 where
      pub paid :
          g'.stats.charged_channel + g'.tokens
          ≤ g.stats.charged_channel + g.tokens + full (g'.last - g.last)
      pub onward : g.last ≤ g'.last
      pub same_ceiling : g'.cfg.ceiling_percent ≡ g.cfg.ceiling_percent

    Paid-trans :
        (g g1 g2 : Governor F)
        → IsRate g.cfg.ceiling_percent full
        → Paid g g1
        → Paid g1 g2
        → Paid g g2
    Paid-trans g g1 g2 h p q =
        let p1 = p.onward in
        let q1 = q.onward in
        let span : g1.last - g.last + (g2.last - g1.last) ≡ g2.last - g.last =
          omega (arith, p1, q1) in
        let more = h.adds (g1.last - g.last) (g2.last - g1.last) in
        let whole =
          subst (λ t. full (g1.last - g.last) + full (g2.last - g1.last) ≤ full t) span more in
        record {
          paid = omega (arith, p.paid, q.paid, whole);
          onward = omega (arith, p1, q1);
          same_ceiling = q.same_ceiling ∙ p.same_ceiling;
        }

    -- A governor that has spent and holds what the other has spent and holds, or less.
    Paid-kept :
        (g g' : Governor F)
        → g'.last ≡ g.last
        → g'.cfg.ceiling_percent ≡ g.cfg.ceiling_percent
        → g'.stats.charged_channel + g'.tokens ≤ g.stats.charged_channel + g.tokens
        → Paid g g'
    Paid-kept g g' same ceiling h = record {
      paid = omega (arith, h);
      onward = omega (arith, same);
      same_ceiling = ceiling;
    }

    refill-Paid :
        (now : ℕ) (g : Governor F) → IsRate g.cfg.ceiling_percent full → Paid g (refill env now g)
    unfolding refill prune_tx
    refill-Paid now g h = elim (Bool-cases (leb now g.last)) [
      | inl old ↦ rw (refill, old) (Paid-kept g g refl refl (omega arith))
      | inr new ↦
          let accrued = h.bounded g.cfg.instances g.penalty (now - g.last) in
          let g' : Governor F = record g {
            last = now;
            tokens =
                if ltb g.capacity (
                  g.tokens
                  + env.accrued g.cfg.ceiling_percent g.cfg.instances g.penalty (now - g.last))
                then g.capacity
                else g.tokens
                  + env.accrued g.cfg.ceiling_percent g.cfg.instances g.penalty (now - g.last);
            local_tx = recent now g.local_tx;
          } in
          let same : refill env now g ≡ g' = rw (refill, new) refl in
          subst (Paid g) (sym same) record {
            paid = ground (arith, accrued);
            onward = ground (arith, new);
            same_ceiling = refl;
          }
    ]

    SamePurse-Paid : (g g' : Governor F) → SamePurse env g g' → Paid g g'
    SamePurse-Paid g g' h =
        Paid-kept g g' h.same_last (ap (λ c. c.ceiling_percent) h.same_cfg)
          (omega (arith, h.same_tokens, ap (λ s. s.charged_channel) h.same_stats))

    check-Paid :
        (now n : ℕ) (class : Class) (g : Governor F)
        → IsRate g.cfg.ceiling_percent full
        → Paid g (check env now n class g).0
    check-Paid now n class g h =
        let g1 = refill env now g in
        let g2 = (check env now n class g).0 in
        Paid-trans g g1 g2 h (refill-Paid now g h)
          (SamePurse-Paid g1 g2 (check-SamePurse env now n class g))

    allow_charge-Paid :
        (now n : ℕ) (ch : Charge) (with_area : Bool) (g : Governor F)
        → IsRate g.cfg.ceiling_percent full
        → Paid g (allow_charge env now n ch with_area g).0
    allow_charge-Paid now n ch with_area g h =
        let g1 = refill env now g in
        let g2 = (allow_charge env now n ch with_area g).0 in
        let refilled = refill-Paid now g h in
        elim (allow_charge-outcome env now n ch with_area g) [
          | inl (let_out, clear, p) ↦ Paid-trans g g1 g2 h refilled (
              Paid-kept g1 g2 p.same_clock (ap (λ c. c.ceiling_percent) p.same_rules)
                (omega (arith, p.spent, p.charged)))
          | inr (kept, p, why) ↦ Paid-trans g g1 g2 h refilled (
              Paid-kept g1 g2 p.same_clock (ap (λ c. c.ceiling_percent) p.same_rules)
                (omega (arith, p.unspent, p.uncharged)))
        ]

    note_echo-Paid : (g : Governor F) → Paid g (note_echo env g)
    unfolding note_echo reestimate
    note_echo-Paid g = Paid-kept g (note_echo env g) (ground arith) (ground arith) (ground arith)

    note_inbound-Paid :
        (now : ℕ) (peer : NodeId) (size : ℕ) (g : Governor F)
        → Paid g (note_inbound env now peer size g).0
    unfolding note_inbound
    note_inbound-Paid now peer size g =
        Paid-kept g (note_inbound env now peer size g).0 (ground arith) (ground arith)
          (ground arith)

    set_instances-Paid :
        (now n : ℕ) (g : Governor F)
        → IsRate g.cfg.ceiling_percent full
        → Paid g (set_instances env now n g)
    unfolding set_instances
    set_instances-Paid now n g h = elim (Bool-cases (ltb n 1)) [
      | inl nobody ↦ rw (set_instances, nobody) (Paid-kept g g refl refl (omega arith))
      | inr some_node ↦
          let g1 = refill env now g in
          let g2 = set_instances env now n g in
          Paid-trans g g1 g2 h (refill-Paid now g h)
            (Paid-kept g1 g2 (ground (arith)) (ground arith) (ground (arith)))
    ]

    step-Paid :
        (now : ℕ) (c : Request F) (g : Governor F)
        → IsRate g.cfg.ceiling_percent full
        → Paid g (step env now c g)
    unfolding step would set_area_shares observe budget
    step-Paid now (allows n ch with_area) g h = allow_charge-Paid now n ch with_area g h
    step-Paid now (tries n class) g h = check-Paid now n class g h
    step-Paid now (reshares shares) g h =
        Paid-kept g (step env now (reshares shares) g) refl refl (omega arith)
    step-Paid now (observes util air) g h =
        let g1 = refill env now g in
        let g2 = step env now (observes util air) g in
        Paid-trans g g1 g2 h (refill-Paid now g h) (Paid-kept g1 g2 refl refl (omega arith))
    step-Paid now echoes_back g h = note_echo-Paid g
    step-Paid now (hears peer size) g h = note_inbound-Paid now peer size g
    step-Paid now reports g h = refill-Paid now g h
    step-Paid now (joins n) g h = set_instances-Paid now n g h

    run-Paid :
        (cs : List (ℕ × Request F)) (g : Governor F)
        → IsRate g.cfg.ceiling_percent full
        → Paid g (run env cs g)
    unfolding run
    run-Paid [] g h = Paid-kept g g refl refl (omega arith)
    run-Paid ((now, c) ∷ cs) g h =
        let g1 = step env now c g in
        let first = step-Paid now c g h in
        let h1 = subst (λ ceiling. IsRate ceiling full) (sym first.same_ceiling) h in
        Paid-trans g g1 (run env cs g1) h first (run-Paid cs g1 h1)

    -- Whatever calls a governor gets, at whatever times, also when the channel, the shares and the number of the
    -- instances change between them: the cost of what it lets out, with the tokens it is left with, is at most
    -- the tokens it had and what accrues at the full rate until its last refill. The rate is such that two
    -- spans accrue no more than they do as one.
    pub run-spends :
        (cs : List (ℕ × Request F)) (g : Governor F)
        → IsRate g.cfg.ceiling_percent full
        → let g' = run env cs g in
          g'.stats.charged_channel + g'.tokens
          ≤ g.stats.charged_channel + g.tokens + full (g'.last - g.last)
    run-spends cs g h = (run-Paid cs g h).paid

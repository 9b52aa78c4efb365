-- ===== src/Governor/LastHour.antt =====
-- The packets of the last hour: what the operations leave of them.
use meshbbs.Common.{
  ℕ, ◌+◌, ◌≡◌, ◌≤◌, refl, sym, ap, ◌∙◌, Bool, true, false, List, [], ◌∷◌, ◌++◌, append-nil, arith,
  inl, inr, Bool-cases, Option-cases, ltb, leb, bytes_eq,
}
use mathlib.Core.Path.{subst}
use meshbbs.Common.Map.{find}
use meshbbs.Gossip.{AreaTag}
use meshbbs.Bsmp.Outbox.{Class}
use meshbbs.Governor.{TxRecord, Governor, Charge, Floats, duty_cycle_limit}
use meshbbs.Governor.Bucket.{
  recent, used, cost_locked, prune_tx, refill, duty_allows, check, bucket_for,
}
use meshbbs.Governor.Check.{check_state}
use meshbbs.Governor.Calls.{
  charge_packet, charge_area, allow_checked, allow_charge, would, set_area_shares, observe,
  reestimate, note_echo, note_inbound, budget, set_instances,
}
use meshbbs.Governor.Run.{
  Request, allows, tries, reshares, observes, echoes_back, hears, reports, joins, step, sends,
  lets_out,
}

pub recent-++ : (t : ℕ) (xs ys : List TxRecord) → recent t (xs ++ ys) ≡ recent t xs ++ recent t ys
unfolding recent
recent-++ t [] ys = refl
recent-++ t (x ∷ xs) ys = let ih = recent-++ t xs ys in ground (arith, ih)

pub recent-recent :
    (t t' : ℕ) (xs : List TxRecord) → t ≤ t' → recent t' (recent t xs) ≡ recent t' xs
unfolding recent
recent-recent t t' [] h = refl
recent-recent t t' (x ∷ xs) h = let ih = recent-recent t t' xs h in ground (arith, ih)

pub used-++ : (xs ys : List TxRecord) → used (xs ++ ys) ≡ used xs + used ys
unfolding used
used-++ [] ys = omega arith
used-++ (x ∷ xs) ys = let ih = used-++ xs ys in omega (arith, ih)

-- With time, the packets of the last hour get fewer.
pub used-recent :
    (t t' : ℕ) (xs : List TxRecord) → t ≤ t' → used (recent t' xs) ≤ used (recent t xs)
unfolding recent used
used-recent t t' [] h = omega arith
used-recent t t' (x ∷ xs) h = let ih = used-recent t t' xs h in ground (arith, ih)

module _ {F : Type 0} (env : Floats F) where
  -- From a time on, one governor remembers the packets of the other and more packets, and its
  -- region is the same.
  pub record Remembers (now : ℕ) (g : Governor F) (out : List TxRecord) (g' : Governor F)
      : Type 0 where
    pub window : (t : ℕ) → now ≤ t → recent t g'.local_tx ≡ recent t (g.local_tx ++ out)
    pub same_region : g'.cfg.region ≡ g.cfg.region

  -- A governor that remembers the same packets.
  Remembers-kept :
      (now : ℕ) (g g' : Governor F)
      → g'.local_tx ≡ g.local_tx
      → g'.cfg.region ≡ g.cfg.region
      → Remembers now g [] g'
  Remembers-kept now g g' same region = record {
    window = λ t h. ap (recent t) (same ∙ sym (append-nil g.local_tx));
    same_region = region;
  }

  -- A governor that has forgotten what is older than an hour.
  Remembers-pruned :
      (now : ℕ) (g g' : Governor F)
      → g'.local_tx ≡ recent now g.local_tx
      → g'.cfg.region ≡ g.cfg.region
      → Remembers now g [] g'
  Remembers-pruned now g g' same region = record {
    window = λ t h.
        ap (recent t) same
        ∙ recent-recent now t g.local_tx h
        ∙ ap (recent t) (sym (append-nil g.local_tx));
    same_region = region;
  }

  Remembers-then :
      (now : ℕ) (g g1 g2 : Governor F) (out : List TxRecord)
      → Remembers now g [] g1
      → Remembers now g1 out g2
      → Remembers now g out g2
  Remembers-then now g g1 g2 out p q = record {
    window = λ t h.
        let first = p.window t h ∙ ap (recent t) (append-nil g.local_tx) in
        let both =
          recent-++ t g1.local_tx out
          ∙ ap (λ xs. xs ++ recent t out) first
          ∙ sym (recent-++ t g.local_tx out) in
        q.window t h ∙ both;
    same_region = q.same_region ∙ p.same_region;
  }

  pub refill-Remembers : (now : ℕ) (g : Governor F) → Remembers now g [] (refill env now g)
  unfolding refill prune_tx
  refill-Remembers now g = elim (Bool-cases (leb now g.last)) [
    | inl old ↦ rw (refill, old) (Remembers-kept now g g refl refl)
    | inr new ↦
        Remembers-pruned now g (refill env now g) (ground (arith, new)) (ground (arith, new))
  ]

  duty_allows-Remembers :
      (now air : ℕ) (g : Governor F) → Remembers now g [] (duty_allows env now air g).0
  unfolding duty_allows prune_tx
  duty_allows-Remembers now air g = elim (Option-cases (find g.cfg.region duty_cycle_limit)) [
    | inl free ↦ rw (duty_allows, free) (Remembers-kept now g g refl refl)
    | inr (limit, found) ↦
        rw (duty_allows, found)
          (Remembers-pruned now g (record g { local_tx = recent now g.local_tx }) refl refl)
  ]

  check-Remembers :
      (now n : ℕ) (class : Class) (g : Governor F) → Remembers now g [] (check env now n class g).0
  check-Remembers now n class g =
      let g1 = refill env now g in
      let refilled = refill-Remembers now g in
      elim (check_state env now n class g) [
        | inl here ↦ subst (Remembers now g []) (sym here) refilled
        | inr pruned ↦
            let g2 = (duty_allows env now (env.packet n) g1).0 in
            subst (Remembers now g []) (sym pruned)
              (Remembers-then now g g1 g2 [] refilled (duty_allows-Remembers now (env.packet n) g1))
      ]

  bucket_for-Remembers :
      (now : ℕ) (area : AreaTag) (g : Governor F) → Remembers now g [] (bucket_for env now area g).0
  unfolding bucket_for
  bucket_for-Remembers now area g =
      Remembers-kept now g (bucket_for env now area g).0 (ground arith) (ground arith)

  charge_packet-Remembers :
      (now n : ℕ) (g : Governor F)
      → Remembers now g (sends env now n true) (charge_packet env now n g)
  unfolding charge_packet sends
  charge_packet-Remembers now n g = record { window = λ t h. refl; same_region = refl }

  allow_checked-Remembers :
      (now n : ℕ) (ch : Charge) (with_area : Bool) (g : Governor F)
      → let r = allow_checked env now n ch with_area g in Remembers now g (sends env now n r.1) r.0
  unfolding allow_checked charge_area sends
  allow_checked-Remembers now n ch false g = charge_packet-Remembers now n g
  allow_checked-Remembers now n ch true g =
      let g1 = (bucket_for env now ch.area g).0 in
      let looked = bucket_for-Remembers now ch.area g in
      let g2 = charge_packet env now n g1 in
      let charged =
        Remembers-then now g g1 g2 (sends env now n true) looked
          (charge_packet-Remembers now n g1) in
      elim (Option-cases (bucket_for env now ch.area g).1) [
        | inl no_bucket ↦ rw (allow_checked, no_bucket) charged
        | inr (b, found) ↦ elim (Bool-cases (ltb b.tokens (cost_locked env n g))) [
          | inl short ↦
              rw (allow_checked, found, short)
                record { window = looked.window; same_region = looked.same_region }
          | inr enough ↦
              rw (allow_checked, found, enough)
                record { window = charged.window; same_region = charged.same_region }
        ]
      ]

  allow_charge-Remembers :
      (now n : ℕ) (ch : Charge) (with_area : Bool) (g : Governor F)
      → let r = allow_charge env now n ch with_area g in Remembers now g (sends env now n r.1) r.0
  unfolding allow_charge sends
  allow_charge-Remembers now n ch with_area g =
      let g1 = (check env now n ch.class g).0 in
      let checked = check-Remembers now n ch.class g in
      elim (Option-cases (check env now n ch.class g).1) [
        | inl clear ↦
            let r = allow_checked env now n ch with_area g1 in
            rw (allow_charge, clear)
              (Remembers-then now g g1 r.0 (sends env now n r.1) checked
                (allow_checked-Remembers now n ch with_area g1))
        | inr (why, found) ↦
            rw (allow_charge, found)
              record { window = checked.window; same_region = checked.same_region }
      ]

  set_instances-Remembers :
      (now n : ℕ) (g : Governor F) → Remembers now g [] (set_instances env now n g)
  unfolding set_instances
  set_instances-Remembers now n g = elim (Bool-cases (ltb n 1)) [
    | inl nobody ↦ rw (set_instances, nobody) (Remembers-kept now g g refl refl)
    | inr some_node ↦
        let p = refill-Remembers now g in
        let g1 = refill env now g in
        let g2 = set_instances env now n g in
        Remembers-then now g g1 g2 [] p
          (Remembers-kept now g1 g2 (ground (arith, some_node)) (ground (arith, some_node)))
  ]

  -- A call of a governor leaves the packets of the last hour and those it has let out itself.
  pub step-Remembers :
      (now : ℕ) (c : Request F) (g : Governor F)
      → Remembers now g (lets_out env now c g) (step env now c g)
  unfolding step would set_area_shares observe budget note_echo reestimate note_inbound lets_out
  step-Remembers now (allows n ch with_area) g = allow_charge-Remembers now n ch with_area g
  step-Remembers now (tries n class) g = check-Remembers now n class g
  step-Remembers now (reshares shares) g =
      Remembers-kept now g (step env now (reshares shares) g) refl refl
  step-Remembers now (observes util air) g =
      let p = refill-Remembers now g in record { window = p.window; same_region = p.same_region }
  step-Remembers now echoes_back g =
      Remembers-kept now g (step env now echoes_back g) (ground arith) (ground arith)
  step-Remembers now (hears peer size) g =
      Remembers-kept now g (step env now (hears peer size) g) (ground arith) (ground arith)
  step-Remembers now reports g = refill-Remembers now g
  step-Remembers now (joins n) g = set_instances-Remembers now n g

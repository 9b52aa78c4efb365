-- ===== src/Governor/Reachable.antt =====
-- The invariant of a governor, for every sequence of calls.
use meshbbs.Common.{
  ℕ, ◌≡◌, refl, sym, Bool, List, [], ◌∷◌, All, arith, inl, inr, Bool-cases, Option-cases, ltb,
  bytes_eq,
}
use mathlib.Core.Path.{subst}
use meshbbs.Common.Map.{find}
use meshbbs.Identity.{NodeId}
use meshbbs.Gossip.{AreaTag}
use meshbbs.Governor.{Config, AreaBucket, Governor, Charge, Floats}
use meshbbs.Governor.Bucket.{check}
use meshbbs.Governor.WellFormed.{
  IsFilled, IsWellFormed, kept, positive-IsShare, new_governor-IsWellFormed, refill-IsWellFormed,
  check-IsWellFormed, allow_checked-IsWellFormed,
}
use meshbbs.Governor.Calls.{
  positive, new_governor, allow_charge, would, resize, set_area_shares, observe, reestimate,
  note_echo, note_inbound, budget, set_instances,
}
use meshbbs.Governor.Run.{
  Request, allows, tries, reshares, observes, echoes_back, hears, reports, joins, step, run,
}

module _ {F : Type 0} (env : Floats F) where
  allow_charge-IsWellFormed :
      (now n : ℕ) (ch : Charge) (with_area : Bool) (g : Governor F)
      → IsWellFormed env g
      → IsWellFormed env (allow_charge env now n ch with_area g).0
  unfolding allow_charge
  allow_charge-IsWellFormed now n ch with_area g w =
      let g1 = (check env now n ch.class g).0 in
      let w1 = check-IsWellFormed env now n ch.class g w in
      elim (Option-cases (check env now n ch.class g).1) [
        | inl clear ↦
            rw (allow_charge, clear) (allow_checked-IsWellFormed env now n ch with_area g1 w1)
        | inr (why, found) ↦
            let g2 = (allow_charge env now n ch with_area g).0 in
            let same : g2 ≡ record g1 { stats = g2.stats } = rw (allow_charge, found) refl in
            subst (IsWellFormed env) (sym same)
              (kept env g1 (record g1 { stats = g2.stats }) (omega arith) refl refl refl refl w1)
      ]

  resize-IsFilled :
      (shares : List (AreaTag × F)) (g : Governor F) (m : List (AreaTag × AreaBucket F))
      → All (λ e. IsFilled env (e.1)) m
      → All (λ e. IsFilled env (e.1)) (resize env shares g m)
  unfolding resize IsFilled
  resize-IsFilled shares g [] h = tt
  resize-IsFilled shares g ((a, b) ∷ m) (h, hs) =
      let ih = resize-IsFilled shares g m hs in
      elim (Option-cases (find a shares)) [
        | inl dropped ↦ rw (resize, dropped) ih
        | inr (share, found) ↦ elim (Bool-cases (env.same share b.share)) [
          | inl as_before ↦ rw (resize, found, as_before) (h, ih)
          | inr resized ↦ rw (resize, found, resized) (ground arith, ih)
        ]
      ]

  set_area_shares-IsWellFormed :
      (shares : List (AreaTag × F)) (g : Governor F)
      → IsWellFormed env g
      → IsWellFormed env (set_area_shares env shares g)
  unfolding set_area_shares
  set_area_shares-IsWellFormed shares g w = record {
    filled = w.filled;
    penalised = w.penalised;
    areas_filled = resize-IsFilled (positive env shares) g g.area_buckets w.areas_filled;
    shares = positive-IsShare env shares;
  }

  observe-IsWellFormed :
      (now : ℕ) (util air : F) (g : Governor F)
      → IsWellFormed env g
      → IsWellFormed env (observe env now util air g)
  unfolding observe
  observe-IsWellFormed now util air g w =
      let w1 = refill-IsWellFormed env now g w in
      let (low, high) = w1.penalised in
      record {
        filled = w1.filled;
        penalised = (ground (arith, low, high), ground (arith, low, high));
        areas_filled = w1.areas_filled;
        shares = w1.shares;
      }

  note_echo-IsWellFormed :
      (g : Governor F) → IsWellFormed env g → IsWellFormed env (note_echo env g)
  unfolding note_echo reestimate
  note_echo-IsWellFormed g w =
      kept env g (note_echo env g) (ground arith) (ground arith) (ground arith) (ground arith)
        (ground arith) w

  note_inbound-IsWellFormed :
      (now : ℕ) (peer : NodeId) (size : ℕ) (g : Governor F)
      → IsWellFormed env g
      → IsWellFormed env (note_inbound env now peer size g).0
  unfolding note_inbound
  note_inbound-IsWellFormed now peer size g w =
      let g1 = (note_inbound env now peer size g).0 in
      kept env g g1 (ground arith) (ground arith) (ground arith) (ground arith) (ground arith) w

  set_instances-IsWellFormed :
      (now n : ℕ) (g : Governor F)
      → IsWellFormed env g
      → IsWellFormed env (set_instances env now n g)
  unfolding set_instances
  set_instances-IsWellFormed now n g w = elim (Bool-cases (ltb n 1)) [
    | inl nobody ↦ rw (set_instances, nobody) w
    | inr some_node ↦
        let w1 = refill-IsWellFormed env now g w in
        rw (set_instances, some_node)
          record {
            filled = ground arith;
            penalised = w1.penalised;
            areas_filled = w1.areas_filled;
            shares = w1.shares;
          }
  ]

  step-IsWellFormed :
      (now : ℕ) (c : Request F) (g : Governor F)
      → IsWellFormed env g
      → IsWellFormed env (step env now c g)
  unfolding step would budget
  step-IsWellFormed now (allows n ch with_area) g w =
      allow_charge-IsWellFormed now n ch with_area g w
  step-IsWellFormed now (tries n class) g w = check-IsWellFormed env now n class g w
  step-IsWellFormed now (reshares shares) g w = set_area_shares-IsWellFormed shares g w
  step-IsWellFormed now (observes util air) g w = observe-IsWellFormed now util air g w
  step-IsWellFormed now echoes_back g w = note_echo-IsWellFormed g w
  step-IsWellFormed now (hears peer size) g w = note_inbound-IsWellFormed now peer size g w
  step-IsWellFormed now reports g w = refill-IsWellFormed env now g w
  step-IsWellFormed now (joins n) g w = set_instances-IsWellFormed now n g w

  run_keeps :
      (cs : List (ℕ × Request F)) (g : Governor F)
      → IsWellFormed env g
      → IsWellFormed env (run env cs g)
  unfolding run
  run_keeps [] g w = w
  run_keeps ((now, c) ∷ cs) g w = run_keeps cs (step env now c g) (step-IsWellFormed now c g w)

  -- Whatever calls a new governor gets, at whatever times, its bucket and the buckets of its areas hold
  -- no more than their capacities, its penalty is between 1 and 32, and the shares of its areas are positive.
  pub run-IsWellFormed :
      (c : Config F) (now : ℕ) (cs : List (ℕ × Request F))
      → IsWellFormed env (run env cs (new_governor env c now))
  run-IsWellFormed c now cs =
      run_keeps cs (new_governor env c now) (new_governor-IsWellFormed env c now)

-- ===== src/Governor/Duty.antt =====
-- The duty cycle of a region, over all the calls of a governor.
use meshbbs.Common.{
  ℕ, ◌+◌, ◌≡◌, ◌≤◌, sym, ap, ◌∙◌, Bool, true, some, List, [], ◌∷◌, ◌++◌, append_assoc, append-nil,
  arith, inl, inr, leb, bytes_eq,
}
use mathlib.Core.Path.{subst}
use meshbbs.Common.Map.{find}
use meshbbs.Governor.{TxRecord, Governor, Charge, Floats, duty_cycle_limit}
use meshbbs.Governor.Bucket.{recent, used, prune_tx, refill, duty_allows}
use meshbbs.Governor.Outcome.{allow_charge-outcome}
use meshbbs.Governor.Calls.{allow_charge}
use meshbbs.Governor.LastHour.{recent-++, used-++, used-recent, refill-Remembers, step-Remembers}
use meshbbs.Governor.Run.{
  Request, allows, tries, reshares, observes, echoes_back, hears, reports, joins, step, sends,
  lets_out, history,
}

-- Calls between two times, each no earlier than the one before it.
unfoldable pub IsOrdered : {F : Type 0} → ℕ → List (ℕ × Request F) → ℕ → Type 0
IsOrdered from [] to = from ≤ to
IsOrdered from ((now, c) ∷ cs) to = (from ≤ now) × IsOrdered now cs to

at_once : (now : ℕ) → now ≤ now
at_once now = omega arith

module _ {F : Type 0} (env : Floats F) where
  -- The governor knows what was sent in the last hour, and it is within the limit of the region.
  record IsWithin (limit now : ℕ) (g : Governor F) (sent : List TxRecord) : Type 0 where
    pub known : (t : ℕ) → now ≤ t → recent t g.local_tx ≡ recent t sent
    pub low : used (recent now sent) ≤ limit
    pub limited : find g.cfg.region duty_cycle_limit ≡ some limit

  duty_allows-low :
      (limit now air : ℕ) (g : Governor F)
      → find g.cfg.region duty_cycle_limit ≡ some limit
      → (duty_allows env now air g).1 ≡ true
      → used (recent now g.local_tx) + air ≤ limit
  unfolding duty_allows prune_tx
  duty_allows-low limit now air g found h =
      let fits : leb (used (recent now g.local_tx) + air) limit ≡ true =
        rw (duty_allows, found) at h in
      ground (arith, fits)

  nothing-low :
      (limit now : ℕ) (xs : List TxRecord)
      → used (recent now xs) ≤ limit
      → used (recent now (xs ++ [])) ≤ limit
  nothing-low limit now xs low = subst (λ l. used (recent now l) ≤ limit) (sym (append-nil xs)) low

  used-sends : (now n : ℕ) → used (recent now (sends env now n true)) ≤ env.packet n
  unfolding sends recent used
  used-sends now n = ground arith

  -- A packet that is let out is within the limit, with those of the last hour.
  sends-low :
      (limit now n : ℕ) (ch : Charge) (with_area : Bool) (g : Governor F)
      → find g.cfg.region duty_cycle_limit ≡ some limit
      → used (recent now g.local_tx) ≤ limit
      → used (recent now (g.local_tx ++ sends env now n (allow_charge env now n ch with_area g).1))
        ≤ limit
  unfolding sends
  sends-low limit now n ch with_area g found low =
      let xs = g.local_tx in
      let out : Bool → List TxRecord = λ b. sends env now n b in
      elim (allow_charge-outcome env now n ch with_area g) [
        | inl (let_out, clear, pays) ↦
            let kept = refill-Remembers env now g in
            let region = ap (λ r. find r duty_cycle_limit) kept.same_region ∙ found in
            let fits =
              duty_allows-low limit now (env.packet n) (refill env now g) region
                clear.within_duty in
            let same = kept.window now (omega arith) ∙ ap (recent now) (append-nil xs) in
            let whole =
              ap used (recent-++ now xs (out true))
              ∙ used-++ (recent now xs) (recent now (out true)) in
            subst (λ b. used (recent now (xs ++ out b)) ≤ limit) (sym let_out)
              (omega (arith, fits, ap used same, whole, used-sends now n))
        | inr (held, refuses, why) ↦
            subst (λ b. used (recent now (xs ++ out b)) ≤ limit) (sym held)
              (nothing-low limit now xs low)
      ]

  lets_out-low :
      (limit now : ℕ) (c : Request F) (g : Governor F)
      → find g.cfg.region duty_cycle_limit ≡ some limit
      → used (recent now g.local_tx) ≤ limit
      → used (recent now (g.local_tx ++ lets_out env now c g)) ≤ limit
  unfolding lets_out
  lets_out-low limit now (allows n ch with_area) g found low =
      sends-low limit now n ch with_area g found low
  lets_out-low limit now (tries n class) g found low = nothing-low limit now g.local_tx low
  lets_out-low limit now (reshares shares) g found low = nothing-low limit now g.local_tx low
  lets_out-low limit now (observes util air) g found low = nothing-low limit now g.local_tx low
  lets_out-low limit now echoes_back g found low = nothing-low limit now g.local_tx low
  lets_out-low limit now (hears peer size) g found low = nothing-low limit now g.local_tx low
  lets_out-low limit now reports g found low = nothing-low limit now g.local_tx low
  lets_out-low limit now (joins n) g found low = nothing-low limit now g.local_tx low

  step-IsWithin :
      (limit from now : ℕ) (c : Request F) (g : Governor F) (sent : List TxRecord)
      → from ≤ now
      → IsWithin limit from g sent
      → IsWithin limit now (step env now c g) (sent ++ lets_out env now c g)
  step-IsWithin limit from now c g sent later w =
      let out = lets_out env now c g in
      let p = step-Remembers env now c g in
      let known_before = w.known now later in
      let low : used (recent now g.local_tx) ≤ limit =
        omega (arith, used-recent from now sent later, w.low, ap used known_before) in
      let after : (t : ℕ) → now ≤ t → recent t (g.local_tx ++ out) ≡ recent t (sent ++ out) = λ t h.
        recent-++ t g.local_tx out
        ∙ ap (λ xs. xs ++ recent t out) (w.known t (omega (arith, later, h)))
        ∙ sym (recent-++ t sent out) in
      record {
        known = λ t h. p.window t h ∙ after t h;
        low =
            subst (λ xs. used xs ≤ limit) (after now (at_once now))
              (lets_out-low limit now c g w.limited low);
        limited = ap (λ r. find r duty_cycle_limit) p.same_region ∙ w.limited;
      }

  run-IsWithin :
      (limit from to : ℕ) (cs : List (ℕ × Request F)) (g : Governor F) (sent : List TxRecord)
      → IsOrdered from cs to
      → IsWithin limit from g sent
      → used (recent to (sent ++ history env cs g)) ≤ limit
  unfolding history IsOrdered
  run-IsWithin limit from to [] g sent ordered w =
      nothing-low limit to sent (omega (arith, used-recent from to sent ordered, w.low))
  run-IsWithin limit from to ((now, c) ∷ cs) g sent (later, ordered) w =
      let out = lets_out env now c g in
      let g1 = step env now c g in
      let rest =
        run-IsWithin limit now to cs g1 (sent ++ out) ordered
          (step-IsWithin limit from now c g sent later w) in
      subst (λ xs. used (recent to xs) ≤ limit) (append_assoc sent out (history env cs g1)) rest

  -- In a region with a duty cycle, at no time from the last call on has a governor that has sent nothing yet let
  -- out more airtime within an hour than the limit, whatever the calls are. The calls stand in the
  -- order of their times.
  pub run-within_duty :
      (limit from to : ℕ) (cs : List (ℕ × Request F)) (g : Governor F)
      → find g.cfg.region duty_cycle_limit ≡ some limit
      → g.local_tx ≡ []
      → IsOrdered from cs to
      → used (recent to (history env cs g)) ≤ limit
  unfolding recent used
  run-within_duty limit from to cs g found fresh ordered =
      run-IsWithin limit from to cs g [] ordered
        record { known = λ t h. ap (recent t) fresh; low = omega arith; limited = found }

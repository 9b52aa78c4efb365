-- ===== src/Governor/Run.antt =====
-- Any sequence of calls of a governor, each at its time.
use meshbbs.Common.{ℕ, Bool, List, [], ◌∷◌, ◌++◌, if◌then◌else◌}
use meshbbs.Identity.{NodeId}
use meshbbs.Gossip.{AreaTag}
use meshbbs.Bsmp.Outbox.{Class}
use meshbbs.Governor.{Governor, Charge, Floats, TxRecord}
use meshbbs.Governor.Calls.{
  would, allow_charge, set_area_shares, observe, note_echo, note_inbound, budget, set_instances,
}

pub data Request (F : Type 0) : Type 0 where
  allows : ℕ → Charge → Bool → Request F
  tries : ℕ → Class → Request F
  reshares : List (AreaTag × F) → Request F
  observes : F → F → Request F
  echoes_back : Request F
  hears : NodeId → ℕ → Request F
  reports : Request F
  joins : ℕ → Request F

module _ {F : Type 0} (env : Floats F) where
  unfoldable pub step : ℕ → Request F → Governor F → Governor F
  step now (allows n ch with_area) g = (allow_charge env now n ch with_area g).0
  step now (tries n class) g = (would env now n class g).0
  step now (reshares shares) g = set_area_shares env shares g
  step now (observes util air) g = observe env now util air g
  step now echoes_back g = note_echo env g
  step now (hears peer bytes) g = (note_inbound env now peer bytes g).0
  step now reports g = (budget env now g).0
  step now (joins n) g = set_instances env now n g

  unfoldable pub run : List (ℕ × Request F) → Governor F → Governor F
  run [] g = g
  run ((now, c) ∷ cs) g = run cs (step now c g)

  -- The packet that a result of `AllowCharge` lets out.
  unfoldable pub sends : ℕ → ℕ → Bool → List TxRecord
  sends now n let_out = if let_out then record { sent_at = now; air = env.packet n } ∷ [] else []

  -- The packet that a call lets out.
  unfoldable pub lets_out : ℕ → Request F → Governor F → List TxRecord
  lets_out now (allows n ch with_area) g = sends now n (allow_charge env now n ch with_area g).1
  lets_out now c g = []

  -- The packets that a run lets out, the first of them first.
  unfoldable pub history : List (ℕ × Request F) → Governor F → List TxRecord
  history [] g = []
  history ((now, c) ∷ cs) g = lets_out now c g ++ history cs (step now c g)

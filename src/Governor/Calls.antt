-- ===== src/Governor/Calls.antt =====
-- internal/governor/governor.go: the operations.
use meshbbs.Common.{
  ℕ, ◌+◌, ◌-◌, ◌*◌, ◌/◌, Bool, true, false, ◌&&◌, ◌||◌, not, none, some, List, [], ◌∷◌, ◌++◌,
  if◌then◌else◌, ltb, leb, nat_beq, bytes_eq,
}
use meshbbs.Common.Map.{find, put}
use meshbbs.Identity.{NodeId}
use meshbbs.Gossip.{AreaTag}
use meshbbs.Bsmp.Outbox.{Class}
use meshbbs.Governor.{
  hour, Config, AreaBucket, InboundRec, Stats, Governor, Refusal, quiet_hour, channel_busy,
  duty_cycle, over_budget, Charge, Floats,
}
use meshbbs.Governor.Bucket.{cost_locked, burst, refill, check, floored_capacity, bucket_for}

-- The counter that `AllowCharge` raises for an error of `check`.
unfoldable pub refused : Refusal → Stats → Stats
refused quiet_hour s = record s { refused_quiet = s.refused_quiet + 1 }
refused channel_busy s = record s { refused_busy = s.refused_busy + 1 }
refused duty_cycle s = record s { refused_duty = s.refused_duty + 1 }
refused over_budget s = record s { refused_budget = s.refused_budget + 1 }

-- `link.Budget`
pub record Budget : Type 0 where
  pub available : ℕ
  pub per_datagram : ℕ
  pub backpressure : Bool

module _ {F : Type 0} (env : Floats F) where
  -- The shares that `New` and `SetAreaShares` keep.
  unfoldable pub positive : List (AreaTag × F) → List (AreaTag × F)
  positive [] = []
  positive ((a, s) ∷ m) =
      let rest = positive m in if env.below env.zero_f s then (a, s) ∷ rest else rest

  -- The defaults and limits of `New`.
  unfoldable pub with_defaults : Config F → Config F
  with_defaults c =
      let ceiling =
        if not (env.below env.zero_f c.ceiling_percent)
        then env.default_ceiling
        else c.ceiling_percent in
      record c {
        ceiling_percent = if env.below env.max_ceiling ceiling then env.max_ceiling else ceiling;
        instances = if ltb c.instances 1 then 50 else c.instances;
        flood_multiplier =
            if env.below c.flood_multiplier env.one_f
            then env.default_flood
            else c.flood_multiplier;
        inbound_quota = if nat_beq c.inbound_quota 0 then 32 * 1024 else c.inbound_quota;
      }

  -- `New`
  unfoldable pub new_governor : Config F → ℕ → Governor F
  new_governor given now =
      let c = with_defaults given in
      let g : Governor F = record {
        cfg = c;
        tokens = 0;
        capacity = 0;
        last = now;
        penalty = 1;
        chan_util = env.zero_f;
        air_util_tx = env.zero_f;
        have_telemetry = false;
        local_tx = [];
        inbound = [];
        sent_packets = 0;
        echoes = 0;
        multiplier = c.flood_multiplier;
        area_shares = positive c.configured_shares;
        area_buckets = [];
        stats = record {
          allowed = 0;
          refused_budget = 0;
          refused_quiet = 0;
          refused_duty = 0;
          refused_busy = 0;
          refused_area = 0;
          inbound_alerts = 0;
          charged_channel = 0;
        };
      } in
      record g { tokens = burst env g; capacity = burst env g }

  -- `Would`
  unfoldable pub would : ℕ → ℕ → Class → Governor F → Governor F × Bool
  would now n class g =
      let (g1, refusal) = check env now n class g in
      (g1, elim refusal [ none ↦ true | some why ↦ false ])

  -- The end of `AllowCharge`.
  unfoldable pub charge_packet : ℕ → ℕ → Governor F → Governor F
  charge_packet now n g =
      let cost = cost_locked env n g in
      let s = g.stats in
      record g {
        tokens = g.tokens - cost;
        local_tx = g.local_tx ++ (record { sent_at = now; air = env.packet n } ∷ []);
        sent_packets = g.sent_packets + 1;
        stats = record s { allowed = s.allowed + 1; charged_channel = s.charged_channel + cost };
      }

  -- The bucket of an area pays, too.
  unfoldable pub charge_area : AreaTag → AreaBucket F → ℕ → Governor F → Governor F
  charge_area area b cost g = record g {
    area_buckets = put area (record b { tokens = b.tokens - cost }) g.area_buckets;
  }

  -- The part of `AllowCharge` after `check`.
  unfoldable pub allow_checked : ℕ → ℕ → Charge → Bool → Governor F → Governor F × Bool
  allow_checked now n ch with_area g =
      let cost = cost_locked env n g in
      if not with_area
      then (charge_packet now n g, true)
      else (let (g1, bucket) = bucket_for env now ch.area g in
          let s = g1.stats in
          elim bucket [
            | none ↦ (charge_packet now n g1, true)
            | some b ↦
                if ltb b.tokens cost
                then (record g1 { stats = record s { refused_area = s.refused_area + 1 } }, false)
                else (charge_area ch.area b cost (charge_packet now n g1), true)
          ])

  -- `AllowCharge`. `Allow` is the call without an area.
  unfoldable pub allow_charge : ℕ → ℕ → Charge → Bool → Governor F → Governor F × Bool
  allow_charge now n ch with_area g =
      let (g1, refusal) = check env now n ch.class g in
      elim refusal [
        | some why ↦ (record g1 { stats = refused why g1.stats }, false)
        | none ↦ allow_checked now n ch with_area g1
      ]

  -- The second loop of `SetAreaShares`: the buckets that stay, with their shares brought up to date.
  unfoldable pub resize :
      List (AreaTag × F)
      → Governor F
      → List (AreaTag × AreaBucket F)
      → List (AreaTag × AreaBucket F)
  resize shares g [] = []
  resize shares g ((a, b) ∷ m) =
      let rest = resize shares g m in
      elim (find a shares) [
        | none ↦ rest
        | some share ↦
            let capacity = floored_capacity env share g in
            let tokens = if ltb capacity b.tokens then capacity else b.tokens in
            if env.same share b.share
            then (a, b) ∷ rest
            else (a, record b { share = share; capacity = capacity; tokens = tokens }) ∷ rest
      ]

  -- `SetAreaShares`
  unfoldable pub set_area_shares : List (AreaTag × F) → Governor F → Governor F
  set_area_shares shares g = record g {
    area_shares = positive shares;
    area_buckets = resize (positive shares) g g.area_buckets;
  }

  -- `Observe`
  unfoldable pub observe : ℕ → F → F → Governor F → Governor F
  observe now channel_utilization air_util g =
      let g1 = refill env now g in
      let doubled = g1.penalty * 2 in
      let halved = g1.penalty / 2 in
      record g1 {
        chan_util = channel_utilization;
        air_util_tx = air_util;
        have_telemetry = true;
        penalty =
            if not (env.below channel_utilization env.backoff_threshold)
            then (if ltb 32 doubled then 32 else doubled)
            else (if ltb halved 1 then 1 else halved);
      }

  -- `reestimate`
  unfoldable pub reestimate : Governor F → Governor F
  reestimate g =
      let observed = env.observed g.echoes g.sent_packets in
      if g.cfg.flood_override || ltb g.sent_packets 20
      then g
      else (if env.below g.multiplier observed then record g { multiplier = observed } else g)

  -- `NoteEcho`
  unfoldable pub note_echo : Governor F → Governor F
  note_echo g = reestimate (record g { echoes = g.echoes + 1 })

  -- The record of a peer that `NoteInbound` goes on with.
  unfoldable pub inbound_for : ℕ → NodeId → List (NodeId × InboundRec) → InboundRec
  inbound_for now peer m =
      let fresh : InboundRec = record { window_start = now; bytes = 0; alerted = false } in
      elim (find peer m) [
        | none ↦ fresh
        | some rec ↦ if leb hour (now - rec.window_start) then fresh else rec
      ]

  -- `NoteInbound`, less the text of the alert.
  unfoldable pub note_inbound : ℕ → NodeId → ℕ → Governor F → Governor F × Bool
  note_inbound now peer bytes g =
      let rec = inbound_for now peer g.inbound in
      let more : InboundRec = record rec { bytes = rec.bytes + bytes } in
      let s = g.stats in
      let noted = record g { inbound = put peer more g.inbound } in
      if leb more.bytes g.cfg.inbound_quota
      then (noted, true)
      else (if more.alerted then (noted, false) else (
        record g {
          inbound = put peer (record more { alerted = true }) g.inbound;
          stats = record s { inbound_alerts = s.inbound_alerts + 1 };
        },
        false,
      ))

  -- `Budget`
  unfoldable pub budget : ℕ → Governor F → Governor F × Budget
  budget now g =
      let g1 = refill env now g in
      let per = cost_locked env 233 g1 in
      let saturated = g1.have_telemetry && not (env.below g1.chan_util env.silence_threshold) in
      (
        g1,
        record {
          available = g1.tokens;
          per_datagram = per;
          backpressure = saturated || ltb g1.tokens per;
        },
      )

  -- `SetInstances`
  unfoldable pub set_instances : ℕ → ℕ → Governor F → Governor F
  set_instances now n g =
      let g1 = refill env now g in
      let c = g1.cfg in
      let g2 = record g1 { cfg = record c { instances = n } } in
      let capacity = burst env g2 in
      if ltb n 1 then g else record g2 {
        capacity = capacity;
        tokens = if ltb capacity g2.tokens then capacity else g2.tokens;
      }

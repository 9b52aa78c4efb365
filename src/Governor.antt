-- ===== src/Governor.antt =====
-- internal/governor/governor.go: the budget of channel time.
-- A method that mutates `*Governor` returns the new governor, and a lock is one step. Times and
-- durations are nanoseconds. The floating-point numbers are a type `F`, and `Floats` has the arithmetic that
-- the source does with them: the airtime of a packet, its cost, and what accrues. The penalty is one of
-- 1, 2, 4, 8, 16 and 32, which floating point holds exactly, so that it is a number here.
pub mod Bucket
pub mod Calls
pub mod Run
pub mod Check
pub mod Outcome
pub mod Rate
pub mod LastHour
pub mod Duty
pub mod WellFormed
pub mod Reachable
pub mod Tests
use meshbbs.Common.{
  ℕ, ◌+◌, ◌*◌, Bool, true, false, Option, none, some, List, [], ◌∷◌, if◌then◌else◌, ltb, leb,
  bytes_eq,
}
use meshbbs.Common.Map.{find}
use meshbbs.Identity.{NodeId}
use meshbbs.Gossip.{AreaTag}
use meshbbs.Bsmp.Outbox.{Class}

-- `time.Hour`
abbrev pub hour : ℕ
hour = 3600000000000

-- `Window`, in nanoseconds since midnight.
pub record Window : Type 0 where
  pub opens : ℕ  -- `Start`
  pub closes : ℕ  -- `End`

-- `Contains`, for the nanoseconds since midnight.
unfoldable pub contains : Window → ℕ → Bool
contains w since =
    if leb w.opens w.closes
    then (if leb w.opens since then ltb since w.closes else false)
    else (if leb w.opens since then true else ltb since w.closes)

-- `Config`, less the preset and the clock, after the defaults of `New`.
pub record Config (F : Type 0) : Type 0 where
  pub region : List ℕ
  pub ceiling_percent : F
  pub instances : ℕ
  pub flood_multiplier : F
  pub flood_override : Bool
  pub quiet_hours : List Window
  pub burst_limit : ℕ  -- `Burst`
  pub inbound_quota : ℕ
  pub configured_shares : List (AreaTag × F)  -- `AreaShares`

-- `areaBucket`
pub record AreaBucket (F : Type 0) : Type 0 where
  pub share : F
  pub tokens : ℕ
  pub capacity : ℕ
  pub last : ℕ

-- `txRecord`
pub record TxRecord : Type 0 where
  pub sent_at : ℕ  -- `at`
  pub air : ℕ

-- `inboundRec`
pub record InboundRec : Type 0 where
  pub window_start : ℕ
  pub bytes : ℕ
  pub alerted : Bool

pub record Stats : Type 0 where
  pub allowed : ℕ
  pub refused_budget : ℕ
  pub refused_quiet : ℕ
  pub refused_duty : ℕ
  pub refused_busy : ℕ
  pub refused_area : ℕ
  pub inbound_alerts : ℕ
  pub charged_channel : ℕ

-- `Governor`
pub record Governor (F : Type 0) : Type 0 where
  pub cfg : Config F
  pub tokens : ℕ
  pub capacity : ℕ
  pub last : ℕ
  pub penalty : ℕ
  pub chan_util : F
  pub air_util_tx : F
  pub have_telemetry : Bool
  pub local_tx : List TxRecord
  pub inbound : List (NodeId × InboundRec)
  pub sent_packets : ℕ
  pub echoes : ℕ
  pub multiplier : F  -- `r`
  pub area_shares : List (AreaTag × F)
  pub area_buckets : List (AreaTag × AreaBucket F)
  pub stats : Stats

-- `errQuiet`, `errBusy`, `errDuty` and `errBudget`
pub data Refusal : Type 0 where
  quiet_hour channel_busy duty_cycle over_budget : Refusal

-- `Charge`, with an area that may be the zero tag.
pub record Charge : Type 0 where
  pub class : Class
  pub area : AreaTag

-- The floating-point arithmetic, the airtime of `internal/airtime`, and the time of day.
pub record Floats (F : Type 0) : Type 0 where
  pub zero_f : F
  pub one_f : F
  pub default_ceiling : F
  pub max_ceiling : F
  pub default_flood : F
  pub backoff_threshold : F
  pub silence_threshold : F
  pub below : F → F → Bool  -- `<`
  pub same : F → F → Bool  -- `==`
  pub packet : ℕ → ℕ  -- `Preset.Packet`
  pub cost_of : F → ℕ → ℕ  -- `float64(air) * g.r`
  pub hourly : F → ℕ → ℕ  -- `g.shareFraction() * float64(time.Hour)`, of the ceiling and the instances
  pub accrued : F → ℕ → ℕ → ℕ → ℕ  -- `float64(elapsed) * rate`, of the penalty and the time besides
  pub area_accrued : F → F → ℕ → ℕ → ℕ → ℕ  -- the same times a share
  pub area_capacity : F → ℕ → ℕ  -- `share * float64(g.capacity)`
  pub reserved : Class → ℕ → ℕ  -- `reserve[class] * float64(g.capacity)`
  pub observed : ℕ → ℕ → F  -- `1 + float64(g.echoes)/float64(g.sentPackets)`
  pub since_midnight : ℕ → ℕ

-- `dutyCycleLimit`, times an hour: EU_433, EU_868, UA_433 and UA_868.
abbrev pub duty_cycle_limit : List (List ℕ × ℕ)
duty_cycle_limit =
    (69 ∷ 85 ∷ 95 ∷ 52 ∷ 51 ∷ 51 ∷ [], 360000000000)
    ∷ (69 ∷ 85 ∷ 95 ∷ 56 ∷ 54 ∷ 56 ∷ [], 360000000000)
    ∷ (85 ∷ 65 ∷ 95 ∷ 52 ∷ 51 ∷ 51 ∷ [], 360000000000)
    ∷ (85 ∷ 65 ∷ 95 ∷ 56 ∷ 54 ∷ 56 ∷ [], 360000000000)
    ∷ []

-- ===== src/Gossip/Schedule.antt =====
-- internal/gossip/schedule.go: when a standalone digest is due.
-- `Interval` and the jitter are floating-point arithmetic: `jittered` is the interval in nanoseconds
-- for a number of peers and a size, with what is left of the random source.
use meshbbs.Common.{ℕ, ◌+◌, Bool, true, false, if◌then◌else◌, ltb, nat_beq, max}

pub record Scheduler : Type 0 where
  pub last : ℕ
  pub due : ℕ
  pub heard_matching : Bool
  pub suppressed : ℕ
  pub sent_count : ℕ  -- `sent`

-- `time.Second`
abbrev pub second : ℕ
second = 1000000000

module _ {G : Type 0} (jittered : ℕ → ℕ → G → ℕ × G) where
  -- `reschedule`. Sizes are lengths, so that `sizeBytes <= 0` is a test for zero.
  unfoldable pub reschedule : ℕ → ℕ → ℕ → G → Scheduler → Scheduler × G
  reschedule peers size now rnd s =
      let bytes = if nat_beq size 0 then 103 else size in
      let (interval, rnd') = jittered peers bytes rnd in
      (record s { due = now + max second interval }, rnd')

  -- `NewScheduler`
  unfoldable pub new_scheduler : ℕ → ℕ → G → Scheduler × G
  new_scheduler peers now rnd =
      let s : Scheduler = record {
        last = now;
        due = 0;
        heard_matching = false;
        suppressed = 0;
        sent_count = 0;
      } in
      reschedule peers 0 now rnd s

  -- `NoteTransmitted`
  unfoldable pub note_transmitted : ℕ → ℕ → ℕ → G → Scheduler → Scheduler × G
  note_transmitted peers size now rnd s =
      reschedule peers size now rnd (record s { last = now; heard_matching = false })

  -- `MarkSent`
  unfoldable pub mark_sent : ℕ → ℕ → ℕ → G → Scheduler → Scheduler × G
  mark_sent peers size now rnd s =
      note_transmitted peers size now rnd (record s { sent_count = s.sent_count + 1 })

  -- `Due`
  unfoldable pub due_now : ℕ → ℕ → G → Scheduler → Bool × Scheduler × G
  due_now peers now rnd s =
      let quiet : Scheduler = record s { suppressed = s.suppressed + 1; heard_matching = false } in
      let (later, rnd') = reschedule peers 0 now rnd quiet in
      if ltb now s.due
      then (false, s, rnd)
      else (if s.heard_matching then (false, later, rnd') else (true, s, rnd))

-- `NoteHeard`
unfoldable pub note_heard : Bool → Scheduler → Scheduler
note_heard matches s = if matches then record s { heard_matching = true } else s

-- ===== src/Gossip/Engine.antt =====
-- internal/gossip/engine.go: the state of the gossip engine, and the handlers' common parts.
-- A method that mutates `*Engine` returns the new engine, with an error where the source returns one.
-- The store, the random source, the records and the loss rate, a floating-point number, are types of
-- the environment, and `Env` has the operations on them that the source calls. The outbox answers from
-- the calls it has seen, which the engine's `calls` lists, newest first. Time is in nanoseconds.
pub mod Parts
pub mod Handlers
pub mod Cycle
pub mod Pending
pub mod Firing
pub mod Quiet
pub mod Behind
pub mod Asks
pub mod Asked
pub mod Lacking
pub mod Converge
mod Tests
use meshbbs.Common.{
  ℕ, zero, suc, ◌+◌, ◌-◌, Bool, true, false, ◌&&◌, ◌||◌, not, Option, none, some, List, [], ◌∷◌,
  ◌++◌, length, if◌then◌else◌, ltb, leb, nat_beq, bytes_eq, bytes_beq, ◌==◌, max, min,
}
use meshbbs.Common.Map.{find, put, delete}
use meshbbs.Identity.{NodeId}
use meshbbs.Vv.{Vector, Range}
use meshbbs.Gossip.{AreaTag, Error}
use meshbbs.Gossip.Digest.{AreaState, Digest, new_digest, size}
use meshbbs.Gossip.Schedule.{Scheduler, new_scheduler, note_transmitted}

-- `Config`, less the configuration of the schedule.
pub record Config : Type 0 where
  pub request_delay : ℕ
  pub max_ranges_per_request : ℕ
  pub max_records_per_push : ℕ
  pub peer_timeout : ℕ
  pub dictionary : ℕ

-- `awaitedPush`
pub record AwaitedPush : Type 0 where
  pub want : ℕ
  pub asked : ℕ  -- `at`

-- `peerState`
pub record PeerState : Type 0 where
  pub id : NodeId
  pub last_heard : ℕ
  pub last_digest : List (AreaTag × AreaState)
  pub vectors : List (AreaTag × Vector)
  pub awaiting : List (AreaTag × AwaitedPush)
  pub dictionary : ℕ
  pub dict_known : Bool

-- `pendingAsk`
pub record PendingAsk : Type 0 where
  pub peer : NodeId
  pub area : AreaTag
  pub ready : ℕ  -- `at`
  pub want_hash : List ℕ

-- `Stats`, less the count of the scheduler.
pub record Stats : Type 0 where
  pub digests_sent : ℕ
  pub digests_heard : ℕ
  pub bundles_observed : ℕ
  pub bundles_missed : ℕ
  pub vector_reqs_sent : ℕ
  pub vector_reqs_dropped : ℕ
  pub vectors_sent : ℕ
  pub range_reqs_sent : ℕ
  pub records_pushed : ℕ
  pub records_applied : ℕ
  pub bytes_sent : ℕ

-- A call of the outbox: `SendMessage`, `SendRecords`, or `SetLossRate`.
pub data Call (R F : Type 0) : Type 0 where
  send_message : NodeId → List ℕ → Call R F
  send_records : AreaTag → List R → Call R F
  set_loss_rate : F → Call R F

-- What a handler returns for an error.
pub data Failure : Type 0 where
  malformed : Error → Failure
  refused store_failed : Failure

-- `Engine`, less its fixed parts.
pub record Engine (S R G F : Type 0) : Type 0 where
  pub store : S
  pub calls : List (Call R F × Bool)
  pub rnd : G
  pub sched : Scheduler
  pub peers : List (NodeId × PeerState)
  pub pending : List PendingAsk
  pub loss : F
  pub stats : Stats

-- `Store`, `Outbox`, the random source and the arithmetic on loss rates. `accepts` is whether
-- a call returns no error, `can_send` is `Budget().CanSend()`, and `climbed` and `decayed` are the two
-- updates of `noteDelivery` with their limits. `adapts` says that the outbox is a `LossAdapter`.
pub record Env (S R G F : Type 0) : Type 0 where
  pub self : NodeId
  pub cfg : Config
  pub areas : S → List AreaTag
  pub held : S → AreaTag → Vector  -- `Vector`
  pub records : S → AreaTag → Range → List R
  pub apply : S → AreaTag → List R → S × ℕ × Bool
  pub blake3 : List ℕ → List ℕ
  pub accepts : List (Call R F × Bool) → Call R F → ℕ → Bool
  pub can_send : List (Call R F × Bool) → ℕ → Bool
  pub jittered : ℕ → ℕ → G → ℕ × G
  pub delay : G → ℕ × G
  pub adapts : Bool
  pub climbed : F → F
  pub decayed : F → F
  pub same_rate : F → F → Bool

module _ {S R G F : Type 0} (env : Env S R G F) where
  -- A call of the outbox, and whether it returns no error.
  unfoldable pub call : ℕ → Call R F → Engine S R G F → Engine S R G F × Bool
  call now c e =
      let good = env.accepts e.calls c now in (record e { calls = (c, good) ∷ e.calls }, good)

  -- The loop of `PeerCount`.
  unfoldable pub count_heard : ℕ → List (NodeId × PeerState) → ℕ
  count_heard cutoff [] = 0
  count_heard cutoff ((k, p) ∷ m) =
      let rest = count_heard cutoff m in
      if ltb cutoff (p.last_heard + env.cfg.peer_timeout) then rest + 1 else rest

  -- `PeerCount`
  unfoldable pub peer_count : ℕ → Engine S R G F → ℕ
  peer_count now e =
      if nat_beq env.cfg.peer_timeout 0 then length e.peers + 1 else count_heard now e.peers + 1

-- `New`
unfoldable pub new_engine :
    {S R G F : Type 0} (env : Env S R G F) (store : S) (rnd : G) (zero_rate loss_rate : F) (now : ℕ)
    → Engine S R G F
new_engine env store rnd zero_rate loss_rate now =
    let (s, g) = new_scheduler env.jittered 1 now rnd in
    record {
      store = store;
      calls = [];
      rnd = g;
      sched = s;
      peers = [];
      pending = [];
      loss = if env.adapts then loss_rate else zero_rate;
      stats = record {
        digests_sent = 0;
        digests_heard = 0;
        bundles_observed = 0;
        bundles_missed = 0;
        vector_reqs_sent = 0;
        vector_reqs_dropped = 0;
        vectors_sent = 0;
        range_reqs_sent = 0;
        records_pushed = 0;
        records_applied = 0;
        bytes_sent = 0;
      };
    }

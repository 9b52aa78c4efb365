-- ===== src/Gossip/Engine/Cycle.antt =====
-- internal/gossip/engine.go: `Tick`, `Receive`, `Publish` and `ApplyRecords`.
-- `firePending` filters `e.pending` in place: an error leaves the length as it was, and the asks kept
-- so far at the front.
use meshbbs.Common.{
  ℕ, ◌+◌, Bool, false, not, Option, none, some, List, [], ◌∷◌, ◌++◌, length, drop, if◌then◌else◌,
  ltb, nat_beq, bytes_eq, bytes_beq, ◌==◌, ok, err,
}
use meshbbs.Common.Map.{find, put}
use meshbbs.Identity.{NodeId}
use meshbbs.Vv.{hash}
use meshbbs.Bsmp.Outbox.{broadcast}
use meshbbs.Gossip.{AreaTag, peek_type, msg_digest, msg_vector_req, msg_vector}
use meshbbs.Gossip.Digest.{encode_digest}
use meshbbs.Gossip.VectorReq.{encode_vector_req}
use meshbbs.Gossip.Schedule.{mark_sent, due_now}
use meshbbs.Gossip.Engine.{
  PeerState, PendingAsk, send_message, Failure, malformed, refused, store_failed, Engine, Env, call,
  peer_count,
}
use meshbbs.Gossip.Engine.Parts.{current_digest}
use meshbbs.Gossip.Engine.Handlers.{on_digest, on_vector_req, on_vector, on_range_req, push}

-- What becomes of a pending ask.
pub data Fate : Type 0 where
  stays leaves fails : Fate

-- `&peerState{…}`
unfoldable pub fresh_peer : NodeId → PeerState
fresh_peer from = record {
  id = from;
  last_heard = 0;
  last_digest = [];
  vectors = [];
  awaiting = [];
  dictionary = 0;
  dict_known = false;
}

module _ {S R G F : Type 0} (env : Env S R G F) where
  -- A round of the loop of `firePending`.
  unfoldable pub fire_one : ℕ → PendingAsk → Engine S R G F → Engine S R G F × Fate
  fire_one now ask e =
      let payload = encode_vector_req (record { areas = ask.area ∷ [] }) in
      let (e1, good) = call env now (send_message ask.peer payload) e in
      let s = e.stats in
      let dropped = record s { vector_reqs_dropped = s.vector_reqs_dropped + 1 } in
      let sent = record s {
        vector_reqs_sent = s.vector_reqs_sent + 1;
        bytes_sent = s.bytes_sent + length payload;
      } in
      if ltb now ask.ready
      then (e, stays)
      else (if bytes_beq (hash env.blake3 (env.held e.store ask.area)) ask.want_hash
          then (record e { stats = dropped }, leaves)
          else (if not (env.can_send e.calls now)
              then (e, stays)
              else (if good then (record e1 { stats = sent }, leaves) else (e1, fails))))

  -- The loop of `firePending`, with `keep`.
  unfoldable pub fire_loop :
      ℕ
      → List PendingAsk
      → List PendingAsk
      → Engine S R G F
      → Engine S R G F × List PendingAsk × Option Failure
  fire_loop now [] keep e = (e, keep, none)
  fire_loop now (ask ∷ asks) keep e =
      let (e1, fate) = fire_one now ask e in
      elim fate [
        | stays ↦ fire_loop now asks (keep ++ (ask ∷ [])) e1
        | leaves ↦ fire_loop now asks keep e1
        | fails ↦ (e1, keep, some refused)
      ]

  -- `firePending`
  unfoldable pub fire_pending : ℕ → Engine S R G F → Engine S R G F × Option Failure
  fire_pending now e =
      let (e1, keep, failure) = fire_loop now e.pending [] e in
      elim failure [
        | none ↦ (record e1 { pending = keep }, none)
        | some f ↦ (record e1 { pending = keep ++ drop (length keep) e.pending }, some f)
      ]

  -- The part of `Tick` from `Digest` on.
  unfoldable pub beat : ℕ → Engine S R G F → Engine S R G F × Option Failure
  beat now e =
      let payload = (encode_digest (current_digest env e)).1 in
      let (e1, good) = call env now (send_message broadcast payload) e in
      let s = e1.stats in
      let sent = record s {
        digests_sent = s.digests_sent + 1;
        bytes_sent = s.bytes_sent + length payload;
      } in
      let (idle, g0) = mark_sent env.jittered (peer_count env now e) 0 now e.rnd e.sched in
      let (next, g1) =
        mark_sent env.jittered (peer_count env now e1) (length payload) now e1.rnd e1.sched in
      if nat_beq (length (current_digest env e).areas) 0
      then (record e { sched = idle; rnd = g0 }, none)
      else (if not (env.can_send e.calls now)
          then (e, none)
          else (if good
              then (record e1 { stats = sent; sched = next; rnd = g1 }, none)
              else (e1, some refused)))

  -- `Tick`
  unfoldable pub tick : ℕ → Engine S R G F → Engine S R G F × Option Failure
  tick now e =
      let (e1, failure) = fire_pending now e in
      elim failure [
        | some f ↦ (e1, some f)
        | none ↦
            let (due, s, g) = due_now env.jittered (peer_count env now e1) now e1.rnd e1.sched in
            let e2 = record e1 { sched = s; rnd = g } in if due then beat now e2 else (e2, none)
      ]

  -- The switch of `Receive`.
  unfoldable pub dispatch :
      ℕ → ℕ → NodeId → PeerState → List ℕ → Engine S R G F → Engine S R G F × Option Failure
  dispatch msg_type now from p payload e =
      if nat_beq msg_type msg_digest
      then on_digest env now from p payload e
      else (if nat_beq msg_type msg_vector_req
          then on_vector_req env now p payload e
          else (if nat_beq msg_type msg_vector
              then on_vector env now from p payload e
              else on_range_req env now payload e))

  -- `Receive`. `PeekType` lets four types through.
  unfoldable pub receive : ℕ → NodeId → List ℕ → Engine S R G F → Engine S R G F × Option Failure
  receive now from payload e = if from == env.self then (e, none) else elim (peek_type payload) [
    | err x ↦ (e, some (malformed x))
    | ok msg_type ↦
        let known : PeerState = elim (find from e.peers) [ none ↦ fresh_peer from | some p ↦ p ] in
        let p : PeerState = record known { last_heard = now } in
        dispatch msg_type now from p payload (record e { peers = put from p e.peers })
  ]

  -- `Publish`
  unfoldable pub publish : ℕ → AreaTag → List R → Engine S R G F → Engine S R G F × Option Failure
  publish now area recs e =
      let (store, n, good) = env.apply e.store area recs in
      let e1 = record e { store = store } in
      if nat_beq (length recs) 0
      then (e, none)
      else (if good then push env now area recs e1 else (e1, some store_failed))

  -- `ApplyRecords`
  unfoldable pub apply_records : AreaTag → List R → Engine S R G F → Engine S R G F × ℕ × Bool
  apply_records area recs e =
      let (store, n, good) = env.apply e.store area recs in
      let s = e.stats in
      (
        record e { store = store; stats = record s { records_applied = s.records_applied + n } },
        n,
        good,
      )

-- ===== src/Gossip/Engine/Parts.antt =====
-- internal/gossip/engine.go: what the handlers of the engine share.
use meshbbs.Common.{
  ℕ, ◌+◌, Bool, true, false, ◌&&◌, ◌||◌, not, none, some, List, [], ◌∷◌, ◌++◌, if◌then◌else◌, ltb,
  leb, nat_beq, bytes_eq, ◌==◌,
}
use meshbbs.Common.Map.{find, put, delete}
use meshbbs.Identity.{NodeId}
use meshbbs.Vv.{Vector}
use meshbbs.Gossip.{AreaTag}
use meshbbs.Gossip.Digest.{AreaState, Digest, new_digest}
use meshbbs.Gossip.Schedule.{note_transmitted}
use meshbbs.Gossip.Engine.{
  PeerState, AwaitedPush, PendingAsk, set_loss_rate, Engine, Env, call, peer_count,
}

-- The loop of `noteAwaited`.
unfoldable pub await_each : AreaTag → ℕ → ℕ → List (NodeId × PeerState) → List (NodeId × PeerState)
await_each area added now [] = []
await_each area added now ((k, p) ∷ m) = elim (find area p.last_digest) [
  | none ↦ (k, p) ∷ await_each area added now m
  | some last ↦
      let want = if ltb 0xffff (last.total + added) then 0xffff else last.total + added in
      let push : AwaitedPush = record { want = want; asked = now } in
      let rest = await_each area added now m in
      if leb 0xffff last.total
      then (k, p) ∷ rest
      else (k, record p { awaiting = put area push p.awaiting }) ∷ rest
]

-- `federates`, the loop over the areas of the store.
unfoldable pub has_tag : AreaTag → List AreaTag → Bool
has_tag tag [] = false
has_tag tag (a ∷ as') = if a == tag then true else has_tag tag as'

-- The loop of `scheduleAsk`: the ask is queued already.
unfoldable pub is_queued : NodeId → AreaTag → List PendingAsk → Bool
is_queued peer area [] = false
is_queued peer area (a ∷ as') = (a.peer == peer && a.area == area) || is_queued peer area as'

module _ {S R G F : Type 0} (env : Env S R G F) where
  -- The loop of `Digest`.
  unfoldable pub area_vectors : S → List AreaTag → List (AreaTag × Vector) → List (AreaTag × Vector)
  area_vectors store [] m = m
  area_vectors store (a ∷ as') m = area_vectors store as' (put a (env.held store a) m)

  -- `Digest`
  unfoldable pub current_digest : Engine S R G F → Digest
  current_digest e =
      let d = new_digest env.blake3 (area_vectors e.store (env.areas e.store) []) in
      record d { dictionary = env.cfg.dictionary }

  -- The loop of `DictionaryFloor`: the lowest dictionary, and the peer that holds it.
  unfoldable pub floor_loop : ℕ → List (NodeId × PeerState) → ℕ × NodeId → ℕ × NodeId
  floor_loop now [] best = best
  floor_loop now ((k, p) ∷ m) best =
      let silent = not p.dict_known in
      let gone =
        ltb 0 env.cfg.peer_timeout && not (ltb now (p.last_heard + env.cfg.peer_timeout)) in
      floor_loop now m (
        if silent || gone
        then best
        else if ltb p.dictionary best.0
        then (p.dictionary, p.id)
        else best)

  -- `DictionaryFloor`
  unfoldable pub dictionary_floor : ℕ → Engine S R G F → ℕ × NodeId × Bool
  dictionary_floor now e =
      let best = floor_loop now e.peers (env.cfg.dictionary, 0 ∷ 0 ∷ 0 ∷ 0 ∷ 0 ∷ 0 ∷ 0 ∷ 0 ∷ []) in
      (best.0, best.1, ltb best.0 env.cfg.dictionary)

  -- `NotePiggybacked`
  unfoldable pub note_piggybacked : ℕ → ℕ → Engine S R G F → Engine S R G F
  note_piggybacked now bytes e =
      let (s, g) = note_transmitted env.jittered (peer_count env now e) bytes now e.rnd e.sched in
      record e { sched = s; rnd = g }

  -- `noteAwaited`
  unfoldable pub note_awaited : AreaTag → ℕ → ℕ → Engine S R G F → Engine S R G F
  note_awaited area added now e =
      if nat_beq added 0 then e else record e { peers = await_each area added now e.peers }

  -- `noteDelivery`. The answer of `SetLossRate` is of no account.
  unfoldable pub note_delivery : ℕ → Bool → Engine S R G F → Engine S R G F
  note_delivery now landed e =
      let rate = if landed then env.decayed e.loss else env.climbed e.loss in
      let s = e.stats in
      let seen =
        if landed then record s { bundles_observed = s.bundles_observed + 1 } else record s {
          bundles_observed = s.bundles_observed + 1;
          bundles_missed = s.bundles_missed + 1;
        } in
      let e1 = record e { loss = rate; stats = seen } in
      if not (env.same_rate rate e.loss) && env.adapts
      then (call env now (set_loss_rate rate) e1).0
      else e1

  -- `settleAwaited`
  unfoldable pub settle_awaited :
      ℕ → PeerState → AreaState → Engine S R G F → Engine S R G F × PeerState
  settle_awaited now p a e = elim (find a.tag p.awaiting) [
    | none ↦ (e, p)
    | some w ↦
        (note_delivery now (leb w.want a.total) e, record p { awaiting = delete a.tag p.awaiting })
  ]

  -- `federates`
  unfoldable pub federates : Engine S R G F → AreaTag → Bool
  federates e tag = has_tag tag (env.areas e.store)

  -- `scheduleAsk`
  unfoldable pub schedule_ask : ℕ → NodeId → AreaTag → List ℕ → Engine S R G F → Engine S R G F
  schedule_ask now peer area want_hash e =
      let (delay, rnd) = if ltb 0 env.cfg.request_delay then env.delay e.rnd else (0, e.rnd) in
      let ask : PendingAsk = record {
        peer = peer;
        area = area;
        ready = now + delay;
        want_hash = want_hash;
      } in
      if is_queued peer area e.pending
      then e
      else record e { pending = e.pending ++ (ask ∷ []); rnd = rnd }

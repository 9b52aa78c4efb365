-- ===== src/Gossip/Engine/Behind.antt =====
-- A node that is behind queues an ask.
use meshbbs.Common.{
  ℕ, ◌+◌, ◌≡◌, refl, sym, ap, ◌∙◌, Bool, true, not, ◌&&◌, List, [], ◌∷◌, ◌++◌, arith, inl, inr,
  Bool-cases, Option-cases, bytes_eq, bytes_beq_iff, ltb, ok,
}
use mathlib.Core.Path.{subst}
use mathlib.Core.List.{Memᴰ}
use meshbbs.Common.Map.{find}
use meshbbs.Identity.{NodeId}
use meshbbs.Vv.{count}
use meshbbs.Gossip.{AreaTag}
use meshbbs.Gossip.Digest.{AreaState, Digest, saturating_count, decode_digest}
use meshbbs.Gossip.Engine.{PeerState, PendingAsk, Engine, Env}
use meshbbs.Gossip.Engine.Parts.{settle_awaited, federates, is_queued, schedule_ask}
use meshbbs.Gossip.Engine.Handlers.{digest_area, digest_loop, on_digest}
use meshbbs.Gossip.Engine.Pending.{Verdict-cases, is_queued-append, settle_awaited-pending}
use meshbbs.Gossip.Engine.Quiet.{carries, holds_same, settle_awaited-keeps, digest_area-keeps}

queued_last :
    (a : PendingAsk) (as' : List PendingAsk) → is_queued a.peer a.area (as' ++ (a ∷ [])) ≡ true
unfolding is_queued
queued_last a as' = ground (
  arith,
  is_queued-append a.peer a.area as' (a ∷ []),
  bytes_beq_iff a.peer a.peer,
  bytes_beq_iff a.area a.area,
)

queued_before :
    (x : NodeId) (t : AreaTag) (as' bs : List PendingAsk)
    → is_queued x t as' ≡ true
    → is_queued x t (as' ++ bs) ≡ true
queued_before x t as' bs h = ground (arith, is_queued-append x t as' bs)

module _ {S R G F : Type 0} (env : Env S R G F) where
  -- The node carries the area, differs from the digest, and has no more records than it counts.
  unfoldable pub is_behind : S → AreaState → Bool
  is_behind store a =
      carries env store a
      && (not (holds_same env store a)
          && not (ltb a.total (saturating_count (count (env.held store a.tag)))))

  settle_awaited-id :
      (now : ℕ) (p : PeerState) (a : AreaState) (e : Engine S R G F)
      → (settle_awaited env now p a e).1.id ≡ p.id
  unfolding settle_awaited
  settle_awaited-id now p a e = elim (Option-cases (find a.tag p.awaiting)) [
    | inl idle ↦ rw (settle_awaited, idle) refl
    | inr (w, found) ↦ rw (settle_awaited, found) refl
  ]

  schedule_ask-queued :
      (now : ℕ) (peer : NodeId) (area : AreaTag) (want : List ℕ) (e : Engine S R G F)
      → is_queued peer area (schedule_ask env now peer area want e).pending ≡ true
  unfolding schedule_ask is_queued
  schedule_ask-queued now peer area want e = elim (Bool-cases (is_queued peer area e.pending)) [
    | inl queued ↦ rw (schedule_ask, queued) queued
    | inr free ↦ rw (schedule_ask, free) (queued_last _ e.pending)
  ]

  schedule_ask-queues :
      (now : ℕ) (peer x : NodeId) (area t : AreaTag) (want : List ℕ) (e : Engine S R G F)
      → is_queued x t e.pending ≡ true
      → is_queued x t (schedule_ask env now peer area want e).pending ≡ true
  unfolding schedule_ask
  schedule_ask-queues now peer x area t want e h =
      elim (Bool-cases (is_queued peer area e.pending)) [
        | inl queued ↦ rw (schedule_ask, queued) h
        | inr free ↦ rw (schedule_ask, free) (queued_before x t e.pending _ h)
      ]

  digest_area-queues :
      (now : ℕ) (a : AreaState) (e : Engine S R G F) (p : PeerState) (x : NodeId) (t : AreaTag)
      → is_queued x t e.pending ≡ true
      → is_queued x t (digest_area env now a e p).0.pending ≡ true
  unfolding digest_area
  digest_area-queues now a e p x t h =
      let e1 = (settle_awaited env now p a e).0 in
      let h1 = ap (is_queued x t) (settle_awaited-pending env now p a e) ∙ h in
      ground (arith, h1, schedule_ask-queues now p.id x a.tag t a.fingerprint e1)

  digest_area-asks :
      (now : ℕ) (a : AreaState) (e : Engine S R G F) (p : PeerState)
      → is_behind e.store a ≡ true
      → is_queued p.id a.tag (digest_area env now a e p).0.pending ≡ true
  unfolding digest_area is_behind carries holds_same federates
  digest_area-asks now a e p h =
      let e1 = (settle_awaited env now p a e).0 in
      let (same, beats) = settle_awaited-keeps env now p a e in
      ground (arith, same, schedule_ask-queued now p.id a.tag a.fingerprint e1)

  digest_area-id :
      (now : ℕ) (a : AreaState) (e : Engine S R G F) (p : PeerState)
      → (digest_area env now a e p).1.id ≡ p.id
  unfolding digest_area
  digest_area-id now a e p = ground (arith, settle_awaited-id now p a e)

  -- One round, with what the rounds after it do.
  digest_loop_after :
      (now : ℕ) (a : AreaState) (as' : List AreaState) (e : Engine S R G F) (p : PeerState)
      (shared matching : ℕ) (P : Engine S R G F → Type 0)
      → ((s m : ℕ) → let r = digest_area env now a e p in P (digest_loop env now as' r.0 r.1 s m).0)
      → P (digest_loop env now (a ∷ as') e p shared matching).0
  unfolding digest_loop
  digest_loop_after now a as' e p shared matching P h =
      elim (Verdict-cases (digest_area env now a e p).2) [
        | inl other ↦ rw (digest_loop, other) (h shared matching)
        | inr (inl same) ↦ rw (digest_loop, same) (h (shared + 1) (matching + 1))
        | inr (inr apart) ↦ rw (digest_loop, apart) (h (shared + 1) matching)
      ]

  digest_loop-queues :
      (now : ℕ) (as' : List AreaState) (e : Engine S R G F) (p : PeerState) (shared matching : ℕ)
      (x : NodeId) (t : AreaTag)
      → is_queued x t e.pending ≡ true
      → is_queued x t (digest_loop env now as' e p shared matching).0.pending ≡ true
  unfolding digest_loop
  digest_loop-queues now [] e p shared matching x t h = h
  digest_loop-queues now (a ∷ as') e p shared matching x t h =
      digest_loop_after now a as' e p shared matching (λ e'. is_queued x t e'.pending ≡ true)
        (λ s m. digest_loop-queues now as' _ _ s m x t (digest_area-queues now a e p x t h))

  digest_loop-asks :
      (now : ℕ) (as' : List AreaState) (e : Engine S R G F) (p : PeerState) (shared matching : ℕ)
      (a : AreaState)
      → Memᴰ a as'
      → is_behind e.store a ≡ true
      → is_queued p.id a.tag (digest_loop env now as' e p shared matching).0.pending ≡ true
  digest_loop-asks now [] e p shared matching a m h = elim m [ ]
  digest_loop-asks now (b ∷ as') e p shared matching a (Memᴰ.head here) h =
      digest_loop_after now b as' e p shared matching (λ e'. is_queued p.id a.tag e'.pending ≡ true)
        (λ s m. digest_loop-queues now as' _ _ s m p.id a.tag (
          subst (λ c. is_queued p.id c.tag (digest_area env now b e p).0.pending ≡ true) (sym here)
            (digest_area-asks now b e p (subst (λ c. is_behind e.store c ≡ true) here h))))
  digest_loop-asks now (b ∷ as') e p shared matching a (Memᴰ.tail later) h =
      digest_loop_after now b as' e p shared matching (λ e'. is_queued p.id a.tag e'.pending ≡ true)
        (λ s m.
          let r = digest_area env now b e p in
          let behind : is_behind r.0.store a ≡ true =
            subst (λ t. is_behind t a ≡ true) (sym (digest_area-keeps env now b e p).0) h in
          subst (λ i. is_queued i a.tag (digest_loop env now as' r.0 r.1 s m).0.pending ≡ true)
            (digest_area-id now b e p) (digest_loop-asks now as' r.0 r.1 s m a later behind))

  -- After a digest that DecodeDigest accepts, an ask of the peer is queued for each of its areas that the
  -- node carries and differs in, unless the node counts more records there.
  pub on_digest-asks :
      (now : ℕ) (from : NodeId) (p : PeerState) (payload : List ℕ) (d : Digest) (e : Engine S R G F)
      (a : AreaState)
      → decode_digest payload ≡ ok d
      → Memᴰ a d.areas
      → is_behind e.store a ≡ true
      → is_queued p.id a.tag (on_digest env now from p payload e).0.pending ≡ true
  unfolding on_digest
  on_digest-asks now from p payload d e a good m h =
      rw (on_digest, good) (digest_loop-asks now d.areas _ _ 0 0 a m h)

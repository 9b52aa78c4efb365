-- ===== src/Gossip/Engine/Quiet.antt =====
-- What a digest of a peer does: it silences the node's own only if it says the same, and asks are
-- queued for the rest.
use meshbbs.Common.{
  ℕ, ◌+◌, ◌≡◌, ◌≤◌, refl, ◌∙◌, Bool, true, false, not, ◌&&◌, ◌||◌, List, [], ◌∷◌, arith, inl, inr,
  Option-cases, bytes_eq, bytes_beq, if◌then◌else◌, ltb, leb, nat_beq, ok,
}
use mathlib.Core.Path.{subst}
use meshbbs.Common.Map.{find}
use meshbbs.Identity.{NodeId}
use meshbbs.Vv.{len, hash}
use meshbbs.Gossip.{AreaTag}
use meshbbs.Gossip.Digest.{AreaState, Digest, decode_digest}
use meshbbs.Gossip.Schedule.{note_heard}
use meshbbs.Gossip.Engine.{PeerState, Engine, Env, call}
use meshbbs.Gossip.Engine.Parts.{note_delivery, settle_awaited, has_tag, federates, schedule_ask}
use meshbbs.Gossip.Engine.Handlers.{
  Verdict, foreign, agrees, differs, digest_area, digest_loop, on_digest,
}
use meshbbs.Gossip.Engine.Pending.{Verdict-cases}

module _ {S R G F : Type 0} (env : Env S R G F) where
  -- The node carries the area of a digest.
  unfoldable pub carries : S → AreaState → Bool
  carries store a =
      not (nat_beq (len (env.held store a.tag)) 0 && not (has_tag a.tag (env.areas store)))

  -- The node holds in the area what the digest says.
  unfoldable pub holds_same : S → AreaState → Bool
  holds_same store a = bytes_beq (hash env.blake3 (env.held store a.tag)) a.fingerprint

  unfoldable pub shares_any : S → List AreaState → Bool
  shares_any store [] = false
  shares_any store (a ∷ as') = carries store a || shares_any store as'

  unfoldable pub agrees_all : S → List AreaState → Bool
  agrees_all store [] = true
  agrees_all store (a ∷ as') = (not (carries store a) || holds_same store a) && agrees_all store as'

  -- What a verdict is about.
  abbrev Judges : S → AreaState → Verdict → Type 0
  Judges store a v =
      (v ≡ (if carries store a then (if holds_same store a then agrees else differs) else foreign))

  note_delivery-keeps :
      (now : ℕ) (landed : Bool) (e : Engine S R G F)
      → ((note_delivery env now landed e).store ≡ e.store)
        × ((note_delivery env now landed e).sched ≡ e.sched)
  unfolding note_delivery call
  note_delivery-keeps now landed e = ground arith

  pub settle_awaited-keeps :
      (now : ℕ) (p : PeerState) (a : AreaState) (e : Engine S R G F)
      → ((settle_awaited env now p a e).0.store ≡ e.store)
        × ((settle_awaited env now p a e).0.sched ≡ e.sched)
  unfolding settle_awaited
  settle_awaited-keeps now p a e = elim (Option-cases (find a.tag p.awaiting)) [
    | inl idle ↦ rw (settle_awaited, idle) (refl, refl)
    | inr (w, found) ↦ rw (settle_awaited, found) (note_delivery-keeps now (leb w.want a.total) e)
  ]

  schedule_ask-keeps :
      (now : ℕ) (peer : NodeId) (area : AreaTag) (want : List ℕ) (e : Engine S R G F)
      → let e' = schedule_ask env now peer area want e in
        (e'.store ≡ e.store) × (e'.sched ≡ e.sched)
  unfolding schedule_ask
  schedule_ask-keeps now peer area want e = ground arith

  pub digest_area-keeps :
      (now : ℕ) (a : AreaState) (e : Engine S R G F) (p : PeerState)
      → let r = digest_area env now a e p in
        (r.0.store ≡ e.store) × (r.0.sched ≡ e.sched) × Judges e.store a r.2
  unfolding digest_area federates carries holds_same
  digest_area-keeps now a e p =
      let e1 = (settle_awaited env now p a e).0 in
      let (same, beats) = settle_awaited-keeps now p a e in
      ground (arith, same, beats, schedule_ask-keeps now p.id a.tag a.fingerprint e1)

  -- What the loop has counted, and left alone.
  record Counted (as' : List AreaState) (e : Engine S R G F) (shared matching : ℕ)
      (r : Engine S R G F × PeerState × ℕ × ℕ) : Type 0 where
    shared_here : ℕ
    matching_here : ℕ
    shared_all : r.2 ≡ shared + shared_here
    matching_all : r.3 ≡ matching + matching_here
    fewer : matching_here ≤ shared_here
    any : shares_any e.store as' ≡ ltb 0 shared_here
    every : agrees_all e.store as' ≡ nat_beq matching_here shared_here
    sched_same : r.0.sched ≡ e.sched
    store_same : r.0.store ≡ e.store

  count_one :
      (a : AreaState) (as' : List AreaState) (e e1 : Engine S R G F)
      (shared matching shared' matching' x y : ℕ) (r : Engine S R G F × PeerState × ℕ × ℕ)
      → e1.store ≡ e.store
      → e1.sched ≡ e.sched
      → shared' ≡ shared + x
      → matching' ≡ matching + y
      → x ≤ 1
      → y ≤ x
      → carries e.store a ≡ ltb 0 x
      → (not (carries e.store a) || holds_same e.store a) ≡ nat_beq y x
      → Counted as' e1 shared' matching' r
      → Counted (a ∷ as') e shared matching r
  unfolding shares_any agrees_all
  count_one a as' e e1 shared matching shared' matching' x y r store sched hs hm hx hy own good c =
      let any : shares_any e.store as' ≡ ltb 0 c.shared_here =
        subst (λ s. shares_any s as' ≡ ltb 0 c.shared_here) store c.any in
      let every : agrees_all e.store as' ≡ nat_beq c.matching_here c.shared_here =
        subst (λ s. agrees_all s as' ≡ nat_beq c.matching_here c.shared_here) store c.every in
      let fewer = c.fewer in
      record {
        shared_here = x + c.shared_here;
        matching_here = y + c.matching_here;
        shared_all = omega (arith, c.shared_all, hs);
        matching_all = omega (arith, c.matching_all, hm);
        fewer = omega (arith, fewer);
        any = ground (arith, any, own);
        every = ground (arith, every, good);
        sched_same = c.sched_same ∙ sched;
        store_same = c.store_same ∙ store;
      }

  digest_loop-Counted :
      (now : ℕ) (as' : List AreaState) (e : Engine S R G F) (p : PeerState) (shared matching : ℕ)
      → Counted as' e shared matching (digest_loop env now as' e p shared matching)
  unfolding digest_loop shares_any agrees_all
  digest_loop-Counted now [] e p shared matching = record {
    shared_here = 0;
    matching_here = 0;
    shared_all = omega arith;
    matching_all = omega arith;
    fewer = omega arith;
    any = refl;
    every = refl;
    sched_same = refl;
    store_same = refl;
  }
  digest_loop-Counted now (a ∷ as') e p shared matching =
      let one = digest_area env now a e p in
      let (store, sched, judged) = digest_area-keeps now a e p in
      elim (Verdict-cases one.2) [
        | inl other ↦
            rw (digest_loop, other)
              (count_one a as' e one.0 shared matching shared matching 0 0 _ store sched
                (omega arith) (omega arith) (omega arith) (omega arith) (ground arith)
                (ground arith) (digest_loop-Counted now as' one.0 one.1 shared matching))
        | inr (inl same) ↦
            rw (digest_loop, same)
              (count_one a as' e one.0 shared matching (shared + 1) (matching + 1) 1 1 _ store sched
                (omega arith) (omega arith) (omega arith) (omega arith) (ground arith)
                (ground arith)
                (digest_loop-Counted now as' one.0 one.1 (shared + 1) (matching + 1)))
        | inr (inr apart) ↦
            rw (digest_loop, apart)
              (count_one a as' e one.0 shared matching (shared + 1) matching 1 0 _ store sched
                (omega arith) (omega arith) (omega arith) (omega arith) (ground arith)
                (ground arith) (digest_loop-Counted now as' one.0 one.1 (shared + 1) matching))
      ]

  -- After a digest that DecodeDigest accepts, heardMatching is set exactly if it was set before, or the node
  -- and the peer share an area and the node holds the same as the digest says in each area they share.
  pub on_digest-silences :
      (now : ℕ) (from : NodeId) (p : PeerState) (payload : List ℕ) (d : Digest) (e : Engine S R G F)
      → decode_digest payload ≡ ok d
      → (on_digest env now from p payload e).0.sched.heard_matching
        ≡ (e.sched.heard_matching || (shares_any e.store d.areas && agrees_all e.store d.areas))
  unfolding on_digest note_heard
  on_digest-silences now from p payload d e good =
      let s = e.stats in
      let e0 : Engine S R G F = record e {
        stats = record s { digests_heard = s.digests_heard + 1 };
      } in
      let p0 : PeerState = record p { dictionary = d.dictionary; dict_known = true } in
      let c = digest_loop-Counted now d.areas e0 p0 0 0 in
      let r = digest_loop env now d.areas e0 p0 0 0 in
      let fewer = c.fewer in
      rw (on_digest, good)
        (ground (arith, c.shared_all, c.matching_all, c.any, c.every, fewer, c.sched_same))

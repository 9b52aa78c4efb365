-- ===== src/Gossip/Engine/Pending.antt =====
-- The queue of asks: no ask is queued twice, and none is lost.
use meshbbs.Common.{
  ℕ, ◌+◌, ◌≡◌, refl, sym, ◌∙◌, Bool, false, not, ◌&&◌, ◌||◌, Option, none, List, [], ◌∷◌, ◌++◌,
  length, arith, inl, inr, Bool-cases, if_keeps, Option-cases, ◌⊎◌, leb, Result-cases, bytes_eq,
  bytes_beq, bytes_beq_iff, ◌==◌, ltb, nat_beq,
}
use mathlib.Core.Path.{subst}
use meshbbs.Common.Map.{find}
use meshbbs.Identity.{NodeId}
use meshbbs.Vv.{len, hash, count}
use meshbbs.Gossip.{AreaTag, peek_type, msg_digest, msg_vector_req, msg_vector}
use meshbbs.Gossip.Digest.{AreaState, saturating_count, decode_digest}
use meshbbs.Gossip.VectorReq.{decode_vector_req}
use meshbbs.Gossip.RangeReq.{decode_range_req}
use meshbbs.Gossip.Engine.{PeerState, PendingAsk, Failure, Engine, Env, call}
use meshbbs.Gossip.Engine.Parts.{
  note_piggybacked, note_awaited, note_delivery, settle_awaited, federates, is_queued, schedule_ask,
}
use meshbbs.Gossip.Engine.Handlers.{
  Verdict, foreign, agrees, differs, Step, go_on, stop, fail, digest_area, digest_loop, on_digest,
  answer_one, answer_areas, on_vector_req, on_vector, gather, push, on_range_req,
}
use meshbbs.Gossip.Engine.Cycle.{dispatch, receive}

-- No peer and area stand twice.
abbrev pub QueuedOnce : List PendingAsk → Type 0
QueuedOnce [] = Unit {0}
QueuedOnce (a ∷ as') = (is_queued a.peer a.area as' ≡ false) × QueuedOnce as'

pub is_queued-append :
    (p : NodeId) (t : AreaTag) (as' bs : List PendingAsk)
    → is_queued p t (as' ++ bs) ≡ (is_queued p t as' || is_queued p t bs)
unfolding is_queued
is_queued-append p t [] bs = refl
is_queued-append p t (a ∷ as') bs = ground (arith, is_queued-append p t as' bs)

-- An ask that is not queued goes to the end.
enqueue-QueuedOnce :
    (as' : List PendingAsk) (a : PendingAsk)
    → is_queued a.peer a.area as' ≡ false
    → QueuedOnce as'
    → QueuedOnce (as' ++ (a ∷ []))
unfolding is_queued
enqueue-QueuedOnce [] a h q = (refl, tt)
enqueue-QueuedOnce (b ∷ as') a h (q, qs) = (
  ground (
    arith,
    is_queued-append b.peer b.area as' (a ∷ []),
    bytes_beq_iff a.peer b.peer,
    bytes_beq_iff b.peer a.peer,
    bytes_beq_iff a.area b.area,
    bytes_beq_iff b.area a.area,
  ),
  enqueue-QueuedOnce as' a (ground arith) qs,
)

-- An ask in the middle leaves.
pub leave-QueuedOnce :
    (keep : List PendingAsk) (a : PendingAsk) (as' : List PendingAsk)
    → QueuedOnce (keep ++ (a ∷ as'))
    → QueuedOnce (keep ++ as')
unfolding is_queued
leave-QueuedOnce [] a as' (h, hs) = hs
leave-QueuedOnce (k ∷ keep) a as' (h, hs) = (
  ground (
    arith,
    is_queued-append k.peer k.area keep (a ∷ as'),
    is_queued-append k.peer k.area keep as',
  ),
  leave-QueuedOnce keep a as' hs,
)

Step-cases : (s : Step) → (s ≡ go_on) ⊎ (s ≡ stop) ⊎ (s ≡ fail)
Step-cases go_on = inl refl
Step-cases stop = inr (inl refl)
Step-cases fail = inr (inr refl)

pub Verdict-cases : (v : Verdict) → (v ≡ foreign) ⊎ (v ≡ agrees) ⊎ (v ≡ differs)
Verdict-cases foreign = inl refl
Verdict-cases agrees = inr (inl refl)
Verdict-cases differs = inr (inr refl)

module _ {S R G F : Type 0} (env : Env S R G F) where
  note_delivery-pending :
      (now : ℕ) (landed : Bool) (e : Engine S R G F)
      → (note_delivery env now landed e).pending ≡ e.pending
  unfolding note_delivery call
  note_delivery-pending now landed e = ground arith

  pub settle_awaited-pending :
      (now : ℕ) (p : PeerState) (a : AreaState) (e : Engine S R G F)
      → (settle_awaited env now p a e).0.pending ≡ e.pending
  unfolding settle_awaited
  settle_awaited-pending now p a e = elim (Option-cases (find a.tag p.awaiting)) [
    | inl idle ↦ rw (settle_awaited, idle) refl
    | inr (w, found) ↦ rw (settle_awaited, found) (note_delivery-pending now (leb w.want a.total) e)
  ]

  schedule_ask-QueuedOnce :
      (now : ℕ) (peer : NodeId) (area : AreaTag) (want : List ℕ) (e : Engine S R G F)
      → QueuedOnce e.pending
      → QueuedOnce (schedule_ask env now peer area want e).pending
  unfolding schedule_ask
  schedule_ask-QueuedOnce now peer area want e q =
      elim (Bool-cases (is_queued peer area e.pending)) [
        | inl queued ↦ rw queued q
        | inr free ↦ rw free (enqueue-QueuedOnce e.pending _ free q)
      ]

  push-pending :
      (now : ℕ) (area : AreaTag) (recs : List R) (e : Engine S R G F)
      → (push env now area recs e).0.pending ≡ e.pending
  unfolding push call note_awaited note_piggybacked
  push-pending now area recs e = ground arith

  answer_one-pending :
      (now : ℕ) (peer : NodeId) (t : AreaTag) (e : Engine S R G F)
      → (answer_one env now peer t e).0.pending ≡ e.pending
  unfolding answer_one call
  answer_one-pending now peer t e = ground arith

  answer_areas-pending :
      (now : ℕ) (peer : NodeId) (ts : List AreaTag) (e : Engine S R G F)
      → (answer_areas env now peer ts e).0.pending ≡ e.pending
  unfolding answer_areas
  answer_areas-pending now peer [] e = refl
  answer_areas-pending now peer (t ∷ ts) e =
      let one = answer_one-pending now peer t e in
      elim (Step-cases (answer_one env now peer t e).1) [
        | inl on ↦
            rw (answer_areas, on)
              (answer_areas-pending now peer ts (answer_one env now peer t e).0 ∙ one)
        | inr (inl halt) ↦ rw (answer_areas, halt) one
        | inr (inr bad) ↦ rw (answer_areas, bad) one
      ]

  digest_area-QueuedOnce :
      (now : ℕ) (a : AreaState) (e : Engine S R G F) (p : PeerState)
      → QueuedOnce e.pending
      → QueuedOnce (digest_area env now a e p).0.pending
  unfolding digest_area
  digest_area-QueuedOnce now a e p q =
      let e1 = (settle_awaited env now p a e).0 in
      let q1 : QueuedOnce e1.pending =
        subst QueuedOnce (sym (settle_awaited-pending now p a e)) q in
      let mine = env.held e1.store a.tag in
      elim (Bool-cases (nat_beq (len mine) 0 && not (federates env e1 a.tag))) [
        | inl other ↦ rw (digest_area, other) q1
        | inr ours ↦ elim (Bool-cases (bytes_beq (hash env.blake3 mine) a.fingerprint)) [
          | inl same ↦ rw (digest_area, ours, same) q1
          | inr apart ↦ elim (Bool-cases (ltb a.total (saturating_count (count mine)))) [
            | inl ahead ↦ rw (digest_area, ours, apart, ahead) q1
            | inr behind ↦
                rw (digest_area, ours, apart, behind)
                  (schedule_ask-QueuedOnce now p.id a.tag a.fingerprint e1 q1)
          ]
        ]
      ]

  digest_loop-QueuedOnce :
      (now : ℕ) (as' : List AreaState) (e : Engine S R G F) (p : PeerState) (shared matching : ℕ)
      → QueuedOnce e.pending
      → QueuedOnce (digest_loop env now as' e p shared matching).0.pending
  unfolding digest_loop
  digest_loop-QueuedOnce now [] e p shared matching q = q
  digest_loop-QueuedOnce now (a ∷ as') e p shared matching q =
      let r = digest_area env now a e p in
      let q1 = digest_area-QueuedOnce now a e p q in
      elim (Verdict-cases r.2) [
        | inl other ↦
            rw (digest_loop, other) (digest_loop-QueuedOnce now as' r.0 r.1 shared matching q1)
        | inr (inl same) ↦
            rw (digest_loop, same)
              (digest_loop-QueuedOnce now as' r.0 r.1 (shared + 1) (matching + 1) q1)
        | inr (inr apart) ↦
            rw (digest_loop, apart)
              (digest_loop-QueuedOnce now as' r.0 r.1 (shared + 1) matching q1)
      ]

  on_digest-QueuedOnce :
      (now : ℕ) (from : NodeId) (p : PeerState) (payload : List ℕ) (e : Engine S R G F)
      → QueuedOnce e.pending
      → QueuedOnce (on_digest env now from p payload e).0.pending
  unfolding on_digest
  on_digest-QueuedOnce now from p payload e q = elim (Result-cases (decode_digest payload)) [
    | inl (d, good) ↦ rw (on_digest, good) (digest_loop-QueuedOnce now d.areas _ _ 0 0 q)
    | inr (x, bad) ↦ rw (on_digest, bad) q
  ]

  on_vector_req-pending :
      (now : ℕ) (p : PeerState) (payload : List ℕ) (e : Engine S R G F)
      → (on_vector_req env now p payload e).0.pending ≡ e.pending
  unfolding on_vector_req
  on_vector_req-pending now p payload e = elim (Result-cases (decode_vector_req payload)) [
    | inl (req, good) ↦ rw (on_vector_req, good) (answer_areas-pending now p.id req.areas e)
    | inr (x, bad) ↦ rw (on_vector_req, bad) refl
  ]

  on_vector-pending :
      (now : ℕ) (from : NodeId) (p : PeerState) (payload : List ℕ) (e : Engine S R G F)
      → (on_vector env now from p payload e).0.pending ≡ e.pending
  unfolding on_vector call
  on_vector-pending now from p payload e = ground arith

  on_range_req-pending :
      (now : ℕ) (payload : List ℕ) (e : Engine S R G F)
      → (on_range_req env now payload e).0.pending ≡ e.pending
  unfolding on_range_req
  on_range_req-pending now payload e = elim (Result-cases (decode_range_req payload)) [
    | inl (req, good) ↦
        let P : Engine S R G F × Option Failure → Type 0 = λ r. r.0.pending ≡ e.pending in
        let recs = gather env e.store req.area req.ranges [] in
        rw (on_range_req, good)
          (if_keeps P (not (federates env e req.area) || nat_beq (length recs) 0) (e, none)
            (push env now req.area recs e) refl (push-pending now req.area recs e))
    | inr (x, bad) ↦ rw (on_range_req, bad) refl
  ]

  dispatch-QueuedOnce :
      (msg_type now : ℕ) (from : NodeId) (p : PeerState) (payload : List ℕ) (e : Engine S R G F)
      → QueuedOnce e.pending
      → QueuedOnce (dispatch env msg_type now from p payload e).0.pending
  unfolding dispatch
  dispatch-QueuedOnce msg_type now from p payload e q =
      let P : Engine S R G F × Option Failure → Type 0 = λ r. QueuedOnce r.0.pending in
      if_keeps P (nat_beq msg_type msg_digest) (on_digest env now from p payload e) _
        (on_digest-QueuedOnce now from p payload e q)
        (if_keeps P (nat_beq msg_type msg_vector_req) (on_vector_req env now p payload e) _
          (subst QueuedOnce (sym (on_vector_req-pending now p payload e)) q)
          (if_keeps P (nat_beq msg_type msg_vector) (on_vector env now from p payload e)
            (on_range_req env now payload e)
            (subst QueuedOnce (sym (on_vector-pending now from p payload e)) q)
            (subst QueuedOnce (sym (on_range_req-pending now payload e)) q)))

  -- If no peer and area stand twice in the queue of asks, none does after Receive, whatever the message and
  -- the outcome.
  pub receive-QueuedOnce :
      (now : ℕ) (from : NodeId) (payload : List ℕ) (e : Engine S R G F)
      → QueuedOnce e.pending
      → QueuedOnce (receive env now from payload e).0.pending
  unfolding receive
  receive-QueuedOnce now from payload e q = elim (Bool-cases (from == env.self)) [
    | inl mine ↦ rw (receive, mine) q
    | inr other ↦ elim (Result-cases (peek_type payload)) [
      | inl (t, good) ↦ rw (receive, other, good) (dispatch-QueuedOnce t now from _ payload _ q)
      | inr (x, bad) ↦ rw (receive, other, bad) q
    ]
  ]

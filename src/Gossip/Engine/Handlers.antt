-- ===== src/Gossip/Engine/Handlers.antt =====
-- internal/gossip/engine.go: the handlers of the messages, and `Receive`.
use meshbbs.Common.{
  ℕ, ◌+◌, ◌-◌, Bool, true, ◌&&◌, ◌||◌, not, Option, none, some, List, [], ◌∷◌, ◌++◌, length, take,
  if◌then◌else◌, ltb, leb, nat_beq, bytes_eq, bytes_beq, ok, err,
}
use meshbbs.Common.Map.{put}
use meshbbs.Common.Sort.{sort_by}
use meshbbs.Identity.{NodeId}
use meshbbs.Vv.{Vector, Range, len, count, hash, missing}
use meshbbs.Gossip.{AreaTag, max_control_message}
use meshbbs.Gossip.Digest.{AreaState, saturating_count, decode_digest, size}
use meshbbs.Gossip.VectorReq.{decode_vector_req, encode_vector_msg, decode_vector_msg}
use meshbbs.Gossip.RangeReq.{encode_range_req, decode_range_req, fit_ranges}
use meshbbs.Gossip.Schedule.{note_heard}
use meshbbs.Gossip.Engine.{
  PeerState, send_message, send_records, Failure, malformed, refused, Engine, Env, call,
}
use meshbbs.Gossip.Engine.Parts.{
  current_digest, note_piggybacked, note_awaited, settle_awaited, federates, schedule_ask,
}

-- What an area of a peer's digest says: it is not carried here, or it agrees, or it differs.
pub data Verdict : Type 0 where
  foreign agrees differs : Verdict

-- How a round of a loop ends.
pub data Step : Type 0 where
  go_on stop fail : Step

-- The order in which `onVector` asks.
abbrev pub from_before : Range → Range → Bool
from_before a b = ltb a.from b.from

module _ {S R G F : Type 0} (env : Env S R G F) where
  -- A round of the loop of `onDigest`.
  unfoldable pub digest_area :
      ℕ → AreaState → Engine S R G F → PeerState → Engine S R G F × PeerState × Verdict
  digest_area now a e p =
      let (e1, p1) = settle_awaited env now p a e in
      let p2 : PeerState = record p1 { last_digest = put a.tag a p1.last_digest } in
      let mine = env.held e1.store a.tag in
      if nat_beq (len mine) 0 && not (federates env e1 a.tag)
      then (e1, p2, foreign)
      else (if bytes_beq (hash env.blake3 mine) a.fingerprint
          then (e1, p2, agrees)
          else (if ltb a.total (saturating_count (count mine))
              then (e1, p2, differs)
              else (schedule_ask env now p.id a.tag a.fingerprint e1, p2, differs)))

  -- The loop of `onDigest`, with the counts of shared and of matching areas.
  unfoldable pub digest_loop :
      ℕ → List AreaState → Engine S R G F → PeerState → ℕ → ℕ → Engine S R G F × PeerState × ℕ × ℕ
  digest_loop now [] e p shared matching = (e, p, shared, matching)
  digest_loop now (a ∷ as') e p shared matching =
      let (e1, p1, v) = digest_area now a e p in
      elim v [
        | foreign ↦ digest_loop now as' e1 p1 shared matching
        | agrees ↦ digest_loop now as' e1 p1 (shared + 1) (matching + 1)
        | differs ↦ digest_loop now as' e1 p1 (shared + 1) matching
      ]

  -- `onDigest`
  unfoldable pub on_digest :
      ℕ → NodeId → PeerState → List ℕ → Engine S R G F → Engine S R G F × Option Failure
  on_digest now from p payload e = elim (decode_digest payload) [
    | err x ↦ (e, some (malformed x))
    | ok d ↦
        let s = e.stats in
        let e0 = record e { stats = record s { digests_heard = s.digests_heard + 1 } } in
        let p0 : PeerState = record p { dictionary = d.dictionary; dict_known = true } in
        let (e1, p1, shared, matching) = digest_loop now d.areas e0 p0 0 0 in
        (
          record e1 {
            peers = put from p1 e1.peers;
            sched = note_heard (ltb 0 shared && nat_beq matching shared) e1.sched;
          },
          none,
        )
  ]

  -- A round of the loop of `onVectorReq`.
  unfoldable pub answer_one : ℕ → NodeId → AreaTag → Engine S R G F → Engine S R G F × Step
  answer_one now peer tag e =
      let out = encode_vector_msg (record { area = tag; content = env.held e.store tag }) in
      let (e1, good) = call env now (send_message peer out) e in
      let s = e1.stats in
      let sent = record s {
        vectors_sent = s.vectors_sent + 1;
        bytes_sent = s.bytes_sent + length out;
      } in
      if not (federates env e tag)
      then (e, go_on)
      else (if not (env.can_send e.calls now)
          then (e, stop)
          else (if good then (record e1 { stats = sent }, go_on) else (e1, fail)))

  -- The loop of `onVectorReq`.
  unfoldable pub answer_areas :
      ℕ → NodeId → List AreaTag → Engine S R G F → Engine S R G F × Option Failure
  answer_areas now peer [] e = (e, none)
  answer_areas now peer (t ∷ ts) e =
      let (e1, step) = answer_one now peer t e in
      elim step [
        | go_on ↦ answer_areas now peer ts e1
        | stop ↦ (e1, none)
        | fail ↦ (e1, some refused)
      ]

  -- `onVectorReq`
  unfoldable pub on_vector_req :
      ℕ → PeerState → List ℕ → Engine S R G F → Engine S R G F × Option Failure
  on_vector_req now p payload e = elim (decode_vector_req payload) [
    | err x ↦ (e, some (malformed x))
    | ok req ↦ answer_areas now p.id req.areas e
  ]

  -- The ranges that `onVector` asks for: sorted by their starts and cut to the limits.
  unfoldable pub wanted : AreaTag → Vector → Vector → List Range
  wanted area mine theirs =
      let gaps = sort_by from_before (missing mine (some theirs)) in
      let few =
        if ltb env.cfg.max_ranges_per_request (length gaps)
        then take env.cfg.max_ranges_per_request gaps
        else gaps in
      fit_ranges area few max_control_message

  -- `onVector`
  unfoldable pub on_vector :
      ℕ → NodeId → PeerState → List ℕ → Engine S R G F → Engine S R G F × Option Failure
  on_vector now from p payload e = elim (decode_vector_msg payload) [
    | err x ↦ (e, some (malformed x))
    | ok msg ↦
        let p1 : PeerState = record p { vectors = put msg.area msg.content p.vectors } in
        let e1 = record e { peers = put from p1 e.peers } in
        let ranges = wanted msg.area (env.held e.store msg.area) msg.content in
        let out = encode_range_req (record { area = msg.area; ranges = ranges }) in
        let (e2, good) = call env now (send_message p.id out) e1 in
        let s = e2.stats in
        let sent = record s {
          range_reqs_sent = s.range_reqs_sent + 1;
          bytes_sent = s.bytes_sent + length out;
        } in
        if not (federates env e msg.area)
        then (e, none)
        else (if nat_beq (length ranges) 0 || not (env.can_send e1.calls now)
            then (e1, none)
            else (if good then (record e2 { stats = sent }, none) else (e2, some refused)))
  ]

  -- The loop of `onRangeReq`.
  unfoldable pub gather : S → AreaTag → List Range → List R → List R
  gather store area [] out = out
  gather store area (r ∷ rs) out =
      let room = env.cfg.max_records_per_push - length out in
      let rest = gather store area rs (out ++ take room (env.records store area r)) in
      if leb env.cfg.max_records_per_push (length out) then out else rest

  -- How `onRangeReq` and `Publish` end: a broadcast of the records.
  unfoldable pub push : ℕ → AreaTag → List R → Engine S R G F → Engine S R G F × Option Failure
  push now area recs e =
      let (e1, good) = call env now (send_records area recs) e in
      let s = e1.stats in
      let e2 =
        note_awaited env area (length recs) now
          (record e1 { stats = record s { records_pushed = s.records_pushed + length recs } }) in
      if not (env.can_send e.calls now)
      then (e, none)
      else (if good
          then (note_piggybacked env now (size (current_digest env e2)) e2, none)
          else (e1, some refused))

  -- `onRangeReq`
  unfoldable pub on_range_req : ℕ → List ℕ → Engine S R G F → Engine S R G F × Option Failure
  on_range_req now payload e = elim (decode_range_req payload) [
    | err x ↦ (e, some (malformed x))
    | ok req ↦
        let out = gather e.store req.area req.ranges [] in
        if not (federates env e req.area) || nat_beq (length out) 0
        then (e, none)
        else push now req.area out e
  ]

-- ===== src/Meshlink/Attribution.antt =====
-- What a received packet changes: the table of peers and the inbox.
use meshbbs.Common.{
  ℕ, ◌+◌, ◌≡◌, ◌≢◌, ◌<◌, ◌⊎◌, refl, sym, ap, ◌∙◌, Bool, true, false, not, none, some, List, length,
  arith, inl, inr, Bool-cases, if◌then◌else◌, if_keeps, nat_beq, bytes_beq, bytes_beq_iff, bytes_eq,
  nat_eq, Result-cases,
}
use mathlib.Core.Path.{subst}
use meshbbs.Common.Map.{find}
use meshbbs.Bsmp.Inbox.{Datagram}
use meshbbs.Meshlink.{frame_announce, frame_who_is}
use meshbbs.Meshlink.Wire.{
  starts_with, encode_announce, decode_announce, decode_who_is, encode_who_is,
}
use meshbbs.Meshlink.Peers.{id_for, allow}
use meshbbs.Meshlink.Table.{IsConsistent}
use meshbbs.Meshlink.Learn.{learn-outcome}
use meshbbs.Meshlink.Links.{MeshPacket, Link, Setup, broadcast_addr, private_app}
use meshbbs.Meshlink.Transmit.{own_number, send_frame, either, announce}
use meshbbs.Meshlink.Receive.{on_announce, on_who_is, ask_who_is, heard_back}

-- The table, the inbox and the node are the same.
pub record SameTable {F : Type 0} (l l' : Link F) : Type 0 where
  pub same_peers : l'.peers ≡ l.peers
  pub same_inbox : l'.inbox ≡ l.inbox
  pub same_id : l'.own_id ≡ l.own_id

-- The table is consistent and has no binding for the node itself.
pub record IsOthers {F : Type 0} (l : Link F) : Type 0 where
  pub consistent : IsConsistent l.peers
  pub not_self : find l.own_id l.peers.by_id ≡ none

-- A datagram that a link hands up: it came in a packet of another node, on the channel of the link or encrypted
-- for it, from a radio that the table has this node for, and there was room for it.
pub record IsHeard {F : Type 0} (dg : Datagram) (p : MeshPacket) (l : Link F) : Type 0 where
  pub named : id_for p.sender l.peers ≡ some dg.from
  pub carried : p.decoded ≡ some (private_app, dg.bytes)
  pub addressed :
      (p.channel ≡ l.chan_idx) ⊎ ((p.pki_encrypted ≡ true) × (p.to ≡ own_number l.own_radio))
  pub foreign : p.sender ≢ own_number l.own_radio
  pub above_link :
      (starts_with frame_announce dg.bytes ≡ false) × (starts_with frame_who_is dg.bytes ≡ false)
  pub room : length l.inbox < l.inbox_size

module _ {F : Type 0} (setup : Setup F) where
  pub SameTable-refl : (l : Link F) → SameTable l l
  SameTable-refl l = record { same_peers = refl; same_inbox = refl; same_id = refl }

  pub IsOthers-kept :
      (l l' : Link F) → l'.peers ≡ l.peers → l'.own_id ≡ l.own_id → IsOthers l → IsOthers l'
  IsOthers-kept l l' peers id w = record {
    consistent = subst IsConsistent (sym peers) w.consistent;
    not_self =
        ap (λ t. find l'.own_id t.by_id) peers ∙ ap (λ id. find id l.peers.by_id) id ∙ w.not_self;
  }

  -- A transmission, whether it succeeds or not.
  pub either-SameTable :
      (l0 l l1 : Link F) (to : ℕ) (payload : List ℕ) (want_ack : Bool)
      → SameTable l0 l
      → SameTable l0 l1
      → SameTable l0 (either setup l (send_frame setup to payload want_ack l1)).0
  unfolding either send_frame
  either-SameTable l0 l l1 to payload want_ack s s1 = record {
    same_peers = ground (arith, s.same_peers, s1.same_peers);
    same_inbox = ground (arith, s.same_inbox, s1.same_inbox);
    same_id = ground (arith, s.same_id, s1.same_id);
  }

  pub ask_who_is-SameTable :
      (now radio : ℕ) (l : Link F) → SameTable l (ask_who_is setup now radio l)
  unfolding ask_who_is
  ask_who_is-SameTable now radio l =
      let asked : Link F = record l { asks = (allow radio now l.asks).0 } in
      let same : SameTable l asked = record {
        same_peers = refl;
        same_inbox = refl;
        same_id = refl;
      } in
      let tried =
        either-SameTable l asked asked broadcast_addr (encode_who_is radio) false same same in
      let may = (allow radio now l.asks).1 in
      let asked_now =
        (either setup asked
          (send_frame setup broadcast_addr (encode_who_is radio) false asked)).0 in
      let here = SameTable-refl l in
      if_keeps (SameTable l) (not l.connected) l (if not may then l else asked_now) here
        (if_keeps (SameTable l) (not may) l asked_now here tried)

  pub announce-SameTable :
      (now : ℕ) (l0 l : Link F) → SameTable l0 l → SameTable l0 (announce setup now l).0
  unfolding announce
  announce-SameTable now l0 l s =
      let counted : Link F = record l { announces_sent = l.announces_sent + 1 } in
      let payload = encode_announce setup.crypto setup.public_key (own_number l.own_radio) now in
      either-SameTable l0 l counted broadcast_addr payload false s
        record { same_peers = s.same_peers; same_inbox = s.same_inbox; same_id = s.same_id }

  pub on_who_is-SameTable :
      (now : ℕ) (payload : List ℕ) (self : ℕ) (l : Link F)
      → SameTable l (on_who_is setup now payload self l)
  unfolding on_who_is
  on_who_is-SameTable now payload self l =
      let answering : Link F = record l { answers = (allow broadcast_addr now l.answers).0 } in
      let same : SameTable l answering = record {
        same_peers = refl;
        same_inbox = refl;
        same_id = refl;
      } in
      let told = announce-SameTable now l answering same in
      elim (Result-cases (decode_who_is payload)) [
        | inl (target, asked) ↦ elim (Bool-cases (nat_beq target self)) [
          | inl us ↦ elim (Bool-cases (allow broadcast_addr now l.answers).1) [
            | inl may ↦ rw (on_who_is, asked, us, may) told
            | inr too_soon ↦ rw (on_who_is, asked, us, too_soon) (SameTable-refl l)
          ]
          | inr other ↦ rw (on_who_is, asked, other) (SameTable-refl l)
        ]
        | inr (e, malformed) ↦ rw (on_who_is, malformed) (SameTable-refl l)
      ]

  pub heard_back-SameTable : (l : Link F) → SameTable l (heard_back setup l)
  unfolding heard_back
  heard_back-SameTable l = record {
    same_peers = ground arith;
    same_inbox = ground arith;
    same_id = ground arith;
  }

  -- An announcement of another node keeps the table consistent and free of the node itself.
  pub on_announce-IsOthers :
      (now : ℕ) (payload : List ℕ) (from : ℕ) (l : Link F)
      → IsOthers l
      → IsOthers (on_announce setup now payload from l)
  unfolding on_announce id_for
  on_announce-IsOthers now payload from l w =
      elim (Result-cases (decode_announce setup.crypto payload from)) [
        | inl (a, decoded) ↦ elim (Bool-cases (bytes_beq a.id l.own_id)) [
          | inl ours ↦ rw (on_announce, decoded, ours) w
          | inr theirs ↦ elim (learn-outcome a now l.peers w.consistent) [
            | inl (t, learned, after) ↦
                let unlike : l.own_id ≢ a.id =
                  ground (arith, bytes_beq_iff a.id l.own_id, theirs) in
                let unheld : id_for a.radio l.peers ≢ some l.own_id = λ holder.
                  let (b, bound, _) = w.consistent.to_id a.radio l.own_id holder in
                  ground (arith, bound, w.not_self) in
                let free = after.others l.own_id unlike unheld ∙ w.not_self in
                rw (on_announce, decoded, theirs, learned)
                  record { consistent = after.consistent; not_self = free }
            | inr (stale, why) ↦ rw (on_announce, decoded, theirs, stale) w
          ]
        ]
        | inr (e, malformed) ↦ rw (on_announce, malformed) w
      ]

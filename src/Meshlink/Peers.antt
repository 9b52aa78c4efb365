-- ===== src/Meshlink/Peers.antt =====
-- internal/meshlink/peers.go: the table of bindings and the limit of questions.
use meshbbs.Common.{
  ℕ, ◌+◌, Bool, true, false, not, Option, none, some, List, [], if◌then◌else◌, ltb, bytes_beq,
  nat_eq, bytes_eq, Result, ok, err,
}
use meshbbs.Common.Map.{find, put, delete}
use meshbbs.Identity.{NodeId}
use meshbbs.Meshlink.{
  max_clock_skew, Announcement, LinkError, stale_announce, Binding, PeerTable, AskRate,
}

-- `newPeerTable`
unfoldable pub new_peer_table : PeerTable
new_peer_table = record { by_id = []; by_radio = [] }

-- The end of `learn`: whoever announced last owns the radio.
unfoldable pub bind_radio : Announcement → PeerTable → PeerTable
bind_radio a t =
    let by_id : List (NodeId × Binding) = elim (find a.radio t.by_radio) [
      | none ↦ t.by_id
      | some prev ↦ if not (bytes_beq prev a.id) then delete prev t.by_id else t.by_id
    ] in
    record {
      by_id = put a.id (record { radio = a.radio; at = a.at }) by_id;
      by_radio = put a.radio a.id t.by_radio;
    }

-- `learn`
unfoldable pub learn : Announcement → ℕ → PeerTable → Result LinkError PeerTable
learn a now t =
    if ltb (now + max_clock_skew) a.at then err stale_announce else (elim (find a.id t.by_id) [
      | none ↦ ok (bind_radio a t)
      | some old ↦
          if not (ltb old.at a.at)
          then err stale_announce
          else ok (bind_radio a (record t { by_radio = delete old.radio t.by_radio }))
    ])

-- `radioFor`
unfoldable pub radio_for : NodeId → PeerTable → Option ℕ
radio_for id t = elim (find id t.by_id) [ none ↦ none | some b ↦ some b.radio ]

-- `idFor`
unfoldable pub id_for : ℕ → PeerTable → Option NodeId
id_for radio t = find radio t.by_radio

-- `allow`
unfoldable pub allow : ℕ → ℕ → AskRate → AskRate × Bool
allow radio now a =
    let noted = record a { asked = put radio now a.asked } in
    elim (find radio a.asked) [
      | none ↦ (noted, true)
      | some prev ↦ if ltb now (prev + a.every) then (a, false) else (noted, true)
    ]

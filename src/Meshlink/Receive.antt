-- ===== src/Meshlink/Receive.antt =====
-- internal/meshlink/link.go: what a link does with a received packet.
use meshbbs.Common.{
  ℕ, ◌+◌, false, not, ◌&&◌, none, some, List, [], ◌∷◌, ◌++◌, length, if◌then◌else◌, ltb, nat_beq,
  bytes_beq, ok, err,
}
use meshbbs.Identity.{NodeId}
use meshbbs.Governor.Calls.{note_echo, note_inbound}
use meshbbs.Meshlink.{frame_announce, frame_who_is}
use meshbbs.Meshlink.Wire.{starts_with, decode_announce, decode_who_is, encode_who_is}
use meshbbs.Meshlink.Peers.{learn, id_for, allow}
use meshbbs.Meshlink.Links.{MeshPacket, Link, Setup, broadcast_addr, private_app}
use meshbbs.Meshlink.Transmit.{own_number, send_frame, either, announce}

module _ {F : Type 0} (setup : Setup F) where
  -- `onAnnounce`
  unfoldable pub on_announce : ℕ → List ℕ → ℕ → Link F → Link F
  on_announce now payload from l = elim (decode_announce setup.crypto payload from) [
    | err e ↦ l
    | ok a ↦
        if bytes_beq a.id l.own_id
        then l
        else (elim (learn a now l.peers) [ err e ↦ l | ok peers ↦ record l { peers = peers } ])
  ]

  -- `onWhoIs`
  unfoldable pub on_who_is : ℕ → List ℕ → ℕ → Link F → Link F
  on_who_is now payload self l = elim (decode_who_is payload) [
    | err e ↦ l
    | ok target ↦
        if not (nat_beq target self)
        then l
        else (let (answers, may) = allow broadcast_addr now l.answers in
            if not may then l else (announce setup now (record l { answers = answers })).0)
  ]

  -- `askWhoIs`
  unfoldable pub ask_who_is : ℕ → ℕ → Link F → Link F
  ask_who_is now radio l =
      if not l.connected
      then l
      else (let (asks, may) = allow radio now l.asks in
          let asked = record l { asks = asks } in
          if not may
          then l
          else (either setup asked
              (send_frame setup broadcast_addr (encode_who_is radio) false asked)).0)

  -- The end of `deliver`: the datagram goes up, unless the inbox is full.
  unfoldable pub hand_up : NodeId → List ℕ → Link F → Link F
  hand_up from payload l =
      let counted = record l { received = l.received + 1 } in
      if ltb (length l.inbox) l.inbox_size
      then record counted { inbox = l.inbox ++ (record { from = from; bytes = payload } ∷ []) }
      else counted

  -- The quota of the sender, and the end of `deliver`.
  unfoldable pub limited : ℕ → NodeId → List ℕ → Link F → Link F
  limited now from payload l = elim l.governor [
    | none ↦ hand_up from payload l
    | some g ↦
        let (g1, within) = note_inbound setup.env now from (length payload) g in
        let noted = record l { governor = some g1 } in
        if not within then noted else hand_up from payload noted
  ]

  -- The switch of `deliver` on the type of a frame, and what comes after it.
  unfoldable pub by_frame_type : ℕ → List ℕ → ℕ → Link F → Link F
  by_frame_type now payload sender l =
      if starts_with frame_announce payload
      then on_announce now payload sender l
      else (if starts_with frame_who_is payload
          then on_who_is now payload (own_number l.own_radio) l
          else (elim (id_for sender l.peers) [
            | none ↦ ask_who_is now sender (record l { unattributed = l.unattributed + 1 })
            | some from ↦ limited now from payload l
          ]))

  -- A packet of our own.
  unfoldable pub heard_back : Link F → Link F
  heard_back l = elim l.governor [
    | none ↦ l
    | some g ↦ record l { governor = some (note_echo setup.env g) }
  ]

  -- `deliver` of a packet that the radio could decrypt.
  unfoldable pub decoded : ℕ → MeshPacket → ℕ → List ℕ → Link F → Link F
  decoded now p port payload l =
      let self = own_number l.own_radio in
      if not (nat_beq port private_app)
      then l
      else (if not (nat_beq p.channel l.chan_idx) && not (p.pki_encrypted && nat_beq p.to self)
          then record l { wrong_channel = l.wrong_channel + 1 }
          else (if nat_beq p.sender self
              then heard_back l
              else (if nat_beq (length payload) 0
                  then l
                  else by_frame_type now payload p.sender l)))

  -- `deliver`
  unfoldable pub deliver : ℕ → MeshPacket → Link F → Link F
  deliver now p l = elim p.decoded [
    | none ↦ record l { undecryptable = l.undecryptable + 1 }
    | some (port, payload) ↦ decoded now p port payload l
  ]

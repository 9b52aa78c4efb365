-- ===== src/Meshlink/Transmit.antt =====
-- internal/meshlink/link.go: what a link puts on the air.
use meshbbs.Common.{
  ℕ, ◌+◌, Bool, true, false, not, ◌&&◌, ◌||◌, Option, none, some, List, [], ◌∷◌, ◌++◌, length,
  if◌then◌else◌, ltb, nat_beq, Result, ok, err,
}
use meshbbs.Identity.{NodeId, is_zero}
use meshbbs.Bsmp.{frame_control}
use meshbbs.Bsmp.Outbox.{Class, control_class, forum_class}
use meshbbs.Governor.{Governor, Charge}
use meshbbs.Governor.Calls.{allow_charge}
use meshbbs.Meshlink.{
  frame_announce, frame_who_is, LinkError, too_large, empty_payload, reserved_frame, unknown_peer,
  no_budget, not_connected, send_failed,
}
use meshbbs.Meshlink.Wire.{encode_announce, starts_with}
use meshbbs.Meshlink.Peers.{radio_for}
use meshbbs.Meshlink.Links.{Frame, Link, Setup, broadcast_addr, max_payload}

-- `Link.Send` infers the class from the type of the frame.
unfoldable pub class_of : List ℕ → Class
class_of payload = if starts_with frame_control payload then control_class else forum_class

-- The number of the radio, or 0 for none.
unfoldable pub own_number : Option ℕ → ℕ
own_number none = 0
own_number (some n) = n

-- Where a datagram goes.
unfoldable pub destination : {F : Type 0} → NodeId → Link F → Option ℕ
destination to l = if is_zero to then some broadcast_addr else radio_for to l.peers

module _ {F : Type 0} (setup : Setup F) where
  -- `sendFrame`, in a context that is not done.
  unfoldable pub send_frame : ℕ → List ℕ → Bool → Link F → Result LinkError (Link F)
  send_frame to payload want_ack l =
      let frame : Frame = record {
        to = to;
        channel = l.chan_idx;
        payload = payload;
        want_ack = want_ack;
      } in
      if not l.has_conn
      then err not_connected
      else (if setup.takes frame
          then ok (record l { on_air = l.on_air ++ (frame ∷ []) })
          else err send_failed)

  -- The link after a transmission, or as it was: a counter that was raised is taken back.
  unfoldable pub either : Link F → Result LinkError (Link F) → Link F × Option LinkError
  either l (ok l') = (l', none)
  either l (err e) = (l, some e)

  -- `announce`
  unfoldable pub announce : ℕ → Link F → Link F × Option LinkError
  announce now l =
      let payload = encode_announce setup.crypto setup.public_key (own_number l.own_radio) now in
      either l (
        send_frame broadcast_addr payload false
          (record l { announces_sent = l.announces_sent + 1 }))

  -- The end of `SendCharged`, with what the governor has said.
  unfoldable pub transmit : ℕ → List ℕ → Governor F × Bool → Link F → Link F × Option LinkError
  transmit to payload (g, allowed) l =
      let charged = record l { governor = some g } in
      let want_ack = not (nat_beq to broadcast_addr) && starts_with frame_control payload in
      if not allowed
      then (record charged { refused = l.refused + 1 }, some no_budget)
      else either charged (send_frame to payload want_ack (record charged { sent = l.sent + 1 }))

  -- The end of `SendCharged`, from the governor on.
  unfoldable pub governed :
      ℕ → ℕ → List ℕ → Charge → Link F → Option (Governor F) → Link F × Option LinkError
  governed now radio payload ch l o = elim o [
    | none ↦ (l, some no_budget)
    | some g ↦
        if not l.connected
        then (l, some not_connected)
        else transmit radio payload (allow_charge setup.env now (length payload) ch true g) l
  ]

  -- `SendCharged`
  unfoldable pub send_charged : ℕ → NodeId → List ℕ → Charge → Link F → Link F × Option LinkError
  send_charged now to payload ch l =
      if ltb max_payload (length payload)
      then (l, some too_large)
      else (if nat_beq (length payload) 0
          then (l, some empty_payload)
          else (if starts_with frame_announce payload || starts_with frame_who_is payload
              then (l, some reserved_frame)
              else (elim (destination to l) [
                | none ↦ (l, some unknown_peer)
                | some radio ↦ governed now radio payload ch l l.governor
              ])))

  -- `Send`, whose charge has the zero tag for its area.
  unfoldable pub send : ℕ → NodeId → List ℕ → Link F → Link F × Option LinkError
  send now to payload l =
      send_charged now to payload (record { class = class_of payload; area = 0 ∷ 0 ∷ 0 ∷ 0 ∷ [] }) l

-- ===== src/Meshlink/Deliver.antt =====
-- What `deliver` does with any packet.
use meshbbs.Common.{
  ℕ, ◌+◌, ◌≡◌, ◌≢◌, ◌<◌, ◌⊎◌, refl, sym, ap, ◌∙◌, true, not, ◌&&◌, Option, none, some, List, [],
  ◌∷◌, ◌++◌, length, arith, inl, inr, Bool-cases, Option-cases, if◌then◌else◌, if_keeps, if_splits,
  ltb, nat_beq, nat_beq_iff,
}
use mathlib.Core.Path.{subst}
use meshbbs.Identity.{NodeId}
use meshbbs.Bsmp.Inbox.{Datagram}
use meshbbs.Governor.{Governor}
use meshbbs.Governor.Calls.{note_inbound}
use meshbbs.Meshlink.{frame_announce, frame_who_is}
use meshbbs.Meshlink.Wire.{starts_with}
use meshbbs.Meshlink.Peers.{id_for}
use meshbbs.Meshlink.Attribution.{
  SameTable, SameTable-refl, IsOthers, IsHeard, IsOthers-kept, ask_who_is-SameTable,
  on_who_is-SameTable, heard_back-SameTable, on_announce-IsOthers,
}
use meshbbs.Meshlink.Links.{MeshPacket, Link, Setup, private_app}
use meshbbs.Meshlink.Transmit.{own_number}
use meshbbs.Meshlink.Receive.{
  on_announce, on_who_is, ask_who_is, hand_up, limited, by_frame_type, heard_back, decoded, deliver,
}

-- A packet keeps the table right, and hands up nothing or one datagram that the packet carried.
pub record Effect {F : Type 0} (p : MeshPacket) (l l' : Link F) : Type 0 where
  pub keeps : IsOthers l → IsOthers l'
  pub handed :
      (l'.inbox ≡ l.inbox) ⊎ ((dg : Datagram) × (l'.inbox ≡ l.inbox ++ (dg ∷ [])) × IsHeard dg p l)

-- What is known of a packet that gets to the switch.
record IsOurs {F : Type 0} (payload : List ℕ) (p : MeshPacket) (l : Link F) : Type 0 where
  pub carried : p.decoded ≡ some (private_app, payload)
  pub addressed :
      (p.channel ≡ l.chan_idx) ⊎ ((p.pki_encrypted ≡ true) × (p.to ≡ own_number l.own_radio))
  pub foreign : p.sender ≢ own_number l.own_radio

module _ {F : Type 0} (setup : Setup F) where
  quiet-Effect : (p : MeshPacket) (l l' : Link F) → SameTable l l' → Effect p l l'
  quiet-Effect p l l' s = record {
    keeps = IsOthers-kept setup l l' s.same_peers s.same_id;
    handed = inl s.same_inbox;
  }

  hand_up-Effect :
      (from : NodeId) (payload : List ℕ) (p : MeshPacket) (l l1 : Link F)
      → SameTable l l1
      → l1.inbox_size ≡ l.inbox_size
      → (length l.inbox < l.inbox_size → IsHeard (record { from = from; bytes = payload }) p l)
      → Effect p l (hand_up setup from payload l1)
  unfolding hand_up
  hand_up-Effect from payload p l l1 s size heard =
      let dg : Datagram = record { from = from; bytes = payload } in
      let l2 = hand_up setup from payload l1 in
      record {
        keeps = IsOthers-kept setup l l2 (ground (arith, s.same_peers)) (ground (arith, s.same_id));
        handed = elim (Bool-cases (ltb (length l1.inbox) l1.inbox_size)) [
          | inl fits ↦
              let room : length l.inbox < l.inbox_size =
                ground (arith, fits, size, ap (λ b. length b) s.same_inbox) in
              let added : l2.inbox ≡ l1.inbox ++ (dg ∷ []) = rw (hand_up, fits) refl in
              inr (dg, added ∙ ap (λ b. b ++ (dg ∷ [])) s.same_inbox, heard room)
          | inr full ↦
              let same : l2.inbox ≡ l1.inbox = rw (hand_up, full) refl in inl (same ∙ s.same_inbox)
        ];
      }

  -- The datagram goes up, with what the governor has noted, or the governor has noted that it does not.
  limited_cases :
      (now : ℕ) (from : NodeId) (payload : List ℕ) (l : Link F)
      → (limited setup now from payload l ≡ hand_up setup from payload l)
        ⊎ ((g : Governor F) × ((limited setup now from payload l ≡ record l { governor = some g })
              ⊎ (limited setup now from payload l
                  ≡ hand_up setup from payload (record l { governor = some g }))))
  unfolding limited
  limited_cases now from payload l =
      let motive : Option (Governor F) → Type 0 = λ o.
        let r : Link F = elim o [
          | none ↦ hand_up setup from payload l
          | some g ↦
              let (g1, within) = note_inbound setup.env now from (length payload) g in
              let noted = record l { governor = some g1 } in
              if not within then noted else hand_up setup from payload noted
        ] in
        (r ≡ hand_up setup from payload l)
        ⊎ ((g : Governor F) × ((r ≡ record l { governor = some g })
              ⊎ (r ≡ hand_up setup from payload (record l { governor = some g })))) in
      elim l.governor as motive [
        | none ↦ inl refl
        | some g ↦ inr ((note_inbound setup.env now from (length payload) g).0, ground arith)
      ]

  limited-Effect :
      (now : ℕ) (from : NodeId) (payload : List ℕ) (p : MeshPacket) (l : Link F)
      → (length l.inbox < l.inbox_size → IsHeard (record { from = from; bytes = payload }) p l)
      → Effect p l (limited setup now from payload l)
  limited-Effect now from payload p l heard = elim (limited_cases now from payload l) [
    | inl unlimited ↦
        subst (Effect p l) (sym unlimited)
          (hand_up-Effect from payload p l l (SameTable-refl setup l) refl heard)
    | inr (g, outcome) ↦
        let noted : Link F = record l { governor = some g } in
        let same : SameTable l noted = record {
          same_peers = refl;
          same_inbox = refl;
          same_id = refl;
        } in
        elim outcome [
          | inl over ↦ subst (Effect p l) (sym over) (quiet-Effect p l noted same)
          | inr within ↦
              subst (Effect p l) (sym within)
                (hand_up-Effect from payload p l noted same refl heard)
        ]
  ]

  on_announce_inbox :
      (now : ℕ) (payload : List ℕ) (from : ℕ) (l : Link F)
      → (on_announce setup now payload from l).inbox ≡ l.inbox
  unfolding on_announce
  on_announce_inbox now payload from l = ground arith

  by_frame_type-Effect :
      (now : ℕ) (payload : List ℕ) (p : MeshPacket) (l : Link F)
      → IsOurs payload p l
      → Effect p l (by_frame_type setup now payload p.sender l)
  unfolding by_frame_type
  by_frame_type-Effect now payload p l ours =
      elim (Bool-cases (starts_with frame_announce payload)) [
        | inl announces ↦
            rw (by_frame_type, announces)
              record {
                keeps = on_announce-IsOthers setup now payload p.sender l;
                handed = inl (on_announce_inbox now payload p.sender l);
              }
        | inr no_announce ↦ elim (Bool-cases (starts_with frame_who_is payload)) [
          | inl asks ↦
              rw (by_frame_type, no_announce, asks)
                (quiet-Effect p l (on_who_is setup now payload (own_number l.own_radio) l)
                  (on_who_is-SameTable setup now payload (own_number l.own_radio) l))
          | inr no_question ↦ elim (Option-cases (id_for p.sender l.peers)) [
            | inl stranger ↦
                let counted : Link F = record l { unattributed = l.unattributed + 1 } in
                let s = ask_who_is-SameTable setup now p.sender counted in
                rw (by_frame_type, no_announce, no_question, stranger)
                  (quiet-Effect p l (ask_who_is setup now p.sender counted) record {
                    same_peers = s.same_peers;
                    same_inbox = s.same_inbox;
                    same_id = s.same_id;
                  })
            | inr (from, known) ↦
                rw (by_frame_type, no_announce, no_question, known)
                  (limited-Effect now from payload p l (λ room. record {
                    named = known;
                    carried = ours.carried;
                    addressed = ours.addressed;
                    foreign = ours.foreign;
                    above_link = (no_announce, no_question);
                    room = room;
                  }))
          ]
        ]
      ]

  decoded-Effect :
      (now : ℕ) (p : MeshPacket) (port : ℕ) (payload : List ℕ) (l : Link F)
      → p.decoded ≡ some (port, payload)
      → Effect p l (decoded setup now p port payload l)
  unfolding decoded
  decoded-Effect now p port payload l carried =
      let self = own_number l.own_radio in
      let stay = quiet-Effect p l l (SameTable-refl setup l) in
      let wrong : Link F = record l { wrong_channel = l.wrong_channel + 1 } in
      let inner =
        if nat_beq (length payload) 0 then l else by_frame_type setup now payload p.sender l in
      let middle = if nat_beq p.sender self then heard_back setup l else inner in
      let off = not (nat_beq p.channel l.chan_idx) && not (p.pki_encrypted && nat_beq p.to self) in
      if_splits (Effect p l) (not (nat_beq port private_app)) l (if off then wrong else middle)
        (λ other. stay)
        (λ app.
          if_splits (Effect p l) off wrong middle
            (λ elsewhere.
              quiet-Effect p l wrong
                record { same_peers = refl; same_inbox = refl; same_id = refl })
            (λ here.
              if_splits (Effect p l) (nat_beq p.sender self) (heard_back setup l) inner
                (λ ours. quiet-Effect p l (heard_back setup l) (heard_back-SameTable setup l))
                (λ foreign.
                  if_keeps (Effect p l) (nat_beq (length payload) 0) l
                    (by_frame_type setup now payload p.sender l) stay
                    (by_frame_type-Effect now payload p l record {
                      carried =
                          carried
                          ∙ ap (λ n. some (n, payload))
                              ((nat_beq_iff port private_app).0 (ground arith));
                      addressed = ground (arith, here);
                      foreign = ground (arith, foreign);
                    }))))

  -- Whatever the packet is, a received packet keeps the table of peers consistent and free of the node itself, and it hands up nothing
  -- or one datagram. A datagram comes from another radio, on the channel of the link or encrypted for it, it
  -- carries the bytes of the packet, which are no frame of the link itself, and it is said to come from the node that
  -- the table has for that radio.
  pub deliver-Effect : (now : ℕ) (p : MeshPacket) (l : Link F) → Effect p l (deliver setup now p l)
  unfolding deliver decoded
  deliver-Effect now p l = elim (Option-cases p.decoded) [
    | inl opaque ↦
        let counted : Link F = record l { undecryptable = l.undecryptable + 1 } in
        let same : deliver setup now p l ≡ counted = rw (deliver, opaque) refl in
        subst (Effect p l) (sym same)
          (quiet-Effect p l counted record { same_peers = refl; same_inbox = refl; same_id = refl })
    | inr ((port, payload), carried) ↦
        let same : deliver setup now p l ≡ decoded setup now p port payload l =
          rw (deliver, carried) refl in
        subst (Effect p l) (sym same) (decoded-Effect now p port payload l carried)
  ]

-- ===== src/Meshlink/Charged.antt =====
-- What a link puts on the air for the layers above is paid for.
use meshbbs.Common.{
  ℕ, ◌+◌, ◌≡◌, ◌≤◌, ◌<◌, ◌⊎◌, refl, sym, Bool, true, false, not, ◌&&◌, ◌||◌, Option, none, some,
  List, [], ◌∷◌, ◌++◌, length, arith, inl, inr, Bool-cases, Option-cases, if◌then◌else◌, if_splits,
  ltb, nat_beq, Result, ok, err,
}
use mathlib.Core.Path.{subst}
use meshbbs.Identity.{NodeId}
use meshbbs.Bsmp.{frame_control}
use meshbbs.Governor.{Governor, Charge}
use meshbbs.Governor.Bucket.{refill}
use meshbbs.Governor.Check.{IsClear}
use meshbbs.Governor.Outcome.{Pays, allow_charge-outcome}
use meshbbs.Governor.Calls.{allow_charge}
use meshbbs.Meshlink.{
  frame_announce, frame_who_is, LinkError, too_large, empty_payload, reserved_frame, unknown_peer,
  no_budget, not_connected, send_failed,
}
use meshbbs.Meshlink.Wire.{starts_with}
use meshbbs.Meshlink.Links.{Frame, Link, Setup, broadcast_addr, max_payload}
use meshbbs.Meshlink.Transmit.{destination, send_frame, either, transmit, governed, send_charged}

module _ {F : Type 0} (setup : Setup F) where
  -- A datagram is on the air: its size and its type are allowed, it goes where the table says, and the governor
  -- has let it through and is paid for it.
  pub record IsSent (now : ℕ) (to : NodeId) (payload : List ℕ) (ch : Charge) (l l' : Link F)
      : Type 0 where
    pub radio : ℕ
    pub before : Governor F
    pub after : Governor F
    pub sized : (0 < length payload) × (length payload ≤ max_payload)
    pub above_link :
        (starts_with frame_announce payload ≡ false) × (starts_with frame_who_is payload ≡ false)
    pub addressed : destination to l ≡ some radio
    pub governed : l.governor ≡ some before
    pub clear : IsClear setup.env now (length payload) ch.class (refill setup.env now before)
    pub pays : Pays setup.env (length payload) (refill setup.env now before) after
    pub charged : l'.governor ≡ some after
    pub counted : l'.sent ≡ l.sent + 1
    pub transmitted :
        l'.on_air
        ≡ l.on_air
          ++ (record {
            to = radio;
            channel = l.chan_idx;
            payload = payload;
            want_ack = not (nat_beq radio broadcast_addr) && starts_with frame_control payload;
          }
              ∷ [])

  -- Nothing goes on the air or is counted as sent.
  pub record IsUnsent (l l' : Link F) : Type 0 where
    pub silent : l'.on_air ≡ l.on_air
    pub uncounted : l'.sent ≡ l.sent

  -- What each error says of the datagram and the link.
  pub data Cause (now : ℕ) (to : NodeId) (payload : List ℕ) (ch : Charge) (l : Link F)
      : LinkError → Type 0 where
    is_long : max_payload < length payload → Cause now to payload ch l too_large
    is_empty : length payload ≡ 0 → Cause now to payload ch l empty_payload
    is_reserved :
        (starts_with frame_announce payload || starts_with frame_who_is payload) ≡ true
        → Cause now to payload ch l reserved_frame
    is_unknown : destination to l ≡ none → Cause now to payload ch l unknown_peer
    is_ungoverned : l.governor ≡ none → Cause now to payload ch l no_budget
    is_refused :
        (g : Governor F)
        → l.governor ≡ some g
        → (allow_charge setup.env now (length payload) ch true g).1 ≡ false
        → Cause now to payload ch l no_budget
    is_offline : l.connected ≡ false → Cause now to payload ch l not_connected
    is_unplugged : l.has_conn ≡ false → Cause now to payload ch l not_connected
    is_lost :
        (radio : ℕ) (want_ack : Bool)
        → setup.takes
            (record { to = radio; channel = l.chan_idx; payload = payload; want_ack = want_ack })
          ≡ false
        → Cause now to payload ch l send_failed

  -- The two outcomes of a transmission.
  abbrev pub Outcome : ℕ → NodeId → List ℕ → Charge → Link F → Link F × Option LinkError → Type 0
  Outcome now to payload ch l (l', e) =
      ((e ≡ none) × IsSent now to payload ch l l')
      ⊎ ((why : LinkError) × (e ≡ some why) × IsUnsent l l' × Cause now to payload ch l why)

  stays :
      (now : ℕ) (to : NodeId) (payload : List ℕ) (ch : Charge) (l : Link F) (why : LinkError)
      → Cause now to payload ch l why
      → Outcome now to payload ch l (l, some why)
  stays now to payload ch l why cause =
      inr (why, refl, record { silent = refl; uncounted = refl }, cause)

  send_frame_cases :
      (to : ℕ) (payload : List ℕ) (want_ack : Bool) (l : Link F)
      → let frame : Frame = record {
        to = to;
        channel = l.chan_idx;
        payload = payload;
        want_ack = want_ack;
      } in
        (send_frame setup to payload want_ack l
          ≡ ok (record l { on_air = l.on_air ++ (frame ∷ []) }))
        ⊎ (((send_frame setup to payload want_ack l ≡ err not_connected) × (l.has_conn ≡ false))
            ⊎ ((send_frame setup to payload want_ack l ≡ err send_failed)
                × (setup.takes frame ≡ false)))
  unfolding send_frame
  send_frame_cases to payload want_ack l =
      let frame : Frame = record {
        to = to;
        channel = l.chan_idx;
        payload = payload;
        want_ack = want_ack;
      } in
      let done : Result LinkError (Link F) = ok (record l { on_air = l.on_air ++ (frame ∷ []) }) in
      let motive : Result LinkError (Link F) → Type 0 = λ r.
        (r ≡ done)
        ⊎ (((r ≡ err not_connected) × (l.has_conn ≡ false))
            ⊎ ((r ≡ err send_failed) × (setup.takes frame ≡ false))) in
      if_splits motive (not l.has_conn) (err not_connected)
        (if setup.takes frame then done else err send_failed)
        (λ off. inr (inl (refl, ground (arith, off))))
        (λ on.
          if_splits motive (setup.takes frame) done (err send_failed) (λ taken. inl refl)
            (λ lost. inr (inr (refl, lost))))

  -- The end of a transmission for which the governor has been asked.
  transmit-Outcome :
      (now : ℕ) (to : NodeId) (radio : ℕ) (payload : List ℕ) (ch : Charge) (l : Link F)
      (g g' : Governor F)
      → (0 < length payload) × (length payload ≤ max_payload)
      → (starts_with frame_announce payload ≡ false) × (starts_with frame_who_is payload ≡ false)
      → destination to l ≡ some radio
      → l.governor ≡ some g
      → IsClear setup.env now (length payload) ch.class (refill setup.env now g)
      → Pays setup.env (length payload) (refill setup.env now g) g'
      → Outcome now to payload ch l (transmit setup radio payload (g', true) l)
  unfolding transmit either
  transmit-Outcome now to radio payload ch l g g' sized above found governed clear pays =
      let want_ack = not (nat_beq radio broadcast_addr) && starts_with frame_control payload in
      let raised : Link F = record l { governor = some g'; sent = l.sent + 1 } in
      let motive : Result LinkError (Link F) → Type 0 =
        λ r. Outcome now to payload ch l (either setup (record l { governor = some g' }) r) in
      elim (send_frame_cases radio payload want_ack raised) [
        | inl taken ↦ subst motive (sym taken) (
            inl (
              refl,
              record {
                radio = radio;
                before = g;
                after = g';
                sized = sized;
                above_link = above;
                addressed = found;
                governed = governed;
                clear = clear;
                pays = pays;
                charged = refl;
                counted = refl;
                transmitted = refl;
              },
            ))
        | inr (inl (lost, unplugged)) ↦ subst motive (sym lost) (
            inr (
              not_connected,
              refl,
              record { silent = refl; uncounted = refl },
              is_unplugged unplugged,
            ))
        | inr (inr (lost, untaken)) ↦ subst motive (sym lost) (
            inr (
              send_failed,
              refl,
              record { silent = refl; uncounted = refl },
              is_lost radio want_ack untaken,
            ))
      ]

  governed-outcome :
      (now : ℕ) (to : NodeId) (radio : ℕ) (payload : List ℕ) (ch : Charge) (l : Link F)
      (o : Option (Governor F))
      → l.governor ≡ o
      → (0 < length payload) × (length payload ≤ max_payload)
      → (starts_with frame_announce payload ≡ false) × (starts_with frame_who_is payload ≡ false)
      → destination to l ≡ some radio
      → Outcome now to payload ch l (governed setup now radio payload ch l o)
  unfolding governed transmit
  governed-outcome now to radio payload ch l none set sized above found =
      stays now to payload ch l no_budget (is_ungoverned set)
  governed-outcome now to radio payload ch l (some g) set sized above found =
      let r = allow_charge setup.env now (length payload) ch true g in
      let done = Outcome now to payload ch l in
      if_splits done (not l.connected) (l, some not_connected) (transmit setup radio payload r l)
        (λ off. stays now to payload ch l not_connected (is_offline (ground (arith, off))))
        (λ on. elim (allow_charge-outcome setup.env now (length payload) ch true g) [
          | inl (let_out, clear, pays) ↦
              subst (λ b. done (transmit setup radio payload (r.0, b) l)) (sym let_out)
                (transmit-Outcome now to radio payload ch l g r.0 sized above found set clear pays)
          | inr (held, refuses, why) ↦
              subst (λ b. done (transmit setup radio payload (r.0, b) l)) (sym held)
                (inr (
                  no_budget,
                  refl,
                  record { silent = refl; uncounted = refl },
                  is_refused g set held,
                ))
        ])

  -- A datagram that is to be sent is put on the air, once, or there is an error and nothing is put on the air. What is put on
  -- the air is no frame of the link itself, fits into a packet, and goes to everyone or to the radio of its node; no rule of
  -- the governor refused it, and its whole cost is charged. The error says why: the size or the type of the datagram, a node
  -- without a radio, no governor or a refusal of it, no connection, or a connection that does not take the frame.
  pub send_charged-outcome :
      (now : ℕ) (to : NodeId) (payload : List ℕ) (ch : Charge) (l : Link F)
      → Outcome now to payload ch l (send_charged setup now to payload ch l)
  unfolding send_charged governed
  send_charged-outcome now to payload ch l = elim (Bool-cases (ltb max_payload (length payload))) [
    | inl long ↦
        rw (send_charged, long)
          (stays now to payload ch l too_large (is_long (ground (arith, long))))
    | inr fits ↦ elim (Bool-cases (nat_beq (length payload) 0)) [
      | inl empty ↦
          rw (send_charged, fits, empty)
            (stays now to payload ch l empty_payload (is_empty (ground (arith, empty))))
      | inr some_bytes ↦
          elim (Bool-cases
            (starts_with frame_announce payload || starts_with frame_who_is payload)) [
              | inl own ↦
                  rw (send_charged, fits, some_bytes, own)
                    (stays now to payload ch l reserved_frame (is_reserved own))
              | inr above ↦ elim (Option-cases (destination to l)) [
                | inl unknown ↦
                    rw (send_charged, fits, some_bytes, above, unknown)
                      (stays now to payload ch l unknown_peer (is_unknown unknown))
                | inr (radio, found) ↦
                    rw (send_charged, fits, some_bytes, above, found)
                      (governed-outcome now to radio payload ch l l.governor refl
                        (ground (arith, fits, some_bytes)) (ground (arith, above)) found)
              ]
            ]
    ]
  ]

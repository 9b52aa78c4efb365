-- ===== src/Bsmp/Inbox/Delivery.antt =====
-- `Inbox.symbol`: which bundles are handed to the engine, and how often.
use meshbbs.Common.{
  ℕ, ◌+◌, ◌≡◌, ◌≤◌, ◌⊎◌, refl, sym, ap, ◌∙◌, none, some, List, [], ◌∷◌, All, All-map, arith, inl,
  inr, Option-cases,
}
use meshbbs.Common.Map.{find, find-put, IsMap}
use meshbbs.Fountain.Symbol.{Symbol}
use meshbbs.Bsmp.{bundle_id_for}
use meshbbs.Bsmp.Inbox.{Inbox, Datagram, decoder_ttl, reject, expire_done, parse_frame, receive}
use meshbbs.Bsmp.Inbox.Keys.{DecKey, dec_key_eq}
use meshbbs.Bsmp.Inbox.Outcome.{Outcome, receive_new-Outcome}

-- The key of a frame's decoder.
abbrev pub key_of : Datagram → Symbol → DecKey
key_of dg s = record { from = dg.from; bundle_id = s.bundle_id }

-- The Outcome of a whole frame: it is refused or a duplicate, or it goes to its decoder.
receive_cases :
    (blake3 : List ℕ → List ℕ) (now : ℕ) (dg : Datagram) (b : Inbox)
    → (((receive blake3 now dg b).1 ≡ none) × ((receive blake3 now dg b).0.finished ≡ b.finished))
      ⊎ ((orig_len : ℕ) × (s : Symbol) × (parse_frame dg ≡ some (orig_len, s))
          × (find (key_of dg s) b.finished ≡ none)
          × Outcome blake3 (key_of dg s) now (expire_done now b.finished) (receive blake3 now dg b))
unfolding receive reject
receive_cases blake3 now dg b = elim (Option-cases (parse_frame dg)) [
  | inl refused ↦ rw (refused, receive) (inl (refl, refl))
  | inr ((orig_len, s), parsed) ↦
      rw (parsed, receive)
        (elim (Option-cases (find (key_of dg s) b.finished)) [
          | inr (at, known) ↦ rw (known, receive) (inl (refl, refl))
          | inl new_key ↦
              rw (new_key, receive)
                (inr (
                  orig_len,
                  s,
                  refl,
                  new_key,
                  receive_new-Outcome blake3 (key_of dg s) now orig_len s b,
                ))
        ])
]

-- Whatever `symbol` hands over came with a well-formed frame of a bundle that was not finished,
-- hashes to the bundle ID in that frame, and its sender's bundle is finished from then on, with no
-- decoder left.
pub receive_handed :
    (blake3 : List ℕ → List ℕ) (now : ℕ) (dg : Datagram) (b b' : Inbox) (packed : List ℕ)
    → receive blake3 now dg b ≡ (b', some packed)
    → ((orig_len : ℕ) × (s : Symbol) × (parse_frame dg ≡ some (orig_len, s))
        × (find (key_of dg s) b.finished ≡ none)
        × (bundle_id_for blake3 packed ≡ s.bundle_id)
        × (find (key_of dg s) b'.finished ≡ some now)
        × (find (key_of dg s) b'.decoders ≡ none))
receive_handed blake3 now dg b b' packed h =
    let same_box = ap (λ r. r.0) h in
    let same_answer = ap (λ r. r.1) h in
    elim (receive_cases blake3 now dg b) [
      | inl (silent, e) ↦ absurd (ground arith)
      | inr (orig_len, s, parsed, fresh, inl (silent, e)) ↦ absurd (ground arith)
      | inr (orig_len, s, parsed, fresh, inr (p, handed, agrees, finished, gone)) ↦ (
        orig_len,
        s,
        parsed,
        fresh,
        ground arith,
        ground (
          arith,
          ap (λ x. find (key_of dg s) x.finished) same_box,
          ap (find (key_of dg s)) finished,
          find-put (key_of dg s) (key_of dg s) now (expire_done now b.finished),
          dec_key_eq.same_iff (key_of dg s) (key_of dg s),
        ),
        sym (ap (λ x. find (key_of dg s) x.decoders) same_box) ∙ gone,
      )
    ]

find-expire_done :
    (k : DecKey) (t now : ℕ) (m : List (DecKey × ℕ))
    → now ≤ t + decoder_ttl
    → find k m ≡ some t
    → find k (expire_done now m) ≡ some t
unfolding find expire_done
find-expire_done k t now [] young h = absurd (ground arith)
find-expire_done k t now ((j, at) ∷ m) young h =
    ground (arith, find-expire_done k t now m young, dec_key_eq.same_iff j k)

-- The bundles that a sequence of datagrams has handed over: the sender, the ID of the bundle, and
-- the time.
unfoldable pub handed : (List ℕ → List ℕ) → List (ℕ × Datagram) → Inbox → List (DecKey × ℕ)
handed blake3 [] b = []
handed blake3 ((now, dg) ∷ ds) b =
    let (b', packed) = receive blake3 now dg b in
    let rest = handed blake3 ds b' in
    elim packed [
      | none ↦ rest
      | some p ↦ (record { from = dg.from; bundle_id = bundle_id_for blake3 p }, now) ∷ rest
    ]

-- A finished bundle stays finished for decoderTTL, with the time at which it was finished.
still_finished :
    (blake3 : List ℕ → List ℕ) (k : DecKey) (t now : ℕ) (dg : Datagram) (b : Inbox)
    → now ≤ t + decoder_ttl
    → find k b.finished ≡ some t
    → find k (receive blake3 now dg b).0.finished ≡ some t
still_finished blake3 k t now dg b young h = elim (receive_cases blake3 now dg b) [
  | inl (silent, e) ↦ ap (find k) e ∙ h
  | inr (orig_len, s, parsed, fresh, inl (silent, e)) ↦
      ap (find k) e ∙ find-expire_done k t now b.finished young h
  | inr (orig_len, s, parsed, fresh, inr (p, given, agrees, finished, gone)) ↦ ground (
    arith,
    ap (find k) finished,
    find-put (key_of dg s) k now (expire_done now b.finished),
    find-expire_done k t now b.finished young h,
    dec_key_eq.same_iff (key_of dg s) k,
  )
]

handed_once :
    (blake3 : List ℕ → List ℕ) (k : DecKey) (t : ℕ) (ds : List (ℕ × Datagram)) (b : Inbox)
    → All (λ d. d.0 ≤ t + decoder_ttl) ds
    → find k b.finished ≡ some t
    → find k (handed blake3 ds b) ≡ none
unfolding handed find
handed_once blake3 k t [] b young h = refl
handed_once blake3 k t ((now, dg) ∷ ds) b (first, young) h =
    let rest =
      handed_once blake3 k t ds (receive blake3 now dg b).0 young
        (still_finished blake3 k t now dg b first h) in
    elim (Option-cases (receive blake3 now dg b).1) [
      | inl silent ↦ rw (silent, handed) rest
      | inr (p, e) ↦
          let (orig_len, s, parsed, fresh, agrees, finished, gone) =
            receive_handed blake3 now dg b (receive blake3 now dg b).0 p
              (ap (λ x. ((receive blake3 now dg b).0, x)) e) in
          rw (e, handed) (rw agrees (ground (arith, dec_key_eq.same_iff (key_of dg s) k)))
    ]

-- Within decoderTTL, datagrams in whatever order and number hand over each bundle of each sender at
-- most once.
pub handed-IsMap :
    (blake3 : List ℕ → List ℕ) (t : ℕ) (ds : List (ℕ × Datagram)) (b : Inbox)
    → All (λ d. (t ≤ d.0) × (d.0 ≤ t + decoder_ttl)) ds
    → IsMap (handed blake3 ds b)
unfolding handed
handed-IsMap blake3 t [] b h = tt
handed-IsMap blake3 t ((now, dg) ∷ ds) b (first, within) =
    let rest = handed-IsMap blake3 t ds (receive blake3 now dg b).0 within in
    elim (Option-cases (receive blake3 now dg b).1) [
      | inl silent ↦ rw (silent, handed) rest
      | inr (p, e) ↦
          let (orig_len, s, parsed, fresh, agrees, finished, gone) =
            receive_handed blake3 now dg b (receive blake3 now dg b).0 p
              (ap (λ x. ((receive blake3 now dg b).0, x)) e) in
          let young : All (λ d. d.0 ≤ now + decoder_ttl) ds =
            All-map _ _ (λ d w. omega arith) ds within in
          rw (e, handed)
            (rw agrees (
              handed_once blake3 (key_of dg s) now ds (receive blake3 now dg b).0 young finished,
              rest,
            ))
    ]

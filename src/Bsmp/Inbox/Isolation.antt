-- ===== src/Bsmp/Inbox/Isolation.antt =====
-- `Inbox.symbol` and the decoders of other bundles.
use meshbbs.Common.{
  ℕ, zero, suc, ◌+◌, ◌-◌, ◌≡◌, ◌≢◌, ◌<◌, ◌⊎◌, refl, ap, sym, ◌∙◌, Option, none, some, List, [], ◌∷◌,
  length, arith, inl, inr, Bool-cases, Option-cases, Result-cases, ltb,
}
use meshbbs.Common.Map.{find, put, delete, find-put, find-delete, IsMap, put-IsMap, delete-IsMap}
use meshbbs.Identity.{NodeId}
use meshbbs.Fountain.Symbol.{Symbol}
use meshbbs.Fountain.Decoder.{add}
use meshbbs.Bsmp.Inbox.{
  OpenDecoder, Inbox, Datagram, decoder_ttl, max_open_decoders, reject, expire_decoders, expire,
  oldest_key, evict_loop, evict_to_cap, update, parse_frame, open_decoder, add_symbol, receive_new,
  receive,
}
use meshbbs.Bsmp.Inbox.Keys.{DecKey, dec_key_eq}
use meshbbs.Bsmp.Inbox.Bound.{complete-decoders}

-- What the writes under one key keep true of the open decoders.
record Writes (key : DecKey) (P : List (DecKey × OpenDecoder) → Type 0) : Type 0 where
  put_keeps : (od : OpenDecoder) (m : List (DecKey × OpenDecoder)) → P m → P (put key od m)
  delete_keeps : (m : List (DecKey × OpenDecoder)) → P m → P (delete key m)

module _ {key : DecKey} {P : List (DecKey × OpenDecoder) → Type 0} (writes : Writes key P) where
  update-Writes : (od : OpenDecoder) (m : List (DecKey × OpenDecoder)) → P m → P (update key od m)
  unfolding update
  update-Writes od m h = elim (Option-cases (find key m)) [
    | inl e ↦ rw (e, update) h
    | inr (od', e) ↦ rw (e, update) (writes.put_keeps od m h)
  ]

  add_symbol-Writes :
      (blake3 : List ℕ → List ℕ) (now : ℕ) (od : OpenDecoder) (s : Symbol) (b : Inbox)
      → P b.decoders
      → P (add_symbol blake3 key now od s b).0.decoders
  unfolding add_symbol reject
  add_symbol-Writes blake3 now od s b h =
      let od' : OpenDecoder = record od { dec = (add blake3 od.dec s).0 } in
      let updated = update-Writes od' b.decoders h in
      elim (Result-cases (add blake3 od.dec s).1) [
        | inr (x, e) ↦ rw (e, add_symbol) h
        | inl (fin, e) ↦
            rw (e, add_symbol)
              (elim (Bool-cases (add blake3 od.dec s).0.finished) [
                | inr open_still ↦ rw (open_still, add_symbol) updated
                | inl done ↦
                    rw (done, add_symbol)
                      (rw (complete-decoders blake3 key now (add blake3 od.dec s).0 _)
                        (writes.delete_keeps (update key od' b.decoders) updated))
              ])
      ]

-- An open decoder for which no symbol came for longer than the TTL.
abbrev Expired : ℕ → DecKey → List (DecKey × OpenDecoder) → Type 0
Expired now j m = (od : OpenDecoder) × (find j m ≡ some od) × (decoder_ttl < now - od.touched)

pub find-expire_decoders :
    (j : DecKey) (now : ℕ) (m : List (DecKey × OpenDecoder))
    → IsMap m
    → (find j (expire_decoders now m).0 ≡ find j m)
      ⊎ ((find j (expire_decoders now m).0 ≡ none) × Expired now j m)
unfolding find expire_decoders
find-expire_decoders j now [] h = inl refl
find-expire_decoders j now ((k, od) ∷ m) (h, hs) =
    ground (arith, find-expire_decoders j now m hs, dec_key_eq.same_iff k j)

expire_decoders-IsMap :
    (now : ℕ) (m : List (DecKey × OpenDecoder)) → IsMap m → IsMap (expire_decoders now m).0
unfolding expire_decoders
expire_decoders-IsMap now [] h = tt
expire_decoders-IsMap now ((k, od) ∷ m) (h, hs) =
    let rest = expire_decoders-IsMap now m hs in
    elim (Bool-cases (ltb decoder_ttl (now - od.touched))) [
      | inl e ↦ rw (e, expire_decoders) rest
      | inr e ↦ rw (e, expire_decoders) (ground (arith, find-expire_decoders k now m hs), rest)
    ]

evict_loop-IsMap :
    (fuel : ℕ) (m : List (DecKey × OpenDecoder)) (n : ℕ) → IsMap m → IsMap (evict_loop fuel m n).0
unfolding evict_loop
evict_loop-IsMap zero m n h = h
evict_loop-IsMap (suc fuel) m n h = elim (Bool-cases (ltb max_open_decoders (length m))) [
  | inr e ↦ rw (e, evict_loop) h
  | inl e ↦
      rw (e, evict_loop)
        (elim (Option-cases (oldest_key m)) [
          | inl no_key ↦ rw (no_key, evict_loop) h
          | inr (k, some_key) ↦
              rw (some_key, evict_loop)
                (evict_loop-IsMap fuel (delete k m) (n + 1) (delete-IsMap k m h))
        ])
]

IsMap-Writes : (key : DecKey) → Writes key IsMap
IsMap-Writes key = record { put_keeps = put-IsMap key; delete_keeps = delete-IsMap key }

-- The eviction takes an entry away or leaves it, and within the cap it leaves them all.
find-evict_loop :
    (j : DecKey) (fuel : ℕ) (m : List (DecKey × OpenDecoder)) (n : ℕ)
    → (find j (evict_loop fuel m n).0 ≡ find j m)
      ⊎ ((max_open_decoders < length m) × (find j (evict_loop fuel m n).0 ≡ none))
unfolding evict_loop
find-evict_loop j zero m n = inl refl
find-evict_loop j (suc fuel) m n = elim (Bool-cases (ltb max_open_decoders (length m))) [
  | inr e ↦ rw (e, evict_loop) (inl refl)
  | inl e ↦
      rw (e, evict_loop)
        (elim (Option-cases (oldest_key m)) [
          | inl no_key ↦ rw (no_key, evict_loop) (inl refl)
          | inr (k, some_key) ↦
              rw (some_key, evict_loop)
                (ground (arith, e, find-evict_loop j fuel (delete k m) (n + 1), find-delete k j m))
        ])
]

find-Writes : (j key : DecKey) (x : Option OpenDecoder) → key ≢ j → Writes key (λ m. find j m ≡ x)
find-Writes j key x other = record {
  put_keeps = λ od m h. ground (arith, find-put key j od m, dec_key_eq.same_iff key j, other, h);
  delete_keeps = λ m h. ground (arith, find-delete key j m, dec_key_eq.same_iff key j, other, h);
}

receive_new-IsMap :
    (blake3 : List ℕ → List ℕ) (key : DecKey) (now orig_len : ℕ) (s : Symbol) (b : Inbox)
    → IsMap b.decoders
    → IsMap (receive_new blake3 key now orig_len s b).0.decoders
unfolding receive_new reject expire evict_to_cap
receive_new-IsMap blake3 key now orig_len s b h =
    let fresh = expire_decoders-IsMap now b.decoders h in
    elim (Option-cases (open_decoder key now orig_len s (expire now b))) [
      | inl refused ↦ rw (refused, receive_new) fresh
      | inr (od, opened) ↦
          rw (opened, receive_new)
            (let m = put key od (expire_decoders now b.decoders).0 in
              add_symbol-Writes (IsMap-Writes key) blake3 now od s _ (
                evict_loop-IsMap (length m) m 0
                  (put-IsMap key od (expire_decoders now b.decoders).0 fresh)))
    ]

-- The map of open decoders keeps one entry for each key.
pub receive-IsMap :
    (blake3 : List ℕ → List ℕ) (now : ℕ) (dg : Datagram) (b : Inbox)
    → IsMap b.decoders
    → IsMap (receive blake3 now dg b).0.decoders
unfolding receive reject
receive-IsMap blake3 now dg b h = elim (Option-cases (parse_frame dg)) [
  | inl refused ↦ rw (refused, receive) h
  | inr ((orig_len, s), parsed) ↦
      let key : DecKey = record { from = dg.from; bundle_id = s.bundle_id } in
      rw (parsed, receive)
        (elim (Option-cases (find key b.finished)) [
          | inr (at, known) ↦ rw (known, receive) h
          | inl new_key ↦ rw (new_key, receive) (receive_new-IsMap blake3 key now orig_len s b h)
        ])
]

-- With a decoder for a bundle of `from` opened after the expiry, there are more than the cap, and
-- `j` is among those that the eviction takes away.
abbrev Evicted : ℕ → NodeId → DecKey → List (DecKey × OpenDecoder) → Type 0
Evicted now from j m =
    (id : ℕ) × (od : OpenDecoder) × (max_open_decoders
      < length (put (record { from = from; bundle_id = id }) od (expire_decoders now m).0))
    × (find j
          (evict_loop
            (length (put (record { from = from; bundle_id = id }) od (expire_decoders now m).0))
            (put (record { from = from; bundle_id = id }) od (expire_decoders now m).0) 0).0
        ≡ none)

-- The entry of `j` after a datagram of `from`: as in `start`, or gone for one of two reasons.
abbrev pub Untouched :
    ℕ → NodeId → DecKey → List (DecKey × OpenDecoder) → List (DecKey × OpenDecoder) → Type 0
Untouched now from j start m =
    (find j m ≡ find j start)
    ⊎ ((find j m ≡ none) × (Expired now j start ⊎ Evicted now from j start))

after_expiry :
    (now : ℕ) (from : NodeId) (j : DecKey) (m n : List (DecKey × OpenDecoder))
    → IsMap m
    → find j n ≡ find j (expire_decoders now m).0
    → Untouched now from j m n
after_expiry now from j m n h same = elim (find-expire_decoders j now m h) [
  | inl stays ↦ inl (same ∙ stays)
  | inr (gone, old) ↦ inr (same ∙ gone, inl old)
]

receive_new-isolated :
    (blake3 : List ℕ → List ℕ) (key : DecKey) (now orig_len : ℕ) (s : Symbol) (b : Inbox)
    (j : DecKey)
    → IsMap b.decoders
    → key ≢ j
    → Untouched now key.from j b.decoders (receive_new blake3 key now orig_len s b).0.decoders
unfolding receive_new reject expire evict_to_cap
receive_new-isolated blake3 key now orig_len s b j h other =
    elim (Option-cases (open_decoder key now orig_len s (expire now b))) [
      | inl refused ↦ rw (refused, receive_new) (after_expiry now key.from j b.decoders _ h refl)
      | inr (od, opened) ↦
          rw (opened, receive_new)
            (let fresh = (expire_decoders now b.decoders).0 in
              let m = put key od fresh in
              let put_other = (find-Writes j key (find j fresh) other).put_keeps od fresh refl in
              let kept =
                add_symbol-Writes (find-Writes j key (find j (evict_loop (length m) m 0).0) other)
                  blake3 now od s _ refl in
              elim (find-evict_loop j (length m) m 0) [
                | inl stays ↦
                    after_expiry now key.from j b.decoders _ h (kept ∙ (stays ∙ put_other))
                | inr (full, gone) ↦ inr (kept ∙ gone, inr (key.bundle_id, od, full, gone))
              ])
    ]

pub receive-isolated :
    (blake3 : List ℕ → List ℕ) (now : ℕ) (dg : Datagram) (b : Inbox) (j : DecKey)
    → IsMap b.decoders
    → j.from ≢ dg.from
    → Untouched now dg.from j b.decoders (receive blake3 now dg b).0.decoders
unfolding receive reject
receive-isolated blake3 now dg b j h other = elim (Option-cases (parse_frame dg)) [
  | inl refused ↦ rw (refused, receive) (inl refl)
  | inr ((orig_len, s), parsed) ↦
      let key : DecKey = record { from = dg.from; bundle_id = s.bundle_id } in
      rw (parsed, receive)
        (elim (Option-cases (find key b.finished)) [
          | inr (at, known) ↦ rw (known, receive) (inl refl)
          | inl new_key ↦
              rw (new_key, receive)
                (receive_new-isolated blake3 key now orig_len s b j h
                  (λ e. other (sym (ap {A = DecKey} (λ k. k.from) {x = key} {y = j} e))))
        ])
]

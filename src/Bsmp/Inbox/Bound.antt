-- ===== src/Bsmp/Inbox/Bound.antt =====
-- `Inbox.Deliver` and the cap on the open decoders.
use meshbbs.Common.{
  ℕ, ◌≡◌, ◌≤◌, refl, some, List, [], ◌∷◌, length, arith, inl, inr, Bool-cases, Option-cases,
  Result-cases, nat_beq, get_or,
}
use meshbbs.Common.Map.{find, put, delete, length-delete}
use meshbbs.Fountain.Symbol.{Symbol}
use meshbbs.Fountain.Decoder.{Decoder, add, payload}
use meshbbs.Bsmp.{bundle_id_for, frame_control, frame_symbol}
use meshbbs.Bsmp.Inbox.{
  OpenDecoder, Inbox, Datagram, Services, max_open_decoders, reject, expire_decoders, expire,
  evict_to_cap, update, parse_frame, open_decoder, complete, add_symbol, receive_new, receive,
  apply_packed, symbol, deliver, pending, Unpacked-cases,
}
use meshbbs.Bsmp.Inbox.Keys.{DecKey, dec_key_eq}
use meshbbs.Bsmp.Inbox.Capacity.{evict_loop-capacity}

length-expire_decoders :
    (now : ℕ) (m : List (DecKey × OpenDecoder)) → length (expire_decoders now m).0 ≤ length m
unfolding expire_decoders
length-expire_decoders now [] = omega arith
length-expire_decoders now ((k, od) ∷ m) = ground (arith, length-expire_decoders now m)

length-put_held :
    (k : DecKey) (od od' : OpenDecoder) (m : List (DecKey × OpenDecoder))
    → find k m ≡ some od'
    → length (put k od m) ≡ length m
unfolding find put
length-put_held k od od' [] h = absurd (ground arith)
length-put_held k od od' ((j, w) ∷ m) h = ground (arith, length-put_held k od od' m)

length-update :
    (k : DecKey) (od : OpenDecoder) (m : List (DecKey × OpenDecoder))
    → length (update k od m) ≡ length m
unfolding update
length-update k od m = elim (Option-cases (find k m)) [
  | inl e ↦ rw (e, update) refl
  | inr (od', e) ↦ rw (e, update) (length-put_held k od od' m e)
]

pub complete-decoders :
    (blake3 : List ℕ → List ℕ) (key : DecKey) (now : ℕ) (dec : Decoder) (b : Inbox)
    → (complete blake3 key now dec b).0.decoders ≡ delete key b.decoders
unfolding complete reject
complete-decoders blake3 key now dec b = elim (Result-cases (payload dec)) [
  | inr (x, e) ↦ rw (e, complete) refl
  | inl (packed, e) ↦
      rw (e, complete)
        (elim (Bool-cases (nat_beq (bundle_id_for blake3 packed) key.bundle_id)) [
          | inr differs ↦ rw (differs, complete) refl
          | inl agrees ↦ rw (agrees, complete) refl
        ])
]

add_symbol-pending :
    (blake3 : List ℕ → List ℕ) (key : DecKey) (now : ℕ) (od : OpenDecoder) (s : Symbol) (b : Inbox)
    → pending (add_symbol blake3 key now od s b).0 ≤ pending b
unfolding add_symbol reject
add_symbol-pending blake3 key now od s b =
    let od' : OpenDecoder = record od { dec = (add blake3 od.dec s).0 } in
    let updated = length-update key od' b.decoders in
    elim (Result-cases (add blake3 od.dec s).1) [
      | inr (x, e) ↦ rw (e, add_symbol) (omega arith)
      | inl (fin, e) ↦
          rw (e, add_symbol)
            (elim (Bool-cases (add blake3 od.dec s).0.finished) [
              | inr open_still ↦ rw (open_still, add_symbol) (omega arith)
              | inl done ↦
                  rw (done, add_symbol)
                    (rw (complete-decoders blake3 key now (add blake3 od.dec s).0 _)
                      (omega (arith, length-delete key (update key od' b.decoders))))
            ])
    ]

receive_new-pending :
    (blake3 : List ℕ → List ℕ) (key : DecKey) (now orig_len : ℕ) (s : Symbol) (b : Inbox)
    → pending b ≤ max_open_decoders
    → pending (receive_new blake3 key now orig_len s b).0 ≤ max_open_decoders
unfolding receive_new reject expire evict_to_cap
receive_new-pending blake3 key now orig_len s b h =
    let fewer = length-expire_decoders now b.decoders in
    elim (Option-cases (open_decoder key now orig_len s (expire now b))) [
      | inl refused ↦ rw (refused, receive_new) (omega arith)
      | inr (od, opened) ↦
          rw (opened, receive_new)
            (let m = put key od (expire_decoders now b.decoders).0 in
              omega (
                arith,
                add_symbol-pending blake3 key now od s _,
                evict_loop-capacity (length m) m 0 (omega arith),
              ))
    ]

pub receive-pending :
    (blake3 : List ℕ → List ℕ) (now : ℕ) (dg : Datagram) (b : Inbox)
    → pending b ≤ max_open_decoders
    → pending (receive blake3 now dg b).0 ≤ max_open_decoders
unfolding receive reject
receive-pending blake3 now dg b h = elim (Option-cases (parse_frame dg)) [
  | inl refused ↦ rw (refused, receive) h
  | inr ((orig_len, s), parsed) ↦
      let key : DecKey = record { from = dg.from; bundle_id = s.bundle_id } in
      rw (parsed, receive)
        (elim (Option-cases (find key b.finished)) [
          | inr (at, known) ↦ rw (known, receive) h
          | inl new_key ↦ rw (new_key, receive) (receive_new-pending blake3 key now orig_len s b h)
        ])
]

module _ {E R : Type 0} (env : Services E R) where
  pub apply_packed-boxes :
      (packed : List ℕ) (b : Inbox) (e : E)
      → ((apply_packed env packed b e).0.decoders ≡ b.decoders)
        × ((apply_packed env packed b e).0.finished ≡ b.finished)
  unfolding apply_packed reject
  apply_packed-boxes packed b e = elim (Unpacked-cases (env.unpack packed)) [
    | inl x ↦ rw (x, apply_packed) (refl, refl)
    | inr (inl x) ↦ rw (x, apply_packed) (refl, refl)
    | inr (inr (r, x)) ↦
        rw (x, apply_packed)
          (elim (Option-cases (env.apply_records e r).1) [
            | inl failed ↦ rw (failed, apply_packed) (refl, refl)
            | inr (n, applied) ↦ rw (applied, apply_packed) (refl, refl)
          ])
  ]

  symbol-pending :
      (now : ℕ) (dg : Datagram) (b : Inbox) (e : E)
      → pending b ≤ max_open_decoders
      → pending (symbol env now dg b e).0 ≤ max_open_decoders
  unfolding symbol
  symbol-pending now dg b e h =
      let bound = receive-pending env.blake3 now dg b h in
      elim (Option-cases (receive env.blake3 now dg b).1) [
        | inl silent ↦ rw (silent, symbol) bound
        | inr (p, handed) ↦
            rw (handed, symbol)
              (rw (apply_packed-boxes p (receive env.blake3 now dg b).0 e).0 bound)
      ]

  -- However datagrams arrive, no more than maxOpenDecoders bundles are ever partially decoded: an
  -- inbox within the cap is within it after Deliver.
  pub deliver-pending :
      (now : ℕ) (dg : Datagram) (b : Inbox) (e : E)
      → pending b ≤ max_open_decoders
      → pending (deliver env now dg b e).0 ≤ max_open_decoders
  unfolding deliver reject
  deliver-pending now dg b e h = elim (Bool-cases (nat_beq (length dg.bytes) 0)) [
    | inl empty ↦ rw (empty, deliver) h
    | inr some_bytes ↦
        rw (some_bytes, deliver)
          (elim (Bool-cases (nat_beq (get_or dg.bytes 0 0) frame_control)) [
            | inl control ↦ rw (control, deliver) h
            | inr other ↦
                rw (other, deliver)
                  (elim (Bool-cases (nat_beq (get_or dg.bytes 0 0) frame_symbol)) [
                    | inl is_symbol ↦ rw (is_symbol, deliver) (symbol-pending now dg b e h)
                    | inr unknown ↦ rw (unknown, deliver) h
                  ])
          ])
  ]

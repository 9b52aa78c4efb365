-- ===== src/Bsmp/Inbox/Outcome.antt =====
-- What `Inbox.symbol` may do to the record of finished bundles, and what it hands over.
use meshbbs.Common.{
  ℕ, ◌≡◌, ◌⊎◌, refl, Option, none, some, List, arith, inl, inr, Bool-cases, Option-cases,
  Result-cases, nat_beq,
}
use meshbbs.Common.Map.{find, put, find-delete}
use meshbbs.Fountain.Symbol.{Symbol}
use meshbbs.Fountain.Decoder.{Decoder, add, payload}
use meshbbs.Bsmp.{bundle_id_for}
use meshbbs.Bsmp.Inbox.{
  OpenDecoder, Inbox, reject, expire, expire_done, evict_to_cap, open_decoder, complete, add_symbol,
  receive_new,
}
use meshbbs.Bsmp.Inbox.Keys.{DecKey, dec_key_eq}

-- Nothing is handed over and nothing becomes finished; or a bundle is handed over that hashes to the
-- ID of its key, the key is finished now, and its decoder is gone.
abbrev pub Outcome :
    (List ℕ → List ℕ) → DecKey → ℕ → List (DecKey × ℕ) → Inbox × Option (List ℕ) → Type 0
Outcome blake3 key now finished r =
    ((r.1 ≡ none) × (r.0.finished ≡ finished))
    ⊎ ((packed : List ℕ) × (r.1 ≡ some packed)
        × (bundle_id_for blake3 packed ≡ key.bundle_id)
        × (r.0.finished ≡ put key now finished)
        × (find key r.0.decoders ≡ none))

pub complete-Outcome :
    (blake3 : List ℕ → List ℕ) (key : DecKey) (now : ℕ) (dec : Decoder) (b : Inbox)
    → Outcome blake3 key now b.finished (complete blake3 key now dec b)
unfolding complete reject
complete-Outcome blake3 key now dec b = elim (Result-cases (payload dec)) [
  | inr (x, e) ↦ rw (e, complete) (inl (refl, refl))
  | inl (packed, e) ↦
      rw (e, complete)
        (elim (Bool-cases (nat_beq (bundle_id_for blake3 packed) key.bundle_id)) [
          | inr differs ↦ rw (differs, complete) (inl (refl, refl))
          | inl agrees ↦
              rw (agrees, complete)
                (inr (
                  packed,
                  refl,
                  ground arith,
                  refl,
                  ground (arith, find-delete key key b.decoders, dec_key_eq.same_iff key key),
                ))
        ])
]

pub add_symbol-Outcome :
    (blake3 : List ℕ → List ℕ) (key : DecKey) (now : ℕ) (od : OpenDecoder) (s : Symbol) (b : Inbox)
    → Outcome blake3 key now b.finished (add_symbol blake3 key now od s b)
unfolding add_symbol reject
add_symbol-Outcome blake3 key now od s b = elim (Result-cases (add blake3 od.dec s).1) [
  | inr (x, e) ↦ rw (e, add_symbol) (inl (refl, refl))
  | inl (fin, e) ↦
      rw (e, add_symbol)
        (elim (Bool-cases (add blake3 od.dec s).0.finished) [
          | inr open_still ↦ rw (open_still, add_symbol) (inl (refl, refl))
          | inl done ↦
              rw (done, add_symbol) (complete-Outcome blake3 key now (add blake3 od.dec s).0 _)
        ])
]

pub receive_new-Outcome :
    (blake3 : List ℕ → List ℕ) (key : DecKey) (now orig_len : ℕ) (s : Symbol) (b : Inbox)
    → Outcome blake3 key now (expire_done now b.finished) (receive_new blake3 key now orig_len s b)
unfolding receive_new reject expire evict_to_cap
receive_new-Outcome blake3 key now orig_len s b =
    elim (Option-cases (open_decoder key now orig_len s (expire now b))) [
      | inl refused ↦ rw (refused, receive_new) (inl (refl, refl))
      | inr (od, opened) ↦ rw (opened, receive_new) (add_symbol-Outcome blake3 key now od s _)
    ]

-- ===== src/Bsmp/Inbox/Capacity.antt =====
-- `Inbox.evictToCap` and the bound on the open decoders.
use meshbbs.Common.{
  ℕ, zero, suc, ◌+◌, ◌≡◌, ◌≤◌, ◌<◌, ◌≢◌, refl, none, some, List, [], ◌∷◌, length, arith, inl, inr,
  Bool-cases, Option-cases, ltb, beq_refl,
}
use meshbbs.Common.Map.{find, delete, length-delete}
use meshbbs.Bsmp.Inbox.{OpenDecoder, max_open_decoders, oldest, oldest_key, evict_loop}
use meshbbs.Bsmp.Inbox.Keys.{DecKey, dec_key_eq}

-- The search answers its start or a key of the list.
oldest_lem :
    (m : List (DecKey × OpenDecoder)) (k : DecKey) (at : ℕ)
    → find (oldest m k at) m ≡ none
    → oldest m k at ≡ k
unfolding oldest find
oldest_lem [] k at h = refl
oldest_lem ((j, od) ∷ m) k at h = elim (Bool-cases (ltb od.touched at)) [
  | inl e ↦ ground (arith, oldest_lem m j od.touched, beq_refl j)
  | inr e ↦ ground (arith, oldest_lem m k at)
]

length-delete_held :
    (k : DecKey) (m : List (DecKey × OpenDecoder))
    → find k m ≢ none
    → length (delete k m) < length m
unfolding find delete
length-delete_held k [] h = absurd (h refl)
length-delete_held k ((j, w) ∷ m) h = ground (arith, length-delete k m, length-delete_held k m)

oldest_key_held :
    (m : List (DecKey × OpenDecoder)) (k : DecKey) → oldest_key m ≡ some k → find k m ≢ none
unfolding oldest_key find
oldest_key_held [] k h = absurd (ground arith)
oldest_key_held ((j, od) ∷ m) k h = ground (arith, oldest_lem m j od.touched, beq_refl j)

oldest_key_some : (m : List (DecKey × OpenDecoder)) → oldest_key m ≡ none → length m ≡ 0
unfolding oldest_key
oldest_key_some [] h = refl
oldest_key_some ((j, od) ∷ m) h = ground arith

pub evict_loop-capacity :
    (fuel : ℕ) (m : List (DecKey × OpenDecoder)) (n : ℕ)
    → length m ≤ fuel + max_open_decoders
    → length (evict_loop fuel m n).0 ≤ max_open_decoders
unfolding evict_loop
evict_loop-capacity zero m n h = h
evict_loop-capacity (suc fuel) m n h = elim (Bool-cases (ltb max_open_decoders (length m))) [
  | inr e ↦ rw (e, length) (ground arith)
  | inl e ↦
      rw (e, length)
        (elim (Option-cases (oldest_key m)) [
          | inl no_key ↦ rw (no_key, length) (ground (arith, oldest_key_some m no_key))
          | inr (k, some_key) ↦
              rw (some_key, length)
                (evict_loop-capacity fuel (delete k m) (n + 1)
                  (omega (arith, length-delete_held k m (oldest_key_held m k some_key))))
        ])
]

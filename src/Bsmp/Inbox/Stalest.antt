-- ===== src/Bsmp/Inbox/Stalest.antt =====
-- `Inbox.evictToCap`: which decoders it drops.
use meshbbs.Common.{
  ℕ, zero, suc, ◌+◌, ◌≡◌, ◌≤◌, refl, sym, ap, ◌∙◌, true, false, none, some, List, [], ◌∷◌, length,
  arith, inl, inr, Bool-cases, Option-cases, ltb,
}
use meshbbs.Common.Map.{find, delete, find-delete, IsMap, delete-IsMap}
use mathlib.Core.Path.{subst}
use meshbbs.Bsmp.Inbox.{
  OpenDecoder, Inbox, max_open_decoders, oldest, oldest_key, evict_loop, evict_to_cap,
}
use meshbbs.Bsmp.Inbox.Keys.{DecKey, dec_key_eq}

find_behind :
    (k r : DecKey) (od x : OpenDecoder) (m : List (DecKey × OpenDecoder))
    → find k m ≡ none
    → find r m ≡ some x
    → find r ((k, od) ∷ m) ≡ some x
unfolding find
find_behind k r od x m h f = ground (arith, dec_key_eq.same_iff k r)

oldest_none :
    (k : DecKey) (od : OpenDecoder) → find (oldest [] k od.touched) ((k, od) ∷ []) ≡ some od
unfolding oldest find
oldest_none k od = ground (arith, dec_key_eq.same_iff k k)

find_second :
    (k i r : DecKey) (od next x : OpenDecoder) (m : List (DecKey × OpenDecoder))
    → find i m ≡ none
    → find r ((k, od) ∷ m) ≡ some x
    → find k ((i, next) ∷ m) ≡ none
    → find r ((k, od) ∷ (i, next) ∷ m) ≡ some x
unfolding find
find_second k i r od next x m h f g =
    ground (arith, dec_key_eq.same_iff k r, dec_key_eq.same_iff i r, dec_key_eq.same_iff i k)

oldest_earlier :
    (i k : DecKey) (next : OpenDecoder) (at : ℕ) (m : List (DecKey × OpenDecoder))
    → ltb next.touched at ≡ true
    → oldest ((i, next) ∷ m) k at ≡ oldest m i next.touched
unfolding oldest
oldest_earlier i k next at m h = rw h refl

oldest_later :
    (i k : DecKey) (next : OpenDecoder) (at : ℕ) (m : List (DecKey × OpenDecoder))
    → ltb next.touched at ≡ false
    → oldest ((i, next) ∷ m) k at ≡ oldest m k at
unfolding oldest
oldest_later i k next at m h = rw h refl

-- The entry of `r` was touched no later than `od`.
NotAfter : List (DecKey × OpenDecoder) → OpenDecoder → DecKey → Type 0
NotAfter m od r = (first : OpenDecoder) × (find r m ≡ some first) × (first.touched ≤ od.touched)

times : (start od : OpenDecoder) → some start ≡ some od → start.touched ≡ od.touched
times start od e = ground (arith, ap {A = OpenDecoder} (λ x. x.touched) {x = start} {y = od})

-- The search finds an entry that no entry was touched before.
oldest-NotAfter :
    (m : List (DecKey × OpenDecoder)) (k : DecKey) (start : OpenDecoder) (j : DecKey)
    (od : OpenDecoder)
    → IsMap ((k, start) ∷ m)
    → find j ((k, start) ∷ m) ≡ some od
    → NotAfter ((k, start) ∷ m) od (oldest m k start.touched)
unfolding find NotAfter
oldest-NotAfter [] k start j od h f = (start, oldest_none k start, ground (arith, times start od))
oldest-NotAfter ((i, next) ∷ m) k start j od (hk, hs) f =
    let here : find k m ≡ none = ground (arith, dec_key_eq.same_iff i k) in
    elim (Bool-cases (ltb next.touched start.touched)) [
      | inl earlier ↦
          let step = oldest_earlier i k next start.touched m earlier in
          elim (Bool-cases (dec_key_eq.same k j)) [
            | inl same ↦
                let (first, found, least) =
                  oldest-NotAfter m i next i next hs (ground (arith, dec_key_eq.same_iff i i)) in
                subst (NotAfter ((k, start) ∷ (i, next) ∷ m) od) (sym step) (
                  first,
                  find_behind k _ start first ((i, next) ∷ m) hk found,
                  ground (arith, times start od),
                )
            | inr other ↦
                let (first, found, least) = oldest-NotAfter m i next j od hs (ground arith) in
                subst (NotAfter ((k, start) ∷ (i, next) ∷ m) od) (sym step)
                  (first, find_behind k _ start first ((i, next) ∷ m) hk found, least)
          ]
      | inr later ↦
          let step = oldest_later i k next start.touched m later in
          let (first, found, least) =
            oldest-NotAfter m k start k start (here, hs.1)
              (ground (arith, dec_key_eq.same_iff k k)) in
          let least' : first.touched ≤ od.touched = elim (Bool-cases (dec_key_eq.same k j)) [
            | inl same ↦ ground (arith, times start od)
            | inr other ↦ elim (Bool-cases (dec_key_eq.same i j)) [
              | inl second ↦ ground (arith, times next od)
              | inr third ↦
                  let (again, found', least') =
                    oldest-NotAfter m k start j od (here, hs.1) (ground arith) in
                  omega (arith, times first again (sym found ∙ found'))
            ]
          ] in
          subst (NotAfter ((k, start) ∷ (i, next) ∷ m) od) (sym step)
            (first, find_second k i _ start next first m hs.0 found hk, least')
    ]

oldest_key-NotAfter :
    (m : List (DecKey × OpenDecoder)) (k j : DecKey) (od : OpenDecoder)
    → IsMap m
    → oldest_key m ≡ some k
    → find j m ≡ some od
    → NotAfter m od k
unfolding oldest_key find
oldest_key-NotAfter [] k j od h e f = absurd (ground arith)
oldest_key-NotAfter ((i, start) ∷ m) k j od h e f =
    subst (NotAfter ((i, start) ∷ m) od) (ground arith) (oldest-NotAfter m i start j od h f)

-- The loop keeps entries as they are.
pub find-evict_loop :
    (fuel : ℕ) (m : List (DecKey × OpenDecoder)) (n : ℕ) (j : DecKey) (od : OpenDecoder)
    → find j (evict_loop fuel m n).0 ≡ some od
    → find j m ≡ some od
unfolding evict_loop
find-evict_loop zero m n j od = λ h. h
find-evict_loop (suc fuel) m n j od = elim (Bool-cases (ltb max_open_decoders (length m))) [
  | inr e ↦ rw (e, evict_loop) (λ h. h)
  | inl e ↦
      rw (e, evict_loop)
        (elim (Option-cases (oldest_key m)) [
          | inl no_key ↦ rw (no_key, evict_loop) (λ h. h)
          | inr (k, some_key) ↦
              rw (some_key, evict_loop)
                (λ h.
                  let deeper = find-evict_loop fuel (delete k m) (n + 1) j od h in
                  ground (arith, find-delete k j m))
        ])
]

victim_first :
    (m : List (DecKey × OpenDecoder)) (i j k : DecKey) (gone kept : OpenDecoder)
    → IsMap m
    → oldest_key m ≡ some i
    → i ≡ j
    → find j m ≡ some gone
    → find k m ≡ some kept
    → gone.touched ≤ kept.touched
unfolding NotAfter
victim_first m i j k gone kept h e same f g =
    let (first, found, least) = oldest_key-NotAfter m i k kept h e g in
    omega (arith, times first gone (sym found ∙ ap (λ x. find x m) same ∙ f))

evict_loop-stalest :
    (fuel : ℕ) (m : List (DecKey × OpenDecoder)) (n : ℕ) (j k : DecKey) (gone kept : OpenDecoder)
    → IsMap m
    → find j m ≡ some gone
    → find j (evict_loop fuel m n).0 ≡ none
    → find k (evict_loop fuel m n).0 ≡ some kept
    → gone.touched ≤ kept.touched
unfolding evict_loop
evict_loop-stalest zero m n j k gone kept h f = λ g e. absurd (ground arith)
evict_loop-stalest (suc fuel) m n j k gone kept h f =
    elim (Bool-cases (ltb max_open_decoders (length m))) [
      | inr e ↦ rw (e, evict_loop) (λ g e'. absurd (ground arith))
      | inl e ↦
          rw (e, evict_loop)
            (elim (Option-cases (oldest_key m)) [
              | inl no_key ↦ rw (no_key, evict_loop) (λ g e'. absurd (ground arith))
              | inr (i, some_key) ↦
                  rw (some_key, evict_loop)
                    (λ g stays.
                      let rest = find-evict_loop fuel (delete i m) (n + 1) k kept stays in
                      elim (Bool-cases (dec_key_eq.same i j)) [
                        | inl victim ↦
                            victim_first m i j k gone kept h some_key
                              (ground (arith, dec_key_eq.same_iff i j)) f
                              (ground (arith, find-delete i k m))
                        | inr other ↦
                            evict_loop-stalest fuel (delete i m) (n + 1) j k gone kept
                              (delete-IsMap i m h) (ground (arith, find-delete i j m)) g stays
                      ])
            ])
    ]

-- The decoders that evictToCap drops were touched no later than any that it keeps, whatever the
-- order of the map; and it keeps those it does not drop as they are. The decoders are those of a
-- map, with each key once.
pub evict_to_cap-stalest :
    (b : Inbox) (j k : DecKey) (gone kept : OpenDecoder)
    → IsMap b.decoders
    → find j b.decoders ≡ some gone
    → find j (evict_to_cap b).decoders ≡ none
    → find k (evict_to_cap b).decoders ≡ some kept
    → (gone.touched ≤ kept.touched) × (find k b.decoders ≡ some kept)
unfolding evict_to_cap
evict_to_cap-stalest b j k gone kept h f g e = (
  evict_loop-stalest (length b.decoders) b.decoders 0 j k gone kept h f g e,
  find-evict_loop (length b.decoders) b.decoders 0 k kept e,
)

-- ===== src/Gossip/Engine/Converge.antt =====
-- Exchanges of ranges and records end: a node catches up with a peer.
use meshbbs.Common.{
  ℕ, zero, suc, ◌+◌, ◌-◌, ◌≡◌, ◌≤◌, ◌<◌, refl, sym, ap, ◌∙◌, Result-cases, true, false, some, List,
  [], ◌∷◌, ◌++◌, length, take, arith, inl, inr, Bool-cases, bytes_eq, All, nat_beq, leb,
  if◌then◌else◌, ok, err,
}
use mathlib.Core.Path.{subst}
use mathlib.Core.List.{Memᴰ}
use meshbbs.Common.Sort.{sort_by, length-sort_by, All-sort_by}
use meshbbs.Identity.{NodeId}
use meshbbs.Vv.{IsVector, Range, get, origins, dominates}
use meshbbs.Gossip.{AreaTag}
use meshbbs.Gossip.RangeReq.{lower_range, encode_range_req, decode_range_req}
use meshbbs.Gossip.Engine.{Env}
use meshbbs.Gossip.Engine.Handlers.{wanted, gather}
use meshbbs.Gossip.Engine.Asks.{Lacks, wanted-Lacks}
use meshbbs.Gossip.Engine.Lacking.{
  lacking, Grows, lacking_drops, lacking-dominates, Grows-dominates,
}
use meshbbs.Gossip.Engine.Asked.{decode-wanted}

Memᴰ-length : {A : Type 0} (x : A) (xs : List A) → Memᴰ x xs → 1 ≤ length xs
Memᴰ-length x [] h = elim h [ ]
Memᴰ-length x (y ∷ xs) h = omega arith

first_of : {A : Type 0} (xs : List A) → 1 ≤ length xs → (x : A) × (rest : List A) × (xs ≡ x ∷ rest)
first_of [] h = absurd (omega (arith, h))
first_of (x ∷ xs) h = (x, xs, refl)

Memᴰ-append : {A : Type 0} (x : A) (xs ys : List A) → Memᴰ x xs → Memᴰ x (xs ++ ys)
Memᴰ-append x [] ys h = elim h [ ]
Memᴰ-append x (y ∷ xs) ys (Memᴰ.head e) = Memᴰ.head e
Memᴰ-append x (y ∷ xs) ys (Memᴰ.tail h) = Memᴰ.tail (Memᴰ-append x xs ys h)

module _ {S R G F : Type 0} (env : Env S R G F) where
  -- One exchange without loss, between nodes that carry the area and whose outboxes take what they
  -- send: `onVector` asks for ranges of what the peer has, `onRangeReq` of the peer answers the bytes
  -- of that request with records, and `ApplyRecords` stores them.
  unfoldable pub exchange : AreaTag → S → S → S
  exchange area peer s =
      let ranges = wanted env area (env.held s area) (env.held peer area) in
      if nat_beq (length ranges) 0
      then s
      else elim (decode_range_req (encode_range_req (record { area = area; ranges = ranges }))) [
        | err x ↦ s
        | ok req ↦
            let out = gather env peer req.area req.ranges [] in
            if nat_beq (length out) 0 then s else (env.apply s req.area out).0
      ]

  unfoldable pub exchanges : ℕ → AreaTag → S → S → S
  exchanges zero area peer s = s
  exchanges (suc n) area peer s = exchanges n area peer (exchange area peer s)

  -- What the engine relies on of the stores of an area: nothing that is applied lowers the vector; the
  -- peer serves a range that it holds from its first record on; and a record that the peer
  -- serves is stored where it is the next one after those that the node holds. `place` is
  -- the origin and the sequence of a record.
  pub record Stores (area : AreaTag) (peer : S) (place : R → NodeId × ℕ) : Type 0 where
    pub keeps :
        (s : S) (a : AreaTag) (recs : List R) (o : NodeId)
        → get (env.held s area) o ≤ get (env.held (env.apply s a recs).0 area) o
    pub serves :
        (r : Range)
        → 1 ≤ r.from
        → r.from ≤ r.to
        → r.to ≤ get (env.held peer area) r.origin
        → (x : R) × (xs : List R) × (env.records peer area r ≡ x ∷ xs)
          × ((place x).0 ≡ r.origin)
          × ((place x).1 ≡ r.from)
    pub stores :
        (s : S) (recs : List R) (r : Range) (x : R)
        → Memᴰ x recs
        → Memᴰ x (env.records peer area r)
        → (place x).1 ≡ get (env.held s area) (place x).0 + 1
        → (place x).1 ≤ get (env.held (env.apply s area recs).0 area) (place x).0

  gather-Memᴰ :
      (peer : S) (area : AreaTag) (rs : List Range) (x : R) (out : List R)
      → Memᴰ x out
      → Memᴰ x (gather env peer area rs out)
  unfolding gather
  gather-Memᴰ peer area [] x out h = h
  gather-Memᴰ peer area (r ∷ rs) x out h =
      elim (Bool-cases (leb env.cfg.max_records_per_push (length out))) [
        | inl full ↦ rw (full, gather) h
        | inr room ↦ rw (room, gather) (gather-Memᴰ peer area rs x _ (Memᴰ-append x out _ h))
      ]

  -- The first record of the first range is in the broadcast.
  gather_first :
      (peer : S) (area : AreaTag) (r : Range) (rs : List Range) (x : R) (xs : List R)
      → 1 ≤ env.cfg.max_records_per_push
      → env.records peer area r ≡ x ∷ xs
      → Memᴰ x (gather env peer area (r ∷ rs) [])
  unfolding gather
  gather_first peer area r rs x xs room served =
      let open_still : leb env.cfg.max_records_per_push 0 ≡ false = ground (arith, room) in
      rw (open_still, gather)
        (gather-Memᴰ peer area rs x _ (
          rw served
            (first_taken (env.cfg.max_records_per_push - length {A = R} []) (omega (arith, room)))))
    where
      first_taken : (n : ℕ) → 1 ≤ n → Memᴰ x (take n (x ∷ xs))
      first_taken zero h = absurd (omega (arith, h))
      first_taken (suc n) h = Memᴰ.head refl

  module _ (area : AreaTag) (peer : S) (place : R → NodeId × ℕ) (ha : length area ≡ 4)
      (hl : 1 ≤ env.cfg.max_ranges_per_request) (hp : 1 ≤ env.cfg.max_records_per_push)
      (h : IsVector (env.held peer area)) (laws : Stores area peer place) where
    -- What happens in an exchange of a node that is behind.
    exchange_applies :
        (s : S)
        → dominates (env.held s area) (some (env.held peer area)) ≡ false
        → (r : Range) × (x : R) × (recs : List R) × (exchange area peer s
            ≡ (env.apply s area recs).0)
          × Lacks (env.held s area) (env.held peer area) r
          × Memᴰ x recs
          × Memᴰ x (env.records peer area r)
          × ((place x).0 ≡ r.origin)
          × ((place x).1 ≡ r.from)
    unfolding exchange
    exchange_applies s behind =
        let v = env.held s area in
        let w = env.held peer area in
        let (r0, rest0, ask, lack0) = wanted-Lacks env area v w ha hl h behind in
        let asked : nat_beq (length (wanted env area v w)) 0 ≡ false =
          ground (arith, ap length ask) in
        let lack = subst (All (Lacks v w)) (sym ask) lack0 in
        let read = decode-wanted env area v w ha h lack in
        let sorted = sort_by lower_range (wanted env area v w) in
        let (r, rest, first) =
          first_of sorted
            (omega (arith, length-sort_by lower_range (wanted env area v w), ap length ask)) in
        let (lack_r, others) =
          subst (All (Lacks v w)) first
            (All-sort_by lower_range (Lacks v w) (wanted env area v w) lack) in
        let (x, xs, served, origin, seq) =
          laws.serves r (omega (arith, lack_r.starts))
            (omega (arith, lack_r.starts, lack_r.ends, lack_r.lower))
            (omega (arith, lack_r.ends)) in
        let out = gather env peer area sorted [] in
        let sent =
          subst (λ rs. Memᴰ x (gather env peer area rs [])) (sym first)
            (gather_first peer area r rest x xs hp served) in
        let some_record : nat_beq (length out) 0 ≡ false = ground (arith, Memᴰ-length x out sent) in
        (
          r,
          x,
          out,
          rw (asked, read, some_record) refl,
          lack_r,
          sent,
          subst (Memᴰ x) (sym served) (Memᴰ.head refl),
          origin,
          seq,
        )

    exchange-Grows : (s : S) → Grows (env.held s area) (env.held (exchange area peer s) area)
    unfolding exchange
    exchange-Grows s o =
        elim (Bool-cases
          (nat_beq (length (wanted env area (env.held s area) (env.held peer area))) 0)) [
            | inl e ↦ rw (e, exchange) (omega arith)
            | inr e ↦
                rw (e, exchange)
                  (elim (Result-cases (
                    decode_range_req (
                      encode_range_req (record {
                        area = area;
                        ranges = wanted env area (env.held s area) (env.held peer area);
                      })))) [
                        | inr (x, bad) ↦ rw (bad, exchange) (omega arith)
                        | inl (req, good) ↦
                            rw (good, exchange)
                              (elim (Bool-cases
                                (nat_beq (length (gather env peer req.area req.ranges [])) 0)) [
                                  | inl empty ↦ rw (empty, exchange) (omega arith)
                                  | inr full ↦ rw (full, exchange) (laws.keeps s req.area _ o)
                                ])
                      ])
          ]

    stays :
        (n : ℕ) (s : S)
        → dominates (env.held s area) (some (env.held peer area)) ≡ true
        → dominates (env.held (exchanges n area peer s) area) (some (env.held peer area)) ≡ true
    unfolding exchanges
    stays zero s already = already
    stays (suc n) s already = stays n (exchange area peer s) (
        Grows-dominates (env.held s area) (env.held (exchange area peer s) area)
          (env.held peer area) h (exchange-Grows s) already)

    exchange_progress :
        (s : S)
        → dominates (env.held s area) (some (env.held peer area)) ≡ false
        → lacking
            (env.held (exchange area peer s) area)
            (env.held peer area)
            (origins (env.held peer area))
          < lacking (env.held s area) (env.held peer area) (origins (env.held peer area))
    exchange_progress s behind =
        let (r, x, recs, applied, lack, sent, served, origin, seq) = exchange_applies s behind in
        let came =
          laws.stores s recs r x sent served
            (seq ∙ (lack.starts ∙ ap (λ o. get (env.held s area) o + 1) (sym origin))) in
        let more =
          subst (λ o. (place x).1 ≤ get (env.held (env.apply s area recs).0 area) o) origin came in
        let more' = subst (λ t. (place x).1 ≤ get (env.held t area) r.origin) (sym applied) more in
        lacking_drops (env.held s area) (env.held (exchange area peer s) area) (env.held peer area)
          r.origin (origins (env.held peer area)) (exchange-Grows s) lack.known
          (omega (arith, more', seq, lack.starts)) lack.lower

    catch_up :
        (n : ℕ) (s : S)
        → lacking (env.held s area) (env.held peer area) (origins (env.held peer area)) ≤ n
        → dominates (env.held (exchanges n area peer s) area) (some (env.held peer area)) ≡ true
    unfolding exchanges
    catch_up zero s few =
        lacking-dominates (env.held s area) (env.held peer area) h (omega (arith, few))
    catch_up (suc n) s few =
        elim (Bool-cases (dominates (env.held s area) (some (env.held peer area)))) [
          | inl already ↦ stays (suc n) s already
          | inr behind ↦
              catch_up n (exchange area peer s) (omega (arith, exchange_progress s behind, few))
        ]

    -- After as many exchanges without loss as a node lacks records of a peer, the vector of the node
    -- dominates that of the peer, which stays as it is meanwhile. Both limits of the configuration are
    -- at least one, the tag has four bytes, and the vector of the peer has its keys once and its
    -- fields in range. Of the stores: what is applied never lowers the vector of the area; the peer
    -- serves a range that it holds from its first record on; and a record that the peer serves is
    -- stored if it is the next one after those that the node holds.
    pub exchanges-dominates :
        (s : S)
        → dominates
            (env.held
              (exchanges
                (lacking (env.held s area) (env.held peer area) (origins (env.held peer area)))
                area
                peer
                s)
              area)
            (some (env.held peer area))
          ≡ true
    exchanges-dominates s =
        catch_up (lacking (env.held s area) (env.held peer area) (origins (env.held peer area))) s
          (omega arith)

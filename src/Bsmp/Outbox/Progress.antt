-- ===== src/Bsmp/Outbox/Progress.antt =====
-- `Outbox.SendRecords`: what a transmission costs, and where the next one resumes.
use meshbbs.Common.{
  ℕ, zero, suc, ◌+◌, ◌-◌, ◌≡◌, ◌≤◌, refl, sym, ap, ◌∙◌, some, List, arith, inl, inr, Bool-cases,
  Result-cases, leb, nat_eq, ◌⊎◌,
}
use mathlib.Core.Path.{subst}
use meshbbs.Common.Map.{put, find-put}
use meshbbs.Fountain.{header_size}
use meshbbs.Fountain.Encoder.{Encoder, new_encoder}
use meshbbs.Fountain.Decoder.Block.{new_encoder-Made}
use meshbbs.Bsmp.{frame_overhead, bundle_id_for}
use meshbbs.Bsmp.Outbox.{
  Outbox, Config, Charge, Sent, sent, no_budget, failed, max_symbols_per_bundle, broadcast,
  symbol_frame, cursor_at, send_loop, total_symbols, is_blocked, send_block, send_records,
}

Sent-cases : (r : Sent) → (r ≡ sent) ⊎ ((r ≡ no_budget) ⊎ (r ≡ failed))
Sent-cases sent = inl refl
Sent-cases no_budget = inr (inl refl)
Sent-cases failed = inr (inr refl)

cursor_at-put : (id n : ℕ) (m : List (ℕ × ℕ)) → cursor_at id (put id n m) ≡ n
unfolding cursor_at
cursor_at-put id n m = ground (arith, find-put id id n m, nat_eq.same_iff id id)

module _ {S A R D L : Type 0} (cfg : Config S A R D L) where
  -- The symbols that went out are those between the two cursors, and no cursor passes the bound.
  Paid : ℕ → ℕ → ℕ → Outbox D L → Outbox D L → Type 0
  Paid id start bound o o' =
      (o'.stats.symbols_sent + start ≡ o.stats.symbols_sent + cursor_at id o'.cursor)
      × (start ≤ cursor_at id o'.cursor)
      × (cursor_at id o'.cursor ≤ bound)
      × (o'.dict ≡ o.dict)

  send_loop-Paid :
      (n i : ℕ) (e : Encoder) (ch : Charge A) (o : Outbox D L) (st : S)
      → Paid e.bundle_id i (n + i) o (send_loop cfg n i e ch o st).0
  unfolding send_loop Paid
  send_loop-Paid zero i e ch o st = ground (arith, cursor_at-put e.bundle_id i o.cursor)
  send_loop-Paid (suc n) i e ch o st =
      let answer = cfg.send st broadcast (symbol_frame cfg.blake3 e i) ch in
      let o_next : Outbox D L = record o {
        stats = record (o.stats) { symbols_sent = o.stats.symbols_sent + 1 };
      } in
      let placed = cursor_at-put e.bundle_id i o.cursor in
      elim (Sent-cases answer.1) [
        | inl went ↦
            rw (went, send_loop) (ground (arith, send_loop-Paid n (i + 1) e ch o_next answer.0))
        | inr (inl refused) ↦ rw (refused, send_loop) (ground (arith, placed))
        | inr (inr broken) ↦ rw (broken, send_loop) (ground (arith, placed))
      ]

  bounded : (k start : ℕ) (loss : L) → total_symbols cfg k start loss ≤ max_symbols_per_bundle
  unfolding total_symbols
  bounded k start loss = ground arith

  grows :
      (k start : ℕ) (loss : L)
      → start ≤ max_symbols_per_bundle
      → start ≤ total_symbols cfg k start loss
  unfolding total_symbols
  grows k start loss h = ground arith

  send_block-Paid :
      (area : A) (e : Encoder) (o : Outbox D L) (st : S)
      → cursor_at e.bundle_id o.cursor ≤ max_symbols_per_bundle
      → Paid e.bundle_id
          (cursor_at e.bundle_id o.cursor)
          max_symbols_per_bundle
          o
          (send_block cfg area e o st).0
  unfolding send_block Paid
  send_block-Paid area e o st h =
      let start = cursor_at e.bundle_id o.cursor in
      let total = total_symbols cfg e.k start o.loss_rate in
      elim (Bool-cases (leb max_symbols_per_bundle start)) [
        | inl over ↦ rw (over, send_block) (refl, omega arith, h, refl)
        | inr under ↦
            rw (under, send_block)
              (elim (Bool-cases (is_blocked cfg (cfg.classify area))) [
                | inl blocked ↦ rw (blocked, send_block) (refl, omega arith, h, refl)
                | inr free ↦
                    rw (free, send_block)
                      (ground (
                        arith,
                        send_loop-Paid (total - start) start e
                            (record { class = cfg.classify area; area = some area }) o st,
                        bounded e.k start o.loss_rate,
                        grows e.k start o.loss_rate h,
                      ))
              ])
      ]

  -- A transmission of a packed bundle pays for what it gains: as many symbols go out as the cursor of
  -- the bundle moves, whether the link accepts them all, runs out of budget or fails. The cursor
  -- never moves back or past maxSymbolsPerBundle, if it was within it. The dictionary stays.
  pub send_records-Paid :
      (area : A) (recs : R) (o : Outbox D L) (st : S) (packed : List ℕ)
      → cfg.pack area recs o.dict ≡ some packed
      → let id = bundle_id_for cfg.blake3 packed in
        let o' = (send_records cfg area recs o st).0 in
        cursor_at id o.cursor ≤ max_symbols_per_bundle
        → (o'.stats.symbols_sent + cursor_at id o.cursor
            ≡ o.stats.symbols_sent + cursor_at id o'.cursor)
          × (cursor_at id o.cursor ≤ cursor_at id o'.cursor)
          × (cursor_at id o'.cursor ≤ max_symbols_per_bundle)
          × (o'.dict ≡ o.dict)
  unfolding send_records Paid
  send_records-Paid area recs o st packed p h =
      let id = bundle_id_for cfg.blake3 packed in
      rw (p, send_records)
        (elim (Bool-cases (leb cfg.mtu (frame_overhead + header_size))) [
          | inl narrow ↦ rw (narrow, send_records) (refl, omega arith, h, refl)
          | inr wide ↦
              rw (wide, send_records)
                (elim (Result-cases
                  (new_encoder cfg.self id packed (cfg.mtu - frame_overhead - header_size))) [
                    | inr (x, e) ↦ rw (e, send_records) (refl, omega arith, h, refl)
                    | inl (e, made) ↦
                        rw (made, send_records)
                          (let m =
                              new_encoder-Made cfg.self id packed
                                (cfg.mtu - frame_overhead - header_size) e made in
                            let same : e.bundle_id ≡ id = ap (λ x. x.bundle_id) m.made in
                            subst
                              (λ j.
                                Paid j (cursor_at j o.cursor) max_symbols_per_bundle o
                                  (send_block cfg area e o st).0)
                              same
                              (send_block-Paid area e o st (
                                subst (λ j. cursor_at j o.cursor ≤ max_symbols_per_bundle)
                                  (sym same) h)))
                  ])
        ])

  -- The same records sent again and again, while peers keep asking for them.
  unfoldable pub send_again : ℕ → A → R → Outbox D L → S → Outbox D L × S
  send_again zero area recs o st = (o, st)
  send_again (suc n) area recs o st =
      let (o', st', _) = send_records cfg area recs o st in send_again n area recs o' st'

  send_again_from :
      (n : ℕ) (area : A) (recs : R) (o : Outbox D L) (st : S) (packed : List ℕ)
      → cfg.pack area recs o.dict ≡ some packed
      → let start = cursor_at (bundle_id_for cfg.blake3 packed) o.cursor in
        start ≤ max_symbols_per_bundle
        → (send_again n area recs o st).0.stats.symbols_sent + start
          ≤ o.stats.symbols_sent + max_symbols_per_bundle
  unfolding send_again
  send_again_from zero area recs o st packed p h = omega arith
  send_again_from (suc n) area recs o st packed p h =
      let next = send_records cfg area recs o st in
      let (paid, forward, within, same) = send_records-Paid area recs o st packed p h in
      omega (
        arith,
        send_again_from n area recs next.0 next.1 packed (ap (cfg.pack area recs) same ∙ p) within,
      )

  -- A bundle that nobody decodes costs at most maxSymbolsPerBundle symbols, however often it is sent
  -- again, if its records pack and none of it was sent before.
  pub send_again-cost :
      (n : ℕ) (area : A) (recs : R) (o : Outbox D L) (st : S) (packed : List ℕ)
      → cfg.pack area recs o.dict ≡ some packed
      → cursor_at (bundle_id_for cfg.blake3 packed) o.cursor ≡ 0
      → (send_again n area recs o st).0.stats.symbols_sent
        ≤ o.stats.symbols_sent + max_symbols_per_bundle
  send_again-cost n area recs o st packed p h =
      omega (arith, send_again_from n area recs o st packed p (omega arith))

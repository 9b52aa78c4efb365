-- ===== src/Bsmp/Outbox/Policy.antt =====
-- `Outbox.SendRecords` and encrypted mail under an amateur licence.
use meshbbs.Common.{
  ◌+◌, ◌-◌, ◌≡◌, refl, Bool, false, some, inl, inr, Bool-cases, Option-cases, Result-cases, leb,
}
use meshbbs.Fountain.{header_size}
use meshbbs.Fountain.Encoder.{Encoder, new_encoder}
use meshbbs.Bsmp.{frame_overhead, bundle_id_for}
use meshbbs.Bsmp.Outbox.{
  Outbox, Config, dm_class, max_symbols_per_bundle, cursor_at, is_blocked, send_block, send_records,
}

module _ {S A R D L : Type 0} (cfg : Config S A R D L) where
  -- The link is as it was, and no symbol is counted or skipped.
  Silent : Outbox D L → S → Outbox D L × S × Bool → Type 0
  Silent o st r =
      (r.1 ≡ st) × (r.0.stats.symbols_sent ≡ o.stats.symbols_sent) × (r.0.cursor ≡ o.cursor)

  send_block-Silent :
      (area : A) (e : Encoder) (o : Outbox D L) (st : S)
      → cfg.classify area ≡ dm_class
      → cfg.allow_encrypted_dms ≡ some false
      → Silent o st (send_block cfg area e o st)
  unfolding send_block Silent is_blocked
  send_block-Silent area e o st mail banned =
      elim (Bool-cases (leb max_symbols_per_bundle (cursor_at e.bundle_id o.cursor))) [
        | inl over ↦ rw (over, send_block) (refl, refl, refl)
        | inr under ↦ rw (under, mail, banned, send_block, is_blocked) (refl, refl, refl)
      ]

  -- While encrypted mail is not allowed, no frame of a mail area reaches the link, whatever the
  -- records, the cursor and the outcome: the link stays as it was, and so does the cursor, so that
  -- the mail can go out later.
  pub send_records-Silent :
      (area : A) (recs : R) (o : Outbox D L) (st : S)
      → cfg.classify area ≡ dm_class
      → cfg.allow_encrypted_dms ≡ some false
      → let r = send_records cfg area recs o st in
        (r.1 ≡ st) × (r.0.stats.symbols_sent ≡ o.stats.symbols_sent) × (r.0.cursor ≡ o.cursor)
  unfolding send_records Silent
  send_records-Silent area recs o st mail banned = elim (Option-cases (cfg.pack area recs o.dict)) [
    | inl failed ↦ rw (failed, send_records) (refl, refl, refl)
    | inr (packed, p) ↦
        rw (p, send_records)
          (let id = bundle_id_for cfg.blake3 packed in
            elim (Bool-cases (leb cfg.mtu (frame_overhead + header_size))) [
              | inl narrow ↦ rw (narrow, send_records) (refl, refl, refl)
              | inr wide ↦
                  rw (wide, send_records)
                    (elim (Result-cases
                      (new_encoder cfg.self id packed (cfg.mtu - frame_overhead - header_size))) [
                        | inr (x, e) ↦ rw (e, send_records) (refl, refl, refl)
                        | inl (e, made) ↦
                            rw (made, send_records) (send_block-Silent area e o st mail banned)
                      ])
            ])
  ]

-- ===== src/Bsmp/Faithful.antt =====
-- From the outbox of one node to the inbox of another: what is handed over is what was packed.
use meshbbs.Common.{
  ℕ, ◌≡◌, ap, ◌∙◌, true, Option, none, some, List, length, arith, inl, inr, Bool-cases,
  Option-cases, nat_beq, ok,
}
use mathlib.Core.Path.{subst}
use meshbbs.Common.Bytes.{IsU16, IsU32}
use meshbbs.Common.Map.{find, put, delete, find-put, find-delete, IsMap}
use meshbbs.Identity.{NodeId}
use meshbbs.Fountain.Encoder.{Encoder, new_encoder, symbol}
use meshbbs.Fountain.Decoder.{Decoder, new_decoder, add}
use meshbbs.Fountain.Decoder.Block.{Encodes, Made, block_of, block_of-Encodes}
use meshbbs.Fountain.Decoder.Correct.{
  Follows, fresh, fresh-Follows, add-Follows, payload_of_done, length-symbol,
  new_decoder-new_encoder,
}
use meshbbs.Bsmp.{bundle_id_for}
use meshbbs.Bsmp.Outbox.{symbol_frame}
use meshbbs.Bsmp.Frame.{parse_frame-symbol_frame}
use meshbbs.Bsmp.Inbox.{
  OpenDecoder, Inbox, reject, expire, expire_decoders, evict_to_cap, update, open_decoder, complete,
  add_symbol, receive_new, receive,
}
use meshbbs.Bsmp.Inbox.Keys.{DecKey, dec_key_eq}
use meshbbs.Bsmp.Inbox.Bound.{complete-decoders}
use meshbbs.Bsmp.Inbox.Stalest.{find-evict_loop}
use meshbbs.Bsmp.Inbox.Isolation.{find-expire_decoders}

find-update :
    (k : DecKey) (od x : OpenDecoder) (m : List (DecKey × OpenDecoder))
    → find k (update k od m) ≡ some x
    → some od ≡ some x
unfolding update
find-update k od x m = elim (Option-cases (find k m)) [
  | inl e ↦ rw (e, update) (λ h. absurd (ground arith))
  | inr (od', e) ↦ rw (e, update) (λ h. ground (arith, find-put k k od m, dec_key_eq.same_iff k k))
]

same_dec : (a b : OpenDecoder) → some a ≡ some b → a.dec ≡ b.dec
same_dec a b h = ap (λ o. elim o [ none ↦ a.dec | some x ↦ x.dec ]) h

module _ (blake3 : List ℕ → List ℕ) (sender : NodeId) (id : ℕ) (p : List ℕ) (e : Encoder)
    (block : Encodes e p) where
  abbrev key : DecKey
  key = record { from = sender; bundle_id = id }

  -- The decoder of the bundle, if there is one, holds symbols of the block.
  abbrev pub IsTrue : List (DecKey × OpenDecoder) → Type 0
  IsTrue m = (od : OpenDecoder) → find key m ≡ some od → Follows blake3 e p block od.dec

  -- A result that keeps this, and hands over nothing but the packed bundle.
  abbrev pub IsFaithful : Inbox × Option (List ℕ) → Type 0
  IsFaithful r = IsTrue r.0.decoders × ((q : List ℕ) → r.1 ≡ some q → q ≡ p)

  complete-IsFaithful :
      (now : ℕ) (dec : Decoder) (b : Inbox)
      → Follows blake3 e p block dec
      → dec.finished ≡ true
      → IsFaithful (complete blake3 key now dec b)
  unfolding complete reject
  complete-IsFaithful now dec b follows done =
      let answer = payload_of_done blake3 e p block dec follows done in
      let gone = find-delete key key b.decoders in
      let no_decoder : find key (delete key b.decoders) ≡ none =
        ground (arith, dec_key_eq.same_iff key key) in
      (
        λ od h.
            absurd
              (ground (arith, ap (find key) (complete-decoders blake3 key now dec b) ∙ no_decoder)),
        rw (answer, complete)
            (elim (Bool-cases (nat_beq (bundle_id_for blake3 p) id)) [
              | inl agrees ↦ rw (agrees, complete) (λ q h. ground arith)
              | inr differs ↦ rw (differs, complete) (λ q h. absurd (ground arith))
            ]),
      )

  add_symbol-IsFaithful :
      (now : ℕ) (od : OpenDecoder) (i : ℕ) (b : Inbox)
      → Follows blake3 e p block od.dec
      → IsTrue b.decoders
      → IsFaithful (add_symbol blake3 key now od (symbol blake3 e i) b)
  unfolding add_symbol
  add_symbol-IsFaithful now od i b follows held =
      let (follows', accepted) = add-Follows blake3 e p block od.dec i follows in
      let d = (add blake3 od.dec (symbol blake3 e i)).0 in
      let od' : OpenDecoder = record od { dec = d } in
      rw (accepted, add_symbol)
        (elim (Bool-cases d.finished) [
          | inl done ↦ rw (done, add_symbol) (complete-IsFaithful now d _ follows' done)
          | inr open_still ↦
              rw (open_still, add_symbol)
                (
                  (λ x h.
                      subst (Follows blake3 e p block)
                        (same_dec od' x (find-update key od' x b.decoders h)) follows'),
                  λ q h. absurd (ground arith),
                )
        ])

  open_decoder-Follows :
      (now i : ℕ) (b : Inbox) (od : OpenDecoder) (start : Decoder)
      → (let s = symbol blake3 e i in
          new_decoder sender s.bundle_id s.k (length s.payload) (length p) ≡ ok start)
      → Follows blake3 e p block start
      → IsTrue b.decoders
      → open_decoder key now (length p) (symbol blake3 e i) b ≡ some od
      → Follows blake3 e p block od.dec
  unfolding open_decoder
  open_decoder-Follows now i b od start made follows held =
      elim (Option-cases (find key b.decoders)) [
        | inr (old, e') ↦
            rw (e', open_decoder)
              (λ h.
                subst (Follows blake3 e p block) (same_dec (record old { touched = now }) od h)
                  (held old e'))
        | inl no_key ↦
            rw (no_key, open_decoder)
              (rw (made, open_decoder)
                (λ h.
                  subst (Follows blake3 e p block)
                    (same_dec (record { dec = start; started = now; touched = now }) od h) follows))
      ]

  receive_new-IsFaithful :
      (now i : ℕ) (b : Inbox) (start : Decoder)
      → (let s = symbol blake3 e i in
          new_decoder sender s.bundle_id s.k (length s.payload) (length p) ≡ ok start)
      → Follows blake3 e p block start
      → IsMap b.decoders
      → IsTrue b.decoders
      → IsFaithful (receive_new blake3 key now (length p) (symbol blake3 e i) b)
  unfolding receive_new reject expire evict_to_cap
  receive_new-IsFaithful now i b start made follows distinct held =
      let young : IsTrue (expire_decoders now b.decoders).0 =
        λ x h. held x (ground (arith, find-expire_decoders key now b.decoders distinct)) in
      elim (Option-cases (open_decoder key now (length p) (symbol blake3 e i) (expire now b))) [
        | inl refused ↦ rw (refused, receive_new) (young, λ q h. absurd (ground arith))
        | inr (od, opened) ↦
            rw (opened, receive_new)
              (let grown =
                  open_decoder-Follows now i (expire now b) od start made follows young opened in
                let m = put key od (expire_decoders now b.decoders).0 in
                add_symbol-IsFaithful now od i _ grown (λ x h.
                  subst (Follows blake3 e p block)
                    (same_dec od x (
                      ground (
                        arith,
                        find-evict_loop (length m) m 0 key x h,
                        find-put key key od (expire_decoders now b.decoders).0,
                        dec_key_eq.same_iff key key,
                      )))
                    grown))
      ]

-- One packed bundle of one sender, as the outbox cuts it.
module _ (blake3 : List ℕ → List ℕ) (sender : NodeId) (id : ℕ) (p : List ℕ) (size : ℕ)
    (m : Made sender id p size (block_of sender id p size)) (id_fits : IsU32 id) where
  abbrev pub encoder : Encoder
  encoder = block_of sender id p size

  abbrev pub block : Encodes encoder p
  block = block_of-Encodes sender id p size m.some_bytes m.some_size

  pub receive_genuine :
      (now i : ℕ) (b : Inbox)
      → new_encoder sender id p size ≡ ok encoder
      → IsU16 i
      → IsMap b.decoders
      → IsTrue blake3 sender id p encoder block b.decoders
      → IsFaithful blake3 sender id p encoder block
          (receive blake3 now (record { from = sender; bytes = symbol_frame blake3 encoder i }) b)
  unfolding receive symbol
  receive_genuine now i b made index_fits distinct held =
      let parsed =
        parse_frame-symbol_frame blake3 sender sender id p size encoder i made id_fits index_fits in
      let width = length-symbol blake3 encoder p block i in
      let start = fresh sender id encoder.k size (length p) in
      let opened : new_decoder sender id encoder.k (length (symbol blake3 encoder i).payload)
            (length p)
          ≡ ok start =
        ap (λ w. new_decoder sender id encoder.k w (length p)) width
        ∙ new_decoder-new_encoder sender id p size encoder made in
      rw (parsed, receive)
        (elim (Option-cases (find (record { from = sender; bundle_id = id }) b.finished)) [
          | inr (at, known) ↦ rw (known, receive) (held, λ q h. absurd (ground arith))
          | inl new_key ↦
              rw (new_key, receive)
                (receive_new-IsFaithful blake3 sender id p encoder block now i b start opened
                  (fresh-Follows blake3 sender id p size block) distinct held)
        ])

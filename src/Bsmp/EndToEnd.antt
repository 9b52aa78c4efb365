-- ===== src/Bsmp/EndToEnd.antt =====
-- From the outbox of one node to the inbox of another, over any sequence of datagrams.
use meshbbs.Common.{
  ℕ, ◌≡◌, ◌≢◌, ◌⊎◌, sym, ap, ◌∙◌, none, some, List, [], ◌∷◌, All, arith, inl, inr, Option-cases, ok,
}
use mathlib.Core.Path.{subst}
use meshbbs.Common.Bytes.{IsU16, IsU32}
use meshbbs.Common.Map.{find, IsMap}
use meshbbs.Identity.{NodeId}
use meshbbs.Fountain.Encoder.{Encoder, new_encoder}
use meshbbs.Fountain.Decoder.Block.{Made, block_of, new_encoder-Made}
use meshbbs.Bsmp.Outbox.{symbol_frame}
use meshbbs.Bsmp.Inbox.{Inbox, OpenDecoder, Datagram, receive}
use meshbbs.Bsmp.Inbox.Keys.{DecKey, dec_key_eq}
use meshbbs.Bsmp.Inbox.Isolation.{receive-isolated, receive-IsMap}
use meshbbs.Bsmp.Faithful.{IsTrue, block, receive_genuine}

-- The packed bundles that a sequence of datagrams makes the inbox hand over, with their senders.
unfoldable pub bundles : (List ℕ → List ℕ) → List (ℕ × Datagram) → Inbox → List (NodeId × List ℕ)
bundles blake3 [] b = []
bundles blake3 ((now, dg) ∷ ds) b =
    let (b', packed) = receive blake3 now dg b in
    let rest = bundles blake3 ds b' in elim packed [ none ↦ rest | some q ↦ (dg.from, q) ∷ rest ]

-- A datagram of another node, or the frame of a symbol of the block.
abbrev pub IsArrival : (List ℕ → List ℕ) → NodeId → Encoder → ℕ × Datagram → Type 0
IsArrival blake3 sender e d =
    (d.1.from ≢ sender)
    ⊎ ((i : ℕ) × IsU16 i × (d.1 ≡ record { from = sender; bytes = symbol_frame blake3 e i }))

module _ (blake3 : List ℕ → List ℕ) (sender : NodeId) (id : ℕ) (p : List ℕ) (size : ℕ)
    (m : Made sender id p size (block_of sender id p size)) (id_fits : IsU32 id)
    (made : new_encoder sender id p size ≡ ok (block_of sender id p size)) where
  abbrev Holds : List (DecKey × OpenDecoder) → Type 0
  Holds ds =
      IsTrue blake3 sender id p (block_of sender id p size)
        (block blake3 sender id p size m id_fits) ds

  -- One datagram: what it hands over under the name of the sender is the packed bundle.
  arrival :
      (now : ℕ) (dg : Datagram) (b : Inbox)
      → IsArrival blake3 sender (block_of sender id p size) (now, dg)
      → IsMap b.decoders
      → Holds b.decoders
      → Holds (receive blake3 now dg b).0.decoders
        × ((q : List ℕ) → (receive blake3 now dg b).1 ≡ some q → dg.from ≡ sender → q ≡ p)
  arrival now dg b (inl other) distinct held = (
    λ od h. held od (
        ground (
          arith,
          receive-isolated blake3 now dg b (record { from = sender; bundle_id = id }) distinct
              (λ e. other (sym e)),
        )),
    λ q h same. absurd (other same),
  )
  arrival now dg b (inr (i, index_fits, same)) distinct held =
      let (held', faithful) =
        receive_genuine blake3 sender id p size m id_fits now i b made index_fits distinct held in
      let back = ap (λ x. receive blake3 now x b) same in
      (
        subst (λ r. Holds r.0.decoders) (sym back) held',
        λ q h _. faithful q (sym (ap (λ r. r.1) back) ∙ h),
      )

  bundles-Holds :
      (ds : List (ℕ × Datagram)) (b : Inbox)
      → All (IsArrival blake3 sender (block_of sender id p size)) ds
      → IsMap b.decoders
      → Holds b.decoders
      → All (λ h. h.0 ≡ sender → h.1 ≡ p) (bundles blake3 ds b)
  unfolding bundles
  bundles-Holds [] b arrives distinct held = tt
  bundles-Holds ((now, dg) ∷ ds) b (first, arrives) distinct held =
      let (held', faithful) = arrival now dg b first distinct held in
      let rest =
        bundles-Holds ds (receive blake3 now dg b).0 arrives
          (receive-IsMap blake3 now dg b distinct) held' in
      elim (Option-cases (receive blake3 now dg b).1) [
        | inl silent ↦ rw (silent, bundles) rest
        | inr (q, given) ↦ rw (given, bundles) (faithful q given, rest)
      ]

-- An inbox that hears frames of one block from its sender, in any order, with losses and repeats,
-- among any datagrams of other nodes, hands over nothing in that sender's name but the packed
-- bundle, whatever the digest function. It starts with each decoder's key once and no decoder for
-- that bundle, whose ID is a uint32.
pub bundles-faithful :
    (blake3 : List ℕ → List ℕ) (sender : NodeId) (id : ℕ) (packed : List ℕ) (size : ℕ) (e : Encoder)
    (ds : List (ℕ × Datagram)) (b : Inbox)
    → new_encoder sender id packed size ≡ ok e
    → IsU32 id
    → All (IsArrival blake3 sender e) ds
    → IsMap b.decoders
    → find (record { from = sender; bundle_id = id }) b.decoders ≡ none
    → All (λ h. h.0 ≡ sender → h.1 ≡ packed) (bundles blake3 ds b)
bundles-faithful blake3 sender id packed size e ds b made id_fits arrives distinct no_decoder =
    let m = new_encoder-Made sender id packed size e made in
    bundles-Holds blake3 sender id packed size (subst (Made sender id packed size) m.made m) id_fits
      (made ∙ ap ok m.made) ds b (subst (λ x. All (IsArrival blake3 sender x) ds) m.made arrives)
      distinct (λ od h. absurd (ground arith))

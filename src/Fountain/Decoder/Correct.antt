-- ===== src/Fountain/Decoder/Correct.antt =====
-- A decoder that is fed symbols of one block gives back the payload of that block.
use meshbbs.Common.{
  ℕ, ◌≡◌, ◌<◌, refl, sym, ap, ap₂, ◌∙◌, true, false, List, [], ◌∷◌, ◌++◌, length, length-replicate,
  replicate, All, All-append, get_or, arith, Bool-cases, Option-cases, ltb, ltb→lt, leb, nat_beq,
  nat_beq_iff, inl, inr, ok, err, ◌≢◌, ◌⊎◌,
}
use meshbbs.Identity.{NodeId}
use meshbbs.Fountain.{Error}
use meshbbs.Fountain.Symbol.{Symbol}
use meshbbs.Fountain.Mask.Laws.{mask_shape}
use meshbbs.Fountain.Encoder.{Encoder, new_encoder, xor_bytes, symbol}
use meshbbs.Fountain.Solve.{Equation, try_solve}
use meshbbs.Fountain.Solve.Rows.{IsSum, zeros-xor_bytes}
use meshbbs.Fountain.Solve.Sound.{combine_unit, All-width, try_solve-source}
use meshbbs.Fountain.Decoder.{
  Decoder, new_decoder, has_seen, unit_mask, solve, row_mask, add_new, add, payload,
}
use meshbbs.Fountain.Decoder.Block.{
  Encodes, block_of, new_encoder-Made, block_of-Encodes, enough_chunks, length-combine,
  get_or-unit_mask, length-unit_mask,
}

-- A decoder that is fed the symbols of the given indices, in that order.
unfoldable pub feed : (List ℕ → List ℕ) → Encoder → Decoder → List ℕ → Decoder
feed blake3 e d [] = d
feed blake3 e d (i ∷ is) = feed blake3 e (add blake3 d (symbol blake3 e i)).0 is

module _ (blake3 : List ℕ → List ℕ) (e : Encoder) (p : List ℕ) (block : Encodes e p) where
  -- What a decoder of the block knows: rows that are sums of its source symbols, and the source
  -- symbols themselves once it is done.
  pub record Follows (d : Decoder) : Type 0 where
    same_sender : d.sender ≡ e.sender
    same_id : d.bundle_id ≡ e.bundle_id
    same_k : d.k ≡ e.k
    same_size : d.sym_size ≡ e.sym_size
    same_orig : d.orig_len ≡ e.orig_len
    sums : All (IsSum e.k e.sym_size e.source) d.rows
    answer : d.finished ≡ true → d.solved ≡ e.source

  source-IsSum :
      (index : ℕ)
      → index < e.k
      → IsSum e.k e.sym_size e.source
          (record { mask = unit_mask e.k index; payload = get_or e.source index [] })
  source-IsSum index h = record {
    places = length-unit_mask e.k index;
    total = sym (
        combine_unit (replicate e.sym_size 0) (unit_mask e.k index) e.source index
          (length-unit_mask e.k index ∙ sym block.size) (omega (arith, length-unit_mask e.k index))
          (λ c l. get_or-unit_mask e.k index c h)
        ∙ ap (λ n. xor_bytes (replicate n 0) (get_or e.source index []))
            (sym (All-width e.sym_size e.source index block.widths (omega (arith, block.size))))
        ∙ zeros-xor_bytes (get_or e.source index []));
  }

  -- The row that a symbol of the block becomes.
  row-IsSum :
      (d : Decoder) (index : ℕ)
      → Follows d
      → IsSum e.k e.sym_size e.source
          (record { mask = row_mask blake3 d index; payload = (symbol blake3 e index).payload })
  unfolding row_mask symbol
  row-IsSum d index f =
      rw (f.same_k, f.same_sender, f.same_id)
        (elim (Bool-cases (ltb index e.k)) [
          | inl systematic ↦ rw systematic (source-IsSum index (ltb→lt index e.k systematic))
          | inr repair ↦ rw repair (record {
            places = (mask_shape blake3 e.sender e.bundle_id index e.k block.some_k).0;
            total = refl;
          })
        ])

  pub length-symbol : (index : ℕ) → length (symbol blake3 e index).payload ≡ e.sym_size
  unfolding symbol
  length-symbol index = elim (Bool-cases (ltb index e.k)) [
    | inl systematic ↦ rw systematic (
        All-width e.sym_size e.source index block.widths
          (omega (arith, block.size, ltb→lt index e.k systematic)))
    | inr repair ↦
        rw repair
          (length-combine (replicate e.sym_size 0) _ e.source ∙ length-replicate e.sym_size 0)
  ]

  solve-Follows : (d : Decoder) → Follows d → Follows (solve d)
  unfolding solve
  solve-Follows d f = elim (Option-cases (try_solve d.k d.rows)) [
    | inl unsolved ↦ rw (unsolved, solve) f
    | inr (solved, got) ↦
        rw (got, solve)
          (record {
            same_sender = f.same_sender;
            same_id = f.same_id;
            same_k = f.same_k;
            same_size = f.same_size;
            same_orig = f.same_orig;
            sums = f.sums;
            answer = λ _.
                try_solve-source e.k e.sym_size e.source block.widths block.size d.rows solved
                  f.sums (rw f.same_k at got);
          })
  ]

  add_new-Follows :
      (d : Decoder) (index : ℕ) → Follows d → Follows (add_new blake3 d (symbol blake3 e index))
  unfolding add_new row_mask symbol try_solve
  add_new-Follows d index f = elim (Bool-cases (leb d.k (length (d.rows ++ (new_row ∷ []))))) [
    | inl enough ↦ rw enough (solve-Follows _ grown)
    | inr few ↦ rw few grown
  ]
    where
      new_row : Equation
      new_row = record { mask = row_mask blake3 d index; payload = (symbol blake3 e index).payload }

      grown : Follows (record d { rows = d.rows ++ (new_row ∷ []); seen = index ∷ d.seen })
      grown = record {
        same_sender = f.same_sender;
        same_id = f.same_id;
        same_k = f.same_k;
        same_size = f.same_size;
        same_orig = f.same_orig;
        sums = All-append _ d.rows (new_row ∷ []) f.sums (row-IsSum d index f, tt);
        answer = f.answer;
      }

  fits :
      (d : Decoder) (index : ℕ)
      → Follows d
      → (nat_beq (symbol blake3 e index).bundle_id d.bundle_id ≡ true)
        × (nat_beq (symbol blake3 e index).k d.k ≡ true)
        × (nat_beq (length (symbol blake3 e index).payload) d.sym_size ≡ true)
  unfolding symbol
  fits d index f = (
    (nat_beq_iff e.bundle_id d.bundle_id).1 (sym f.same_id),
    (nat_beq_iff e.k d.k).1 (sym f.same_k),
    (nat_beq_iff _ d.sym_size).1 (length-symbol index ∙ sym f.same_size),
  )

  -- `Add` of a symbol of the block is never refused, and keeps what the decoder knows true.
  pub add-Follows :
      (d : Decoder) (index : ℕ)
      → Follows d
      → Follows (add blake3 d (symbol blake3 e index)).0
        × ((add blake3 d (symbol blake3 e index)).1
            ≡ ok (add blake3 d (symbol blake3 e index)).0.finished)
  unfolding add
  add-Follows d index f =
      let (id, k, size) = fits d index f in
      elim (Bool-cases d.finished) [
        | inl known ↦ simp known (f, refl)
        | inr open_still ↦
            simp (open_still, id, k, size)
              (elim (Bool-cases (has_seen (symbol blake3 e index).index d.seen)) [
                | inl again ↦ simp (again, open_still) (f, refl)
                | inr fresh ↦ simp fresh (add_new-Follows d index f, refl)
              ])
      ]

  feed-Follows : (d : Decoder) (indices : List ℕ) → Follows d → Follows (feed blake3 e d indices)
  unfolding feed
  feed-Follows d [] f = f
  feed-Follows d (i ∷ is) f =
      feed-Follows (add blake3 d (symbol blake3 e i)).0 is (add-Follows d i f).0

  pub payload_of_done : (d : Decoder) → Follows d → d.finished ≡ true → payload d ≡ ok p
  unfolding payload
  payload_of_done d f fin = simp (fin, f.answer fin, f.same_orig, block.orig, block.whole) refl

-- The decoder that `NewDecoder` returns.
abbrev pub fresh : NodeId → ℕ → ℕ → ℕ → ℕ → Decoder
fresh sender bundle_id k sym_size orig_len = record {
  sender = sender;
  bundle_id = bundle_id;
  k = k;
  sym_size = sym_size;
  orig_len = orig_len;
  rows = [];
  seen = [];
  solved = [];
  finished = false;
}

pub fresh-Follows :
    (blake3 : List ℕ → List ℕ) (sender : NodeId) (bundle_id : ℕ) (p : List ℕ) (sym_size : ℕ)
    (block : Encodes (block_of sender bundle_id p sym_size) p)
    → Follows blake3
        (block_of sender bundle_id p sym_size)
        p
        block
        (fresh sender bundle_id (block_of sender bundle_id p sym_size).k sym_size (length p))
fresh-Follows blake3 sender bundle_id p sym_size block = record {
  same_sender = refl;
  same_id = refl;
  same_k = refl;
  same_size = refl;
  same_orig = refl;
  sums = tt;
  answer = λ h. ground arith;
}

-- `NewDecoder` accepts the parameters of every block that `NewEncoder` makes.
pub new_decoder-new_encoder :
    (sender : NodeId) (bundle_id : ℕ) (p : List ℕ) (sym_size : ℕ) (e : Encoder)
    → new_encoder sender bundle_id p sym_size ≡ ok e
    → new_decoder sender bundle_id e.k sym_size (length p)
      ≡ ok (fresh sender bundle_id e.k sym_size (length p))
unfolding new_decoder
new_decoder-new_encoder sender bundle_id p sym_size e h =
    let m = new_encoder-Made sender bundle_id p sym_size e h in
    ground (
      arith,
      m.made,
      m.some_size,
      m.size_fits,
      m.some_bytes,
      m.k_fits,
      enough_chunks (length p) sym_size m.some_bytes m.some_size,
    )

abbrev fresh_of : NodeId → ℕ → List ℕ → ℕ → Decoder
fresh_of sender bundle_id p sym_size =
    fresh sender bundle_id (block_of sender bundle_id p sym_size).k sym_size (length p)

fresh_payload :
    (blake3 : List ℕ → List ℕ) (sender : NodeId) (bundle_id : ℕ) (p : List ℕ) (sym_size : ℕ)
    (indices : List ℕ)
    → 0 < length p
    → 0 < sym_size
    → (feed blake3
        (block_of sender bundle_id p sym_size)
        (fresh_of sender bundle_id p sym_size)
        indices).finished
      ≡ true
    → payload (
        feed blake3
          (block_of sender bundle_id p sym_size)
          (fresh_of sender bundle_id p sym_size)
          indices)
      ≡ ok p
fresh_payload blake3 sender bundle_id p sym_size indices some_bytes some_size =
    let block = block_of-Encodes sender bundle_id p sym_size some_bytes some_size in
    payload_of_done blake3 (block_of sender bundle_id p sym_size) p block _ (
      feed-Follows blake3 (block_of sender bundle_id p sym_size) p block
        (fresh_of sender bundle_id p sym_size) indices
        (fresh-Follows blake3 sender bundle_id p sym_size block))

-- Whichever symbols of a block that NewEncoder makes arrive at a new decoder for it, in whatever
-- order and however often: if the decoder is done, its payload is the one that was encoded. This is
-- so for every digest function.
pub payload-feed :
    (blake3 : List ℕ → List ℕ) (sender : NodeId) (bundle_id : ℕ) (p : List ℕ) (sym_size : ℕ)
    (e : Encoder) (d : Decoder) (indices : List ℕ)
    → new_encoder sender bundle_id p sym_size ≡ ok e
    → new_decoder sender bundle_id e.k sym_size (length p) ≡ ok d
    → (feed blake3 e d indices).finished ≡ true
    → payload (feed blake3 e d indices) ≡ ok p
payload-feed blake3 sender bundle_id p sym_size e d indices h g fin =
    let m = new_encoder-Made sender bundle_id p sym_size e h in
    let started : ok d ≡ ok (fresh sender bundle_id e.k sym_size (length p)) =
      sym g ∙ new_decoder-new_encoder sender bundle_id p sym_size e h in
    let began : d ≡ fresh_of sender bundle_id p sym_size =
      cc started ∙ ap (λ x. fresh sender bundle_id x.k sym_size (length p)) m.made in
    let same : feed blake3 e d indices
        ≡ feed blake3 (block_of sender bundle_id p sym_size) (fresh_of sender bundle_id p sym_size)
            indices =
      ap₂ (λ x y. feed blake3 x y indices) m.made began in
    rw same (
      fresh_payload blake3 sender bundle_id p sym_size indices m.some_bytes m.some_size
        (rw same at fin))

-- Every symbol of a block that NewEncoder makes is accepted, at every point: `Add` reports no error
-- but whether the decoder is done.
pub add-feed :
    (blake3 : List ℕ → List ℕ) (sender : NodeId) (bundle_id : ℕ) (p : List ℕ) (sym_size : ℕ)
    (e : Encoder) (indices : List ℕ) (index : ℕ)
    → new_encoder sender bundle_id p sym_size ≡ ok e
    → let d = feed blake3 e (fresh sender bundle_id e.k sym_size (length p)) indices in
      (add blake3 d (symbol blake3 e index)).1
      ≡ ok (add blake3 d (symbol blake3 e index)).0.finished
add-feed blake3 sender bundle_id p sym_size e indices index h =
    let m = new_encoder-Made sender bundle_id p sym_size e h in
    let block = block_of-Encodes sender bundle_id p sym_size m.some_bytes m.some_size in
    let B = block_of sender bundle_id p sym_size in
    rw m.made
      (add-Follows blake3 B p block (feed blake3 B (fresh_of sender bundle_id p sym_size) indices)
        index
        (feed-Follows blake3 B p block (fresh_of sender bundle_id p sym_size) indices
          (fresh-Follows blake3 sender bundle_id p sym_size block))).1

-- A symbol that `Add` refuses changes nothing; and it is refused only if it names another bundle or
-- another block size, or has another length.
pub add_refused :
    (blake3 : List ℕ → List ℕ) (d : Decoder) (s : Symbol) (x : Error)
    → (add blake3 d s).1 ≡ err x
    → ((add blake3 d s).0 ≡ d)
      × (((s.bundle_id ≢ d.bundle_id) ⊎ (s.k ≢ d.k)) ⊎ (length s.payload ≢ d.sym_size))
unfolding add
add_refused blake3 d s x h = ground arith

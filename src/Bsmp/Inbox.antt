-- ===== src/Bsmp/Inbox.antt =====
-- internal/bsmp/inbox.go: reassembly of datagrams into bundles.
-- A method that mutates `*Inbox` returns the new record, and time is a number of nanoseconds. The
-- part of `symbol` under the lock is `receive`, the part after it `apply_packed`. What `OnEvent`
-- reports is left out.
pub mod Keys
pub mod Capacity
pub mod Outcome
pub mod Delivery
pub mod Bound
pub mod Isolation
pub mod Stalest
use meshbbs.Common.{
  ℕ, zero, suc, ◌+◌, ◌-◌, ◌*◌, Bool, true, false, ◌&&◌, ◌||◌, not, Option, none, some, List, [],
  ◌∷◌, length, drop, ◌≡◌, ◌⊎◌, refl, inl, inr, get_or, if◌then◌else◌, ltb, leb, nat_beq, bytes_beq,
  bytes_beq_iff, Comparable, ◌==◌, Result, ok, err,
}
use meshbbs.Common.Map.{find, put, delete}
use meshbbs.Identity.{NodeId}
use meshbbs.Fountain.{header_size}
use meshbbs.Fountain.Symbol.{Symbol, decode_symbol}
use meshbbs.Fountain.Decoder.{Decoder, new_decoder, add, payload}
use meshbbs.Bsmp.{frame_overhead, frame_control, frame_symbol, word_of, bundle_id_for}
use Keys.{DecKey, dec_key_eq}

-- `maxOrigLen`, `maxOpenDecoders` and `decoderTTL`
abbrev pub max_orig_len : ℕ
max_orig_len = 1048576

abbrev pub max_open_decoders : ℕ
max_open_decoders = 64

abbrev pub decoder_ttl : ℕ
decoder_ttl = 21600000000000

pub record OpenDecoder : Type 0 where
  pub dec : Decoder
  pub started : ℕ
  pub touched : ℕ

pub record InboxStats : Type 0 where
  pub control : ℕ
  pub symbols : ℕ
  pub decoded : ℕ
  pub records_added : ℕ
  pub rejected : ℕ
  pub corrupt : ℕ
  pub unknown_dictionary : ℕ
  pub duplicates : ℕ
  pub evicted : ℕ

pub record Inbox : Type 0 where
  pub decoders : List (DecKey × OpenDecoder)
  pub finished : List (DecKey × ℕ)  -- `done`
  pub stats : InboxStats

-- `link.Datagram`
pub record Datagram : Type 0 where
  pub from : NodeId
  pub bytes : List ℕ

-- `bump` of the counters that more than one place bumps.
unfoldable pub reject : Inbox → Inbox
reject b = let s = b.stats in record b { stats = record s { rejected = s.rejected + 1 } }

-- The first loop of `expire`: the decoders that stay, and how many do not.
unfoldable pub expire_decoders : ℕ → List (DecKey × OpenDecoder) → List (DecKey × OpenDecoder) × ℕ
expire_decoders now [] = ([], 0)
expire_decoders now ((k, od) ∷ m) =
    let (rest, n) = expire_decoders now m in
    if ltb decoder_ttl (now - od.touched) then (rest, n + 1) else ((k, od) ∷ rest, n)

-- Its second loop.
unfoldable pub expire_done : ℕ → List (DecKey × ℕ) → List (DecKey × ℕ)
expire_done now [] = []
expire_done now ((k, at) ∷ m) =
    let rest = expire_done now m in if ltb decoder_ttl (now - at) then rest else (k, at) ∷ rest

-- `expire`
unfoldable pub expire : ℕ → Inbox → Inbox
expire now b =
    let (open_still, n) = expire_decoders now b.decoders in
    let s = b.stats in
    record b {
      decoders = open_still;
      finished = expire_done now b.finished;
      stats = record s { evicted = s.evicted + n };
    }

-- The search of `evictToCap`: the first entry that was touched longest ago.
unfoldable pub oldest : List (DecKey × OpenDecoder) → DecKey → ℕ → DecKey
oldest [] k at = k
oldest ((j, od) ∷ m) k at =
    oldest m (if ltb od.touched at then j else k) (if ltb od.touched at then od.touched else at)

unfoldable pub oldest_key : List (DecKey × OpenDecoder) → Option DecKey
oldest_key [] = none
oldest_key ((j, od) ∷ m) = some (oldest m j od.touched)

-- The loop of `evictToCap`: the decoders that stay, and how many do not. Each round takes a decoder
-- away, so the number of decoders is fuel enough.
unfoldable pub evict_loop : ℕ → List (DecKey × OpenDecoder) → ℕ → List (DecKey × OpenDecoder) × ℕ
evict_loop zero m n = (m, n)
evict_loop (suc fuel) m n = elim (ltb max_open_decoders (length m)) [
  | false ↦ (m, n)
  | true ↦ elim (oldest_key m) [ none ↦ (m, n) | some k ↦ evict_loop fuel (delete k m) (n + 1) ]
]

-- `evictToCap`
unfoldable pub evict_to_cap : Inbox → Inbox
evict_to_cap b =
    let (kept, n) = evict_loop (length b.decoders) b.decoders 0 in
    let s = b.stats in record b { decoders = kept; stats = record s { evicted = s.evicted + n } }

-- A write through the pointer that the map holds, if it still holds it.
unfoldable pub update :
    DecKey → OpenDecoder → List (DecKey × OpenDecoder) → List (DecKey × OpenDecoder)
update k od m = elim (find k m) [ none ↦ m | some _ ↦ put k od m ]

-- The frames that `symbol` refuses before it takes the lock; otherwise the length and the symbol.
unfoldable pub parse_frame : Datagram → Option (ℕ × Symbol)
parse_frame dg =
    let orig_len = word_of (drop 1 dg.bytes) in
    if ltb (length dg.bytes) (frame_overhead + header_size)
    then none
    else (if nat_beq orig_len 0 || ltb max_orig_len orig_len
        then none
        else elim (decode_symbol (drop frame_overhead dg.bytes)) [
          | err x ↦ none
          | ok sym ↦ some (orig_len, sym)
        ])

-- `in.decoders[key]`, or a new decoder for the symbol's block.
unfoldable pub open_decoder : DecKey → ℕ → ℕ → Symbol → Inbox → Option OpenDecoder
open_decoder key now orig_len sym b = elim (find key b.decoders) [
  | some od ↦ some (record od { touched = now })
  | none ↦ elim (new_decoder key.from sym.bundle_id sym.k (length sym.payload) orig_len) [
    | err x ↦ none
    | ok dec ↦ some (record { dec = dec; started = now; touched = now })
  ]
]

-- The end of a decode: the payload has to hash to the bundle ID of the symbols.
unfoldable pub complete : (List ℕ → List ℕ) → DecKey → ℕ → Decoder → Inbox → Inbox × Option (List ℕ)
complete blake3 key now dec b =
    let s = b.stats in
    let b' = record b { decoders = delete key b.decoders } in
    elim (payload dec) [
      | err x ↦ (reject b', none)
      | ok packed ↦
          if nat_beq (bundle_id_for blake3 packed) key.bundle_id
          then (
            record b' {
              finished = put key now b'.finished;
              stats = record s { decoded = s.decoded + 1 };
            },
            some packed,
          )
          else (record b' { stats = record s { corrupt = s.corrupt + 1 } }, none)
    ]

-- The symbol is handed to its decoder, which the map may no longer hold.
unfoldable pub add_symbol :
    (List ℕ → List ℕ) → DecKey → ℕ → OpenDecoder → Symbol → Inbox → Inbox × Option (List ℕ)
add_symbol blake3 key now od sym b =
    let (dec, result) = add blake3 od.dec sym in
    elim result [
      | err x ↦ (reject b, none)
      | ok _ ↦
          let s = b.stats in
          let b' = record b {
            decoders = update key (record od { dec = dec }) b.decoders;
            stats = record s { symbols = s.symbols + 1 };
          } in
          if dec.finished then complete blake3 key now dec b' else (b', none)
    ]

-- What `symbol` does under the lock with a key that is not done.
unfoldable pub receive_new :
    (List ℕ → List ℕ) → DecKey → ℕ → ℕ → Symbol → Inbox → Inbox × Option (List ℕ)
receive_new blake3 key now orig_len sym b =
    let b' = expire now b in
    elim (open_decoder key now orig_len sym b') [
      | none ↦ (reject b', none)
      | some od ↦
          add_symbol blake3 key now od sym
            (evict_to_cap (record b' { decoders = put key od b'.decoders }))
    ]

-- `symbol` up to the point where it gives up the lock: the packed bundle, if there is one now.
unfoldable pub receive : (List ℕ → List ℕ) → ℕ → Datagram → Inbox → Inbox × Option (List ℕ)
receive blake3 now dg b = elim (parse_frame dg) [
  | none ↦ (reject b, none)
  | some (orig_len, sym) ↦
      let key : DecKey = record { from = dg.from; bundle_id = sym.bundle_id } in
      elim (find key b.finished) [
        | some at ↦
            let s = b.stats in
            (record b { stats = record s { duplicates = s.duplicates + 1 } }, none)
        | none ↦ receive_new blake3 key now orig_len sym b
      ]
]

-- What `bundle.Unpack` answers.
pub data Unpacked (R : Type 0) : Type 0 where
  bundle : R → Unpacked R
  no_dictionary : Unpacked R
  malformed : Unpacked R

pub Unpacked-cases :
    {R : Type 0} (u : Unpacked R)
    → (u ≡ malformed) ⊎ ((u ≡ no_dictionary) ⊎ ((r : R) × (u ≡ bundle r)))
Unpacked-cases malformed = inl refl
Unpacked-cases no_dictionary = inr (inl refl)
Unpacked-cases (bundle r) = inr (inr (r, refl))

-- The gossip engine (`Applier`) with its state, and the bundle format: what the inbox calls. The
-- results of the two calls are an error or none, and an error or a number of new records.
pub record Services (E R : Type 0) : Type 0 where
  pub blake3 : List ℕ → List ℕ
  pub unpack : List ℕ → Unpacked R
  pub control : E → NodeId → List ℕ → E × Bool
  pub apply_records : E → R → E × Option ℕ

module _ {E R : Type 0} (env : Services E R) where
  -- `symbol` after it has given up the lock. The Boolean says whether it returns no error.
  unfoldable pub apply_packed : List ℕ → Inbox → E → Inbox × E × Bool
  apply_packed packed b e =
      let s = b.stats in
      elim (env.unpack packed) [
        | malformed ↦ (reject b, e, true)
        | no_dictionary ↦ (
          record b { stats = record s { unknown_dictionary = s.unknown_dictionary + 1 } },
          e,
          true,
        )
        | bundle r ↦
            let (e', added) = env.apply_records e r in
            elim added [
              | none ↦ (b, e', false)
              | some n ↦
                  (record b { stats = record s { records_added = s.records_added + n } }, e', true)
            ]
      ]

  -- `symbol`
  unfoldable pub symbol : ℕ → Datagram → Inbox → E → Inbox × E × Bool
  symbol now dg b e =
      let (b', packed) = receive env.blake3 now dg b in
      elim packed [ none ↦ (b', e, true) | some p ↦ apply_packed p b' e ]

  -- `Deliver`
  unfoldable pub deliver : ℕ → Datagram → Inbox → E → Inbox × E × Bool
  deliver now dg b e =
      let s = b.stats in
      if nat_beq (length dg.bytes) 0
      then (b, e, true)
      else (if nat_beq (get_or dg.bytes 0 0) frame_control
          then (let (e', fine) = env.control e dg.from (drop 1 dg.bytes) in
              (record b { stats = record s { control = s.control + 1 } }, e', fine))
          else (if nat_beq (get_or dg.bytes 0 0) frame_symbol
              then symbol now dg b e
              else (reject b, e, true)))

-- `Pending`
abbrev pub pending : Inbox → ℕ
pending b = length b.decoders

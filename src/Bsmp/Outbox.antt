-- ===== src/Bsmp/Outbox.antt =====
-- internal/bsmp/outbox.go: records become fountain symbols on a link.
-- A method that mutates `*Outbox` returns the new record and the new state of the link. The context
-- and `OnRefusedDM` are left out.
pub mod Progress
pub mod Policy
use meshbbs.Common.{
  ℕ, zero, suc, ◌+◌, ◌-◌, ◌*◌, Bool, true, false, ◌&&◌, not, Option, none, some, List, [], ◌∷◌,
  ◌++◌, length, if◌then◌else◌, ltb, leb, nat_eq, Result, ok, err,
}
use meshbbs.Common.Map.{find, put, delete}
use meshbbs.Common.Bytes.{be32}
use meshbbs.Identity.{NodeId, node_id_len}
use meshbbs.Fountain.{header_size, max_k}
use meshbbs.Fountain.Symbol.{encode}
use meshbbs.Fountain.Encoder.{Encoder, new_encoder, symbol}
use meshbbs.Bsmp.{frame_overhead, frame_control, frame_symbol, bundle_id_for}

-- `governor.Class`
pub data Class : Type 0 where
  control_class dm_class forum_class file_catalog_class door_event_class : Class

-- `governor.Charge`
pub record Charge (A : Type 0) : Type 0 where
  pub class : Class
  pub area : Option A  -- the zero tag is `none`

-- The error that a link's `Send` returns, if any: `link.ErrNoBudget` or another one.
pub data Sent : Type 0 where
  sent no_budget failed : Sent

-- `Stats`
pub record Stats : Type 0 where
  pub messages_sent : ℕ
  pub symbols_sent : ℕ
  pub bundles_sent : ℕ
  pub refused : ℕ
  pub abandoned : ℕ
  pub refused_ham_mode : ℕ

-- `Outbox`, over the types of dictionaries and of loss rates.
pub record Outbox (D L : Type 0) : Type 0 where
  pub cursor : List (ℕ × ℕ)
  pub loss_rate : L
  pub dict : D
  pub stats : Stats

-- `Config`, with what the outbox calls: the link with its state, the digest function, the bundle
-- format (`bundle.Pack`), the policy, and the floating-point arithmetic on loss rates.
pub record Config (S A R D L : Type 0) : Type 0 where
  pub self : NodeId
  pub mtu : ℕ
  pub send : S → NodeId → List ℕ → Charge A → S × Sent
  pub blake3 : List ℕ → List ℕ
  pub pack : A → R → D → Option (List ℕ)
  pub classify : A → Class
  pub allow_encrypted_dms : Option Bool  -- `nil`, or what the function answers
  pub repair_count : ℕ → L → ℕ
  pub below : L → L → Bool
  pub zero_rate : L
  pub max_loss_rate : L

-- `maxSymbolsPerBundle`
abbrev pub max_symbols_per_bundle : ℕ
max_symbols_per_bundle = 4 * max_k

-- `link.Broadcast`
abbrev pub broadcast : NodeId
broadcast = 0 ∷ 0 ∷ 0 ∷ 0 ∷ 0 ∷ 0 ∷ 0 ∷ 0 ∷ []

-- The frame of a symbol, as `SendRecords` builds it.
unfoldable pub symbol_frame : (List ℕ → List ℕ) → Encoder → ℕ → List ℕ
symbol_frame blake3 e i = frame_symbol ∷ (be32 e.orig_len ++ encode (symbol blake3 e i))

-- `o.cursor[bundleID]`
unfoldable pub cursor_at : ℕ → List (ℕ × ℕ) → ℕ
cursor_at id m = elim (find id m) [ none ↦ 0 | some n ↦ n ]

module _ {S A R D L : Type 0} (cfg : Config S A R D L) where
  -- `SendMessage`. The Boolean says whether it returns no error.
  unfoldable pub send_message : NodeId → List ℕ → Outbox D L → S → Outbox D L × S × Bool
  send_message to message o st =
      let frame = frame_control ∷ message in
      let s = o.stats in
      if ltb cfg.mtu (length frame)
      then (o, st, false)
      else (let (st', answer) =
            cfg.send st to frame (record { class = control_class; area = none }) in
          elim answer [
            | no_budget ↦ (record o { stats = record s { refused = s.refused + 1 } }, st', true)
            | failed ↦ (o, st', false)
            | sent ↦
                (record o { stats = record s { messages_sent = s.messages_sent + 1 } }, st', true)
          ])

  -- The loop of `SendRecords` with what follows it: the rounds left, and the index of the next
  -- symbol, which is the total when no round is left. No index reaches 65536.
  unfoldable pub send_loop : ℕ → ℕ → Encoder → Charge A → Outbox D L → S → Outbox D L × S × Bool
  send_loop zero i e ch o st =
      let s = o.stats in
      (
        record o {
          cursor = put e.bundle_id i o.cursor;
          stats = record s { bundles_sent = s.bundles_sent + 1 };
        },
        st,
        true,
      )
  send_loop (suc n) i e ch o st =
      let (st', answer) = cfg.send st broadcast (symbol_frame cfg.blake3 e i) ch in
      let s = o.stats in
      elim answer [
        | no_budget ↦ (
          record o {
            cursor = put e.bundle_id i o.cursor;
            stats = record s { refused = s.refused + 1 };
          },
          st',
          true,
        )
        | failed ↦ (record o { cursor = put e.bundle_id i o.cursor }, st', false)
        | sent ↦
            send_loop n (i + 1) e ch
              (record o { stats = record s { symbols_sent = s.symbols_sent + 1 } }) st'
      ]

  -- How far `SendRecords` goes: past the block, or past what went out before.
  unfoldable pub total_symbols : ℕ → ℕ → L → ℕ
  total_symbols k start loss =
      let all = k + cfg.repair_count k loss in
      let total = if leb all start then start + cfg.repair_count k loss else all in
      if ltb max_symbols_per_bundle total then max_symbols_per_bundle else total

  -- The block on amateur bands: mail may not go out encrypted.
  unfoldable pub is_blocked : Class → Bool
  is_blocked dm_class = elim cfg.allow_encrypted_dms [ none ↦ false | some allowed ↦ not allowed ]
  is_blocked control_class = false
  is_blocked forum_class = false
  is_blocked file_catalog_class = false
  is_blocked door_event_class = false

  -- `SendRecords` with the encoder at hand.
  unfoldable pub send_block : A → Encoder → Outbox D L → S → Outbox D L × S × Bool
  send_block area e o st =
      let s = o.stats in
      let start = cursor_at e.bundle_id o.cursor in
      if leb max_symbols_per_bundle start
      then (record o { stats = record s { abandoned = s.abandoned + 1 } }, st, true)
      else (let total = total_symbols e.k start o.loss_rate in
          let class = cfg.classify area in
          if is_blocked class
          then (
            record o { stats = record s { refused_ham_mode = s.refused_ham_mode + 1 } },
            st,
            true,
          )
          else send_loop (total - start) start e (record { class = class; area = some area }) o st)

  -- `SendRecords`. An MTU that leaves no room for a symbol is an error.
  unfoldable pub send_records : A → R → Outbox D L → S → Outbox D L × S × Bool
  send_records area recs o st = elim (cfg.pack area recs o.dict) [
    | none ↦ (o, st, false)
    | some packed ↦
        if leb cfg.mtu (frame_overhead + header_size)
        then (o, st, false)
        else elim (new_encoder cfg.self (bundle_id_for cfg.blake3 packed) packed
            (cfg.mtu - frame_overhead - header_size)) [
              | err x ↦ (o, st, false)
              | ok e ↦ send_block area e o st
            ]
  ]

  -- `SetLossRate`
  unfoldable pub set_loss_rate : L → Outbox D L → Outbox D L
  set_loss_rate rate o =
      let raised = if cfg.below rate cfg.zero_rate then cfg.zero_rate else rate in
      record o {
        loss_rate = if cfg.below cfg.max_loss_rate raised then cfg.max_loss_rate else raised;
      }

-- `SetDictionary`, where nil changes nothing.
unfoldable pub set_dictionary : {D L : Type 0} → Option D → Outbox D L → Outbox D L
set_dictionary none o = o
set_dictionary (some d) o = record o { dict = d }

-- `Forget`
unfoldable pub forget : {D L : Type 0} → ℕ → Outbox D L → Outbox D L
forget id o = record o { cursor = delete id o.cursor }

-- ===== src/Bsmp/Tests.antt =====
-- Concrete nodes and links: runs, and the theorems at inputs where their hypotheses hold.
use meshbbs.Common.{
  ℕ, zero, suc, ◌+◌, ◌-◌, if◌then◌else◌, ap, ◌≡◌, ◌≤◌, refl, true, false, none, some, List, [], ◌∷◌,
  length, All, replicate, arith, inl, inr, ok, ltb, nat_eq,
}
use meshbbs.Common.Map.{find, put, delete, IsMap}
use meshbbs.Identity.{NodeId}
use meshbbs.Fountain.Encoder.{Encoder, new_encoder, source_loop, chunk, symbol}
use meshbbs.Fountain.Symbol.{Symbol, encode, decode_symbol}
use meshbbs.Fountain.Decoder.{
  new_decoder, has_seen, unit_mask, solve, row_mask, add_new, add, join_symbols, payload,
}
use meshbbs.Fountain.Solve.{
  try_solve, eliminate, collect, select, pivot, clear, swap, add_row, has_bit,
}
use meshbbs.Fountain.Decoder.Correct.{fresh}
use meshbbs.Bsmp.{bundle_id_for, word_of}
use meshbbs.Bsmp.Inbox.{
  OpenDecoder, InboxStats, Inbox, Datagram, bundle, Services, reject, expire_decoders, expire_done,
  expire, oldest, oldest_key, evict_loop, evict_to_cap, update, parse_frame, open_decoder, complete,
  add_symbol, receive_new, receive, deliver, pending, max_open_decoders,
}
use meshbbs.Bsmp.Inbox.Keys.{DecKey, dec_key_eq}
use meshbbs.Bsmp.Inbox.Delivery.{key_of, receive_handed, handed, handed-IsMap}
use meshbbs.Bsmp.Inbox.Bound.{deliver-pending}
use meshbbs.Bsmp.Inbox.Stalest.{evict_to_cap-stalest}
use meshbbs.Bsmp.Outbox.{
  dm_class, forum_class, Charge, Sent, sent, no_budget, Outbox, Config, symbol_frame, cursor_at,
  send_loop, total_symbols, is_blocked, send_block, send_records, max_symbols_per_bundle,
}
use meshbbs.Bsmp.Outbox.Progress.{send_records-Paid, send_again, send_again-cost}
use meshbbs.Bsmp.Outbox.Policy.{send_records-Silent}
use meshbbs.Bsmp.EndToEnd.{bundles, bundles-faithful}

-- A digest of thirty-two fives, so that every bundle ID is 0x05050505.
abbrev digest : List ℕ → List ℕ
digest b = replicate 32 5

abbrev id : ℕ
id = 84215045

abbrev node : NodeId
node = 1 ∷ 2 ∷ 3 ∷ 4 ∷ 5 ∷ 6 ∷ 7 ∷ 8 ∷ []

abbrev other : NodeId
other = 9 ∷ 2 ∷ 3 ∷ 4 ∷ 5 ∷ 6 ∷ 7 ∷ 8 ∷ []

abbrev text : List ℕ
text = 10 ∷ 20 ∷ 30 ∷ []

abbrev block : Encoder
block = record {
  sender = node;
  bundle_id = id;
  k = 2;
  sym_size = 2;
  source = (10 ∷ 20 ∷ []) ∷ (30 ∷ 0 ∷ []) ∷ [];
  orig_len = 3;
}

block_made : new_encoder node id text 2 ≡ ok block
unfolding new_encoder source_loop chunk
block_made = refl

abbrev counters : InboxStats
counters = record {
  control = 0;
  symbols = 0;
  decoded = 0;
  records_added = 0;
  rejected = 0;
  corrupt = 0;
  unknown_dictionary = 0;
  duplicates = 0;
  evicted = 0;
}

abbrev empty_box : Inbox
empty_box = record { decoders = []; finished = []; stats = counters }

abbrev frame_of : ℕ → Datagram
unfolding symbol_frame symbol encode
frame_of i = record { from = node; bytes = symbol_frame digest block i }

-- The two source symbols, the second one twice, and a frame of another node in between.
abbrev arrivals : List (ℕ × Datagram)
arrivals =
    (10, frame_of 1)
    ∷ (11, record { from = other; bytes = 2 ∷ [] })
    ∷ (12, frame_of 1)
    ∷ (13, frame_of 0)
    ∷ (14, frame_of 0)
    ∷ []

bundles_run : bundles digest arrivals empty_box ≡ (node, text) ∷ []
unfolding bundles receive parse_frame word_of symbol_frame symbol encode decode_symbol find put
    delete receive_new expire expire_decoders expire_done open_decoder new_decoder evict_to_cap
    evict_loop add_symbol add add_new has_seen row_mask unit_mask solve try_solve eliminate collect
    select pivot clear swap add_row has_bit update complete payload join_symbols bundle_id_for
    reject
bundles_run = refl

bundles-faithful_example : All (λ h. h.0 ≡ node → h.1 ≡ text) (bundles digest arrivals empty_box)
unfolding find frame_of
bundles-faithful_example =
    bundles-faithful digest node id text 2 block arrivals empty_box block_made (omega arith)
      (
        inr (1, omega arith, refl),
        (
          inl (λ e. ground arith),
          (
            inr (1, omega arith, refl),
            (inr (0, omega arith, refl), (inr (0, omega arith, refl), tt)),
          ),
        ),
      )
      tt refl

handed-IsMap_example : IsMap (handed digest arrivals empty_box)
handed-IsMap_example = handed-IsMap digest 10 arrivals empty_box (omega arith)

-- The inbox after the first frame.
abbrev half_box : Inbox
half_box = (receive digest 10 (frame_of 1) empty_box).0

complete_run :
    receive digest 13 (frame_of 0) half_box
    ≡ ((receive digest 13 (frame_of 0) half_box).0, some text)
unfolding receive parse_frame word_of symbol_frame frame_of symbol encode decode_symbol find put
    delete receive_new expire expire_decoders expire_done open_decoder new_decoder evict_to_cap
    evict_loop add_symbol add add_new has_seen row_mask unit_mask solve try_solve eliminate collect
    select pivot clear swap add_row has_bit update complete payload join_symbols bundle_id_for
    reject
complete_run = refl

receive_handed_example :
    (orig_len : ℕ) × (s : Symbol) × (parse_frame (frame_of 0) ≡ some (orig_len, s))
    × (find (key_of (frame_of 0) s) half_box.finished ≡ none)
    × (bundle_id_for digest text ≡ s.bundle_id)
    × (find (key_of (frame_of 0) s) (receive digest 13 (frame_of 0) half_box).0.finished ≡ some 13)
    × (find (key_of (frame_of 0) s) (receive digest 13 (frame_of 0) half_box).0.decoders ≡ none)
receive_handed_example =
    receive_handed digest 13 (frame_of 0) half_box (receive digest 13 (frame_of 0) half_box).0 text
      complete_run

-- An engine that counts the records.
abbrev services : Services ℕ (List ℕ)
services = record {
  blake3 = digest;
  unpack = λ b. bundle b;
  control = λ n from message. (n, true);
  apply_records = λ n recs. (n + length recs, some (length recs));
}

deliver-pending_example :
    pending (deliver services 10 (frame_of 1) empty_box 0).0 ≤ max_open_decoders
deliver-pending_example = deliver-pending services 10 (frame_of 1) empty_box 0 (omega arith)

abbrev other_key : DecKey
other_key = record { from = other; bundle_id = id }

abbrev open_at : ℕ → OpenDecoder
open_at t = record { dec = fresh node id 2 2 3; started = t; touched = t }

abbrev shared_box : Inbox
shared_box = record empty_box { decoders = (other_key, open_at 5) ∷ [] }

-- One decoder more than the cap; the one with ID 30 was touched first.
unfoldable many : ℕ → List (DecKey × OpenDecoder)
many zero = []
many (suc n) =
    (record { from = node; bundle_id = suc n }, open_at (if ltb n 30 then 100 - n else n)) ∷ many n

many_absent : (n j : ℕ) → n ≤ j → find (record { from = node; bundle_id = suc j }) (many n) ≡ none
unfolding many find
many_absent zero j h = refl
many_absent (suc n) j h = ground (
  arith,
  many_absent n j,
  dec_key_eq.same_iff (record { from = node; bundle_id = suc n })
      (record { from = node; bundle_id = suc j }),
  ap {A = DecKey} (λ k. k.bundle_id) {x = record { from = node; bundle_id = suc n }}
      {y = record { from = node; bundle_id = suc j }},
)

many-IsMap : (n : ℕ) → IsMap (many n)
unfolding many
many-IsMap zero = tt
many-IsMap (suc n) = (many_absent n n (omega arith), many-IsMap n)

abbrev full_box : Inbox
full_box = record empty_box { decoders = many 65 }

abbrev numbered : ℕ → DecKey
numbered n = record { from = node; bundle_id = n }

evict_to_cap-stalest_example :
    ((open_at 30).touched ≤ (open_at 64).touched)
    × (find (numbered 65) full_box.decoders ≡ some (open_at 64))
unfolding many find evict_to_cap evict_loop oldest oldest_key delete
evict_to_cap-stalest_example =
    evict_to_cap-stalest full_box (numbered 31) (numbered 65) (open_at 30) (open_at 64)
      (many-IsMap 65) refl refl refl

-- A link that counts down its budget, and then refuses.
abbrev link : ℕ → NodeId → List ℕ → Charge ℕ → ℕ × Sent
link n to frame charge = elim n [ zero ↦ (0, no_budget) | suc m ↦ (m, sent) ]

abbrev config : Config ℕ ℕ (List ℕ) ℕ ℕ
config = record {
  self = node;
  mtu = 15;
  send = link;
  blake3 = digest;
  pack = λ area recs dict. some recs;
  classify = λ area. if ltb area 1 then dm_class else forum_class;
  allow_encrypted_dms = some false;
  repair_count = λ k loss. 1;
  below = ltb;
  zero_rate = 0;
  max_loss_rate = 50;
}

abbrev outbox : Outbox ℕ ℕ
outbox = record {
  cursor = [];
  loss_rate = 0;
  dict = 1;
  stats = record {
    messages_sent = 0;
    symbols_sent = 0;
    bundles_sent = 0;
    refused = 0;
    abandoned = 0;
    refused_ham_mode = 0;
  };
}

-- Two symbols and a repair symbol are due, and the budget is for two: the cursor stops at two.
resumed : (send_records config 7 text outbox 2).0.cursor ≡ (id, 2) ∷ []
unfolding send_records new_encoder source_loop chunk send_block cursor_at find total_symbols
    is_blocked send_loop put bundle_id_for word_of
resumed = refl

no_cursor : cursor_at (bundle_id_for digest text) outbox.cursor ≡ 0
unfolding cursor_at find
no_cursor = refl

send_records-Paid_example :
    let o = (send_records config 7 text outbox 2).0 in
    let n = cursor_at (bundle_id_for digest text) in
    (o.stats.symbols_sent + n outbox.cursor ≡ outbox.stats.symbols_sent + n o.cursor)
    × (n outbox.cursor ≤ n o.cursor)
    × (n o.cursor ≤ max_symbols_per_bundle)
    × (o.dict ≡ outbox.dict)
send_records-Paid_example =
    send_records-Paid config 7 text outbox 2 text refl (omega (arith, no_cursor))

send_again-cost_example :
    (send_again config 1000 7 text outbox 5000).0.stats.symbols_sent
    ≤ outbox.stats.symbols_sent + max_symbols_per_bundle
send_again-cost_example = send_again-cost config 1000 7 text outbox 5000 text refl no_cursor

send_records-Silent_example :
    let r = send_records config 0 text outbox 2 in
    (r.1 ≡ 2) × (r.0.stats.symbols_sent ≡ outbox.stats.symbols_sent) × (r.0.cursor ≡ outbox.cursor)
send_records-Silent_example = send_records-Silent config 0 text outbox 2 refl refl

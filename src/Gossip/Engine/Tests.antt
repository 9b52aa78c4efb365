-- ===== src/Gossip/Engine/Tests.antt =====
-- Concrete engines: runs, and the theorems at inputs where their hypotheses hold.
use meshbbs.Common.{
  arith, some, sym, ◌≤◌, ℕ, ◌+◌, ◌≡◌, ◌⊎◌, refl, All, Bool, true, false, ◌&&◌, ◌||◌, List, [], ◌∷◌,
  bytes_eq, ◌==◌, if◌then◌else◌, nat_beq, bytes_beq, bytes_beq_iff, length, leb, ◌<◌, ◌^◌,
}
use mathlib.Core.List.{Memᴰ}
use mathlib.Core.Path.{subst}
use meshbbs.Common.Map.{find}
use meshbbs.Identity.{NodeId}
use meshbbs.Gossip.Engine.Lacking.{lacking}
use meshbbs.Gossip.Engine.Converge.{Stores, exchanges, exchanges-dominates}
use meshbbs.Vv.{
  get, get_entry, IsVector, Range, dominates, Vector, len, hash, hash_input, origins, keys, sort,
  count, count_loop,
}
use meshbbs.Gossip.Digest.{saturating_count}
use meshbbs.Gossip.Tests.{news, news_state, chat_state, heartbeat_bytes, heartbeat_read}
use meshbbs.Gossip.Engine.{PendingAsk, send_message, send_records, set_loss_rate, Engine, Env, call}
use meshbbs.Gossip.Engine.Parts.{is_queued, has_tag}
use meshbbs.Gossip.Engine.Handlers.{on_digest}
use meshbbs.Gossip.Engine.Cycle.{fire_one, fire_loop, fire_pending, fresh_peer, receive}
use meshbbs.Gossip.Engine.Pending.{QueuedOnce, receive-QueuedOnce}
use meshbbs.Gossip.Engine.Firing.{Served, fire_pending-Served}
use meshbbs.Gossip.Engine.Quiet.{carries, holds_same, shares_any, agrees_all, on_digest-silences}
use meshbbs.Gossip.Engine.Behind.{is_behind, on_digest-asks}

-- A node that carries one area, whose store is the vector of that area. Its outbox takes all that is
-- sent but to `closed`.
abbrev one_area : (NodeId → Bool) → Env Vector ℕ ℕ ℕ
one_area closed = record {
  self = 7 ∷ [];
  cfg = record {
    request_delay = 30;
    max_ranges_per_request = 30;
    max_records_per_push = 64;
    peer_timeout = 0;
    dictionary = 1;
  };
  areas = λ s. news ∷ [];
  held = λ s t. s;
  records = λ s t r. [];
  apply = λ s t rs. (s, 0, true);
  blake3 = λ b. b;
  accepts = λ calls c now. elim c [
    | send_message to payload ↦ (if closed to then false else true)
    | send_records area rs ↦ true
    | set_loss_rate rate ↦ true
  ];
  can_send = λ calls now. true;
  jittered = λ peers size g. (100, g);
  delay = λ g. (5, g + 1);
  adapts = false;
  climbed = λ f. f + 1;
  decayed = λ f. f;
  same_rate = λ f g. nat_beq f g;
}

abbrev open_air : Env Vector ℕ ℕ ℕ
open_air = one_area (λ to. false)

abbrev ask_of : NodeId → ℕ → PendingAsk
ask_of peer ready = record { peer = peer; area = news; ready = ready; want_hash = 1 ∷ 2 ∷ [] }

abbrev engine : List PendingAsk → Engine Vector ℕ ℕ ℕ
engine asks = record {
  store = record { entries = [] };
  calls = [];
  rnd = 0;
  sched = record { last = 0; due = 50; heard_matching = false; suppressed = 0; sent_count = 0 };
  peers = [];
  pending = asks;
  loss = 0;
  stats = record {
    digests_sent = 0;
    digests_heard = 0;
    bundles_observed = 0;
    bundles_missed = 0;
    vector_reqs_sent = 0;
    vector_reqs_dropped = 0;
    vectors_sent = 0;
    range_reqs_sent = 0;
    records_pushed = 0;
    records_applied = 0;
    bytes_sent = 0;
  };
}

abbrev asks : List PendingAsk
asks = ask_of (1 ∷ []) 3 ∷ ask_of (2 ∷ []) 90 ∷ ask_of (3 ∷ []) 4 ∷ []

-- An error of the outbox at the third ask: the first has gone out, and is forgotten, but the second
-- stands twice.
queued_twice :
    (fire_pending (one_area (λ to. to == (3 ∷ []))) 10 (engine asks)).0.pending
    ≡ ask_of (2 ∷ []) 90 ∷ ask_of (2 ∷ []) 90 ∷ ask_of (3 ∷ []) 4 ∷ []
unfolding fire_pending fire_loop fire_one call hash hash_input origins keys sort
queued_twice = refl

-- With nothing kept before it, an ask that has gone out stays queued.
queued_still :
    (fire_pending
      (one_area (λ to. to == (3 ∷ [])))
      10
      (engine (ask_of (1 ∷ []) 3 ∷ ask_of (3 ∷ []) 4 ∷ []))).0.pending
    ≡ ask_of (1 ∷ []) 3 ∷ ask_of (3 ∷ []) 4 ∷ []
unfolding fire_pending fire_loop fire_one call hash hash_input origins keys sort
queued_still = refl

fire_pending-Served_example :
    let e' = (fire_pending open_air 10 (engine asks)).0 in
    All (λ a. Memᴰ a e'.pending ⊎ Served open_air e'.store e'.calls a) asks × QueuedOnce e'.pending
unfolding fire_pending fire_loop fire_one call hash hash_input origins keys sort is_queued
fire_pending-Served_example =
    fire_pending-Served open_air 10 (engine asks) (refl, (refl, (refl, tt))) refl

receive-QueuedOnce_example :
    QueuedOnce (receive open_air 10 (2 ∷ []) heartbeat_bytes (engine asks)).0.pending
unfolding is_queued
receive-QueuedOnce_example =
    receive-QueuedOnce open_air 10 (2 ∷ []) heartbeat_bytes (engine asks) (refl, (refl, (refl, tt)))

on_digest-silences_example :
    (on_digest open_air 10
      (2 ∷ [])
      (fresh_peer (2 ∷ []))
      heartbeat_bytes
      (engine asks)).0.sched.heard_matching
    ≡ (false
        || (shares_any open_air (record { entries = [] }) (chat_state ∷ news_state ∷ [])
            && agrees_all open_air (record { entries = [] }) (chat_state ∷ news_state ∷ [])))
on_digest-silences_example =
    on_digest-silences open_air 10 (2 ∷ []) (fresh_peer (2 ∷ [])) heartbeat_bytes
      (record { dictionary = 1; areas = chat_state ∷ news_state ∷ [] }) (engine asks) heartbeat_read

on_digest-asks_example :
    is_queued
      (9 ∷ [])
      news
      (on_digest open_air 10 (9 ∷ []) (fresh_peer (9 ∷ [])) heartbeat_bytes (engine asks)).0.pending
    ≡ true
unfolding is_behind carries holds_same hash hash_input origins keys sort count count_loop
    saturating_count len fresh_peer has_tag
on_digest-asks_example =
    on_digest-asks open_air 10 (9 ∷ []) (fresh_peer (9 ∷ [])) heartbeat_bytes
      (record { dictionary = 1; areas = chat_state ∷ news_state ∷ [] }) (engine asks) news_state
      heartbeat_read (Memᴰ.tail (Memᴰ.head refl)) refl

-- Stores that hold the records of one origin up to a mark, a record being its sequence.
abbrev alpha : NodeId
alpha = 1 ∷ 2 ∷ 3 ∷ 4 ∷ 5 ∷ 6 ∷ 7 ∷ 8 ∷ []

abbrev up_to : ℕ → Vector
up_to n = record { entries = (alpha, n) ∷ [] }

-- The next record that a node with `n` of them stores, if it is among these.
unfoldable stored : ℕ → List ℕ → ℕ
stored n [] = n
stored n (x ∷ xs) = stored (if nat_beq x (n + 1) then x else n) xs

-- The records of a range, from its first one on.
unfoldable served : ℕ → Range → List ℕ
served n r =
    if bytes_beq r.origin alpha && (leb 1 r.from && (leb r.from r.to && leb r.to n))
    then r.from ∷ []
    else []

abbrev marks : Env ℕ ℕ ℕ ℕ
marks = record {
  self = 7 ∷ [];
  cfg = open_air.cfg;
  areas = λ s. news ∷ [];
  held = λ s t. up_to s;
  records = λ s t r. served s r;
  apply = λ s t rs. (stored s rs, length rs, true);
  blake3 = λ b. b;
  accepts = λ calls c now. true;
  can_send = λ calls now. true;
  jittered = λ peers size g. (100, g);
  delay = λ g. (5, g + 1);
  adapts = false;
  climbed = λ f. f + 1;
  decayed = λ f. f;
  same_rate = λ f g. nat_beq f g;
}

get-up_to : (n : ℕ) (o : NodeId) → get (up_to n) o ≡ (if bytes_beq alpha o then n else 0)
unfolding get get_entry find
get-up_to n o = ground arith

stored_grows : (n : ℕ) (xs : List ℕ) → n ≤ stored n xs
unfolding stored
stored_grows n [] = omega arith
stored_grows n (x ∷ xs) = ground (arith, stored_grows (n + 1) xs, stored_grows n xs)

stored_next : (n : ℕ) (xs : List ℕ) → Memᴰ (n + 1) xs → n + 1 ≤ stored n xs
unfolding stored
stored_next n [] h = elim h [ ]
stored_next n (x ∷ xs) (Memᴰ.head e) = ground (arith, e, stored_grows (n + 1) xs)
stored_next n (x ∷ xs) (Memᴰ.tail h) = ground (arith, stored_grows (n + 1) xs, stored_next n xs h)

-- A range that the peer holds is of the one origin, and is served.
origin_of :
    (n : ℕ) (r : Range)
    → 1 ≤ r.from
    → r.from ≤ r.to
    → r.to ≤ get (up_to n) r.origin
    → alpha ≡ r.origin
origin_of n r low order held =
    ground (arith, get-up_to n r.origin, bytes_beq_iff alpha r.origin, low, order, held)

served_first :
    (n : ℕ) (r : Range)
    → 1 ≤ r.from
    → r.from ≤ r.to
    → r.to ≤ get (up_to n) r.origin
    → served n r ≡ r.from ∷ []
unfolding served
served_first n r low order held =
    let same = origin_of n r low order held in
    ground (arith, get-up_to n r.origin, bytes_beq_iff r.origin alpha, sym same, low, order, held)

stored_upto :
    (n x : ℕ) (xs : List ℕ)
    → Memᴰ x xs
    → x ≡ get (up_to n) alpha + 1
    → x ≤ get (up_to (stored n xs)) alpha
stored_upto n x xs sent next =
    let next' : x ≡ n + 1 = ground (arith, next, get-up_to n alpha, bytes_beq_iff alpha alpha) in
    let reached = stored_next n xs (subst (λ y. Memᴰ y xs) next' sent) in
    ground (arith, next', reached, get-up_to (stored n xs) alpha, bytes_beq_iff alpha alpha)

marks-Stores : Stores marks news 2 (λ x. (alpha, x))
marks-Stores = record {
  keeps =
      λ s a recs o. ground (arith, get-up_to s o, get-up_to (stored s recs) o, stored_grows s recs);
  serves = λ r low order held.
      (r.from, [], served_first 2 r low order held, origin_of 2 r low order held, refl);
  stores = λ s recs r x sent from_peer next. stored_upto s x recs sent next;
}

up_to-IsVector : (n : ℕ) → n < 2 ^ 64 → IsVector (up_to n)
unfolding find
up_to-IsVector n h = record { distinct = (refl, tt); typed = omega (arith, h) }

exchanges-dominates_example :
    dominates
      (up_to (exchanges marks (lacking (up_to 0) (up_to 2) (origins (up_to 2))) news 2 0))
      (some (up_to 2))
    ≡ true
exchanges-dominates_example =
    exchanges-dominates marks news 2 (λ x. (alpha, x)) refl (omega arith) (omega arith)
      (up_to-IsVector 2 (omega arith)) marks-Stores 0

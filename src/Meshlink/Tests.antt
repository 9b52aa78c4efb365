-- ===== src/Meshlink/Tests.antt =====
-- A peer that moves, a radio that changes hands, and a link that receives and sends.
use meshbbs.Common.{
  ℕ, ◌*◌, ◌%◌, ◌≡◌, ◌⊎◌, refl, Bool, true, false, none, some, List, [], ◌∷◌, ◌++◌, length,
  replicate, take, All, arith, if◌then◌else◌, ltb, bytes_beq, bytes_beq_iff, nat_eq, bytes_eq, ok,
  err,
}
use meshbbs.Common.Bytes.{IsByte, be32, read_be32}
use meshbbs.Common.Map.{find, put, delete}
use meshbbs.Bsmp.Outbox.{forum_class}
use meshbbs.Governor.{Charge}
use meshbbs.Governor.Calls.{new_governor, with_defaults, inbound_for, note_inbound}
use meshbbs.Governor.Tests.{whole, config}
use meshbbs.Meshlink.{
  Crypto, IsKey, Announcement, stale_announce, radio_mismatch, PeerTable, second,
}
use meshbbs.Meshlink.Wire.{encode_announce, decode_announce, starts_with}
use meshbbs.Meshlink.Wire.RoundTrip.{
  decode_announce-encode_announce, IsSigned, decode_announce-IsSigned,
}
use meshbbs.Meshlink.Peers.{new_peer_table, bind_radio, learn, radio_for, id_for}
use meshbbs.Meshlink.Table.{
  IsConsistent, bind_radio-IsConsistent, unknown-IsFree, new_peer_table-IsConsistent,
}
use meshbbs.Meshlink.Learn.{Learned, IsStale, learn-outcome}
use meshbbs.Meshlink.Asking.{ask_times, AreApart, ask_times-AreApart}
use meshbbs.Meshlink.Links.{MeshPacket, Link, Setup, private_app}
use meshbbs.Meshlink.Receive.{hand_up, limited, by_frame_type, decoded, deliver}
use meshbbs.Meshlink.Transmit.{own_number, send_charged}
use meshbbs.Meshlink.Deliver.{Effect, deliver-Effect}
use meshbbs.Meshlink.Charged.{Outcome, send_charged-outcome}

abbrev pub sign_last : List ℕ → List ℕ → List ℕ
sign_last public m = replicate 64 (length m % 256)

abbrev pub crypto : Crypto
crypto = record {
  sign = sign_last;
  verify = λ public m signature. bytes_beq signature (sign_last public m);
  id_of_key = take 8;
}

abbrev pub public_key : List ℕ
public_key = replicate 32 5

pub public_key-IsKey : IsKey crypto public_key
public_key-IsKey = record {
  key_length = refl;
  signature_length = λ m. refl;
  verifies = λ m. (bytes_beq_iff (sign_last public_key m) (sign_last public_key m)).1 refl;
}

decode_announce-encode_announce_example :
    decode_announce crypto (encode_announce crypto public_key 7 (9 * second)) 8 ≡ err radio_mismatch
decode_announce-encode_announce_example =
    decode_announce-encode_announce crypto public_key 7 (9 * second) 8 public_key-IsKey
      (omega arith)

abbrev heard : Announcement
heard = record { id = replicate 8 5; public_key = public_key; radio = 7; at = 9 * second }

are_bytes : List ℕ → Bool
are_bytes [] = true
are_bytes (b ∷ bs) = let rest = are_bytes bs in if ltb b 256 then rest else false

are_bytes-All : (bs : List ℕ) → are_bytes bs ≡ true → All IsByte bs
unfolding are_bytes
are_bytes-All [] h = tt
are_bytes-All (b ∷ bs) h = (ground (arith, h), are_bytes-All bs (ground (arith, h)))

abbrev frame : List ℕ
frame = 3 ∷ (public_key ++ (be32 7 ++ (be32 9 ++ replicate 64 41)))

decode_announce-IsSigned_example : IsSigned crypto heard 7 frame
unfolding are_bytes decode_announce starts_with read_be32
decode_announce-IsSigned_example =
    decode_announce-IsSigned crypto frame 7 heard (are_bytes-All frame refl) refl

-- A peer at radio 1 moves to radio 2, which another node takes over.
abbrev announcement : ℕ → ℕ → ℕ → Announcement
announcement node radio seconds = record {
  id = replicate 8 node;
  public_key = [];
  radio = radio;
  at = seconds * second;
}

learned : List Announcement → PeerTable → PeerTable
learned [] t = t
learned (a ∷ announcements) t =
    let next = learned announcements in
    elim (learn a (100 * second) t) [ ok t' ↦ next t' | err e ↦ next t ]

abbrev moved : PeerTable
moved = record {
  by_id = (replicate 8 6, record { radio = 2; at = 20 * second }) ∷ [];
  by_radio = (2, replicate 8 6) ∷ [];
}

-- A replay of its first announcement is stale, until the other node has taken its radio.
replay_is_stale : learn (announcement 6 1 10) (100 * second) moved ≡ err stale_announce
unfolding learn find
replay_is_stale = refl

replay_moves_back :
    radio_for (replicate 8 6) (learned (announcement 8 2 30 ∷ announcement 6 1 10 ∷ []) moved)
    ≡ some 1
unfolding learned learn find put delete bind_radio radio_for
replay_moves_back = refl

moved-IsConsistent : IsConsistent moved
unfolding bind_radio new_peer_table find put
moved-IsConsistent =
    let a = announcement 6 2 20 in
    bind_radio-IsConsistent a new_peer_table
      (unknown-IsFree a.id new_peer_table new_peer_table-IsConsistent refl)

learn-outcome_example :
    ((t' : PeerTable) × (learn (announcement 8 2 30) (100 * second) moved ≡ ok t')
      × Learned (announcement 8 2 30) moved t')
    ⊎ ((learn (announcement 8 2 30) (100 * second) moved ≡ err stale_announce)
        × IsStale (announcement 8 2 30) (100 * second) moved)
learn-outcome_example = learn-outcome (announcement 8 2 30) (100 * second) moved moved-IsConsistent

ask_times-AreApart_example :
    AreApart 900 none
      (ask_times 7 ((7, 0) ∷ (8, 1) ∷ (7, 2) ∷ (7, 900) ∷ []) (record { asked = []; every = 900 }))
unfolding find
ask_times-AreApart_example =
    ask_times-AreApart 7 ((7, 0) ∷ (8, 1) ∷ (7, 2) ∷ (7, 900) ∷ [])
      (record { asked = []; every = 900 })

abbrev setup : Setup ℕ
setup = record { env = whole; crypto = crypto; public_key = public_key; takes = λ frame. true }

abbrev start : Link ℕ
start = record {
  own_id = replicate 8 5;
  own_radio = some 7;
  chan_idx = 1;
  has_conn = true;
  connected = true;
  peers = moved;
  asks = record { asked = []; every = 900 };
  answers = record { asked = []; every = 60 };
  governor = some (new_governor whole config 0);
  inbox = [];
  inbox_size = 4;
  on_air = [];
  sent = 0;
  received = 0;
  refused = 0;
  unattributed = 0;
  wrong_channel = 0;
  undecryptable = 0;
  announces_sent = 0;
}

-- A symbol from the peer at radio 2.
abbrev symbol : MeshPacket
symbol = record {
  sender = 2;
  to = 4294967295;
  channel = 1;
  pki_encrypted = false;
  decoded = some (private_app, 2 ∷ 9 ∷ []);
}

handed_up : length (deliver setup 1000 symbol start).inbox ≡ 1
unfolding deliver decoded by_frame_type starts_with id_for find limited note_inbound inbound_for
    new_governor with_defaults hand_up own_number
handed_up = refl

deliver-Effect_example : Effect symbol start (deliver setup 1000 symbol start)
deliver-Effect_example = deliver-Effect setup 1000 symbol start

abbrev charge : Charge
charge = record { class = forum_class; area = 7 ∷ [] }

send_charged-outcome_example :
    Outcome setup 1000
      (replicate 8 6)
      (2 ∷ 9 ∷ [])
      charge
      start
      (send_charged setup 1000 (replicate 8 6) (2 ∷ 9 ∷ []) charge start)
send_charged-outcome_example =
    send_charged-outcome setup 1000 (replicate 8 6) (2 ∷ 9 ∷ []) charge start

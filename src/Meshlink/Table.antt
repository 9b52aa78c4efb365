-- ===== src/Meshlink/Table.antt =====
-- The two views of a peer table.
use meshbbs.Common.{
  ℕ, ◌≡◌, ◌≢◌, ◌⊎◌, sym, ◌∙◌, none, some, arith, inl, inr, Bool-cases, Option-cases, if◌then◌else◌,
  nat_beq, nat_beq_iff, bytes_beq_iff, nat_eq, bytes_eq,
}
use meshbbs.Common.Map.{find, find-put, find-delete, delete}
use meshbbs.Identity.{NodeId}
use meshbbs.Meshlink.{Announcement, Binding, PeerTable}
use meshbbs.Meshlink.Peers.{new_peer_table, bind_radio}

-- A node that the table has a binding for is the one that its radio has, and the other way round.
pub record IsConsistent (t : PeerTable) : Type 0 where
  pub to_radio :
      (id : NodeId) (b : Binding) → find id t.by_id ≡ some b → find b.radio t.by_radio ≡ some id
  pub to_id :
      (radio : ℕ) (id : NodeId)
      → find radio t.by_radio ≡ some id
      → (b : Binding) × (find id t.by_id ≡ some b) × (b.radio ≡ radio)

-- The same but for one node, which no radio has.
pub record IsFree (id : NodeId) (t : PeerTable) : Type 0 where
  pub others :
      (j : NodeId) (b : Binding)
      → j ≢ id
      → find j t.by_id ≡ some b
      → find b.radio t.by_radio ≡ some j
  pub to_id :
      (radio : ℕ) (j : NodeId)
      → find radio t.by_radio ≡ some j
      → (b : Binding) × (find j t.by_id ≡ some b) × (b.radio ≡ radio)
  pub unbound : (radio : ℕ) → find radio t.by_radio ≢ some id

-- The binding of a node after `bind_radio`: the new one, none for the holder of the radio before, or the old one.
pub find-bind_radio :
    (a : Announcement) (t : PeerTable) (j : NodeId)
    → let after = find j (bind_radio a t).by_id in
      ((j ≡ a.id) × (after ≡ some (record { radio = a.radio; at = a.at })))
      ⊎ (((j ≢ a.id) × (find a.radio t.by_radio ≡ some j) × (after ≡ none))
          ⊎ ((j ≢ a.id) × (find a.radio t.by_radio ≢ some j) × (after ≡ find j t.by_id)))
unfolding bind_radio
find-bind_radio a t j =
    let b : Binding = record { radio = a.radio; at = a.at } in
    elim (Option-cases (find a.radio t.by_radio)) [
      | inl nobody ↦ rw nobody (ground (arith, find-put a.id j b t.by_id, bytes_beq_iff a.id j))
      | inr (prev, found) ↦ rw found (
          ground (
            arith,
            find-put a.id j b t.by_id,
            find-put a.id j b (delete prev t.by_id),
            find-delete prev j t.by_id,
            bytes_beq_iff a.id j,
            bytes_beq_iff prev j,
            bytes_beq_iff prev a.id,
          ))
    ]

pub by_radio-bind_radio :
    (a : Announcement) (t : PeerTable) (radio : ℕ)
    → find radio (bind_radio a t).by_radio
      ≡ (if nat_beq a.radio radio then some a.id else find radio t.by_radio)
unfolding bind_radio
by_radio-bind_radio a t radio = find-put a.radio radio a.id t.by_radio

bind_radio-to_radio :
    (a : Announcement) (t : PeerTable) (j : NodeId) (b : Binding)
    → IsFree a.id t
    → find j (bind_radio a t).by_id ≡ some b
    → find b.radio (bind_radio a t).by_radio ≡ some j
bind_radio-to_radio a t j b w found = elim (find-bind_radio a t j) [
  | inl (mine, new) ↦
      let radio : b.radio ≡ a.radio = ground (arith, found, new) in
      ground (arith, by_radio-bind_radio a t b.radio, nat_beq_iff a.radio b.radio, radio, mine)
  | inr (inl (other, evicted, gone)) ↦ absurd (ground (arith, found, gone))
  | inr (inr (other, not_holder, same)) ↦
      let before = w.others j b other (sym same ∙ found) in
      ground
        (arith, by_radio-bind_radio a t b.radio, nat_beq_iff a.radio b.radio, before, not_holder)
]

bind_radio-to_id :
    (a : Announcement) (t : PeerTable) (radio : ℕ) (j : NodeId)
    → IsFree a.id t
    → find radio (bind_radio a t).by_radio ≡ some j
    → (b : Binding) × (find j (bind_radio a t).by_id ≡ some b) × (b.radio ≡ radio)
bind_radio-to_id a t radio j w found = elim (Bool-cases (nat_beq a.radio radio)) [
  | inl taken ↦
      let mine : j ≡ a.id = ground (arith, by_radio-bind_radio a t radio, taken, found) in
      let radio_eq : a.radio ≡ radio = ground (arith, nat_beq_iff a.radio radio, taken) in
      elim (find-bind_radio a t j) [
        | inl (mine, new) ↦ (record { radio = a.radio; at = a.at }, new, radio_eq)
        | inr (inl (other, _, _)) ↦ absurd (other mine)
        | inr (inr (other, _, _)) ↦ absurd (other mine)
      ]
  | inr elsewhere ↦
      let before : find radio t.by_radio ≡ some j =
        ground (arith, by_radio-bind_radio a t radio, elsewhere, found) in
      let (b, bound, same_radio) = w.to_id radio j before in
      let unlike : a.radio ≢ radio = ground (arith, nat_beq_iff a.radio radio, elsewhere) in
      elim (find-bind_radio a t j) [
        | inl (mine, new) ↦ absurd (w.unbound radio (ground (arith, before, mine)))
        | inr (inl (other, holder, gone)) ↦
            let (b', bound', same_radio') = w.to_id a.radio j holder in
            absurd (ground (arith, bound, bound', same_radio, same_radio', unlike))
        | inr (inr (other, not_holder, same)) ↦ (b, same ∙ bound, same_radio)
      ]
]

pub bind_radio-IsConsistent :
    (a : Announcement) (t : PeerTable) → IsFree a.id t → IsConsistent (bind_radio a t)
bind_radio-IsConsistent a t w = record {
  to_radio = λ j b found. bind_radio-to_radio a t j b w found;
  to_id = λ radio j found. bind_radio-to_id a t radio j w found;
}

-- Where a node has no binding, no radio has it.
pub unknown-IsFree :
    (id : NodeId) (t : PeerTable) → IsConsistent t → find id t.by_id ≡ none → IsFree id t
unknown-IsFree id t w unknown = record {
  others = λ j b other found. w.to_radio j b found;
  to_id = λ radio j found. w.to_id radio j found;
  unbound =
      λ radio found. let (b, bound, _) = w.to_id radio id found in ground (arith, bound, unknown);
}

-- A node whose radio is taken off the table.
pub released-IsFree :
    (id : NodeId) (old : Binding) (t : PeerTable)
    → IsConsistent t
    → find id t.by_id ≡ some old
    → IsFree id (record t { by_radio = delete old.radio t.by_radio })
released-IsFree id old t w found = record {
  others = λ j b other bound.
      let to_j = w.to_radio j b bound in
      let to_id = w.to_radio id old found in
      ground (
        arith,
        find-delete old.radio b.radio t.by_radio,
        nat_beq_iff old.radio b.radio,
        to_j,
        to_id,
        other,
      );
  to_id = λ radio j bound.
      w.to_id radio j (
        ground (arith, find-delete old.radio radio t.by_radio, nat_beq_iff old.radio radio, bound));
  unbound = λ radio bound.
      let before : find radio t.by_radio ≡ some id =
        ground (arith, find-delete old.radio radio t.by_radio, bound) in
      let (b, bound_id, same) = w.to_id radio id before in
      let radio_eq : old.radio ≡ radio = ground (arith, found, bound_id, same) in
      ground (
        arith,
        find-delete old.radio radio t.by_radio,
        nat_beq_iff old.radio radio,
        radio_eq,
        bound,
      );
}

pub new_peer_table-IsConsistent : IsConsistent new_peer_table
unfolding new_peer_table find
new_peer_table-IsConsistent = record {
  to_radio = λ id b found. absurd (ground arith);
  to_id = λ radio id found. absurd (ground arith);
}

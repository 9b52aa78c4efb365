-- ===== src/Meshlink/Learn.antt =====
-- What `learn` does with an announcement.
use meshbbs.Common.{
  ℕ, ◌+◌, ◌≡◌, ◌≢◌, ◌↔◌, ◌≤◌, ◌<◌, ◌⊎◌, refl, ap, ◌∙◌, none, some, arith, inl, inr, Bool-cases,
  Option-cases, ltb, nat_beq_iff, nat_eq, bytes_eq, ok, err,
}
use meshbbs.Common.Map.{find, delete, find-delete}
use meshbbs.Identity.{NodeId}
use meshbbs.Meshlink.{max_clock_skew, Announcement, stale_announce, Binding, PeerTable}
use meshbbs.Meshlink.Peers.{bind_radio, learn, id_for}
use meshbbs.Meshlink.Table.{
  IsConsistent, IsFree, find-bind_radio, by_radio-bind_radio, bind_radio-IsConsistent,
  unknown-IsFree, released-IsFree,
}

-- The table after an announcement: the node has the radio, and any other node that had it has none.
pub record Learned (a : Announcement) (t t' : PeerTable) : Type 0 where
  pub consistent : IsConsistent t'
  pub bound : find a.id t'.by_id ≡ some (record { radio = a.radio; at = a.at })
  pub owned : id_for a.radio t' ≡ some a.id
  pub newer : (b : Binding) → find a.id t.by_id ≡ some b → b.at < a.at
  pub evicted : (j : NodeId) → j ≢ a.id → id_for a.radio t ≡ some j → find j t'.by_id ≡ none
  pub others :
      (j : NodeId) → j ≢ a.id → id_for a.radio t ≢ some j → find j t'.by_id ≡ find j t.by_id

-- An announcement is stale if it is dated too far ahead, or no later than the binding that the node has.
pub data IsStale (a : Announcement) (now : ℕ) (t : PeerTable) : Type 0 where
  is_ahead : now + max_clock_skew < a.at → IsStale a now t
  is_replay : (b : Binding) → find a.id t.by_id ≡ some b → a.at ≤ b.at → IsStale a now t

bind_radio-Learned :
    (a : Announcement) (t t0 : PeerTable)
    → IsFree a.id t
    → t.by_id ≡ t0.by_id
    → ((j : NodeId)
        → j ≢ a.id
        → (find a.radio t.by_radio ≡ some j) ↔ (find a.radio t0.by_radio ≡ some j))
    → ((b : Binding) → find a.id t0.by_id ≡ some b → b.at < a.at)
    → Learned a t0 (bind_radio a t)
unfolding id_for
bind_radio-Learned a t t0 w same same_holder newer =
    let t' = bind_radio a t in
    record {
      consistent = bind_radio-IsConsistent a t w;
      bound = elim (find-bind_radio a t a.id) [
        | inl (_, new) ↦ new
        | inr (inl (other, _, _)) ↦ absurd (other refl)
        | inr (inr (other, _, _)) ↦ absurd (other refl)
      ];
      owned = ground (arith, by_radio-bind_radio a t a.radio);
      newer = newer;
      evicted = λ j other holder. elim (find-bind_radio a t j) [
        | inl (mine, _) ↦ absurd (other mine)
        | inr (inl (_, _, gone)) ↦ gone
        | inr (inr (_, not_holder, _)) ↦ absurd (not_holder ((same_holder j other).1 holder))
      ];
      others = λ j other not_holder. elim (find-bind_radio a t j) [
        | inl (mine, _) ↦ absurd (other mine)
        | inr (inl (_, holder, _)) ↦ absurd (not_holder ((same_holder j other).0 holder))
        | inr (inr (_, _, kept)) ↦ kept ∙ ap (find j) same
      ];
    }

-- The holder of a radio, when the node that announces gives up its own.
same_holder :
    (a : Announcement) (old : Binding) (t : PeerTable) (j : NodeId)
    → IsConsistent t
    → find a.id t.by_id ≡ some old
    → j ≢ a.id
    → (find a.radio (delete old.radio t.by_radio) ≡ some j) ↔ (find a.radio t.by_radio ≡ some j)
same_holder a old t j w found other =
    let owner = w.to_radio a.id old found in
    ground
      (arith, find-delete old.radio a.radio t.by_radio, nat_beq_iff old.radio a.radio, owner, other)

-- With a consistent table, an announcement is learned, or it is stale. Learned, its node has the radio in both views, and its
-- binding is later than the one before. The node that had the radio has no binding any more, and the others keep theirs.
pub learn-outcome :
    (a : Announcement) (now : ℕ) (t : PeerTable)
    → IsConsistent t
    → ((t' : PeerTable) × (learn a now t ≡ ok t') × Learned a t t')
      ⊎ ((learn a now t ≡ err stale_announce) × IsStale a now t)
unfolding learn
learn-outcome a now t w = elim (Bool-cases (ltb (now + max_clock_skew) a.at)) [
  | inl ahead ↦ inr (rw (learn, ahead) refl, is_ahead (ground (arith, ahead)))
  | inr timely ↦ elim (Option-cases (find a.id t.by_id)) [
    | inl unknown ↦
        let learned =
          bind_radio-Learned a t t (unknown-IsFree a.id t w unknown) refl (λ j other. ground arith)
            (λ b found. absurd (ground (arith, unknown, found))) in
        inl (bind_radio a t, rw (learn, timely, unknown) refl, learned)
    | inr (old, found) ↦ elim (Bool-cases (ltb old.at a.at)) [
      | inl later ↦
          let t1 : PeerTable = record t { by_radio = delete old.radio t.by_radio } in
          let newer : (b : Binding) → find a.id t.by_id ≡ some b → b.at < a.at =
            λ b found'. ground (arith, found, found', later) in
          let learned =
            bind_radio-Learned a t1 t (released-IsFree a.id old t w found) refl
              (λ j other. same_holder a old t j w found other) newer in
          inl (bind_radio a t1, rw (learn, timely, found, later) refl, learned)
      | inr replayed ↦
          inr (
            rw (learn, timely, found, replayed) refl,
            is_replay old found (ground (arith, replayed)),
          )
    ]
  ]
]

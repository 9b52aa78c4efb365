-- ===== src/Gossip/Engine/Firing.antt =====
-- What `firePending` does with the queue of asks.
use meshbbs.Common.{
  ℕ, ◌≡◌, ◌⊎◌, refl, sym, ap, ◌∙◌, Bool, true, not, Option, none, List, [], ◌∷◌, ◌++◌, append_assoc,
  append-nil, All, arith, inl, inr, Option-cases, bytes_eq, bytes_beq, bytes_beq_iff, ltb, if_keeps,
  if_splits,
}
use mathlib.Core.Path.{subst}
use mathlib.Core.List.{Memᴰ}
use meshbbs.Vv.{hash}
use meshbbs.Gossip.VectorReq.{encode_vector_req}
use meshbbs.Gossip.Engine.{PendingAsk, Call, send_message, Failure, Engine, Env, call}
use meshbbs.Gossip.Engine.Cycle.{Fate, stays, leaves, fails, fire_one, fire_loop, fire_pending}
use meshbbs.Gossip.Engine.Pending.{QueuedOnce, leave-QueuedOnce}

Fate-cases : (f : Fate) → (f ≡ stays) ⊎ (f ≡ leaves) ⊎ (f ≡ fails)
Fate-cases stays = inl refl
Fate-cases leaves = inr (inl refl)
Fate-cases fails = inr (inr refl)

snoc_member {ℓ} : {A : Type ℓ} (x a : A) (xs : List A) → Memᴰ x xs → Memᴰ x (xs ++ (a ∷ []))
snoc_member x a [] m = elim m [ ]
snoc_member x a (y ∷ ys) (Memᴰ.head e) = Memᴰ.head e
snoc_member x a (y ∷ ys) (Memᴰ.tail m) = Memᴰ.tail (snoc_member x a ys m)

snoc_last {ℓ} : {A : Type ℓ} (a : A) (xs : List A) → Memᴰ a (xs ++ (a ∷ []))
snoc_last a [] = Memᴰ.head refl
snoc_last a (x ∷ xs) = Memᴰ.tail (snoc_last a xs)

module _ {S R G F : Type 0} (env : Env S R G F) where
  -- The node has the state that the ask is about, or the request has gone out without an error.
  abbrev pub Served : S → List (Call R F × Bool) → PendingAsk → Type 0
  Served store calls ask =
      (hash env.blake3 (env.held store ask.area) ≡ ask.want_hash)
      ⊎ Memᴰ (send_message ask.peer (encode_vector_req (record { areas = ask.area ∷ [] })), true)
          calls

  -- One engine has made the calls of the other, and has the same store.
  abbrev Extends : Engine S R G F → Engine S R G F → Type 0
  Extends e e' = (e'.store ≡ e.store) × ((c : Call R F × Bool) → Memᴰ c e.calls → Memᴰ c e'.calls)

  fire_one-Extends :
      (now : ℕ) (ask : PendingAsk) (e : Engine S R G F) → Extends e (fire_one env now ask e).0
  unfolding fire_one call
  fire_one-Extends now ask e =
      let P : Engine S R G F × Fate → Type 0 = λ r. Extends e r.0 in
      if_keeps P (ltb now ask.ready) (e, stays) _ (refl, λ c m. m)
        (if_keeps P (bytes_beq (hash env.blake3 (env.held e.store ask.area)) ask.want_hash) _ _
          (refl, λ c m. m)
          (if_keeps P (not (env.can_send e.calls now)) (e, stays) _ (refl, λ c m. m)
            (if_keeps P _ _ _ (refl, λ c m. Memᴰ.tail m) (refl, λ c m. Memᴰ.tail m))))

  fire_one-Served :
      (now : ℕ) (ask : PendingAsk) (e : Engine S R G F)
      → (fire_one env now ask e).1 ≡ leaves
      → Served (fire_one env now ask e).0.store (fire_one env now ask e).0.calls ask
  unfolding fire_one call
  fire_one-Served now ask e =
      let P : Engine S R G F × Fate → Type 0 = λ r. r.1 ≡ leaves → Served r.0.store r.0.calls ask in
      if_splits P (ltb now ask.ready) (e, stays) _ (λ early h. absurd (ground arith))
        (λ due.
          if_splits P (bytes_beq (hash env.blake3 (env.held e.store ask.area)) ask.want_hash) _ _
            (λ same h.
              inl (
                (bytes_beq_iff (hash env.blake3 (env.held e.store ask.area)) ask.want_hash).0 same))
            (λ apart.
              if_splits P (not (env.can_send e.calls now)) (e, stays) _
                (λ broke h. absurd (ground arith))
                (λ free.
                  let msg : Call R F =
                    send_message ask.peer (encode_vector_req (record { areas = ask.area ∷ [] })) in
                  if_splits P (env.accepts e.calls msg now) _ _
                    (λ good h. inr (Memᴰ.head (ap (λ (b : Bool). (msg, b)) (sym good))))
                    (λ bad h. absurd (ground arith)))))

  -- What a run of the loop to its end has done.
  abbrev Settles :
      List PendingAsk
      → List PendingAsk
      → Engine S R G F
      → Engine S R G F × List PendingAsk × Option Failure
      → Type 0
  Settles asks keep e r =
      Extends e r.0
      × ((a : PendingAsk) → Memᴰ a keep → Memᴰ a r.1)
      × All (λ a. Memᴰ a r.1 ⊎ Served r.0.store r.0.calls a) asks
      × (QueuedOnce (keep ++ asks) → QueuedOnce r.1)

  Served-Extends :
      (e e' : Engine S R G F) (a : PendingAsk)
      → Extends e e'
      → Served e.store e.calls a
      → Served e'.store e'.calls a
  Served-Extends e e' a (same, more) (inl h) =
      inl (subst (λ s. hash env.blake3 (env.held s a.area) ≡ a.want_hash) (sym same) h)
  Served-Extends e e' a (same, more) (inr m) = inr (more _ m)

  Extends-trans : (e e1 e2 : Engine S R G F) → Extends e e1 → Extends e1 e2 → Extends e e2
  Extends-trans e e1 e2 (same, more) (same', more') = (same' ∙ same, λ c m. more' c (more c m))

  fire_loop-Settles :
      (now : ℕ) (asks keep : List PendingAsk) (e : Engine S R G F)
      → (fire_loop env now asks keep e).2 ≡ none
      → Settles asks keep e (fire_loop env now asks keep e)
  unfolding fire_loop
  fire_loop-Settles now [] keep e =
      λ h. ((refl, λ c m. m), λ a m. m, tt, λ q. subst QueuedOnce (append-nil keep) q)
  fire_loop-Settles now (ask ∷ asks) keep e =
      let one = fire_one env now ask e in
      let ext = fire_one-Extends now ask e in
      let P : Engine S R G F × List PendingAsk × Option Failure → Type 0 =
        λ r. r.2 ≡ none → Settles (ask ∷ asks) keep e r in
      elim (Fate-cases one.1) [
        | inl on ↦
            let r = fire_loop env now asks (keep ++ (ask ∷ [])) one.0 in
            let same : fire_loop env now (ask ∷ asks) keep e ≡ r = rw (fire_loop, on) refl in
            subst P (sym same) (λ h.
              let (more, kept, all, once) =
                fire_loop-Settles now asks (keep ++ (ask ∷ [])) one.0 h in
              (
                Extends-trans e one.0 r.0 ext more,
                λ a m. kept a (snoc_member a ask keep m),
                (inl (kept ask (snoc_last ask keep)), all),
                λ q. once (subst QueuedOnce (sym (append_assoc keep (ask ∷ []) asks)) q),
              ))
        | inr (inl off) ↦
            let r = fire_loop env now asks keep one.0 in
            let same : fire_loop env now (ask ∷ asks) keep e ≡ r = rw (fire_loop, off) refl in
            subst P (sym same) (λ h.
              let (more, kept, all, once) = fire_loop-Settles now asks keep one.0 h in
              (
                Extends-trans e one.0 r.0 ext more,
                kept,
                (inr (Served-Extends one.0 r.0 ask more (fire_one-Served now ask e off)), all),
                λ q. once (leave-QueuedOnce keep ask asks q),
              ))
        | inr (inr bad) ↦ rw (fire_loop, bad) (λ h. absurd (ground arith))
      ]

  -- When firePending returns no error, each ask that was queued is queued still, or is about a state
  -- that the node has, or its request has gone out, and the queue holds nothing twice if it did not
  -- before.
  pub fire_pending-Served :
      (now : ℕ) (e : Engine S R G F)
      → QueuedOnce e.pending
      → (fire_pending env now e).1 ≡ none
      → let e' = (fire_pending env now e).0 in
        All (λ a. Memᴰ a e'.pending ⊎ Served e'.store e'.calls a) e.pending × QueuedOnce e'.pending
  unfolding fire_pending
  fire_pending-Served now e q =
      let r = fire_loop env now e.pending [] e in
      elim (Option-cases r.2) [
        | inl good ↦
            rw (fire_pending, good)
              (λ h.
                let (more, kept, all, once) = fire_loop-Settles now e.pending [] e good in
                (all, once q))
        | inr (f, bad) ↦ rw (fire_pending, bad) (λ h. absurd (ground arith))
      ]

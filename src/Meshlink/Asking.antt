-- ===== src/Meshlink/Asking.antt =====
-- How often a question is asked.
use meshbbs.Common.{
  ℕ, ◌+◌, ◌≡◌, ◌≤◌, refl, ap, ◌∙◌, true, false, Option, none, some, List, [], ◌∷◌, arith,
  if◌then◌else◌, if_splits, ltb, nat_beq, nat_beq_iff, nat_eq,
}
use mathlib.Core.Path.{subst}
use meshbbs.Common.Map.{find, find-put}
use meshbbs.Meshlink.{AskRate}
use meshbbs.Meshlink.Peers.{allow}

-- The times at which one radio is asked, in a sequence of wishes to ask.
unfoldable pub ask_times : ℕ → List (ℕ × ℕ) → AskRate → List ℕ
ask_times radio [] a = []
ask_times radio ((r, now) ∷ wishes) a =
    let (a1, may) = allow r now a in
    let rest = ask_times radio wishes a1 in
    if nat_beq r radio then (if may then now ∷ rest else rest) else rest

-- Times with a distance between each and the next, from a first one on.
abbrev pub AreApart : ℕ → Option ℕ → List ℕ → Type 0
AreApart every prev [] = Unit {0}
AreApart every none (t ∷ ts) = AreApart every (some t) ts
AreApart every (some prev) (t ∷ ts) = (prev + every ≤ t) × AreApart every (some t) ts

allow_every : (r now : ℕ) (a : AskRate) → (allow r now a).0.every ≡ a.every
unfolding allow
allow_every r now a = ground arith

-- What is on record for a radio after a wish.
allow_asked :
    (r now radio : ℕ) (a : AskRate)
    → find radio (allow r now a).0.asked ≡ (
        if nat_beq r radio
        then (if (allow r now a).1 then some now else find radio a.asked)
        else find radio a.asked)
unfolding allow
allow_asked r now radio a = ground (arith, find-put r radio now a.asked, nat_beq_iff r radio)

-- A question that may be asked is late enough.
allow_late :
    (r now prev : ℕ) (a : AskRate)
    → (allow r now a).1 ≡ true
    → find r a.asked ≡ some prev
    → prev + a.every ≤ now
unfolding allow
allow_late r now prev a may asked =
    let late : (if ltb now (prev + a.every) then false else true) ≡ true =
      ground (arith, may, asked) in
    ground (arith, late)

-- A time that is late enough for the one before it, in front of times that are apart.
first_asked :
    (every : ℕ) (before : Option ℕ) (now : ℕ) (rest : List ℕ)
    → ((prev : ℕ) → before ≡ some prev → prev + every ≤ now)
    → AreApart every (some now) rest
    → AreApart every before (now ∷ rest)
first_asked every none now rest late h = h
first_asked every (some prev) now rest late h = (late prev refl, h)

-- Between two questions to one radio, and between the one on record and the first, there is at least the interval of the limit, whatever else is asked.
pub ask_times-AreApart :
    (radio : ℕ) (wishes : List (ℕ × ℕ)) (a : AskRate)
    → AreApart a.every (find radio a.asked) (ask_times radio wishes a)
unfolding ask_times
ask_times-AreApart radio [] a = tt
ask_times-AreApart radio ((r, now) ∷ wishes) a =
    let (a1, may) = allow r now a in
    let rest = ask_times radio wishes a1 in
    let before = find radio a.asked in
    let ih =
      subst (λ every. AreApart every (find radio a1.asked) rest) (allow_every r now a)
        (ask_times-AreApart radio wishes a1) in
    let later : (last : Option ℕ) → find radio a1.asked ≡ last → AreApart a.every last rest =
      λ last e. subst (λ o. AreApart a.every o rest) e ih in
    if_splits (AreApart a.every before) (nat_beq r radio) (if may then now ∷ rest else rest) rest
      (λ same.
        if_splits (AreApart a.every before) may (now ∷ rest) rest
          (λ asks.
            first_asked a.every before now rest
              (λ prev asked.
                allow_late r now prev a asks
                  (ap (λ n. find n a.asked) ((nat_beq_iff r radio).0 same) ∙ asked))
              (later (some now) (ground (arith, allow_asked r now radio a, same, asks))))
          (λ silent. later before (ground (arith, allow_asked r now radio a, same, silent))))
      (λ other. later before (ground (arith, allow_asked r now radio a, other)))

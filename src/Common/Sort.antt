-- ===== src/Common/Sort.antt =====
-- `sort.Slice` as an insertion sort. It decides one order of entries with the same key, which Go leaves
-- open; the lemmas ask for different keys.
use meshbbs.Common.Tests.{if◌then◌else◌, Bool-cases}
use meshbbs.Common.Lists.{length, All}
use Prim.Native.Nat.{suc}
use mathlib.Core.Path.{◌≡◌, refl, ap, ◌∙◌}
use mathlib.Core.Logic.{inl, inr}
use mathlib.Core.Bool.{Bool, true, false}
use mathlib.Core.List.{List, [], ◌∷◌}
use mathlib.Core.Option.{Option, none, some}
use native.Mathlib.Omega.{arith}

module _ {ℓ} {A : Type ℓ} (lt : A → A → Bool) where
  unfoldable pub insert_by : A → List A → List A
  insert_by x [] = x ∷ []
  insert_by x (y ∷ ys) = let rest = insert_by x ys in if lt x y then x ∷ (y ∷ ys) else y ∷ rest

  unfoldable pub sort_by : List A → List A
  sort_by [] = []
  sort_by (x ∷ xs) = insert_by x (sort_by xs)

  -- `i == 0 || lt(prev, x)`
  unfoldable pub follows : Option A → A → Bool
  follows none x = true
  follows (some prev) x = lt prev x

  -- Each entry is above the one before it.
  abbrev pub Chain : Option A → List A → Type 0
  Chain prev [] = Unit {0}
  Chain prev (x ∷ xs) = (follows prev x ≡ true) × Chain (some x) xs

  -- Any two entries are in order, one way or the other.
  abbrev pub Apart : A → A → Type 0
  Apart x y = lt x y ≡ false → lt y x ≡ true

  abbrev pub AllApart : List A → Type 0
  AllApart [] = Unit {0}
  AllApart (x ∷ xs) = All (Apart x) xs × AllApart xs

  pub length-insert_by : (x : A) (xs : List A) → length (insert_by x xs) ≡ suc (length xs)
  unfolding insert_by
  length-insert_by x [] = refl
  length-insert_by x (y ∷ ys) = ground (arith, length-insert_by x ys)

  pub length-sort_by : (xs : List A) → length (sort_by xs) ≡ length xs
  unfolding sort_by
  length-sort_by [] = refl
  length-sort_by (x ∷ xs) = length-insert_by x (sort_by xs) ∙ ap suc (length-sort_by xs)

  pub All-insert_by {κ} :
      (P : A → Type κ) (x : A) (xs : List A) → P x → All P xs → All P (insert_by x xs)
  unfolding insert_by
  All-insert_by P x [] p h = (p, tt)
  All-insert_by P x (y ∷ ys) p (h, hs) = elim (Bool-cases (lt x y)) [
    | inl below ↦ rw below (p, (h, hs))
    | inr above ↦ rw above (h, All-insert_by P x ys p hs)
  ]

  pub All-sort_by {κ} : (P : A → Type κ) (xs : List A) → All P xs → All P (sort_by xs)
  unfolding sort_by
  All-sort_by P [] h = tt
  All-sort_by P (x ∷ xs) (h, hs) = All-insert_by P x (sort_by xs) h (All-sort_by P xs hs)

  insert_by-Chain :
      (prev : Option A) (x : A) (xs : List A)
      → follows prev x ≡ true
      → All (Apart x) xs
      → Chain prev xs
      → Chain prev (insert_by x xs)
  unfolding insert_by follows
  insert_by-Chain prev x [] h a c = (h, tt)
  insert_by-Chain prev x (y ∷ ys) h (a, as') (c, cs) = elim (Bool-cases (lt x y)) [
    | inl below ↦ rw below (h, (below, cs))
    | inr above ↦ rw above (c, insert_by-Chain (some y) x ys (a above) as' cs)
  ]

  -- Sorting entries that are apart gives a chain.
  pub sort_by-Chain : (xs : List A) → AllApart xs → Chain none (sort_by xs)
  unfolding sort_by follows
  sort_by-Chain [] h = tt
  sort_by-Chain (x ∷ xs) (h, hs) =
      insert_by-Chain none x (sort_by xs) refl (All-sort_by (Apart x) xs h) (sort_by-Chain xs hs)

  -- A chain is sorted as it stands.
  pub sort_by_of_Chain : (prev : Option A) (xs : List A) → Chain prev xs → sort_by xs ≡ xs
  unfolding sort_by insert_by follows
  sort_by_of_Chain prev [] h = refl
  sort_by_of_Chain prev (x ∷ []) h = refl
  sort_by_of_Chain prev (x ∷ y ∷ ys) (h, hs) =
      rw (sort_by_of_Chain (some x) (y ∷ ys) hs, insert_by) (rw hs.0 refl)

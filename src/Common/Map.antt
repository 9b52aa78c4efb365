-- ===== src/Common/Map.antt =====
-- A Go map as an association list. The order of the list stands for the order in which `range`
-- visits the entries, which Go leaves open; no lookup depends on it.
use meshbbs.Common.Tests.{if◌then◌else◌, Bool-cases, Option-cases, Comparable, ◌==◌}
use meshbbs.Common.Lists.{length, All}
use Prim.Native.Nat.{◌+◌, ◌≤◌}
use mathlib.Core.Path.{◌≡◌, refl, ap, subst}
use mathlib.Core.Logic.{◌≢◌, inl, inr}
use mathlib.Core.Option.{Option, none, some}
use mathlib.Core.List.{List, [], ◌∷◌, ◌++◌}
use native.Mathlib.Omega.{arith}

module _ {ℓ κ} {K : Type ℓ} {V : Type κ} ⦃e : Comparable K⦄ where
  -- `v, ok := m[k]`
  unfoldable pub find : K → List (K × V) → Option V
  find k [] = none
  find k ((j, v) ∷ m) = if j == k then some v else find k m

  -- `m[k] = v`
  unfoldable pub put : K → V → List (K × V) → List (K × V)
  put k v [] = (k, v) ∷ []
  put k v ((j, w) ∷ m) = if j == k then (k, v) ∷ m else (j, w) ∷ put k v m

  -- `delete(m, k)`
  unfoldable pub delete : K → List (K × V) → List (K × V)
  delete k [] = []
  delete k ((j, w) ∷ m) = let rest = delete k m in if j == k then rest else (j, w) ∷ rest

  pub find-put :
      (k j : K) (v : V) (m : List (K × V))
      → find j (put k v m) ≡ (if k == j then some v else find j m)
  unfolding find put
  find-put k j v [] = refl
  find-put k j v ((i, w) ∷ m) =
      ground (arith, e.same_iff k j, e.same_iff i k, e.same_iff i j, find-put k j v m)

  pub find-delete :
      (k j : K) (m : List (K × V)) → find j (delete k m) ≡ (if k == j then none else find j m)
  unfolding find delete
  find-delete k j [] = ground arith
  find-delete k j ((i, w) ∷ m) =
      ground (arith, e.same_iff k j, e.same_iff i k, e.same_iff i j, find-delete k j m)

  -- What holds of all the values of a map.
  pub put-All {ι} :
      (P : V → Type ι) (k : K) (v : V) (m : List (K × V))
      → P v
      → All (λ e. P (e.1)) m
      → All (λ e. P (e.1)) (put k v m)
  unfolding put
  put-All P k v [] h hs = (h, tt)
  put-All P k v ((j, w) ∷ m) h (h', hs) = elim (Bool-cases (j == k)) [
    | inl eq ↦ rw eq (h, hs)
    | inr ne ↦ rw ne (h', put-All P k v m h hs)
  ]

  pub find-All {ι} :
      (P : V → Type ι) (k : K) (v : V) (m : List (K × V))
      → find k m ≡ some v
      → All (λ e. P (e.1)) m
      → P v
  unfolding find
  find-All P k v [] found hs = absurd (ground arith)
  find-All P k v ((j, w) ∷ m) found (h, hs) = elim (Bool-cases (j == k)) [
    | inl eq ↦ let same : w ≡ v = ground (arith, eq) in subst P same h
    | inr ne ↦ find-All P k v m (ground (arith, ne)) hs
  ]

  -- A map has each key once.
  abbrev pub IsMap : List (K × V) → Type κ
  IsMap [] = Unit {κ}
  IsMap ((k, v) ∷ m) = (find k m ≡ none) × IsMap m

  pub put-IsMap : (k : K) (v : V) (m : List (K × V)) → IsMap m → IsMap (put k v m)
  unfolding find put
  put-IsMap k v [] h = (refl, tt)
  put-IsMap k v ((j, w) ∷ m) (h, hs) = elim (Bool-cases (j == k)) [
    | inl eq ↦ rw eq (ground (arith, e.same_iff j k), hs)
    | inr ne ↦
        rw ne (ground (arith, find-put k j v m, e.same_iff j k, e.same_iff k j), put-IsMap k v m hs)
  ]

  pub delete-IsMap : (k : K) (m : List (K × V)) → IsMap m → IsMap (delete k m)
  unfolding find delete
  delete-IsMap k [] h = tt
  delete-IsMap k ((j, w) ∷ m) (h, hs) = elim (Bool-cases (j == k)) [
    | inl eq ↦ rw eq (delete-IsMap k m hs)
    | inr ne ↦ rw ne (ground (arith, find-delete k j m), delete-IsMap k m hs)
  ]

  pub length-put : (k : K) (v : V) (m : List (K × V)) → length (put k v m) ≤ length m + 1
  unfolding put
  length-put k v [] = omega arith
  length-put k v ((j, w) ∷ m) = ground (arith, length-put k v m)

  -- A new key goes to the end.
  pub put_new :
      (k : K) (v : V) (m : List (K × V)) → find k m ≡ none → put k v m ≡ m ++ ((k, v) ∷ [])
  unfolding find put
  put_new k v [] h = refl
  put_new k v ((j, w) ∷ m) h = ground (arith, put_new k v m)

  pub length-delete : (k : K) (m : List (K × V)) → length (delete k m) ≤ length m
  unfolding delete
  length-delete k [] = omega arith
  length-delete k ((j, w) ∷ m) = ground (arith, length-delete k m)

  pub find-append :
      (k : K) (m n : List (K × V))
      → find k (m ++ n) ≡ (elim (find k m) [ none ↦ find k n | some v ↦ some v ])
  unfolding find
  find-append k [] n = refl
  find-append k ((j, w) ∷ m) n = ground (arith, find-append k m n)

  -- The keys of two halves of a map are different.
  pub IsMap-append_find :
      (m : List (K × V)) (k : K) (v : V) (n : List (K × V))
      → IsMap (m ++ ((k, v) ∷ n))
      → find k m ≡ none
  unfolding find
  IsMap-append_find [] k v n h = refl
  IsMap-append_find ((j, w) ∷ m) k v n (h, hs) = ground (
    arith,
    IsMap-append_find m k v n hs,
    find-append j m ((k, v) ∷ n),
    e.same_iff j k,
    e.same_iff k j,
  )

  delete_absent : (k : K) (m : List (K × V)) → find k m ≡ none → delete k m ≡ m
  unfolding find delete
  delete_absent k [] h = refl
  delete_absent k ((j, w) ∷ m) h = ground (arith, delete_absent k m)

  pub length-delete_found :
      (k : K) (v : V) (m : List (K × V))
      → IsMap m
      → find k m ≡ some v
      → length (delete k m) + 1 ≡ length m
  unfolding find delete
  length-delete_found k v [] h f = absurd (ground arith)
  length-delete_found k v ((j, w) ∷ m) (h, hs) f = elim (Bool-cases (j == k)) [
    | inl eq ↦ rw eq (omega (arith, ap length (delete_absent k m (ground (arith, e.same_iff j k)))))
    | inr ne ↦ rw ne (ground (arith, length-delete_found k v m hs))
  ]

  -- Every key of `m` is a key of `n`.
  abbrev pub KeysWithin : List (K × V) → List (K × V) → Type (ℓ ⊔ κ)
  KeysWithin m n = (k : K) → find k n ≡ none → find k m ≡ none

  KeysWithin-delete :
      (k : K) (v : V) (m n : List (K × V))
      → find k m ≡ none
      → KeysWithin ((k, v) ∷ m) n
      → KeysWithin m (delete k n)
  unfolding find
  KeysWithin-delete k v m n h w j g = ground (arith, w j, find-delete k j n, e.same_iff k j)

  head_found : (k : K) (v : V) (m n : List (K × V)) → KeysWithin ((k, v) ∷ m) n → find k n ≢ none
  unfolding find
  head_found k v m n w g = ground (arith, w k g, e.same_iff k k)

  -- A map has at most as many entries as one that has all its keys,
  pub length-KeysWithin :
      (m n : List (K × V)) → IsMap m → IsMap n → KeysWithin m n → length m ≤ length n
  length-KeysWithin [] n hm hn w = omega arith
  length-KeysWithin ((k, v) ∷ m) n (h, hs) hn w = elim (Option-cases (find k n)) [
    | inl no_key ↦ absurd (head_found k v m n w no_key)
    | inr (u, f) ↦ omega (
      arith,
      length-delete_found k u n hn f,
      length-KeysWithin m (delete k n) hs (delete-IsMap k n hn) (KeysWithin-delete k v m n h w),
    )
  ]

  -- and if it has as many, then the keys are the same.
  pub KeysWithin-of_length :
      (m n : List (K × V))
      → IsMap m
      → IsMap n
      → KeysWithin m n
      → length m ≡ length n
      → KeysWithin n m
  unfolding find
  KeysWithin-of_length [] [] hm hn w l k g = g
  KeysWithin-of_length [] (y ∷ ys) hm hn w l k g = absurd (omega arith)
  KeysWithin-of_length ((j, v) ∷ m) n (h, hs) hn w l k g = elim (Option-cases (find j n)) [
    | inl no_key ↦ absurd (head_found j v m n w no_key)
    | inr (u, f) ↦ ground (
      arith,
      KeysWithin-of_length m (delete j n) hs (delete-IsMap j n hn) (KeysWithin-delete j v m n h w)
          (omega (arith, length-delete_found j u n hn f)) k,
      find-delete j k n,
      e.same_iff j k,
    )
  ]

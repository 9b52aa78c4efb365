-- ===== src/Fountain/Solve/Rows.antt =====
-- The sums of source symbols that rows stand for, and that row operations keep them.
use meshbbs.Common.{
  ℕ, zero, suc, ◌+◌, ◌≡◌, ◌<◌, refl, sym, ap, ap₂, ◌∙◌, Bool, true, false, not, ◌&&◌, List, [], ◌∷◌,
  length, length-replicate, replicate, All, get_or, set, bit_xor, arith, if◌then◌else◌, nat_beq,
}
use mathlib.Core.Bool.{xor}
use meshbbs.Common.Xor.{xor_comm, xor_assoc, xor_self, zero-xor, xor-zero, xor_interchange}
use meshbbs.Fountain.Encoder.{xor_bytes, combine}
use meshbbs.Fountain.Solve.{Equation, no_equation, xor_into, add_row, has_bit, clear, swap}

abbrev pub HasWidth : ℕ → List ℕ → Type 0
HasWidth w s = length s ≡ w

pub length-xor_bytes : (a b : List ℕ) → length (xor_bytes a b) ≡ length a
unfolding xor_bytes
length-xor_bytes [] b = refl
length-xor_bytes (x ∷ a) [] = refl
length-xor_bytes (x ∷ a) (y ∷ b) = ap suc (length-xor_bytes a b)

xor_bytes_interchange :
    (a b c d : List ℕ)
    → length b ≡ length a
    → length c ≡ length a
    → length d ≡ length a
    → xor_bytes (xor_bytes a b) (xor_bytes c d) ≡ xor_bytes (xor_bytes a c) (xor_bytes b d)
unfolding xor_bytes
xor_bytes_interchange [] b c d p q r = refl
xor_bytes_interchange (x ∷ a) [] c d p q r = absurd (omega arith)
xor_bytes_interchange (x ∷ a) (y ∷ b) [] d p q r = absurd (omega arith)
xor_bytes_interchange (x ∷ a) (y ∷ b) (z ∷ c) [] p q r = absurd (omega arith)
xor_bytes_interchange (x ∷ a) (y ∷ b) (z ∷ c) (u ∷ d) p q r =
    ap₂ (λ n l. n ∷ l) (xor_interchange x y z u)
      (xor_bytes_interchange a b c d (omega arith) (omega arith) (omega arith))

xor_bytes_self : (a : List ℕ) → xor_bytes a a ≡ replicate (length a) 0
unfolding xor_bytes
xor_bytes_self [] = refl
xor_bytes_self (x ∷ a) = ap₂ (λ n l. n ∷ l) (xor_self x) (xor_bytes_self a)

pub xor_bytes-zeros : (a : List ℕ) → xor_bytes a (replicate (length a) 0) ≡ a
unfolding xor_bytes
xor_bytes-zeros [] = refl
xor_bytes-zeros (x ∷ a) = ap₂ (λ n l. n ∷ l) (xor-zero x) (xor_bytes-zeros a)

pub zeros-xor_bytes : (a : List ℕ) → xor_bytes (replicate (length a) 0) a ≡ a
unfolding xor_bytes
zeros-xor_bytes [] = refl
zeros-xor_bytes (x ∷ a) = ap₂ (λ n l. n ∷ l) (zero-xor x) (zeros-xor_bytes a)

-- A symbol that both sums take cancels.
both_added :
    (a b s : List ℕ)
    → length b ≡ length a
    → length s ≡ length a
    → xor_bytes (xor_bytes a s) (xor_bytes b s) ≡ xor_bytes a b
both_added a b s p q =
    xor_bytes_interchange a s b s q p q
    ∙ ap (λ t. xor_bytes (xor_bytes a b) t) (xor_bytes_self s)
    ∙ ap (λ n. xor_bytes (xor_bytes a b) (replicate n 0)) (q ∙ sym (length-xor_bytes a b))
    ∙ xor_bytes-zeros (xor_bytes a b)

left_added :
    (a b s : List ℕ)
    → length b ≡ length a
    → length s ≡ length a
    → xor_bytes (xor_bytes a b) s ≡ xor_bytes (xor_bytes a s) b
unfolding xor_bytes
left_added [] b s p q = refl
left_added (x ∷ a) [] s p q = absurd (omega arith)
left_added (x ∷ a) (y ∷ b) [] p q = absurd (omega arith)
left_added (x ∷ a) (y ∷ b) (z ∷ s) p q =
    ap₂ (λ n l. n ∷ l)
      (xor_assoc x y z ∙ ap (λ t. bit_xor x t) (xor_comm y z) ∙ sym (xor_assoc x z y))
      (left_added a b s (omega arith) (omega arith))

right_added :
    (a b s : List ℕ)
    → length b ≡ length a
    → length s ≡ length a
    → xor_bytes (xor_bytes a b) s ≡ xor_bytes a (xor_bytes b s)
unfolding xor_bytes
right_added [] b s p q = refl
right_added (x ∷ a) [] s p q = absurd (omega arith)
right_added (x ∷ a) (y ∷ b) [] p q = absurd (omega arith)
right_added (x ∷ a) (y ∷ b) (z ∷ s) p q =
    ap₂ (λ n l. n ∷ l) (xor_assoc x y z) (right_added a b s (omega arith) (omega arith))

-- `combine` of the exclusive or of two masks is the exclusive or of the two sums.
pub combine-xor_into :
    (w : ℕ) (a b : List ℕ) (m n : List Bool) (source : List (List ℕ))
    → length a ≡ w
    → length b ≡ w
    → length n ≡ length m
    → All (HasWidth w) source
    → combine (xor_bytes a b) (xor_into m n) source
      ≡ xor_bytes (combine a m source) (combine b n source)
unfolding combine xor_into xor
combine-xor_into w a b [] [] source p q r h = refl
combine-xor_into w a b [] (y ∷ n) source p q r h = absurd (omega arith)
combine-xor_into w a b (x ∷ m) [] source p q r h = absurd (omega arith)
combine-xor_into w a b (x ∷ m) (y ∷ n) [] p q r h = refl
combine-xor_into w a b (true ∷ m) (true ∷ n) (s ∷ source) p q r (h, hs) =
    ap (λ t. combine t (xor_into m n) source) (sym (both_added a b s (omega arith) (omega arith)))
    ∙ combine-xor_into w (xor_bytes a s) (xor_bytes b s) m n source
        (omega (arith, length-xor_bytes a s)) (omega (arith, length-xor_bytes b s)) (omega arith) hs
combine-xor_into w a b (true ∷ m) (false ∷ n) (s ∷ source) p q r (h, hs) =
    ap (λ t. combine t (xor_into m n) source) (left_added a b s (omega arith) (omega arith))
    ∙ combine-xor_into w (xor_bytes a s) b m n source (omega (arith, length-xor_bytes a s)) q
        (omega arith) hs
combine-xor_into w a b (false ∷ m) (true ∷ n) (s ∷ source) p q r (h, hs) =
    ap (λ t. combine t (xor_into m n) source) (right_added a b s (omega arith) (omega arith))
    ∙ combine-xor_into w a (xor_bytes b s) m n source p (omega (arith, length-xor_bytes b s))
        (omega arith) hs
combine-xor_into w a b (false ∷ m) (false ∷ n) (s ∷ source) p q r (h, hs) =
    combine-xor_into w a b m n source p q (omega arith) hs

pub length-xor_into : (m n : List Bool) → length (xor_into m n) ≡ length m
unfolding xor_into
length-xor_into [] n = refl
length-xor_into (x ∷ m) [] = refl
length-xor_into (x ∷ m) (y ∷ n) = ap suc (length-xor_into m n)

-- A row over `k` source symbols of width `w`, whose payload is the sum that its mask names.
pub record IsSum (k w : ℕ) (source : List (List ℕ)) (e : Equation) : Type 0 where
  pub places : length e.mask ≡ k
  pub total : e.payload ≡ combine (replicate w 0) e.mask source

pub add_row-IsSum :
    (k w : ℕ) (source : List (List ℕ)) (e p : Equation)
    → All (HasWidth w) source
    → IsSum k w source e
    → IsSum k w source p
    → IsSum k w source (add_row e p)
unfolding add_row
add_row-IsSum k w source e p h se sp = record {
  places = length-xor_into e.mask p.mask ∙ se.places;
  total =
      ap₂ xor_bytes se.total sp.total
      ∙ sym (
          combine-xor_into w (replicate w 0) (replicate w 0) e.mask p.mask source
            (length-replicate w 0) (length-replicate w 0) (sp.places ∙ sym se.places) h)
      ∙ ap (λ z. combine z (xor_into e.mask p.mask) source) (zeros_added w);
}
  where
    zeros_added : (n : ℕ) → xor_bytes (replicate n 0) (replicate n 0) ≡ replicate n 0
    zeros_added n = xor_bytes_self (replicate n 0) ∙ ap (λ m. replicate m 0) (length-replicate n 0)

module _ {ℓ} (P : Equation → Type ℓ) where
  pub All-get_or :
      (rows : List Equation) (i : ℕ) → All P rows → i < length rows → P (get_or rows i no_equation)
  All-get_or [] i h l = absurd (omega arith)
  All-get_or (e ∷ rows) zero h l = h.0
  All-get_or (e ∷ rows) (suc i) h l = All-get_or rows i h.1 (omega arith)

  All-set : (rows : List Equation) (i : ℕ) (e : Equation) → All P rows → P e → All P (set rows i e)
  All-set [] i e h p = tt
  All-set (x ∷ rows) zero e h p = (p, h.1)
  All-set (x ∷ rows) (suc i) e h p = (h.0, All-set rows i e h.1 p)

  pub swap-All :
      (i j : ℕ) (rows : List Equation)
      → i < length rows
      → j < length rows
      → All P rows
      → All P (swap i j rows)
  unfolding swap
  swap-All i j rows p q h =
      All-set (set rows i (get_or rows j no_equation)) j (get_or rows i no_equation)
        (All-set rows i (get_or rows j no_equation) h (All-get_or rows j h q))
        (All-get_or rows i h p)

pub clear-IsSum :
    (k w col row r : ℕ) (source : List (List ℕ)) (p : Equation) (rows : List Equation)
    → All (HasWidth w) source
    → IsSum k w source p
    → All (IsSum k w source) rows
    → All (IsSum k w source) (clear col row p r rows)
unfolding clear
clear-IsSum k w col row r source p [] h sp s = tt
clear-IsSum k w col row r source p (e ∷ rows) h sp (s, ss) = (
  cleared (not (nat_beq r row) && has_bit col e),
  clear-IsSum k w col row (r + 1) source p rows h sp ss,
)
  where
    cleared : (b : Bool) → IsSum k w source (if b then add_row e p else e)
    cleared true = add_row-IsSum k w source e p h s sp
    cleared false = s

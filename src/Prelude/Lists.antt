-- ===== src/Prelude/Lists.antt =====
-- Lists measured and indexed by native numbers, under the library's names, and the reading and
-- writing of a stretch of a byte buffer.
use Prim.Native.Nat.{ℕ, zero, suc, ◌+◌, ◌-◌, ◌≤◌, min}
use mathlib.Core.Path.{◌≡◌, refl, ap}
use mathlib.Core.Logic.{◌⊎◌, inl, inr}
use mathlib.Core.Bool.{Bool}
use mathlib.Core.List.{List, [], ◌∷◌, ◌++◌}
use mathlib.Core.Option.{Option, none, some}
use native.Mathlib.Omega.{arith}
use myc_db.Prelude.Tests.{if◌then◌else◌}

module _ {ℓ} {A : Type ℓ} where
  pub List-cases : (xs : List A) → (xs ≡ []) ⊎ ((x : A) × (rest : List A) × (xs ≡ x ∷ rest))
  List-cases [] = inl refl
  List-cases (x ∷ rest) = inr (x, rest, refl)

  pub cons_inj : {x y : A} {xs ys : List A} → (x ∷ xs) ≡ y ∷ ys → (x ≡ y) × (xs ≡ ys)
  cons_inj e = (cc, cc)

  abbrev pub length : List A → ℕ
  length [] = 0
  length (x ∷ xs) = suc (length xs)

  abbrev pub get_elem? : List A → ℕ → Option A
  get_elem? [] i = none
  get_elem? (x ∷ xs) zero = some x
  get_elem? (x ∷ xs) (suc i) = get_elem? xs i

  -- A write out of bounds changes nothing.
  abbrev pub set : List A → ℕ → A → List A
  set [] i v = []
  set (x ∷ xs) zero v = v ∷ xs
  set (x ∷ xs) (suc i) v = x ∷ set xs i v

  abbrev pub take : ℕ → List A → List A
  take zero xs = []
  take (suc n) [] = []
  take (suc n) (x ∷ xs) = x ∷ take n xs

  abbrev pub drop : ℕ → List A → List A
  drop zero xs = xs
  drop (suc n) [] = []
  drop (suc n) (x ∷ xs) = drop n xs

  abbrev pub replicate : ℕ → A → List A
  replicate zero a = []
  replicate (suc n) a = a ∷ replicate n a

  -- The elements that pass a Boolean test, in order.
  abbrev pub keep : (A → Bool) → List A → List A
  keep p [] = []
  keep p (x ∷ xs) = if p x then x ∷ keep p xs else keep p xs

module _ {ℓ} {A : Type ℓ} where
  pub length-append : (xs ys : List A) → length (xs ++ ys) ≡ length xs + length ys
  length-append [] ys = omega arith
  length-append (x ∷ xs) ys = omega (arith, length-append xs ys)

  pub length-set : (xs : List A) (i : ℕ) (v : A) → length (set xs i v) ≡ length xs
  length-set [] i v = refl
  length-set (x ∷ xs) zero v = refl
  length-set (x ∷ xs) (suc i) v = ap suc (length-set xs i v)

  pub length-take : (n : ℕ) (xs : List A) → length (take n xs) ≡ min n (length xs)
  length-take zero xs = omega arith
  length-take (suc n) [] = omega arith
  length-take (suc n) (x ∷ xs) = omega (arith, length-take n xs)

  pub length-drop : (n : ℕ) (xs : List A) → length (drop n xs) ≡ length xs - n
  length-drop zero xs = omega arith
  length-drop (suc n) [] = omega arith
  length-drop (suc n) (x ∷ xs) = omega (arith, length-drop n xs)

  pub length-replicate : (n : ℕ) (a : A) → length (replicate n a) ≡ n
  length-replicate zero a = refl
  length-replicate (suc n) a = ap suc (length-replicate n a)

  pub take_all : (xs : List A) → take (length xs) xs ≡ xs
  take_all [] = refl
  take_all (x ∷ xs) = rw (take_all xs)

  pub take_append : (xs ys : List A) → take (length xs) (xs ++ ys) ≡ xs
  take_append [] ys = refl
  take_append (x ∷ xs) ys = rw (take_append xs ys)

  pub drop_append : (xs ys : List A) → drop (length xs) (xs ++ ys) ≡ ys
  drop_append [] ys = refl
  drop_append (x ∷ xs) ys = drop_append xs ys

-- The `n` elements from position `at` on, and a list with a stretch written over.
module _ {ℓ} {A : Type ℓ} where
  abbrev pub read_at : ℕ → ℕ → List A → List A
  read_at start n xs = take n (drop start xs)

  abbrev pub write_at : ℕ → List A → List A → List A
  write_at zero [] xs = xs
  write_at zero (v ∷ vs) [] = []
  write_at zero (v ∷ vs) (x ∷ xs) = v ∷ write_at zero vs xs
  write_at (suc n) vs [] = []
  write_at (suc n) vs (x ∷ xs) = x ∷ write_at n vs xs

module _ {ℓ} {A : Type ℓ} where
  pub length-write_at : (start : ℕ) (vs xs : List A) → length (write_at start vs xs) ≡ length xs
  length-write_at zero [] xs = refl
  length-write_at zero (v ∷ vs) [] = refl
  length-write_at zero (v ∷ vs) (x ∷ xs) = ap suc (length-write_at zero vs xs)
  length-write_at (suc n) vs [] = refl
  length-write_at (suc n) vs (x ∷ xs) = ap suc (length-write_at n vs xs)

  -- What was written is read back.
  pub read_at-write_at :
      (start : ℕ) (vs xs : List A)
      → start + length vs ≤ length xs
      → read_at start (length vs) (write_at start vs xs) ≡ vs
  read_at-write_at zero [] xs h = refl
  read_at-write_at zero (v ∷ vs) [] h = absurd (omega arith)
  read_at-write_at zero (v ∷ vs) (x ∷ xs) h = ap (◌∷◌ v) (read_at-write_at zero vs xs (omega arith))
  read_at-write_at (suc n) [] [] h = absurd (omega arith)
  read_at-write_at (suc n) (v ∷ vs) [] h = absurd (omega arith)
  read_at-write_at (suc n) vs (x ∷ xs) h = read_at-write_at n vs xs (omega arith)

  -- A write after the stretch that is read.
  pub read_at-write_at_above :
      (start n at' : ℕ) (vs xs : List A)
      → start + n ≤ at'
      → read_at start n (write_at at' vs xs) ≡ read_at start n xs
  read_at-write_at_above start zero at' vs xs h = refl
  read_at-write_at_above zero (suc n) zero vs xs h = absurd (omega arith)
  read_at-write_at_above zero (suc n) (suc b) vs [] h = refl
  read_at-write_at_above zero (suc n) (suc b) vs (x ∷ xs) h =
      ap (◌∷◌ x) (read_at-write_at_above zero n b vs xs (omega arith))
  read_at-write_at_above (suc a) (suc n) zero vs xs h = absurd (omega arith)
  read_at-write_at_above (suc a) (suc n) (suc b) vs [] h = refl
  read_at-write_at_above (suc a) (suc n) (suc b) vs (x ∷ xs) h =
      read_at-write_at_above a (suc n) b vs xs (omega arith)

  drop-write_at :
      (start : ℕ) (vs xs : List A)
      → length vs ≤ start
      → drop start (write_at zero vs xs) ≡ drop start xs
  drop-write_at start [] xs h = refl
  drop-write_at start (v ∷ vs) [] h = refl
  drop-write_at zero (v ∷ vs) (x ∷ xs) h = absurd (omega arith)
  drop-write_at (suc a) (v ∷ vs) (x ∷ xs) h = drop-write_at a vs xs (omega arith)

  -- A write before the stretch that is read.
  pub read_at-write_at_below :
      (start n at' : ℕ) (vs xs : List A)
      → at' + length vs ≤ start
      → read_at start n (write_at at' vs xs) ≡ read_at start n xs
  read_at-write_at_below start n zero vs xs h =
      ap (take n) (drop-write_at start vs xs (omega arith))
  read_at-write_at_below start n (suc b) vs [] h = refl
  read_at-write_at_below zero n (suc b) vs (x ∷ xs) h = absurd (omega arith)
  read_at-write_at_below (suc a) n (suc b) vs (x ∷ xs) h =
      read_at-write_at_below a n b vs xs (omega arith)

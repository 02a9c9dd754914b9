-- ===== src/File/Stream/Blocks.antt =====
-- Stretches of a file under a write.
use myc_db.Prelude.{
  ℕ, zero, suc, ◌+◌, ◌≤◌, ◌≡◌, refl, ap, List, [], ◌∷◌, length, read_at, take, drop, arith,
  take_all,
}
use myc_db.File.Stream.{overlay}

-- A stretch that was written is read back.
pub read_at-overlay : (n : ℕ) (vs xs : List ℕ) → read_at n (length vs) (overlay n vs xs) ≡ vs
unfolding overlay
read_at-overlay n [] xs = refl
read_at-overlay zero (v ∷ vs) [] = ap (◌∷◌ v) (take_all vs)
read_at-overlay zero (v ∷ vs) (x ∷ xs) = ap (◌∷◌ v) (read_at-overlay zero vs xs)
read_at-overlay (suc n) (v ∷ vs) [] = read_at-overlay n (v ∷ vs) []
read_at-overlay (suc n) (v ∷ vs) (x ∷ xs) = read_at-overlay n (v ∷ vs) xs

-- A stretch of the file before the one that is written stays.
pub read_at-overlay_above :
    (start k n : ℕ) (vs xs : List ℕ)
    → start + k ≤ n
    → start + k ≤ length xs
    → read_at start k (overlay n vs xs) ≡ read_at start k xs
unfolding overlay
read_at-overlay_above start k n [] xs h g = refl
read_at-overlay_above start zero n (v ∷ vs) xs h g = refl
read_at-overlay_above zero (suc k) zero (v ∷ vs) xs h g = absurd (omega arith)
read_at-overlay_above zero (suc k) (suc n) (v ∷ vs) [] h g = absurd (omega arith)
read_at-overlay_above zero (suc k) (suc n) (v ∷ vs) (x ∷ xs) h g =
    ap (◌∷◌ x) (read_at-overlay_above zero k n (v ∷ vs) xs (omega arith) (omega arith))
read_at-overlay_above (suc a) (suc k) zero (v ∷ vs) xs h g = absurd (omega arith)
read_at-overlay_above (suc a) (suc k) (suc n) (v ∷ vs) [] h g = absurd (omega arith)
read_at-overlay_above (suc a) (suc k) (suc n) (v ∷ vs) (x ∷ xs) h g =
    read_at-overlay_above a (suc k) n (v ∷ vs) xs (omega arith) (omega arith)

drop-overlay :
    (start : ℕ) (vs xs : List ℕ)
    → length vs ≤ start
    → drop start (overlay zero vs xs) ≡ drop start xs
unfolding overlay
drop-overlay start [] xs h = refl
drop-overlay zero (v ∷ vs) xs h = absurd (omega arith)
drop-overlay (suc a) (v ∷ vs) [] h = drop-all a vs (omega arith)
  where
    drop-all : (a : ℕ) (vs : List ℕ) → length vs ≤ a → drop a vs ≡ []
    drop-all zero [] h = refl
    drop-all zero (v ∷ vs) h = absurd (omega arith)
    drop-all (suc a) [] h = refl
    drop-all (suc a) (v ∷ vs) h = drop-all a vs (omega arith)
drop-overlay (suc a) (v ∷ vs) (x ∷ xs) h = drop-overlay a vs xs (omega arith)

-- A stretch after the one that is written stays.
pub read_at-overlay_below :
    (start k n : ℕ) (vs xs : List ℕ)
    → n + length vs ≤ start
    → start + k ≤ length xs
    → read_at start k (overlay n vs xs) ≡ read_at start k xs
unfolding overlay
read_at-overlay_below start k n [] xs h g = refl
read_at-overlay_below start k zero (v ∷ vs) xs h g =
    ap (take k) (drop-overlay start (v ∷ vs) xs (omega arith))
read_at-overlay_below zero k (suc n) (v ∷ vs) xs h g = absurd (omega arith)
read_at-overlay_below (suc a) k (suc n) (v ∷ vs) [] h g = absurd (omega arith)
read_at-overlay_below (suc a) k (suc n) (v ∷ vs) (x ∷ xs) h g =
    read_at-overlay_below a k n (v ∷ vs) xs (omega arith) (omega arith)

-- A write inside the file, or from its end on, makes it as long as the write reaches.
pub length-overlay_end :
    (vs xs : List ℕ) → length (overlay (length xs) vs xs) ≡ length xs + length vs
unfolding overlay
length-overlay_end [] xs = omega arith
length-overlay_end (v ∷ vs) [] = omega arith
length-overlay_end (v ∷ vs) (x ∷ xs) = omega (arith, length-overlay_end (v ∷ vs) xs)

pub length-overlay_inside :
    (n : ℕ) (vs xs : List ℕ) → n + length vs ≤ length xs → length (overlay n vs xs) ≡ length xs
unfolding overlay
length-overlay_inside n [] xs h = refl
length-overlay_inside zero (v ∷ vs) [] h = absurd (omega arith)
length-overlay_inside zero (v ∷ vs) (x ∷ xs) h =
    ap suc (length-overlay_inside zero vs xs (omega arith))
length-overlay_inside (suc n) (v ∷ vs) [] h = absurd (omega arith)
length-overlay_inside (suc n) (v ∷ vs) (x ∷ xs) h =
    ap suc (length-overlay_inside n (v ∷ vs) xs (omega arith))

-- ===== src/Query/Order.antt =====
-- Constants are totally ordered, and `compare_to` decides the order.
use myc_db.Prelude.{
  ◌≡◌, refl, ap, ◌↔◌, true, false, [], ◌∷◌, arith, pos, ◌-ℤ◌, Text, Bool-cases, inl, inr, ◌∙◌,
}
use myc_db.Query.Constant.{Constant, int, str, less, less_text, compare_to}

less_text_irrefl : (s : Text) → less_text s s ≡ false
unfolding less_text
less_text_irrefl [] = refl
less_text_irrefl (a ∷ s) = ground (arith, less_text_irrefl s)

less_text_asym : (s t : Text) → less_text s t ≡ true → less_text t s ≡ false
unfolding less_text
less_text_asym [] [] h = refl
less_text_asym [] (b ∷ t) h = refl
less_text_asym (a ∷ s) [] h = cc
less_text_asym (a ∷ s) (b ∷ t) h = ground (arith, less_text_asym s t)

less_text_total : (s t : Text) → less_text s t ≡ false → less_text t s ≡ false → s ≡ t
unfolding less_text
less_text_total [] [] h k = refl
less_text_total [] (b ∷ t) h k = cc
less_text_total (a ∷ s) [] h k = cc
less_text_total (a ∷ s) (b ∷ t) h k = ground (arith, less_text_total s t)

less_text_trans :
    (s t u : Text) → less_text s t ≡ true → less_text t u ≡ true → less_text s u ≡ true
unfolding less_text
less_text_trans [] [] u h k = cc
less_text_trans [] (b ∷ t) [] h k = cc
less_text_trans [] (b ∷ t) (c ∷ u) h k = refl
less_text_trans (a ∷ s) [] u h k = cc
less_text_trans (a ∷ s) (b ∷ t) [] h k = cc
less_text_trans (a ∷ s) (b ∷ t) (c ∷ u) h k = ground (arith, less_text_trans s t u)

-- The order of constants is strict, transitive and total.
pub less_irrefl : (a : Constant) → less a a ≡ false
unfolding less
less_irrefl (int a) = ground arith
less_irrefl (str s) = less_text_irrefl s

pub less_trans : (a b c : Constant) → less a b ≡ true → less b c ≡ true → less a c ≡ true
unfolding less
less_trans (int a) (int b) (int c) h k = ground arith
less_trans (int a) (int b) (str c) h k = refl
less_trans (int a) (str b) (int c) h k = cc
less_trans (int a) (str b) (str c) h k = refl
less_trans (str a) (int b) c h k = cc
less_trans (str a) (str b) (int c) h k = cc
less_trans (str a) (str b) (str c) h k = less_text_trans a b c h k

pub less_asym : (a b : Constant) → less a b ≡ true → less b a ≡ false
unfolding less
less_asym (int a) (int b) h = ground arith
less_asym (int a) (str b) h = refl
less_asym (str a) (int b) h = cc
less_asym (str a) (str b) h = less_text_asym a b h

less_total : (a b : Constant) → less a b ≡ false → less b a ≡ false → a ≡ b
unfolding less
less_total (int a) (int b) h k = ground arith
less_total (int a) (str b) h k = cc
less_total (str a) (int b) h k = cc
less_total (str a) (str b) h k = ap str (less_text_total a b h k)

pub less_neg : (a b c : Constant) → less a b ≡ false → less b c ≡ false → less a c ≡ false
less_neg a b c h k = elim (Bool-cases (less a c)) [
  | inr e ↦ e
  | inl e ↦ elim (Bool-cases (less b a)) [
    | inl g ↦ cc (less_trans b a c g e, k)
    | inr g ↦ ap (λ x. less x c) (less_total a b h g) ∙ k
  ]
]

compare_to_self : (a : Constant) → compare_to a a ≡ pos 0
unfolding compare_to
compare_to_self a = ground (arith, less_irrefl a)

-- `compare_to` is 0 on equal constants alone, and changes its sign with the order of its arguments.
pub compare_to_lem :
    (a b : Constant)
    → ((compare_to a b ≡ pos 0) ↔ (a ≡ b)) × (compare_to b a ≡ pos 0 -ℤ compare_to a b)
unfolding compare_to
compare_to_lem a b = (
  (λ h. less_total a b (ground arith) (ground arith), λ e. rw e (compare_to_self b)),
  ground (arith, less_asym a b),
)

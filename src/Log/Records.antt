-- ===== src/Log/Records.antt =====
-- The records on a page of the log, newest first, from a position up to the end of the page.
use myc_db.Prelude.{
  ℕ, zero, suc, ◌+◌, ◌-◌, ◌%◌, ◌≤◌, ◌≡◌, refl, sym, ap, ◌∙◌, List, [], ◌∷◌, arith, length, drop,
  pos, ok,
}
use native.Mathlib.Nat.{zero-add, suc-add}
use myc_db.File.Page.{Page, get_bytes}

-- The records from `start` on fill the page exactly up to `end`.
abbrev pub Stored : Page → ℕ → ℕ → List (List ℕ) → Type 0
Stored p start end [] = start ≡ end
Stored p start end (r ∷ rs) =
    (get_bytes p (pos start) ≡ ok r) × (start % 4 ≡ 0) × Stored p (start + (4 + length r)) end rs

drop_nil : (n : ℕ) → drop {A = ℕ} n [] ≡ []
drop_nil zero = refl
drop_nil (suc n) = refl

drop-drop : (a b : ℕ) (xs : List ℕ) → drop a (drop b xs) ≡ drop (b + a) xs
drop-drop a zero xs = rw zero-add
drop-drop a (suc b) [] = drop_nil a ∙ sym (drop_nil (suc b + a))
drop-drop a (suc b) (x ∷ xs) = rw suc-add (drop-drop a b xs)

-- Two pages of one size that agree from a position on.
pub record Agree (p q : Page) (from : ℕ) : Type 0 where
  pub size : length q.buffer ≡ length p.buffer
  pub rest : drop from q.buffer ≡ drop from p.buffer

Agree-drop :
    (p q : Page) (from n : ℕ) → Agree p q from → from ≤ n → drop n q.buffer ≡ drop n p.buffer
Agree-drop p q from n a h =
    let e : n ≡ from + (n - from) = omega arith in
    rw (e, ← drop-drop (n - from) from q.buffer, ← drop-drop (n - from) from p.buffer)
      (ap (drop (n - from)) a.rest)

pub Agree-get_bytes :
    (p q : Page) (from n : ℕ)
    → Agree p q from
    → from ≤ n
    → get_bytes q (pos n) ≡ get_bytes p (pos n)
unfolding get_bytes
Agree-get_bytes p q from n a h =
    simp (a.size, Agree-drop p q from n a h, Agree-drop p q from (n + 4) a (omega arith))

-- The stored records depend on the page from their start on alone.
pub Stored-Agree :
    (p q : Page) (from start end : ℕ) (rs : List (List ℕ))
    → Agree p q from
    → from ≤ start
    → Stored p start end rs
    → Stored q start end rs
Stored-Agree p q from start end [] a h s = s
Stored-Agree p q from start end (r ∷ rs) a h s = (
  Agree-get_bytes p q from start a h ∙ s.0,
  s.1,
  Stored-Agree p q from (start + (4 + length r)) end rs a (omega arith) s.2,
)

-- ===== src/Multibuffer.antt =====
-- How many buffers a multi-buffer operation takes: src/libs/dbcore/multibuffer/buffer_needs.h. The
-- quotients of an `int` by a whole number are exact enough in `double` that their ceiling is the one of
-- the rational number; `pow` is an argument.
pub mod Bounds
use myc_db.Prelude.{
  ℕ, zero, suc, ◌+◌, ◌-◌, ◌/◌, Bool, true, false, if◌then◌else◌, ltb, ℤ, pos, negsuc, ltb_ℤ,
  size_of, pos_part, undefined, deadlock, Result, ok, err, ◌>>=◌,
}
use myc_db.File.Page.{add_int}

-- `while (k > avail) { i++; k = …; }`, with a bound on its rounds.
unfoldable pub shrink : (ℕ → Result ℕ) → ℕ → ℕ → ℕ → ℕ → Result ℕ
shrink next avail zero i k = if ltb avail k then err deadlock else ok k
shrink next avail (suc n) i k = elim (ltb avail k) [
  | false ↦ ok k
  | true ↦ next (suc i) >>= λ k'. shrink next avail n (suc i) k'
]

-- `static_cast<std::size_t>(std::ceil(size / i))`: the conversion of a negative number is undefined.
unfoldable pub ceil_quotient : ℤ → ℕ → Result ℕ
ceil_quotient (pos n) i = ok ((n + i - 1) / i)
ceil_quotient (negsuc n) i = if ltb 0 (suc n / i) then err undefined else ok 0

-- `avail`, and the early return.
unfoldable pub with_avail : ℤ → (ℕ → Result ℕ) → Result ℕ
unfolding add_int
with_avail available rest = do
  avail ← add_int available (negsuc 1)
  if ltb_ℤ (pos 1) avail then rest (pos_part avail) else ok 1

unfoldable pub best_factor : ℕ → ℤ → ℤ → Result ℕ
unfolding with_avail shrink ceil_quotient
best_factor rounds available size =
    with_avail available (λ avail. shrink (ceil_quotient size) avail rounds 1 (size_of size))

-- `root size i` is `static_cast<std::size_t>(std::ceil(std::pow(size, 1.0 / i)))`.
unfoldable pub best_root : (ℤ → ℕ → Result ℕ) → ℕ → ℤ → ℤ → Result ℕ
unfolding with_avail shrink
best_root root rounds available size =
    with_avail available (λ avail. shrink (root size) avail rounds 1 2147483647)

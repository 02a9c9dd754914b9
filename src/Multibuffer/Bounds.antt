-- ===== src/Multibuffer/Bounds.antt =====
-- The factor and the root fit in the buffers that are available, and are the first that do.
use native.Mathlib.Nat.{div-lt_iff_lt-mul, lt-mul-div-succ}
use native.Mathlib.Decide.{dec_lt}
use myc_db.Prelude.{
  ℕ, zero, suc, ◌+◌, ◌-◌, ◌*◌, ◌/◌, ◌≤◌, ◌<◌, ◌^◌, ◌≡◌, refl, sym, ◌∙◌, inl, inr, arith, ltb,
  ltb→lt, lt→ltb, subst, Bool-cases, pos, negsuc, Result, ok,
}
use myc_db.File.Page.{add_int}
use myc_db.Multibuffer.{shrink, ceil_quotient, with_avail, best_factor}

-- `k` is the first of the values that is not above `avail`; it stands at `last`.
pub record First (value : ℕ → ℕ) (avail from last k : ℕ) : Type 0 where
  pub here : k ≡ value last
  pub behind : from ≤ last
  pub fits : k ≤ avail
  pub before : (j : ℕ) → from ≤ j → j < last → avail < value j

First-here : (value : ℕ → ℕ) (avail i : ℕ) → value i ≤ avail → First value avail i i (value i)
First-here value avail i h = record {
  here = refl;
  behind = omega arith;
  fits = h;
  before = λ j l m. absurd (omega arith);
}

First-later :
    (value : ℕ → ℕ) (avail i last k : ℕ)
    → avail < value i
    → First value avail (suc i) last k
    → First value avail i last k
First-later value avail i last k h f = record {
  here = f.here;
  behind = omega (arith, f.behind);
  fits = f.fits;
  before = λ j l m. elim (dec_lt i j) [
    | yes e ↦ f.before j (omega arith) m
    | no ne ↦ let same : i ≡ j = omega arith in subst (λ x. avail < value x) same h
  ];
}

shrink_more :
    (next : ℕ → Result ℕ) (avail n i k v : ℕ)
    → avail < k
    → next (suc i) ≡ ok v
    → shrink next avail (suc n) i k ≡ shrink next avail n (suc i) v
unfolding shrink
shrink_more next avail n i k v h e = rw (shrink, lt→ltb avail k h, e) refl

shrink_done : (next : ℕ → Result ℕ) (avail n i k : ℕ) → k ≤ avail → shrink next avail n i k ≡ ok k
unfolding shrink
shrink_done next avail zero i k h = ground arith
shrink_done next avail (suc n) i k h = ground arith

shrink-First :
    (next : ℕ → Result ℕ) (value : ℕ → ℕ) (avail rounds i : ℕ)
    → ((j : ℕ) → i ≤ j → next (suc j) ≡ ok (value (suc j)))
    → value (i + rounds) ≤ avail
    → (last k : ℕ) × (shrink next avail rounds i (value i) ≡ ok k) × First value avail i last k
shrink-First next value avail zero i h e =
    let e' : value i ≤ avail = subst (λ x. value x ≤ avail) (omega arith) e in
    (i, value i, shrink_done next avail zero i (value i) e', First-here value avail i e')
shrink-First next value avail (suc n) i h e = elim (Bool-cases (ltb avail (value i))) [
  | inl l ↦
      let moved : value (suc i + n) ≤ avail = subst (λ x. value x ≤ avail) (omega arith) e in
      let (last, k, done, f) =
        shrink-First next value avail n (suc i) (λ j m. h j (omega arith)) moved in
      (
        last,
        k,
        shrink_more next avail n i (value i) (value (suc i)) (ltb→lt avail (value i) l)
              (h i (omega arith))
            ∙ done,
        First-later value avail i last k (ltb→lt avail (value i) l) f,
      )
  | inr l ↦ (
    i,
    value i,
    shrink_done next avail (suc n) i (value i) (ground arith),
    First-here value avail i (ground arith),
  )
]

-- How many buffers a chunk takes when `n` are split over `i` chunks.
abbrev pub ceil : ℕ → ℕ → ℕ
ceil n i = (n + i - 1) / i

-- A chunk of every quotient is enough.
covers : (n i : ℕ) → 1 ≤ i → n ≤ i * ceil n i
covers n i h =
    let up : n + i - 1 < i * ((n + i - 1) / i + 1) = lt-mul-div-succ (n + i - 1) (omega arith) in
    let split : i * ((n + i - 1) / i + 1) ≡ i * ((n + i - 1) / i) + i = grind arith in omega arith

all_fit : (n rounds avail : ℕ) → n ≤ rounds → 2 ≤ avail → ceil n (1 + rounds) ≤ avail
all_fit n rounds avail l h =
    let less : ceil n (1 + rounds) < 2 =
      (div-lt_iff_lt-mul {k = 1 + rounds} (omega arith)).1 (omega arith) in
    omega arith

with_avail_lem :
    (available : ℕ) (rest : ℕ → Result ℕ)
    → 4 ≤ available
    → available < 2 ^ 31
    → with_avail (pos available) rest ≡ rest (available - 2)
unfolding with_avail add_int
with_avail_lem available rest low high =
    let e : add_int (pos available) (negsuc 1) ≡ ok (pos (available - 2)) = ground arith in
    rw e (ground arith)

-- For an int number of buffers from 4 on and a size that is not negative, best_factor ends after
-- at most as many rounds as the size. The factor fits in all buffers but two; it is the size
-- divided by the first whole number, rounded up, for which that is so; so many chunks of it hold
-- the whole.
pub best_factor-First :
    (available size rounds : ℕ)
    → 4 ≤ available
    → available < 2 ^ 31
    → size ≤ rounds
    → (i k : ℕ) × (best_factor rounds (pos available) (pos size) ≡ ok k)
      × First (ceil size) (available - 2) 1 i k
      × (size ≤ i * k)
unfolding best_factor
best_factor-First available size rounds low high enough =
    let avail = available - 2 in
    let one : ceil size 1 ≡ size = omega arith in
    let (last, k, done, f) =
      shrink-First (ceil_quotient (pos size)) (ceil size) avail rounds 1
        (λ j h. unfold ceil_quotient in refl) (all_fit size rounds avail enough (omega arith)) in
    (
      last,
      k,
      rw (with_avail_lem available _ low high)
          (subst (λ x. shrink (ceil_quotient (pos size)) avail rounds 1 x ≡ ok k) one done),
      f,
      subst (λ x. size ≤ last * x) (sym f.here) (covers size last f.behind),
    )

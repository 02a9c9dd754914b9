-- ===== src/Buffer/Manager/Given.antt =====
-- The buffer that `pin` gives: src/libs/dbcore/buffer/buffer_mgr.cpp.
use myc_db.Prelude.{
  ℕ, zero, suc, ◌<◌, ◌≡◌, refl, ap, ◌∙◌, subst, inl, inr, Bool, true, List, [], ◌∷◌, Option, none,
  some, arith, get_elem?, set, Result, ok, throw, return, continue-ok, Op, Option-cases, Bool-cases,
  some_inj, ok_inj, sym, buffer_abort,
}
use myc_db.File.Block.{BlockId, same_block_refl}
use myc_db.Buffer.{Buffer, pin_buffer, assign_to_block}
use myc_db.Buffer.Manager.Assign.{assign_to_block-block}
use myc_db.Buffer.Manager.{
  BufferMgr, holds_block, find_buffer, find_existing_buffer, choose_unpinned_buffer, put_back,
  on_buffer, pin_found, try_pin, pin,
}

-- The buffer at the place holds the block, and is pinned.
pub record Given (blk : BlockId) (i : ℕ) (m : BufferMgr) : Type 0 where
  pub buf : Buffer
  pub there : get_elem? m.pool i ≡ some buf
  pub held : holds_block blk buf ≡ true
  pub pinned : 0 < buf.pins

found_passes :
    (test : Buffer → Bool) (bs : List Buffer) (i : ℕ) (b : Buffer)
    → find_buffer test bs ≡ some i
    → get_elem? bs i ≡ some b
    → test b ≡ true
unfolding find_buffer
found_passes test [] i b e k = cc
found_passes test (a ∷ bs) i b e k = elim (Bool-cases (test a)) [
  | inl t ↦
      let z : i ≡ 0 = ground (arith, rw t at e) in
      let same : a ≡ b = ground (arith, rw z at k) in subst (λ x. test x ≡ true) same t
  | inr t ↦ elim (Option-cases (find_buffer test bs)) [
    | inl n ↦ let e' = rw (t, n) at e in cc
    | inr (j, n) ↦
        let e' : suc j ≡ i = some_inj (rw (t, n) at e) in
        found_passes test bs j b n (rw (← e') at k)
  ]
]

get_elem?-set :
    (bs : List Buffer) (i : ℕ) (b c : Buffer)
    → get_elem? bs i ≡ some b
    → get_elem? (set bs i c) i ≡ some c
get_elem?-set [] i b c e = cc
get_elem?-set (a ∷ bs) zero b c e = refl
get_elem?-set (a ∷ bs) (suc i) b c e = get_elem?-set bs i b c e

holds_block-pin_buffer :
    (blk : BlockId) (b : Buffer) → holds_block blk b ≡ true → holds_block blk (pin_buffer b) ≡ true
unfolding holds_block pin_buffer
holds_block-pin_buffer blk b h = h

pin_found-Given :
    (blk : BlockId) (i : ℕ) (m : BufferMgr) (j : ℕ) (n : BufferMgr)
    → ((b : Buffer) → get_elem? m.pool i ≡ some b → holds_block blk b ≡ true)
    → pin_found i m ≡ (ok (some j), n)
    → Given blk j n
unfolding pin_found pin_buffer
pin_found-Given blk i m j n h e = elim (Option-cases (get_elem? m.pool i)) [
  | inl d ↦ let f = rw (d, pin_found) at e in cc
  | inr (b, d) ↦
      let f = rw (d, pin_found) at e in
      let place : i ≡ j = some_inj (ok_inj (ap (λ r. r.0) f)) in
      let pool : set m.pool i (pin_buffer b) ≡ n.pool = ap (λ r. r.1.pool) f in
      record {
        buf = pin_buffer b;
        there =
            subst (λ k. get_elem? n.pool k ≡ some (pin_buffer b)) place
              (subst (λ p. get_elem? p i ≡ some (pin_buffer b)) pool
                (get_elem?-set m.pool i b (pin_buffer b) d));
        held = holds_block-pin_buffer blk b (h b d);
        pinned = omega arith;
      }
]

holds_own : (blk : BlockId) (c : Buffer) → c.block ≡ some blk → holds_block blk c ≡ true
unfolding holds_block
holds_own blk c e = rw (holds_block, e) (same_block_refl blk)

-- The buffer that was assigned holds the block.
assigned :
    (blk : BlockId) (i : ℕ) (m t : BufferMgr) (b : Buffer)
    → on_buffer i (assign_to_block blk) m ≡ (ok tt, t)
    → get_elem? t.pool i ≡ some b
    → holds_block blk b ≡ true
unfolding on_buffer put_back holds_block
assigned blk i m t b e k = elim (Option-cases (get_elem? m.pool i)) [
  | inl d ↦ let f = rw (d, on_buffer) at e in cc
  | inr (a, d) ↦
      let f = rw (d, on_buffer) at e in
      let s = assign_to_block blk (record { log = m.log; buf = a }) in
      let (block, pins) = assign_to_block-block blk _ (ap (λ r. r.0) f) in
      let pool : set m.pool i s.1.buf ≡ t.pool = ap (λ r. r.1.pool) f in
      let at_i : get_elem? t.pool i ≡ some s.1.buf =
        subst (λ p. get_elem? p i ≡ some s.1.buf) pool (get_elem?-set m.pool i a s.1.buf d) in
      let same : s.1.buf ≡ b = some_inj (sym at_i ∙ k) in
      subst (λ c. holds_block blk c ≡ true) same (holds_own blk s.1.buf block)
]

try_pin-Given :
    (blk : BlockId) (m : BufferMgr) (j : ℕ) (n : BufferMgr)
    → try_pin blk m ≡ (ok (some j), n)
    → Given blk j n
unfolding try_pin find_existing_buffer
try_pin-Given blk m j n e = elim (Option-cases (find_existing_buffer blk m.pool)) [
  | inr (i, d) ↦
      pin_found-Given blk i m j n (λ b k. found_passes (holds_block blk) m.pool i b d k)
        (rw (d, try_pin) at e)
  | inl d ↦ elim (Option-cases (choose_unpinned_buffer m.pool)) [
    | inl c ↦ let f = rw (d, c, try_pin) at e in cc
    | inr (i, c) ↦
        let (u, t, done, pinned) =
          continue-ok (on_buffer i (assign_to_block blk) m) (λ _. pin_found i)
            (rw (d, c, try_pin) at e) in
        pin_found-Given blk i t j n (λ b k. assigned blk i m t b done k) pinned
  ]
]

same_answer :
    (i j : ℕ) (t n : BufferMgr)
    → ◌≡◌ {A = Result ℕ × BufferMgr} (ok i, t) (ok j, n)
    → ◌≡◌ {A = Result (Option ℕ) × BufferMgr} (ok (some i), t) (ok (some j), n)
same_answer i j t n z = cc

-- What follows the attempt to pin: the buffer that it found, or `retry`.
attempt :
    (blk : BlockId) (m : BufferMgr) (retry : Op BufferMgr ℕ) (j : ℕ) (n : BufferMgr)
    → ((t : BufferMgr) → retry t ≡ (ok j, n) → Given blk j n)
    → (found : Option ℕ) (t : BufferMgr) → try_pin blk m ≡ (ok found, t)
    → (elim found as (λ o. Op BufferMgr ℕ) [ some i ↦ return i | none ↦ retry ]) t ≡ (ok j, n)
    → Given blk j n
attempt blk m retry j n h none t k z = h t z
attempt blk m retry j n h (some i) t k z = try_pin-Given blk m j n (k ∙ same_answer i j t n z)

-- A pin that ends well gives a buffer of the pool that holds the block and is pinned.
pub pin-Given :
    (waits : List (BufferMgr → BufferMgr)) (blk : BlockId) (m : BufferMgr) (j : ℕ) (n : BufferMgr)
    → pin waits blk m ≡ (ok j, n)
    → Given blk j n
unfolding pin
pin-Given [] blk m j n e =
    let (found, t, tried, given) = continue-ok (try_pin blk m) _ e in
    attempt blk m (throw buffer_abort) j n (λ u z. cc) found t tried given
pin-Given (others ∷ waits) blk m j n e =
    let (found, t, tried, given) = continue-ok (try_pin blk m) _ e in
    attempt blk m (λ u. pin waits blk (others u)) j n (λ u. pin-Given waits blk (others u) j n)
      found t tried given

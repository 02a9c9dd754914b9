-- ===== src/Buffer/Manager/Count.antt =====
-- `num_available` is the number of buffers that nobody has pinned.
use myc_db.Prelude.{
  ℕ, zero, suc, ◌≡◌, refl, sym, ap, ◌∙◌, inl, inr, Bool, true, false, not, List, [], ◌∷◌, some,
  arith, if◌then◌else◌, get_elem?, set, pos, Result, ok, err, continue, Option-cases, Bool-cases,
}
use myc_db.File.Block.{BlockId}
use myc_db.Buffer.{Buffer, is_pinned, pin_buffer, assign_to_block}
use myc_db.Buffer.Manager.Assign.{assign_to_block-pins}
use myc_db.Buffer.Manager.{
  BufferMgr, find_buffer, find_existing_buffer, choose_unpinned_buffer, on_buffer, pin_found,
  try_pin,
}

-- How many buffers are not pinned.
unfoldable pub count_free : List Buffer → ℕ
unfolding is_pinned
count_free [] = 0
count_free (b ∷ bs) = if is_pinned b then count_free bs else suc (count_free bs)

abbrev pub IsCounted : BufferMgr → Type 0
IsCounted m = m.num_available ≡ pos (count_free m.pool)

-- Putting back a buffer that is pinned as before, one more time, or no more.
pub count_free-set_same :
    (bs : List Buffer) (i : ℕ) (b c : Buffer)
    → get_elem? bs i ≡ some b
    → is_pinned b ≡ is_pinned c
    → count_free (set bs i c) ≡ count_free bs
unfolding count_free
count_free-set_same [] i b c e h = cc
count_free-set_same (a ∷ bs) zero b c e h = ground arith
count_free-set_same (a ∷ bs) (suc i) b c e h = ground (arith, count_free-set_same bs i b c e h)

count_free-set_pinned :
    (bs : List Buffer) (i : ℕ) (b c : Buffer)
    → get_elem? bs i ≡ some b
    → is_pinned b ≡ false
    → is_pinned c ≡ true
    → suc (count_free (set bs i c)) ≡ count_free bs
unfolding count_free
count_free-set_pinned [] i b c e h k = cc
count_free-set_pinned (a ∷ bs) zero b c e h k = ground arith
count_free-set_pinned (a ∷ bs) (suc i) b c e h k =
    ground (arith, count_free-set_pinned bs i b c e h k)

pub count_free-set_free :
    (bs : List Buffer) (i : ℕ) (b c : Buffer)
    → get_elem? bs i ≡ some b
    → is_pinned b ≡ true
    → is_pinned c ≡ false
    → count_free (set bs i c) ≡ suc (count_free bs)
unfolding count_free
count_free-set_free [] i b c e h k = cc
count_free-set_free (a ∷ bs) zero b c e h k = ground arith
count_free-set_free (a ∷ bs) (suc i) b c e h k = ground (arith, count_free-set_free bs i b c e h k)

is_pinned-pin_buffer : (b : Buffer) → is_pinned (pin_buffer b) ≡ true
unfolding is_pinned pin_buffer
is_pinned-pin_buffer b = ground arith

-- Pinning a buffer of the pool keeps the count.
pub pin_found-IsCounted : (m : BufferMgr) (i : ℕ) → IsCounted m → IsCounted (pin_found i m).1
unfolding pin_found
pin_found-IsCounted m i h = elim (Option-cases (get_elem? m.pool i)) [
  | inl e ↦ rw (e, pin_found) h
  | inr (b, e) ↦
      rw (e, pin_found)
        (elim (Bool-cases (is_pinned b)) [
          | inl p ↦
              ground
                (arith, h, count_free-set_same m.pool i b (pin_buffer b) e, is_pinned-pin_buffer b)
          | inr p ↦
              ground (
                arith,
                h,
                count_free-set_pinned m.pool i b (pin_buffer b) e,
                is_pinned-pin_buffer b,
              )
        ])
]

-- What a search of the pool finds.
pub find_buffer_sound :
    (test : Buffer → Bool) (bs : List Buffer) (i : ℕ)
    → find_buffer test bs ≡ some i
    → (b : Buffer) × (get_elem? bs i ≡ some b) × (test b ≡ true)
unfolding find_buffer
find_buffer_sound test [] i e = cc
find_buffer_sound test (a ∷ bs) zero e = (a, refl, ground arith)
find_buffer_sound test (a ∷ bs) (suc i) e = find_buffer_sound test bs i (ground arith)

same_pins : (b c : Buffer) → b.pins ≡ 0 → c.pins ≡ 0 → is_pinned b ≡ is_pinned c
unfolding is_pinned
same_pins b c e f = rw (e, f)

not_pinned : (b : Buffer) → not (is_pinned b) ≡ true → b.pins ≡ 0
unfolding is_pinned
not_pinned b h = ground arith

continue-IsCounted :
    (r : Result (Unit {0}) × BufferMgr) (i : ℕ)
    → IsCounted r.1
    → IsCounted (continue r (λ _. pin_found i)).1
continue-IsCounted (ok a, t) i h = pin_found-IsCounted t i h
continue-IsCounted (err e, t) i h = h

-- An unpinned buffer is still unpinned after it has been assigned, and so the count stays.
on_buffer-IsCounted :
    (m : BufferMgr) (i : ℕ) (b : Buffer) (blk : BlockId)
    → get_elem? m.pool i ≡ some b
    → b.pins ≡ 0
    → IsCounted m
    → IsCounted (on_buffer i (assign_to_block blk) m).1
unfolding on_buffer
on_buffer-IsCounted m i b blk e z h =
    let call = assign_to_block blk (record { log = m.log; buf = b }) in
    rw (e, on_buffer)
      (h
        ∙ ap pos (
            sym (
              count_free-set_same m.pool i b call.1.buf e
                (same_pins b call.1.buf z (assign_to_block-pins blk _ z)))))

-- `try_pin` keeps the count in every case, also where it throws.
pub try_pin-IsCounted : (blk : BlockId) (m : BufferMgr) → IsCounted m → IsCounted (try_pin blk m).1
unfolding try_pin
try_pin-IsCounted blk m h = elim (Option-cases (find_existing_buffer blk m.pool)) [
  | inr (i, e) ↦ rw (e, try_pin) (pin_found-IsCounted m i h)
  | inl e ↦ elim (Option-cases (choose_unpinned_buffer m.pool)) [
    | inl f ↦ rw (e, f, try_pin) h
    | inr (i, f) ↦
        let (b, at, free) = find_buffer_sound (λ b. not (is_pinned b)) m.pool i f in
        rw (e, f, try_pin)
          (continue-IsCounted (on_buffer i (assign_to_block blk) m) i
            (on_buffer-IsCounted m i b blk at (not_pinned b free) h))
  ]
]

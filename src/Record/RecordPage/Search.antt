-- ===== src/Record/RecordPage/Search.antt =====
-- The search for a slot: src/libs/dbcore/record/record_page.h.
use myc_db.Prelude.{
  ℕ, zero, suc, ◌+◌, ◌*◌, ◌≤◌, ◌<◌, ◌^◌, ◌≡◌, refl, ap, ◌∙◌, inl, inr, arith, ltb, ltb→lt,
  if◌then◌else◌, return, true, false, not, some, ℤ, pos, negsuc, ◌==ℤ◌, ltb_ℤ, Result, ok, bind,
  continue, Bool-cases,
}
use myc_db.File.Page.{add_int}
use myc_db.File.Manager.{mul_int}
use myc_db.File.Block.{BlockId}
use myc_db.Record.Layout.{Layout}
use myc_db.Record.RecordPage.{
  RecordPage, used, empty, calculate_offset, is_valid_slot, search_from, search_after, next_after,
  insert_after, set_flag,
}
use myc_db.Tx.Access.{TxOps}

-- `flags` are the flags of a block of `b` bytes with slots of `w` bytes: what a transaction reads in any
-- state where `IsStanding` holds, which reading keeps.
pub record Flagged {S : Type 0} (tx : TxOps S) (blk : BlockId) (w b : ℕ) (flags : ℕ → ℤ)
    : Type 1 where
  pub IsStanding : S → Type 0
  pub width : (s : S) → IsStanding s → tx.block_size s ≡ pos b
  pub flag :
      (s : S) (i : ℕ)
      → IsStanding s
      → suc i * w ≤ b
      → ((tx.get_int blk (pos (i * w)) s).0 ≡ ok (flags i))
        × IsStanding (tx.get_int blk (pos (i * w)) s).1

-- What a search from slot `i` on gives: the first slot with the flag, or -1 if no slot has it.
pub data Found (w b : ℕ) (flags : ℕ → ℤ) (flag : ℤ) : ℕ → ℤ → Type 0 where
  hit : (i : ℕ) → suc i * w ≤ b → (flags i ==ℤ flag) ≡ true → Found w b flags flag i (pos i)
  miss : (i : ℕ) → b < suc i * w → Found w b flags flag i (negsuc 0)
  later :
      (i : ℕ) (r : ℤ)
      → suc i * w ≤ b
      → (flags i ==ℤ flag) ≡ false
      → Found w b flags flag (suc i) r
      → Found w b flags flag i r

mul_int_lem : (i w : ℕ) → i * w < 2 ^ 31 → mul_int (pos i) (pos w) ≡ ok (pos (i * w))
unfolding mul_int
mul_int_lem i w h = ground arith

add_one : (i : ℕ) → suc i < 2 ^ 31 → add_int (pos i) (pos 1) ≡ ok (pos (suc i))
unfolding add_int
add_one i h = ground arith

is_valid_slot_lem :
    (l : Layout) (w b i : ℕ)
    → l.slot_size ≡ pos w
    → suc i < 2 ^ 31
    → suc i * w < 2 ^ 31
    → is_valid_slot l (pos b) (pos i) ≡ ok (not (ltb b (suc i * w)))
unfolding is_valid_slot calculate_offset
is_valid_slot_lem l w b i e h k =
    rw (is_valid_slot, add_one i h, calculate_offset, e, mul_int_lem (suc i) w k)
      (ap (λ x. ok (not x)) (ground arith))

one_more : (i w : ℕ) → suc i * w ≡ i * w + w
one_more i w = grind arith

at_least : (i w : ℕ) → 1 ≤ w → i ≤ i * w
at_least zero w h = omega arith
at_least (suc i) w h = omega (arith, one_more i w, at_least i w h)

module _ {S : Type 0} (tx : TxOps S) (blk : BlockId) (w b : ℕ) (flags : ℕ → ℤ)
    (f : Flagged tx blk w b flags) (p : RecordPage) (here : p.blk ≡ some blk)
    (size : p.layout.slot_size ≡ pos w) (positive : 1 ≤ w) (small : b + w < 2 ^ 31) (flag : ℤ) where
  abbrev Searched : ℕ → Result ℤ × S → Type 0
  Searched i r = (j : ℤ) × (r.0 ≡ ok j) × Found w b flags flag i j × f.IsStanding r.1

  valid :
      (i : ℕ) (s : S)
      → f.IsStanding s
      → i * w ≤ b
      → is_valid_slot p.layout (tx.block_size s) (pos i) ≡ ok (not (ltb b (suc i * w)))
  valid i s st h = rw (f.width s st) (
      is_valid_slot_lem p.layout w b i size (omega (arith, at_least i w positive))
        (omega (arith, one_more i w)))

  search_over :
      (rounds i : ℕ) (s : S)
      → is_valid_slot p.layout (tx.block_size s) (pos i) ≡ ok false
      → search_from tx p flag (suc rounds) (pos i) s ≡ (ok (negsuc 0), s)
  unfolding search_from
  search_over rounds i s e = rw (search_from, e) refl

  search_hit :
      (rounds i : ℕ) (s : S)
      → is_valid_slot p.layout (tx.block_size s) (pos i) ≡ ok true
      → i * w < 2 ^ 31
      → (tx.get_int blk (pos (i * w)) s).0 ≡ ok (flags i)
      → (flags i ==ℤ flag) ≡ true
      → search_from tx p flag (suc rounds) (pos i) s
        ≡ (ok (pos i), (tx.get_int blk (pos (i * w)) s).1)
  unfolding search_from calculate_offset
  search_hit rounds i s e h g k =
      rw (search_from, e, calculate_offset, size, mul_int_lem i w h, here, g, continue, k) refl

  search_next :
      (rounds i : ℕ) (s : S)
      → is_valid_slot p.layout (tx.block_size s) (pos i) ≡ ok true
      → i * w < 2 ^ 31
      → suc i < 2 ^ 31
      → (tx.get_int blk (pos (i * w)) s).0 ≡ ok (flags i)
      → (flags i ==ℤ flag) ≡ false
      → search_from tx p flag (suc rounds) (pos i) s
        ≡ search_from tx p flag rounds (pos (suc i)) (tx.get_int blk (pos (i * w)) s).1
  unfolding search_from calculate_offset
  search_next rounds i s e h m g k =
      rw
        (
          search_from,
          e,
          calculate_offset,
          size,
          mul_int_lem i w h,
          here,
          g,
          continue,
          k,
          add_one i m,
        )
        refl

  search_from-Found :
      (rounds i : ℕ) (s : S)
      → f.IsStanding s
      → i * w ≤ b
      → b < i + rounds
      → Searched i (search_from tx p flag rounds (pos i) s)
  search_from-Found zero i s st h r = absurd (omega (arith, at_least i w positive))
  search_from-Found (suc n) i s st h r =
      let ok_slot = valid i s st h in
      elim (Bool-cases (ltb b (suc i * w))) [
        | inl e ↦
            let over : is_valid_slot p.layout (tx.block_size s) (pos i) ≡ ok false =
              ok_slot ∙ ap (λ x. ok (not x)) e in
            rw (search_over n i s over) (negsuc 0, refl, miss i (ltb→lt b (suc i * w) e), st)
        | inr e ↦
            let inside : suc i * w ≤ b = ground arith in
            let there : is_valid_slot p.layout (tx.block_size s) (pos i) ≡ ok true =
              ok_slot ∙ ap (λ x. ok (not x)) e in
            let (got, st') = f.flag s i st inside in
            elim (Bool-cases (flags i ==ℤ flag)) [
              | inl k ↦
                  rw (search_hit n i s there (omega arith) got k) (pos i, refl, hit i inside k, st')
              | inr k ↦
                  let (j, done, found, st'') =
                    search_from-Found n (suc i) (tx.get_int blk (pos (i * w)) s).1 st' inside
                      (omega arith) in
                  rw
                    (search_next n i s there (omega arith) (omega (arith, at_least i w positive))
                      got k)
                    (j, done, later i j inside k found, st'')
            ]
      ]

pub search_after_lem :
    {S : Type 0} (tx : TxOps S) (p : RecordPage) (slot flag : ℤ) (rounds i : ℕ) (s : S)
    → add_int slot (pos 1) ≡ ok (pos i)
    → search_after tx rounds p slot flag s ≡ search_from tx p flag rounds (pos i) s
unfolding search_after
search_after_lem tx p slot flag rounds i s start = rw (search_after, start) refl

-- On a page whose block is there, with slots of a positive size and block and slot together below
-- 2 ^ 31 bytes, next_after gives the first used slot behind a slot of the block (or behind -1),
-- or -1 if there is none, and takes no more rounds than one more than the block has bytes. A slot
-- counts where the block has room for all of it.
pub next_after-Found :
    {S : Type 0} (tx : TxOps S) (blk : BlockId) (w b : ℕ) (flags : ℕ → ℤ) (p : RecordPage)
    (slot : ℤ) (i : ℕ) (s : S)
    → (f : Flagged tx blk w b flags) → p.blk ≡ some blk
    → p.layout.slot_size ≡ pos w
    → 1 ≤ w
    → b + w < 2 ^ 31
    → add_int slot (pos 1) ≡ ok (pos i)
    → i * w ≤ b
    → f.IsStanding s
    → (j : ℤ) × ((next_after tx (suc b) p slot s).0 ≡ ok j)
      × Found w b flags used i j
      × f.IsStanding (next_after tx (suc b) p slot s).1
unfolding next_after
next_after-Found tx blk w b flags p slot i s f here size positive small start inside st =
    rw (next_after, search_after_lem tx p slot used (suc b) i s start)
      (search_from-Found tx blk w b flags f p here size positive small used (suc b) i s st inside
        (omega arith))

-- `insert_after` sets the flag of the first empty slot behind a slot, and changes nothing if there is none.
pub insert_after-Found :
    {S : Type 0} (tx : TxOps S) (blk : BlockId) (w b : ℕ) (flags : ℕ → ℤ) (p : RecordPage)
    (slot : ℤ) (i : ℕ) (s : S)
    → (f : Flagged tx blk w b flags) → p.blk ≡ some blk
    → p.layout.slot_size ≡ pos w
    → 1 ≤ w
    → b + w < 2 ^ 31
    → add_int slot (pos 1) ≡ ok (pos i)
    → i * w ≤ b
    → f.IsStanding s
    → (j : ℤ) × (t : S) × Found w b flags empty i j
      × f.IsStanding t
      × (insert_after tx (suc b) p slot s
          ≡ (if ltb_ℤ j (pos 0) then return j else bind (set_flag tx p j used) (λ _. return j)) t)
unfolding insert_after
insert_after-Found tx blk w b flags p slot i s f here size positive small start inside st =
    let (j, done, found, st') =
      search_from-Found tx blk w b flags f p here size positive small empty (suc b) i s st inside
        (omega arith) in
    (
      j,
      _,
      found,
      st',
      rw (insert_after, search_after_lem tx p slot empty (suc b) i s start, done, continue) refl,
    )

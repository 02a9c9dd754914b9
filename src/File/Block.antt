-- ===== src/File/Block.antt =====
-- A block identifier: src/libs/dbcore/file/page/block_id.h.
use myc_db.Prelude.{
  ◌≡◌, Bool, true, false, ◌&&◌, not, [], ◌∷◌, arith, ℤ, pos, ltb_ℤ, ◌==ℤ◌, negsuc, Text, same_text,
  same_text_refl, same_text→eq,
}

pub record BlockId : Type 0 where
  pub filename : Text
  pub blk_num : ℤ

-- `block_id()`.
abbrev pub default_block : BlockId
default_block = record { filename = []; blk_num = pos 0 }

-- `operator==`.
unfoldable pub same_block : BlockId → BlockId → Bool
same_block a b = same_text a.filename b.filename && a.blk_num ==ℤ b.blk_num

is_empty : Text → Bool
is_empty [] = true
is_empty (c ∷ s) = false

-- `is_valid()`: block 0 is not valid by this test.
unfoldable pub is_valid : BlockId → Bool
unfolding is_empty
is_valid b = ltb_ℤ (pos 0) b.blk_num && not (is_empty b.filename)

==ℤ_refl : (a : ℤ) → (a ==ℤ a) ≡ true
==ℤ_refl (pos a) = ground arith
==ℤ_refl (negsuc a) = ground arith

==ℤ→eq : (a b : ℤ) → (a ==ℤ b) ≡ true → a ≡ b
==ℤ→eq (pos a) (pos b) h = ground arith
==ℤ→eq (pos a) (negsuc b) h = cc
==ℤ→eq (negsuc a) (pos b) h = cc
==ℤ→eq (negsuc a) (negsuc b) h = ground arith

pub same_block→eq : (a b : BlockId) → same_block a b ≡ true → a ≡ b
unfolding same_block
same_block→eq a b h = ground (arith, same_text→eq a.filename b.filename, ==ℤ→eq a.blk_num b.blk_num)

pub same_block_refl : (a : BlockId) → same_block a a ≡ true
unfolding same_block
same_block_refl a = rw (same_text_refl a.filename, ==ℤ_refl a.blk_num)

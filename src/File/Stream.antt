-- ===== src/File/Stream.antt =====
-- What the file manager uses of `std::fstream`, as the standard describes it: one position for
-- reading and writing, and the flags `eofbit` and `failbit`. No I/O error of the device is modelled.
pub mod Blocks
use myc_db.Prelude.{
  ℕ, zero, suc, ◌+◌, ◌≡◌, Bool, true, false, ◌||◌, not, List, [], ◌∷◌, ltb, if◌then◌else◌, length,
  read_at, write_at, ℤ, pos, negsuc,
}

pub record Stream : Type 0 where
  pub bytes : List ℕ
  pub at : ℕ
  pub eof : Bool
  pub fail : Bool

-- A file that has just been opened.
abbrev pub opened : List ℕ → Stream
opened bytes = record { bytes = bytes; at = 0; eof = false; fail = false }

abbrev pub good : Stream → Bool
good s = not (s.eof || s.fail)

-- `seekg` clears `eofbit`, and moves only a stream that has not failed.
unfoldable pub seekg : ℤ → Stream → Stream
seekg (pos n) s = if s.fail then record s { eof = false } else record s { eof = false; at = n }
seekg (negsuc n) s = record s { eof = false; fail = true }

unfoldable pub seekg_end : Stream → Stream
seekg_end s =
    if s.fail then record s { eof = false } else record s { eof = false; at = length s.bytes }

unfoldable pub seekp : ℤ → Stream → Stream
seekp (pos n) s = if s.fail then s else record s { at = n }
seekp (negsuc n) s = record s { fail = true }

unfoldable pub tellg : Stream → ℤ
tellg s = if s.fail then negsuc 0 else pos s.at

-- `read(buffer, n)`: a short read leaves what it got and sets both flags.
unfoldable pub read : ℕ → List ℕ → Stream → List ℕ × Stream
read n buffer s =
    let got = read_at s.at n s.bytes in
    let moved = record s { at = s.at + length got } in
    if good s
    then (
      write_at 0 got buffer,
      if ltb (length got) n then record moved { eof = true; fail = true } else moved,
    )
    else (buffer, record s { fail = true })

-- Bytes put over the file at a position, a gap before it being filled with zeros.
unfoldable pub overlay : ℕ → List ℕ → List ℕ → List ℕ
overlay n [] xs = xs
overlay zero (v ∷ vs) [] = v ∷ vs
overlay zero (v ∷ vs) (x ∷ xs) = v ∷ overlay zero vs xs
overlay (suc n) (v ∷ vs) [] = 0 ∷ overlay n (v ∷ vs) []
overlay (suc n) (v ∷ vs) (x ∷ xs) = x ∷ overlay n (v ∷ vs) xs

unfoldable pub write : List ℕ → Stream → Stream
write vs s =
    if good s
    then record s { bytes = overlay s.at vs s.bytes; at = s.at + length vs }
    else record s { fail = true }

-- ===== src/File/Manager/Handlers.antt =====
-- The open handlers of the file manager: a file whose handler has not failed, as its bytes, and what
-- a call on one handler leaves of the others (src/libs/dbcore/file/file_mgr.h).
use myc_db.Prelude.{
  ℕ, ◌≡◌, refl, ap, ◌∙◌, ◌≢◌, ◌⊎◌, inl, inr, true, some, List, [], ◌∷◌, arith, if◌then◌else◌,
  Bool-cases, length, length-take, length-drop, min, ◌-◌, drop, read_at, write_at, Error, Result,
  ok, err, Text, same_text, same_text_refl, same_text→eq,
}
use myc_db.File.Stream.{Stream, good}
use myc_db.File.Manager.{
  FileMgr, lookup, insert, get_file_handler, put_handler, with_handler, finish,
}

lookup-insert :
    {V : Type 0} (k j : Text) (v : V) (m : List (Text × V))
    → lookup j (insert k v m) ≡ (if same_text k j then some v else lookup j m)
unfolding lookup insert
lookup-insert k j v [] = refl
lookup-insert k j v ((i, w) ∷ m) = elim (Bool-cases (same_text i k)) [
  | inl e ↦ ground (arith, same_text→eq i k e, lookup-insert k j v m)
  | inr e ↦
      ground (arith, same_text→eq i j, same_text→eq k j, same_text_refl i, lookup-insert k j v m)
]

pub length-read_at : (n k : ℕ) (xs : List ℕ) → length (read_at n k xs) ≡ min k (length xs - n)
length-read_at n k xs = rw (length-take k (drop n xs), length-drop n xs)

pub write_at-whole : (vs xs : List ℕ) → length vs ≡ length xs → write_at 0 vs xs ≡ vs
write_at-whole [] [] h = refl
write_at-whole [] (x ∷ xs) h = absurd (omega arith)
write_at-whole (v ∷ vs) [] h = absurd (omega arith)
write_at-whole (v ∷ vs) (x ∷ xs) h = ap (◌∷◌ v) (write_at-whole vs xs (omega arith))

-- The handler that was put is got; those of other files stay.
pub get_file_handler-put_handler :
    (fm : FileMgr) (f g : Text) (s : Stream)
    → get_file_handler (put_handler fm f s) g
      ≡ (if same_text f g then ok s else get_file_handler fm g)
unfolding get_file_handler put_handler
get_file_handler-put_handler fm f g s = ground (arith, lookup-insert f g s fm.opened_files)

-- The file can be used, and holds these bytes.
pub record Holds (fm : FileMgr) (f : Text) (xs : List ℕ) : Type 0 where
  pub stream : Stream
  pub handler : get_file_handler fm f ≡ ok stream
  pub sound : good stream ≡ true
  pub content : stream.bytes ≡ xs

pub get_file_handler-put_handler_self :
    (fm : FileMgr) (f : Text) (s : Stream) → get_file_handler (put_handler fm f s) f ≡ ok s
get_file_handler-put_handler_self fm f s =
    get_file_handler-put_handler fm f f s ∙ ground (arith, same_text_refl f)

pub put_handler-block_size :
    (fm : FileMgr) (f : Text) (s : Stream) → (put_handler fm f s).block_size ≡ fm.block_size
unfolding put_handler
put_handler-block_size fm f s = refl

pub put_handler-Holds :
    (fm : FileMgr) (f : Text) (s : Stream) (xs : List ℕ)
    → good s ≡ true
    → s.bytes ≡ xs
    → Holds (put_handler fm f s) f xs
put_handler-Holds fm f s xs g e = record {
  stream = s;
  handler = get_file_handler-put_handler_self fm f s;
  sound = g;
  content = e;
}

pub handler-cases :
    (fm : FileMgr) (f : Text)
    → ((s : Stream) × (get_file_handler fm f ≡ ok s))
      ⊎ ((e : Error) × (get_file_handler fm f ≡ err e))
handler-cases fm f = cases (get_file_handler fm f) refl
  where
    cases :
        (r : Result Stream)
        → get_file_handler fm f ≡ r
        → ((s : Stream) × (get_file_handler fm f ≡ ok s))
          ⊎ ((e : Error) × (get_file_handler fm f ≡ err e))
    cases (ok s) e = inl (s, e)
    cases (err x) e = inr (x, e)

-- A call on one file leaves the others.
pub with_handler-Holds_other :
    {A : Type 0} (fm : FileMgr) (f g : Text) (call : Stream → Result A × Stream) (ys : List ℕ)
    → f ≢ g
    → Holds fm g ys
    → Holds (with_handler f call fm).1 g ys
unfolding with_handler finish
with_handler-Holds_other fm f g call ys ne h = elim (handler-cases fm f) [
  | inl (s, e) ↦
      rw (e, with_handler)
        (record {
          stream = h.stream;
          handler =
              get_file_handler-put_handler fm f g (call s).1
              ∙ ground (arith, same_text→eq f g, h.handler);
          sound = h.sound;
          content = h.content;
        })
  | inr (x, e) ↦ rw (e, with_handler) h
]

-- A call on a file that can be used.
pub with_handler-Holds :
    {A : Type 0} (fm : FileMgr) (f : Text) (call : Stream → Result A × Stream) (s : Stream)
    → get_file_handler fm f ≡ ok s
    → with_handler f call fm ≡ ((call s).0, put_handler fm f (call s).1)
unfolding with_handler finish
with_handler-Holds fm f call s e = rw (e, with_handler)

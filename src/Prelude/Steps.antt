-- ===== src/Prelude/Steps.antt =====
-- `do` blocks of operations that share a state.
use myc_db.Prelude.Outcome.{Op, bind}

infixl 5 ◌>>=◌ ◌>>◌
abbrev pub ◌>>=◌ : {S A B : Type 0} → Op S A → (A → Op S B) → Op S B
m >>= f = bind m f

abbrev pub ◌>>◌ : {S B : Type 0} → Op S (Unit {0}) → Op S B → Op S B
m >> k = bind m λ _. k

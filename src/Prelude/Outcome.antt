-- ===== src/Prelude/Outcome.antt =====
-- The outcome of a call: a value, or the exception (or fault) that ends it.
use mathlib.Core.Path.{◌≡◌, refl}
use mathlib.Core.Bool.{Bool, true, false}

-- The exceptions the code throws. `undefined` is undefined behaviour (a null or wild pointer, an
-- `int` overflow), `deadlock` a call that blocks for ever.
pub data Error : Type 0 where
  out_of_range unaligned io_error buffer_abort lock_abort bad_syntax bad_variant runtime : Error
  undefined deadlock : Error

pub data Result {u} (X : Type u) : Type u where
  err : Error → Result X
  ok : X → Result X

pub ok_inj {u} : {X : Type u} {x y : X} → ok x ≡ ok y → x ≡ y
ok_inj e = cc

pub err_inj {u} : {X : Type u} {x y : Error} → ◌≡◌ {A = Result X} (err x) (err y) → x ≡ y
err_inj e = cc

-- `if (!allowed) throw fault;`
abbrev pub guard : Bool → Error → Result (Unit {0})
guard false fault = err fault
guard true fault = ok tt

-- The rest of the call, unless an exception has ended it.
infixl 5 ◌>>◌ ◌>>=◌
abbrev pub ◌>>=◌ {u v} : {X : Type u} {Y : Type v} → Result X → (X → Result Y) → Result Y
err fault >>= rest = err fault
ok x >>= rest = rest x

abbrev pub ◌>>◌ {v} : {Y : Type v} → Result (Unit {0}) → Result Y → Result Y
first >> rest = first >>= λ done. rest

-- A call that returned: what its first part gave, and how the rest went on.
pub >>=-eq-ok {u v} :
    {X : Type u} {Y : Type v} (call : Result X) (rest : X → Result Y) {y : Y}
    → (call >>= rest) ≡ ok y
    → (x : X) × (call ≡ ok x) × (rest x ≡ ok y)
>>=-eq-ok (err fault) rest e = cc
>>=-eq-ok (ok x) rest e = (x, refl, e)

-- An operation on a state that may throw. What it wrote before the throw stays written.
abbrev pub Op : Type 0 → Type 0 → Type 0
Op S A = S → Result A × S

abbrev pub return : {S A : Type 0} → A → Op S A
return a s = (ok a, s)

abbrev pub throw : {S A : Type 0} → Error → Op S A
throw e s = (err e, s)

abbrev pub continue : {S A B : Type 0} → Result A × S → (A → Op S B) → Result B × S
continue (ok a, t) f = f a t
continue (err e, t) f = (err e, t)

-- A step that returned: what it gave, and how the rest went on.
pub continue-ok :
    {S A B : Type 0} (r : Result A × S) (f : A → Op S B) {b : B} {t' : S}
    → continue r f ≡ (ok b, t')
    → (a : A) × (t : S) × (r ≡ (ok a, t)) × (f a t ≡ (ok b, t'))
continue-ok (ok a, t) f e = (a, t, refl, e)
continue-ok (err fault, t) f e = cc

pub continue-eq-ok :
    {S A B : Type 0} (r : Result A × S) (f : A → Op S B) {b : B}
    → (continue r f).0 ≡ ok b
    → (a : A) × (t : S) × (r ≡ (ok a, t)) × ((f a t).0 ≡ ok b)
continue-eq-ok (ok a, t) f e = (a, t, refl, e)
continue-eq-ok (err fault, t) f e = cc

abbrev pub bind : {S A B : Type 0} → Op S A → (A → Op S B) → Op S B
bind m f s = continue (m s) f

abbrev pub lift : {S A : Type 0} → Result A → Op S A
lift r s = (r, s)

abbrev pub result : {S A : Type 0} → Result A × S → Result A
result r = r.0

abbrev pub after : {S A : Type 0} → Result A × S → S
after r = r.1

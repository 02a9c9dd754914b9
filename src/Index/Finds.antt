-- ===== src/Index/Finds.antt =====
-- What is seen of an index from outside: the results of its calls, key after key.
use myc_db.Prelude.{ℕ, zero, suc, ◌≡◌, true, false, List, [], ◌∷◌, Option, none, some, ok}
use myc_db.Query.Constant.{Constant}
use myc_db.Record.Schema.{RecordId}
use myc_db.Index.Contract.{Index, Answers}

-- The calls of `next` from here on: true for each of the identifiers, in order, whether or not it is
-- read, and then false. `Again` holds after each call.
abbrev pub GivesIds : {S : Type 0} → Index S → (S → Type 0) → List RecordId → S → Type 0
GivesIds x Again [] s = ((x.next s).0 ≡ ok false) × Again (x.next s).1
GivesIds x Again (r ∷ rs) s =
    ((x.next s).0 ≡ ok true)
    × Again (x.next s).1
    × ((x.get_data_rid (x.next s).1).0 ≡ ok r)
    × GivesIds x Again rs (x.next s).1
    × GivesIds x Again rs (x.get_data_rid (x.next s).1).1

-- So many times over, from any place, for any key that can be asked for: before_first returns, and next
-- then gives the identifiers of the key.
abbrev pub Finds :
    {S : Type 0} → Index S → (Constant → Type 0) → (Constant → List RecordId) → ℕ → S → Type 0
Finds x IsKey rids zero s = Unit {0}
Finds x IsKey rids (suc n) s =
    (key : Constant)
    → IsKey key
    → ((x.before_first key s).0 ≡ ok tt)
      × Finds x IsKey rids n (x.before_first key s).1
      × GivesIds x (Finds x IsKey rids n) (rids key) (x.before_first key s).1

module _ {S : Type 0} (x : Index S) (IsKey : Constant → Type 0) (rids : Constant → List RecordId)
    (a : Answers x IsKey rids) where
  gives :
      (Again : S → Type 0) (again : (s : S) → a.IsUsable s → Again s) (rs : List RecordId) (s : S)
      (c : Option RecordId)
      → a.IsStanding s c rs
      → GivesIds x Again rs s
  gives Again again [] s c h = let (e, u) = a.stop s c h in (e, again _ u)
  gives Again again (r ∷ rs) s c h =
      let (e, on) = a.step s c r rs h in
      let (k, read) = a.rid _ r rs on in
      (
        e,
        again _ (a.usable _ (some r) rs on),
        k,
        gives Again again rs _ (some r) on,
        gives Again again rs _ (some r) read,
      )

  pub Answers-Finds : (n : ℕ) (s : S) → a.IsUsable s → Finds x IsKey rids n s
  Answers-Finds zero s h = tt
  Answers-Finds (suc n) s h = λ key k.
      let (e, on) = a.start s key k h in
      (
        e,
        Answers-Finds n _ (a.usable _ none (rids key) on),
        gives (Finds x IsKey rids n) (Answers-Finds n) (rids key) _ none on,
      )

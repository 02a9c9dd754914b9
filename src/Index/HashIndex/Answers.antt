-- ===== src/Index/HashIndex/Answers.antt =====
-- What a hash index finds: src/libs/dbcore/index/hash/hash_index.cpp.
use myc_db.Prelude.{
  ℕ, zero, suc, ◌≤◌, ◌<◌, ◌≡◌, refl, sym, ap, ◌∙◌, subst, true, false, List, [], ◌∷◌, Option, none,
  some, map, length, arith, Bool-cases, inl, inr, cons_inj, ok, Text, some_inj,
}
use myc_db.Query.Constant.{Constant}
use myc_db.Record.Schema.{RecordId}
use myc_db.Index.Contract.{Answers}
use myc_db.Index.Finds.{Finds}
use myc_db.Index.HashIndex.{
  Tables, Bucket, shut, opened, HashIndex, bucket_name, hash_close, open_bucket, hash_first,
  hash_next, hash_rid, hash_methods,
}
use myc_db.Index.HashIndex.Buckets.{
  Entry, keep_entries, has_key, entries_of, Keeps, HasBucket, is_name, keep-entries_of,
  length-keep_entries,
}

abbrev rid_of : Entry → RecordId
rid_of e = e.rid

abbrev pub rids_of : List Entry → Constant → List RecordId
rids_of entries key = map rid_of (keep_entries (has_key key) entries)

module _ {B T : Type 0} (tables : Tables B T) (buckets_num : ℕ) (idx_name : Text)
    (entries : List Entry) (rounds times : ℕ)
    (k : Keeps tables (entries_of buckets_num idx_name entries))
    (enough : length entries < rounds) where
  abbrev around : Constant → Bucket B T → HashIndex B T
  around key x = record {
    buckets_num = buckets_num;
    idx_name = idx_name;
    search_key = key;
    bucket = x;
  }

  abbrev IsGood : Bucket B T → Type 0
  IsGood (shut b) = k.IsBase b
  IsGood (opened t) = k.IsOpen t

  abbrev Usable : HashIndex B T → Type 0
  Usable h = (key : Constant) × (x : Bucket B T) × (h ≡ around key x) × IsGood x

  record Standing (h : HashIndex B T) (c : Option RecordId) (rs : List RecordId) : Type 0 where
    key : Constant
    t : T
    found : Option Entry
    ahead : List Entry
    here : h ≡ around key (opened t)
    on : k.IsStanding t found ahead
    coming : rids_of ahead key ≡ rs
    bound : length ahead < rounds
    shown : (r : RecordId) → c ≡ some r → (e : Entry) × (found ≡ some e) × (e.rid ≡ r)

  -- The index has opened a bucket in front of its first entry.
  abbrev Opened : Constant → Text → HashIndex B T → Type 0
  Opened key n h =
      (t : T) × (hash_first tables key h ≡ (ok tt, around key (opened t)))
      × k.IsStanding t none (entries_of buckets_num idx_name entries n)

  first_lem :
      (old key : Constant) (x : Bucket B T) (n : Text)
      → IsGood x
      → bucket_name buckets_num idx_name key ≡ ok n
      → Opened key n (around old x)
  unfolding hash_first hash_close open_bucket
  first_lem old key (shut b) n g e =
      let (done, on) = k.opens n b g in ((tables.open_table n b).1, rw (e, done) refl, on)
  first_lem old key (opened t) n g e =
      let (closed, base) = k.closes t g in
      let (done, on) = k.opens n _ base in (_, rw (closed, e, done) refl, on)

  -- One round of the loop, on an entry with the key, and on another.
  hit :
      (n : ℕ) (t : T) (key : Constant) (c : Option Entry) (q : Entry) (es : List Entry)
      → k.IsStanding t c (q ∷ es)
      → has_key key q ≡ true
      → hash_next tables (suc n) (around key (opened t))
        ≡ (ok true, around key (opened (tables.table.scan.next t).1))
  unfolding hash_next
  hit n t key c q es h b =
      let (more, on) = k.step t c q es h in rw (more, (k.value _ q es on).0, b) refl

  miss :
      (n : ℕ) (t : T) (key : Constant) (c : Option Entry) (q : Entry) (es : List Entry)
      → k.IsStanding t c (q ∷ es)
      → has_key key q ≡ false
      → hash_next tables (suc n) (around key (opened t))
        ≡ hash_next tables n (around key (opened (tables.table.scan.next t).1))
  unfolding hash_next
  miss n t key c q es h b =
      let (more, on) = k.step t c q es h in rw (more, (k.value _ q es on).0, b) refl

  last :
      (n : ℕ) (t : T) (key : Constant) (c : Option Entry)
      → k.IsStanding t c []
      → hash_next tables (suc n) (around key (opened t))
        ≡ (ok false, around key (opened (tables.table.scan.next t).1))
  unfolding hash_next
  last n t key c h = rw (k.stop t c h).0 refl

  next_stop :
      (m : ℕ) (t : T) (key : Constant) (c : Option Entry) (es : List Entry)
      → k.IsStanding t c es
      → length es < m
      → rids_of es key ≡ []
      → ((hash_next tables m (around key (opened t))).0 ≡ ok false)
        × Usable (hash_next tables m (around key (opened t))).1
  next_stop zero t key c es h l e = absurd (omega arith)
  next_stop (suc m) t key c [] h l e =
      rw (last m t key c h) (refl, (key, opened _, refl, (k.stop t c h).1))
  next_stop (suc m) t key c (q ∷ es) h l e = elim (Bool-cases (has_key key q)) [
    | inl b ↦ let e' = rw b at e in cc
    | inr b ↦
        rw (miss m t key c q es h b)
          (next_stop m _ key (some q) es (k.step t c q es h).1 (omega arith) (rw b at e))
  ]

  next_step :
      (m : ℕ) (t : T) (key : Constant) (c : Option Entry) (es : List Entry) (r : RecordId)
      (rs : List RecordId)
      → k.IsStanding t c es
      → length es < m
      → m ≤ rounds
      → rids_of es key ≡ r ∷ rs
      → ((hash_next tables m (around key (opened t))).0 ≡ ok true)
        × Standing (hash_next tables m (around key (opened t))).1 (some r) rs
  next_step zero t key c es r rs h l m e = absurd (omega arith)
  next_step (suc n) t key c [] r rs h l m e = cc
  next_step (suc n) t key c (q ∷ es) r rs h l m e = elim (Bool-cases (has_key key q)) [
    | inl b ↦
        let (same, rest) = cons_inj (rw b at e) in
        rw (hit n t key c q es h b) (
          refl,
          record {
            key = key;
            t = _;
            found = some q;
            ahead = es;
            here = refl;
            on = (k.step t c q es h).1;
            coming = rest;
            bound = omega arith;
            shown = λ r' z. (q, refl, same ∙ some_inj z);
          },
        )
    | inr b ↦ rw (miss n t key c q es h b) (
        next_step n _ key (some q) es r rs (k.step t c q es h).1 (omega arith) (omega arith)
          (rw b at e))
  ]

  start :
      (h : HashIndex B T) (key : Constant)
      → HasBucket buckets_num idx_name key
      → Usable h
      → ((hash_first tables key h).0 ≡ ok tt)
        × Standing (hash_first tables key h).1 none (rids_of entries key)
  start h key (n, e) (old, x, z, g) =
      let (t, first, on) = first_lem old key x n g e in
      rw (z, first)
        (
          refl,
          record {
            key = key;
            t = t;
            found = none;
            ahead = entries_of buckets_num idx_name entries n;
            here = refl;
            on = on;
            coming = ap (map rid_of) (keep-entries_of buckets_num idx_name key n entries e);
            bound = omega (
              arith,
              length-keep_entries (λ q. is_name n (bucket_name buckets_num idx_name q.key)) entries,
            );
            shown = λ r y. cc;
          },
        )

  stop :
      (h : HashIndex B T) (c : Option RecordId)
      → Standing h c []
      → ((hash_next tables rounds h).0 ≡ ok false) × Usable (hash_next tables rounds h).1
  stop h c s = rw s.here (next_stop rounds s.t s.key s.found s.ahead s.on s.bound s.coming)

  step :
      (h : HashIndex B T) (c : Option RecordId) (r : RecordId) (rs : List RecordId)
      → Standing h c (r ∷ rs)
      → ((hash_next tables rounds h).0 ≡ ok true)
        × Standing (hash_next tables rounds h).1 (some r) rs
  step h c r rs s =
      rw s.here
        (next_step rounds s.t s.key s.found s.ahead r rs s.on s.bound (omega arith) s.coming)

  rid_lem :
      (key : Constant) (t : T) (e : Entry) (es : List Entry)
      → k.IsStanding t (some e) es
      → hash_rid tables (around key (opened t)) ≡ (ok e.rid, around key (opened t))
  unfolding hash_rid
  rid_lem key t e es h = let (val, block, id) = k.value t e es h in rw (block, id) refl

  rid :
      (h : HashIndex B T) (r : RecordId) (rs : List RecordId)
      → Standing h (some r) rs
      → ((hash_rid tables h).0 ≡ ok r) × Standing (hash_rid tables h).1 (some r) rs
  rid h r rs s =
      let (e, at_e, same) = s.shown r refl in
      let on = subst (λ c. k.IsStanding s.t c s.ahead) at_e s.on in
      let read = ap (hash_rid tables) s.here ∙ rid_lem s.key s.t e s.ahead on in
      (
        ap (λ x. x.0) read ∙ ap ok same,
        subst (λ g. Standing g (some r) rs) (s.here ∙ sym (ap (λ x. x.1) read)) s,
      )

-- The places of a hash index, over those of its tables.
pub hash_methods-Answers :
    {B T : Type 0} (tables : Tables B T) (buckets_num : ℕ) (idx_name : Text) (entries : List Entry)
    (rounds times : ℕ)
    → Keeps tables (entries_of buckets_num idx_name entries)
    → length entries < rounds
    → Answers (hash_methods tables rounds times) (HasBucket buckets_num idx_name) (rids_of entries)
unfolding hash_methods
hash_methods-Answers tables buckets_num idx_name entries rounds times k enough = record {
  IsUsable = Usable tables buckets_num idx_name entries rounds times k enough;
  IsStanding = Standing tables buckets_num idx_name entries rounds times k enough;
  usable = λ h c rs s. (s.key, opened s.t, s.here, k.open_at s.t s.found s.ahead s.on);
  start = start tables buckets_num idx_name entries rounds times k enough;
  stop = stop tables buckets_num idx_name entries rounds times k enough;
  step = step tables buckets_num idx_name entries rounds times k enough;
  rid = rid tables buckets_num idx_name entries rounds times k enough;
}

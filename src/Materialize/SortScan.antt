-- ===== src/Materialize/SortScan.antt =====
-- The merge of at most two sorted runs: src/libs/dbcore/materialize/record_comparator.h and sort_scan.h.
-- The two scans are those of the runs, each with its own state.
pub mod Weave
pub mod Positions
pub mod Rows
use myc_db.Prelude.{
  Bool, true, false, not, ◌&&◌, ◌||◌, List, [], ◌∷◌, Option, none, some, ◌==ℤ◌, negsuc, undefined,
  Result, ok, err, ◌>>=◌, Op, bind, return, throw, lift, Text, ℤ,
}
use myc_db.Query.Constant.{Constant, same_constant}
use myc_db.Record.Schema.{RecordId, default_rid}
use myc_db.Scan.{Scan, UpdateScan}

-- `record_comparator::compare`: some field has the same value in both rows.
unfoldable pub compare :
    List Text → (Text → Result Constant) → (Text → Result Constant) → Result Bool
unfolding same_constant
compare [] get_l get_r = ok false
compare (f ∷ fs) get_l get_r = do
  v ← get_l f
  w ← get_r f
  elim (same_constant v w) [ true ↦ ok true | false ↦ compare fs get_l get_r ]

-- `m_curr_scan`: a null pointer, or one of the two scans.
pub data Current : Type 0 where
  nothing at_lhs at_rhs : Current

pub record SortScan (L R : Type 0) : Type 0 where
  pub lhs : L
  pub rhs : Option R
  pub curr : Current
  pub lhs_more : Bool
  pub rhs_more : Bool
  pub saved : RecordId × RecordId

module _ {L R : Type 0} (left : UpdateScan L) (right : UpdateScan R) (sort_fields : List Text) where
  abbrev pub on_lhs : {A : Type 0} → Op L A → Op (SortScan L R) A
  on_lhs call s = ((call s.lhs).0, record s { lhs = (call s.lhs).1 })

  -- `m_rhs_scan->…`, where `m_rhs_scan` may be a null pointer.
  abbrev pub on_rhs : {A : Type 0} → Op R A → Op (SortScan L R) A
  on_rhs call s = elim s.rhs [
    | none ↦ (err undefined, s)
    | some r ↦ ((call r).0, record s { rhs = some (call r).1 })
  ]

  abbrev pub put_curr : Current → Op (SortScan L R) (Unit {0})
  put_curr c s = (ok tt, record s { curr = c })

  abbrev pub put_lhs_more : Bool → Op (SortScan L R) (Unit {0})
  put_lhs_more b s = (ok tt, record s { lhs_more = b })

  abbrev pub put_rhs_more : Bool → Op (SortScan L R) (Unit {0})
  put_rhs_more b s = (ok tt, record s { rhs_more = b })

  -- `m_lhs_has_more = m_lhs_scan->next()`, and the same on the right.
  abbrev pub move_lhs : Op (SortScan L R) (Unit {0})
  move_lhs = bind (on_lhs left.scan.next) put_lhs_more

  abbrev pub move_rhs : Op (SortScan L R) (Unit {0})
  move_rhs = bind (on_rhs right.scan.next) put_rhs_more

  -- What is done on the right if there is a second run.
  abbrev pub if_rhs : Op (SortScan L R) (Unit {0}) → Op (SortScan L R) (Unit {0})
  if_rhs call s = elim s.rhs [ none ↦ (ok tt, s) | some r ↦ call s ]

  -- The constructor, over the scans that the runs have opened: with one run it leaves
  -- `m_rhs_has_more` uninitialised.
  unfoldable pub make_sort_scan : Bool → L → Option R → Result (Unit {0}) × SortScan L R
  make_sort_scan garbage l r = start (record {
    lhs = l;
    rhs = r;
    curr = nothing;
    lhs_more = false;
    rhs_more = garbage;
    saved = (default_rid, default_rid);
  })
    where
      start : Op (SortScan L R) (Unit {0})
      start = bind move_lhs λ _. if_rhs move_rhs

  unfoldable pub sort_first : Op (SortScan L R) (Unit {0})
  sort_first = bind (put_curr nothing) λ _.
      bind (on_lhs left.scan.before_first)
        λ _. bind move_lhs λ _. if_rhs (bind (on_rhs right.scan.before_first) λ _. move_rhs)

  -- The scan that gave the last row goes on.
  unfoldable pub advance : Op (SortScan L R) (Unit {0})
  advance s = elim s.curr [ nothing ↦ (ok tt, s) | at_lhs ↦ move_lhs s | at_rhs ↦ move_rhs s ]

  -- `m_rec_comp->compare(m_lhs_scan, m_rhs_scan)`.
  unfoldable pub compare_heads : SortScan L R → Result Bool
  unfolding compare
  compare_heads s = elim s.rhs [
    | none ↦ err undefined
    | some r ↦ compare sort_fields (λ f. left.scan.get_val f s.lhs) (λ f. right.scan.get_val f r)
  ]

  unfoldable pub choose_head : Op (SortScan L R) Bool
  unfolding compare_heads
  choose_head s = elim s.lhs_more [
    | true ↦ elim s.rhs_more [
      | true ↦
          bind (lift (compare_heads s))
            (λ same.
              bind (put_curr (elim same [ true ↦ at_rhs | false ↦ at_lhs ])) λ _. return true)
            s
      | false ↦ bind (put_curr at_lhs) (λ _. return true) s
    ]
    | false ↦ elim s.rhs_more [
      | true ↦ bind (put_curr at_rhs) (λ _. return true) s
      | false ↦ (ok false, s)
    ]
  ]

  unfoldable pub sort_next : Op (SortScan L R) Bool
  unfolding advance choose_head
  sort_next = bind advance λ _. choose_head

  -- A getter of the scan that gave the last row.
  abbrev pub from_curr : {A : Type 0} → (L → Result A) → (R → Result A) → SortScan L R → Result A
  from_curr get_l get_r s = elim s.curr [
    | nothing ↦ err undefined
    | at_lhs ↦ get_l s.lhs
    | at_rhs ↦ elim s.rhs [ none ↦ err undefined | some r ↦ get_r r ]
  ]

  unfoldable pub sort_scan : Scan (SortScan L R)
  unfolding sort_first sort_next
  sort_scan = record {
    before_first = sort_first;
    next = sort_next;
    get_int = λ f. from_curr (left.scan.get_int f) (right.scan.get_int f);
    get_str = λ f. from_curr (left.scan.get_str f) (right.scan.get_str f);
    get_val = λ f. from_curr (left.scan.get_val f) (right.scan.get_val f);
    has_field = λ f. from_curr (left.scan.has_field f) (right.scan.has_field f);
    close = bind (on_lhs left.scan.close) λ _. if_rhs (on_rhs right.scan.close);
  }

  unfoldable pub save_position : Op (SortScan L R) (Unit {0})
  save_position s =
      bind (lift (left.get_rid s.lhs))
        (λ a.
          bind (lift (elim s.rhs [ none ↦ err undefined | some r ↦ right.get_rid r ]))
            λ b t. (ok tt, record t { saved = (a, b) }))
        s

  unfoldable pub restore_position : Op (SortScan L R) (Unit {0})
  restore_position s =
      bind (on_lhs (left.move_to_rid s.saved.0))
        (λ _. elim (s.saved.1.blk_num ==ℤ negsuc 0) [
          | true ↦ return tt
          | false ↦ on_rhs (right.move_to_rid s.saved.1)
        ])
        s

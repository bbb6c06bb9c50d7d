-- ===== src/FinalIds/Read.antt =====
-- The reading of an uploaded file's RIDs (surveys/final_ids.py `read_uploaded_rids`).
use quant_tool.Base.{
  ==→eq, ℕ, suc, ◌+◌, ◌≤◌, ◌<◌, ◌≡◌, refl, subst, ap, ◌∙◌, ltb→lt, inl, inr, Bool, true, false,
  ◌||◌, List, [], ◌∷◌, ◌++◌, arith, ltb, ◌==◌, Bool-cases,
}
use quant_tool.Base.Result.{Result, ok, err, bind_ok}
use quant_tool.Base.Lists.{length, contains}
use quant_tool.FinalIds.{
  Cell, blank, malformed, valid, ImportError, Reading, with_rid, read_cell, read_cells, some_rids,
  nothing_read, read_uploaded_rids,
}

-- The RIDs of a list, each once.
pub IsDistinct : List ℕ → Type 0
IsDistinct [] = Unit
IsDistinct (x ∷ xs) = (contains x xs ≡ false) × IsDistinct xs

contains_snoc : (a x : ℕ) (xs : List ℕ) → contains a (xs ++ x ∷ []) ≡ (contains a xs || (x == a))
contains_snoc a x [] = ground arith
contains_snoc a x (y ∷ ys) = ground (arith, contains_snoc a x ys)

snoc-IsDistinct :
    (x : ℕ) (xs : List ℕ) → contains x xs ≡ false → IsDistinct xs → IsDistinct (xs ++ x ∷ [])
unfolding IsDistinct
snoc-IsDistinct x [] h d = (refl, tt)
snoc-IsDistinct x (y ∷ ys) h (fresh, d) =
    (ground (arith, contains_snoc y x ys), snoc-IsDistinct x ys (ground arith) d)

-- The cells that hold the RID, and those that are neither empty nor malformed.
pub occurs : ℕ → List Cell → Bool
occurs a [] = false
occurs a (blank ∷ cells) = occurs a cells
occurs a (malformed ∷ cells) = occurs a cells
occurs a (valid rid ∷ cells) = (rid == a) || occurs a cells

pub filled : List Cell → ℕ
filled [] = 0
filled (blank ∷ cells) = filled cells
filled (malformed ∷ cells) = suc (filled cells)
filled (valid _ ∷ cells) = suc (filled cells)

pub IsReadOf : ℕ → List Cell → Reading → Reading → Type 0
IsReadOf limit cells r r' =
    ((a : ℕ) → contains a r'.rids ≡ (contains a r.rids || occurs a cells))
    × (IsDistinct r.rids → IsDistinct r'.rids)
    × (r'.submitted_count ≡ r.submitted_count + filled cells)
    × (length r.rids ≤ limit → length r'.rids ≤ limit)

same_found :
    (a x : ℕ) (xs : List ℕ) → contains x xs ≡ true → contains a xs ≡ (contains a xs || (x == a))
same_found a x xs h = elim (Bool-cases (x == a)) [
  | inl same ↦ let e = ==→eq x a same in let found = rw e at h in ground (arith, found, same)
  | inr other ↦ ground (arith, other)
]

with_rid-contains :
    (a rid : ℕ) (r : Reading) → contains a (with_rid rid r).rids ≡ (contains a r.rids || (rid == a))
with_rid-contains a rid r = elim (Bool-cases (contains rid r.rids)) [
  | inl old ↦ rw old (same_found a rid r.rids old)
  | inr fresh ↦ rw fresh (contains_snoc a rid r.rids)
]

with_rid-IsDistinct : (rid : ℕ) (r : Reading) → IsDistinct r.rids → IsDistinct (with_rid rid r).rids
with_rid-IsDistinct rid r d = elim (Bool-cases (contains rid r.rids)) [
  | inl old ↦ rw old d
  | inr fresh ↦ rw fresh (snoc-IsDistinct rid r.rids fresh d)
]

with_rid-counted :
    (rid : ℕ) (r : Reading) → (with_rid rid r).submitted_count ≡ r.submitted_count + 1
with_rid-counted rid r = ground arith

or_false : (a : Bool) → a ≡ (a || false)
or_false true = refl
or_false false = refl

or_assoc : (a b c : Bool) → ((a || b) || c) ≡ (a || (b || c))
or_assoc true b c = refl
or_assoc false b c = refl

no_reading : {P : Type 0} {e : ImportError} {r : Reading} → err e ≡ ok r → P
no_reading h = cc

abbrev the_ok : Reading → Result ImportError Reading
the_ok r = ok r

same_result : {r r' : Reading} → the_ok r ≡ ok r' → r ≡ r'
same_result h = cc

read_nothing : (limit : ℕ) (r : Reading) → IsReadOf limit [] r r
unfolding IsReadOf occurs filled
read_nothing limit r = (λ a. or_false _, λ d. d, omega arith, λ l. l)

read_cells-IsReadOf :
    (limit : ℕ) (cells : List Cell) (r : Reading) {r' : Reading}
    → read_cells limit cells r ≡ ok r'
    → IsReadOf limit cells r r'
unfolding read_cells read_cell IsReadOf occurs filled
read_cells-IsReadOf limit [] r h =
    subst (IsReadOf limit [] r) (same_result h) (read_nothing limit r)
read_cells-IsReadOf limit (blank ∷ cells) r h = read_cells-IsReadOf limit cells r h
read_cells-IsReadOf limit (malformed ∷ cells) r h =
    let (c, d, s, l) = read_cells-IsReadOf limit cells _ h in (c, d, omega arith, l)
read_cells-IsReadOf limit (valid rid ∷ cells) r h =
    elim (Bool-cases (ltb limit (length (with_rid rid r).rids))) [
      | inl over ↦ no_reading (rw over at h)
      | inr room ↦
          let (c, d, s, l) = read_cells-IsReadOf limit cells (with_rid rid r) (rw room at h) in
          (
            λ a.
                rw (c a, with_rid-contains a rid r)
                  (or_assoc (contains a r.rids) (rid == a) (occurs a cells)),
            λ h. d (with_rid-IsDistinct rid r h),
            rw (s, with_rid-counted rid r) (omega arith),
            λ h. l (ground (arith, room)),
          )
    ]

some_rids_ok : (r : Reading) {r' : Reading} → some_rids r ≡ ok r' → (r ≡ r') × (0 < length r'.rids)
some_rids_ok r h = elim (Bool-cases (ltb 0 (length r.rids))) [
  | inl some_read ↦
      let same = same_result (rw some_read at h) in
      (same, subst (λ x. 0 < length x.rids) same (ltb→lt _ _ some_read))
  | inr none_read ↦ elim (Bool-cases (ltb 0 r.invalid_rows)) [
    | inl invalid ↦ no_reading (rw (none_read, invalid) at h)
    | inr valid_rows ↦ no_reading (rw (none_read, valid_rows) at h)
  ]
]

-- A file that is read gives each of its RIDs exactly once and no other, at least one and at most the
-- limit; every cell that is not empty is counted.
read_uploaded_rids-IsDistinct :
    (limit : ℕ) (cells : List Cell) {r : Reading}
    → read_uploaded_rids limit cells ≡ ok r
    → ((a : ℕ) → contains a r.rids ≡ occurs a cells)
      × IsDistinct r.rids
      × (r.submitted_count ≡ filled cells)
      × (length r.rids ≤ limit)
      × (0 < length r.rids)
unfolding read_uploaded_rids IsReadOf IsDistinct
read_uploaded_rids-IsDistinct limit cells h =
    let (r', e, found) = bind_ok (read_cells limit cells nothing_read) some_rids h in
    let (same, filled_list) = some_rids_ok r' found in
    let (c, d, s, l) = read_cells-IsReadOf limit cells nothing_read (e ∙ ap ok same) in
    (c, d tt, rw s (omega arith), l (omega arith), filled_list)

-- ===== src/Inventory/Sync/Ids/Created.antt =====
-- The transaction of a batch keeps the database's constraints.
use quant_tool.Base.{
  ℕ, ◌+◌, ◌≤◌, ◌<◌, ◌≡◌, refl, ap, sym, subst, ◌∙◌, some_same, not_none, true, false, none, some,
  List, [], ◌∷◌, ◌++◌, arith, ◌==◌, ==_refl, ==→eq, inl, inr, Option-cases, Bool-cases,
}
use quant_tool.Base.Table.{Table, lookup}
use quant_tool.Base.Lists.{length, All}
use quant_tool.Inventory.{Payload, IsDistinct, LocalId, next_ids}
use quant_tool.Inventory.Sync.{
  Survey, Db, Run, Plan, existing_of, survey_values, plan_batch, bulk_create, bulk_update,
  write_plan,
}
use quant_tool.Inventory.Sync.Planned.{IsKeyed, existing_stored, existing_found, lookup-append}
use quant_tool.Inventory.Sync.Ids.{
  SameIds, IsKeyed-SameIds, mark_seen-SameIds, KeepsIds, bulk_update-SameIds, IsFound, IsNew,
  plan_updates-IsFound, plan_creates-IsNew, plan_creates-IsDistinct,
}

All-lookup :
    {V : Type 0} (P : ℕ × V → Type 0) (k : ℕ) (r : V) (rows : Table V)
    → All P rows
    → lookup k rows ≡ some r
    → P (k, r)
All-lookup P k r [] all e = cc
All-lookup P k r ((j, q) ∷ rows) all e = elim (Bool-cases (j == k)) [
  | inr other ↦ All-lookup P k r rows all.1 (ground (arith, e))
  | inl same ↦
      let f : q ≡ r = ground (arith, e) in
      subst (λ i. P (i, r)) (==→eq j k same) (subst (λ s. P (j, s)) f all.0)
]

lookup-All :
    (P : ℕ × Survey → Type 0) (rows : Table Survey)
    → IsKeyed rows
    → ((k : ℕ) (r : Survey) → lookup k rows ≡ some r → P (k, r))
    → All P rows
lookup-All P [] w h = tt
lookup-All P ((j, q) ∷ rows) w h =
    (h j q (rw (==_refl j) refl), lookup-All P rows w.2 (λ k r e. h k r (ground (arith, w.0, e))))

-- All keys are below `n`.
abbrev pub IsBelow : ℕ → Table Survey → Type 0
IsBelow n [] = Unit
IsBelow n ((k, r) ∷ rows) = (k < n) × IsBelow n rows

below_lookup :
    (n k : ℕ) (r : Survey) (rows : Table Survey) → IsBelow n rows → lookup k rows ≡ some r → k < n
below_lookup n k r [] b e = cc
below_lookup n k r ((j, q) ∷ rows) b e = ground (arith, below_lookup n k r rows b.1, b.0)

pub IsBelow-SameIds :
    (n : ℕ) (rows others : Table Survey) → SameIds rows others → IsBelow n rows → IsBelow n others
IsBelow-SameIds n [] [] s b = tt
IsBelow-SameIds n [] (row ∷ others) s b = elim s [ ]
IsBelow-SameIds n (row ∷ rows) [] s b = tt
IsBelow-SameIds n ((i, r) ∷ rows) ((j, q) ∷ others) s b =
    (rw⁻¹ s.0 b.0, IsBelow-SameIds n rows others s.3 b.1)

IsBelow-append :
    (n m : ℕ) (rows more : Table Survey)
    → n ≤ m
    → IsBelow n rows
    → IsBelow m more
    → IsBelow m (rows ++ more)
IsBelow-append n m [] more h b c = c
IsBelow-append n m ((k, r) ∷ rows) more h b c =
    (let f = b.0 in omega arith, IsBelow-append n m rows more h b.1 c)

append_without :
    (k : ℕ) (rows more : Table Survey)
    → lookup k rows ≡ none
    → lookup k more ≡ none
    → lookup k (rows ++ more) ≡ none
append_without k [] more e f = f
append_without k ((j, r) ∷ rows) more e f = ground (arith, append_without k rows more)

append_absent :
    (integration key : ℕ) (rows more : Table Survey)
    → existing_of integration rows key ≡ none
    → existing_of integration more key ≡ none
    → existing_of integration (rows ++ more) key ≡ none
append_absent integration key [] more e f = f
append_absent integration key ((j, r) ∷ rows) more e f =
    ground (arith, append_absent integration key rows more)

-- Neither key of a survey stands in the rows.
abbrev pub IsApart : Table Survey → ℕ × Survey → Type 0
IsApart more (k, r) = (lookup k more ≡ none) × (existing_of r.integration more r.source_key ≡ none)

IsKeyed-append :
    (rows more : Table Survey)
    → IsKeyed rows
    → IsKeyed more
    → All (IsApart more) rows
    → IsKeyed (rows ++ more)
IsKeyed-append [] more w v apart = v
IsKeyed-append ((k, r) ∷ rows) more w v apart = (
  append_without k rows more w.0 apart.0.0,
  append_absent r.integration r.source_key rows more w.1 apart.0.1,
  IsKeyed-append rows more w.2 v apart.1,
)

module _ (run : Run) (marker : ℕ) where
  created-IsBelow :
      (n : ℕ) (ids : List LocalId) (creates : Table Payload)
      → IsBelow (n + length creates) (bulk_create run marker n ids creates)
  unfolding bulk_create
  created-IsBelow n [] creates = tt
  created-IsBelow n (id ∷ ids) [] = tt
  created-IsBelow n (id ∷ ids) ((key, p) ∷ creates) = (
    omega arith,
    subst (λ m. IsBelow m (bulk_create run marker (n + 1) ids creates)) (omega arith)
        (created-IsBelow (n + 1) ids creates),
  )

  created_above :
      (n k : ℕ) (ids : List LocalId) (creates : Table Payload)
      → k < n
      → lookup k (bulk_create run marker n ids creates) ≡ none
  unfolding bulk_create
  created_above n k [] creates h = refl
  created_above n k (id ∷ ids) [] h = refl
  created_above n k (id ∷ ids) ((key, p) ∷ creates) h =
      ground (arith, created_above (n + 1) k ids creates)

  created_absent :
      (n integration key : ℕ) (ids : List LocalId) (creates : Table Payload)
      → (run.integration == integration ≡ true → lookup key creates ≡ none)
      → existing_of integration (bulk_create run marker n ids creates) key ≡ none
  unfolding bulk_create
  created_absent n integration key [] creates h = refl
  created_absent n integration key (id ∷ ids) [] h = refl
  created_absent n integration key (id ∷ ids) ((j, p) ∷ creates) h =
      elim (Bool-cases (run.integration == integration)) [
        | inr other ↦
            unfold survey_values in
            rw other (created_absent (n + 1) integration key ids creates (λ e. ground arith))
        | inl own ↦
            let absent = h own in
            let differs : j == key ≡ false = ground (arith, absent) in
            unfold survey_values in
            rw (own, differs)
              (created_absent (n + 1) integration key ids creates (λ e. ground (arith, absent)))
      ]

  created-IsKeyed :
      (n : ℕ) (ids : List LocalId) (creates : Table Payload)
      → IsDistinct creates
      → IsKeyed (bulk_create run marker n ids creates)
  unfolding bulk_create
  created-IsKeyed n [] creates d = tt
  created-IsKeyed n (id ∷ ids) [] d = tt
  created-IsKeyed n (id ∷ ids) ((key, p) ∷ creates) d = (
    created_above (n + 1) n ids creates (omega arith),
    unfold survey_values in created_absent (n + 1) run.integration key ids creates (λ e. d.0),
    created-IsKeyed (n + 1) ids creates d.1,
  )

-- The keys of the surveys, and that the database has issued no key from the next one on.
abbrev pub IsSound : Db → Type 0
IsSound db = IsKeyed db.surveys × IsBelow db.next_pk db.surveys

module _ (run : Run) (marker : ℕ) (items : Table Payload) (db : Db) (sound : IsSound db)
    (d : IsDistinct items) (ids : List LocalId) where
  abbrev plan : Plan
  plan = plan_batch run marker db.surveys items

  abbrev new_rows : Table Survey
  new_rows = bulk_create run marker db.next_pk ids plan.creates

  not_created :
      (k : ℕ) (r : Survey)
      → lookup k db.surveys ≡ some r
      → run.integration ≡ r.integration
      → lookup r.source_key plan.creates ≡ none
  not_created k r stored own = elim (Option-cases (lookup r.source_key plan.creates)) [
    | inl absent ↦ absent
    | inr (p, listed) ↦
        let absent : existing_of run.integration db.surveys r.source_key ≡ none =
          All-lookup (IsNew run db.surveys) r.source_key p plan.creates
            (plan_creates-IsNew run marker db.surveys items) listed in
        let found = existing_stored k r db.surveys sound.0 stored in
        not_none (sym absent ∙ ap (λ i. existing_of i db.surveys r.source_key) own ∙ found)
  ]

  all_rows-IsKeyed : IsKeyed (db.surveys ++ new_rows)
  all_rows-IsKeyed =
      IsKeyed-append db.surveys new_rows sound.0
        (created-IsKeyed run marker db.next_pk ids plan.creates
          (plan_creates-IsDistinct run marker db.surveys items d))
        (lookup-All (IsApart new_rows) db.surveys sound.0 (λ k r stored. (
          created_above run marker db.next_pk k ids plan.creates
              (below_lookup db.next_pk k r db.surveys sound.1 stored),
          created_absent run marker db.next_pk r.integration r.source_key ids plan.creates
              (λ own. not_created k r stored (==→eq run.integration r.integration own)),
        )))

  updated_rows-SameIds :
      SameIds (db.surveys ++ new_rows) (bulk_update plan.updates (db.surveys ++ new_rows))
  updated_rows-SameIds = bulk_update-SameIds plan.updates (db.surveys ++ new_rows) (
      lookup-All (KeepsIds plan.updates) (db.surveys ++ new_rows) all_rows-IsKeyed
        (λ k r e new updated.
          let (q, found, own) =
            All-lookup (IsFound run db.surveys) k new plan.updates
              (plan_updates-IsFound run marker db.surveys items) updated in
          let (stored, same, key) =
            existing_found run.integration new.source_key k q db.surveys sound.0 found in
          let f : r ≡ q = some_same (sym e ∙ lookup-append k q db.surveys new_rows stored) in
          (ap (λ s. s.integration) f ∙ same ∙ sym own, ap (λ s. s.source_key) f ∙ key)))

-- The transaction of a batch keeps the constraints.
pub write_plan-IsSound :
    (run : Run) (marker : ℕ) (items : Table Payload) (db : Db)
    → IsSound db
    → IsDistinct items
    → IsSound (write_plan run marker (plan_batch run marker db.surveys items) db)
unfolding write_plan
write_plan-IsSound run marker items db sound d =
    let p = plan_batch run marker db.surveys items in
    let ids = (next_ids run.year_month (length p.creates) db.sequences).0 in
    let rows = db.surveys ++ bulk_create run marker db.next_pk ids p.creates in
    let updated = updated_rows-SameIds run marker items db sound d ids in
    let marked = mark_seen-SameIds marker p.unchanged (bulk_update p.updates rows) in
    let below : IsBelow (db.next_pk + length p.creates) rows =
      IsBelow-append db.next_pk _ db.surveys _ (omega arith) sound.1
        (created-IsBelow run marker db.next_pk ids p.creates) in
    (
      IsKeyed-SameIds _ _ marked
          (IsKeyed-SameIds _ _ updated (all_rows-IsKeyed run marker items db sound d ids)),
      IsBelow-SameIds _ _ _ marked (IsBelow-SameIds _ _ _ updated below),
    )

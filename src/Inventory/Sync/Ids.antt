-- ===== src/Inventory/Sync/Ids.antt =====
-- The keys of the surveys over the writes of a batch: primary keys, and keys within an integration.
pub mod Created
use quant_tool.Base.{
  ℕ, zero, suc, ◌+◌, ◌≤◌, ◌<◌, ◌≡◌, refl, ap, sym, ◌∙◌, some_same, not_none, Bool, true, false,
  ◌&&◌, Option, none, some, List, [], ◌∷◌, ◌++◌, arith, ◌==◌, ==_refl, ==→eq, inl, inr,
  Option-cases, Bool-cases, if◌then◌else◌,
}
use quant_tool.Base.Table.{Table, lookup}
use quant_tool.Base.Lists.{length, find, contains, All}
use quant_tool.Inventory.{Payload, IsDistinct}
use quant_tool.Inventory.Sync.{
  Survey, Run, Plan, has_key, existing_of, survey_updated, survey_values, detail_changed, plan_item,
  plan_batch, bulk_update, mark_seen,
}
use quant_tool.Inventory.Sync.Planned.{IsKeyed, existing_stored, existing_found}

-- The same keys, row by row.
abbrev pub SameIds : Table Survey → Table Survey → Type 0
SameIds [] [] = Unit
SameIds [] (row ∷ rows) = ⊥
SameIds (row ∷ rows) [] = ⊥
SameIds ((k, r) ∷ rows) ((j, q) ∷ others) =
    (k ≡ j) × (r.integration ≡ q.integration) × (r.source_key ≡ q.source_key) × SameIds rows others

lookup-SameIds :
    (k : ℕ) (rows others : Table Survey)
    → SameIds rows others
    → lookup k rows ≡ none
    → lookup k others ≡ none
lookup-SameIds k [] [] s e = e
lookup-SameIds k [] (row ∷ others) s e = elim s [ ]
lookup-SameIds k (row ∷ rows) [] s e = refl
lookup-SameIds k ((i, r) ∷ rows) ((j, q) ∷ others) s e =
    let same = s.0 in grind (arith, lookup-SameIds k rows others s.3)

existing_of-SameIds :
    (integration key : ℕ) (rows others : Table Survey)
    → SameIds rows others
    → existing_of integration rows key ≡ none
    → existing_of integration others key ≡ none
existing_of-SameIds integration key [] [] s e = e
existing_of-SameIds integration key [] (row ∷ others) s e = elim s [ ]
existing_of-SameIds integration key (row ∷ rows) [] s e = refl
existing_of-SameIds integration key ((i, r) ∷ rows) ((j, q) ∷ others) s e =
    rw⁻¹ (s.1, s.2) (ground (arith, existing_of-SameIds integration key rows others s.3))

pub IsKeyed-SameIds :
    (rows others : Table Survey) → SameIds rows others → IsKeyed rows → IsKeyed others
IsKeyed-SameIds [] [] s w = tt
IsKeyed-SameIds [] (row ∷ others) s w = elim s [ ]
IsKeyed-SameIds (row ∷ rows) [] s w = tt
IsKeyed-SameIds ((i, r) ∷ rows) ((j, q) ∷ others) s w = (
  rw⁻¹ s.0 (lookup-SameIds i rows others s.3 w.0),
  rw⁻¹ (s.1, s.2) (existing_of-SameIds r.integration r.source_key rows others s.3 w.1),
  IsKeyed-SameIds rows others s.3 w.2,
)

pub SameIds-refl : (rows : Table Survey) → SameIds rows rows
SameIds-refl [] = tt
SameIds-refl (row ∷ rows) = (refl, refl, refl, SameIds-refl rows)

pub mark_seen-SameIds :
    (marker : ℕ) (unchanged : List ℕ) (rows : Table Survey)
    → SameIds rows (mark_seen marker unchanged rows)
unfolding mark_seen
mark_seen-SameIds marker unchanged [] = tt
mark_seen-SameIds marker unchanged ((k, r) ∷ rows) =
    let rest = mark_seen-SameIds marker unchanged rows in
    elim (Bool-cases (contains k unchanged)) [
      | inl seen ↦ rw seen (refl, refl, refl, rest)
      | inr unseen ↦ rw unseen (refl, refl, refl, rest)
    ]

-- An update of a survey keeps its integration and its key.
abbrev pub KeepsIds : Table Survey → ℕ × Survey → Type 0
KeepsIds updates (k, r) =
    (new : Survey)
    → lookup k updates ≡ some new
    → (r.integration ≡ new.integration) × (r.source_key ≡ new.source_key)

pub bulk_update-SameIds :
    (updates rows : Table Survey)
    → All (KeepsIds updates) rows
    → SameIds rows (bulk_update updates rows)
unfolding bulk_update
bulk_update-SameIds updates [] keeps = tt
bulk_update-SameIds updates ((k, r) ∷ rows) keeps =
    let rest = bulk_update-SameIds updates rows keeps.1 in
    elim (Option-cases (lookup k updates)) [
      | inl without ↦ rw (without, SameIds) (refl, refl, refl, rest)
      | inr (new, found) ↦
          let (same, key) = keeps.0 new found in rw (found, SameIds) (refl, same, key, rest)
    ]

-- What is updated was found under its key, and what is created was not.
abbrev pub IsFound : Run → Table Survey → ℕ × Survey → Type 0
IsFound run rows (k, new) =
    (q : Survey) × (existing_of run.integration rows new.source_key ≡ some (k, q))
    × (new.integration ≡ run.integration)

abbrev pub IsNew : Run → Table Survey → ℕ × Payload → Type 0
IsNew run rows (key, p) = existing_of run.integration rows key ≡ none

module _ (run : Run) (marker : ℕ) (rows : Table Survey) where
  pub plan_updates-IsFound :
      (items : Table Payload) → All (IsFound run rows) (plan_batch run marker rows items).updates
  unfolding plan_batch
  plan_updates-IsFound [] = tt
  plan_updates-IsFound ((key, p) ∷ items) =
      let rest = plan_updates-IsFound items in
      elim (Option-cases (existing_of run.integration rows key)) [
        | inl absent ↦ rw (absent, plan_item) rest
        | inr ((j, q), found) ↦ elim (Bool-cases (detail_changed run q p)) [
          | inr kept ↦ rw (found, kept, plan_item) rest
          | inl changed ↦
              rw (found, changed, plan_item) (unfold survey_updated in (q, found, refl), rest)
        ]
      ]

  pub plan_creates-IsNew :
      (items : Table Payload) → All (IsNew run rows) (plan_batch run marker rows items).creates
  unfolding plan_batch
  plan_creates-IsNew [] = tt
  plan_creates-IsNew ((key, p) ∷ items) =
      let rest = plan_creates-IsNew items in
      elim (Option-cases (existing_of run.integration rows key)) [
        | inl absent ↦ rw (absent, plan_item) (absent, rest)
        | inr ((j, q), found) ↦ elim (Bool-cases (detail_changed run q p)) [
          | inr kept ↦ rw (found, kept, plan_item) rest
          | inl changed ↦ rw (found, changed, plan_item) rest
        ]
      ]

  plan_creates_listed :
      (key : ℕ) (items : Table Payload)
      → lookup key items ≡ none
      → lookup key (plan_batch run marker rows items).creates ≡ none
  unfolding plan_batch
  plan_creates_listed key [] e = refl
  plan_creates_listed key ((j, p) ∷ items) e =
      let rest = plan_creates_listed key items (ground (arith, e)) in
      let other : j == key ≡ false = ground (arith, e) in
      elim (Option-cases (existing_of run.integration rows j)) [
        | inl absent ↦ rw (absent, plan_item, other) rest
        | inr ((i, q), found) ↦ elim (Bool-cases (detail_changed run q p)) [
          | inr kept ↦ rw (found, kept, plan_item) rest
          | inl changed ↦ rw (found, changed, plan_item) rest
        ]
      ]

  pub plan_creates-IsDistinct :
      (items : Table Payload)
      → IsDistinct items
      → IsDistinct (plan_batch run marker rows items).creates
  unfolding plan_batch
  plan_creates-IsDistinct [] d = tt
  plan_creates-IsDistinct ((key, p) ∷ items) d =
      let rest = plan_creates-IsDistinct items d.1 in
      elim (Option-cases (existing_of run.integration rows key)) [
        | inl absent ↦ rw (absent, plan_item) (plan_creates_listed key items d.0, rest)
        | inr ((j, q), found) ↦ elim (Bool-cases (detail_changed run q p)) [
          | inr kept ↦ rw (found, kept, plan_item) rest
          | inl changed ↦ rw (found, changed, plan_item) rest
        ]
      ]

-- ===== src/Inventory/Sync/Planned.antt =====
-- What the transaction of one batch leaves of a stored survey.
use quant_tool.Base.{
  ℕ, ◌≡◌, refl, ap, sym, subst, ◌∙◌, some_same, Bool, false, not, Option, none, some, List, [], ◌∷◌,
  ◌++◌, arith, ◌==◌, ==_refl, ==→eq, inl, inr, Option-cases, Bool-cases, or_default, if◌then◌else◌,
}
use quant_tool.Base.Table.{Table, lookup}
use quant_tool.Base.Lists.{length, contains}
use quant_tool.Inventory.{Payload, IsDistinct, next_ids}
use quant_tool.Inventory.Sync.{
  Survey, Db, Run, detail_changed, Plan, has_key, existing_of, survey_updated, plan_item,
  plan_batch, bulk_create, bulk_update, mark_seen, write_plan,
}

-- No two surveys have the same primary key, or the same key in the same integration.
abbrev pub IsKeyed : Table Survey → Type 0
IsKeyed [] = Unit
IsKeyed ((k, r) ∷ rows) =
    (lookup k rows ≡ none) × (existing_of r.integration rows r.source_key ≡ none) × IsKeyed rows

pub existing_stored :
    (k : ℕ) (r : Survey) (rows : Table Survey)
    → IsKeyed rows
    → lookup k rows ≡ some r
    → existing_of r.integration rows r.source_key ≡ some (k, r)
existing_stored k r [] w e = cc
existing_stored k r ((j, q) ∷ rows) w e = ground (arith, existing_stored k r rows w.2)

pub existing_found :
    (integration key j : ℕ) (q : Survey) (rows : Table Survey)
    → IsKeyed rows
    → existing_of integration rows key ≡ some (j, q)
    → (lookup j rows ≡ some q) × (q.integration ≡ integration) × (q.source_key ≡ key)
existing_found integration key j q [] w e = cc
existing_found integration key j q ((i, r) ∷ rows) w e =
    elim (Bool-cases (has_key integration key (i, r))) [
      | inl hit ↦ ground arith
      | inr other ↦ ground (arith, existing_found integration key j q rows w.2)
    ]

pub lookup-append :
    (k : ℕ) (r : Survey) (rows more : Table Survey)
    → lookup k rows ≡ some r
    → lookup k (rows ++ more) ≡ some r
lookup-append k r [] more e = cc
lookup-append k r ((j, q) ∷ rows) more e = ground (arith, lookup-append k r rows more)

lookup-bulk_update :
    (k : ℕ) (r : Survey) (updates rows : Table Survey)
    → lookup k rows ≡ some r
    → lookup k (bulk_update updates rows) ≡ some (or_default (lookup k updates) r)
unfolding bulk_update
lookup-bulk_update k r updates [] e = cc
lookup-bulk_update k r updates ((j, q) ∷ rows) e =
    ground (arith, lookup-bulk_update k r updates rows)

abbrev seen_if : Bool → ℕ → Survey → Survey
seen_if seen marker r = if seen then record r { last_seen_at = marker } else r

lookup-mark_seen :
    (k : ℕ) (r : Survey) (marker : ℕ) (unchanged : List ℕ) (rows : Table Survey)
    → lookup k rows ≡ some r
    → lookup k (mark_seen marker unchanged rows) ≡ some (seen_if (contains k unchanged) marker r)
unfolding mark_seen
lookup-mark_seen k r marker unchanged [] e = cc
lookup-mark_seen k r marker unchanged ((j, q) ∷ rows) e =
    ground (arith, lookup-mark_seen k r marker unchanged rows)

-- What a batch holds for the survey `r` under the key `k`: an update, or the mark that it was seen.
abbrev pub update_for : Run → ℕ → Survey → Option Payload → Option Survey
update_for run marker r none = none
update_for run marker r (some p) =
    if detail_changed run r p then some (survey_updated run marker r.source_key p r) else none

abbrev pub is_unchanged_by : Run → Survey → Option Payload → Bool
is_unchanged_by run r none = false
is_unchanged_by run r (some p) = not (detail_changed run r p)

module _ (run : Run) (marker : ℕ) (rows : Table Survey) (w : IsKeyed rows) (k : ℕ) (r : Survey)
    (stored : lookup k rows ≡ some r) (own : r.integration ≡ run.integration) where
  here : existing_of run.integration rows r.source_key ≡ some (k, r)
  here = rw⁻¹ own (existing_stored k r rows w stored)

  other_key :
      (key j : ℕ) (q : Survey)
      → existing_of run.integration rows key ≡ some (j, q)
      → j == k ≡ false
      → key == r.source_key ≡ false
  other_key key j q found other = elim (Bool-cases (key == r.source_key)) [
    | inr differs ↦ differs
    | inl same ↦
        let e = ap (existing_of run.integration rows) (==→eq key r.source_key same) in
        grind (arith, here)
  ]

  same_row :
      (key : ℕ) (q : Survey)
      → existing_of run.integration rows key ≡ some (k, q)
      → (r ≡ q) × (key ≡ r.source_key)
  same_row key q found =
      let at = existing_found run.integration key k q rows w found in
      let e : r ≡ q = some_same (sym stored ∙ at.0) in (e, rw e (sym at.2))

  -- The first item for the survey.
  plan_own :
      (p : Payload) (plan : Plan)
      → lookup k plan.updates ≡ none
      → contains k plan.unchanged ≡ false
      → let after = plan_item run marker rows (r.source_key, p) plan in
        (lookup k after.updates ≡ update_for run marker r (some p))
        × (contains k after.unchanged ≡ is_unchanged_by run r (some p))
  unfolding plan_item
  plan_own p plan no_update no_mark = elim (Bool-cases (detail_changed run r p)) [
    | inl changed ↦ rw (here, changed, plan_item, ==_refl k, no_mark) (refl, refl)
    | inr kept ↦ rw (here, kept, plan_item, ==_refl k, no_update) (refl, refl)
  ]

  plan_batch-lookup :
      (items : Table Payload)
      → IsDistinct items
      → let plan = plan_batch run marker rows items in
        let listed = lookup r.source_key items in
        (lookup k plan.updates ≡ update_for run marker r listed)
        × (contains k plan.unchanged ≡ is_unchanged_by run r listed)
  unfolding plan_batch plan_item
  plan_batch-lookup [] d = (refl, refl)
  plan_batch-lookup ((key, p) ∷ items) d =
      let rest = plan_batch-lookup items d.1 in
      elim (Option-cases (existing_of run.integration rows key)) [
        | inl new ↦ ground (arith, here)
        | inr ((j, q), found) ↦ elim (Bool-cases (j == k)) [
          | inl same ↦
              let (_, e) = same_row key q (
                subst (λ i. existing_of run.integration rows key ≡ some (i, q)) (==→eq j k same)
                  found) in
              let first : lookup r.source_key items ≡ none = rw⁻¹ e d.0 in
              let now =
                plan_own p (plan_batch run marker rows items)
                  (rest.0 ∙ ap (update_for run marker r) first)
                  (rest.1 ∙ ap (is_unchanged_by run r) first) in
              rw (e, ==_refl r.source_key) now
          | inr other ↦
              let ne = other_key key j q found other in
              elim (Bool-cases (detail_changed run q p)) [
                | inl changed ↦ rw (found, changed, plan_item, ne, other) rest
                | inr kept ↦ rw (found, kept, plan_item, ne, other) rest
              ]
        ]
      ]

-- What a batch makes of a stored survey of the run's integration.
abbrev pub after_batch : Run → ℕ → Survey → Option Payload → Survey
after_batch run marker r none = r
after_batch run marker r (some p) =
    if detail_changed run r p
    then survey_updated run marker r.source_key p r
    else record r { last_seen_at = marker }

update_or_mark :
    (run : Run) (marker : ℕ) (r : Survey) (listed : Option Payload)
    → seen_if (is_unchanged_by run r listed) marker (or_default (update_for run marker r listed) r)
      ≡ after_batch run marker r listed
update_or_mark run marker r none = refl
update_or_mark run marker r (some p) = elim (Bool-cases (detail_changed run r p)) [
  | inl changed ↦ rw changed refl
  | inr kept ↦ rw kept refl
]

pub after_batch-local_id :
    (run : Run) (marker : ℕ) (r : Survey) (listed : Option Payload)
    → (after_batch run marker r listed).local_id ≡ r.local_id
after_batch-local_id run marker r none = refl
after_batch-local_id run marker r (some p) = elim (Bool-cases (detail_changed run r p)) [
  | inl changed ↦ rw changed (unfold survey_updated in refl)
  | inr kept ↦ rw kept refl
]

-- After the transaction of a batch, a stored survey of the run's integration is updated from the
-- payload that the batch lists for it where that changed, is marked as seen where it did not, and is
-- as it was where the batch does not list it. It keeps its local id in any case.
pub write_plan-lookup :
    (run : Run) (marker : ℕ) (items : Table Payload) (db : Db) (k : ℕ) (r : Survey)
    → IsKeyed db.surveys
    → IsDistinct items
    → lookup k db.surveys ≡ some r
    → r.integration ≡ run.integration
    → let after = write_plan run marker (plan_batch run marker db.surveys items) db in
      (lookup k after.surveys ≡ some (after_batch run marker r (lookup r.source_key items)))
      × ((after_batch run marker r (lookup r.source_key items)).local_id ≡ r.local_id)
unfolding write_plan
write_plan-lookup run marker items db k r w d stored own =
    let plan = plan_batch run marker db.surveys items in
    let planned = plan_batch-lookup run marker db.surveys w k r stored own items d in
    let (ids, sequences) = next_ids run.year_month (length plan.creates) db.sequences in
    let kept =
      lookup-append k r db.surveys (bulk_create run marker db.next_pk ids plan.creates) stored in
    let updated = lookup-bulk_update k r plan.updates _ kept in
    let marked = lookup-mark_seen k _ marker plan.unchanged _ updated in
    let listed = lookup r.source_key items in
    (
      marked
          ∙ ap (λ b. some (seen_if b marker (or_default (lookup k plan.updates) r))) planned.1
          ∙ ap (λ u. some (seen_if (is_unchanged_by run r listed) marker (or_default u r)))
              planned.0
          ∙ ap some (update_or_mark run marker r listed),
      after_batch-local_id run marker r listed,
    )

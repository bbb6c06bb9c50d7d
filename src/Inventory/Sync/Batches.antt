-- ===== src/Inventory/Sync/Batches.antt =====
-- The batches of a run, one after the other.
use quant_tool.Base.{
  ℕ, zero, suc, ◌-◌, ◌≤◌, ◌≡◌, refl, ap, ◌∙◌, Option, none, some, [], ◌∷◌, arith, ◌==◌, inl, inr,
  Option-cases, Bool-cases,
}
use quant_tool.Base.Table.{Table, lookup}
use quant_tool.Base.Lists.{length, take}
use quant_tool.Inventory.{Payload, IsDistinct}
use quant_tool.Inventory.Sync.{
  Survey, Db, Run, Counts, detail_changed, plan_batch, write_plan, count_plan, survey_updated, drop,
  inventory_write_batch_size, write_batches,
}
use quant_tool.Inventory.Sync.Ids.Created.{IsSound, write_plan-IsSound}
use quant_tool.Inventory.Sync.Planned.{after_batch, write_plan-lookup}

lookup-drop :
    (key n : ℕ) (items : Table Payload) → lookup key items ≡ none → lookup key (drop n items) ≡ none
lookup-drop key zero items e = e
lookup-drop key (suc n) [] e = refl
lookup-drop key (suc n) ((j, p) ∷ items) e = lookup-drop key n items (ground arith)

lookup-take :
    (key n : ℕ) (items : Table Payload) → lookup key items ≡ none → lookup key (take n items) ≡ none
lookup-take key zero items e = refl
lookup-take key (suc n) [] e = refl
lookup-take key (suc n) ((j, p) ∷ items) e = ground (arith, lookup-take key n items)

take-IsDistinct : (n : ℕ) (items : Table Payload) → IsDistinct items → IsDistinct (take n items)
take-IsDistinct zero items d = tt
take-IsDistinct (suc n) [] d = tt
take-IsDistinct (suc n) ((j, p) ∷ items) d =
    (lookup-take j n items d.0, take-IsDistinct n items d.1)

drop-IsDistinct : (n : ℕ) (items : Table Payload) → IsDistinct items → IsDistinct (drop n items)
drop-IsDistinct zero items d = d
drop-IsDistinct (suc n) [] d = tt
drop-IsDistinct (suc n) ((j, p) ∷ items) d = drop-IsDistinct n items d.1

length-drop : (n : ℕ) (items : Table Payload) → length (drop n items) ≤ length items
length-drop zero items = omega arith
length-drop (suc n) [] = omega arith
length-drop (suc n) ((j, p) ∷ items) = let below = length-drop n items in omega arith

-- An item stands in the first part or in the rest, not in both.
not_taken :
    (key n : ℕ) (items : Table Payload)
    → lookup key (take n items) ≡ none
    → lookup key items ≡ lookup key (drop n items)
not_taken key zero items e = refl
not_taken key (suc n) [] e = refl
not_taken key (suc n) ((j, p) ∷ items) e = ground (arith, not_taken key n items)

taken_once :
    (key n : ℕ) (items : Table Payload) (p : Payload)
    → IsDistinct items
    → lookup key (take n items) ≡ some p
    → (lookup key items ≡ some p) × (lookup key (drop n items) ≡ none)
taken_once key zero items p d e = cc
taken_once key (suc n) [] p d e = cc
taken_once key (suc n) ((j, q) ∷ items) p d e = elim (Bool-cases (j == key)) [
  | inl same ↦ (ground arith, lookup-drop key n items (ground (arith, d.0)))
  | inr other ↦
      let rest = taken_once key n items p d.1 (ground arith) in (ground (arith, rest.0), rest.1)
]

pub after_batch-integration :
    (run : Run) (marker : ℕ) (r : Survey) (listed : Option Payload)
    → r.integration ≡ run.integration
    → ((after_batch run marker r listed).integration ≡ run.integration)
      × ((after_batch run marker r listed).source_key ≡ r.source_key)
after_batch-integration run marker r none own = (own, refl)
after_batch-integration run marker r (some p) own = elim (Bool-cases (detail_changed run r p)) [
  | inl changed ↦ rw changed (unfold survey_updated in (refl, refl))
  | inr kept ↦ rw kept (own, refl)
]

positive_size : (configured : ℕ) → (m : ℕ) × (inventory_write_batch_size configured ≡ suc m)
unfolding inventory_write_batch_size
positive_size configured = (inventory_write_batch_size configured - 1, ground arith)

-- One survey over two parts of the items.
two_parts :
    (run : Run) (marker n : ℕ) (items : Table Payload) (r : Survey)
    → IsDistinct items
    → r.integration ≡ run.integration
    → let first = after_batch run marker r (lookup r.source_key (take n items)) in
      after_batch run marker first (lookup first.source_key (drop n items))
      ≡ after_batch run marker r (lookup r.source_key items)
two_parts run marker n items r d own =
    let same = (after_batch-integration run marker r (lookup r.source_key (take n items)) own).1 in
    elim (Option-cases (lookup r.source_key (take n items))) [
      | inl later ↦ rw (later, not_taken r.source_key n items later) refl
      | inr (p, taken) ↦
          let once = taken_once r.source_key n items p d taken in
          let none_left = ap (λ key. lookup key (drop n items)) same ∙ once.1 in
          rw (once.0) (
            ap
              (after_batch run marker
                (after_batch run marker r (lookup r.source_key (take n items))))
              none_left
            ∙ ap (after_batch run marker r) taken)
    ]

-- Over all batches, a stored survey of the run's integration becomes what the one batch that lists it
-- makes of it, and stays as it is where none does.
pub write_batches-lookup :
    (fuel : ℕ) (run : Run) (marker : ℕ) (items : Table Payload) (c : Counts) (db : Db) (k : ℕ)
    (r : Survey)
    → length items ≤ fuel
    → IsDistinct items
    → IsSound db
    → lookup k db.surveys ≡ some r
    → r.integration ≡ run.integration
    → lookup k (write_batches fuel run marker items c db).1.surveys
      ≡ some (after_batch run marker r (lookup r.source_key items))
unfolding write_batches
write_batches-lookup zero run marker [] c db k r enough d w stored own = stored
write_batches-lookup zero run marker (item ∷ items) c db k r enough d w stored own = ground arith
write_batches-lookup (suc fuel) run marker [] c db k r enough d w stored own = stored
write_batches-lookup (suc fuel) run marker (item ∷ items) c db k r enough d w stored own =
    let size = inventory_write_batch_size run.batch_size in
    let batch = take size (item ∷ items) in
    let rest = drop size (item ∷ items) in
    let plan = plan_batch run marker db.surveys batch in
    let first = after_batch run marker r (lookup r.source_key batch) in
    let (m, positive) = positive_size run.batch_size in
    let shorter : length rest ≤ fuel = rw positive (let e = length-drop m items in omega arith) in
    let written =
      (write_plan-lookup run marker batch db k r w.0 (take-IsDistinct size (item ∷ items) d) stored
        own).0 in
    write_batches-lookup fuel run marker rest (count_plan plan c) (write_plan run marker plan db) k
      first shorter (drop-IsDistinct size (item ∷ items) d)
      (write_plan-IsSound run marker batch db w (take-IsDistinct size (item ∷ items) d)) written
      (after_batch-integration run marker r (lookup r.source_key batch) own).0
    ∙ ap some (two_parts run marker size (item ∷ items) r d own)

pub write_batches-IsSound :
    (fuel : ℕ) (run : Run) (marker : ℕ) (items : Table Payload) (c : Counts) (db : Db)
    → IsDistinct items
    → IsSound db
    → IsSound (write_batches fuel run marker items c db).1
unfolding write_batches
write_batches-IsSound zero run marker items c db d sound = sound
write_batches-IsSound (suc fuel) run marker [] c db d sound = sound
write_batches-IsSound (suc fuel) run marker (item ∷ items) c db d sound =
    let size = inventory_write_batch_size run.batch_size in
    let batch = take size (item ∷ items) in
    let plan = plan_batch run marker db.surveys batch in
    write_batches-IsSound fuel run marker (drop size (item ∷ items)) (count_plan plan c)
      (write_plan run marker plan db) (drop-IsDistinct size (item ∷ items) d)
      (write_plan-IsSound run marker batch db sound (take-IsDistinct size (item ∷ items) d))

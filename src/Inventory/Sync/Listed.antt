-- ===== src/Inventory/Sync/Listed.antt =====
-- A whole run, for a provider whose surveys live as long as they are listed.
use quant_tool.Base.{
  ℕ, ◌≡◌, refl, ap, ◌∙◌, Bool, true, false, Option, none, some, List, [], ◌∷◌, arith, leb, ◌==◌,
  ==_refl, inl, inr, Bool-cases, is_some,
}
use quant_tool.Base.Table.{Table, lookup}
use quant_tool.Base.Lists.{length, All}
use quant_tool.Inventory.{Payload, IsDistinct, merge_inventory, closed, snapshot_marker}
use quant_tool.Inventory.Merge.{merge_inventory-IsMerged}
use quant_tool.Inventory.Sync.{
  Counts, write_batches, Survey, Db, Run, is_live, desired_status, detail_changed, survey_updated,
  survey_values, closed_status, close_missing, latest_marker, sync_surveys,
}
use quant_tool.Inventory.Sync.Ids.Created.{IsSound, IsBelow-SameIds}
use quant_tool.Inventory.Sync.Ids.{SameIds, IsKeyed-SameIds}
use quant_tool.Inventory.Sync.Planned.{after_batch, after_batch-local_id}
use quant_tool.Inventory.Sync.Batches.{
  after_batch-integration, write_batches-lookup, write_batches-IsSound,
}

abbrev reaches : Option ℕ → ℕ → Bool
reaches none t = false
reaches (some latest) t = leb t latest

latest_marker-reaches :
    (integration k : ℕ) (r : Survey) (rows : Table Survey)
    → lookup k rows ≡ some r
    → r.integration ≡ integration
    → reaches (latest_marker integration rows) r.last_seen_at ≡ true
unfolding latest_marker
latest_marker-reaches integration k r [] e own = cc
latest_marker-reaches integration k r ((j, q) ∷ rows) e own =
    ground (arith, latest_marker-reaches integration k r rows)

-- The marker is later than whatever the surveys of the integration were marked with.
marker_is_new :
    (now t : ℕ) (latest : Option ℕ)
    → reaches latest t ≡ true
    → t == snapshot_marker now latest ≡ false
unfolding snapshot_marker
marker_is_new now t none e = cc
marker_is_new now t (some latest) e = ground arith

lookup-close_missing :
    (run : Run) (marker k : ℕ) (r : Survey) (rows : Table Survey)
    → lookup k rows ≡ some r
    → r.integration ≡ run.integration
    → lookup k (close_missing run marker rows).1
      ≡ some (record r { status = closed_status run marker r })
unfolding close_missing
lookup-close_missing run marker k r [] e own = cc
lookup-close_missing run marker k r ((j, q) ∷ rows) e own =
    ground (arith, lookup-close_missing run marker k r rows)

-- A batch writes live surveys, and a survey that it leaves unchanged is live already.
after_batch-live :
    (run : Run) (marker : ℕ) (r : Survey) (p : Payload)
    → run.is_biobrain ≡ false
    → (is_live (after_batch run marker r (some p)).status ≡ true)
      × ((after_batch run marker r (some p)).last_seen_at ≡ marker)
after_batch-live run marker r p plain = elim (Bool-cases (detail_changed run r p)) [
  | inl changed ↦
      rw changed (unfold survey_updated survey_values desired_status in rw plain (refl, refl))
  | inr kept ↦ rw kept (unfold detail_changed desired_status in ground arith, refl)
]

All-trivial : (ps : List Payload) → All {0, 0} (λ p. Unit) ps
All-trivial [] = tt
All-trivial (p ∷ ps) = (tt, All-trivial ps)

seen_stays :
    (run : Run) (marker : ℕ) (q : Survey)
    → run.is_biobrain ≡ false
    → q.last_seen_at ≡ marker
    → closed_status run marker q ≡ q.status
unfolding closed_status
seen_stays run marker q plain seen = rw (plain, seen, ==_refl marker) refl

unseen_closed :
    (run : Run) (marker : ℕ) (q : Survey)
    → run.is_biobrain ≡ false
    → q.last_seen_at == marker ≡ false
    → closed_status run marker q ≡ closed
unfolding closed_status
unseen_closed run marker q plain unseen = rw (plain, unseen) refl

closed_live :
    (run : Run) (marker : ℕ) (r : Survey) (listed : Option Payload)
    → run.is_biobrain ≡ false
    → r.last_seen_at == marker ≡ false
    → is_live (closed_status run marker (after_batch run marker r listed)) ≡ is_some listed
closed_live run marker r none plain old = ap is_live (unseen_closed run marker r plain old)
closed_live run marker r (some p) plain old =
    let (is_open, seen) = after_batch-live run marker r p plain in
    ap is_live (seen_stays run marker (after_batch run marker r (some p)) plain seen) ∙ is_open

close_missing-SameIds :
    (run : Run) (marker : ℕ) (rows : Table Survey) → SameIds rows (close_missing run marker rows).1
unfolding close_missing
close_missing-SameIds run marker [] = tt
close_missing-SameIds run marker ((k, r) ∷ rows) =
    let rest = close_missing-SameIds run marker rows in
    elim (Bool-cases (r.integration == run.integration)) [
      | inl own ↦ rw (own, SameIds) (refl, refl, refl, rest)
      | inr other ↦ rw (other, SameIds) (refl, refl, refl, rest)
    ]

merged-IsDistinct : (full paged : List Payload) → IsDistinct (merge_inventory full paged)
merged-IsDistinct full paged =
    (merge_inventory-IsMerged (λ p. Unit) full paged (All-trivial full) (All-trivial paged)).0.0

-- A run keeps the constraints on the surveys: no two have the same primary key, or the same key in one
-- integration, and the database has issued no primary key from the next one on.
pub sync_surveys-IsSound :
    (run : Run) (fetched : Option (List Payload × List Payload)) (db : Db)
    → IsSound db
    → IsSound (sync_surveys run fetched db).1
unfolding sync_surveys
sync_surveys-IsSound run none db sound = sound
sync_surveys-IsSound run (some (full, paged)) db sound =
    let marker = snapshot_marker run.now (latest_marker run.integration db.surveys) in
    let merged = merge_inventory full paged in
    let start : Counts = record { created = 0; updated = 0; unchanged = 0 } in
    let written = (write_batches (length merged) run marker merged start db).1 in
    let s =
      write_batches-IsSound (length merged) run marker merged start db
        (merged-IsDistinct full paged) sound in
    let same = close_missing-SameIds run marker written.surveys in
    (IsKeyed-SameIds _ _ same s.0, IsBelow-SameIds _ _ _ same s.1)

-- Where the surveys keep those constraints, after a run of a provider other than BioBrain that
-- answered: a survey of its integration that was stored before is still there, with its local id, and
-- is live exactly where the merged inventory lists it. The others are closed, and a closed one that is
-- listed again is live again.
pub sync_surveys_live :
    (run : Run) (full paged : List Payload) (db : Db) (k : ℕ) (r : Survey)
    → run.is_biobrain ≡ false
    → IsSound db
    → lookup k db.surveys ≡ some r
    → r.integration ≡ run.integration
    → let after = (sync_surveys run (some (full, paged)) db).1 in
      (s : Survey) × (lookup k after.surveys ≡ some s)
      × (s.local_id ≡ r.local_id)
      × (is_live s.status ≡ is_some (lookup r.source_key (merge_inventory full paged)))
unfolding sync_surveys
sync_surveys_live run full paged db k r plain sound stored own =
    let marker = snapshot_marker run.now (latest_marker run.integration db.surveys) in
    let merged = merge_inventory full paged in
    let listed = lookup r.source_key merged in
    let first = after_batch run marker r listed in
    let written =
      write_batches-lookup (length merged) run marker merged
        (record { created = 0; updated = 0; unchanged = 0 }) db k r (omega arith)
        (merged-IsDistinct full paged) sound stored own in
    let old =
      marker_is_new run.now r.last_seen_at (latest_marker run.integration db.surveys)
        (latest_marker-reaches run.integration k r db.surveys stored own) in
    (
      record first { status = closed_status run marker first },
      lookup-close_missing run marker k first _ written
          (after_batch-integration run marker r listed own).0,
      after_batch-local_id run marker r listed,
      closed_live run marker r listed plain old,
    )

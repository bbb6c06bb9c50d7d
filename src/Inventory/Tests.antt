-- ===== src/Inventory/Tests.antt =====
-- Runs over two stored surveys, of which the provider lists one, and a new one.
use quant_tool.Base.{ℕ, ◌≤◌, ◌≡◌, refl, false, none, some, is_some, List, [], ◌∷◌, arith}
use quant_tool.Base.Table.{lookup}
use quant_tool.Base.Lists.{All}
use quant_tool.Inventory.{
  Payload, payload_modified_at, merge_one, merge_all, merge_inventory, live, closed, ids_from,
  next_ids, acquire, snapshot_marker,
}
use quant_tool.Inventory.Merge.{IsMerged, IsCovered, merge_inventory-IsMerged}
use quant_tool.Inventory.Sync.{
  Survey, Db, Run, is_live, desired_status, survey_values, detail_changed, survey_updated,
  plan_item, plan_batch, bulk_create, bulk_update, mark_seen, write_plan, count_plan,
  inventory_write_batch_size, write_batches, closed_status, close_missing, latest_marker,
  sync_surveys,
}
use quant_tool.Inventory.Sync.Listed.{sync_surveys_live, sync_surveys-IsSound}
use quant_tool.Inventory.Sync.Ids.Created.{IsSound}

abbrev payload : ℕ → ℕ → ℕ → Payload
payload key modified content = record {
  survey_id = some key;
  modified = some modified;
  created = none;
  ends_at = none;
  content = content;
}

abbrev full : List Payload
full = payload 100 5000000 7 ∷ payload 102 6000000 8 ∷ []

abbrev paged : List Payload
paged = payload 100 9000000 9 ∷ []

-- The later payload of survey 100 wins.
newest :
    merge_inventory full paged ≡ (100, payload 100 9000000 9) ∷ (102, payload 102 6000000 8) ∷ []
unfolding merge_inventory merge_all merge_one payload_modified_at
newest = refl

abbrev IsModified : Payload → Type 0
IsModified p = 5000000 ≤ payload_modified_at p

merge_inventory-IsMerged_example :
    let merged = merge_inventory full paged in
    IsMerged IsModified merged × All (IsCovered merged) full × All (IsCovered merged) paged
unfolding payload_modified_at
merge_inventory-IsMerged_example =
    merge_inventory-IsMerged IsModified full paged (omega arith, (omega arith, tt))
      (omega arith, tt)

abbrev stored : ℕ → ℕ → Survey
stored key number = record {
  integration = 1;
  source_key = key;
  local_id = record { year_month = 202611; value = number };
  status = live;
  source_modified_at = some 5000000;
  source_created_at = none;
  source_end_at = none;
  last_seen_at = 60000000;
  detail_synced_at = some 60000000;
  raw_data = 7;
}

abbrev db : Db
db = record {
  surveys = (1, stored 100 1) ∷ (2, stored 101 2) ∷ [];
  next_pk = 3;
  sequences = (202611, 2) ∷ [];
}

abbrev run : Run
run = record {
  integration = 1;
  is_biobrain = false;
  is_old_detail = λ content. false;
  now = 120000000;
  year_month = 202611;
  batch_size = 1000;
}

abbrev after : Db
after = record {
  surveys =
      (
        1,
        record (stored 100 1) {
          source_modified_at = some 9000000;
          last_seen_at = 120000000;
          raw_data = 9;
        },
      )
      ∷ (2, record (stored 101 2) { status = closed })
      ∷ (
        3,
        record (stored 102 3) {
          source_modified_at = some 6000000;
          last_seen_at = 120000000;
          detail_synced_at = none;
          raw_data = 8;
        },
      )
      ∷ [];
  next_pk = 4;
  sequences = (202611, 3) ∷ [];
}

whole_run :
    sync_surveys run (some (full, paged)) db
    ≡ (some (record { created = 1; updated = 1; unchanged = 0 }, 1), after)
unfolding sync_surveys merge_inventory merge_all merge_one payload_modified_at snapshot_marker
    latest_marker write_batches plan_batch plan_item write_plan count_plan bulk_create bulk_update
    mark_seen next_ids ids_from inventory_write_batch_size close_missing closed_status survey_values
    survey_updated desired_status detail_changed
whole_run = refl

db-IsSound : IsSound db
db-IsSound = ((refl, refl, (refl, refl, tt)), (omega arith, (omega arith, tt)))

sync_surveys-IsSound_example : IsSound (sync_surveys run (some (full, paged)) db).1
sync_surveys-IsSound_example = sync_surveys-IsSound run (some (full, paged)) db db-IsSound

sync_surveys_live_example :
    let (result, after) = sync_surveys run (some (full, paged)) db in
    (s : Survey) × (lookup 2 after.surveys ≡ some s)
    × (s.local_id ≡ record { year_month = 202611; value = 2 })
    × (is_live s.status ≡ is_some (lookup 101 (merge_inventory full paged)))
sync_surveys_live_example =
    sync_surveys_live run full paged db 2 (stored 101 2) refl db-IsSound refl refl

-- A lease is not taken twice before its time.
lease_held : acquire 4 300 7 ((4, some 8) ∷ []) ≡ (false, (4, some 8) ∷ [])
unfolding acquire
lease_held = refl

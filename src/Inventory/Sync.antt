-- ===== src/Inventory/Sync.antt =====
-- surveys/services.py `sync_surveys`: the writes of a run, batch by batch, and the closing of what the
-- provider no longer lists. `integration` is the run's integration; that two surveys of one integration
-- have different keys is a constraint of the database. The clock is read once. The columns of a survey are those that decide
-- what a run does; the rest of them is in the number for the payload's content.
pub mod Planned
pub mod Ids
pub mod Batches
pub mod Listed
use quant_tool.Base.{
  ℕ, zero, suc, ◌+◌, ◌-◌, Bool, true, false, not, ◌&&◌, ◌||◌, Option, none, some, List, [], ◌∷◌,
  ◌++◌, leb, ltb, ◌==◌, or_default, if◌then◌else◌,
}
use quant_tool.Base.Table.{Table, lookup}
use quant_tool.Base.Lists.{length, take, find, contains}
use quant_tool.Inventory.{
  Payload, payload_modified_at, merge_inventory, Status, live, closed, LocalId, next_ids,
  snapshot_marker,
}

pub record Survey : Type 0 where
  pub integration : ℕ
  pub source_key : ℕ
  pub local_id : LocalId
  pub status : Status
  pub source_modified_at : Option ℕ
  pub source_created_at : Option ℕ
  pub source_end_at : Option ℕ
  pub last_seen_at : ℕ
  pub detail_synced_at : Option ℕ
  pub raw_data : ℕ

-- The surveys, the next key that the database issues, and the sequences of local ids.
pub record Db : Type 0 where
  pub surveys : Table Survey
  pub next_pk : ℕ
  pub sequences : Table ℕ

-- What a run is given: the integration, whether its client is BioBrain's, the contents that an older
-- adapter wrote, the time of the run, the month and INNOVATEMR_INVENTORY_WRITE_BATCH_SIZE.
pub record Run : Type 0 where
  pub integration : ℕ
  pub is_biobrain : Bool
  pub is_old_detail : ℕ → Bool
  pub now : ℕ
  pub year_month : ℕ
  pub batch_size : ℕ

abbrev pub is_past : ℕ → Option ℕ → Bool
is_past now none = false
is_past now (some t) = leb t now

abbrev pub is_live : Status → Bool
is_live live = true
is_live closed = false

abbrev pub same_status : Status → Status → Bool
same_status live s = is_live s
same_status closed s = not (is_live s)

abbrev pub same_end : Option ℕ → Option ℕ → Bool
same_end none none = true
same_end (some s) (some t) = s == t
same_end _ _ = false

-- The status of `_survey_values`
unfoldable pub desired_status : Run → Payload → Status
desired_status run p = if run.is_biobrain && is_past run.now p.ends_at then closed else live

-- The survey that `_survey_values` makes of a payload, under an id and with the time of its details.
unfoldable pub survey_values : Run → ℕ → ℕ → LocalId → Option ℕ → Payload → Survey
unfolding desired_status
survey_values run marker key local_id detail_synced_at p = record {
  integration = run.integration;
  source_key = key;
  local_id = local_id;
  status = desired_status run p;
  source_modified_at = p.modified;
  source_created_at = p.created;
  source_end_at = p.ends_at;
  last_seen_at = marker;
  detail_synced_at = detail_synced_at;
  raw_data = p.content;
}

-- `_detail_changed`
unfoldable pub detail_changed : Run → Survey → Payload → Bool
unfolding payload_modified_at desired_status
detail_changed run existing p =
    let existing_modified =
      or_default existing.source_modified_at (or_default existing.source_created_at 0) in
    ltb existing_modified (payload_modified_at p)
    || not (existing.raw_data == p.content)
    || not (same_status existing.status (desired_status run p))
    || not (same_end existing.source_end_at p.ends_at)

-- The lists that the loop over a batch fills.
pub record Plan : Type 0 where
  pub creates : List (ℕ × Payload)
  pub updates : Table Survey
  pub unchanged : List ℕ

abbrev pub has_key : ℕ → ℕ → ℕ × Survey → Bool
has_key integration key (k, r) = (r.integration == integration) && (r.source_key == key)

-- `existing_by_key.get(key)`
abbrev pub existing_of : ℕ → Table Survey → ℕ → Option (ℕ × Survey)
existing_of integration rows key = find (has_key integration key) rows

-- An update of a stored survey; details of an older adapter are to be read again.
unfoldable pub survey_updated : Run → ℕ → ℕ → Payload → Survey → Survey
unfolding survey_values
survey_updated run marker key p r =
    survey_values run marker key r.local_id
      (if run.is_biobrain && run.is_old_detail r.raw_data then none else r.detail_synced_at) p

unfoldable pub plan_item : Run → ℕ → Table Survey → ℕ × Payload → Plan → Plan
unfolding detail_changed survey_updated
plan_item run marker rows (key, p) plan = elim (existing_of run.integration rows key) [
  | none ↦ record plan { creates = (key, p) ∷ plan.creates }
  | some (k, r) ↦
      if detail_changed run r p
      then record plan { updates = (k, survey_updated run marker key p r) ∷ plan.updates }
      else record plan { unchanged = k ∷ plan.unchanged }
]

unfoldable pub plan_batch : Run → ℕ → Table Survey → List (ℕ × Payload) → Plan
unfolding plan_item
plan_batch run marker rows [] = record { creates = []; updates = []; unchanged = [] }
plan_batch run marker rows (item ∷ batch) =
    plan_item run marker rows item (plan_batch run marker rows batch)

-- `bulk_create`, with the keys that the database issues and the ids in their order
unfoldable pub bulk_create : Run → ℕ → ℕ → List LocalId → List (ℕ × Payload) → Table Survey
unfolding survey_values
bulk_create run marker next_pk (id ∷ ids) ((key, p) ∷ creates) =
    (next_pk, survey_values run marker key id none p)
    ∷ bulk_create run marker (next_pk + 1) ids creates
bulk_create run marker next_pk _ _ = []

-- `bulk_update`
unfoldable pub bulk_update : Table Survey → Table Survey → Table Survey
bulk_update updates [] = []
bulk_update updates ((k, r) ∷ rows) =
    let rest = bulk_update updates rows in
    elim (lookup k updates) [ none ↦ (k, r) ∷ rest | some new ↦ (k, new) ∷ rest ]

-- `.filter(pk__in=unchanged_ids).update(last_seen_at=snapshot_marker)`
unfoldable pub mark_seen : ℕ → List ℕ → Table Survey → Table Survey
mark_seen marker unchanged [] = []
mark_seen marker unchanged ((k, r) ∷ rows) =
    (k, if contains k unchanged then record r { last_seen_at = marker } else r)
    ∷ mark_seen marker unchanged rows

-- The transaction of a batch.
unfoldable pub write_plan : Run → ℕ → Plan → Db → Db
unfolding bulk_create bulk_update mark_seen next_ids
write_plan run marker plan db =
    let (ids, sequences) = next_ids run.year_month (length plan.creates) db.sequences in
    record {
      surveys = mark_seen marker plan.unchanged (
          bulk_update plan.updates
            (db.surveys ++ bulk_create run marker db.next_pk ids plan.creates));
      next_pk = db.next_pk + length plan.creates;
      sequences = sequences;
    }

-- The counters of `SyncSummary`.
pub record Counts : Type 0 where
  pub created : ℕ
  pub updated : ℕ
  pub unchanged : ℕ

unfoldable pub count_plan : Plan → Counts → Counts
count_plan plan c = record {
  created = c.created + length plan.creates;
  updated = c.updated + length plan.updates;
  unchanged = c.unchanged + length plan.unchanged;
}

abbrev pub drop : ℕ → List (ℕ × Payload) → List (ℕ × Payload)
drop zero items = items
drop (suc n) [] = []
drop (suc n) (item ∷ items) = drop n items

-- `_inventory_write_batch_size`
unfoldable pub inventory_write_batch_size : ℕ → ℕ
inventory_write_batch_size configured =
    let capped = if ltb configured 5000 then configured else 5000 in
    if ltb 100 capped then capped else 100

-- The loop over the batches; the fuel is the number of items, since no batch is empty.
unfoldable pub write_batches : ℕ → Run → ℕ → List (ℕ × Payload) → Counts → Db → Counts × Db
unfolding plan_batch write_plan count_plan inventory_write_batch_size
write_batches zero run marker items c db = (c, db)
write_batches (suc fuel) run marker [] c db = (c, db)
write_batches (suc fuel) run marker (item ∷ items) c db =
    let size = inventory_write_batch_size run.batch_size in
    let plan = plan_batch run marker db.surveys (take size (item ∷ items)) in
    write_batches fuel run marker (drop size (item ∷ items)) (count_plan plan c)
      (write_plan run marker plan db)

-- What the closing makes of a survey of the run's integration.
unfoldable pub closed_status : Run → ℕ → Survey → Status
closed_status run marker r =
    if run.is_biobrain
    then (if is_past run.now r.source_end_at then closed else live)
    else if not (r.last_seen_at == marker)
    then closed
    else r.status

-- The closing of the integration's surveys, and their number.
unfoldable pub close_missing : Run → ℕ → Table Survey → ℕ × Table Survey
unfolding closed_status
close_missing run marker [] = (0, [])
close_missing run marker ((k, r) ∷ rows) =
    let (n, rest) = close_missing run marker rows in
    let status = closed_status run marker r in
    if r.integration == run.integration
    then (
      if is_live r.status && not (is_live status) then n + 1 else n,
      (k, record r { status = status }) ∷ rest,
    )
    else (n, (k, r) ∷ rest)

-- The latest marker of the integration.
unfoldable pub latest_marker : ℕ → Table Survey → Option ℕ
latest_marker integration [] = none
latest_marker integration ((k, r) ∷ rows) =
    let rest = latest_marker integration rows in
    if r.integration == integration
    then some (elim rest [
      | none ↦ r.last_seen_at
      | some t ↦ if ltb t r.last_seen_at then r.last_seen_at else t
    ])
    else rest

-- `sync_surveys`, with the two inventories where the provider answers; where it raises, nothing was
-- written.
unfoldable pub sync_surveys :
    Run → Option (List Payload × List Payload) → Db → Option (Counts × ℕ) × Db
unfolding latest_marker snapshot_marker merge_inventory write_batches close_missing
sync_surveys run none db = (none, db)
sync_surveys run (some (full, paged)) db =
    let marker = snapshot_marker run.now (latest_marker run.integration db.surveys) in
    let merged = merge_inventory full paged in
    let (c, written) =
      write_batches (length merged) run marker merged
        (record { created = 0; updated = 0; unchanged = 0 }) db in
    let (n, surveys) = close_missing run marker written.surveys in
    (some (c, n), record written { surveys = surveys })

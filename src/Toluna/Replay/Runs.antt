-- ===== src/Toluna/Replay/Runs.antt =====
-- `reconcile_toluna_operational_notifications` for one survey and `..._for_surveys` for all that an
-- inventory run has written (surveys/toluna_notifications.py). Each returns how many notifications it
-- has tried, beside the tables.
use quant_tool.Base.{
  ℕ, zero, suc, ◌+◌, ◌-◌, ◌/◌, Bool, true, false, not, ◌&&◌, ◌||◌, Option, none, some, List, [],
  ◌∷◌, ltb, ◌==◌, if◌then◌else◌,
}
use quant_tool.Base.Lists.{length, take, select, any}
use quant_tool.Toluna.{is_quota_event, Survey, Notification, Db}
use quant_tool.Toluna.Ingest.{survey_provider_identity}
use quant_tool.Toluna.Replay.{
  operational_identity_chunk_size, operational_reconcile_batch_size, EventTypes, is_close_event,
  same_column, operational_notification_ids, reconcile_each,
}

abbrev pub is_operational : Notification → Bool
is_operational n = is_quota_event n.event_type || is_close_event n.event_type

abbrev pub names_survey : ℕ × Notification → ℕ × ℕ → Bool
names_survey row (survey_id, wave_id) =
    same_column row.1.payload.survey_id (some survey_id)
    && same_column row.1.payload.wave_id (some wave_id)

-- The survey's id and its wave, where both are there
abbrev pub exact_identity : Option ℕ × Option ℕ → Option (ℕ × ℕ)
exact_identity (none, wave_id) = none
exact_identity (some survey_id, none) = none
exact_identity (some survey_id, some wave_id) = some (survey_id, wave_id)

abbrev pub no_types : EventTypes
no_types = record { closed_surveys = false; quotas = false }

abbrev pub all_types : EventTypes
all_types = record { closed_surveys = true; quotas = true }

-- `reconcile_toluna_operational_notifications` at the time `now`
unfoldable pub reconcile_toluna_operational_notifications :
    ℕ → Survey → Bool → Option ℕ → Db → ℕ × Db
unfolding operational_notification_ids reconcile_each survey_provider_identity
reconcile_toluna_operational_notifications now survey replay_applied applied_since db =
    if not survey.is_toluna
    then (0, db)
    else elim (exact_identity (survey_provider_identity survey)) [
      | none ↦ (0, db)
      | some identity ↦
          let ids =
            operational_notification_ids db.notifications
              (select (λ row. is_operational row.1 && names_survey row identity) db.notifications)
              (if replay_applied then all_types else no_types) applied_since
              operational_reconcile_batch_size in
          (length ids, reconcile_each now replay_applied ids db)
    ]

abbrev pub is_before : ℕ × ℕ → ℕ × ℕ → Bool
is_before (a, b) (x, y) = ltb a x || ((a == x) && ltb b y)

abbrev pub same_identity : ℕ × ℕ → ℕ × ℕ → Bool
same_identity (a, b) (x, y) = (a == x) && (b == y)

-- An element of a set, in the order of `sorted`
unfoldable pub insert_identity : ℕ × ℕ → List (ℕ × ℕ) → List (ℕ × ℕ)
insert_identity i [] = i ∷ []
insert_identity i (j ∷ identities) =
    let rest = insert_identity i identities in
    if same_identity i j
    then j ∷ identities
    else if is_before i j
    then i ∷ j ∷ identities
    else j ∷ rest

-- `sorted(provider_identities)`
unfoldable pub provider_identities : List Survey → List (ℕ × ℕ)
unfolding insert_identity survey_provider_identity
provider_identities [] = []
provider_identities (s ∷ surveys) =
    let rest = provider_identities surveys in
    elim (exact_identity (survey_provider_identity s)) [
      | none ↦ rest
      | some identity ↦ insert_identity identity rest
    ]

abbrev pub drop_identities : ℕ → List (ℕ × ℕ) → List (ℕ × ℕ)
drop_identities zero identities = identities
drop_identities (suc n) [] = []
drop_identities (suc n) (i ∷ identities) = drop_identities n identities

-- One round of the loop: what is left of the bound, and what has been tried.
unfoldable pub reconcile_chunk : ℕ → EventTypes → Option ℕ → List (ℕ × ℕ) → ℕ × ℕ × Db → ℕ × ℕ × Db
unfolding operational_notification_ids reconcile_each
reconcile_chunk now types applied_since chunk (remaining, reconciled, db) =
    let ids =
      operational_notification_ids db.notifications
        (select (λ row. is_operational row.1 && any (names_survey row) chunk) db.notifications)
        types applied_since remaining in
    (remaining - length ids, reconciled + length ids, reconcile_each now true ids db)

-- `for offset in range(...)`, over the chunks from the offset on
unfoldable pub reconcile_chunks :
    ℕ → ℕ → EventTypes → Option ℕ → List (ℕ × ℕ) → ℕ → ℕ × ℕ × Db → ℕ × ℕ × Db
unfolding reconcile_chunk
reconcile_chunks zero now types applied_since identities offset (remaining, reconciled, db) =
    (remaining, reconciled, db)
reconcile_chunks (suc n) now types applied_since identities offset (remaining, reconciled, db) =
    let chunk = take operational_identity_chunk_size (drop_identities offset identities) in
    let rest =
      reconcile_chunks n now types applied_since identities
        (offset + operational_identity_chunk_size)
        (reconcile_chunk now types applied_since chunk (remaining, reconciled, db)) in
    if remaining == 0 then (remaining, reconciled, db) else rest

-- `reconcile_toluna_operational_notifications_for_surveys`
unfoldable pub reconcile_toluna_operational_notifications_for_surveys :
    ℕ → List Survey → EventTypes → Option ℕ → Db → ℕ × Db
unfolding provider_identities reconcile_chunks
reconcile_toluna_operational_notifications_for_surveys now surveys types applied_since db =
    let identities = provider_identities surveys in
    let chunks =
      (length identities + (operational_identity_chunk_size - 1))
      / operational_identity_chunk_size in
    let (remaining, reconciled, after) =
      reconcile_chunks chunks now types applied_since identities 0
        (operational_reconcile_batch_size, 0, db) in
    (reconciled, after)

-- ===== src/Toluna/Replay.antt =====
-- The notifications of surveys and quotas that are tried again after an inventory run
-- (surveys/toluna_notifications.py). The databases that the program names put nulls first in an
-- ascending order.
pub mod Runs
pub mod Bounds
pub mod Latest
pub mod Order
pub mod Selected
pub mod Due
use quant_tool.Base.{
  ℕ, zero, suc, ◌+◌, ◌-◌, ◌*◌, ◌/◌, Bool, true, false, not, ◌&&◌, ◌||◌, Option, none, some, List,
  [], ◌∷◌, ◌++◌, map, ltb, leb, ◌==◌, is_some, is_none, if◌then◌else◌,
}
use quant_tool.Base.Table.{Table}
use quant_tool.Base.Lists.{length, take, select, contains}
use quant_tool.Toluna.{
  EventType, quota_status, survey_closed, is_quota_event, Survey, Notification, Db,
}
use quant_tool.Toluna.Events.{is_later_row, is_newer}
use quant_tool.Toluna.Ingest.{survey_provider_identity, reconcile_notification}

abbrev pub operational_identity_chunk_size : ℕ
operational_identity_chunk_size = 100

abbrev pub operational_reconcile_batch_size : ℕ
operational_reconcile_batch_size = 200

-- A subset of OPERATIONAL_EVENT_TYPES
pub record EventTypes : Type 0 where
  pub closed_surveys : Bool
  pub quotas : Bool

abbrev pub is_close_event : EventType → Bool
is_close_event survey_closed = true
is_close_event _ = false

-- A row of the query whose column has the value of the outer row's; null is equal to nothing.
abbrev pub same_column : Option ℕ → Option ℕ → Bool
same_column none b = false
same_column (some x) none = false
same_column (some x) (some y) = x == y

abbrev pub same_survey : Notification → Notification → Bool
same_survey n m =
    same_column n.payload.survey_id m.payload.survey_id
    && same_column n.payload.wave_id m.payload.wave_id

abbrev pub same_quota : Notification → Notification → Bool
same_quota n m = same_survey n m && same_column n.payload.quota_id m.payload.quota_id

-- `.order_by(*ordering)[:1]` of the rows that pass the test
unfoldable pub latest : (Notification → Bool) → Table Notification → Option (ℕ × Notification)
latest p [] = none
latest p (row ∷ rows) =
    let rest = latest p rows in
    if not (p row.1) then rest else elim rest [
      | none ↦ some row
      | some other ↦ if is_newer row other then some other else some row
    ]

abbrev pub is_row_of : ℕ → Option (ℕ × Notification) → Bool
is_row_of k none = false
is_row_of k (some row) = row.0 == k

-- `latest_close` and `latest_quota` in their filters
unfoldable pub is_latest_close : Table Notification → ℕ × Notification → Bool
unfolding latest
is_latest_close all (k, n) =
    n.applied
    && is_close_event n.event_type
    && is_row_of k (latest (λ m. m.applied && is_close_event m.event_type && same_survey n m) all)

unfoldable pub is_latest_quota : Table Notification → ℕ × Notification → Bool
unfolding latest
is_latest_quota all (k, n) =
    n.applied
    && is_quota_event n.event_type
    && is_row_of k (latest (λ m. m.applied && is_quota_event m.event_type && same_quota n m) all)

-- `.order_by(...)`, by whether the second row comes before the first
unfoldable pub insert_row :
    (ℕ × Notification → ℕ × Notification → Bool)
    → ℕ × Notification
    → Table Notification
    → Table Notification
insert_row after row [] = row ∷ []
insert_row after row (other ∷ rows) =
    let rest = insert_row after row rows in
    if after row other then other ∷ rest else row ∷ other ∷ rows

unfoldable pub order_by :
    (ℕ × Notification → ℕ × Notification → Bool) → Table Notification → Table Notification
unfolding insert_row
order_by after [] = []
order_by after (row ∷ rows) = insert_row after row (order_by after rows)

-- `("received_at", "pk")`
abbrev pub by_reception : ℕ × Notification → ℕ × Notification → Bool
by_reception row other = is_later_row other row

-- `("occurred_at", "received_at", "pk")`
abbrev pub by_occurrence : ℕ × Notification → ℕ × Notification → Bool
by_occurrence row other = elim other.1.payload.occurred_at [
  | none ↦ is_some row.1.payload.occurred_at || by_reception row other
  | some u ↦ elim row.1.payload.occurred_at [
    | none ↦ false
    | some t ↦ ltb u t || ((t == u) && by_reception row other)
  ]
]

abbrev pub key_of : ℕ × Notification → ℕ
key_of row = row.0

-- `_latest_applied_operational_ids`
unfoldable pub latest_applied_operational_ids :
    Table Notification → Table Notification → EventTypes → ℕ → List ℕ
unfolding is_latest_close is_latest_quota order_by
latest_applied_operational_ids all queryset types limit =
    let close_ids =
      if types.closed_surveys
      then take limit (map key_of (order_by by_reception (select (is_latest_close all) queryset)))
      else [] in
    let quota_ids =
      if types.quotas
      then take (limit - length close_ids)
          (map key_of (order_by by_reception (select (is_latest_quota all) queryset)))
      else [] in
    close_ids ++ quota_ids

-- `list(dict.fromkeys(...))`
unfoldable pub from_keys : List ℕ → List ℕ → List ℕ
from_keys seen [] = []
from_keys seen (k ∷ keys) =
    let old = from_keys seen keys in
    let new = from_keys (k ∷ seen) keys in if contains k seen then old else k ∷ new

abbrev pub received_since : Option ℕ → ℕ × Notification → Bool
received_since none row = true
received_since (some since) row = leb since row.1.received_at

abbrev pub is_unapplied : ℕ × Notification → Bool
is_unapplied row = not row.1.applied

-- `_operational_notification_ids`
unfoldable pub operational_notification_ids :
    Table Notification → Table Notification → EventTypes → Option ℕ → ℕ → List ℕ
unfolding latest_applied_operational_ids from_keys
operational_notification_ids all queryset types applied_since limit =
    let applied_ids =
      latest_applied_operational_ids all (select (received_since applied_since) queryset) types
        limit in
    let pending_ids =
      take (limit - length applied_ids)
        (map key_of (order_by by_occurrence (select is_unapplied queryset))) in
    if limit == 0 then [] else from_keys [] (applied_ids ++ pending_ids)

-- `for notification_id in notification_ids: _reconcile_notification(...)`
unfoldable pub reconcile_each : ℕ → Bool → List ℕ → Db → Db
unfolding reconcile_notification
reconcile_each now replay_applied [] db = db
reconcile_each now replay_applied (k ∷ keys) db =
    reconcile_each now replay_applied keys (reconcile_notification now replay_applied k db)

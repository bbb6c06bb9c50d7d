-- ===== src/Toluna/Replay/Due.antt =====
-- Which notifications a run tries (surveys/toluna_notifications.py `_operational_notification_ids`).
use quant_tool.Base.{ℕ, ◌≤◌, ◌≡◌, refl, true, false, Option, none, some, arith}
use quant_tool.Base.Table.{Table, lookup}
use quant_tool.Base.Lists.{length, contains}
use quant_tool.Toluna.{Notification}
use quant_tool.Toluna.Replay.{EventTypes, operational_notification_ids, received_since}
use quant_tool.Base.Keys.{HasDistinctKeys}
use quant_tool.Toluna.Replay.Latest.{IsCloseOf, IsQuotaOf, IsLatest, IsLatest-close, IsLatest-quota}
use quant_tool.Toluna.Replay.Selected.{is_selected, selected_included}

-- Received at the given time or later, if one is given
abbrev pub IsSince : Option ℕ → Notification → Type 0
IsSince none n = Unit
IsSince (some since) n = since ≤ n.received_at

-- What a run is there for: what waits for its application, and of the replayed types and since the
-- given time the last applied closing of a survey and wave and the last applied state of a quota.
pub data IsDue (all : Table Notification) (types : EventTypes) (since : Option ℕ) (k : ℕ)
    (n : Notification) : Type 0 where
  waits : n.applied ≡ false → IsDue all types since k n
  closing :
      (survey_id wave_id : ℕ)
      → types.closed_surveys ≡ true
      → IsSince since n
      → IsLatest (IsCloseOf survey_id wave_id) all k n
      → IsDue all types since k n
  quota_state :
      (survey_id wave_id quota_id : ℕ)
      → types.quotas ≡ true
      → IsSince since n
      → IsLatest (IsQuotaOf survey_id wave_id quota_id) all k n
      → IsDue all types since k n

IsSince-received :
    (since : Option ℕ) (k : ℕ) (n : Notification)
    → IsSince since n
    → received_since since (k, n) ≡ true
IsSince-received none k n h = refl
IsSince-received (some since) k n h = ground (arith, h)

IsDue-selected :
    (all : Table Notification) (types : EventTypes) (since : Option ℕ) (k : ℕ) (n : Notification)
    → HasDistinctKeys all
    → IsDue all types since k n
    → is_selected all types since (k, n) ≡ true
IsDue-selected all types since k n d (waits pending) = ground (arith, pending)
IsDue-selected all types since k n d (closing s w replayed recent last) =
    let is_last = IsLatest-close all k n d s w last in
    let received = IsSince-received since k n recent in ground (arith, replayed, received, is_last)
IsDue-selected all types since k n d (quota_state s w q replayed recent last) =
    let is_last = IsLatest-quota all k n d s w q last in
    let received = IsSince-received since k n recent in ground (arith, replayed, received, is_last)

-- Where the rows of the query are not more than the limit, and keys are unique, every row of it that
-- waits for its application is selected, and so is every row of a replayed type that was received
-- since the given time and is the last applied one, by Toluna's own times, that closes its survey and
-- wave or gives the state of its quota there.
pub due_included :
    (all queryset : Table Notification) (types : EventTypes) (since : Option ℕ) (limit k : ℕ)
    (n : Notification)
    → HasDistinctKeys all
    → length queryset ≤ limit
    → lookup k queryset ≡ some n
    → IsDue all types since k n
    → contains k (operational_notification_ids all queryset types since limit) ≡ true
due_included all queryset types since limit k n keyed room row due =
    selected_included all queryset types since limit k n room row
      (IsDue-selected all types since k n keyed due)

-- ===== src/Toluna/Events.antt =====
-- What a notification does to the program's tables: `_apply_attempt_event` and
-- `_apply_operational_event` of surveys/toluna_notifications.py. The Boolean that they return is kept
-- in `applied`.
use quant_tool.Base.{
  ℕ, ◌+◌, String, str_eq, Bool, true, false, not, ◌&&◌, ◌||◌, Option, none, some, List, [], ◌∷◌,
  ltb, ◌==◌, is_some, is_none, or_default, same_option, if◌then◌else◌,
}
use quant_tool.Base.Table.{Table, lookup, update}
use quant_tool.Base.Lists.{find, any}
use quant_tool.Inventory.{closed}
use quant_tool.Vendors.Models.{
  AttemptStatus, completed, terminated, over_quota, quality_terminated, survey_not_available,
  not_qualified, survey_taken, no_surveys, no_cookies, max_surveys_reached,
}
use quant_tool.SupplierCallbacks.{same_status}
use quant_tool.Journey.{Attempt, State, toluna_notification, calculate_loi_seconds, save_final}
use quant_tool.Toluna.{
  EventType, member_complete, member_terminate, enhanced_termination, quota_status, survey_closed,
  reconciliation, is_quota_event, Payload, Survey, QuotaStatus, open_quota, full_quota, Quota,
  Respondent, Notification, Db,
}

-- TERMINATION_STATUS_MAP
unfoldable pub termination_status_map : List (String × AttemptStatus)
termination_status_map =
    ("quotafull", over_quota)
    ∷ ("surveytaken", survey_taken)
    ∷ ("terminated", terminated)
    ∷ ("surveynotavailable", survey_not_available)
    ∷ ("nosurveysavailable", no_surveys)
    ∷ ("nocookie", no_cookies)
    ∷ ("maxsurveysreached", max_surveys_reached)
    ∷ ("notqualified", not_qualified)
    ∷ []

unfoldable pub status_for_reason : String → List (String × AttemptStatus) → AttemptStatus
status_for_reason reason [] = terminated
status_for_reason reason ((key, status) ∷ rows) =
    let rest = status_for_reason reason rows in if str_eq key reason then status else rest

unfoldable pub termination_status : Payload → AttemptStatus
unfolding termination_status_map status_for_reason
termination_status p =
    if p.names_fraud
    then quality_terminated
    else status_for_reason p.reason_key termination_status_map

-- `_attempt_status_for`
unfoldable pub attempt_status_for : EventType → Payload → Option AttemptStatus
attempt_status_for member_complete p = some completed
attempt_status_for reconciliation p = some quality_terminated
attempt_status_for member_terminate p = some (termination_status p)
attempt_status_for enhanced_termination p = some (termination_status p)
attempt_status_for quota_status p = none
attempt_status_for survey_closed p = none

abbrev pub replaces_completion : EventType → Bool
replaces_completion member_complete = true
replaces_completion reconciliation = true
replaces_completion _ = false

unfoldable pub notified_attempt : AttemptStatus → ℕ → ℕ → Attempt → Attempt
unfolding calculate_loi_seconds
notified_attempt status ended_at now a = record a {
  status = status;
  callback_at = some (or_default a.callback_at ended_at);
  last_callback_at = some now;
  callback_count = a.callback_count + 1;
  loi_seconds = some (calculate_loi_seconds a ended_at);
  status_source = toluna_notification;
  is_verified = true;
}

-- `_apply_attempt_event` on the locked attempt `k`
unfoldable pub apply_to_attempt : EventType → Payload → ℕ → ℕ → State → Bool × State
unfolding attempt_status_for notified_attempt save_final
apply_to_attempt event p now k s = elim (attempt_status_for event p) [
  | none ↦ (false, s)
  | some status ↦
      if same_status s.attempt.status completed && not (replaces_completion event)
      then (false, s)
      else (
        true,
        save_final now k (notified_attempt status (or_default p.occurred_at now) now s.attempt) s,
      )
]

abbrev pub with_state : ℕ → State → Db → Db
with_state k t db = record db {
  respondents = update k (λ r. record r { attempt = t.attempt }) db.respondents;
  vendors = t.vendors;
}

abbrev pub state_of : Respondent → Db → State
state_of r db = record { attempt = r.attempt; vendors = db.vendors }

-- `_apply_attempt_event`
unfoldable pub apply_attempt_event : ℕ → Notification → Db → Bool × Db
unfolding apply_to_attempt
apply_attempt_event now n db = elim n.attempt [
  | none ↦ (false, db)
  | some k ↦ elim (lookup k db.respondents) [
    | none ↦ (false, db)
    | some r ↦
        let (applied, t) = apply_to_attempt n.event_type n.payload now k (state_of r db) in
        (applied, with_state k t db)
  ]
]

-- The order of two keys that the database compares one after the other.
abbrev pub is_later_row : ℕ × Notification → ℕ × Notification → Bool
is_later_row (k, n) (j, m) =
    ltb n.received_at m.received_at || ((m.received_at == n.received_at) && ltb k j)

-- The last filter of `_newer_applied_quota_notification_exists`: whether the second is newer.
unfoldable pub is_newer : ℕ × Notification → ℕ × Notification → Bool
is_newer (k, n) (j, m) = elim n.payload.occurred_at [
  | none ↦
      is_some m.payload.occurred_at || (is_none m.payload.occurred_at && is_later_row (k, n) (j, m))
  | some t ↦ elim m.payload.occurred_at [
    | none ↦ false
    | some u ↦ ltb t u || ((u == t) && is_later_row (k, n) (j, m))
  ]
]

-- Its other filters: an applied quota notification on the same survey and quota, but not this one.
unfoldable pub controls_same : ℕ × Notification → ℕ × Notification → Bool
controls_same (k, n) (j, m) =
    is_quota_event m.event_type
    && m.applied
    && same_option m.survey n.survey
    && same_option m.payload.quota_id n.payload.quota_id
    && not (j == k)

-- `_newer_applied_quota_notification_exists`
unfoldable pub newer_exists : ℕ × Notification → Table Notification → Bool
unfolding is_newer controls_same
newer_exists row = any (λ other. controls_same row other && is_newer row other)

abbrev pub live_status : Option Bool → QuotaStatus
live_status none = full_quota
live_status (some is_live) = if is_live then open_quota else full_quota

abbrev pub live_remaining : Option Bool → ℕ → ℕ
live_remaining (some false) remaining = 0
live_remaining _ remaining = if remaining == 0 then 1 else remaining

unfoldable pub with_quota_status : Option Bool → Quota → Quota
with_quota_status is_live q = record q {
  status = live_status is_live;
  remaining = live_remaining is_live q.remaining;
}

abbrev pub is_quota_of : ℕ → Option ℕ → ℕ × Quota → Bool
is_quota_of survey quota_id (j, q) = (q.survey == survey) && same_option q.quota_id quota_id

-- The locked quota row of a survey of Toluna
unfoldable pub quota_of : Db → ℕ → Option ℕ → Option (ℕ × Quota)
quota_of db survey quota_id = elim (lookup survey db.surveys) [
  | none ↦ none
  | some s ↦ if s.is_toluna then find (is_quota_of survey quota_id) db.quotas else none
]

-- The quota branch of `_apply_operational_event`
unfoldable pub apply_quota_event : ℕ → Notification → Db → Bool × Db
unfolding quota_of newer_exists with_quota_status
apply_quota_event k n db = elim n.survey [
  | none ↦ (false, db)
  | some survey ↦ elim (quota_of db survey n.payload.quota_id) [
    | none ↦ (false, db)
    | some (j, q) ↦
        if newer_exists (k, n) db.notifications
        then (true, db)
        else (true, record db { quotas = update j (with_quota_status n.payload.is_live) db.quotas })
  ]
]

abbrev pub closed_survey : Survey → Survey
closed_survey s = record s { status = closed; remaining = 0 }

-- Its branch for a closed survey
unfoldable pub apply_closed_event : Notification → Db → Bool × Db
apply_closed_event n db = elim n.survey [
  | none ↦ (false, db)
  | some survey ↦ (true, record db { surveys = update survey closed_survey db.surveys })
]

-- `_apply_operational_event` for the notification `k` at the time `now`
unfoldable pub apply_operational_event : ℕ → ℕ → Notification → Db → Bool × Db
unfolding apply_quota_event apply_closed_event apply_attempt_event
apply_operational_event now k n db = elim n.event_type [
  | quota_status ↦ apply_quota_event k n db
  | survey_closed ↦ apply_closed_event n db
  | _ ↦ apply_attempt_event now n db
]

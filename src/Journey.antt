-- ===== src/Journey.antt =====
-- A respondent's attempt from its start to its result: the handlers of surveys/views.py that end an
-- attempt or record a provider's result, and surveys/services.py `reconcile_attempt_status`. Each
-- works on the locked attempt and passes it on to vendors/services.py `finalize_attempt_capacity`.
-- The request is the facts that a handler reads from it; the stored texts and the browser's data are
-- left out. Times are microseconds, an IP is a number.
pub mod Ends
pub mod Status
pub mod Settled
mod Tests
use quant_tool.Base.{
  ℕ, ◌+◌, ◌-◌, ◌/◌, Bool, true, false, not, ◌&&◌, ◌||◌, Option, none, some, List, [], ◌∷◌, ltb,
  ◌==◌, is_some, is_none, or_default, if◌then◌else◌,
}
use quant_tool.Base.Table.{Table, lookup}
use quant_tool.Vendors.Models.{
  AttemptStatus, initiated, redirected, completed, terminated, over_quota, quality_terminated,
  survey_not_available, not_qualified, survey_taken, no_surveys, no_cookies, max_surveys_reached,
}
use quant_tool.Vendors.Models
use quant_tool.Vendors.Reservation.{finalize_attempt_capacity}
use quant_tool.SupplierCallbacks.{same_status}

-- `status_source`
pub data Source : Type 0 where
  no_source local_prescreener toluna_invite_rejection local_country_guard : Source
  local_duplicate_ip_guard rfg_callback toluna_callback toluna_notification : Source
  innovatemr_signed_redirect biobrain_signed_redirect browser_callback : Source
  innovatemr_transaction : Source

-- The columns of `SurveyAttempt` that these handlers read and write.
pub record Attempt : Type 0 where
  pub status : AttemptStatus
  pub status_source : Source
  pub initiated_at : ℕ
  pub submitted_at : Option ℕ
  pub redirected_at : Option ℕ
  pub callback_at : Option ℕ
  pub last_callback_at : Option ℕ
  pub callback_count : ℕ
  pub loi_seconds : Option ℕ
  pub is_verified : Bool
  pub initiation_ip : Option ℕ
  pub callback_ip : Option ℕ
  pub upstream_checked_at : Option ℕ
  pub has_outbound_url : Bool

-- The attempt, with the suppliers' tables.
pub record State : Type 0 where
  pub attempt : Attempt
  pub vendors : Models.Db

-- PENDING_ATTEMPT_STATUSES
unfoldable pub is_pending : AttemptStatus → Bool
is_pending initiated = true
is_pending redirected = true
is_pending _ = false

abbrev pub is_initiated : AttemptStatus → Bool
is_initiated initiated = true
is_initiated _ = false

-- STATUS_PAGES, and so TERMINAL_ATTEMPT_STATUSES
unfoldable pub has_status_page : AttemptStatus → Bool
has_status_page completed = true
has_status_page terminated = true
has_status_page over_quota = true
has_status_page quality_terminated = true
has_status_page _ = false

-- `calculate_loi_seconds`
unfoldable pub calculate_loi_seconds : Attempt → ℕ → ℕ
calculate_loi_seconds a ended_at = (ended_at - a.initiated_at) / 1000000

abbrev pub first_ip : Option ℕ → Option ℕ → Option ℕ
first_ip none other = other
first_ip (some ip) other = some ip

-- Saving the attempt `k` and finalizing its reservation.
unfoldable pub save_final : ℕ → ℕ → Attempt → State → State
save_final now k a s = record {
  attempt = a;
  vendors = (finalize_attempt_capacity now k a.status s.vendors).1;
}

-- `_release_prepared_toluna_invite`: whether the respondent is redirected.
unfoldable pub release_prepared_toluna_invite : ℕ → State → Bool × State
release_prepared_toluna_invite now s =
    if not (is_initiated s.attempt.status)
      || is_none s.attempt.submitted_at
      || not s.attempt.has_outbound_url
    then (false, s)
    else (
      true,
      record s { attempt = record s.attempt { redirected_at = some now; status = redirected } },
    )

-- What the four local endings write.
unfoldable pub ended_locally : Source → AttemptStatus → ℕ → Option ℕ → Attempt → Attempt
unfolding calculate_loi_seconds
ended_locally source status now ip a = record a {
  submitted_at = some now;
  callback_at = some now;
  last_callback_at = some now;
  callback_ip = first_ip ip a.initiation_ip;
  status = status;
  status_source = source;
  loi_seconds = some (calculate_loi_seconds a now);
}

unfoldable pub finish_locally : Source → AttemptStatus → ℕ → ℕ → Option ℕ → State → State
unfolding ended_locally save_final
finish_locally source status now k ip s =
    if not (is_initiated s.attempt.status)
    then s
    else save_final now k (ended_locally source status now ip s.attempt) s

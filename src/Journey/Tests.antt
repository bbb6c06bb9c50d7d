-- ===== src/Journey/Tests.antt =====
-- Runs of the handlers on one attempt (surveys/views.py, surveys/services.py).
use quant_tool.Base.{◌≡◌, refl, ap, sym, Bool, true, false, none, some, [], ◌∷◌}
use quant_tool.Base.Table.{Table, lookup}
use quant_tool.Vendors.Models.{
  AttemptStatus, redirected, completed, terminated, quality_terminated, Reservation, reserved,
  consumed, no_reason, completed_survey,
}
use quant_tool.Vendors.Models
use quant_tool.Vendors.Reservation.{finalize_attempt_capacity, finalized}
use quant_tool.Journey.{
  no_source, innovatemr_signed_redirect, Attempt, State, is_pending, has_status_page,
  calculate_loi_seconds, save_final,
}
use quant_tool.Journey.Ends.{
  Transaction, reconcile_attempt_status, rfg_status_map, recorded, rfg_callback_view,
}
use quant_tool.Journey.Ends.Rfg.{second_result_splits}
use quant_tool.Journey.Status.{
  innovatemr, Settings, Request, not_verified, result_page, survey_status, status_of_attempt,
  canonical_query, trusted_recorded_source, verification, record_status, biobrain_conflict,
  toluna_already_finalized, status_recorded, status_written, answer_recorded,
}
use quant_tool.Journey.Status.Kept.{KeepsResult, unaccepted_changes_nothing, first_result_kept}
use quant_tool.Journey.Settled.{IsSettled}
use quant_tool.Journey.Settled.Steps.{Reach, here, next, browser, reconcile, journey-IsSettled}

abbrev held : Reservation
held = record {
  attempt_id = 3;
  client_allocation_id = 20;
  survey_allocation_id = none;
  quantity = 1;
  status = reserved;
  expires_at = 90000000;
  finalized_at = none;
  reason = no_reason;
}

abbrev tables : Table Reservation → Models.Db
tables rows = record {
  users = [];
  clients = [];
  units = [];
  rules = [];
  surveys = [];
  client_allocations = [];
  survey_allocations = [];
  attempts = [];
  reservations = rows;
}

-- On its way since second 1.
abbrev attempt : Attempt
attempt = record {
  status = redirected;
  status_source = no_source;
  initiated_at = 1000000;
  submitted_at = some 2000000;
  redirected_at = some 3000000;
  callback_at = none;
  last_callback_at = none;
  callback_count = 0;
  loi_seconds = none;
  is_verified = false;
  initiation_ip = some 7;
  callback_ip = none;
  upstream_checked_at = none;
  has_outbound_url = true;
}

abbrev start : State
start = record { attempt = attempt; vendors = tables ((30, held) ∷ []) }

abbrev hashed : Settings
hashed = record { innovatemr_hash_required = true; biobrain_hash_required = true }

abbrev no_url : AttemptStatus → Bool
no_url status = false

-- A browser that returns with a status and the RID.
abbrev returns : AttemptStatus → Bool → Request
returns status has_valid_hash = record {
  has_duplicates = false;
  status = some status;
  has_identifier = true;
  is_rid_query = true;
  is_pid_query = false;
  ip = some 7;
  toluna_check = none;
  has_valid_hash = has_valid_hash;
}

-- The signed result of second 61 is recorded, and consumes the reservation.
abbrev done : Attempt
done = record attempt {
  status = completed;
  status_source = innovatemr_signed_redirect;
  callback_at = some 61000000;
  last_callback_at = some 61000000;
  callback_ip = some 7;
  callback_count = 1;
  loi_seconds = some 60;
  is_verified = true;
}

abbrev ended : State
ended = record {
  attempt = done;
  vendors = tables (
      (
        30,
        record held { status = consumed; finalized_at = some 61000000; reason = completed_survey },
      )
      ∷ []);
}

signed_result :
    survey_status innovatemr hashed false no_url
      (some attempt)
      (returns completed true)
      61000000
      3
      start
    ≡ (result_page completed, ended)
unfolding survey_status status_of_attempt canonical_query trusted_recorded_source verification
    record_status biobrain_conflict toluna_already_finalized status_recorded status_written
    answer_recorded is_pending has_status_page calculate_loi_seconds save_final
    finalize_attempt_capacity finalized
signed_result = refl

forged_result :
    survey_status innovatemr hashed false no_url
      (some attempt)
      (returns completed false)
      61000000
      3
      start
    ≡ (not_verified, start)
unfolding survey_status status_of_attempt canonical_query trusted_recorded_source verification
    is_pending has_status_page
forged_result = refl

unaccepted_changes_nothing_example :
    (survey_status innovatemr hashed false no_url
      (some attempt)
      (returns completed false)
      61000000
      3
      start).1
    ≡ start
unaccepted_changes_nothing_example =
    unaccepted_changes_nothing innovatemr hashed false no_url (some attempt)
      (returns completed false) 61000000 3 start refl

first_result_kept_example :
    KeepsResult done
      (survey_status innovatemr hashed false no_url
        (some done)
        (returns terminated true)
        90000000
        3
        ended).1.attempt
first_result_kept_example =
    first_result_kept innovatemr hashed false no_url (some done) (returns terminated true) 90000000
      3 ended refl

-- The result comes, and later the provider's transaction, which says otherwise.
abbrev transaction : Transaction
transaction = record {
  word = record { is_complete = false; is_quality = false; is_quota = false; is_ended = true };
  completed_at = some 50000000;
  ip = none;
  is_valid = true;
}

abbrev later : State
later = (reconcile_attempt_status transaction 95000000 3 ended).1

abbrev path : Reach 3 start later
path =
    next
      (next here (
        browser innovatemr hashed false no_url (some attempt) (returns completed true) 61000000
          (sym (ap (λ answer. answer.1) signed_result))))
      (reconcile transaction 95000000 refl)

start-IsSettled : IsSettled 3 start
unfolding is_pending
start-IsSettled = record { timed = refl; ended = refl }

journey-IsSettled_example : IsSettled 3 later
journey-IsSettled_example = journey-IsSettled 3 path start-IsSettled

known_two : lookup 2 rfg_status_map ≡ some terminated
unfolding rfg_status_map
known_two = refl

second_result_splits_example :
    let (answer, after) = rfg_callback_view 2 true true 95000000 3 (some 9) ended in
    (answer ≡ recorded terminated)
    × (after.attempt.status ≡ terminated)
    × (after.attempt.callback_at ≡ some 61000000)
    × (after.vendors ≡ ended.vendors)
second_result_splits_example =
    second_result_splits 2 95000000 3 (some 9) ended terminated 30 61000000 _ known_two refl refl
      refl

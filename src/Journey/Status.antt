-- ===== src/Journey/Status.antt =====
-- surveys/views.py `survey_status`: the page to which a provider sends the respondent's browser back
-- with a result. The request is the facts that the code tests on it. The attempt is read once before
-- the checks and again under the lock, so both readings are arguments.
pub mod Cases
pub mod Kept
use quant_tool.Base.{
  ℕ, ◌+◌, Bool, true, false, not, ◌&&◌, ◌||◌, Option, none, some, is_some, is_none, if◌then◌else◌,
}
use quant_tool.Vendors.Models.{AttemptStatus}
use quant_tool.Journey.{
  Source, toluna_invite_rejection, local_country_guard, local_duplicate_ip_guard, toluna_callback,
  toluna_notification, innovatemr_signed_redirect, biobrain_signed_redirect, browser_callback,
  Attempt, State, is_pending, has_status_page, calculate_loi_seconds, save_final,
}
use quant_tool.SupplierCallbacks.{same_status}

-- `provider_code`; biobrain stands for voqall too.
pub data Provider : Type 0 where
  innovatemr toluna biobrain other_provider : Provider

-- What the code reads besides the attempt. `status` is the `status` parameter where it is the code of
-- an attempt's status; `toluna_check` is the answer of the provider's `verify_callback`, and `none`
-- where that raises; `is_rid_query` and `is_pid_query` tell of an exact query for this attempt.
pub record Request : Type 0 where
  pub has_duplicates : Bool
  pub status : Option AttemptStatus
  pub has_identifier : Bool
  pub is_rid_query : Bool
  pub is_pid_query : Bool
  pub ip : Option ℕ
  pub toluna_check : Option Bool
  pub has_valid_hash : Bool

-- INNOVATEMR_CALLBACK_HASH_REQUIRED and BIOBRAIN_CALLBACK_HASH_REQUIRED
pub record Settings : Type 0 where
  pub innovatemr_hash_required : Bool
  pub biobrain_hash_required : Bool

-- What the caller gets. `not_verified` is an answer 403, `result_page` shows a page for a status,
-- `to_supplier` and `to_recorded` are redirects.
pub data Answer : Type 0 where
  duplicate_parameters unsupported_status unknown_attempt not_recorded : Answer
  extended_status not_verified : Answer
  result_page to_supplier to_recorded : AttemptStatus → Answer

abbrev pub is_toluna : Provider → Bool
is_toluna toluna = true
is_toluna _ = false

abbrev pub is_biobrain : Provider → Bool
is_biobrain biobrain = true
is_biobrain _ = false

abbrev pub is_local_guard : Source → Bool
is_local_guard local_country_guard = true
is_local_guard local_duplicate_ip_guard = true
is_local_guard toluna_invite_rejection = true
is_local_guard _ = false

abbrev pub is_toluna_callback : Source → Bool
is_toluna_callback toluna_callback = true
is_toluna_callback _ = false

abbrev pub is_toluna_result : Source → Bool
is_toluna_result toluna_callback = true
is_toluna_result toluna_notification = true
is_toluna_result _ = false

-- `trusted_recorded_source`; `notified` is whether a verified Toluna notification is stored.
unfoldable pub trusted_recorded_source : Provider → Bool → Attempt → Bool
trusted_recorded_source provider notified a =
    is_local_guard a.status_source
    || (is_toluna provider && is_toluna_callback a.status_source && a.is_verified)
    || (is_toluna provider && notified)

unfoldable pub canonical_query : Provider → Bool → Request → AttemptStatus → Attempt → Bool
unfolding trusted_recorded_source
canonical_query provider notified q status a =
    q.is_rid_query && trusted_recorded_source provider notified a && same_status a.status status

-- Which check the callback passed.
pub data Verified : Type 0 where
  unverified toluna_verified innovate_verified biobrain_verified : Verified

-- `none` is an answer 403.
unfoldable pub verification : Provider → Settings → Bool → Request → Option Verified
verification toluna settings canonical q =
    if canonical then some unverified else elim q.toluna_check [
      | none ↦ none
      | some passed ↦ if passed then some toluna_verified else none
    ]
verification innovatemr settings canonical q =
    if not canonical && settings.innovatemr_hash_required
    then (if q.has_valid_hash then some innovate_verified else none)
    else some unverified
verification biobrain settings canonical q =
    if settings.biobrain_hash_required
    then (if q.has_valid_hash then some biobrain_verified else none)
    else some unverified
verification other_provider settings canonical q = some unverified

abbrev pub source_of : Provider → Verified → Source
source_of toluna v = toluna_callback
source_of _ innovate_verified = innovatemr_signed_redirect
source_of _ biobrain_verified = biobrain_signed_redirect
source_of _ _ = browser_callback

-- `toluna_already_finalized`
unfoldable pub toluna_already_finalized : Provider → Attempt → Bool
toluna_already_finalized provider a =
    is_toluna provider && a.is_verified && is_toluna_result a.status_source

abbrev pub is_toluna_verified : Verified → Bool
is_toluna_verified toluna_verified = true
is_toluna_verified _ = false

abbrev pub is_hash_verified : Verified → Bool
is_hash_verified innovate_verified = true
is_hash_verified biobrain_verified = true
is_hash_verified _ = false

unfoldable pub status_written :
    Provider → Verified → AttemptStatus → ℕ → Option ℕ → Attempt → Attempt
unfolding calculate_loi_seconds
status_written provider v status now ip a = record a {
  callback_at = some now;
  callback_ip = ip;
  loi_seconds = some (calculate_loi_seconds a now);
  status = status;
  status_source = source_of provider v;
  is_verified = if is_toluna provider then is_toluna_verified v else a.is_verified;
}

-- The writes on the locked attempt where `callback_transition_applied`.
unfoldable pub status_recorded :
    Provider → Verified → AttemptStatus → ℕ → Option ℕ → Attempt → Attempt
unfolding status_written
status_recorded provider v status now ip a =
    let b =
      if is_none a.callback_at || is_toluna provider
      then status_written provider v status now ip a
      else a in
    record b {
      is_verified = is_hash_verified v || b.is_verified;
      last_callback_at = some now;
      callback_count = b.callback_count + 1;
    }

-- The page at the end.
abbrev pub page_status : Provider → AttemptStatus → Attempt → AttemptStatus
page_status toluna status a = if is_pending a.status then status else a.status
page_status _ status a = if has_status_page a.status then a.status else status

-- The redirects and the page for an attempt after a callback that was not canonical; `has_url`
-- tells for which results the supplier has a URL.
unfoldable pub answer_recorded :
    Provider → (AttemptStatus → Bool) → Bool → AttemptStatus → Attempt → Answer
unfolding is_pending has_status_page
answer_recorded provider has_url applied status a =
    if applied && has_url status
    then to_supplier status
    else if is_toluna provider || is_biobrain provider
    then to_recorded a.status
    else result_page (page_status provider status a)

-- The guard of the block: a BioBrain result is recorded once.
unfoldable pub biobrain_conflict : Provider → Attempt → Bool
unfolding is_pending has_status_page
biobrain_conflict provider a =
    is_biobrain provider
    && (has_status_page a.status || not (is_pending a.status) || is_some a.callback_at)

-- The block under the lock, and what follows it.
unfoldable pub record_status :
    Provider
    → (AttemptStatus → Bool)
    → Verified
    → AttemptStatus
    → ℕ
    → ℕ
    → Option ℕ
    → State
    → Answer × State
unfolding biobrain_conflict toluna_already_finalized status_recorded save_final answer_recorded
record_status provider has_url v status now k ip s =
    if biobrain_conflict provider s.attempt
    then (not_recorded, s)
    else if toluna_already_finalized provider s.attempt
    then (answer_recorded provider has_url false status s.attempt, s)
    else let a = status_recorded provider v status now ip s.attempt in
      (answer_recorded provider has_url true status a, save_final now k a s)

-- The checks and the recording for an attempt that was found and read as `seen`.
unfoldable pub status_of_attempt :
    Provider
    → Settings
    → Bool
    → (AttemptStatus → Bool)
    → Attempt
    → Request
    → AttemptStatus
    → ℕ
    → ℕ
    → State
    → Answer × State
unfolding canonical_query verification record_status is_pending has_status_page
status_of_attempt provider settings notified has_url seen q status now k s =
    let canonical = canonical_query provider notified q status seen in
    let pid_page =
      if has_status_page seen.status && same_status seen.status status
      then result_page seen.status
      else not_recorded in
    let recorded : Answer × State = elim (verification provider settings canonical q) [
      | none ↦ (not_verified, s)
      | some v ↦
          if canonical
          then (result_page (page_status provider status seen), s)
          else record_status provider has_url v status now k q.ip s
    ] in
    if is_biobrain provider && q.is_pid_query
    then (pid_page, s)
    else if not (has_status_page status) && not (is_toluna provider)
    then (extended_status, s)
    else recorded

-- `survey_status`; `seen` is the attempt that the identifiers select.
unfoldable pub survey_status :
    Provider
    → Settings
    → Bool
    → (AttemptStatus → Bool)
    → Option Attempt
    → Request
    → ℕ
    → ℕ
    → State
    → Answer × State
unfolding status_of_attempt is_pending
survey_status provider settings notified has_url found q now k s =
    if q.has_duplicates then (duplicate_parameters, s) else elim q.status [
      | none ↦ (unsupported_status, s)
      | some status ↦
          if is_pending status || not q.has_identifier
          then (unsupported_status, s)
          else elim found [
            | none ↦ (unknown_attempt, s)
            | some seen ↦ status_of_attempt provider settings notified has_url seen q status now k s
          ]
    ]

-- ===== src/SupplierCallbacks.antt =====
-- surveys/supplier_callbacks.py: the delivery of an attempt's result to the supplier that issued its
-- link. Whether a callback URL can be built from the supplier's key and its signing secret, and what
-- the request to it returns, are arguments. Times are microseconds.
pub mod Settles
pub mod Steps
mod Tests
use quant_tool.Base.{
  ℕ, ◌+◌, Bool, true, false, not, ◌&&◌, ◌||◌, Option, none, some, leb, ltb, ◌==◌, is_some,
  if◌then◌else◌,
}
use quant_tool.Base.Result.{Result, ok, err}
use quant_tool.Vendors.Models.{
  AttemptStatus, initiated, redirected, completed, terminated, over_quota, quality_terminated,
  survey_not_available, no_surveys, no_cookies, max_surveys_reached, not_qualified, survey_taken,
}

-- The position of a status among the constructors, for comparison.
abbrev pub status_number : AttemptStatus → ℕ
status_number initiated = 0
status_number redirected = 1
status_number completed = 2
status_number terminated = 3
status_number over_quota = 4
status_number quality_terminated = 5
status_number survey_not_available = 6
status_number no_surveys = 7
status_number no_cookies = 8
status_number max_surveys_reached = 9
status_number not_qualified = 10
status_number survey_taken = 11

abbrev pub same_status : AttemptStatus → AttemptStatus → Bool
same_status s t = status_number s == status_number t

-- TERMINAL_STATUS_CODES
unfoldable pub is_terminal : AttemptStatus → Bool
is_terminal completed = true
is_terminal terminated = true
is_terminal over_quota = true
is_terminal quality_terminated = true
is_terminal _ = false

pub data DeliveryState : Type 0 where
  queued queue_failed delivering delivered failed : DeliveryState

-- The record under DELIVERY_AUDIT_KEY. An event's id is the attempt's PID with the status, and so
-- within one attempt the status alone.
pub record Delivery : Type 0 where
  pub event : AttemptStatus
  pub state : DeliveryState
  pub attempt_count : ℕ
  pub last_attempt_at : Option ℕ
  pub http_status : Option ℕ

-- The columns of `SurveyAttempt` that are read and written here.
pub record Attempt : Type 0 where
  pub status : AttemptStatus
  pub supplier_api_key_id : Option ℕ
  pub delivery : Option Delivery

-- `build_supplier_result_url`, as far as it gives a URL; `available` tells so of the key's setting.
unfoldable pub has_result_url : (AttemptStatus → Bool) → Attempt → AttemptStatus → Bool
unfolding is_terminal
has_result_url available a status =
    is_terminal status && is_some a.supplier_api_key_id && available status

abbrev pub new_delivery : AttemptStatus → Delivery
new_delivery status = record {
  event = status;
  state = queued;
  attempt_count = 0;
  last_attempt_at = none;
  http_status = none;
}

abbrev pub is_queue_failed : DeliveryState → Bool
is_queue_failed queue_failed = true
is_queue_failed _ = false

abbrev pub set_delivery : Delivery → Attempt → Attempt
set_delivery d a = record a { delivery = some d }

-- The part of `queue_supplier_result_callback` under the lock: whether a job is dispatched.
unfoldable pub queue_event : AttemptStatus → Attempt → Bool × Attempt
queue_event status a = elim a.delivery [
  | none ↦ (true, set_delivery (new_delivery status) a)
  | some d ↦
      if same_status d.event status && is_queue_failed d.state
      then (true, set_delivery (record d { state = queued }) a)
      else (false, a)
]

-- `queue_supplier_result_callback`, called with an attempt that was read with the status `status`.
unfoldable pub queue_supplier_result_callback :
    (AttemptStatus → Bool) → AttemptStatus → Attempt → Bool × Attempt
unfolding has_result_url queue_event is_terminal
queue_supplier_result_callback available status a =
    if not (is_terminal status) || not (is_some a.supplier_api_key_id)
    then (false, a)
    else if not (has_result_url available a status)
    then (false, a)
    else if not (same_status a.status status)
    then (false, a)
    else queue_event status a

abbrev pub is_queued : DeliveryState → Bool
is_queued queued = true
is_queued _ = false

-- `_mark_queue_failure`
unfoldable pub mark_queue_failure : AttemptStatus → Attempt → Attempt
mark_queue_failure event a = elim a.delivery [
  | none ↦ a
  | some d ↦
      if same_status d.event event && is_queued d.state
      then set_delivery (record d { state = queue_failed }) a
      else a
]

-- `_finish_delivery`
unfoldable pub finish_delivery : AttemptStatus → DeliveryState → Option ℕ → Attempt → Bool × Attempt
finish_delivery event state http_status a = elim a.delivery [
  | none ↦ (false, a)
  | some d ↦
      if same_status d.event event
      then (true, set_delivery (record d { state = state; http_status = http_status }) a)
      else (false, a)
]

-- Why a delivery does not begin.
pub data Refusal : Type 0 where
  event_mismatch already_delivered already_running : Refusal

-- A claim of the last 30 seconds.
abbrev pub is_fresh : ℕ → Option ℕ → Bool
is_fresh now none = false
is_fresh now (some t) = ltb now (t + 30000000)

abbrev pub may_claim : ℕ → Delivery → Result Refusal (Unit {0})
may_claim now d = elim d.state [
  | delivered ↦ err already_delivered
  | delivering ↦ if is_fresh now d.last_attempt_at then err already_running else ok tt
  | _ ↦ ok tt
]

abbrev pub claimed : ℕ → Delivery → Delivery
claimed now d = record d {
  state = delivering;
  attempt_count = d.attempt_count + 1;
  last_attempt_at = some now;
}

-- The first transaction of `deliver_supplier_result_callback`: it claims the event.
unfoldable pub claim_delivery : ℕ → AttemptStatus → Attempt → Result Refusal Delivery × Attempt
claim_delivery now event a = elim a.delivery [
  | none ↦ (err event_mismatch, a)
  | some d ↦
      if not (same_status d.event event) then (err event_mismatch, a) else elim (may_claim now d) [
        | err e ↦ (err e, a)
        | ok _ ↦ (ok (claimed now d), set_delivery (claimed now d) a)
      ]
]

-- What the request to the supplier comes to.
pub data Response : Type 0 where
  unsafe_destination request_failed : Response
  http : ℕ → Response

-- How `deliver_supplier_result_callback` ends: it returns one of the first four, or it raises
-- `SupplierCallbackRetryableError`.
pub data Ending : Type 0 where
  skipped sent not_sent : Ending
  retry : Ending

abbrev pub is_success : ℕ → Bool
is_success n = leb 200 n && ltb n 300

abbrev pub is_retryable : ℕ → Bool
is_retryable n = (n == 429) || leb 500 n

abbrev pub failed_with : AttemptStatus → Option ℕ → Attempt → Attempt
failed_with event http_status a = (finish_delivery event failed http_status a).1

-- `deliver_supplier_result_callback` after the claim.
unfoldable pub finish_with : AttemptStatus → Bool → Response → Attempt → Ending × Attempt
unfolding finish_delivery
finish_with event has_url response a =
    let answer : Ending × Attempt = elim response [
      | unsafe_destination ↦ (not_sent, failed_with event none a)
      | request_failed ↦ (retry, failed_with event none a)
      | http n ↦
          if is_success n
          then (sent, (finish_delivery event delivered (some n) a).1)
          else (if is_retryable n then retry else not_sent, failed_with event (some n) a)
    ] in
    if not has_url then (not_sent, failed_with event none a) else answer

abbrev pub refused : Refusal → Ending
refused already_running = retry
refused _ = skipped

abbrev pub after_claim :
    (AttemptStatus → Bool)
    → AttemptStatus
    → Response
    → Result Refusal Delivery × Attempt
    → Ending × Attempt
after_claim available event response (err e, a) = (refused e, a)
after_claim available event response (ok d, a) =
    finish_with event (has_result_url available a d.event) response a

-- `deliver_supplier_result_callback`, where no other worker comes between.
unfoldable pub deliver_supplier_result_callback :
    (AttemptStatus → Bool) → ℕ → AttemptStatus → Response → Attempt → Ending × Attempt
deliver_supplier_result_callback available now event response a =
    after_claim available event response (claim_delivery now event a)

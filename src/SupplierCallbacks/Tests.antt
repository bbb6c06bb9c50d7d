-- ===== src/SupplierCallbacks/Tests.antt =====
-- Test data and runs of the delivery of results (surveys/supplier_callbacks.py).
use quant_tool.Base.{ℕ, ◌+◌, ◌≡◌, ◌⊎◌, refl, Bool, true, false, none, some}
use quant_tool.Base.Result.{ok}
use quant_tool.Vendors.Models.{AttemptStatus, completed, terminated}
use quant_tool.SupplierCallbacks.{
  Delivery, delivered, failed, Attempt, http, skipped, sent, set_delivery, new_delivery, may_claim,
  has_result_url, queue_supplier_result_callback, mark_queue_failure, finish_delivery,
  claim_delivery, deliver_supplier_result_callback, finish_with,
}
use quant_tool.SupplierCallbacks.Settles.{settled, deliver_settles, delivered_is_final}
use quant_tool.SupplierCallbacks.Steps.{Reach, here, next, claim}

abbrev attempt : Attempt
attempt = record { status = completed; supplier_api_key_id = some 4; delivery = none }

abbrev available : AttemptStatus → Bool
available status = true

abbrev waiting : Attempt
waiting = set_delivery (new_delivery completed) attempt

is_queued_once : queue_supplier_result_callback available completed attempt ≡ (true, waiting)
unfolding queue_supplier_result_callback
is_queued_once = refl

-- A second result of the same attempt is not delivered.
not_another :
    queue_supplier_result_callback available terminated (record waiting { status = terminated })
    ≡ (false, record waiting { status = terminated })
unfolding queue_supplier_result_callback
not_another = refl

deliver_settles_example :
    let (state, http_status, ending) =
      settled (has_result_url available waiting completed) (http 503) in
    let left = record (new_delivery completed) {
      state = state;
      attempt_count = 0 + 1;
      last_attempt_at = some 90;
      http_status = http_status;
    } in
    (deliver_supplier_result_callback available 90 completed (http 503) waiting
      ≡ (ending, set_delivery left waiting))
    × ((later : ℕ) → (state ≡ delivered) ⊎ (may_claim later left ≡ ok tt))
deliver_settles_example =
    deliver_settles available 90 completed (http 503) waiting (new_delivery completed) refl refl
      refl

abbrev done : Delivery
done = record {
  event = completed;
  state = delivered;
  attempt_count = 1;
  last_attempt_at = some 90;
  http_status = some 200;
}

delivers :
    deliver_supplier_result_callback available 90 completed (http 200) waiting
    ≡ (sent, set_delivery done waiting)
unfolding deliver_supplier_result_callback claim_delivery finish_with has_result_url
delivers = refl

-- A worker whose claim went stale can still write its failure over a delivery that came after.
late_failure : (finish_delivery completed failed none (set_delivery done attempt)).0 ≡ true
unfolding finish_delivery
late_failure = refl

delivered_is_final_example :
    (queue_supplier_result_callback available completed (set_delivery done attempt)
      ≡ (false, set_delivery done attempt))
    × (mark_queue_failure completed (set_delivery done attempt) ≡ set_delivery done attempt)
    × (deliver_supplier_result_callback available 99 completed
          (http 200)
          (set_delivery done attempt)
        ≡ (skipped, set_delivery done attempt))
delivered_is_final_example =
    delivered_is_final available 99 completed completed (http 200) (set_delivery done attempt) done
      refl refl

claimed_run : Reach available waiting (claim_delivery 90 completed waiting).1
claimed_run = next here (claim 90 completed refl)

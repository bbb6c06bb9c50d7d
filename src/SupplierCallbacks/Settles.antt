-- ===== src/SupplierCallbacks/Settles.antt =====
-- How a delivery ends where no other worker comes between (surveys/supplier_callbacks.py
-- `deliver_supplier_result_callback`).
use quant_tool.Base.{
  ℕ, ◌+◌, ◌≡◌, refl, ◌⊎◌, inl, inr, Bool, true, false, Option, none, some, arith, leb, ◌==◌,
  if◌then◌else◌, Bool-cases,
}
use quant_tool.Base.Result.{ok}
use quant_tool.Vendors.Models.{AttemptStatus}
use quant_tool.SupplierCallbacks.{
  same_status, Delivery, DeliveryState, delivered, failed, Attempt, Response, unsafe_destination,
  request_failed, http, Ending, skipped, sent, not_sent, retry, may_claim, has_result_url,
  set_delivery, claimed, claim_delivery, finish_with, deliver_supplier_result_callback,
  queue_supplier_result_callback, mark_queue_failure,
}

-- The state that a response leaves, the status that is stored, and how the call ends.
pub settled : Bool → Response → DeliveryState × Option ℕ × Ending
settled false response = (failed, none, not_sent)
settled true unsafe_destination = (failed, none, not_sent)
settled true request_failed = (failed, none, retry)
settled true (http n) =
    if leb n 199
    then (failed, some n, not_sent)
    else if leb n 299
    then (delivered, some n, sent)
    else if n == 429
    then (failed, some n, retry)
    else (failed, some n, if leb n 499 then not_sent else retry)

finish_settles :
    (event : AttemptStatus) (has_url : Bool) (response : Response) (a : Attempt) (d : Delivery)
    → same_status d.event event ≡ true
    → let (state, http_status, ending) = settled has_url response in
      finish_with event has_url response (set_delivery d a)
      ≡ (ending, set_delivery (record d { state = state; http_status = http_status }) a)
unfolding finish_with settled
finish_settles event false response a d same = ground (arith, same)
finish_settles event true unsafe_destination a d same = ground (arith, same)
finish_settles event true request_failed a d same = ground (arith, same)
finish_settles event true (http n) a d same = ground (arith, same)

claim_begins :
    (now : ℕ) (event : AttemptStatus) (a : Attempt) (d : Delivery)
    → a.delivery ≡ some d
    → same_status d.event event ≡ true
    → may_claim now d ≡ ok tt
    → claim_delivery now event a ≡ (ok (claimed now d), set_delivery (claimed now d) a)
unfolding claim_delivery
claim_begins now event a d has same may = ground (arith, has, same, may)

has_url_kept :
    (available : AttemptStatus → Bool) (a : Attempt) (d : Delivery) (status : AttemptStatus)
    → has_result_url available (set_delivery d a) status ≡ has_result_url available a status
unfolding has_result_url
has_url_kept available a d status = refl

ends_claimable :
    (later : ℕ) (has_url : Bool) (response : Response) (d : Delivery)
    → let (state, http_status, ending) = settled has_url response in
      (state ≡ delivered)
      ⊎ (may_claim later (record d { state = state; http_status = http_status }) ≡ ok tt)
unfolding settled
ends_claimable later false response d = inr refl
ends_claimable later true unsafe_destination d = inr refl
ends_claimable later true request_failed d = inr refl
ends_claimable later true (http n) d = elim (Bool-cases (leb n 199)) [
  | inl low ↦ inr (rw low refl)
  | inr other ↦ elim (Bool-cases (leb n 299)) [
    | inl success ↦ inl (rw (other, success) refl)
    | inr high ↦ elim (Bool-cases (n == 429)) [
      | inl limited ↦ inr (rw (other, high, limited) refl)
      | inr rest ↦ inr (rw (other, high, rest) refl)
    ]
  ]
]

-- A delivery that may begin always settles: with a URL and a successful answer (from
-- 200 to 299) the event is delivered, and with any other it is failed and may be claimed again
-- at any time, never left in between. The try is counted, and the call asks to be retried exactly for
-- a failed request, a 429 or a status from 500 on.
pub deliver_settles :
    (available : AttemptStatus → Bool) (now : ℕ) (event : AttemptStatus) (response : Response)
    (a : Attempt) (d : Delivery)
    → a.delivery ≡ some d
    → same_status d.event event ≡ true
    → may_claim now d ≡ ok tt
    → let (state, http_status, ending) = settled (has_result_url available a d.event) response in
      let left = record d {
        state = state;
        attempt_count = d.attempt_count + 1;
        last_attempt_at = some now;
        http_status = http_status;
      } in
      (deliver_supplier_result_callback available now event response a
        ≡ (ending, set_delivery left a))
      × ((later : ℕ) → (state ≡ delivered) ⊎ (may_claim later left ≡ ok tt))
unfolding deliver_supplier_result_callback
deliver_settles available now event response a d has same may = (
  rw
      (
        claim_begins now event a d has same may,
        has_url_kept available a (claimed now d) d.event,
        deliver_supplier_result_callback,
      )
      (finish_settles event (has_result_url available a d.event) response a (claimed now d) same),
  λ later. ends_claimable later (has_result_url available a d.event) response (claimed now d),
)

-- Once an event is delivered, no later call for it sends anything or changes it: neither a replay that
-- queues it again, nor a late queue failure, nor another delivery.
pub delivered_is_final :
    (available : AttemptStatus → Bool) (now : ℕ) (status event : AttemptStatus)
    (response : Response) (a : Attempt) (d : Delivery)
    → a.delivery ≡ some d
    → d.state ≡ delivered
    → (queue_supplier_result_callback available status a ≡ (false, a))
      × (mark_queue_failure event a ≡ a)
      × (deliver_supplier_result_callback available now event response a ≡ (skipped, a))
unfolding queue_supplier_result_callback mark_queue_failure deliver_supplier_result_callback
    claim_delivery
delivered_is_final available now status event response a d has is_done =
    (ground (arith, has, is_done), ground (arith, has, is_done), ground (arith, has, is_done))

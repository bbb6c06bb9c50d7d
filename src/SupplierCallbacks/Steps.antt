-- ===== src/SupplierCallbacks/Steps.antt =====
-- The transactions of several workers, in any order (surveys/supplier_callbacks.py).
use quant_tool.Base.{inl, inr, Option-cases, ℕ, ◌≤◌, ◌≡◌, Bool, Option, none, some, arith}
use quant_tool.Vendors.Models.{AttemptStatus}
use quant_tool.SupplierCallbacks.{
  Delivery, DeliveryState, Attempt, claim_delivery, finish_delivery, queue_supplier_result_callback,
  mark_queue_failure,
}

-- One transaction: a job is queued or its queueing undone, a worker claims the event or writes how
-- its request ended, or another part of the program moves the attempt's status.
pub data Step (available : AttemptStatus → Bool) (a b : Attempt) : Type 0 where
  queue :
      (status : AttemptStatus)
      → b ≡ (queue_supplier_result_callback available status a).1
      → Step available a b
  lose : (event : AttemptStatus) → b ≡ mark_queue_failure event a → Step available a b
  claim :
      (now : ℕ) (event : AttemptStatus) → b ≡ (claim_delivery now event a).1 → Step available a b
  finish :
      (event : AttemptStatus) (state : DeliveryState) (http_status : Option ℕ)
      → b ≡ (finish_delivery event state http_status a).1
      → Step available a b
  move : (status : AttemptStatus) → b ≡ record a { status = status } → Step available a b

pub data Reach (available : AttemptStatus → Bool) (a : Attempt) : Attempt → Type 0 where
  here : Reach available a a
  next : {b c : Attempt} → Reach available a b → Step available b c → Reach available a c

abbrev pub event_of : Option Delivery → Option AttemptStatus
event_of none = none
event_of (some d) = some d.event

abbrev pub tries_of : Option Delivery → ℕ
tries_of none = 0
tries_of (some d) = d.attempt_count

-- The attempt's event is `event`, with at least so many tries.
abbrev Delivers : AttemptStatus → ℕ → Attempt → Type 0
Delivers event tries a = (event_of a.delivery ≡ some event) × (tries ≤ tries_of a.delivery)

module _ (available : AttemptStatus → Bool) (event : AttemptStatus) (tries : ℕ) (a : Attempt)
    (start : Delivers event tries a) where
  queue-Delivers :
      (status : AttemptStatus)
      → Delivers event tries (queue_supplier_result_callback available status a).1
  unfolding queue_supplier_result_callback
  queue-Delivers status = elim (Option-cases a.delivery) [
    | inl without ↦ ground (arith, start, without)
    | inr (d, has) ↦ ground (arith, start, has)
  ]

  mark-Delivers : (other : AttemptStatus) → Delivers event tries (mark_queue_failure other a)
  unfolding mark_queue_failure
  mark-Delivers other = elim (Option-cases a.delivery) [
    | inl without ↦ ground (arith, start, without)
    | inr (d, has) ↦ ground (arith, start, has)
  ]

  claim-Delivers :
      (now : ℕ) (other : AttemptStatus) → Delivers event tries (claim_delivery now other a).1
  unfolding claim_delivery
  claim-Delivers now other = elim (Option-cases a.delivery) [
    | inl without ↦ ground (arith, start, without)
    | inr (d, has) ↦ ground (arith, start, has)
  ]

  finish-Delivers :
      (other : AttemptStatus) (state : DeliveryState) (http_status : Option ℕ)
      → Delivers event tries (finish_delivery other state http_status a).1
  unfolding finish_delivery
  finish-Delivers other state http_status = elim (Option-cases a.delivery) [
    | inl without ↦ ground (arith, start, without)
    | inr (d, has) ↦ ground (arith, start, has)
  ]

Step-Delivers :
    (available : AttemptStatus → Bool) (event : AttemptStatus) (tries : ℕ) {a b : Attempt}
    → Step available a b
    → Delivers event tries a
    → Delivers event tries b
Step-Delivers available event tries {a} (queue status e) h =
    rw e (queue-Delivers available event tries a h status)
Step-Delivers available event tries {a} (lose other e) h =
    rw e (mark-Delivers available event tries a h other)
Step-Delivers available event tries {a} (claim now other e) h =
    rw e (claim-Delivers available event tries a h now other)
Step-Delivers available event tries {a} (finish other state http_status e) h =
    rw e (finish-Delivers available event tries a h other state http_status)
Step-Delivers available event tries (move status e) h = rw e h

-- Whatever several workers do, in whatever order, and however the attempt's status moves on: the
-- event that was queued first stays the attempt's only one, and its tries are never counted back.
event_kept :
    (available : AttemptStatus → Bool) (event : AttemptStatus) {a b : Attempt}
    → Reach available a b
    → event_of a.delivery ≡ some event
    → (event_of b.delivery ≡ some event) × (tries_of a.delivery ≤ tries_of b.delivery)
event_kept available event {a} here h = (h, omega arith)
event_kept available event {a} (next r step) h =
    Step-Delivers available event (tries_of a.delivery) step (event_kept available event r h)

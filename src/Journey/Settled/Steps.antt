-- ===== src/Journey/Settled/Steps.antt =====
-- The handlers on one attempt, in any order.
use quant_tool.Base.{ℕ, ◌≡◌, refl, Bool, Option}
use quant_tool.Vendors.Models.{AttemptStatus, quality_terminated}
use quant_tool.Vendors.Reservation.{expire_reservation}
use quant_tool.Journey.{
  Attempt, State, is_pending, local_country_guard, local_duplicate_ip_guard,
  release_prepared_toluna_invite,
}
use quant_tool.Journey.Ends.{
  finish_local_rfg_attempt, finish_toluna_invite_rejection, finish_wrong_target_country_attempt,
  finish_duplicate_ip_attempt, rfg_callback_view, Transaction, reconcile_attempt_status,
}
use quant_tool.Journey.Status.{Provider, Settings, Request, survey_status}
use quant_tool.Journey.Settled.{
  IsSettled, finish_locally-IsSettled, release-IsSettled, rfg_callback-IsSettled,
  finish_local_rfg-IsSettled, finish_toluna-IsSettled, reconcile-IsSettled, survey_status-IsSettled,
  expire-IsSettled,
}
use quant_tool.Toluna.{EventType, Payload}
use quant_tool.Toluna.Events.{apply_to_attempt}
use quant_tool.Toluna.Settled.{notify-IsSettled}

-- One handler on attempt `k`, or the expiry of any reservation.
pub data Step (k : ℕ) (s t : State) : Type 0 where
  redirect : (now : ℕ) → t ≡ (release_prepared_toluna_invite now s).1 → Step k s t
  prescreen :
      (result now : ℕ) (ip : Option ℕ) → t ≡ finish_local_rfg_attempt result now k ip s → Step k s t
  reject_invite :
      (code now : ℕ) (ip : Option ℕ)
      → t ≡ finish_toluna_invite_rejection code now k ip s
      → Step k s t
  guard_country :
      (now : ℕ) (ip : Option ℕ) → t ≡ finish_wrong_target_country_attempt now k ip s → Step k s t
  guard_ip : (now : ℕ) (ip : Option ℕ) → t ≡ finish_duplicate_ip_attempt now k ip s → Step k s t
  rfg_server :
      (result : ℕ) (mode_is_ip verified_ip : Bool) (now : ℕ) (ip : Option ℕ)
      → t ≡ (rfg_callback_view result mode_is_ip verified_ip now k ip s).1
      → Step k s t
  reconcile :
      (transaction : Transaction) (checked_at : ℕ)
      → t ≡ (reconcile_attempt_status transaction checked_at k s).1
      → Step k s t
  notify :
      (event : EventType) (p : Payload) (now : ℕ)
      → t ≡ (apply_to_attempt event p now k s).1
      → Step k s t
  browser :
      (provider : Provider) (settings : Settings) (notified : Bool) (has_url : AttemptStatus → Bool)
      (found : Option Attempt) (q : Request) (now : ℕ)
      → t ≡ (survey_status provider settings notified has_url found q now k s).1
      → Step k s t
  expire :
      (now j : ℕ) → t ≡ record s { vendors = (expire_reservation now j s.vendors).1 } → Step k s t

pub data Reach (k : ℕ) (s : State) : State → Type 0 where
  here : Reach k s s
  next : {t u : State} → Reach k s t → Step k t u → Reach k s u

Step-IsSettled : (k : ℕ) {s t : State} → Step k s t → IsSettled k s → IsSettled k t
unfolding finish_wrong_target_country_attempt finish_duplicate_ip_attempt is_pending
Step-IsSettled k {s} (redirect now e) h = rw e (release-IsSettled now k s h)
Step-IsSettled k {s} (prescreen result now ip e) h =
    rw e (finish_local_rfg-IsSettled result now k ip s h)
Step-IsSettled k {s} (reject_invite code now ip e) h =
    rw e (finish_toluna-IsSettled code now k ip s h)
Step-IsSettled k {s} (guard_country now ip e) h =
    rw e (finish_locally-IsSettled local_country_guard quality_terminated now k ip s refl h)
Step-IsSettled k {s} (guard_ip now ip e) h =
    rw e (finish_locally-IsSettled local_duplicate_ip_guard quality_terminated now k ip s refl h)
Step-IsSettled k {s} (rfg_server result mode_is_ip verified_ip now ip e) h =
    rw e (rfg_callback-IsSettled result mode_is_ip verified_ip now k ip s h)
Step-IsSettled k {s} (reconcile transaction checked_at e) h =
    rw e (reconcile-IsSettled transaction checked_at k s h)
Step-IsSettled k {s} (notify event p now e) h = rw e (notify-IsSettled event p now k s h)
Step-IsSettled k {s} (browser provider settings notified has_url found q now e) h =
    rw e (survey_status-IsSettled provider settings notified has_url found q now k s h)
Step-IsSettled k {s} (expire now j e) h = rw e (expire-IsSettled now j k s h)

-- Whatever the handlers of the local endings, of the providers' callbacks and notifications and of the
-- reconciliation do to an attempt, in whatever order, with expiries of reservations between them: the attempt has the
-- time of a result exactly where its status is not pending, and then it holds no open reservation.
pub journey-IsSettled : (k : ℕ) {s t : State} → Reach k s t → IsSettled k s → IsSettled k t
journey-IsSettled k here h = h
journey-IsSettled k (next r step) h = Step-IsSettled k step (journey-IsSettled k r h)

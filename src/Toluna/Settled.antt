-- ===== src/Toluna/Settled.antt =====
-- A notification of a result settles its attempt as the program's other handlers do
-- (`_apply_attempt_event` of surveys/toluna_notifications.py).
use quant_tool.Base.{
  ℕ, String, ◌≡◌, refl, Bool, true, false, not, ◌&&◌, some, List, [], ◌∷◌, arith, inl, inr,
  Option-cases, Bool-cases, or_default,
}
use quant_tool.Vendors.Models.{AttemptStatus, completed}
use quant_tool.SupplierCallbacks.{same_status}
use quant_tool.Journey.{State, is_pending}
use quant_tool.Journey.Settled.{IsSettled, save_final-IsSettled}
use quant_tool.Toluna.{
  EventType, member_complete, member_terminate, enhanced_termination, quota_status, survey_closed,
  reconciliation, Payload,
}
use quant_tool.Toluna.Events.{
  termination_status_map, status_for_reason, termination_status, attempt_status_for,
  replaces_completion, notified_attempt, apply_to_attempt,
}

abbrev all_final : List (String × AttemptStatus) → Bool
all_final [] = true
all_final (row ∷ rows) = not (is_pending row.1) && all_final rows

reason_final :
    (reason : String) (rows : List (String × AttemptStatus))
    → all_final rows ≡ true
    → is_pending (status_for_reason reason rows) ≡ false
unfolding status_for_reason is_pending
reason_final reason [] all = refl
reason_final reason (row ∷ rows) all = ground (arith, reason_final reason rows)

termination_final : (p : Payload) → is_pending (termination_status p) ≡ false
unfolding termination_status termination_status_map is_pending
termination_final p =
    let by_reason = reason_final p.reason_key termination_status_map refl in
    ground (arith, by_reason)

notified_final :
    (event : EventType) (p : Payload) (status : AttemptStatus)
    → attempt_status_for event p ≡ some status
    → is_pending status ≡ false
unfolding attempt_status_for is_pending
notified_final member_complete p status e = ground arith
notified_final reconciliation p status e = ground arith
notified_final member_terminate p status e = ground (arith, termination_final p)
notified_final enhanced_termination p status e = ground (arith, termination_final p)
notified_final quota_status p status e = cc
notified_final survey_closed p status e = cc

pub notify-IsSettled :
    (event : EventType) (p : Payload) (now k : ℕ) (s : State)
    → IsSettled k s
    → IsSettled k (apply_to_attempt event p now k s).1
unfolding apply_to_attempt notified_attempt
notify-IsSettled event p now k s h = elim (Option-cases (attempt_status_for event p)) [
  | inl other ↦ rw (apply_to_attempt, other) h
  | inr (status, known) ↦
      elim (Bool-cases
        (same_status s.attempt.status completed && not (replaces_completion event))) [
          | inl kept ↦ rw (apply_to_attempt, known, kept) h
          | inr due ↦
              rw (apply_to_attempt, known, due)
                (save_final-IsSettled now k
                  (notified_attempt status (or_default p.occurred_at now) now s.attempt) s
                  (rw (notified_final event p status known) refl))
        ]
]

-- ===== src/Journey/Ends.antt =====
-- The handlers that end an attempt with a result of the program's own or of a provider: the four local
-- endings, the server callback of RFG, and the reconciliation with InnovateMR's transactions.
pub mod Rfg
use quant_tool.Base.{
  ℕ, ◌+◌, ◌-◌, ◌/◌, Bool, true, false, not, ◌&&◌, ◌||◌, Option, none, some, List, [], ◌∷◌, ltb,
  ◌==◌, is_some, is_none, or_default, if◌then◌else◌,
}
use quant_tool.Base.Table.{Table, lookup}
use quant_tool.Vendors.Models.{
  AttemptStatus, initiated, redirected, completed, terminated, over_quota, quality_terminated,
  survey_not_available, not_qualified, survey_taken, no_surveys, no_cookies, max_surveys_reached,
}
use quant_tool.Journey.{
  Source, local_prescreener, toluna_invite_rejection, local_country_guard, local_duplicate_ip_guard,
  rfg_callback, innovatemr_transaction, Attempt, State, is_pending, calculate_loi_seconds, first_ip,
  save_final, finish_locally,
}

-- RFG_STATUS_MAP, by the number of the result
unfoldable pub rfg_status_map : Table AttemptStatus
rfg_status_map =
    (1, completed)
    ∷ (2, terminated)
    ∷ (3, over_quota)
    ∷ (4, terminated)
    ∷ (5, terminated)
    ∷ (7, terminated)
    ∷ (8, terminated)
    ∷ (9, over_quota)
    ∷ (10, quality_terminated)
    ∷ (11, terminated)
    ∷ (12, terminated)
    ∷ (13, terminated)
    ∷ (19, terminated)
    ∷ (30, quality_terminated)
    ∷ (31, quality_terminated)
    ∷ (32, quality_terminated)
    ∷ (33, quality_terminated)
    ∷ (34, quality_terminated)
    ∷ (35, quality_terminated)
    ∷ (36, quality_terminated)
    ∷ (37, quality_terminated)
    ∷ (38, quality_terminated)
    ∷ (39, quality_terminated)
    ∷ (40, quality_terminated)
    ∷ (41, quality_terminated)
    ∷ (42, quality_terminated)
    ∷ (43, quality_terminated)
    ∷ (44, quality_terminated)
    ∷ (50, quality_terminated)
    ∷ (51, quality_terminated)
    ∷ (52, quality_terminated)
    ∷ (53, quality_terminated)
    ∷ []

-- `_finish_local_rfg_attempt`; a result outside the map raises before anything is saved.
unfoldable pub finish_local_rfg_attempt : ℕ → ℕ → ℕ → Option ℕ → State → State
unfolding rfg_status_map finish_locally
finish_local_rfg_attempt result now k ip s = elim (lookup result rfg_status_map) [
  | none ↦ s
  | some status ↦ finish_locally local_prescreener status now k ip s
]

-- TOLUNA_INVITE_RESULT_STATUS
unfoldable pub toluna_invite_result_status : Table AttemptStatus
toluna_invite_result_status =
    (5, survey_not_available)
    ∷ (6, survey_not_available)
    ∷ (8, survey_not_available)
    ∷ (9, survey_not_available)
    ∷ (10, survey_not_available)
    ∷ (15, survey_not_available)
    ∷ (17, survey_not_available)
    ∷ (23, survey_not_available)
    ∷ (24, survey_not_available)
    ∷ (25, survey_not_available)
    ∷ (27, survey_not_available)
    ∷ (32, survey_not_available)
    ∷ (33, survey_not_available)
    ∷ (37, survey_not_available)
    ∷ (42, survey_not_available)
    ∷ (43, survey_not_available)
    ∷ (45, survey_not_available)
    ∷ (28, over_quota)
    ∷ (29, over_quota)
    ∷ (41, over_quota)
    ∷ (46, over_quota)
    ∷ (47, over_quota)
    ∷ (13, not_qualified)
    ∷ (16, not_qualified)
    ∷ (21, not_qualified)
    ∷ (31, not_qualified)
    ∷ (35, not_qualified)
    ∷ (14, quality_terminated)
    ∷ (22, quality_terminated)
    ∷ (34, quality_terminated)
    ∷ (26, survey_taken)
    ∷ (30, survey_taken)
    ∷ (38, survey_taken)
    ∷ (39, max_surveys_reached)
    ∷ (40, max_surveys_reached)
    ∷ []

-- `_finish_toluna_invite_rejection` for the invite's result code; a code outside the table is not
-- such a rejection.
unfoldable pub finish_toluna_invite_rejection : ℕ → ℕ → ℕ → Option ℕ → State → State
unfolding toluna_invite_result_status finish_locally
finish_toluna_invite_rejection code now k ip s = elim (lookup code toluna_invite_result_status) [
  | none ↦ s
  | some status ↦ finish_locally toluna_invite_rejection status now k ip s
]

-- `_finish_wrong_target_country_attempt`
unfoldable pub finish_wrong_target_country_attempt : ℕ → ℕ → Option ℕ → State → State
unfolding finish_locally
finish_wrong_target_country_attempt = finish_locally local_country_guard quality_terminated

-- `_finish_duplicate_ip_attempt`
unfoldable pub finish_duplicate_ip_attempt : ℕ → ℕ → Option ℕ → State → State
unfolding finish_locally
finish_duplicate_ip_attempt = finish_locally local_duplicate_ip_guard quality_terminated

-- The answers of `RFGCallbackAPIView.get`.
pub data RfgAnswer : Type 0 where
  unknown_callback unsupported_mode untrusted_source : RfgAnswer
  recorded : AttemptStatus → RfgAnswer

unfoldable pub rfg_recorded : AttemptStatus → ℕ → Option ℕ → Attempt → Attempt
unfolding calculate_loi_seconds
rfg_recorded status now ip a = record a {
  status = status;
  callback_at = some (or_default a.callback_at now);
  last_callback_at = some now;
  callback_ip = ip;
  callback_count = a.callback_count + 1;
  status_source = rfg_callback;
  is_verified = true;
  loi_seconds = some (calculate_loi_seconds a now);
}

-- `RFGCallbackAPIView.get` for an RFG attempt: whether the integration's mode is "ip", and whether
-- the caller's address is on the list.
unfoldable pub rfg_callback_view : ℕ → Bool → Bool → ℕ → ℕ → Option ℕ → State → RfgAnswer × State
unfolding rfg_status_map rfg_recorded save_final
rfg_callback_view result mode_is_ip verified_ip now k ip s = elim (lookup result rfg_status_map) [
  | none ↦ (unknown_callback, s)
  | some status ↦
      if not mode_is_ip
      then (unsupported_mode, s)
      else if not verified_ip
      then (untrusted_source, s)
      else (recorded status, save_final now k (rfg_recorded status now ip s.attempt) s)
]

-- The provider's status word, as the tests of `_transaction_status` see it: whether it stands in the
-- set of each test or holds one of the test's words.
pub record StatusWord : Type 0 where
  pub is_complete : Bool
  pub is_quality : Bool
  pub is_quota : Bool
  pub is_ended : Bool

-- `_transaction_status`
unfoldable pub transaction_status : StatusWord → Option AttemptStatus
transaction_status w =
    if w.is_complete
    then some completed
    else if w.is_quality
    then some quality_terminated
    else if w.is_quota
    then some over_quota
    else if w.is_ended
    then some terminated
    else none

-- What `reconcile_attempt_status` reads from the provider's transaction: the status word, the
-- completion time, the address and the verification.
pub record Transaction : Type 0 where
  pub word : StatusWord
  pub completed_at : Option ℕ
  pub ip : Option ℕ
  pub is_valid : Bool

abbrev pub not_before : ℕ → ℕ → ℕ → ℕ
not_before start checked_at t = if ltb t start then checked_at else t

unfoldable pub reconciled : AttemptStatus → Transaction → ℕ → Attempt → Attempt
unfolding calculate_loi_seconds
reconciled status t checked_at a =
    let completed_at =
      not_before a.initiated_at checked_at (or_default t.completed_at checked_at) in
    record a {
      status = status;
      status_source = innovatemr_transaction;
      callback_at = some completed_at;
      last_callback_at = some completed_at;
      callback_ip = t.ip;
      loi_seconds = some (calculate_loi_seconds a completed_at);
      is_verified = t.is_valid;
    }

abbrev pub checked : ℕ → Option ℕ → Attempt → Attempt
checked checked_at ip a = record a {
  upstream_checked_at = some checked_at;
  initiation_ip = first_ip a.initiation_ip ip;
}

-- `reconcile_attempt_status`: whether the provider knows a terminal status.
unfoldable pub reconcile_attempt_status : Transaction → ℕ → ℕ → State → Bool × State
unfolding reconciled save_final is_pending transaction_status
reconcile_attempt_status t checked_at k s =
    let a = checked checked_at t.ip s.attempt in
    elim (transaction_status t.word) [
      | none ↦ (false, record s { attempt = a })
      | some status ↦ (
        true,
        save_final checked_at k
            (if is_none a.callback_at && is_pending a.status
              then reconciled status t checked_at a
              else a)
            s,
      )
    ]

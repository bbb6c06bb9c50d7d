-- ===== src/Journey/Status/Kept.antt =====
-- What a callback to `survey_status` cannot change.
use quant_tool.Base.{
  ℕ, ◌≡◌, refl, Bool, true, false, not, ◌&&◌, ◌||◌, Option, none, some, arith, inl, inr, Bool-cases,
  is_some, is_none,
}
use quant_tool.Vendors.Models.{AttemptStatus}
use quant_tool.Journey.{Attempt, State, Source, toluna_callback, toluna_notification, save_final}
use quant_tool.Journey.Status.{
  Provider, innovatemr, toluna, biobrain, other_provider, Settings, Request, Verified, is_toluna,
  toluna_already_finalized, verification, biobrain_conflict, status_recorded, record_status,
  survey_status,
}
use quant_tool.Journey.Status.Cases.{survey_status_cases}

-- Whether the provider's check, where the settings ask for one, would accept the request.
abbrev pub is_accepted : Provider → Settings → Request → Bool
is_accepted toluna settings q = elim q.toluna_check [ none ↦ false | some passed ↦ passed ]
is_accepted innovatemr settings q = not settings.innovatemr_hash_required || q.has_valid_hash
is_accepted biobrain settings q = not settings.biobrain_hash_required || q.has_valid_hash
is_accepted other_provider settings q = true

verification_accepted :
    (provider : Provider) (settings : Settings) (q : Request) (v : Verified)
    → verification provider settings false q ≡ some v
    → is_accepted provider settings q ≡ true
unfolding verification
verification_accepted toluna settings q v e = ground arith
verification_accepted innovatemr settings q v e = ground arith
verification_accepted biobrain settings q v e = ground arith
verification_accepted other_provider settings q v e = refl

-- Toluna itself gave the status: its callback or its notification.
abbrev pub is_given_by_toluna : Source → Bool
is_given_by_toluna toluna_callback = true
is_given_by_toluna toluna_notification = true
is_given_by_toluna _ = false

-- The result of the attempt is decided: for Toluna by a verified callback or notification, for the
-- other providers by any result with a time.
abbrev pub is_decided : Provider → Attempt → Bool
is_decided toluna a = a.is_verified && is_given_by_toluna a.status_source
is_decided innovatemr a = is_some a.callback_at
is_decided biobrain a = is_some a.callback_at
is_decided other_provider a = is_some a.callback_at

toluna_decided :
    (provider : Provider) (a : Attempt)
    → is_toluna provider ≡ true
    → is_decided provider a ≡ true
    → toluna_already_finalized provider a ≡ true
unfolding toluna_already_finalized
toluna_decided toluna a e h = ground (arith, h)
toluna_decided innovatemr a e h = cc
toluna_decided biobrain a e h = cc
toluna_decided other_provider a e h = cc

other_decided :
    (provider : Provider) (a : Attempt)
    → is_toluna provider ≡ false
    → is_decided provider a ≡ true
    → is_none a.callback_at ≡ false
other_decided toluna a e h = cc
other_decided innovatemr a e h = ground (arith, h)
other_decided biobrain a e h = ground (arith, h)
other_decided other_provider a e h = ground (arith, h)

-- The attempt `b` is `a`, but for the count and the time of callbacks and for the verification.
abbrev pub KeepsResult : Attempt → Attempt → Type 0
KeepsResult a b = b ≡ record a {
  is_verified = b.is_verified;
  last_callback_at = b.last_callback_at;
  callback_count = b.callback_count;
}

module _ (provider : Provider) (settings : Settings) (notified : Bool)
    (has_url : AttemptStatus → Bool) (found : Option Attempt) (q : Request) (now k : ℕ)
    (s : State) where
  -- A request that the provider's check does not accept changes nothing: not the attempt, and not its
  -- reservation.
  pub unaccepted_changes_nothing :
      is_accepted provider settings q ≡ false
      → (survey_status provider settings notified has_url found q now k s).1 ≡ s
  unaccepted_changes_nothing refused =
      elim (survey_status_cases provider settings notified has_url q now k s found) [
        | inl same ↦ same
        | inr r ↦ ground (arith, verification_accepted provider settings q r.v r.passed)
      ]

  status_recorded-KeepsResult :
      (v : Verified) (status : AttemptStatus)
      → is_decided provider s.attempt ≡ true
      → toluna_already_finalized provider s.attempt ≡ false
      → KeepsResult s.attempt (status_recorded provider v status now q.ip s.attempt)
  unfolding status_recorded
  status_recorded-KeepsResult v status decided fresh = elim (Bool-cases (is_toluna provider)) [
    | inl here ↦ let over = toluna_decided provider s.attempt here decided in ground arith
    | inr other ↦
        let answered = other_decided provider s.attempt other decided in
        let kept : is_none s.attempt.callback_at || is_toluna provider ≡ false = ground arith in
        rw kept refl
  ]

  record_status-KeepsResult :
      (v : Verified) (status : AttemptStatus)
      → is_decided provider s.attempt ≡ true
      → KeepsResult s.attempt (record_status provider has_url v status now k q.ip s).1.attempt
  unfolding record_status save_final
  record_status-KeepsResult v status decided =
      elim (Bool-cases (biobrain_conflict provider s.attempt)) [
        | inl conflict ↦ rw (conflict, record_status) refl
        | inr free ↦ elim (Bool-cases (toluna_already_finalized provider s.attempt)) [
          | inl over ↦ rw (free, over, record_status) refl
          | inr fresh ↦
              rw (free, fresh, record_status) (status_recorded-KeepsResult v status decided fresh)
        ]
      ]

  -- A callback to `survey_status` leaves the status of the attempt, the source, the time and the
  -- duration as they are, whatever it says, where the attempt is decided: for a survey of Toluna that is
  -- a verified status which Toluna's callback or notification gave, not one that ended here; for all
  -- other providers any result with a time.
  pub first_result_kept :
      is_decided provider s.attempt ≡ true
      → KeepsResult s.attempt
          (survey_status provider settings notified has_url found q now k s).1.attempt
  first_result_kept decided =
      elim (survey_status_cases provider settings notified has_url q now k s found) [
        | inl same ↦ rw same refl
        | inr r ↦ rw r.same (record_status-KeepsResult r.v r.status decided)
      ]

-- ===== src/Vendors/Reservation.antt =====
-- vendors/services.py `reserve_attempt_capacity`, `finalize_attempt_capacity` and
-- `expire_reservation`, and the task of vendors/tasks.py that expires what was abandoned. Each call
-- runs in a transaction and writes after its last check, so that a call that raises has written
-- nothing. The key of a new row is the database's choice and an argument.
pub mod Rows
pub mod Reserve
pub mod Frozen
pub mod Lifecycle
use quant_tool.Base.{
  ℕ, zero, suc, ◌+◌, ◌*◌, String, Bool, true, false, not, ◌&&◌, ◌||◌, Option, none, some, List, [],
  ◌∷◌, leb, ltb, ◌==◌, if◌then◌else◌, or_default,
}
use quant_tool.Base.Int.{ℤ, pos}
use quant_tool.Base.Result.{Result, ok, err, ◌>>=◌, ◌>>◌, raise_if, or_raise}
use quant_tool.Base.Table.{Table, lookup, update, create}
use quant_tool.Base.Lists.{find, select, take}
use quant_tool.Money.{payable_cpi}
use quant_tool.Vendors.Models.{
  AccountType, employee, internal_vendor, external_vendor, Profile, Commercial, Survey,
  ClientAllocation, SurveyAllocation, AttemptStatus, initiated, redirected, completed, terminated,
  over_quota, quality_terminated, Attempt, ReservationStatus, reserved, consumed, released, expired,
  Reason, no_reason, completed_survey, expired_before_callback, released_for, Reservation, Db,
  client_cut, survey_cut,
}
use quant_tool.Vendors.Policy.{is_active_now}
use quant_tool.Vendors.Scope.{profile_of}
use quant_tool.Vendors.Context.{
  Unavailable, allocation_required, access_inactive, commercial_inactive, survey_mismatch,
  client_mismatch, client_window, project_window, exhausted, not_expired, does_not_exist,
  no_profile, user_active, client_active, commercial_of, window_open,
}

abbrev pub Row : Type 0
Row = ℕ × Reservation

-- `AllocationReservation.objects.filter(attempt=attempt).first()`
abbrev pub reservation_of : Table Reservation → ℕ → Option Row
reservation_of rows attempt_id = find (λ row. row.1.attempt_id == attempt_id) rows

-- What a reservation freezes on the attempt.
pub record Terms : Type 0 where
  pub vendor_id : ℕ
  pub client_id : ℕ
  pub client_allocation_id : ℕ
  pub survey_allocation_id : Option ℕ
  pub source_cpi : Option ℤ
  pub cut : ℤ
  pub currency : String

-- `.get(pk=survey_allocation.pk)`, where one was passed.
abbrev pub locked_override :
    Db → Option (ℕ × SurveyAllocation) → Result Unavailable (Option (ℕ × SurveyAllocation))
locked_override db none = ok none
locked_override db (some (k, _)) = do
  p ← or_raise (lookup k db.survey_allocations) does_not_exist
  ok (some (k, p))

abbrev pub other_survey : Option (ℕ × SurveyAllocation) → ℕ → Bool
other_survey none survey_id = false
other_survey (some (_, p)) survey_id = not (p.survey_id == survey_id)

abbrev pub other_client : Option ℕ → ℕ → Bool
other_client none client_id = true
other_client (some c) client_id = not (c == client_id)

abbrev pub not_usable : Option Commercial → Bool
not_usable none = true
not_usable (some c) = not c.is_active

abbrev pub currency_of : Option Commercial → String
currency_of none = "USD"
currency_of (some c) = c.currency

-- The key of the client allocation: the one passed, or that of the project's allocation.
abbrev pub chosen_allocation : Option (ℕ × SurveyAllocation) → Option ℕ → Option ℕ
chosen_allocation override (some k) = some k
chosen_allocation none none = none
chosen_allocation (some (_, p)) none = some p.client_allocation_id

-- A project's allocation falls back on the client allocation that it names itself.
unfoldable pub reservation_cut :
    Db → AccountType → Option (ℕ × SurveyAllocation) → ClientAllocation → Option Commercial → ℤ
unfolding client_cut survey_cut
reservation_cut db internal_vendor override a commercial = pos 0
reservation_cut db _ none a commercial = client_cut a commercial
reservation_cut db _ (some (_, p)) a commercial =
    elim (lookup p.client_allocation_id db.client_allocations) [
      | none ↦ survey_cut p a commercial
      | some b ↦ survey_cut p b (commercial_of db b.vendor_id)
    ]

-- The `if ...: raise AllocationUnavailable` lines of `reserve_attempt_capacity`, in their order.
unfoldable pub reservation_gates :
    Db
    → ℕ
    → Attempt
    → ClientAllocation
    → Option (ℕ × SurveyAllocation)
    → Survey
    → Result Unavailable (Unit {0})
reservation_gates db now attempt a override survey = do
  raise_if (not (user_active db a.vendor_id) || not (client_active db a.client_id)) access_inactive
  raise_if (not_usable (commercial_of db a.vendor_id)) commercial_inactive
  raise_if (other_survey override attempt.survey_id) survey_mismatch
  raise_if (other_client survey.client_id a.client_id) client_mismatch
  raise_if (not (is_active_now a.is_active a.starts_at a.ends_at now)) client_window
  raise_if (not (window_open override now)) project_window
  raise_if (ltb survey.remaining 1) exhausted

-- `reserve_attempt_capacity` from the choice of the client allocation to the frozen terms.
unfoldable pub checked_terms :
    Db → ℕ → Attempt → Option (ℕ × SurveyAllocation) → Option ℕ → Result Unavailable Terms
checked_terms db now attempt survey_allocation client_allocation = do
  allocation_id ←
      or_raise (chosen_allocation survey_allocation client_allocation) allocation_required
  a ← or_raise (lookup allocation_id db.client_allocations) does_not_exist
  override ← locked_override db survey_allocation
  survey ← or_raise (lookup attempt.survey_id db.surveys) does_not_exist
  reservation_gates db now attempt a override survey
  profile ← or_raise (profile_of db a.vendor_id) no_profile
  ok (record {
    vendor_id = a.vendor_id;
    client_id = a.client_id;
    client_allocation_id = allocation_id;
    survey_allocation_id = elim override [ none ↦ none | some o ↦ some o.0 ];
    source_cpi = survey.cpi;
    cut = reservation_cut db profile.account_type override a (commercial_of db a.vendor_id);
    currency = currency_of (commercial_of db a.vendor_id);
  })

-- `SurveyAttempt.objects.filter(pk=attempt.pk).update(...)`
unfoldable pub freeze : Terms → Attempt → Attempt
freeze t attempt = record attempt {
  vendor_id = some t.vendor_id;
  client_id = some t.client_id;
  client_allocation_id = some t.client_allocation_id;
  survey_allocation_id = t.survey_allocation_id;
  source_cpi_snapshot = t.source_cpi;
  cpi_snapshot_source = "captured";
  cpi_cut_percent_snapshot = some t.cut;
  payable_cpi_snapshot = payable_cpi t.source_cpi t.cut;
  cpi_currency_snapshot = t.currency;
}

-- `AllocationReservation.objects.create(...)`; `ttl` is VENDOR_RESERVATION_TTL_MINUTES.
unfoldable pub new_reservation : ℕ → ℕ → ℕ → Terms → Option ℕ → Reservation
new_reservation attempt_id now ttl t expires_at = record {
  attempt_id = attempt_id;
  client_allocation_id = t.client_allocation_id;
  survey_allocation_id = t.survey_allocation_id;
  quantity = 1;
  status = reserved;
  expires_at = or_default expires_at (now + ttl * 60000000);
  finalized_at = none;
  reason = no_reason;
}

unfoldable pub reserve_attempt_capacity :
    ℕ
    → ℕ
    → ℕ
    → ℕ
    → Option (ℕ × SurveyAllocation)
    → Option ℕ
    → Option ℕ
    → Db
    → Result Unavailable Row × Db
reserve_attempt_capacity key now ttl attempt_id survey_allocation client_allocation expires_at db =
    elim (lookup attempt_id db.attempts) [
      | none ↦ (err does_not_exist, db)
      | some attempt ↦ elim (reservation_of db.reservations attempt_id) [
        | some row ↦ (ok row, db)
        | none ↦ elim (checked_terms db now attempt survey_allocation client_allocation) [
          | err e ↦ (err e, db)
          | ok t ↦
              let r = new_reservation attempt_id now ttl t expires_at in
              (
                ok (key, r),
                record db {
                  attempts = update attempt_id (freeze t) db.attempts;
                  reservations = create key r db.reservations;
                },
              )
        ]
      ]
    ]

abbrev pub is_reserved : ReservationStatus → Bool
is_reserved reserved = true
is_reserved _ = false

abbrev pub final_status : AttemptStatus → ReservationStatus
final_status completed = consumed
final_status _ = released

abbrev pub final_reason : AttemptStatus → Reason
final_reason completed = completed_survey
final_reason initiated = released_for initiated
final_reason status = released_for status

unfoldable pub finalized : AttemptStatus → ℕ → Reservation → Reservation
finalized status now r = record r {
  status = final_status status;
  reason = final_reason status;
  finalized_at = some now;
}

-- `status` is that of the caller's attempt; `none` is returned where it has no reservation.
unfoldable pub finalize_attempt_capacity : ℕ → ℕ → AttemptStatus → Db → Option Row × Db
unfolding finalized
finalize_attempt_capacity now attempt_id status db =
    elim (reservation_of db.reservations attempt_id) [
      | none ↦ (none, db)
      | some (k, r) ↦
          if is_reserved r.status
          then (
            some (k, finalized status now r),
            record db { reservations = update k (finalized status now) db.reservations },
          )
          else (some (k, r), db)
    ]

unfoldable pub lapsed : ℕ → Reservation → Reservation
lapsed now r = record r {
  status = expired;
  reason = expired_before_callback;
  finalized_at = some now;
}

unfoldable pub expire_reservation : ℕ → ℕ → Db → Result Unavailable Row × Db
unfolding lapsed
expire_reservation now k db = elim (lookup k db.reservations) [
  | none ↦ (err does_not_exist, db)
  | some r ↦
      if not (is_reserved r.status)
      then (ok (k, r), db)
      else if ltb now r.expires_at
      then (err not_expired, db)
      else (
        ok (k, lapsed now r),
        record db { reservations = update k (lapsed now) db.reservations },
      )
]

-- `.order_by("expires_at")`
unfoldable pub insert_by_expiry : Row → List Row → List Row
insert_by_expiry row [] = row ∷ []
insert_by_expiry row (other ∷ rows) =
    if leb row.1.expires_at other.1.expires_at
    then row ∷ other ∷ rows
    else other ∷ insert_by_expiry row rows

unfoldable pub order_by_expiry : List Row → List Row
unfolding insert_by_expiry
order_by_expiry [] = []
order_by_expiry (row ∷ rows) = insert_by_expiry row (order_by_expiry rows)

abbrev pub is_due : ℕ → Row → Bool
is_due now row = is_reserved row.1.status && leb row.1.expires_at now

-- The loop of the task at the time `now`: the number of expired reservations, or what was raised.
-- A reservation that was raised ends the loop; what was expired before stays.
unfoldable pub expire_each : ℕ → List ℕ → ℕ → Db → Result Unavailable ℕ × Db
expire_each now [] expired_count db = (ok expired_count, db)
expire_each now (k ∷ ks) expired_count db =
    let (result, db') = expire_reservation now k db in
    let on = expire_each now ks (expired_count + 1) db' in
    let skip = expire_each now ks expired_count db in
    elim (lookup k db.reservations) [
      | none ↦ skip
      | some r ↦
          if is_reserved r.status then elim result [ ok _ ↦ on | err e ↦ (err e, db) ] else skip
    ]

abbrev pub keys : List Row → List ℕ
keys [] = []
keys (row ∷ rows) = row.0 ∷ keys rows

-- `expire_allocation_reservations_task`, whose query ran at the time `asked`.
unfoldable pub expire_allocation_reservations : ℕ → ℕ → ℕ → Db → Result Unavailable ℕ × Db
expire_allocation_reservations asked now batch_size db =
    expire_each now
      (keys (take batch_size (order_by_expiry (select (is_due asked) db.reservations)))) 0 db

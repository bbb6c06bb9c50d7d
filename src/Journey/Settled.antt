-- ===== src/Journey/Settled.antt =====
-- Any sequence of the handlers on one attempt: its status, the time of its result and its reservation
-- agree.
pub mod Steps
use quant_tool.Base.{
  ℕ, ◌≡◌, refl, Bool, true, false, not, ◌||◌, Option, none, some, [], ◌∷◌, ◌&&◌, arith, ◌==◌,
  ==_refl, is_none, is_some, if◌then◌else◌, inl, inr, Option-cases, Bool-cases,
}
use quant_tool.Base.Table.{Table, lookup, update}
use quant_tool.Vendors.Models.{AttemptStatus, Reservation}
use quant_tool.Vendors.Models
use quant_tool.Vendors.Reservation.{
  Row, reservation_of, is_reserved, finalized, finalize_attempt_capacity, lapsed,
  expire_reservation,
}
use quant_tool.Vendors.Reservation.Rows.{reservation_of-update, at_key}
use quant_tool.Vendors.Reservation.Lifecycle.{finalize_open, finalize_ended}
use quant_tool.Journey.{
  Source, local_prescreener, toluna_invite_rejection, Attempt, State, is_pending, has_status_page,
  is_initiated, save_final, ended_locally, finish_locally, release_prepared_toluna_invite,
}
use quant_tool.Journey.Ends.{
  StatusWord, reconciled, checked, rfg_status_map, finish_local_rfg_attempt,
  toluna_invite_result_status, finish_toluna_invite_rejection, finish_wrong_target_country_attempt,
  finish_duplicate_ip_attempt, rfg_recorded, rfg_callback_view, Transaction, transaction_status,
  reconcile_attempt_status,
}
use quant_tool.Journey.Status.{
  Provider, Settings, Request, Answer, Verified, biobrain_conflict, status_written, verification,
  canonical_query, is_toluna, is_biobrain, toluna_already_finalized, status_recorded, record_status,
  status_of_attempt, survey_status,
}
use quant_tool.Journey.Status.Cases.{survey_status_cases}

abbrev pub row_ended : Option Row → Bool
row_ended none = true
row_ended (some row) = not (is_reserved row.1.status)

-- Whether attempt `k` has no open reservation.
abbrev pub has_ended : ℕ → Models.Db → Bool
has_ended k db = row_ended (reservation_of db.reservations k)

-- There is a time of the result exactly where the status is not pending, and then the reservation
-- has ended.
pub record IsSettled (k : ℕ) (s : State) : Type 0 where
  pub timed : is_none s.attempt.callback_at ≡ is_pending s.attempt.status
  pub ended : is_pending s.attempt.status || has_ended k s.vendors ≡ true

finalize_bare :
    (now k : ℕ) (status : AttemptStatus) (db : Models.Db)
    → reservation_of db.reservations k ≡ none
    → finalize_attempt_capacity now k status db ≡ (none, db)
unfolding finalize_attempt_capacity
finalize_bare now k status db bare = rw (bare, finalize_attempt_capacity)

finalize-has_ended :
    (now k : ℕ) (status : AttemptStatus) (db : Models.Db)
    → has_ended k (finalize_attempt_capacity now k status db).1 ≡ true
finalize-has_ended now k status db = elim (Option-cases (reservation_of db.reservations k)) [
  | inl bare ↦ rw (finalize_bare now k status db bare, bare) refl
  | inr ((j, r), has) ↦ elim (Bool-cases (is_reserved r.status)) [
    | inr ended ↦ rw (finalize_ended now k status db j r has ended, has, ended) refl
    | inl is_open ↦
        rw
          (
            finalize_open now k status db j r has is_open,
            reservation_of-update k j (finalized status now) db.reservations
                (λ q. unfold finalized in refl),
            has,
            ==_refl j,
          )
          (unfold finalized in ground arith)
  ]
]

-- Saving a result with its time settles the attempt.
pub save_final-IsSettled :
    (now k : ℕ) (a : Attempt) (s : State)
    → is_none a.callback_at ≡ is_pending a.status
    → IsSettled k (save_final now k a s)
unfolding save_final
save_final-IsSettled now k a s e = record {
  timed = e;
  ended = rw (finalize-has_ended now k a.status s.vendors) ground arith;
}

pub finish_locally-IsSettled :
    (source : Source) (status : AttemptStatus) (now k : ℕ) (ip : Option ℕ) (s : State)
    → is_pending status ≡ false
    → IsSettled k s
    → IsSettled k (finish_locally source status now k ip s)
unfolding finish_locally
finish_locally-IsSettled source status now k ip s final h =
    elim (Bool-cases (is_initiated s.attempt.status)) [
      | inr closed ↦ rw closed h
      | inl is_open ↦ rw is_open (
          save_final-IsSettled now k (ended_locally source status now ip s.attempt) s
            (unfold ended_locally in rw final refl))
    ]

pub release-IsSettled :
    (now k : ℕ) (s : State) → IsSettled k s → IsSettled k (release_prepared_toluna_invite now s).1
unfolding release_prepared_toluna_invite is_pending
release-IsSettled now k s h =
    let e = h.timed in let f = h.ended in record { timed = ground arith; ended = ground arith }

abbrev all_final : Table AttemptStatus → Bool
all_final [] = true
all_final (row ∷ rows) = not (is_pending row.1) && all_final rows

all_final-lookup :
    (code : ℕ) (status : AttemptStatus) (rows : Table AttemptStatus)
    → all_final rows ≡ true
    → lookup code rows ≡ some status
    → is_pending status ≡ false
all_final-lookup code status [] all e = cc
all_final-lookup code status ((j, other) ∷ rows) all e =
    ground (arith, all_final-lookup code status rows)

rfg_final :
    (code : ℕ) (status : AttemptStatus)
    → lookup code rfg_status_map ≡ some status
    → is_pending status ≡ false
unfolding rfg_status_map is_pending
rfg_final code status = all_final-lookup code status rfg_status_map refl

toluna_final :
    (code : ℕ) (status : AttemptStatus)
    → lookup code toluna_invite_result_status ≡ some status
    → is_pending status ≡ false
unfolding toluna_invite_result_status is_pending
toluna_final code status = all_final-lookup code status toluna_invite_result_status refl

pub rfg_callback-IsSettled :
    (result : ℕ) (mode_is_ip verified_ip : Bool) (now k : ℕ) (ip : Option ℕ) (s : State)
    → IsSettled k s
    → IsSettled k (rfg_callback_view result mode_is_ip verified_ip now k ip s).1
unfolding rfg_callback_view
rfg_callback-IsSettled result mode_is_ip verified_ip now k ip s h =
    elim (Option-cases (lookup result rfg_status_map)) [
      | inl unknown ↦ rw (unknown, rfg_callback_view) h
      | inr (status, known) ↦ elim (Bool-cases mode_is_ip) [
        | inr other_mode ↦ rw (known, other_mode, rfg_callback_view) h
        | inl by_ip ↦ elim (Bool-cases verified_ip) [
          | inr untrusted ↦ rw (known, by_ip, untrusted, rfg_callback_view) h
          | inl trusted ↦
              rw (known, by_ip, trusted, rfg_callback_view)
                (save_final-IsSettled now k (rfg_recorded status now ip s.attempt) s
                  (unfold rfg_recorded in rw (rfg_final result status known) refl))
        ]
      ]
    ]

pub finish_local_rfg-IsSettled :
    (result now k : ℕ) (ip : Option ℕ) (s : State)
    → IsSettled k s
    → IsSettled k (finish_local_rfg_attempt result now k ip s)
unfolding finish_local_rfg_attempt
finish_local_rfg-IsSettled result now k ip s h =
    elim (Option-cases (lookup result rfg_status_map)) [
      | inl unknown ↦ rw (unknown, finish_local_rfg_attempt) h
      | inr (status, known) ↦
          rw (known, finish_local_rfg_attempt)
            (finish_locally-IsSettled local_prescreener status now k ip s
              (rfg_final result status known) h)
    ]

pub finish_toluna-IsSettled :
    (code now k : ℕ) (ip : Option ℕ) (s : State)
    → IsSettled k s
    → IsSettled k (finish_toluna_invite_rejection code now k ip s)
unfolding finish_toluna_invite_rejection
finish_toluna-IsSettled code now k ip s h =
    elim (Option-cases (lookup code toluna_invite_result_status)) [
      | inl unknown ↦ rw (unknown, finish_toluna_invite_rejection) h
      | inr (status, known) ↦
          rw (known, finish_toluna_invite_rejection)
            (finish_locally-IsSettled toluna_invite_rejection status now k ip s
              (toluna_final code status known) h)
    ]

transaction_final :
    (w : StatusWord) (status : AttemptStatus)
    → transaction_status w ≡ some status
    → is_pending status ≡ false
unfolding transaction_status is_pending
transaction_final w status e = ground arith

pub reconcile-IsSettled :
    (t : Transaction) (checked_at k : ℕ) (s : State)
    → IsSettled k s
    → IsSettled k (reconcile_attempt_status t checked_at k s).1
unfolding reconcile_attempt_status
reconcile-IsSettled t checked_at k s h = elim (Option-cases (transaction_status t.word)) [
  | inl unknown ↦
      rw (unknown, reconcile_attempt_status) (record { timed = h.timed; ended = h.ended })
  | inr (status, known) ↦
      let a = checked checked_at t.ip s.attempt in
      rw (known, reconcile_attempt_status)
        (save_final-IsSettled checked_at k
          (if is_none a.callback_at && is_pending a.status
            then reconciled status t checked_at a
            else a)
          s
          (elim (Bool-cases (is_none a.callback_at && is_pending a.status)) [
            | inl waiting ↦
                rw waiting (unfold reconciled in rw (transaction_final t.word status known) refl)
            | inr over ↦ rw over h.timed
          ]))
]

module _ (provider : Provider) (has_url : AttemptStatus → Bool) (v : Verified)
    (status : AttemptStatus) (now k : ℕ) (ip : Option ℕ) (s : State)
    (final : is_pending status ≡ false) (h : IsSettled k s) where
  recorded_timed :
      let a = status_recorded provider v status now ip s.attempt in
      is_none a.callback_at ≡ is_pending a.status
  unfolding status_recorded
  recorded_timed = elim (Bool-cases (is_none s.attempt.callback_at || is_toluna provider)) [
    | inl written ↦ rw written (unfold status_written in rw final refl)
    | inr kept ↦ rw kept h.timed
  ]

  record_status-IsSettled : IsSettled k (record_status provider has_url v status now k ip s).1
  unfolding record_status
  record_status-IsSettled = elim (Bool-cases (biobrain_conflict provider s.attempt)) [
    | inl conflict ↦ rw (conflict, record_status) h
    | inr free ↦ elim (Bool-cases (toluna_already_finalized provider s.attempt)) [
      | inl over ↦ rw (free, over, record_status) h
      | inr fresh ↦
          rw (free, fresh, record_status)
            (save_final-IsSettled now k (status_recorded provider v status now ip s.attempt) s
              recorded_timed)
    ]
  ]

pub survey_status-IsSettled :
    (provider : Provider) (settings : Settings) (notified : Bool) (has_url : AttemptStatus → Bool)
    (found : Option Attempt) (q : Request) (now k : ℕ) (s : State)
    → IsSettled k s
    → IsSettled k (survey_status provider settings notified has_url found q now k s).1
survey_status-IsSettled provider settings notified has_url found q now k s h =
    elim (survey_status_cases provider settings notified has_url q now k s found) [
      | inl same ↦ rw same h
      | inr r ↦
          rw r.same
            (record_status-IsSettled provider has_url r.v r.status now k q.ip s r.is_result h)
    ]

lapsed_row :
    (now j : ℕ) (row : Option Row)
    → row_ended row ≡ true
    → row_ended (at_key j (lapsed now) row) ≡ true
unfolding lapsed
lapsed_row now j none e = refl
lapsed_row now j (some (i, r)) e = ground arith

expire-has_ended :
    (now j k : ℕ) (db : Models.Db)
    → has_ended k db ≡ true
    → has_ended k (expire_reservation now j db).1 ≡ true
unfolding expire_reservation
expire-has_ended now j k db e = ground (
  arith,
  reservation_of-update k j (lapsed now) db.reservations (λ q. unfold lapsed in refl),
  lapsed_row now j (reservation_of db.reservations k),
)

pub expire-IsSettled :
    (now j k : ℕ) (s : State)
    → IsSettled k s
    → IsSettled k (record s { vendors = (expire_reservation now j s.vendors).1 })
expire-IsSettled now j k s h =
    let e = h.ended in
    record { timed = h.timed; ended = ground (arith, expire-has_ended now j k s.vendors) }

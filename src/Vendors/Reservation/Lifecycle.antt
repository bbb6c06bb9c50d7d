-- ===== src/Vendors/Reservation/Lifecycle.antt =====
-- The life of a reservation over any sequence of the calls of vendors/services.py: reserved once,
-- ended once, and never changed after that.
use quant_tool.Base.{
  ℕ, ◌≡◌, ◌↔◌, refl, true, false, Option, none, some, List, [], ◌∷◌, arith, ◌==◌, ◌⊎◌, inl, inr,
  Option-cases, Bool-cases, is_some, ==_refl,
}
use quant_tool.Base.Result.{Result-cases}
use quant_tool.Base.Table.{Table, lookup, update, create, lookup-update, lookup-create}
use quant_tool.Vendors.Models.{
  SurveyAllocation, AttemptStatus, completed, reserved, consumed, Reservation, Db,
}
use quant_tool.Vendors.Reservation.{
  reservation_of, Terms, checked_terms, new_reservation, reserve_attempt_capacity, is_reserved,
  finalized, finalize_attempt_capacity, lapsed, expire_reservation,
}
use quant_tool.Vendors.Reservation.Rows.{reservation_of-create, reservation_of-update}

-- The calls that write reservations, each with its arguments.
pub data Call : Type 0 where
  reserve : ℕ → ℕ → ℕ → ℕ → Option (ℕ × SurveyAllocation) → Option ℕ → Option ℕ → Call
  finalize : ℕ → ℕ → AttemptStatus → Call
  expire : ℕ → ℕ → Call

unfoldable pub run : Call → Db → Db
run (reserve key now ttl attempt_id passed given expires_at) db =
    (reserve_attempt_capacity key now ttl attempt_id passed given expires_at db).1
run (finalize now attempt_id status) db = (finalize_attempt_capacity now attempt_id status db).1
run (expire now k) db = (expire_reservation now k db).1

unfoldable pub run_all : List Call → Db → Db
run_all [] db = db
run_all (c ∷ cs) db = run_all cs (run c db)

-- One unit; a final time exactly where the reservation has ended.
pub record IsSound (r : Reservation) : Type 0 where
  pub one_unit : r.quantity ≡ 1
  pub ended : is_reserved r.status ≡ false → is_some r.finalized_at ≡ true
  pub open_until : is_reserved r.status ≡ true → r.finalized_at ≡ none

-- The rows are sound, and no two share their key or their attempt.
abbrev pub IsWellFormed : Table Reservation → Type 0
IsWellFormed [] = Unit
IsWellFormed ((k, r) ∷ rows) =
    IsSound r
    × (reservation_of rows r.attempt_id ≡ none)
    × (lookup k rows ≡ none)
    × IsWellFormed rows

create-IsWellFormed :
    (k : ℕ) (r : Reservation) (rows : Table Reservation)
    → IsWellFormed rows
    → reservation_of rows r.attempt_id ≡ none
    → lookup k rows ≡ none
    → IsSound r
    → IsWellFormed (create k r rows)
create-IsWellFormed k r [] w fresh new s = (s, refl, refl, tt)
create-IsWellFormed k r ((j, q) ∷ rows) w fresh new s = (
  w.0,
  ground (arith, reservation_of-create q.attempt_id k r rows),
  ground (arith, lookup-create j k r rows),
  create-IsWellFormed k r rows w.3 (ground arith) (ground arith) s,
)

update-IsWellFormed :
    (k : ℕ) (f : Reservation → Reservation) (rows : Table Reservation)
    → ((r : Reservation) → (f r).attempt_id ≡ r.attempt_id)
    → ((r : Reservation) → IsSound r → IsSound (f r))
    → IsWellFormed rows
    → IsWellFormed (update k f rows)
update-IsWellFormed k f [] keeps sound w = tt
update-IsWellFormed k f ((j, r) ∷ rows) keeps sound w =
    let new_key : lookup j (update k f rows) ≡ none = ground (arith, lookup-update j k f rows) in
    elim (Bool-cases (j == k)) [
      | inl same ↦ rw same (
        sound r w.0,
        rw (keeps r, reservation_of-update r.attempt_id k f rows keeps, w.1) refl,
        new_key,
        update-IsWellFormed k f rows keeps sound w.3,
      )
      | inr other ↦ rw other (
        w.0,
        rw (reservation_of-update r.attempt_id k f rows keeps, w.1) refl,
        new_key,
        update-IsWellFormed k f rows keeps sound w.3,
      )
    ]

-- The row that an attempt's query finds is the row under its key.
reservation_of-lookup :
    (a k : ℕ) (r : Reservation) (rows : Table Reservation)
    → IsWellFormed rows
    → reservation_of rows a ≡ some (k, r)
    → lookup k rows ≡ some r
reservation_of-lookup a k r [] w e = cc
reservation_of-lookup a k r ((j, q) ∷ rows) w e = elim (Bool-cases (q.attempt_id == a)) [
  | inl same ↦ ground arith
  | inr other ↦ ground (arith, reservation_of-lookup a k r rows w.3)
]

finalized-IsSound :
    (status : AttemptStatus) (now : ℕ) (r : Reservation)
    → IsSound r
    → IsSound (finalized status now r)
unfolding finalized
finalized-IsSound status now r s = ground arith

lapsed-IsSound : (now : ℕ) (r : Reservation) → IsSound r → IsSound (lapsed now r)
unfolding lapsed
lapsed-IsSound now r s = ground arith

new_reservation-IsSound :
    (a now ttl : ℕ) (t : Terms) (expires_at : Option ℕ)
    → IsSound (new_reservation a now ttl t expires_at)
unfolding new_reservation
new_reservation-IsSound a now ttl t expires_at = ground arith

-- The database issues keys that are not in use.
abbrev pub IsIssued : Call → Db → Type 0
IsIssued (reserve key _ _ _ _ _ _) db = lookup key db.reservations ≡ none
IsIssued _ db = Unit

reserve_cases :
    (key now ttl a : ℕ) (passed : Option (ℕ × SurveyAllocation)) (given expires_at : Option ℕ)
    (db : Db)
    → ((reserve_attempt_capacity key now ttl a passed given expires_at db).1 ≡ db)
      ⊎ ((t : Terms) × (reservation_of db.reservations a ≡ none)
          × ((reserve_attempt_capacity key now ttl a passed given expires_at db).1.reservations
              ≡ create key (new_reservation a now ttl t expires_at) db.reservations))
unfolding reserve_attempt_capacity
reserve_cases key now ttl a passed given expires_at db =
    elim (Option-cases (lookup a db.attempts)) [
      | inl gone ↦ inl (rw (gone, reserve_attempt_capacity))
      | inr (attempt, row) ↦ elim (Option-cases (reservation_of db.reservations a)) [
        | inr (old, has) ↦ inl (rw (row, has, reserve_attempt_capacity))
        | inl fresh ↦ elim (Result-cases (checked_terms db now attempt passed given)) [
          | inr (raised, e) ↦ inl (rw (row, fresh, e, reserve_attempt_capacity))
          | inl (t, e) ↦ inr (t, fresh, rw (row, fresh, e, reserve_attempt_capacity))
        ]
      ]
    ]

finalize_cases :
    (now a : ℕ) (status : AttemptStatus) (db : Db)
    → ((finalize_attempt_capacity now a status db).1 ≡ db)
      ⊎ ((k : ℕ) × (r : Reservation) × (reservation_of db.reservations a ≡ some (k, r))
          × (is_reserved r.status ≡ true)
          × ((finalize_attempt_capacity now a status db).1.reservations
              ≡ update k (finalized status now) db.reservations))
unfolding finalize_attempt_capacity
finalize_cases now a status db = elim (Option-cases (reservation_of db.reservations a)) [
  | inl bare ↦ inl (rw (bare, finalize_attempt_capacity))
  | inr ((k, r), has) ↦ elim (Bool-cases (is_reserved r.status)) [
    | inl open_row ↦ inr (k, r, has, open_row, rw (has, open_row, finalize_attempt_capacity))
    | inr ended ↦ inl (rw (has, ended, finalize_attempt_capacity))
  ]
]

run-IsWellFormed :
    (c : Call) (db : Db)
    → IsIssued c db
    → IsWellFormed db.reservations
    → IsWellFormed (run c db).reservations
unfolding run finalize_attempt_capacity expire_reservation
run-IsWellFormed (reserve key now ttl a passed given expires_at) db new w =
    elim (reserve_cases key now ttl a passed given expires_at db) [
      | inl same ↦ rw same w
      | inr (t, fresh, after) ↦ rw after (
          create-IsWellFormed key (new_reservation a now ttl t expires_at) db.reservations w
            (unfold new_reservation in fresh) new (new_reservation-IsSound a now ttl t expires_at))
    ]
run-IsWellFormed (finalize now a status) db new w = elim (finalize_cases now a status db) [
  | inl same ↦ rw same w
  | inr (k, r, found, open_row, after) ↦ rw after (
      update-IsWellFormed k (finalized status now) db.reservations (λ q. unfold finalized in refl)
        (finalized-IsSound status now) w)
]
run-IsWellFormed (expire now k) db new w = ground (
  arith,
  update-IsWellFormed k (lapsed now) db.reservations (λ r. unfold lapsed in refl)
      (lapsed-IsSound now) w,
)

-- A reservation that has ended.
abbrev pub EndedAt : Db → ℕ → Reservation → Type 0
EndedAt db k r = (lookup k db.reservations ≡ some r) × (is_reserved r.status ≡ false)

run-EndedAt :
    (c : Call) (db : Db) (k : ℕ) (r : Reservation)
    → IsWellFormed db.reservations
    → EndedAt db k r
    → lookup k (run c db).reservations ≡ some r
unfolding run finalize_attempt_capacity expire_reservation
run-EndedAt (reserve key now ttl a passed given expires_at) db k r w (row, ended) =
    elim (reserve_cases key now ttl a passed given expires_at db) [
      | inl same ↦ rw same row
      | inr (t, fresh, after) ↦ rw (after, lookup-create, row)
    ]
run-EndedAt (finalize now a status) db k r w (row, ended) = elim (finalize_cases now a status db) [
  | inl same ↦ rw same row
  | inr (j, q, found, open_row, after) ↦ ground (
    arith,
    after,
    lookup-update k j (finalized status now) db.reservations,
    reservation_of-lookup a j q db.reservations w found,
  )
]
run-EndedAt (expire now j) db k r w (row, ended) =
    ground (arith, lookup-update k j (lapsed now) db.reservations)

-- Every call of the sequence, at the tables that it finds, is given a key that is not in use.
abbrev pub AllIssued : List Call → Db → Type 0
AllIssued [] db = Unit
AllIssued (c ∷ cs) db = IsIssued c db × AllIssued cs (run c db)

-- Over any sequence of reservations, finalizations and expiries: no attempt ever has two reservations
-- and no two share a key, each holds one unit and has a final time exactly where it has ended.
pub run_all-IsWellFormed :
    (cs : List Call) (db : Db)
    → AllIssued cs db
    → IsWellFormed db.reservations
    → IsWellFormed (run_all cs db).reservations
unfolding run_all
run_all-IsWellFormed [] db issued w = w
run_all-IsWellFormed (c ∷ cs) db issued w =
    run_all-IsWellFormed cs (run c db) issued.1 (run-IsWellFormed c db issued.0 w)

-- A reservation that was consumed, released or expired stays as it is, whatever is called later.
pub ended_stays :
    (cs : List Call) (db : Db) (k : ℕ) (r : Reservation)
    → AllIssued cs db
    → IsWellFormed db.reservations
    → lookup k db.reservations ≡ some r
    → is_reserved r.status ≡ false
    → lookup k (run_all cs db).reservations ≡ some r
unfolding run_all
ended_stays [] db k r issued w row ended = row
ended_stays (c ∷ cs) db k r issued w row ended =
    ended_stays cs (run c db) k r issued.1 (run-IsWellFormed c db issued.0 w)
      (run-EndedAt c db k r w (row, ended)) ended

pub finalize_open :
    (now a : ℕ) (status : AttemptStatus) (db : Db) (k : ℕ) (r : Reservation)
    → reservation_of db.reservations a ≡ some (k, r)
    → is_reserved r.status ≡ true
    → (finalize_attempt_capacity now a status db).1
      ≡ record db { reservations = update k (finalized status now) db.reservations }
unfolding finalize_attempt_capacity
finalize_open now a status db k r has open_row = rw (has, open_row, finalize_attempt_capacity)

pub finalize_ended :
    (now a : ℕ) (status : AttemptStatus) (db : Db) (k : ℕ) (r : Reservation)
    → reservation_of db.reservations a ≡ some (k, r)
    → is_reserved r.status ≡ false
    → finalize_attempt_capacity now a status db ≡ (some (k, r), db)
unfolding finalize_attempt_capacity
finalize_ended now a status db k r has ended = rw (has, ended, finalize_attempt_capacity)

consumed_iff :
    (status : AttemptStatus) (now : ℕ) (r : Reservation)
    → (finalized status now r).status ≡ consumed ↔ status ≡ completed
unfolding finalized
consumed_iff status now r = (λ h. ground arith, λ h. ground arith)

finalized_ended :
    (status : AttemptStatus) (now : ℕ) (r : Reservation)
    → is_reserved (finalized status now r).status ≡ false
unfolding finalized
finalized_ended status now r = ground arith

-- Finalizing an attempt whose reservation is open consumes the unit exactly where the attempt is
-- completed and releases it otherwise, at that time; a second call changes nothing.
finalize_ends :
    (now now' a : ℕ) (status status' : AttemptStatus) (db : Db) (k : ℕ) (r : Reservation)
    → IsWellFormed db.reservations
    → reservation_of db.reservations a ≡ some (k, r)
    → r.status ≡ reserved
    → let db' = (finalize_attempt_capacity now a status db).1 in
      (lookup k db'.reservations ≡ some (finalized status now r))
      × ((finalized status now r).status ≡ consumed ↔ status ≡ completed)
      × (finalize_attempt_capacity now' a status' db' ≡ (some (k, finalized status now r), db'))
finalize_ends now now' a status status' db k r w has open_row =
    let is_open : is_reserved r.status ≡ true = rw open_row in
    let f = finalized status now in
    let row = reservation_of-lookup a k r db.reservations w has in
    let found : reservation_of (update k f db.reservations) a ≡ some (k, f r) = rw (
      reservation_of-update a k f db.reservations (λ q. unfold finalized in refl),
      has,
      ==_refl k,
    ) in
    rw (finalize_open now a status db k r has is_open) (
      rw (lookup-update, row, ==_refl k) refl,
      consumed_iff status now r,
      finalize_ended now' a status' (record db { reservations = update k f db.reservations }) k
          (f r) found (finalized_ended status now r),
    )

-- ===== src/Vendors/Reservation/Reserve.antt =====
-- When vendors/services.py `reserve_attempt_capacity` reserves, what it freezes, and that it
-- reserves once.
use quant_tool.Base.{
  ℕ, ◌≤◌, ◌≡◌, sym, ◌∙◌, true, Option, none, some, arith, ==_refl, inl, inr, Option-cases,
}
use quant_tool.Base.Int.{ℤ}
use quant_tool.Base.Result.{ok, Result-cases}
use quant_tool.Base.Table.{lookup, update, create, lookup-update}
use quant_tool.Vendors.Models.{
  Profile, Commercial, Survey, ClientAllocation, SurveyAllocation, Attempt, Db,
}
use quant_tool.Vendors.Policy.{is_active_now}
use quant_tool.Vendors.Scope.{profile_of}
use quant_tool.Vendors.Context.{user_active, client_active, commercial_of, window_open}
use quant_tool.Vendors.Reservation.{
  Row, reservation_of, Terms, locked_override, chosen_allocation, reservation_cut,
  reservation_gates, checked_terms, freeze, new_reservation, reserve_attempt_capacity,
}
use quant_tool.Vendors.Reservation.Rows.{reservation_of-create}

abbrev pub reservation_cut_of :
    Db → Option Profile → Option (ℕ × SurveyAllocation) → ClientAllocation → Option ℤ
reservation_cut_of db none override a = none
reservation_cut_of db (some p) override a =
    some (reservation_cut db p.account_type override a (commercial_of db a.vendor_id))

abbrev pub SameSurvey : Option (ℕ × SurveyAllocation) → ℕ → Type 0
SameSurvey none survey_id = Unit
SameSurvey (some (_, p)) survey_id = p.survey_id ≡ survey_id

-- What has to hold for an attempt to be reserved under the client allocation `a` and, if one is
-- given, the project's allocation `override`, both as the database holds them.
pub record Eligible (db : Db) (now : ℕ) (attempt : Attempt) (a : ClientAllocation)
    (override : Option (ℕ × SurveyAllocation)) (survey : Survey) (commercial : Commercial)
    : Type 0 where
  pub vendor_active : user_active db a.vendor_id ≡ true
  pub client_is_active : client_active db a.client_id ≡ true
  pub commercial_row : commercial_of db a.vendor_id ≡ some commercial
  pub commercial_usable : commercial.is_active ≡ true
  pub survey_matches : SameSurvey override attempt.survey_id
  pub client_matches : survey.client_id ≡ some a.client_id
  pub open_now : is_active_now a.is_active a.starts_at a.ends_at now ≡ true
  pub override_open : window_open override now ≡ true
  pub capacity : 1 ≤ survey.remaining

gates-Eligible :
    (db : Db) (now : ℕ) (attempt : Attempt) (a : ClientAllocation)
    (override : Option (ℕ × SurveyAllocation)) (survey : Survey) (commercial : Commercial)
    → commercial_of db a.vendor_id ≡ some commercial
    → reservation_gates db now attempt a override survey ≡ ok tt
    → Eligible db now attempt a override survey commercial
unfolding reservation_gates
gates-Eligible db now attempt a none survey commercial row e = ground arith
gates-Eligible db now attempt a (some (k, p)) survey commercial row e = ground arith

Eligible-gates :
    (db : Db) (now : ℕ) (attempt : Attempt) (a : ClientAllocation)
    (override : Option (ℕ × SurveyAllocation)) (survey : Survey) (commercial : Commercial)
    → Eligible db now attempt a override survey commercial
    → reservation_gates db now attempt a override survey ≡ ok tt
unfolding reservation_gates
Eligible-gates db now attempt a none survey commercial e = ground arith
Eligible-gates db now attempt a (some (k, p)) survey commercial e = ground arith

-- The terms that are frozen.
abbrev pub terms_of :
    Db
    → ℕ
    → ClientAllocation
    → Option (ℕ × SurveyAllocation)
    → Survey
    → Commercial
    → Profile
    → Terms
terms_of db id a override survey commercial profile = record {
  vendor_id = a.vendor_id;
  client_id = a.client_id;
  client_allocation_id = id;
  survey_allocation_id = elim override [ none ↦ none | some o ↦ some o.0 ];
  source_cpi = survey.cpi;
  cut = reservation_cut db profile.account_type override a (some commercial);
  currency = commercial.currency;
}

-- The rows that the checks read and lock, and that they pass.
pub record Passed (db : Db) (now : ℕ) (attempt : Attempt) (passed : Option (ℕ × SurveyAllocation))
    (given : Option ℕ) (t : Terms) : Type 0 where
  pub id : ℕ
  pub a : ClientAllocation
  pub override : Option (ℕ × SurveyAllocation)
  pub survey : Survey
  pub commercial : Commercial
  pub profile : Profile
  pub chosen : chosen_allocation passed given ≡ some id
  pub row : lookup id db.client_allocations ≡ some a
  pub locked : locked_override db passed ≡ ok override
  pub survey_row : lookup attempt.survey_id db.surveys ≡ some survey
  pub eligible : Eligible db now attempt a override survey commercial
  pub profile_row : profile_of db a.vendor_id ≡ some profile
  pub terms : t ≡ terms_of db id a override survey commercial profile

Passed-checked_terms :
    (db : Db) (now : ℕ) (attempt : Attempt) (passed : Option (ℕ × SurveyAllocation))
    (given : Option ℕ) (t : Terms)
    → Passed db now attempt passed given t
    → checked_terms db now attempt passed given ≡ ok t
unfolding checked_terms
Passed-checked_terms db now attempt passed given t p = rw (
  p.chosen,
  p.row,
  p.locked,
  p.survey_row,
  Eligible-gates db now attempt p.a p.override p.survey p.commercial p.eligible,
  p.profile_row,
  p.eligible.commercial_row,
  p.terms,
)

gates_commercial :
    (db : Db) (now : ℕ) (attempt : Attempt) (a : ClientAllocation)
    (override : Option (ℕ × SurveyAllocation)) (survey : Survey)
    → reservation_gates db now attempt a override survey ≡ ok tt
    → (c : Commercial) × (commercial_of db a.vendor_id ≡ some c)
unfolding reservation_gates
gates_commercial db now attempt a override survey e =
    elim (Option-cases (commercial_of db a.vendor_id)) [
      | inl missing ↦ ground arith
      | inr found ↦ found
    ]

module _ (db : Db) (now : ℕ) (attempt : Attempt) (passed : Option (ℕ × SurveyAllocation))
    (given : Option ℕ) (t : Terms) (e : checked_terms db now attempt passed given ≡ ok t) where
  all_found :
      (id : ℕ) (a : ClientAllocation) (override : Option (ℕ × SurveyAllocation)) (survey : Survey)
      (commercial : Commercial) (profile : Profile)
      → chosen_allocation passed given ≡ some id
      → lookup id db.client_allocations ≡ some a
      → locked_override db passed ≡ ok override
      → lookup attempt.survey_id db.surveys ≡ some survey
      → reservation_gates db now attempt a override survey ≡ ok tt
      → commercial_of db a.vendor_id ≡ some commercial
      → profile_of db a.vendor_id ≡ some profile
      → Passed db now attempt passed given t
  unfolding checked_terms
  all_found id a override survey commercial profile chosen row locked survey_row gates c p =
      record {
        id = id;
        a = a;
        override = override;
        survey = survey;
        commercial = commercial;
        profile = profile;
        chosen = chosen;
        row = row;
        locked = locked;
        survey_row = survey_row;
        eligible = gates-Eligible db now attempt a override survey commercial c gates;
        profile_row = p;
        terms = cc (rw (chosen, row, locked, survey_row, gates, p, c, checked_terms) at e);
      }

  after_rows :
      (id : ℕ) (a : ClientAllocation) (override : Option (ℕ × SurveyAllocation)) (survey : Survey)
      → chosen_allocation passed given ≡ some id
      → lookup id db.client_allocations ≡ some a
      → locked_override db passed ≡ ok override
      → lookup attempt.survey_id db.surveys ≡ some survey
      → Passed db now attempt passed given t
  unfolding checked_terms
  after_rows id a override survey chosen row locked survey_row =
      elim (Result-cases (reservation_gates db now attempt a override survey)) [
        | inr (raised, g) ↦ cc (rw (chosen, row, locked, survey_row, g, checked_terms) at e)
        | inl (_, g) ↦ elim (Option-cases (profile_of db a.vendor_id)) [
          | inl bare ↦ cc (rw (chosen, row, locked, survey_row, g, bare, checked_terms) at e)
          | inr (profile, p) ↦
              let (commercial, c) = gates_commercial db now attempt a override survey g in
              all_found id a override survey commercial profile chosen row locked survey_row g c p
        ]
      ]

  checked_terms-Passed : Passed db now attempt passed given t
  unfolding checked_terms
  checked_terms-Passed = elim (Option-cases (chosen_allocation passed given)) [
    | inl nothing ↦ cc (rw (nothing, checked_terms) at e)
    | inr (id, chosen) ↦ elim (Option-cases (lookup id db.client_allocations)) [
      | inl gone ↦ cc (rw (chosen, gone, checked_terms) at e)
      | inr (a, row) ↦ elim (Result-cases (locked_override db passed)) [
        | inr (raised, l) ↦ cc (rw (chosen, row, l, checked_terms) at e)
        | inl (override, locked) ↦ elim (Option-cases (lookup attempt.survey_id db.surveys)) [
          | inl missing ↦ cc (rw (chosen, row, locked, missing, checked_terms) at e)
          | inr (survey, survey_row) ↦ after_rows id a override survey chosen row locked survey_row
        ]
      ]
    ]
  ]

module _ (key now ttl attempt_id : ℕ) (passed : Option (ℕ × SurveyAllocation))
    (given expires_at : Option ℕ) (db : Db) {attempt : Attempt}
    (row : lookup attempt_id db.attempts ≡ some attempt)
    (fresh : reservation_of db.reservations attempt_id ≡ none) where
  -- The tables after a reservation on the terms `t`.
  abbrev pub reserved_db : Terms → Db
  reserved_db t = record db {
    attempts = update attempt_id (freeze t) db.attempts;
    reservations = create key (new_reservation attempt_id now ttl t expires_at) db.reservations;
  }

  reserve_passed :
      (t : Terms)
      → checked_terms db now attempt passed given ≡ ok t
      → reserve_attempt_capacity key now ttl attempt_id passed given expires_at db
        ≡ (ok (key, new_reservation attempt_id now ttl t expires_at), reserved_db t)
  unfolding reserve_attempt_capacity
  reserve_passed t e = rw (row, fresh, e, reserve_attempt_capacity)

  -- An attempt that has no reservation yet gets one where the rows that the call names exist and pass
  -- every check on supplier, client, survey, dates and remaining quantity: one reserved unit on the
  -- frozen terms, which then stand on the attempt; no other table changes.
  pub reserve_passes :
      (t : Terms)
      → Passed db now attempt passed given t
      → reserve_attempt_capacity key now ttl attempt_id passed given expires_at db
        ≡ (ok (key, new_reservation attempt_id now ttl t expires_at), reserved_db t)
  reserve_passes t p = reserve_passed t (Passed-checked_terms db now attempt passed given t p)

  -- An attempt that has no reservation yet gets one only where the rows that the call names exist and
  -- pass every check; the tables are then those of that reservation.
  pub reserve_needs :
      (r : Row) (db' : Db)
      → reserve_attempt_capacity key now ttl attempt_id passed given expires_at db ≡ (ok r, db')
      → (t : Terms) × Passed db now attempt passed given t × (db' ≡ reserved_db t)
  unfolding reserve_attempt_capacity
  reserve_needs r db' h = elim (Result-cases (checked_terms db now attempt passed given)) [
    | inl (t, e) ↦
        (t, checked_terms-Passed db now attempt passed given t e, cc (sym (reserve_passed t e) ∙ h))
    | inr (raised, e) ↦ cc (rw (row, fresh, e, reserve_attempt_capacity) at h)
  ]

  reserved_again :
      (t : Terms) (key' now' ttl' : ℕ) (passed' : Option (ℕ × SurveyAllocation))
      (given' expires_at' : Option ℕ)
      → reserve_attempt_capacity key' now' ttl' attempt_id passed' given' expires_at'
          (reserved_db t)
        ≡ (ok (key, new_reservation attempt_id now ttl t expires_at), reserved_db t)
  unfolding reserve_attempt_capacity new_reservation
  reserved_again t key' now' ttl' passed' given' expires_at' =
      let attempt_row : lookup attempt_id (reserved_db t).attempts ≡ some (freeze t attempt) =
        rw (lookup-update, row, ==_refl attempt_id) in
      let r = new_reservation attempt_id now ttl t expires_at in
      let reservation_row : reservation_of (reserved_db t).reservations attempt_id ≡ some (key, r) =
        rw (reservation_of-create attempt_id key r db.reservations, fresh, ==_refl attempt_id) in
      rw (attempt_row, reservation_row, reserve_attempt_capacity)

-- Once an attempt is reserved, another call for it, at any time and with any arguments, gives the
-- same reservation back and changes nothing.
pub reserve_once :
    (key now ttl attempt_id : ℕ) (passed : Option (ℕ × SurveyAllocation))
    (given expires_at : Option ℕ) (key' now' ttl' : ℕ) (passed' : Option (ℕ × SurveyAllocation))
    (given' expires_at' : Option ℕ) (db db' : Db) (r : Row)
    → reserve_attempt_capacity key now ttl attempt_id passed given expires_at db ≡ (ok r, db')
    → reserve_attempt_capacity key' now' ttl' attempt_id passed' given' expires_at' db'
      ≡ (ok r, db')
unfolding reserve_attempt_capacity
reserve_once key now ttl a passed given ex key' now' ttl' passed' given' ex' db db' r h =
    elim (Option-cases (lookup a db.attempts)) [
      | inl gone ↦ cc (rw (gone, reserve_attempt_capacity) at h)
      | inr (attempt, row) ↦ elim (Option-cases (reservation_of db.reservations a)) [
        | inr (old, has) ↦ ground (arith, row, has)
        | inl fresh ↦ elim (Result-cases (checked_terms db now attempt passed given)) [
          | inr (raised, e) ↦ cc (rw (row, fresh, e, reserve_attempt_capacity) at h)
          | inl (t, e) ↦
              let done = sym (reserve_passed key now ttl a passed given ex db row fresh t e) ∙ h in
              let same_row : (key, new_reservation a now ttl t ex) ≡ r = cc done in
              let same_db : reserved_db key now ttl a passed given ex db row fresh t ≡ db' =
                cc done in
              rw (← same_row, ← same_db)
                (reserved_again key now ttl a passed given ex db row fresh t key' now' ttl' passed'
                  given' ex')
        ]
      ]
    ]

-- ===== src/Vendors/Reservation/Frozen.antt =====
-- What a reservation of vendors/services.py `reserve_attempt_capacity` writes, column by column, and
-- whose cut it takes.
use quant_tool.Base.{
  ℕ, ◌+◌, ◌*◌, ◌≡◌, refl, ap, sym, subst, ◌∙◌, arith, Bool, true, false, Option, none, some, inl,
  inr, Option-cases, or_default,
}
use quant_tool.Base.Int.{ℤ, pos}
use quant_tool.Base.Result.{ok}
use quant_tool.Base.Table.{lookup, update, create}
use quant_tool.Money.{payable_cpi}
use quant_tool.Vendors.Models.{
  AccountType, employee, internal_vendor, external_vendor, Commercial, ClientAllocation,
  SurveyAllocation, Attempt, reserved, no_reason, Reservation, Db, client_cut, survey_cut,
}
use quant_tool.Vendors.Context.{commercial_of}
use quant_tool.Vendors.Reservation.{
  reservation_of, Terms, reservation_cut, freeze, new_reservation, reserve_attempt_capacity,
}
use quant_tool.Vendors.Reservation.Reserve.{Passed, reserved_db, reserve_passes}

-- The percentage that a client's allocation takes: its own, or else the default of its supplier.
pub data Takes (db : Db) (a : ClientAllocation) : ℤ → Type 0 where
  own : {cut : ℤ} → a.cpi_cut_override_percent ≡ some cut → Takes db a cut
  by_default :
      (c : Commercial)
      → a.cpi_cut_override_percent ≡ none
      → commercial_of db a.vendor_id ≡ some c
      → Takes db a c.default_cpi_cut_percent
  unpriced :
      a.cpi_cut_override_percent ≡ none → commercial_of db a.vendor_id ≡ none → Takes db a (pos 0)

abbrev pub is_internal : AccountType → Bool
is_internal employee = false
is_internal internal_vendor = true
is_internal external_vendor = false

-- The cut of a reservation: none from an internal supplier; from the others, where there is a
-- project's allocation, its own percentage or else that of the client's allocation which it names, and
-- where there is not, that of the client's allocation.
pub data IsCut (db : Db) (kind : AccountType) (override : Option (ℕ × SurveyAllocation))
    (a : ClientAllocation) : ℤ → Type 0 where
  internal : is_internal kind ≡ true → IsCut db kind override a (pos 0)
  of_client :
      {cut : ℤ}
      → is_internal kind ≡ false
      → override ≡ none
      → Takes db a cut
      → IsCut db kind override a cut
  of_project :
      {cut : ℤ} (k : ℕ) (p : SurveyAllocation)
      → is_internal kind ≡ false
      → override ≡ some (k, p)
      → p.cpi_cut_override_percent ≡ some cut
      → IsCut db kind override a cut
  of_named :
      {cut : ℤ} (k : ℕ) (p : SurveyAllocation) (b : ClientAllocation)
      → is_internal kind ≡ false
      → override ≡ some (k, p)
      → p.cpi_cut_override_percent ≡ none
      → lookup p.client_allocation_id db.client_allocations ≡ some b
      → Takes db b cut
      → IsCut db kind override a cut
  of_unnamed :
      {cut : ℤ} (k : ℕ) (p : SurveyAllocation)
      → is_internal kind ≡ false
      → override ≡ some (k, p)
      → p.cpi_cut_override_percent ≡ none
      → lookup p.client_allocation_id db.client_allocations ≡ none
      → Takes db a cut
      → IsCut db kind override a cut

pub client_cut-Takes :
    (db : Db) (a : ClientAllocation) → Takes db a (client_cut a (commercial_of db a.vendor_id))
unfolding client_cut
client_cut-Takes db a =
    let from : (cut : ℤ)
        → client_cut a (commercial_of db a.vendor_id) ≡ cut
        → Takes db a cut
        → Takes db a (client_cut a (commercial_of db a.vendor_id)) =
      λ cut e takes. subst (Takes db a) (sym e) takes in
    elim (Option-cases a.cpi_cut_override_percent) [
      | inr (cut, its_own) ↦ from cut (ground (arith, its_own)) (own its_own)
      | inl unset ↦ elim (Option-cases (commercial_of db a.vendor_id)) [
        | inl bare ↦ from (pos 0) (ground (arith, unset, bare)) (unpriced unset bare)
        | inr (c, found) ↦
            from c.default_cpi_cut_percent (ground (arith, unset, found)) (by_default c unset found)
      ]
    ]

abbrev override_cut : Db → SurveyAllocation → ClientAllocation → ℤ
override_cut db p a = elim (lookup p.client_allocation_id db.client_allocations) [
  | none ↦ survey_cut p a (commercial_of db a.vendor_id)
  | some b ↦ survey_cut p b (commercial_of db b.vendor_id)
]

override_cut-IsCut :
    (db : Db) (kind : AccountType) (k : ℕ) (p : SurveyAllocation) (a : ClientAllocation)
    → is_internal kind ≡ false
    → IsCut db kind (some (k, p)) a (override_cut db p a)
unfolding survey_cut
override_cut-IsCut db kind k p a plain =
    let from : (cut : ℤ)
        → override_cut db p a ≡ cut
        → IsCut db kind (some (k, p)) a cut
        → IsCut db kind (some (k, p)) a (override_cut db p a) =
      λ cut e is_cut. subst (IsCut db kind (some (k, p)) a) (sym e) is_cut in
    elim (Option-cases p.cpi_cut_override_percent) [
      | inr (cut, its_own) ↦
          elim (Option-cases (lookup p.client_allocation_id db.client_allocations)) [
            | inl gone ↦
                from cut (ground (arith, gone, its_own)) (of_project k p plain refl its_own)
            | inr (b, found) ↦
                from cut (ground (arith, found, its_own)) (of_project k p plain refl its_own)
          ]
      | inl unset ↦ elim (Option-cases (lookup p.client_allocation_id db.client_allocations)) [
        | inl gone ↦
            from (client_cut a (commercial_of db a.vendor_id)) (ground (arith, gone, unset))
              (of_unnamed k p plain refl unset gone (client_cut-Takes db a))
        | inr (b, found) ↦
            from (client_cut b (commercial_of db b.vendor_id)) (ground (arith, found, unset))
              (of_named k p b plain refl unset found (client_cut-Takes db b))
      ]
    ]

reservation_cut-IsCut :
    (db : Db) (kind : AccountType) (override : Option (ℕ × SurveyAllocation)) (a : ClientAllocation)
    → IsCut db kind override a (reservation_cut db kind override a (commercial_of db a.vendor_id))
unfolding reservation_cut
reservation_cut-IsCut db internal_vendor override a = internal refl
reservation_cut-IsCut db employee none a = of_client refl refl (client_cut-Takes db a)
reservation_cut-IsCut db external_vendor none a = of_client refl refl (client_cut-Takes db a)
reservation_cut-IsCut db employee (some (k, p)) a = override_cut-IsCut db employee k p a refl
reservation_cut-IsCut db external_vendor (some (k, p)) a =
    override_cut-IsCut db external_vendor k p a refl

-- An attempt that has no reservation yet gets one where the rows that the call names exist and pass
-- every check on supplier, client, survey, dates and remaining quantity: one reserved unit with no
-- final time or reason, until the given time or the configured number of minutes from now. Supplier,
-- client, allocations, the survey's CPI, the cut, the CPI less the cut and the currency then stand on
-- the attempt. The cut is 0 for an internal supplier, and otherwise the first percentage that is set
-- of the project's allocation, the client's and the supplier's default. No other table changes.
pub reserve_freezes :
    (key now ttl attempt_id : ℕ) (passed : Option (ℕ × SurveyAllocation))
    (given expires_at : Option ℕ) (db : Db) (attempt : Attempt) (t : Terms)
    → lookup attempt_id db.attempts ≡ some attempt
    → reservation_of db.reservations attempt_id ≡ none
    → (p : Passed db now attempt passed given t)
    → let survey_allocation_id : Option ℕ = elim p.override [ none ↦ none | some o ↦ some o.0 ] in
      let r : Reservation = record {
        attempt_id = attempt_id;
        client_allocation_id = p.id;
        survey_allocation_id = survey_allocation_id;
        quantity = 1;
        status = reserved;
        expires_at = or_default expires_at (now + ttl * 60000000);
        finalized_at = none;
        reason = no_reason;
      } in
      (cut : ℤ) × IsCut db p.profile.account_type p.override p.a cut
      × (reserve_attempt_capacity key now ttl attempt_id passed given expires_at db ≡ (
        ok (key, r),
        record db {
          attempts =
              update attempt_id
                (λ x. record x {
                  vendor_id = some p.a.vendor_id;
                  client_id = some p.a.client_id;
                  client_allocation_id = some p.id;
                  survey_allocation_id = survey_allocation_id;
                  source_cpi_snapshot = p.survey.cpi;
                  cpi_snapshot_source = "captured";
                  cpi_cut_percent_snapshot = some cut;
                  payable_cpi_snapshot = payable_cpi p.survey.cpi cut;
                  cpi_currency_snapshot = p.commercial.currency;
                })
                db.attempts;
          reservations = create key r db.reservations;
        },
      ))
unfolding freeze new_reservation
reserve_freezes key now ttl attempt_id passed given expires_at db attempt t row fresh p =
    let kind = p.profile.account_type in
    (
      reservation_cut db kind p.override p.a (some p.commercial),
      rw (← p.eligible.commercial_row) (reservation_cut-IsCut db kind p.override p.a),
      reserve_passes key now ttl attempt_id passed given expires_at db row fresh t p
          ∙ ap
              (λ u. (
                ok (key, new_reservation attempt_id now ttl u expires_at),
                reserved_db key now ttl attempt_id passed given expires_at db row fresh u,
              ))
              p.terms,
    )

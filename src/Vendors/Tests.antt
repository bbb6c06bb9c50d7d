-- ===== src/Vendors/Tests.antt =====
-- One supplier, one client and one survey: a reservation, its end, and the rules of two units.
use quant_tool.Base.{◌+◌, ◌*◌, ◌≡◌, refl, true, false, none, some, List, [], ◌∷◌, arith}
use quant_tool.Base.Int.{ℤ, pos}
use quant_tool.Base.Result.{ok}
use quant_tool.Base.Table.{Table, lookup, update, create}
use quant_tool.Money.{payable_cpi}
use quant_tool.Vendors.Models.{
  employee, internal_vendor, external_vendor, User, Survey, OrganizationUnit, Rule,
  ClientAllocation, initiated, completed, Attempt, reserved, consumed, no_reason, completed_survey,
  Reservation, Db,
}
use quant_tool.Vendors.Reservation.Frozen.{IsCut, reserve_freezes}
use quant_tool.Vendors.Policy.{
  Policy, cpi_in_range, is_active_now, organization_client_policies, put, policy_of, apply_rules,
}
use quant_tool.Vendors.Scope.{Owns, IsSupplier, vendor_scope-Owns, vendor_scope_user_id}
use quant_tool.Vendors.Context.{
  VendorSurveyContext, supplier_context, resolve_vendor_survey_context, policies_for_user,
  organization_gate, cut_for,
}
use quant_tool.Vendors.Reservation.{
  Row, Terms, reserve_attempt_capacity, reservation_cut, new_reservation,
}
use quant_tool.Vendors.Reservation.Lifecycle.{
  Call, reserve, finalize, expire, run_all, IsWellFormed, run_all-IsWellFormed, ended_stays,
}
use quant_tool.Vendors.Context.Allowed.{IsAllowed, context-IsAllowed}
use quant_tool.Vendors.Policy.Ancestors.{self, parent, inactive_unit_blocks}
use quant_tool.Vendors.Reservation.Reserve.{
  Passed, reserved_db, reserve_passes, reserve_needs, reserve_once,
}

abbrev supplier : User
supplier = record {
  is_active = true;
  employee_profile =
      some
        (record { account_type = external_vendor; organization_unit_id = none; created_by = none });
  vendor_commercial_profile =
      some (record { default_cpi_cut_percent = pos 2000; currency = "USD"; is_active = true });
}

abbrev grant : ClientAllocation
grant = record {
  vendor_id = 10;
  client_id = 5;
  cpi_cut_override_percent = none;
  min_cpi = some (pos 100);
  max_cpi = none;
  starts_at = some 1000;
  ends_at = none;
  is_active = true;
}

abbrev survey : Survey
survey = record { client_id = some 5; remaining = 3; cpi = some (pos 250) }

abbrev attempt : Attempt
attempt = record {
  survey_id = 7;
  status = initiated;
  vendor_id = none;
  client_id = none;
  client_allocation_id = none;
  survey_allocation_id = none;
  source_cpi_snapshot = none;
  cpi_snapshot_source = "";
  cpi_cut_percent_snapshot = none;
  payable_cpi_snapshot = none;
  cpi_currency_snapshot = "";
}

abbrev db : Db
db = record {
  users = (10, supplier) ∷ [];
  clients = (5, record { is_active = true }) ∷ [];
  units = [];
  rules = [];
  surveys = (7, survey) ∷ [];
  client_allocations = (20, grant) ∷ [];
  survey_allocations = [];
  attempts = (30, attempt) ∷ [];
  reservations = [];
}

abbrev terms : Terms
terms = record {
  vendor_id = 10;
  client_id = 5;
  client_allocation_id = 20;
  survey_allocation_id = none;
  source_cpi = some (pos 250);
  cut = pos 2000;
  currency = "USD";
}

abbrev row : Row
row = (40, new_reservation 30 2000 30 terms none)

passed : Passed db 2000 attempt none (some 20) terms
unfolding reservation_cut is_active_now
passed = record {
  id = 20;
  a = grant;
  override = none;
  survey = survey;
  commercial = record { default_cpi_cut_percent = pos 2000; currency = "USD"; is_active = true };
  profile = record {
    account_type = external_vendor;
    organization_unit_id = none;
    created_by = none;
  };
  chosen = refl;
  row = refl;
  locked = refl;
  survey_row = refl;
  eligible = record {
    vendor_active = refl;
    client_is_active = refl;
    commercial_row = refl;
    commercial_usable = refl;
    survey_matches = tt;
    client_matches = refl;
    open_now = refl;
    override_open = refl;
    capacity = omega arith;
  };
  profile_row = refl;
  terms = refl;
}

-- The price that is frozen: 2.50 less 20 percent.
frozen_price : payable_cpi terms.source_cpi terms.cut ≡ some (pos 200)
unfolding payable_cpi
frozen_price = refl

reserves_row :
    reserve_attempt_capacity 40 2000 30 30 none (some 20) none db
    ≡ (ok row, reserved_db 40 2000 30 30 none (some 20) none db refl refl terms)
reserves_row = reserve_passes 40 2000 30 30 none (some 20) none db refl refl terms passed

abbrev new_row : Reservation
new_row = record {
  attempt_id = 30;
  client_allocation_id = 20;
  survey_allocation_id = none;
  quantity = 1;
  status = reserved;
  expires_at = 2000 + 30 * 60000000;
  finalized_at = none;
  reason = no_reason;
}

abbrev frozen_attempt : ℤ → Attempt → Attempt
frozen_attempt cut x = record x {
  vendor_id = some 10;
  client_id = some 5;
  client_allocation_id = some 20;
  survey_allocation_id = none;
  source_cpi_snapshot = some (pos 250);
  cpi_snapshot_source = "captured";
  cpi_cut_percent_snapshot = some cut;
  payable_cpi_snapshot = payable_cpi (some (pos 250)) cut;
  cpi_currency_snapshot = "USD";
}

reserve_freezes_example :
    (cut : ℤ) × IsCut db external_vendor none grant cut
    × (reserve_attempt_capacity 40 2000 30 30 none (some 20) none db ≡ (
      ok (40, new_row),
      record db {
        attempts = update 30 (frozen_attempt cut) db.attempts;
        reservations = create 40 new_row db.reservations;
      },
    ))
unfolding passed
reserve_freezes_example =
    reserve_freezes 40 2000 30 30 none (some 20) none db attempt terms refl refl passed

abbrev after_reserve : Db
after_reserve = reserved_db 40 2000 30 30 none (some 20) none db refl refl terms

reserve_needs_example :
    (t : Terms) × Passed db 2000 attempt none (some 20) t
    × (after_reserve ≡ reserved_db 40 2000 30 30 none (some 20) none db refl refl t)
reserve_needs_example =
    reserve_needs 40 2000 30 30 none (some 20) none db refl refl row after_reserve reserves_row

reserve_once_example :
    reserve_attempt_capacity 41 3000 30 30 none none none after_reserve ≡ (ok row, after_reserve)
reserve_once_example =
    reserve_once 40 2000 30 30 none (some 20) none 41 3000 30 none none none db after_reserve row
      reserves_row

abbrev calls : List Call
calls = reserve 40 2000 30 30 none (some 20) none ∷ finalize 5000 30 completed ∷ expire 9000 40 ∷ []

run_all-IsWellFormed_example : IsWellFormed (run_all calls db).reservations
run_all-IsWellFormed_example = run_all-IsWellFormed calls db (refl, (tt, (tt, tt))) tt

-- A reservation that a completed attempt has consumed.
abbrev used : Reservation
used = record {
  attempt_id = 30;
  client_allocation_id = 20;
  survey_allocation_id = none;
  quantity = 1;
  status = consumed;
  expires_at = 8000;
  finalized_at = some 5000;
  reason = completed_survey;
}

abbrev after_use : Db
after_use = record db { reservations = (40, used) ∷ [] }

used_table : IsWellFormed after_use.reservations
used_table = (record { one_unit = refl; ended = λ h. refl; open_until = λ h. cc h }, refl, refl, tt)

ended_stays_example :
    lookup 40 (run_all (finalize 6000 30 initiated ∷ expire 9000 40 ∷ []) after_use).reservations
    ≡ some used
ended_stays_example =
    ended_stays (finalize 6000 30 initiated ∷ expire 9000 40 ∷ []) after_use 40 used (tt, (tt, tt))
      used_table refl refl

abbrev unused : Reservation
unused = record used { status = reserved; finalized_at = none; reason = no_reason }

abbrev open_db : Db
open_db = record db { reservations = (40, unused) ∷ [] }

unused_table : IsWellFormed open_db.reservations
unused_table =
    (record { one_unit = refl; ended = λ h. cc h; open_until = λ h. refl }, refl, refl, tt)

abbrev context : VendorSurveyContext
context = record {
  vendor_id = 10;
  client_allocation = (20, grant);
  survey_allocation = none;
  cpi_cut_percent = pos 2000;
  payable_cpi = some (pos 200);
}

resolve_run : resolve_vendor_survey_context db 2000 10 7 survey true ≡ ok (some context)
unfolding resolve_vendor_survey_context supplier_context cpi_in_range is_active_now cut_for
    payable_cpi policies_for_user organization_gate vendor_scope_user_id
resolve_run = refl

context-IsAllowed_example : IsAllowed db 2000 10 7 survey true context
context-IsAllowed_example =
    context-IsAllowed db 2000 10 7 survey true context (refl, tt) tt resolve_run

vendor_scope-Owns_example : Owns db 10 10 × IsSupplier db 10
unfolding vendor_scope_user_id
vendor_scope-Owns_example = vendor_scope-Owns db 10 10 refl

-- A branch 1 with an active rule up to 3.00, and its shift 2 that inherits the range; the employee 11
-- of the shift belongs to the internal supplier 12.
abbrev branch_rule : Rule
branch_rule = record {
  organization_unit_id = 1;
  client_id = 5;
  is_active = true;
  min_cpi = none;
  max_cpi = some (pos 300);
  inherit_cpi_range = true;
}

abbrev shift_rule : Rule
shift_rule = record branch_rule { organization_unit_id = 2; max_cpi = some (pos 900) }

abbrev inner_db : Db
inner_db = record db {
  users =
      (
        11,
        record {
          is_active = true;
          employee_profile = some (record {
            account_type = employee;
            organization_unit_id = some 2;
            created_by = some 12;
          });
          vendor_commercial_profile = none;
        },
      )
      ∷ (
        12,
        record {
          is_active = true;
          employee_profile = some (record {
            account_type = internal_vendor;
            organization_unit_id = none;
            created_by = none;
          });
          vendor_commercial_profile =
              some (record { default_cpi_cut_percent = pos 0; currency = "USD"; is_active = true });
        },
      )
      ∷ [];
  units =
      (1, record { workspace_owner = 12; is_active = true; parent = none })
      ∷ (2, record { workspace_owner = 12; is_active = true; parent = some 1 })
      ∷ [];
  rules = branch_rule ∷ shift_rule ∷ [];
  client_allocations = (21, record grant { vendor_id = 12 }) ∷ [];
}

abbrev inner_context : VendorSurveyContext
inner_context = record {
  vendor_id = 12;
  client_allocation = (21, record grant { vendor_id = 12 });
  survey_allocation = none;
  cpi_cut_percent = pos 0;
  payable_cpi = some (pos 250);
}

inner_run : resolve_vendor_survey_context inner_db 2000 11 7 survey true ≡ ok (some inner_context)
unfolding resolve_vendor_survey_context supplier_context cpi_in_range is_active_now cut_for
    payable_cpi policies_for_user organization_gate vendor_scope_user_id put policy_of apply_rules
inner_run = refl

-- The shift keeps the branch's ceiling of 3.00.
abbrev shift_policies : Table Policy
shift_policies =
    (
      5,
      record {
        client_id = 5;
        is_active = true;
        min_cpi = none;
        max_cpi = some (pos 300);
        source_unit_id = 2;
      },
    )
    ∷ []

shift_run : policies_for_user inner_db 11 ≡ some shift_policies
unfolding policies_for_user put policy_of apply_rules
shift_run = refl

abbrev closed_branch : Table OrganizationUnit
closed_branch =
    (1, record { workspace_owner = 12; is_active = false; parent = none })
    ∷ (2, record { workspace_owner = 12; is_active = true; parent = some 1 })
    ∷ []

inactive_unit_blocks_example :
    organization_client_policies closed_branch inner_db.rules (some 2) ≡ some []
inactive_unit_blocks_example =
    inactive_unit_blocks closed_branch inner_db.rules 2 1
      {unit = record { workspace_owner = 12; is_active = false; parent = none }}
      (parent (record { workspace_owner = 12; is_active = true; parent = some 1 }) self refl refl)
      refl refl

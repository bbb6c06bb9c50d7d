-- ===== src/Vendors/Models.antt =====
-- vendors/models.py and the columns of surveys/models.py and accounts/models.py that the supplier
-- services read. A row is a record, a table a list of rows under their primary keys, and a
-- foreign key the key of its row. A date is a number of microseconds; a CPI or a percentage is a
-- whole number of hundredths (Money).
use quant_tool.Base.{ℕ, String, Bool, Option, none, some, List}
use quant_tool.Base.Int.{ℤ, pos}
use quant_tool.Base.Table.{Table}

-- `EmployeeProfile.AccountType`
pub data AccountType : Type 0 where
  employee internal_vendor external_vendor : AccountType

-- `VendorCommercialProfile`
pub record Commercial : Type 0 where
  pub default_cpi_cut_percent : ℤ
  pub currency : String
  pub is_active : Bool

-- `EmployeeProfile`, as far as supplier scopes read it.
pub record Profile : Type 0 where
  pub account_type : AccountType
  pub organization_unit_id : Option ℕ
  pub created_by : Option ℕ

-- A user with its one-to-one `employee_profile` and `vendor_commercial_profile`.
pub record User : Type 0 where
  pub is_active : Bool
  pub employee_profile : Option Profile
  pub vendor_commercial_profile : Option Commercial

pub record OrganizationUnit : Type 0 where
  pub workspace_owner : ℕ
  pub is_active : Bool
  pub parent : Option ℕ

-- `OrganizationClientAccess`
pub record Rule : Type 0 where
  pub organization_unit_id : ℕ
  pub client_id : ℕ
  pub is_active : Bool
  pub min_cpi : Option ℤ
  pub max_cpi : Option ℤ
  pub inherit_cpi_range : Bool

pub record Client : Type 0 where
  pub is_active : Bool

pub record Survey : Type 0 where
  pub client_id : Option ℕ
  pub remaining : ℕ
  pub cpi : Option ℤ

-- `VendorClientAllocation`, less the legacy quantity columns.
pub record ClientAllocation : Type 0 where
  pub vendor_id : ℕ
  pub client_id : ℕ
  pub cpi_cut_override_percent : Option ℤ
  pub min_cpi : Option ℤ
  pub max_cpi : Option ℤ
  pub starts_at : Option ℕ
  pub ends_at : Option ℕ
  pub is_active : Bool

-- `VendorSurveyAllocation`, less the legacy quantity columns.
pub record SurveyAllocation : Type 0 where
  pub client_allocation_id : ℕ
  pub survey_id : ℕ
  pub cpi_cut_override_percent : Option ℤ
  pub starts_at : Option ℕ
  pub ends_at : Option ℕ
  pub is_active : Bool

-- `SurveyAttempt.Status`
pub data AttemptStatus : Type 0 where
  initiated redirected completed terminated over_quota quality_terminated : AttemptStatus
  survey_not_available no_surveys no_cookies max_surveys_reached not_qualified : AttemptStatus
  survey_taken : AttemptStatus

-- The commercial columns of `SurveyAttempt`.
pub record Attempt : Type 0 where
  pub survey_id : ℕ
  pub status : AttemptStatus
  pub vendor_id : Option ℕ
  pub client_id : Option ℕ
  pub client_allocation_id : Option ℕ
  pub survey_allocation_id : Option ℕ
  pub source_cpi_snapshot : Option ℤ
  pub cpi_snapshot_source : String
  pub cpi_cut_percent_snapshot : Option ℤ
  pub payable_cpi_snapshot : Option ℤ
  pub cpi_currency_snapshot : String

-- `AllocationReservation.Status`
pub data ReservationStatus : Type 0 where
  reserved consumed released expired : ReservationStatus

-- The texts of `AllocationReservation.reason`.
pub data Reason : Type 0 where
  no_reason completed_survey expired_before_callback : Reason
  released_for : AttemptStatus → Reason

pub record Reservation : Type 0 where
  pub attempt_id : ℕ
  pub client_allocation_id : ℕ
  pub survey_allocation_id : Option ℕ
  pub quantity : ℕ
  pub status : ReservationStatus
  pub expires_at : ℕ
  pub finalized_at : Option ℕ
  pub reason : Reason

-- The tables that the supplier services read and write.
pub record Db : Type 0 where
  pub users : Table User
  pub clients : Table Client
  pub units : Table OrganizationUnit
  pub rules : List Rule
  pub surveys : Table Survey
  pub client_allocations : Table ClientAllocation
  pub survey_allocations : Table SurveyAllocation
  pub attempts : Table Attempt
  pub reservations : Table Reservation

-- `VendorClientAllocation.effective_cpi_cut_percent`, with the commercial profile of its vendor.
unfoldable pub client_cut : ClientAllocation → Option Commercial → ℤ
client_cut a commercial = elim a.cpi_cut_override_percent [
  | some cut ↦ cut
  | none ↦ elim commercial [ some profile ↦ profile.default_cpi_cut_percent | none ↦ pos 0 ]
]

-- `VendorSurveyAllocation.effective_cpi_cut_percent`
unfoldable pub survey_cut : SurveyAllocation → ClientAllocation → Option Commercial → ℤ
unfolding client_cut
survey_cut p a commercial = elim p.cpi_cut_override_percent [
  | some cut ↦ cut
  | none ↦ client_cut a commercial
]

-- ===== src/Vault/Models.antt =====
-- The rows that prescreener_vault/reuse.py reads and writes: prescreener_vault/models.py, and the
-- reuse tables of surveys/models.py. A UID, which is only compared, is a number, and an empty one
-- `none`; a date is a number of microseconds; a percentage a whole number of hundredths.
use quant_tool.Base.{ℕ, String, Bool, Option, List}
use quant_tool.Base.Table.{Table}

-- The reuse policy of a `ClientIntegration`.
pub record Integration : Type 0 where
  pub pk : ℕ
  pub client_code : String
  pub profile_reuse_enabled : Bool
  pub profile_reuse_monthly_percentage : ℕ
  pub profile_reuse_first_delay_minutes : ℕ
  pub profile_reuse_min_interval_minutes : ℕ
  pub profile_reuse_max_uses_per_window : ℕ
  pub profile_reuse_window_minutes : ℕ
  pub profile_reuse_age_groups : List String
  pub profile_reuse_genders : List String

-- `ProfileReuseMonthlyCounter`
pub record Counter : Type 0 where
  pub integration_id : ℕ
  pub period_start : ℕ
  pub baseline_attempts : ℕ
  pub target_reuses : ℕ
  pub allocated_reuses : ℕ
  pub first_reuse_allocated : ℕ
  pub repeat_reuse_allocated : ℕ

-- `PrescreenerSubmission`, under its UID. `dimensions` are the values that
-- `_candidate_dimensions` returns for it.
pub record Submission : Type 0 where
  pub rid : String
  pub source_client_code : String
  pub country_code : String
  pub respondent_gender : String
  pub respondent_age : Option ℕ
  pub respondent_age_group : String
  pub respondent_postal_code : String
  pub respondent_ethnicity : String
  pub dimensions : List (String × List String)
  pub submitted_at : ℕ
  pub last_reused_at : Option ℕ
  pub usage_count : ℕ

-- The columns of `SurveyAttempt` that hold UIDs.
pub record Attempt : Type 0 where
  pub survey_id : ℕ
  pub prescreener_uid : Option ℕ
  pub provider_profile_uid : Option ℕ

-- `ProfileReuseProjectUsage`
pub record Usage : Type 0 where
  pub integration_id : ℕ
  pub survey_id : ℕ
  pub reused_uid : ℕ
  pub first_attempt_id : ℕ

pub data Pool : Type 0 where
  first returning : Pool

-- `ProfileReuseEvent`
pub record Event : Type 0 where
  pub integration_id : ℕ
  pub survey_id : ℕ
  pub attempt_id : ℕ
  pub registered_uid : Option ℕ
  pub reused_rid : String
  pub reused_uid : ℕ
  pub source_registered_at : ℕ
  pub source_usage_number : ℕ
  pub reuse_pool : Pool
  pub country_code : String
  pub age_group : String
  pub gender : String
  pub created_at : ℕ

-- `ProfileReuseState`
pub record State : Type 0 where
  pub integration_id : ℕ
  pub reused_uid : ℕ
  pub last_reused_at : Option ℕ
  pub total_reuses : ℕ

-- `_profile_signature`
pub record Signature : Type 0 where
  pub country_code : String
  pub language_code : String
  pub age : Option ℕ
  pub age_group : String
  pub gender : String
  pub dimensions : List (String × List String)

pub record Db : Type 0 where
  pub counters : Table Counter
  pub submissions : Table Submission
  pub attempts : Table Attempt
  pub usages : List Usage
  pub events : List Event
  pub states : List State

-- ===== src/Toluna.antt =====
-- The notifications that Toluna sends (surveys/toluna_notifications.py): the tables that they touch,
-- the checks of a payload, and the surveys and attempts that it names. A payload is the fields that
-- the code reads, each as its reader (`_integer`, `_text`, `_boolean`, `_provider_datetime`) gives it.
-- Times are microseconds.
pub mod Events
pub mod Ingest
pub mod Newest
pub mod Kept
pub mod Once
pub mod Settled
pub mod Webhook
pub mod Replay
mod Tests
use quant_tool.Base.{
  ℕ, String, str_eq, Bool, true, false, not, ◌&&◌, ◌||◌, Option, none, some, List, [], ◌∷◌, leb,
  ◌==◌, is_some, is_none, same_option, if◌then◌else◌,
}
use quant_tool.Base.Table.{Table, lookup}
use quant_tool.Base.Lists.{select, find}
use quant_tool.Base.Result.{Result, ok, err}
use quant_tool.Vendors.Models
use quant_tool.Inventory.{Status}
use quant_tool.Journey.{Attempt}

-- `TolunaNotification.EventType`
pub data EventType : Type 0 where
  member_complete member_terminate enhanced_termination : EventType
  quota_status survey_closed reconciliation : EventType

-- `reason_key` is the reason without blanks and in lower case, `names_fraud` tells whether the
-- rejection's name holds one of the words fraud, quality, security and threat, `supplied_rid` is
-- what `_rid_from_additional_data` finds; `content` stands for the whole payload.
pub record Payload : Type 0 where
  pub survey_id : Option ℕ
  pub wave_id : Option ℕ
  pub unique_code : String
  pub reason_key : String
  pub names_fraud : Bool
  pub supplied_rid : Option ℕ
  pub quota_id : Option ℕ
  pub is_live : Option Bool
  pub occurred_at : Option ℕ
  pub content : ℕ

-- The text `source_key` is "survey:wave", or the survey's id alone; `raw_survey_id` and `raw_wave_id`
-- are the ids in `raw_data`.
pub record Survey : Type 0 where
  pub is_toluna : Bool
  pub integration : Option ℕ
  pub source_id : Option ℕ
  pub source_key : ℕ × Option ℕ
  pub raw_survey_id : Option ℕ
  pub raw_wave_id : Option ℕ
  pub status : Status
  pub remaining : ℕ

pub data QuotaStatus : Type 0 where
  open_quota full_quota other_status : QuotaStatus

pub record Quota : Type 0 where
  pub survey : ℕ
  pub quota_id : Option ℕ
  pub remaining : ℕ
  pub status : QuotaStatus

-- An attempt with the keys by which a notification finds it.
pub record Respondent : Type 0 where
  pub rid : ℕ
  pub provider_profile_uid : String
  pub prescreener_uid : String
  pub survey : ℕ
  pub attempt : Attempt

pub record Notification : Type 0 where
  pub event_type : EventType
  pub payload_hash : ℕ
  pub integration : Option ℕ
  pub survey : Option ℕ
  pub attempt : Option ℕ
  pub payload : Payload
  pub applied : Bool
  pub duplicate_count : ℕ
  pub received_at : ℕ
  pub last_received_at : ℕ

pub record Db : Type 0 where
  pub surveys : Table Survey
  pub quotas : Table Quota
  pub respondents : Table Respondent
  pub notifications : Table Notification
  pub vendors : Models.Db

-- The messages of `TolunaNotificationError`.
pub data Invalid : Type 0 where
  survey_required wave_required code_required reason_required quota_required live_required : Invalid

abbrev pub is_member_event : EventType → Bool
is_member_event quota_status = false
is_member_event survey_closed = false
is_member_event _ = true

abbrev pub is_termination : EventType → Bool
is_termination member_terminate = true
is_termination enhanced_termination = true
is_termination _ = false

abbrev pub is_quota_event : EventType → Bool
is_quota_event quota_status = true
is_quota_event _ = false

-- `_validate_payload`
unfoldable pub validate_payload : EventType → Payload → Result Invalid (Unit {0})
validate_payload event p =
    if is_none p.survey_id
    then err survey_required
    else if is_none p.wave_id
    then err wave_required
    else if is_member_event event && str_eq p.unique_code ""
    then err code_required
    else if is_termination event && str_eq p.reason_key ""
    then err reason_required
    else if is_quota_event event && is_none p.quota_id
    then err quota_required
    else if is_quota_event event && is_none p.is_live
    then err live_required
    else ok tt

-- Whether a survey is the one that the ids name: with a wave the exact key, else any of its waves.
unfoldable pub has_identity : ℕ → Option ℕ → Survey → Bool
has_identity survey_id none s =
    same_option s.source_id (some survey_id) || (s.source_key.0 == survey_id)
has_identity survey_id (some wave) s =
    (s.source_key.0 == survey_id) && same_option s.source_key.1 (some wave)

-- `_toluna_surveys`
unfoldable pub toluna_surveys : Db → Option ℕ → Option ℕ → Table Survey
unfolding has_identity
toluna_surveys db none wave = []
toluna_surveys db (some survey_id) wave =
    select (λ row. row.1.is_toluna && has_identity survey_id wave row.1) db.surveys

-- `_unambiguous_survey`
unfoldable pub unambiguous_survey : Table Survey → Option ℕ
unambiguous_survey [] = none
unambiguous_survey ((k, s) ∷ []) = some k
unambiguous_survey (row ∷ other ∷ rows) = none

-- The attempts on Toluna's surveys, after `_filter_attempts_by_survey_identity`.
unfoldable pub is_candidate : Db → Option ℕ → Option ℕ → ℕ × Respondent → Bool
unfolding has_identity
is_candidate db survey_id wave (k, r) = elim (lookup r.survey db.surveys) [
  | none ↦ false
  | some s ↦ s.is_toluna && elim survey_id [ none ↦ true | some id ↦ has_identity id wave s ]
]

-- `.order_by("-initiated_at").first()`
unfoldable pub latest_initiated : Table Respondent → Option (ℕ × Respondent)
latest_initiated [] = none
latest_initiated (row ∷ rows) = elim (latest_initiated rows) [
  | none ↦ some row
  | some other ↦
      some (if leb other.1.attempt.initiated_at row.1.attempt.initiated_at then row else other)
]

abbrev pub has_rid : Option ℕ → ℕ × Respondent → Bool
has_rid rid row = same_option rid (some row.1.rid)

abbrev pub has_code : String → ℕ × Respondent → Bool
has_code code row =
    not (str_eq code "")
    && (str_eq row.1.provider_profile_uid code || str_eq row.1.prescreener_uid code)

-- The attempt of `_resolve_links`: by the RID, else the latest with the code.
unfoldable pub linked_attempt : Db → Payload → Option (ℕ × Respondent)
unfolding is_candidate latest_initiated
linked_attempt db p =
    let candidates = select (is_candidate db p.survey_id p.wave_id) db.respondents in
    elim (find (has_rid p.supplied_rid) candidates) [
      | some row ↦ some row
      | none ↦ latest_initiated (select (has_code p.unique_code) candidates)
    ]

abbrev pub integration_of : Db → Option ℕ → Option ℕ
integration_of db none = none
integration_of db (some k) = elim (lookup k db.surveys) [ none ↦ none | some s ↦ s.integration ]

-- The keys of the survey, of the attempt and of the integration.
pub record Links : Type 0 where
  pub survey : Option ℕ
  pub attempt : Option ℕ
  pub integration : Option ℕ

-- `_resolve_links`
unfoldable pub resolve_links : Db → Payload → Links
unfolding toluna_surveys unambiguous_survey linked_attempt
resolve_links db p =
    let found = unambiguous_survey (toluna_surveys db p.survey_id p.wave_id) in
    elim (linked_attempt db p) [
      | none ↦ record { survey = found; attempt = none; integration = integration_of db found }
      | some (k, r) ↦ record {
        survey = some r.survey;
        attempt = some k;
        integration = integration_of db (some r.survey);
      }
    ]

-- ===== src/Toluna/Ingest.antt =====
-- The reception of a notification (`ingest_toluna_notification`), and its application under a row
-- lock, at once or later (`_reconcile_notification`). SHA-256 of the canonical JSON is an argument.
pub mod Branches
use quant_tool.Base.{
  ℕ, ◌+◌, String, Bool, true, false, not, ◌&&◌, ◌||◌, Option, none, some, List, [], ◌∷◌, ◌==◌,
  is_none, same_option, if◌then◌else◌,
}
use quant_tool.Base.Table.{Table, lookup, update, create}
use quant_tool.Base.Lists.{find}
use quant_tool.Base.Result.{Result, ok, err}
use quant_tool.Toluna.{
  EventType, member_complete, member_terminate, enhanced_termination, quota_status, survey_closed,
  reconciliation, Payload, Survey, Notification, Db, Invalid, validate_payload, Links,
  integration_of, resolve_links,
}
use quant_tool.Toluna.Events.{apply_operational_event}

-- `_survey_provider_identity`
unfoldable pub survey_provider_identity : Survey → Option ℕ × Option ℕ
survey_provider_identity s = elim s.raw_survey_id [
  | some id ↦ (some id, s.raw_wave_id)
  | none ↦ (some s.source_key.0, if is_none s.raw_wave_id then s.source_key.1 else s.raw_wave_id)
]

-- Whether the survey that a notification has is still the one that its payload names.
unfoldable pub keeps_survey : Db → Notification → Bool
unfolding survey_provider_identity
keeps_survey db n = elim n.survey [
  | none ↦ false
  | some k ↦ elim (lookup k db.surveys) [
    | none ↦ false
    | some s ↦
        let (survey_id, wave_id) = survey_provider_identity s in
        same_option survey_id n.payload.survey_id && same_option wave_id n.payload.wave_id
  ]
]

abbrev pub first_of : Option ℕ → Option ℕ → Option ℕ
first_of none other = other
first_of (some k) other = some k

-- The links that `_reconcile_notification` gives to the locked notification.
unfoldable pub relinked : Db → Notification → Notification
unfolding resolve_links keeps_survey
relinked db n =
    let links = resolve_links db n.payload in
    let survey = if is_none links.survey && keeps_survey db n then n.survey else links.survey in
    record n {
      survey = survey;
      attempt = first_of links.attempt n.attempt;
      integration = first_of links.integration (first_of (integration_of db survey) n.integration);
    }

abbrev pub save_notification : ℕ → Notification → Db → Db
save_notification k n db = record db { notifications = update k (λ old. n) db.notifications }

-- `_reconcile_notification` at the time `now`
unfoldable pub reconcile_notification : ℕ → Bool → ℕ → Db → Db
unfolding relinked apply_operational_event
reconcile_notification now replay_applied k db = elim (lookup k db.notifications) [
  | none ↦ db
  | some locked ↦
      if locked.applied && not replay_applied
      then db
      else let n = relinked db locked in
        let (applied, after) = apply_operational_event now k n db in
        save_notification k (record n { applied = applied }) after
]

-- What is hashed: for a completion its interaction and respondent, else the whole payload.
pub data Identity : Type 0 where
  completion : Option ℕ → Option ℕ → Option ℕ → String → Identity
  whole_payload : Option ℕ → ℕ → Identity

-- `_canonical_payload_hash`, less the hashing
unfoldable pub canonical_identity : EventType → Payload → Option ℕ → Identity
canonical_identity member_complete p integration =
    completion integration p.survey_id p.wave_id p.unique_code
canonical_identity _ p integration = whole_payload integration p.content

abbrev pub event_number : EventType → ℕ
event_number member_complete = 0
event_number member_terminate = 1
event_number enhanced_termination = 2
event_number quota_status = 3
event_number survey_closed = 4
event_number reconciliation = 5

abbrev pub has_hash : EventType → ℕ → ℕ × Notification → Bool
has_hash event hash (k, n) =
    (event_number n.event_type == event_number event) && (n.payload_hash == hash)

-- The row of an earlier delivery, under the hash with the integration or the one without.
unfoldable pub earlier_delivery : EventType → ℕ → ℕ → Db → Option (ℕ × Notification)
earlier_delivery event hash anonymous_hash db = elim (find (has_hash event hash) db.notifications) [
  | some row ↦ some row
  | none ↦ find (has_hash event anonymous_hash) db.notifications
]

abbrev pub counted_again : ℕ → Notification → Notification
counted_again now n = record n { duplicate_count = n.duplicate_count + 1; last_received_at = now }

abbrev pub new_notification : EventType → Payload → Links → ℕ → ℕ → Notification
new_notification event p links hash now = record {
  event_type = event;
  payload_hash = hash;
  integration = links.integration;
  survey = links.survey;
  attempt = links.attempt;
  payload = p;
  applied = false;
  duplicate_count = 0;
  received_at = now;
  last_received_at = now;
}

-- `ingest_toluna_notification` at the time `now`, with the key of a new row: the notification's key
-- and whether it was a duplicate, or why the payload is refused.
unfoldable pub ingest_toluna_notification :
    (Identity → ℕ) → ℕ → ℕ → EventType → Payload → Db → Result Invalid (ℕ × Bool) × Db
unfolding validate_payload resolve_links canonical_identity earlier_delivery reconcile_notification
ingest_toluna_notification sha256 now key event p db = elim (validate_payload event p) [
  | err e ↦ (err e, db)
  | ok _ ↦
      let links = resolve_links db p in
      let hash = sha256 (canonical_identity event p links.integration) in
      elim (earlier_delivery event hash (sha256 (canonical_identity event p none)) db) [
        | some (k, n) ↦ (
          ok (k, true),
          reconcile_notification now false k
              (record db { notifications = update k (counted_again now) db.notifications }),
        )
        | none ↦ (
          ok (key, false),
          reconcile_notification now false key (record db {
            notifications = create key (new_notification event p links hash now) db.notifications;
          }),
        )
      ]
]

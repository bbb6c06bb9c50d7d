-- ===== src/Vault/Commit.antt =====
-- prescreener_vault/reuse.py `_locked_state` and `_commit_reuse`: the last checks of a reuse, under
-- the locks, and its writes. The call runs in a transaction, so that a conflict has written nothing.
-- The two vault tables that can be in another database are not written here.
pub mod Once
use quant_tool.Base.{
  ℕ, ◌+◌, ◌*◌, Bool, true, false, not, ◌&&◌, ◌||◌, Option, none, some, List, [], ◌∷◌, ◌++◌, ltb,
  leb, ◌==◌, if◌then◌else◌, is_some,
}
use quant_tool.Base.Result.{Result, ok, err, ◌>>=◌, ◌>>◌, raise_if, or_raise}
use quant_tool.Base.Table.{Table, lookup, update}
use quant_tool.Base.Lists.{length, any, select, find}
use quant_tool.Vault.Models.{
  Integration, Submission, Attempt, Usage, Event, State, Pool, Signature, Db,
}

-- `ReuseReservationConflict`, by its message, and the exceptions of the database
pub data Conflict : Type 0 where
  already_selected interval_active used_on_project window_reached : Conflict
  duplicate_event does_not_exist : Conflict

-- A nullable column that equals a value.
abbrev pub holds : Option ℕ → ℕ → Bool
holds none uid = false
holds (some u) uid = u == uid

-- `filter(survey_id=...).exclude(pk=...).filter(Q(prescreener_uid=...) | Q(provider_profile_uid=...))`
unfoldable pub is_other_use : ℕ → ℕ → ℕ → ℕ × Attempt → Bool
is_other_use survey_id attempt_id uid (k, a) =
    (a.survey_id == survey_id)
    && not (k == attempt_id)
    && (holds a.prescreener_uid uid || holds a.provider_profile_uid uid)

-- The unique constraint of `ProfileReuseProjectUsage`.
unfoldable pub is_usage : ℕ → ℕ → ℕ → Usage → Bool
is_usage integration_id survey_id uid u =
    (u.integration_id == integration_id) && (u.survey_id == survey_id) && (u.reused_uid == uid)

abbrev pub is_event_of : ℕ → ℕ → Event → Bool
is_event_of integration_id uid e = (e.integration_id == integration_id) && (e.reused_uid == uid)

-- The query of `recent_count`: the UID's events with `created_at >= now - window`.
unfoldable pub recent_events : ℕ → ℕ → ℕ → ℕ → List Event → List Event
recent_events integration_id uid window now =
    select (λ e. is_event_of integration_id uid e && leb now (e.created_at + window))

abbrev pub later : Option ℕ → ℕ → Option ℕ
later none t = some t
later (some u) t = some (if leb t u then u else t)

-- `order_by("-created_at")...first()` over the events' times
unfoldable pub latest_event : List Event → Option ℕ
latest_event [] = none
latest_event (e ∷ es) = later (latest_event es) e.created_at

abbrev pub is_state_of : ℕ → ℕ → State → Bool
is_state_of integration_id uid s = (s.integration_id == integration_id) && (s.reused_uid == uid)

-- `defaults`
abbrev pub first_state : ℕ → ℕ → Option ℕ → ℕ → State
first_state integration_id uid last_reused_at total_reuses = record {
  integration_id = integration_id;
  reused_uid = uid;
  last_reused_at = last_reused_at;
  total_reuses = total_reuses;
}

-- `_locked_state`: the row, and the table, where the row is new if there was none.
unfoldable pub locked_state : ℕ → ℕ → List Event → List State → State × List State
unfolding latest_event
locked_state integration_id uid events states =
    let own = select (is_event_of integration_id uid) events in
    let s = first_state integration_id uid (latest_event own) (length own) in
    elim (find (is_state_of integration_id uid) states) [
      | some s ↦ (s, states)
      | none ↦ (s, states ++ s ∷ [])
    ]

-- `last_reused_at > now - interval`
abbrev pub in_interval : Option ℕ → ℕ → ℕ → Bool
in_interval none interval now = false
in_interval (some u) interval now = ltb now (u + interval)

-- A number of minutes in microseconds.
abbrev pub minutes : ℕ → ℕ
minutes n = n * 60000000

-- The conflicts of `_commit_reuse`, in their order. `OneToOneField` lets an attempt have one event.
unfoldable pub commit_gates :
    ℕ → Integration → ℕ → Attempt → Attempt → ℕ → State → Db → Result Conflict (Unit {0})
commit_gates now integration attempt_id attempt locked uid state db = do
  raise_if (is_some locked.provider_profile_uid) already_selected
  raise_if
      (in_interval state.last_reused_at (minutes integration.profile_reuse_min_interval_minutes)
        now)
      interval_active
  raise_if (any (is_other_use attempt.survey_id attempt_id uid) db.attempts) used_on_project
  raise_if (any (is_usage integration.pk attempt.survey_id uid) db.usages) used_on_project
  raise_if
      (leb integration.profile_reuse_max_uses_per_window (
        length (
          recent_events integration.pk uid (minutes integration.profile_reuse_window_minutes) now
            db.events)))
      window_reached
  raise_if (any (λ e. e.attempt_id == attempt_id) db.events) duplicate_event

abbrev pub assigned : ℕ → Attempt → Attempt
assigned uid a = record a { provider_profile_uid = some uid }

abbrev pub used_state : ℕ → State → State
used_state now s = record s { last_reused_at = some now; total_reuses = s.total_reuses + 1 }

unfoldable pub save_state : ℕ → ℕ → ℕ → List State → List State
save_state now integration_id uid [] = []
save_state now integration_id uid (s ∷ states) =
    (if is_state_of integration_id uid s then used_state now s else s)
    ∷ save_state now integration_id uid states

unfoldable pub new_event : ℕ → Integration → ℕ → Attempt → ℕ → Submission → Signature → Pool → Event
new_event now integration attempt_id attempt uid candidate signature pool = record {
  integration_id = integration.pk;
  survey_id = attempt.survey_id;
  attempt_id = attempt_id;
  registered_uid = attempt.prescreener_uid;
  reused_rid = candidate.rid;
  reused_uid = uid;
  source_registered_at = candidate.submitted_at;
  source_usage_number = candidate.usage_count;
  reuse_pool = pool;
  country_code = signature.country_code;
  age_group = signature.age_group;
  gender = signature.gender;
  created_at = now;
}

unfoldable pub new_usage : Integration → ℕ → Attempt → ℕ → Usage
new_usage integration attempt_id attempt uid = record {
  integration_id = integration.pk;
  survey_id = attempt.survey_id;
  reused_uid = uid;
  first_attempt_id = attempt_id;
}

-- The rows that `_commit_reuse` writes.
unfoldable pub committed : ℕ → Integration → ℕ → Attempt → ℕ → Event → List State → Db → Db
committed now integration attempt_id attempt uid event states db = record db {
  attempts = update attempt_id (assigned uid) db.attempts;
  usages = new_usage integration attempt_id attempt uid ∷ db.usages;
  events = event ∷ db.events;
  states = save_state now integration.pk uid states;
}

-- `_commit_reuse`: `attempt` is the caller's object, and the candidate is a row under its UID. That
-- the UID is set on the caller's object as well is left out.
unfoldable pub commit_reuse :
    ℕ
    → Integration
    → ℕ
    → Attempt
    → ℕ
    → Submission
    → Signature
    → Pool
    → Db
    → Result Conflict Event × Db
commit_reuse now integration attempt_id attempt uid candidate signature pool db =
    let (state, states) = locked_state integration.pk uid db.events db.states in
    let event = new_event now integration attempt_id attempt uid candidate signature pool in
    elim (lookup attempt_id db.attempts) [
      | none ↦ (err does_not_exist, db)
      | some locked ↦ elim (commit_gates now integration attempt_id attempt locked uid state db) [
        | err e ↦ (err e, db)
        | ok _ ↦ (ok event, committed now integration attempt_id attempt uid event states db)
      ]
    ]

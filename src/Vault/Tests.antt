-- ===== src/Vault/Tests.antt =====
-- Test data and runs of the vault's reuse (prescreener_vault/reuse.py).
use quant_tool.Base.{leb, ℕ, ◌*◌, ◌≡◌, refl, true, false, none, some, [], ◌∷◌, arith}
use quant_tool.Base.Result.{ok, err, is_ok}
use quant_tool.Base.Table.{lookup, update}
use quant_tool.Base.Lists.{length, any}
use quant_tool.Vault.Models.{
  Integration, Counter, Submission, Attempt, Event, State, first, returning, Signature, Db,
}
use quant_tool.Vault.Budget.{
  previous_month, target_from_baseline, claim_counter, refreshed, empty_counter,
}
use quant_tool.Vault.Commit.{
  used_on_project, commit_gates, is_other_use, is_usage, locked_state, minutes, recent_events,
  new_event, save_state, committed, commit_reuse,
}
use quant_tool.Vault.Commit.Once.{MayReuse, IsOnce, IsDistinct, HasOneEvent, commit_never_again}
use quant_tool.Vault.Select.{
  matches_all_requirements, taken, reserve_vault_profile, undo_vault_reservation,
}
use quant_tool.Vault.Select.Fair.{reserve-commit, undo-reserve, uses}

-- 90 percent of the last month, 30 minutes between uses, 2 uses in a day.
abbrev acme : Integration
acme = record {
  pk = 1;
  client_code = "acme";
  profile_reuse_enabled = true;
  profile_reuse_monthly_percentage = 9000;
  profile_reuse_first_delay_minutes = 60;
  profile_reuse_min_interval_minutes = 30;
  profile_reuse_max_uses_per_window = 2;
  profile_reuse_window_minutes = 1440;
  profile_reuse_age_groups = "30-34" ∷ [];
  profile_reuse_genders = "female" ∷ [];
}

abbrev profile : Submission
profile = record {
  rid = "R7";
  source_client_code = "acme";
  country_code = "US";
  respondent_gender = "female";
  respondent_age = some 30;
  respondent_age_group = "30-34";
  respondent_postal_code = "";
  respondent_ethnicity = "";
  dimensions = ("gender", "female" ∷ []) ∷ [];
  submitted_at = 0;
  last_reused_at = none;
  usage_count = 2;
}

abbrev answers : Signature
answers = record {
  country_code = "US";
  language_code = "EN";
  age = some 30;
  age_group = "30-34";
  gender = "female";
  dimensions = ("gender", "female" ∷ []) ∷ [];
}

abbrev attempt : Attempt
attempt = record { survey_id = 9; prescreener_uid = some 50; provider_profile_uid = none }

-- Two attempts of one survey, and a use of the UID 7 in another survey an hour ago.
abbrev earlier : Event
earlier = record {
  integration_id = 1;
  survey_id = 8;
  attempt_id = 99;
  registered_uid = none;
  reused_rid = "R7";
  reused_uid = 7;
  source_registered_at = 0;
  source_usage_number = 2;
  reuse_pool = first;
  country_code = "US";
  age_group = "30-34";
  gender = "female";
  created_at = 0;
}

abbrev db : Db
db = record {
  counters = [];
  submissions = (7, profile) ∷ [];
  attempts = (20, attempt) ∷ (21, attempt) ∷ [];
  usages = [];
  events = earlier ∷ [];
  states = [];
}

abbrev now : ℕ
now = minutes 60

abbrev state_of_seven : State
state_of_seven = record {
  integration_id = 1;
  reused_uid = 7;
  last_reused_at = some 0;
  total_reuses = 1;
}

abbrev event : Event
unfolding new_event
event = new_event now acme 20 attempt 7 profile answers returning

abbrev reused_db : Db
unfolding committed
reused_db = committed now acme 20 attempt 7 event (state_of_seven ∷ []) db

-- The first attempt gets the UID.
gets_it : commit_reuse now acme 20 attempt 7 profile answers returning db ≡ (ok event, reused_db)
unfolding commit_reuse commit_gates locked_state is_other_use recent_events event new_event
    reused_db committed
gets_it = refl

-- The second attempt of the same survey does not.
not_twice :
    commit_reuse (now * 2) acme 21 attempt 7 profile answers returning reused_db
    ≡ (err used_on_project, reused_db)
unfolding commit_reuse commit_gates locked_state is_other_use recent_events is_usage reused_db
    save_state
not_twice = refl

seven_MayReuse : MayReuse now acme 20 attempt attempt 7 (locked_state 1 7 db.events db.states).0 db
unfolding MayReuse locked_state is_other_use recent_events
seven_MayReuse = (refl, refl, refl, refl, refl, refl)

db-IsOnce : IsOnce db
unfolding IsOnce IsDistinct HasOneEvent
db-IsOnce = (tt, (refl, tt))

commit_never_again_example :
    (is_ok (commit_reuse (now * 2) acme 21 attempt 7 profile answers returning reused_db).0 ≡ false)
    × ((commit_reuse (now * 2) acme 21 attempt 7 profile answers returning reused_db).1 ≡ reused_db)
commit_never_again_example =
    commit_never_again now acme 20 attempt 7 profile answers returning db (now * 2) 21 attempt
      profile answers returning gets_it refl

abbrev november : Counter
november = record (empty_counter 1 202611) { allocated_reuses = 224 }

-- Of a target of 225 one slot is left.
last_slot : (claim_counter false 9000 (250, previous_month) november).1 ≡ true
unfolding claim_counter refreshed target_from_baseline
last_slot = refl

none_left :
    (claim_counter false 9000 (250, previous_month) (record november { allocated_reuses = 225 })).1
    ≡ false
unfolding claim_counter refreshed target_from_baseline
none_left = refl

abbrev reserved_db : Db
reserved_db = record db { submissions = update 7 (taken now answers) db.submissions }

-- The stored profile is reserved for the first attempt, not for one that wants another gender.
is_reserved :
    reserve_vault_profile now acme attempt answers db.submissions db
    ≡ (some (7, taken now answers profile, none), reserved_db)
unfolding reserve_vault_profile
is_reserved = refl

not_matching :
    matches_all_requirements profile (record answers { dimensions = ("gender", "male" ∷ []) ∷ [] })
    ≡ false
unfolding matches_all_requirements
not_matching = refl

reserve-commit_example :
    (any (is_other_use 9 20 7) reserved_db.attempts ≡ false)
    × (any (is_usage 1 9 7) reserved_db.usages ≡ false)
    × (leb 2 (length (recent_events 1 7 (minutes 1440) now reserved_db.events)) ≡ false)
    × ((s : Submission) × (matches_all_requirements s answers ≡ true)
        × (taken now answers profile ≡ taken now answers s)
        × (none ≡ s.last_reused_at))
reserve-commit_example = reserve-commit now acme 20 attempt answers db.submissions db is_reserved

undo-reserve_example :
    uses (lookup 7 (undo_vault_reservation 7 none reserved_db).submissions)
    ≡ uses (lookup 7 db.submissions)
undo-reserve_example = undo-reserve now answers 7 profile db 7 refl (omega arith)

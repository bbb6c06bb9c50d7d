-- ===== src/Vault/Select.antt =====
-- prescreener_vault/reuse.py `_reserve_vault_profile`, `_matches_all_requirements` and
-- `_undo_vault_reservation`: which stored profile is reserved for an attempt. The rows that the query
-- returns, filtered, ordered, limited and less those that others have locked, are the database's
-- choice and an argument, with the query's filter written out.
pub mod Fair
use quant_tool.Base.{
  ℕ, String, ◌+◌, ◌-◌, ◌*◌, ◌≡◌, refl, ◌⊎◌, inl, inr, Bool, true, false, not, ◌&&◌, ◌||◌, Option,
  none, some, List, [], ◌∷◌, arith, ltb, leb, ◌==◌, str_eq, if◌then◌else◌, Bool-cases, Option-cases,
}
use quant_tool.Base.Table.{Table, lookup, update}
use quant_tool.Base.Lists.{length, any, select, find, contains, All}
use quant_tool.Vault.Models.{Integration, Submission, Attempt, Usage, Event, Signature, Db}
use quant_tool.Vault.Commit.{holds, is_usage, recent_events, minutes}

abbrev str_in : String → List String → Bool
str_in a = any (str_eq a)

abbrev all_in : List String → List String → Bool
all_in xs ys = not (any (λ x. not (str_in x ys)) xs)

-- `set(xs) == set(ys)`
abbrev same_set : List String → List String → Bool
same_set xs ys = all_in xs ys && all_in ys xs

-- `dimensions.get(key, [])`
abbrev values_of : String → List (String × List String) → List String
values_of key [] = []
values_of key ((k, values) ∷ rest) = if str_eq k key then values else values_of key rest

abbrev is_empty : List String → Bool
is_empty [] = true
is_empty (x ∷ xs) = false

-- One turn of the loop of `_matches_all_requirements`.
unfoldable pub meets :
    List (String × List String) → List (String × List String) → String × List String → Bool
meets candidate required (key, values) =
    (str_eq key "date_of_birth" && not (is_empty (values_of "age" required)))
    || (not (is_empty (values_of key candidate)) && same_set (values_of key candidate) values)

unfoldable pub matches_all_requirements : Submission → Signature → Bool
unfolding meets
matches_all_requirements candidate signature = not (
    any (λ entry. not (meets candidate.dimensions signature.dimensions entry)) signature.dimensions)

abbrev is_past : Option ℕ → ℕ → ℕ → Bool
is_past none interval now = true
is_past (some t) interval now = leb (t + interval) now

-- A filter that applies where the requirement has exactly one value.
abbrev single : List String → String → Bool
single (value ∷ []) column = str_eq column value
single _ column = true

-- The filter of the query: `genders` and `age_groups` are the values that the attempt allows.
unfoldable pub is_candidate :
    ℕ
    → Integration
    → Attempt
    → Signature
    → List String
    → List String
    → List ℕ
    → ℕ × Submission
    → Bool
is_candidate now integration attempt signature genders age_groups excluded (uid, s) =
    str_eq s.source_client_code integration.client_code
    && str_eq s.country_code signature.country_code
    && str_in s.respondent_gender genders
    && leb (s.submitted_at + minutes integration.profile_reuse_first_delay_minutes) now
    && is_past s.last_reused_at (minutes integration.profile_reuse_min_interval_minutes) now
    && not (holds attempt.prescreener_uid uid)
    && (is_empty age_groups || str_in s.respondent_age_group age_groups)
    && single (values_of "postal_code" signature.dimensions) s.respondent_postal_code
    && single (values_of "ethnicity" signature.dimensions) s.respondent_ethnicity
    && not (contains uid excluded)

-- `used_on_project`
unfoldable pub is_used_on_project : Integration → ℕ → Db → ℕ → Bool
unfolding is_usage
is_used_on_project integration survey_id db uid =
    any (is_usage integration.pk survey_id uid) db.usages
    || any
        (λ row.
          (row.1.survey_id == survey_id)
          && (holds row.1.prescreener_uid uid || holds row.1.provider_profile_uid uid))
        db.attempts

-- The test of `next(...)` over the rows.
unfoldable pub is_choice : ℕ → Integration → Attempt → Signature → Db → ℕ × Submission → Bool
unfolding is_used_on_project recent_events matches_all_requirements
is_choice now integration attempt signature db (uid, s) =
    not (is_used_on_project integration attempt.survey_id db uid)
    && ltb
        (length (
          recent_events integration.pk uid (minutes integration.profile_reuse_window_minutes) now
            db.events))
        integration.profile_reuse_max_uses_per_window
    && matches_all_requirements s signature

-- The update of the chosen row.
unfoldable pub taken : ℕ → Signature → Submission → Submission
taken now signature s = record s {
  usage_count = s.usage_count + 1;
  last_reused_at = some now;
  respondent_age = signature.age;
  respondent_age_group = signature.age_group;
}

-- `_reserve_vault_profile` on the rows of the query: the updated candidate with its UID, and its
-- earlier time of use.
unfoldable pub reserve_vault_profile :
    ℕ
    → Integration
    → Attempt
    → Signature
    → List (ℕ × Submission)
    → Db
    → Option (ℕ × Submission × Option ℕ) × Db
unfolding is_choice
reserve_vault_profile now integration attempt signature rows db =
    elim (find (is_choice now integration attempt signature db) rows) [
      | none ↦ (none, db)
      | some (uid, s) ↦ (
        some (uid, taken now signature s, s.last_reused_at),
        record db { submissions = update uid (taken now signature) db.submissions },
      )
    ]

unfoldable pub given_back : Option ℕ → Submission → Submission
given_back previous s =
    if ltb 1 s.usage_count
    then record s { usage_count = s.usage_count - 1; last_reused_at = previous }
    else s

-- `_undo_vault_reservation`
unfoldable pub undo_vault_reservation : ℕ → Option ℕ → Db → Db
undo_vault_reservation uid previous db = record db {
  submissions = update uid (given_back previous) db.submissions;
}

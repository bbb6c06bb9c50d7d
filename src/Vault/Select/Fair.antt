-- ===== src/Vault/Select/Fair.antt =====
-- What the choice of a stored profile (prescreener_vault/reuse.py `_reserve_vault_profile`) promises
-- to `_commit_reuse`, and that `_undo_vault_reservation` takes it back.
use quant_tool.Base.{
  some_same, not_none, ℕ, ◌≤◌, ◌≡◌, refl, inl, inr, Bool, true, false, ◌&&◌, ◌||◌, Option, none,
  some, List, [], ◌∷◌, arith, leb, ◌==◌, ==→eq, Bool-cases, Option-cases, subst,
}
use quant_tool.Base.Table.{Table, lookup, update, lookup-update}
use quant_tool.Base.Lists.{length, any, find}
use quant_tool.Vault.Models.{Integration, Submission, Attempt, Signature, Db}
use quant_tool.Vault.Commit.{holds, is_other_use, is_usage, recent_events, minutes}
use quant_tool.Vault.Select.{
  is_used_on_project, is_choice, matches_all_requirements, taken, given_back, reserve_vault_profile,
  undo_vault_reservation,
}

find_holds : {A : Type 0} (p : A → Bool) (xs : List A) {x : A} → find p xs ≡ some x → p x ≡ true
find_holds p [] h = not_none h
find_holds p (y ∷ ys) h = elim (Bool-cases (p y)) [
  | inl good ↦ subst (λ z. p z ≡ true) (some_same (rw good at h)) good
  | inr bad ↦ find_holds p ys (rw bad at h)
]

others_used :
    (survey_id attempt_id uid : ℕ) (attempts : Table Attempt)
    → any
        (λ row.
          (row.1.survey_id == survey_id)
          && (holds row.1.prescreener_uid uid || holds row.1.provider_profile_uid uid))
        attempts
      ≡ false
    → any (is_other_use survey_id attempt_id uid) attempts ≡ false
unfolding is_other_use
others_used survey_id attempt_id uid [] h = refl
others_used survey_id attempt_id uid ((k, a) ∷ rows) h =
    ground (arith, others_used survey_id attempt_id uid rows)

choice_fits :
    (now : ℕ) (integration : Integration) (attempt_id : ℕ) (attempt : Attempt)
    (signature : Signature) (db : Db) (uid : ℕ) (s : Submission)
    → is_choice now integration attempt signature db (uid, s) ≡ true
    → (any (is_other_use attempt.survey_id attempt_id uid) db.attempts ≡ false)
      × (any (is_usage integration.pk attempt.survey_id uid) db.usages ≡ false)
      × (leb integration.profile_reuse_max_uses_per_window (
            length (
              recent_events integration.pk uid
                (minutes integration.profile_reuse_window_minutes)
                now
                db.events))
          ≡ false)
      × (matches_all_requirements s signature ≡ true)
unfolding is_choice is_used_on_project
choice_fits now integration attempt_id attempt signature db uid s h = (
  others_used _ attempt_id uid db.attempts (ground arith),
  ground arith,
  ground arith,
  ground arith,
)

-- A profile that is reserved for an attempt matches all that the attempt requires and, on the tables
-- after that, passes the commit's checks on the project and on the rolling window.
pub reserve-commit :
    (now : ℕ) (integration : Integration) (attempt_id : ℕ) (attempt : Attempt)
    (signature : Signature) (rows : List (ℕ × Submission)) (db : Db) {uid : ℕ} {s' : Submission}
    {previous : Option ℕ} {db' : Db}
    → reserve_vault_profile now integration attempt signature rows db
      ≡ (some (uid, s', previous), db')
    → (any (is_other_use attempt.survey_id attempt_id uid) db'.attempts ≡ false)
      × (any (is_usage integration.pk attempt.survey_id uid) db'.usages ≡ false)
      × (leb integration.profile_reuse_max_uses_per_window (
            length (
              recent_events integration.pk uid
                (minutes integration.profile_reuse_window_minutes)
                now
                db'.events))
          ≡ false)
      × ((s : Submission) × (matches_all_requirements s signature ≡ true)
          × (s' ≡ taken now signature s)
          × (previous ≡ s.last_reused_at))
unfolding reserve_vault_profile
reserve-commit now integration attempt_id attempt signature rows db h =
    elim (Option-cases (find (is_choice now integration attempt signature db) rows)) [
      | inl missing ↦ ground (arith, missing)
      | inr ((u, s), found) ↦
          let (a, b, c, d) =
            choice_fits now integration attempt_id attempt signature db u s
              (find_holds _ rows found) in
          let same = rw (found, reserve_vault_profile) at h in
          (
            ground (arith, same, a),
            ground (arith, same, b),
            ground (arith, same, c),
            (s, d, ground (arith, same), ground (arith, same)),
          )
    ]

-- The columns that a reservation changes and its undoing gives back.
pub uses : Option Submission → Option (ℕ × Option ℕ)
uses none = none
uses (some s) = some (s.usage_count, s.last_reused_at)

given_back-taken :
    (now : ℕ) (signature : Signature) (s : Submission)
    → 1 ≤ s.usage_count
    → uses (some (given_back s.last_reused_at (taken now signature s))) ≡ uses (some s)
unfolding uses given_back taken
given_back-taken now signature s h = ground (arith, h)

-- Undoing a reservation gives every stored profile its earlier count of uses and time of last use.
pub undo-reserve :
    (now : ℕ) (signature : Signature) (uid : ℕ) (s : Submission) (db : Db) (k : ℕ)
    → lookup uid db.submissions ≡ some s
    → 1 ≤ s.usage_count
    → uses (
        lookup k
          (undo_vault_reservation uid s.last_reused_at (record db {
            submissions = update uid (taken now signature) db.submissions;
          })).submissions)
      ≡ uses (lookup k db.submissions)
unfolding undo_vault_reservation
undo-reserve now signature uid s db k stored used =
    rw
      (lookup-update k uid (given_back s.last_reused_at), lookup-update k uid (taken now signature))
      (elim (Bool-cases (uid == k)) [
        | inl same ↦
            let here = subst (λ i. lookup i db.submissions ≡ some s) (==→eq uid k same) stored in
            rw (same, here) (given_back-taken now signature s used)
        | inr other ↦ rw other refl
      ])

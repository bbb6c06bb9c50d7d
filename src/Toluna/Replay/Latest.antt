-- ===== src/Toluna/Replay/Latest.antt =====
-- The latest notification of a survey and wave or of a quota, described apart from the subqueries of
-- surveys/toluna_notifications.py `_latest_applied_operational_ids`.
use quant_tool.Base.{
  ℕ, ◌≡◌, refl, ap, sym, ◌∙◌, Bool, true, false, ◌&&◌, Option, none, some, [], ◌∷◌, arith, ==_refl,
  ==→eq, inl, inr, Bool-cases, Option-cases,
}
use quant_tool.Base.Table.{Table, lookup}
use quant_tool.Base.Keys.{HasDistinctKeys, lookup-any}
use quant_tool.Toluna.{
  EventType, member_complete, member_terminate, enhanced_termination, quota_status, survey_closed,
  reconciliation, Notification, is_quota_event,
}
use quant_tool.Toluna.Newest.{newest, tops, top-newest}
use quant_tool.Toluna.Newest.After.{is_after, newer_after}
use quant_tool.Toluna.Newest.Event.{is_quota_event→eq}
use quant_tool.Toluna.Replay.{
  is_close_event, same_column, same_survey, same_quota, latest, is_row_of, is_latest_close,
  is_latest_quota,
}

-- An applied notification that the survey and wave are closed
abbrev pub IsCloseOf : ℕ → ℕ → Notification → Type 0
IsCloseOf survey_id wave_id n =
    (n.applied ≡ true)
    × (n.event_type ≡ survey_closed)
    × (n.payload.survey_id ≡ some survey_id)
    × (n.payload.wave_id ≡ some wave_id)

-- An applied notification of the state of the quota of the survey and wave
abbrev pub IsQuotaOf : ℕ → ℕ → ℕ → Notification → Type 0
IsQuotaOf survey_id wave_id quota_id n =
    (n.applied ≡ true)
    × (n.event_type ≡ quota_status)
    × (n.payload.survey_id ≡ some survey_id)
    × (n.payload.wave_id ≡ some wave_id)
    × (n.payload.quota_id ≡ some quota_id)

-- The row is of the kind, and none of the kind is after it.
abbrev pub IsLatest : (Notification → Type 0) → Table Notification → ℕ → Notification → Type 0
IsLatest IsKind all k n =
    (lookup k all ≡ some n)
    × IsKind n
    × ((j : ℕ) (m : Notification)
        → lookup j all ≡ some m
        → IsKind m
        → is_after (k, n) (j, m) ≡ false)

latest-newest :
    (p : Notification → Bool) (t : Table Notification) → latest p t ≡ newest (λ row. p row.1) t
unfolding latest
latest-newest p [] = refl
latest-newest p ((j, m) ∷ t) = elim (Bool-cases (p m)) [
  | inr out ↦ ground (arith, latest-newest p t, out)
  | inl passes ↦ elim (Option-cases (newest (λ row. p row.1) t)) [
    | inl alone ↦ ground (arith, latest-newest p t, passes, alone)
    | inr (best, found) ↦ ground (arith, latest-newest p t, passes, found)
  ]
]

latest_row :
    (IsKind : Notification → Type 0) (p : Notification → Bool) (all : Table Notification) (k : ℕ)
    (n : Notification)
    → HasDistinctKeys all
    → ((m : Notification) → p m ≡ true → IsKind m)
    → p n ≡ true
    → IsLatest IsKind all k n
    → is_row_of k (latest p all) ≡ true
latest_row IsKind p all k n d kinds passes (row, kind, last) =
    let is_one : ℕ × Notification → Bool = λ r. p r.1 in
    let above = lookup-any (tops is_one (k, n)) all d (λ j m there. elim (Bool-cases (p m)) [
      | inr other ↦ ground (arith, other)
      | inl one ↦
          let below = last j m there (kinds m one) in
          ground (arith, newer_after (k, n) (j, m), below)
    ]) in
    let first = latest-newest p all ∙ top-newest is_one k n all d row (above, passes) in
    ap (is_row_of k) first ∙ ==_refl k

column_is : (x : ℕ) (a b : Option ℕ) → a ≡ some x → same_column a b ≡ true → b ≡ some x
column_is x none b e h = cc
column_is x (some y) none e h = cc
column_is x (some y) (some z) e h = ap some (sym (==→eq y z h)) ∙ e

is_close_event→eq : (e : EventType) → is_close_event e ≡ true → e ≡ survey_closed
is_close_event→eq survey_closed h = refl
is_close_event→eq quota_status h = cc
is_close_event→eq member_complete h = cc
is_close_event→eq member_terminate h = cc
is_close_event→eq enhanced_termination h = cc
is_close_event→eq reconciliation h = cc

module _ (all : Table Notification) (k : ℕ) (n : Notification) (d : HasDistinctKeys all)
    (survey_id wave_id : ℕ) where
  pub IsLatest-close :
      IsLatest (IsCloseOf survey_id wave_id) all k n → is_latest_close all (k, n) ≡ true
  unfolding is_latest_close
  IsLatest-close (row, kind, last) =
      let (applied, closes, its_survey, its_wave) = kind in
      let s = ==_refl survey_id in
      let w = ==_refl wave_id in
      let p : Notification → Bool =
        λ m. m.applied && is_close_event m.event_type && same_survey n m in
      let itself : p n ≡ true = rw (applied, closes, its_survey, its_wave, s, w) refl in
      let found =
        latest_row (IsCloseOf survey_id wave_id) p all k n d
          (λ m e. (
            ground (arith, e),
            is_close_event→eq m.event_type (ground (arith, e)),
            column_is survey_id n.payload.survey_id m.payload.survey_id its_survey
                (ground (arith, e)),
            column_is wave_id n.payload.wave_id m.payload.wave_id its_wave (ground (arith, e)),
          ))
          itself (row, kind, last) in
      let c : is_close_event n.event_type ≡ true = ap is_close_event closes in
      ground (arith, applied, c, found)

  pub IsLatest-quota :
      (quota_id : ℕ)
      → IsLatest (IsQuotaOf survey_id wave_id quota_id) all k n
      → is_latest_quota all (k, n) ≡ true
  unfolding is_latest_quota
  IsLatest-quota quota_id (row, kind, last) =
      let (applied, of_quota, its_survey, its_wave, its_quota) = kind in
      let s = ==_refl survey_id in
      let w = ==_refl wave_id in
      let q = ==_refl quota_id in
      let p : Notification → Bool =
        λ m. m.applied && is_quota_event m.event_type && same_quota n m in
      let itself : p n ≡ true =
        rw (applied, of_quota, its_survey, its_wave, its_quota, s, w, q) refl in
      let found =
        latest_row (IsQuotaOf survey_id wave_id quota_id) p all k n d
          (λ m e. (
            ground (arith, e),
            is_quota_event→eq m.event_type (ground (arith, e)),
            column_is survey_id n.payload.survey_id m.payload.survey_id its_survey
                (ground (arith, e)),
            column_is wave_id n.payload.wave_id m.payload.wave_id its_wave (ground (arith, e)),
            column_is quota_id n.payload.quota_id m.payload.quota_id its_quota (ground (arith, e)),
          ))
          itself (row, kind, last) in
      let c : is_quota_event n.event_type ≡ true = ap is_quota_event of_quota in
      ground (arith, applied, c, found)

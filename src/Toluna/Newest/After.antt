-- ===== src/Toluna/Newest/After.antt =====
-- The newest notification of a quota, described apart from the queries of
-- surveys/toluna_notifications.py.
use quant_tool.Base.{
  ℕ, suc, ◌≡◌, refl, Bool, true, false, ◌&&◌, ◌||◌, Option, none, some, arith, ltb, ◌==◌, inl, inr,
  Bool-cases, Option-cases,
}
use quant_tool.Base.Table.{Table, lookup}
use quant_tool.Base.Keys.{HasDistinctKeys, lookup-any}
use quant_tool.Toluna.{Notification, quota_status}
use quant_tool.Toluna.Events.{is_newer}
use quant_tool.Toluna.Newest.{is_control, newest, tops, newest_tops, newest-lookup, top-newest}
use quant_tool.Toluna.Newest.Follows.{same_option→eq, same_option_refl}
use quant_tool.Toluna.Newest.Event.{is_quota_event→eq}

-- Toluna's time, with that of an undated notification before all others.
abbrev pub time_of : Option ℕ → ℕ
time_of none = 0
time_of (some t) = suc t

-- The second row is after the first by Toluna's time; of one time the one received later, and of those
-- received together the one with the higher key.
abbrev pub is_after : ℕ × Notification → ℕ × Notification → Bool
is_after (k, n) (j, m) =
    ltb (time_of n.payload.occurred_at) (time_of m.payload.occurred_at)
    || ((time_of n.payload.occurred_at == time_of m.payload.occurred_at)
        && (ltb n.received_at m.received_at || ((n.received_at == m.received_at) && ltb k j)))

pub newer_after : (a b : ℕ × Notification) → is_newer a b ≡ is_after a b
unfolding is_newer
newer_after (k, n) (j, m) = ground arith

-- An applied notification of the quota's state.
abbrev pub IsNotice : ℕ → Option ℕ → Notification → Type 0
IsNotice survey quota_id n =
    (n.event_type ≡ quota_status)
    × (n.applied ≡ true)
    × (n.survey ≡ some survey)
    × (n.payload.quota_id ≡ quota_id)

-- The row is one of them, and none of them is after it.
abbrev pub IsNewest : ℕ → Option ℕ → Table Notification → ℕ → Notification → Type 0
IsNewest survey quota_id t k n =
    (lookup k t ≡ some n)
    × IsNotice survey quota_id n
    × ((j : ℕ) (m : Notification)
        → lookup j t ≡ some m
        → IsNotice survey quota_id m
        → is_after (k, n) (j, m) ≡ false)

module _ (survey : ℕ) (quota_id : Option ℕ) where
  control-IsNotice :
      (k : ℕ) (n : Notification)
      → is_control survey quota_id (k, n) ≡ true
      → IsNotice survey quota_id n
  control-IsNotice k n e = (
    is_quota_event→eq n.event_type (ground arith),
    ground arith,
    same_option→eq n.survey (some survey) (ground arith),
    same_option→eq n.payload.quota_id quota_id (ground arith),
  )

  IsNotice-control :
      (k : ℕ) (n : Notification)
      → IsNotice survey quota_id n
      → is_control survey quota_id (k, n) ≡ true
  IsNotice-control k n (kind, applied, its_survey, its_quota) =
      let same = same_option_refl quota_id in
      let self = same_option_refl (some survey) in
      rw (kind, applied, its_survey, its_quota, same, self) refl

  pub IsNewest-newest :
      (k : ℕ) (n : Notification) (t : Table Notification)
      → HasDistinctKeys t
      → IsNewest survey quota_id t k n
      → newest (is_control survey quota_id) t ≡ some (k, n)
  IsNewest-newest k n t d (row, notice, last) =
      top-newest (is_control survey quota_id) k n t d row (
        lookup-any (tops (is_control survey quota_id) (k, n)) t d (λ j m there.
            elim (Bool-cases (is_control survey quota_id (j, m))) [
              | inr other ↦ ground (arith, other)
              | inl control ↦
                  let below = last j m there (control-IsNotice j m control) in
                  ground (arith, newer_after (k, n) (j, m), below)
            ]),
        IsNotice-control k n notice,
      )

  pub without_newest :
      (t : Table Notification)
      → HasDistinctKeys t
      → ((k : ℕ) (n : Notification) → lookup k t ≡ some n → ¬ IsNotice survey quota_id n)
      → newest (is_control survey quota_id) t ≡ none
  without_newest t d empty = elim (Option-cases (newest (is_control survey quota_id) t)) [
    | inl without ↦ without
    | inr ((k, n), found) ↦
        let (_, control) = newest_tops (is_control survey quota_id) (k, n) t found in
        absurd (
          empty k n (newest-lookup (is_control survey quota_id) (k, n) t d found)
            (control-IsNotice k n control))
  ]

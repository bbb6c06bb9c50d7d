-- ===== src/Toluna/Newest/Again.antt =====
-- A repeated delivery of a notification (surveys/toluna_notifications.py) and a new row leave the newest
-- notifications.
use quant_tool.Base.{
  ℕ, ◌≡◌, refl, ap, sym, subst, ◌∙◌, false, Option, none, some, [], ◌∷◌, arith, ◌==◌, ◌⊎◌, inl, inr,
  Bool-cases, if◌then◌else◌,
}
use quant_tool.Base.Table.{Table, update, create}
use quant_tool.Toluna.{Notification, Quota, Db}
use quant_tool.Toluna.Events.{is_newer, quota_of}
use quant_tool.Toluna.Ingest.{counted_again}
use quant_tool.Toluna.Newest.{is_control, newer_of, newest}
use quant_tool.Toluna.Newest.Follows.{Follows, FollowsNewest}

module _ (now k : ℕ) where
  abbrev again : ℕ × Notification → ℕ × Notification
  again (i, m) = if i == k then (i, counted_again now m) else (i, m)

  abbrev again_option : Option (ℕ × Notification) → Option (ℕ × Notification)
  again_option none = none
  again_option (some row) = some (again row)

  again_cases :
      (i : ℕ) (m : Notification)
      → (again (i, m) ≡ (i, counted_again now m)) ⊎ (again (i, m) ≡ (i, m))
  again_cases i m = elim (Bool-cases (i == k)) [ inl e ↦ inl (rw e refl) | inr e ↦ inr (rw e refl) ]

  newer_left : (a b : ℕ × Notification) → is_newer (again a) b ≡ is_newer a b
  unfolding is_newer
  newer_left (i, m) b = elim (again_cases i m) [
    | inl e ↦ subst (λ r. is_newer r b ≡ is_newer (i, m) b) (sym e) refl
    | inr e ↦ ap (λ r. is_newer r b) e
  ]

  newer_right : (a b : ℕ × Notification) → is_newer a (again b) ≡ is_newer a b
  unfolding is_newer
  newer_right a (j, p) = elim (again_cases j p) [
    | inl e ↦ subst (λ r. is_newer a r ≡ is_newer a (j, p)) (sym e) refl
    | inr e ↦ ap (is_newer a) e
  ]

  newer_again : (a b : ℕ × Notification) → is_newer (again a) (again b) ≡ is_newer a b
  newer_again a b = newer_left a (again b) ∙ newer_right a b

  module _ (survey : ℕ) (quota_id : Option ℕ) where
    control_again :
        (a : ℕ × Notification) → is_control survey quota_id (again a) ≡ is_control survey quota_id a
    control_again (i, m) = elim (Bool-cases (i == k)) [ inl e ↦ rw e refl | inr e ↦ rw e refl ]

    newer_of-again :
        (a : ℕ × Notification) (b : Option (ℕ × Notification))
        → newer_of (again a) (again_option b) ≡ again (newer_of a b)
    newer_of-again a none = refl
    newer_of-again a (some b) = elim (Bool-cases (is_newer a b)) [
      | inl e ↦ rw (newer_again a b, e) refl
      | inr e ↦ rw (newer_again a b, e) refl
    ]

    newest_again :
        (t : Table Notification)
        → newest (is_control survey quota_id) (update k (counted_again now) t)
          ≡ again_option (newest (is_control survey quota_id) t)
    newest_again [] = refl
    newest_again ((i, m) ∷ t) =
        let rest = newest_again t in
        let same = control_again (i, m) in
        let first = newer_of-again (i, m) (newest (is_control survey quota_id) t) in
        elim (Bool-cases (is_control survey quota_id (i, m))) [
          | inr out ↦ rw (rest, same, out) refl
          | inl control ↦ rw (rest, same, control) (ap some first)
        ]

    Follows-again :
        (quota : Option (ℕ × Quota)) (b : Option (ℕ × Notification))
        → Follows quota b
        → Follows quota (again_option b)
    Follows-again quota none h = tt
    Follows-again none (some row) h = tt
    Follows-again (some (j, q)) (some (i, m)) h = elim (Bool-cases (i == k)) [
      | inl e ↦ rw e h
      | inr e ↦ rw e h
    ]

    pub counted-FollowsNewest :
        (db : Db)
        → FollowsNewest survey quota_id db
        → FollowsNewest survey quota_id
            (record db { notifications = update k (counted_again now) db.notifications })
    unfolding quota_of
    counted-FollowsNewest db h = rw (newest_again db.notifications) (
        Follows-again (quota_of db survey quota_id)
          (newest (is_control survey quota_id) db.notifications) h)

-- A notification that is not applied is not the newest.
pub newest-create :
    (survey : ℕ) (quota_id : Option ℕ) (k : ℕ) (n : Notification) (t : Table Notification)
    → n.applied ≡ false
    → newest (is_control survey quota_id) (create k n t) ≡ newest (is_control survey quota_id) t
newest-create survey quota_id k n [] e = ground (arith, e)
newest-create survey quota_id k n (row ∷ t) e = rw (newest-create survey quota_id k n t e) refl

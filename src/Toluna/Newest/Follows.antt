-- ===== src/Toluna/Newest/Follows.antt =====
-- The status of a quota over the applications of notifications, in any order of their delivery.
use quant_tool.Base.{
  ℕ, ◌≡◌, refl, ap, sym, subst, ◌∙◌, some_same, Bool, true, false, not, ◌||◌, Option, none, some,
  [], ◌∷◌, arith, ◌==◌, ==_refl, ==→eq, inl, inr, Option-cases, Bool-cases, same_option,
  if◌then◌else◌,
}
use quant_tool.Base.Table.{Table, lookup, update, lookup-update}
use quant_tool.Base.Keys.{
  HasDistinctKeys, update-HasDistinctKeys, find-lookup, any-lookup, lookup-any,
}
use quant_tool.Base.Lists.{any, find}
use quant_tool.Toluna.{Notification, Quota, Db}
use quant_tool.Toluna.Events.{
  is_newer, live_status, with_quota_status, is_quota_of, quota_of, closed_survey,
}
use quant_tool.Toluna.Newest.{is_control, newest, tops, newest_tops, newest-lookup, top-newest}

pub same_option→eq : (a b : Option ℕ) → same_option a b ≡ true → a ≡ b
same_option→eq none none e = refl
same_option→eq none (some y) e = cc
same_option→eq (some x) none e = cc
same_option→eq (some x) (some y) e = ap some (==→eq x y e)

pub same_option_refl : (a : Option ℕ) → same_option a a ≡ true
same_option_refl none = refl
same_option_refl (some x) = ==_refl x

abbrev pub Follows : Option (ℕ × Quota) → Option (ℕ × Notification) → Type 0
Follows quota none = Unit
Follows none (some row) = Unit
Follows (some (j, q)) (some (k, n)) = q.status ≡ live_status n.payload.is_live

-- The quota has the status of its newest notification, where both are there.
abbrev pub FollowsNewest : ℕ → Option ℕ → Db → Type 0
FollowsNewest survey quota_id db =
    Follows (quota_of db survey quota_id) (newest (is_control survey quota_id) db.notifications)

-- A new version of a notification that may be linked and applied otherwise.
abbrev pub IsVersion : Notification → Notification → Type 0
IsVersion n m =
    (n.event_type ≡ m.event_type) × (n.payload ≡ m.payload) × (n.received_at ≡ m.received_at)

pub newer_version :
    (k i : ℕ) (n m p : Notification)
    → IsVersion n m
    → is_newer (i, p) (k, n) ≡ is_newer (i, p) (k, m)
unfolding is_newer
newer_version k i n m p v =
    let time = ap (λ q. q.occurred_at) v.1 in let received = v.2 in ground arith

module _ (survey : ℕ) (quota_id : Option ℕ) (k : ℕ) (old n : Notification) (t : Table Notification)
    (d : HasDistinctKeys t) (row : lookup k t ≡ some old) (version : IsVersion old n) where
  pub other_row :
      (i : ℕ) (m : Notification) → i == k ≡ false → lookup i (update k (λ o. n) t) ≡ lookup i t
  other_row i m ne = ground (arith, lookup-update i k (λ o. n) t)

  pub new_row : lookup k (update k (λ o. n) t) ≡ some n
  new_row = rw (lookup-update, row, ==_refl k) refl

  old_topped :
      (best : ℕ × Notification)
      → is_control survey quota_id (k, n) || not (is_control survey quota_id (k, old)) ≡ true
      → any (tops (is_control survey quota_id) best) (update k (λ o. n) t) ≡ false
      → tops (is_control survey quota_id) best (k, old) ≡ false
  old_topped (i, m) implied above =
      let e =
        any-lookup (tops (is_control survey quota_id) (i, m)) k n (update k (λ o. n) t) above
          new_row in
      let f = newer_version k i old n m version in ground (arith, e, f, implied)

  pub newest_kept :
      (i : ℕ) (m : Notification)
      → is_control survey quota_id (k, n) || not (is_control survey quota_id (k, old)) ≡ true
      → newest (is_control survey quota_id) (update k (λ o. n) t) ≡ some (i, m)
      → i == k ≡ false
      → newest (is_control survey quota_id) t ≡ some (i, m)
  newest_kept i m implied found ne =
      let after = update k (λ o. n) t in
      let d' = update-HasDistinctKeys k (λ o. n) t d in
      let (above, control) = newest_tops (is_control survey quota_id) (i, m) after found in
      let at =
        sym (other_row i m ne) ∙ newest-lookup (is_control survey quota_id) (i, m) after d' found in
      top-newest (is_control survey quota_id) i m t d at (
        lookup-any (tops (is_control survey quota_id) (i, m)) t d (λ x p there.
            elim (Bool-cases (x == k)) [
              | inr other ↦
                  any-lookup (tops (is_control survey quota_id) (i, m)) x p after above
                    (other_row x p other ∙ there)
              | inl same ↦
                  let k_x = sym (==→eq x k same) in
                  let old_p : old ≡ p = some_same (sym row ∙ ap (λ y. lookup y t) k_x ∙ there) in
                  subst (λ u. tops (is_control survey quota_id) (i, m) (x, u) ≡ false) old_p
                    (subst (λ y. tops (is_control survey quota_id) (i, m) (y, old) ≡ false) k_x
                      (old_topped (i, m) implied above))
            ]),
        control,
      )

quota_kept :
    (is_live : Option Bool) (survey : ℕ) (quota_id : Option ℕ) (j : ℕ) (q : Quota)
    → is_quota_of survey quota_id (j, with_quota_status is_live q)
      ≡ is_quota_of survey quota_id (j, q)
unfolding with_quota_status
quota_kept is_live survey quota_id j q = refl

-- The row that the quota's query finds, after a write of the row `j`.
abbrev pub written : ℕ → Option Bool → Option (ℕ × Quota) → Option (ℕ × Quota)
written j is_live none = none
written j is_live (some (i, q)) = some (i, if i == j then with_quota_status is_live q else q)

find_quota-update :
    (is_live : Option Bool) (survey : ℕ) (quota_id : Option ℕ) (j : ℕ) (t : Table Quota)
    → find (is_quota_of survey quota_id) (update j (with_quota_status is_live) t)
      ≡ written j is_live (find (is_quota_of survey quota_id) t)
find_quota-update is_live survey quota_id j [] = refl
find_quota-update is_live survey quota_id j ((i, q) ∷ t) =
    ground
      (arith, find_quota-update is_live survey quota_id j t, quota_kept is_live survey quota_id i q)

pub quota_of-update :
    (is_live : Option Bool) (survey : ℕ) (quota_id : Option ℕ) (j : ℕ) (db : Db)
    → quota_of
        (record db { quotas = update j (with_quota_status is_live) db.quotas })
        survey
        quota_id
      ≡ written j is_live (quota_of db survey quota_id)
unfolding quota_of
quota_of-update is_live survey quota_id j db =
    ground (arith, find_quota-update is_live survey quota_id j db.quotas)

pub closed_kept :
    (survey k : ℕ) (quota_id : Option ℕ) (db : Db)
    → quota_of (record db { surveys = update k closed_survey db.surveys }) survey quota_id
      ≡ quota_of db survey quota_id
unfolding quota_of
closed_kept survey k quota_id db = ground (arith, lookup-update survey k closed_survey db.surveys)

-- The row that is found, is it under its key and for its quota.
pub found_quota :
    (survey : ℕ) (quota_id : Option ℕ) (db : Db) (j : ℕ) (q : Quota)
    → HasDistinctKeys db.quotas
    → quota_of db survey quota_id ≡ some (j, q)
    → (lookup j db.quotas ≡ some q) × (is_quota_of survey quota_id (j, q) ≡ true)
unfolding quota_of
found_quota survey quota_id db j q d e = elim (Option-cases (lookup survey db.surveys)) [
  | inl gone ↦ ground (arith, gone, e)
  | inr (s, there) ↦ elim (Bool-cases s.is_toluna) [
    | inr other ↦ ground (arith, there, other, e)
    | inl toluna ↦
        find-lookup (is_quota_of survey quota_id) j q db.quotas d (ground (arith, there, toluna, e))
  ]
]

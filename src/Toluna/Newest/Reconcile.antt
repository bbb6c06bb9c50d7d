-- ===== src/Toluna/Newest/Reconcile.antt =====
-- `_reconcile_notification` and `ingest_toluna_notification` keep the quotas at their newest
-- notifications.
use quant_tool.Base.{
  ℕ, ◌≡◌, refl, ap, sym, subst, ◌∙◌, some_same, Bool, true, false, not, ◌&&◌, ◌||◌, Option, none,
  some, arith, ◌==◌, ==_refl, ==→eq, inl, inr, Option-cases, Bool-cases, same_option,
}
use quant_tool.Base.Table.{Table, lookup, update}
use quant_tool.Base.Keys.{HasDistinctKeys, update-HasDistinctKeys, any-lookup, lookup-any}
use quant_tool.Toluna.{Notification, Quota, Db, is_quota_event}
use quant_tool.Toluna.Events.{
  is_newer, controls_same, newer_exists, with_quota_status, is_quota_of, quota_of,
}
use quant_tool.Toluna.Newest.{is_control, newest, tops, newest_tops, newest-lookup, newer_total}
use quant_tool.Toluna.Newest.Follows.{
  same_option→eq, same_option_refl, Follows, FollowsNewest, IsVersion, newest_kept, new_row,
  other_row, newer_version, written, found_quota,
}

module _ (survey : ℕ) (quota_id : Option ℕ) (k : ℕ) (old n : Notification) (t : Table Notification)
    (d : HasDistinctKeys t) (row : lookup k t ≡ some old) (version : IsVersion old n) where
  -- The new newest is the version, or another notification.
  Follows-cases :
      (quota : Option (ℕ × Quota))
      → (newest (is_control survey quota_id) (update k (λ o. n) t) ≡ some (k, n)
          → Follows quota (some (k, n)))
      → ((i : ℕ) (m : Notification)
          → i == k ≡ false
          → newest (is_control survey quota_id) (update k (λ o. n) t) ≡ some (i, m)
          → Follows quota (some (i, m)))
      → Follows quota (newest (is_control survey quota_id) (update k (λ o. n) t))
  Follows-cases quota own other =
      let after = update k (λ o. n) t in
      elim (Option-cases (newest (is_control survey quota_id) after)) [
        | inl without ↦ rw without tt
        | inr ((i, m), found) ↦ elim (Bool-cases (i == k)) [
          | inr ne ↦ rw found (other i m ne found)
          | inl same ↦
              let d' = update-HasDistinctKeys k (λ o. n) t d in
              let there = newest-lookup (is_control survey quota_id) (i, m) after d' found in
              let i_k = ==→eq i k same in
              let m_n : m ≡ n = some_same (
                sym there
                ∙ ap (λ y. lookup y after) i_k
                ∙ new_row survey quota_id k old n t d row version) in
              let at_k : newest (is_control survey quota_id) after ≡ some (k, n) =
                subst (λ u. newest (is_control survey quota_id) after ≡ some (k, u)) m_n
                  (subst (λ y. newest (is_control survey quota_id) after ≡ some (y, m)) i_k
                    found) in
              rw at_k (own at_k)
        ]
      ]

  -- A notification of another kind.
  pub other_kind :
      (quota : Option (ℕ × Quota))
      → is_quota_event n.event_type ≡ false
      → Follows quota (newest (is_control survey quota_id) t)
      → Follows quota (newest (is_control survey quota_id) (update k (λ o. n) t))
  other_kind quota kind h =
      let old_kind : is_quota_event old.event_type ≡ false = ap is_quota_event version.0 ∙ kind in
      Follows-cases quota
        (λ found.
          let control =
            (newest_tops (is_control survey quota_id) (k, n) (update k (λ o. n) t) found).1 in
          ground (arith, control, kind))
        (λ i m ne found.
          let kept =
            newest_kept survey quota_id k old n t d row version i m (ground (arith, old_kind)) found
              ne in
          subst (Follows quota) kept h)

abbrev pub marked : Bool → Notification → Notification
marked applied n = record n { applied = applied }

newer_marked :
    (k : ℕ) (applied : Bool) (n : Notification) (other : ℕ × Notification)
    → is_newer (k, marked applied n) other ≡ is_newer (k, n) other
unfolding is_newer
newer_marked k applied n (j, m) = refl

-- An applied notification keeps its survey.
abbrev pub keeps_link : Notification → Notification → Bool
keeps_link old n = not old.applied || same_option n.survey old.survey

module _ (survey : ℕ) (quota_id : Option ℕ) (k : ℕ) (old n : Notification) (db : Db)
    (d : HasDistinctKeys db.notifications) (row : lookup k db.notifications ≡ some old)
    (version : IsVersion old n) where
  -- What no applied notification of its quota tops is not superseded.
  not_superseded :
      newest (is_control survey quota_id) (update k (λ o. marked true n) db.notifications)
        ≡ some (k, marked true n)
      → newer_exists (k, n) db.notifications ≡ false
  unfolding newer_exists
  not_superseded found =
      let after = update k (λ o. marked true n) db.notifications in
      let (above, control) =
        newest_tops (is_control survey quota_id) (k, marked true n) after found in
      let s : n.survey ≡ some survey =
        same_option→eq n.survey (some survey) (ground (arith, control)) in
      let q : n.payload.quota_id ≡ quota_id =
        same_option→eq n.payload.quota_id quota_id (ground (arith, control)) in
      lookup-any (λ other. controls_same (k, n) other && is_newer (k, n) other) db.notifications d
        (λ x p there. elim (Bool-cases (x == k)) [
          | inl same ↦ unfold controls_same in ground (arith, same)
          | inr ne ↦
              let e =
                any-lookup (tops (is_control survey quota_id) (k, marked true n)) x p after above (
                  other_row survey quota_id k old (marked true n) db.notifications d row version x p
                    ne
                  ∙ there) in
              let f = newer_marked k true n (x, p) in
              unfold controls_same in rw (s, q) (ground (arith, e, f))
        ])

  stays_control :
      keeps_link old n ≡ true
      → is_control survey quota_id (k, marked true n) || not (is_control survey quota_id (k, old))
        ≡ true
  stays_control kept = elim (Bool-cases (is_control survey quota_id (k, old))) [
    | inr out ↦ ground (arith, out)
    | inl control ↦
        let s : old.survey ≡ some survey =
          same_option→eq old.survey (some survey) (ground (arith, control)) in
        let e : n.survey ≡ old.survey =
          same_option→eq n.survey old.survey (ground (arith, control, kept)) in
        let own : is_control survey quota_id (k, marked true n) ≡ true =
          rw (e, s, sym version.0, sym version.1) (ground (arith, control)) in
        ground (arith, own)
  ]

  Follows-none : (row : Option (ℕ × Notification)) → Follows none row
  Follows-none none = tt
  Follows-none (some row) = tt

  -- The quota was not there.
  pub unapplied :
      (is_control survey quota_id (k, old) ≡ true → quota_of db survey quota_id ≡ none)
      → FollowsNewest survey quota_id db
      → Follows
          (quota_of db survey quota_id)
          (newest (is_control survey quota_id) (update k (λ o. marked false n) db.notifications))
  unapplied gone h = elim (Bool-cases (is_control survey quota_id (k, old))) [
    | inl control ↦ rw (gone control) (Follows-none _)
    | inr out ↦
        Follows-cases survey quota_id k old (marked false n) db.notifications d row version
          (quota_of db survey quota_id)
          (λ found.
            let control =
              (newest_tops (is_control survey quota_id) (k, marked false n)
                (update k (λ o. marked false n) db.notifications) found).1 in
            ground (arith, control))
          (λ i m ne found.
            let kept =
              newest_kept survey quota_id k old (marked false n) db.notifications d row version i m
                (ground (arith, out)) found ne in
            subst (Follows (quota_of db survey quota_id)) kept h)
  ]

  -- A newer one had been applied.
  pub superseded :
      keeps_link old n ≡ true
      → newer_exists (k, n) db.notifications ≡ true
      → FollowsNewest survey quota_id db
      → Follows
          (quota_of db survey quota_id)
          (newest (is_control survey quota_id) (update k (λ o. marked true n) db.notifications))
  superseded link newer h =
      Follows-cases survey quota_id k old (marked true n) db.notifications d row version
        (quota_of db survey quota_id)
        (λ found. let first = not_superseded found in ground (arith, first, newer))
        (λ i m ne found.
          let kept =
            newest_kept survey quota_id k old (marked true n) db.notifications d row version i m
              (stays_control link) found ne in
          subst (Follows (quota_of db survey quota_id)) kept h)

  -- Two queries that find one row are for the same quota.
  same_quota :
      (s : ℕ) (other : Option ℕ) (j i : ℕ) (q p : Quota)
      → HasDistinctKeys db.quotas
      → quota_of db s other ≡ some (j, q)
      → quota_of db survey quota_id ≡ some (i, p)
      → i == j ≡ true
      → (s ≡ survey) × (other ≡ quota_id)
  same_quota s other j i q p keys e f same =
      let (at, is_q) = found_quota s other db j q keys e in
      let (there, is_p) = found_quota survey quota_id db i p keys f in
      let p_q : p ≡ q =
        some_same (sym there ∙ ap (λ y. lookup y db.quotas) (==→eq i j same) ∙ at) in
      let own : is_quota_of survey quota_id (j, q) ≡ true =
        subst (λ u. is_quota_of survey quota_id (j, u) ≡ true) p_q (ground (arith, is_p)) in
      (
        sym (==→eq q.survey s (ground (arith, is_q))) ∙ ==→eq q.survey survey (ground (arith, own)),
        sym (same_option→eq q.quota_id other (ground (arith, is_q)))
            ∙ same_option→eq q.quota_id quota_id (ground (arith, own)),
      )

  -- Where `n` is for the quota, a newer one would have superseded it.
  not_topped :
      (i : ℕ) (m : Notification)
      → n.survey ≡ some survey
      → n.payload.quota_id ≡ quota_id
      → is_quota_event n.event_type ≡ true
      → newer_exists (k, n) db.notifications ≡ false
      → i == k ≡ false
      → newest (is_control survey quota_id) (update k (λ o. marked true n) db.notifications)
        ≡ some (i, m)
      → true ≡ false
  unfolding newer_exists controls_same
  not_topped i m s q kind first ne found =
      let after = update k (λ o. marked true n) db.notifications in
      let d' = update-HasDistinctKeys k (λ o. marked true n) db.notifications d in
      let (above, control) = newest_tops (is_control survey quota_id) (i, m) after found in
      let there =
        sym (other_row survey quota_id k old (marked true n) db.notifications d row version i m ne)
        ∙ newest-lookup (is_control survey quota_id) (i, m) after d' found in
      let own : is_control survey quota_id (k, marked true n) ≡ true =
        rw (s, q)
          (ground (arith, kind, same_option_refl (some survey), same_option_refl quota_id)) in
      let below =
        any-lookup (tops (is_control survey quota_id) (i, m)) k (marked true n) after above
          (new_row survey quota_id k old (marked true n) db.notifications d row version) in
      let level : is_newer (i, m) (k, n) ≡ false =
        sym (newer_version k i (marked true n) n m (refl, refl, refl))
        ∙ ground (arith, below, own) in
      let newer = newer_total (i, m) (k, n) ne level in
      let none_newer =
        any-lookup (λ other. controls_same (k, n) other && is_newer (k, n) other) i m
          db.notifications first there in
      let same : controls_same (k, n) (i, m) ≡ true = rw (s, q) (ground (arith, control, ne)) in
      ground (arith, none_newer, newer, same)

  -- The quota is written.
  pub controlled :
      (s j : ℕ) (q : Quota)
      → HasDistinctKeys db.quotas
      → is_quota_event n.event_type ≡ true
      → keeps_link old n ≡ true
      → n.survey ≡ some s
      → quota_of db s n.payload.quota_id ≡ some (j, q)
      → newer_exists (k, n) db.notifications ≡ false
      → FollowsNewest survey quota_id db
      → Follows
          (written j n.payload.is_live (quota_of db survey quota_id))
          (newest (is_control survey quota_id) (update k (λ o. marked true n) db.notifications))
  controlled s j q keys kind link linked at first h =
      Follows-cases survey quota_id k old (marked true n) db.notifications d row version
        (written j n.payload.is_live (quota_of db survey quota_id))
        (λ found.
          let after = update k (λ o. marked true n) db.notifications in
          let (above, control) =
            newest_tops (is_control survey quota_id) (k, marked true n) after found in
          let of_survey =
            sym linked ∙ same_option→eq n.survey (some survey) (ground (arith, control)) in
          let of_quota : n.payload.quota_id ≡ quota_id =
            same_option→eq n.payload.quota_id quota_id (ground (arith, control)) in
          let here : quota_of db survey quota_id ≡ some (j, q) =
            subst (λ o. quota_of db survey o ≡ some (j, q)) of_quota
              (subst (λ x. quota_of db x n.payload.quota_id ≡ some (j, q)) (some_same of_survey)
                at) in
          unfold with_quota_status in rw (here, ==_refl j) refl)
        (λ i m ne found. elim (Option-cases (quota_of db survey quota_id)) [
          | inl without ↦ rw without tt
          | inr ((x, p), there) ↦ elim (Bool-cases (x == j)) [
            | inr apart ↦
                let kept =
                  newest_kept survey quota_id k old (marked true n) db.notifications d row version i
                    m (stays_control link) found ne in
                let before : Follows (quota_of db survey quota_id) (some (i, m)) =
                  subst (Follows (quota_of db survey quota_id)) kept h in
                rw (there, apart) (subst (λ u. Follows u (some (i, m))) there before)
            | inl same ↦
                let (of_survey, of_quota) =
                  same_quota s n.payload.quota_id j x q p keys at there same in
                let absurd =
                  not_topped i m (subst (λ y. n.survey ≡ some y) of_survey linked) of_quota kind
                    first ne found in
                cc
          ]
        ])

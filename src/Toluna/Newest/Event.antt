-- ===== src/Toluna/Newest/Event.antt =====
-- `_reconcile_notification` (surveys/toluna_notifications.py) keeps the quotas at their newest
-- notifications.
use quant_tool.Base.{
  ℕ, ◌≡◌, refl, ap, sym, subst, ◌∙◌, some_same, Bool, true, false, not, ◌&&◌, Option, none, some,
  arith, ◌⊎◌, inl, inr, Option-cases, Bool-cases,
}
use quant_tool.Base.Table.{lookup, update}
use quant_tool.Base.Keys.{HasDistinctKeys}
use quant_tool.Toluna.{
  EventType, quota_status, survey_closed, member_complete, member_terminate, enhanced_termination,
  reconciliation, Notification, Quota, Db, is_quota_event,
}
use quant_tool.Toluna.Events.{
  newer_exists, with_quota_status, quota_of, apply_quota_event, apply_closed_event,
  apply_attempt_event, apply_operational_event,
}
use quant_tool.Toluna.Ingest.{save_notification, relinked, reconcile_notification}
use quant_tool.Toluna.Newest.{is_control, newest}
use quant_tool.Toluna.Newest.Follows.{
  same_option→eq, Follows, FollowsNewest, IsVersion, quota_of-update, closed_kept,
}
use quant_tool.Toluna.Newest.Reconcile.{
  keeps_link, marked, unapplied, superseded, controlled, other_kind,
}

pub quota_of_saved :
    (db : Db) (k : ℕ) (n : Notification) (survey : ℕ) (quota_id : Option ℕ)
    → quota_of (save_notification k n db) survey quota_id ≡ quota_of db survey quota_id
unfolding quota_of
quota_of_saved db k n survey quota_id = refl

-- The database after the notification `k` has been applied and saved.
abbrev pub stored_after : ℕ → Notification → Bool × Db → Db
stored_after k n (applied, after) = save_notification k (marked applied n) after

module _ (survey : ℕ) (quota_id : Option ℕ) (k : ℕ) (old n : Notification) (db : Db)
    (d : HasDistinctKeys db.notifications) (row : lookup k db.notifications ≡ some old)
    (version : IsVersion old n) where
  -- A control that keeps its survey and its quota is for the quota.
  still_for :
      keeps_link old n ≡ true
      → is_control survey quota_id (k, old) ≡ true
      → (n.survey ≡ some survey) × (n.payload.quota_id ≡ quota_id)
  still_for link control =
      let s = same_option→eq old.survey (some survey) (ground (arith, control)) in
      let e = same_option→eq n.survey old.survey (ground (arith, control, link)) in
      let q = same_option→eq old.payload.quota_id quota_id (ground (arith, control)) in
      (e ∙ s, sym (ap (λ p. p.quota_id) version.1) ∙ q)

  -- What `_apply_operational_event` returns and leaves of a quota, on each branch.
  nowhere_left : n.survey ≡ none → apply_quota_event k n db ≡ (false, db)
  unfolding apply_quota_event
  nowhere_left e = rw e refl

  missing_left :
      (s : ℕ)
      → n.survey ≡ some s
      → quota_of db s n.payload.quota_id ≡ none
      → apply_quota_event k n db ≡ (false, db)
  unfolding apply_quota_event
  missing_left s e f = ground (arith, e, f)

  newer_left :
      (s : ℕ) (row : ℕ × Quota)
      → n.survey ≡ some s
      → quota_of db s n.payload.quota_id ≡ some row
      → newer_exists (k, n) db.notifications ≡ true
      → apply_quota_event k n db ≡ (true, db)
  unfolding apply_quota_event
  newer_left s (j, q) e f g = ground (arith, e, f, g)

  pub written_left :
      (s j : ℕ) (q : Quota)
      → n.survey ≡ some s
      → quota_of db s n.payload.quota_id ≡ some (j, q)
      → newer_exists (k, n) db.notifications ≡ false
      → apply_quota_event k n db
        ≡ (true, record db { quotas = update j (with_quota_status n.payload.is_live) db.quotas })
  unfolding apply_quota_event
  written_left s j q e f g = ground (arith, e, f, g)

  saved-Follows :
      (r : Bool × Db)
      → Follows
          (quota_of r.1 survey quota_id)
          (newest (is_control survey quota_id) (update k (λ o. marked r.0 n) r.1.notifications))
      → FollowsNewest survey quota_id (stored_after k n r)
  saved-Follows (b, after) h = rw (quota_of_saved after k (marked b n) survey quota_id) h

  quota_event-FollowsNewest :
      HasDistinctKeys db.quotas
      → is_quota_event n.event_type ≡ true
      → keeps_link old n ≡ true
      → FollowsNewest survey quota_id db
      → FollowsNewest survey quota_id (stored_after k n (apply_quota_event k n db))
  quota_event-FollowsNewest keys kind link h =
      let from : (r : Bool × Db)
          → apply_quota_event k n db ≡ r
          → Follows (quota_of r.1 survey quota_id)
              (newest (is_control survey quota_id) (update k (λ o. marked r.0 n) r.1.notifications))
          → FollowsNewest survey quota_id (stored_after k n (apply_quota_event k n db)) =
        λ r e left.
          subst (λ x. FollowsNewest survey quota_id (stored_after k n x)) (sym e)
            (saved-Follows r left) in
      elim (Option-cases n.survey) [
        | inl nowhere ↦
            from (false, db) (nowhere_left nowhere)
              (unapplied survey quota_id k old n db d row version
                (λ control. let (s, q) = still_for link control in cc) h)
        | inr (s, linked) ↦ elim (Option-cases (quota_of db s n.payload.quota_id)) [
          | inl missing ↦
              from (false, db) (missing_left s linked missing)
                (unapplied survey quota_id k old n db d row version
                  (λ control.
                    let (e, q) = still_for link control in
                    subst (λ o. quota_of db survey o ≡ none) q
                      (subst (λ x. quota_of db x n.payload.quota_id ≡ none)
                        (some_same (sym linked ∙ e)) missing))
                  h)
          | inr ((j, q), at) ↦ elim (Bool-cases (newer_exists (k, n) db.notifications)) [
            | inl newer ↦
                from (true, db) (newer_left s (j, q) linked at newer)
                  (superseded survey quota_id k old n db d row version link newer h)
            | inr first ↦
                from
                  (
                    true,
                    record db { quotas = update j (with_quota_status n.payload.is_live) db.quotas },
                  )
                  (written_left s j q linked at first)
                  (rw (quota_of-update n.payload.is_live survey quota_id j db) (
                    controlled survey quota_id k old n db d row version s j q keys kind link linked
                      at first h))
          ]
        ]
      ]

-- What an event of another kind leaves as it was.
abbrev KeepsQuotas : Db → Db → Type 0
KeepsQuotas db after =
    (after.notifications ≡ db.notifications)
    × ((s : ℕ) (o : Option ℕ) → quota_of after s o ≡ quota_of db s o)

attempt_keeps :
    (now : ℕ) (n : Notification) (db : Db) → KeepsQuotas db (apply_attempt_event now n db).1
unfolding apply_attempt_event quota_of
attempt_keeps now n db = elim (Option-cases n.attempt) [
  | inl e ↦ (ground (arith, e), λ s o. ground (arith, e))
  | inr (a, e) ↦ elim (Option-cases (lookup a db.respondents)) [
    | inl f ↦ (ground (arith, e, f), λ s o. ground (arith, e, f))
    | inr (r, f) ↦ (ground (arith, e, f), λ s o. ground (arith, e, f))
  ]
]

closed_keeps : (n : Notification) (db : Db) → KeepsQuotas db (apply_closed_event n db).1
unfolding apply_closed_event
closed_keeps n db = elim (Option-cases n.survey) [
  | inl e ↦ (ground (arith, e), λ s o. ground (arith, e))
  | inr (k, e) ↦ (ground (arith, e), λ s o. ground (arith, e, closed_kept s k o db))
]

pub as_quota_event :
    (now k : ℕ) (n : Notification) (db : Db)
    → n.event_type ≡ quota_status
    → apply_operational_event now k n db ≡ apply_quota_event k n db
unfolding apply_operational_event
as_quota_event now k n db e = ground (arith, e)

pub is_quota_event→eq : (e : EventType) → is_quota_event e ≡ true → e ≡ quota_status
is_quota_event→eq quota_status h = refl
is_quota_event→eq member_complete h = cc
is_quota_event→eq member_terminate h = cc
is_quota_event→eq enhanced_termination h = cc
is_quota_event→eq survey_closed h = cc
is_quota_event→eq reconciliation h = cc

-- The other events close the survey or apply to the attempt.
pub other_event :
    (now k : ℕ) (n : Notification) (db : Db) (e : EventType)
    → n.event_type ≡ e
    → is_quota_event e ≡ false
    → (apply_operational_event now k n db ≡ apply_closed_event n db)
      ⊎ (apply_operational_event now k n db ≡ apply_attempt_event now n db)
unfolding apply_operational_event
other_event now k n db quota_status e h = cc
other_event now k n db survey_closed e h = inl (ground (arith, e))
other_event now k n db member_complete e h = inr (ground (arith, e))
other_event now k n db member_terminate e h = inr (ground (arith, e))
other_event now k n db enhanced_termination e h = inr (ground (arith, e))
other_event now k n db reconciliation e h = inr (ground (arith, e))

other_keeps :
    (now k : ℕ) (n : Notification) (db : Db)
    → is_quota_event n.event_type ≡ false
    → KeepsQuotas db (apply_operational_event now k n db).1
other_keeps now k n db kind = elim (other_event now k n db n.event_type refl kind) [
  | inl e ↦ subst (λ r. KeepsQuotas db r.1) (sym e) (closed_keeps n db)
  | inr e ↦ subst (λ r. KeepsQuotas db r.1) (sym e) (attempt_keeps now n db)
]

module _ (survey : ℕ) (quota_id : Option ℕ) (now k : ℕ) (old n : Notification) (db : Db)
    (d : HasDistinctKeys db.notifications) (row : lookup k db.notifications ≡ some old)
    (version : IsVersion old n) where
  event-FollowsNewest :
      HasDistinctKeys db.quotas
      → keeps_link old n ≡ true
      → FollowsNewest survey quota_id db
      → FollowsNewest survey quota_id (stored_after k n (apply_operational_event now k n db))
  event-FollowsNewest keys link h = elim (Bool-cases (is_quota_event n.event_type)) [
    | inl kind ↦
        rw (as_quota_event now k n db (is_quota_event→eq n.event_type kind))
          (quota_event-FollowsNewest survey quota_id k old n db d row version keys kind link h)
    | inr kind ↦
        let (same, quotas) = other_keeps now k n db kind in
        let r = apply_operational_event now k n db in
        saved-Follows survey quota_id k old n db d row version r (
          rw (same, quotas survey quota_id)
            (other_kind survey quota_id k old (marked r.0 n) db.notifications d row version
              (quota_of db survey quota_id) kind h))
  ]

pub reconcile_stays :
    (now k : ℕ) (replay : Bool) (db : Db) (n : Notification)
    → lookup k db.notifications ≡ some n
    → n.applied && not replay ≡ true
    → reconcile_notification now replay k db ≡ db
unfolding reconcile_notification
reconcile_stays now k replay db n row done = ground (arith, row, done)

pub reconcile_runs :
    (now k : ℕ) (replay : Bool) (db : Db) (n : Notification)
    → lookup k db.notifications ≡ some n
    → n.applied && not replay ≡ false
    → reconcile_notification now replay k db
      ≡ stored_after k (relinked db n) (apply_operational_event now k (relinked db n) db)
unfolding reconcile_notification
reconcile_runs now k replay db n row due = ground (arith, row, due)

pub relinked-IsVersion : (db : Db) (n : Notification) → IsVersion n (relinked db n)
unfolding relinked
relinked-IsVersion db n = (refl, refl, refl)

pub reconcile_misses :
    (now k : ℕ) (replay : Bool) (db : Db)
    → lookup k db.notifications ≡ none
    → reconcile_notification now replay k db ≡ db
unfolding reconcile_notification
reconcile_misses now k replay db e = ground (arith, e)

pub reconcile-FollowsNewest :
    (survey : ℕ) (quota_id : Option ℕ) (now k : ℕ) (replay : Bool) (db : Db)
    → HasDistinctKeys db.notifications
    → HasDistinctKeys db.quotas
    → (replay ≡ true
        → (n : Notification) → lookup k db.notifications ≡ some n
        → keeps_link n (relinked db n) ≡ true)
    → FollowsNewest survey quota_id db
    → FollowsNewest survey quota_id (reconcile_notification now replay k db)
reconcile-FollowsNewest survey quota_id now k replay db d keys stable h =
    let stays : reconcile_notification now replay k db ≡ db
        → FollowsNewest survey quota_id (reconcile_notification now replay k db) =
      λ e. subst (FollowsNewest survey quota_id) (sym e) h in
    elim (Option-cases (lookup k db.notifications)) [
      | inl e ↦ stays (reconcile_misses now k replay db e)
      | inr (n, row) ↦ elim (Bool-cases (n.applied && not replay)) [
        | inl done ↦ stays (reconcile_stays now k replay db n row done)
        | inr due ↦
            let link : keeps_link n (relinked db n) ≡ true = elim (Bool-cases replay) [
              | inl again ↦ stable again n row
              | inr first ↦ ground (arith, due, first)
            ] in
            subst (FollowsNewest survey quota_id) (sym (reconcile_runs now k replay db n row due)) (
              event-FollowsNewest survey quota_id now k n (relinked db n) db d row
                (relinked-IsVersion db n) keys link h)
      ]
    ]

-- ===== src/Toluna/Newest/Restored.antt =====
-- A replay gives a quota the status of its newest notification again, whatever the inventory has
-- written there (`_reconcile_notification` of surveys/toluna_notifications.py).
use quant_tool.Base.{
  ℕ, ◌≡◌, refl, ap, sym, ◌∙◌, Bool, true, false, ◌&&◌, Option, some, arith, ◌==◌, ==_refl,
  if◌then◌else◌,
}
use quant_tool.Base.Table.{lookup, update}
use quant_tool.Base.Keys.{any-lookup, lookup-any}
use quant_tool.Toluna.{Notification, open_quota, full_quota, Quota, Db, is_quota_event}
use quant_tool.Toluna.Events.{is_newer, controls_same, newer_exists, with_quota_status, quota_of}
use quant_tool.Toluna.Ingest.{relinked, reconcile_notification}
use quant_tool.Toluna.Newest.{is_control, newest, tops, newest_tops, newest-lookup}
use quant_tool.Toluna.Newest.Follows.{same_option→eq, written, quota_of-update}
use quant_tool.Toluna.Newest.Event.{
  as_quota_event, is_quota_event→eq, reconcile_runs, relinked-IsVersion, written_left,
  quota_of_saved,
}
use quant_tool.Toluna.Newest.Reconcile.{marked}
use quant_tool.Toluna.Newest.After.{IsNewest, IsNewest-newest}
use quant_tool.Toluna.Newest.Keyed.{Keyed}

module _ (survey : ℕ) (quota_id : Option ℕ) (now k : ℕ) (n : Notification) (db : Db)
    (keyed : Keyed db) (found : newest (is_control survey quota_id) db.notifications ≡ some (k, n))
    (linked : (relinked db n).survey ≡ some survey) where
  its_row : lookup k db.notifications ≡ some n
  its_row = newest-lookup (is_control survey quota_id) (k, n) db.notifications keyed.0 found

  newer_relinked :
      (other : ℕ × Notification) → is_newer (k, relinked db n) other ≡ is_newer (k, n) other
  unfolding is_newer relinked
  newer_relinked (x, p) = refl

  its_quota_id : (relinked db n).payload.quota_id ≡ quota_id
  its_quota_id =
      let control = (newest_tops (is_control survey quota_id) (k, n) db.notifications found).1 in
      sym (ap (λ p. p.quota_id) (relinked-IsVersion db n).1)
      ∙ same_option→eq n.payload.quota_id quota_id (ground (arith, control))

  -- No newer one supersedes it.
  not_superseded : newer_exists (k, relinked db n) db.notifications ≡ false
  unfolding newer_exists
  not_superseded =
      let (above, control) =
        newest_tops (is_control survey quota_id) (k, n) db.notifications found in
      let q = its_quota_id in
      lookup-any
        (λ other. controls_same (k, relinked db n) other && is_newer (k, relinked db n) other)
        db.notifications keyed.0
        (λ x p there.
          let below =
            any-lookup (tops (is_control survey quota_id) (k, n)) x p db.notifications above
              there in
          let same = newer_relinked (x, p) in
          unfold controls_same in rw (linked, q) (ground (arith, below, same)))

replay_writes :
    (survey : ℕ) (quota_id : Option ℕ) (now k j : ℕ) (n : Notification) (q : Quota) (db : Db)
    → Keyed db
    → newest (is_control survey quota_id) db.notifications ≡ some (k, n)
    → (relinked db n).survey ≡ some survey
    → quota_of db survey quota_id ≡ some (j, q)
    → quota_of (reconcile_notification now true k db) survey quota_id
      ≡ some (j, with_quota_status n.payload.is_live q)
replay_writes survey quota_id now k j n q db keyed found linked at =
    let m = relinked db n in
    let row = newest-lookup (is_control survey quota_id) (k, n) db.notifications keyed.0 found in
    let control = (newest_tops (is_control survey quota_id) (k, n) db.notifications found).1 in
    let version = relinked-IsVersion db n in
    let kind : is_quota_event m.event_type ≡ true =
      sym (ap is_quota_event version.0) ∙ ground (arith, control) in
    let its_quota = its_quota_id survey quota_id now k n db keyed found linked in
    let there : quota_of db survey m.payload.quota_id ≡ some (j, q) =
      ap (quota_of db survey) its_quota ∙ at in
    let wrote =
      written_left survey quota_id k n m db keyed.0 row version survey j q linked there
        (not_superseded survey quota_id now k n db keyed found linked) in
    let wrote_db = record db {
      quotas = update j (with_quota_status m.payload.is_live) db.quotas;
    } in
    let live = sym (ap (λ p. p.is_live) version.1) in
    rw
      (
        reconcile_runs now k true db n row (ground arith),
        as_quota_event now k m db (is_quota_event→eq m.event_type kind),
        wrote,
      )
      (quota_of_saved wrote_db k (marked true m) survey quota_id
        ∙ quota_of-update m.payload.is_live survey quota_id j db
        ∙ ap (written j m.payload.is_live) at
        ∙ rw (==_refl j) (ap (λ l. some (j, with_quota_status l q)) live))

quota_written :
    (live : Bool) (q : Quota)
    → with_quota_status (some live) q ≡ record q {
      status = if live then open_quota else full_quota;
      remaining = if live then (if q.remaining == 0 then 1 else q.remaining) else 0;
    }
unfolding with_quota_status
quota_written true q = refl
quota_written false q = refl

-- In a database with unique keys, where the last applied notification of a survey's quota, by Toluna's
-- own times, still resolves to the survey and the quota is there, its replay writes the quota's status
-- and remaining number, whatever they were: open and at least one left if the notification says that
-- the quota is live, full and none left if it says that it is not.
pub replay-restores :
    (survey : ℕ) (quota_id : Option ℕ) (now k j : ℕ) (n : Notification) (live : Bool) (q : Quota)
    (db : Db)
    → Keyed db
    → IsNewest survey quota_id db.notifications k n
    → n.payload.is_live ≡ some live
    → (relinked db n).survey ≡ some survey
    → quota_of db survey quota_id ≡ some (j, q)
    → quota_of (reconcile_notification now true k db) survey quota_id
      ≡ some (
        j,
        record q {
          status = if live then open_quota else full_quota;
          remaining = if live then (if q.remaining == 0 then 1 else q.remaining) else 0;
        },
      )
replay-restores survey quota_id now k j n live q db keyed is_last says linked at =
    let found = IsNewest-newest survey quota_id k n db.notifications keyed.0 is_last in
    replay_writes survey quota_id now k j n q db keyed found linked at
    ∙ ap (λ l. some (j, with_quota_status l q)) says
    ∙ ap (λ r. some (j, r)) (quota_written live q)

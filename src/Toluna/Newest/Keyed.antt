-- ===== src/Toluna/Newest/Keyed.antt =====
-- The handlers of notifications (surveys/toluna_notifications.py) write rows under new keys only.
use quant_tool.Base.{ℕ, refl, Bool, not, ◌&&◌, arith, inl, inr, Option-cases, Bool-cases}
use quant_tool.Base.Table.{lookup}
use quant_tool.Base.Keys.{HasDistinctKeys, update-HasDistinctKeys}
use quant_tool.Toluna.{Notification, Db, is_quota_event}
use quant_tool.Toluna.Events.{
  newer_exists, quota_of, with_quota_status, apply_quota_event, apply_closed_event,
  apply_attempt_event, apply_operational_event,
}
use quant_tool.Toluna.Ingest.{relinked, reconcile_notification}
use quant_tool.Toluna.Newest.Event.{
  as_quota_event, is_quota_event→eq, other_event, reconcile_stays, reconcile_runs, reconcile_misses,
}

abbrev pub Keyed : Db → Type 0
Keyed db = HasDistinctKeys db.notifications × HasDistinctKeys db.quotas

quota_event-Keyed :
    (k : ℕ) (n : Notification) (db : Db) → Keyed db → Keyed (apply_quota_event k n db).1
unfolding apply_quota_event
quota_event-Keyed k n db d = elim (Option-cases n.survey) [
  | inl e ↦ ground (arith, e, d)
  | inr (s, e) ↦ elim (Option-cases (quota_of db s n.payload.quota_id)) [
    | inl f ↦ ground (arith, e, f, d)
    | inr ((j, q), f) ↦
        let wrote = update-HasDistinctKeys j (with_quota_status n.payload.is_live) db.quotas d.1 in
        elim (Bool-cases (newer_exists (k, n) db.notifications)) [
          | inl g ↦ ground (arith, e, f, g, d)
          | inr g ↦ ground (arith, e, f, g, d, wrote)
        ]
  ]
]

closed-Keyed : (n : Notification) (db : Db) → Keyed db → Keyed (apply_closed_event n db).1
unfolding apply_closed_event
closed-Keyed n db d = elim (Option-cases n.survey) [
  | inl e ↦ ground (arith, e, d)
  | inr (s, e) ↦ ground (arith, e, d)
]

attempt-Keyed :
    (now : ℕ) (n : Notification) (db : Db) → Keyed db → Keyed (apply_attempt_event now n db).1
unfolding apply_attempt_event
attempt-Keyed now n db d = elim (Option-cases n.attempt) [
  | inl e ↦ ground (arith, e, d)
  | inr (a, e) ↦ elim (Option-cases (lookup a db.respondents)) [
    | inl f ↦ ground (arith, e, f, d)
    | inr (r, f) ↦ ground (arith, e, f, d)
  ]
]

event-Keyed :
    (now k : ℕ) (n : Notification) (db : Db)
    → Keyed db
    → Keyed (apply_operational_event now k n db).1
event-Keyed now k n db d = elim (Bool-cases (is_quota_event n.event_type)) [
  | inl kind ↦
      rw (as_quota_event now k n db (is_quota_event→eq n.event_type kind))
        (quota_event-Keyed k n db d)
  | inr kind ↦ elim (other_event now k n db n.event_type refl kind) [
    | inl e ↦ rw e (closed-Keyed n db d)
    | inr e ↦ rw e (attempt-Keyed now n db d)
  ]
]

pub reconcile-Keyed :
    (now k : ℕ) (replay : Bool) (db : Db)
    → Keyed db
    → Keyed (reconcile_notification now replay k db)
reconcile-Keyed now k replay db d = elim (Option-cases (lookup k db.notifications)) [
  | inl e ↦ rw (reconcile_misses now k replay db e) d
  | inr (n, row) ↦ elim (Bool-cases (n.applied && not replay)) [
    | inl done ↦ rw (reconcile_stays now k replay db n row done) d
    | inr due ↦
        let r = apply_operational_event now k (relinked db n) db in
        let (rows, quotas) = event-Keyed now k (relinked db n) db d in
        rw (reconcile_runs now k replay db n row due) (
          update-HasDistinctKeys k (λ o. record (relinked db n) { applied = r.0 }) r.1.notifications
              rows,
          quotas,
        )
  ]
]

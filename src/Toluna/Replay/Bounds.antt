-- ===== src/Toluna/Replay/Bounds.antt =====
-- No run tries more notifications than its bound (surveys/toluna_notifications.py).
use quant_tool.Base.{
  ℕ, zero, suc, ◌+◌, ◌-◌, ◌≤◌, ◌≡◌, Bool, true, false, ◌&&◌, Option, List, [], ◌∷◌, ◌++◌, map, ◌==◌,
  arith, inl, inr, Bool-cases, Option-cases, if◌then◌else◌,
}
use quant_tool.Base.Table.{Table}
use quant_tool.Base.Lists.{length, take, select, any}
use quant_tool.Toluna.{Survey, Notification, Db}
use quant_tool.Toluna.Ingest.{survey_provider_identity}
use quant_tool.Toluna.Replay.{
  operational_identity_chunk_size, operational_reconcile_batch_size, EventTypes,
  latest_applied_operational_ids, from_keys, operational_notification_ids, order_by,
  is_latest_close, is_latest_quota, by_reception, by_occurrence, key_of, received_since,
  is_unapplied,
}
use quant_tool.Toluna.Replay.Runs.{
  exact_identity, is_operational, names_survey, all_types, no_types, drop_identities,
  provider_identities, reconcile_toluna_operational_notifications, reconcile_chunk,
  reconcile_chunks, reconcile_toluna_operational_notifications_for_surveys,
}

pub length-take : (n : ℕ) (xs : List ℕ) → length (take n xs) ≤ n
length-take zero xs = ground arith
length-take (suc n) [] = ground arith
length-take (suc n) (x ∷ xs) = ground (arith, length-take n xs)

pub length_++ : (xs ys : List ℕ) → length (xs ++ ys) ≡ length xs + length ys
length_++ [] ys = ground arith
length_++ (x ∷ xs) ys = ground (arith, length_++ xs ys)

length-from_keys : (seen keys : List ℕ) → length (from_keys seen keys) ≤ length keys
unfolding from_keys
length-from_keys seen [] = ground arith
length-from_keys seen (k ∷ keys) =
    ground (arith, length-from_keys seen keys, length-from_keys (k ∷ seen) keys)

latest_within :
    (all queryset : Table Notification) (types : EventTypes) (limit : ℕ)
    → length (latest_applied_operational_ids all queryset types limit) ≤ limit
unfolding latest_applied_operational_ids
latest_within all queryset types limit =
    let closes = map key_of (order_by by_reception (select (is_latest_close all) queryset)) in
    let quotas = map key_of (order_by by_reception (select (is_latest_quota all) queryset)) in
    let first = length-take limit closes in
    elim (Bool-cases types.closed_surveys) [
      | inl e ↦ elim (Bool-cases types.quotas) [
        | inl f ↦
            rw (e, f, length_++)
              (ground (arith, first, length-take (limit - length (take limit closes)) quotas))
        | inr f ↦ rw (e, f, length_++) (ground (arith, first))
      ]
      | inr e ↦ elim (Bool-cases types.quotas) [
        | inl f ↦ rw (e, f) (ground (arith, length-take limit quotas))
        | inr f ↦ rw (e, f) (ground arith)
      ]
    ]

pub operational_within :
    (all queryset : Table Notification) (types : EventTypes) (applied_since : Option ℕ) (limit : ℕ)
    → length (operational_notification_ids all queryset types applied_since limit) ≤ limit
unfolding operational_notification_ids
operational_within all queryset types applied_since limit =
    let applied =
      latest_applied_operational_ids all (select (received_since applied_since) queryset) types
        limit in
    let pending =
      take (limit - length applied)
        (map key_of (order_by by_occurrence (select is_unapplied queryset))) in
    let first = latest_within all (select (received_since applied_since) queryset) types limit in
    let second =
      length-take (limit - length applied)
        (map key_of (order_by by_occurrence (select is_unapplied queryset))) in
    let kept = length-from_keys [] (applied ++ pending) in
    let both = length_++ applied pending in
    elim (Bool-cases (limit == 0)) [
      | inl e ↦ rw e (ground arith)
      | inr e ↦ rw e (ground (arith, kept, both, first, second))
    ]

one_within :
    (now : ℕ) (survey : Survey) (replay_applied : Bool) (applied_since : Option ℕ) (db : Db)
    → (reconcile_toluna_operational_notifications now survey replay_applied applied_since db).0
      ≤ operational_reconcile_batch_size
unfolding reconcile_toluna_operational_notifications
one_within now survey replay_applied applied_since db = elim (Bool-cases survey.is_toluna) [
  | inr other ↦ rw other (ground arith)
  | inl toluna ↦ elim (Option-cases (exact_identity (survey_provider_identity survey))) [
    | inl none_such ↦ rw (toluna, none_such) (ground arith)
    | inr (identity, e) ↦
        rw (toluna, e)
          (operational_within db.notifications
            (select (λ row. is_operational row.1 && names_survey row identity) db.notifications)
            (if replay_applied then all_types else no_types) applied_since
            operational_reconcile_batch_size)
  ]
]

-- What is left and what has been tried make up the bound, or less.
chunk_within :
    (now : ℕ) (types : EventTypes) (applied_since : Option ℕ) (chunk : List (ℕ × ℕ))
    (remaining reconciled : ℕ) (db : Db) (bound : ℕ)
    → remaining + reconciled ≤ bound
    → let s = reconcile_chunk now types applied_since chunk (remaining, reconciled, db) in
      s.0 + s.1 ≤ bound
unfolding reconcile_chunk
chunk_within now types applied_since chunk remaining reconciled db bound h =
    let within =
      operational_within db.notifications
        (select (λ row. is_operational row.1 && any (names_survey row) chunk) db.notifications)
        types applied_since remaining in
    ground arith

either_within :
    (bound : ℕ) (b : Bool) (s t : ℕ × ℕ × Db)
    → s.1 ≤ bound
    → t.1 ≤ bound
    → (if b then s else t).1 ≤ bound
either_within bound true s t h i = h
either_within bound false s t h i = i

chunks_within :
    (n now : ℕ) (types : EventTypes) (applied_since : Option ℕ) (identities : List (ℕ × ℕ))
    (offset bound : ℕ) (s : ℕ × ℕ × Db)
    → s.0 + s.1 ≤ bound
    → (reconcile_chunks n now types applied_since identities offset s).1 ≤ bound
unfolding reconcile_chunks
chunks_within zero now types applied_since identities offset bound s h = ground arith
chunks_within (suc n) now types applied_since identities offset bound (remaining, reconciled, db)
      h =
    let chunk = take operational_identity_chunk_size (drop_identities offset identities) in
    let next =
      chunks_within n now types applied_since identities (offset + operational_identity_chunk_size)
        bound (reconcile_chunk now types applied_since chunk (remaining, reconciled, db))
        (chunk_within now types applied_since chunk remaining reconciled db bound h) in
    either_within bound (remaining == 0) (remaining, reconciled, db) _ (ground arith) next

-- The reconciliation after an inventory run tries at most as many notifications as its bound, for one
-- survey and for any number of them.
pub reconciled_within :
    (now : ℕ) (survey : Survey) (replay_applied : Bool) (surveys : List Survey) (types : EventTypes)
    (applied_since : Option ℕ) (db : Db)
    → ((reconcile_toluna_operational_notifications now survey replay_applied applied_since db).0
        ≤ operational_reconcile_batch_size)
      × ((reconcile_toluna_operational_notifications_for_surveys now surveys types applied_since
            db).0
          ≤ operational_reconcile_batch_size)
unfolding reconcile_toluna_operational_notifications_for_surveys
reconciled_within now survey replay_applied surveys types applied_since db = (
  one_within now survey replay_applied applied_since db,
  chunks_within _ now types applied_since (provider_identities surveys) 0
      operational_reconcile_batch_size (operational_reconcile_batch_size, 0, db) (ground arith),
)

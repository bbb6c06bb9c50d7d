-- ===== src/Toluna/Newest/Deliveries.antt =====
-- The deliveries of notifications (surveys/toluna_notifications.py), in any order and repeated, with
-- retries and replays of what has been received.
use quant_tool.Base.{
  ℕ, ◌≡◌, refl, ap, sym, subst, ◌∙◌, Bool, true, false, Option, none, some, inl, inr, Option-cases,
  if◌then◌else◌,
}
use quant_tool.Base.Table.{Table, lookup, update, create}
use quant_tool.Base.Keys.{update-HasDistinctKeys, create-HasDistinctKeys}
use quant_tool.Base.Result.{Result, ok, err, Result-cases}
use quant_tool.Vendors.Models
use quant_tool.Toluna.{
  EventType, Notification, Payload, open_quota, full_quota, Quota, Respondent, Db, Invalid,
  validate_payload, resolve_links,
}
use quant_tool.Toluna.Events.{live_status, quota_of}
use quant_tool.Toluna.Ingest.{
  Identity, counted_again, new_notification, ingest_toluna_notification, relinked,
  reconcile_notification,
}
use quant_tool.Toluna.Ingest.Branches.{
  hash_of, known_delivery, ingest_refused, ingest_again, ingest_first,
}
use quant_tool.Toluna.Newest.Again.{counted-FollowsNewest, newest-create}
use quant_tool.Toluna.Newest.Follows.{Follows, FollowsNewest}
use quant_tool.Toluna.Newest.Reconcile.{keeps_link}
use quant_tool.Toluna.Newest.Keyed.{Keyed, reconcile-Keyed}
use quant_tool.Toluna.Newest.After.{IsNotice, IsNewest, IsNewest-newest, without_newest}
use quant_tool.Toluna.Newest.Event.{reconcile-FollowsNewest}

abbrev IsKept : ℕ → Option ℕ → Db → Type 0
IsKept survey quota_id db = Keyed db × FollowsNewest survey quota_id db

module _ (survey : ℕ) (quota_id : Option ℕ) (db : Db) (h : IsKept survey quota_id db) where
  counted-IsKept :
      (now k : ℕ)
      → IsKept survey quota_id
          (record db { notifications = update k (counted_again now) db.notifications })
  counted-IsKept now k = (
    (update-HasDistinctKeys k (counted_again now) db.notifications h.0.0, h.0.1),
    counted-FollowsNewest now k survey quota_id db h.1,
  )

  created-IsKept :
      (k : ℕ) (n : Notification)
      → lookup k db.notifications ≡ none
      → n.applied ≡ false
      → IsKept survey quota_id (record db { notifications = create k n db.notifications })
  unfolding quota_of
  created-IsKept k n fresh e = (
    (create-HasDistinctKeys k n db.notifications fresh h.0.0, h.0.1),
    rw (newest-create survey quota_id k n db.notifications e) h.1,
  )

  retried-IsKept : (now k : ℕ) → IsKept survey quota_id (reconcile_notification now false k db)
  retried-IsKept now k = (
    reconcile-Keyed now k false db h.0,
    reconcile-FollowsNewest survey quota_id now k false db h.0.0 h.0.1 (λ e n row. cc) h.1,
  )

-- What a delivery leaves: the database, or the one with its row counted or created, then reconciled.
ingest-IsKept :
    (sha256 : Identity → ℕ) (now key : ℕ) (event : EventType) (p : Payload) (survey : ℕ)
    (quota_id : Option ℕ) (db : Db)
    → lookup key db.notifications ≡ none
    → IsKept survey quota_id db
    → IsKept survey quota_id (ingest_toluna_notification sha256 now key event p db).1
ingest-IsKept sha256 now key event p survey quota_id db fresh h =
    let from : (r : Result Invalid (ℕ × Bool) × Db)
        → ingest_toluna_notification sha256 now key event p db ≡ r
        → IsKept survey quota_id r.1
        → IsKept survey quota_id (ingest_toluna_notification sha256 now key event p db).1 =
      λ r e kept. subst (λ x. IsKept survey quota_id x.1) (sym e) kept in
    elim (Result-cases (validate_payload event p)) [
      | inr (why, e) ↦ from (err why, db) (ingest_refused sha256 now key event p db why e) h
      | inl (_, e) ↦ elim (Option-cases (known_delivery sha256 now key event p db)) [
        | inr ((k, n), f) ↦
            let counted = record db {
              notifications = update k (counted_again now) db.notifications;
            } in
            from (ok (k, true), reconcile_notification now false k counted)
              (ingest_again sha256 now key event p db k n e f)
              (retried-IsKept survey quota_id counted (counted-IsKept survey quota_id db h now k)
                now k)
        | inl f ↦
            let n =
              new_notification event p (resolve_links db p) (hash_of sha256 now key event p db)
                now in
            let created = record db { notifications = create key n db.notifications } in
            from (ok (key, false), reconcile_notification now false key created)
              (ingest_first sha256 now key event p db e f)
              (retried-IsKept survey quota_id created
                (created-IsKept survey quota_id db h key n fresh refl) now key)
      ]
    ]

-- A delivery under a new key; another reconciliation of a row, which a replay repeats where it was
-- applied and still finds its survey; or any change of the attempts and of the suppliers' tables.
pub data Step (sha256 : Identity → ℕ) (s t : Db) : Type 0 where
  deliver :
      (now key : ℕ) (event : EventType) (p : Payload)
      → lookup key s.notifications ≡ none
      → t ≡ (ingest_toluna_notification sha256 now key event p s).1
      → Step sha256 s t
  retry : (now k : ℕ) → t ≡ reconcile_notification now false k s → Step sha256 s t
  replay :
      (now k : ℕ)
      → ((n : Notification)
          → lookup k s.notifications ≡ some n
          → keeps_link n (relinked s n) ≡ true)
      → t ≡ reconcile_notification now true k s
      → Step sha256 s t
  elsewhere :
      (respondents : Table Respondent) (vendors : Models.Db)
      → t ≡ record s { respondents = respondents; vendors = vendors }
      → Step sha256 s t

pub data Reach (sha256 : Identity → ℕ) (s : Db) : Db → Type 0 where
  here : Reach sha256 s s
  next : {t u : Db} → Reach sha256 s t → Step sha256 t u → Reach sha256 s u

module _ (sha256 : Identity → ℕ) (survey : ℕ) (quota_id : Option ℕ) where
  Step-IsKept : {s t : Db} → Step sha256 s t → IsKept survey quota_id s → IsKept survey quota_id t
  unfolding quota_of
  Step-IsKept {s} (deliver now key event p fresh e) h =
      subst (IsKept survey quota_id) (sym e)
        (ingest-IsKept sha256 now key event p survey quota_id s fresh h)
  Step-IsKept {s} (retry now k e) h =
      subst (IsKept survey quota_id) (sym e) (retried-IsKept survey quota_id s h now k)
  Step-IsKept {s} (replay now k stable e) h = subst (IsKept survey quota_id) (sym e) (
    reconcile-Keyed now k true s h.0,
    reconcile-FollowsNewest survey quota_id now k true s h.0.0 h.0.1 (λ f. stable) h.1,
  )
  Step-IsKept {s} (elsewhere respondents vendors e) h = subst (IsKept survey quota_id) (sym e) h

  Reach-IsKept : {s t : Db} → Reach sha256 s t → IsKept survey quota_id s → IsKept survey quota_id t
  Reach-IsKept here h = h
  Reach-IsKept (next r step) h = Step-IsKept step (Reach-IsKept r h)

-- From a database with unique keys in which no notification of a quota has been applied, after
-- deliveries of notifications in any order, repeated ones among them, retries and replays that keep
-- the survey of an applied notification, and any changes of attempts between them: where the
-- survey's quota is there and notifications of it have been applied, its status is open if the last of
-- them, by Toluna's own times, says that it is live, and full if it says that it is not.
pub quota-newest :
    (sha256 : Identity → ℕ) (survey : ℕ) (quota_id : Option ℕ) {s t : Db} (j k : ℕ) (q : Quota)
    (n : Notification) (live : Bool)
    → Reach sha256 s t
    → Keyed s
    → ((i : ℕ) (m : Notification)
        → lookup i s.notifications ≡ some m
        → ¬ IsNotice survey quota_id m)
    → quota_of t survey quota_id ≡ some (j, q)
    → IsNewest survey quota_id t.notifications k n
    → n.payload.is_live ≡ some live
    → q.status ≡ (if live then open_quota else full_quota)
quota-newest sha256 survey quota_id {s} {t} j k q n live r keyed start at is_last says =
    let without = without_newest survey quota_id s.notifications keyed.0 start in
    let before : FollowsNewest survey quota_id s = rw without tt in
    let (keyed', after) = Reach-IsKept sha256 survey quota_id r (keyed, before) in
    let found = IsNewest-newest survey quota_id k n t.notifications keyed'.0 is_last in
    subst (λ x. Follows x (some (k, n))) at
      (subst (Follows (quota_of t survey quota_id)) found after)
    ∙ ap live_status says

-- ===== src/Toluna/Once.antt =====
-- A notification that is delivered again, and a termination that comes after the completion
-- (`ingest_toluna_notification` and `_apply_attempt_event` of surveys/toluna_notifications.py).
use quant_tool.Base.{
  ℕ, ◌≡◌, ap, ◌∙◌, true, false, some, arith, ◌==◌, ==_refl, inl, inr, Option-cases,
}
use quant_tool.Base.Table.{lookup, update, lookup-update}
use quant_tool.Base.Lists.{find}
use quant_tool.Base.Keys.{HasDistinctKeys, find-lookup}
use quant_tool.Base.Result.{ok}
use quant_tool.Toluna.{EventType, Payload, Notification, Db, validate_payload}
use quant_tool.Toluna.Ingest.{
  Identity, counted_again, event_number, has_hash, earlier_delivery, ingest_toluna_notification,
}
use quant_tool.Toluna.Ingest.Branches.{hash_of, known_delivery, ingest_again}
use quant_tool.Toluna.Newest.Event.{reconcile_stays}

-- The row of an known_delivery delivery is there, for the same event.
pub earlier_row :
    (event : EventType) (hash anonymous_hash : ℕ) (db : Db) (k : ℕ) (n : Notification)
    → HasDistinctKeys db.notifications
    → earlier_delivery event hash anonymous_hash db ≡ some (k, n)
    → (lookup k db.notifications ≡ some n)
      × (event_number n.event_type == event_number event ≡ true)
unfolding earlier_delivery
earlier_row event hash anonymous_hash db k n d e =
    elim (Option-cases (find (has_hash event hash) db.notifications)) [
      | inr (row, f) ↦
          let g : find (has_hash event hash) db.notifications ≡ some (k, n) =
            ground (arith, e, f) in
          let (there, same) = find-lookup (has_hash event hash) k n db.notifications d g in
          (there, ground (arith, same))
      | inl f ↦
          let g : find (has_hash event anonymous_hash) db.notifications ≡ some (k, n) =
            ground (arith, e, f) in
          let (there, same) =
            find-lookup (has_hash event anonymous_hash) k n db.notifications d g in
          (there, ground (arith, same))
    ]

-- Where a valid notification has been received before and applied, its delivery counts one more
-- duplicate on that row with the time of its reception, and changes nothing else; the answer names the
-- row and says that it was a duplicate.
pub ingest-once :
    (sha256 : Identity → ℕ) (now key : ℕ) (event : EventType) (p : Payload) (db : Db) (k : ℕ)
    (n : Notification)
    → HasDistinctKeys db.notifications
    → validate_payload event p ≡ ok tt
    → known_delivery sha256 now key event p db ≡ some (k, n)
    → n.applied ≡ true
    → ingest_toluna_notification sha256 now key event p db
      ≡ (ok (k, true), record db { notifications = update k (counted_again now) db.notifications })
ingest-once sha256 now key event p db k n d valid found done =
    let counted = record db { notifications = update k (counted_again now) db.notifications } in
    let (there, same) = earlier_row event (hash_of sha256 now key event p db) _ db k n d found in
    let row : lookup k counted.notifications ≡ some (counted_again now n) =
      ground (arith, lookup-update k k (counted_again now) db.notifications, there, ==_refl k) in
    ingest_again sha256 now key event p db k n valid found
    ∙ ap (λ x. (ok (k, true), x))
        (reconcile_stays now k false counted (counted_again now n) row (ground (arith, done)))

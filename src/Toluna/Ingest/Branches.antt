-- ===== src/Toluna/Ingest/Branches.antt =====
-- What `ingest_toluna_notification` returns and leaves on each of its branches.
use quant_tool.Base.{ℕ, ◌≡◌, refl, true, false, Option, none, some}
use quant_tool.Base.Table.{update, create}
use quant_tool.Base.Result.{ok, err}
use quant_tool.Toluna.{
  EventType, Payload, Notification, Db, Invalid, validate_payload, resolve_links,
}
use quant_tool.Toluna.Ingest.{
  Identity, canonical_identity, earlier_delivery, counted_again, new_notification,
  reconcile_notification, ingest_toluna_notification,
}

module _ (sha256 : Identity → ℕ) (now key : ℕ) (event : EventType) (p : Payload) (db : Db) where
  abbrev pub hash_of : ℕ
  hash_of = sha256 (canonical_identity event p (resolve_links db p).integration)

  -- The row of an known_delivery delivery of the payload.
  abbrev pub known_delivery : Option (ℕ × Notification)
  known_delivery = earlier_delivery event hash_of (sha256 (canonical_identity event p none)) db

  pub ingest_refused :
      (e : Invalid)
      → validate_payload event p ≡ err e
      → ingest_toluna_notification sha256 now key event p db ≡ (err e, db)
  unfolding ingest_toluna_notification
  ingest_refused e f = rw (ingest_toluna_notification, f) refl

  pub ingest_again :
      (k : ℕ) (n : Notification)
      → validate_payload event p ≡ ok tt
      → known_delivery ≡ some (k, n)
      → ingest_toluna_notification sha256 now key event p db ≡ (
        ok (k, true),
        reconcile_notification now false k
            (record db { notifications = update k (counted_again now) db.notifications }),
      )
  unfolding ingest_toluna_notification
  ingest_again k n f g = rw (ingest_toluna_notification, f, g) refl

  pub ingest_first :
      validate_payload event p ≡ ok tt
      → known_delivery ≡ none
      → ingest_toluna_notification sha256 now key event p db ≡ (
        ok (key, false),
        reconcile_notification now false key (record db {
          notifications =
              create key
                (new_notification event p (resolve_links db p) hash_of now)
                db.notifications;
        }),
      )
  unfolding ingest_toluna_notification
  ingest_first f g = rw (ingest_toluna_notification, f, g) refl

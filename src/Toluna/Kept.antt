-- ===== src/Toluna/Kept.antt =====
-- A termination that comes after the completion (`_apply_attempt_event` of
-- surveys/toluna_notifications.py).
use quant_tool.Base.{
  ℕ, ◌≡◌, refl, ap, sym, subst, ◌∙◌, some_same, Bool, true, false, not, ◌&&◌, ◌||◌, none, some,
  arith, ◌==◌, ==_refl, ==→eq, inl, inr, Option-cases, Bool-cases,
}
use quant_tool.Base.Table.{lookup, update, create, lookup-update, lookup-create}
use quant_tool.Base.Keys.{HasDistinctKeys}
use quant_tool.Base.Result.{Result-cases}
use quant_tool.Vendors.Models.{completed}
use quant_tool.SupplierCallbacks.{same_status}
use quant_tool.Toluna.{
  EventType, member_complete, member_terminate, enhanced_termination, quota_status, survey_closed,
  reconciliation, Payload, Respondent, Notification, Db, validate_payload, resolve_links,
  is_quota_event,
}
use quant_tool.Toluna.Events.{
  newer_exists, quota_of, apply_quota_event, apply_closed_event, attempt_status_for,
  replaces_completion, state_of, apply_to_attempt, apply_attempt_event, apply_operational_event,
}
use quant_tool.Toluna.Ingest.{
  Identity, counted_again, new_notification, event_number, relinked, reconcile_notification,
  ingest_toluna_notification,
}
use quant_tool.Toluna.Ingest.Branches.{
  hash_of, known_delivery, ingest_refused, ingest_again, ingest_first,
}
use quant_tool.Toluna.Once.{earlier_row}
use quant_tool.Toluna.Newest.Event.{
  as_quota_event, is_quota_event→eq, other_event, reconcile_stays, reconcile_runs,
}

-- The table of attempts after an event on the attempt `i`.
written_attempt :
    (now : ℕ) (n : Notification) (db : Db) (i : ℕ) (q : Respondent)
    → n.attempt ≡ some i
    → lookup i db.respondents ≡ some q
    → (apply_attempt_event now n db).1.respondents
      ≡ update i
          (λ r. record r {
            attempt = (apply_to_attempt n.event_type n.payload now i (state_of q db)).1.attempt;
          })
          db.respondents
unfolding apply_attempt_event
written_attempt now n db i q e f = ground (arith, e, f)

module _ (a : ℕ) (r : Respondent) (done : r.attempt.status ≡ completed) where
  -- The row `a` is `r`.
  abbrev IsThere : Db → Type 0
  IsThere db = lookup a db.respondents ≡ some r

  kept_attempt :
      (event : EventType) (p : Payload) (now : ℕ) (db : Db)
      → replaces_completion event ≡ false
      → (apply_to_attempt event p now a (state_of r db)).1 ≡ state_of r db
  unfolding apply_to_attempt
  kept_attempt event p now db other = elim (Option-cases (attempt_status_for event p)) [
    | inl e ↦ rw (apply_to_attempt, e) refl
    | inr (status, e) ↦
        let stays : same_status r.attempt.status completed && not (replaces_completion event)
            ≡ true =
          rw (done, other) refl in
        rw (apply_to_attempt, e, stays) refl
  ]

  attempt_kept :
      (now : ℕ) (n : Notification) (db : Db)
      → replaces_completion n.event_type ≡ false
      → IsThere db
      → IsThere (apply_attempt_event now n db).1
  unfolding apply_attempt_event
  attempt_kept now n db other there = elim (Option-cases n.attempt) [
    | inl e ↦ ground (arith, e, there)
    | inr (i, e) ↦ elim (Option-cases (lookup i db.respondents)) [
      | inl f ↦ ground (arith, e, f, there)
      | inr (q, f) ↦
          let wrote = λ (u : Respondent). record u {
            attempt = (apply_to_attempt n.event_type n.payload now i (state_of q db)).1.attempt;
          } in
          let look = lookup-update a i wrote db.respondents in
          ap (lookup a) (written_attempt now n db i q e f) ∙ elim (Bool-cases (i == a)) [
            | inr apart ↦ ground (arith, look, apart, there)
            | inl same ↦
                let i_a = ==→eq i a same in
                let q_r : q ≡ r =
                  some_same (sym f ∙ ap (λ x. lookup x db.respondents) i_a ∙ there) in
                let stays : (apply_to_attempt n.event_type n.payload now i (state_of q db)).1
                    ≡ state_of r db =
                  subst
                    (λ x.
                      (apply_to_attempt n.event_type n.payload now x (state_of q db)).1
                      ≡ state_of r db)
                    (sym i_a)
                    (subst
                      (λ x.
                        (apply_to_attempt n.event_type n.payload now a (state_of x db)).1
                        ≡ state_of r db)
                      (sym q_r) (kept_attempt n.event_type n.payload now db other)) in
                let first : lookup a (update i wrote db.respondents) ≡ some (wrote r) =
                  ground (arith, look, same, there) in
                first ∙ ap (λ x. some (record r { attempt = x.attempt })) stays
          ]
    ]
  ]

  quota_kept :
      (k : ℕ) (n : Notification) (db : Db) → IsThere db → IsThere (apply_quota_event k n db).1
  unfolding apply_quota_event
  quota_kept k n db there = elim (Option-cases n.survey) [
    | inl e ↦ ground (arith, e, there)
    | inr (s, e) ↦ elim (Option-cases (quota_of db s n.payload.quota_id)) [
      | inl f ↦ ground (arith, e, f, there)
      | inr (row, f) ↦ elim (Bool-cases (newer_exists (k, n) db.notifications)) [
        | inl g ↦ ground (arith, e, f, g, there)
        | inr g ↦ ground (arith, e, f, g, there)
      ]
    ]
  ]

  closed_kept : (n : Notification) (db : Db) → IsThere db → IsThere (apply_closed_event n db).1
  unfolding apply_closed_event
  closed_kept n db there = elim (Option-cases n.survey) [
    | inl e ↦ ground (arith, e, there)
    | inr (s, e) ↦ ground (arith, e, there)
  ]

  event_kept :
      (now k : ℕ) (n : Notification) (db : Db)
      → replaces_completion n.event_type ≡ false
      → IsThere db
      → IsThere (apply_operational_event now k n db).1
  event_kept now k n db other there = elim (Bool-cases (is_quota_event n.event_type)) [
    | inl kind ↦
        rw (as_quota_event now k n db (is_quota_event→eq n.event_type kind))
          (quota_kept k n db there)
    | inr kind ↦ elim (other_event now k n db n.event_type refl kind) [
      | inl e ↦ rw e (closed_kept n db there)
      | inr e ↦ rw e (attempt_kept now n db other there)
    ]
  ]

  relinked_event : (db : Db) (n : Notification) → (relinked db n).event_type ≡ n.event_type
  unfolding relinked
  relinked_event db n = refl

  reconcile_kept :
      (now k : ℕ) (replay : Bool) (db : Db) (n : Notification)
      → lookup k db.notifications ≡ some n
      → replaces_completion n.event_type ≡ false
      → IsThere db
      → IsThere (reconcile_notification now replay k db)
  reconcile_kept now k replay db n row other there = elim (Bool-cases (n.applied && not replay)) [
    | inl over ↦ rw (reconcile_stays now k replay db n row over) there
    | inr due ↦ rw (reconcile_runs now k replay db n row due) (
        event_kept now k (relinked db n) db (ap replaces_completion (relinked_event db n) ∙ other)
          there)
  ]

by_number : (e : EventType) → replaces_completion e ≡ (event_number e == 0) || (event_number e == 5)
by_number member_complete = refl
by_number member_terminate = refl
by_number enhanced_termination = refl
by_number quota_status = refl
by_number survey_closed = refl
by_number reconciliation = refl

same_event :
    (e f : EventType)
    → event_number e == event_number f ≡ true
    → replaces_completion e ≡ replaces_completion f
same_event e f h =
    by_number e
    ∙ ap (λ x. (x == 0) || (x == 5)) (==→eq (event_number e) (event_number f) h)
    ∙ sym (by_number f)

-- A delivery of an event that is neither a completion nor a reconciliation leaves the row of every
-- completed attempt as it is, whatever it names, where the notifications have distinct keys and the
-- new one's key is unused.
pub completed_stays :
    (sha256 : Identity → ℕ) (now key : ℕ) (event : EventType) (p : Payload) (db : Db) (a : ℕ)
    (r : Respondent)
    → HasDistinctKeys db.notifications
    → lookup key db.notifications ≡ none
    → replaces_completion event ≡ false
    → lookup a db.respondents ≡ some r
    → r.attempt.status ≡ completed
    → lookup a (ingest_toluna_notification sha256 now key event p db).1.respondents ≡ some r
completed_stays sha256 now key event p db a r d fresh other there done =
    elim (Result-cases (validate_payload event p)) [
      | inr (why, e) ↦ rw (ingest_refused sha256 now key event p db why e) there
      | inl (_, e) ↦ elim (Option-cases (known_delivery sha256 now key event p db)) [
        | inr ((k, n), f) ↦
            let counted = record db {
              notifications = update k (counted_again now) db.notifications;
            } in
            let (at, same) = earlier_row event (hash_of sha256 now key event p db) _ db k n d f in
            let row : lookup k counted.notifications ≡ some (counted_again now n) =
              ground
                (arith, lookup-update k k (counted_again now) db.notifications, at, ==_refl k) in
            rw (ingest_again sha256 now key event p db k n e f) (
              reconcile_kept a r done now k false counted (counted_again now n) row
                (same_event n.event_type event same ∙ other) there)
        | inl f ↦
            let n =
              new_notification event p (resolve_links db p) (hash_of sha256 now key event p db)
                now in
            let created = record db { notifications = create key n db.notifications } in
            let row : lookup key created.notifications ≡ some n =
              ground (arith, lookup-create key key n db.notifications, fresh, ==_refl key) in
            rw (ingest_first sha256 now key event p db e f)
              (reconcile_kept a r done now key false created n row other there)
      ]
    ]

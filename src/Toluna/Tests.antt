-- ===== src/Toluna/Tests.antt =====
-- Deliveries of notifications on concrete tables (surveys/toluna_notifications.py).
use quant_tool.Base.{
  ◌≤◌, arith, ℕ, ◌+◌, ◌*◌, ◌≡◌, refl, sym, subst, ◌==◌, if◌then◌else◌, Bool, true, false, Option,
  none, some, [], ◌∷◌,
}
use quant_tool.Base.Table.{Table, lookup, update}
use quant_tool.Base.Keys.{HasDistinctKeys, any-lookup}
use quant_tool.Base.Result.{ok}
use quant_tool.Inventory.{live}
use quant_tool.Vendors.Models.{completed}
use quant_tool.Journey.{toluna_notification}
use quant_tool.Toluna.{
  member_terminate, quota_status, Payload, Survey, open_quota, full_quota, Quota, Respondent,
  Notification, Db, validate_payload, has_identity, toluna_surveys, unambiguous_survey,
  is_candidate, latest_initiated, linked_attempt, resolve_links,
}
use quant_tool.Toluna.Events.{
  is_newer, controls_same, newer_exists, with_quota_status, quota_of, apply_quota_event,
  apply_operational_event,
}
use quant_tool.Toluna.Ingest.{
  Identity, completion, whole_payload, survey_provider_identity, keeps_survey, relinked,
  reconcile_notification, canonical_identity, earlier_delivery, counted_again,
  ingest_toluna_notification,
}
use quant_tool.Toluna.Ingest.Branches.{known_delivery}
use quant_tool.Base.Lists.{contains}
use quant_tool.Toluna.Newest.After.{is_after, IsNotice, IsNewest}
use quant_tool.Toluna.Newest.Keyed.{Keyed}
use quant_tool.Toluna.Newest.Restored.{replay-restores}
use quant_tool.Toluna.Replay.{operational_notification_ids}
use quant_tool.Toluna.Replay.Runs.{
  all_types, reconcile_toluna_operational_notifications,
  reconcile_toluna_operational_notifications_for_surveys,
}
use quant_tool.Toluna.Replay.Bounds.{reconciled_within}
use quant_tool.Toluna.Replay.Due.{IsDue, quota_state, due_included}
use quant_tool.Toluna.Newest.Deliveries.{Reach, here, next, deliver, quota-newest}
use quant_tool.Toluna.Once.{ingest-once}
use quant_tool.Toluna.Kept.{completed_stays}

abbrev hash : Identity → ℕ
hash (completion integration survey_id wave_id code) = 0
hash (whole_payload none content) = 2 * content
hash (whole_payload (some k) content) = 2 * content + 1

abbrev survey : Survey
survey = record {
  is_toluna = true;
  integration = some 2;
  source_id = some 100;
  source_key = (100, some 1);
  raw_survey_id = some 100;
  raw_wave_id = some 1;
  status = live;
  remaining = 50;
}

abbrev quota : Quota
quota = record { survey = 5; quota_id = some 40; remaining = 9; status = open_quota }

abbrev done : Respondent
done = record {
  rid = 77;
  provider_profile_uid = "u1";
  prescreener_uid = "";
  survey = 5;
  attempt = record {
    status = completed;
    status_source = toluna_notification;
    initiated_at = 1000000;
    submitted_at = some 2000000;
    redirected_at = some 3000000;
    callback_at = some 9000000;
    last_callback_at = some 9000000;
    callback_count = 1;
    loi_seconds = some 8;
    is_verified = true;
    initiation_ip = none;
    callback_ip = none;
    upstream_checked_at = none;
    has_outbound_url = true;
  };
}

abbrev start : Db
start = record {
  surveys = (5, survey) ∷ [];
  quotas = (7, quota) ∷ [];
  respondents = (3, done) ∷ [];
  notifications = [];
  vendors = record {
    users = [];
    clients = [];
    units = [];
    rules = [];
    surveys = [];
    client_allocations = [];
    survey_allocations = [];
    attempts = [];
    reservations = [];
  };
}

abbrev quota_payload : Option ℕ → Bool → ℕ → Payload
quota_payload occurred_at is_live content = record {
  survey_id = some 100;
  wave_id = some 1;
  unique_code = "";
  reason_key = "";
  names_fraud = false;
  supplied_rid = none;
  quota_id = some 40;
  is_live = some is_live;
  occurred_at = occurred_at;
  content = content;
}

-- The quota is full at 10 and open again at 20; the notices come the other way round.
abbrev reopened : Payload
reopened = quota_payload (some 20) true 1

abbrev filled : Payload
filled = quota_payload (some 10) false 2

abbrev after_one : Db
after_one = (ingest_toluna_notification hash 1000 1 quota_status reopened start).1

abbrev after_two : Db
after_two = (ingest_toluna_notification hash 2000 2 quota_status filled after_one).1

abbrev noted : Payload → ℕ → ℕ → Notification
noted payload payload_hash at = record {
  event_type = quota_status;
  payload_hash = payload_hash;
  integration = some 2;
  survey = some 5;
  attempt = none;
  payload = payload;
  applied = true;
  duplicate_count = 0;
  received_at = at;
  last_received_at = at;
}

one_left : after_one ≡ record start { notifications = (1, noted reopened 3 1000) ∷ [] }
unfolding ingest_toluna_notification validate_payload resolve_links toluna_surveys has_identity
    unambiguous_survey linked_attempt is_candidate latest_initiated canonical_identity
    earlier_delivery reconcile_notification relinked keeps_survey survey_provider_identity
    apply_operational_event apply_quota_event quota_of newer_exists is_newer controls_same
    with_quota_status
one_left = refl

two_left :
    after_two
    ≡ record start { notifications = (1, noted reopened 3 1000) ∷ (2, noted filled 5 2000) ∷ [] }
unfolding ingest_toluna_notification validate_payload resolve_links toluna_surveys has_identity
    unambiguous_survey linked_attempt is_candidate latest_initiated canonical_identity
    earlier_delivery reconcile_notification relinked keeps_survey survey_provider_identity
    apply_operational_event apply_quota_event quota_of newer_exists is_newer controls_same
    with_quota_status
two_left = refl

path : Reach hash start after_two
unfolding ingest_toluna_notification validate_payload resolve_links toluna_surveys has_identity
    unambiguous_survey linked_attempt is_candidate latest_initiated canonical_identity
    earlier_delivery reconcile_notification relinked keeps_survey survey_provider_identity
    apply_operational_event apply_quota_event quota_of newer_exists is_newer controls_same
    with_quota_status
path =
    next (next here (deliver 1000 1 quota_status reopened refl refl))
      (deliver 2000 2 quota_status filled refl refl)

abbrev received : Table Notification
received = (1, noted reopened 3 1000) ∷ (2, noted filled 5 2000) ∷ []

nothing_yet :
    (k : ℕ) (n : Notification) → lookup k start.notifications ≡ some n → ¬ IsNotice 5 (some 40) n
nothing_yet k n e = cc

not_after :
    (j : ℕ) (m : Notification)
    → lookup j received ≡ some m
    → is_after (1, noted reopened 3 1000) (j, m) ≡ false
not_after j m e = any-lookup (is_after (1, noted reopened 3 1000)) j m received refl e

first-IsNewest : IsNewest 5 (some 40) after_two.notifications 1 (noted reopened 3 1000)
first-IsNewest =
    subst (λ db. IsNewest 5 (some 40) db.notifications 1 (noted reopened 3 1000)) (sym two_left)
      (refl, (refl, refl, refl, refl), (λ j m there notice. not_after j m there))

quota_there : quota_of after_two 5 (some 40) ≡ some (7, quota)
unfolding ingest_toluna_notification validate_payload resolve_links toluna_surveys has_identity
    unambiguous_survey linked_attempt is_candidate latest_initiated canonical_identity
    earlier_delivery reconcile_notification relinked keeps_survey survey_provider_identity
    apply_operational_event apply_quota_event quota_of newer_exists is_newer controls_same
    with_quota_status
quota_there = refl

quota-newest_example : quota.status ≡ (if true then open_quota else full_quota)
quota-newest_example =
    quota-newest hash 5 (some 40) 7 1 quota (noted reopened 3 1000) true path (tt, ((refl, tt)))
      nothing_yet quota_there first-IsNewest refl

-- The same notice again.
valid : validate_payload quota_status reopened ≡ ok tt
unfolding validate_payload
valid = refl

delivered :
    known_delivery hash 3000 2 quota_status reopened after_one ≡ some (1, noted reopened 3 1000)
unfolding ingest_toluna_notification validate_payload resolve_links toluna_surveys has_identity
    unambiguous_survey linked_attempt is_candidate latest_initiated canonical_identity
    earlier_delivery reconcile_notification relinked keeps_survey survey_provider_identity
    apply_operational_event apply_quota_event quota_of newer_exists is_newer controls_same
    with_quota_status
delivered = refl

one_keyed : HasDistinctKeys after_one.notifications
unfolding ingest_toluna_notification validate_payload resolve_links toluna_surveys has_identity
    unambiguous_survey linked_attempt is_candidate latest_initiated canonical_identity
    earlier_delivery reconcile_notification relinked keeps_survey survey_provider_identity
    apply_operational_event apply_quota_event quota_of newer_exists is_newer controls_same
    with_quota_status
one_keyed = (refl, tt)

ingest-once_example : ingest_toluna_notification hash 3000 2 quota_status reopened after_one ≡ (
  ok (1, true),
  record after_one { notifications = update 1 (counted_again 3000) after_one.notifications },
)
ingest-once_example =
    ingest-once hash 3000 2 quota_status reopened after_one 1 (noted reopened 3 1000) one_keyed
      valid delivered refl

-- A termination after the completion.
abbrev ended : Payload
ended = record (quota_payload (some 30) false 4) { unique_code = "u1"; reason_key = "quotafull" }

completed_stays_example :
    lookup 3 (ingest_toluna_notification hash 4000 2 member_terminate ended start).1.respondents
    ≡ some done
completed_stays_example =
    completed_stays hash 4000 2 member_terminate ended start 3 done tt refl refl refl refl

-- An inventory run has written another status.
abbrev overwritten : Db
overwritten = record after_one {
  quotas = (7, record quota { remaining = 0; status = full_quota }) ∷ [];
}

still_linked : (relinked overwritten (noted reopened 3 1000)).survey ≡ some 5
unfolding ingest_toluna_notification validate_payload resolve_links toluna_surveys has_identity
    unambiguous_survey linked_attempt is_candidate latest_initiated canonical_identity
    earlier_delivery reconcile_notification relinked keeps_survey survey_provider_identity
    apply_operational_event apply_quota_event quota_of newer_exists is_newer controls_same
    with_quota_status
still_linked = refl

only_one :
    (j : ℕ) (m : Notification)
    → lookup j ((1, noted reopened 3 1000) ∷ []) ≡ some m
    → is_after (1, noted reopened 3 1000) (j, m) ≡ false
only_one j m e =
    any-lookup (is_after (1, noted reopened 3 1000)) j m ((1, noted reopened 3 1000) ∷ []) refl e

kept-IsNewest : IsNewest 5 (some 40) overwritten.notifications 1 (noted reopened 3 1000)
kept-IsNewest =
    subst (λ db. IsNewest 5 (some 40) db.notifications 1 (noted reopened 3 1000)) (sym one_left)
      (refl, (refl, refl, refl, refl), (λ j m there notice. only_one j m there))

quota_found :
    quota_of overwritten 5 (some 40) ≡ some (7, record quota { remaining = 0; status = full_quota })
unfolding quota_of ingest_toluna_notification
quota_found = refl

overwritten-Keyed : Keyed overwritten
unfolding ingest_toluna_notification validate_payload resolve_links toluna_surveys has_identity
    unambiguous_survey linked_attempt is_candidate latest_initiated canonical_identity
    earlier_delivery reconcile_notification relinked keeps_survey survey_provider_identity
    apply_operational_event apply_quota_event quota_of newer_exists is_newer controls_same
    with_quota_status
overwritten-Keyed = ((refl, tt), (refl, tt))

replay-restores_example :
    quota_of (reconcile_notification 5000 true 1 overwritten) 5 (some 40)
    ≡ some (
      7,
      record quota {
        status = if true then open_quota else full_quota;
        remaining = if true then (if 0 == 0 then 1 else 0) else 0;
      },
    )
replay-restores_example =
    replay-restores 5 (some 40) 5000 1 7 (noted reopened 3 1000) true
      (record quota { remaining = 0; status = full_quota }) overwritten overwritten-Keyed
      kept-IsNewest refl still_linked quota_found

reconciled_within_example :
    ((reconcile_toluna_operational_notifications 5000 survey true none overwritten).0 ≤ 200)
    × ((reconcile_toluna_operational_notifications_for_surveys 5000
          (survey ∷ [])
          all_types
          none
          overwritten).0
        ≤ 200)
reconciled_within_example =
    reconciled_within 5000 survey true (survey ∷ []) all_types none overwritten

received-HasDistinctKeys : HasDistinctKeys received
received-HasDistinctKeys = (refl, (refl, tt))

first-IsDue : IsDue received all_types (some 500) 1 (noted reopened 3 1000)
first-IsDue =
    quota_state 100 1 40 refl (omega arith)
      (refl, (refl, refl, refl, refl, refl), (λ j m there kind. not_after j m there))

due_included_example :
    contains 1 (operational_notification_ids received received all_types (some 500) 200) ≡ true
due_included_example =
    due_included received received all_types (some 500) 200 1 (noted reopened 3 1000)
      received-HasDistinctKeys (ground arith) refl first-IsDue

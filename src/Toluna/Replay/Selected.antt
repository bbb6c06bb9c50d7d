-- ===== src/Toluna/Replay/Selected.antt =====
-- What the selection of surveys/toluna_notifications.py `_operational_notification_ids` keeps where its
-- limit leaves room.
use quant_tool.Base.{
  ℕ, ◌+◌, ◌-◌, ◌≤◌, ◌≡◌, refl, ap, ◌∙◌, Bool, true, false, ◌&&◌, ◌||◌, Option, some, List, [], ◌∷◌,
  ◌++◌, ◌==◌, arith, inl, inr, Bool-cases, if◌then◌else◌,
}
use quant_tool.Base.Table.{Table, lookup}
use quant_tool.Base.Lists.{length, take, select, contains}
use quant_tool.Toluna.{
  EventType, member_complete, member_terminate, enhanced_termination, quota_status, survey_closed,
  reconciliation, Notification, is_quota_event,
}
use quant_tool.Toluna.Replay.{
  EventTypes, is_close_event, latest_applied_operational_ids, operational_notification_ids,
  is_latest_close, is_latest_quota, by_reception, by_occurrence, received_since, is_unapplied,
}
use quant_tool.Toluna.Replay.Bounds.{length_++}
use quant_tool.Toluna.Replay.Order.{
  contains_++, take_all, contains-from_keys, length-order_by, lookup-select, lookup-length, keys_of,
  keys_of-has,
}

close_or_quota : (e : EventType) → is_close_event e && is_quota_event e ≡ false
close_or_quota quota_status = refl
close_or_quota survey_closed = refl
close_or_quota member_complete = refl
close_or_quota member_terminate = refl
close_or_quota enhanced_termination = refl
close_or_quota reconciliation = refl

module _ (all : Table Notification) where
  -- No row is of two of the three kinds.
  one_kind :
      (row : ℕ × Notification)
      → (is_latest_close all row && is_latest_quota all row ≡ false)
        × (is_latest_close all row && is_unapplied row ≡ false)
        × (is_latest_quota all row && is_unapplied row ≡ false)
  unfolding is_latest_close is_latest_quota
  one_kind (k, n) =
      let e = close_or_quota n.event_type in (ground (arith, e), ground arith, ground arith)

  kinds_within :
      (p : ℕ × Notification → Bool) (t : Table Notification)
      → length (select (is_latest_close all) (select p t))
          + length (select (is_latest_quota all) (select p t))
          + length (select is_unapplied t)
        ≤ length t
  kinds_within p [] = ground arith
  kinds_within p ((k, n) ∷ t) =
      let (e, f, g) = one_kind (k, n) in
      let rest = kinds_within p t in
      elim (Bool-cases (p (k, n))) [
        | inr out ↦ rw out (ground arith)
        | inl passes ↦ rw passes (ground (arith, e, f, g, rest))
      ]

-- What is applied and selected by its type and time, or waits for its application.
abbrev pub is_selected : Table Notification → EventTypes → Option ℕ → ℕ × Notification → Bool
is_selected all types since row =
    is_unapplied row
    || (received_since since row
        && ((types.closed_surveys && is_latest_close all row)
            || (types.quotas && is_latest_quota all row)))

-- What is taken of both kinds, with room for all
latest_all :
    (all queryset : Table Notification) (types : EventTypes) (limit : ℕ)
    → length (select (is_latest_close all) queryset)
        + length (select (is_latest_quota all) queryset)
      ≤ limit
    → latest_applied_operational_ids all queryset types limit
      ≡ (if types.closed_surveys then keys_of by_reception (is_latest_close all) queryset else [])
        ++ (if types.quotas then keys_of by_reception (is_latest_quota all) queryset else [])
unfolding latest_applied_operational_ids
latest_all all queryset types limit room =
    let closes = keys_of by_reception (is_latest_close all) queryset in
    let quotas = keys_of by_reception (is_latest_quota all) queryset in
    let m = length-order_by by_reception (select (is_latest_close all) queryset) in
    let n = length-order_by by_reception (select (is_latest_quota all) queryset) in
    let first = take_all limit closes (ground arith) in
    elim (Bool-cases types.closed_surveys) [
      | inl e ↦
          let second = take_all (limit - length closes) quotas (ground arith) in
          rw (e, first, second) refl
      | inr e ↦ let second = take_all (limit - 0) quotas (ground arith) in rw (e, second) refl
    ]

module _ (all queryset : Table Notification) (types : EventTypes) (since : Option ℕ) (limit : ℕ)
    (room : length queryset ≤ limit) where
  abbrev recent : Table Notification
  recent = select (received_since since) queryset

  abbrev applied_ids : List ℕ
  applied_ids = latest_applied_operational_ids all recent types limit

  abbrev pending_ids : List ℕ
  pending_ids = keys_of by_occurrence is_unapplied queryset

  abbrev chosen : Bool → List ℕ → List ℕ
  chosen b ids = if b then ids else []

  applied_all :
      applied_ids
      ≡ chosen types.closed_surveys (keys_of by_reception (is_latest_close all) recent)
        ++ chosen types.quotas (keys_of by_reception (is_latest_quota all) recent)
  applied_all =
      let kinds = kinds_within all (received_since since) queryset in
      latest_all all recent types limit (ground arith)

  pending_all : take (limit - length applied_ids) pending_ids ≡ pending_ids
  pending_all =
      let kinds = kinds_within all (received_since since) queryset in
      let closes = length-order_by by_reception (select (is_latest_close all) recent) in
      let quotas = length-order_by by_reception (select (is_latest_quota all) recent) in
      let pending = length-order_by by_occurrence (select is_unapplied queryset) in
      let both =
        length_++ (chosen types.closed_surveys (keys_of by_reception (is_latest_close all) recent))
          (chosen types.quotas (keys_of by_reception (is_latest_quota all) recent)) in
      let its_length = ap length applied_all in
      take_all (limit - length applied_ids) pending_ids (ground arith)

  due_listed :
      (k : ℕ) (n : Notification)
      → lookup k queryset ≡ some n
      → is_selected all types since (k, n) ≡ true
      → contains k (applied_ids ++ pending_ids) ≡ true
  due_listed k n row due =
      let waits = keys_of-has by_occurrence is_unapplied k n queryset row in
      elim (Bool-cases (is_unapplied (k, n))) [
        | inl pending ↦
            let w = waits pending in ground (arith, contains_++ k applied_ids pending_ids, w)
        | inr applied ↦
            let r =
              lookup-select (received_since since) k n queryset row
                (ground (arith, due, applied)) in
            let closes = keys_of by_reception (is_latest_close all) recent in
            let quotas = keys_of by_reception (is_latest_quota all) recent in
            let listed =
              ap (contains k) applied_all
              ∙ contains_++ k (chosen types.closed_surveys closes) (chosen types.quotas quotas) in
            let both = contains_++ k applied_ids pending_ids in
            elim (Bool-cases (types.closed_surveys && is_latest_close all (k, n))) [
              | inl close ↦
                  let w =
                    keys_of-has by_reception (is_latest_close all) k n recent r
                      (ground (arith, close)) in
                  ground (arith, listed, both, w, close)
              | inr other ↦
                  let w =
                    keys_of-has by_reception (is_latest_quota all) k n recent r
                      (ground (arith, due, applied, other)) in
                  ground (arith, listed, both, w, due, applied, other)
            ]
      ]

pub selected_included :
    (all queryset : Table Notification) (types : EventTypes) (since : Option ℕ) (limit k : ℕ)
    (n : Notification)
    → length queryset ≤ limit
    → lookup k queryset ≡ some n
    → is_selected all types since (k, n) ≡ true
    → contains k (operational_notification_ids all queryset types since limit) ≡ true
unfolding operational_notification_ids
selected_included all queryset types since limit k n room row due =
    let listed = due_listed all queryset types since limit room k n row due in
    let kept =
      contains-from_keys k []
        (applied_ids all queryset types since limit room
          ++ pending_ids all queryset types since limit room)
        listed refl in
    let pending = pending_all all queryset types since limit room in
    elim (Bool-cases (limit == 0)) [
      | inl nothing ↦ let there = lookup-length k n queryset row in ground (arith, nothing, there)
      | inr some_room ↦ rw (some_room, pending) kept
    ]

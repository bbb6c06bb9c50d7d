-- ===== src/Inventory.antt =====
-- The synchronization of the surveys that a provider offers (surveys/services.py `merge_inventory`,
-- `_detail_changed`, `sync_surveys`), with the ids of new surveys (surveys/models.py
-- `LocalIdSequence`) and the lease that keeps two runs apart (`SyncLease`). Times are microseconds
-- and 0 is the earliest one. A payload is the columns that decide what is written, and a number for
-- its whole content.
pub mod Merge
pub mod Sync
mod Tests
use quant_tool.Base.{
  ℕ, zero, suc, ◌≡◌, ◌+◌, ◌*◌, ◌/◌, Bool, true, false, not, ◌&&◌, ◌||◌, Option, none, some, List,
  [], ◌∷◌, leb, ltb, ◌==◌, or_default, if◌then◌else◌,
}
use quant_tool.Base.Table.{Table, lookup, set_row}

-- `survey_id` is none where it is no number from 0 on.
pub record Payload : Type 0 where
  pub survey_id : Option ℕ
  pub modified : Option ℕ
  pub created : Option ℕ
  pub ends_at : Option ℕ
  pub content : ℕ

-- No two payloads have the same key.
abbrev pub IsDistinct : Table Payload → Type 0
IsDistinct [] = Unit
IsDistinct ((key, p) ∷ items) = (lookup key items ≡ none) × IsDistinct items

-- `payload_modified_at`
unfoldable pub payload_modified_at : Payload → ℕ
payload_modified_at p = or_default p.modified (or_default p.created 0)

-- The body of the loops of `merge_inventory`.
unfoldable pub merge_one : Payload → Table Payload → Table Payload
unfolding payload_modified_at
merge_one p merged = elim p.survey_id [
  | none ↦ merged
  | some k ↦ elim (lookup k merged) [
    | none ↦ set_row k p merged
    | some current ↦
        if leb (payload_modified_at current) (payload_modified_at p)
        then set_row k p merged
        else merged
  ]
]

unfoldable pub merge_all : List Payload → Table Payload → Table Payload
unfolding merge_one
merge_all [] merged = merged
merge_all (p ∷ inventory) merged = merge_all inventory (merge_one p merged)

-- `merge_inventory` of the full and the paged inventory
unfoldable pub merge_inventory : List Payload → List Payload → Table Payload
unfolding merge_all
merge_inventory full paged = merge_all paged (merge_all full [])

-- `Survey.Status`
pub data Status : Type 0 where
  live closed : Status

-- A local id, by its month and number.
pub record LocalId : Type 0 where
  pub year_month : ℕ
  pub value : ℕ

-- `LocalIdSequence`: the last value of each month.
unfoldable pub ids_from : ℕ → ℕ → ℕ → List LocalId
ids_from year_month last zero = []
ids_from year_month last (suc count) =
    record { year_month = year_month; value = last + 1 } ∷ ids_from year_month (last + 1) count

-- `LocalIdSequence.next_ids` in the month `prefix`
unfoldable pub next_ids : ℕ → ℕ → Table ℕ → List LocalId × Table ℕ
unfolding ids_from
next_ids prefix count sequences =
    let last = or_default (lookup prefix sequences) 0 in
    if ltb count 1
    then ([], sequences)
    else (ids_from prefix last count, set_row prefix (last + count) sequences)

-- `SyncLease.acquire` at the time `now`; a lease is a name with the end of its time.
unfoldable pub acquire : ℕ → ℕ → ℕ → Table (Option ℕ) → Bool × Table (Option ℕ)
acquire name seconds now leases =
    let taken : Bool × Table (Option ℕ) =
      (true, set_row name (some (now + seconds * 1000000)) leases) in
    elim (lookup name leases) [
      | none ↦ taken
      | some lease ↦ elim lease [
        | none ↦ taken
        | some locked_until ↦ if ltb now locked_until then (false, leases) else taken
      ]
    ]

-- `SyncLease.release`
unfoldable pub release : ℕ → Table (Option ℕ) → Table (Option ℕ)
release name leases = elim (lookup name leases) [
  | none ↦ leases
  | some lease ↦ set_row name none leases
]

-- The start of the second.
abbrev pub whole_second : ℕ → ℕ
whole_second t = (t / 1000000) * 1000000

-- The marker of a run: a second after the latest one where that is not in the past.
unfoldable pub snapshot_marker : ℕ → Option ℕ → ℕ
snapshot_marker now none = whole_second now
snapshot_marker now (some latest) =
    if leb (whole_second now) (whole_second latest)
    then whole_second latest + 1000000
    else whole_second now

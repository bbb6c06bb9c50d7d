-- ===== src/FinalIds.antt =====
-- surveys/final_ids.py: the client's final decision on respondent journeys, uploaded as a file of
-- RIDs. An RID, which is only compared, is a number. The reading of CSV and Excel cells, the file's
-- digest, and its name and size are not modelled: a file is the list of its RID column's cells.
pub mod Read
pub mod Outcomes
mod Tests
use quant_tool.Base.{
  ℕ, ◌+◌, Bool, true, false, not, ◌&&◌, ◌||◌, Option, none, some, List, [], ◌∷◌, ◌++◌, leb, ltb,
  ◌==◌, if◌then◌else◌, is_none,
}
use quant_tool.Base.Result.{Result, ok, err, ◌>>=◌, ◌>>◌, raise_if, or_raise}
use quant_tool.Base.Table.{Table, lookup, set_row}
use quant_tool.Base.Lists.{length, any, select, find, contains}
use quant_tool.Vendors.Models.{
  AttemptStatus, initiated, redirected, completed, terminated, over_quota, quality_terminated,
}

-- A cell as `_normalise_rid` and the tests after it sort it: empty, not ten letters or digits, or an
-- RID.
pub data Cell : Type 0 where
  blank malformed : Cell
  valid : ℕ → Cell

-- `FinalIDImportError`, by its message
pub data ImportError : Type 0 where
  too_many_rids no_rids not_first_of_month : ImportError
  no_valid_rids : ℕ → ImportError

-- MAX_UNIQUE_RIDS
abbrev pub max_unique_rids : ℕ
max_unique_rids = 50000

-- What the loop of `read_uploaded_rids` carries.
pub record Reading : Type 0 where
  pub rids : List ℕ
  pub submitted_count : ℕ
  pub invalid_rows : ℕ

abbrev pub counted : Reading → Reading
counted r = record r { submitted_count = r.submitted_count + 1 }

abbrev pub with_rid : ℕ → Reading → Reading
with_rid rid r =
    if contains rid r.rids then counted r else record (counted r) { rids = r.rids ++ rid ∷ [] }

-- One turn of the loop, with the limit on RIDs.
unfoldable pub read_cell : ℕ → Cell → Reading → Result ImportError Reading
read_cell limit blank r = ok r
read_cell limit malformed r = ok (record (counted r) { invalid_rows = r.invalid_rows + 1 })
read_cell limit (valid rid) r =
    if ltb limit (length (with_rid rid r).rids) then err too_many_rids else ok (with_rid rid r)

unfoldable pub read_cells : ℕ → List Cell → Reading → Result ImportError Reading
read_cells limit [] r = ok r
read_cells limit (cell ∷ cells) r = read_cell limit cell r >>= λ r'. read_cells limit cells r'

abbrev pub some_rids : Reading → Result ImportError Reading
some_rids r =
    if ltb 0 (length r.rids)
    then ok r
    else if ltb 0 r.invalid_rows
    then err (no_valid_rids r.invalid_rows)
    else err no_rids

abbrev pub nothing_read : Reading
nothing_read = record { rids = []; submitted_count = 0; invalid_rows = 0 }

-- `read_uploaded_rids`
unfoldable pub read_uploaded_rids : ℕ → List Cell → Result ImportError Reading
unfolding read_cells
read_uploaded_rids limit cells = read_cells limit cells nothing_read >>= some_rids

pub data Decision : Type 0 where
  accepted rejected : Decision

-- The columns of `SurveyAttempt` and of its survey and integration that are read here.
pub record Attempt : Type 0 where
  pub rid : ℕ
  pub client_id : Option ℕ
  pub survey_client_id : Option ℕ
  pub integration_client_id : Option ℕ
  pub status : AttemptStatus
  pub initiated_at : ℕ

-- `FinalIDStatus`, under its attempt's key
pub record FinalStatus : Type 0 where
  pub client_id : ℕ
  pub status : Decision
  pub accounting_month : ℕ
  pub upload_id : ℕ

pub data Outcome : Type 0 where
  applied not_found client_mismatch not_completed : Outcome

-- `FinalIDUploadItem`
pub record Item : Type 0 where
  pub rid : ℕ
  pub attempt_id : Option ℕ
  pub outcome : Outcome
  pub previous_status : Option Decision
  pub applied_status : Option Decision

-- The upload: its row's key, the call's arguments, and the month's first and next-first instant.
pub record Upload : Type 0 where
  pub pk : ℕ
  pub client_id : ℕ
  pub accounting_month : ℕ
  pub decision : Decision
  pub lower : ℕ
  pub upper : ℕ

pub record Counters : Type 0 where
  pub applied_count : ℕ
  pub not_found_count : ℕ
  pub client_mismatch_count : ℕ
  pub not_completed_count : ℕ
  pub auto_rejected_count : ℕ

-- The statuses, the items of the upload and its counters.
pub record Work : Type 0 where
  pub statuses : Table FinalStatus
  pub items : List Item
  pub counters : Counters

abbrev pub is_client : Option ℕ → ℕ → Bool
is_client none client_id = false
is_client (some c) client_id = c == client_id

-- `_attempt_matches_client`, and the condition of `_client_attempt_filter`
unfoldable pub attempt_matches_client : Attempt → ℕ → Bool
attempt_matches_client a client_id =
    is_client a.client_id client_id
    || is_client a.survey_client_id client_id
    || is_client a.integration_client_id client_id

-- `final_lifecycle_statuses`
unfoldable pub is_final : AttemptStatus → Bool
is_final completed = true
is_final terminated = true
is_final over_quota = true
is_final quality_terminated = true
is_final _ = false

-- `attempts.get(rid)`
abbrev pub attempt_of : Table Attempt → ℕ → Option (ℕ × Attempt)
attempt_of attempts rid = find (λ row. row.1.rid == rid) attempts

unfoldable pub is_eligible : ℕ → Attempt → Bool
unfolding attempt_matches_client is_final
is_eligible client_id a = attempt_matches_client a client_id && is_final a.status

abbrev pub status_of : Option FinalStatus → Option Decision
status_of none = none
status_of (some s) = some s.status

-- The row that `apply_status` saves, created or updated.
unfoldable pub decided : Upload → Decision → FinalStatus
decided u decision = record {
  client_id = u.client_id;
  status = decision;
  accounting_month = u.accounting_month;
  upload_id = u.pk;
}

-- `apply_status`. The rows that the function collects are written here at once.
unfoldable pub apply_status : Upload → ℕ → Decision → ℕ → Work → Work
unfolding decided
apply_status u attempt_id decision rid w = record w {
  statuses = set_row attempt_id (decided u decision) w.statuses;
  items =
      w.items
      ++ record {
        rid = rid;
        attempt_id = some attempt_id;
        outcome = applied;
        previous_status = status_of (lookup attempt_id w.statuses);
        applied_status = some decision;
      }
        ∷ [];
}

abbrev item_without : ℕ → Option ℕ → Outcome → Work → Work
item_without rid attempt_id outcome w = record w {
  items =
      w.items
      ++ record {
        rid = rid;
        attempt_id = attempt_id;
        outcome = outcome;
        previous_status = none;
        applied_status = none;
      }
        ∷ [];
}

abbrev count_applied : Counters → Counters
count_applied c = record c { applied_count = c.applied_count + 1 }

abbrev count_not_found : Counters → Counters
count_not_found c = record c { not_found_count = c.not_found_count + 1 }

abbrev count_client_mismatch : Counters → Counters
count_client_mismatch c = record c { client_mismatch_count = c.client_mismatch_count + 1 }

abbrev count_not_completed : Counters → Counters
count_not_completed c = record c { not_completed_count = c.not_completed_count + 1 }

abbrev count_auto_rejected : Counters → Counters
count_auto_rejected c = record c { auto_rejected_count = c.auto_rejected_count + 1 }

-- One turn of `for rid in rids`.
unfoldable pub apply_rid : Upload → Table Attempt → ℕ → Work → Work
unfolding apply_status attempt_matches_client is_final
apply_rid u attempts rid w = elim (attempt_of attempts rid) [
  | none ↦ item_without rid none not_found (record w { counters = count_not_found w.counters })
  | some (k, a) ↦
      if not (attempt_matches_client a u.client_id)
      then item_without rid (some k) client_mismatch
          (record w { counters = count_client_mismatch w.counters })
      else if not (is_final a.status)
      then item_without rid (some k) not_completed
          (record w { counters = count_not_completed w.counters })
      else apply_status u k u.decision rid (record w { counters = count_applied w.counters })
]

unfoldable pub apply_rids : Upload → Table Attempt → List ℕ → Work → Work
apply_rids u attempts [] w = w
apply_rids u attempts (rid ∷ rids) w = apply_rids u attempts rids (apply_rid u attempts rid w)

-- One turn of the loop over `auto_rejected_attempts`.
unfoldable pub rejected_one : Upload → ℕ → Attempt → Work → Work
unfolding apply_status
rejected_one u k a w =
    apply_status u k rejected a.rid (record w { counters = count_auto_rejected w.counters })

unfoldable pub reject_rest : Upload → Table Attempt → Work → Work
reject_rest u [] w = w
reject_rest u ((k, a) ∷ rows) w = reject_rest u rows (rejected_one u k a w)

abbrev pub is_completed : AttemptStatus → Bool
is_completed completed = true
is_completed _ = false

abbrev pub is_accepted : Decision → Bool
is_accepted accepted = true
is_accepted rejected = false

-- The query of `auto_rejected_attempts`.
unfoldable pub is_left_out : Upload → List ℕ → Table FinalStatus → ℕ × Attempt → Bool
unfolding attempt_matches_client
is_left_out u rids statuses (k, a) =
    attempt_matches_client a u.client_id
    && is_completed a.status
    && leb u.lower a.initiated_at
    && ltb a.initiated_at u.upper
    && not (contains a.rid rids)
    && is_none (lookup k statuses)

-- `auto_rejected_attempts`
unfoldable pub auto_rejected : Upload → List ℕ → Table FinalStatus → Table Attempt → Table Attempt
unfolding is_left_out is_eligible
auto_rejected u rids statuses attempts =
    if is_accepted u.decision
      && any (λ row. contains row.1.rid rids && is_eligible u.client_id row.1) attempts
    then select (is_left_out u rids statuses) attempts
    else []

-- `FinalIDUpload`, with the counts that the call returns too
pub record UploadRow : Type 0 where
  pub upload : Upload
  pub submitted_count : ℕ
  pub unique_rid_count : ℕ
  pub invalid_count : ℕ
  pub counters : Counters

pub record Db : Type 0 where
  pub attempts : Table Attempt
  pub statuses : Table FinalStatus
  pub uploads : Table UploadRow
  pub items : Table (List Item)

abbrev pub no_counts : Counters
no_counts = record {
  applied_count = 0;
  not_found_count = 0;
  client_mismatch_count = 0;
  not_completed_count = 0;
  auto_rejected_count = 0;
}

abbrev pub start : Table FinalStatus → Work
start statuses = record { statuses = statuses; items = []; counters = no_counts }

-- The two loops of `import_final_ids`.
unfoldable pub decide_all : Upload → List ℕ → Db → Work
decide_all u rids db =
    reject_rest u (auto_rejected u rids db.statuses db.attempts)
      (apply_rids u db.attempts rids (start db.statuses))

abbrev pub upload_row : Upload → Reading → Work → UploadRow
upload_row u r w = record {
  upload = u;
  submitted_count = r.submitted_count;
  unique_rid_count = length r.rids;
  invalid_count = r.invalid_rows;
  counters = w.counters;
}

-- The saved rows of an import whose file was read.
unfoldable pub saved : Upload → Reading → Work → Db → Db
saved u r w db = record db {
  statuses = w.statuses;
  uploads = set_row u.pk (upload_row u r w) db.uploads;
  items = set_row u.pk w.items db.items;
}

-- `import_final_ids`; `first_day` tells whether the month was given by its first day.
unfoldable pub import_final_ids : Upload → Bool → List Cell → Db → Result ImportError UploadRow × Db
unfolding decide_all
import_final_ids u first_day cells db =
    elim (raise_if (not first_day) not_first_of_month >> read_uploaded_rids max_unique_rids cells) [
      | err e ↦ (err e, db)
      | ok r ↦ let w = decide_all u r.rids db in (ok (upload_row u r w), saved u r w db)
    ]

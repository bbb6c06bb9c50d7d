-- ===== src/FinalIds/Tests.antt =====
-- Test data and runs of the final-ID import (surveys/final_ids.py).
use quant_tool.Base.{ℕ, ◌≡◌, refl, none, some, List, [], ◌∷◌}
use quant_tool.Base.Result.{ok, err}
use quant_tool.Vendors.Models.{completed, redirected}
use quant_tool.FinalIds.{
  Cell, blank, malformed, valid, too_many_rids, no_valid_rids, Reading, read_uploaded_rids,
  read_cells, read_cell, accepted, rejected, Attempt, Upload, Db, decided, decide_all,
  auto_rejected, is_left_out, is_eligible, attempt_matches_client, is_final, apply_rids, apply_rid,
  apply_status, reject_rest, rejected_one,
}

abbrev file : List Cell
file = valid 31 ∷ blank ∷ malformed ∷ valid 32 ∷ valid 31 ∷ valid 40 ∷ valid 33 ∷ []

abbrev file_read : Reading
file_read = record { rids = 31 ∷ 32 ∷ 40 ∷ 33 ∷ []; submitted_count = 6; invalid_rows = 1 }

reads : read_uploaded_rids 4 file ≡ ok file_read
unfolding read_uploaded_rids read_cells read_cell
reads = refl

reads_too_many : read_uploaded_rids 3 file ≡ err too_many_rids
unfolding read_uploaded_rids read_cells read_cell
reads_too_many = refl

reads_none : read_uploaded_rids 3 (malformed ∷ blank ∷ malformed ∷ []) ≡ err (no_valid_rids 2)
unfolding read_uploaded_rids read_cells read_cell
reads_none = refl

abbrev upload : Upload
upload = record {
  pk = 500;
  client_id = 1;
  accounting_month = 7;
  decision = accepted;
  lower = 100;
  upper = 200;
}

abbrev done : ℕ → ℕ → Attempt
done rid at = record {
  rid = rid;
  client_id = none;
  survey_client_id = some 1;
  integration_client_id = none;
  status = completed;
  initiated_at = at;
}

abbrev db : Db
db = record {
  attempts =
      (1, done 31 150)
      ∷ (2, record (done 32 150) { survey_client_id = some 2 })
      ∷ (3, record (done 33 150) { status = redirected })
      ∷ (4, done 34 150)
      ∷ (5, done 35 200)
      ∷ [];
  statuses = [];
  uploads = [];
  items = [];
}

-- The attempt 1 is accepted, 4 rejected as it is left out; another client's attempt, one that has
-- not ended and one of another month stay without a status.
decides_all :
    (decide_all upload file_read.rids db).statuses
    ≡ (1, decided upload accepted) ∷ (4, decided upload rejected) ∷ []
unfolding decide_all apply_rids apply_rid apply_status reject_rest rejected_one auto_rejected
    is_left_out is_eligible attempt_matches_client is_final
decides_all = refl

-- ===== src/FinalIds/Outcomes.antt =====
-- What an import does to each attempt's final status, and its counters (surveys/final_ids.py
-- `import_final_ids`).
use quant_tool.Base.{
  ℕ, suc, ◌+◌, ◌≡◌, refl, ap, ◌∙◌, inl, inr, Bool, false, ◌&&◌, none, some, List, [], ◌∷◌, ◌++◌,
  arith, ◌==◌, Bool-cases, Option-cases,
}
use quant_tool.Base.Table.{Table}
use quant_tool.Base.Lists.{length}
use quant_tool.FinalIds.{
  Attempt, Upload, Work, Counters, Db, attempt_of, attempt_matches_client, is_final, is_eligible,
  apply_status, apply_rid, apply_rids, reject_rest, auto_rejected, decide_all, rejected_one, start,
}

-- The RID is that of the attempt `k`, which is the client's and has one of the four final statuses.
unfoldable pub is_decided : Upload → Table Attempt → ℕ → ℕ → Bool
is_decided u attempts k rid = elim (attempt_of attempts rid) [
  | none ↦ false
  | some (j, a) ↦ is_eligible u.client_id a && (j == k)
]

-- The RIDs that an upload counted.
unfoldable pub looked_up : Counters → ℕ
looked_up c = c.applied_count + c.not_found_count + c.client_mismatch_count + c.not_completed_count

snoc_length : {A : Type 0} (x : A) (xs : List A) → length (xs ++ x ∷ []) ≡ suc (length xs)
snoc_length x [] = refl
snoc_length x (y ∷ ys) = ap suc (snoc_length x ys)

apply_rid-counted :
    (u : Upload) (attempts : Table Attempt) (rid : ℕ) (w : Work)
    → let w' = apply_rid u attempts rid w in
      (looked_up w'.counters ≡ suc (looked_up w.counters))
      × (w'.counters.auto_rejected_count ≡ w.counters.auto_rejected_count)
      × (length w'.items ≡ suc (length w.items))
unfolding apply_rid apply_status looked_up
apply_rid-counted u attempts rid w = elim (Option-cases (attempt_of attempts rid)) [
  | inl missing ↦ rw (missing, apply_rid) (omega arith, refl, snoc_length _ w.items)
  | inr ((j, a), found) ↦ elim (Bool-cases (attempt_matches_client a u.client_id)) [
    | inl matches ↦ elim (Bool-cases (is_final a.status)) [
      | inl ended ↦ rw (found, matches, ended, apply_rid) (omega arith, refl, snoc_length _ w.items)
      | inr unended ↦
          rw (found, matches, unended, apply_rid) (omega arith, refl, snoc_length _ w.items)
    ]
    | inr other ↦ rw (found, other, apply_rid) (omega arith, refl, snoc_length _ w.items)
  ]
]

apply_rids-counted :
    (u : Upload) (attempts : Table Attempt) (rids : List ℕ) (w : Work)
    → let w' = apply_rids u attempts rids w in
      (looked_up w'.counters ≡ length rids + looked_up w.counters)
      × (w'.counters.auto_rejected_count ≡ w.counters.auto_rejected_count)
      × (length w'.items ≡ length rids + length w.items)
unfolding apply_rids
apply_rids-counted u attempts [] w = (omega arith, refl, omega arith)
apply_rids-counted u attempts (rid ∷ rids) w =
    let (a, b, c) = apply_rids-counted u attempts rids (apply_rid u attempts rid w) in
    let (a', b', c') = apply_rid-counted u attempts rid w in (omega arith, b ∙ b', omega arith)

reject_rest-counted :
    (u : Upload) (rows : Table Attempt) (w : Work)
    → let w' = reject_rest u rows w in
      (looked_up w'.counters ≡ looked_up w.counters)
      × (w'.counters.auto_rejected_count ≡ length rows + w.counters.auto_rejected_count)
      × (length w'.items ≡ length rows + length w.items)
unfolding reject_rest rejected_one apply_status looked_up
reject_rest-counted u [] w = (refl, omega arith, omega arith)
reject_rest-counted u ((j, a) ∷ rows) w =
    let (x, y, z) = reject_rest-counted u rows (rejected_one u j a w) in
    (x, omega arith, z ∙ ap (λ n. length rows + n) (snoc_length _ w.items) ∙ omega arith)

-- Each RID of the file is counted under exactly one outcome and each attempt left out as rejected;
-- the upload keeps one item for each of them.
decide_all-counted :
    (u : Upload) (rids : List ℕ) (db : Db)
    → let w = decide_all u rids db in
      let left_out = auto_rejected u rids db.statuses db.attempts in
      (looked_up w.counters ≡ length rids)
      × (w.counters.auto_rejected_count ≡ length left_out)
      × (length w.items ≡ length rids + length left_out)
unfolding decide_all looked_up
decide_all-counted u rids db =
    let (a, b, c) = apply_rids-counted u db.attempts rids (start db.statuses) in
    let (x, y, z) =
      reject_rest-counted u (auto_rejected u rids db.statuses db.attempts)
        (apply_rids u db.attempts rids (start db.statuses)) in
    (omega arith, omega arith, omega arith)

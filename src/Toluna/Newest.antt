-- ===== src/Toluna/Newest.antt =====
-- The newest applied notification of a quota, by Toluna's own times.
pub mod Follows
pub mod Reconcile
pub mod Event
pub mod After
pub mod Restored
pub mod Again
pub mod Keyed
pub mod Deliveries
use quant_tool.Base.{
  ℕ, ◌≡◌, refl, ap, sym, subst, ◌∙◌, some_same, Bool, true, false, not, ◌&&◌, ◌||◌, Option, none,
  some, List, [], ◌∷◌, arith, ltb, ◌==◌, ==_refl, ==→eq, inl, inr, Option-cases, Bool-cases,
  is_some, is_none, same_option, if◌then◌else◌,
}
use quant_tool.Base.Table.{Table, lookup, update, lookup-update}
use quant_tool.Base.Keys.{
  HasDistinctKeys, update-HasDistinctKeys, find-lookup, any-lookup, lookup-any,
}
use quant_tool.Base.Lists.{any}
use quant_tool.Toluna.{Notification, Payload, is_quota_event}
use quant_tool.Toluna.Events.{is_newer, is_later_row}

newer_asym : (a b : ℕ × Notification) → is_newer a b ≡ true → is_newer b a ≡ false
unfolding is_newer
newer_asym (k, n) (j, m) e = ground arith

newer_irrefl : (a : ℕ × Notification) → is_newer a a ≡ false
unfolding is_newer
newer_irrefl (k, n) = ground arith

pub newer_total :
    (a b : ℕ × Notification) → a.0 == b.0 ≡ false → is_newer a b ≡ false → is_newer b a ≡ true
unfolding is_newer
newer_total (k, n) (j, m) ne e = ground arith

newer_trans :
    (a b c : ℕ × Notification) → is_newer a b ≡ false → is_newer b c ≡ false → is_newer a c ≡ false
unfolding is_newer
newer_trans (k, n) (j, m) (i, p) e f = ground arith

-- An applied quota notification for the quota `quota_id` of the survey.
abbrev pub is_control : ℕ → Option ℕ → ℕ × Notification → Bool
is_control survey quota_id (k, n) =
    is_quota_event n.event_type
    && n.applied
    && same_option n.survey (some survey)
    && same_option n.payload.quota_id quota_id

abbrev pub newer_of : ℕ × Notification → Option (ℕ × Notification) → ℕ × Notification
newer_of row none = row
newer_of row (some other) = if is_newer row other then other else row

module _ (is_one : ℕ × Notification → Bool) where
  -- The newest row that passes the test: by its own time, an undated one before all dated ones, then by the time of
  -- its reception and its key.
  abbrev pub newest : Table Notification → Option (ℕ × Notification)
  newest [] = none
  newest (row ∷ rows) =
      let rest = newest rows in if is_one row then some (newer_of row rest) else rest

  -- The second row passes the test and is newer.
  abbrev pub tops : ℕ × Notification → ℕ × Notification → Bool
  tops row other = is_one other && is_newer row other

  no_control : (t : Table Notification) → newest t ≡ none → any (is_one) t ≡ false
  no_control [] e = refl
  no_control (row ∷ rows) e = ground (arith, no_control rows)

  none_tops :
      (row : ℕ × Notification) (t : Table Notification)
      → any (is_one) t ≡ false
      → any (tops row) t ≡ false
  none_tops row [] e = refl
  none_tops row (other ∷ rows) e = ground (arith, none_tops row rows)

  -- What is not newer than `a` is not newer than `b`, if `a` is not.
  tops_trans :
      (b a : ℕ × Notification) (t : Table Notification)
      → is_newer b a ≡ false
      → any (tops a) t ≡ false
      → any (tops b) t ≡ false
  tops_trans b a [] e h = refl
  tops_trans b a (row ∷ rows) e h = ground (arith, tops_trans b a rows e, newer_trans b a row e)

  abbrev pub IsTop : ℕ × Notification → Table Notification → Type 0
  IsTop row t = (any (tops row) t ≡ false) × (is_one row ≡ true)

  pub newest_tops :
      (row : ℕ × Notification) (t : Table Notification) → newest t ≡ some row → IsTop row t
  newest_tops row [] e = cc
  newest_tops row (other ∷ rows) e = elim (Bool-cases (is_one other)) [
    | inr out ↦ ground (arith, newest_tops row rows, out)
    | inl control ↦
        let is_row : newer_of other (newest rows) ≡ row = some_same (sym (rw control refl) ∙ e) in
        let itself = newer_irrefl other in
        elim (Option-cases (newest rows)) [
          | inl alone ↦
              subst (λ r. IsTop r (other ∷ rows)) (sym (ap (newer_of other) alone) ∙ is_row)
                (ground (arith, itself, none_tops other rows (no_control rows alone)), control)
          | inr (best, found) ↦
              let (above, best_control) = newest_tops best rows found in
              let same = sym (ap (newer_of other) found) ∙ is_row in
              elim (Bool-cases (is_newer other best)) [
                | inl newer ↦
                    let pick : newer_of other (some best) ≡ best = rw newer refl in
                    subst (λ r. IsTop r (other ∷ rows)) (sym pick ∙ same)
                      (ground (arith, above, newer_asym other best newer), best_control)
                | inr first ↦
                    let pick : newer_of other (some best) ≡ other = rw first refl in
                    subst (λ r. IsTop r (other ∷ rows)) (sym pick ∙ same)
                      (ground (arith, itself, tops_trans other best rows first above), control)
              ]
        ]
  ]

  abbrev pub IsRow : ℕ × Notification → Table Notification → Type 0
  IsRow row t = lookup row.0 t ≡ some row.1

  pub newest-lookup :
      (row : ℕ × Notification) (t : Table Notification)
      → HasDistinctKeys t
      → newest t ≡ some row
      → IsRow row t
  newest-lookup row [] d e = cc
  newest-lookup row ((j, m) ∷ rows) d e =
      let head : IsRow (j, m) ((j, m) ∷ rows) = rw (==_refl j) refl in
      elim (Bool-cases (is_one (j, m))) [
        | inr out ↦
            let rest = newest-lookup row rows d.1 (sym (rw out refl) ∙ e) in
            ground (arith, d.0, rest)
        | inl control ↦
            let is_row : newer_of (j, m) (newest rows) ≡ row =
              some_same (sym (rw control refl) ∙ e) in
            elim (Option-cases (newest rows)) [
              | inl alone ↦
                  subst (λ r. IsRow r ((j, m) ∷ rows)) (sym (ap (newer_of (j, m)) alone) ∙ is_row)
                    head
              | inr (best, found) ↦
                  let below = newest-lookup best rows d.1 found in
                  let later : IsRow best ((j, m) ∷ rows) = ground (arith, d.0, below) in
                  let same = sym (ap (newer_of (j, m)) found) ∙ is_row in
                  elim (Bool-cases (is_newer (j, m) best)) [
                    | inl newer ↦
                        let pick : newer_of (j, m) (some best) ≡ best = rw newer refl in
                        subst (λ r. IsRow r ((j, m) ∷ rows)) (sym pick ∙ same) later
                    | inr first ↦
                        let pick : newer_of (j, m) (some best) ≡ (j, m) = rw first refl in
                        subst (λ r. IsRow r ((j, m) ∷ rows)) (sym pick ∙ same) head
                  ]
            ]
      ]

  -- The newest such row is the only one that none tops.
  pub top-newest :
      (k : ℕ) (n : Notification) (t : Table Notification)
      → HasDistinctKeys t
      → lookup k t ≡ some n
      → IsTop (k, n) t
      → newest t ≡ some (k, n)
  top-newest k n t d row (above, control) = elim (Option-cases (newest t)) [
    | inl without ↦
        let out = any-lookup (is_one) k n t (no_control t without) row in
        ground (arith, out, control)
    | inr ((i, m), found) ↦
        let (over, other_control) = newest_tops (i, m) t found in
        let other_row = newest-lookup (i, m) t d found in
        let e = any-lookup (tops (k, n)) i m t above other_row in
        let f = any-lookup (tops (i, m)) k n t over row in
        elim (Bool-cases (k == i)) [
          | inr other ↦ ground (arith, newer_total (k, n) (i, m) other)
          | inl same ↦
              let i_k = sym (==→eq k i same) in
              let m_n : m ≡ n = some_same (sym other_row ∙ ap (λ x. lookup x t) i_k ∙ row) in
              subst (λ u. newest t ≡ some (k, u)) m_n
                (subst (λ x. newest t ≡ some (x, m)) i_k found)
        ]
  ]

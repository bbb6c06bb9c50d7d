-- ===== src/ReportPricing/Visible.antt =====
-- What a viewer without the admin's rights can learn of the source CPI (surveys/report_pricing.py).
use quant_tool.Base.{
  ℕ, ◌+◌, ◌*◌, ◌/◌, ◌≤◌, ◌≡◌, refl, inl, inr, true, false, Option, some, arith, if◌then◌else◌,
  Bool-cases,
}
use quant_tool.Base.Int.{ℤ, pos, negsuc, ◌≤ℤ◌, pos_part, ◌-ℤ◌, int_laws}
use quant_tool.Money.{hundred, percentage, part_of, payable_cpi, apply_percentage}
use quant_tool.Money.Agree.{percentage_clamps, apply_percentage-payable_cpi, complement}
use quant_tool.ReportPricing.{
  Viewer, Priced, role_visibility_percent, is_external_vendor_scope, can_view_report_commercials,
  external_base, viewer_attempt_cpi,
}

-- A signed-in viewer in an external supplier's workspace who is not a superuser.
module _ (v : Viewer) (signed_in : v.is_authenticated ≡ true) (plain : v.is_superuser ≡ false)
    (outside : v.in_external_workspace ≡ true) where
  external_scope : is_external_vendor_scope (some v) ≡ true
  unfolding is_external_vendor_scope
  external_scope = ground arith

  no_commercials : can_view_report_commercials (some v) ≡ false
  unfolding can_view_report_commercials is_external_vendor_scope
  no_commercials = rw (signed_in, plain, outside) refl

-- A signed-in viewer in an external supplier's workspace who is not a superuser, with an admin's role
-- or not, sees the same frozen CPI for two attempts that have the same frozen payable CPI, whatever
-- their source CPIs and cuts are.
pub external_viewer_hides :
    (a b : Priced) (v : Viewer) (payable : ℤ)
    → v.is_authenticated ≡ true
    → v.is_superuser ≡ false
    → v.in_external_workspace ≡ true
    → a.payable_cpi_snapshot ≡ some payable
    → b.payable_cpi_snapshot ≡ some payable
    → viewer_attempt_cpi false a (some v) ≡ viewer_attempt_cpi false b (some v)
unfolding viewer_attempt_cpi external_base
external_viewer_hides a b v payable signed_in plain outside ha hb =
    rw (no_commercials v signed_in plain outside, external_scope v signed_in plain outside, ha, hb)
      refl

cut_back :
    (cut : ℤ) → pos 0 ≤ℤ cut → cut ≤ℤ hundred → (hundred -ℤ percentage (hundred -ℤ cut)) ≡ cut
cut_back cut low high =
    let (_, _, same) = percentage_clamps (hundred -ℤ cut) in
    rw (same (omega (arith, int_laws)) (omega (arith, int_laws))) (complement hundred cut)

-- The current CPI that a signed-in viewer in an external supplier's workspace who is not a superuser
-- sees is the viewer's share of the inventory's payable CPI at the attempt's frozen cut, where that is
-- between 0 and 100 percent.
pub external_viewer-payable_cpi :
    (a : Priced) (v : Viewer) (cut : ℤ)
    → v.is_authenticated ≡ true
    → v.is_superuser ≡ false
    → v.in_external_workspace ≡ true
    → a.cpi_cut_percent_snapshot ≡ some cut
    → pos 0 ≤ℤ cut
    → cut ≤ℤ hundred
    → viewer_attempt_cpi true a (some v)
      ≡ apply_percentage (payable_cpi a.survey_cpi cut) (role_visibility_percent (some v))
unfolding viewer_attempt_cpi external_base
external_viewer-payable_cpi a v cut signed_in plain outside h low high =
    rw
      (
        no_commercials v signed_in plain outside,
        external_scope v signed_in plain outside,
        h,
        apply_percentage-payable_cpi a.survey_cpi (hundred -ℤ cut),
        cut_back cut low high,
      )
      refl

times_le : (v q : ℕ) → q ≤ 10000 → v * q ≤ v * 10000
times_le v q h = grind arith

part_le : (v q : ℕ) → q ≤ 10000 → (v * q + 5000) / 10000 ≤ v
part_le v q h = ground (arith, times_le v q h)

percentage_pos :
    (percent : ℤ)
    → (percentage percent ≡ pos (pos_part (percentage percent)))
      × (pos_part (percentage percent) ≤ 10000)
unfolding percentage
percentage_pos (pos n) = ground arith
percentage_pos (negsuc n) = ground arith

-- A share of an amount that is not negative is not negative and not larger.
pub apply_percentage_le :
    (v : ℕ) (percent : ℤ)
    → (x : ℕ) × (apply_percentage (some (pos v)) percent ≡ some (pos x)) × (x ≤ v)
unfolding apply_percentage part_of
apply_percentage_le v percent =
    let (is_pos, small) = percentage_pos percent in
    ((v * pos_part (percentage percent) + 5000) / 10000, rw (is_pos) refl, part_le v _ small)

-- A viewer without the admin's rights sees, of an attempt with frozen prices that are not negative,
-- at most the source CPI, and in an external supplier's workspace at most the payable one.
viewer_attempt_cpi_le :
    (a : Priced) (viewer : Option Viewer) (source payable : ℕ)
    → can_view_report_commercials viewer ≡ false
    → a.source_cpi_snapshot ≡ some (pos source)
    → a.payable_cpi_snapshot ≡ some (pos payable)
    → (x : ℕ) × (viewer_attempt_cpi false a viewer ≡ some (pos x))
      × (x ≤ (if is_external_vendor_scope viewer then payable else source))
unfolding viewer_attempt_cpi external_base
viewer_attempt_cpi_le a viewer source payable plain hs hp =
    elim (Bool-cases (is_external_vendor_scope viewer)) [
      | inl external ↦
          rw (plain, external, hp) (apply_percentage_le payable (role_visibility_percent viewer))
      | inr inside ↦
          rw (plain, inside, hs) (apply_percentage_le source (role_visibility_percent viewer))
    ]

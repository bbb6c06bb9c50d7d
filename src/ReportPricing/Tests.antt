-- ===== src/ReportPricing/Tests.antt =====
-- Test data and runs of the prices in reports (surveys/report_pricing.py).
use quant_tool.Base.{◌≡◌, refl, true, false, some, arith}
use quant_tool.Base.Int.{pos}
use quant_tool.Money.{payable_cpi, apply_percentage}
use quant_tool.Vendors.Models.{employee}
use quant_tool.ReportPricing.{
  Viewer, Priced, role_visibility_percent, is_external_vendor_scope, can_view_report_commercials,
  external_base, viewer_attempt_cpi,
}
use quant_tool.ReportPricing.Visible.{external_viewer_hides, external_viewer-payable_cpi}

-- A supplier's employee who sees half of the price.
abbrev member : Viewer
member = record {
  is_authenticated = true;
  is_superuser = false;
  in_external_workspace = true;
  account_type = some employee;
  role = some (record { is_admin = true; cpi_visibility_percent = pos 5000 });
}

abbrev cheap : Priced
cheap = record {
  survey_cpi = some (pos 101);
  source_cpi_snapshot = some (pos 101);
  cpi_cut_percent_snapshot = some (pos 5000);
  payable_cpi_snapshot = some (pos 51);
}

abbrev dear : Priced
dear = record cheap {
  source_cpi_snapshot = some (pos 204);
  cpi_cut_percent_snapshot = some (pos 7500);
}

sees : viewer_attempt_cpi false cheap (some member) ≡ some (pos 26)
unfolding viewer_attempt_cpi can_view_report_commercials is_external_vendor_scope external_base
    role_visibility_percent apply_percentage
sees = refl

external_viewer_hides_example :
    viewer_attempt_cpi false cheap (some member) ≡ viewer_attempt_cpi false dear (some member)
external_viewer_hides_example =
    external_viewer_hides cheap dear member (pos 51) refl refl refl refl refl

external_viewer-payable_cpi_example :
    viewer_attempt_cpi true cheap (some member)
    ≡ apply_percentage
        (payable_cpi (some (pos 101)) (pos 5000))
        (role_visibility_percent (some member))
external_viewer-payable_cpi_example =
    external_viewer-payable_cpi cheap member (pos 5000) refl refl refl refl (omega arith)
      (omega arith)

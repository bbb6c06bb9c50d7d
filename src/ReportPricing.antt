-- ===== src/ReportPricing.antt =====
-- surveys/report_pricing.py: which CPI of an attempt a viewer of the reports sees. Whether a viewer
-- is in an external supplier's workspace (vendors/access.py) is a column of the viewer here.
pub mod Visible
mod Tests
use quant_tool.Base.{Bool, true, false, not, ◌||◌, ◌&&◌, Option, none, some, if◌then◌else◌}
use quant_tool.Base.Int.{ℤ, pos, ◌-ℤ◌}
use quant_tool.Money.{hundred, money, percentage, apply_percentage}
use quant_tool.Vendors.Models.{AccountType, employee, internal_vendor, external_vendor}

pub record Role : Type 0 where
  pub is_admin : Bool
  pub cpi_visibility_percent : ℤ

-- A user with the profile's account type and role, where there is a profile.
pub record Viewer : Type 0 where
  pub is_authenticated : Bool
  pub is_superuser : Bool
  pub in_external_workspace : Bool
  pub account_type : Option AccountType
  pub role : Option Role

-- The columns of an attempt and of its survey that are priced.
pub record Priced : Type 0 where
  pub survey_cpi : Option ℤ
  pub source_cpi_snapshot : Option ℤ
  pub cpi_cut_percent_snapshot : Option ℤ
  pub payable_cpi_snapshot : Option ℤ

abbrev pub visibility_of : Option AccountType → Option Role → ℤ
visibility_of (some employee) (some role) = percentage role.cpi_visibility_percent
visibility_of _ _ = hundred

unfoldable pub role_visibility_percent : Option Viewer → ℤ
role_visibility_percent none = hundred
role_visibility_percent (some v) = visibility_of v.account_type v.role

-- `is_external_vendor_scope`
unfoldable pub is_external_vendor_scope : Option Viewer → Bool
is_external_vendor_scope none = false
is_external_vendor_scope (some v) = v.is_authenticated && v.in_external_workspace

abbrev pub has_admin_role : Option Role → Bool
has_admin_role none = false
has_admin_role (some role) = role.is_admin

unfoldable pub can_view_report_commercials : Option Viewer → Bool
unfolding is_external_vendor_scope
can_view_report_commercials none = false
can_view_report_commercials (some v) =
    if not v.is_authenticated
    then false
    else if v.is_superuser
    then true
    else if is_external_vendor_scope (some v)
    then false
    else has_admin_role v.role

abbrev pub or_zero : Option ℤ → ℤ
or_zero none = pos 0
or_zero (some cut) = cut

abbrev pub or_else : Option ℤ → Option ℤ → Option ℤ
or_else none other = other
or_else (some value) other = some value

-- `attempt.survey.cpi if current else attempt.source_cpi_snapshot`
abbrev pub source_of : Bool → Priced → Option ℤ
source_of true a = a.survey_cpi
source_of false a = a.source_cpi_snapshot

-- `base` of a viewer in an external supplier's workspace
unfoldable pub external_base : Bool → Priced → Option ℤ
external_base true a = apply_percentage a.survey_cpi (hundred -ℤ or_zero a.cpi_cut_percent_snapshot)
external_base false a = or_else a.payable_cpi_snapshot a.source_cpi_snapshot

unfoldable pub viewer_attempt_cpi : Bool → Priced → Option Viewer → Option ℤ
unfolding money
viewer_attempt_cpi current a viewer =
    if can_view_report_commercials viewer
    then money (source_of current a)
    else let base =
        if is_external_vendor_scope viewer then external_base current a else source_of current a in
      apply_percentage base (role_visibility_percent viewer)

-- `actor` is the attempt's platform user.
unfoldable pub supplier_cpi_for_admin : Priced → Option Viewer → Option ℤ
supplier_cpi_for_admin a actor =
    apply_percentage (or_else a.payable_cpi_snapshot a.source_cpi_snapshot)
      (role_visibility_percent actor)

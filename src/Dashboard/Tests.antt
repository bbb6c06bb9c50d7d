-- ===== src/Dashboard/Tests.antt =====
-- A month of the dashboard on a calendar of 30-day months (surveys/dashboard.py).
use quant_tool.Base.{
  ℕ, ◌+◌, ◌-◌, ◌*◌, ◌/◌, ◌≡◌, refl, true, false, none, some, List, [], ◌∷◌, arith,
}
use quant_tool.Base.Result.{ok}
use quant_tool.Vendors.Models.{completed, terminated}
use quant_tool.Dashboard.{Calendar, day, month, Params, Window, while_step, dashboard_range_window}
use quant_tool.Dashboard.Points.{Hit, point_of, performance_series}
use quant_tool.Dashboard.Windows.{IsCalendar}
use quant_tool.Dashboard.Series.{total, series_totals}

abbrev calendar : Calendar
calendar = record {
  day_of = λ t. t / day;
  midnight = λ d. d * day;
  month_of = λ t. t / (30 * day) + 12;
  month_start = λ m. (m - 12) * (30 * day);
}

calendar-IsCalendar : IsCalendar calendar
calendar-IsCalendar = record {
  day_started = λ t. ground arith;
  midnight_grows = λ d e h. ground arith;
  month_started = λ t. ground arith;
  month_ends = λ t. ground arith;
  month_grows = λ m n h. ground arith;
  month_of_start = λ m h. ground arith;
}

abbrev params : Params
params = record { financial_year = none; selected_date = none; date_from = none; date_to = none }

-- The third day of a month, at noon.
abbrev start : ℕ
start = 100 * (30 * day)

abbrev now : ℕ
now = start + 2 * day + 43200000000

abbrev month_window : Window
month_window = record {
  key = month;
  start = start;
  end = now;
  buckets =
      record { lower = start; upper = start + day }
      ∷ record { lower = start + day; upper = start + 2 * day }
      ∷ record { lower = start + 2 * day; upper = now }
      ∷ [];
}

its_window : dashboard_range_window calendar (some month) params now ≡ ok month_window
unfolding dashboard_range_window while_step
its_window = refl

abbrev traffic : List Hit
traffic =
    record {
      initiated_at = start + 5;
      status = completed;
      is_local = false;
      is_rejected = false;
      source_cpi_snapshot = some 250;
    }
    ∷ record {
      initiated_at = start + day;
      status = terminated;
      is_local = false;
      is_rejected = true;
      source_cpi_snapshot = none;
    }
    ∷ []

series_totals_example :
    total (performance_series traffic month_window.buckets)
    ≡ point_of traffic (record { lower = start; upper = now })
series_totals_example =
    series_totals calendar (some month) params now month_window traffic calendar-IsCalendar
      (ground arith) (ground arith) its_window

-- ===== src/Dashboard.antt =====
-- The time windows and the series of the dashboard (surveys/dashboard.py). Instants are microseconds;
-- the local calendar of Python's datetime is a parameter: days and months are numbered, a month by
-- year * 12 + month - 1. The program's time zone has a fixed offset. A date that does not parse is
-- `none`; labels are left out.
pub mod Points
pub mod Tiling
pub mod Windows
pub mod Series
mod Tests
use quant_tool.Base.{
  ℕ, zero, suc, ◌+◌, ◌-◌, ◌*◌, ◌/◌, ◌%◌, min, Bool, true, false, not, ◌&&◌, ◌||◌, Option, none,
  some, List, [], ◌∷◌, ltb, leb, ◌==◌, if◌then◌else◌,
}
use quant_tool.Base.Result.{Result, ok, err}

-- What the code uses of `datetime` in the local time zone: the number of the day and of the month of
-- an instant, and the first instant of a day and of a month.
pub record Calendar : Type 0 where
  pub day_of : ℕ → ℕ
  pub midnight : ℕ → ℕ
  pub month_of : ℕ → ℕ
  pub month_start : ℕ → ℕ

abbrev pub hour : ℕ
hour = 3600000000

abbrev pub day : ℕ
day = 86400000000

-- The keys of DASHBOARD_RANGE_LABELS
pub data RangeKey : Type 0 where
  custom date today hours_24 hours_48 days_7 days_15 days_21 days_28 : RangeKey
  month months_3 months_6 fy : RangeKey

abbrev pub is_month : RangeKey → Bool
is_month month = true
is_month _ = false

pub record Params : Type 0 where
  pub financial_year : Option (Option ℕ)
  pub selected_date : Option ℕ
  pub date_from : Option ℕ
  pub date_to : Option ℕ

-- The messages of `ValueError`
pub data RangeError : Type 0 where
  unknown_range dates_required from_after_to future_date range_too_long : RangeError
  year_required year_outside : RangeError

pub record Bucket : Type 0 where
  pub lower : ℕ
  pub upper : ℕ

pub record Window : Type 0 where
  pub key : RangeKey
  pub start : ℕ
  pub end : ℕ
  pub buckets : List Bucket

-- `while lower < end:` with `lower = upper` at its end
unfoldable pub while_upper : ℕ → (ℕ → ℕ) → ℕ → ℕ → List Bucket
while_upper zero step end lower = []
while_upper (suc fuel) step end lower =
    let upper = min end (step lower) in
    let rest = while_upper fuel step end upper in
    if ltb lower end then record { lower = lower; upper = upper } ∷ rest else []

-- The same loop with `lower = step(lower)` at its end
unfoldable pub while_step : ℕ → (ℕ → ℕ) → ℕ → ℕ → List Bucket
while_step zero step end lower = []
while_step (suc fuel) step end lower =
    let upper = min end (step lower) in
    let rest = while_step fuel step end (step lower) in
    if ltb lower end then record { lower = lower; upper = upper } ∷ rest else []

-- `for index in range(n):` with steps of one width, from the given index
unfoldable pub for_range : ℕ → ℕ → ℕ → ℕ → ℕ → List Bucket
for_range zero index start width end = []
for_range (suc n) index start width end =
    let lower = start + index * width in
    record { lower = lower; upper = min end (lower + width) }
    ∷ for_range n (index + 1) start width end

abbrev pub two_hours_later : ℕ → ℕ
two_hours_later lower = lower + 2 * hour

abbrev pub day_later : ℕ → ℕ
day_later lower = lower + day

abbrev pub loop_window : RangeKey → (ℕ → ℕ) → ℕ → ℕ → Window
loop_window key step start end = record {
  key = key;
  start = start;
  end = end;
  buckets = while_upper (suc (end - start)) step end start;
}

abbrev pub step_window : RangeKey → (ℕ → ℕ) → ℕ → ℕ → Window
step_window key step start end = record {
  key = key;
  start = start;
  end = end;
  buckets = while_step (suc (end - start)) step end start;
}

-- The last `n` widths before the end
abbrev pub range_window : RangeKey → ℕ → ℕ → ℕ → Window
range_window key n width end = record {
  key = key;
  start = end - n * width;
  end = end;
  buckets = for_range n 0 (end - n * width) width end;
}

-- `int(financial_year or current_financial_year)`
abbrev pub chosen_year : Option (Option ℕ) → ℕ → Option ℕ
chosen_year none current = some current
chosen_year (some year) current = year

module _ (c : Calendar) where
  -- `_month_shift` of a local midnight, forwards and backwards
  abbrev pub month_shift : ℕ → ℕ → ℕ
  month_shift value offset = c.month_start (c.month_of value + offset)

  abbrev pub month_back : ℕ → ℕ → ℕ
  month_back value offset = c.month_start (c.month_of value - offset)

  -- `_financial_year_start`
  unfoldable pub financial_year_start : ℕ → ℕ
  financial_year_start value =
      let year = c.month_of value / 12 in if leb 3 (c.month_of value % 12) then year else year - 1

  -- `for index in range(month_count):`
  unfoldable pub for_months : ℕ → ℕ → ℕ → ℕ → List Bucket
  for_months zero index start end = []
  for_months (suc n) index start end =
      let lower = month_shift start index in
      record { lower = lower; upper = min end (month_shift lower 1) }
      ∷ for_months n (index + 1) start end

  abbrev pub month_later : ℕ → ℕ
  month_later lower = month_shift lower 1

  abbrev pub custom_step : ℕ → ℕ → ℕ
  custom_step days lower =
      if days == 1
      then lower + 2 * hour
      else if leb days 62
      then lower + day
      else month_shift lower 1

  unfoldable pub custom_window : Option ℕ → Option ℕ → ℕ → Result RangeError Window
  unfolding while_upper
  custom_window none last end = err dates_required
  custom_window (some first) none end = err dates_required
  custom_window (some first) (some last) end =
      if ltb last first
      then err from_after_to
      else if ltb (c.day_of end) last
      then err future_date
      else if ltb 1830 (last - first)
      then err range_too_long
      else ok (
          loop_window custom (custom_step (last - first + 1)) (c.midnight first)
            (min end (c.midnight (last + 1))))

  unfoldable pub date_window : Option ℕ → ℕ → Result RangeError Window
  unfolding while_upper
  date_window none end = err dates_required
  date_window (some chosen) end =
      if ltb (c.day_of end) chosen
      then err future_date
      else ok
          (loop_window date two_hours_later (c.midnight chosen) (min end (c.midnight chosen + day)))

  unfoldable pub months_6_window : ℕ → Window
  unfolding for_months
  months_6_window end =
      let start = month_back (c.month_start (c.month_of end)) 5 in
      record { key = months_6; start = start; end = end; buckets = for_months 6 0 start end }

  unfoldable pub financial_year_window : Option (Option ℕ) → ℕ → Result RangeError Window
  unfolding while_step financial_year_start
  financial_year_window given end =
      let current = financial_year_start end in
      elim (chosen_year given current) [
        | none ↦ err year_required
        | some year ↦
            if ltb year 2020 || ltb current year
            then err year_outside
            else ok (
                step_window fy month_later (c.month_start (year * 12 + 3))
                  (min end (c.month_start ((year + 1) * 12 + 3))))
      ]

  -- `dashboard_range_window`
  unfoldable pub dashboard_range_window : Option RangeKey → Params → ℕ → Result RangeError Window
  unfolding custom_window date_window months_6_window financial_year_window
  dashboard_range_window key p end = elim key [
    | none ↦ err unknown_range
    | some k ↦ elim k [
      | custom ↦ custom_window p.date_from p.date_to end
      | date ↦ date_window p.selected_date end
      | today ↦ ok (loop_window today two_hours_later (c.midnight (c.day_of end)) end)
      | hours_24 ↦ ok (range_window hours_24 12 (2 * hour) end)
      | hours_48 ↦ ok (range_window hours_48 12 (4 * hour) end)
      | days_7 ↦ ok (range_window days_7 7 day end)
      | days_15 ↦ ok (range_window days_15 15 day end)
      | days_21 ↦ ok (range_window days_21 21 day end)
      | days_28 ↦ ok (range_window days_28 28 day end)
      | month ↦ ok (step_window month day_later (c.month_start (c.month_of end)) end)
      | months_3 ↦ ok (range_window months_3 13 (7 * day) end)
      | months_6 ↦ ok (months_6_window end)
      | fy ↦ financial_year_window p.financial_year end
    ]
  ]

  -- `dashboard_comparison_window`, as the bucket of its start and end
  unfoldable pub dashboard_comparison_window : Window → Bucket
  dashboard_comparison_window w =
      let previous = month_back w.start 1 in
      if is_month w.key
      then record { lower = previous; upper = min w.start (previous + (w.end - w.start)) }
      else record { lower = w.start - (w.end - w.start); upper = w.start }

-- ===== src/Dashboard/Windows.antt =====
-- The windows of `dashboard_range_window` (surveys/dashboard.py) and what they are compared with.
use quant_tool.Base.{
  ℕ, zero, suc, ◌+◌, ◌-◌, ◌*◌, ◌≤◌, ◌<◌, min, ◌≡◌, refl, ap, sym, subst, ◌∙◌, false, Option, none,
  some, arith, ltb, ◌||◌, inl, inr, Bool-cases, Option-cases,
}
use quant_tool.Base.Result.{Result, ok}
use quant_tool.Dashboard.{
  is_month, Calendar, hour, day, RangeKey, RangeError, custom, date, today, hours_24, hours_48,
  days_7, days_15, days_21, days_28, month, months_3, months_6, fy, Params, Window, for_range,
  for_months, month_shift, month_back, loop_window, step_window, range_window, custom_step,
  two_hours_later, day_later, month_later, financial_year_start, custom_window, date_window,
  months_6_window, chosen_year, financial_year_window, dashboard_range_window,
  dashboard_comparison_window,
}
use quant_tool.Dashboard.Tiling.{
  IsTiling, while_upper-IsTiling, while_step-IsTiling, for_range-IsTiling,
}

-- What the code relies on of `datetime`: days and months follow one another, each instant lies in its
-- day and in its month, and a month from year 1 on has its first instant.
pub record IsCalendar (c : Calendar) : Type 0 where
  pub day_started : (t : ℕ) → c.midnight (c.day_of t) ≤ t
  pub midnight_grows : (d e : ℕ) → d ≤ e → c.midnight d ≤ c.midnight e
  pub month_started : (t : ℕ) → c.month_start (c.month_of t) ≤ t
  pub month_ends : (t : ℕ) → t < c.month_start (c.month_of t + 1)
  pub month_grows : (m n : ℕ) → m ≤ n → c.month_start m ≤ c.month_start n
  pub month_of_start : (m : ℕ) → 12 ≤ m → c.month_of (c.month_start m) ≡ m

-- The window runs from its start to its end without a gap.
abbrev pub TilesWindow : Window → Type 0
TilesWindow w = (w.start ≤ w.end) × IsTiling w.start w.end w.buckets

loop-TilesWindow :
    (key : RangeKey) (step : ℕ → ℕ) (start end : ℕ)
    → ((t : ℕ) → t < step t)
    → start ≤ end
    → TilesWindow (loop_window key step start end)
loop-TilesWindow key step start end grows h =
    (h, while_upper-IsTiling step end grows (suc (end - start)) start h (ground arith))

step-TilesWindow :
    (key : RangeKey) (step : ℕ → ℕ) (start end : ℕ)
    → ((t : ℕ) → t < step t)
    → start ≤ end
    → TilesWindow (step_window key step start end)
step-TilesWindow key step start end grows h =
    (h, while_step-IsTiling step end grows (suc (end - start)) start h (ground arith))

abbrev good : Window → Result RangeError Window
good w = ok w

ok-TilesWindow : (v w : Window) → good v ≡ good w → TilesWindow v → TilesWindow w
ok-TilesWindow v w e h = let same : v ≡ w = cc in subst TilesWindow same h

range-TilesWindow :
    (key : RangeKey) (n width end : ℕ)
    → n * width ≤ end
    → TilesWindow (range_window key n width end)
range-TilesWindow key n width end h =
    let tiled = for_range-IsTiling (end - n * width) width end n 0 (ground arith) in
    let first : end - n * width + 0 * width ≡ end - n * width = ground arith in
    (
      ground arith,
      subst (λ x. IsTiling x end (for_range n 0 (end - n * width) width end)) first tiled,
    )

module _ (c : Calendar) (law : IsCalendar c) where
  month_later_grows : (t : ℕ) → t < month_later c t
  month_later_grows t = law.month_ends t

  custom_step_grows : (days t : ℕ) → t < custom_step c days t
  custom_step_grows days t = let later = law.month_ends t in ground arith

  six_months :
      (end first : ℕ)
      → first + 5 ≡ c.month_of end
      → 12 ≤ first
      → (n index : ℕ) → index + n ≡ 6
      → IsTiling
          (min end (c.month_start (first + index)))
          end
          (for_months c n index (c.month_start first) end)
  unfolding for_months
  six_months end first e year_1 zero index all =
      let past = law.month_ends end in
      let m : first + index ≡ c.month_of end + 1 = ground arith in rw m (ground arith)
  six_months end first e year_1 (suc n) index all =
      let begun = law.month_started end in
      let inside = law.month_grows (first + index) (c.month_of end) (ground arith) in
      let later = law.month_grows (first + index) (first + (index + 1)) (ground arith) in
      let next = six_months end first e year_1 n (index + 1) (ground arith) in
      let at : month_shift c (c.month_start first) index ≡ c.month_start (first + index) =
        ap (λ m. c.month_start (m + index)) (law.month_of_start first year_1) in
      let one_more : first + index + 1 ≡ first + (index + 1) = ground arith in
      let up : c.month_start (first + (index + 1))
          ≡ month_shift c (month_shift c (c.month_start first) index) 1 =
        sym (
          ap (λ t. month_shift c t 1) at
          ∙ ap (λ m. c.month_start (m + 1)) (law.month_of_start (first + index) (ground arith))
          ∙ ap c.month_start one_more) in
      (
        at ∙ ground arith,
        subst (λ x. min end (c.month_start (first + index)) ≤ min end x) up (ground arith),
        subst (λ x. IsTiling (min end x) end (for_months c n (index + 1) (c.month_start first) end))
            up next,
      )

  six-TilesWindow : (end : ℕ) → 24 ≤ c.month_of end → TilesWindow (months_6_window c end)
  unfolding months_6_window
  six-TilesWindow end year_2 =
      let first = c.month_of end - 5 in
      let five : first + 5 ≡ c.month_of end = ground arith in
      let at : c.month_start first ≡ month_back c (c.month_start (c.month_of end)) 5 =
        sym
          (ap (λ m. c.month_start (m - 5)) (law.month_of_start (c.month_of end) (ground arith))) in
      let begun = law.month_started end in
      let earlier = law.month_grows first (c.month_of end) (ground arith) in
      let tiled = six_months end first five (ground arith) 6 0 refl in
      let none_more : first + 0 ≡ first = ground arith in
      let from : min end (c.month_start (first + 0)) ≡ c.month_start first =
        ap (λ m. min end (c.month_start m)) none_more ∙ ground arith in
      subst (λ x. (x ≤ end) × IsTiling x end (for_months c 6 0 x end)) at
        (
          ground arith,
          subst (λ x. IsTiling x end (for_months c 6 0 (c.month_start first) end)) from tiled,
        )

  date-TilesWindow :
      (chosen : Option ℕ) (end : ℕ) (w : Window) → date_window c chosen end ≡ ok w → TilesWindow w
  unfolding date_window
  date-TilesWindow none end w e = cc
  date-TilesWindow (some chosen) end w e = elim (Bool-cases (ltb (c.day_of end) chosen)) [
    | inl future ↦ ground (arith, e, future)
    | inr past ↦
        let begun = law.day_started end in
        let before = law.midnight_grows chosen (c.day_of end) (ground arith) in
        ok-TilesWindow
          (loop_window date two_hours_later (c.midnight chosen) (min end (c.midnight chosen + day)))
          w (sym (rw past refl) ∙ e)
          (loop-TilesWindow date two_hours_later (c.midnight chosen)
            (min end (c.midnight chosen + day)) (λ t. ground arith) (ground arith))
  ]

  custom-TilesWindow :
      (first last : Option ℕ) (end : ℕ) (w : Window)
      → custom_window c first last end ≡ ok w
      → TilesWindow w
  unfolding custom_window
  custom-TilesWindow none last end w e = cc
  custom-TilesWindow (some first) none end w e = cc
  custom-TilesWindow (some first) (some last) end w e =
      elim (Bool-cases (ltb last first || ltb (c.day_of end) last || ltb 1830 (last - first))) [
        | inl refused ↦ ground (arith, e, refused)
        | inr valid ↦
            let begun = law.day_started end in
            let before = law.midnight_grows first (c.day_of end) (ground (arith, valid)) in
            let later = law.midnight_grows first (last + 1) (ground (arith, valid)) in
            let ordered : ltb last first ≡ false = ground (arith, valid) in
            let past : ltb (c.day_of end) last ≡ false = ground (arith, valid) in
            let short : ltb 1830 (last - first) ≡ false = ground (arith, valid) in
            ok-TilesWindow
              (loop_window custom (custom_step c (last - first + 1)) (c.midnight first)
                (min end (c.midnight (last + 1))))
              w (sym (rw (ordered, past, short) refl) ∙ e)
              (loop-TilesWindow custom (custom_step c (last - first + 1)) (c.midnight first)
                (min end (c.midnight (last + 1))) (custom_step_grows (last - first + 1))
                (ground arith))
      ]

  year-TilesWindow :
      (given : Option (Option ℕ)) (end : ℕ) (w : Window)
      → 24 ≤ c.month_of end
      → financial_year_window c given end ≡ ok w
      → TilesWindow w
  unfolding financial_year_window financial_year_start
  year-TilesWindow given end w year_2 e =
      let current = financial_year_start c end in
      elim (Option-cases (chosen_year given current)) [
        | inl unread ↦ ground (arith, e, unread)
        | inr (year, chosen) ↦ elim (Bool-cases (ltb year 2020 || ltb current year)) [
          | inl outside ↦ ground (arith, e, chosen, outside)
          | inr inside ↦
              let april : year * 12 + 3 ≤ c.month_of end = ground (arith, inside) in
              let begun = law.month_started end in
              let before = law.month_grows (year * 12 + 3) (c.month_of end) april in
              let later = law.month_grows (year * 12 + 3) ((year + 1) * 12 + 3) (ground arith) in
              ok-TilesWindow
                (step_window fy (month_later c) (c.month_start (year * 12 + 3))
                  (min end (c.month_start ((year + 1) * 12 + 3))))
                w (sym (rw (financial_year_window, chosen, inside) refl) ∙ e)
                (step-TilesWindow fy (month_later c) (c.month_start (year * 12 + 3))
                  (min end (c.month_start ((year + 1) * 12 + 3))) month_later_grows (ground arith))
        ]
      ]

  today-TilesWindow :
      (end : ℕ) → TilesWindow (loop_window today two_hours_later (c.midnight (c.day_of end)) end)
  today-TilesWindow end =
      loop-TilesWindow today two_hours_later (c.midnight (c.day_of end)) end (λ t. ground arith)
        (law.day_started end)

  month-TilesWindow :
      (end : ℕ) → TilesWindow (step_window month day_later (c.month_start (c.month_of end)) end)
  month-TilesWindow end =
      step-TilesWindow month day_later (c.month_start (c.month_of end)) end (λ t. ground arith)
        (law.month_started end)

-- Where `dashboard_range_window` returns a window, for any key and parameters and a time 13 weeks
-- after the first instant or later and not in year 1, the window does not end before it starts, and its buckets run
-- from the start to the end, each from the end of the one before it.
pub window-TilesWindow :
    (c : Calendar) (key : Option RangeKey) (p : Params) (now : ℕ) (w : Window)
    → IsCalendar c
    → 13 * (7 * day) ≤ now
    → 24 ≤ c.month_of now
    → dashboard_range_window c key p now ≡ ok w
    → TilesWindow w
unfolding dashboard_range_window
window-TilesWindow c none p now w law late year_2 e = cc
window-TilesWindow c (some custom) p now w law late year_2 e =
    custom-TilesWindow c law p.date_from p.date_to now w e
window-TilesWindow c (some date) p now w law late year_2 e =
    date-TilesWindow c law p.selected_date now w e
window-TilesWindow c (some today) p now w law late year_2 e =
    ok-TilesWindow _ w e (today-TilesWindow c law now)
window-TilesWindow c (some hours_24) p now w law late year_2 e =
    ok-TilesWindow _ w e (range-TilesWindow hours_24 12 (2 * hour) now (ground arith))
window-TilesWindow c (some hours_48) p now w law late year_2 e =
    ok-TilesWindow _ w e (range-TilesWindow hours_48 12 (4 * hour) now (ground arith))
window-TilesWindow c (some days_7) p now w law late year_2 e =
    ok-TilesWindow _ w e (range-TilesWindow days_7 7 day now (ground arith))
window-TilesWindow c (some days_15) p now w law late year_2 e =
    ok-TilesWindow _ w e (range-TilesWindow days_15 15 day now (ground arith))
window-TilesWindow c (some days_21) p now w law late year_2 e =
    ok-TilesWindow _ w e (range-TilesWindow days_21 21 day now (ground arith))
window-TilesWindow c (some days_28) p now w law late year_2 e =
    ok-TilesWindow _ w e (range-TilesWindow days_28 28 day now (ground arith))
window-TilesWindow c (some month) p now w law late year_2 e =
    ok-TilesWindow _ w e (month-TilesWindow c law now)
window-TilesWindow c (some months_3) p now w law late year_2 e =
    ok-TilesWindow _ w e (range-TilesWindow months_3 13 (7 * day) now late)
window-TilesWindow c (some months_6) p now w law late year_2 e =
    ok-TilesWindow _ w e (six-TilesWindow c law now year_2)
window-TilesWindow c (some fy) p now w law late year_2 e =
    year-TilesWindow c law p.financial_year now w year_2 e

-- The window that a window is compared with does not end before it starts, ends before the window
-- starts or as it does, and is not longer than the window.
comparison_before :
    (c : Calendar) (w : Window)
    → IsCalendar c
    → let b = dashboard_comparison_window c w in
      (b.lower ≤ b.upper) × (b.upper ≤ w.start) × (b.upper - b.lower ≤ w.end - w.start)
unfolding dashboard_comparison_window
comparison_before c w law =
    let begun = law.month_started w.start in
    let before = law.month_grows (c.month_of w.start - 1) (c.month_of w.start) (ground arith) in
    elim (Bool-cases (is_month w.key)) [
      | inl by_month ↦ rw by_month (ground arith, ground arith, ground arith)
      | inr other ↦ rw other (ground arith, ground arith, ground arith)
    ]

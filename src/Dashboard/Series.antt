-- ===== src/Dashboard/Series.antt =====
-- The chart of a window counts each attempt of the window once (surveys/dashboard.py).
use quant_tool.Base.{
  ℕ, ◌+◌, ◌*◌, ◌≤◌, ◌⊎◌, ◌≡◌, refl, ap, subst, ◌∙◌, Bool, false, ◌&&◌, Option, List, [], ◌∷◌, map,
  arith, ltb, or_default, if◌then◌else◌, inl, inr, Bool-cases,
}
use quant_tool.Base.Result.{ok}
use quant_tool.Dashboard.{Calendar, day, RangeKey, Params, Bucket, Window, dashboard_range_window}
use quant_tool.Dashboard.Points.{
  Hit, Point, in_window, is_completed, survey_terminated, one, no_traffic, point_of,
  performance_series,
}
use quant_tool.Dashboard.Tiling.{IsTiling}
use quant_tool.Dashboard.Windows.{IsCalendar, window-TilesWindow}

abbrev pub added : Point → Point → Point
added p q = record {
  hits = p.hits + q.hits;
  completes = p.completes + q.completes;
  rejected = p.rejected + q.rejected;
  terminated = p.terminated + q.terminated;
  revenue = p.revenue + q.revenue;
}

abbrev pub total : List Point → Point
total [] = no_traffic
total (p ∷ rest) = added p (total rest)

tiling_order : (start end : ℕ) (buckets : List Bucket) → IsTiling start end buckets → start ≤ end
tiling_order start end [] e = ground arith
tiling_order start end (b ∷ rest) (e, h, t) =
    let later = tiling_order b.upper end rest t in ground arith

abbrev window : ℕ → ℕ → Bucket
window lower upper = record { lower = lower; upper = upper }

-- An attempt of the joined window is in one of two windows that meet.
split :
    (a b c : ℕ) (x : Hit)
    → a ≤ b
    → b ≤ c
    → ((in_window (window a b) x ≡ in_window (window a c) x) × (in_window (window b c) x ≡ false))
      ⊎ ((in_window (window a b) x ≡ false) × (in_window (window b c) x ≡ in_window (window a c) x))
split a b c x h i = elim (Bool-cases (ltb x.initiated_at b)) [
  | inl before ↦ inl (ground arith, ground arith)
  | inr after ↦ inr (ground arith, ground arith)
]

point_eq :
    (p q : Point)
    → p.hits ≡ q.hits
    → p.completes ≡ q.completes
    → p.rejected ≡ q.rejected
    → p.terminated ≡ q.terminated
    → p.revenue ≡ q.revenue
    → p ≡ q
point_eq p q e f g h i = cc

abbrev gated : Bool → Hit → Point → Point
gated inside a p = record {
  hits = one inside + p.hits;
  completes = one (inside && is_completed a) + p.completes;
  rejected = one (inside && a.is_rejected) + p.rejected;
  terminated = one (inside && survey_terminated a) + p.terminated;
  revenue =
      (if inside && is_completed a then or_default a.source_cpi_snapshot 0 else 0) + p.revenue;
}

first_gated :
    (inside : Bool) (x : Hit) (p q : Point)
    → added (gated inside x p) (gated false x q) ≡ gated inside x (added p q)
first_gated inside x p q =
    point_eq _ _ (ground arith) (ground arith) (ground arith) (ground arith) (ground arith)

second_gated :
    (inside : Bool) (x : Hit) (p q : Point)
    → added (gated false x p) (gated inside x q) ≡ gated inside x (added p q)
second_gated inside x p q =
    point_eq _ _ (ground arith) (ground arith) (ground arith) (ground arith) (ground arith)

-- The points of two windows that meet add up.
meet :
    (a b c : ℕ) (queryset : List Hit)
    → a ≤ b
    → b ≤ c
    → added (point_of queryset (window a b)) (point_of queryset (window b c))
      ≡ point_of queryset (window a c)
unfolding point_of
meet a b c [] h i = refl
meet a b c (x ∷ rest) h i =
    let p = point_of rest (window a b) in
    let q = point_of rest (window b c) in
    let inside = in_window (window a c) x in
    let rests = ap (gated inside x) (meet a b c rest h i) in
    elim (split a b c x h i) [
      | inl (e, f) ↦
          ap (λ y. added (gated y x p) (gated (in_window (window b c) x) x q)) e
          ∙ ap (λ y. added (gated inside x p) (gated y x q)) f
          ∙ first_gated inside x p q
          ∙ rests
      | inr (e, f) ↦
          ap (λ y. added (gated y x p) (gated (in_window (window b c) x) x q)) e
          ∙ ap (λ y. added (gated false x p) (gated y x q)) f
          ∙ second_gated inside x p q
          ∙ rests
    ]

empty_window : (a : ℕ) (queryset : List Hit) → no_traffic ≡ point_of queryset (window a a)
unfolding point_of
empty_window a [] = refl
empty_window a (x ∷ rest) =
    let out : false ≡ in_window (window a a) x = ground arith in
    ap (gated false x) (empty_window a rest) ∙ ap (λ y. gated y x (point_of rest (window a a))) out

tiles_total :
    (queryset : List Hit) (start end : ℕ) (buckets : List Bucket)
    → IsTiling start end buckets
    → total (map (point_of queryset) buckets) ≡ point_of queryset (window start end)
tiles_total queryset start end [] e =
    subst (λ x. no_traffic ≡ point_of queryset (window start x)) e (empty_window start queryset)
tiles_total queryset start end (b ∷ rest) (e, h, t) =
    let later = tiles_total queryset b.upper end rest t in
    let order = tiling_order b.upper end rest t in
    let first : point_of queryset b ≡ point_of queryset (window start b.upper) =
      ap (λ x. point_of queryset (window x b.upper)) e in
    ap (λ x. added x (total (map (point_of queryset) rest))) first
    ∙ ap (added (point_of queryset (window start b.upper))) later
    ∙ meet start b.upper end queryset h order

-- Where `dashboard_range_window` returns a window, for any key and parameters and a time 13 weeks
-- after the first instant or later and not in year 1, the points of its chart add up to the attempts
-- from the start of the window to its end, less the end itself: their hits, completes, rejections,
-- terminations and revenue.
pub series_totals :
    (c : Calendar) (key : Option RangeKey) (p : Params) (now : ℕ) (w : Window) (queryset : List Hit)
    → IsCalendar c
    → 13 * (7 * day) ≤ now
    → 24 ≤ c.month_of now
    → dashboard_range_window c key p now ≡ ok w
    → total (performance_series queryset w.buckets)
      ≡ point_of queryset (record { lower = w.start; upper = w.end })
unfolding performance_series
series_totals c key p now w queryset law late year_2 e =
    tiles_total queryset w.start w.end w.buckets
      (window-TilesWindow c key p now w law late year_2 e).1

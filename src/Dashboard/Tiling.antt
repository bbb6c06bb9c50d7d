-- ===== src/Dashboard/Tiling.antt =====
-- Buckets that follow one another without a gap, as the loops of `dashboard_range_window`
-- (surveys/dashboard.py) make them.
use quant_tool.Base.{
  ℕ, zero, suc, ◌+◌, ◌-◌, ◌*◌, ◌≤◌, ◌<◌, min, ◌≡◌, refl, ap, sym, subst, ◌∙◌, List, [], ◌∷◌, arith,
  ltb, inl, inr, Bool-cases,
}
use quant_tool.Dashboard.{Bucket, while_upper, while_step, for_range}

abbrev pub IsTiling : ℕ → ℕ → List Bucket → Type 0
IsTiling start end [] = start ≡ end
IsTiling start end (b ∷ rest) = (b.lower ≡ start) × (start ≤ b.upper) × IsTiling b.upper end rest

module _ (step : ℕ → ℕ) (end : ℕ) (grows : (t : ℕ) → t < step t) where
  pub while_upper-IsTiling :
      (fuel lower : ℕ)
      → lower ≤ end
      → end - lower < fuel
      → IsTiling lower end (while_upper fuel step end lower)
  unfolding while_upper
  while_upper-IsTiling zero lower h room = ground arith
  while_upper-IsTiling (suc fuel) lower h room =
      let up = grows lower in
      elim (Bool-cases (ltb lower end)) [
        | inr over ↦ rw over (ground arith)
        | inl more ↦ rw more (
          refl,
          ground arith,
          while_upper-IsTiling fuel (min end (step lower)) (ground arith) (ground arith),
        )
      ]

  while_past : (fuel lower : ℕ) → end ≤ lower → while_upper fuel step end lower ≡ []
  unfolding while_upper
  while_past zero lower h = refl
  while_past (suc fuel) lower h = ground arith

  -- Both loops go on alike, for they stop at the end.
  step-upper : (fuel lower : ℕ) → while_step fuel step end lower ≡ while_upper fuel step end lower
  unfolding while_upper while_step
  step-upper zero lower = refl
  step-upper (suc fuel) lower =
      let next = step-upper fuel (step lower) in
      let rest : while_step fuel step end (step lower)
          ≡ while_upper fuel step end (min end (step lower)) =
        elim (Bool-cases (ltb end (step lower))) [
          | inr inside ↦
              let m : step lower ≡ min end (step lower) = ground arith in
              next ∙ ap (while_upper fuel step end) m
          | inl past ↦
              next
              ∙ while_past fuel (step lower) (ground arith)
              ∙ sym (while_past fuel (min end (step lower)) (ground arith))
        ] in
      rw rest refl

  pub while_step-IsTiling :
      (fuel lower : ℕ)
      → lower ≤ end
      → end - lower < fuel
      → IsTiling lower end (while_step fuel step end lower)
  while_step-IsTiling fuel lower h room =
      subst (IsTiling lower end) (sym (step-upper fuel lower))
        (while_upper-IsTiling fuel lower h room)

module _ (start width end : ℕ) where
  pub for_range-IsTiling :
      (n index : ℕ)
      → start + (index + n) * width ≡ end
      → IsTiling (start + index * width) end (for_range n index start width end)
  unfolding for_range
  for_range-IsTiling zero index e = ground arith
  for_range-IsTiling (suc n) index e =
      let next = for_range-IsTiling n (index + 1) (ground arith) in
      let m : start + (index + 1) * width ≡ min end (start + index * width + width) =
        ground arith in
      (
        refl,
        ground arith,
        subst (λ x. IsTiling x end (for_range n (index + 1) start width end)) m next,
      )

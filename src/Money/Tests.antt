-- ===== src/Money/Tests.antt =====
-- Prices at a cut and at a visible percentage, on amounts that round.
use quant_tool.Base.{◌≡◌, refl, ◌+◌, ◌*◌, ◌-◌, ◌≤◌, ◌<◌, some, arith}
use quant_tool.Base.Int.{pos}
use quant_tool.Money.{payable_cpi}
use quant_tool.Money.Bounds.{payable_near}

-- 1.01 less 50 percent is 0.505, which rounds up to 0.51.
half_cent : payable_cpi (some (pos 101)) (pos 5000) ≡ some (pos 51)
unfolding payable_cpi
half_cent = refl

less_cut : payable_cpi (some (pos 101)) (pos 2500) ≡ some (pos 76)
unfolding payable_cpi
less_cut = refl

payable_near_example :
    (51 * 10000 ≤ 101 * (10000 - 5000) + 5000) × (101 * (10000 - 5000) < 51 * 10000 + 5000)
payable_near_example = payable_near 101 5000 (omega arith) half_cent

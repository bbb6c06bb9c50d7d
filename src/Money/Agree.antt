-- ===== src/Money/Agree.antt =====
-- The inventory (vendors/services.py) prices by a cut, the reports (surveys/report_pricing.py) by
-- a visible percentage.
use quant_tool.Base.{◌≡◌, refl, some, none, Option, arith}
use quant_tool.Base.Int.{ℤ, pos, ◌≤ℤ◌, ◌-ℤ◌, int_laws}
use quant_tool.Money.{hundred, part_of, payable_cpi, percentage, apply_percentage}

-- A cut of the complement of a percentage leaves that percentage.
pub complement : (a x : ℤ) → (a -ℤ (a -ℤ x)) ≡ x
complement a x = omega int_laws

-- A configured percentage is used between 0 and 100, and as it is where it lies there.
pub percentage_clamps :
    (value : ℤ)
    → (pos 0 ≤ℤ percentage value)
      × (percentage value ≤ℤ hundred)
      × (pos 0 ≤ℤ value → value ≤ℤ hundred → percentage value ≡ value)
unfolding percentage
percentage_clamps value = ground arith

payable_cpi_lem : (v cut : ℤ) → payable_cpi (some v) cut ≡ some (part_of v (hundred -ℤ cut))
unfolding payable_cpi
payable_cpi_lem v cut = refl

apply_percentage_lem :
    (v percent : ℤ) → apply_percentage (some v) percent ≡ some (part_of v (percentage percent))
unfolding apply_percentage
apply_percentage_lem v percent = refl

-- The reports' price at a visibility percentage is the inventory's price at the complementary
-- cut, for every amount and every percentage, also one that is out of range.
pub apply_percentage-payable_cpi :
    (value : Option ℤ) (percent : ℤ)
    → apply_percentage value percent ≡ payable_cpi value (hundred -ℤ percentage percent)
apply_percentage-payable_cpi none percent = unfold apply_percentage payable_cpi in refl
apply_percentage-payable_cpi (some v) percent =
    rw (apply_percentage_lem, payable_cpi_lem, complement hundred (percentage percent))

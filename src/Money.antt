-- ===== src/Money.antt =====
-- Decimal amounts: vendors/services.py `payable_cpi`, surveys/report_pricing.py `_money`,
-- `_percentage`, `apply_percentage`. A CPI and a percentage are whole hundredths, as the columns
-- of `max_digits=12` and `5` with `decimal_places=2` hold them: 100% is `pos 10000`. At these
-- widths Python's products and quotients are exact, so that `quantize` is the one rounding.
pub mod Bounds
pub mod Agree
mod Tests
use quant_tool.Base.{ℕ, suc, ◌+◌, ◌/◌, Option, none, some}
use quant_tool.Base.Int.{ℤ, pos, negsuc, neg_ℕ, ◌-ℤ◌, ◌*ℤ◌, min_ℤ, max_ℤ}

-- `Decimal("100.00")`
abbrev pub hundred : ℤ
hundred = pos 10000

-- `.quantize(Decimal("0.01"), rounding=ROUND_HALF_UP)` of `x / d`: a tie goes away from zero.
unfoldable pub quantize : ℤ → ℕ → ℤ
quantize (pos n) d = pos ((n + d / 2) / d)
quantize (negsuc n) d = neg_ℕ ((suc n + d / 2) / d)

-- An amount in hundredths, times a percentage in hundredths, over 100, in hundredths.
unfoldable pub part_of : ℤ → ℤ → ℤ
unfolding quantize ◌*ℤ◌
part_of amount percent = quantize (amount *ℤ percent) 10000

unfoldable pub payable_cpi : Option ℤ → ℤ → Option ℤ
unfolding part_of ◌-ℤ◌
payable_cpi none cut = none
payable_cpi (some source) cut = some (part_of source (hundred -ℤ cut))

-- `_percentage`
unfoldable pub percentage : ℤ → ℤ
percentage value = min_ℤ hundred (max_ℤ (pos 0) value)

-- `_money` keeps a stored amount: it has two decimals already.
unfoldable pub money : Option ℤ → Option ℤ
money value = value

unfoldable pub apply_percentage : Option ℤ → ℤ → Option ℤ
unfolding money part_of percentage
apply_percentage none percent = none
apply_percentage (some value) percent = some (part_of value (percentage percent))

-- ===== src/Money/Bounds.antt =====
-- What rounding half up can do to a payable CPI (vendors/services.py `payable_cpi`).
use native.Mathlib.Nat.{le_trans}
use quant_tool.Base.{ℕ, suc, ◌+◌, ◌-◌, ◌*◌, ◌/◌, ◌≤◌, ◌<◌, ◌≡◌, some, arith}
use quant_tool.Base.Int.{ℤ, pos, negsuc}
use quant_tool.Money.{payable_cpi}

-- Half a unit of `d` that is added before the division does not pass the number itself.
quantize_self : (n : ℕ) → (n * 10000 + 5000) / 10000 ≡ n
quantize_self n = omega arith

mul-le-mul_right : (a b c : ℕ) → a ≤ b → a * c ≤ b * c
mul-le-mul_right a b c h = grind arith

mul-le-mul_left : (a b c : ℕ) → b ≤ c → a * b ≤ a * c
mul-le-mul_left a b c h = grind arith

div_mono : (x y : ℕ) → x ≤ y → (x + 5000) / 10000 ≤ (y + 5000) / 10000
div_mono x y h = omega arith

-- A source CPI and a cut that are not negative, written out over the natural numbers.
pub payable_pos :
    (source cut : ℕ)
    → cut ≤ 10000
    → payable_cpi (some (pos source)) (pos cut)
      ≡ some (pos ((source * (10000 - cut) + 5000) / 10000))
unfolding payable_cpi
payable_pos source cut h = ground arith

-- With a source CPI that is not negative and a cut between 0 and 100 percent, the payable CPI is
-- the product rounded half up: at most half a cent below it, and at most half a cent above.
pub payable_near :
    (source cut : ℕ) {paid : ℕ}
    → cut ≤ 10000
    → payable_cpi (some (pos source)) (pos cut) ≡ some (pos paid)
    → (paid * 10000 ≤ source * (10000 - cut) + 5000)
      × (source * (10000 - cut) < paid * 10000 + 5000)
unfolding payable_cpi
payable_near source cut h e = ground arith

-- A larger cut never pays more, and a larger source CPI never pays less.
payable_mono :
    (source source' cut cut' : ℕ) {paid paid' : ℕ}
    → source ≤ source'
    → cut' ≤ cut
    → cut ≤ 10000
    → payable_cpi (some (pos source)) (pos cut) ≡ some (pos paid)
    → payable_cpi (some (pos source')) (pos cut') ≡ some (pos paid')
    → paid ≤ paid'
payable_mono s s' c c' hs hc h e e' =
    let product =
      le_trans (mul-le-mul_right s s' (10000 - c) hs)
        (mul-le-mul_left s' (10000 - c) (10000 - c') (omega arith)) in
    ground (arith, payable_pos s c, payable_pos s' c', div_mono _ _ product)

-- No cut pays the source CPI itself, also a negative one.
pub payable_whole : (source : ℤ) → payable_cpi (some source) (pos 0) ≡ some source
unfolding payable_cpi
payable_whole (pos n) = ground (arith, quantize_self n)
payable_whole (negsuc n) = ground (arith, quantize_self (suc n))

-- The payable CPI lies between zero and the source CPI.
pub payable_bounds :
    (source cut : ℕ) {paid : ℕ}
    → cut ≤ 10000
    → payable_cpi (some (pos source)) (pos cut) ≡ some (pos paid)
    → paid ≤ source
payable_bounds s c h e =
    payable_mono s s c 0 (omega arith) (omega arith) h e (payable_whole (pos s))

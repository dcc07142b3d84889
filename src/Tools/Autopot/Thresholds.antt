-- ===== src/Tools/Autopot/Thresholds.antt =====
-- When the comparison of a bar with its percentage is exact, and when it wraps.
use nndsk_ro_launcher.Base.{ℕ, ◌*◌, ◌≤◌, ◌<◌, ◌≡◌, ◌↔◌, true, arith}
use nndsk_ro_launcher.Tools.Autopot.Engine.{is_below}

-- Up to a bar of 42949672 points the wrapping comparison is the comparison of the percentage: a
-- potion is due exactly if the bar exists and holds less than its percentage.
pub is_below_iff :
    (percent cur max_value : ℕ)
    → percent ≤ 99
    → cur ≤ 42949672
    → max_value ≤ 42949672
    → (is_below percent cur max_value ≡ true)
      ↔ ((0 < max_value) × (cur * 100 < percent * max_value))
unfolding is_below
is_below_iff percent cur max_value h k l =
    let product : percent * max_value ≤ 99 * 42949672 = grind arith in
    (λ e. ground arith, λ e. ground arith)

-- Past that the product wraps: with the default percentage of 80 a full bar of 42949673 to
-- 53687091 points counts as being below it.
pub is_below_wraps : (m : ℕ) → 42949673 ≤ m → m ≤ 53687091 → is_below 80 m m ≡ true
unfolding is_below
is_below_wraps m h k = ground arith

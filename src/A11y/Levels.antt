-- ===== src/A11y/Levels.antt =====
-- The levels of measured widths and slopes.
use inwheel_api.Common.{ℕ, ◌≤◌, ◌==◌, ◌≡◌, refl, Bool, true, false, arith, if◌then◌else◌}
use inwheel_api.Float64.{Float64, le}
use inwheel_api.Float64.Order.{le_trans}
use inwheel_api.Models.{AccessibilityLevel, level_good, level_limited, level_no}
use inwheel_api.A11y.{level_for_door_width, level_for_slope_percent}

-- good 2, limited 1, anything else 0
abbrev pub level_rank : AccessibilityLevel → ℕ
level_rank l = if l == level_good then 2 else if l == level_limited then 1 else 0

rank_of_tests :
    (b c : Bool)
    → level_rank (if b then level_good else if c then level_limited else level_no)
      ≡ (if b then 2 else if c then 1 else 0)
rank_of_tests true c = refl
rank_of_tests false true = refl
rank_of_tests false false = refl

rank_mono :
    (b c b' c' : Bool)
    → (b ≡ true → b' ≡ true)
    → (c ≡ true → c' ≡ true)
    → level_rank (if b then level_good else if c then level_limited else level_no)
      ≤ level_rank (if b' then level_good else if c' then level_limited else level_no)
rank_mono b c b' c' h k = rw (rank_of_tests b c, rank_of_tests b' c') (ground arith)

-- Of two door widths that compare, the wider never has a worse level.
pub level_for_door_width_mono :
    (a b : Float64)
    → le a b ≡ true
    → level_rank (level_for_door_width a) ≤ level_rank (level_for_door_width b)
unfolding level_for_door_width
level_for_door_width_mono a b h =
    rank_mono _ _ _ _ (λ g. le_trans 0x3FE999999999999A a b g h)
      (λ g. le_trans 0x3FE6666666666666 a b g h)

-- Of two slopes that compare, the steeper never has a better level.
pub level_for_slope_percent_antitone :
    (a b : Float64)
    → le a b ≡ true
    → level_rank (level_for_slope_percent b) ≤ level_rank (level_for_slope_percent a)
unfolding level_for_slope_percent
level_for_slope_percent_antitone a b h =
    rank_mono _ _ _ _ (λ g. le_trans a b 0x4018000000000000 h g)
      (λ g. le_trans a b 0x4020A8F5C28F5C29 h g)

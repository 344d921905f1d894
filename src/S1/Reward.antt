-- ===== src/S1/Reward.antt =====
-- The geometric lane subsidies: how many, how large, and how they compare to the base.
use litenyx.Common.{List, [], ◌∷◌}
use litenyx.Common.Int.{ℤ, pos, ◌+ℤ◌}

abbrev total : List ℤ → ℤ
total [] = pos 0
total (a ∷ rest) = a +ℤ total rest

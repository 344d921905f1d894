-- ===== src/FixedPoint/Tests.antt =====
-- Fixed-point runs, and the saturation theorems at concrete numbers.
use litenyx.Common.{◌*◌, ◌/◌, ◌%◌, ◌^◌, ◌≡◌, min, refl}
use litenyx.FixedPoint.{q32, q64, max_u64_32, mul32, mul64, from_uint32, integer_part}
use litenyx.FixedPoint.Saturate.{mul64-min, mul32-wraps}

three_times_five : integer_part (mul32 (from_uint32 3) (from_uint32 5)) ≡ 15
unfolding integer_part mul32 from_uint32
three_times_five = refl

-- 2^16 times 2^16 is above the range, and gives 0.
wrapped_square : mul32 (from_uint32 0x1_0000) (from_uint32 0x1_0000) ≡ q32 0
unfolding mul32 from_uint32
wrapped_square = refl

mul64-min_example :
    (mul64 (q64 (2 ^ 90)) (q32 (2 ^ 60))).bits ≡ min (2 ^ 90 * 2 ^ 60 / 2 ^ 32) max_u64_32
mul64-min_example = mul64-min (q64 (2 ^ 90)) (q32 (2 ^ 60))

mul32-wraps_example : (mul32 (q32 (2 ^ 60)) (q32 (2 ^ 60))).bits ≡ 2 ^ 60 * 2 ^ 60 / 2 ^ 32 % 2 ^ 64
mul32-wraps_example = mul32-wraps (q32 (2 ^ 60)) (q32 (2 ^ 60))

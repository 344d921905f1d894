-- ===== src/FixedPoint.antt =====
-- litenyx/LITENYX_fixed_point.h: unsigned fixed-point numbers with 32 fraction bits, Q32.32 in 64 bits
-- and Q64.32 in 128. The conversions from and to `double` are left out.
pub mod Saturate
mod Tests
use litenyx.Common.{ℕ, ◌+◌, ◌-◌, ◌*◌, ◌/◌, ◌%◌, ◌^◌, Bool, ltb, ◌==◌, if◌then◌else◌}
use litenyx.Common.Words.{u64}

abbrev pub u128 : ℕ → ℕ
u128 n = n % 2 ^ 128

abbrev pub one : ℕ
one = 2 ^ 32

abbrev pub max_u32_32 : ℕ
max_u32_32 = 0xffff_ffff_ffff_ffff

abbrev pub max_u64_32 : ℕ
max_u64_32 = 0xffff_ffff_ffff_ffff * 2 ^ 32 + 0xffff_ffff

pub record Q32 : Type 0 where
  pub bits : ℕ  -- uint64

pub record Q64 : Type 0 where
  pub bits : ℕ  -- unsigned __int128

abbrev pub q32 : ℕ → Q32
q32 b = record { bits = b }

abbrev pub q64 : ℕ → Q64
q64 b = record { bits = b }

pub from_uint32 : ℕ → Q32
from_uint32 u = q32 (u * 2 ^ 32)

pub integer_part : Q32 → ℕ
integer_part q = q.bits / 2 ^ 32

pub add32 : Q32 → Q32 → Q32
add32 a b =
    let result = u64 (a.bits + b.bits) in q32 (if ltb result a.bits then max_u32_32 else result)

pub sub32 : Q32 → Q32 → Q32
sub32 a b = q32 (if ltb a.bits b.bits then 0 else a.bits - b.bits)

pub mul32 : Q32 → Q32 → Q32
mul32 a b = q32 (u64 (u128 (a.bits * b.bits) / 2 ^ 32))

pub div32 : Q32 → Q32 → Q32
div32 a b = q32 (if b.bits == 0 then max_u32_32 else u64 (u128 (a.bits * 2 ^ 32) / b.bits))

pub from_uint64 : ℕ → Q64
from_uint64 u = q64 (u * 2 ^ 32)

pub to_uint64 : Q64 → ℕ
to_uint64 q = u64 (q.bits / 2 ^ 32)

abbrev pub clamp64 : ℕ → ℕ
clamp64 n = if ltb max_u64_32 n then max_u64_32 else n

pub add64 : Q64 → Q64 → Q64
add64 a b =
    let result = u128 (a.bits + b.bits) in
    q64 (if ltb result a.bits then max_u64_32 else clamp64 result)

pub sub64 : Q64 → Q64 → Q64
sub64 a b = q64 (if ltb a.bits b.bits then 0 else a.bits - b.bits)

-- The product is formed only where it fits into 128 bits.
pub mul64 : Q64 → Q32 → Q64
mul64 a b = q64 (
    if b.bits == 0
    then 0
    else if ltb ((2 ^ 128 - 1) / b.bits) a.bits
    then max_u64_32
    else clamp64 (u128 (a.bits * b.bits) / 2 ^ 32))

pub div64 : Q64 → Q32 → Q64
div64 a b = q64 (if b.bits == 0 then max_u64_32 else clamp64 (u128 (a.bits * 2 ^ 32) / b.bits))

pub div_to_q32 : Q64 → Q64 → Q32
div_to_q32 a b = q32 (
    if b.bits == 0
    then max_u32_32
    else let quotient = u128 (a.bits * 2 ^ 32) / b.bits in
      if ltb max_u32_32 quotient then max_u32_32 else quotient)

pub clamp_q64_32 : Q64 → Q64
clamp_q64_32 value = if ltb max_u64_32 value.bits then q64 max_u64_32 else value

pub clamp_q32_32 : Q32 → Q32
clamp_q32_32 value = if ltb max_u32_32 value.bits then q32 max_u32_32 else value

-- ===== src/Core/Machine.antt =====
-- The 64-bit and 32-bit signed integers of Rust, as ℤ: what a release build does past their ends.
use coin_listener.Prelude.{
  ℕ, suc, ◌+◌, ◌-◌, ◌^◌, ◌%◌, ◌≤◌, ◌<◌, ◌≡◌, Bool, arith, leb, ◌==◌, if◌then◌else◌,
}
use coin_listener.Prelude.Int.{ℤ, pos, negsuc, pos_part, neg_part, ◌+ℤ◌, ltb_ℤ}

abbrev pub leb_ℤ : ℤ → ℤ → Bool
leb_ℤ a b = leb (pos_part a + neg_part b) (pos_part b + neg_part a)

abbrev pub eq_ℤ : ℤ → ℤ → Bool
eq_ℤ a b = (pos_part a + neg_part b) == (pos_part b + neg_part a)

infix 50 ◌<ℤ◌
abbrev pub ◌<ℤ◌ : ℤ → ℤ → Type 0
a <ℤ b = pos_part a + neg_part b < pos_part b + neg_part a

abbrev pub min_ℤ : ℤ → ℤ → ℤ
min_ℤ a b = if leb_ℤ a b then a else b

abbrev pub max_ℤ : ℤ → ℤ → ℤ
max_ℤ a b = if leb_ℤ a b then b else a

abbrev pub i64_max : ℕ
i64_max = 9223372036854775807

abbrev pub InI64 : ℤ → Type 0
InI64 z = (pos_part z ≤ i64_max) × (neg_part z ≤ suc i64_max)

-- The value of the low 64 bits, read as two's complement.
abbrev low_bits : ℤ → ℕ
low_bits (pos n) = n % 2 ^ 64
low_bits (negsuc n) = 2 ^ 64 - 1 - n % 2 ^ 64

abbrev from_bits : ℕ → ℤ
from_bits n = if leb n i64_max then pos n else negsuc (2 ^ 64 - 1 - n)

unfoldable pub wrap_i64 : ℤ → ℤ
wrap_i64 z = from_bits (low_bits z)

pub wrap_i64_lem : (z : ℤ) → InI64 z → wrap_i64 z ≡ z
unfolding wrap_i64
wrap_i64_lem (pos n) h = ground arith
wrap_i64_lem (negsuc n) h = ground arith

-- `saturating_add`.
unfoldable pub saturating_add : ℤ → ℤ → ℤ
saturating_add a b =
    let s = a +ℤ b in
    if ltb_ℤ (pos i64_max) s
    then pos i64_max
    else if ltb_ℤ s (negsuc i64_max)
    then negsuc i64_max
    else s

-- `i32::MAX`, `u16::MAX`.
abbrev pub i32_max : ℕ
i32_max = 2147483647

abbrev pub u16_max : ℕ
u16_max = 65535

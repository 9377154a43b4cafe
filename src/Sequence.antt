-- ===== src/Sequence.antt =====
-- yojimbo_common.h: 16-bit sequence numbers that wrap round, and the zig-zag encoding of integers.
pub mod Order
pub mod ZigZag
mod Tests
use libyojimbo.Prelude.{
  ℕ, ◌+◌, ◌-◌, ◌*◌, ◌/◌, ◌%◌, ◌^◌, bit_and, bit_xor, Bool, ◌&&◌, ◌||◌, ltb, leb, ◌==◌,
  if◌then◌else◌,
}

-- `sequence_greater_than`. The differences are taken in `int`, behind a test of their sign.
unfoldable pub sequence_greater_than : ℕ → ℕ → Bool
sequence_greater_than s1 s2 =
    (ltb s2 s1 && leb (s1 - s2) 32768) || (ltb s1 s2 && ltb 32768 (s2 - s1))

-- `sequence_less_than`.
unfoldable pub sequence_less_than : ℕ → ℕ → Bool
sequence_less_than s1 s2 = sequence_greater_than s2 s1

-- `n >> 31` of an `int`, as a 32-bit pattern: all ones for a negative number.
abbrev pub sign_mask : ℕ → ℕ
sign_mask n = if ltb n (2 ^ 31) then 0 else 2 ^ 32 - 1

-- `signed_to_unsigned`, on the 32-bit pattern of its argument.
pub signed_to_unsigned : ℕ → ℕ
signed_to_unsigned n = bit_xor (n * 2 % 2 ^ 32) (sign_mask n)

-- `unsigned_to_signed`; `-int32_t( n & 1 )` is 0 or all ones.
pub unsigned_to_signed : ℕ → ℕ
unsigned_to_signed n = bit_xor (n / 2) (if bit_and n 1 == 0 then 0 else 2 ^ 32 - 1)

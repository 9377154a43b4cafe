-- ===== src/Sequence/ZigZag.antt =====
-- The zig-zag encoding as arithmetic on 32-bit patterns.
use libyojimbo.Prelude.{ℕ, ◌-◌, ◌*◌, ◌/◌, ◌%◌, ◌^◌, ◌<◌, ◌≡◌, arith, ltb, ◌==◌, if◌then◌else◌}
use libyojimbo.Prelude.Bits.{bit_and_mask, bit_xor_mask, bit_xor-zero}
use libyojimbo.Sequence.{signed_to_unsigned, unsigned_to_signed}

-- What the encoding is as arithmetic: `2 * n` for the pattern of a number from 0 on, and
-- `2 * m - 1` for that of `-m`.
pub signed_to_unsigned_lem :
    (n : ℕ)
    → n < 2 ^ 32
    → signed_to_unsigned n ≡ (if ltb n (2 ^ 31) then 2 * n else 2 * (2 ^ 32 - n) - 1)
unfolding signed_to_unsigned
signed_to_unsigned_lem n h =
    ground (arith, bit_xor-zero (n * 2 % 2 ^ 32), bit_xor_mask 32 (n * 2 % 2 ^ 32))

unsigned_to_signed_lem :
    (n : ℕ) → n < 2 ^ 32 → unsigned_to_signed n ≡ (if n % 2 == 0 then n / 2 else 2 ^ 32 - 1 - n / 2)
unfolding unsigned_to_signed
unsigned_to_signed_lem n h =
    ground (arith, bit_and_mask 1 n, bit_xor-zero (n / 2), bit_xor_mask 32 (n / 2))

-- Each function undoes the other, on every 32-bit pattern.
pub zig_zag_round_trip :
    (n : ℕ)
    → n < 2 ^ 32
    → (unsigned_to_signed (signed_to_unsigned n) ≡ n)
      × (signed_to_unsigned (unsigned_to_signed n) ≡ n)
zig_zag_round_trip n h = (
  ground (arith, signed_to_unsigned_lem n, unsigned_to_signed_lem (signed_to_unsigned n)),
  ground (arith, unsigned_to_signed_lem n, signed_to_unsigned_lem (unsigned_to_signed n)),
)

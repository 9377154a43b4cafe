-- ===== src/Sequence/Tests.antt =====
-- Runs of the sequence order and the zig-zag encoding, and the theorems at concrete inputs.
use libyojimbo.Prelude.{◌-◌, ◌*◌, ◌^◌, ◌<◌, ◌≡◌, ◌↔◌, ◌⊎◌, refl, arith, true, ltb, if◌then◌else◌}
use libyojimbo.Sequence.{sequence_greater_than, signed_to_unsigned, unsigned_to_signed}
use libyojimbo.Sequence.Order.{steps_ahead, sequence_greater_than_iff}
use libyojimbo.Sequence.ZigZag.{signed_to_unsigned_lem, zig_zag_round_trip}

zero_after_wrap : sequence_greater_than 0 65535 ≡ true
unfolding sequence_greater_than
zero_after_wrap = refl

minus_two : signed_to_unsigned (2 ^ 32 - 2) ≡ 3
unfolding signed_to_unsigned
minus_two = refl

sequence_greater_than_iff_example : (sequence_greater_than 3 65530 ≡ true) ↔ (
    ((0 < steps_ahead 3 65530) × (steps_ahead 3 65530 < 32768))
    ⊎ ((steps_ahead 3 65530 ≡ 32768) × (65530 < 3)))
sequence_greater_than_iff_example = sequence_greater_than_iff 3 65530 (omega arith) (omega arith)

zig_zag_round_trip_example :
    (unsigned_to_signed (signed_to_unsigned 4294967294) ≡ 4294967294)
    × (signed_to_unsigned (unsigned_to_signed 4294967294) ≡ 4294967294)
zig_zag_round_trip_example = zig_zag_round_trip 4294967294 (omega arith)

signed_to_unsigned_lem_example :
    signed_to_unsigned 4294967294
    ≡ (if ltb 4294967294 (2 ^ 31) then 2 * 4294967294 else 2 * (2 ^ 32 - 4294967294) - 1)
signed_to_unsigned_lem_example = signed_to_unsigned_lem 4294967294 (omega arith)

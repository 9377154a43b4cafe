-- ===== src/Sequence/Order.antt =====
-- The wrapping order on sequence numbers.
use libyojimbo.Prelude.{ℕ, ◌+◌, ◌-◌, ◌%◌, ◌<◌, ◌≡◌, ◌↔◌, ◌⊎◌, arith, true, false, not, ◌&&◌, ◌==◌}
use libyojimbo.Sequence.{sequence_greater_than, sequence_less_than}

-- The number of steps from `s2` forward to `s1`, round the end of the range.
abbrev pub steps_ahead : ℕ → ℕ → ℕ
steps_ahead s1 s2 = (s1 + 65536 - s2) % 65536

-- For 16-bit numbers, `sequence_greater_than s1 s2` holds exactly when `s1` lies one to 32767 steps
-- ahead of `s2`, or 32768 steps ahead of it as the larger number.
pub sequence_greater_than_iff :
    (s1 s2 : ℕ)
    → s1 < 65536
    → s2 < 65536
    → (sequence_greater_than s1 s2 ≡ true) ↔ (
        ((0 < steps_ahead s1 s2) × (steps_ahead s1 s2 < 32768))
        ⊎ ((steps_ahead s1 s2 ≡ 32768) × (s2 < s1)))
unfolding sequence_greater_than
sequence_greater_than_iff s1 s2 h1 h2 = ground arith

-- On 16-bit numbers the order is total and asymmetric: the first is less than the second exactly when
-- it is neither greater than it nor equal to it, and no number is greater than itself.
pub sequence_trichotomy :
    (s1 s2 : ℕ)
    → s1 < 65536
    → s2 < 65536
    → (sequence_greater_than s1 s1 ≡ false)
      × (sequence_less_than s1 s2 ≡ (not (sequence_greater_than s1 s2) && not (s1 == s2)))
unfolding sequence_greater_than sequence_less_than
sequence_trichotomy s1 s2 h1 h2 = (ground arith, ground arith)

-- A number up to 32767 steps ahead of a 16-bit number is greater than it, across the wrap.
pub sequence_greater_than_ahead :
    (s d : ℕ) → s < 65536 → 0 < d → d < 32768 → sequence_greater_than ((s + d) % 65536) s ≡ true
unfolding sequence_greater_than
sequence_greater_than_ahead s d hs hd lt = ground arith

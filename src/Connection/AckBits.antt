-- ===== src/Connection/AckBits.antt =====
-- The bits that `GenerateAckBits` sets.
use libyojimbo.Prelude.{
  ℕ, zero, suc, ◌+◌, ◌-◌, ◌*◌, ◌%◌, ◌^◌, ◌≤◌, ◌<◌, ◌≡◌, refl, sym, ap, ◌∙◌, arith, Bool, true,
  false, bit_or, if◌then◌else◌, leb, ◌==◌, ==_iff,
}
use libyojimbo.Prelude.Bits.{digit, digit-bit_or, digit-pow_self, digit-pow_ne, digit-zero}
use libyojimbo.SequenceBuffer.{SequenceBuffer, exists}
use libyojimbo.Connection.{ack_bits_from, generate_ack_bits}
use native.Mathlib.Nat.{pow-suc, mod-eq_of_lt, pow-le-pow_right}
use native.Mathlib.Decide.{ℕ_discrete}

-- The bits after a round that may set bit `i`.
marked_digit :
    (there : Bool) (bits i d : ℕ)
    → digit (if there then bit_or bits (2 ^ i) else bits) d
      ≡ (if there then (if d == i then 1 else digit bits d) else digit bits d)
marked_digit false bits i d = refl
marked_digit true bits i d = elim (ℕ_discrete d i) [
  | yes same ↦
      let set : (d == i) ≡ true = (==_iff d i).1 same in
      rw set (
        ap (digit (bit_or bits (2 ^ i))) same
        ∙ omega (arith, digit-bit_or bits (2 ^ i) i, digit-pow_self i))
  | no differ ↦
      let unset : (d == i) ≡ false = ground arith in
      rw unset (omega (arith, digit-bit_or bits (2 ^ i) d, digit-pow_ne i d (λ e. differ (sym e))))
]

mask_step : (i left : ℕ) → i + suc left ≡ 32 → 2 ^ i % 2 ^ 32 * 2 % 2 ^ 32 ≡ 2 ^ (i + 1) % 2 ^ 32
mask_step i left e = let next : i + 1 ≡ suc i = omega arith in rw next (omega (arith, pow-suc 2 i))

mask_fits : (i left : ℕ) → i + suc left ≡ 32 → 2 ^ i % 2 ^ 32 ≡ 2 ^ i
mask_fits i left e =
    let most : 2 ^ i ≤ 2 ^ 31 = pow-le-pow_right {n = 2} (omega arith) {j = 31} (omega arith) in
    mod-eq_of_lt (omega arith)

module _ {ℓ} {A : Type ℓ} where
  -- The bits from `i` on are those of the packets, the others are those there were.
  ack_bits_from_lem :
      (left i : ℕ) (packets : SequenceBuffer A) (ack bits d : ℕ)
      → i + left ≡ 32
      → d < 32
      → (i ≤ d → digit bits d ≡ 0)
      → digit (ack_bits_from left i packets ack bits (2 ^ i % 2 ^ 32)) d ≡ (
          if leb i d
          then (if exists packets ((ack + 65536 - d) % 65536) then 1 else 0)
          else digit bits d)
  unfolding ack_bits_from
  ack_bits_from_lem zero i packets ack bits d e lt clear =
      let past : leb i d ≡ false = ground arith in rw past refl
  ack_bits_from_lem (suc left) i packets ack bits d e lt clear =
      let there = exists packets ((ack + 65536 - i) % 65536) in
      let bits' = if there then bit_or bits (2 ^ i) else bits in
      rw (mask_step i left e, mask_fits i left e)
        (ack_bits_from_lem left (i + 1) packets ack bits' d (omega arith) lt (λ h. later h)
          ∙ rw (marked_digit there bits i d) round)
    where
      later :
          i + 1 ≤ d
          → digit
              (if exists packets ((ack + 65536 - i) % 65536) then bit_or bits (2 ^ i) else bits)
              d
            ≡ 0
      later h =
          let other : (d == i) ≡ false = ground arith in
          rw (marked_digit (exists packets ((ack + 65536 - i) % 65536)) bits i d, other)
            (ground (arith, clear (omega arith)))

      round :
          (if leb (i + 1) d
            then (if exists packets ((ack + 65536 - d) % 65536) then 1 else 0)
            else (if exists packets ((ack + 65536 - i) % 65536)
                then (if d == i then 1 else digit bits d)
                else digit bits d))
          ≡ (if leb i d
              then (if exists packets ((ack + 65536 - d) % 65536) then 1 else 0)
              else digit bits d)
      round = elim (ℕ_discrete d i) [
        | yes same ↦ ground (
          arith,
          ap (λ t. exists packets ((ack + 65536 - t) % 65536)) same,
          clear (omega (arith, same)),
        )
        | no differ ↦ ground arith
      ]

  generate_ack_bits_eq :
      (packets : SequenceBuffer A)
      → generate_ack_bits packets ≡ (
        (packets.sequence + 65535) % 65536,
        ack_bits_from 32 0 packets ((packets.sequence + 65535) % 65536) 0 1,
      )
  unfolding generate_ack_bits
  generate_ack_bits_eq packets = refl

  pub ack_of_generate_ack_bits :
      (packets : SequenceBuffer A)
      → (generate_ack_bits packets).0 ≡ (packets.sequence + 65535) % 65536
  ack_of_generate_ack_bits packets = ap (λ (r : ℕ × ℕ). r.0) (generate_ack_bits_eq packets)

  -- For a buffer with a 16-bit `m_sequence`, the `ack` of `GenerateAckBits` is the number before it,
  -- and bit `d` of the ack bits, for `d` below 32, is set exactly where the buffer holds the packet `d`
  -- before `ack`.
  pub generate_ack_bits_lem :
      (packets : SequenceBuffer A) (d : ℕ)
      → packets.sequence < 65536
      → d < 32
      → (((generate_ack_bits packets).0 + 1) % 65536 ≡ packets.sequence)
        × (digit (generate_ack_bits packets).1 d ≡ (
            if exists packets (((generate_ack_bits packets).0 + 65536 - d) % 65536) then 1 else 0))
  generate_ack_bits_lem packets d h lt =
      let ack = (packets.sequence + 65535) % 65536 in
      let all : leb 0 d ≡ true = ground arith in
      rw (generate_ack_bits_eq packets) (
        omega arith,
        ack_bits_from_lem 32 0 packets ack 0 d refl lt (λ _. digit-zero d) ∙ rw all refl,
      )

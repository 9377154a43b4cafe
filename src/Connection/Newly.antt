-- ===== src/Connection/Newly.antt =====
-- The packets that an ack acks for the first time.
use libyojimbo.Prelude.{
  ℕ, zero, suc, ◌+◌, ◌-◌, ◌%◌, ◌≤◌, ◌<◌, ◌≡◌, inl, inr, refl, sym, ap, arith, Bool, true, false,
  Option, none, some, List, [], ◌∷◌, ◌==◌, ◌&&◌, ltb, leb, Bool-cases, if◌then◌else◌,
}
use libyojimbo.Prelude.Bits.{digit}
use libyojimbo.Sequence.Order.{steps_ahead}
use libyojimbo.SequenceBuffer.{SequenceBuffer, find}
use native.Mathlib.Decide.{ℕ_discrete}

-- The number `i` before `ack`.
abbrev pub back : ℕ → ℕ → ℕ
back ack i = (ack + 65536 - i) % 65536

-- An entry that is there, and is not acked.
abbrev pub is_unacked : Option Bool → Bool
is_unacked none = false
is_unacked (some acked) = if acked then false else true

abbrev pub acks_new : SequenceBuffer Bool → ℕ → ℕ → ℕ → Bool
acks_new b ack ack_bits i = digit ack_bits i == 1 && is_unacked (find b (back ack i))

-- The numbers `i`, `i + 1`, … before `ack` that `ack_bits` acks and that `b` holds unacked.
unfoldable pub newly_from : ℕ → ℕ → SequenceBuffer Bool → ℕ → ℕ → List ℕ
newly_from zero i b ack ack_bits = []
newly_from (suc left) i b ack ack_bits =
    let rest = newly_from left (i + 1) b ack ack_bits in
    if acks_new b ack ack_bits i then back ack i ∷ rest else rest

pub newly_acked : SequenceBuffer Bool → ℕ → ℕ → List ℕ
newly_acked b ack ack_bits = newly_from 32 0 b ack ack_bits

pub newly_acked_from :
    (b : SequenceBuffer Bool) (ack ack_bits : ℕ)
    → newly_from 32 0 b ack ack_bits ≡ newly_acked b ack ack_bits
unfolding newly_acked
newly_acked_from b ack ack_bits = refl

-- How often a number occurs.
abbrev pub count : ℕ → List ℕ → ℕ
count t [] = 0
count t (s ∷ ss) = let rest = count t ss in if s == t then 1 + rest else rest

pub back_injective : (ack i j : ℕ) → i < 32 → j < 32 → back ack i ≡ back ack j → i ≡ j
back_injective ack i j hi hj e = omega arith

-- The list reads the buffer only at the numbers it goes over.
pub newly_from_same :
    (left i : ℕ) (b b' : SequenceBuffer Bool) (ack ack_bits : ℕ)
    → ((j : ℕ) → i ≤ j → j < i + left → find b (back ack j) ≡ find b' (back ack j))
    → newly_from left i b ack ack_bits ≡ newly_from left i b' ack ack_bits
unfolding newly_from
newly_from_same zero i b b' ack ack_bits same = refl
newly_from_same (suc left) i b b' ack ack_bits same =
    let here = same i (omega arith) (omega arith) in
    let rest =
      newly_from_same left (i + 1) b b' ack ack_bits
        (λ j lo hi. same j (omega arith) (omega arith)) in
    rw (here, rest) refl

pub steps_back :
    (ack t i : ℕ) → ack < 65536 → t < 65536 → i < 32 → (back ack i == t) ≡ (steps_ahead ack t == i)
steps_back ack t i ha ht hi = ground arith

abbrev pub once : Bool → ℕ
once x = if x then 1 else 0

-- Whether `d` is among the rounds from `i` on and passes a test.
abbrev pub passes : ℕ → ℕ → (ℕ → Bool) → Bool
passes i d test = leb i d && ltb d 32 && test d

none_left : (i d : ℕ) (test : ℕ → Bool) → 32 ≤ i → once (passes i d test) ≡ 0
none_left i d test h = ground arith

taken_step :
    (i d : ℕ) (test : ℕ → Bool)
    → i < 32
    → test i ≡ true
    → (if d == i then 1 + once (passes (i + 1) d test) else once (passes (i + 1) d test))
      ≡ once (passes i d test)
taken_step i d test h new = elim (ℕ_discrete d i) [
  | yes e ↦ ground (arith, ap test e)
  | no ne ↦ ground arith
]

passed_step :
    (i d : ℕ) (test : ℕ → Bool)
    → test i ≡ false
    → once (passes (i + 1) d test) ≡ once (passes i d test)
passed_step i d test old = elim (ℕ_discrete d i) [
  | yes e ↦ ground (arith, ap test e)
  | no ne ↦ ground arith
]

pub count-newly_from :
    (left i : ℕ) (b : SequenceBuffer Bool) (ack ack_bits t : ℕ)
    → ack < 65536
    → t < 65536
    → i + left ≡ 32
    → count t (newly_from left i b ack ack_bits) ≡ (
        if leb i (steps_ahead ack t)
          && ltb (steps_ahead ack t) 32
          && acks_new b ack ack_bits (steps_ahead ack t)
        then 1
        else 0)
unfolding newly_from
count-newly_from zero i b ack ack_bits t ha ht e =
    sym (none_left i (steps_ahead ack t) (acks_new b ack ack_bits) (omega arith))
count-newly_from (suc left) i b ack ack_bits t ha ht e =
    let rest = count-newly_from left (i + 1) b ack ack_bits t ha ht (omega arith) in
    let at = steps_back ack t i ha ht (omega arith) in
    elim (Bool-cases (acks_new b ack ack_bits i)) [
      | inl new ↦
          rw (new, at, rest)
            (taken_step i (steps_ahead ack t) (acks_new b ack ack_bits) (omega arith) new)
      | inr old ↦ rw (old, rest) (passed_step i (steps_ahead ack t) (acks_new b ack ack_bits) old)
    ]

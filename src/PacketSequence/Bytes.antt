-- ===== src/PacketSequence/Bytes.antt =====
-- The bytes of a sequence number, and which of them are sent.
use libyojimbo.Prelude.{
  ℕ, zero, suc, ◌+◌, ◌*◌, ◌/◌, ◌%◌, ◌^◌, ◌<◌, ◌≡◌, ◌⊎◌, inl, inr, sym, ap, ◌∙◌, arith, List, [],
  ◌∷◌, ◌==◌, bit_and, bit_or, if◌then◌else◌,
}
use libyojimbo.Prelude.Bits.{bit_or_step, mul-pow-suc, bit_and_high, bit_and_mask, bit_or-zero}
use libyojimbo.BitPack.Digits.{pow_add}
use native.Mathlib.Nat.{
  pow-suc, one-le-pow, mod-lt, div-add-mod', div-div-eq-div-mul, mul-div_cancel, mod-mod,
}
use native.Mathlib.Decide.{dec_lt}

-- Byte `i`.
abbrev pub byte_at : ℕ → ℕ → ℕ
byte_at sequence i = sequence / 2 ^ (i * 8) % 2 ^ 8

-- The bytes from `i` down to 1 that are not zero, and the mask of their positions.
abbrev pub high_bytes : ℕ → ℕ → List ℕ
high_bytes zero sequence = []
high_bytes (suc i) sequence =
    let rest = high_bytes i sequence in
    if byte_at sequence (suc i) == 0 then rest else byte_at sequence (suc i) ∷ rest

abbrev pub high_mask : ℕ → ℕ → ℕ
high_mask zero sequence = 0
high_mask (suc i) sequence =
    let rest = high_mask i sequence in if byte_at sequence (suc i) == 0 then rest else 2 ^ i + rest

pub high_mask-lt : (i sequence : ℕ) → high_mask i sequence < 2 ^ i
high_mask-lt zero sequence = omega arith
high_mask-lt (suc i) sequence = ground (arith, high_mask-lt i sequence, pow-suc 2 i)

pub bit_or_fields_high :
    (k high low : ℕ) → low < 2 ^ k → bit_or (high * 2 ^ k) low ≡ high * 2 ^ k + low
bit_or_fields_high zero high zero fits = rw bit_or-zero (omega arith)
bit_or_fields_high zero high (suc low) fits = absurd (omega arith)
bit_or_fields_high (suc k) high low fits = ground (
  arith,
  bit_or_step (high * 2 ^ suc k) low,
  mul-pow-suc high k,
  pow-suc 2 k,
  bit_or_fields_high k high (low / 2) (omega (arith, pow-suc 2 k)),
)

pub pow_byte : (i : ℕ) → 2 ^ (suc i * 8) ≡ 2 ^ (i * 8) * 256
pow_byte i = let e : suc i * 8 ≡ i * 8 + 8 = omega arith in ap (λ n. 2 ^ n) e ∙ pow_add (i * 8) 8

-- A remainder by a product.
mod_split : (b c x : ℕ) → x % (b * c) ≡ x / b % c * b + x % b
mod_split b c x =
    let q = x / b / c in
    let high : x / b * b ≡ q * (b * c) + x / b % c * b =
      ap (λ t. t * b) (sym (div-add-mod' (x / b) c)) ∙ grind arith in
    let same : q * (b * c) ≡ x / (b * c) * (b * c) =
      ap (λ t. t * (b * c)) (div-div-eq-div-mul x b c) in
    omega (arith, div-add-mod' x (b * c), div-add-mod' x b, high, same)

-- What `compress_packet_sequence` takes for the current byte.
pub masked_byte :
    (i sequence : ℕ)
    → bit_and sequence (255 * 2 ^ (i * 8)) / 2 ^ (i * 8) % 2 ^ 8 ≡ byte_at sequence i
masked_byte i sequence =
    let pos = one-le-pow (i * 8) 2 (omega arith) in
    rw
      (
        bit_and_high (i * 8) sequence 255,
        bit_and_mask 8 (sequence / 2 ^ (i * 8)),
        mul-div_cancel (sequence / 2 ^ (i * 8) % 2 ^ 8) pos,
      )
      (mod-mod (sequence / 2 ^ (i * 8)) 256)

pub mask_shifts : (i : ℕ) → 255 * 2 ^ (suc i * 8) / 2 ^ 8 ≡ 255 * 2 ^ (i * 8)
mask_shifts i = omega (arith, pow_byte i)

low_digit : (x : ℕ) → (x % 2 ≡ 0) ⊎ (x % 2 ≡ 1)
low_digit x = elim (dec_lt (x % 2) 1) [ yes z ↦ inl (omega arith) | no o ↦ inr (omega arith) ]

test_bit : (i prefix : ℕ) → bit_and prefix (2 ^ i) ≡ prefix / 2 ^ i % 2 * 2 ^ i
test_bit i prefix =
    let one : 2 ^ i ≡ 1 * 2 ^ i = omega arith in
    ap (bit_and prefix) one
    ∙ bit_and_high i prefix 1
    ∙ ap (λ t. t * 2 ^ i) (bit_and_mask 1 (prefix / 2 ^ i))

-- The digit of a prefix at `i`, above the part that is below.
prefix_split : (i prefix : ℕ) → prefix % 2 ^ suc i ≡ prefix / 2 ^ i % 2 * 2 ^ i + prefix % 2 ^ i
prefix_split i prefix =
    let twice : 2 ^ suc i ≡ 2 ^ i * 2 = omega (arith, pow-suc 2 i) in
    ap (λ n. prefix % n) twice ∙ mod_split (2 ^ i) 2 prefix

-- The test of a bit of the prefix, from the part of the prefix that is still to be read.
pub prefix_bit :
    (i prefix rest : ℕ)
    → rest < 2 ^ i
    → prefix % 2 ^ suc i ≡ 2 ^ i + rest
    → (bit_and prefix (2 ^ i) ≡ 2 ^ i) × (prefix % 2 ^ i ≡ rest)
prefix_bit i prefix rest h e = elim (low_digit (prefix / 2 ^ i)) [
  | inl z ↦ absurd (
      omega (
        arith,
        prefix_split i prefix,
        ap (λ t. t * 2 ^ i) z,
        mod-lt prefix (one-le-pow i 2 (omega arith)),
      ))
  | inr o ↦
      let product = ap (λ t. t * 2 ^ i) o in
      (test_bit i prefix ∙ omega (arith, product), omega (arith, prefix_split i prefix, product))
]

pub prefix_no_bit :
    (i prefix rest : ℕ)
    → rest < 2 ^ i
    → prefix % 2 ^ suc i ≡ rest
    → (bit_and prefix (2 ^ i) ≡ 0) × (prefix % 2 ^ i ≡ rest)
prefix_no_bit i prefix rest h e = elim (low_digit (prefix / 2 ^ i)) [
  | inl z ↦
      let product = ap (λ t. t * 2 ^ i) z in
      (test_bit i prefix ∙ omega (arith, product), omega (arith, prefix_split i prefix, product))
  | inr o ↦ absurd (omega (arith, prefix_split i prefix, ap (λ t. t * 2 ^ i) o))
]

pub value_step :
    (i sequence : ℕ)
    → sequence % 2 ^ (suc (suc i) * 8)
      ≡ byte_at sequence (suc i) * 2 ^ (suc i * 8) + sequence % 2 ^ (suc i * 8)
value_step i sequence =
    ap (λ n. sequence % n) (pow_byte (suc i)) ∙ mod_split (2 ^ (suc i * 8)) 256 sequence

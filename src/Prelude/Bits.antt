-- ===== src/Prelude/Bits.antt =====
-- `|`, `&` and `^` on machine words, as arithmetic, at every width.
use Prim.Native.Nat.{ℕ, zero, suc, ◌+◌, ◌-◌, ◌*◌, ◌/◌, ◌%◌, ◌^◌, ◌≤◌, ◌<◌, min, max}
use Prim.Native.Nat.{bit_and, bit_or, bit_xor, digits, bitwise, differ}
use Prim.Native.Nat.{bit_and-bitwise, bit_or-bitwise, bit_xor-bitwise}
use mathlib.Core.Path.{◌≡◌, refl, ap, ◌∙◌}
use mathlib.Core.Logic.{◌≢◌}
use native.Mathlib.Nat.{pow-suc, pow-succ', one-le-pow, div-add-mod, div-div-eq-div-mul}
use native.Mathlib.Omega.{arith}

-- The native operations count the digits to go; a lone digit and the rest come apart whatever the count.
module _ (ended : ℕ → ℕ) (op : ℕ → ℕ → ℕ) where
  enough_count :
      (bound n x y : ℕ) → n ≤ bound → x ≤ n → digits ended op n x y ≡ bitwise ended op x y
  enough_count bound zero zero y le h = refl
  enough_count bound (suc n) zero y le h = refl
  enough_count bound zero (suc x) y le h = absurd (omega arith)
  enough_count zero (suc n) (suc x) y le h = absurd (omega arith)
  enough_count (suc bound) (suc n) (suc x) y le h =
      let half = suc x / 2 in
      omega (
        arith,
        enough_count bound n half (y / 2) (omega arith) (omega arith),
        enough_count bound x half (y / 2) (omega arith) (omega arith),
      )

  lowest_digit :
      ((y : ℕ) → ended y ≡ ended (y / 2) * 2 + op 0 (y % 2))
      → (x y : ℕ) → bitwise ended op x y ≡ bitwise ended op (x / 2) (y / 2) * 2 + op (x % 2) (y % 2)
  lowest_digit base zero y = base y
  lowest_digit base (suc x) y =
      omega (arith, enough_count x x (suc x / 2) (y / 2) (omega arith) (omega arith))

pub bit_xor_step : (x y : ℕ) → bit_xor x y ≡ bit_xor (x / 2) (y / 2) * 2 + differ (x % 2) (y % 2)
bit_xor_step x y = simp bit_xor-bitwise (lowest_digit (λ t. t) differ (λ t. omega arith) x y)

pub bit_or_step : (x y : ℕ) → bit_or x y ≡ bit_or (x / 2) (y / 2) * 2 + max (x % 2) (y % 2)
bit_or_step x y = simp bit_or-bitwise (lowest_digit (λ t. t) max (λ t. omega arith) x y)

pub bit_and_step : (x y : ℕ) → bit_and x y ≡ bit_and (x / 2) (y / 2) * 2 + min (x % 2) (y % 2)
bit_and_step x y = simp bit_and-bitwise (lowest_digit (λ t. 0) min (λ t. omega arith) x y)

-- Functions that make the same of the lowest digit are equal.
same_by_halves :
    (g h low : ℕ → ℕ)
    → ((x : ℕ) → g x ≡ g (x / 2) * 2 + low (x % 2))
    → ((x : ℕ) → h x ≡ h (x / 2) * 2 + low (x % 2))
    → g 0 ≡ h 0
    → (n x : ℕ) → x ≤ n
    → g x ≡ h x
same_by_halves g h low gs hs start n zero le = start
same_by_halves g h low gs hs start zero (suc x) le = absurd (omega arith)
same_by_halves g h low gs hs start (suc n) (suc x) le =
    let half = same_by_halves g h low gs hs start n (suc x / 2) (omega arith) in
    omega (arith, gs (suc x), hs (suc x), half)

differ-zero : (d : ℕ) → differ d 0 ≡ d
differ-zero zero = refl
differ-zero (suc d) = refl

pub bit_or-zero : (x : ℕ) → bit_or x 0 ≡ x
bit_or-zero x =
    same_by_halves (λ t. bit_or t 0) (λ t. t) (λ d. d) (λ t. omega (arith, bit_or_step t 0))
      (λ t. omega arith) refl x x (omega arith)

pub bit_xor-zero : (x : ℕ) → bit_xor x 0 ≡ x
bit_xor-zero x =
    same_by_halves (λ t. bit_xor t 0) (λ t. t) (λ d. d)
      (λ t. omega (arith, bit_xor_step t 0, differ-zero (t % 2))) (λ t. omega arith) refl x x
      (omega arith)

pub bit_and-zero : (x : ℕ) → bit_and x 0 ≡ 0
bit_and-zero x =
    same_by_halves (λ t. bit_and t 0) (λ t. 0) (λ d. 0) (λ t. omega (arith, bit_and_step t 0))
      (λ t. refl) refl x x (omega arith)

-- Division by `2 ^ suc k` is halving, then division by `2 ^ k`.
pub div-pow-suc : (x k : ℕ) → x / 2 ^ suc k ≡ x / 2 / 2 ^ k
div-pow-suc x k = rw (pow-succ', ← div-div-eq-div-mul)

pub mul-pow-suc : (q k : ℕ) → q * 2 ^ suc k ≡ 2 * (q * 2 ^ k)
mul-pow-suc q k = omega (arith, ap (λ (t : ℕ). q * t) (pow-suc 2 k))

zero-bit_or : (b : ℕ) → bit_or 0 b ≡ b
zero-bit_or b = bit_or-bitwise 0 b

-- `low | (high << k)` is a sum where `low` fits `k` bits.
pub bit_or_fields : (k low high : ℕ) → low < 2 ^ k → bit_or low (high * 2 ^ k) ≡ low + high * 2 ^ k
bit_or_fields zero zero high fits = rw zero-bit_or (omega arith)
bit_or_fields zero (suc low) high fits = absurd (omega arith)
bit_or_fields (suc k) low high fits = ground (
  arith,
  bit_or_step low (high * 2 ^ suc k),
  mul-pow-suc high k,
  pow-suc 2 k,
  bit_or_fields k (low / 2) high (omega (arith, pow-suc 2 k)),
)

-- A mask without its `k` lowest bits tests the number without its `k` lowest bits.
pub bit_and_high : (k x y : ℕ) → bit_and x (y * 2 ^ k) ≡ bit_and (x / 2 ^ k) y * 2 ^ k
bit_and_high zero x y =
    let e : x / 1 ≡ x = omega arith in let f : y * 1 ≡ y = omega arith in rw (e, f) (omega arith)
bit_and_high (suc k) x y = omega (
  arith,
  bit_and_step x (y * 2 ^ suc k),
  mul-pow-suc y k,
  ap (λ (t : ℕ). bit_and (x / 2) t) half,
  bit_and_high k (x / 2) y,
  ap (λ (t : ℕ). bit_and t y * 2 ^ suc k) (div-pow-suc x k),
  mul-pow-suc (bit_and (x / 2 / 2 ^ k) y) k,
)
  where
    half : y * 2 ^ suc k / 2 ≡ y * 2 ^ k
    half = omega (arith, mul-pow-suc y k)

-- The lowest digit of a remainder by `2 ^ suc k`, and the rest.
pub mod-pow-suc : (x k : ℕ) → x % 2 ^ suc k ≡ x % 2 + 2 * (x / 2 % 2 ^ k)
mod-pow-suc x k = omega (
  arith,
  div-add-mod x (2 ^ suc k),
  div-add-mod (x / 2) (2 ^ k),
  ap (λ (t : ℕ). 2 ^ suc k * t) (div-pow-suc x k),
  ap (λ (t : ℕ). t * (x / 2 / 2 ^ k)) (pow-suc 2 k),
)

-- A mask of `k` low bits is the remainder by `2 ^ k`.
pub bit_and_mask : (k a : ℕ) → bit_and a (2 ^ k - 1) ≡ a % 2 ^ k
bit_and_mask zero a = rw bit_and-zero (omega arith)
bit_and_mask (suc k) a = omega (
  arith,
  bit_and_step a (2 ^ suc k - 1),
  pow-suc 2 k,
  one-le-pow k 2,
  mod-pow-suc a k,
  bit_and_mask k (a / 2),
  ap (λ (t : ℕ). bit_and (a / 2) t) half_mask,
)
  where
    half_mask : (2 ^ suc k - 1) / 2 ≡ 2 ^ k - 1
    half_mask = omega (arith, pow-suc 2 k, one-le-pow k 2)

differ-one : (d : ℕ) → d < 2 → differ d 1 ≡ 1 - d
differ-one zero h = refl
differ-one (suc zero) h = refl
differ-one (suc (suc d)) h = absurd (omega arith)

-- Exclusive or with a mask of `k` ones is the complement within `k` bits.
pub bit_xor_mask : (k a : ℕ) → a < 2 ^ k → bit_xor a (2 ^ k - 1) ≡ 2 ^ k - 1 - a
bit_xor_mask zero zero h = refl
bit_xor_mask zero (suc a) h = absurd (omega arith)
bit_xor_mask (suc k) a h = omega (
  arith,
  bit_xor_step a (2 ^ suc k - 1),
  pow-suc 2 k,
  one-le-pow k 2,
  bit_xor_mask k (a / 2) (omega (arith, pow-suc 2 k)),
  ap (λ (t : ℕ). bit_xor (a / 2) t) half_mask,
  ap (λ (t : ℕ). differ (a % 2) t) odd_mask,
  differ-one (a % 2) (omega arith),
)
  where
    half_mask : (2 ^ suc k - 1) / 2 ≡ 2 ^ k - 1
    half_mask = omega (arith, pow-suc 2 k, one-le-pow k 2)

    odd_mask : (2 ^ suc k - 1) % 2 ≡ 1
    odd_mask = omega (arith, pow-suc 2 k, one-le-pow k 2)

-- Digit `j` of a word.
abbrev pub digit : ℕ → ℕ → ℕ
digit x j = x / 2 ^ j % 2

pub digit-suc : (x j : ℕ) → digit x (suc j) ≡ digit (x / 2) j
digit-suc x j = ap (λ t. t % 2) (div-pow-suc x j)

pub digit-bit_or : (x y j : ℕ) → digit (bit_or x y) j ≡ max (digit x j) (digit y j)
digit-bit_or x y zero = omega (arith, bit_or_step x y)
digit-bit_or x y (suc j) = omega (
  arith,
  digit-suc (bit_or x y) j,
  digit-suc x j,
  digit-suc y j,
  ap (λ (t : ℕ). digit t j) half,
  digit-bit_or (x / 2) (y / 2) j,
)
  where
    half : bit_or x y / 2 ≡ bit_or (x / 2) (y / 2)
    half = omega (arith, bit_or_step x y)

pub digit-bit_and : (x y j : ℕ) → digit (bit_and x y) j ≡ min (digit x j) (digit y j)
digit-bit_and x y zero = omega (arith, bit_and_step x y)
digit-bit_and x y (suc j) = omega (
  arith,
  digit-suc (bit_and x y) j,
  digit-suc x j,
  digit-suc y j,
  ap (λ (t : ℕ). digit t j) half,
  digit-bit_and (x / 2) (y / 2) j,
)
  where
    half : bit_and x y / 2 ≡ bit_and (x / 2) (y / 2)
    half = omega (arith, bit_and_step x y)

pub digit-zero : (j : ℕ) → digit 0 j ≡ 0
digit-zero zero = refl
digit-zero (suc j) = digit-suc 0 j ∙ digit-zero j

half_pow : (k : ℕ) → 2 ^ suc k / 2 ≡ 2 ^ k
half_pow k = omega (arith, pow-suc 2 k)

-- A word with one bit has that digit alone.
pub digit-pow_self : (k : ℕ) → digit (2 ^ k) k ≡ 1
digit-pow_self zero = refl
digit-pow_self (suc k) =
    digit-suc (2 ^ suc k) k ∙ ap (λ t. digit t k) (half_pow k) ∙ digit-pow_self k

pub digit-pow_ne : (k j : ℕ) → k ≢ j → digit (2 ^ k) j ≡ 0
digit-pow_ne zero zero h = absurd (h refl)
digit-pow_ne zero (suc j) h = digit-suc 1 j ∙ digit-zero j
digit-pow_ne (suc k) zero h = omega (arith, pow-suc 2 k)
digit-pow_ne (suc k) (suc j) h =
    digit-suc (2 ^ suc k) j
    ∙ ap (λ t. digit t j) (half_pow k)
    ∙ digit-pow_ne k j (λ e. h (ap suc e))

-- The complement of a word flips each of its digits.
pub digit-complement : (w x j : ℕ) → x < 2 ^ w → j < w → digit (2 ^ w - 1 - x) j ≡ 1 - digit x j
digit-complement zero x j h lt = absurd (omega arith)
digit-complement (suc w) x zero h lt = omega (arith, pow-suc 2 w)
digit-complement (suc w) x (suc j) h lt = omega (
  arith,
  digit-suc (2 ^ suc w - 1 - x) j,
  digit-suc x j,
  ap (λ (t : ℕ). digit t j) half,
  digit-complement w (x / 2) j (omega (arith, pow-suc 2 w)) (omega arith),
)
  where
    half : (2 ^ suc w - 1 - x) / 2 ≡ 2 ^ w - 1 - x / 2
    half = omega (arith, pow-suc 2 w)

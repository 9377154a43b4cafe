-- ===== src/BitPack/Digits.antt =====
-- A word as the list of its binary digits, lowest first.
use libyojimbo.Prelude.{
  ℕ, zero, suc, ◌+◌, ◌*◌, ◌/◌, ◌%◌, ◌^◌, ◌≤◌, ◌<◌, ◌≡◌, refl, sym, ap, ap₂, ◌∙◌, arith, List, [],
  ◌∷◌, ◌++◌, length, take, drop, set, get_or,
}
use libyojimbo.Prelude.Bits.{div-pow-suc, mul-pow-suc}
use native.Mathlib.Nat.{
  pow-suc, one-le-pow, div-add-mod', add-zero, add-mul-div_right, div-eq_of_lt,
}
use mathlib.Core.List.{append_assoc}

-- The `n` lowest digits.
unfoldable pub to_bits : ℕ → ℕ → List ℕ
to_bits zero x = []
to_bits (suc n) x = (x % 2) ∷ to_bits n (x / 2)

pub length-to_bits : (n x : ℕ) → length (to_bits n x) ≡ n
unfolding to_bits
length-to_bits zero x = refl
length-to_bits (suc n) x = ap suc (length-to_bits n (x / 2))

-- The digits of a number in two parts.
pub to_bits-add : (m n x : ℕ) → to_bits (m + n) x ≡ to_bits m x ++ to_bits n (x / 2 ^ m)
unfolding to_bits
to_bits-add zero n x =
    let e : 0 + n ≡ n = omega arith in let f : x / 1 ≡ x = omega arith in rw (e, f)
to_bits-add (suc m) n x =
    let e : suc m + n ≡ suc (m + n) = omega arith in
    rw (e, div-pow-suc x m) (ap (λ t. (x % 2) ∷ t) (to_bits-add m n (x / 2)))

-- The low digits do not see what stands above them.
pub to_bits-low : (m low high : ℕ) → to_bits m (low + high * 2 ^ m) ≡ to_bits m low
unfolding to_bits
to_bits-low zero low high = refl
to_bits-low (suc m) low high =
    let e : (low + high * 2 ^ suc m) % 2 ≡ low % 2 = omega (arith, mul-pow-suc high m) in
    let f : (low + high * 2 ^ suc m) / 2 ≡ low / 2 + high * 2 ^ m =
      omega (arith, mul-pow-suc high m) in
    rw (e, f) (ap (λ t. (low % 2) ∷ t) (to_bits-low m (low / 2) high))

pub to_bits-mod : (m x : ℕ) → to_bits m (x % 2 ^ m) ≡ to_bits m x
to_bits-mod m x =
    let e : x ≡ x % 2 ^ m + x / 2 ^ m * 2 ^ m = omega (arith, div-add-mod' x (2 ^ m)) in
    sym (ap (to_bits m) e ∙ to_bits-low m (x % 2 ^ m) (x / 2 ^ m))

pub pow_add : (m n : ℕ) → 2 ^ (m + n) ≡ 2 ^ m * 2 ^ n
pow_add m zero = rw add-zero (omega arith)
pow_add m (suc n) =
    let e : m + suc n ≡ suc (m + n) = omega arith in
    rw e (omega (arith, pow-suc 2 (m + n), pow_add m n, mul-pow-suc (2 ^ m) n))

pub high_part : (m low high : ℕ) → low < 2 ^ m → (low + high * 2 ^ m) / 2 ^ m ≡ high
high_part m low high h =
    omega (arith, add-mul-div_right low high (one-le-pow m 2 (omega arith)), div-eq_of_lt h)

-- Two fields side by side in one word.
pub to_bits-fields :
    (m n low high : ℕ)
    → low < 2 ^ m
    → to_bits (m + n) (low + high * 2 ^ m) ≡ to_bits m low ++ to_bits n high
to_bits-fields m n low high h =
    to_bits-add m n (low + high * 2 ^ m)
    ∙ ap₂ ◌++◌ (to_bits-low m low high) (ap (to_bits n) (high_part m low high h))

pub fields-lt : (m n low high : ℕ) → low < 2 ^ m → high < 2 ^ n → low + high * 2 ^ m < 2 ^ (m + n)
fields-lt m n low high h k =
    let up : suc high * 2 ^ m ≤ 2 ^ n * 2 ^ m = grind arith in omega (arith, up, pow_add m n)

-- Digits of equal number determine the number, and what stands behind them.
pub to_bits_prefix :
    (n x y : ℕ) (p q : List ℕ)
    → x < 2 ^ n
    → y < 2 ^ n
    → to_bits n x ++ p ≡ to_bits n y ++ q
    → (x ≡ y) × (p ≡ q)
unfolding to_bits
to_bits_prefix zero x y p q hx hy e = (omega arith, e)
to_bits_prefix (suc n) x y p q hx hy e =
    let same_low : x % 2 ≡ y % 2 = cc in
    let same_rest : to_bits n (x / 2) ++ p ≡ to_bits n (y / 2) ++ q = cc in
    let (same_high, same_end) =
      to_bits_prefix n (x / 2) (y / 2) p q (omega (arith, pow-suc 2 n)) (omega (arith, pow-suc 2 n))
        same_rest in
    (omega arith, same_end)

-- The digits of a list of 32-bit words.
unfoldable pub words_bits : List ℕ → List ℕ
words_bits [] = []
words_bits (w ∷ ws) = to_bits 32 w ++ words_bits ws

pub words_bits-append : (xs ys : List ℕ) → words_bits (xs ++ ys) ≡ words_bits xs ++ words_bits ys
unfolding words_bits
words_bits-append [] ys = refl
words_bits-append (x ∷ xs) ys =
    ap (λ t. to_bits 32 x ++ t) (words_bits-append xs ys)
    ∙ sym (append_assoc (to_bits 32 x) (words_bits xs) (words_bits ys))

-- Padding a short number to a word adds zeros.
pub to_bits_pad : (m n x : ℕ) → x < 2 ^ m → to_bits (m + n) x ≡ to_bits m x ++ to_bits n 0
to_bits_pad m n x h =
    let e : x ≡ x + 0 * 2 ^ m = omega arith in ap (to_bits (m + n)) e ∙ to_bits-fields m n x 0 h

module _ {ℓ} {A : Type ℓ} where
  pub take-set :
      (xs : List A) (k : ℕ) (v : A)
      → k < length xs
      → take (suc k) (set xs k v) ≡ take k xs ++ (v ∷ [])
  take-set [] k v h = absurd (omega arith)
  take-set (x ∷ xs) zero v h = refl
  take-set (x ∷ xs) (suc k) v h = ap (λ t. x ∷ t) (take-set xs k v (omega arith))

  pub drop-get :
      (xs : List A) (k : ℕ) (d : A) → k < length xs → drop k xs ≡ get_or xs k d ∷ drop (suc k) xs
  drop-get [] k d h = absurd (omega arith)
  drop-get (x ∷ xs) zero d h = refl
  drop-get (x ∷ xs) (suc k) d h = drop-get xs k d (omega arith)

  pub take-append-drop : (n : ℕ) (xs : List A) → take n xs ++ drop n xs ≡ xs
  take-append-drop zero xs = refl
  take-append-drop (suc n) [] = refl
  take-append-drop (suc n) (x ∷ xs) = ap (λ t. x ∷ t) (take-append-drop n xs)

-- ===== src/ReliableOrderedChannel/Fragments/Copy.antt =====
-- Pieces of a list, put back in their places one at a time.
use libyojimbo.Prelude.{
  ℕ, zero, suc, ◌+◌, ◌-◌, ◌*◌, ◌/◌, ◌%◌, min, ◌≤◌, ◌<◌, ◌≡◌, ◌≢◌, refl, sym, ap, ◌∙◌, arith, Bool,
  true, false, some, List, [], ◌∷◌, ◌++◌, if◌then◌else◌, get_elem?, take, drop, length,
  length-append,
}
use native.Mathlib.Nat.{div-add-mod, mod-lt, mul-le-mul_right}
use native.Mathlib.Decide.{dec_lt, ℕ_discrete}

module _ {A : Type 0} where
  pub length-take : (n : ℕ) (xs : List A) → length (take n xs) ≡ min n (length xs)
  length-take zero xs = omega arith
  length-take (suc n) [] = omega arith
  length-take (suc n) (x ∷ xs) = omega (arith, length-take n xs)

  pub length-drop : (n : ℕ) (xs : List A) → length (drop n xs) ≡ length xs - n
  length-drop zero xs = omega arith
  length-drop (suc n) [] = omega arith
  length-drop (suc n) (x ∷ xs) = omega (arith, length-drop n xs)

  pub get_elem?-drop : (n j : ℕ) (xs : List A) → get_elem? (drop n xs) j ≡ get_elem? xs (n + j)
  get_elem?-drop zero j xs = ap (get_elem? xs) (omega arith)
  get_elem?-drop (suc n) j [] = refl
  get_elem?-drop (suc n) j (x ∷ xs) =
      let e : suc n + j ≡ suc (n + j) = omega arith in rw e (get_elem?-drop n j xs)

  pub get_elem?-take : (n j : ℕ) (xs : List A) → j < n → get_elem? (take n xs) j ≡ get_elem? xs j
  get_elem?-take zero j xs h = absurd (omega arith)
  get_elem?-take (suc n) j [] h = refl
  get_elem?-take (suc n) zero (x ∷ xs) h = refl
  get_elem?-take (suc n) (suc j) (x ∷ xs) h = get_elem?-take n j xs (omega arith)

  -- An index in the first part of a list, and one in the second.
  pub get_elem?-left :
      (xs ys : List A) (j : ℕ) → j < length xs → get_elem? (xs ++ ys) j ≡ get_elem? xs j
  get_elem?-left [] ys j h = absurd (omega arith)
  get_elem?-left (x ∷ xs) ys zero h = refl
  get_elem?-left (x ∷ xs) ys (suc j) h = get_elem?-left xs ys j (omega arith)

  pub get_elem?-right :
      (xs ys : List A) (j : ℕ) → get_elem? (xs ++ ys) (length xs + j) ≡ get_elem? ys j
  get_elem?-right [] ys j = ap (get_elem? ys) (omega arith)
  get_elem?-right (x ∷ xs) ys j =
      let e : suc (length xs) + j ≡ suc (length xs + j) = omega arith in
      rw e (get_elem?-right xs ys j)

  -- A list with a source in its place from an offset on.
  abbrev pub copied : List A → ℕ → List A → List A
  copied xs offset source = take offset xs ++ (source ++ drop (offset + length source) xs)

  pub copied-inside :
      (xs source : List A) (offset k : ℕ)
      → offset + length source ≤ length xs
      → k < length source
      → get_elem? (copied xs offset source) (offset + k) ≡ get_elem? source k
  copied-inside xs source offset k h hk =
      let start : length (take offset xs) ≡ offset = omega (arith, length-take offset xs) in
      ap (λ n. get_elem? (copied xs offset source) (n + k)) (sym start)
      ∙ get_elem?-right (take offset xs) (source ++ drop (offset + length source) xs) k
      ∙ get_elem?-left source (drop (offset + length source) xs) k hk

  pub copied-before :
      (xs source : List A) (offset j : ℕ)
      → offset + length source ≤ length xs
      → j < offset
      → get_elem? (copied xs offset source) j ≡ get_elem? xs j
  copied-before xs source offset j h hj =
      get_elem?-left (take offset xs) (source ++ drop (offset + length source) xs) j
        (omega (arith, length-take offset xs))
      ∙ get_elem?-take offset j xs hj

  pub copied-after :
      (xs source : List A) (offset k : ℕ)
      → offset + length source ≤ length xs
      → get_elem? (copied xs offset source) (offset + length source + k)
        ≡ get_elem? xs (offset + length source + k)
  copied-after xs source offset k h =
      let start : length (take offset xs) ≡ offset = omega (arith, length-take offset xs) in
      let place : offset + length source + k ≡ length (take offset xs) + (length source + k) =
        omega (arith, start) in
      ap (get_elem? (copied xs offset source)) place
      ∙ get_elem?-right (take offset xs) (source ++ drop (offset + length source) xs)
          (length source + k)
      ∙ get_elem?-right source (drop (offset + length source) xs) k
      ∙ get_elem?-drop (offset + length source) k xs

  pub length-copied :
      (xs source : List A) (offset : ℕ)
      → offset + length source ≤ length xs
      → length (copied xs offset source) ≡ length xs
  length-copied xs source offset h = omega (
    arith,
    length-append (take offset xs) (source ++ drop (offset + length source) xs),
    length-append source (drop (offset + length source) xs),
    length-take offset xs,
    length-drop (offset + length source) xs,
  )

  -- A list that agrees with another on all of that one's indices begins with it.
  pub take_agreeing :
      (xs ys : List A)
      → length ys ≤ length xs
      → ((j : ℕ) → j < length ys → get_elem? xs j ≡ get_elem? ys j)
      → take (length ys) xs ≡ ys
  take_agreeing xs [] h agree = refl
  take_agreeing [] (y ∷ ys) h agree = absurd (omega arith)
  take_agreeing (x ∷ xs) (y ∷ ys) h agree =
      let head : some x ≡ some y = agree 0 (omega arith) in
      let same : x ≡ y = cc in
      rw same (
        ap (λ zs. y ∷ zs) (take_agreeing xs ys (omega arith) (λ j hj. agree (suc j) (omega arith))))

-- How many of the first `n` indices pass a test.
abbrev pub count : ℕ → (ℕ → Bool) → ℕ
count zero test = 0
count (suc n) test = count n test + (if test n then 1 else 0)

pub count-le : (n : ℕ) (test : ℕ → Bool) → count n test ≤ n
count-le zero test = omega arith
count-le (suc n) test = ground (arith, count-le n test)

pub count-full : (n i : ℕ) (test : ℕ → Bool) → count n test ≡ n → i < n → test i ≡ true
count-full zero i test e h = absurd (omega arith)
count-full (suc n) i test e h = elim (ℕ_discrete i n) [
  | yes at ↦ rw at (ground (arith, count-le n test))
  | no ne ↦ count-full n i test (ground (arith, count-le n test)) (omega arith)
]

pub count-same :
    (n : ℕ) (test test' : ℕ → Bool)
    → ((j : ℕ) → j < n → test' j ≡ test j)
    → count n test' ≡ count n test
count-same zero test test' h = refl
count-same (suc n) test test' h =
    rw (h n (omega arith), count-same n test test' (λ j hj. h j (omega arith))) refl

-- One more index passes.
pub count-more :
    (n i : ℕ) (test test' : ℕ → Bool)
    → i < n
    → test i ≡ false
    → test' i ≡ true
    → ((j : ℕ) → j < n → j ≢ i → test' j ≡ test j)
    → count n test' ≡ count n test + 1
count-more zero i test test' h off on others = absurd (omega arith)
count-more (suc n) i test test' h off on others = elim (ℕ_discrete i n) [
  | yes at ↦
      let was : test n ≡ false = ap test (sym at) ∙ off in
      let now : test' n ≡ true = ap test' (sym at) ∙ on in
      let rest =
        count-same n test test' (λ j hj. others j (omega arith) (λ e. absurd (omega arith))) in
      rw (was, now) (omega (arith, rest))
  | no ne ↦
      let same = others n (omega arith) (λ e. ne (sym e)) in
      let rest =
        count-more n i test test' (omega arith) off on
          (λ j hj other. others j (omega arith) other) in
      rw (same, rest) (omega arith)
]

-- The fragment of a list at an index, and where an index of the list lies.
abbrev pub fragment_of : ℕ → List ℕ → ℕ → List ℕ
fragment_of size data_ i = take size (drop (i * size) data_)

pub in_fragment :
    (size n j : ℕ)
    → 0 < size
    → j < n * size
    → (j / size < n) × (j / size * size ≤ j) × (j < j / size * size + size)
in_fragment size n j pos h =
    let whole : size * (j / size) + j % size ≡ j = div-add-mod j size in
    let rest = mod-lt j pos in
    elim (dec_lt (j / size) n) [
      | yes lt ↦ (lt, omega (arith, whole), omega (arith, whole, rest))
      | no ge ↦
          let more : n * size ≤ j / size * size = mul-le-mul_right size (omega arith) in
          absurd (omega (arith, whole, more))
    ]

-- ===== src/BitArray/Laws.antt =====
-- What the operations do to each bit.
use libyojimbo.Prelude.{
  ℕ, ◌+◌, ◌-◌, ◌*◌, ◌/◌, ◌%◌, ◌^◌, ◌≤◌, ◌<◌, ◌≡◌, ◌≢◌, refl, sym, ap, ◌∙◌, arith, Bool, true, false,
  Option, some, ◌==◌, ==_iff, bit_and, bit_or, lt→ltb, if◌then◌else◌, get_elem?-eq-get_or, get_or,
  get_or-set_self, get_or-set_ne, set, length, length-set, replicate, length-replicate,
  get_or-replicate,
}
use libyojimbo.Prelude.Bits.{
  digit, digit-bit_or, digit-bit_and, digit-pow_self, digit-pow_ne, digit-complement, digit-zero,
  bit_and_mask,
}
use libyojimbo.BitArray.{BitArray, clear, new, set_bit, clear_bit, get_bit}
use native.Mathlib.Nat.{pow-le-pow_right}
use native.Mathlib.Decide.{ℕ_discrete}

-- The words cover the bits.
pub record IsValid (b : BitArray) : Type 0 where
  pub covers : b.size ≤ length b.data_ * 64

-- The bit at an index of a valid array.
abbrev pub bit_at : BitArray → ℕ → ℕ
bit_at b i = digit (get_or b.data_ (i / 64) 0) (i % 64)

pub get_bit_lem : (b : BitArray) (i : ℕ) → IsValid b → i < b.size → get_bit b i ≡ some (bit_at b i)
unfolding get_bit
get_bit_lem b i v h =
    let word : i / 64 < length b.data_ = omega (arith, v.covers) in
    rw
      (
        lt→ltb i b.size h,
        bit_and_mask 6 i,
        lt→ltb (i % 64) 64 (omega arith),
        get_elem?-eq-get_or b.data_ (i / 64) 0 word,
        bit_and_mask 1 (get_or b.data_ (i / 64) 0 / 2 ^ (i % 64)),
      )
      refl

-- The array with a word put in place of the one that holds a bit.
abbrev stored : BitArray → ℕ → ℕ → BitArray
stored b i word = record b { data_ = set b.data_ (i / 64) word }

stored-IsValid : (b : BitArray) (i word : ℕ) → IsValid b → IsValid (stored b i word)
stored-IsValid b i word v = record {
  covers = omega (arith, v.covers, length-set b.data_ (i / 64) word);
}

-- A new word that differs from the old one at one digit alone.
bit_at-stored :
    (b : BitArray) (i j word value : ℕ)
    → IsValid b
    → i < b.size
    → digit word (i % 64) ≡ value
    → ((k : ℕ) → k < 64 → k ≢ i % 64 → digit word k ≡ digit (get_or b.data_ (i / 64) 0) k)
    → bit_at (stored b i word) j ≡ (if j == i then value else bit_at b j)
bit_at-stored b i j word value v h at away = elim (ℕ_discrete (i / 64) (j / 64)) [
  | yes same ↦
      let here : get_or (set b.data_ (i / 64) word) (j / 64) 0 ≡ word =
        ap (λ k. get_or (set b.data_ (i / 64) word) k 0) (sym same)
        ∙ get_or-set_self b.data_ (i / 64) word 0 (omega (arith, v.covers)) in
      elim (ℕ_discrete j i) [
        | yes e ↦
            let now : (j == i) ≡ true = (==_iff j i).1 e in
            rw (now, here) (ap (λ k. digit word (k % 64)) e ∙ at)
        | no ne ↦
            let other : (j == i) ≡ false = ground arith in
            rw (other, here)
              (away (j % 64) (omega arith) (λ e. ne (omega arith))
                ∙ ap (λ k. digit (get_or b.data_ k 0) (j % 64)) same)
      ]
  | no differ ↦
      let other : (j == i) ≡ false = ground arith in
      rw (other, get_or-set_ne b.data_ (i / 64) (j / 64) word 0 differ) refl
]

flagged :
    (c : Bool) (value x : ℕ)
    → ◌≡◌ {A = Option ℕ} (some (if c then value else x)) (if c then some value else some x)
flagged true value x = refl
flagged false value x = refl

-- A stored word is read back at every index.
get_bit-stored :
    (b : BitArray) (i j word value : ℕ)
    → IsValid b
    → i < b.size
    → j < b.size
    → digit word (i % 64) ≡ value
    → ((k : ℕ) → k < 64 → k ≢ i % 64 → digit word k ≡ digit (get_or b.data_ (i / 64) 0) k)
    → get_bit (stored b i word) j ≡ (if j == i then some value else get_bit b j)
get_bit-stored b i j word value v h hj at away =
    get_bit_lem (stored b i word) j (stored-IsValid b i word v) hj
    ∙ ap some (bit_at-stored b i j word value v h at away)
    ∙ flagged (j == i) value (bit_at b j)
    ∙ rw (get_bit_lem b j v hj) refl

pow-bit : (k : ℕ) → k < 64 → 2 ^ k < 2 ^ 64
pow-bit k h =
    let most : 2 ^ k ≤ 2 ^ 63 = pow-le-pow_right {n = 2} (omega arith) {j = 63} (omega arith) in
    omega arith

-- `SetBit` on a bit of a valid array sets it and no other.
pub set_bit_lem :
    (b : BitArray) (i j : ℕ)
    → IsValid b
    → i < b.size
    → j < b.size
    → (b' : BitArray) × (set_bit b i ≡ some b')
      × IsValid b'
      × (get_bit b' j ≡ (if j == i then some 1 else get_bit b j))
unfolding set_bit
set_bit_lem b i j v h hj =
    let word = get_or b.data_ (i / 64) 0 in
    let new_word = bit_or word (2 ^ (i % 64)) in
    let at : digit new_word (i % 64) ≡ 1 =
      omega (arith, digit-bit_or word (2 ^ (i % 64)) (i % 64), digit-pow_self (i % 64)) in
    (
      stored b i new_word,
      rw
          (
            lt→ltb i b.size h,
            bit_and_mask 6 i,
            lt→ltb (i % 64) 64 (omega arith),
            get_elem?-eq-get_or b.data_ (i / 64) 0 (omega (arith, v.covers)),
          )
          refl,
      stored-IsValid b i new_word v,
      get_bit-stored b i j new_word 1 v h hj at (λ k lt ne.
          omega
            (arith, digit-bit_or word (2 ^ (i % 64)) k, digit-pow_ne (i % 64) k (λ e. ne (sym e)))),
    )

-- `ClearBit` on a bit of a valid array clears it and no other.
pub clear_bit_lem :
    (b : BitArray) (i j : ℕ)
    → IsValid b
    → i < b.size
    → j < b.size
    → (b' : BitArray) × (clear_bit b i ≡ some b')
      × IsValid b'
      × (get_bit b' j ≡ (if j == i then some 0 else get_bit b j))
unfolding clear_bit
clear_bit_lem b i j v h hj =
    let word = get_or b.data_ (i / 64) 0 in
    let mask = 2 ^ 64 - 1 - 2 ^ (i % 64) in
    let fits = pow-bit (i % 64) (omega arith) in
    let at : digit (bit_and word mask) (i % 64) ≡ 0 = omega (
      arith,
      digit-bit_and word mask (i % 64),
      digit-complement 64 (2 ^ (i % 64)) (i % 64) fits (omega arith),
      digit-pow_self (i % 64),
    ) in
    (
      stored b i (bit_and word mask),
      rw
          (
            lt→ltb i b.size h,
            bit_and_mask 6 i,
            get_elem?-eq-get_or b.data_ (i / 64) 0 (omega (arith, v.covers)),
          )
          refl,
      stored-IsValid b i (bit_and word mask) v,
      get_bit-stored b i j (bit_and word mask) 0 v h hj at (λ k lt ne. omega (
        arith,
        digit-bit_and word mask k,
        digit-complement 64 (2 ^ (i % 64)) k fits lt,
        digit-pow_ne (i % 64) k (λ e. ne (sym e)),
      )),
    )

-- The constructor makes a valid array of any positive number of bits, all of them clear.
pub new_bits_lem :
    (size j : ℕ)
    → 0 < size
    → j < size
    → (b : BitArray) × (new size ≡ some b) × IsValid b × (b.size ≡ size) × (get_bit b j ≡ some 0)
unfolding new clear
new_bits_lem size j h hj =
    let words = size / 64 + (if size % 64 == 0 then 0 else 1) in
    let b : BitArray = record {
      size = size;
      bytes = 8 * words;
      data_ = replicate (8 * words / 8) 0;
    } in
    let enough : size ≤ 8 * words / 8 * 64 = ground arith in
    let some_bytes : 0 < 8 * words = ground arith in
    let v : IsValid b = record {
      covers = omega (arith, enough, length-replicate {A = ℕ} (8 * words / 8) 0);
    } in
    let clear_word : get_or (replicate (8 * words / 8) 0) (j / 64) 0 ≡ 0 =
      get_or-replicate (8 * words / 8) (j / 64) 0 in
    (
      b,
      rw (lt→ltb 0 size h, lt→ltb 0 (8 * words) some_bytes) refl,
      v,
      refl,
      get_bit_lem b j v hj ∙ ap some (ap (λ w. digit w (j % 64)) clear_word ∙ digit-zero (j % 64)),
    )

set_bit-stored :
    (b : BitArray) (i : ℕ)
    → IsValid b
    → i < b.size
    → set_bit b i ≡ some (stored b i (bit_or (get_or b.data_ (i / 64) 0) (2 ^ (i % 64))))
unfolding set_bit
set_bit-stored b i v h =
    rw
      (
        lt→ltb i b.size h,
        bit_and_mask 6 i,
        lt→ltb (i % 64) 64 (omega arith),
        get_elem?-eq-get_or b.data_ (i / 64) 0 (omega (arith, v.covers)),
      )
      refl

-- The array after `SetBit` on a bit, read at any of its bits.
pub set_bit_all :
    (b : BitArray) (i : ℕ)
    → IsValid b
    → i < b.size
    → (b' : BitArray) × (set_bit b i ≡ some b')
      × IsValid b'
      × (b'.size ≡ b.size)
      × ((j : ℕ) → j < b.size → get_bit b' j ≡ (if j == i then some 1 else get_bit b j))
set_bit_all b i v h =
    let b' = stored b i (bit_or (get_or b.data_ (i / 64) 0) (2 ^ (i % 64))) in
    (
      b',
      set_bit-stored b i v h,
      stored-IsValid b i (bit_or (get_or b.data_ (i / 64) 0) (2 ^ (i % 64))) v,
      refl,
      λ j hj.
          let (b'', done, _, at) = set_bit_lem b i j v h hj in
          let p : some b' ≡ some b'' = sym (set_bit-stored b i v h) ∙ done in
          let same : b' ≡ b'' = cc in ap (λ c. get_bit c j) same ∙ at,
    )

-- ===== src/BitPack/Reader/Laws.antt =====
-- `ReadBits` in terms of a stream of digits.
use libyojimbo.Prelude.{
  ℕ, zero, suc, ◌+◌, ◌-◌, ◌*◌, ◌/◌, ◌%◌, ◌^◌, ◌≤◌, ◌<◌, ◌≡◌, refl, sym, ap, ◌∙◌, subst, arith, some,
  List, [], ◌∷◌, ◌++◌, ltb, lt→ltb, le→leb, ltb→lt, if◌then◌else◌, length, drop, get_or,
  get_elem?-eq-get_or, Bool-cases, inl, inr, All,
}
use libyojimbo.Prelude.Bits.{bit_or_fields, bit_and_mask}
use libyojimbo.BitPack.Digits.{
  to_bits, to_bits-add, to_bits-fields, to_bits-mod, fields-lt, pow_add, words_bits, drop-get,
}
use libyojimbo.BitPack.Reader.{BitReader, new, fetch_word, read_bits}
use native.Mathlib.Nat.{
  pow-le-pow_right, one-le-pow, mod-eq_of_lt, mod-lt, le_trans, div-lt_iff_lt-mul,
}
use mathlib.Core.List.{append_assoc}

-- A reader between two calls of `ReadBits`, on a buffer that is rounded up to whole words.
pub record IsValid (r : BitReader) : Type 0 where
  pub buffer : r.num_words ≤ length r.words
  pub words_fit : All (λ x. x < 2 ^ 32) r.words
  pub size_words : r.num_words ≡ (r.num_bytes + 3) / 4
  pub size_bits : r.num_bits ≡ r.num_bytes * 8
  pub position : r.bits_read + r.scratch_bits ≡ r.word_index * 32
  pub partial_word : r.scratch_bits < 32
  pub scratch_fits : r.scratch < 2 ^ r.scratch_bits

-- What is still to be read.
abbrev pub remaining : BitReader → List ℕ
remaining r = to_bits r.scratch_bits r.scratch ++ words_bits (drop r.word_index r.words)

pub new_lem :
    (words : List ℕ) (bytes : ℕ)
    → bytes ≤ length words * 4
    → All (λ x. x < 2 ^ 32) words
    → IsValid (new words bytes) × (remaining (new words bytes) ≡ words_bits words)
unfolding new to_bits
new_lem words bytes h fit = (
  record {
    buffer = omega arith;
    words_fit = fit;
    size_words = refl;
    size_bits = refl;
    position = omega arith;
    partial_word = omega arith;
    scratch_fits = omega arith;
  },
  refl,
)

get_or-lt : (xs : List ℕ) (i b : ℕ) → All (λ x. x < b) xs → i < length xs → get_or xs i 0 < b
get_or-lt [] i b h k = absurd (omega arith)
get_or-lt (x ∷ xs) zero b h k = h.0
get_or-lt (x ∷ xs) (suc i) b h k = get_or-lt xs i b h.1 (omega arith)

-- The reader with the next word above its scratch.
abbrev fetched : BitReader → BitReader
fetched r = record r {
  scratch = r.scratch + get_or r.words r.word_index 0 * 2 ^ r.scratch_bits;
  scratch_bits = r.scratch_bits + 32;
  word_index = r.word_index + 1;
}

fetch_word-fetched :
    (r : BitReader) → IsValid r → r.word_index < r.num_words → fetch_word r ≡ some (fetched r)
unfolding fetch_word
fetch_word-fetched r v h =
    let word = get_or r.words r.word_index 0 in
    let in_buffer : r.word_index < length r.words = le_trans h v.buffer in
    let word_fits : word < 2 ^ 32 = get_or-lt r.words r.word_index (2 ^ 32) v.words_fit in_buffer in
    let small : r.scratch + word * 2 ^ r.scratch_bits < 2 ^ 64 =
      le_trans (fields-lt r.scratch_bits 32 r.scratch word v.scratch_fits word_fits)
        (pow-le-pow_right {n = 2} (omega arith) {j = 64} (omega (arith, v.partial_word))) in
    let fits : word * 2 ^ r.scratch_bits % 2 ^ 64 ≡ word * 2 ^ r.scratch_bits =
      mod-eq_of_lt (omega arith) in
    rw (
      lt→ltb r.word_index r.num_words h,
      get_elem?-eq-get_or r.words r.word_index 0 in_buffer,
      fits,
      bit_or_fields r.scratch_bits r.scratch word v.scratch_fits,
    )

remaining-fetched :
    (r : BitReader) → IsValid r → r.word_index < r.num_words → remaining (fetched r) ≡ remaining r
unfolding words_bits
remaining-fetched r v h =
    let word = get_or r.words r.word_index 0 in
    let next : r.word_index + 1 ≡ suc r.word_index = omega arith in
    rw
      (
        next,
        to_bits-fields r.scratch_bits 32 r.scratch word v.scratch_fits,
        drop-get r.words r.word_index 0 (le_trans h v.buffer),
      )
      (append_assoc (to_bits r.scratch_bits r.scratch) (to_bits 32 word)
        (words_bits (drop (suc r.word_index) r.words)))

-- The reader with its lowest digits taken off.
abbrev taken : BitReader → ℕ → ℕ → BitReader
taken r read bits = record r {
  bits_read = read;
  scratch = r.scratch / 2 ^ bits;
  scratch_bits = r.scratch_bits - bits;
}

remaining-taken :
    (r : BitReader) (read bits : ℕ)
    → bits ≤ r.scratch_bits
    → to_bits bits (r.scratch % 2 ^ bits) ++ remaining (taken r read bits) ≡ remaining r
remaining-taken r read bits h =
    let sum : r.scratch_bits ≡ bits + (r.scratch_bits - bits) = omega arith in
    let high = to_bits (r.scratch_bits - bits) (r.scratch / 2 ^ bits) in
    let rest = words_bits (drop r.word_index r.words) in
    ap (λ t. t ++ (high ++ rest)) (to_bits-mod bits r.scratch)
    ∙ sym (append_assoc (to_bits bits r.scratch) high rest)
    ∙ ap (λ t. t ++ rest)
        (sym
          (ap (λ n. to_bits n r.scratch) sum ∙ to_bits-add bits (r.scratch_bits - bits) r.scratch))

taken-fits : (s n bits : ℕ) → bits ≤ n → s < 2 ^ n → s / 2 ^ bits < 2 ^ (n - bits)
taken-fits s n bits h fits =
    let sum : n - bits + bits ≡ n = omega arith in
    (div-lt_iff_lt-mul (one-le-pow bits 2 (omega arith))).1
      (subst (λ t. s < t) (ap (λ k. 2 ^ k) (sym sum) ∙ pow_add (n - bits) bits) fits)

-- `ReadBits` once its first assertions hold.
read_bits_step :
    (r : BitReader) (bits : ℕ)
    → IsValid r
    → 0 < bits
    → bits ≤ 32
    → r.bits_read + bits ≤ r.num_bits
    → (f : BitReader) × ((if ltb r.scratch_bits bits then fetch_word r else some r) ≡ some f)
      × (remaining f ≡ remaining r)
      × (bits ≤ f.scratch_bits)
      × (f.scratch < 2 ^ f.scratch_bits)
      × IsValid (taken f (r.bits_read + bits) bits)
      × (f.num_bits ≡ r.num_bits)
read_bits_step r bits v pos le room = elim (Bool-cases (ltb r.scratch_bits bits)) [
  | inl short ↦
      let wants : r.scratch_bits < bits = ltb→lt r.scratch_bits bits short in
      let in_packet : r.word_index < r.num_words =
        omega (arith, v.position, v.size_words, v.size_bits) in
      let f = fetched r in
      let fits : f.scratch < 2 ^ f.scratch_bits =
        fields-lt r.scratch_bits 32 r.scratch (get_or r.words r.word_index 0) v.scratch_fits
          (get_or-lt r.words r.word_index (2 ^ 32) v.words_fit (le_trans in_packet v.buffer)) in
      (
        f,
        rw short (fetch_word-fetched r v in_packet),
        remaining-fetched r v in_packet,
        omega arith,
        fits,
        record {
          buffer = v.buffer;
          words_fit = v.words_fit;
          size_words = v.size_words;
          size_bits = v.size_bits;
          position = omega (arith, v.position);
          partial_word = omega arith;
          scratch_fits = taken-fits f.scratch f.scratch_bits bits (omega arith) fits;
        },
        refl,
      )
  | inr enough ↦
      let has : bits ≤ r.scratch_bits = ground arith in
      (
        r,
        rw enough,
        refl,
        has,
        v.scratch_fits,
        record {
          buffer = v.buffer;
          words_fit = v.words_fit;
          size_words = v.size_words;
          size_bits = v.size_bits;
          position = omega (arith, v.position);
          partial_word = omega (arith, v.partial_word);
          scratch_fits = taken-fits r.scratch r.scratch_bits bits has v.scratch_fits;
        },
        refl,
      )
]

-- A valid reader gives any number of bits from 1 to 32 that its packet still holds: a value that fits
-- them and whose digits are the next ones of the stream. It stays valid, with the rest to be read.
pub read_bits_lem :
    (r : BitReader) (bits : ℕ)
    → IsValid r
    → 0 < bits
    → bits ≤ 32
    → r.bits_read + bits ≤ r.num_bits
    → (value : ℕ) × (r' : BitReader) × (read_bits r bits ≡ some (value, r'))
      × IsValid r'
      × (value < 2 ^ bits)
      × (to_bits bits value ++ remaining r' ≡ remaining r)
      × (r'.bits_read ≡ r.bits_read + bits)
      × (r'.num_bits ≡ r.num_bits)
unfolding read_bits
read_bits_lem r bits v pos le room =
    let (f, got, same, has, fits, v', size) = read_bits_step r bits v pos le room in
    let value_fits : f.scratch % 2 ^ bits < 2 ^ bits =
      mod-lt f.scratch (one-le-pow bits 2 (omega arith)) in
    let word : f.scratch % 2 ^ bits % 2 ^ 32 ≡ f.scratch % 2 ^ bits =
      mod-eq_of_lt (le_trans value_fits (pow-le-pow_right {n = 2} (omega arith) le)) in
    (
      f.scratch % 2 ^ bits,
      taken f (r.bits_read + bits) bits,
      rw (
        lt→ltb 0 bits pos,
        le→leb bits 32 le,
        le→leb (r.bits_read + bits) r.num_bits room,
        le→leb r.scratch_bits 64 (omega (arith, v.partial_word)),
        got,
        le→leb bits f.scratch_bits has,
        bit_and_mask bits f.scratch,
        word,
      ),
      v',
      value_fits,
      remaining-taken f (r.bits_read + bits) bits has ∙ same,
      refl,
      size,
    )

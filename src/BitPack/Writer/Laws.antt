-- ===== src/BitPack/Writer/Laws.antt =====
-- `WriteBits` and `FlushBits` in terms of a stream of digits.
use libyojimbo.Prelude.{
  All, All-set, ℕ, suc, ◌+◌, ◌-◌, ◌*◌, ◌/◌, ◌%◌, ◌^◌, ◌≤◌, ◌<◌, ◌≡◌, refl, sym, ap, ◌∙◌, arith,
  some, List, [], ◌++◌, bit_or, leb, lt→ltb, le→leb, leb→le, ◌==◌, if◌then◌else◌, ◌>>=◌, length,
  take, set, length-set, Bool-cases, ==_iff, false, inl, inr,
}
use libyojimbo.Prelude.Bits.{bit_or_fields, bit_and_mask}
use libyojimbo.BitPack.Digits.{
  to_bits, to_bits-add, to_bits-fields, to_bits-mod, to_bits_pad, fields-lt, pow_add, words_bits,
  words_bits-append, take-set,
}
use libyojimbo.BitPack.Writer.{BitWriter, new, flush_word, write_bits, flush_bits}
use native.Mathlib.Nat.{pow-le-pow_right, mod-eq_of_lt, le_trans}
use mathlib.Core.List.{append_assoc, append-nil}

-- A writer between two calls of `WriteBits`.
pub record IsValid (w : BitWriter) : Type 0 where
  pub buffer : length w.words ≡ w.num_words
  pub words_fit : All (λ x. x < 2 ^ 32) w.words
  pub capacity : w.num_bits ≡ w.num_words * 32
  pub position : w.bits_written ≡ w.word_index * 32 + w.scratch_bits
  pub room : w.bits_written ≤ w.num_bits
  pub partial_word : w.scratch_bits < 32
  pub scratch_fits : w.scratch < 2 ^ w.scratch_bits

-- What has been written, in the order of the stream.
abbrev pub stream : BitWriter → List ℕ
stream w = words_bits (take w.word_index w.words) ++ to_bits w.scratch_bits w.scratch

-- `m_scratch |= uint64_t( value ) << m_scratchBits` puts the value above the scratch, with no overflow.
scratch_lem :
    (s v m n : ℕ)
    → s < 2 ^ m
    → v < 2 ^ n
    → m + n ≤ 64
    → bit_or s (v * 2 ^ m % 2 ^ 64) ≡ s + v * 2 ^ m
scratch_lem s v m n hs hv h =
    let small : s + v * 2 ^ m < 2 ^ 64 =
      le_trans (fields-lt m n s v hs hv) (pow-le-pow_right {n = 2} (omega arith) h) in
    let fits : v * 2 ^ m % 2 ^ 64 ≡ v * 2 ^ m = mod-eq_of_lt (omega arith) in
    rw fits (bit_or_fields m s v hs)

-- The constructor makes a valid writer of every buffer of whole words, with nothing written.
pub new_lem :
    (words : List ℕ)
    → All (λ x. x < 2 ^ 32) words
    → (w : BitWriter) × (new words (length words * 4) ≡ some w)
      × IsValid w
      × (stream w ≡ [])
      × (w.num_bits ≡ length words * 32)
      × (w.bits_written ≡ 0)
unfolding new words_bits to_bits
new_lem words fit = (
  record {
    words = words;
    scratch = 0;
    num_bits = length words * 4 / 4 * 32;
    num_words = length words * 4 / 4;
    bits_written = 0;
    word_index = 0;
    scratch_bits = 0;
  },
  ground arith,
  record {
    buffer = omega arith;
    words_fit = fit;
    capacity = refl;
    position = omega arith;
    room = omega arith;
    partial_word = omega arith;
    scratch_fits = omega arith;
  },
  refl,
  omega arith,
  refl,
)

-- The writer after its low word has gone to memory.
abbrev flushed : BitWriter → ℕ → BitWriter
flushed w n = record w {
  words = set w.words w.word_index (w.scratch % 2 ^ 32);
  scratch = w.scratch / 2 ^ 32;
  scratch_bits = n;
  word_index = w.word_index + 1;
}

flush_word-flushed :
    (w : BitWriter) (n : ℕ) → w.word_index < w.num_words → flush_word w n ≡ some (flushed w n)
unfolding flush_word
flush_word-flushed w n h = rw (lt→ltb w.word_index w.num_words h, bit_and_mask 32 w.scratch)

stream-flushed :
    (w : BitWriter) (n : ℕ)
    → w.word_index < length w.words
    → stream (flushed w n) ≡ words_bits (take w.word_index w.words) ++ to_bits (32 + n) w.scratch
unfolding words_bits
stream-flushed w n h =
    let words = set w.words w.word_index (w.scratch % 2 ^ 32) in
    let next : w.word_index + 1 ≡ suc w.word_index = omega arith in
    rw
      (
        next,
        take-set w.words w.word_index (w.scratch % 2 ^ 32) h,
        words_bits-append,
        to_bits-add 32 n w.scratch,
        append-nil,
        to_bits-mod 32 w.scratch,
      )
      (append_assoc (words_bits (take w.word_index w.words)) (to_bits 32 w.scratch)
        (to_bits n (w.scratch / 2 ^ 32)))

scratch-flushed : (w : BitWriter) (n : ℕ) → w.scratch < 2 ^ (32 + n) → (flushed w n).scratch < 2 ^ n
scratch-flushed w n h = omega (arith, pow_add 32 n)

-- The scratch with a value put above it.
abbrev filled : BitWriter → ℕ → ℕ → BitWriter
filled w value bits = record w {
  scratch = w.scratch + value * 2 ^ w.scratch_bits;
  scratch_bits = w.scratch_bits + bits;
}

-- `WriteBits` once its assertions hold.
write_bits-filled :
    (w : BitWriter) (value bits : ℕ)
    → IsValid w
    → 0 < bits
    → bits ≤ 32
    → value < 2 ^ bits
    → w.bits_written + bits ≤ w.num_bits
    → write_bits w value bits ≡ (
        (if leb 32 (w.scratch_bits + bits)
          then flush_word (filled w value bits) (w.scratch_bits + bits - 32)
          else some (filled w value bits))
        >>= λ w'. some (record w' { bits_written = w.bits_written + bits }))
unfolding write_bits
write_bits-filled w value bits v pos le fits room = rw (
  lt→ltb 0 bits pos,
  le→leb bits 32 le,
  le→leb (w.bits_written + bits) w.num_bits room,
  le→leb value (2 ^ bits - 1) (omega arith),
  scratch_lem w.scratch value w.scratch_bits bits v.scratch_fits fits (omega arith),
)

stream-filled :
    (w : BitWriter) (value bits : ℕ)
    → w.scratch < 2 ^ w.scratch_bits
    → words_bits (take w.word_index w.words)
        ++ to_bits (w.scratch_bits + bits) (w.scratch + value * 2 ^ w.scratch_bits)
      ≡ stream w ++ to_bits bits value
stream-filled w value bits h =
    ap (λ t. words_bits (take w.word_index w.words) ++ t)
      (to_bits-fields w.scratch_bits bits w.scratch value h)
    ∙ sym (
        append_assoc (words_bits (take w.word_index w.words)) (to_bits w.scratch_bits w.scratch)
          (to_bits bits value))

-- A valid writer takes every value that fits its number of bits, from 1 to 32, while the buffer has
-- room: it appends the digits of the value to the stream, and stays valid.
pub write_bits_lem :
    (w : BitWriter) (value bits : ℕ)
    → IsValid w
    → 0 < bits
    → bits ≤ 32
    → value < 2 ^ bits
    → w.bits_written + bits ≤ w.num_bits
    → (w' : BitWriter) × (write_bits w value bits ≡ some w')
      × IsValid w'
      × (stream w' ≡ stream w ++ to_bits bits value)
      × (w'.bits_written ≡ w.bits_written + bits)
      × (w'.num_bits ≡ w.num_bits)
write_bits_lem w value bits v pos le fits room =
    elim (Bool-cases (leb 32 (w.scratch_bits + bits))) [
      | inl full ↦
          let f = filled w value bits in
          let n = w.scratch_bits + bits - 32 in
          let split : 32 + n ≡ w.scratch_bits + bits = ground arith in
          let in_buffer : w.word_index < w.num_words =
            omega (arith, v.position, v.capacity, leb→le _ _ full) in
          let fits_two : f.scratch < 2 ^ (32 + n) =
            rw split (fields-lt w.scratch_bits bits w.scratch value v.scratch_fits fits) in
          (
            record (flushed f n) { bits_written = w.bits_written + bits },
            write_bits-filled w value bits v pos le fits room
                ∙ rw (full, flush_word-flushed f n in_buffer),
            record {
              buffer = length-set w.words w.word_index (f.scratch % 2 ^ 32) ∙ v.buffer;
              words_fit =
                  All-set (λ x. x < 2 ^ 32) w.words w.word_index (f.scratch % 2 ^ 32) v.words_fit
                    (omega arith);
              capacity = v.capacity;
              position = omega (arith, v.position, split);
              room = room;
              partial_word = omega (arith, v.partial_word);
              scratch_fits = scratch-flushed f n fits_two;
            },
            stream-flushed f n (omega (arith, v.buffer))
                ∙ ap (λ k. words_bits (take w.word_index w.words) ++ to_bits k f.scratch) split
                ∙ stream-filled w value bits v.scratch_fits,
            refl,
            refl,
          )
      | inr short ↦ (
        record (filled w value bits) { bits_written = w.bits_written + bits },
        write_bits-filled w value bits v pos le fits room ∙ rw short,
        record {
          buffer = v.buffer;
          words_fit = v.words_fit;
          capacity = v.capacity;
          position = omega (arith, v.position);
          room = room;
          partial_word = ground arith;
          scratch_fits = fields-lt w.scratch_bits bits w.scratch value v.scratch_fits fits;
        },
        stream-filled w value bits v.scratch_fits,
        refl,
        refl,
      )
    ]

-- `FlushBits` on a valid writer writes the last partial word, padded with zeros: then the words before
-- the word index hold the stream and zeros up to the end of its last word.
pub flush_bits_lem :
    (w : BitWriter)
    → IsValid w
    → (w' : BitWriter) × (flush_bits w ≡ some w')
      × (words_bits (take w'.word_index w'.words)
          ≡ stream w ++ to_bits (w'.word_index * 32 - w.bits_written) 0)
      × (w'.bits_written ≡ w.bits_written)
      × (length w'.words ≡ length w.words)
      × All (λ x. x < 2 ^ 32) w'.words
      × (w.bits_written ≤ w'.word_index * 32)
unfolding flush_bits to_bits
flush_bits_lem w v = elim (Bool-cases (w.scratch_bits == 0)) [
  | inl whole ↦
      let none_left : w.scratch_bits ≡ 0 = (==_iff _ 0).0 whole in
      let no_zeros : w.word_index * 32 - w.bits_written ≡ 0 = omega (arith, v.position) in
      (
        w,
        rw whole,
        sym (
            ap (λ n. stream w ++ to_bits n 0) no_zeros
            ∙ append-nil (stream w)
            ∙ ap (λ n. words_bits (take w.word_index w.words) ++ to_bits n w.scratch) none_left
            ∙ append-nil (words_bits (take w.word_index w.words))),
        refl,
        refl,
        v.words_fit,
        omega (arith, v.position),
      )
  | inr part ↦
      let in_buffer : w.word_index < w.num_words = ground (arith, v.position, v.capacity, v.room) in
      let zeros : (w.word_index + 1) * 32 - w.bits_written ≡ 32 - w.scratch_bits =
        omega (arith, v.position) in
      (
        flushed w 0,
        rw (part, le→leb w.scratch_bits 32 (omega arith)) (flush_word-flushed w 0 in_buffer),
        sym (append-nil (words_bits (take (flushed w 0).word_index (flushed w 0).words)))
            ∙ stream-flushed w 0 (omega (arith, v.buffer))
            ∙ ap (λ t. words_bits (take w.word_index w.words) ++ t) (padded part)
            ∙ sym (
                append_assoc (words_bits (take w.word_index w.words))
                  (to_bits w.scratch_bits w.scratch) (to_bits (32 - w.scratch_bits) 0))
            ∙ sym (ap (λ n. stream w ++ to_bits n 0) zeros),
        refl,
        length-set w.words w.word_index (w.scratch % 2 ^ 32),
        All-set (λ x. x < 2 ^ 32) w.words w.word_index (w.scratch % 2 ^ 32) v.words_fit
            (omega arith),
        omega (arith, v.position, v.partial_word),
      )
]
  where
    padded :
        (w.scratch_bits == 0) ≡ false
        → to_bits 32 w.scratch ≡ to_bits w.scratch_bits w.scratch ++ to_bits (32 - w.scratch_bits) 0
    padded part =
        let sum : 32 ≡ w.scratch_bits + (32 - w.scratch_bits) = omega (arith, v.partial_word) in
        ap (λ n. to_bits n w.scratch) sum
        ∙ to_bits_pad w.scratch_bits (32 - w.scratch_bits) w.scratch v.scratch_fits

-- ===== src/BitPack/Reader/Tests.antt =====
-- A run of `ReadBits` across the end of a word.
use libyojimbo.Prelude.{◌>>=◌, ◌^◌, ◌<◌, ◌≡◌, refl, ℕ, some, [], ◌∷◌, ◌++◌, arith}
use libyojimbo.BitPack.Digits.{to_bits}
use libyojimbo.BitPack.Reader.{BitReader, read_bits, read_bytes}
use libyojimbo.BitPack.Reader.Laws.{IsValid, remaining, read_bits_lem}

-- Thirty bits of two words are read, and two ones are in the scratch.
abbrev almost_empty : BitReader
almost_empty = record {
  words = 4294967295 ∷ 1 ∷ [];
  scratch = 3;
  num_bits = 56;
  num_bytes = 7;
  num_words = 2;
  bits_read = 30;
  scratch_bits = 2;
  word_index = 1;
}

almost_empty-IsValid : IsValid almost_empty
almost_empty-IsValid = record {
  buffer = omega arith;
  words_fit = (omega arith, (omega arith, tt));
  size_words = refl;
  size_bits = refl;
  position = refl;
  partial_word = omega arith;
  scratch_fits = omega arith;
}

read_bits_lem_example :
    (value : ℕ) × (r : BitReader) × (read_bits almost_empty 5 ≡ some (value, r))
    × IsValid r
    × (value < 2 ^ 5)
    × (to_bits 5 value ++ remaining r ≡ remaining almost_empty)
    × (r.bits_read ≡ 35)
    × (r.num_bits ≡ 56)
read_bits_lem_example =
    read_bits_lem almost_empty 5 almost_empty-IsValid (omega arith) (omega arith) (omega arith)

-- Eight bytes from the second byte on: three of the first word, then one word copied, then one byte.
abbrev after_one : BitReader
after_one = record {
  words = 67305985 ∷ 134678021 ∷ 9 ∷ [];
  scratch = 262914;
  num_bits = 72;
  num_bytes = 9;
  num_words = 3;
  bits_read = 8;
  scratch_bits = 24;
  word_index = 1;
}

read_eight :
    (read_bytes after_one 8 >>= λ (bytes, r). some bytes)
    ≡ some (2 ∷ 3 ∷ 4 ∷ 5 ∷ 6 ∷ 7 ∷ 8 ∷ 9 ∷ [])
unfolding read_bytes read_bits
read_eight = refl

-- ===== src/BitPack/Writer/Tests.antt =====
-- Runs of `WriteBits` and `FlushBits` across the end of a word.
use libyojimbo.Prelude.{
  ◌*◌, ◌-◌, ◌^◌, ◌≤◌, ◌<◌, ◌≡◌, refl, some, [], ◌∷◌, ◌++◌, take, length, All, arith,
}
use libyojimbo.BitPack.Digits.{to_bits, words_bits}
use libyojimbo.BitPack.Writer.{BitWriter, write_bits, flush_bits}
use libyojimbo.BitPack.Writer.Laws.{IsValid, stream, write_bits_lem, flush_bits_lem}

-- Thirty bits are written.
abbrev almost_full : BitWriter
almost_full = record {
  words = 0 ∷ 0 ∷ [];
  scratch = 9;
  num_bits = 64;
  num_words = 2;
  bits_written = 30;
  word_index = 0;
  scratch_bits = 30;
}

almost_full-IsValid : IsValid almost_full
almost_full-IsValid = record {
  buffer = refl;
  words_fit = (omega arith, (omega arith, tt));
  capacity = refl;
  position = refl;
  room = omega arith;
  partial_word = omega arith;
  scratch_fits = omega arith;
}

write_bits_lem_example :
    (w : BitWriter) × (write_bits almost_full 6 5 ≡ some w)
    × IsValid w
    × (stream w ≡ stream almost_full ++ to_bits 5 6)
    × (w.bits_written ≡ 35)
    × (w.num_bits ≡ 64)
write_bits_lem_example =
    write_bits_lem almost_full 6 5 almost_full-IsValid (omega arith) (omega arith) (omega arith)
      (omega arith)

flush_bits_lem_example :
    (w : BitWriter) × (flush_bits almost_full ≡ some w)
    × (words_bits (take w.word_index w.words)
        ≡ stream almost_full ++ to_bits (w.word_index * 32 - 30) 0)
    × (w.bits_written ≡ 30)
    × (length w.words ≡ 2)
    × All (λ x. x < 2 ^ 32) w.words
    × (30 ≤ w.word_index * 32)
flush_bits_lem_example = flush_bits_lem almost_full almost_full-IsValid

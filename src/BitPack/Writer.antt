-- ===== src/BitPack/Writer.antt =====
-- yojimbo_bitpack.h: `BitWriter`.
pub mod Laws
mod Tests
use libyojimbo.Prelude.{
  ℕ, zero, suc, ◌+◌, ◌-◌, ◌*◌, ◌/◌, ◌%◌, ◌^◌, Bool, ◌||◌, Option, none, some, List, [], ◌∷◌,
  bit_and, bit_or, ltb, leb, ◌==◌, not, if◌then◌else◌, ◌>>=◌, ◌>>◌, assert, set, length, take, drop,
  min,
}

-- The members of `BitWriter`; `words` is the buffer behind `m_data`.
pub record BitWriter : Type 0 where
  pub words : List ℕ
  pub scratch : ℕ
  pub num_bits : ℕ
  pub num_words : ℕ
  pub bits_written : ℕ
  pub word_index : ℕ
  pub scratch_bits : ℕ

-- The constructor, on a buffer and its size in bytes.
pub new : List ℕ → ℕ → Option BitWriter
new words bytes = do
  assert (bytes % 4 == 0)
  some (record {
    words = words;
    scratch = 0;
    num_bits = bytes / 4 * 32;
    num_words = bytes / 4;
    bits_written = 0;
    word_index = 0;
    scratch_bits = 0;
  })

-- The low word of the scratch goes to memory: `m_data[m_wordIndex] = …`, `m_scratch >>= 32`.
pub flush_word : BitWriter → ℕ → Option BitWriter
flush_word w bits_left = do
  assert (ltb w.word_index w.num_words)
  some (record w {
    words = set w.words w.word_index (bit_and w.scratch (2 ^ 32 - 1));
    scratch = w.scratch / 2 ^ 32;
    scratch_bits = bits_left;
    word_index = w.word_index + 1;
  })

-- `WriteBits`. The scratch is a `uint64_t`.
pub write_bits : BitWriter → ℕ → ℕ → Option BitWriter
unfolding flush_word
write_bits w value bits = do
  assert (ltb 0 bits)
  assert (leb bits 32)
  assert (leb (w.bits_written + bits) w.num_bits)
  assert (leb value (2 ^ bits - 1))
  let filled = record w {
    scratch = bit_or w.scratch (value * 2 ^ w.scratch_bits % 2 ^ 64);
    scratch_bits = w.scratch_bits + bits;
  }
  w' ←
      if leb 32 filled.scratch_bits
      then flush_word filled (filled.scratch_bits - 32)
      else some filled
  some (record w' { bits_written = w.bits_written + bits })

-- `WriteAlign`
pub write_align : BitWriter → Option BitWriter
unfolding write_bits
write_align w =
    let remainder_bits = w.bits_written % 8 in
    if not (remainder_bits == 0)
    then (do w' ← write_bits w 0 (8 - remainder_bits); assert (w'.bits_written % 8 == 0); some w')
    else some w

-- `FlushBits`
pub flush_bits : BitWriter → Option BitWriter
unfolding flush_word
flush_bits w =
    if not (w.scratch_bits == 0)
    then (do assert (leb w.scratch_bits 32); flush_word w 0)
    else some w

-- `GetAlignBits`
pub get_align_bits : BitWriter → ℕ
get_align_bits w = (8 - w.bits_written % 8) % 8

-- `GetBitsAvailable`
pub get_bits_available : BitWriter → ℕ
get_bits_available w = w.num_bits - w.bits_written

-- `GetBytesWritten`
unfoldable pub get_bytes_written : BitWriter → ℕ
get_bytes_written w = (w.bits_written + 7) / 8

-- The loops of `WriteBytes` over its first and last bytes.
pub write_each : BitWriter → List ℕ → Option BitWriter
write_each w [] = some w
write_each w (b ∷ bs) = write_bits w b 8 >>= λ w'. write_each w' bs

-- `memcpy` of whole words, lowest byte first, to the buffer from an index on.
pub copy_words : ℕ → List ℕ → ℕ → List ℕ → List ℕ
copy_words (suc n) (b0 ∷ b1 ∷ b2 ∷ b3 ∷ bs) i words =
    copy_words n bs (i + 1) (set words i (b0 + b1 * 2 ^ 8 + b2 * 2 ^ 16 + b3 * 2 ^ 24))
copy_words n bs i words = words

-- `WriteBytes` from its second half on: the whole words, then the bytes that are left.
pub write_words : BitWriter → List ℕ → Option BitWriter
unfolding write_each copy_words
write_words w bytes = do
  assert (get_align_bits w == 0)
  let num_words = length bytes / 4
  w' ←
      if ltb 0 num_words
      then (do
        assert (w.bits_written % 32 == 0)
        some (record w {
          words = copy_words num_words bytes w.word_index w.words;
          bits_written = w.bits_written + num_words * 32;
          word_index = w.word_index + num_words;
          scratch = 0;
        }))
      else some w
  assert (get_align_bits w' == 0)
  write_each w' (drop (num_words * 4) bytes)

-- `WriteBytes`
pub write_bytes : BitWriter → List ℕ → Option BitWriter
unfolding write_each write_words flush_bits
write_bytes w bytes = do
  assert (get_align_bits w == 0)
  assert (leb (w.bits_written + length bytes * 8) w.num_bits)
  assert (
      w.bits_written % 32 == 0
      || w.bits_written % 32 == 8
      || w.bits_written % 32 == 16
      || w.bits_written % 32 == 24)
  let head_bytes = min ((4 - w.bits_written % 32 / 8) % 4) (length bytes)
  w' ← write_each w (take head_bytes bytes)
  if head_bytes == length bytes
      then some w'
      else (flush_bits w' >>= λ w''. write_words w'' (drop head_bytes bytes))

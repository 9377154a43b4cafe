-- ===== src/BitPack/Reader.antt =====
-- yojimbo_bitpack.h: `BitReader`, with the word count that it keeps in builds with assertions.
pub mod Laws
mod Tests
use libyojimbo.Prelude.{
  ℕ, zero, suc, ◌+◌, ◌-◌, ◌*◌, ◌/◌, ◌%◌, ◌^◌, Bool, true, ◌||◌, Option, none, some, List, [], ◌∷◌,
  ◌++◌, bit_and, bit_or, ltb, leb, ◌==◌, not, if◌then◌else◌, ◌>>=◌, ◌>>◌, assert, get_elem?, min,
}

-- The members of `BitReader`; `words` is the buffer behind `m_data`.
pub record BitReader : Type 0 where
  pub words : List ℕ
  pub scratch : ℕ
  pub num_bits : ℕ
  pub num_bytes : ℕ
  pub num_words : ℕ
  pub bits_read : ℕ
  pub scratch_bits : ℕ
  pub word_index : ℕ

-- The constructor.
unfoldable pub new : List ℕ → ℕ → BitReader
new words bytes = record {
  words = words;
  scratch = 0;
  num_bits = bytes * 8;
  num_bytes = bytes;
  num_words = (bytes + 3) / 4;
  bits_read = 0;
  scratch_bits = 0;
  word_index = 0;
}

-- `WouldReadPastEnd`
pub would_read_past_end : BitReader → ℕ → Bool
would_read_past_end r bits = ltb r.num_bits (r.bits_read + bits)

-- The next word goes above the scratch: `m_scratch |= … << m_scratchBits`.
pub fetch_word : BitReader → Option BitReader
fetch_word r = do
  assert (ltb r.word_index r.num_words)
  word ← get_elem? r.words r.word_index
  some (record r {
    scratch = bit_or r.scratch (word * 2 ^ r.scratch_bits % 2 ^ 64);
    scratch_bits = r.scratch_bits + 32;
    word_index = r.word_index + 1;
  })

-- `ReadBits`. The output is cut to a `uint32_t`.
pub read_bits : BitReader → ℕ → Option (ℕ × BitReader)
unfolding fetch_word
read_bits r bits = do
  assert (ltb 0 bits)
  assert (leb bits 32)
  assert (leb (r.bits_read + bits) r.num_bits)
  assert (leb r.scratch_bits 64)
  r' ← if ltb r.scratch_bits bits then fetch_word r else some r
  assert (leb bits r'.scratch_bits)
  some (
    bit_and r'.scratch (2 ^ bits - 1) % 2 ^ 32,
    record r' {
      bits_read = r.bits_read + bits;
      scratch = r'.scratch / 2 ^ bits;
      scratch_bits = r'.scratch_bits - bits;
    },
  )

-- `ReadAlign`: false where the padding is not zero.
pub read_align : BitReader → Option (Bool × BitReader)
unfolding read_bits
read_align r =
    let remainder_bits = r.bits_read % 8 in
    if not (remainder_bits == 0)
    then (do
      (value, r') ← read_bits r (8 - remainder_bits)
      assert (r'.bits_read % 8 == 0)
      some (value == 0, r'))
    else some (true, r)

-- `GetAlignBits`
pub get_align_bits : BitReader → ℕ
get_align_bits r = (8 - r.bits_read % 8) % 8

-- `GetBitsRemaining`
pub get_bits_remaining : BitReader → ℕ
get_bits_remaining r = r.num_bits - r.bits_read

-- The loops of `ReadBytes` over its first and last bytes.
pub read_each : BitReader → ℕ → Option (List ℕ × BitReader)
read_each r zero = some ([], r)
read_each r (suc n) = do
  (byte, r') ← read_bits r 8
  (bytes, r'') ← read_each r' n
  some (byte % 2 ^ 8 ∷ bytes, r'')

-- `memcpy` of whole words, lowest byte first, from an index on; `none` is a word outside the buffer.
pub copy_bytes : ℕ → ℕ → List ℕ → Option (List ℕ)
copy_bytes zero i words = some []
copy_bytes (suc n) i words = do
  word ← get_elem? words i
  rest ← copy_bytes n (i + 1) words
  some (word % 2 ^ 8 ∷ word / 2 ^ 8 % 2 ^ 8 ∷ word / 2 ^ 16 % 2 ^ 8 ∷ word / 2 ^ 24 % 2 ^ 8 ∷ rest)

-- `ReadBytes` from its second half on: the whole words, then the bytes that are left.
pub read_words : BitReader → ℕ → Option (List ℕ × BitReader)
unfolding read_each copy_bytes get_align_bits
read_words r bytes = do
  assert (get_align_bits r == 0)
  let num_words = bytes / 4
  (copied, r') ←
      if ltb 0 num_words
      then (do
        assert (r.bits_read % 32 == 0)
        copied ← copy_bytes num_words r.word_index r.words
        some (
          copied,
          record r {
            bits_read = r.bits_read + num_words * 32;
            word_index = r.word_index + num_words;
            scratch_bits = 0;
          },
        ))
      else some ([], r)
  assert (get_align_bits r' == 0)
  (tail, r'') ← read_each r' (bytes - num_words * 4)
  assert (get_align_bits r'' == 0)
  some (copied ++ tail, r'')

-- `ReadBytes`
pub read_bytes : BitReader → ℕ → Option (List ℕ × BitReader)
unfolding read_words read_each get_align_bits
read_bytes r bytes = do
  assert (get_align_bits r == 0)
  assert (leb (r.bits_read + bytes * 8) r.num_bits)
  assert (
      r.bits_read % 32 == 0
      || r.bits_read % 32 == 8
      || r.bits_read % 32 == 16
      || r.bits_read % 32 == 24)
  let head_bytes = min ((4 - r.bits_read % 32 / 8) % 4) bytes
  (head, r') ← read_each r head_bytes
  if head_bytes == bytes
      then some (head, r')
      else (read_words r' (bytes - head_bytes) >>= λ (rest, r''). some (head ++ rest, r''))

-- ===== src/BitPack/Fields.antt =====
-- Packets made of fields, written one after another and read back in the same order.
pub mod Laws
mod Tests
use libyojimbo.Prelude.{
  ℕ, ◌+◌, ◌*◌, ◌^◌, ◌≤◌, ◌<◌, Option, none, some, List, [], ◌∷◌, map, ◌>>=◌, length,
}
use libyojimbo.BitPack.Writer.{BitWriter, write_bits, flush_bits, get_bytes_written}
use libyojimbo.BitPack.Writer
use libyojimbo.BitPack.Reader.{BitReader, read_bits}
use libyojimbo.BitPack.Reader

-- A value and its number of bits.
pub record Field : Type 0 where
  pub value : ℕ
  pub bits : ℕ

-- What `WriteBits` asks of its arguments.
abbrev pub Fits : Field → Type 0
Fits f = (0 < f.bits) × (f.bits ≤ 32) × (f.value < 2 ^ f.bits)

abbrev pub total_bits : List Field → ℕ
total_bits [] = 0
total_bits (f ∷ fs) = f.bits + total_bits fs

-- A client that writes its fields with one `WriteBits` each.
pub write_all : BitWriter → List Field → Option BitWriter
write_all w [] = some w
write_all w (f ∷ fs) = write_bits w f.value f.bits >>= λ w'. write_all w' fs

-- A client that reads fields of given sizes with one `ReadBits` each.
pub read_all : BitReader → List ℕ → Option (List ℕ)
read_all r [] = some []
read_all r (n ∷ ns) = read_bits r n >>= λ (v, r'). read_all r' ns >>= λ vs. some (v ∷ vs)

-- Write a packet into a buffer, flush it, and read as many bytes as the writer says it has.
pub send : List ℕ → List Field → Option (List ℕ)
unfolding write_all read_all
send buffer fs = do
  w ← Writer.new buffer (length buffer * 4)
  w' ← write_all w fs
  w'' ← flush_bits w'
  read_all (Reader.new w''.words (get_bytes_written w'')) (map (λ (f : Field). f.bits) fs)

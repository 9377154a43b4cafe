-- ===== src/PacketSequence.antt =====
-- yojimbo_common.cpp: the packet sequence number of 64 bits, sent as a prefix byte and its non-zero bytes.
pub mod Bytes
pub mod Laws
mod Tests
use libyojimbo.Prelude.{
  ℕ, zero, suc, ◌+◌, ◌-◌, ◌*◌, ◌/◌, ◌%◌, ◌^◌, Option, none, some, List, [], ◌∷◌, ◌++◌, ◌==◌,
  bit_and, bit_or, not, if◌then◌else◌, ◌>>=◌, get_elem?,
}

-- The loop of `compress_packet_sequence`, from `i` down to 1, with `byte_mask`, `prefix_byte` and the
-- bytes stored so far.
pub compress_from : ℕ → ℕ → ℕ → ℕ → List ℕ → ℕ × List ℕ
compress_from zero sequence byte_mask prefix bytes = (prefix, bytes)
compress_from (suc i) sequence byte_mask prefix bytes =
    let current = bit_and sequence byte_mask / 2 ^ (suc i * 8) % 2 ^ 8 in
    let kept = not (current == 0) in
    compress_from i sequence (byte_mask / 2 ^ 8) (if kept then bit_or prefix (2 ^ i) else prefix)
      (if kept then bytes ++ (current ∷ []) else bytes)

-- `compress_packet_sequence`: the prefix byte and the sequence bytes.
pub compress_packet_sequence : ℕ → ℕ × List ℕ
unfolding compress_from
compress_packet_sequence sequence =
    let (prefix, bytes) = compress_from 7 sequence (255 * 2 ^ 56) 0 [] in
    (prefix, bytes ++ (bit_and sequence 255 ∷ []))

-- The loop of `get_packet_sequence_bytes`.
pub count_from : ℕ → ℕ → ℕ → ℕ
count_from zero prefix num_sequence_bytes = num_sequence_bytes
count_from (suc i) prefix num_sequence_bytes =
    count_from i prefix
      (if not (bit_and prefix (2 ^ i) == 0) then num_sequence_bytes + 1 else num_sequence_bytes)

-- `get_packet_sequence_bytes`
pub get_packet_sequence_bytes : ℕ → ℕ
unfolding count_from
get_packet_sequence_bytes prefix = count_from 7 prefix 0 + 1

-- The loop of `decompress_packet_sequence`, with `index` and `sequence`, and the last byte behind it.
pub decompress_from : ℕ → ℕ → List ℕ → ℕ → ℕ → Option ℕ
decompress_from zero prefix bytes index sequence =
    get_elem? bytes index >>= λ byte. some (bit_or sequence byte)
decompress_from (suc i) prefix bytes index sequence = do
  (index', sequence') ←
      if not (bit_and prefix (2 ^ i) == 0)
      then (get_elem? bytes index >>= λ byte.
          some (index + 1, bit_or sequence (byte * 2 ^ (suc i * 8) % 2 ^ 64)))
      else some (index, sequence)
  decompress_from i prefix bytes index' sequence'

-- `decompress_packet_sequence`; `none` is a read past the end of the bytes.
pub decompress_packet_sequence : ℕ → List ℕ → Option ℕ
unfolding decompress_from
decompress_packet_sequence prefix bytes = decompress_from 7 prefix bytes 0 0

-- ===== src/PacketSequence/Tests.antt =====
-- Runs on a number with a zero byte between others.
use libyojimbo.Prelude.{ℕ, ◌≡◌, ◌<◌, ◌≤◌, refl, some, [], ◌∷◌, ◌++◌, length, arith}
use libyojimbo.PacketSequence.{
  compress_packet_sequence, get_packet_sequence_bytes, decompress_packet_sequence,
}
use libyojimbo.PacketSequence.Laws.{decompress-compress, get_packet_sequence_bytes-compress}

-- 0x1000200
abbrev gapped : ℕ
gapped = 16777728

gapped_bytes : compress_packet_sequence gapped ≡ (5, 1 ∷ 2 ∷ 0 ∷ [])
unfolding compress_packet_sequence
gapped_bytes = refl

decompress-compress_example :
    decompress_packet_sequence
      (compress_packet_sequence gapped).0
      ((compress_packet_sequence gapped).1 ++ (9 ∷ []))
    ≡ some gapped
decompress-compress_example = decompress-compress gapped (9 ∷ []) (omega arith)

get_packet_sequence_bytes-compress_example :
    (get_packet_sequence_bytes (compress_packet_sequence gapped).0
      ≡ length (compress_packet_sequence gapped).1)
    × ((compress_packet_sequence gapped).0 < 128)
    × (1 ≤ length (compress_packet_sequence gapped).1)
    × (length (compress_packet_sequence gapped).1 ≤ 8)
get_packet_sequence_bytes-compress_example = get_packet_sequence_bytes-compress gapped

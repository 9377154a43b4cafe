-- ===== src/Connection/Sending.antt =====
-- `InsertAckPacketEntry`, as `GeneratePacket` calls it.
use libyojimbo.Prelude.{ℕ, ◌+◌, ◌%◌, ◌≤◌, ◌<◌, ◌≡◌, refl, false, none, some, ◌==◌, if◌then◌else◌}
use libyojimbo.SequenceBuffer.{find}
use libyojimbo.SequenceBuffer.Removing.{IsValid, in_window}
use libyojimbo.SequenceBuffer.Laws.{put-IsValid, find-put}
use libyojimbo.SequenceBuffer.Appending.{appended, put-sequence}
use libyojimbo.Connection.{Connection, insert_ack_packet_entry}

-- With a valid buffer of at least two sent packets, `InsertAckPacketEntry` with the number of the next
-- packet does not fail its assertion: the buffer stays valid and moves on by one, the packet is found
-- unacked in it, and any other 16-bit number is found as before unless it left the window.
pub insert_ack_packet_entry_lem :
    {C : Type 0} (c : Connection C) (t : ℕ)
    → IsValid c.sent_packets
    → 2 ≤ c.sent_packets.size
    → t < 65536
    → (c' : Connection C) × (insert_ack_packet_entry c c.sent_packets.sequence ≡ some c')
      × IsValid c'.sent_packets
      × (c'.sent_packets.sequence ≡ (c.sent_packets.sequence + 1) % 65536)
      × (find c'.sent_packets t ≡ (
          if t == c.sent_packets.sequence
          then some false
          else if in_window c'.sent_packets.size c'.sent_packets.sequence t
          then find c.sent_packets t
          else none))
unfolding insert_ack_packet_entry
insert_ack_packet_entry_lem c t v two ht =
    let b = c.sent_packets in
    let b' = appended b false in
    let done = put-sequence b false v.top_fits in
    (
      record c { sent_packets = b' },
      rw done refl,
      put-IsValid b b' b.sequence false v two v.top_fits done,
      refl,
      find-put b b' b.sequence t false v two v.top_fits ht done,
    )

-- ===== src/ReplayProtection.antt =====
-- yojimbo_replay_protection.h: `ReplayProtection`, a ring of the packet sequence numbers received.
pub mod Received
pub mod Laws
mod Tests
use libyojimbo.Prelude.{
  ℕ, ◌+◌, ◌-◌, ◌%◌, ◌^◌, Bool, true, false, not, List, [], ◌∷◌, ltb, leb, ◌==◌, if◌then◌else◌,
  bit_and, get_or, set, replicate,
}

-- `ReplayProtectionBufferSize` (yojimbo_config.h).
abbrev pub replay_protection_buffer_size : ℕ
replay_protection_buffer_size = 64

-- What `memset( m_receivedPacket, 0xFF, … )` leaves in an entry.
abbrev pub no_packet : ℕ
no_packet = 2 ^ 64 - 1

pub record ReplayProtection : Type 0 where
  pub most_recent_sequence : ℕ
  pub received_packet : List ℕ

-- `Reset`, which is also the constructor at 0.
unfoldable pub reset : ℕ → ReplayProtection
reset most_recent = record {
  most_recent_sequence = most_recent;
  received_packet = replicate replay_protection_buffer_size no_packet;
}

-- `PacketAlreadyReceived` from the look at the ring on; `p` has its most recent sequence raised.
check_entry : ReplayProtection → ℕ → Bool × ReplayProtection
check_entry p sequence =
    let index = sequence % replay_protection_buffer_size in
    let entry = get_or p.received_packet index no_packet in
    let stored = record p { received_packet = set p.received_packet index sequence } in
    if entry == no_packet
    then (false, stored)
    else if leb sequence entry
    then (true, p)
    else (false, stored)

-- `PacketAlreadyReceived`, on a `uint64_t`; the sum wraps as that type does.
unfoldable pub packet_already_received : ReplayProtection → ℕ → Bool × ReplayProtection
unfolding check_entry
packet_already_received p sequence =
    if not (bit_and sequence (2 ^ 63) == 0)
    then (false, p)
    else if leb ((sequence + replay_protection_buffer_size) % 2 ^ 64) p.most_recent_sequence
    then (true, p)
    else check_entry
        (if ltb p.most_recent_sequence sequence
          then record p { most_recent_sequence = sequence }
          else p)
        sequence

-- The answers to a sequence of packets, in order.
pub run : ReplayProtection → List ℕ → List Bool
run p [] = []
run p (s ∷ ss) = let (seen, p') = packet_already_received p s in seen ∷ run p' ss

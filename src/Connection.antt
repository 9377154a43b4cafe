-- ===== src/Connection.antt =====
-- yojimbo_connection.h and yojimbo_connection.cpp: the ack system of `Connection`.
-- A channel is a parameter: a type of states, with what `ProcessAck` and `ProcessPacketData` do to one.
pub mod AckBits
pub mod Newly
pub mod Rounds
pub mod Acks
pub mod Laws
pub mod Sending
mod Tests
use libyojimbo.Prelude.{
  ℕ, zero, suc, ◌+◌, ◌-◌, ◌*◌, ◌/◌, ◌%◌, ◌^◌, Bool, true, false, not, Option, none, some, List, [],
  ◌∷◌, ◌++◌, ◌==◌, bit_and, bit_or, if◌then◌else◌, ◌>>=◌, get_elem?, map, set,
}
use libyojimbo.SequenceBuffer.{SequenceBuffer, find_index, read, write, put, exists}

-- The loop of `GenerateAckBits` from `i` on, with the rounds left, `ack_bits` and `mask`.
pub ack_bits_from {ℓ} : {A : Type ℓ} → ℕ → ℕ → SequenceBuffer A → ℕ → ℕ → ℕ → ℕ
ack_bits_from zero i packets ack ack_bits mask = ack_bits
ack_bits_from (suc left) i packets ack ack_bits mask =
    ack_bits_from left (i + 1) packets ack
      (if exists packets ((ack + 65536 - i) % 65536) then bit_or ack_bits mask else ack_bits)
      (mask * 2 % 2 ^ 32)

-- `GenerateAckBits`: `ack` and `ack_bits`.
pub generate_ack_bits {ℓ} : {A : Type ℓ} → SequenceBuffer A → ℕ × ℕ
unfolding ack_bits_from
generate_ack_bits packets =
    let ack = (packets.sequence + 65535) % 65536 in (ack, ack_bits_from 32 0 packets ack 0 1)

-- What the listener is told.
pub data Event : Type 0 where
  packet_received : ℕ → Event
  packet_acked : ℕ → Event

-- `ConnectionError`, whose two errors are one number.
pub data ConnectionError : Type 0 where
  connection_error_none : ConnectionError
  connection_error_channel : ConnectionError

-- The members of `Connection` that the ack system uses, and the calls of the listener so far. An entry
-- of `sent_packets` is `acked`.
pub record Connection (C : Type 0) : Type 0 where
  pub error : ConnectionError
  pub channels : List C
  pub sent_packets : SequenceBuffer Bool
  pub received_packets : SequenceBuffer (Unit {0})
  pub packets_processed : ℕ
  pub packets_stale : ℕ
  pub packets_acked : ℕ
  pub events : List Event

-- The members of `ConnectionPacket` that `ProcessPacket` reads; an entry is a channel id and its data.
pub record ConnectionPacket (D : Type 0) : Type 0 where
  pub sequence : ℕ
  pub ack : ℕ
  pub ack_bits : ℕ
  pub channel_entry : List (ℕ × D)

-- `InsertAckPacketEntry`; `none` is its failed assertion.
pub insert_ack_packet_entry : {C : Type 0} → Connection C → ℕ → Option (Connection C)
insert_ack_packet_entry c sequence =
    put c.sent_packets sequence false >>= λ b. some (record c { sent_packets = b })

module _ {C : Type 0} (process_ack : C → ℕ → C) where
  -- `PacketAcked`, with `OnPacketAcked`.
  pub on_packet_acked : Connection C → ℕ → Connection C
  on_packet_acked c sequence = record c {
    events = c.events ++ (packet_acked sequence ∷ []);
    channels = map (λ channel. process_ack channel sequence) c.channels;
    packets_acked = (c.packets_acked + 1) % 2 ^ 64;
  }

  -- The inner `if` of `ProcessAcks`, at an entry of `m_sentPackets` and its `acked`.
  pub ack_entry : Connection C → ℕ → ℕ → Option Bool → Connection C
  unfolding on_packet_acked
  ack_entry c sequence index (some false) =
      let c' = on_packet_acked c sequence in
      record c' { sent_packets = write c'.sent_packets index true }
  ack_entry c sequence index (some true) = c
  ack_entry c sequence index none = c

  -- The body of the loop of `ProcessAcks` for a bit that is set.
  pub ack_sequence : Connection C → ℕ → Option ℕ → Connection C
  unfolding ack_entry
  ack_sequence c sequence none = c
  ack_sequence c sequence (some index) = ack_entry c sequence index (read c.sent_packets index)

  -- The loop of `ProcessAcks` from `i` on, with the rounds left.
  pub acks_from : ℕ → ℕ → Connection C → ℕ → ℕ → Connection C
  unfolding ack_sequence
  acks_from zero i c ack ack_bits = c
  acks_from (suc left) i c ack ack_bits =
      let sequence = (ack + 65536 - i) % 65536 in
      acks_from left (i + 1)
        (if not (bit_and ack_bits 1 == 0)
          then ack_sequence c sequence (find_index c.sent_packets sequence)
          else c)
        ack (ack_bits / 2)

  -- `ProcessAcks`
  pub process_acks : Connection C → ℕ → ℕ → Connection C
  unfolding acks_from
  process_acks c ack ack_bits = acks_from 32 0 c ack ack_bits

  module _ {D : Type 0} (process_packet_data : C → D → ℕ → C) where
    -- The loop of `ProcessPacket` over the channel entries; `none` is an index outside `m_channel`.
    pub process_entries : List C → List (ℕ × D) → ℕ → Option (List C)
    process_entries channels [] sequence = some channels
    process_entries channels ((id, data_) ∷ entries) sequence = do
      channel ← get_elem? channels id
      process_entries (set channels id (process_packet_data channel data_ sequence)) entries
          sequence

    -- `ProcessPacket` once the packet is known to be fresh.
    pub process_fresh : Connection C → ConnectionPacket D → Option (Bool × Connection C)
    unfolding process_acks process_entries
    process_fresh c packet = do
      let c' =
          process_acks
            (record c {
              packets_processed = (c.packets_processed + 1) % 2 ^ 64;
              events = c.events ++ (packet_received packet.sequence ∷ []);
            })
            packet.ack packet.ack_bits
      channels ← process_entries c'.channels packet.channel_entry packet.sequence
      some (true, record c' { channels = channels })

    -- `ProcessPacket` once there is no error.
    pub process_received :
        Connection C
        → ConnectionPacket D
        → Option (SequenceBuffer (Unit {0}))
        → Option (Bool × Connection C)
    unfolding process_fresh
    process_received c packet none =
        some (false, record c { packets_stale = (c.packets_stale + 1) % 2 ^ 64 })
    process_received c packet (some received) =
        process_fresh (record c { received_packets = received }) packet

    -- `ProcessPacket`
    pub process_packet : Connection C → ConnectionPacket D → Option (Bool × Connection C)
    unfolding process_received
    process_packet c packet = elim c.error as (λ _. Option (Bool × Connection C)) [
      | connection_error_none ↦
          process_received c packet (put c.received_packets packet.sequence tt)
      | connection_error_channel ↦ some (false, c)
    ]

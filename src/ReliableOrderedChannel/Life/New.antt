-- ===== src/ReliableOrderedChannel/Life/New.antt =====
-- What the constructor accepts, and the channel that it makes.
use libyojimbo.Prelude.{List, length, ℕ, ◌≡◌, true, false, Option, none, some, [], replicate}
use libyojimbo.Message.{Message}
use libyojimbo.BitArray.{BitArray}
use libyojimbo.SequenceBuffer.{SequenceBuffer, free}
use libyojimbo.SequenceBuffer
use libyojimbo.SequenceBuffer.Removing.{IsValid}
use libyojimbo.ReliableOrderedChannel.{
  ReliableOrderedChannel, Clock, ChannelConfig, channel_error_none, get_max_fragments_per_block,
}
use libyojimbo.ReliableOrderedChannel.SendQueue.Laws.{IsSending}
use libyojimbo.ReliableOrderedChannel.ReceiveQueue.Messages.{IsDelivering}
use libyojimbo.ReliableOrderedChannel.Life.Laws.{
  send_arrays, receive_arrays, IsIdleSend, IsIdleReceive,
}

-- A buffer as the constructor makes it.
abbrev fresh_buffer : {A : Type 0} → A → ℕ → SequenceBuffer A
fresh_buffer x size = record {
  size = size;
  sequence = 0;
  entry_sequence = replicate size free;
  entries = replicate size x;
}

-- A send block of the configured number of fragments, where blocks are enabled, and none otherwise.
abbrev pub SendRoom : {T : Type 0} → ChannelConfig T → Option (BitArray × List T) → Type 0
SendRoom config none = config.disable_blocks ≡ true
SendRoom config (some (acked, times)) =
    (config.disable_blocks ≡ false)
    × (acked.size ≡ get_max_fragments_per_block config)
    × (length times ≡ get_max_fragments_per_block config)

-- A receive block of the configured number of fragments and bytes, where blocks are enabled, and none
-- otherwise.
abbrev pub ReceiveRoom : {T : Type 0} → ChannelConfig T → Option (BitArray × List ℕ) → Type 0
ReceiveRoom config none = config.disable_blocks ≡ true
ReceiveRoom config (some (received, bytes)) =
    (config.disable_blocks ≡ false)
    × (received.size ≡ get_max_fragments_per_block config)
    × (length bytes ≡ config.max_block_size)

module _ {P T : Type 0} (stream : ℕ → Message P) where
  -- A channel that has just been made, of the configured sizes and with blocks where they are enabled.
  pub record IsNew (clock : Clock T) (config : ChannelConfig T) (channel_id : ℕ)
      (c : ReliableOrderedChannel P T) : Type 0 where
    pub configured : c.config ≡ config
    pub numbered : c.channel_id ≡ channel_id
    pub error : c.error ≡ channel_error_none
    pub time : c.time ≡ clock.start
    pub send_next : c.send_message_id ≡ 0
    pub receive_next : c.receive_message_id ≡ 0
    pub sent : c.messages_sent ≡ 0
    pub received : c.messages_received ≡ 0
    pub sending : IsSending c.message_send_queue c.oldest_unacked_message_id
    pub top : c.send_message_id ≡ c.message_send_queue.sequence
    pub delivering : IsDelivering stream c
    pub packets : IsValid c.sent_packets
    pub send_size : c.message_send_queue.size ≡ config.send_queue_size
    pub receive_size : c.message_receive_queue.size ≡ config.receive_queue_size
    pub packets_size : c.sent_packets.size ≡ config.sent_packet_buffer_size
    pub send_room : SendRoom config (send_arrays c.send_block)
    pub receive_room : ReceiveRoom config (receive_arrays c.receive_block)
    pub no_send_block : IsIdleSend c.send_block
    pub no_receive_block : IsIdleReceive c.receive_block
    pub released : c.released ≡ []
    pub retained : c.retained ≡ []

-- ===== src/ReliableOrderedChannel/Packets.antt =====
-- What the channel does for each packet that is sent, received or acked.
pub mod Acks
pub mod InOrder
use libyojimbo.Prelude.{
  ℕ, zero, suc, ◌+◌, ◌-◌, ◌%◌, Bool, true, false, not, Option, none, some, List, [], ◌∷◌, ◌++◌, ltb,
  ◌==◌, if◌then◌else◌, ◌>>=◌, ◌>>◌, assert, length,
}
use libyojimbo.Message.{Message}
use libyojimbo.SequenceBuffer.{SequenceBuffer, find, put, remove}
use libyojimbo.ReliableOrderedChannel.{
  ReliableOrderedChannel, Clock, MessageSendQueueEntry, SentPacketEntry, BlockData, PacketPayload,
  ChannelPacketData, message_data, block_data, channel_error_failed_to_serialize, is_error,
}
use libyojimbo.ReliableOrderedChannel.SendQueue.{
  has_messages_to_send, update_oldest_unacked_message_id,
}
use libyojimbo.ReliableOrderedChannel.Choosing.{get_messages_to_send}
use libyojimbo.ReliableOrderedChannel.ReceiveQueue.{process_packet_messages}
use libyojimbo.ReliableOrderedChannel.Blocks.{
  sending_block_message, get_fragment_to_send, get_fragment_packet_data, add_fragment_packet_entry,
  process_fragment_ack,
}
use libyojimbo.ReliableOrderedChannel.Fragments.{process_packet_fragment}

module _ {P T : Type 0} where
  -- The loop of `GetMessagePacketData`.
  unfoldable pub messages_of :
      SequenceBuffer (MessageSendQueueEntry P T) → List ℕ → Option (List (Message P))
  messages_of queue [] = some []
  messages_of queue (message_id ∷ ids) = do
    entry ← find queue message_id
    messages ← messages_of queue ids
    some (entry.message ∷ messages)

  -- `GetMessagePacketData`
  unfoldable pub get_message_packet_data :
      ReliableOrderedChannel P T
      → List ℕ
      → Option (ChannelPacketData P × ReliableOrderedChannel P T)
  unfolding messages_of
  get_message_packet_data c message_ids = do
    messages ← messages_of c.message_send_queue message_ids
    some (
      record {
        channel_id = c.channel_id;
        message_failed_to_serialize = false;
        data_ = message_data messages;
      },
      record c { retained = c.retained ++ messages },
    )

  -- `AddMessagePacketEntry`
  unfoldable pub add_message_packet_entry :
      ReliableOrderedChannel P T → List ℕ → ℕ → Option (ReliableOrderedChannel P T)
  add_message_packet_entry c message_ids sequence =
      put c.sent_packets sequence
        (record { time_sent = c.time; message_ids = message_ids; acked = false; block = none })
      >>= λ sent. some (record c { sent_packets = sent })

  -- `AdvanceTime`
  pub advance_time : ReliableOrderedChannel P T → T → ReliableOrderedChannel P T
  advance_time c time = record c { time = time }

  -- The two ways of `GetPacketData`: the bits and the packet data, which may stay untouched.
  module _ (clock : Clock T) (num_types : ℕ) (c : ReliableOrderedChannel P T)
      (packet_sequence : ℕ) where
    send_fragment :
        Option (BlockData P) × ReliableOrderedChannel P T
        → Option (ℕ × Option (ChannelPacketData P) × ReliableOrderedChannel P T)
    send_fragment (none, c') = some (0, none, c')
    send_fragment (some fragment, c') = do
      bytes ← fragment.fragment_data
      (bits, packet, c'') ← get_fragment_packet_data num_types c' fragment (length bytes)
      c''' ← add_fragment_packet_entry c'' fragment.message_id fragment.fragment_id packet_sequence
      some (bits, some packet, c''')

    unfoldable pub send_messages :
        ℕ → Option (ℕ × Option (ChannelPacketData P) × ReliableOrderedChannel P T)
    send_messages available_bits = do
      (message_ids, bits, c') ← get_messages_to_send clock num_types c available_bits
      if length message_ids == 0 then some (0, none, c') else (do
        (packet, c'') ← get_message_packet_data c' message_ids
        c''' ← add_message_packet_entry c'' message_ids packet_sequence
        some (bits, some packet, c'''))

    -- `GetPacketData`
    unfoldable pub get_packet_data :
        (ℕ → ℕ → ℕ) → ℕ → Option (ℕ × Option (ChannelPacketData P) × ReliableOrderedChannel P T)
    unfolding send_fragment send_messages
    get_packet_data ceil_quotient available_bits =
        if not (has_messages_to_send c)
        then some (0, none, c)
        else (sending_block_message c >>= λ sending.
            if sending
            then (get_fragment_to_send clock ceil_quotient c >>= λ r. send_fragment r)
            else send_messages available_bits)

  process_payload :
      ReliableOrderedChannel P T → PacketPayload P → Option (ReliableOrderedChannel P T)
  process_payload c (message_data messages) = process_packet_messages c messages
  process_payload c (block_data fragment) = process_packet_fragment c fragment

  -- `ProcessPacketData`
  unfoldable pub process_packet_data :
      ReliableOrderedChannel P T → ChannelPacketData P → Option (ReliableOrderedChannel P T)
  unfolding process_payload
  process_packet_data c packet =
      if is_error c.error
      then some c
      else if packet.message_failed_to_serialize
      then some (record c { error = channel_error_failed_to_serialize })
      else process_payload c packet.data_

  -- The loop of `ProcessAck` at a message: what it does where the send queue has the message.
  unfoldable pub ack_message :
      ReliableOrderedChannel P T
      → ℕ
      → Option (MessageSendQueueEntry P T)
      → Option (ReliableOrderedChannel P T)
  ack_message c message_id none = some c
  ack_message c message_id (some entry) = do
    assert (entry.message.id == message_id)
    update_oldest_unacked_message_id (record c {
      released = c.released ++ (entry.message ∷ []);
      message_send_queue = remove c.message_send_queue message_id;
    })

  -- The loop of `ProcessAck` over the messages of the packet.
  unfoldable pub ack_messages :
      ReliableOrderedChannel P T → List ℕ → Option (ReliableOrderedChannel P T)
  unfolding ack_message
  ack_messages c [] = some c
  ack_messages c (message_id ∷ ids) =
      ack_message c message_id (find c.message_send_queue message_id) >>= λ c'. ack_messages c' ids

  ack_block : ReliableOrderedChannel P T → Option (ℕ × ℕ) → Option (ReliableOrderedChannel P T)
  ack_block c none = some c
  ack_block c (some (message_id, fragment_id)) =
      if c.config.disable_blocks
      then some c
      else (c.send_block >>= λ block. process_fragment_ack c block message_id fragment_id)

  ack_packet :
      ReliableOrderedChannel P T → Option (SentPacketEntry T) → Option (ReliableOrderedChannel P T)
  unfolding ack_messages ack_block
  ack_packet c none = some c
  ack_packet c (some packet) = do
    assert (not packet.acked)
    c' ← ack_messages c packet.message_ids
    ack_block c' packet.block

  -- `ProcessAck`
  unfoldable pub process_ack : ReliableOrderedChannel P T → ℕ → Option (ReliableOrderedChannel P T)
  unfolding ack_packet
  process_ack c ack = ack_packet c (find c.sent_packets ack)

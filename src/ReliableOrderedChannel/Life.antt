-- ===== src/ReliableOrderedChannel/Life.antt =====
-- The constructor and `Reset`.
pub mod Laws
pub mod New
use libyojimbo.Prelude.{
  ℕ, zero, suc, ◌+◌, ◌%◌, false, Option, none, some, List, [], ◌∷◌, ◌++◌, ◌==◌, ◌>>=◌, ◌>>◌, assert,
  replicate, if◌then◌else◌,
}
use libyojimbo.Config.{is_reliable_ordered}
use libyojimbo.Message.{Message}
use libyojimbo.BitArray
use libyojimbo.SequenceBuffer.{SequenceBuffer, get_at_index, read}
use libyojimbo.SequenceBuffer
use libyojimbo.ReliableOrderedChannel.{
  ReliableOrderedChannel, Clock, ChannelConfig, get_max_fragments_per_block, MessageSendQueueEntry,
  SentPacketEntry, SendBlockData, ReceiveBlockData, channel_error_none, message_list,
}

module _ {A P : Type 0} where
  held_at : (A → Message P) → Option A → List (Message P) → List (Message P)
  held_at message none rest = rest
  held_at message (some entry) rest = message entry ∷ rest

  -- The loops of `Reset` over a queue: the messages of the entries that exist, with the rounds left.
  pub held : (A → Message P) → ℕ → ℕ → SequenceBuffer A → Option (List (Message P))
  unfolding held_at
  held message zero i b = some []
  held message (suc left) i b = do
    index ← get_at_index b i
    rest ← held message left (i + 1) b
    some (held_at message (index >>= λ j. read b j) rest)

module _ {T : Type 0} where
  -- `SendBlockData::Reset`
  pub reset_send_block : SendBlockData T → SendBlockData T
  reset_send_block block = record block {
    active = false;
    num_fragments = 0;
    num_acked_fragments = 0;
    block_message_id = 0;
    block_size = 0;
  }

  -- The constructor of `SendBlockData`.
  pub new_send_block : T → ℕ → Option (SendBlockData T)
  new_send_block unwritten max_fragments = do
    acked ← BitArray.new max_fragments
    some (record {
      active = false;
      block_size = 0;
      num_fragments = 0;
      num_acked_fragments = 0;
      block_message_id = 0;
      acked_fragment = acked;
      fragment_send_time = replicate max_fragments unwritten;
    })

module _ {P : Type 0} where
  -- `ReceiveBlockData::Reset`, and what `Reset` does to the block message.
  pub reset_receive_block : ReceiveBlockData P → ReceiveBlockData P
  reset_receive_block block = record block {
    active = false;
    num_fragments = 0;
    num_received_fragments = 0;
    message_id = 0;
    message_type = 0;
    block_size = 0;
    block_message = none;
  }

  -- The constructor of `ReceiveBlockData`.
  pub new_receive_block : ℕ → ℕ → Option (ReceiveBlockData P)
  new_receive_block max_block_size max_fragments = do
    received ← BitArray.new max_fragments
    some (record {
      active = false;
      num_fragments = 0;
      num_received_fragments = 0;
      message_id = 0;
      message_type = 0;
      block_size = 0;
      received_fragment = received;
      block_data = replicate max_block_size 0;
      block_message = none;
    })

  -- The block message that `Reset` releases.
  pub block_messages : Option (ReceiveBlockData P) → List (Message P)
  block_messages none = []
  block_messages (some block) = message_list block.block_message

map_block : {A : Type 0} → (A → A) → Option A → Option A
map_block f none = none
map_block f (some block) = some (f block)

module _ {P T : Type 0} where
  -- `Reset`
  pub reset : Clock T → ReliableOrderedChannel P T → Option (ReliableOrderedChannel P T)
  unfolding held reset_send_block reset_receive_block block_messages map_block
  reset clock c = do
    sending ←
        held (λ (e : MessageSendQueueEntry P T). e.message) c.message_send_queue.size 0
          c.message_send_queue
    receiving ← held (λ m. m) c.message_receive_queue.size 0 c.message_receive_queue
    some (record c {
      error = channel_error_none;
      time = clock.start;
      send_message_id = 0;
      receive_message_id = 0;
      oldest_unacked_message_id = 0;
      sent_packets = SequenceBuffer.reset c.sent_packets;
      message_send_queue = SequenceBuffer.reset c.message_send_queue;
      message_receive_queue = SequenceBuffer.reset c.message_receive_queue;
      send_block = map_block reset_send_block c.send_block;
      receive_block = map_block reset_receive_block c.receive_block;
      messages_sent = 0;
      messages_received = 0;
      released = c.released ++ sending ++ receiving ++ block_messages c.receive_block;
    })

  -- The constructor. `unwritten` stands for the memory of messages and times that were never written.
  pub new : Clock T → Message P → ChannelConfig T → ℕ → Option (ReliableOrderedChannel P T)
  unfolding reset new_send_block new_receive_block
  new clock unwritten config channel_id = do
    assert (is_reliable_ordered config.type)
    assert (65536 % config.send_queue_size == 0)
    assert (65536 % config.receive_queue_size == 0)
    assert (65536 % config.sent_packet_buffer_size == 0)
    sent ←
        SequenceBuffer.new
          (record { time_sent = clock.start; message_ids = []; acked = false; block = none })
          config.sent_packet_buffer_size
    sends ←
        SequenceBuffer.new
          (record {
            message = unwritten;
            time_last_sent = clock.start;
            measured_bits = 0;
            block = false;
          })
          config.send_queue_size
    receives ← SequenceBuffer.new unwritten config.receive_queue_size
    send_block ←
        if config.disable_blocks
        then some none
        else (new_send_block clock.start (get_max_fragments_per_block config) >>= λ b.
            some (some b))
    receive_block ←
        if config.disable_blocks
        then some none
        else (new_receive_block config.max_block_size (get_max_fragments_per_block config) >>= λ b.
            some (some b))
    reset clock (record {
      config = config;
      channel_id = channel_id;
      error = channel_error_none;
      time = clock.start;
      send_message_id = 0;
      receive_message_id = 0;
      oldest_unacked_message_id = 0;
      sent_packets = sent;
      message_send_queue = sends;
      message_receive_queue = receives;
      send_block = send_block;
      receive_block = receive_block;
      messages_sent = 0;
      messages_received = 0;
      released = [];
      retained = [];
    })

-- ===== src/ReliableOrderedChannel/SendQueue.antt =====
-- The send queue: messages wait in it, are put in packets, and leave it when a packet is acked.
pub mod Oldest
pub mod Laws
use libyojimbo.Prelude.{
  ℕ, zero, suc, ◌+◌, ◌-◌, ◌*◌, ◌%◌, ◌^◌, min, Bool, true, false, not, ◌&&◌, ◌||◌, Option, none,
  some, List, [], ◌∷◌, ◌++◌, ltb, leb, ◌==◌, if◌then◌else◌, ◌>>=◌, ◌>>◌, assert, length,
}
use libyojimbo.Sequence.{sequence_greater_than}
use libyojimbo.Message.{Message, set_id, get_block_size}
use libyojimbo.Serialize.{bits_required, write_sequence_relative, measure}
use libyojimbo.SequenceBuffer.{
  SequenceBuffer, available, find, find_index, put, read, write, remove,
}
use libyojimbo.ReliableOrderedChannel.{
  ReliableOrderedChannel, Clock, MessageSendQueueEntry, SentPacketEntry, is_error,
}

module _ {P T : Type 0} where
  -- `CanSendMsg`
  unfoldable pub can_send_msg : ReliableOrderedChannel P T → Bool
  can_send_msg c = available c.message_send_queue c.send_message_id

  -- `HasMessagesToSend`
  unfoldable pub has_messages_to_send : ReliableOrderedChannel P T → Bool
  has_messages_to_send c = not (c.oldest_unacked_message_id == c.send_message_id)

  -- `SendMsg`, where `bits` measures a message. The tests behind the first two assertions cannot hold
  -- after them.
  unfoldable pub send_msg :
      Clock T
      → (Message P → ℕ)
      → ReliableOrderedChannel P T
      → Message P
      → Option (ReliableOrderedChannel P T)
  unfolding can_send_msg
  send_msg clock bits c message = do
    assert (can_send_msg c)
    if is_error c.error then some (record c { released = c.released ++ (message ∷ []) }) else (do
      assert (not (message.block_message && c.config.disable_blocks))
      let numbered = set_id message c.send_message_id
      queue ← put c.message_send_queue c.send_message_id (record {
        message = numbered;
        time_last_sent = clock.never;
        measured_bits = bits numbered % 2 ^ 31;
        block = message.block_message;
      })
      assert (not message.block_message || ltb 0 (get_block_size message))
      assert (not message.block_message || leb (get_block_size message) c.config.max_block_size)
      some (record c {
        message_send_queue = queue;
        messages_sent = (c.messages_sent + 1) % 2 ^ 64;
        send_message_id = (c.send_message_id + 1) % 65536;
      }))

  -- The loop of `UpdateOldestUnackedMessageId`, with the rounds that are allowed: `none` is a loop that
  -- goes on.
  unfoldable pub oldest_from : ℕ → SequenceBuffer (MessageSendQueueEntry P T) → ℕ → ℕ → Option ℕ
  oldest_from zero queue stop_message_id oldest = none
  oldest_from (suc rounds) queue stop_message_id oldest =
      let rest = oldest_from rounds queue stop_message_id ((oldest + 1) % 65536) in
      if oldest == stop_message_id then some oldest else at (find queue oldest) rest
    where
      at : Option (MessageSendQueueEntry P T) → Option ℕ → Option ℕ
      at (some entry) rest = some oldest
      at none rest = rest

  -- `UpdateOldestUnackedMessageId`
  unfoldable pub update_oldest_unacked_message_id :
      ReliableOrderedChannel P T → Option (ReliableOrderedChannel P T)
  unfolding oldest_from
  update_oldest_unacked_message_id c = do
    let stop_message_id = c.message_send_queue.sequence
    oldest ← oldest_from 65536 c.message_send_queue stop_message_id c.oldest_unacked_message_id
    assert (not (sequence_greater_than oldest stop_message_id))
    some (record c { oldest_unacked_message_id = oldest })

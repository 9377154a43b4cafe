-- ===== src/ReliableOrderedChannel/ReceiveQueue.antt =====
-- The receive queue: messages of packets wait in it until their turn comes.
pub mod Laws
pub mod Messages
use libyojimbo.Prelude.{
  ℕ, ◌+◌, ◌-◌, ◌%◌, ◌^◌, Option, none, some, List, [], ◌∷◌, ◌++◌, ◌==◌, if◌then◌else◌, ◌>>=◌, ◌>>◌,
  assert,
}
use libyojimbo.Sequence.{sequence_greater_than, sequence_less_than}
use libyojimbo.Message.{Message}
use libyojimbo.SequenceBuffer.{find, exists, put, remove}
use libyojimbo.ReliableOrderedChannel.{
  ReliableOrderedChannel, is_error, channel_error_desync, Round, continue, stop, go_on,
}

module _ {P T : Type 0} where
  receive_found :
      ReliableOrderedChannel P T
      → Option (Message P)
      → Option (Option (Message P) × ReliableOrderedChannel P T)
  receive_found c none = some (none, c)
  receive_found c (some message) = do
    assert (message.id == c.receive_message_id)
    some (
      some message,
      record c {
        message_receive_queue = remove c.message_receive_queue c.receive_message_id;
        messages_received = (c.messages_received + 1) % 2 ^ 64;
        receive_message_id = (c.receive_message_id + 1) % 65536;
      },
    )

  -- `ReceiveMsg`; the message is `none` for the NULL that it returns.
  unfoldable pub receive_msg :
      ReliableOrderedChannel P T → Option (Option (Message P) × ReliableOrderedChannel P T)
  unfolding receive_found
  receive_msg c =
      if is_error c.error
      then some (none, c)
      else receive_found c (find c.message_receive_queue c.receive_message_id)

  -- A round of the loop of `ProcessPacketMessages`. A pointer that `Insert` does not give is dereferenced.
  unfoldable pub process_message :
      ℕ → ℕ → ReliableOrderedChannel P T → Message P → Option (Round (ReliableOrderedChannel P T))
  process_message min_message_id max_message_id c message =
      if sequence_less_than message.id min_message_id
      then some (continue c)
      else if sequence_greater_than message.id max_message_id
      then some (stop (record c { error = channel_error_desync }))
      else if exists c.message_receive_queue message.id
      then some (continue c)
      else (put c.message_receive_queue message.id message >>= λ queue. some (
          continue
            (record c { message_receive_queue = queue; retained = c.retained ++ (message ∷ []) })))

  -- The loop of `ProcessPacketMessages`.
  unfoldable pub process_messages :
      ℕ → ℕ → ReliableOrderedChannel P T → List (Message P) → Option (ReliableOrderedChannel P T)
  unfolding process_message
  process_messages min_message_id max_message_id c [] = some c
  process_messages min_message_id max_message_id c (message ∷ messages) =
      process_message min_message_id max_message_id c message >>= λ r.
      go_on r (λ c'. process_messages min_message_id max_message_id c' messages)

  -- `ProcessPacketMessages`
  unfoldable pub process_packet_messages :
      ReliableOrderedChannel P T → List (Message P) → Option (ReliableOrderedChannel P T)
  unfolding process_messages
  process_packet_messages c messages =
      process_messages c.receive_message_id
        ((c.receive_message_id + c.config.receive_queue_size + 65535) % 65536) c messages

-- ===== src/UnreliableChannel/Life.antt =====
-- The constructor, `Reset` and `ProcessAck` of the unreliable channel.
pub mod Laws
use libyojimbo.Config.{is_reliable_ordered}
use libyojimbo.Prelude.{
  not, assert, ◌>>◌, ℕ, zero, suc, ◌+◌, Option, some, List, [], ◌∷◌, ◌++◌, ◌>>=◌,
}
use libyojimbo.Queue.{Queue, at, clear}
use libyojimbo.Queue
use libyojimbo.UnreliableChannel.{ChannelConfig, UnreliableUnorderedChannel, channel_error_none}

module _ {M : Type 0} where
  -- The loops of `Reset` over a queue, from an index on with the rounds left.
  unfoldable pub waiting : Queue M → ℕ → ℕ → Option (List M)
  waiting q zero i = some []
  waiting q (suc left) i = do message ← at q i; rest ← waiting q left (i + 1); some (message ∷ rest)

  -- `Reset`
  pub reset : UnreliableUnorderedChannel M → Option (UnreliableUnorderedChannel M)
  unfolding waiting
  reset c = do
    sending ← waiting c.send_queue c.send_queue.num_entries 0
    receiving ← waiting c.receive_queue c.receive_queue.num_entries 0
    some (record c {
      error = channel_error_none;
      send_queue = clear c.send_queue;
      receive_queue = clear c.receive_queue;
      messages_sent = 0;
      messages_received = 0;
      released = c.released ++ sending ++ receiving;
    })

  -- The constructor, for queues of the configured sizes; `zeroed` is the NULL that the queues start with.
  pub new : M → ChannelConfig → ℕ → ℕ → Option (UnreliableUnorderedChannel M)
  unfolding reset
  new zeroed config send_queue_size receive_queue_size = do
    assert (not (is_reliable_ordered config.type))
    sends ← Queue.new zeroed send_queue_size
    receives ← Queue.new zeroed receive_queue_size
    reset (record {
      config = config;
      error = channel_error_none;
      send_queue = sends;
      receive_queue = receives;
      messages_sent = 0;
      messages_received = 0;
      released = [];
    })

  -- `ProcessAck`
  process_ack : UnreliableUnorderedChannel M → ℕ → UnreliableUnorderedChannel M
  process_ack c ack = c

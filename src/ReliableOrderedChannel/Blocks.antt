-- ===== src/ReliableOrderedChannel/Blocks.antt =====
-- A block on its way out: its fragments are sent one in a packet until all of them are acked.
use libyojimbo.Prelude.{
  ℕ, zero, suc, ◌+◌, ◌-◌, ◌*◌, ◌%◌, Bool, true, false, not, ◌&&◌, Option, none, some, [], ◌∷◌, ◌++◌,
  ltb, leb, ◌==◌, if◌then◌else◌, ◌^◌, ◌>>=◌, ◌>>◌, assert, get_elem?, set, take, drop, replicate,
}
use libyojimbo.Message.{block_bytes, get_block_size}
use libyojimbo.Serialize.{bits_required}
use libyojimbo.BitArray.{get_bit, set_bit}
use libyojimbo.BitArray
use libyojimbo.SequenceBuffer.{find, put, remove}
use libyojimbo.ReliableOrderedChannel.{
  ReliableOrderedChannel, Clock, ChannelConfig, MessageSendQueueEntry, SendBlockData, BlockData,
  ChannelPacketData, block_data, get_max_fragments_per_block,
}
use libyojimbo.ReliableOrderedChannel.SendQueue.{
  has_messages_to_send, update_oldest_unacked_message_id,
}

-- ConservativeFragmentHeaderEstimate
abbrev pub conservative_fragment_header_estimate : ℕ
conservative_fragment_header_estimate = 64

module _ {P T : Type 0} where
  is_block_entry : Option (MessageSendQueueEntry P T) → Bool
  is_block_entry none = false
  is_block_entry (some entry) = entry.block

  -- `SendingBlockMessage`
  unfoldable pub sending_block_message : ReliableOrderedChannel P T → Option Bool
  unfolding is_block_entry
  sending_block_message c = do
    assert (has_messages_to_send c)
    some (is_block_entry (find c.message_send_queue c.oldest_unacked_message_id))

  -- The part of `ProcessAck` for a packet with a fragment of a block.
  unfoldable pub process_fragment_ack :
      ReliableOrderedChannel P T → SendBlockData T → ℕ → ℕ → Option (ReliableOrderedChannel P T)
  process_fragment_ack c block message_id fragment_id =
      if block.active && block.block_message_id == message_id
      then (get_bit block.acked_fragment fragment_id >>= λ bit.
          if not (bit == 0)
          then some c
          else (set_bit block.acked_fragment fragment_id >>= λ acked.
              let block' : SendBlockData T = record block {
                acked_fragment = acked;
                num_acked_fragments = block.num_acked_fragments + 1;
              } in
              if block'.num_acked_fragments == block.num_fragments
              then (find c.message_send_queue message_id >>= λ entry.
                  update_oldest_unacked_message_id (record c {
                    send_block = some (record block' { active = false });
                    released = c.released ++ (entry.message ∷ []);
                    message_send_queue = remove c.message_send_queue message_id;
                  }))
              else some (record c { send_block = some block' })))
      else some c

-- The loop of `GetFragmentToSend` over the fragments from one on, with the rounds left.
next_fragment : {T : Type 0} → Clock T → T → T → SendBlockData T → ℕ → ℕ → Option ℕ
next_fragment clock resend_time time block zero i = some 65535
next_fragment clock resend_time time block (suc left) i = do
  bit ← get_bit block.acked_fragment i
  sent ← get_elem? block.fragment_send_time i
  rest ← next_fragment clock resend_time time block left (i + 1)
  some (if bit == 0 && clock.before (clock.plus sent resend_time) time then i % 65536 else rest)

module _ {T : Type 0} (clock : Clock T) (ceil_quotient : ℕ → ℕ → ℕ) where
  -- The start of a block in `GetFragmentToSend`; `ceil_quotient` is its `ceil` of a quotient of `float`s.
  pub start_block : ChannelConfig T → SendBlockData T → ℕ → ℕ → Option (SendBlockData T)
  start_block config block block_size message_id = do
    let num_fragments = ceil_quotient block_size config.fragment_size
    let max_fragments_per_block = get_max_fragments_per_block config
    assert (ltb 0 num_fragments)
    assert (leb num_fragments max_fragments_per_block)
    some (record block {
      active = true;
      block_size = block_size;
      block_message_id = message_id;
      num_fragments = num_fragments;
      num_acked_fragments = 0;
      acked_fragment = BitArray.clear block.acked_fragment;
      fragment_send_time = replicate max_fragments_per_block clock.never;
    })

module _ {P T : Type 0} (clock : Clock T) (ceil_quotient : ℕ → ℕ → ℕ) where
  -- `GetFragmentToSend`: the fragment, less the message it belongs to, or `none` for NULL.
  pub get_fragment_to_send :
      ReliableOrderedChannel P T → Option (Option (BlockData P) × ReliableOrderedChannel P T)
  unfolding start_block next_fragment
  get_fragment_to_send c = do
    entry ← find c.message_send_queue c.oldest_unacked_message_id
    assert entry.block
    let message = entry.message
    let block_size = get_block_size message
    idle ← c.send_block
    block ←
        if idle.active
        then some idle
        else start_block clock ceil_quotient c.config idle block_size message.id
    fragment_id ←
        next_fragment clock c.config.fragment_resend_time c.time block block.num_fragments 0
    if fragment_id == 65535
        then some (none, record c { send_block = some block })
        else (let remainder = block_size % c.config.fragment_size in
            let fragment_bytes =
              if not (remainder == 0) && fragment_id + 1 == block.num_fragments
              then remainder
              else c.config.fragment_size in
            let fragment : BlockData P = record {
              block_message = none;
              fragment_data = some (
                  take fragment_bytes
                    (drop (fragment_id * c.config.fragment_size) (block_bytes message.block_data)));
              message_id = message.id;
              fragment_id = fragment_id;
              num_fragments = block.num_fragments;
              message_type = message.type;
            } in
            some (
              some fragment,
              record c {
                send_block = some (record block {
                  fragment_send_time = set block.fragment_send_time fragment_id c.time;
                });
              },
            ))

-- `GetFragmentPacketData`: the bits that it returns and the packet data, for a fragment of `size` bytes.
pub get_fragment_packet_data :
    {P T : Type 0}
    → ℕ
    → ReliableOrderedChannel P T
    → BlockData P
    → ℕ
    → Option (ℕ × ChannelPacketData P × ReliableOrderedChannel P T)
get_fragment_packet_data num_types c fragment size =
    let fragment_bits = conservative_fragment_header_estimate + size in
    if fragment.fragment_id == 0
    then (find c.message_send_queue fragment.message_id >>= λ entry. some (
      fragment_bits + entry.measured_bits + bits_required 0 ((num_types + 2 ^ 32 - 1) % 2 ^ 32),
      record {
        channel_id = c.channel_id;
        message_failed_to_serialize = false;
        data_ = block_data (record fragment { block_message = some entry.message });
      },
      record c { retained = c.retained ++ (entry.message ∷ []) },
    ))
    else some (
      fragment_bits,
      record {
        channel_id = c.channel_id;
        message_failed_to_serialize = false;
        data_ = block_data (record fragment { block_message = none });
      },
      c,
    )

-- `AddFragmentPacketEntry`
pub add_fragment_packet_entry :
    {P T : Type 0} → ReliableOrderedChannel P T → ℕ → ℕ → ℕ → Option (ReliableOrderedChannel P T)
add_fragment_packet_entry c message_id fragment_id sequence =
    put c.sent_packets sequence (record {
      time_sent = c.time;
      message_ids = [];
      acked = false;
      block = some (message_id, fragment_id);
    })
    >>= λ sent. some (record c { sent_packets = sent })

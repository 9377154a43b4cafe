-- ===== src/ReliableOrderedChannel/Fragments.antt =====
-- A block on its way in: its fragments are put together.
pub mod Copy
pub mod Partial
pub mod Laws
mod Tests
use libyojimbo.Prelude.{
  ℕ, ◌+◌, ◌-◌, ◌*◌, true, false, not, ◌||◌, Option, none, some, List, ◌++◌, leb, ◌==◌,
  if◌then◌else◌, ◌>>=◌, ◌>>◌, assert, length, take, drop,
}
use libyojimbo.Message.{attach_block, set_id}
use libyojimbo.BitArray.{get_bit, set_bit}
use libyojimbo.BitArray
use libyojimbo.SequenceBuffer.{put}
use libyojimbo.ReliableOrderedChannel.{
  ReliableOrderedChannel, ReceiveBlockData, BlockData, channel_error_desync, message_list,
  get_max_fragments_per_block, ChannelConfig,
}

-- `memcpy` to an offset of an array; `none` is a byte outside it.
unfoldable pub copy_at : List ℕ → ℕ → List ℕ → Option (List ℕ)
copy_at bytes offset source = do
  assert (leb (offset + length source) (length bytes))
  some (take offset bytes ++ (source ++ drop (offset + length source) bytes))

module _ {P T : Type 0} where
  -- The start of a new block in `ProcessPacketFragment`.
  unfoldable pub start_receiving :
      ChannelConfig T → ReceiveBlockData P → BlockData P → Option (ReceiveBlockData P)
  start_receiving config block fragment = if block.active then some block else (do
    assert (leb fragment.num_fragments (get_max_fragments_per_block config))
    some (record block {
      active = true;
      num_fragments = fragment.num_fragments;
      num_received_fragments = 0;
      message_id = fragment.message_id;
      block_size = 0;
      received_fragment = BitArray.clear block.received_fragment;
    }))

  -- The end of `ProcessPacketFragment`, when all fragments of the block have been received.
  unfoldable pub finish_block :
      ReliableOrderedChannel P T → ReceiveBlockData P → ℕ → Option (ReliableOrderedChannel P T)
  finish_block c block message_id = do
    message ← block.block_message
    attached ← attach_block message (take block.block_size block.block_data)
    queue ← put c.message_receive_queue message_id (set_id attached message_id)
    some (record c {
      message_receive_queue = queue;
      receive_block = some (record block { active = false; block_message = none });
    })

  -- A fragment that `ProcessPacketFragment` has not received before. `AddRef` dereferences the message
  -- that comes with fragment 0.
  unfoldable pub store_fragment :
      ChannelConfig T → ReceiveBlockData P → BlockData P → List ℕ → Option (ReceiveBlockData P)
  unfolding copy_at
  store_fragment config block fragment bytes = do
    received ← set_bit block.received_fragment fragment.fragment_id
    data_ ← copy_at block.block_data (fragment.fragment_id * config.fragment_size) bytes
    let is_first = fragment.fragment_id == 0
    let is_last = fragment.fragment_id + 1 == block.num_fragments
    let block_size =
        if is_last
        then (block.num_fragments - 1) * config.fragment_size + length bytes
        else block.block_size
    assert (not is_last || leb block_size config.max_block_size)
    message ←
        if is_first
        then (fragment.block_message >>= λ m. some (some m))
        else some block.block_message
    some (record block {
      received_fragment = received;
      block_data = data_;
      message_type = if is_first then fragment.message_type else block.message_type;
      block_size = block_size;
      num_received_fragments = block.num_received_fragments + 1;
      block_message = message;
    })

  -- The rest of `ProcessPacketFragment`, once a block is being received.
  unfoldable pub receive_fragment :
      ReliableOrderedChannel P T
      → ReceiveBlockData P
      → BlockData P
      → List ℕ
      → Option (ReliableOrderedChannel P T)
  unfolding store_fragment finish_block
  receive_fragment c block fragment bytes =
      if leb block.num_fragments fragment.fragment_id
        || not (fragment.num_fragments == block.num_fragments)
      then some (record c { receive_block = some block; error = channel_error_desync })
      else (get_bit block.received_fragment fragment.fragment_id >>= λ bit.
          if not (bit == 0)
          then some (record c { receive_block = some block })
          else (store_fragment c.config block fragment bytes >>= λ block'.
              let c' : ReliableOrderedChannel P T = record c {
                receive_block = some block';
                retained =
                    if fragment.fragment_id == 0
                    then c.retained ++ message_list block'.block_message
                    else c.retained;
              } in
              if block'.num_received_fragments == block'.num_fragments
              then finish_block c' block' fragment.message_id
              else some c'))

  fragment_bytes :
      ReliableOrderedChannel P T
      → BlockData P
      → Option (List ℕ)
      → Option (ReliableOrderedChannel P T)
  unfolding start_receiving receive_fragment
  fragment_bytes c fragment none = some c
  fragment_bytes c fragment (some bytes) =
      if not (fragment.message_id == c.message_receive_queue.sequence)
      then some c
      else (c.receive_block >>= λ idle. start_receiving c.config idle fragment >>= λ block.
          receive_fragment c block fragment bytes)

  -- `ProcessPacketFragment`
  unfoldable pub process_packet_fragment :
      ReliableOrderedChannel P T → BlockData P → Option (ReliableOrderedChannel P T)
  unfolding fragment_bytes
  process_packet_fragment c fragment = do
    assert (not c.config.disable_blocks)
    fragment_bytes c fragment fragment.fragment_data

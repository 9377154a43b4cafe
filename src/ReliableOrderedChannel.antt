-- ===== src/ReliableOrderedChannel.antt =====
-- yojimbo_channel.cpp: `ReliableOrderedChannel`, its members. Times are a parameter, with the
-- operations of `double` that the channel uses. A failed assertion and a dereference of NULL are
-- `none`, and so are accesses outside the bytes of a block and outside a bit array; memory is always granted.
pub mod Life
mod Tests
mod SendQueue
mod Choosing
mod ReceiveQueue
mod Blocks
mod Fragments
mod Packets
use libyojimbo.Prelude.{
  ℕ, zero, suc, ◌+◌, ◌/◌, ◌%◌, Bool, true, false, Option, none, some, List, [], ◌∷◌, ◌++◌, ◌==◌,
  ◌>>=◌, ◌>>◌, assert, replicate, if◌then◌else◌,
}
use libyojimbo.Config.{ChannelType}
use libyojimbo.Message.{Message}
use libyojimbo.BitArray.{BitArray}
use libyojimbo.SequenceBuffer.{SequenceBuffer}

-- `ChannelError`, as far as memory is granted.
pub data ChannelError : Type 0 where
  channel_error_none : ChannelError
  channel_error_desync : ChannelError
  channel_error_failed_to_serialize : ChannelError

abbrev pub is_error : ChannelError → Bool
is_error channel_error_none = false
is_error _ = true

-- What a round of a loop does: go on to the next, or leave the loop.
pub data Round (A : Type 0) : Type 0 where
  continue : A → Round A
  stop : A → Round A

abbrev pub go_on : {A : Type 0} → Round A → (A → Option A) → Option A
go_on (continue a) rest = rest a
go_on (stop a) rest = some a

-- The numbers of type `double`: 0, -1, the sum, and the tests.
pub record Clock (T : Type 0) : Type 0 where
  pub start : T
  pub never : T
  pub plus : T → T → T
  pub at_most : T → T → Bool
  pub before : T → T → Bool

-- The members of `ChannelConfig` that the channel reads; a budget of 0 stands for none.
pub record ChannelConfig (T : Type 0) : Type 0 where
  pub type : ChannelType
  pub disable_blocks : Bool
  pub sent_packet_buffer_size : ℕ
  pub send_queue_size : ℕ
  pub receive_queue_size : ℕ
  pub max_messages_per_packet : ℕ
  pub packet_budget : ℕ
  pub max_block_size : ℕ
  pub fragment_size : ℕ
  pub message_resend_time : T
  pub fragment_resend_time : T

-- `GetMaxFragmentsPerBlock`
abbrev pub get_max_fragments_per_block : {T : Type 0} → ChannelConfig T → ℕ
get_max_fragments_per_block config = config.max_block_size / config.fragment_size

-- The part of `ChannelPacketData` that holds a fragment of a block; no data is the NULL.
pub record BlockData (P : Type 0) : Type 0 where
  pub block_message : Option (Message P)
  pub fragment_data : Option (List ℕ)
  pub message_id : ℕ
  pub fragment_id : ℕ
  pub num_fragments : ℕ
  pub message_type : ℕ

-- What the union of `ChannelPacketData` holds.
pub data PacketPayload (P : Type 0) : Type 0 where
  message_data : List (Message P) → PacketPayload P
  block_data : BlockData P → PacketPayload P

-- `ChannelPacketData`
pub record ChannelPacketData (P : Type 0) : Type 0 where
  pub channel_id : ℕ
  pub message_failed_to_serialize : Bool
  pub data_ : PacketPayload P

pub record MessageSendQueueEntry (P T : Type 0) : Type 0 where
  pub message : Message P
  pub time_last_sent : T
  pub measured_bits : ℕ
  pub block : Bool

-- `SentPacketEntry`; the ids of the message and of the fragment are valid only for a block.
pub record SentPacketEntry (T : Type 0) : Type 0 where
  pub time_sent : T
  pub message_ids : List ℕ
  pub acked : Bool
  pub block : Option (ℕ × ℕ)

-- `SendBlockData`, less the copy of the block that is never used.
pub record SendBlockData (T : Type 0) : Type 0 where
  pub active : Bool
  pub block_size : ℕ
  pub num_fragments : ℕ
  pub num_acked_fragments : ℕ
  pub block_message_id : ℕ
  pub acked_fragment : BitArray
  pub fragment_send_time : List T

pub record ReceiveBlockData (P : Type 0) : Type 0 where
  pub active : Bool
  pub num_fragments : ℕ
  pub num_received_fragments : ℕ
  pub message_id : ℕ
  pub message_type : ℕ
  pub block_size : ℕ
  pub received_fragment : BitArray
  pub block_data : List ℕ
  pub block_message : Option (Message P)

-- The members of the channel, with the messages that it released and the ones it added a reference to.
-- The block data is NULL, here `none`, where blocks are disabled.
pub record ReliableOrderedChannel (P T : Type 0) : Type 0 where
  pub config : ChannelConfig T
  pub channel_id : ℕ
  pub error : ChannelError
  pub time : T
  pub send_message_id : ℕ
  pub receive_message_id : ℕ
  pub oldest_unacked_message_id : ℕ
  pub sent_packets : SequenceBuffer (SentPacketEntry T)
  pub message_send_queue : SequenceBuffer (MessageSendQueueEntry P T)
  pub message_receive_queue : SequenceBuffer (Message P)
  pub send_block : Option (SendBlockData T)
  pub receive_block : Option (ReceiveBlockData P)
  pub messages_sent : ℕ
  pub messages_received : ℕ
  pub released : List (Message P)
  pub retained : List (Message P)

-- A message that may be NULL, as a list.
abbrev pub message_list : {P : Type 0} → Option (Message P) → List (Message P)
message_list none = []
message_list (some m) = m ∷ []

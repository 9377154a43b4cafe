-- ===== src/Lib.antt =====
-- libyojimbo: a client/server network library that carries messages in packets over UDP.
--
-- Modelled are the parts that every packet goes through. A sender numbers its packets (yojimbo_common.h),
-- writes their fields into a buffer of words (yojimbo_bitpack.h) and sends the 64-bit sequence number in
-- a short form (yojimbo_common.cpp). A receiver drops packets it has already received
-- (yojimbo_replay_protection.h). Each side of a connection (yojimbo_connection.cpp) keeps what it sent
-- and received in sequence buffers (yojimbo_sequence_buffer.h), acks the packets it holds in the packets
-- it sends, and tells its channels and its listener of the packets that are acked. Queues
-- (yojimbo_queue.h) hold messages and packets between the parts. A reliable ordered channel
-- (yojimbo_channel.cpp) sends its messages again until the packets that hold them are acked, and delivers
-- them in order on the other side; blocks go in fragments. The packet processor
-- (yojimbo_packet_processor.cpp) encrypts what is sent, with the keys that the encryption manager
-- (yojimbo_encryption.cpp) keeps for each address. A network simulator (yojimbo_network_simulator.cpp)
-- delays, drops and repeats packets.
--
-- Sequence: `sequence_greater_than`, `sequence_less_than`, `signed_to_unsigned`, `unsigned_to_signed`.
--   An `int` of the encoding is its 32-bit pattern. Order and ZigZag hold the laws.
-- Queue: `Queue<T>`. Fifo is the abstract queue and Laws the refinement. An entry that was never
--   written holds a value that is a parameter.
-- ReplayProtection: `ReplayProtection`, with `ReplayProtectionBufferSize` entries. Received is the
--   abstract filter and Laws the refinement.
-- SequenceBuffer: `SequenceBuffer<T>`. A pointer to an entry is the index of the entry. Clearing,
--   Window, Removing and Insert follow `RemoveEntries` and `Insert`; Laws, Lifecycle and Writing hold the
--   laws of the operations. `put` is an `Insert` and a store through its pointer.
-- BitPack: `BitWriter` in Writer and `BitReader` in Reader, Digits for words as lists of digits, and
--   Fields for a client that writes and reads whole packets.
-- PacketSequence: `compress_packet_sequence`, `get_packet_sequence_bytes` and
--   `decompress_packet_sequence`; Bytes names the bytes that are sent.
-- Connection: the ack system of `Connection`. AckBits is about `GenerateAckBits`, Newly names the
--   packets that an ack acks for the first time, Rounds and Acks follow the loop of `ProcessAcks`, Laws
--   states what it does, Sending is about `InsertAckPacketEntry`. The channels are a parameter.
-- BitArray: `BitArray`, on 64-bit words; Laws holds what its operations do to each bit.
-- UnreliableChannel: `UnreliableUnorderedChannel` of yojimbo_channel.cpp, on two queues. A message is a
--   parameter, with the bits that it takes. The loop of `GetPacketData` runs at most once for each message
--   in the queue, so that number of rounds is enough. Life is the constructor and `Reset`.
-- Config: `ChannelType` of yojimbo_config.h.
-- NetworkSimulator: `NetworkSimulator` of yojimbo_network_simulator.cpp, over the numbers that
--   `random_float` returns. The pending list holds the pending packets only.
-- Message: the members of `Message` and `BlockMessage` and the attachment of a block. What a derived
--   class adds, and the bits that it measures, are parameters.
-- Serialize: `bits_required`, `serialize_int_relative` and `serialize_sequence_relative`, written, measured
--   and read; Relative is about writing a sequence number.
-- ReliableOrderedChannel: `ReliableOrderedChannel` of yojimbo_channel.cpp. Life has the constructor, with
--   New about it, and `Reset`, with Laws; SendQueue `SendMsg` and `UpdateOldestUnackedMessageId`;
--   Choosing `GetMessagesToSend`;
--   ReceiveQueue `ReceiveMsg` and `ProcessPacketMessages`; Blocks and Fragments the two sides of a block;
--   Packets what happens for each packet. Times are a parameter, and so is the `ceil` of a quotient of
--   `float`. The loop of `UpdateOldestUnackedMessageId` is given 65536 rounds, one for each id, which is
--   enough where the stop lies ahead of the oldest id.
-- EncryptionManager: `EncryptionManager` of yojimbo_encryption.cpp, its arrays as one list of entries.
-- PacketProcessor: `PacketProcessor`, over the packet serialization and the cipher as interfaces.
-- Prelude: shared names, tests on numbers, lists over the native numbers, and the bit operations.
--
-- Machine integers are natural numbers with the wrap written out. A failed assertion is `none`.
-- A read through `get_elem?` outside an array is `none` too; `get_or` gives a default there and `set`
-- changes nothing, which stands for what the source leaves undefined: they are used at an index that is
-- a remainder by the size of the array, or that an invariant or an assertion keeps inside. The processor's
-- buffers and the data of a block have their sizes, and a write past them is `none`. Loops with a fixed or
-- computed number of rounds count the rounds left, so no fuel can run out: 32 rounds for ack bits, 7 for the bytes of a sequence number, and for
-- `RemoveEntries` the number of sequence numbers between its two arguments.
--
-- Not modelled: `Connection::GeneratePacket` past `InsertAckPacketEntry`, packet and message
-- serialization, reference counts, client and server; ciphers, sockets, allocators,
-- tokens and the matcher, which are calls of other libraries and of the system. Memory that the source
-- allocates is always granted.
pub mod Prelude
pub mod Sequence
pub mod Queue
pub mod ReplayProtection
pub mod SequenceBuffer
pub mod BitPack
pub mod PacketSequence
pub mod Connection
pub mod BitArray
pub mod UnreliableChannel
pub mod Message
pub mod Serialize
pub mod ReliableOrderedChannel
pub mod EncryptionManager
pub mod PacketProcessor
pub mod NetworkSimulator
pub mod Config

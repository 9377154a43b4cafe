-- ===== src/UnreliableChannel.antt =====
-- yojimbo_channel.cpp: `UnreliableUnorderedChannel`, on two queues of messages.
-- A message is a parameter, with whether it is a block, the size of its block, the bits that
-- `MeasureStream` counts for it (its block included), and what `SetId` does. A failed assertion is `none`.
pub mod Life
pub mod Laws
mod Tests
use libyojimbo.Prelude.{
  ℕ, zero, suc, ◌+◌, ◌-◌, ◌*◌, ◌%◌, ◌^◌, min, Bool, true, false, not, ◌&&◌, ◌||◌, Option, none,
  some, List, [], ◌∷◌, ◌++◌, ltb, leb, ◌==◌, if◌then◌else◌, ◌>>=◌, ◌>>◌, assert, length,
}
use libyojimbo.Config.{ChannelType}
use libyojimbo.Queue.{Queue, is_full, is_empty, push, pop}

-- `ChannelError`, where this channel sets it.
pub data ChannelError : Type 0 where
  channel_error_none : ChannelError
  channel_error_failed_to_serialize : ChannelError

abbrev pub is_error : ChannelError → Bool
is_error channel_error_none = false
is_error channel_error_failed_to_serialize = true

-- The members of `ChannelConfig` that the channel reads; a budget of 0 stands for none.
pub record ChannelConfig : Type 0 where
  pub type : ChannelType
  pub disable_blocks : Bool
  pub max_messages_per_packet : ℕ
  pub packet_budget : ℕ
  pub max_block_size : ℕ

-- The members of the channel, and the messages that it released to the factory.
pub record UnreliableUnorderedChannel (M : Type 0) : Type 0 where
  pub config : ChannelConfig
  pub error : ChannelError
  pub send_queue : Queue M
  pub receive_queue : Queue M
  pub messages_sent : ℕ
  pub messages_received : ℕ
  pub released : List M

-- What the loop of `GetPacketData` carries.
pub record Filling (M : Type 0) : Type 0 where
  pub send_queue : Queue M
  pub used_bits : ℕ
  pub messages : List M
  pub released : List M

-- ConservativeMessageHeaderEstimate
abbrev pub conservative_message_header_estimate : ℕ
conservative_message_header_estimate = 32

module _ {M : Type 0} where
  -- `CanSendMsg`
  pub can_send_msg : UnreliableUnorderedChannel M → Bool
  can_send_msg c = not (is_full c.send_queue)

  -- `ReceiveMsg`; the message is `none` for the NULL it returns.
  pub receive_msg : UnreliableUnorderedChannel M → Option (Option M × UnreliableUnorderedChannel M)
  receive_msg c =
      if is_error c.error
      then some (none, c)
      else if is_empty c.receive_queue
      then some (none, c)
      else (pop c.receive_queue >>= λ (message, q). some (
        some message,
        record c { receive_queue = q; messages_received = (c.messages_received + 1) % 2 ^ 64 },
      ))

  module _ (is_block : M → Bool) (block_size : M → ℕ) where
    -- `SendMsg`. The tests behind its two assertions cannot hold after them.
    pub send_msg : UnreliableUnorderedChannel M → M → Option (UnreliableUnorderedChannel M)
    unfolding can_send_msg
    send_msg c message = do
      assert (can_send_msg c)
      if is_error c.error then some (record c { released = c.released ++ (message ∷ []) }) else (do
        assert (not (is_block message && c.config.disable_blocks))
        assert (not (is_block message) || ltb 0 (block_size message))
        assert (not (is_block message) || leb (block_size message) c.config.max_block_size)
        q ← push c.send_queue message
        some (record c { send_queue = q; messages_sent = (c.messages_sent + 1) % 2 ^ 64 }))

  module _ (message_bits : M → ℕ) where
    -- The loop of `GetPacketData`, with the rounds left. A negative number of available bits acts as 0
    -- does, which is given for it: either ends the loop in its first round; `message_bits` counts the type of the message too.
    pub fill : ℕ → ℕ → ℕ → Filling M → Option (Filling M)
    fill zero most available f = some f
    fill (suc rounds) most available f =
        if is_empty f.send_queue
        then some f
        else if ltb available (f.used_bits + 4 * 8)
        then some f
        else if length f.messages == most
        then some f
        else (pop f.send_queue >>= λ (message, q).
            let used_bits = f.used_bits + message_bits message in
            (if ltb available used_bits
              then some (record f { send_queue = q; released = f.released ++ (message ∷ []) })
              else (assert (leb used_bits available)
                  >> some (record f {
                    send_queue = q;
                    used_bits = used_bits;
                    messages = f.messages ++ (message ∷ []);
                  })))
            >>= fill rounds most available)

    -- `GetPacketData`: the bits it returns, and the messages of the packet data.
    pub get_packet_data :
        UnreliableUnorderedChannel M → ℕ → Option (ℕ × List M × UnreliableUnorderedChannel M)
    unfolding fill
    get_packet_data c available_bits = if is_empty c.send_queue then some (0, [], c) else (do
      let available =
          if ltb 0 c.config.packet_budget
          then min (c.config.packet_budget * 8) available_bits
          else available_bits
      f ← fill c.send_queue.num_entries c.config.max_messages_per_packet available (record {
        send_queue = c.send_queue;
        used_bits = conservative_message_header_estimate;
        messages = [];
        released = c.released;
      })
      some (
        (if length f.messages == 0 then 0 else f.used_bits),
        f.messages,
        record c { send_queue = f.send_queue; released = f.released },
      ))

  module _ (set_id : M → ℕ → M) where
    -- The loop of `ProcessPacketData` over the messages.
    pub receive_all : Queue M → List M → ℕ → Option (Queue M)
    receive_all q [] packet_sequence = some q
    receive_all q (message ∷ messages) packet_sequence = do
      q' ← if not (is_full q) then push q (set_id message packet_sequence) else some q
      receive_all q' messages packet_sequence

    -- `ProcessPacketData`, with whether a message failed to serialize.
    pub process_packet_data :
        UnreliableUnorderedChannel M → Bool → List M → ℕ → Option (UnreliableUnorderedChannel M)
    unfolding receive_all
    process_packet_data c failed messages packet_sequence =
        if is_error c.error
        then some c
        else if failed
        then some (record c { error = channel_error_failed_to_serialize })
        else (receive_all c.receive_queue messages packet_sequence >>= λ q.
            some (record c { receive_queue = q }))

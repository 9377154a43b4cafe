-- ===== src/ReliableOrderedChannel/Choosing.antt =====
-- `GetMessagesToSend`: the choice of the messages of a packet.
pub mod Laws
use libyojimbo.Prelude.{
  ℕ, zero, suc, ◌+◌, ◌-◌, ◌*◌, ◌%◌, ◌^◌, min, Bool, true, false, not, ◌&&◌, ◌||◌, Option, none,
  some, List, [], ◌∷◌, ◌++◌, ltb, leb, ◌==◌, if◌then◌else◌, ◌>>=◌, ◌>>◌, assert, length,
}
use libyojimbo.Serialize.{bits_required, write_sequence_relative, measure}
use libyojimbo.SequenceBuffer.{SequenceBuffer, find, write}
use libyojimbo.ReliableOrderedChannel.{
  ReliableOrderedChannel, Clock, MessageSendQueueEntry, Round, continue, stop, go_on,
}
use libyojimbo.ReliableOrderedChannel.SendQueue.{has_messages_to_send}

-- ConservativeMessageHeaderEstimate
abbrev pub conservative_message_header_estimate : ℕ
conservative_message_header_estimate = 32

-- What the loop of `GetMessagesToSend` carries; the ids are in the order in which they are chosen.
pub record Choosing (P T : Type 0) : Type 0 where
  pub queue : SequenceBuffer (MessageSendQueueEntry P T)
  pub previous_message_id : ℕ
  pub used_bits : ℕ
  pub give_up_counter : ℕ
  pub message_ids : List ℕ

module _ {P T : Type 0} (clock : Clock T) (num_types : ℕ) (c : ReliableOrderedChannel P T)
    (available_bits : ℕ) where
  -- The bits that a message id takes in a packet, after those that are chosen.
  unfoldable pub id_bits : Choosing P T → ℕ → Option ℕ
  id_bits s message_id =
      if length s.message_ids == 0
      then some 16
      else (write_sequence_relative s.previous_message_id message_id >>= λ fs. some (measure fs))

  -- The end of a round of `GetMessagesToSend`.
  abbrev pub full : Choosing P T → Round (Choosing P T)
  full s = if length s.message_ids == c.config.max_messages_per_packet then stop s else continue s

  -- A round of `GetMessagesToSend` at a message in the queue, which it may choose.
  unfoldable pub choose_entry :
      ℕ → Choosing P T → MessageSendQueueEntry P T → Option (Round (Choosing P T))
  unfolding id_bits
  choose_entry message_id s entry =
      if entry.block
      then some (stop s)
      else if clock.at_most (clock.plus entry.time_last_sent c.config.message_resend_time) c.time
          && leb entry.measured_bits available_bits
      then (id_bits s message_id >>= λ relative.
          let message_bits =
            entry.measured_bits + bits_required 0 ((num_types + 2 ^ 32 - 1) % 2 ^ 32) + relative in
          if ltb available_bits (s.used_bits + message_bits)
          then some (continue (record s { give_up_counter = s.give_up_counter + 1 }))
          else some (
              full (record s {
                queue =
                    write s.queue (message_id % s.queue.size)
                      (record entry { time_last_sent = c.time });
                previous_message_id = message_id;
                used_bits = s.used_bits + message_bits;
                message_ids = s.message_ids ++ (message_id ∷ []);
              })))
      else some (full s)

  choose_found :
      ℕ → Choosing P T → Option (MessageSendQueueEntry P T) → Option (Round (Choosing P T))
  unfolding choose_entry
  choose_found message_id s none = some (continue s)
  choose_found message_id s (some entry) = choose_entry message_id s entry

  -- A round of the loop of `GetMessagesToSend`.
  unfoldable pub choose : ℕ → Choosing P T → Option (Round (Choosing P T))
  unfolding choose_found
  choose i s =
      let message_id = (c.oldest_unacked_message_id + i) % 65536 in
      if ltb available_bits (s.used_bits + 4 * 8)
      then some (stop s)
      else if ltb c.config.send_queue_size s.give_up_counter
      then some (stop s)
      else choose_found message_id s (find s.queue message_id)

  -- The loop of `GetMessagesToSend` from a round on, with the rounds left.
  unfoldable pub choose_from : ℕ → ℕ → Choosing P T → Option (Choosing P T)
  unfolding choose
  choose_from zero i s = some s
  choose_from (suc left) i s = choose i s >>= λ r. go_on r (choose_from left (i + 1))

-- A negative number of available bits acts as 0 does, which is given for it: either ends the loop in its
-- first round.
-- `GetMessagesToSend`: the ids, the bits that it returns, and the channel with the times of sending.
unfoldable pub get_messages_to_send :
    {P T : Type 0}
    → Clock T
    → ℕ
    → ReliableOrderedChannel P T
    → ℕ
    → Option (List ℕ × ℕ × ReliableOrderedChannel P T)
unfolding choose_from
get_messages_to_send clock num_types c available_bits = do
  assert (has_messages_to_send c)
  let available =
      if ltb 0 c.config.packet_budget
      then min (c.config.packet_budget * 8) available_bits
      else available_bits
  s ←
      choose_from clock num_types c available
        (min c.config.send_queue_size c.config.receive_queue_size) 0
        (record {
          queue = c.message_send_queue;
          previous_message_id = 0;
          used_bits = conservative_message_header_estimate;
          give_up_counter = 0;
          message_ids = [];
        })
  some (s.message_ids, s.used_bits, record c { message_send_queue = s.queue })

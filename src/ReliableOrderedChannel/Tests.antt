-- ===== src/ReliableOrderedChannel/Tests.antt =====
-- A channel with queues of four entries, whose times are numbers with 0 for never, whose messages take
-- ten bits, and whose blocks are sent in fragments of two bytes.
use libyojimbo.Prelude.{
  ℕ, ◌+◌, ◌%◌, ◌≤◌, ◌<◌, ◌≡◌, ◌⊎◌, refl, sym, subst, ◌∙◌, arith, true, false, none, some, List, [],
  ◌∷◌, ◌++◌, map, ltb, leb, ◌==◌, if◌then◌else◌, All, length, replicate, get_or-replicate,
}
use libyojimbo.Config.{channel_type_reliable_ordered}
use libyojimbo.Message.{Message}
use libyojimbo.SequenceBuffer.{SequenceBuffer, free, find, exists, available}
use libyojimbo.SequenceBuffer.Removing.{IsValid}
use libyojimbo.SequenceBuffer.Laws.{find_lem}
use libyojimbo.SequenceBuffer.Appending.{appended, put-sequence, find-appended}
use libyojimbo.ReliableOrderedChannel.{
  ReliableOrderedChannel, Clock, ChannelConfig, MessageSendQueueEntry, SentPacketEntry,
  channel_error_none, channel_error_desync,
}
use libyojimbo.ReliableOrderedChannel.Life.{reset}
use libyojimbo.ReliableOrderedChannel.Life.Laws.{
  IsReset, messages_to_send, messages_to_receive, block_message_of, reset_lem, empty-IsSending,
  empty-IsReceiving,
}
use libyojimbo.ReliableOrderedChannel.SendQueue.{
  can_send_msg, has_messages_to_send, send_msg, update_oldest_unacked_message_id,
}
use libyojimbo.ReliableOrderedChannel.SendQueue.Oldest.{
  IsOldest, update_oldest_unacked_message_id_lem,
}
use libyojimbo.ReliableOrderedChannel.SendQueue.Laws.{
  IsSending, entry_of, append-IsSending, send_msg_lem,
}
use libyojimbo.ReliableOrderedChannel.Choosing.{get_messages_to_send}
use libyojimbo.ReliableOrderedChannel.Choosing.Laws.{
  IsDue, Rising, budget, get_messages_to_send_lem,
}
use libyojimbo.ReliableOrderedChannel.ReceiveQueue.Messages.{IsDelivering, store-Received}
use libyojimbo.ReliableOrderedChannel.Packets.{process_ack}
use libyojimbo.ReliableOrderedChannel.Packets.Acks.{Acked, process_ack_lem}
use libyojimbo.ReliableOrderedChannel.Packets.InOrder.{
  Event, arrive, deliver, run, InOrder, ids_from, run-InOrder, run-deliver,
}

abbrev ticks : Clock ℕ
ticks = record { start = 1; never = 0; plus = ◌+◌; at_most = leb; before = ltb }

abbrev config : ChannelConfig ℕ
config = record {
  type = channel_type_reliable_ordered;
  disable_blocks = true;
  sent_packet_buffer_size = 4;
  send_queue_size = 4;
  receive_queue_size = 4;
  max_messages_per_packet = 2;
  packet_budget = 100;
  max_block_size = 6;
  fragment_size = 2;
  message_resend_time = 5;
  fragment_resend_time = 5;
}

-- The messages that are sent: message `i` has the payload `i + 100`.
abbrev stream : ℕ → Message ℕ
stream i = record { id = i; type = 0; block_message = false; block_data = none; payload = i + 100 }

abbrev empty_queue : {A : Type 0} → A → SequenceBuffer A
empty_queue x = record {
  size = 4;
  sequence = 0;
  entry_sequence = replicate 4 free;
  entries = replicate 4 x;
}

abbrev unsent : MessageSendQueueEntry ℕ ℕ
unsent = record { message = stream 0; time_last_sent = 0; measured_bits = 0; block = false }

abbrev idle : ReliableOrderedChannel ℕ ℕ
idle = record {
  config = config;
  channel_id = 0;
  error = channel_error_none;
  time = 10;
  send_message_id = 0;
  receive_message_id = 0;
  oldest_unacked_message_id = 0;
  sent_packets =
      empty_queue (record { time_sent = 0; message_ids = []; acked = false; block = none });
  message_send_queue = empty_queue unsent;
  message_receive_queue = empty_queue (stream 0);
  send_block = none;
  receive_block = none;
  messages_sent = 0;
  messages_received = 0;
  released = [];
  retained = [];
}

empty_queue-IsValid : {A : Type 0} (x : A) → IsValid (empty_queue x)
empty_queue-IsValid x = grind arith

find-empty_queue : {A : Type 0} (x : A) (t : ℕ) → t < 65536 → find (empty_queue x) t ≡ none
find-empty_queue x t ht =
    let absent : exists (empty_queue x) t ≡ false =
      unfold exists in ground (arith, get_or-replicate 4 (t % 4) free) in
    find_lem (empty_queue x) t ∙ rw absent refl

idle-IsSending : IsSending idle.message_send_queue 0
idle-IsSending =
    empty-IsSending idle.message_send_queue (empty_queue-IsValid unsent) (omega arith) (omega arith)
      (find-empty_queue unsent)

idle-IsDelivering : IsDelivering stream idle
idle-IsDelivering = record {
  receiving =
      empty-IsReceiving idle.message_receive_queue (empty_queue-IsValid (stream 0)) (omega arith)
        (omega arith) (find-empty_queue (stream 0));
  sized = refl;
  from = λ t m ht found.
      (let p : none ≡ some m = sym (find-empty_queue (stream 0) t ht) ∙ found in cc);
}

ten_bits : Message ℕ → ℕ
ten_bits m = 10

abbrev one_entry : {A : Type 0} → A → SequenceBuffer A
one_entry x = record {
  size = 4;
  sequence = 1;
  entry_sequence = 0 ∷ free ∷ free ∷ free ∷ [];
  entries = replicate 4 x;
}

one_entry-IsValid : {A : Type 0} (x : A) → IsValid (one_entry x)
one_entry-IsValid x = grind arith

-- A channel with an error, on its way to a block, with one message to send and one received.
abbrev busy : ReliableOrderedChannel ℕ ℕ
busy = record idle {
  error = channel_error_desync;
  time = 40;
  receive_message_id = 3;
  receive_block = some (record {
    active = true;
    num_fragments = 2;
    num_received_fragments = 1;
    message_id = 3;
    message_type = 1;
    block_size = 0;
    received_fragment = record { size = 3; bytes = 8; data_ = 1 ∷ [] };
    block_data = replicate 6 9;
    block_message = some (stream 3);
  });
  message_send_queue = one_entry unsent;
  message_receive_queue = one_entry (stream 2);
}

busy_releases :
    messages_to_send busy ++ messages_to_receive busy ++ block_message_of busy.receive_block
    ≡ unsent.message ∷ stream 2 ∷ stream 3 ∷ []
busy_releases = refl

-- With blocks of up to six bytes in fragments of two.
abbrev with_blocks : ChannelConfig ℕ
with_blocks = record config { disable_blocks = false }

reset_lem_example :
    (c' : ReliableOrderedChannel ℕ ℕ) × (reset ticks busy ≡ some c')
    × IsReset stream ticks busy c'
    × (find c'.message_send_queue 3 ≡ none)
    × (find c'.sent_packets 3 ≡ none)
reset_lem_example =
    reset_lem stream ticks busy 3 (omega arith)
      (empty_queue-IsValid
        (record { time_sent = 0; message_ids = []; acked = false; block = none }))
      (one_entry-IsValid unsent) (omega arith) (omega arith) (one_entry-IsValid (stream 2))
      (omega arith) (omega arith) refl

send_msg_lem_example :
    (c' : ReliableOrderedChannel ℕ ℕ) × (send_msg ticks ten_bits idle (stream 7) ≡ some c')
    × (c'.send_message_id ≡ 1)
    × (c'.send_message_id ≡ c'.message_send_queue.sequence)
    × IsSending c'.message_send_queue c'.oldest_unacked_message_id
    × (find c'.message_send_queue 0 ≡ (
        if 0 == 0
        then some (entry_of ticks ten_bits (stream 7) 0)
        else find idle.message_send_queue 0))
send_msg_lem_example =
    send_msg_lem ticks ten_bits idle (stream 7) 0 idle-IsSending refl refl room refl (omega arith)
  where
    room : can_send_msg idle ≡ true
    room = unfold can_send_msg available in refl

-- One message sent, in a packet with number 3.
abbrev first_entry : MessageSendQueueEntry ℕ ℕ
first_entry = entry_of ticks ten_bits (stream 7) 0

abbrev sending : ReliableOrderedChannel ℕ ℕ
sending = record idle {
  send_message_id = 1;
  message_send_queue = appended idle.message_send_queue first_entry;
  sent_packets = record {
    size = 4;
    sequence = 4;
    entry_sequence = free ∷ free ∷ free ∷ 3 ∷ [];
    entries = replicate 4 packet;
  };
}
  where
    packet : SentPacketEntry ℕ
    packet = record { time_sent = 10; message_ids = 0 ∷ []; acked = false; block = none }

sending-IsSending : IsSending sending.message_send_queue 0
sending-IsSending =
    append-IsSending idle.message_send_queue 0 first_entry idle-IsSending (unfold available in refl)
      refl

update_oldest_unacked_message_id_lem_example :
    (found : ℕ) × (update_oldest_unacked_message_id sending
      ≡ some (record sending { oldest_unacked_message_id = found }))
    × IsOldest sending.message_send_queue 1 0 found
update_oldest_unacked_message_id_lem_example =
    update_oldest_unacked_message_id_lem sending (omega arith) (omega arith) (omega arith)

process_ack_lem_example :
    (c' : ReliableOrderedChannel ℕ ℕ) × (process_ack sending 3 ≡ some c')
    × Acked sending (0 ∷ []) c'
process_ack_lem_example =
    process_ack_lem sending 3
      (record { time_sent = 10; message_ids = 0 ∷ []; acked = false; block = none })
      sending-IsSending (unfold find in refl) refl refl (omega arith, tt)

get_messages_to_send_lem_example :
    (ids : List ℕ) × (bits : ℕ) × (c' : ReliableOrderedChannel ℕ ℕ) × (get_messages_to_send ticks 1
        sending 200
      ≡ some (ids, bits, c'))
    × (length ids ≤ 2)
    × All (IsDue ticks sending) ids
    × Rising 0 ids
    × ((ids ≡ []) ⊎ (bits ≤ budget sending 200))
    × IsValid c'.message_send_queue
get_messages_to_send_lem_example =
    get_messages_to_send_lem ticks 1 sending 200 sending-IsSending.valid (omega arith)
      (unfold has_messages_to_send in refl) (omega arith) (omega arith)

-- Messages 1 and 0 come in that order, and the first again.
abbrev arrivals : List (Event ℕ)
arrivals =
    arrive false (stream 1 ∷ [])
    ∷ deliver
    ∷ arrive false (stream 0 ∷ stream 1 ∷ [])
    ∷ deliver
    ∷ deliver
    ∷ deliver
    ∷ []

run-InOrder_example :
    (messages : List (Message ℕ)) × (c' : ReliableOrderedChannel ℕ ℕ) × (run idle arrivals
      ≡ some (messages, c'))
    × InOrder stream idle messages c'
run-InOrder_example =
    run-InOrder stream idle arrivals idle-IsDelivering
      (((omega arith, refl), tt), (((omega arith, refl), ((omega arith, refl), tt)), tt))

-- Message 0 has come.
abbrev waiting : ReliableOrderedChannel ℕ ℕ
waiting = record idle {
  message_receive_queue = appended idle.message_receive_queue (stream 0);
  retained = stream 0 ∷ [];
}

waiting-IsDelivering : IsDelivering stream waiting
waiting-IsDelivering =
    let stored =
      store-Received stream idle waiting.message_receive_queue (stream 0) idle-IsDelivering
        (omega arith) refl (omega arith) (unfold exists in refl)
        (put-sequence idle.message_receive_queue (stream 0) (omega arith)) in
    stored.delivering

run-deliver_example :
    (c' : ReliableOrderedChannel ℕ ℕ) × (run waiting (replicate 1 deliver)
      ≡ some (map stream (ids_from 0 1), c'))
    × IsDelivering stream c'
run-deliver_example = run-deliver stream waiting 1 waiting-IsDelivering refl (omega arith) (λ i hi.
    subst
      (λ n. find waiting.message_receive_queue ((0 + n) % 65536) ≡ some (stream ((0 + n) % 65536)))
      (the_first i hi) here)
  where
    here : find waiting.message_receive_queue 0 ≡ some (stream 0)
    here =
        find-appended idle.message_receive_queue (stream 0) 0 (empty_queue-IsValid (stream 0))
          (omega arith) (omega arith)
          (λ y e.
            (let p : none ≡ some y = sym (find-empty_queue (stream 0) 0 (omega arith)) ∙ e in cc))

    the_first : (i : ℕ) → i < 1 → 0 ≡ i
    the_first i hi = omega arith

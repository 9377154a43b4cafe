-- ===== src/UnreliableChannel/Tests.antt =====
-- A channel of numbered messages, each as many bits as its number, with a budget of 100 bytes.
use libyojimbo.Prelude.{
  ℕ, ◌+◌, ◌-◌, ◌*◌, ◌≤◌, ◌≡◌, refl, arith, false, some, List, [], ◌∷◌, ◌++◌, ◌==◌, ltb,
  if◌then◌else◌, length, map, take,
}
use libyojimbo.Config.{channel_type_unreliable_unordered}
use libyojimbo.Queue.{Queue}
use libyojimbo.Queue.Laws.{IsValid, contents}
use libyojimbo.UnreliableChannel.{
  UnreliableUnorderedChannel, channel_error_none, get_packet_data, process_packet_data,
}
use libyojimbo.UnreliableChannel.Life.{reset}
use libyojimbo.UnreliableChannel.Life.Laws.{IsReady, reset-releases}
use libyojimbo.UnreliableChannel.Laws.{total, get_packet_data_lem, process_packet_data_lem}

abbrev waiting : Queue ℕ
waiting = record {
  entries = 40 ∷ 900 ∷ 50 ∷ 0 ∷ [];
  array_size = 4;
  start_index = 0;
  num_entries = 3;
}

waiting-IsValid : IsValid waiting
waiting-IsValid = record { storage = refl; start_in = omega arith; count_in = omega arith }

abbrev channel : UnreliableUnorderedChannel ℕ
channel = record {
  config = record {
    type = channel_type_unreliable_unordered;
    disable_blocks = false;
    max_messages_per_packet = 8;
    packet_budget = 100;
    max_block_size = 0;
  };
  error = channel_error_none;
  send_queue = waiting;
  receive_queue = waiting;
  messages_sent = 3;
  messages_received = 0;
  released = [];
}

get_packet_data_lem_example :
    (used : ℕ) × (messages : List ℕ) × (c : UnreliableUnorderedChannel ℕ) × (get_packet_data
        (λ m. m)
        channel
        1000
      ≡ some (used, messages, c))
    × IsValid c.send_queue
    × (used ≡ (if length messages == 0 then 0 else 32 + total (λ m. m) messages))
    × (used ≤ 1000)
    × (used ≤ (if ltb 0 100 then 100 * 8 else 1000))
    × (length messages ≤ 8)
get_packet_data_lem_example = get_packet_data_lem 0 (λ m. m) channel 1000 waiting-IsValid

process_packet_data_lem_example :
    (c : UnreliableUnorderedChannel ℕ) × (process_packet_data
        (λ m s. m + s)
        channel
        false
        (1 ∷ 2 ∷ [])
        7
      ≡ some c)
    × IsValid c.receive_queue
    × (contents 0 c.receive_queue
        ≡ contents 0 waiting ++ take (4 - 3) (map (λ m. m + 7) (1 ∷ 2 ∷ [])))
process_packet_data_lem_example =
    process_packet_data_lem 0 (λ m s. m + s) channel (1 ∷ 2 ∷ []) 7 waiting-IsValid refl

reset-releases_example :
    (c : UnreliableUnorderedChannel ℕ) × (reset channel ≡ some c)
    × IsReady 0 c
    × (contents 0 c.send_queue ≡ [])
    × (contents 0 c.receive_queue ≡ [])
    × (c.send_queue.array_size ≡ 4)
    × (c.receive_queue.array_size ≡ 4)
    × (c.released ≡ [] ++ contents 0 waiting ++ contents 0 waiting)
    × (c.error ≡ channel_error_none)
    × (c.messages_sent ≡ 0)
    × (c.messages_received ≡ 0)
reset-releases_example =
    reset-releases 0 channel (record { sending = waiting-IsValid; receiving = waiting-IsValid })

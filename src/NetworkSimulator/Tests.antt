-- ===== src/NetworkSimulator/Tests.antt =====
-- Three packets between addresses that are numbers, with times in milliseconds.
use libyojimbo.Prelude.{
  ℕ, ◌+◌, ◌≡◌, refl, true, not, Option, none, some, List, [], ◌∷◌, ◌++◌, map, ltb, leb, ◌==◌,
  length, take, drop,
}
use libyojimbo.NetworkSimulator.{
  World, NetworkSimulator, PacketEntry, send_packet, packets, advance_time,
  receive_packets_sent_to_address,
}
use libyojimbo.NetworkSimulator.Laws.{
  filter, packets_held, received, advance_time_lem, receive_packets_sent_to_address_lem,
}

abbrev world : World ℕ ℕ ℕ
world = record {
  no_address = 0;
  is_valid = λ a. not (a == 0);
  same_address = ◌==◌;
  zero_float = 0;
  is_nonzero = λ x. not (x == 0);
  is_positive = λ x. ltb 0 x;
  at_most = leb;
  zero_time = 0;
  long_ago = 0;
  seconds = λ x. x;
  plus = ◌+◌;
  before = ltb;
  at_least = λ s t. leb t s;
}

abbrev entry : ℕ → ℕ → Option (List ℕ) → PacketEntry ℕ ℕ
entry to time data_ = record {
  from = 7;
  to = to;
  delivery_time = time;
  packet_data = data_;
  packet_size = 1;
}

abbrev simulator : NetworkSimulator ℕ ℕ ℕ
simulator = record {
  latency = 5;
  jitter = 0;
  packet_loss = 0;
  duplicate = 50;
  active = true;
  time = 10;
  current_index = 1;
  num_packet_entries = 4;
  packet_entries =
      entry 1 12 (some (11 ∷ []))
      ∷ entry 2 30 none
      ∷ entry 2 30 (some (22 ∷ []))
      ∷ entry 2 14 (some (33 ∷ []))
      ∷ [];
  pending_receive_packets =
      entry 2 8 (some (44 ∷ [])) ∷ entry 1 9 (some (55 ∷ [])) ∷ entry 2 9 (some (66 ∷ [])) ∷ [];
  last_pending_receive_time = 10;
  freed = [];
}

-- The entry of the duplicate held a packet, which is neither kept nor freed.
unfoldable after_duplicate : Option (List (List ℕ) × List (List ℕ))
unfolding send_packet packets
after_duplicate =
    elim (send_packet world simulator (record { loss = 90; jitter = 0; duplicate = 20; extra = 3 })
      7 1 (77 ∷ []) 1) [ none ↦ none | some s ↦ some (packets s.packet_entries, s.freed) ]

duplicate_overwrites :
    after_duplicate ≡ some ((11 ∷ []) ∷ (77 ∷ []) ∷ (77 ∷ []) ∷ (33 ∷ []) ∷ [], [])
unfolding after_duplicate
duplicate_overwrites = refl

advance_time_lem_example :
    (packets_held (advance_time world simulator 20).pending_receive_packets
      ≡ filter (λ p. ltb p.delivery_time 20) (packets_held simulator.packet_entries))
    × (packets_held (advance_time world simulator 20).packet_entries
        ≡ filter (λ p. not (ltb p.delivery_time 20)) (packets_held simulator.packet_entries))
    × (length (packets_held (advance_time world simulator 20).pending_receive_packets)
        ≡ length (advance_time world simulator 20).pending_receive_packets)
    × (length (advance_time world simulator 20).packet_entries ≡ 4)
    × ((advance_time world simulator 20).freed
        ≡ [] ++ map (λ p. p.data_) (packets_held simulator.pending_receive_packets))
advance_time_lem_example = advance_time_lem world simulator 20 refl

receive_packets_sent_to_address_lem_example :
    ((receive_packets_sent_to_address world simulator 2 2).0
      ≡ map received
          (filter (λ p. p.to == 2) (packets_held (take 2 simulator.pending_receive_packets))))
    × (packets_held (receive_packets_sent_to_address world simulator 2 2).1.pending_receive_packets
        ≡ filter (λ p. not (p.to == 2)) (packets_held (take 2 simulator.pending_receive_packets))
          ++ packets_held (drop 2 simulator.pending_receive_packets))
receive_packets_sent_to_address_lem_example =
    receive_packets_sent_to_address_lem world simulator 2 2

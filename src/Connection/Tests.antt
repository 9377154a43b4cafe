-- ===== src/Connection/Tests.antt =====
-- A connection with one channel that records the acks it hears of, and three packets in flight across
-- the wrap.
use libyojimbo.Prelude.{
  ℕ, ◌+◌, ◌-◌, ◌%◌, ◌≡◌, refl, arith, Bool, true, false, none, some, List, [], ◌∷◌, ◌++◌, ◌==◌,
  ◌&&◌, ltb, if◌then◌else◌, map,
}
use libyojimbo.Prelude.Bits.{digit}
use libyojimbo.Sequence.Order.{steps_ahead}
use libyojimbo.SequenceBuffer.{SequenceBuffer, free, find, exists, find_index, read, write}
use libyojimbo.SequenceBuffer.Removing.{IsValid, in_window}
use libyojimbo.Connection.{
  Connection, connection_error_none, packet_acked, process_acks, generate_ack_bits,
  insert_ack_packet_entry,
}
use libyojimbo.Connection.AckBits.{generate_ack_bits_lem}
use libyojimbo.Connection.Newly.{newly_acked, once, is_unacked}
use libyojimbo.Connection.Acks.{acks, all_acked, hears}
use libyojimbo.Connection.Laws.{
  times_acked, process_all, process_acks_lem, find-process_acks, process_all_once,
  process-generate_ack_bits,
}
use libyojimbo.Connection.Sending.{insert_ack_packet_entry_lem}

abbrev record_ack : List ℕ → ℕ → List ℕ
record_ack heard s = heard ++ (s ∷ [])

-- Packets 65534, 65535 and 0 sent, of which 65535 is acked.
abbrev sent : SequenceBuffer Bool
sent = record {
  size = 4;
  sequence = 1;
  entry_sequence = 0 ∷ free ∷ 65534 ∷ 65535 ∷ [];
  entries = false ∷ false ∷ false ∷ true ∷ [];
}

sent-IsValid : IsValid sent
sent-IsValid = grind arith

abbrev received : SequenceBuffer (Unit {0})
received = record {
  size = 4;
  sequence = 1;
  entry_sequence = 0 ∷ free ∷ 65534 ∷ free ∷ [];
  entries = tt ∷ tt ∷ tt ∷ tt ∷ [];
}

abbrev in_flight : Connection (List ℕ)
in_flight = record {
  error = connection_error_none;
  channels = [] ∷ [];
  sent_packets = sent;
  received_packets = received;
  packets_processed = 0;
  packets_stale = 0;
  packets_acked = 0;
  events = [];
}

-- Bits 0 and 2: packets 0 and 65534.
generated : generate_ack_bits received ≡ (0, 5)
unfolding generate_ack_bits exists
generated = refl

told : (process_acks record_ack in_flight 0 7).events ≡ packet_acked 0 ∷ packet_acked 65534 ∷ []
unfolding process_acks find_index read write
told = refl

generate_ack_bits_lem_example :
    ((generate_ack_bits received).0 + 1) % 65536 ≡ 1
    × (digit (generate_ack_bits received).1 2
        ≡ (if exists received (((generate_ack_bits received).0 + 65536 - 2) % 65536) then 1 else 0))
generate_ack_bits_lem_example = generate_ack_bits_lem received 2 (omega arith) (omega arith)

process_acks_lem_example :
    ((process_acks record_ack in_flight 0 7).events ≡ [] ++ map packet_acked (newly_acked sent 0 7))
    × ((process_acks record_ack in_flight 0 7).channels
        ≡ map (hears record_ack (newly_acked sent 0 7)) ([] ∷ []))
    × IsValid (process_acks record_ack in_flight 0 7).sent_packets
process_acks_lem_example = process_acks_lem record_ack in_flight 0 7 sent-IsValid

find-process_acks_example :
    find (process_acks record_ack in_flight 0 7).sent_packets 65534
    ≡ (if acks 0 7 65534 then all_acked (find sent 65534) else find sent 65534)
find-process_acks_example =
    find-process_acks record_ack in_flight 0 7 65534 sent-IsValid (omega arith) (omega arith)

process_all_once_example :
    times_acked 65534 (process_all record_ack in_flight ((0, 7) ∷ (65535, 3) ∷ [])).events
      + once (
          is_unacked
            (find (process_all record_ack in_flight ((0, 7) ∷ (65535, 3) ∷ [])).sent_packets 65534))
    ≡ 0 + once (is_unacked (find sent 65534))
process_all_once_example =
    process_all_once record_ack in_flight ((0, 7) ∷ (65535, 3) ∷ []) 65534 sent-IsValid
      (omega arith) (omega arith, (omega arith, tt))

process-generate_ack_bits_example :
    find
      (process_acks record_ack in_flight
        (generate_ack_bits received).0
        (generate_ack_bits received).1).sent_packets
      65534
    ≡ (if ltb (steps_ahead (generate_ack_bits received).0 65534) 32 && exists received 65534
        then all_acked (find sent 65534)
        else find sent 65534)
process-generate_ack_bits_example =
    process-generate_ack_bits record_ack received in_flight 65534 (omega arith) sent-IsValid
      (omega arith)

insert_ack_packet_entry_lem_example :
    (c : Connection (List ℕ)) × (insert_ack_packet_entry in_flight 1 ≡ some c)
    × IsValid c.sent_packets
    × (c.sent_packets.sequence ≡ 2)
    × (find c.sent_packets 65534 ≡ (
        if 65534 == 1
        then some false
        else if in_window c.sent_packets.size c.sent_packets.sequence 65534
        then find sent 65534
        else none))
insert_ack_packet_entry_lem_example =
    insert_ack_packet_entry_lem in_flight 65534 sent-IsValid (omega arith) (omega arith)

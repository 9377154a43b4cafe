-- ===== src/ReliableOrderedChannel/Fragments/Tests.antt =====
-- A block of five bytes in fragments of two, of which the second comes first.
use libyojimbo.Prelude.{
  ℕ, ◌/◌, ◌%◌, ◌<◌, ◌≡◌, refl, sym, ap, ◌∙◌, arith, true, false, none, some, List, [], ◌∷◌,
  replicate, get_or,
}
use libyojimbo.Prelude.Bits.{digit, digit-zero}
use libyojimbo.Config.{channel_type_reliable_ordered}
use libyojimbo.Message.{Message}
use libyojimbo.BitArray.{BitArray}
use libyojimbo.BitArray.Laws
use libyojimbo.BitArray.Laws.{get_bit_lem}
use libyojimbo.SequenceBuffer.{SequenceBuffer, free}
use libyojimbo.ReliableOrderedChannel.{
  ReliableOrderedChannel, ChannelConfig, ReceiveBlockData, BlockData, channel_error_none,
}
use libyojimbo.ReliableOrderedChannel.Fragments.{process_packet_fragment}
use libyojimbo.ReliableOrderedChannel.Fragments.Copy.{count-same}
use libyojimbo.ReliableOrderedChannel.Fragments.Partial.{is_set, has, IsPartial}
use libyojimbo.ReliableOrderedChannel.Fragments.Laws.{
  IsFragment, Reassembled, process_packet_fragment_lem,
}
use mathlib.Core.Bool.{true≢false}

abbrev config : ChannelConfig ℕ
config = record {
  type = channel_type_reliable_ordered;
  disable_blocks = false;
  sent_packet_buffer_size = 4;
  send_queue_size = 4;
  receive_queue_size = 4;
  max_messages_per_packet = 2;
  packet_budget = 100;
  max_block_size = 6;
  fragment_size = 2;
  message_resend_time = 5;
  fragment_resend_time = 5;
}

abbrev block_of_five : List ℕ
block_of_five = 10 ∷ 20 ∷ 30 ∷ 40 ∷ 50 ∷ []

abbrev carrier : Message ℕ
carrier = record { id = 0; type = 1; block_message = true; block_data = none; payload = 7 }

abbrev no_bits : BitArray
no_bits = record { size = 3; bytes = 8; data_ = 0 ∷ [] }

abbrev started : ReceiveBlockData ℕ
started = record {
  active = true;
  num_fragments = 3;
  num_received_fragments = 0;
  message_id = 0;
  message_type = 0;
  block_size = 0;
  received_fragment = no_bits;
  block_data = replicate 6 0;
  block_message = none;
}

abbrev receiving : ReliableOrderedChannel ℕ ℕ
receiving = record {
  config = config;
  channel_id = 0;
  error = channel_error_none;
  time = 10;
  send_message_id = 0;
  receive_message_id = 0;
  oldest_unacked_message_id = 0;
  sent_packets = record { size = 4; sequence = 0; entry_sequence = []; entries = [] };
  message_send_queue = record { size = 4; sequence = 0; entry_sequence = []; entries = [] };
  message_receive_queue = queue;
  send_block = none;
  receive_block = some started;
  messages_sent = 0;
  messages_received = 0;
  released = [];
  retained = [];
}
  where
    queue : SequenceBuffer (Message ℕ)
    queue = record {
      size = 4;
      sequence = 0;
      entry_sequence = replicate 4 free;
      entries = replicate 4 carrier;
    }

abbrev second : BlockData ℕ
second = record {
  block_message = none;
  fragment_data = some (30 ∷ 40 ∷ []);
  message_id = 0;
  fragment_id = 1;
  num_fragments = 3;
  message_type = 1;
}

bits-IsValid : Laws.IsValid no_bits
bits-IsValid = record { covers = omega arith }

nothing : (i : ℕ) → i < 3 → has no_bits i ≡ false
nothing i h =
    let word : i / 64 ≡ 0 = omega arith in
    ap is_set (get_bit_lem no_bits i bits-IsValid h)
    ∙ ap (λ w. is_set (some (digit (get_or (0 ∷ []) w 0) (i % 64)))) word
    ∙ ap (λ d. is_set (some d)) (digit-zero (i % 64))

started-IsPartial : IsPartial 2 3 block_of_five carrier started
started-IsPartial = record {
  bits = bits-IsValid;
  covers = omega arith;
  number = refl;
  counted = sym (count-same 3 (λ i. false) (has no_bits) nothing);
  room = omega arith;
  agrees = λ i j hi set above below inside. absurd (true≢false (sym set ∙ nothing i hi));
  first = λ set. absurd (true≢false (sym set ∙ nothing 0 (omega arith)));
  last = λ set. absurd (true≢false (sym set ∙ nothing 2 (omega arith)));
}

second-IsFragment : IsFragment 2 block_of_five carrier second
second-IsFragment = record {
  cut = record {
    size_pos = omega arith;
    some_fragments = omega arith;
    more = omega arith;
    enough = omega arith;
  };
  inside = omega arith;
  told = refl;
}

process_packet_fragment_lem_example :
    (c' : ReliableOrderedChannel ℕ ℕ) × (process_packet_fragment receiving second ≡ some c')
    × Reassembled 2 block_of_five carrier second receiving c'
process_packet_fragment_lem_example =
    process_packet_fragment_lem receiving started block_of_five carrier second refl refl refl
      second-IsFragment refl started-IsPartial (omega arith) (omega arith) refl (grind arith)
      (omega arith) refl

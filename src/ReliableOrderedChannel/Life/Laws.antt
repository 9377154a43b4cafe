-- ===== src/ReliableOrderedChannel/Life/Laws.antt =====
-- What `Reset` releases, and the state that it leaves.
use libyojimbo.Prelude.{
  ℕ, suc, ◌+◌, ◌≤◌, ◌<◌, ◌≡◌, inl, inr, Bool-cases, refl, sym, ◌∙◌, arith, false, not, get_or,
  Option, none, some, List, [], ◌∷◌, ◌++◌, map, length, get_elem?, ap, ◌==◌, lt→ltb, if◌then◌else◌,
}
use libyojimbo.Message.{Message}
use libyojimbo.BitArray.{BitArray}
use libyojimbo.SequenceBuffer.{SequenceBuffer, free, get_at_index, read, find}
use libyojimbo.SequenceBuffer
use libyojimbo.SequenceBuffer.Removing.{IsValid}
use libyojimbo.SequenceBuffer.Lifecycle.{reset-IsValid}
use libyojimbo.ReliableOrderedChannel.{
  ReliableOrderedChannel, Clock, MessageSendQueueEntry, SendBlockData, ReceiveBlockData,
  channel_error_none, message_list,
}
use libyojimbo.ReliableOrderedChannel.SendQueue.Laws.{IsSending}
use libyojimbo.ReliableOrderedChannel.ReceiveQueue.Laws.{IsReceiving}
use libyojimbo.ReliableOrderedChannel.ReceiveQueue.Messages.{IsDelivering}
use libyojimbo.ReliableOrderedChannel.Life.{
  held, reset, map_block, reset_send_block, reset_receive_block, block_messages,
}

-- The values of the entries that exist, in the order of the array.
abbrev pub existing : {A : Type 0} → List ℕ → List A → List A
existing [] es = []
existing (s ∷ ss) [] = []
existing (s ∷ ss) (e ∷ es) = if s == free then existing ss es else e ∷ existing ss es

module _ {A P : Type 0} (message : A → Message P) where
  held_lem :
      (ss : List ℕ) (es : List A) (i : ℕ) (b : SequenceBuffer A)
      → length ss + i ≤ b.size
      → length ss ≡ length es
      → ((k : ℕ) → get_or b.entry_sequence (k + i) free ≡ get_or ss k free)
      → ((k : ℕ) → read b (k + i) ≡ get_elem? es k)
      → held message (length ss) i b ≡ some (map message (existing ss es))
  unfolding held
  held_lem [] es i b h same at values = refl
  held_lem (s ∷ ss) [] i b h same at values = absurd (omega arith)
  held_lem (s ∷ ss) (e ∷ es) i b h same at values =
      let index_of : get_at_index b i ≡ some (if not (s == free) then some i else none) =
        unfold get_at_index in
        (rw
          (lt→ltb i b.size (omega arith), ap (λ k. get_or b.entry_sequence k free) zero_more ∙ at 0)
          refl) in
      let here : read b i ≡ some e = ap (read b) zero_more ∙ values 0 in
      let rest =
        held_lem ss es (i + 1) b (omega arith) (omega arith)
          (λ k. ap (λ n. get_or b.entry_sequence n free) (one_more k) ∙ at (suc k))
          (λ k. ap (read b) (one_more k) ∙ values (suc k)) in
      elim (Bool-cases (s == free)) [
        | inl gone ↦ rw (index_of, rest, gone) refl
        | inr there ↦ rw (index_of, rest, there, here) refl
      ]
    where
      zero_more : i ≡ 0 + i
      zero_more = omega arith

      one_more : (k : ℕ) → k + (i + 1) ≡ suc k + i
      one_more k = omega arith

  held-existing :
      (b : SequenceBuffer A)
      → length b.entry_sequence ≡ b.size
      → length b.entries ≡ b.size
      → held message b.size 0 b ≡ some (map message (existing b.entry_sequence b.entries))
  held-existing b sequences values =
      ap (λ n. held message n 0 b) (sym sequences)
      ∙ held_lem b.entry_sequence b.entries 0 b (omega (arith, sequences)) (sequences ∙ sym values)
          (λ k. ap (λ n. get_or b.entry_sequence n free) (no_more k))
          (λ k. unfold read in ap (get_elem? b.entries) (no_more k))
    where
      no_more : (k : ℕ) → k + 0 ≡ k
      no_more k = omega arith

-- A send block, if there is one, that is not being sent, with nothing of a block before.
abbrev pub IsIdleSend : {T : Type 0} → Option (SendBlockData T) → Type 0
IsIdleSend none = Unit {0}
IsIdleSend (some block) =
    (block.active ≡ false)
    × (block.num_fragments ≡ 0)
    × (block.num_acked_fragments ≡ 0)
    × (block.block_message_id ≡ 0)
    × (block.block_size ≡ 0)

-- A receive block, if there is one, that is not being received, with nothing of a block before.
abbrev pub IsIdleReceive : {P : Type 0} → Option (ReceiveBlockData P) → Type 0
IsIdleReceive none = Unit {0}
IsIdleReceive (some block) =
    (block.active ≡ false)
    × (block.num_fragments ≡ 0)
    × (block.num_received_fragments ≡ 0)
    × (block.message_id ≡ 0)
    × (block.message_type ≡ 0)
    × (block.block_size ≡ 0)
    × (block.block_message ≡ none)

-- The message of a block that is partly received.
abbrev pub block_message_of : {P : Type 0} → Option (ReceiveBlockData P) → List (Message P)
block_message_of none = []
block_message_of (some block) = message_list block.block_message

-- The arrays of a send block and of a receive block, if there is one.
abbrev pub send_arrays : {T : Type 0} → Option (SendBlockData T) → Option (BitArray × List T)
send_arrays none = none
send_arrays (some block) = some (block.acked_fragment, block.fragment_send_time)

abbrev pub receive_arrays : {P : Type 0} → Option (ReceiveBlockData P) → Option (BitArray × List ℕ)
receive_arrays none = none
receive_arrays (some block) = some (block.received_fragment, block.block_data)

send_arrays-reset :
    {T : Type 0} (block : Option (SendBlockData T))
    → send_arrays (map_block reset_send_block block) ≡ send_arrays block
unfolding map_block reset_send_block
send_arrays-reset none = refl
send_arrays-reset (some block) = refl

receive_arrays-reset :
    {P : Type 0} (block : Option (ReceiveBlockData P))
    → receive_arrays (map_block reset_receive_block block) ≡ receive_arrays block
unfolding map_block reset_receive_block
receive_arrays-reset none = refl
receive_arrays-reset (some block) = refl

reset-IsIdleSend :
    {T : Type 0} (block : Option (SendBlockData T)) → IsIdleSend (map_block reset_send_block block)
unfolding map_block reset_send_block
reset-IsIdleSend none = tt
reset-IsIdleSend (some block) = (refl, refl, refl, refl, refl)

reset-IsIdleReceive :
    {P : Type 0} (block : Option (ReceiveBlockData P))
    → IsIdleReceive (map_block reset_receive_block block)
unfolding map_block reset_receive_block
reset-IsIdleReceive none = tt
reset-IsIdleReceive (some block) = (refl, refl, refl, refl, refl, refl, refl)

block_messages_lem :
    {P : Type 0} (block : Option (ReceiveBlockData P))
    → block_messages block ≡ block_message_of block
unfolding block_messages
block_messages_lem none = refl
block_messages_lem (some block) = refl

module _ {P T : Type 0} where
  pub empty-IsSending :
      (queue : SequenceBuffer (MessageSendQueueEntry P T))
      → IsValid queue
      → 2 ≤ queue.size
      → queue.size ≤ 16384
      → ((t : ℕ) → t < 65536 → find queue t ≡ none)
      → IsSending queue queue.sequence
  empty-IsSending queue v two small empty = record {
    valid = v;
    several = two;
    small = small;
    oldest_fits = v.top_fits;
    behind = omega (arith, v.top_fits);
    held = inl refl;
    between = λ t e ht found. (let p : none ≡ some e = sym (empty t ht) ∙ found in cc);
  }

module _ {P : Type 0} where
  pub empty-IsReceiving :
      (queue : SequenceBuffer (Message P))
      → IsValid queue
      → 2 ≤ queue.size
      → queue.size ≤ 16384
      → ((t : ℕ) → t < 65536 → find queue t ≡ none)
      → IsReceiving queue queue.sequence
  empty-IsReceiving queue v two small empty = record {
    valid = v;
    several = two;
    small = small;
    next_fits = v.top_fits;
    top_ahead = omega (arith, v.top_fits);
    early = λ t m ht found. (let p : none ≡ some m = sym (empty t ht) ∙ found in cc);
  }

-- The messages of the entries that exist in the send queue.
abbrev pub messages_to_send : {P T : Type 0} → ReliableOrderedChannel P T → List (Message P)
messages_to_send c =
    map (λ e. e.message) (existing c.message_send_queue.entry_sequence c.message_send_queue.entries)

-- The messages of the entries that exist in the receive queue.
abbrev pub messages_to_receive : {P T : Type 0} → ReliableOrderedChannel P T → List (Message P)
messages_to_receive c =
    existing c.message_receive_queue.entry_sequence c.message_receive_queue.entries

map_same : {A : Type 0} (xs : List A) → map (λ x. x) xs ≡ xs
map_same [] = refl
map_same (x ∷ xs) = ap (λ ys. x ∷ ys) (map_same xs)

module _ {P T : Type 0} (stream : ℕ → Message P) where
  -- What `Reset` leaves: no error, ids, counters and time at their start, the queues and the blocks
  -- empty and of the same sizes, in order to send, and to receive any stream, and all that was held
  -- released.
  pub record IsReset (clock : Clock T) (c c' : ReliableOrderedChannel P T) : Type 0 where
    pub error : c'.error ≡ channel_error_none
    pub time : c'.time ≡ clock.start
    pub send_next : c'.send_message_id ≡ 0
    pub receive_next : c'.receive_message_id ≡ 0
    pub sent : c'.messages_sent ≡ 0
    pub received : c'.messages_received ≡ 0
    pub same_config : c'.config ≡ c.config
    pub same_channel : c'.channel_id ≡ c.channel_id
    pub sending : IsSending c'.message_send_queue c'.oldest_unacked_message_id
    pub top : c'.send_message_id ≡ c'.message_send_queue.sequence
    pub delivering : IsDelivering stream c'
    pub packets : IsValid c'.sent_packets
    pub send_size : c'.message_send_queue.size ≡ c.message_send_queue.size
    pub receive_size : c'.message_receive_queue.size ≡ c.message_receive_queue.size
    pub packets_size : c'.sent_packets.size ≡ c.sent_packets.size
    pub send_block_kept : send_arrays c'.send_block ≡ send_arrays c.send_block
    pub receive_block_kept : receive_arrays c'.receive_block ≡ receive_arrays c.receive_block
    pub no_send_block : IsIdleSend c'.send_block
    pub no_receive_block : IsIdleReceive c'.receive_block
    pub released :
        c'.released
        ≡ c.released
          ++ messages_to_send c
          ++ messages_to_receive c
          ++ block_message_of c.receive_block
    pub retained : c'.retained ≡ c.retained

  -- On a channel with a valid buffer of sent packets, and with valid queues of 2 to 16384 entries, the
  -- receive queue of the configured size, `Reset` fails no assertion. It releases every message that the
  -- channel holds, once: those of the send queue, those of the receive queue, and that of a block that is
  -- partly received. After it the channel has no error, its ids, counters and time are at their start, its
  -- buffers have their sizes and their arrays for blocks are as before, no block is being sent or
  -- received, no sent packet and no message to send is found under a 16-bit number,
  -- and the channel is in order to send, and to receive any stream.
  pub reset_lem :
      (clock : Clock T) (c : ReliableOrderedChannel P T) (t : ℕ)
      → t < 65536
      → IsValid c.sent_packets
      → IsValid c.message_send_queue
      → 2 ≤ c.message_send_queue.size
      → c.message_send_queue.size ≤ 16384
      → IsValid c.message_receive_queue
      → 2 ≤ c.message_receive_queue.size
      → c.message_receive_queue.size ≤ 16384
      → c.config.receive_queue_size ≡ c.message_receive_queue.size
      → (c' : ReliableOrderedChannel P T) × (reset clock c ≡ some c')
        × IsReset clock c c'
        × (find c'.message_send_queue t ≡ none)
        × (find c'.sent_packets t ≡ none)
  unfolding reset SequenceBuffer.reset
  reset_lem clock c t ht vp vs two_s small_s vr two_r small_r sized =
      let sending =
        held-existing (λ (x : MessageSendQueueEntry P T). x.message) c.message_send_queue
          vs.sequences vs.values in
      let receiving =
        held-existing (λ (x : Message P). x) c.message_receive_queue vr.sequences vr.values
        ∙ ap some (map_same (messages_to_receive c)) in
      let (valid_p, none_p) =
        reset-IsValid c.sent_packets vp.size_pos vp.size_le vp.divides vp.values in
      let (valid_s, none_s) =
        reset-IsValid c.message_send_queue vs.size_pos vs.size_le vs.divides vs.values in
      let (valid_r, none_r) =
        reset-IsValid c.message_receive_queue vr.size_pos vr.size_le vr.divides vr.values in
      (
        record c {
          error = channel_error_none;
          time = clock.start;
          send_message_id = 0;
          receive_message_id = 0;
          oldest_unacked_message_id = 0;
          sent_packets = SequenceBuffer.reset c.sent_packets;
          message_send_queue = SequenceBuffer.reset c.message_send_queue;
          message_receive_queue = SequenceBuffer.reset c.message_receive_queue;
          send_block = map_block reset_send_block c.send_block;
          receive_block = map_block reset_receive_block c.receive_block;
          messages_sent = 0;
          messages_received = 0;
          released =
              c.released
              ++ messages_to_send c
              ++ messages_to_receive c
              ++ block_message_of c.receive_block;
        },
        rw (sending, receiving, block_messages_lem c.receive_block) refl,
        record {
          error = refl;
          time = refl;
          send_next = refl;
          receive_next = refl;
          sent = refl;
          received = refl;
          same_config = refl;
          same_channel = refl;
          sending =
              empty-IsSending (SequenceBuffer.reset c.message_send_queue) valid_s two_s small_s
                none_s;
          top = refl;
          delivering = record {
            receiving =
                empty-IsReceiving (SequenceBuffer.reset c.message_receive_queue) valid_r two_r
                  small_r none_r;
            sized = sized;
            from = λ u m hu found. (let p : none ≡ some m = sym (none_r u hu) ∙ found in cc);
          };
          packets = valid_p;
          send_size = refl;
          receive_size = refl;
          packets_size = refl;
          send_block_kept = send_arrays-reset c.send_block;
          receive_block_kept = receive_arrays-reset c.receive_block;
          no_send_block = reset-IsIdleSend c.send_block;
          no_receive_block = reset-IsIdleReceive c.receive_block;
          released = refl;
          retained = refl;
        },
        none_s t ht,
        none_p t ht,
      )

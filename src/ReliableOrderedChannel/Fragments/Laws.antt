-- ===== src/ReliableOrderedChannel/Fragments/Laws.antt =====
-- What a fragment of a block, received before or not, does to the block that is being received.
use libyojimbo.Prelude.{
  ℕ, ◌+◌, ◌-◌, ◌*◌, ◌≤◌, ◌<◌, ◌≡◌, ◌⊎◌, inl, inr, refl, sym, ap, ◌∙◌, arith, true, false, not, ◌||◌,
  Option, none, some, List, ◌++◌, leb, ◌==◌, ==_iff, le→leb, lt→ltb, Bool-cases, ◌>>=◌, ◌>>◌,
  assert, if◌then◌else◌, take, length,
}
use libyojimbo.Message.{Message, attach_block, set_id}
use libyojimbo.BitArray.{get_bit}
use libyojimbo.BitArray.Laws.{set_bit_all}
use libyojimbo.BitArray.Laws
use libyojimbo.SequenceBuffer.{find, put}
use libyojimbo.SequenceBuffer.Removing.{IsValid}
use libyojimbo.SequenceBuffer.Laws.{find-put}
use libyojimbo.SequenceBuffer.Appending.{appended, put-sequence}
use libyojimbo.ReliableOrderedChannel.{
  ReliableOrderedChannel, ChannelConfig, ReceiveBlockData, BlockData, message_list,
}
use libyojimbo.ReliableOrderedChannel.Fragments.{
  copy_at, start_receiving, store_fragment, finish_block, receive_fragment, fragment_bytes,
  process_packet_fragment,
}
use libyojimbo.ReliableOrderedChannel.Fragments.Copy.{copied, fragment_of, count-le}
use libyojimbo.ReliableOrderedChannel.Fragments.Partial.{
  is_set, has, IsCut, IsPartial, complete, last_ends, fits, store-IsPartial,
}

-- A fragment of a block as it is sent: the message comes with the first one.
pub record IsFragment {P : Type 0} (size : ℕ) (bytes : List ℕ) (message : Message P)
    (fragment : BlockData P) : Type 0 where
  pub cut : IsCut size fragment.num_fragments bytes
  pub inside : fragment.fragment_id < fragment.num_fragments
  pub told : fragment.block_message ≡ (if fragment.fragment_id == 0 then some message else none)

-- The message with the block attached, as it is put in the receive queue.
abbrev pub whole_message : {P : Type 0} → Message P → ℕ → List ℕ → Message P
whole_message message id bytes = set_id (record message { block_data = some bytes }) id

module _ {P T : Type 0} (config : ChannelConfig T) (block : ReceiveBlockData P) (bytes : List ℕ)
    (message : Message P) (fragment : BlockData P)
    (f : IsFragment config.fragment_size bytes message fragment)
    (v : IsPartial config.fragment_size fragment.num_fragments bytes message block) where
  abbrev data_of : List ℕ
  data_of = fragment_of config.fragment_size bytes fragment.fragment_id

  abbrev size_after : ℕ
  size_after =
      if fragment.fragment_id + 1 == block.num_fragments
      then (block.num_fragments - 1) * config.fragment_size + length data_of
      else block.block_size

  size_after-fits :
      length bytes ≤ config.max_block_size
      → (not (fragment.fragment_id + 1 == block.num_fragments)
          || leb size_after config.max_block_size)
        ≡ true
  size_after-fits most = elim (Bool-cases (fragment.fragment_id + 1 == block.num_fragments)) [
    | inr other ↦ rw other refl
    | inl last ↦
        let n = fragment.num_fragments in
        let at : fragment.fragment_id ≡ n - 1 = omega (arith, (==_iff _ _).0 last, v.number) in
        let ends : (block.num_fragments - 1) * config.fragment_size + length data_of
            ≡ length bytes =
          ap (λ k. (k - 1) * config.fragment_size + length data_of) v.number
          ∙ ap
              (λ k.
                (n - 1) * config.fragment_size + length (fragment_of config.fragment_size bytes k))
              at
          ∙ last_ends config.fragment_size n bytes message f.cut in
        rw last (le→leb _ _ (omega (arith, ends, most)))
  ]

  message_after :
      (if fragment.fragment_id == 0
        then (fragment.block_message >>= λ m. some (some m))
        else some block.block_message)
      ≡ some (if fragment.fragment_id == 0 then some message else block.block_message)
  message_after = elim (Bool-cases (fragment.fragment_id == 0)) [
    | inl first ↦
        let with_it : fragment.block_message ≡ some message = f.told ∙ rw first refl in
        rw (first, with_it) refl
    | inr later ↦ rw later refl
  ]

  store_fragment_lem :
      has block.received_fragment fragment.fragment_id ≡ false
      → length bytes ≤ config.max_block_size
      → (block' : ReceiveBlockData P) × (store_fragment config block fragment data_of ≡ some block')
        × IsPartial config.fragment_size fragment.num_fragments bytes message block'
        × (has block'.received_fragment fragment.fragment_id ≡ true)
        × (block'.active ≡ block.active)
  unfolding store_fragment copy_at
  store_fragment_lem fresh most =
      let i = fragment.fragment_id in
      let size = config.fragment_size in
      let n = fragment.num_fragments in
      let (bits, set_to, valid, same_size, at) =
        set_bit_all block.received_fragment i v.bits (omega (arith, v.covers, f.inside)) in
      let own : has bits i ≡ true =
        ap is_set (at i (omega (arith, v.covers, f.inside)))
        ∙ ap (λ p. is_set (if p then some 1 else get_bit block.received_fragment i))
            ((==_iff i i).1 refl) in
      (
        record block {
          received_fragment = bits;
          block_data = copied block.block_data (i * size) data_of;
          message_type = if i == 0 then fragment.message_type else block.message_type;
          block_size = size_after;
          num_received_fragments = block.num_received_fragments + 1;
          block_message = if i == 0 then some message else block.block_message;
        },
        rw
            (
              set_to,
              le→leb _ _ (fits size n bytes message f.cut block v i f.inside),
              size_after-fits most,
              message_after,
            )
            refl,
        store-IsPartial size n bytes message f.cut block v i f.inside bits
            (if i == 0 then fragment.message_type else block.message_type) size_after
            (if i == 0 then some message else block.block_message) fresh valid same_size at refl
            refl,
        own,
        refl,
      )

-- How a channel is left by a fragment: the block still lacks fragments, or it is whole, no block is being
-- received and its message is in the receive queue.
abbrev pub Reassembled :
    {P T : Type 0}
    → ℕ
    → List ℕ
    → Message P
    → BlockData P
    → ReliableOrderedChannel P T
    → ReliableOrderedChannel P T
    → Type 0
Reassembled {P} {T} size bytes message fragment c c' =
    ((block : ReceiveBlockData P) × (c'.receive_block ≡ some block)
      × IsPartial size fragment.num_fragments bytes message block
      × (block.active ≡ true)
      × (block.num_received_fragments < fragment.num_fragments)
      × (has block.received_fragment fragment.fragment_id ≡ true)
      × (c'.message_receive_queue ≡ c.message_receive_queue))
    ⊎ ((block : ReceiveBlockData P) × (c'.receive_block ≡ some block)
        × (block.active ≡ false)
        × (block.block_message ≡ none)
        × (find c'.message_receive_queue fragment.message_id
            ≡ some (whole_message message fragment.message_id bytes)))

start_receiving-active :
    {P T : Type 0} (config : ChannelConfig T) (block : ReceiveBlockData P) (fragment : BlockData P)
    → block.active ≡ true
    → start_receiving config block fragment ≡ some block
unfolding start_receiving
start_receiving-active config block fragment active = simp active refl

module _ {P T : Type 0} where
  finish_block_lem :
      (c : ReliableOrderedChannel P T) (block : ReceiveBlockData P) (bytes : List ℕ)
      (message : Message P) (id : ℕ)
      → take block.block_size block.block_data ≡ bytes
      → block.block_message ≡ some message
      → message.block_data ≡ none
      → 0 < length bytes
      → IsValid c.message_receive_queue
      → 2 ≤ c.message_receive_queue.size
      → id ≡ c.message_receive_queue.sequence
      → (c' : ReliableOrderedChannel P T) × (finish_block c block id ≡ some c')
        × (c'.receive_block ≡ some (record block { active = false; block_message = none }))
        × (find c'.message_receive_queue id ≡ some (whole_message message id bytes))
  unfolding finish_block attach_block
  finish_block_lem c block bytes message id copied_all told bare long v two at =
      let x = whole_message message id bytes in
      let queue = c.message_receive_queue in
      let done : put queue id x ≡ some (appended queue x) =
        ap (λ k. put queue k x) at ∙ put-sequence queue x v.top_fits in
      let fits : id < 65536 = omega (arith, at, v.top_fits) in
      (
        record c {
          message_receive_queue = appended queue x;
          receive_block = some (record block { active = false; block_message = none });
        },
        rw (told, copied_all, lt→ltb 0 (length bytes) long, bare, done) refl,
        refl,
        find-put queue (appended queue x) id id x v two fits fits done
            ∙ rw ((==_iff id id).1 refl) refl,
      )

  receive_fragment_lem :
      (c : ReliableOrderedChannel P T) (block : ReceiveBlockData P) (bytes : List ℕ)
      (message : Message P) (fragment : BlockData P)
      → IsFragment c.config.fragment_size bytes message fragment
      → IsPartial c.config.fragment_size fragment.num_fragments bytes message block
      → block.active ≡ true
      → block.num_received_fragments < fragment.num_fragments
      → length bytes ≤ c.config.max_block_size
      → message.block_data ≡ none
      → IsValid c.message_receive_queue
      → 2 ≤ c.message_receive_queue.size
      → fragment.message_id ≡ c.message_receive_queue.sequence
      → (c' : ReliableOrderedChannel P T) × (receive_fragment c block fragment
            (fragment_of c.config.fragment_size bytes fragment.fragment_id)
          ≡ some c')
        × Reassembled c.config.fragment_size bytes message fragment c c'
  unfolding receive_fragment
  receive_fragment_lem c block bytes message fragment f v active lacks most bare vq two at =
      let n = fragment.num_fragments in
      let i = fragment.fragment_id in
      let inside : leb block.num_fragments i ≡ false = ground (arith, f.inside, v.number) in
      let agree : (n == block.num_fragments) ≡ true = (==_iff _ _).1 (sym v.number) in
      let (bit, read) = bit_of in
      elim (Bool-cases (bit == 0)) [
        | inr known ↦
            let set : has block.received_fragment i ≡ true = ap is_set read ∙ rw known refl in
            (
              record c { receive_block = some block },
              rw (inside, agree, read, known) refl,
              inl (block, refl, v, active, lacks, set, refl),
            )
        | inl unset ↦
            let fresh : has block.received_fragment i ≡ false = ap is_set read ∙ rw unset refl in
            let (block', stored, v', set, still) =
              store_fragment_lem c.config block bytes message fragment f v fresh most in
            let c1 : ReliableOrderedChannel P T = record c {
              receive_block = some block';
              retained =
                  if i == 0 then c.retained ++ message_list block'.block_message else c.retained;
            } in
            elim (Bool-cases (block'.num_received_fragments == block'.num_fragments)) [
              | inr partial ↦ (
                c1,
                rw (inside, agree, read, unset, stored, partial) refl,
                inl (block', refl, v', still ∙ active, still_lacks block' v' partial, set, refl),
              )
              | inl all ↦
                  let (copied_all, told) =
                    complete c.config.fragment_size n bytes message f.cut block' v'
                      ((==_iff _ _).0 all) in
                  let (c', done, idle, found) =
                    finish_block_lem c1 block' bytes message fragment.message_id copied_all told
                      bare (omega (arith, f.cut.more)) vq two at in
                  (
                    c',
                    rw (inside, agree, read, unset, stored, all) done,
                    inr (_, idle, refl, refl, found),
                  )
            ]
      ]
    where
      still_lacks :
          (block' : ReceiveBlockData P)
          → IsPartial c.config.fragment_size fragment.num_fragments bytes message block'
          → (block'.num_received_fragments == block'.num_fragments) ≡ false
          → block'.num_received_fragments < fragment.num_fragments
      still_lacks block' v' partial = ground (
        arith,
        v'.counted,
        v'.number,
        count-le fragment.num_fragments (has block'.received_fragment),
      )

      bit_of : (bit : ℕ) × (get_bit block.received_fragment fragment.fragment_id ≡ some bit)
      bit_of = (
        Laws.bit_at block.received_fragment fragment.fragment_id,
        Laws.get_bit_lem block.received_fragment fragment.fragment_id v.bits
            (omega (arith, v.covers, f.inside)),
      )

  -- Take a channel that has blocks, is receiving a block of `bytes` for a message without a block, lacks at
  -- least one of its fragments and has what has come in its place; the block is not too large, the receive
  -- queue is valid with at least two entries, and its next id is the block's. `ProcessPacketFragment` of any
  -- fragment of the block, received before or not, fails no assertion. Afterwards either the fragment is
  -- received, what has come is in its place, the block still lacks a fragment and is being received, and the
  -- receive queue is as before; or the message with the whole block is found under its id in the receive
  -- queue, and no block is being received.
  pub process_packet_fragment_lem :
      (c : ReliableOrderedChannel P T) (block : ReceiveBlockData P) (bytes : List ℕ)
      (message : Message P) (fragment : BlockData P)
      → c.config.disable_blocks ≡ false
      → c.receive_block ≡ some block
      → block.active ≡ true
      → IsFragment c.config.fragment_size bytes message fragment
      → fragment.fragment_data
        ≡ some (fragment_of c.config.fragment_size bytes fragment.fragment_id)
      → IsPartial c.config.fragment_size fragment.num_fragments bytes message block
      → block.num_received_fragments < fragment.num_fragments
      → length bytes ≤ c.config.max_block_size
      → message.block_data ≡ none
      → IsValid c.message_receive_queue
      → 2 ≤ c.message_receive_queue.size
      → fragment.message_id ≡ c.message_receive_queue.sequence
      → (c' : ReliableOrderedChannel P T) × (process_packet_fragment c fragment ≡ some c')
        × Reassembled c.config.fragment_size bytes message fragment c c'
  unfolding process_packet_fragment fragment_bytes
  process_packet_fragment_lem c block bytes message fragment enabled here active f sent v lacks most
        bare vq two at =
      let (c', done, r) =
        receive_fragment_lem c block bytes message fragment f v active lacks most bare vq two at in
      let expected : (fragment.message_id == c.message_receive_queue.sequence) ≡ true =
        (==_iff _ _).1 at in
      let next = λ (idle : Option (ReceiveBlockData P)). idle >>= λ b.
      start_receiving c.config b fragment >>= λ b'. receive_fragment c b' fragment piece in
      (
        c',
        ap (λ p. assert (not p) >> fragment_bytes c fragment fragment.fragment_data) enabled
            ∙ ap (fragment_bytes c fragment) sent
            ∙ ap (λ p. if not p then some c else next c.receive_block) expected
            ∙ ap next here
            ∙ ap (λ b. b >>= λ b'. receive_fragment c b' fragment piece)
                (start_receiving-active c.config block fragment active)
            ∙ done,
        r,
      )
    where
      piece : List ℕ
      piece = fragment_of c.config.fragment_size bytes fragment.fragment_id

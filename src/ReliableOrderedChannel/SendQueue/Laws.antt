-- ===== src/ReliableOrderedChannel/SendQueue/Laws.antt =====
-- What the send queue holds: the messages that were sent and are not acked, each under its id.
use libyojimbo.Prelude.{
  ℕ, ◌+◌, ◌%◌, ◌^◌, ◌≤◌, ◌<◌, ◌≡◌, ◌⊎◌, inl, inr, refl, sym, ap, ◌∙◌, arith, Bool, true, false, not,
  ◌&&◌, ◌||◌, some, ltb, leb, ◌==◌, ==_iff, if◌then◌else◌,
}
use libyojimbo.Message.{Message, set_id, get_block_size}
use libyojimbo.Sequence.Order.{steps_ahead}
use libyojimbo.SequenceBuffer.{SequenceBuffer, find, available, put}
use libyojimbo.SequenceBuffer.Removing.{IsValid}
use libyojimbo.SequenceBuffer.Laws.{put-IsValid}
use libyojimbo.SequenceBuffer.Appending.{
  appended, put-sequence, available-behind, find-appended, find-exists,
}
use libyojimbo.ReliableOrderedChannel.{
  ReliableOrderedChannel, Clock, MessageSendQueueEntry, is_error,
}
use libyojimbo.ReliableOrderedChannel.SendQueue.{can_send_msg, send_msg}
use native.Mathlib.Decide.{ℕ_discrete}

-- A queue between an oldest id and the next id to send, the top of the queue: ids that are found lie
-- between the two, and the oldest one is found, unless there is none to send.
pub record IsSending {P T : Type 0} (queue : SequenceBuffer (MessageSendQueueEntry P T))
    (oldest : ℕ) : Type 0 where
  pub valid : IsValid queue
  pub several : 2 ≤ queue.size
  pub small : queue.size ≤ 16384
  pub oldest_fits : oldest < 65536
  pub behind : steps_ahead queue.sequence oldest ≤ queue.size
  pub held :
      (oldest ≡ queue.sequence) ⊎ ((e : MessageSendQueueEntry P T) × (find queue oldest ≡ some e))
  pub between :
      (t : ℕ) (e : MessageSendQueueEntry P T)
      → t < 65536
      → find queue t ≡ some e
      → (0 < steps_ahead queue.sequence t)
        × (steps_ahead queue.sequence t ≤ steps_ahead queue.sequence oldest)
        × (e.message.id ≡ t)

three_tests :
    (block disabled sized fits : Bool)
    → (not block || (not disabled && sized && fits)) ≡ true
    → (not (block && disabled) ≡ true)
      × ((not block || sized) ≡ true)
      × ((not block || fits) ≡ true)
three_tests block disabled sized fits h = (ground arith, ground arith, ground arith)

module _ {P T : Type 0} where
  -- A queue with room has fewer ids between the two than entries.
  pub room :
      (queue : SequenceBuffer (MessageSendQueueEntry P T)) (oldest : ℕ)
      → IsSending queue oldest
      → available queue queue.sequence ≡ true
      → steps_ahead queue.sequence oldest < queue.size
  room queue oldest v free = elim v.held [
    | inl e ↦ omega (arith, e, v.several, v.valid.top_fits)
    | inr (entry, e) ↦
        let full =
          available-behind queue oldest v.valid v.oldest_fits (find-exists queue oldest entry e)
            free in
        omega (arith, v.behind, full)
  ]

  -- The entry of a message that `SendMsg` stores.
  abbrev pub entry_of : Clock T → (Message P → ℕ) → Message P → ℕ → MessageSendQueueEntry P T
  entry_of clock bits message id = record {
    message = set_id message id;
    time_last_sent = clock.never;
    measured_bits = bits (set_id message id) % 2 ^ 31;
    block = message.block_message;
  }

  find-send :
      (queue : SequenceBuffer (MessageSendQueueEntry P T)) (oldest t : ℕ)
      (x : MessageSendQueueEntry P T)
      → IsSending queue oldest
      → available queue queue.sequence ≡ true
      → t < 65536
      → find (appended queue x) t ≡ (if t == queue.sequence then some x else find queue t)
  find-send queue oldest t x v free ht = find-appended queue x t v.valid v.several ht (λ y e.
      let (_, at_most, _) = v.between t y ht e in
      let r = room queue oldest v free in omega (arith, at_most, r))

  pub append-IsSending :
      (queue : SequenceBuffer (MessageSendQueueEntry P T)) (oldest : ℕ)
      (x : MessageSendQueueEntry P T)
      → IsSending queue oldest
      → available queue queue.sequence ≡ true
      → x.message.id ≡ queue.sequence
      → IsSending (appended queue x) oldest
  append-IsSending queue oldest x v free named =
      let roomy = room queue oldest v free in
      record {
        valid =
            put-IsValid queue (appended queue x) queue.sequence x v.valid v.several v.valid.top_fits
              (put-sequence queue x v.valid.top_fits);
        several = v.several;
        small = v.small;
        oldest_fits = v.oldest_fits;
        behind = omega (arith, roomy, v.small);
        held = inr (still_held (ℕ_discrete oldest queue.sequence));
        between = λ t e ht found. elim (ℕ_discrete t queue.sequence) [
          | yes at ↦
              let new : some x ≡ some e =
                sym
                  (find-send queue oldest t x v free ht ∙ rw ((==_iff t queue.sequence).1 at) refl)
                ∙ found in
              let same : x ≡ e = cc in
              (
                omega (arith, at, v.valid.top_fits),
                omega (arith, at, v.valid.top_fits, v.oldest_fits, v.small, roomy),
                sym (ap (λ (y : MessageSendQueueEntry P T). y.message.id) same) ∙ named ∙ sym at,
              )
          | no other ↦
              let differ : (t == queue.sequence) ≡ false = ground arith in
              let old : find queue t ≡ some e =
                sym (find-send queue oldest t x v free ht ∙ rw differ refl) ∙ found in
              let (ahead, at_most, id) = v.between t e ht old in
              (
                omega (arith, ahead, at_most, v.small, roomy),
                omega (arith, ahead, at_most, v.small, roomy),
                id,
              )
        ];
      }
    where
      still_held :
          Dec (oldest ≡ queue.sequence)
          → (e : MessageSendQueueEntry P T) × (find (appended queue x) oldest ≡ some e)
      still_held (yes at) = (
        x,
        find-send queue oldest oldest x v free v.oldest_fits
            ∙ rw ((==_iff oldest queue.sequence).1 at) refl,
      )
      still_held (no other) = elim v.held [
        | inl at ↦ absurd (other at)
        | inr (e, found) ↦
            let differ : (oldest == queue.sequence) ≡ false = ground arith in
            (e, find-send queue oldest oldest x v free v.oldest_fits ∙ rw differ refl ∙ found)
      ]

  -- The block of a message, if it is one, is allowed and has a size that is.
  abbrev pub is_allowed : ReliableOrderedChannel P T → Message P → Bool
  is_allowed c m =
      not m.block_message
      || (not c.config.disable_blocks
          && ltb 0 (get_block_size m)
          && leb (get_block_size m) c.config.max_block_size)

  -- On a channel without an error whose send queue keeps to the ids between the oldest unacked and the
  -- next one, has room and is numbered like the channel, `SendMsg` of a message whose block, if any, is
  -- allowed fails no assertion. The message is then found under the next id, numbered with it, with the
  -- bits that it takes and not sent yet; whatever was found under another 16-bit id still is; the next id
  -- goes up by one round the 16-bit numbers; and the send queue keeps to its ids.
  pub send_msg_lem :
      (clock : Clock T) (bits : Message P → ℕ) (c : ReliableOrderedChannel P T) (m : Message P)
      (t : ℕ)
      → IsSending c.message_send_queue c.oldest_unacked_message_id
      → c.send_message_id ≡ c.message_send_queue.sequence
      → is_error c.error ≡ false
      → can_send_msg c ≡ true
      → is_allowed c m ≡ true
      → t < 65536
      → (c' : ReliableOrderedChannel P T) × (send_msg clock bits c m ≡ some c')
        × (c'.send_message_id ≡ (c.send_message_id + 1) % 65536)
        × (c'.send_message_id ≡ c'.message_send_queue.sequence)
        × IsSending c'.message_send_queue c'.oldest_unacked_message_id
        × (find c'.message_send_queue t ≡ (
            if t == c.send_message_id
            then some (entry_of clock bits m c.send_message_id)
            else find c.message_send_queue t))
  unfolding send_msg can_send_msg
  send_msg_lem clock bits c m t v at ok roomy allowed ht =
      let x = entry_of clock bits m c.send_message_id in
      let queue = appended c.message_send_queue x in
      let free : available c.message_send_queue c.message_send_queue.sequence ≡ true =
        ap (λ n. available c.message_send_queue n) (sym at) ∙ roomy in
      let stored : put c.message_send_queue c.send_message_id x ≡ some queue =
        ap (λ n. put c.message_send_queue n x) at
        ∙ put-sequence c.message_send_queue x v.valid.top_fits in
      let (unblocked, sized, fits) =
        three_tests m.block_message c.config.disable_blocks (ltb 0 (get_block_size m))
          (leb (get_block_size m) c.config.max_block_size) allowed in
      (
        record c {
          message_send_queue = queue;
          messages_sent = (c.messages_sent + 1) % 2 ^ 64;
          send_message_id = (c.send_message_id + 1) % 65536;
        },
        rw (roomy, ok, unblocked, stored, sized, fits) refl,
        refl,
        ap (λ n. (n + 1) % 65536) at,
        append-IsSending c.message_send_queue c.oldest_unacked_message_id x v free
            (omega (arith, at, v.valid.top_fits)),
        find-send c.message_send_queue c.oldest_unacked_message_id t x v free ht
            ∙ ap (λ n. if t == n then some x else find c.message_send_queue t) (sym at),
      )

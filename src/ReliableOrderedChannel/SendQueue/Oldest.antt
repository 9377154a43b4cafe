-- ===== src/ReliableOrderedChannel/SendQueue/Oldest.antt =====
-- Where the loop of `UpdateOldestUnackedMessageId` ends.
use libyojimbo.Prelude.{
  ℕ, zero, suc, ◌+◌, ◌%◌, ◌<◌, ◌≡◌, ◌≢◌, ◌⊎◌, inl, inr, refl, arith, true, false, none, some, ◌==◌,
  Option-cases,
}
use libyojimbo.Sequence.{sequence_greater_than}
use libyojimbo.Sequence.Order.{steps_ahead}
use libyojimbo.SequenceBuffer.{SequenceBuffer, find}
use libyojimbo.ReliableOrderedChannel.{ReliableOrderedChannel, MessageSendQueueEntry}
use libyojimbo.ReliableOrderedChannel.SendQueue.{oldest_from, update_oldest_unacked_message_id}
use native.Mathlib.Decide.{ℕ_discrete}

-- Where a search from `oldest` ends: at the first id that the queue holds, or at the stop.
pub record IsOldest {P T : Type 0} (queue : SequenceBuffer (MessageSendQueueEntry P T))
    (stop oldest found : ℕ) : Type 0 where
  pub fits : found < 65536
  pub ahead : steps_ahead found oldest + steps_ahead stop found ≡ steps_ahead stop oldest
  pub held : (found ≡ stop) ⊎ ((e : MessageSendQueueEntry P T) × (find queue found ≡ some e))
  pub passed :
      (t : ℕ) → t < 65536 → steps_ahead t oldest < steps_ahead found oldest → find queue t ≡ none

module _ {P T : Type 0} (queue : SequenceBuffer (MessageSendQueueEntry P T)) (stop : ℕ)
    (hs : stop < 65536) where
  here-IsOldest :
      (oldest : ℕ)
      → oldest < 65536
      → (oldest ≡ stop) ⊎ ((e : MessageSendQueueEntry P T) × (find queue oldest ≡ some e))
      → IsOldest queue stop oldest oldest
  here-IsOldest oldest ho h = record {
    fits = ho;
    ahead = omega arith;
    held = h;
    passed = λ t ht lt. absurd (omega arith);
  }

  next-IsOldest :
      (oldest found : ℕ)
      → oldest < 65536
      → oldest ≢ stop
      → find queue oldest ≡ none
      → IsOldest queue stop ((oldest + 1) % 65536) found
      → IsOldest queue stop oldest found
  next-IsOldest oldest found ho ne gone o =
      let further : steps_ahead found oldest ≡ steps_ahead found ((oldest + 1) % 65536) + 1 =
        omega (arith, o.fits, o.ahead, ne) in
      record {
        fits = o.fits;
        ahead = omega (arith, o.ahead, further);
        held = o.held;
        passed = λ t ht lt. elim (ℕ_discrete t oldest) [
          | yes e ↦ rw e gone
          | no other ↦ o.passed t ht (omega (arith, further, lt, other))
        ];
      }

  pub oldest_from_lem :
      (rounds oldest : ℕ)
      → oldest < 65536
      → steps_ahead stop oldest < rounds
      → (found : ℕ) × (oldest_from rounds queue stop oldest ≡ some found)
        × IsOldest queue stop oldest found
  unfolding oldest_from
  oldest_from_lem zero oldest ho h = absurd (omega arith)
  oldest_from_lem (suc rounds) oldest ho h = elim (ℕ_discrete oldest stop) [
    | yes e ↦
        let there : (oldest == stop) ≡ true = ground arith in
        (oldest, rw there refl, here-IsOldest oldest ho (inl e))
    | no ne ↦
        let on : (oldest == stop) ≡ false = ground arith in
        elim (Option-cases (find queue oldest)) [
          | inr (entry, e) ↦ (oldest, rw (on, e) refl, here-IsOldest oldest ho (inr (entry, e)))
          | inl gone ↦
              let (found, done, o) =
                oldest_from_lem rounds ((oldest + 1) % 65536) (omega arith) (omega arith) in
              (found, rw (on, gone) done, next-IsOldest oldest found ho ne gone o)
        ]
  ]

-- With a 16-bit stop that lies less than 32768 ids ahead of a 16-bit oldest id, the loop of
-- `UpdateOldestUnackedMessageId` ends within 65536 rounds and its assertion holds. The new oldest id is
-- between the old one and the stop; it is the stop or an id that the send queue holds; and the queue
-- holds no id between the old one and it.
pub update_oldest_unacked_message_id_lem :
    {P T : Type 0} (c : ReliableOrderedChannel P T)
    → c.oldest_unacked_message_id < 65536
    → c.message_send_queue.sequence < 65536
    → steps_ahead c.message_send_queue.sequence c.oldest_unacked_message_id < 32768
    → (found : ℕ) × (update_oldest_unacked_message_id c
        ≡ some (record c { oldest_unacked_message_id = found }))
      × IsOldest c.message_send_queue c.message_send_queue.sequence c.oldest_unacked_message_id
          found
unfolding update_oldest_unacked_message_id
update_oldest_unacked_message_id_lem c ho hs near =
    let stop = c.message_send_queue.sequence in
    let (found, done, o) =
      oldest_from_lem c.message_send_queue stop hs 65536 c.oldest_unacked_message_id ho
        (omega arith) in
    (found, rw (done, not_past found stop o.fits hs (omega (arith, o.ahead, near))) refl, o)
  where
    not_past :
        (found stop : ℕ)
        → found < 65536
        → stop < 65536
        → steps_ahead stop found < 32768
        → sequence_greater_than found stop ≡ false
    not_past found stop hf hs near = unfold sequence_greater_than in ground arith
